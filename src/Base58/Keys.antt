-- ===== src/Base58/Keys.antt =====
-- `decodePublicKey` and `normalizePublicKey`: 32 bytes, and one spelling for each key.
use chancery_integration_exa.Common.{
  ℕ, ◌≡◌, sym, ◌∙◌, arith, List, [], length, All, ok, inl, inr, Result-cases,
}
use mathlib.Core.Path.{subst}
use chancery_integration_exa.Base58.{
  IsByte, encode_base58, decode_base58, KeyInput, text, raw, decode_key_input, decode_public_key,
  normalize_public_key,
}
use chancery_integration_exa.Base58.RoundTrip.{
  decode_base58-encode_base58, encode_base58-decode_base58,
}

text_key : (t bytes : List ℕ) → decode_public_key (text t) ≡ ok bytes → decode_base58 t ≡ ok bytes
unfolding decode_public_key decode_key_input
text_key t bytes e = ground arith

raw_bytes : (given bytes : List ℕ) → decode_public_key (raw given) ≡ ok bytes → given ≡ bytes
unfolding decode_public_key decode_key_input
raw_bytes given bytes e = ground arith

normalize_encoded :
    (s given : List ℕ) {bytes : List ℕ}
    → given ≡ bytes
    → length bytes ≡ 32
    → encode_base58 bytes ≡ s
    → All IsByte given
    → normalize_public_key (text s) ≡ ok s
unfolding normalize_public_key decode_public_key decode_key_input
normalize_encoded s given {bytes} e sized same low =
    let decoded : decode_base58 s ≡ ok bytes =
      subst (λ t. decode_base58 t ≡ ok bytes) same
        (decode_base58-encode_base58 bytes (subst (All IsByte) e low)) in
    ground arith

-- The bytes of a key that is given as bytes.
abbrev pub key_bytes : KeyInput → List ℕ
key_bytes (text t) = []
key_bytes (raw bytes) = bytes

-- A key that is normalised decodes to 32 bytes, and its normal form is their base58 text.
pub normalize_public_key_lem :
    (key : KeyInput) (s : List ℕ)
    → normalize_public_key key ≡ ok s
    → (bytes : List ℕ) × (decode_public_key key ≡ ok bytes)
      × (length bytes ≡ 32)
      × (encode_base58 bytes ≡ s)
unfolding normalize_public_key decode_public_key
normalize_public_key_lem key s e = elim (Result-cases (decode_key_input key)) [
  | inl (bytes, k) ↦ (bytes, ground arith, ground arith, ground arith)
  | inr (x, k) ↦ absurd (ground arith)
]

-- A key in text form is normalised to itself.
pub decode_public_key-length :
    (key : KeyInput) (bytes : List ℕ) → decode_public_key key ≡ ok bytes → length bytes ≡ 32
unfolding decode_public_key
decode_public_key-length key bytes e = ground arith

-- A text that is a key decodes to 32 bytes, whose text it is.
pub decode_public_key_inv :
    (t bytes : List ℕ)
    → decode_public_key (text t) ≡ ok bytes
    → (length bytes ≡ 32) × (encode_base58 bytes ≡ t)
decode_public_key_inv t bytes k = (
  decode_public_key-length (text t) bytes k,
  (encode_base58-decode_base58 t bytes (text_key t bytes k)).0,
)

pub normalize_public_key_text : (t s : List ℕ) → normalize_public_key (text t) ≡ ok s → s ≡ t
normalize_public_key_text t s e =
    let (bytes, k, _, same) = normalize_public_key_lem (text t) s e in
    sym same ∙ (encode_base58-decode_base58 t bytes (text_decodes k)).0
  where
    text_decodes :
        {bytes : List ℕ} → decode_public_key (text t) ≡ ok bytes → decode_base58 t ≡ ok bytes
    text_decodes {bytes} k = text_key t bytes k

normalize_again :
    (key : KeyInput) (s : List ℕ)
    → All IsByte (key_bytes key)
    → normalize_public_key key ≡ ok s
    → (bytes : List ℕ) × (decode_public_key key ≡ ok bytes)
      × (length bytes ≡ 32)
      × (encode_base58 bytes ≡ s)
    → normalize_public_key (text s) ≡ ok s
normalize_again (text t) s low e _ =
    subst (λ u. normalize_public_key (text u) ≡ ok s) (sym (normalize_public_key_text t s e)) e
normalize_again (raw given) s low e (bytes, k, sized, same) =
    normalize_encoded s given (raw_bytes given bytes k) sized same low

-- Normalising a normal form changes nothing, whether the key was a text or bytes.
pub normalize_public_key_idempotent :
    (key : KeyInput) (s : List ℕ)
    → All IsByte (key_bytes key)
    → normalize_public_key key ≡ ok s
    → normalize_public_key (text s) ≡ ok s
normalize_public_key_idempotent key s low e =
    normalize_again key s low e (normalize_public_key_lem key s e)
