-- ===== src/Base58/Integration.antt =====
-- The decoder of integration/typescript/src/base58.ts against the one of typescript/src.
use chancery_integration_exa.Common.{
  ℕ, zero, suc, ◌≡◌, refl, sym, ◌∙◌, ap, arith, some, List, [], ◌∷◌, ◌++◌, length, reverse,
  replicate, All, ok, err, inl, inr, Bool, true, false, not, ◌&&◌, Bool-cases, Option-cases,
  Result-cases, ◌>>=◌, empty_base58, ◌⊎◌, ◌↔◌,
}
use mathlib.Core.Path.{subst}
use mathlib.Core.List.{append-nil}
use chancery_integration_exa.Common.Radix.{multiply_add, spill, multiply_add_start}
use chancery_integration_exa.Base58.{
  base58_alphabet, leading_count, alphabet_index, decode_characters, decode_base58,
  integration_decode_base58, every_zero, assert_public_key,
}
use chancery_integration_exa.Base58.Letters.{leading_split, leading_rest, zero_index}
use chancery_integration_exa.Base58.RoundTrip.{decode_split, decode_ones}

one_index : alphabet_index b'1' ≡ some 0
unfolding alphabet_index base58_alphabet
one_index = refl

-- Leading `1`s add nothing to an empty list of bytes.
decode_characters_ones :
    (n : ℕ) (cs : List ℕ) → decode_characters [] (replicate n b'1' ++ cs) ≡ decode_characters [] cs
unfolding decode_characters multiply_add spill
decode_characters_ones zero cs = refl
decode_characters_ones (suc n) cs = rw (decode_characters, one_index) (decode_characters_ones n cs)

-- The first character after them makes the two initial lists, `[]` and `[0]`, agree.
start_same :
    (c : ℕ) (cs : List ℕ)
    → leading_count b'1' (c ∷ cs) ≡ 0
    → decode_characters [] (c ∷ cs) ≡ decode_characters (0 ∷ []) (c ∷ cs)
unfolding decode_characters
start_same c cs h = elim (Option-cases (alphabet_index c)) [
  | inl k ↦ rw (k, decode_characters)
  | inr (zero, k) ↦ absurd (unfold leading_count in ground (arith, zero_index c k))
  | inr (suc i, k) ↦
      rw (k, decode_characters)
        (ap (λ t. decode_characters t cs)
          (multiply_add_start 58 256 (suc i) (omega arith) (omega arith) (omega arith)))
]

integration_split :
    (n : ℕ) (cs : List ℕ)
    → leading_count b'1' cs ≡ 0
    → (decode_characters [] (replicate n b'1' ++ cs) >>= λ bytes.
        ok (replicate n 0 ++ reverse bytes))
      ≡ decode_base58 (replicate n b'1' ++ cs)
integration_split n [] h =
    rw (decode_characters_ones n [])
      (unfold decode_characters in (ap ok (append-nil _) ∙ sym (decode_ones n)))
integration_split n (c ∷ cs) h =
    rw (decode_characters_ones n (c ∷ cs), start_same c cs h) (sym (decode_split n c cs h))

-- On every text but the empty one the two decoders agree, in the bytes and in the error. The empty
-- text is no byte to one and an error to the other.
pub integration_decode_base58-decode_base58 :
    (c : ℕ) (cs : List ℕ)
    → (integration_decode_base58 (c ∷ cs) ≡ decode_base58 (c ∷ cs))
      × (integration_decode_base58 [] ≡ err empty_base58)
      × (decode_base58 [] ≡ ok [])
unfolding integration_decode_base58
integration_decode_base58-decode_base58 c cs = (
  subst
      (λ t.
        (decode_characters [] t >>= λ bytes.
        ok (replicate (leading_count b'1' (c ∷ cs)) 0 ++ reverse bytes))
        ≡ decode_base58 t)
      (leading_split b'1' (c ∷ cs)) (integration_split _ _ (leading_rest b'1' (c ∷ cs))),
  refl,
  unfold decode_base58 in refl,
)

every_zero_iff : (bytes : List ℕ) → (every_zero bytes ≡ true) ↔ All (λ b. b ≡ 0) bytes
unfolding every_zero
every_zero_iff [] = (λ _. tt, λ _. refl)
every_zero_iff (b ∷ bs) = (
  λ e. (ground arith, (every_zero_iff bs).0 (ground arith)),
  λ h. ground (arith, h.0, (every_zero_iff bs).1 h.1),
)

-- A text is accepted as a key exactly when it decodes to 32 bytes which are not all 0, unless the
-- default key is allowed.
pub assert_public_key_iff :
    (value : List ℕ) (allow : Bool)
    → (assert_public_key value allow ≡ ok tt) ↔ (
        (bytes : List ℕ) × (integration_decode_base58 value ≡ ok bytes)
        × (length bytes ≡ 32)
        × ((allow ≡ true) ⊎ ¬ (All (λ b. b ≡ 0) bytes)))
unfolding assert_public_key
assert_public_key_iff value allow = (
  λ e. elim (Result-cases (integration_decode_base58 value)) [
    | inl (bytes, k) ↦ (bytes, k, ground arith, accepted bytes (ground arith))
    | inr (x, k) ↦ absurd (ground arith)
  ],
  λ (bytes, k, sized, allowed).
      rw (k, assert_public_key)
        (elim allowed [
          | inl e ↦ ground arith
          | inr nonzero ↦ elim (Bool-cases (every_zero bytes)) [
            | inl z ↦ absurd (nonzero ((every_zero_iff bytes).0 z))
            | inr z ↦ ground arith
          ]
        ]),
)
  where
    accepted :
        (bytes : List ℕ)
        → (not allow && every_zero bytes) ≡ false
        → (allow ≡ true) ⊎ ¬ (All (λ b. b ≡ 0) bytes)
    accepted bytes e = elim (Bool-cases allow) [
      | inl a ↦ inl a
      | inr a ↦ inr (λ h. absurd (ground (arith, (every_zero_iff bytes).1 h)))
    ]
