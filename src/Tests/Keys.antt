-- ===== src/Tests/Keys.antt =====
-- Runs of base58 and of the integers on the wire, and their theorems.
use chancery_integration_exa.Common.{
  ℕ, ◌≡◌, ◌↔◌, ◌⊎◌, refl, arith, List, [], ◌∷◌, All, length, replicate, All-replicate, Bool, true,
  ok, err, empty_base58,
}
use chancery_integration_exa.Common.Int.{pos, negsuc}
use chancery_integration_exa.Base58.{
  IsByte, KeyInput, raw, text, encode_base58, decode_base58, decode_key_input, decode_public_key,
  normalize_public_key, integration_decode_base58, assert_public_key, leading_count,
  decode_characters, alphabet_index, base58_alphabet,
}
use chancery_integration_exa.Common.Radix.{spill, multiply_add}
use chancery_integration_exa.Base58.RoundTrip.{
  decode_base58-encode_base58, encode_base58-decode_base58,
}
use chancery_integration_exa.Base58.Keys.{normalize_public_key_idempotent}
use chancery_integration_exa.Base58.Integration.{
  integration_decode_base58-decode_base58, assert_public_key_iff,
}
use chancery_integration_exa.Wire.{
  encode_unsigned, decode_unsigned_integer, encode_signed, decode_signed_integer,
}
use chancery_integration_exa.Wire.Integers.{encode_unsigned_iff}
use chancery_integration_exa.Wire.Signed.{encode_signed_iff}

abbrev low_first : List ℕ
low_first = 2 ∷ (1 ∷ [])

abbrev minus_two : List ℕ
minus_two = 254 ∷ []

abbrev some_bytes : List ℕ
some_bytes = 0 ∷ (1 ∷ (0 ∷ []))

-- "15R" is 0, then 256 in base 58.
some_text_decoded : decode_base58 (b'1' ∷ (b'5' ∷ (b'R' ∷ []))) ≡ ok some_bytes
unfolding decode_base58 decode_characters leading_count alphabet_index base58_alphabet multiply_add
    spill
some_text_decoded = refl

decode_base58-encode_base58_example : decode_base58 (encode_base58 some_bytes) ≡ ok some_bytes
decode_base58-encode_base58_example =
    decode_base58-encode_base58 some_bytes (omega arith, (omega arith, (omega arith, tt)))

encode_base58-decode_base58_example :
    (encode_base58 some_bytes ≡ b'1' ∷ (b'5' ∷ (b'R' ∷ []))) × All IsByte some_bytes
encode_base58-decode_base58_example =
    encode_base58-decode_base58 (b'1' ∷ (b'5' ∷ (b'R' ∷ []))) some_bytes some_text_decoded

abbrev nines : KeyInput
nines = raw (replicate 32 9)

nines_normalized : normalize_public_key nines ≡ ok (encode_base58 (replicate 32 9))
unfolding normalize_public_key decode_public_key decode_key_input
nines_normalized = refl

normalize_public_key_idempotent_example :
    normalize_public_key (text (encode_base58 (replicate 32 9)))
    ≡ ok (encode_base58 (replicate 32 9))
normalize_public_key_idempotent_example =
    normalize_public_key_idempotent nines (encode_base58 (replicate 32 9))
      (All-replicate IsByte 32 9 (omega arith)) nines_normalized

integration_decode_base58-decode_base58_example :
    (integration_decode_base58 (b'1' ∷ (b'z' ∷ [])) ≡ decode_base58 (b'1' ∷ (b'z' ∷ [])))
    × (integration_decode_base58 [] ≡ err empty_base58)
    × (decode_base58 [] ≡ ok [])
integration_decode_base58-decode_base58_example =
    integration_decode_base58-decode_base58 b'1' (b'z' ∷ [])

assert_public_key_iff_example : (assert_public_key (replicate 32 b'1') true ≡ ok tt) ↔ (
    (bytes : List ℕ) × (integration_decode_base58 (replicate 32 b'1') ≡ ok bytes)
    × (length bytes ≡ 32)
    × ((◌≡◌ {A = Bool} true true) ⊎ ¬ (All (λ b. b ≡ 0) bytes)))
assert_public_key_iff_example = assert_public_key_iff (replicate 32 b'1') true

encode_unsigned_iff_example :
    (encode_unsigned (pos 258) 2 ≡ ok low_first)
    ↔ ((length low_first ≡ 2) × All IsByte low_first × (decode_unsigned_integer low_first ≡ 258))
encode_unsigned_iff_example = encode_unsigned_iff 258 2 low_first

encode_signed_iff_example :
    (encode_signed (negsuc 1) 1 ≡ ok minus_two)
    ↔ ((length minus_two ≡ 1) × All IsByte minus_two × (decode_signed_integer minus_two ≡ negsuc 1))
encode_signed_iff_example = encode_signed_iff (negsuc 1) 1 minus_two (omega arith)
