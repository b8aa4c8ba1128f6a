-- ===== src/Codec/Primitives.antt =====
-- Every primitive type satisfies both laws.
use chancery_integration_exa.Common.{
  ℕ, ◌*◌, ◌^◌, ◌≤◌, ◌<◌, ◌≡◌, refl, ap, ◌∙◌, arith, List, [], ◌∷◌, ◌++◌, length, Result, Error, ok,
  All, invalid_boolean_tag, Bool, true, false, >>=-eq-ok,
}
use mathlib.Core.Path.{subst}
use native.Mathlib.Nat.{pow-le-pow_right}
use chancery_integration_exa.Common.Int.{ℤ, pos, negsuc}
use chancery_integration_exa.Base58.{IsByte, encode_base58}
use chancery_integration_exa.Base58.RoundTrip.{decode_base58-encode_base58}
use chancery_integration_exa.Values.{Value, boolean, string, is_safe_integer, integer_from_value}
use chancery_integration_exa.Wire.{
  Reader, read_bytes, decode_with, decode_unsigned_integer, decode_signed_integer, encode_unsigned,
  encode_unsigned_integer, encode_signed_integer,
}
use chancery_integration_exa.Wire.Integers.{encode_unsigned_iff, decode_unsigned_lt}
use chancery_integration_exa.Wire.Signed.{encode_signed_iff}
use chancery_integration_exa.Wire.Reading.{At, advance, read_bytes_takes, read_bytes_inv}
use chancery_integration_exa.Schema.{
  PrimitiveTypeName, u8, u16, u32, u64, u128, i64, i128, bool, pubkey, unsupported,
}
use chancery_integration_exa.Codec.{
  unsigned_number, unsigned_bigint, signed_bigint, tag_of_byte, decode_tag, public_key_bytes,
  decode_boolean, decode_primitive, encode_boolean, encode_public_key, encode_primitive,
}
use chancery_integration_exa.Codec.Laws.{Reads, Accepts, decode_with-Reads, decode_with-Accepts}

encode_unsigned-length :
    (z : ℤ) (count : ℕ) (bs : List ℕ) → encode_unsigned z count ≡ ok bs → length bs ≡ count
encode_unsigned-length (pos n) count bs e = ((encode_unsigned_iff n count bs).0 e).0
encode_unsigned-length (negsuc n) count bs e = unfold encode_unsigned in cc

unsigned_length :
    (count : ℕ) (v : Value) (bs : List ℕ)
    → encode_unsigned_integer v count ≡ ok bs
    → length bs ≡ count
unfolding encode_unsigned_integer
unsigned_length count v bs e =
    let (z, _, k) = >>=-eq-ok (integer_from_value v) _ e in encode_unsigned-length z count bs k

signed_length :
    (count : ℕ)
    → 1 ≤ count
    → (v : Value) (bs : List ℕ) → encode_signed_integer v count ≡ ok bs
    → length bs ≡ count
unfolding encode_signed_integer
signed_length count some v bs e =
    let (z, _, k) = >>=-eq-ok (integer_from_value v) _ e in
    ((encode_signed_iff z count bs some).0 k).0

-- A number of at most 32 bits is a safe integer.
number_back :
    (count : ℕ) (bs : List ℕ)
    → count ≤ 4
    → length bs ≡ count
    → All IsByte bs
    → encode_unsigned_integer (unsigned_number bs) count ≡ ok bs
unfolding encode_unsigned_integer integer_from_value is_safe_integer
number_back count bs small sized low = ground (
  arith,
  decode_unsigned_lt bs low,
  below,
  (encode_unsigned_iff (decode_unsigned_integer bs) count bs).1 (sized, low, refl),
)
  where
    below : decode_unsigned_integer bs < 2 ^ 53
    below = omega (
      arith,
      decode_unsigned_lt bs low,
      pow-le-pow_right {n = 2} (omega arith) {i = length bs * 8} {j = 53} (omega arith),
    )

bigint_back :
    (count : ℕ) (bs : List ℕ)
    → length bs ≡ count
    → All IsByte bs
    → encode_unsigned_integer (unsigned_bigint bs) count ≡ ok bs
unfolding encode_unsigned_integer integer_from_value
bigint_back count bs sized low =
    (encode_unsigned_iff (decode_unsigned_integer bs) count bs).1 (sized, low, refl)

signed_back :
    (count : ℕ) (bs : List ℕ)
    → 1 ≤ count
    → length bs ≡ count
    → All IsByte bs
    → encode_signed_integer (signed_bigint bs) count ≡ ok bs
unfolding encode_signed_integer integer_from_value
signed_back count bs some sized low =
    (encode_signed_iff (decode_signed_integer bs) count bs some).1 (sized, low, refl)

number_Reads :
    (count : ℕ)
    → count ≤ 4
    → Reads (λ v. encode_unsigned_integer v count) (decode_with count unsigned_number)
number_Reads count small =
    decode_with-Reads _ count unsigned_number (λ bs. number_back count bs small)

bigint_Reads :
    (count : ℕ) → Reads (λ v. encode_unsigned_integer v count) (decode_with count unsigned_bigint)
bigint_Reads count = decode_with-Reads _ count unsigned_bigint (bigint_back count)

signed_Reads :
    (count : ℕ)
    → 1 ≤ count
    → Reads (λ v. encode_signed_integer v count) (decode_with count signed_bigint)
signed_Reads count some = decode_with-Reads _ count signed_bigint (λ bs. signed_back count bs some)

one_byte : (b : ℕ) (bs : List ℕ) → length bs ≡ 1 → decode_unsigned_integer bs ≡ b → bs ≡ b ∷ []
unfolding decode_unsigned_integer
one_byte b [] e f = absurd (omega arith)
one_byte b (c ∷ []) e f = ap (λ t. t ∷ []) (omega arith)
one_byte b (c ∷ d ∷ bs) e f = absurd (omega arith)

abbrev pub tag : Bool → ℕ
tag false = 0
tag true = 1

tag_value :
    (bad : Error) (bs : List ℕ) (next r' : Reader) (b : Bool)
    → tag_of_byte bad (bs, next) ≡ ok (b, r')
    → (decode_unsigned_integer bs ≡ tag b) × (next ≡ r')
unfolding tag_of_byte
tag_value bad bs next r' b e = (ground arith, ground arith)

pub decode_tag_inv :
    (bad : Error) (r : Reader) (xs : List ℕ) (b : Bool) (r' : Reader)
    → At r xs
    → decode_tag bad r ≡ ok (b, r')
    → (rest : List ℕ) × (xs ≡ tag b ∷ rest) × At r' rest
unfolding decode_tag
decode_tag_inv bad r xs b r' h e =
    let ((bs, next), read, shown) = >>=-eq-ok (read_bytes 1 r) _ e in
    let (rest, split, sized, left) = read_bytes_inv 1 r xs bs next h read in
    let (amount, moved) = tag_value bad bs next r' b shown in
    (
      rest,
      split ∙ ap (λ t. t ++ rest) (one_byte (tag b) bs sized amount),
      subst (λ t. At t rest) moved left,
    )

pub decode_tag_takes :
    (bad : Error) (r : Reader) (b : Bool) (rest : List ℕ)
    → At r (tag b ∷ rest)
    → (decode_tag bad r ≡ ok (b, advance 1 r)) × At (advance 1 r) rest
unfolding decode_tag tag_of_byte decode_unsigned_integer
decode_tag_takes bad r false rest h =
    let (read, left) = read_bytes_takes 1 r (0 ∷ []) rest h refl in (rw read, left)
decode_tag_takes bad r true rest h =
    let (read, left) = read_bytes_takes 1 r (1 ∷ []) rest h refl in (rw read, left)

encode_boolean-tag : (b : Bool) → encode_boolean (boolean b) ≡ ok (tag b ∷ [])
unfolding encode_boolean
encode_boolean-tag false = refl
encode_boolean-tag true = refl

boolean_Reads : Reads encode_boolean decode_boolean
unfolding decode_boolean
boolean_Reads r xs v r' h low e =
    let ((b, next), read, shown) = >>=-eq-ok (decode_tag invalid_boolean_tag r) _ e in
    let (rest, split, left) = decode_tag_inv invalid_boolean_tag r xs b next h read in
    (
      tag b ∷ [],
      rest,
      split,
      subst (λ t. At t rest) (cc shown) left,
      subst (λ t. encode_boolean t ≡ ok (tag b ∷ [])) (cc shown) (encode_boolean-tag b),
    )

boolean_Accepts : Accepts encode_boolean decode_boolean
unfolding decode_boolean encode_boolean
boolean_Accepts r (boolean b) bs rest e h =
    let same : bs ≡ tag b ∷ [] = ground (arith, encode_boolean-tag b) in
    let (read, left) =
      decode_tag_takes invalid_boolean_tag r b rest (subst (λ t. At r (t ++ rest)) same h) in
    (boolean b, advance 1 r, rw read, left)
boolean_Accepts r _ bs rest e h = absurd (cc)

module _ (atob : List ℕ → Result (List ℕ)) where
  public_key_Reads :
      Reads (encode_public_key atob) (decode_with 32 (λ bs. string (encode_base58 bs)))
  unfolding encode_public_key public_key_bytes
  public_key_Reads =
      decode_with-Reads (encode_public_key atob) 32 (λ bs. string (encode_base58 bs))
        (λ bs sized low. rw (decode_base58-encode_base58 bs low, sized))

  public_key_length_lem :
      (v : Value) (bs : List ℕ) → encode_public_key atob v ≡ ok bs → length bs ≡ 32
  unfolding encode_public_key
  public_key_length_lem v bs e =
      let (key, _, checked) = >>=-eq-ok (public_key_bytes atob v) _ e in ground (arith, checked)

  pub primitive_Reads :
      (p : PrimitiveTypeName) → Reads (encode_primitive atob p) (decode_primitive p)
  unfolding encode_primitive decode_primitive
  primitive_Reads u8 = number_Reads 1 (omega arith)
  primitive_Reads u16 = number_Reads 2 (omega arith)
  primitive_Reads u32 = number_Reads 4 (omega arith)
  primitive_Reads u64 = bigint_Reads 8
  primitive_Reads u128 = bigint_Reads 16
  primitive_Reads i64 = signed_Reads 8 (omega arith)
  primitive_Reads i128 = signed_Reads 16 (omega arith)
  primitive_Reads bool = boolean_Reads
  primitive_Reads pubkey = public_key_Reads
  primitive_Reads unsupported = λ r xs v r' h low e. absurd (cc)

  pub primitive_Accepts :
      (p : PrimitiveTypeName) → Accepts (encode_primitive atob p) (decode_primitive p)
  unfolding encode_primitive decode_primitive
  primitive_Accepts u8 = decode_with-Accepts _ 1 unsigned_number (unsigned_length 1)
  primitive_Accepts u16 = decode_with-Accepts _ 2 unsigned_number (unsigned_length 2)
  primitive_Accepts u32 = decode_with-Accepts _ 4 unsigned_number (unsigned_length 4)
  primitive_Accepts u64 = decode_with-Accepts _ 8 unsigned_bigint (unsigned_length 8)
  primitive_Accepts u128 = decode_with-Accepts _ 16 unsigned_bigint (unsigned_length 16)
  primitive_Accepts i64 = decode_with-Accepts _ 8 signed_bigint (signed_length 8 (omega arith))
  primitive_Accepts i128 = decode_with-Accepts _ 16 signed_bigint (signed_length 16 (omega arith))
  primitive_Accepts bool = boolean_Accepts
  primitive_Accepts pubkey =
      decode_with-Accepts _ 32 (λ bs. string (encode_base58 bs)) public_key_length_lem
  primitive_Accepts unsupported = λ r v bs rest e h. absurd (cc)
