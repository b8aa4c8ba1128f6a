-- ===== src/Codec/Present.antt =====
-- Which decoders return neither `null` nor `undefined`.
use Prim.Native.String.{String}
use mathlib.Core.Path.{subst}
use chancery_integration_exa.Common.{
  ℕ, ◌≡◌, refl, arith, List, ok, Bool, true, false, if◌then◌else◌, inl, inr, >>=-eq-ok, Bool-cases,
  invalid_option_tag, invalid_boolean_tag,
}
use chancery_integration_exa.Base58.{encode_base58}
use chancery_integration_exa.Values.{Value, null, boolean, string, bytes, array}
use chancery_integration_exa.Schema.{
  PrimitiveTypeName, u8, u16, u32, u64, u128, i64, i128, bool, pubkey, unsupported, TypeSchema,
  primitive, array_of, option_of, vector_of, defined, is_u8, is_option,
}
use chancery_integration_exa.Wire.{Reader, read_bytes, Decoder, decode_with}
use chancery_integration_exa.Records.{is_undefined}
use chancery_integration_exa.Records.StructLaws.{NeverUndefined}
use chancery_integration_exa.Codec.{
  is_absent, unsigned_number, unsigned_bigint, signed_bigint, decode_tag, decode_boolean,
  decode_primitive, decode_option, decode_items, decode_array, decode_count, decode_vector,
  decode_byte_array, decode_byte_vector, decode_type_in,
}
use chancery_integration_exa.Codec.Parts.{IsPresent}

-- A decoder that returns what a view shows of some bytes returns no `null`.
view-IsPresent :
    (count : ℕ) (view : List ℕ → Value)
    → ((bs : List ℕ) → is_absent (view bs) ≡ false)
    → IsPresent (decode_with count view)
unfolding decode_with
view-IsPresent count view shown r v r' e =
    let ((bs, next), read, same) = >>=-eq-ok (read_bytes count r) _ e in
    let made : view bs ≡ v = cc same in subst (λ t. is_absent t ≡ false) made (shown bs)

boolean-IsPresent : IsPresent decode_boolean
unfolding decode_boolean is_absent
boolean-IsPresent r v r' e =
    let ((b, next), read, same) = >>=-eq-ok (decode_tag invalid_boolean_tag r) _ e in
    let made : boolean b ≡ v = cc same in subst (λ t. is_absent t ≡ false) made refl

primitive-IsPresent : (p : PrimitiveTypeName) → IsPresent (decode_primitive p)
unfolding decode_primitive is_absent
primitive-IsPresent u8 = view-IsPresent 1 unsigned_number (λ bs. refl)
primitive-IsPresent u16 = view-IsPresent 2 unsigned_number (λ bs. refl)
primitive-IsPresent u32 = view-IsPresent 4 unsigned_number (λ bs. refl)
primitive-IsPresent u64 = view-IsPresent 8 unsigned_bigint (λ bs. refl)
primitive-IsPresent u128 = view-IsPresent 16 unsigned_bigint (λ bs. refl)
primitive-IsPresent i64 = view-IsPresent 8 signed_bigint (λ bs. refl)
primitive-IsPresent i128 = view-IsPresent 16 signed_bigint (λ bs. refl)
primitive-IsPresent pubkey = view-IsPresent 32 (λ bs. string (encode_base58 bs)) (λ bs. refl)
primitive-IsPresent unsupported = λ r v r' e. absurd (cc)
primitive-IsPresent bool = boolean-IsPresent

array-IsPresent : (decode : Decoder) (count : ℕ) → IsPresent (decode_array decode count)
unfolding decode_array is_absent
array-IsPresent decode count r v r' e =
    let ((vs, next), read, same) = >>=-eq-ok (decode_items decode count r) _ e in
    let made : array vs ≡ v = cc same in subst (λ t. is_absent t ≡ false) made refl

vector-IsPresent : (decode : Decoder) → IsPresent (decode_vector decode)
unfolding decode_vector
vector-IsPresent decode r v r' e =
    let ((n, next), read, more) = >>=-eq-ok (decode_count r) _ e in
    array-IsPresent decode n next v r' more

byte_array-IsPresent : (count : ℕ) → IsPresent (decode_byte_array count)
unfolding decode_byte_array is_absent
byte_array-IsPresent count = view-IsPresent count bytes (λ bs. refl)

byte_vector-IsPresent : IsPresent decode_byte_vector
unfolding decode_byte_vector
byte_vector-IsPresent r v r' e =
    let ((n, next), read, more) = >>=-eq-ok (decode_count r) _ e in
    byte_array-IsPresent n next v r' more

defined_of_present : (v : Value) → is_absent v ≡ false → is_undefined v ≡ false
unfolding is_absent is_undefined
defined_of_present null e = refl
defined_of_present v e = ground arith

null_defined : (v : Value) → null ≡ v → is_undefined v ≡ false
unfolding is_undefined
null_defined v e = rw (← e)

module _ (named : String → Decoder) (present : (name : String) → IsPresent (named name)) where
  pub type-IsPresent : (t : TypeSchema) → is_option t ≡ false → IsPresent (decode_type_in named t)
  unfolding decode_type_in is_option
  type-IsPresent (primitive p) e = primitive-IsPresent p
  type-IsPresent (option_of item) e = absurd (cc)
  type-IsPresent (array_of item count) e = elim (Bool-cases (is_u8 item)) [
    | inl u ↦ rw u (byte_array-IsPresent count)
    | inr u ↦ rw u (array-IsPresent (decode_type_in named item) count)
  ]
  type-IsPresent (vector_of item) e = elim (Bool-cases (is_u8 item)) [
    | inl u ↦ rw u byte_vector-IsPresent
    | inr u ↦ rw u (vector-IsPresent (decode_type_in named item))
  ]
  type-IsPresent (defined name) e = present name

  pub type_defined : (t : TypeSchema) → NeverUndefined (decode_type_in named t)
  unfolding decode_type_in decode_option
  type_defined (option_of item) r v r' e =
      let ((b, next), read, more) = >>=-eq-ok (decode_tag invalid_option_tag r) _ e in
      by_tag b next (type_defined item next v r') more
    where
      by_tag :
          (b : Bool) (next : Reader)
          → (decode_type_in named item next ≡ ok (v, r') → is_undefined v ≡ false)
          → (if b then decode_type_in named item next else ok (null, next)) ≡ ok (v, r')
          → is_undefined v ≡ false
      by_tag false next inner shown = null_defined v (cc shown)
      by_tag true next inner shown = inner shown
  type_defined (primitive p) r v r' e = defined_of_present v (primitive-IsPresent p r v r' e)
  type_defined (array_of item count) r v r' e =
      defined_of_present v
        (type-IsPresent (array_of item count) (unfold is_option in refl) r v r' e)
  type_defined (vector_of item) r v r' e =
      defined_of_present v (type-IsPresent (vector_of item) (unfold is_option in refl) r v r' e)
  type_defined (defined name) r v r' e = defined_of_present v (present name r v r' e)
