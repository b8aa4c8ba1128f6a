-- ===== src/Codec/RoundTrip.antt =====
-- `encodeType` and `decodeType` are inverse, for every schema without an option in an option.
use Prim.Native.String.{String}
use text.Mathlib.Text.{◌==◌ as str_eq}
use mathlib.Core.Path.{subst}
use chancery_integration_exa.Common.{
  ℕ, zero, suc, ◌≡◌, refl, arith, List, [], ◌∷◌, Result, ok, All, false, inl, inr, >>=-eq-ok,
  Bool-cases,
}
use chancery_integration_exa.Values.{Value, object, Fields, end, record_from_value}
use chancery_integration_exa.Schema.{
  TypeSchema, primitive, array_of, option_of, vector_of, defined, StructSchema, is_u8, is_option,
  lookup, get_defined_type_schema,
}
use chancery_integration_exa.Wire.{Decoder}
use chancery_integration_exa.Wire.Reading.{At}
use chancery_integration_exa.Records.{encode_struct, decode_fields, decode_struct}
use chancery_integration_exa.Records.StructLaws.{
  HasDistinctNames, NeverUndefined, fields_Reads, fields_Accepts,
}
use chancery_integration_exa.Codec.{
  is_absent, encode_type_in, encode_named, encode_type, decode_type_in, decode_named, decode_type,
  zero_value_for_type,
}
use chancery_integration_exa.Codec.Laws.{Encoder, Reads, Accepts}
use chancery_integration_exa.Codec.Primitives.{primitive_Reads, primitive_Accepts}
use chancery_integration_exa.Codec.Present.{type-IsPresent, type_defined}
use chancery_integration_exa.Codec.Parts.{
  IsPresent, option_Reads, option_Accepts, array_Reads, array_Accepts,
}
use chancery_integration_exa.Codec.Vectors.{
  vector_Reads, vector_Accepts, byte_array_Reads, byte_array_Accepts, byte_vector_Reads,
  byte_vector_Accepts,
}

-- No option holds an option: `null` inside and outside could not be told apart.
abbrev pub IsPlain : TypeSchema → Type 0
IsPlain (primitive p) = Unit {0}
IsPlain (array_of item count) = IsPlain item
IsPlain (option_of item) = (is_option item ≡ false) × IsPlain item
IsPlain (vector_of item) = IsPlain item
IsPlain (defined name) = Unit {0}

abbrev pub IsRecord : StructSchema → Type 0
IsRecord fields = HasDistinctNames fields × All (λ f. IsPlain f.type) fields

module _ (atob : List ℕ → Result (List ℕ)) where
  module _ (encode : String → Encoder) (decode : String → Decoder) where
    pub type_Reads :
        ((name : String) → Reads (encode name) (decode name))
        → ((name : String) → IsPresent (decode name))
        → (t : TypeSchema) → IsPlain t
        → Reads (encode_type_in atob encode t) (decode_type_in decode t)
    unfolding encode_type_in decode_type_in
    type_Reads law present (primitive p) plain = primitive_Reads atob p
    type_Reads law present (option_of item) (single, plain) =
        option_Reads (encode_type_in atob encode item) (decode_type_in decode item)
          (type-IsPresent decode present item single) (type_Reads law present item plain)
    type_Reads law present (array_of item count) plain = elim (Bool-cases (is_u8 item)) [
      | inl u ↦ rw u (byte_array_Reads atob count)
      | inr u ↦ rw u (array_Reads _ _ (type_Reads law present item plain) count)
    ]
    type_Reads law present (vector_of item) plain = elim (Bool-cases (is_u8 item)) [
      | inl u ↦ rw u (byte_vector_Reads atob)
      | inr u ↦ rw u (vector_Reads _ _ (type_Reads law present item plain))
    ]
    type_Reads law present (defined name) plain = law name

    pub type_Accepts :
        ((name : String) → Accepts (encode name) (decode name))
        → (t : TypeSchema) → Accepts (encode_type_in atob encode t) (decode_type_in decode t)
    unfolding encode_type_in decode_type_in
    type_Accepts law (primitive p) = primitive_Accepts atob p
    type_Accepts law (option_of item) =
        option_Accepts (encode_type_in atob encode item) (decode_type_in decode item)
          (type_Accepts law item)
    type_Accepts law (array_of item count) = elim (Bool-cases (is_u8 item)) [
      | inl u ↦ rw u (byte_array_Accepts atob count)
      | inr u ↦ rw u (array_Accepts _ _ (type_Accepts law item) count)
    ]
    type_Accepts law (vector_of item) = elim (Bool-cases (is_u8 item)) [
      | inl u ↦ rw u (byte_vector_Accepts atob)
      | inr u ↦ rw u (vector_Accepts _ _ (type_Accepts law item))
    ]
    type_Accepts law (defined name) = law name

module _ (types : List (String × StructSchema)) where
  pub named-IsPresent : (depth : ℕ) (name : String) → IsPresent (decode_named types depth name)
  unfolding decode_named decode_struct is_absent
  named-IsPresent zero name r v r' e = absurd (cc)
  named-IsPresent (suc depth) name r v r' e =
      let (fields, found, more) = >>=-eq-ok (get_defined_type_schema types name) _ e in
      let ((values, next), read, same) =
        >>=-eq-ok (decode_fields (decode_type types depth) fields end r) _ more in
      let made : object values ≡ v = cc same in subst (λ t. is_absent t ≡ false) made refl

-- The laws of all fields of a struct.
pub fields_laws :
    (encode : TypeSchema → Encoder) (decode : TypeSchema → Decoder)
    → ((t : TypeSchema) → IsPlain t → Reads (encode t) (decode t))
    → ((t : TypeSchema) → NeverUndefined (decode t))
    → (fs : StructSchema) → All (λ f. IsPlain f.type) fs
    → All (λ f. Reads (encode f.type) (decode f.type) × NeverUndefined (decode f.type)) fs
fields_laws encode decode law here [] plain = tt
fields_laws encode decode law here (f ∷ fs) (p, plain) =
    ((law f.type p, here f.type), fields_laws encode decode law here fs plain)

pub fields_accept :
    (encode : TypeSchema → Encoder) (decode : TypeSchema → Decoder)
    → ((t : TypeSchema) → Accepts (encode t) (decode t))
    → (fs : StructSchema) → All (λ f. Accepts (encode f.type) (decode f.type)) fs
fields_accept encode decode law [] = tt
fields_accept encode decode law (f ∷ fs) = (law f.type, fields_accept encode decode law fs)

-- Every defined type has distinct field names and no option in an option.
abbrev pub HasRecords : List (String × StructSchema) → Type 0
HasRecords types = All (λ entry. IsRecord entry.1) types

IsRecord-of_name :
    (types : List (String × StructSchema)) (name : String) (fields : StructSchema)
    → HasRecords types
    → get_defined_type_schema types name ≡ ok fields
    → IsRecord fields
unfolding get_defined_type_schema lookup
IsRecord-of_name [] name fields h e = absurd (cc)
IsRecord-of_name ((k, found) ∷ types) name fields (p, h) e = elim (Bool-cases (str_eq k name)) [
  | inl t ↦ subst IsRecord (ground arith) p
  | inr t ↦ IsRecord-of_name types name fields h (ground arith)
]

module _ (atob : List ℕ → Result (List ℕ)) (types : List (String × StructSchema)) where
  encode_object :
      (depth : ℕ) (name : String) (fields : StructSchema) (values : Fields) (used : List ℕ)
      → get_defined_type_schema types name ≡ ok fields
      → encode_struct
          (encode_type atob types depth)
          (zero_value_for_type types depth)
          false
          fields
          values
        ≡ ok used
      → encode_named atob types (suc depth) name (object values) ≡ ok used
  unfolding encode_named record_from_value
  encode_object depth name fields values used found e = rw found e

  pub named_Reads :
      HasRecords types
      → (depth : ℕ) (name : String)
      → Reads (encode_named atob types depth name) (decode_named types depth name)
  unfolding decode_named decode_struct
  named_Reads records zero name r xs v r' h low e = absurd (cc)
  named_Reads records (suc depth) name r xs v r' h low e =
      let (fields, found, more) = >>=-eq-ok (get_defined_type_schema types name) _ e in
      let ((values, next), read, same) =
        >>=-eq-ok (decode_fields (decode_type types depth) fields end r) _ more in
      let (distinct, plain) = IsRecord-of_name types name fields records found in
      let laws =
        fields_laws (encode_type atob types depth) (decode_type types depth)
          (type_Reads atob (encode_named atob types depth) (decode_named types depth)
            (named_Reads records depth) (named-IsPresent types depth))
          (type_defined (decode_named types depth) (named-IsPresent types depth)) fields plain in
      let (used, rest, split, left, back) =
        fields_Reads (encode_type atob types depth) (decode_type types depth)
          (zero_value_for_type types depth) false fields distinct laws end values r xs next h low
          read in
      let made : object values ≡ v = cc same in
      let moved : next ≡ r' = cc same in
      (
        used,
        rest,
        split,
        subst (λ t. At t rest) moved left,
        subst (λ t. encode_named atob types (suc depth) name t ≡ ok used) made
            (encode_object depth name fields values used found back),
      )

  object_parts :
      (depth : ℕ) (name : String) (v : Value) (bs : List ℕ)
      → encode_named atob types (suc depth) name v ≡ ok bs
      → (fields : StructSchema) × (given : Fields) × (get_defined_type_schema types name
          ≡ ok fields)
        × (encode_struct
              (encode_type atob types depth)
              (zero_value_for_type types depth)
              false
              fields
              given
            ≡ ok bs)
  unfolding encode_named
  object_parts depth name v bs e =
      let (fields, found, more) = >>=-eq-ok (get_defined_type_schema types name) _ e in
      let (given, _, made) = >>=-eq-ok (record_from_value v) _ more in (fields, given, found, made)

  pub named_Accepts :
      (depth : ℕ) (name : String)
      → Accepts (encode_named atob types depth name) (decode_named types depth name)
  unfolding decode_named decode_struct
  named_Accepts zero name r v bs rest e h = absurd (unfold encode_named in cc)
  named_Accepts (suc depth) name r v bs rest e h =
      let (fields, given, found, made) = object_parts depth name v bs e in
      let (final, r', decoded, left) =
        fields_Accepts (encode_type atob types depth) (decode_type types depth)
          (zero_value_for_type types depth) false fields
          (fields_accept (encode_type atob types depth) (decode_type types depth)
            (type_Accepts atob (encode_named atob types depth) (decode_named types depth)
              (named_Accepts depth))
            fields)
          given end r bs rest made h in
      (object final, r', rw (found, decoded), left)
