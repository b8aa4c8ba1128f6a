-- ===== src/Messages/Payload.antt =====
-- The struct behind a discriminator: what is decoded is encoded to the same bytes, and conversely.
use mathlib.Core.Path.{subst}
use mathlib.Core.List.{append-nil}
use chancery_integration_exa.Common.{
  ℕ, ◌≤◌, ◌≡◌, ◌-◌, ◌==◌, refl, sym, ap, ◌∙◌, arith, List, [], ◌∷◌, ◌++◌, length, drop, Result, ok,
  All, Bool, true, trailing_bytes, >>=-eq-ok, guard-eq-ok, length-drop, ==_iff,
}
use chancery_integration_exa.Base58.{IsByte}
use chancery_integration_exa.Values.{Fields, end}
use chancery_integration_exa.Schema.{StructSchema}
use chancery_integration_exa.Wire.{Reader, new_reader, remaining}
use chancery_integration_exa.Wire.Reading.{At}
use chancery_integration_exa.Records.{decode_fields}
use chancery_integration_exa.Records.StructLaws.{fields_Reads, fields_Accepts}
use chancery_integration_exa.Codec.{
  encode_type, encode_named, decode_type, decode_named, zero_value_for_type,
}
use chancery_integration_exa.Codec.Present.{type_defined}
use chancery_integration_exa.Codec.RoundTrip.{
  HasRecords, IsRecord, fields_laws, fields_accept, type_Reads, type_Accepts, named_Reads,
  named-IsPresent, named_Accepts,
}
use chancery_integration_exa.Messages.{ChancerySchema, decode_payload, encode_payload}

length_nil : (xs : List ℕ) → length xs ≡ 0 → xs ≡ []
length_nil [] e = refl
length_nil (x ∷ xs) e = absurd (omega (arith, e))

new_reader-At :
    (input : List ℕ) (offset : ℕ) (r : Reader)
    → new_reader input offset ≡ ok r
    → At r (drop offset input)
unfolding new_reader
new_reader-At input offset r e = subst (λ t. At t (drop offset input)) moved (ground arith, refl)
  where
    moved : record { input = input; offset = offset } ≡ r
    moved = ground arith

new_reader_ok :
    (input : List ℕ) (offset : ℕ)
    → offset ≤ length input
    → new_reader input offset ≡ ok (record { input = input; offset = offset })
unfolding new_reader
new_reader_ok input offset inside = ground arith

At-end : (r : Reader) (xs : List ℕ) → At r xs → (remaining r == 0) ≡ true → xs ≡ []
unfolding remaining
At-end r xs (inside, left) e = length_nil xs (
    grind (
      arith,
      length-drop r.offset r.input,
      ap (λ t. length t) left,
      ==_iff (length r.input - r.offset) 0,
    ))

At-remaining : (r : Reader) → At r [] → (remaining r == 0) ≡ true
unfolding remaining
At-remaining r (inside, left) =
    ground (arith, length-drop r.offset r.input, ap (λ t. length t) left)

module _ (atob : List ℕ → Result (List ℕ)) (schema : ChancerySchema) (depth : ℕ) where
  pub encode_payload-decode_payload :
      (pad : Bool) (fields : StructSchema) (input : List ℕ) (offset : ℕ) (values : Fields)
      → HasRecords schema.types
      → IsRecord fields
      → All IsByte (drop offset input)
      → decode_payload schema.types depth fields input offset ≡ ok values
      → encode_payload atob schema depth pad fields values ≡ ok (drop offset input)
  unfolding decode_payload encode_payload
  encode_payload-decode_payload pad fields input offset values records (distinct, plain) low e =
      let (r, made, more) = >>=-eq-ok (new_reader input offset) _ e in
      let ((final, next), read, more') =
        >>=-eq-ok (decode_fields (decode_type schema.types depth) fields end r) _ more in
      let (done, shown) = guard-eq-ok (remaining next == 0) trailing_bytes (λ _. ok final) more' in
      let laws =
        fields_laws (encode_type atob schema.types depth) (decode_type schema.types depth)
          (type_Reads atob (encode_named atob schema.types depth) (decode_named schema.types depth)
            (named_Reads atob schema.types records depth) (named-IsPresent schema.types depth))
          (type_defined (decode_named schema.types depth) (named-IsPresent schema.types depth))
          fields plain in
      let (used, rest, split, left, back) =
        fields_Reads (encode_type atob schema.types depth) (decode_type schema.types depth)
          (zero_value_for_type schema.types depth) pad fields distinct laws end final r
          (drop offset input) next (new_reader-At input offset r made) low read in
      let nothing : rest ≡ [] = At-end next rest left done in
      let all : drop offset input ≡ used = split ∙ ap (λ t. used ++ t) nothing ∙ append-nil used in
      let same : final ≡ values = cc shown in rw (← same, all) back

  pub decode_payload-encode_payload :
      (pad : Bool) (fields : StructSchema) (input : List ℕ) (offset : ℕ) (given : Fields)
      → offset ≤ length input
      → encode_payload atob schema depth pad fields given ≡ ok (drop offset input)
      → (values : Fields) × (decode_payload schema.types depth fields input offset ≡ ok values)
  unfolding decode_payload encode_payload
  decode_payload-encode_payload pad fields input offset given inside e =
      let start : Reader = record { input = input; offset = offset } in
      let (final, r', decoded, stopped) =
        fields_Accepts (encode_type atob schema.types depth) (decode_type schema.types depth)
          (zero_value_for_type schema.types depth) pad fields
          (fields_accept (encode_type atob schema.types depth) (decode_type schema.types depth)
            (type_Accepts atob (encode_named atob schema.types depth)
              (decode_named schema.types depth) (named_Accepts atob schema.types depth))
            fields)
          given end start (drop offset input) [] e (inside, sym (append-nil (drop offset input))) in
      (final, rw (new_reader_ok input offset inside, decoded, At-remaining r' stopped) refl)
