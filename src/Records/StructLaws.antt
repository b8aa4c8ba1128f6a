-- ===== src/Records/StructLaws.antt =====
-- A struct's fields satisfy both laws if their types do and their names are distinct.
use Prim.Native.String.{String}
use text.Mathlib.Text.{◌==◌ as str_eq}
use text.Mathlib.TextEquality.{eq_iff}
use text.Mathlib.TextPositions.{eq_refl}
use mathlib.Core.Path.{subst}
use mathlib.Core.List.{append_assoc}
use chancery_integration_exa.Common.{
  ℕ, ◌≡◌, ◌≢◌, refl, sym, ap, ◌∙◌, arith, List, [], ◌∷◌, ◌++◌, Result, ok, All, Bool, false,
  if◌then◌else◌, >>=-eq-ok,
}
use chancery_integration_exa.Base58.{IsByte}
use chancery_integration_exa.Values.{Value, Fields, end, field}
use chancery_integration_exa.Schema.{TypeSchema, FieldSchema, StructSchema}
use chancery_integration_exa.Wire.{Reader, Decoder}
use chancery_integration_exa.Wire.Reading.{At}
use chancery_integration_exa.Codec.Laws.{Encoder, Reads, Accepts, IsByte-append_right}
use chancery_integration_exa.Records.{
  is_undefined, get_field, set_field, field_value, encode_struct, decode_fields,
}

pub get_field-set_field :
    (name key : String) (v : Value) (fs : Fields)
    → get_field key (set_field name v fs) ≡ (if str_eq name key then v else get_field key fs)
unfolding get_field set_field
get_field-set_field name key v end = refl
get_field-set_field name key v (field k w fs) =
    ground (arith, eq_iff name key, eq_iff k name, eq_iff k key, get_field-set_field name key v fs)

abbrev pub HasNewName : FieldSchema → StructSchema → Type 0
HasNewName f fs = All (λ g. g.name ≢ f.name) fs

-- Later fields have other names.
abbrev pub HasDistinctNames : StructSchema → Type 0
HasDistinctNames [] = Unit {0}
HasDistinctNames (f ∷ fs) = HasNewName f fs × HasDistinctNames fs

abbrev pub NeverUndefined : Decoder → Type 0
NeverUndefined decode =
    (r : Reader) (v : Value) (r' : Reader) → decode r ≡ ok (v, r') → is_undefined v ≡ false

module _ (encode : TypeSchema → Encoder) (decode : TypeSchema → Decoder)
    (zero_value : TypeSchema → Result Value) where
  -- A field's value is not touched by the fields that are read after it.
  get_field-decode_fields :
      (fs : StructSchema) (f : FieldSchema) (values final : Fields) (r r' : Reader)
      → HasNewName f fs
      → decode_fields decode fs values r ≡ ok (final, r')
      → get_field f.name final ≡ get_field f.name values
  unfolding decode_fields
  get_field-decode_fields [] f values final r r' new e = ap (get_field f.name) (cc e)
  get_field-decode_fields (g ∷ fs) f values final r r' (differs, new) e =
      let ((v, next), first, more) = >>=-eq-ok (decode g.type r) _ e in
      get_field-decode_fields fs f (set_field g.name v values) final next r' new more
      ∙ get_field-set_field g.name f.name v values
      ∙ ground (arith, eq_iff g.name f.name)

  field_value_present :
      (pad : Bool) (f : FieldSchema) (values : Fields) (v : Value)
      → get_field f.name values ≡ v
      → is_undefined v ≡ false
      → field_value zero_value pad f values ≡ ok v
  unfolding field_value
  field_value_present pad f values v e here = ground arith

  module _ (pad : Bool) where
    pub fields_Reads :
        (fs : StructSchema)
        → HasDistinctNames fs
        → All (λ f. Reads (encode f.type) (decode f.type) × NeverUndefined (decode f.type)) fs
        → (values final : Fields) (r : Reader) (xs : List ℕ) (r' : Reader) → At r xs
        → All IsByte xs
        → decode_fields decode fs values r ≡ ok (final, r')
        → (used : List ℕ) × (rest : List ℕ) × (xs ≡ used ++ rest)
          × At r' rest
          × (encode_struct encode zero_value pad fs final ≡ ok used)
    unfolding decode_fields encode_struct
    fields_Reads [] distinct laws values final r xs r' h low e =
        let moved : r ≡ r' = cc e in ([], xs, refl, subst (λ t. At t xs) moved h, refl)
    fields_Reads (f ∷ fs) (new, distinct) ((law, defined), laws) values final r xs r' h low e =
        let ((v, next), first, more) = >>=-eq-ok (decode f.type r) _ e in
        let (used, rest, split, left, back) = law r xs v next h low first in
        let (used', rest', split', left', back') =
          fields_Reads fs distinct laws (set_field f.name v values) final next rest r' left
            (IsByte-append_right used rest (subst (All IsByte) split low)) more in
        let kept : get_field f.name final ≡ v =
          get_field-decode_fields fs f (set_field f.name v values) final next r' new more
          ∙ get_field-set_field f.name f.name v values
          ∙ rw eq_refl in
        (
          used ++ used',
          rest',
          split ∙ ap (λ t. used ++ t) split' ∙ sym (append_assoc used used' rest'),
          left',
          rw (field_value_present pad f final v kept (defined r v next first), back, back'),
        )

    pub fields_Accepts :
        (fs : StructSchema)
        → All (λ f. Accepts (encode f.type) (decode f.type)) fs
        → (given values : Fields) (r : Reader) (bs rest : List ℕ)
        → encode_struct encode zero_value pad fs given ≡ ok bs
        → At r (bs ++ rest)
        → (final : Fields) × (r' : Reader) × (decode_fields decode fs values r ≡ ok (final, r'))
          × At r' rest
    unfolding decode_fields encode_struct
    fields_Accepts [] laws given values r bs rest e h =
        let same : bs ≡ [] = cc e in (values, r, refl, subst (λ t. At r (t ++ rest)) same h)
    fields_Accepts (f ∷ fs) (law, laws) given values r bs rest e h =
        let (v, found, more) = >>=-eq-ok (field_value zero_value pad f given) _ e in
        let (part, made, more') = >>=-eq-ok (encode f.type v) _ more in
        let (parts, others, shown) =
          >>=-eq-ok (encode_struct encode zero_value pad fs given) _ more' in
        let same : bs ≡ part ++ parts = cc shown in
        let start : At r (part ++ (parts ++ rest)) =
          subst (At r) (ap (λ t. t ++ rest) same ∙ append_assoc part parts rest) h in
        let (v', next, decoded, left) = law r v part (parts ++ rest) made start in
        let (final, r', decoded', stopped) =
          fields_Accepts fs laws given (set_field f.name v' values) next parts rest others left in
        (final, r', rw decoded decoded', stopped)
