-- ===== src/Records.antt =====
-- typescript/src/BinaryCodec.ts: the fields of a struct, over the encoder and decoder of a field.
pub mod StructLaws
use Prim.Native.String.{String}
use text.Mathlib.Text.{◌==◌ as str_eq, starts_with}
use chancery_integration_exa.Common.{
  ℕ, if◌then◌else◌, Bool, true, false, not, ◌&&◌, ◌||◌, List, [], ◌∷◌, ◌++◌, Result, ok, err, ◌>>=◌,
  field_required,
}
use chancery_integration_exa.Values.{Value, undefined, object, Fields, end, field}
use chancery_integration_exa.Schema.{TypeSchema, FieldSchema, StructSchema, is_option}
use chancery_integration_exa.Wire.{Reader, Decoder}

unfoldable pub is_undefined : Value → Bool
is_undefined undefined = true
is_undefined _ = false

-- `values[name]`
unfoldable pub get_field : String → Fields → Value
get_field name end = undefined
get_field name (field k v fs) = if str_eq k name then v else get_field name fs

-- `values[name] = v`
unfoldable pub set_field : String → Value → Fields → Fields
set_field name v end = field name v end
set_field name v (field k w fs) =
    if str_eq k name then field k v fs else field k w (set_field name v fs)

-- `field.name.startsWith("_pad") || field.name.startsWith("_reserved")`
unfoldable pub is_padding : String → Bool
is_padding name = starts_with name "_pad" || starts_with name "_reserved"

-- The value that a field is encoded from, or the error that it is missing.
unfoldable pub field_value :
    (TypeSchema → Result Value) → Bool → FieldSchema → Fields → Result Value
field_value zero_value default_missing_padding f values =
    let given = get_field f.name values in
    let zero_default = zero_value f.type in
    (if is_undefined given && default_missing_padding && is_padding f.name
      then zero_default
      else ok given)
    >>= λ v. if is_undefined v && not (is_option f.type) then err field_required else ok v

-- `encodeStruct`
unfoldable pub encode_struct :
    (TypeSchema → Value → Result (List ℕ))
    → (TypeSchema → Result Value)
    → Bool
    → StructSchema
    → Fields
    → Result (List ℕ)
encode_struct encode zero_value default_missing_padding [] values = ok []
encode_struct encode zero_value default_missing_padding (f ∷ fs) values = do
  v ← field_value zero_value default_missing_padding f values
  part ← encode f.type v
  parts ← encode_struct encode zero_value default_missing_padding fs values
  ok (part ++ parts)

-- The loop of `decodeStruct`; `values` are the fields that are set so far.
unfoldable pub decode_fields :
    (TypeSchema → Decoder) → StructSchema → Fields → Reader → Result (Fields × Reader)
decode_fields decode [] values r = ok (values, r)
decode_fields decode (f ∷ fs) values r =
    decode f.type r >>= λ p. decode_fields decode fs (set_field f.name p.0 values) p.1

-- `decodeStruct`
unfoldable pub decode_struct : (TypeSchema → Decoder) → StructSchema → Decoder
decode_struct decode fs r = decode_fields decode fs end r >>= λ p. ok (object p.0, p.1)

-- The loop of `zeroValueForType` over a struct's fields.
unfoldable pub zero_fields : (TypeSchema → Result Value) → StructSchema → Fields → Result Fields
zero_fields zero_value [] values = ok values
zero_fields zero_value (f ∷ fs) values = do
  v ← zero_value f.type
  zero_fields zero_value fs (set_field f.name v values)
