-- ===== src/Codec.antt =====
-- typescript/src/BinaryCodec.ts: the schema-driven encoder and decoder.
pub mod Laws
pub mod Primitives
pub mod Parts
pub mod Vectors
pub mod Present
pub mod RoundTrip
pub mod Inverse
use Prim.Native.String.{String}
use text.Mathlib.Text.{◌==◌ as str_eq, starts_with}
use chancery_integration_exa.Common.{
  ℕ, zero, suc, ◌+◌, ◌*◌, ◌-◌, ◌/◌, ◌%◌, ◌^◌, ltb, leb, ◌==◌, if◌then◌else◌, Bool, true, false, not,
  ◌&&◌, ◌||◌, Option, none, some, List, [], ◌∷◌, ◌++◌, length, take, drop, replicate, Result, Error,
  ok, err, ◌>>=◌, ◌>>◌, guard, unsigned_range, signed_range, not_a_boolean, unsupported_primitive,
  public_key_length, byte_count, item_count, field_required, unknown_field, reader_offset,
  reader_exhausted, invalid_boolean_tag, invalid_option_tag, stack_exhausted,
}
use chancery_integration_exa.Common.Int.{ℤ, pos, negsuc, sub_ℕ}
use chancery_integration_exa.Values.{
  Value, undefined, null, boolean, number, bigint, string, bytes, array, object, Items, nil, cons,
  Fields, end, field, integer_from_value, bytes_from_value, record_from_value, array_from_value,
}
use chancery_integration_exa.Schema.{
  PrimitiveTypeName, u8, u16, u32, u64, u128, i64, i128, bool, pubkey, unsupported, TypeSchema,
  primitive, array_of, option_of, vector_of, defined, FieldSchema, StructSchema, is_u8, is_option,
  get_defined_type_schema,
}
use chancery_integration_exa.Base58.{encode_base58, decode_base58}
use chancery_integration_exa.Wire.{
  le_bytes, decode_unsigned_integer, encode_unsigned, encode_unsigned_integer, encode_signed,
  encode_signed_integer, decode_signed_integer, Reader, new_reader, remaining, read_bytes, Decoder,
  decode_with,
}
use chancery_integration_exa.Records.{
  is_undefined, get_field, set_field, is_padding, field_value, encode_struct, decode_fields,
  decode_struct, zero_fields,
}

abbrev pub unsigned_number : List ℕ → Value
unsigned_number bs = number (pos (decode_unsigned_integer bs))

abbrev pub unsigned_bigint : List ℕ → Value
unsigned_bigint bs = bigint (pos (decode_unsigned_integer bs))

abbrev pub signed_bigint : List ℕ → Value
signed_bigint bs = bigint (decode_signed_integer bs)

-- A byte that must be 0 or 1: a boolean, and the tag of an option.
unfoldable pub tag_of_byte : Error → List ℕ × Reader → Result (Bool × Reader)
tag_of_byte bad p =
    if decode_unsigned_integer p.0 == 0
    then ok (false, p.1)
    else if decode_unsigned_integer p.0 == 1
    then ok (true, p.1)
    else err bad

unfoldable pub decode_tag : Error → Reader → Result (Bool × Reader)
decode_tag bad r = read_bytes 1 r >>= tag_of_byte bad

unfoldable pub decode_boolean : Decoder
decode_boolean r = decode_tag invalid_boolean_tag r >>= λ p. ok (boolean p.0, p.1)

unfoldable pub decode_primitive : PrimitiveTypeName → Decoder
decode_primitive u8 = decode_with 1 unsigned_number
decode_primitive u16 = decode_with 2 unsigned_number
decode_primitive u32 = decode_with 4 unsigned_number
decode_primitive u64 = decode_with 8 unsigned_bigint
decode_primitive u128 = decode_with 16 unsigned_bigint
decode_primitive i64 = decode_with 8 signed_bigint
decode_primitive i128 = decode_with 16 signed_bigint
decode_primitive bool = decode_boolean
decode_primitive pubkey = decode_with 32 (λ bs. string (encode_base58 bs))
decode_primitive unsupported = λ r. err unsupported_primitive

unfoldable pub encode_boolean : Value → Result (List ℕ)
encode_boolean (boolean true) = ok (1 ∷ [])
encode_boolean (boolean false) = ok (0 ∷ [])
encode_boolean _ = err not_a_boolean

-- `null` and a missing value
unfoldable pub is_absent : Value → Bool
is_absent undefined = true
is_absent null = true
is_absent _ = false

unfoldable pub item_total : Items → ℕ
item_total nil = 0
item_total (cons v vs) = suc (item_total vs)

-- A loop over items that concatenates what each is encoded to.
unfoldable pub encode_items : (Value → Result (List ℕ)) → Items → Result (List ℕ)
encode_items encode nil = ok []
encode_items encode (cons v vs) = do
  part ← encode v
  parts ← encode_items encode vs
  ok (part ++ parts)

unfoldable pub decode_items : Decoder → ℕ → Reader → Result (Items × Reader)
decode_items decode zero r = ok (nil, r)
decode_items decode (suc n) r =
    decode r >>= λ p. decode_items decode n p.1 >>= λ q. ok (cons p.0 q.0, q.1)

unfoldable pub encode_option : (Value → Result (List ℕ)) → Value → Result (List ℕ)
encode_option encode v = if is_absent v then ok (0 ∷ []) else (do part ← encode v; ok (1 ∷ part))

unfoldable pub decode_option : Decoder → Decoder
decode_option decode r =
    decode_tag invalid_option_tag r >>= λ p. if p.0 then decode p.1 else ok (null, p.1)

unfoldable pub encode_array : (Value → Result (List ℕ)) → ℕ → Value → Result (List ℕ)
encode_array encode count v = do
  items ← array_from_value v
  guard (item_total items == count) item_count
  encode_items encode items

unfoldable pub decode_array : Decoder → ℕ → Decoder
decode_array decode count r = decode_items decode count r >>= λ p. ok (array p.0, p.1)

unfoldable pub encode_vector : (Value → Result (List ℕ)) → Value → Result (List ℕ)
encode_vector encode v = do
  items ← array_from_value v
  count ← encode_unsigned (pos (item_total items)) 4
  parts ← encode_items encode items
  ok (count ++ parts)

-- `Number(decodeUnsignedInteger(reader.readBytes(4, ...)))`
unfoldable pub decode_count : Reader → Result (ℕ × Reader)
decode_count r = read_bytes 4 r >>= λ p. ok (decode_unsigned_integer p.0, p.1)

unfoldable pub decode_vector : Decoder → Decoder
decode_vector decode r = decode_count r >>= λ p. decode_array decode p.0 p.1

unfoldable pub decode_byte_array : ℕ → Decoder
decode_byte_array count = decode_with count bytes

unfoldable pub decode_byte_vector : Decoder
decode_byte_vector r = decode_count r >>= λ p. decode_byte_array p.0 p.1

unfoldable pub zero_items : ℕ → Value → Items
zero_items zero v = nil
zero_items (suc n) v = cons v (zero_items n v)

-- `zeroValueForType`; the last argument gives the zero value of a defined type.
unfoldable pub zero_value_in : (String → Result Value) → TypeSchema → Result Value
zero_value_in named (primitive bool) = ok (boolean false)
zero_value_in named (primitive pubkey) = ok (bytes (replicate 32 0))
zero_value_in named (primitive _) = ok (number (pos 0))
zero_value_in named (option_of item) = ok null
zero_value_in named (vector_of item) = if is_u8 item then ok (bytes []) else ok (array nil)
zero_value_in named (array_of item count) =
    let items = zero_value_in named item >>= λ v. ok (array (zero_items count v)) in
    if is_u8 item
    then ok (bytes (replicate count 0))
    else if count == 0
    then ok (array nil)
    else items
zero_value_in named (defined name) = named name

-- `decodeType`; the first argument decodes a value of a defined type.
unfoldable pub decode_type_in : (String → Decoder) → TypeSchema → Decoder
decode_type_in named (primitive p) = decode_primitive p
decode_type_in named (option_of item) = decode_option (decode_type_in named item)
decode_type_in named (array_of item count) =
    let items = decode_array (decode_type_in named item) count in
    if is_u8 item then decode_byte_array count else items
decode_type_in named (vector_of item) =
    let items = decode_vector (decode_type_in named item) in
    if is_u8 item then decode_byte_vector else items
decode_type_in named (defined name) = named name

-- `atob` is the runtime's base64 decoder.
module _ (atob : List ℕ → Result (List ℕ)) where
  unfoldable pub public_key_bytes : Value → Result (List ℕ)
  public_key_bytes (string s) = decode_base58 s
  public_key_bytes v = bytes_from_value atob v

  unfoldable pub encode_public_key : Value → Result (List ℕ)
  encode_public_key v = do
    key ← public_key_bytes v
    guard (length key == 32) public_key_length
    ok key

  -- `encodePrimitive`
  unfoldable pub encode_primitive : PrimitiveTypeName → Value → Result (List ℕ)
  encode_primitive u8 v = encode_unsigned_integer v 1
  encode_primitive u16 v = encode_unsigned_integer v 2
  encode_primitive u32 v = encode_unsigned_integer v 4
  encode_primitive u64 v = encode_unsigned_integer v 8
  encode_primitive u128 v = encode_unsigned_integer v 16
  encode_primitive i64 v = encode_signed_integer v 8
  encode_primitive i128 v = encode_signed_integer v 16
  encode_primitive bool v = encode_boolean v
  encode_primitive pubkey v = encode_public_key v
  encode_primitive unsupported v = err unsupported_primitive

  unfoldable pub encode_byte_array : ℕ → Value → Result (List ℕ)
  encode_byte_array count v = do
    bs ← bytes_from_value atob v
    guard (length bs == count) byte_count
    ok bs

  unfoldable pub encode_byte_vector : Value → Result (List ℕ)
  encode_byte_vector v = do
    bs ← bytes_from_value atob v
    count ← encode_unsigned (pos (length bs)) 4
    ok (count ++ bs)

  -- `encodeType`; the first argument encodes a value of a defined type.
  unfoldable pub encode_type_in :
      (String → Value → Result (List ℕ)) → TypeSchema → Value → Result (List ℕ)
  encode_type_in named (primitive p) v = encode_primitive p v
  encode_type_in named (option_of item) v = encode_option (encode_type_in named item) v
  encode_type_in named (array_of item count) v =
      let items = encode_array (encode_type_in named item) count v in
      if is_u8 item then encode_byte_array count v else items
  encode_type_in named (vector_of item) v =
      let items = encode_vector (encode_type_in named item) v in
      if is_u8 item then encode_byte_vector v else items
  encode_type_in named (defined name) v = named name v

-- Types refer to one another by name, so these functions recur on the depth of names that they may
-- still follow; a type that holds itself exhausts the stack at any depth.
module _ (types : List (String × StructSchema)) where
  unfoldable pub zero_value_named : ℕ → String → Result Value
  zero_value_named zero name = err stack_exhausted
  zero_value_named (suc depth) name = do
    fields ← get_defined_type_schema types name
    values ← zero_fields (zero_value_in (zero_value_named depth)) fields end
    ok (object values)

  abbrev pub zero_value_for_type : ℕ → TypeSchema → Result Value
  zero_value_for_type depth = zero_value_in (zero_value_named depth)

  unfoldable pub decode_named : ℕ → String → Decoder
  decode_named zero name r = err stack_exhausted
  decode_named (suc depth) name r = do
    fields ← get_defined_type_schema types name
    decode_struct (decode_type_in (decode_named depth)) fields r

  abbrev pub decode_type : ℕ → TypeSchema → Decoder
  decode_type depth = decode_type_in (decode_named depth)

module _ (atob : List ℕ → Result (List ℕ)) (types : List (String × StructSchema)) where
  unfoldable pub encode_named : ℕ → String → Value → Result (List ℕ)
  encode_named zero name v = err stack_exhausted
  encode_named (suc depth) name v = do
    fields ← get_defined_type_schema types name
    values ← record_from_value v
    encode_struct (encode_type_in atob (encode_named depth)) (zero_value_for_type types depth) false
        fields values

  abbrev pub encode_type : ℕ → TypeSchema → Value → Result (List ℕ)
  encode_type depth = encode_type_in atob (encode_named depth)
