-- ===== src/Wire.antt =====
-- typescript/src/BinaryCodec.ts: integers in little-endian bytes, and `BinaryReader`.
pub mod Integers
pub mod Signed
pub mod Reading
use Prim.Native.String.{String}
use text.Mathlib.Text.{◌==◌ as str_eq, starts_with}
use chancery_integration_exa.Common.{
  ℕ, zero, suc, ◌+◌, ◌*◌, ◌-◌, ◌/◌, ◌%◌, ◌^◌, ltb, leb, ◌==◌, if◌then◌else◌, Bool, true, false, not,
  ◌&&◌, ◌||◌, Option, none, some, List, [], ◌∷◌, ◌++◌, length, take, drop, replicate, Result, ok,
  err, ◌>>=◌, ◌>>◌, guard, unsigned_range, signed_range, not_a_boolean, unsupported_primitive,
  public_key_length, byte_count, item_count, field_required, unknown_field, reader_offset,
  reader_exhausted, invalid_boolean_tag, invalid_option_tag, stack_exhausted,
}
use chancery_integration_exa.Common.Int.{ℤ, pos, negsuc, sub_ℕ}
use chancery_integration_exa.Values.{
  Value, undefined, null, boolean, number, bigint, string, bytes, array, object, Items, nil, cons,
  Fields, end, field, integer_from_value, bytes_from_value, record_from_value, array_from_value,
}
use chancery_integration_exa.Schema.{
  PrimitiveTypeName, u8, u16, u32, u64, u128, i64, i128, bool, pubkey, unsupported, TypeSchema,
  primitive, array_of, option_of, vector_of, defined, FieldSchema, StructSchema, is_u8, is_option,
  get_defined_type_schema,
}
use chancery_integration_exa.Base58.{encode_base58, decode_base58}

-- `bytes[index] = Number(value & 0xffn); value >>= 8n`
unfoldable pub le_bytes : ℕ → ℕ → List ℕ
le_bytes zero n = []
le_bytes (suc count) n = (n % 256) ∷ le_bytes count (n / 256)

-- `value = (value << 8n) | BigInt(byte)`, from the last byte on. A byte is below 256, so `|` adds.
unfoldable pub decode_unsigned_integer : List ℕ → ℕ
decode_unsigned_integer [] = 0
decode_unsigned_integer (b ∷ bs) = decode_unsigned_integer bs * 256 + b

-- `encodeUnsignedInteger` behind its first line.
unfoldable pub encode_unsigned : ℤ → ℕ → Result (List ℕ)
encode_unsigned (negsuc n) byte_length = err unsigned_range
encode_unsigned (pos n) byte_length =
    if ltb n (2 ^ (byte_length * 8)) then ok (le_bytes byte_length n) else err unsigned_range

unfoldable pub encode_unsigned_integer : Value → ℕ → Result (List ℕ)
encode_unsigned_integer value byte_length =
    integer_from_value value >>= λ z. encode_unsigned z byte_length

-- `encodeSignedInteger` behind its first line: a negative integer is shifted up by 2^bits.
unfoldable pub encode_signed : ℤ → ℕ → Result (List ℕ)
encode_signed (pos n) byte_length =
    if ltb n (2 ^ (byte_length * 8 - 1))
    then encode_unsigned (pos n) byte_length
    else err signed_range
encode_signed (negsuc n) byte_length =
    if ltb n (2 ^ (byte_length * 8 - 1))
    then encode_unsigned (pos (2 ^ (byte_length * 8) - suc n)) byte_length
    else err signed_range

unfoldable pub encode_signed_integer : Value → ℕ → Result (List ℕ)
encode_signed_integer value byte_length =
    integer_from_value value >>= λ z. encode_signed z byte_length

-- `(unsigned & signBit) === 0n` is a test of one bit.
unfoldable pub decode_signed_integer : List ℕ → ℤ
decode_signed_integer bs =
    let unsigned = decode_unsigned_integer bs in
    let sign_bit = 2 ^ (length bs * 8 - 1) in
    if unsigned / sign_bit % 2 == 0 then pos unsigned else sub_ℕ unsigned (2 ^ (length bs * 8))

-- `class BinaryReader`
pub record Reader : Type 0 where
  pub input : List ℕ
  pub offset : ℕ

unfoldable pub new_reader : List ℕ → ℕ → Result Reader
new_reader input offset =
    if leb offset (length input)
    then ok (record { input = input; offset = offset })
    else err reader_offset

unfoldable pub remaining : Reader → ℕ
remaining r = length r.input - r.offset

unfoldable pub read_bytes : ℕ → Reader → Result (List ℕ × Reader)
read_bytes byte_length r =
    if ltb (length r.input) (r.offset + byte_length)
    then err reader_exhausted
    else ok (take byte_length (drop r.offset r.input), record r { offset = r.offset + byte_length })

abbrev pub Decoder : Type 0
Decoder = Reader → Result (Value × Reader)

unfoldable pub decode_with : ℕ → (List ℕ → Value) → Decoder
decode_with byte_length view r = read_bytes byte_length r >>= λ p. ok (view p.0, p.1)
