-- ===== src/Values.antt =====
-- The dynamic values that typescript/src/BinaryCodec.ts takes and returns (`unknown`), and its
-- functions `integerFromValue`, `decodeHex`, `decodeBase64`, `bytesFromValue`, `recordFromValue`,
-- `arrayFromValue`. An object holds its own fields only.
use Prim.Native.String.{String}
use chancery_integration_exa.Common.{
  ℕ, suc, ◌+◌, ◌*◌, ◌-◌, ◌%◌, ◌^◌, ltb, leb, ◌==◌, if◌then◌else◌, Bool, ◌&&◌, Option, none, some,
  List, [], ◌∷◌, map, Result, ok, err, ◌>>=◌, not_an_integer, invalid_hexadecimal, not_a_byte,
  not_bytes, not_an_object, not_an_array,
}
use chancery_integration_exa.Common.Int.{ℤ, pos, negsuc, negate}

-- `number` is a number with an integral value, `non_integer` any other number. A string is the list
-- of its code units.
mutual
  pub data Value : Type 0 where
    undefined null non_integer : Value
    boolean : Bool → Value
    number : ℤ → Value
    bigint : ℤ → Value
    string : List ℕ → Value
    bytes : List ℕ → Value
    array : Items → Value
    object : Fields → Value

  pub data Fields : Type 0 where
    end : Fields
    field : String → Value → Fields → Fields

  pub data Items : Type 0 where
    nil : Items
    cons : Value → Items → Items

abbrev pub magnitude : ℤ → ℕ
magnitude (pos n) = n
magnitude (negsuc n) = suc n

-- `Number.isSafeInteger` on a number with an integral value
unfoldable pub is_safe_integer : ℤ → Bool
is_safe_integer z = ltb (magnitude z) (2 ^ 53)

-- `/^[0-9]+$/` and `BigInt` on the digits read so far.
unfoldable pub decimal_digits : ℕ → List ℕ → Option ℕ
decimal_digits acc [] = some acc
decimal_digits acc (c ∷ cs) =
    let rest = decimal_digits (acc * 10 + (c - b'0')) cs in
    if leb b'0' c && leb c b'9' then rest else none

unfoldable pub unsigned_decimal : List ℕ → Option ℕ
unsigned_decimal [] = none
unsigned_decimal (c ∷ cs) = decimal_digits 0 (c ∷ cs)

-- `BigInt(value)` for a text that matches `/^-?[0-9]+$/`
unfoldable pub signed_decimal : List ℕ → Option ℤ
signed_decimal [] = none
signed_decimal (c ∷ cs) =
    if c == b'-'
    then elim (unsigned_decimal cs) [ none ↦ none | some n ↦ some (negate n) ]
    else elim (unsigned_decimal (c ∷ cs)) [ none ↦ none | some n ↦ some (pos n) ]

unfoldable pub integer_from_value : Value → Result ℤ
integer_from_value (bigint z) = ok z
integer_from_value (number z) = if is_safe_integer z then ok z else err not_an_integer
integer_from_value (string s) = elim (signed_decimal s) [
  | none ↦ err not_an_integer
  | some z ↦ ok z
]
integer_from_value _ = err not_an_integer

unfoldable pub hex_digit : ℕ → Option ℕ
hex_digit c =
    if leb b'0' c && leb c b'9'
    then some (c - b'0')
    else if leb b'a' c && leb c b'f'
    then some (c - b'a' + 10)
    else if leb b'A' c && leb c b'F'
    then some (c - b'A' + 10)
    else none

-- The loop of `decodeHex`, on pairs of digits.
unfoldable pub hex_pairs : List ℕ → Result (List ℕ)
hex_pairs [] = ok []
hex_pairs (c ∷ []) = err invalid_hexadecimal
hex_pairs (c ∷ d ∷ cs) = elim (hex_digit c) [
  | none ↦ err invalid_hexadecimal
  | some high ↦ elim (hex_digit d) [
    | none ↦ err invalid_hexadecimal
    | some low ↦ do more ← hex_pairs cs; ok ((high * 16 + low) ∷ more)
  ]
]

-- The text behind a prefix, if the text starts with it.
unfoldable pub strip_prefix : List ℕ → List ℕ → Option (List ℕ)
strip_prefix [] cs = some cs
strip_prefix (p ∷ ps) [] = none
strip_prefix (p ∷ ps) (c ∷ cs) = if p == c then strip_prefix ps cs else none

abbrev pub hex_prefix : List ℕ
hex_prefix = b'0' ∷ b'x' ∷ []

abbrev pub base64_prefix : List ℕ
base64_prefix = b'b' ∷ b'a' ∷ b's' ∷ b'e' ∷ b'6' ∷ b'4' ∷ b':' ∷ []

unfoldable pub decode_hex : List ℕ → Result (List ℕ)
decode_hex s = elim (strip_prefix hex_prefix s) [ none ↦ hex_pairs s | some body ↦ hex_pairs body ]

-- The array branch of `bytesFromValue`.
unfoldable pub byte_items : Items → Result (List ℕ)
byte_items nil = ok []
byte_items (cons (number (pos n)) vs) =
    let rest = byte_items vs in
    if leb n 255 then (do more ← rest; ok (n ∷ more)) else err not_a_byte
byte_items (cons v vs) = err not_a_byte

-- `atob` is the runtime's base64 decoder, from a text to the binary string that it stands for.
module _ (atob : List ℕ → Result (List ℕ)) where
  unfoldable pub decode_base64 : List ℕ → Result (List ℕ)
  decode_base64 s = do binary ← atob s; ok (map (λ c. c % 256) binary)

  unfoldable pub bytes_from_value : Value → Result (List ℕ)
  bytes_from_value (bytes bs) = ok bs
  bytes_from_value (array vs) = byte_items vs
  bytes_from_value (string s) = elim (strip_prefix hex_prefix s) [
    | some _ ↦ decode_hex s
    | none ↦ elim (strip_prefix base64_prefix s) [
      | some encoded ↦ decode_base64 encoded
      | none ↦ err not_bytes
    ]
  ]
  bytes_from_value _ = err not_bytes

unfoldable pub record_from_value : Value → Result Fields
record_from_value (object fs) = ok fs
record_from_value _ = err not_an_object

unfoldable pub array_from_value : Value → Result Items
array_from_value (array vs) = ok vs
array_from_value _ = err not_an_array
