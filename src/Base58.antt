-- ===== src/Base58.antt =====
-- typescript/src/Base58Codec.ts, and the second decoder in integration/typescript/src/base58.ts.
-- A `Uint8Array` is a list of numbers below 256, a string the list of its UTF-16 code units.
pub mod Letters
pub mod RoundTrip
pub mod Keys
pub mod Integration
use Prim.Native.String.{String}
use Prim.Native.String
use Prim.Native.Char.{code}
use chancery_integration_exa.Common.{
  ℕ, zero, suc, ◌+◌, ◌<◌, ltb, ◌==◌, if◌then◌else◌, Option, none, some, List, [], ◌∷◌, ◌++◌,
  reverse, length, get_elem?, drop, replicate, Result, ok, err, ◌>>=◌, ◌>>◌, guard,
  invalid_base58_character, public_key_length, empty_base58, default_public_key, Bool, true, not,
  ◌&&◌,
}
use chancery_integration_exa.Common.Radix.{multiply_add, rebase}

abbrev pub IsByte : ℕ → Type 0
IsByte b = b < 256

-- The code units of a string.
abbrev pub Text : Type 0
Text = List ℕ

-- The code units of an ASCII text.
abbrev pub codes : String → List ℕ
codes String.[] = []
codes (String.◌∷◌ c s) = code c ∷ codes s

unfoldable pub base58_alphabet : List ℕ
base58_alphabet = codes "123456789ABCDEFGHJKLMNPQRSTUVWXYZabcdefghijkmnopqrstuvwxyz"

write {ℓ} : {A : Type ℓ} → List A → ℕ → A → List A
write [] i v = []
write (x ∷ xs) zero v = v ∷ xs
write (x ∷ xs) (suc i) v = x ∷ write xs i v

-- The loop of `createBase58Indexes`; `none` stands for the table's -1.
fill_indexes : List (Option ℕ) → ℕ → List ℕ → List (Option ℕ)
unfolding write
fill_indexes table index [] = table
fill_indexes table index (c ∷ cs) = fill_indexes (write table c (some index)) (index + 1) cs

create_base58_indexes : List (Option ℕ)
unfolding fill_indexes base58_alphabet
create_base58_indexes = fill_indexes (replicate 128 none) 0 base58_alphabet

-- `code < BASE58_INDEXES.length ? BASE58_INDEXES[code] : -1`
unfoldable pub alphabet_index : ℕ → Option ℕ
unfolding create_base58_indexes
alphabet_index c =
    if ltb c 128
    then elim (get_elem? create_base58_indexes c) [ none ↦ none | some i ↦ i ]
    else none

-- `while (n < xs.length && xs[n] === x) n++`
unfoldable pub leading_count : ℕ → List ℕ → ℕ
leading_count x [] = 0
leading_count x (y ∷ ys) = let more = suc (leading_count x ys) in if y == x then more else 0

-- `encoded += BASE58_ALPHABET[digit] ?? ""` for each digit
unfoldable pub letters : List ℕ → List ℕ
letters [] = []
letters (d ∷ ds) = elim (get_elem? base58_alphabet d) [
  | none ↦ letters ds
  | some c ↦ c ∷ letters ds
]

unfoldable pub encode_base58 : List ℕ → List ℕ
encode_base58 [] = []
encode_base58 (b ∷ bs) =
    let bytes = b ∷ bs in
    let leading_zero_count = leading_count 0 bytes in
    if leading_zero_count == length bytes
    then replicate leading_zero_count b'1'
    else replicate leading_zero_count b'1'
      ++ letters (reverse (rebase 256 58 (0 ∷ []) (drop leading_zero_count bytes)))

-- The loop over the characters; `bytes` has the lowest byte first.
unfoldable pub decode_characters : List ℕ → List ℕ → Result (List ℕ)
decode_characters bytes [] = ok bytes
decode_characters bytes (c ∷ cs) = elim (alphabet_index c) [
  | none ↦ err invalid_base58_character
  | some index ↦ decode_characters (multiply_add 58 256 bytes index) cs
]

unfoldable pub decode_base58 : List ℕ → Result (List ℕ)
decode_base58 [] = ok []
decode_base58 (c ∷ cs) =
    let encoded = c ∷ cs in
    let leading_one_count = leading_count b'1' encoded in
    if leading_one_count == length encoded then ok (replicate leading_one_count 0) else (do
      bytes ← decode_characters (0 ∷ []) (drop leading_one_count encoded)
      ok (replicate leading_one_count 0 ++ reverse bytes))

-- `string | Uint8Array`
pub data KeyInput : Type 0 where
  text : List ℕ → KeyInput
  raw : List ℕ → KeyInput

unfoldable pub decode_key_input : KeyInput → Result (List ℕ)
decode_key_input (text s) = decode_base58 s
decode_key_input (raw bytes) = ok bytes

unfoldable pub decode_public_key : KeyInput → Result (List ℕ)
decode_public_key key = do
  bytes ← decode_key_input key
  guard (length bytes == 32) public_key_length
  ok bytes

unfoldable pub normalize_public_key : KeyInput → Result (List ℕ)
normalize_public_key key = do bytes ← decode_public_key key; ok (encode_base58 bytes)

-- integration/typescript/src/base58.ts: `decodeBase58`. An empty text is refused, the digits start
-- from no byte, and the leading `1`s are not skipped but read as zeros.
unfoldable pub integration_decode_base58 : List ℕ → Result (List ℕ)
integration_decode_base58 [] = err empty_base58
integration_decode_base58 (c ∷ cs) = do
  little_endian_bytes ← decode_characters [] (c ∷ cs)
  ok (replicate (leading_count b'1' (c ∷ cs)) 0 ++ reverse little_endian_bytes)

-- `decoded.every((byte) => byte === 0)`
unfoldable pub every_zero : List ℕ → Bool
every_zero [] = true
every_zero (b ∷ bs) = b == 0 && every_zero bs

-- integration/typescript/src/base58.ts: `assertPublicKey`
unfoldable pub assert_public_key : List ℕ → Bool → Result (Unit {0})
assert_public_key value allow_default_public_key = do
  decoded ← integration_decode_base58 value
  guard (length decoded == 32) public_key_length
  guard (not (not allow_default_public_key && every_zero decoded)) default_public_key
