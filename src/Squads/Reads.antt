-- ===== src/Squads/Reads.antt =====
-- typescript/src/squads/SquadsVaultMessage.ts: the reader on the bytes that the encoder wrote.
use mathlib.Core.List.{append_assoc}
use chancery_integration_exa.Common.{
  ℕ, ◌+◌, ◌*◌, ◌/◌, ◌%◌, ◌^◌, ◌≤◌, ◌<◌, ◌≡◌, refl, sym, ap, ◌∙◌, arith, ltb, List, [], ◌∷◌, ◌++◌,
  length, All, Result, ok, ◌>>=◌, ◌>>◌, guard, >>=-eq-ok, guard-eq-ok, length-append,
  take-length_append, drop-length_append,
}
use chancery_integration_exa.Common.Int.{pos}
use chancery_integration_exa.Base58.Keys.{decode_public_key_inv}
use chancery_integration_exa.Values.{is_safe_integer}
use chancery_integration_exa.Wire.{le_bytes}
use chancery_integration_exa.Squads.{
  whole, unsigned_integer_from_value, encode_unsigned_input, encode_u8, encode_u16,
}
use chancery_integration_exa.Base58.{Text}
use chancery_integration_exa.Squads.Message.{
  Reading, read_message_bytes, byte_or_zero, read_u8, read_u16, read_many, read_key,
}
use chancery_integration_exa.Squads.Encode.{byte_array, encode_all, encode_key}

-- The method reads the value from the bytes, whatever follows them.
abbrev pub Reads {ℓ} : {A : Type ℓ} → Reading A → List ℕ → A → Type ℓ
Reads read bytes value = (rest : List ℕ) → read (bytes ++ rest) ≡ ok (value, rest)

pub Reads-first {ℓ} :
    {A : Type ℓ} (read : Reading A) (bytes more rest : List ℕ) (value : A)
    → Reads read bytes value
    → read ((bytes ++ more) ++ rest) ≡ ok (value, more ++ rest)
Reads-first read bytes more rest value h = rw append_assoc (h (more ++ rest))

-- A chain whose first step returns.
pub >>=-ok {ℓ κ} :
    {V : Type ℓ} {W : Type κ} {first : Result V} (next : V → Result W) {v : V} {w : Result W}
    → first ≡ ok v
    → next v ≡ w
    → (first >>= next) ≡ w
>>=-ok next h k = rw h k

pub read_message_bytes_lem :
    (n : ℕ) (bytes : List ℕ) → length bytes ≡ n → Reads (read_message_bytes n) bytes bytes
unfolding read_message_bytes
read_message_bytes_lem n bytes sized rest =
    rw (← sized, take-length_append, drop-length_append) (ground (arith, length-append bytes rest))

-- What is encoded is below the bound, in its bytes.
encode_input_inv :
    (n byte_length : ℕ) (bytes : List ℕ)
    → encode_unsigned_input (whole (pos n)) byte_length ≡ ok bytes
    → (n < 2 ^ (byte_length * 8)) × (le_bytes byte_length n ≡ bytes)
unfolding encode_unsigned_input unsigned_integer_from_value
encode_input_inv n byte_length bytes h =
    let (positive, h1) = guard-eq-ok (ltb 0 byte_length) _ _ h in
    let (value, checked, h2) = >>=-eq-ok (guard (is_safe_integer (pos n)) _ >> ok n) _ h1 in
    let (safe, same) = guard-eq-ok (is_safe_integer (pos n)) _ _ checked in
    let (low, written) = guard-eq-ok (ltb value (2 ^ (byte_length * 8))) _ _ h2 in
    let value_is : n ≡ value = cc in (rw value_is (ground arith), rw value_is (cc))

pub read_u8_lem : (b : ℕ) → Reads read_u8 (b ∷ []) b
unfolding read_u8 byte_or_zero
read_u8_lem b rest = rw (read_message_bytes_lem 1 (b ∷ []) refl rest) refl

pub encode_u8_inv :
    (n : ℕ) (bytes : List ℕ) → encode_u8 (whole (pos n)) ≡ ok bytes → (n < 256) × (bytes ≡ n ∷ [])
unfolding encode_u8 le_bytes
encode_u8_inv n bytes h =
    let (low, same) = encode_input_inv n 1 bytes h in
    let small : n < 256 = omega (arith, low) in
    let byte : n % 256 ≡ n = omega (arith, small) in (small, sym same ∙ ap (λ (m : ℕ). m ∷ []) byte)

pub encode_u16_inv :
    (n : ℕ) (bytes : List ℕ)
    → encode_u16 (whole (pos n)) ≡ ok bytes
    → (n < 65536) × (bytes ≡ n % 256 ∷ (n / 256 % 256 ∷ []))
unfolding encode_u16 le_bytes
encode_u16_inv n bytes h =
    let (low, same) = encode_input_inv n 2 bytes h in (omega (arith, low), sym same)

pub read_u8-encode_u8 :
    (n : ℕ) (bytes : List ℕ) → encode_u8 (whole (pos n)) ≡ ok bytes → Reads read_u8 bytes n
read_u8-encode_u8 n bytes h rest = rw ((encode_u8_inv n bytes h).1) (read_u8_lem n rest)

pub read_u16-encode_u16 :
    (n : ℕ) (bytes : List ℕ) → encode_u16 (whole (pos n)) ≡ ok bytes → Reads read_u16 bytes n
unfolding read_u16 byte_or_zero
read_u16-encode_u16 n bytes h rest =
    let (low, same) = encode_u16_inv n bytes h in
    let number : n % 256 + n / 256 % 256 * 256 ≡ n = omega (arith, low) in
    rw same (
      rw (read_message_bytes_lem 2 (n % 256 ∷ (n / 256 % 256 ∷ [])) refl rest)
        (ap (λ (m : ℕ). ok (m, rest)) number))

-- A key that is decoded is a text of 32 bytes.
pub read_key-encode_key :
    (address : Text) (bytes : List ℕ) → encode_key address ≡ ok bytes → Reads read_key bytes address
unfolding encode_key read_key
read_key-encode_key address bytes h rest =
    let (sized, same) = decode_public_key_inv address bytes h in
    rw (read_message_bytes_lem 32 bytes sized rest) (ap (λ (t : Text). ok (t, rest)) same)

pub read_many-encode_all {ℓ} :
    {A : Type ℓ} (P : A → Type 0) (encode : A → Result (List ℕ)) (read : Reading A)
    (values : List A) (bytes : List ℕ)
    → ((a : A) (part : List ℕ) → P a → encode a ≡ ok part → Reads read part a)
    → All P values
    → encode_all encode values ≡ ok bytes
    → Reads (read_many read (length values)) bytes values
unfolding read_many encode_all
read_many-encode_all P encode read [] bytes back good h rest =
    let none_left : [] ≡ bytes = cc in rw (← none_left) refl
read_many-encode_all P encode read (a ∷ values) bytes back (p, good) h rest =
    let (part, first, h1) = >>=-eq-ok (encode a) _ h in
    let (others, later, h2) = >>=-eq-ok (encode_all encode values) _ h1 in
    let all : part ++ others ≡ bytes = cc in
    rw (← all) (
      >>=-ok _ (Reads-first read part others rest a (back a part p first))
        (>>=-ok _ (read_many-encode_all P encode read values others back good later rest) refl))

pub byte_array_lem : (numbers : List ℕ) → All (λ n. n ≤ 255) numbers → byte_array numbers ≡ numbers
unfolding byte_array
byte_array_lem [] h = refl
byte_array_lem (n ∷ numbers) (p, h) =
    let byte : n % 256 ≡ n = omega (arith, p) in rw (byte, byte_array_lem numbers h) refl
