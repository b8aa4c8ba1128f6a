-- ===== src/Squads.antt =====
-- typescript/src/squads/SquadsCodec.ts: unsigned integers and byte vectors, and
-- typescript/src/squads/SquadsPda.ts: the derived addresses.
pub mod Accepted
pub mod Message
pub mod Validate
pub mod Encode
pub mod Decode
pub mod Reads
pub mod RoundTrip
pub mod ShortVector
pub mod Compile
pub mod Execute
pub mod Parsed
pub mod Standard
pub mod Instructions
use Prim.Native.String.{String}
use chancery_integration_exa.Common.{
  ℕ, zero, suc, ◌+◌, ◌*◌, ◌^◌, ltb, leb, if◌then◌else◌, Bool, true, false, Option, none, some, List,
  [], ◌∷◌, ◌++◌, length, Result, ok, err, ◌>>=◌, ◌>>◌, guard, or_throw, not_an_integer,
  unsigned_range, byte_count,
}
use chancery_integration_exa.Common.Int.{ℤ, pos, negsuc}
use chancery_integration_exa.Base58.{codes, KeyInput, decode_public_key}
use chancery_integration_exa.Values.{is_safe_integer, unsigned_decimal}
use chancery_integration_exa.Wire.{le_bytes}
use chancery_integration_exa.Address.{find_program_address}

-- `UnsignedIntegerInput`: a bigint, a number that is integral or not, or a string.
pub data UnsignedIntegerInput : Type 0 where
  big whole : ℤ → UnsignedIntegerInput
  fraction : UnsignedIntegerInput
  digits : List ℕ → UnsignedIntegerInput

unfoldable pub unsigned_integer_from_value : UnsignedIntegerInput → Result ℕ
unsigned_integer_from_value (big (pos n)) = ok n
unsigned_integer_from_value (big (negsuc n)) = err unsigned_range
unsigned_integer_from_value (whole (pos n)) = guard (is_safe_integer (pos n)) unsigned_range >> ok n
unsigned_integer_from_value (whole (negsuc n)) = err unsigned_range
unsigned_integer_from_value fraction = err unsigned_range
unsigned_integer_from_value (digits text) = or_throw not_an_integer (unsigned_decimal text)

unfoldable pub encode_unsigned_input : UnsignedIntegerInput → ℕ → Result (List ℕ)
encode_unsigned_input value byte_length = do
  guard (ltb 0 byte_length) byte_count
  integer_value ← unsigned_integer_from_value value
  guard (ltb integer_value (2 ^ (byte_length * 8))) unsigned_range
  ok (le_bytes byte_length integer_value)

unfoldable pub encode_u8 : UnsignedIntegerInput → Result (List ℕ)
encode_u8 value = encode_unsigned_input value 1

unfoldable pub encode_u16 : UnsignedIntegerInput → Result (List ℕ)
encode_u16 value = encode_unsigned_input value 2

unfoldable pub encode_u32 : UnsignedIntegerInput → Result (List ℕ)
encode_u32 value = encode_unsigned_input value 4

unfoldable pub encode_u64 : UnsignedIntegerInput → Result (List ℕ)
encode_u64 value = encode_unsigned_input value 8

unfoldable pub encode_boolean : Bool → List ℕ
encode_boolean true = 1 ∷ []
encode_boolean false = 0 ∷ []

unfoldable pub encode_byte_vector : List ℕ → Result (List ℕ)
encode_byte_vector bytes = do count ← encode_u32 (whole (pos (length bytes))); ok (count ++ bytes)

-- The bytes of a text are UTF-8, by the `TextEncoder` of the platform; `none` is null or undefined.
unfoldable pub encode_optional_string : (List ℕ → List ℕ) → Option (List ℕ) → Result (List ℕ)
encode_optional_string encode_text none = ok (0 ∷ [])
encode_optional_string encode_text (some value) = do
  count ← encode_u32 (whole (pos (length (encode_text value))))
  ok (1 ∷ (count ++ encode_text value))

-- `hash` is the SHA-256 of node's `crypto`; the default of the program's address is left to the caller.
module _ (hash : List ℕ → List ℕ) where
  unfoldable pub derive_squads_vault_address :
      KeyInput → UnsignedIntegerInput → KeyInput → Result (List ℕ × ℕ)
  derive_squads_vault_address multisig_address vault_index program_address = do
    multisig ← decode_public_key multisig_address
    index ← encode_u8 vault_index
    find_program_address hash (codes "multisig" ∷ (multisig ∷ (codes "vault" ∷ (index ∷ []))))
        program_address

  unfoldable pub derive_squads_transaction_address :
      KeyInput → UnsignedIntegerInput → KeyInput → Result (List ℕ × ℕ)
  derive_squads_transaction_address multisig_address transaction_index program_address = do
    multisig ← decode_public_key multisig_address
    index ← encode_u64 transaction_index
    find_program_address hash (codes "multisig" ∷ (multisig ∷ (codes "transaction" ∷ (index ∷ []))))
        program_address

  unfoldable pub derive_squads_proposal_address :
      KeyInput → UnsignedIntegerInput → KeyInput → Result (List ℕ × ℕ)
  derive_squads_proposal_address multisig_address transaction_index program_address = do
    multisig ← decode_public_key multisig_address
    index ← encode_u64 transaction_index
    find_program_address hash
        (codes "multisig" ∷ (multisig ∷ (codes "transaction" ∷ (index ∷ (codes "proposal" ∷ [])))))
        program_address

  unfoldable pub derive_squads_ephemeral_signer_address :
      KeyInput → UnsignedIntegerInput → KeyInput → Result (List ℕ × ℕ)
  derive_squads_ephemeral_signer_address transaction_address ephemeral_index program_address = do
    transaction ← decode_public_key transaction_address
    index ← encode_u8 ephemeral_index
    find_program_address hash
        (codes "multisig" ∷ (transaction ∷ (codes "ephemeral_signer" ∷ (index ∷ []))))
        program_address
