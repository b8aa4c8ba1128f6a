-- ===== src/Squads/Message.antt =====
-- typescript/src/squads/SquadsVaultMessage.ts: the messages and their reader. A reader is the list of the bytes that it has not read.
use chancery_integration_exa.Common.{
  ℕ, zero, suc, ◌+◌, ◌*◌, ◌%◌, ◌^◌, ltb, if◌then◌else◌, List, [], ◌∷◌, length, take, drop, Result,
  ok, err, ◌>>=◌, ◌>>◌, guard, available_bytes, short_vector_range, short_vector_encoding,
}
use chancery_integration_exa.Base58.{Text, encode_base58}

-- `SquadsCompiledInstruction`
pub record SquadsInstruction : Type 0 where
  pub program_id_index : ℕ
  pub account_indexes : List ℕ
  pub data_bytes : List ℕ

-- `SquadsMessageAddressTableLookup`
pub record SquadsLookup : Type 0 where
  pub account_key : Text
  pub writable_indexes : List ℕ
  pub readonly_indexes : List ℕ

-- `SquadsVaultTransactionMessage`, whose numbers are not negative.
pub record SquadsMessage : Type 0 where
  pub num_signers : ℕ
  pub num_writable_signers : ℕ
  pub num_writable_non_signers : ℕ
  pub account_keys : List Text
  pub instructions : List SquadsInstruction
  pub address_table_lookups : List SquadsLookup

-- A method of `MessageReader`: the value that it returns and what is left to read.
abbrev pub Reading {ℓ} : Type ℓ → Type ℓ
Reading A = List ℕ → Result (A × List ℕ)

-- `MessageReader.readBytes`
unfoldable pub read_message_bytes : ℕ → Reading (List ℕ)
read_message_bytes byte_length unread =
    if ltb (length unread) byte_length
    then err available_bytes
    else ok (take byte_length unread, drop byte_length unread)

-- `bytes[0] ?? 0`
unfoldable pub byte_or_zero : List ℕ → ℕ
byte_or_zero [] = 0
byte_or_zero (b ∷ bytes) = b

unfoldable pub read_u8 : Reading ℕ
read_u8 unread = do (bytes, rest) ← read_message_bytes 1 unread; ok (byte_or_zero bytes, rest)

-- Two bytes have no bit in common after the shift, so `|` adds.
unfoldable pub read_u16 : Reading ℕ
read_u16 unread = do
  (bytes, rest) ← read_message_bytes 2 unread
  ok (byte_or_zero bytes + byte_or_zero (drop 1 bytes) * 256, rest)

-- The loop of `readShortVectorLength`, on the turns that are left.
unfoldable pub read_short_loop : ℕ → ℕ → ℕ → Reading ℕ
read_short_loop zero value multiplier unread = err short_vector_encoding
read_short_loop (suc turns) value multiplier unread = do
  (byte_value, rest) ← read_u8 unread
  let total = value + byte_value % 128 * multiplier
  let more = read_short_loop turns total (multiplier * 128) rest
  guard (ltb total (2 ^ 53)) short_vector_range
  if ltb byte_value 128 then ok (total, rest) else more

unfoldable pub read_short_vector_length : Reading ℕ
read_short_vector_length unread = read_short_loop 8 0 1 unread

-- `for (let index = 0; index < count; index++) list.push(read())`
unfoldable pub read_many {ℓ} : {A : Type ℓ} → Reading A → ℕ → Reading (List A)
read_many read zero unread = ok ([], unread)
read_many read (suc count) unread = do
  (first, rest) ← read unread
  (others, left) ← read_many read count rest
  ok (first ∷ others, left)

-- `encodeBase58(reader.readBytes(32))`
unfoldable pub read_key : Reading Text
read_key unread = do (bytes, rest) ← read_message_bytes 32 unread; ok (encode_base58 bytes, rest)
