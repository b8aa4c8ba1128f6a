-- ===== src/Squads/Decode.antt =====
-- typescript/src/squads/SquadsVaultMessage.ts: `decodeSquadsVaultTransactionMessage`.
use chancery_integration_exa.Common.{
  ℕ, ◌==◌, List, length, Result, ok, ◌>>=◌, ◌>>◌, guard, trailing_bytes,
}
use chancery_integration_exa.Squads.Message.{
  SquadsInstruction, SquadsLookup, SquadsMessage, Reading, read_message_bytes, read_u8, read_u16,
  read_many, read_key,
}
use chancery_integration_exa.Squads.Validate.{validate_squads_vault_transaction_message}

unfoldable pub read_instruction : Reading SquadsInstruction
read_instruction unread = do
  (program, r1) ← read_u8 unread
  (count, r2) ← read_u8 r1
  (indexes, r3) ← read_message_bytes count r2
  (data_length, r4) ← read_u16 r3
  (bytes, r5) ← read_message_bytes data_length r4
  ok (record { program_id_index = program; account_indexes = indexes; data_bytes = bytes }, r5)

unfoldable pub read_lookup : Reading SquadsLookup
read_lookup unread = do
  (key, r1) ← read_key unread
  (writable_count, r2) ← read_u8 r1
  (writable, r3) ← read_message_bytes writable_count r2
  (readonly_count, r4) ← read_u8 r3
  (readonly, r5) ← read_message_bytes readonly_count r4
  ok (record { account_key = key; writable_indexes = writable; readonly_indexes = readonly }, r5)

-- `decodeSquadsVaultTransactionMessage` up to its last field.
unfoldable pub read_message : Reading SquadsMessage
read_message unread = do
  (signers, r1) ← read_u8 unread
  (writable_signers, r2) ← read_u8 r1
  (writable_others, r3) ← read_u8 r2
  (key_count, r4) ← read_u8 r3
  (keys, r5) ← read_many read_key key_count r4
  (instruction_count, r6) ← read_u8 r5
  (instructions, r7) ← read_many read_instruction instruction_count r6
  (lookup_count, r8) ← read_u8 r7
  (lookups, r9) ← read_many read_lookup lookup_count r8
  ok (
    record {
      num_signers = signers;
      num_writable_signers = writable_signers;
      num_writable_non_signers = writable_others;
      account_keys = keys;
      instructions = instructions;
      address_table_lookups = lookups;
    },
    r9,
  )

unfoldable pub decode_squads_vault_transaction_message : List ℕ → Result SquadsMessage
decode_squads_vault_transaction_message bytes = do
  (message, left) ← read_message bytes
  guard (length left == 0) trailing_bytes
  validate_squads_vault_transaction_message message
  ok message
