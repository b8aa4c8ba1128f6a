-- ===== src/Squads/Compile.antt =====
-- typescript/src/squads/SquadsVaultMessage.ts: a vault transaction message from a compiled message of
-- Solana's own format.
use chancery_integration_exa.Common.{
  ℕ, ◌+◌, ◌-◌, ◌%◌, ltb, leb, ◌==◌, if◌then◌else◌, Bool, true, false, List, [], ◌∷◌, length,
  replicate, Result, ok, ◌>>=◌, ◌>>◌, guard, not_u8, trailing_bytes, message_version, payer_key,
  payer_signer,
}
use chancery_integration_exa.Base58.{KeyInput, text, raw, normalize_public_key}
use chancery_integration_exa.Messages.{text_equals}
use chancery_integration_exa.Transactions.{Instruction, AddressLookupTable, CompiledMessage}
use chancery_integration_exa.Transactions.Message.{
  compile_unversioned_message, compile_version_zero_message,
}
use chancery_integration_exa.Base58.{Text}
use chancery_integration_exa.Squads.Message.{
  SquadsInstruction, SquadsLookup, SquadsMessage, Reading, read_message_bytes, read_u8,
  read_short_vector_length, read_many, read_key,
}
use chancery_integration_exa.Squads.Validate.{validate_squads_vault_transaction_message}

unfoldable pub read_standard_instruction : Reading SquadsInstruction
read_standard_instruction unread = do
  (program, r1) ← read_u8 unread
  (count, r2) ← read_short_vector_length r1
  (indexes, r3) ← read_message_bytes count r2
  (data_length, r4) ← read_short_vector_length r3
  (bytes, r5) ← read_message_bytes data_length r4
  ok (record { program_id_index = program; account_indexes = indexes; data_bytes = bytes }, r5)

unfoldable pub read_standard_lookup : Reading SquadsLookup
read_standard_lookup unread = do
  (key, r1) ← read_key unread
  (writable_count, r2) ← read_short_vector_length r1
  (writable, r3) ← read_message_bytes writable_count r2
  (readonly_count, r4) ← read_short_vector_length r3
  (readonly, r5) ← read_message_bytes readonly_count r4
  ok (record { account_key = key; writable_indexes = writable; readonly_indexes = readonly }, r5)

-- `isVersionZero`
unfoldable pub has_version : ℕ → Bool
has_version first_byte = leb 128 first_byte

-- `numSigners` from the first byte, and from the next one behind a version.
unfoldable pub read_signers : ℕ → Reading ℕ
read_signers first_byte unread =
    if has_version first_byte
    then (guard (first_byte % 128 == 0) message_version >> read_u8 unread)
    else ok (first_byte, unread)

unfoldable pub read_standard_lookups : Bool → Reading (List SquadsLookup)
read_standard_lookups false unread = ok ([], unread)
read_standard_lookups true unread = do
  (count, rest) ← read_short_vector_length unread
  read_many read_standard_lookup count rest

-- What the bytes of a compiled message hold.
pub record StandardMessage : Type 0 where
  pub signers : ℕ
  pub readonly_signed : ℕ
  pub readonly_unsigned : ℕ
  pub account_keys : List Text
  pub instructions : List SquadsInstruction
  pub lookups : List SquadsLookup

-- The body of `parseStandardCompiledMessage` behind its first byte, up to the trailing bytes.
unfoldable pub read_standard : ℕ → Reading StandardMessage
read_standard first_byte unread = do
  (signers, r1) ← read_signers first_byte unread
  (readonly_signed, r2) ← read_u8 r1
  (readonly_unsigned, r3) ← read_u8 r2
  (key_count, r4) ← read_short_vector_length r3
  (keys, r5) ← read_many read_key key_count r4
  (blockhash, r6) ← read_message_bytes 32 r5
  (instruction_count, r7) ← read_short_vector_length r6
  (instructions, r8) ← read_many read_standard_instruction instruction_count r7
  (lookups, r9) ← read_standard_lookups (has_version first_byte) r8
  ok (
    record {
      signers = signers;
      readonly_signed = readonly_signed;
      readonly_unsigned = readonly_unsigned;
      account_keys = keys;
      instructions = instructions;
      lookups = lookups;
    },
    r9,
  )

-- The message of the parsed parts, whose two differences must not be negative: `assertU8` refuses
-- them in its validation.
unfoldable pub squads_message_of : StandardMessage → Result SquadsMessage
squads_message_of standard =
    let message : SquadsMessage = record {
      num_signers = standard.signers;
      num_writable_signers = standard.signers - standard.readonly_signed;
      num_writable_non_signers =
          length standard.account_keys - standard.signers - standard.readonly_unsigned;
      account_keys = standard.account_keys;
      instructions = standard.instructions;
      address_table_lookups = standard.lookups;
    } in
    guard (leb standard.readonly_signed standard.signers) not_u8
    >> guard (leb (standard.signers + standard.readonly_unsigned) (length standard.account_keys))
        not_u8
    >> validate_squads_vault_transaction_message message
    >> ok message

unfoldable pub parse_standard_compiled_message : List ℕ → Result SquadsMessage
parse_standard_compiled_message bytes = do
  (first_byte, r0) ← read_u8 bytes
  (standard, left) ← read_standard first_byte r0
  guard (length left == 0) trailing_bytes
  squads_message_of standard

-- `message.accountKeys[0] !== address`
unfoldable pub first_key_is : List Text → Text → Bool
first_key_is [] address = false
first_key_is (key ∷ keys) address = text_equals key address

unfoldable pub check_vault_payer : SquadsMessage → Text → Result (Unit {0})
check_vault_payer message vault =
    guard (first_key_is message.account_keys vault) payer_key
    >> guard (ltb 0 message.num_signers) payer_signer
    >> guard (ltb 0 message.num_writable_signers) payer_signer

-- `ZERO_BLOCKHASH`
abbrev pub zero_blockhash : KeyInput
zero_blockhash = raw (replicate 32 0)

unfoldable pub compile_for_vault :
    List Instruction → Text → List AddressLookupTable → Result CompiledMessage
compile_for_vault instructions vault [] =
    compile_unversioned_message instructions (text vault) zero_blockhash
compile_for_vault instructions vault (table ∷ tables) =
    compile_version_zero_message instructions (text vault) zero_blockhash (table ∷ tables)

unfoldable pub compile_squads_vault_transaction_message :
    List Instruction → KeyInput → List AddressLookupTable → Result SquadsMessage
compile_squads_vault_transaction_message instructions vault_address address_lookup_tables = do
  vault ← normalize_public_key vault_address
  compiled ← compile_for_vault instructions vault address_lookup_tables
  message ← parse_standard_compiled_message compiled.bytes
  check_vault_payer message vault
  ok message
