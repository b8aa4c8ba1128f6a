-- ===== src/Transactions/Message.antt =====
-- typescript/src/SolanaTransaction.ts: the bytes of a message, from its ordered accounts.
use chancery_integration_exa.Common.{
  ℕ, suc, ◌%◌, ltb, leb, if◌then◌else◌, not, ◌&&◌, Option, none, some, List, [], ◌∷◌, ◌++◌, map,
  length, take, Result, ok, ◌>>=◌, ◌>>◌, guard, or_throw, static_key_count, header_count, key_count,
  absent_program, absent_account, no_lookup_table,
}
use chancery_integration_exa.Base58.{KeyInput, text, decode_public_key, normalize_public_key}
use chancery_integration_exa.Base58.{Text}
use chancery_integration_exa.Transactions.{
  AccountMeta, Instruction, AddressLookupTable, TableLookup, MessageVersion, unversioned,
  version_zero, CompiledMessage, AggregatedMeta, map_get, map_set, encode_short_vector_length,
  aggregate_account_metas, order_static_account_metas, count_matching,
}
use chancery_integration_exa.Transactions.Lookup.{place_accounts_in_lookup_tables}

-- The addresses of metas, in order.
unfoldable pub meta_addresses : List AggregatedMeta → List Text
meta_addresses [] = []
meta_addresses (meta ∷ metas) = meta.address ∷ meta_addresses metas

-- The loops that fill `accountIndexByAddress`.
unfoldable pub set_indexes : List (Text × ℕ) → List Text → ℕ → List (Text × ℕ)
set_indexes indexes [] next = indexes
set_indexes indexes (address ∷ addresses) next =
    set_indexes (map_set indexes address next) addresses (suc next)

-- `accountIndexByAddress.get(address)`, refused if absent or over one byte.
unfoldable pub compiled_index : List (Text × ℕ) → Text → Option ℕ
compiled_index indexes address = elim (map_get indexes address) [
  | none ↦ none
  | some index ↦ if ltb 255 index then none else some index
]

unfoldable pub account_indexes : List (Text × ℕ) → List AccountMeta → Result (List ℕ)
account_indexes indexes [] = ok []
account_indexes indexes (account ∷ accounts) = do
  address ← normalize_public_key (text account.address)
  index ← or_throw absent_account (compiled_index indexes address)
  others ← account_indexes indexes accounts
  ok (index ∷ others)

-- What one turn of the loop over the instructions pushes.
unfoldable pub instruction_part : List (Text × ℕ) → Instruction → Result (List ℕ)
instruction_part indexes instruction = do
  program_address ← normalize_public_key (text instruction.program_address)
  program_index ← or_throw absent_program (compiled_index indexes program_address)
  account_count ← encode_short_vector_length (length instruction.accounts)
  accounts ← account_indexes indexes instruction.accounts
  data_length ← encode_short_vector_length (length instruction.data_bytes)
  ok (program_index ∷ (account_count ++ (accounts ++ (data_length ++ instruction.data_bytes))))

unfoldable pub instruction_parts : List (Text × ℕ) → List Instruction → Result (List ℕ)
instruction_parts indexes [] = ok []
instruction_parts indexes (instruction ∷ instructions) = do
  part ← instruction_part indexes instruction
  others ← instruction_parts indexes instructions
  ok (part ++ others)

unfoldable pub key_parts : List Text → Result (List ℕ)
key_parts [] = ok []
key_parts (address ∷ addresses) = do
  key ← decode_public_key (text address)
  others ← key_parts addresses
  ok (key ++ others)

-- `new Uint8Array(indexes)` keeps the low byte.
unfoldable pub low_bytes : List ℕ → List ℕ
low_bytes indexes = map (λ (index : ℕ). index % 256) indexes

unfoldable pub lookup_part : TableLookup → Result (List ℕ)
lookup_part lookup = do
  key ← decode_public_key (text lookup.table_address)
  writable_count ← encode_short_vector_length (length lookup.writable_indexes)
  readonly_count ← encode_short_vector_length (length lookup.readonly_indexes)
  ok (
      key
      ++ (writable_count
          ++ (low_bytes lookup.writable_indexes
              ++ (readonly_count ++ low_bytes lookup.readonly_indexes))))

unfoldable pub lookup_parts : List TableLookup → Result (List ℕ)
lookup_parts [] = ok []
lookup_parts (lookup ∷ lookups) = do
  part ← lookup_part lookup
  others ← lookup_parts lookups
  ok (part ++ others)

unfoldable pub version_part : MessageVersion → List ℕ
version_part unversioned = []
version_part version_zero = 128 ∷ []

unfoldable pub lookups_part : MessageVersion → List TableLookup → Result (List ℕ)
lookups_part unversioned lookups = ok []
lookups_part version_zero lookups = do
  count ← encode_short_vector_length (length lookups)
  parts ← lookup_parts lookups
  ok (count ++ parts)

-- `requiredSignatures`, `readonlySigned`, `readonlyUnsigned`
unfoldable pub required_signatures : List AggregatedMeta → ℕ
required_signatures metas = count_matching (λ meta. meta.is_signer) metas

unfoldable pub readonly_signed : List AggregatedMeta → ℕ
readonly_signed metas = count_matching (λ meta. meta.is_signer && not meta.is_writable) metas

unfoldable pub readonly_unsigned : List AggregatedMeta → ℕ
readonly_unsigned metas = count_matching (λ meta. not meta.is_signer && not meta.is_writable) metas

-- `accountIndexByAddress`
unfoldable pub account_index_by_address : List Text → List (Text × ℕ)
account_index_by_address keys = set_indexes [] keys 0

-- The three guards of `compileMessageBytes` before any part.
unfoldable pub check_counts : List AggregatedMeta → List Text → Result (Unit {0})
check_counts static_metas keys = do
  guard (leb (length static_metas) 256) static_key_count
  guard
      (leb (required_signatures static_metas) 255
        && (leb (readonly_signed static_metas) 255 && leb (readonly_unsigned static_metas) 255))
      header_count
  guard (leb (length keys) 256) key_count

-- `concatenate(messageParts)`
unfoldable pub message_bytes_of :
    MessageVersion
    → List Instruction
    → List AggregatedMeta
    → List Text
    → List TableLookup
    → KeyInput
    → Result (List ℕ)
message_bytes_of version instructions static_metas keys lookups recent_blockhash = do
  key_total ← encode_short_vector_length (length static_metas)
  static_keys ← key_parts (meta_addresses static_metas)
  blockhash ← decode_public_key recent_blockhash
  instruction_total ← encode_short_vector_length (length instructions)
  compiled ← instruction_parts (account_index_by_address keys) instructions
  tables ← lookups_part version lookups
  ok (
      version_part version
      ++ ((required_signatures static_metas
            ∷ (readonly_signed static_metas ∷ (readonly_unsigned static_metas ∷ [])))
          ++ (key_total
              ++ (static_keys ++ (blockhash ++ (instruction_total ++ (compiled ++ tables)))))))

unfoldable pub compile_message_bytes :
    MessageVersion
    → List Instruction
    → List AggregatedMeta
    → List Text
    → List Text
    → List TableLookup
    → KeyInput
    → Result CompiledMessage
compile_message_bytes version instructions static_metas writable readonly lookups recent_blockhash =
    let keys = meta_addresses static_metas ++ (writable ++ readonly) in
    check_counts static_metas keys
    >> (message_bytes_of version instructions static_metas keys lookups recent_blockhash
        >>= λ bytes. ok (record {
          version = version;
          bytes = bytes;
          account_keys = keys;
          signer_addresses = take (required_signatures static_metas) (meta_addresses static_metas);
          number_of_required_signatures = required_signatures static_metas;
          number_of_readonly_signed_accounts = readonly_signed static_metas;
          number_of_readonly_unsigned_accounts = readonly_unsigned static_metas;
          address_table_lookups = lookups;
        }))

unfoldable pub compile_unversioned_message :
    List Instruction → KeyInput → KeyInput → Result CompiledMessage
compile_unversioned_message instructions fee_payer recent_blockhash = do
  aggregated ← aggregate_account_metas instructions fee_payer
  compile_message_bytes unversioned instructions (order_static_account_metas aggregated) [] [] []
      recent_blockhash

unfoldable pub compile_version_zero_message :
    List Instruction → KeyInput → KeyInput → List AddressLookupTable → Result CompiledMessage
compile_version_zero_message instructions fee_payer recent_blockhash lookup_tables = do
  guard (ltb 0 (length lookup_tables)) no_lookup_table
  aggregated ← aggregate_account_metas instructions fee_payer
  placed ← place_accounts_in_lookup_tables aggregated lookup_tables
  compile_message_bytes version_zero instructions (order_static_account_metas placed.static_metas)
      placed.writable_loaded_addresses placed.readonly_loaded_addresses placed.lookups
      recent_blockhash
