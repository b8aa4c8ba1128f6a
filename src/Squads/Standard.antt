-- ===== src/Squads/Standard.antt =====
-- The messages that typescript/src/SolanaTransaction.ts compiles, as
-- typescript/src/squads/SquadsVaultMessage.ts parses them.
use mathlib.Core.List.{append-nil}
use chancery_integration_exa.Common.{
  ℕ, suc, ◌+◌, ◌≤◌, ◌<◌, ◌≡◌, refl, sym, ap, ◌∙◌, arith, Bool, false, List, [], ◌∷◌, ◌++◌, length,
  ok, >>=-eq-ok, ok-injective,
}
use chancery_integration_exa.Base58.{KeyInput, decode_public_key}
use chancery_integration_exa.Base58.Keys.{decode_public_key-length}
use chancery_integration_exa.Base58.{Text}
use chancery_integration_exa.Transactions.{
  Instruction, AggregatedMeta, CompiledMessage, unversioned, encode_short_vector_length,
  order_static_account_metas,
}
use chancery_integration_exa.Transactions.Message.{
  meta_addresses, account_index_by_address, instruction_parts, key_parts, version_part,
  lookups_part, required_signatures, readonly_signed, readonly_unsigned, message_bytes_of,
  compile_unversioned_message,
}
use chancery_integration_exa.Transactions.Compiled.{compile_unversioned_message_inv}
use chancery_integration_exa.Squads.Message.{SquadsInstruction, SquadsMessage, read_many, read_key}
use chancery_integration_exa.Squads.Compile.{
  read_standard_instruction, has_version, read_signers, read_standard_lookups, StandardMessage,
  read_standard, squads_message_of, parse_standard_compiled_message,
}
use chancery_integration_exa.Squads.Reads.{Reads, >>=-ok, read_message_bytes_lem, read_u8_lem}
use chancery_integration_exa.Squads.ShortVector.{
  read_short_vector_length-encode_short_vector_length,
}
use chancery_integration_exa.Squads.Accepted.{
  FitBytes, message_of, squads_message_of-ok, readonly_signed-le, unsigned-le,
}
use chancery_integration_exa.Squads.Parsed.{AreCompiled, read_instruction_parts, read_key_parts}

length-meta_addresses : (metas : List AggregatedMeta) → length (meta_addresses metas) ≡ length metas
unfolding meta_addresses
length-meta_addresses [] = refl
length-meta_addresses (meta ∷ metas) = ap suc (length-meta_addresses metas)

-- What the header counts and the account keys of ordered metas are parsed to.
abbrev pub parsed_of : List AggregatedMeta → List SquadsInstruction → StandardMessage
parsed_of metas compiled = record {
  signers = required_signatures metas;
  readonly_signed = readonly_signed metas;
  readonly_unsigned = readonly_unsigned metas;
  account_keys = meta_addresses metas;
  instructions = compiled;
  lookups = [];
}

read_signers_plain :
    (first : ℕ) (unread : List ℕ)
    → has_version first ≡ false
    → read_signers first unread ≡ ok (first, unread)
unfolding read_signers
read_signers_plain first unread h = rw h refl

read_standard_lookups_plain :
    (version : Bool) (unread : List ℕ)
    → version ≡ false
    → read_standard_lookups version unread ≡ ok ([], unread)
unfolding read_standard_lookups
read_standard_lookups_plain version unread h = rw h refl

has_version_plain : (first : ℕ) → first < 128 → has_version first ≡ false
unfolding has_version
has_version_plain first few = ground arith

keys_back :
    (metas : List AggregatedMeta) (static_keys : List ℕ)
    → key_parts (meta_addresses metas) ≡ ok static_keys
    → Reads (read_many read_key (length metas)) static_keys (meta_addresses metas)
keys_back metas static_keys e =
    rw (← length-meta_addresses metas) (read_key_parts (meta_addresses metas) static_keys e)

-- The parts of a message's bytes are read one by one.
parse_parts :
    (metas : List AggregatedMeta) (amount : ℕ) (compiled : List SquadsInstruction)
    (total static_keys hash_bytes count parts : List ℕ)
    → required_signatures metas < 128
    → encode_short_vector_length (length metas) ≡ ok total
    → key_parts (meta_addresses metas) ≡ ok static_keys
    → length hash_bytes ≡ 32
    → encode_short_vector_length amount ≡ ok count
    → Reads (read_many read_standard_instruction amount) parts compiled
    → parse_standard_compiled_message (
        required_signatures metas
        ∷ (readonly_signed metas
            ∷ (readonly_unsigned metas
                ∷ (total ++ (static_keys ++ (hash_bytes ++ (count ++ (parts ++ []))))))))
      ≡ squads_message_of (parsed_of metas compiled)
unfolding parse_standard_compiled_message read_standard
parse_parts metas amount compiled total static_keys hash_bytes count parts few e1 e2 e3 e4 reads =
    let plain = has_version_plain (required_signatures metas) few in
    >>=-ok _ (read_u8_lem (required_signatures metas) _) (
      >>=-ok _
        (>>=-ok _ (read_signers_plain (required_signatures metas) _ plain) (
          >>=-ok _ (read_u8_lem (readonly_signed metas) _) (
            >>=-ok _ (read_u8_lem (readonly_unsigned metas) _) (
              >>=-ok _ (read_short_vector_length-encode_short_vector_length _ total e1 _) (
                >>=-ok _ (keys_back metas static_keys e2 _) (
                  >>=-ok _ (read_message_bytes_lem 32 hash_bytes e3 _) (
                    >>=-ok _ (read_short_vector_length-encode_short_vector_length _ count e4 _) (
                      >>=-ok _ (reads []) (
                        >>=-ok _
                          (read_standard_lookups_plain (has_version (required_signatures metas)) []
                            plain)
                          refl)))))))))
        refl)

-- The bytes of a message without lookup tables, with fewer than 128 required signatures, are parsed
-- to the counts, the keys and the instructions that they were made of.
parse_message_bytes :
    (instructions : List Instruction) (metas : List AggregatedMeta) (keys : List Text)
    (blockhash : KeyInput) (bytes : List ℕ)
    → required_signatures metas < 128
    → message_bytes_of unversioned instructions metas keys [] blockhash ≡ ok bytes
    → (compiled : List SquadsInstruction) × AreCompiled keys instructions compiled
      × ((static_keys : List ℕ) × (key_parts (meta_addresses metas) ≡ ok static_keys))
      × (parse_standard_compiled_message bytes ≡ squads_message_of (parsed_of metas compiled))
unfolding message_bytes_of version_part lookups_part
parse_message_bytes instructions metas keys blockhash bytes few h =
    let (total, e1, h1) = >>=-eq-ok (encode_short_vector_length (length metas)) _ h in
    let (static_keys, e2, h2) = >>=-eq-ok (key_parts (meta_addresses metas)) _ h1 in
    let (hash_bytes, e3, h3) = >>=-eq-ok (decode_public_key blockhash) _ h2 in
    let (count, e4, h4) = >>=-eq-ok (encode_short_vector_length (length instructions)) _ h3 in
    let (parts, e5, h5) =
      >>=-eq-ok (instruction_parts (account_index_by_address keys) instructions) _ h4 in
    let all = ok-injective h5 in
    let (compiled, reads, good) = read_instruction_parts keys instructions parts e5 in
    (
      compiled,
      good,
      (static_keys, e2),
      ap (λ (t : List ℕ). parse_standard_compiled_message t) (sym all)
          ∙ parse_parts metas (length instructions) compiled total static_keys hash_bytes count
              parts few e1 e2 (decode_public_key-length blockhash hash_bytes e3) e4 reads,
    )

-- What a message that was parsed holds of a compiled one: its counts of signers, of writable signers
-- and of writable others are those of the header, its keys are the message's, its instructions name,
-- by the positions of the keys, the programs and the accounts of the compiled ones and have their
-- data, and it has no lookups.
abbrev pub IsParsed : List Instruction → CompiledMessage → SquadsMessage → Type 0
IsParsed instructions message m =
    (m.num_signers ≡ message.number_of_required_signatures)
    × (m.num_writable_signers + message.number_of_readonly_signed_accounts ≡ m.num_signers)
    × (m.num_signers + m.num_writable_non_signers + message.number_of_readonly_unsigned_accounts
        ≡ length message.account_keys)
    × (m.account_keys ≡ message.account_keys)
    × AreCompiled message.account_keys instructions m.instructions
    × (m.address_table_lookups ≡ [])

-- A message that is compiled without lookup tables is parsed, if it has fewer than 128 signers and at
-- most 255 account keys and instructions, each of at most 255 accounts and 65535 bytes of data. The
-- parsed message has the account keys and the header counts of the compiled one, as many writable
-- signers and other writable accounts as the header leaves, instructions that name, by the positions
-- of the account keys, the program and the accounts of the instructions that were compiled, with
-- their data, and no lookups.
pub parse_standard-compile_unversioned :
    (instructions : List Instruction) (fee_payer blockhash : KeyInput) (message : CompiledMessage)
    → compile_unversioned_message instructions fee_payer blockhash ≡ ok message
    → message.number_of_required_signatures < 128
    → length message.account_keys ≤ 255
    → length instructions ≤ 255
    → FitBytes instructions
    → (m : SquadsMessage) × (parse_standard_compiled_message message.bytes ≡ ok m)
      × IsParsed instructions message m
parse_standard-compile_unversioned instructions fee_payer blockhash message h few few_keys some_few
      fit =
    let (metas, merged, keys, signers, counts, written) =
      compile_unversioned_message_inv instructions fee_payer blockhash message h in
    let (required, signed, unsigned) = counts in
    let ordered = order_static_account_metas metas in
    let same_keys : message.account_keys ≡ meta_addresses ordered =
      keys ∙ append-nil (meta_addresses ordered) in
    let (compiled, good, (static_keys, decoded), parsed) =
      parse_message_bytes instructions ordered (meta_addresses ordered ++ []) blockhash
        message.bytes (rw (← required) few) written in
    let few_ordered : length (meta_addresses ordered) ≤ 255 = rw (← same_keys) few_keys in
    let order = readonly_signed-le ordered in
    let keys_order = unsigned-le ordered in
    (
      message_of (parsed_of ordered compiled),
      parsed
          ∙ squads_message_of-ok (parsed_of ordered compiled) instructions static_keys refl order
              keys_order few_ordered some_few fit decoded
              (rw (← append-nil (meta_addresses ordered)) good),
      (
        sym required,
        rw signed (omega (arith, order)),
        rw (unsigned, same_keys) (omega (arith, keys_order)),
        sym same_keys,
        rw keys good,
        refl,
      ),
    )
