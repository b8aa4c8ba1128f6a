-- ===== src/Tests/Transactions.antt =====
-- A transaction of one instruction, compiled, parsed and ordered.
use chancery_integration_exa.Common.{
  ℕ, ◌≡◌, ◌-◌, refl, arith, ltb, true, false, not, ◌&&◌, ◌||◌, List, [], ◌∷◌, ◌++◌, length,
  get_elem?, replicate, some, ok,
}
use chancery_integration_exa.Base58.{
  Text, text, raw, normalize_public_key, decode_public_key, decode_key_input, decode_base58,
  leading_count, decode_characters, alphabet_index, encode_base58, letters,
}
use chancery_integration_exa.Common.Radix.{multiply_add, rebase}
use chancery_integration_exa.Messages.{text_equals}
use chancery_integration_exa.Transactions.{
  Instruction, AggregatedMeta, CompiledMessage, unversioned, short_vector_loop,
  encode_short_vector_length, map_get, map_set, merge_account_meta, merge_accounts,
  merge_instructions, aggregate_account_metas, account_order_group, goes_before, insert_meta,
  order_static_account_metas, count_matching, fee_payer_meta, program_meta,
}
use chancery_integration_exa.Transactions.Message.{
  meta_addresses, set_indexes, compiled_index, account_indexes, instruction_part, instruction_parts,
  key_parts, lookups_part, version_part, required_signatures, readonly_signed, readonly_unsigned,
  account_index_by_address, check_counts, message_bytes_of, compile_message_bytes,
  compile_unversioned_message,
}
use chancery_integration_exa.Transactions.Order.{header_layout}
use chancery_integration_exa.Transactions.Aggregate.{
  aggregate_account_metas_flags, any_meta, any_mention, payer_flag, writable,
}
use chancery_integration_exa.Transactions.Compiled.{account_indexes-AreResolved, AreResolved}
use chancery_integration_exa.Transactions.Payer.{compile_unversioned_message_payer}
use chancery_integration_exa.Squads.Compile.{parse_standard_compiled_message}
use chancery_integration_exa.Squads.Message.{SquadsMessage}
use chancery_integration_exa.Squads.Standard.{IsParsed, parse_standard-compile_unversioned}

-- The key of 31 zero bytes and one other.
abbrev key : ℕ → Text
key c = replicate 31 b'1' ++ (c ∷ [])

abbrev key_of : ℕ → List ℕ
key_of n = replicate 31 0 ++ (n ∷ [])

abbrev transfer : Instruction
transfer = record {
  program_address = key b'4';
  accounts =
      record { address = key b'3'; is_signer = false; is_writable = true }
      ∷ (record { address = key b'2'; is_signer = true; is_writable = false } ∷ []);
  data_bytes = 7 ∷ (8 ∷ []);
}

abbrev payer_aggregated : AggregatedMeta
payer_aggregated = fee_payer_meta (key b'2')

abbrev vault_aggregated : AggregatedMeta
vault_aggregated = record {
  address = key b'3';
  first_seen_index = 1;
  is_signer = false;
  is_writable = true;
  is_program = false;
}

abbrev program_aggregated : AggregatedMeta
program_aggregated = program_meta (key b'4') 3

aggregated_run :
    aggregate_account_metas (transfer ∷ []) (text (key b'2'))
    ≡ ok (payer_aggregated ∷ (vault_aggregated ∷ (program_aggregated ∷ [])))
unfolding aggregate_account_metas merge_instructions merge_accounts merge_account_meta
    normalize_public_key decode_public_key decode_key_input decode_base58 leading_count
    decode_characters alphabet_index multiply_add encode_base58 letters rebase text_equals
aggregated_run = refl

abbrev message : CompiledMessage
message = record {
  version = unversioned;
  bytes =
      1
      ∷ (0
          ∷ (1
              ∷ (3
                  ∷ (key_of 1
                      ++ (key_of 2
                          ++ (key_of 3
                              ++ (replicate 32 0
                                  ++ (1 ∷ (2 ∷ (2 ∷ (1 ∷ (0 ∷ (2 ∷ (7 ∷ (8 ∷ [])))))))))))))));
  account_keys = key b'2' ∷ (key b'3' ∷ (key b'4' ∷ []));
  signer_addresses = key b'2' ∷ [];
  number_of_required_signatures = 1;
  number_of_readonly_signed_accounts = 0;
  number_of_readonly_unsigned_accounts = 1;
  address_table_lookups = [];
}

message_run :
    compile_unversioned_message (transfer ∷ []) (text (key b'2')) (raw (replicate 32 0))
    ≡ ok message
unfolding compile_unversioned_message compile_message_bytes message_bytes_of check_counts
    account_index_by_address readonly_unsigned readonly_signed required_signatures version_part
    lookups_part key_parts instruction_parts instruction_part account_indexes compiled_index
    set_indexes meta_addresses aggregate_account_metas merge_instructions merge_accounts
    merge_account_meta normalize_public_key decode_public_key decode_key_input decode_base58
    leading_count decode_characters alphabet_index multiply_add encode_base58 letters rebase
    text_equals order_static_account_metas insert_meta goes_before account_order_group
    count_matching map_get map_set encode_short_vector_length short_vector_loop
message_run = refl

first_ordered :
    get_elem? (order_static_account_metas (vault_aggregated ∷ (payer_aggregated ∷ []))) 0
    ≡ some payer_aggregated
unfolding order_static_account_metas insert_meta goes_before account_order_group
first_ordered = refl

header_layout_example :
    (true
      ≡ ltb 0 (
          required_signatures
            (order_static_account_metas (vault_aggregated ∷ (payer_aggregated ∷ [])))))
    × (true ≡ (
        ltb 0 (
          required_signatures
            (order_static_account_metas (vault_aggregated ∷ (payer_aggregated ∷ [])))
          - readonly_signed
              (order_static_account_metas (vault_aggregated ∷ (payer_aggregated ∷ []))))
        || (not (
              ltb 0 (
                required_signatures
                  (order_static_account_metas (vault_aggregated ∷ (payer_aggregated ∷ [])))))
            && ltb 0 (
                length (order_static_account_metas (vault_aggregated ∷ (payer_aggregated ∷ [])))
                - readonly_unsigned
                    (order_static_account_metas (vault_aggregated ∷ (payer_aggregated ∷ [])))))))
header_layout_example =
    header_layout (vault_aggregated ∷ (payer_aggregated ∷ [])) 0 payer_aggregated first_ordered

aggregate_account_metas_flags_example :
    (payer : Text) × (normalize_public_key (text (key b'2')) ≡ ok payer)
    × (any_meta writable
          (payer_aggregated ∷ (vault_aggregated ∷ (program_aggregated ∷ [])))
          (key b'3')
        ≡ ((text_equals payer (key b'3') && payer_flag writable)
            || any_mention writable (transfer ∷ []) (key b'3')))
aggregate_account_metas_flags_example =
    aggregate_account_metas_flags (transfer ∷ []) (text (key b'2'))
      (payer_aggregated ∷ (vault_aggregated ∷ (program_aggregated ∷ []))) writable (key b'3')
      aggregated_run

indexes_run :
    account_indexes (account_index_by_address (key b'2' ∷ (key b'3' ∷ []))) transfer.accounts
    ≡ ok (1 ∷ (0 ∷ []))
unfolding account_indexes account_index_by_address compiled_index set_indexes map_get map_set
    normalize_public_key decode_public_key decode_key_input decode_base58 leading_count
    decode_characters alphabet_index multiply_add encode_base58 letters rebase text_equals
indexes_run = refl

account_indexes-AreResolved_example :
    AreResolved (key b'2' ∷ (key b'3' ∷ [])) transfer.accounts (1 ∷ (0 ∷ []))
account_indexes-AreResolved_example =
    account_indexes-AreResolved (key b'2' ∷ (key b'3' ∷ [])) transfer.accounts (1 ∷ (0 ∷ []))
      indexes_run

payer_run : normalize_public_key (text (key b'2')) ≡ ok (key b'2')
unfolding normalize_public_key decode_public_key decode_key_input decode_base58 leading_count
    decode_characters alphabet_index multiply_add encode_base58 letters rebase
payer_run = refl

compile_unversioned_message_payer_example :
    (get_elem? message.account_keys 0 ≡ some (key b'2'))
    × (get_elem? message.signer_addresses 0 ≡ some (key b'2'))
compile_unversioned_message_payer_example =
    compile_unversioned_message_payer (transfer ∷ []) (text (key b'2')) (raw (replicate 32 0))
      (key b'2') message payer_run message_run

parse_standard-compile_unversioned_example :
    (m : SquadsMessage) × (parse_standard_compiled_message message.bytes ≡ ok m)
    × IsParsed (transfer ∷ []) message m
parse_standard-compile_unversioned_example =
    parse_standard-compile_unversioned (transfer ∷ []) (text (key b'2')) (raw (replicate 32 0))
      message message_run (omega arith) (omega arith) (omega arith) (omega arith)
