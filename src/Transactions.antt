-- ===== src/Transactions.antt =====
-- typescript/src/SolanaTransaction.ts: the accounts of a transaction's instructions, their order, the
-- address lookup tables, the bytes of a message and of a transaction. A `Map` with text keys is the
-- list of its entries in insertion order.
pub mod Lookup
pub mod Message
pub mod Order
pub mod Maps
pub mod Aggregate
pub mod Compiled
pub mod Payer
pub mod Signing
use chancery_integration_exa.Common.{
  ℕ, zero, suc, ◌+◌, ◌-◌, ◌%◌, ◌/◌, ◌^◌, ltb, leb, ◌==◌, if◌then◌else◌, Bool, true, false, not,
  ◌&&◌, ◌||◌, Option, none, some, List, [], ◌∷◌, ◌++◌, map, length, take, drop, replicate, Result,
  ok, err, ◌>>=◌, ◌>>◌, guard, or_throw, short_vector_value, signature_length,
}
use chancery_integration_exa.Base58.{Text, KeyInput, text, decode_public_key, normalize_public_key}
use chancery_integration_exa.Messages.{text_equals}

-- `SolanaInstructionAccountMeta`; its optional name is of no account here.
pub record AccountMeta : Type 0 where
  pub address : Text
  pub is_signer : Bool
  pub is_writable : Bool

-- `SolanaInstruction`
pub record Instruction : Type 0 where
  pub program_address : Text
  pub accounts : List AccountMeta
  pub data_bytes : List ℕ

-- `AddressLookupTable`
pub record AddressLookupTable : Type 0 where
  pub address : Text
  pub addresses : List Text

-- `CompiledAddressTableLookup`
pub record TableLookup : Type 0 where
  pub table_address : Text
  pub writable_indexes : List ℕ
  pub readonly_indexes : List ℕ

pub data MessageVersion : Type 0 where
  unversioned version_zero : MessageVersion

-- `CompiledSolanaMessage`
pub record CompiledMessage : Type 0 where
  pub version : MessageVersion
  pub bytes : List ℕ
  pub account_keys : List Text
  pub signer_addresses : List Text
  pub number_of_required_signatures : ℕ
  pub number_of_readonly_signed_accounts : ℕ
  pub number_of_readonly_unsigned_accounts : ℕ
  pub address_table_lookups : List TableLookup

-- `AggregatedAccountMeta`
pub record AggregatedMeta : Type 0 where
  pub address : Text
  pub first_seen_index : ℕ
  pub is_signer : Bool
  pub is_writable : Bool
  pub is_program : Bool

-- The loop of `encodeShortVectorLength`, on `fuel` turns: the low seven bits first, and the bit 128
-- where more follows.
unfoldable pub short_vector_loop : ℕ → ℕ → List ℕ
short_vector_loop zero value = []
short_vector_loop (suc fuel) value =
    let following = short_vector_loop fuel (value / 128) in
    if ltb 0 (value / 128) then (value % 128 + 128) ∷ following else value % 128 ∷ []

-- A safe integer has fewer than 8 * 7 bits.
unfoldable pub encode_short_vector_length : ℕ → Result (List ℕ)
encode_short_vector_length value =
    guard (ltb value (2 ^ 53)) short_vector_value >> ok (short_vector_loop 8 value)

module _ {ℓ} {V : Type ℓ} where
  -- `Map.prototype.get`
  unfoldable pub map_get : List (Text × V) → Text → Option V
  map_get [] key = none
  map_get ((k, v) ∷ entries) key = if text_equals k key then some v else map_get entries key

  -- `Map.prototype.set`: a key that is there keeps its place.
  unfoldable pub map_set : List (Text × V) → Text → V → List (Text × V)
  map_set [] key value = (key, value) ∷ []
  map_set ((k, v) ∷ entries) key value =
      let others = map_set entries key value in
      if text_equals k key then (k, value) ∷ entries else (k, v) ∷ others

  unfoldable pub map_has : List (Text × V) → Text → Bool
  map_has entries key = elim (map_get entries key) [ none ↦ false | some v ↦ true ]

-- `mergeAccountMeta`; a meta is stored in the `Map` under its own address.
unfoldable pub merge_account_meta : List AggregatedMeta → AggregatedMeta → List AggregatedMeta
merge_account_meta [] seen = seen ∷ []
merge_account_meta (existing ∷ metas) seen =
    let others = merge_account_meta metas seen in
    if text_equals existing.address seen.address
    then record existing {
      is_signer = existing.is_signer || seen.is_signer;
      is_writable = existing.is_writable || seen.is_writable;
      is_program = existing.is_program || seen.is_program;
    }
      ∷ metas
    else existing ∷ others

-- The loop over the accounts of an instruction, with `firstSeenIndex`.
unfoldable pub merge_accounts :
    List AccountMeta → ℕ → List AggregatedMeta → Result (ℕ × List AggregatedMeta)
merge_accounts [] index metas = ok (index, metas)
merge_accounts (account ∷ accounts) index metas = do
  address ← normalize_public_key (text account.address)
  merge_accounts accounts (suc index) (
      merge_account_meta metas (record {
        address = address;
        first_seen_index = index;
        is_signer = account.is_signer;
        is_writable = account.is_writable;
        is_program = false;
      }))

-- The program of an instruction, after its accounts.
abbrev pub program_meta : Text → ℕ → AggregatedMeta
program_meta address index = record {
  address = address;
  first_seen_index = index;
  is_signer = false;
  is_writable = false;
  is_program = true;
}

-- The loop over the instructions.
unfoldable pub merge_instructions :
    List Instruction → ℕ → List AggregatedMeta → Result (List AggregatedMeta)
merge_instructions [] index metas = ok metas
merge_instructions (instruction ∷ instructions) index metas = do
  (next, merged) ← merge_accounts instruction.accounts index metas
  program ← normalize_public_key (text instruction.program_address)
  merge_instructions instructions (suc next) (merge_account_meta merged (program_meta program next))

abbrev pub fee_payer_meta : Text → AggregatedMeta
fee_payer_meta address = record {
  address = address;
  first_seen_index = 0;
  is_signer = true;
  is_writable = true;
  is_program = false;
}

unfoldable pub aggregate_account_metas : List Instruction → KeyInput → Result (List AggregatedMeta)
aggregate_account_metas instructions fee_payer_input = do
  fee_payer ← normalize_public_key fee_payer_input
  merge_instructions instructions 1 (fee_payer_meta fee_payer ∷ [])

unfoldable pub account_order_group : AggregatedMeta → ℕ
account_order_group meta =
    if meta.is_signer && meta.is_writable
    then 0
    else if meta.is_signer
    then 1
    else if meta.is_writable
    then 2
    else 3

-- `comparator(left, right) <= 0`
unfoldable pub goes_before : AggregatedMeta → AggregatedMeta → Bool
goes_before left right =
    if account_order_group left == account_order_group right
    then leb left.first_seen_index right.first_seen_index
    else ltb (account_order_group left) (account_order_group right)

unfoldable pub insert_meta : AggregatedMeta → List AggregatedMeta → List AggregatedMeta
insert_meta meta [] = meta ∷ []
insert_meta meta (first ∷ metas) =
    let later = insert_meta meta metas in
    if goes_before meta first then meta ∷ (first ∷ metas) else first ∷ later

-- `Array.prototype.sort`, which is stable.
unfoldable pub order_static_account_metas : List AggregatedMeta → List AggregatedMeta
order_static_account_metas [] = []
order_static_account_metas (meta ∷ metas) = insert_meta meta (order_static_account_metas metas)

unfoldable pub count_matching : (AggregatedMeta → Bool) → List AggregatedMeta → ℕ
count_matching predicate [] = 0
count_matching predicate (meta ∷ metas) =
    let count = count_matching predicate metas in if predicate meta then suc count else count

-- `serializeTransaction` behind its first part.
unfoldable pub signature_parts : List (List ℕ) → List ℕ → Result (List ℕ)
signature_parts [] message_bytes = ok message_bytes
signature_parts (signature ∷ signatures) message_bytes = do
  guard (length signature == 64) signature_length
  following ← signature_parts signatures message_bytes
  ok (signature ++ following)

unfoldable pub serialize_transaction : List ℕ → List (List ℕ) → Result (List ℕ)
serialize_transaction message_bytes signatures = do
  count ← encode_short_vector_length (length signatures)
  following ← signature_parts signatures message_bytes
  ok (count ++ following)

unfoldable pub create_unsigned_transaction : CompiledMessage → Result (List ℕ)
create_unsigned_transaction message =
    serialize_transaction message.bytes
      (replicate message.number_of_required_signatures (replicate 64 0))
