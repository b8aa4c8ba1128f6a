-- ===== src/Transactions/Compiled.antt =====
-- typescript/src/SolanaTransaction.ts: the account keys of a compiled message, and the indexes that
-- its instructions hold.
use chancery_integration_exa.Common.{
  ℕ, ◌≤◌, ◌≡◌, ap, ◌∙◌, arith, ltb, Bool-cases, Option-cases, inl, inr, some, List, [], ◌∷◌, ◌++◌,
  take, get_elem?, ok, >>=-eq-ok, or_throw, or_throw-eq-ok, absent_account,
}
use chancery_integration_exa.Base58.{KeyInput, text, normalize_public_key}
use chancery_integration_exa.Base58.Keys.{normalize_public_key_text}
use chancery_integration_exa.Base58.{Text}
use chancery_integration_exa.Transactions.{
  AccountMeta, Instruction, AggregatedMeta, unversioned, CompiledMessage, map_get,
  aggregate_account_metas, order_static_account_metas,
}
use chancery_integration_exa.Transactions.Message.{
  meta_addresses, compiled_index, account_indexes, account_index_by_address, check_counts,
  message_bytes_of, compile_message_bytes, compile_unversioned_message, required_signatures,
  readonly_signed, readonly_unsigned,
}
use chancery_integration_exa.Transactions.Maps.{account_index-Resolves}

-- Each index leads to its account's address.
abbrev pub AreResolved : List Text → List AccountMeta → List ℕ → Type 0
AreResolved keys [] [] = Unit {0}
AreResolved keys (account ∷ accounts) (index ∷ indexes) =
    ((get_elem? keys index ≡ some account.address) × (index ≤ 255))
    × AreResolved keys accounts indexes
AreResolved keys _ _ = ⊥

pub compiled_index_lem :
    (indexes : List (Text × ℕ)) (address : Text) (index : ℕ)
    → compiled_index indexes address ≡ some index
    → (map_get indexes address ≡ some index) × (index ≤ 255)
unfolding compiled_index
compiled_index_lem indexes address index h = elim (Option-cases (map_get indexes address)) [
  | inl e ↦ absurd (cc)
  | inr (i, e) ↦ elim (Bool-cases (ltb 255 i)) [
    | inl big ↦ absurd (ground arith)
    | inr small ↦ let same : i ≡ index = ground arith in (e ∙ ap some same, ground arith)
  ]
]

-- The indexes that an instruction holds in a compiled message lead, among the message's account keys,
-- to the addresses of the instruction's accounts, in order, and each fits a byte.
pub account_indexes-AreResolved :
    (keys : List Text) (accounts : List AccountMeta) (indexes : List ℕ)
    → account_indexes (account_index_by_address keys) accounts ≡ ok indexes
    → AreResolved keys accounts indexes
unfolding account_indexes
account_indexes-AreResolved keys [] [] h = tt
account_indexes-AreResolved keys [] (i ∷ indexes) h = absurd (cc)
account_indexes-AreResolved keys (account ∷ accounts) indexes h =
    let table = account_index_by_address keys in
    let (address, named, h1) = >>=-eq-ok (normalize_public_key (text account.address)) _ h in
    let (index, there, h2) =
      >>=-eq-ok (or_throw absent_account (compiled_index table address)) _ h1 in
    let (others, rest, h3) = >>=-eq-ok (account_indexes table accounts) _ h2 in
    let (found, small) =
      compiled_index_lem table address index (or_throw-eq-ok absent_account _ there) in
    let own = normalize_public_key_text account.address address named in
    let place : get_elem? keys index ≡ some account.address =
      account_index-Resolves keys address index found ∙ ap some own in
    let all : index ∷ others ≡ indexes = cc in
    rw (← all) ((place, small), account_indexes-AreResolved keys accounts others rest)

-- What a compiled message without lookup tables holds of its ordered accounts.
pub compile_unversioned_message_inv :
    (instructions : List Instruction) (fee_payer recent_blockhash : KeyInput)
    (message : CompiledMessage)
    → compile_unversioned_message instructions fee_payer recent_blockhash ≡ ok message
    → (metas : List AggregatedMeta) × (aggregate_account_metas instructions fee_payer ≡ ok metas)
      × (message.account_keys ≡ meta_addresses (order_static_account_metas metas) ++ [])
      × (message.signer_addresses
          ≡ take
              (required_signatures (order_static_account_metas metas))
              (meta_addresses (order_static_account_metas metas)))
      × ((message.number_of_required_signatures
            ≡ required_signatures (order_static_account_metas metas))
          × (message.number_of_readonly_signed_accounts
              ≡ readonly_signed (order_static_account_metas metas))
          × (message.number_of_readonly_unsigned_accounts
              ≡ readonly_unsigned (order_static_account_metas metas)))
      × (message_bytes_of unversioned instructions
            (order_static_account_metas metas)
            (meta_addresses (order_static_account_metas metas) ++ [])
            []
            recent_blockhash
          ≡ ok message.bytes)
unfolding compile_unversioned_message compile_message_bytes
compile_unversioned_message_inv instructions fee_payer recent_blockhash message h =
    let (metas, merged, h1) = >>=-eq-ok (aggregate_account_metas instructions fee_payer) _ h in
    let (checked, counted, h2) =
      >>=-eq-ok (check_counts (order_static_account_metas metas) _) _ h1 in
    let (bytes, written, h3) = >>=-eq-ok (message_bytes_of _ _ _ _ _ _) _ h2 in
    (metas, merged, cc, cc, (cc, cc, cc), cc)
