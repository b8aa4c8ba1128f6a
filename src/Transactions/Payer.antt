-- ===== src/Transactions/Payer.antt =====
-- typescript/src/SolanaTransaction.ts: the fee payer is the first account of a message.
use chancery_integration_exa.Common.{
  ℕ, suc, ◌<◌, ◌≡◌, refl, ap, arith, true, Bool-cases, inl, inr, some, List, [], ◌∷◌, ◌++◌, All,
  take, get_elem?, ok, >>=-eq-ok,
}
use chancery_integration_exa.Base58.{KeyInput, text, normalize_public_key}
use chancery_integration_exa.Messages.{text_equals}
use chancery_integration_exa.Base58.{Text}
use chancery_integration_exa.Transactions.{
  AccountMeta, Instruction, AggregatedMeta, CompiledMessage, merge_account_meta, merge_accounts,
  merge_instructions, aggregate_account_metas, program_meta, account_order_group, goes_before,
  insert_meta, order_static_account_metas, count_matching,
}
use chancery_integration_exa.Transactions.Compiled.{compile_unversioned_message_inv}
use chancery_integration_exa.Transactions.Message.{
  meta_addresses, compile_unversioned_message, required_signatures,
}

abbrev IsLater : AggregatedMeta → Type 0
IsLater meta = 0 < meta.first_seen_index

-- The metas begin with the payer's, which alone was seen first.
abbrev IsLed : Text → List AggregatedMeta → Type 0
IsLed payer [] = ⊥
IsLed payer (meta ∷ metas) =
    (meta.address ≡ payer)
    × (meta.is_signer ≡ true)
    × (meta.is_writable ≡ true)
    × (meta.first_seen_index ≡ 0)
    × All IsLater metas

merge-IsLater :
    (metas : List AggregatedMeta) (seen : AggregatedMeta)
    → All IsLater metas
    → IsLater seen
    → All IsLater (merge_account_meta metas seen)
unfolding merge_account_meta
merge-IsLater [] seen h k = (k, tt)
merge-IsLater (meta ∷ metas) seen (p, h) k =
    elim (Bool-cases (text_equals meta.address seen.address)) [
      | inl e ↦ rw e (p, h)
      | inr e ↦ rw e (p, merge-IsLater metas seen h k)
    ]

merge-IsLed :
    (payer : Text) (metas : List AggregatedMeta) (seen : AggregatedMeta)
    → IsLed payer metas
    → IsLater seen
    → IsLed payer (merge_account_meta metas seen)
unfolding merge_account_meta
merge-IsLed payer [] seen led k = absurd led
merge-IsLed payer (meta ∷ metas) seen (a, s, w, i, h) k =
    elim (Bool-cases (text_equals meta.address seen.address)) [
      | inl e ↦ rw e (a, rw s refl, rw w refl, i, h)
      | inr e ↦ rw e (a, s, w, i, merge-IsLater metas seen h k)
    ]

merge_accounts-IsLed :
    (payer : Text) (accounts : List AccountMeta) (index : ℕ) (metas : List AggregatedMeta)
    (next : ℕ) (found : List AggregatedMeta)
    → merge_accounts accounts index metas ≡ ok (next, found)
    → 0 < index
    → IsLed payer metas
    → IsLed payer found × (0 < next)
unfolding merge_accounts
merge_accounts-IsLed payer [] index metas next found h p led =
    let same : metas ≡ found = cc in
    let place : index ≡ next = cc in (rw (← same) led, rw (← place) p)
merge_accounts-IsLed payer (account ∷ accounts) index metas next found h p led =
    let (address, named, shown) = >>=-eq-ok (normalize_public_key (text account.address)) _ h in
    merge_accounts-IsLed payer accounts (suc index) _ next found shown (omega arith)
      (merge-IsLed payer metas _ led p)

merge_instructions-IsLed :
    (payer : Text) (instructions : List Instruction) (index : ℕ) (metas found : List AggregatedMeta)
    → merge_instructions instructions index metas ≡ ok found
    → 0 < index
    → IsLed payer metas
    → IsLed payer found
unfolding merge_instructions
merge_instructions-IsLed payer [] index metas found h p led =
    let same : metas ≡ found = cc in rw (← same) led
merge_instructions-IsLed payer (i ∷ instructions) index metas found h p led =
    let (middle, merged, shown) = >>=-eq-ok (merge_accounts i.accounts index metas) _ h in
    let (address, named, rest) =
      >>=-eq-ok (normalize_public_key (text i.program_address)) _ shown in
    let (inner, q) =
      merge_accounts-IsLed payer i.accounts index metas middle.0 middle.1 merged p led in
    merge_instructions-IsLed payer instructions (suc middle.0)
      (merge_account_meta middle.1 (program_meta address middle.0)) found rest (omega arith)
      (merge-IsLed payer middle.1 (program_meta address middle.0) inner q)

aggregate-IsLed :
    (payer : Text) (instructions : List Instruction) (fee_payer : KeyInput)
    (metas : List AggregatedMeta)
    → normalize_public_key fee_payer ≡ ok payer
    → aggregate_account_metas instructions fee_payer ≡ ok metas
    → IsLed payer metas
unfolding aggregate_account_metas
aggregate-IsLed payer instructions fee_payer metas n h =
    let (named, key, shown) = >>=-eq-ok (normalize_public_key fee_payer) _ h in
    let same : named ≡ payer = cc in
    merge_instructions-IsLed payer instructions 1 _ metas shown (omega arith)
      (same, refl, refl, refl, tt)

insert_first :
    (meta : AggregatedMeta) (metas : List AggregatedMeta)
    → meta.is_signer ≡ true
    → meta.is_writable ≡ true
    → meta.first_seen_index ≡ 0
    → insert_meta meta metas ≡ meta ∷ metas
unfolding insert_meta goes_before account_order_group
insert_first meta [] s w i = refl
insert_first meta (first ∷ metas) s w i = rw (s, w, i) (ground arith)

order_first :
    (payer : Text) (metas : List AggregatedMeta)
    → IsLed payer metas
    → (get_elem? (meta_addresses (order_static_account_metas metas) ++ []) 0 ≡ some payer)
      × (get_elem?
            (take
              (required_signatures (order_static_account_metas metas))
              (meta_addresses (order_static_account_metas metas)))
            0
          ≡ some payer)
unfolding order_static_account_metas meta_addresses required_signatures count_matching
order_first payer [] led = absurd led
order_first payer (meta ∷ metas) (a, s, w, i, h) =
    rw (insert_first meta (order_static_account_metas metas) s w i) (ap some a, rw s (ap some a))

-- The account keys of a compiled message without lookup tables begin with the address of the fee
-- payer, and its signer addresses too.
pub compile_unversioned_message_payer :
    (instructions : List Instruction) (fee_payer recent_blockhash : KeyInput) (payer : Text)
    (message : CompiledMessage)
    → normalize_public_key fee_payer ≡ ok payer
    → compile_unversioned_message instructions fee_payer recent_blockhash ≡ ok message
    → (get_elem? message.account_keys 0 ≡ some payer)
      × (get_elem? message.signer_addresses 0 ≡ some payer)
compile_unversioned_message_payer instructions fee_payer recent_blockhash payer message n h =
    let (metas, merged, keys, signers, counts, written) =
      compile_unversioned_message_inv instructions fee_payer recent_blockhash message h in
    let (first, second) =
      order_first payer metas (aggregate-IsLed payer instructions fee_payer metas n merged) in
    (rw keys first, rw signers second)
