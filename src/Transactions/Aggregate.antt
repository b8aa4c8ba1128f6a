-- ===== src/Transactions/Aggregate.antt =====
-- typescript/src/SolanaTransaction.ts: what `aggregateAccountMetas` knows of each address.
use chancery_integration_exa.Common.{
  ℕ, suc, ◌≡◌, refl, sym, ap, ◌∙◌, Bool, true, false, ◌&&◌, ◌||◌, Bool-cases, inl, inr, List, [],
  ◌∷◌, ok, >>=-eq-ok,
}
use chancery_integration_exa.Base58.{KeyInput, text, normalize_public_key}
use chancery_integration_exa.Base58.Keys.{normalize_public_key_text}
use chancery_integration_exa.Messages.{text_equals}
use chancery_integration_exa.Base58.{Text}
use chancery_integration_exa.Transactions.{
  AccountMeta, Instruction, AggregatedMeta, merge_account_meta, merge_accounts, merge_instructions,
  aggregate_account_metas, program_meta, fee_payer_meta,
}
use chancery_integration_exa.Transactions.Maps.{text_equals_sound}

-- What is asked of a meta: that it is there, or one of its flags.
pub data Flag : Type 0 where
  present signer writable program : Flag

abbrev pub flag : Flag → AggregatedMeta → Bool
flag present meta = true
flag signer meta = meta.is_signer
flag writable meta = meta.is_writable
flag program meta = meta.is_program

abbrev pub account_flag : Flag → AccountMeta → Bool
account_flag present account = true
account_flag signer account = account.is_signer
account_flag writable account = account.is_writable
account_flag program account = false

abbrev pub program_flag : Flag → Bool
program_flag present = true
program_flag signer = false
program_flag writable = false
program_flag program = true

abbrev pub payer_flag : Flag → Bool
payer_flag present = true
payer_flag signer = true
payer_flag writable = true
payer_flag program = false

-- Some meta of the address has the flag.
abbrev pub any_meta : Flag → List AggregatedMeta → Text → Bool
any_meta f [] a = false
any_meta f (meta ∷ metas) a = (text_equals meta.address a && flag f meta) || any_meta f metas a

-- Some account, or some program, of the instructions is the address and has the flag.
abbrev pub any_account : Flag → List AccountMeta → Text → Bool
any_account f [] a = false
any_account f (account ∷ accounts) a =
    (text_equals account.address a && account_flag f account) || any_account f accounts a

abbrev pub any_mention : Flag → List Instruction → Text → Bool
any_mention f [] a = false
any_mention f (instruction ∷ instructions) a =
    (any_account f instruction.accounts a
      || (text_equals instruction.program_address a && program_flag f))
    || any_mention f instructions a

-- The merge of two metas of one address.
abbrev merged : AggregatedMeta → AggregatedMeta → AggregatedMeta
merged existing seen = record existing {
  is_signer = existing.is_signer || seen.is_signer;
  is_writable = existing.is_writable || seen.is_writable;
  is_program = existing.is_program || seen.is_program;
}

flag-merged :
    (f : Flag) (existing seen : AggregatedMeta)
    → flag f (merged existing seen) ≡ (flag f existing || flag f seen)
flag-merged present existing seen = refl
flag-merged signer existing seen = refl
flag-merged writable existing seen = refl
flag-merged program existing seen = refl

both_flags : (t b c m : Bool) → ((t && (b || c)) || m) ≡ (((t && b) || m) || (t && c))
both_flags true true c m = refl
both_flags true false true true = refl
both_flags true false true false = refl
both_flags true false false true = refl
both_flags true false false false = refl
both_flags false b c true = refl
both_flags false b c false = refl

or_assoc : (a b c : Bool) → (a || (b || c)) ≡ ((a || b) || c)
or_assoc true b c = refl
or_assoc false b c = refl

or_false : (a : Bool) → (a || false) ≡ a
or_false true = refl
or_false false = refl

any_meta-merge_account_meta :
    (f : Flag) (metas : List AggregatedMeta) (seen : AggregatedMeta) (a : Text)
    → any_meta f (merge_account_meta metas seen) a
      ≡ (any_meta f metas a || (text_equals seen.address a && flag f seen))
unfolding merge_account_meta
any_meta-merge_account_meta f [] seen a = or_false (text_equals seen.address a && flag f seen)
any_meta-merge_account_meta f (meta ∷ metas) seen a =
    elim (Bool-cases (text_equals meta.address seen.address)) [
      | inl e ↦
          let same : meta.address ≡ seen.address = text_equals_sound meta.address seen.address e in
          rw e (
            ap (λ (b : Bool). (text_equals meta.address a && b) || any_meta f metas a)
              (flag-merged f meta seen)
            ∙ (both_flags (text_equals meta.address a) (flag f meta) (flag f seen)
                  (any_meta f metas a)
                ∙ ap
                    (λ (t : Text).
                      ((text_equals meta.address a && flag f meta) || any_meta f metas a)
                      || (text_equals t a && flag f seen))
                    same))
      | inr e ↦ rw e (
          rw (any_meta-merge_account_meta f metas seen a) (
            or_assoc (text_equals meta.address a && flag f meta) (any_meta f metas a)
              (text_equals seen.address a && flag f seen)))
    ]

-- An address of an account as the aggregation sees it.
abbrev account_meta : AccountMeta → Text → ℕ → AggregatedMeta
account_meta account address index = record {
  address = address;
  first_seen_index = index;
  is_signer = account.is_signer;
  is_writable = account.is_writable;
  is_program = false;
}

flag-account_meta :
    (f : Flag) (account : AccountMeta) (address : Text) (index : ℕ)
    → flag f (account_meta account address index) ≡ account_flag f account
flag-account_meta present account address index = refl
flag-account_meta signer account address index = refl
flag-account_meta writable account address index = refl
flag-account_meta program account address index = refl

flag-program_meta :
    (f : Flag) (address : Text) (index : ℕ) → flag f (program_meta address index) ≡ program_flag f
flag-program_meta present address index = refl
flag-program_meta signer address index = refl
flag-program_meta writable address index = refl
flag-program_meta program address index = refl

any_meta-merge_accounts :
    (f : Flag) (accounts : List AccountMeta) (index : ℕ) (metas : List AggregatedMeta) (next : ℕ)
    (found : List AggregatedMeta) (a : Text)
    → merge_accounts accounts index metas ≡ ok (next, found)
    → any_meta f found a ≡ (any_meta f metas a || any_account f accounts a)
unfolding merge_accounts
any_meta-merge_accounts f [] index metas next found a h =
    let same : metas ≡ found = cc in rw same (sym (or_false (any_meta f found a)))
any_meta-merge_accounts f (account ∷ accounts) index metas next found a h =
    let (address, named, shown) = >>=-eq-ok (normalize_public_key (text account.address)) _ h in
    let own : address ≡ account.address = normalize_public_key_text account.address address named in
    let seen = account_meta account address index in
    let first = any_meta-merge_account_meta f metas seen a in
    let later =
      any_meta-merge_accounts f accounts (suc index) (merge_account_meta metas seen) next found a
        shown in
    later
    ∙ (ap (λ (b : Bool). b || any_account f accounts a) first
        ∙ (ap
              (λ (b : Bool).
                (any_meta f metas a || (text_equals address a && b)) || any_account f accounts a)
              (flag-account_meta f account address index)
            ∙ (ap
                  (λ (t : Text).
                    (any_meta f metas a || (text_equals t a && account_flag f account))
                    || any_account f accounts a)
                  own
                ∙ sym (
                    or_assoc (any_meta f metas a)
                      (text_equals account.address a && account_flag f account)
                      (any_account f accounts a)))))

any_meta-merge_instructions :
    (f : Flag) (instructions : List Instruction) (index : ℕ) (metas found : List AggregatedMeta)
    (a : Text)
    → merge_instructions instructions index metas ≡ ok found
    → any_meta f found a ≡ (any_meta f metas a || any_mention f instructions a)
unfolding merge_instructions
any_meta-merge_instructions f [] index metas found a h =
    let same : metas ≡ found = cc in rw same (sym (or_false (any_meta f found a)))
any_meta-merge_instructions f (i ∷ instructions) index metas found a h =
    let (middle, merged_ok, shown) = >>=-eq-ok (merge_accounts i.accounts index metas) _ h in
    let (address, named, rest) =
      >>=-eq-ok (normalize_public_key (text i.program_address)) _ shown in
    let own : address ≡ i.program_address =
      normalize_public_key_text i.program_address address named in
    let accounts = any_meta-merge_accounts f i.accounts index metas middle.0 middle.1 a merged_ok in
    let seen = program_meta address middle.0 in
    let first = any_meta-merge_account_meta f middle.1 seen a in
    let later =
      any_meta-merge_instructions f instructions (suc middle.0) (merge_account_meta middle.1 seen)
        found a rest in
    later
    ∙ (ap (λ (b : Bool). b || any_mention f instructions a) first
        ∙ (ap
              (λ (b : Bool).
                (b || (text_equals address a && flag f seen)) || any_mention f instructions a)
              accounts
            ∙ (ap
                  (λ (b : Bool).
                    ((any_meta f metas a || any_account f i.accounts a)
                      || (text_equals address a && b))
                    || any_mention f instructions a)
                  (flag-program_meta f address middle.0)
                ∙ (ap
                      (λ (t : Text).
                        ((any_meta f metas a || any_account f i.accounts a)
                          || (text_equals t a && program_flag f))
                        || any_mention f instructions a)
                      own
                    ∙ or_shift (any_meta f metas a) (any_account f i.accounts a)
                        (text_equals i.program_address a && program_flag f)
                        (any_mention f instructions a)))))
  where
    or_shift : (a b c d : Bool) → (((a || b) || c) || d) ≡ (a || ((b || c) || d))
    or_shift true b c d = refl
    or_shift false b c d = refl

-- The metas that are aggregated from the instructions of a transaction and its fee payer tell of an
-- address that it is there, a signer, writable or a program exactly if it is the fee payer, who is a
-- signer and writable, or one of the instructions says so of one of its accounts or of its program.
pub aggregate_account_metas_flags :
    (instructions : List Instruction) (fee_payer : KeyInput) (metas : List AggregatedMeta)
    (f : Flag) (a : Text)
    → aggregate_account_metas instructions fee_payer ≡ ok metas
    → (payer : Text) × (normalize_public_key fee_payer ≡ ok payer)
      × (any_meta f metas a
          ≡ ((text_equals payer a && payer_flag f) || any_mention f instructions a))
unfolding aggregate_account_metas
aggregate_account_metas_flags instructions fee_payer metas f a h =
    let (payer, named, shown) = >>=-eq-ok (normalize_public_key fee_payer) _ h in
    (
      payer,
      named,
      any_meta-merge_instructions f instructions 1 (fee_payer_meta payer ∷ []) metas a shown
          ∙ ap (λ (b : Bool). b || any_mention f instructions a) (payer_alone payer f a),
    )
  where
    payer_alone :
        (payer : Text) (f : Flag) (a : Text)
        → any_meta f (fee_payer_meta payer ∷ []) a ≡ (text_equals payer a && payer_flag f)
    payer_alone payer present a = or_false (text_equals payer a && true)
    payer_alone payer signer a = or_false (text_equals payer a && true)
    payer_alone payer writable a = or_false (text_equals payer a && true)
    payer_alone payer program a = or_false (text_equals payer a && false)
