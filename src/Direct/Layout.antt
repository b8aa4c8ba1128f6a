-- ===== src/Direct/Layout.antt =====
-- integration/typescript/src/direct_settlement.ts: what a built instruction holds.
use mathlib.Core.Path.{subst}
use chancery_integration_exa.Common.{
  ℕ, ◌≡◌, refl, sym, ap, ◌∙◌, ◌==◌, ==_iff, Bool, false, Option, List, [], ◌∷◌, ◌++◌, map, length,
  ok, >>=-eq-ok, guard-eq-ok, ok-injective,
}
use chancery_integration_exa.Base58.{Text, assert_public_key}
use chancery_integration_exa.Execution.{AccountMetaSpec, InstructionSpec}
use chancery_integration_exa.Direct.Accounts.{
  HasRoles, mint_names, mint_addresses, mint_positions-HasRoles, redeem_names, redeem_addresses,
  redeem_positions-HasRoles,
}
use chancery_integration_exa.Direct.{
  DirectSettlementPolicyAccountsInput, MintDirectAccountsInput, DirectOperation, required_meta,
  required_accounts, optional_meta, check_optional, optional_accounts, policy_positions,
  mint_positions, encode_direct_settlement_data, event_program, build_direct,
  build_mint_direct_instruction, RedeemDirectAccountsInput, redeem_positions,
  build_redeem_direct_instruction,
}
use chancery_integration_exa.Direct.Data.{IsSettlementData, data-IsSettlementData}

required_accounts_eq :
    (positions : List (Text × Text × Bool)) (metas : List AccountMetaSpec)
    → required_accounts positions ≡ ok metas
    → metas ≡ map required_meta positions
unfolding required_accounts
required_accounts_eq [] metas h = sym (ok-injective h)
required_accounts_eq ((name, address, is_writable) ∷ positions) metas h =
    let (u, e1, h1) = >>=-eq-ok (assert_public_key address false) _ h in
    let (others, e2, h2) = >>=-eq-ok (required_accounts positions) _ h1 in
    sym (ok-injective h2)
    ∙ ap (λ (t : List AccountMetaSpec). required_meta (name, address, is_writable) ∷ t)
        (required_accounts_eq positions others e2)

optional_accounts_eq :
    (positions : List (Text × Option Text × Bool)) (metas : List AccountMetaSpec)
    → optional_accounts positions ≡ ok metas
    → metas ≡ map optional_meta positions
unfolding optional_accounts
optional_accounts_eq [] metas h = sym (ok-injective h)
optional_accounts_eq ((name, address, is_writable) ∷ positions) metas h =
    let (u, e1, h1) = >>=-eq-ok (check_optional address) _ h in
    let (others, e2, h2) = >>=-eq-ok (optional_accounts positions) _ h1 in
    sym (ok-injective h2)
    ∙ ap (λ (t : List AccountMetaSpec). optional_meta (name, address, is_writable) ∷ t)
        (optional_accounts_eq positions others e2)

-- What an instruction holds of the positions of its accounts and of its texts.
abbrev IsBuilt :
    Text
    → List ℕ
    → List (Text × Text × Bool)
    → DirectSettlementPolicyAccountsInput
    → Text
    → Text
    → Text
    → InstructionSpec
    → Type 0
IsBuilt program_id discriminator positions policy pathway_id amount minimum_output instruction =
    (instruction.program_id ≡ program_id)
    × (instruction.accounts
        ≡ map required_meta positions
          ++ (map optional_meta (policy_positions policy) ++ (event_program program_id ∷ [])))
    × (length instruction.accounts ≡ 31)
    × IsSettlementData discriminator pathway_id amount minimum_output instruction.data_bytes

build_direct-IsBuilt :
    (program_id : Text) (discriminator : List ℕ) (positions : List (Text × Text × Bool))
    (policy : DirectSettlementPolicyAccountsInput) (pathway_id amount minimum_output : Text)
    (instruction : InstructionSpec)
    → length discriminator ≡ 2
    → build_direct program_id discriminator positions policy pathway_id amount minimum_output
      ≡ ok instruction
    → IsBuilt program_id discriminator positions policy pathway_id amount minimum_output instruction
unfolding build_direct
build_direct-IsBuilt program_id discriminator positions policy pathway_id amount minimum_output
      instruction two h =
    let (required, e1, h1) = >>=-eq-ok (required_accounts positions) _ h in
    let (optional, e2, h2) = >>=-eq-ok (optional_accounts (policy_positions policy)) _ h1 in
    let metas = required ++ (optional ++ (event_program program_id ∷ [])) in
    let (count, h3) = guard-eq-ok (length metas == 31) _ _ h2 in
    let (bytes, e4, h4) =
      >>=-eq-ok (encode_direct_settlement_data discriminator pathway_id amount minimum_output) _
        h3 in
    let all = ok-injective h4 in
    let parts =
      ap (λ (t : List AccountMetaSpec). t ++ (optional ++ (event_program program_id ∷ [])))
        (required_accounts_eq positions required e1)
      ∙ ap
          (λ (t : List AccountMetaSpec).
            map required_meta positions ++ (t ++ (event_program program_id ∷ [])))
          (optional_accounts_eq (policy_positions policy) optional e2) in
    subst (IsBuilt program_id discriminator positions policy pathway_id amount minimum_output) all (
      refl,
      parts,
      (==_iff (length metas) 31).0 count,
      data-IsSettlementData discriminator pathway_id amount minimum_output bytes two e4,
    )

-- A built instruction: its program, its 31 accounts with their roles, and its data.
abbrev pub IsDirect :
    Text
    → List ℕ
    → List Text
    → List Text
    → DirectSettlementPolicyAccountsInput
    → Text
    → Text
    → Text
    → InstructionSpec
    → Type 0
IsDirect program_id discriminator names addresses policy pathway_id amount minimum_output
      instruction =
    (instruction.program_id ≡ program_id)
    × HasRoles program_id names addresses policy instruction.accounts
    × (length instruction.accounts ≡ 31)
    × IsSettlementData discriminator pathway_id amount minimum_output instruction.data_bytes

-- A mint instruction that is built has 31 accounts. Their names and their addresses are, in this
-- order, those of the operation's own 18 accounts, those of the 12 policy accounts, with the default
-- key as the address of an absent one, and the program; the principal, at 15, is the only signer; and
-- the writable ones are at 1, 7, 8, 9, 11, 19, 21, 22, 23, 24, 27 and 29. Its data are 50 bytes: the
-- discriminator 4, 1, the bytes of the pathway id, and the positive amount and the minimum output, of
-- which the texts are the decimals, in 8 little-endian bytes each.
pub build_mint_direct_instruction-IsDirect :
    (program_id : Text) (operation : DirectOperation MintDirectAccountsInput)
    (instruction : InstructionSpec)
    → build_mint_direct_instruction program_id operation ≡ ok instruction
    → IsDirect program_id
        (4 ∷ (1 ∷ []))
        mint_names
        (mint_addresses operation.accounts)
        operation.accounts.policy_accounts
        operation.pathway_id
        operation.amount
        operation.minimum_output
        instruction
unfolding build_mint_direct_instruction
build_mint_direct_instruction-IsDirect program_id operation instruction h =
    let (program, parts, count, filled) =
      build_direct-IsBuilt program_id (4 ∷ (1 ∷ [])) (mint_positions operation.accounts)
        operation.accounts.policy_accounts operation.pathway_id operation.amount
        operation.minimum_output instruction refl h in
    (
      program,
      subst
          (HasRoles program_id mint_names (mint_addresses operation.accounts)
            operation.accounts.policy_accounts)
          (sym parts) (mint_positions-HasRoles program_id operation.accounts),
      count,
      filled,
    )

-- The same of a redeem instruction, with its own discriminator and accounts.
build_redeem_direct_instruction-IsDirect :
    (program_id : Text) (operation : DirectOperation RedeemDirectAccountsInput)
    (instruction : InstructionSpec)
    → build_redeem_direct_instruction program_id operation ≡ ok instruction
    → IsDirect program_id
        (4 ∷ (2 ∷ []))
        redeem_names
        (redeem_addresses operation.accounts)
        operation.accounts.policy_accounts
        operation.pathway_id
        operation.amount
        operation.minimum_output
        instruction
unfolding build_redeem_direct_instruction
build_redeem_direct_instruction-IsDirect program_id operation instruction h =
    let (program, parts, count, filled) =
      build_direct-IsBuilt program_id (4 ∷ (2 ∷ [])) (redeem_positions operation.accounts)
        operation.accounts.policy_accounts operation.pathway_id operation.amount
        operation.minimum_output instruction refl h in
    (
      program,
      subst
          (HasRoles program_id redeem_names (redeem_addresses operation.accounts)
            operation.accounts.policy_accounts)
          (sym parts) (redeem_positions-HasRoles program_id operation.accounts),
      count,
      filled,
    )
