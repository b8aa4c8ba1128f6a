-- ===== src/Squads/Instructions.antt =====
-- typescript/src/squads/SquadsInstruction.ts: the instructions of the Squads program. The names of
-- the account metas are left out; a request's optional address is `none` where it is undefined.
use chancery_integration_exa.Common.{
  ℕ, Bool, true, false, Option, none, some, List, [], ◌∷◌, ◌++◌, Result, ok, ◌>>=◌,
}
use chancery_integration_exa.Base58.{Text, codes, KeyInput, text, normalize_public_key}
use chancery_integration_exa.Settlement.{zero_address}
use chancery_integration_exa.Transactions.{AccountMeta, Instruction}
use chancery_integration_exa.Squads.{
  UnsignedIntegerInput, encode_u8, encode_u64, encode_boolean, encode_byte_vector,
  encode_optional_string,
}

-- `SQUADS_MULTISIG_PROGRAM_ADDRESS`
abbrev pub squads_multisig_program_address : Text
squads_multisig_program_address = codes "SQDS4ep65T869zMMBKyuUq6aD6EgTu8psMjkvj52pCf"

-- `SQUADS_INSTRUCTION_DISCRIMINATORS`
abbrev pub vault_transaction_create : List ℕ
vault_transaction_create = 48 ∷ 250 ∷ 78 ∷ 168 ∷ 208 ∷ 226 ∷ 218 ∷ 211 ∷ []

abbrev pub vault_transaction_execute : List ℕ
vault_transaction_execute = 194 ∷ 8 ∷ 161 ∷ 87 ∷ 153 ∷ 164 ∷ 25 ∷ 171 ∷ []

abbrev pub proposal_create : List ℕ
proposal_create = 220 ∷ 60 ∷ 73 ∷ 224 ∷ 30 ∷ 108 ∷ 79 ∷ 159 ∷ []

abbrev pub proposal_activate : List ℕ
proposal_activate = 11 ∷ 34 ∷ 92 ∷ 248 ∷ 154 ∷ 27 ∷ 51 ∷ 106 ∷ []

abbrev pub proposal_approve : List ℕ
proposal_approve = 144 ∷ 37 ∷ 164 ∷ 136 ∷ 188 ∷ 216 ∷ 42 ∷ 248 ∷ []

-- `accountMeta`
unfoldable pub account_meta : KeyInput → Bool → Bool → Result AccountMeta
account_meta address is_signer is_writable = do
  normalized ← normalize_public_key address
  ok (record { address = normalized; is_signer = is_signer; is_writable = is_writable })

-- `programAddress`
unfoldable pub program_address_or_default : Option KeyInput → Result Text
program_address_or_default none = normalize_public_key (text squads_multisig_program_address)
program_address_or_default (some value) = normalize_public_key value

-- The rent payer, who is the creator unless another is named.
unfoldable pub rent_payer_of : Text → Option KeyInput → Result Text
rent_payer_of creator none = ok creator
rent_payer_of creator (some rent_payer) = normalize_public_key rent_payer

-- `SquadsVaultTransactionCreateRequest`, whose count of ephemeral signers is 0 by default.
pub record VaultTransactionCreateRequest : Type 0 where
  pub multisig_address : KeyInput
  pub transaction_address : KeyInput
  pub creator_address : KeyInput
  pub rent_payer_address : Option KeyInput
  pub vault_index : UnsignedIntegerInput
  pub ephemeral_signer_count : UnsignedIntegerInput
  pub transaction_message_bytes : List ℕ
  pub memo : Option Text
  pub program_address : Option KeyInput

-- `encode_text` is the UTF-8 encoder of the platform.
unfoldable pub build_vault_transaction_create :
    (List ℕ → List ℕ) → VaultTransactionCreateRequest → Result Instruction
build_vault_transaction_create encode_text request = do
  creator ← normalize_public_key request.creator_address
  rent_payer ← rent_payer_of creator request.rent_payer_address
  program ← program_address_or_default request.program_address
  multisig ← account_meta request.multisig_address false true
  transaction ← account_meta request.transaction_address false true
  creator_meta ← account_meta (text creator) true false
  rent_payer_meta ← account_meta (text rent_payer) true true
  system ← account_meta (text zero_address) false false
  vault_index ← encode_u8 request.vault_index
  signer_count ← encode_u8 request.ephemeral_signer_count
  message ← encode_byte_vector request.transaction_message_bytes
  memo ← encode_optional_string encode_text request.memo
  ok (record {
    program_address = program;
    accounts = multisig ∷ (transaction ∷ (creator_meta ∷ (rent_payer_meta ∷ (system ∷ []))));
    data_bytes = vault_transaction_create ++ (vault_index ++ (signer_count ++ (message ++ memo)));
  })

-- `SquadsProposalCreateRequest`, which is no draft by default.
pub record ProposalCreateRequest : Type 0 where
  pub multisig_address : KeyInput
  pub proposal_address : KeyInput
  pub creator_address : KeyInput
  pub rent_payer_address : Option KeyInput
  pub transaction_index : UnsignedIntegerInput
  pub draft : Bool
  pub program_address : Option KeyInput

unfoldable pub build_proposal_create : ProposalCreateRequest → Result Instruction
build_proposal_create request = do
  creator ← normalize_public_key request.creator_address
  rent_payer ← rent_payer_of creator request.rent_payer_address
  program ← program_address_or_default request.program_address
  multisig ← account_meta request.multisig_address false false
  proposal ← account_meta request.proposal_address false true
  creator_meta ← account_meta (text creator) true false
  rent_payer_meta ← account_meta (text rent_payer) true true
  system ← account_meta (text zero_address) false false
  index ← encode_u64 request.transaction_index
  ok (record {
    program_address = program;
    accounts = multisig ∷ (proposal ∷ (creator_meta ∷ (rent_payer_meta ∷ (system ∷ []))));
    data_bytes = proposal_create ++ (index ++ encode_boolean request.draft);
  })

-- `SquadsProposalMemberRequest`, and with its memo `SquadsProposalApproveRequest`.
pub record ProposalMemberRequest : Type 0 where
  pub multisig_address : KeyInput
  pub proposal_address : KeyInput
  pub member_address : KeyInput
  pub program_address : Option KeyInput

-- The accounts of the two instructions of a member.
unfoldable pub member_accounts : ProposalMemberRequest → Result (List AccountMeta)
member_accounts request = do
  multisig ← account_meta request.multisig_address false false
  member ← account_meta request.member_address true true
  proposal ← account_meta request.proposal_address false true
  ok (multisig ∷ (member ∷ (proposal ∷ [])))

unfoldable pub build_proposal_activate : ProposalMemberRequest → Result Instruction
build_proposal_activate request = do
  program ← program_address_or_default request.program_address
  accounts ← member_accounts request
  ok (record { program_address = program; accounts = accounts; data_bytes = proposal_activate })

unfoldable pub build_proposal_approve :
    (List ℕ → List ℕ) → ProposalMemberRequest → Option Text → Result Instruction
build_proposal_approve encode_text request memo = do
  program ← program_address_or_default request.program_address
  accounts ← member_accounts request
  memo_bytes ← encode_optional_string encode_text memo
  ok (record {
    program_address = program;
    accounts = accounts;
    data_bytes = proposal_approve ++ memo_bytes;
  })

-- `SquadsVaultTransactionExecuteRequest`
pub record VaultTransactionExecuteRequest : Type 0 where
  pub multisig_address : KeyInput
  pub proposal_address : KeyInput
  pub transaction_address : KeyInput
  pub member_address : KeyInput
  pub remaining_accounts : List AccountMeta
  pub program_address : Option KeyInput

unfoldable pub build_vault_transaction_execute : VaultTransactionExecuteRequest → Result Instruction
build_vault_transaction_execute request = do
  program ← program_address_or_default request.program_address
  multisig ← account_meta request.multisig_address false false
  proposal ← account_meta request.proposal_address false true
  transaction ← account_meta request.transaction_address false false
  member ← account_meta request.member_address true false
  ok (record {
    program_address = program;
    accounts = multisig ∷ (proposal ∷ (transaction ∷ (member ∷ request.remaining_accounts)));
    data_bytes = vault_transaction_execute;
  })
