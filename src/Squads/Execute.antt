-- ===== src/Squads/Execute.antt =====
-- typescript/src/squads/SquadsVaultMessage.ts: `resolveSquadsVaultTransactionExecuteAccounts`. The
-- names of the account metas are left out.
use chancery_integration_exa.Common.{
  ℕ, zero, suc, ◌+◌, ltb, leb, Bool, true, false, not, ◌&&◌, ◌||◌, List, [], ◌∷◌, ◌++◌, arith,
  Result, ok, ◌>>=◌, ◌>>◌, guard, or_throw, duplicate_table, missing_table, table_position, ◌≡◌,
  refl, All, All-append, >>=-eq-ok, ok-injective,
}
use chancery_integration_exa.Common.Int.{pos}
use chancery_integration_exa.Base58.{KeyInput, text, normalize_public_key}
use chancery_integration_exa.Messages.{text_equals}
use chancery_integration_exa.Transactions.{
  AccountMeta, AddressLookupTable, map_get, map_set, map_has,
}
use chancery_integration_exa.Transactions.Lookup.{load_addresses}
use chancery_integration_exa.Transactions.Maps.{has_address}
use chancery_integration_exa.Squads.{whole, derive_squads_ephemeral_signer_address}
use chancery_integration_exa.Base58.{Text}
use chancery_integration_exa.Squads.Message.{SquadsLookup, SquadsMessage}
use chancery_integration_exa.Squads.Validate.{assert_u8, validate_squads_vault_transaction_message}
use chancery_integration_exa.Squads.Compile.{check_vault_payer}

-- `ResolveSquadsExecuteAccountsRequest`, with its defaults filled in.
pub record ExecuteRequest : Type 0 where
  pub message : SquadsMessage
  pub vault_address : KeyInput
  pub transaction_address : KeyInput
  pub ephemeral_signer_count : ℕ
  pub address_lookup_tables : List AddressLookupTable
  pub program_address : KeyInput

-- The loop over the ephemeral signers, from an index on.
unfoldable pub ephemeral_signers : (List ℕ → List ℕ) → Text → KeyInput → ℕ → ℕ → Result (List Text)
ephemeral_signers hash transaction program zero index = ok []
ephemeral_signers hash transaction program (suc count) index = do
  (address, bump) ←
      derive_squads_ephemeral_signer_address hash (text transaction) (whole (pos index)) program
  others ← ephemeral_signers hash transaction program count (suc index)
  ok (address ∷ others)

-- The loop that fills `lookupTableByAddress`.
unfoldable pub tables_by_address :
    List AddressLookupTable
    → List (Text × AddressLookupTable)
    → Result (List (Text × AddressLookupTable))
tables_by_address [] tables = ok tables
tables_by_address (table ∷ more) tables = do
  address ← normalize_public_key (text table.address)
  guard (not (map_has tables address)) duplicate_table
  tables_by_address more (map_set tables address table)

-- The lookup tables themselves are readonly accounts of the transaction.
unfoldable pub table_metas : List SquadsLookup → Result (List AccountMeta)
table_metas [] = ok []
table_metas (lookup ∷ lookups) = do
  address ← normalize_public_key (text lookup.account_key)
  others ← table_metas lookups
  ok (record { address = address; is_signer = false; is_writable = false } ∷ others)

-- The loop over the static account keys, from an index on.
unfoldable pub static_metas : SquadsMessage → List Text → List Text → ℕ → List AccountMeta
static_metas message program_signers [] index = []
static_metas message program_signers (key ∷ keys) index =
    record {
      address = key;
      is_signer = ltb index message.num_signers && not (has_address program_signers key);
      is_writable =
          ltb index message.num_writable_signers
          || (leb message.num_signers index
              && ltb index (message.num_signers + message.num_writable_non_signers));
    }
    ∷ static_metas message program_signers keys (suc index)

unfoldable pub loaded_metas : Bool → List Text → List AccountMeta
loaded_metas is_writable [] = []
loaded_metas is_writable (address ∷ addresses) =
    record { address = address; is_signer = false; is_writable = is_writable }
    ∷ loaded_metas is_writable addresses

-- The last loop, over the lookups.
unfoldable pub lookup_metas :
    List (Text × AddressLookupTable) → List SquadsLookup → Result (List AccountMeta)
lookup_metas tables [] = ok []
lookup_metas tables (lookup ∷ lookups) = do
  address ← normalize_public_key (text lookup.account_key)
  table ← or_throw missing_table (map_get tables address)
  writable ← load_addresses table_position table.addresses lookup.writable_indexes
  readonly ← load_addresses table_position table.addresses lookup.readonly_indexes
  others ← lookup_metas tables lookups
  ok (loaded_metas true writable ++ (loaded_metas false readonly ++ others))

-- `hash` is the SHA-256 of node's `crypto`.
unfoldable pub resolve_execute_accounts :
    (List ℕ → List ℕ) → ExecuteRequest → Result (List AccountMeta)
resolve_execute_accounts hash request = do
  validate_squads_vault_transaction_message request.message
  vault ← normalize_public_key request.vault_address
  transaction ← normalize_public_key request.transaction_address
  assert_u8 request.ephemeral_signer_count
  check_vault_payer request.message vault
  signers ←
      ephemeral_signers hash transaction request.program_address request.ephemeral_signer_count 0
  tables ← tables_by_address request.address_lookup_tables []
  first ← table_metas request.message.address_table_lookups
  last ← lookup_metas tables request.message.address_table_lookups
  ok (
      first
      ++ (static_metas request.message (vault ∷ signers) request.message.account_keys 0 ++ last))

-- An account of the address does not sign.
abbrev pub IsUnsignedFor : Text → AccountMeta → Type 0
IsUnsignedFor address account = (account.is_signer && text_equals address account.address) ≡ false

table_metas-All :
    (address : Text) (lookups : List SquadsLookup) (metas : List AccountMeta)
    → table_metas lookups ≡ ok metas
    → All (IsUnsignedFor address) metas
unfolding table_metas
table_metas-All address [] metas h = let same : [] ≡ metas = cc in rw (← same) tt
table_metas-All address (lookup ∷ lookups) metas h =
    let (key, e1, h1) = >>=-eq-ok (normalize_public_key (text lookup.account_key)) _ h in
    let (others, e2, h2) = >>=-eq-ok (table_metas lookups) _ h1 in
    let all = ok-injective h2 in rw (← all) (refl, table_metas-All address lookups others e2)

loaded_metas-All :
    (address : Text) (writable : Bool) (addresses : List Text)
    → All (IsUnsignedFor address) (loaded_metas writable addresses)
unfolding loaded_metas
loaded_metas-All address writable [] = tt
loaded_metas-All address writable (a ∷ addresses) =
    (refl, loaded_metas-All address writable addresses)

lookup_metas-All :
    (address : Text) (tables : List (Text × AddressLookupTable)) (lookups : List SquadsLookup)
    (metas : List AccountMeta)
    → lookup_metas tables lookups ≡ ok metas
    → All (IsUnsignedFor address) metas
unfolding lookup_metas
lookup_metas-All address tables [] metas h = let same : [] ≡ metas = cc in rw (← same) tt
lookup_metas-All address tables (lookup ∷ lookups) metas h =
    let (key, e1, h1) = >>=-eq-ok (normalize_public_key (text lookup.account_key)) _ h in
    let (table, e2, h2) = >>=-eq-ok (or_throw missing_table (map_get tables key)) _ h1 in
    let (writable, e3, h3) =
      >>=-eq-ok (load_addresses _ table.addresses lookup.writable_indexes) _ h2 in
    let (readonly, e4, h4) =
      >>=-eq-ok (load_addresses _ table.addresses lookup.readonly_indexes) _ h3 in
    let (others, e5, h5) = >>=-eq-ok (lookup_metas tables lookups) _ h4 in
    let all = ok-injective h5 in
    rw (← all) (
      All-append (IsUnsignedFor address) (loaded_metas true writable) _
        (loaded_metas-All address true writable)
        (All-append (IsUnsignedFor address) (loaded_metas false readonly) others
          (loaded_metas-All address false readonly)
          (lookup_metas-All address tables lookups others e5)))

static_metas-All :
    (message : SquadsMessage) (vault : Text) (signers keys : List Text) (index : ℕ)
    → All (IsUnsignedFor vault) (static_metas message (vault ∷ signers) keys index)
unfolding static_metas has_address
static_metas-All message vault signers [] index = tt
static_metas-All message vault signers (key ∷ keys) index =
    (ground arith, static_metas-All message vault signers keys (suc index))

-- Of the accounts that are resolved for the execution of a vault transaction none has the address of
-- the vault and is a signer: the vault is signed for by the Squads program.
pub resolve_execute_accounts_vault :
    (hash : List ℕ → List ℕ) (request : ExecuteRequest) (vault : Text) (accounts : List AccountMeta)
    → normalize_public_key request.vault_address ≡ ok vault
    → resolve_execute_accounts hash request ≡ ok accounts
    → All (IsUnsignedFor vault) accounts
unfolding resolve_execute_accounts
resolve_execute_accounts_vault hash request vault accounts named h =
    let (u1, e1, h1) = >>=-eq-ok (validate_squads_vault_transaction_message request.message) _ h in
    let (key, e2, h2) = >>=-eq-ok (normalize_public_key request.vault_address) _ h1 in
    let (transaction, e3, h3) = >>=-eq-ok (normalize_public_key request.transaction_address) _ h2 in
    let (u4, e4, h4) = >>=-eq-ok (assert_u8 request.ephemeral_signer_count) _ h3 in
    let (u5, e5, h5) = >>=-eq-ok (check_vault_payer request.message key) _ h4 in
    let (signers, e6, h6) = >>=-eq-ok (ephemeral_signers hash transaction _ _ 0) _ h5 in
    let (tables, e7, h7) = >>=-eq-ok (tables_by_address request.address_lookup_tables []) _ h6 in
    let (first, e8, h8) = >>=-eq-ok (table_metas request.message.address_table_lookups) _ h7 in
    let (last, e9, h9) =
      >>=-eq-ok (lookup_metas tables request.message.address_table_lookups) _ h8 in
    let all = ok-injective h9 in
    let same : key ≡ vault = cc in
    rw (← same, ← all)
      (All-append (IsUnsignedFor key) first _ (table_metas-All key _ first e8) (
        All-append (IsUnsignedFor key)
          (static_metas request.message (key ∷ signers) request.message.account_keys 0) last
          (static_metas-All request.message key signers request.message.account_keys 0)
          (lookup_metas-All key tables request.message.address_table_lookups last e9)))
