-- ===== src/Transactions/Lookup.antt =====
-- typescript/src/SolanaTransaction.ts: `placeAccountsInLookupTables` and
-- `parseAddressLookupTableAccount`.
use chancery_integration_exa.Common.{
  ℕ, zero, suc, ◌-◌, ◌%◌, ◌/◌, leb, ◌==◌, if◌then◌else◌, Bool, ◌&&◌, ◌||◌, Option, none, some, List,
  [], ◌∷◌, ◌++◌, length, get_elem?, take, drop, replicate, Result, Error, ok, ◌>>=◌, ◌>>◌, guard,
  or_throw, table_length, writable_placement, readonly_placement, placement_table,
  table_account_length, table_state,
}
use chancery_integration_exa.Base58.{KeyInput, text, normalize_public_key, encode_base58}
use chancery_integration_exa.Wire.{decode_unsigned_integer}
use chancery_integration_exa.Base58.{Text}
use chancery_integration_exa.Transactions.{
  AddressLookupTable, TableLookup, AggregatedMeta, map_get, map_set, map_has,
}

-- `LookupPlacement`
pub record LookupPlacement : Type 0 where
  pub table_index : ℕ
  pub address_index : ℕ
  pub is_writable : Bool

-- `LookupCompilation`
pub record LookupCompilation : Type 0 where
  pub static_metas : List AggregatedMeta
  pub writable_loaded_addresses : List Text
  pub readonly_loaded_addresses : List Text
  pub placements : List (Text × LookupPlacement)
  pub lookups : List TableLookup

-- One turn of the loop over the addresses of a table.
unfoldable pub index_address : List (Text × ℕ) → Text → ℕ → Result (List (Text × ℕ))
index_address indexes address index =
    if map_has indexes address
    then ok indexes
    else (normalize_public_key (text address) >>= λ key. ok (map_set indexes key index))

unfoldable pub index_addresses : List (Text × ℕ) → List Text → ℕ → Result (List (Text × ℕ))
index_addresses indexes [] index = ok indexes
index_addresses indexes (address ∷ addresses) index = do
  more ← index_address indexes address index
  index_addresses more addresses (suc index)

-- `tableAddressIndexes`
unfoldable pub index_tables : List AddressLookupTable → Result (List (List (Text × ℕ)))
index_tables [] = ok []
index_tables (table ∷ tables) = do
  guard (leb (length table.addresses) 256) table_length
  indexes ← index_addresses [] table.addresses 0
  others ← index_tables tables
  ok (indexes ∷ others)

-- The loop for the first table that holds an address.
unfoldable pub find_placement : List (List (Text × ℕ)) → ℕ → Text → Bool → Option LookupPlacement
find_placement [] table_index address is_writable = none
find_placement (indexes ∷ tables) table_index address is_writable = elim (map_get indexes address) [
  | none ↦ find_placement tables (suc table_index) address is_writable
  | some address_index ↦ some (record {
    table_index = table_index;
    address_index = address_index;
    is_writable = is_writable;
  })
]

-- What the loop over the metas has pushed.
pub record Placing : Type 0 where
  pub static_metas : List AggregatedMeta
  pub placements : List (Text × LookupPlacement)
  pub writable_by_table : List (List ℕ)
  pub readonly_by_table : List (List ℕ)

-- `destination.push(value)` for the list at an index; `none` if there is no such list.
unfoldable pub push_at : List (List ℕ) → ℕ → ℕ → Option (List (List ℕ))
push_at [] index value = none
push_at (list ∷ lists) zero value = some ((list ++ (value ∷ [])) ∷ lists)
push_at (list ∷ lists) (suc index) value = elim (push_at lists index value) [
  | none ↦ none
  | some pushed ↦ some (list ∷ pushed)
]

unfoldable pub keep_static : AggregatedMeta → Placing → Placing
keep_static meta placing = record placing { static_metas = placing.static_metas ++ (meta ∷ []) }

-- The end of a turn, for a meta that has a placement.
unfoldable pub put_placement : AggregatedMeta → LookupPlacement → Placing → Result Placing
put_placement meta placement placing =
    let placements = map_set placing.placements meta.address placement in
    if placement.is_writable
    then (or_throw placement_table
          (push_at placing.writable_by_table placement.table_index placement.address_index)
        >>= λ pushed. ok (record placing { placements = placements; writable_by_table = pushed }))
    else (or_throw placement_table
          (push_at placing.readonly_by_table placement.table_index placement.address_index)
        >>= λ pushed. ok (record placing { placements = placements; readonly_by_table = pushed }))

-- One turn of the loop over the metas.
unfoldable pub place_meta : List (List (Text × ℕ)) → ℕ → AggregatedMeta → Placing → Result Placing
place_meta tables meta_index meta placing =
    if meta.is_signer || (meta.is_program || meta_index == 0)
    then ok (keep_static meta placing)
    else elim (find_placement tables 0 meta.address meta.is_writable) [
      | none ↦ ok (keep_static meta placing)
      | some placement ↦ put_placement meta placement placing
    ]

unfoldable pub place_metas :
    List (List (Text × ℕ)) → ℕ → List AggregatedMeta → Placing → Result Placing
place_metas tables meta_index [] placing = ok placing
place_metas tables meta_index (meta ∷ metas) placing = do
  next ← place_meta tables meta_index meta placing
  place_metas tables (suc meta_index) metas next

-- The loops over the indexes of a table.
unfoldable pub load_addresses : Error → List Text → List ℕ → Result (List Text)
load_addresses invalid addresses [] = ok []
load_addresses invalid addresses (index ∷ indexes) = do
  address ← or_throw invalid (get_elem? addresses index)
  key ← normalize_public_key (text address)
  others ← load_addresses invalid addresses indexes
  ok (key ∷ others)

-- `lists[index] ?? []`, and the lists behind it.
unfoldable pub first_list : List (List ℕ) → List ℕ
first_list [] = []
first_list (list ∷ lists) = list

-- What the loop over the tables has collected.
pub record Loaded : Type 0 where
  pub writable_addresses : List Text
  pub readonly_addresses : List Text
  pub lookups : List TableLookup

unfoldable pub load_table : AddressLookupTable → List ℕ → List ℕ → Loaded → Result Loaded
load_table table writable_indexes readonly_indexes loaded = do
  writable ← load_addresses writable_placement table.addresses writable_indexes
  readonly ← load_addresses readonly_placement table.addresses readonly_indexes
  table_address ← normalize_public_key (text table.address)
  ok (record {
    writable_addresses = loaded.writable_addresses ++ writable;
    readonly_addresses = loaded.readonly_addresses ++ readonly;
    lookups =
        loaded.lookups
        ++ (record {
          table_address = table_address;
          writable_indexes = writable_indexes;
          readonly_indexes = readonly_indexes;
        }
            ∷ []);
  })

unfoldable pub load_tables :
    List AddressLookupTable → List (List ℕ) → List (List ℕ) → Loaded → Result Loaded
load_tables [] writable readonly loaded = ok loaded
load_tables (table ∷ tables) writable readonly loaded = do
  next ←
      if length (first_list writable) == 0 && length (first_list readonly) == 0
      then ok loaded
      else load_table table (first_list writable) (first_list readonly) loaded
  load_tables tables (drop 1 writable) (drop 1 readonly) next

unfoldable pub place_accounts_in_lookup_tables :
    List AggregatedMeta → List AddressLookupTable → Result LookupCompilation
place_accounts_in_lookup_tables metas lookup_tables = do
  indexes ← index_tables lookup_tables
  placing ← place_metas indexes 0 metas (record {
    static_metas = [];
    placements = [];
    writable_by_table = replicate (length lookup_tables) [];
    readonly_by_table = replicate (length lookup_tables) [];
  })
  loaded ←
      load_tables lookup_tables placing.writable_by_table placing.readonly_by_table
        (record { writable_addresses = []; readonly_addresses = []; lookups = [] })
  ok (record {
    static_metas = placing.static_metas;
    writable_loaded_addresses = loaded.writable_addresses;
    readonly_loaded_addresses = loaded.readonly_addresses;
    placements = placing.placements;
    lookups = loaded.lookups;
  })

-- The loop of `parseAddressLookupTableAccount`, on `count` addresses of 32 bytes.
unfoldable pub table_addresses : ℕ → List ℕ → List Text
table_addresses zero bytes = []
table_addresses (suc count) bytes =
    encode_base58 (take 32 bytes) ∷ table_addresses count (drop 32 bytes)

unfoldable pub parse_address_lookup_table_account : KeyInput → List ℕ → Result AddressLookupTable
parse_address_lookup_table_account table_address account_data = do
  guard (leb 56 (length account_data) && (length account_data - 56) % 32 == 0) table_account_length
  guard (decode_unsigned_integer (take 4 account_data) == 1) table_state
  address ← normalize_public_key table_address
  ok (record {
    address = address;
    addresses = table_addresses ((length account_data - 56) / 32) (drop 56 account_data);
  })
