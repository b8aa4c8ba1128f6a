-- ===== src/Oracle.antt =====
-- oracles/typescript/src/OracleSnapshot.ts: rates, their band and the modes of assets.
pub mod Rates
use chancery_integration_exa.Common.{
  ℕ, ◌-◌, ◌*◌, ◌/◌, ◌%◌, leb, ltb, ◌==◌, if◌then◌else◌, Bool, true, false, not, ◌||◌, Option, none,
  some, List, [], ◌∷◌, ◌++◌, zero, suc, ◌+◌, Result, ok, err, ◌>>=◌, negative_amount,
}
use chancery_integration_exa.Common.Int.{ℤ, pos, negsuc}
use chancery_integration_exa.Base58.{Text}

-- The low decimal digits of a number, `count` of them, the highest first.
unfoldable pub padded_digits : ℕ → ℕ → Text
padded_digits zero n = []
padded_digits (suc count) n = padded_digits count (n / 10) ++ ((n % 10 + b'0') ∷ [])

-- `n.toString()` of a bigint, on as many digits as the number allows.
unfoldable pub decimal_text : ℕ → ℕ → Text
decimal_text zero n = []
decimal_text (suc fuel) n =
    let higher = decimal_text fuel (n / 10) in
    if n / 10 == 0 then (n % 10 + b'0') ∷ [] else higher ++ ((n % 10 + b'0') ∷ [])

-- The fraction is below 10^9, so `padStart(9, "0")` gives it 9 digits.
unfoldable pub format_rate_e9 : ℤ → Result Text
format_rate_e9 (negsuc n) = err negative_amount
format_rate_e9 (pos rate_e9) =
    let integer = rate_e9 / 1000000000 in
    ok (decimal_text (suc integer) integer ++ (b'.' ∷ padded_digits 9 (rate_e9 % 1000000000)))

-- `isRateWithinBasisPointsOfOne`
unfoldable pub is_rate_within_basis_points_of_one : ℤ → ℤ → Result Bool
is_rate_within_basis_points_of_one (negsuc n) tolerance = err negative_amount
is_rate_within_basis_points_of_one (pos rate_e9) (negsuc n) = err negative_amount
is_rate_within_basis_points_of_one (pos rate_e9) (pos tolerance_basis_points) =
    let difference =
      if leb 1000000000 rate_e9 then rate_e9 - 1000000000 else 1000000000 - rate_e9 in
    ok (leb (difference * 10000) (1000000000 * tolerance_basis_points))

pub data AssetModeName : Type 0 where
  active wind_down frozen unknown : AssetModeName

unfoldable pub asset_mode_name : ℕ → AssetModeName
asset_mode_name mode_value =
    if mode_value == 0
    then active
    else if mode_value == 1
    then wind_down
    else if mode_value == 2
    then frozen
    else unknown

-- What a snapshot reads of a discovered asset.
pub record DiscoveredAsset : Type 0 where
  pub asset_mint : Text
  pub asset_token_program : Text
  pub mode_value : ℕ
  pub deposit_rate_e9 : ℤ
  pub redeem_rate_e9 : ℤ

-- `ChanceryStateDiscovery`, as far as it is read: of a pathway whether it has a fee policy.
pub record StateDiscovery : Type 0 where
  pub program_address : Text
  pub commitment : Text
  pub issued_token_mint : Option Text
  pub assets : List DiscoveredAsset
  pub pathway_fees : List Bool

pub record OracleAssetRate : Type 0 where
  pub asset_mint : Text
  pub asset_token_program : Text
  pub mode : AssetModeName
  pub mode_value : ℕ
  pub deposit_rate_e9 : ℤ
  pub redeem_rate_e9 : ℤ
  pub deposit_rate : Text
  pub redeem_rate : Text

pub record OracleSnapshot : Type 0 where
  pub program_address : Text
  pub commitment : Text
  pub issued_token_mint : Option Text
  pub assets : List OracleAssetRate
  pub pathway_scoped_fees_present : Bool

unfoldable pub oracle_rates : List DiscoveredAsset → Result (List OracleAssetRate)
oracle_rates [] = ok []
oracle_rates (asset ∷ assets) = do
  deposit_rate ← format_rate_e9 asset.deposit_rate_e9
  redeem_rate ← format_rate_e9 asset.redeem_rate_e9
  others ← oracle_rates assets
  ok (
      record {
        asset_mint = asset.asset_mint;
        asset_token_program = asset.asset_token_program;
        mode = asset_mode_name asset.mode_value;
        mode_value = asset.mode_value;
        deposit_rate_e9 = asset.deposit_rate_e9;
        redeem_rate_e9 = asset.redeem_rate_e9;
        deposit_rate = deposit_rate;
        redeem_rate = redeem_rate;
      }
      ∷ others)

unfoldable pub any_true : List Bool → Bool
any_true [] = false
any_true (b ∷ bs) = b || any_true bs

unfoldable pub build_oracle_snapshot : StateDiscovery → Result OracleSnapshot
build_oracle_snapshot discovery = do
  assets ← oracle_rates discovery.assets
  ok (record {
    program_address = discovery.program_address;
    commitment = discovery.commitment;
    issued_token_mint = discovery.issued_token_mint;
    assets = assets;
    pathway_scoped_fees_present = any_true discovery.pathway_fees;
  })
