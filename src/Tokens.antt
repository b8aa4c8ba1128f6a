-- ===== src/Tokens.antt =====
-- typescript/src/SplToken.ts: mints, token accounts and the extensions of Token-2022.
pub mod Extensions
pub mod Fees
use chancery_integration_exa.Common.{
  ℕ, zero, suc, ◌+◌, ◌-◌, ◌*◌, ◌/◌, ◌%◌, ltb, leb, ◌==◌, if◌then◌else◌, Bool, true, false, not,
  ◌&&◌, ◌||◌, Option, none, some, List, [], ◌∷◌, ◌++◌, length, take, drop, Result, ok, err, ◌>>=◌,
  ◌>>◌, guard, token_account_size, token_state, mint_size, mint_flag, mint_truncated,
  mint_account_type, duplicate_extension, hook_size, fee_config_size, fee_basis_points,
  trailing_tlv, option_tag, slice_bounds, fee_exceeds_amount, wrong_mint, wrong_owner,
  not_initialized, negative_amount,
}
use chancery_integration_exa.Common.Int.{ℤ, pos, negsuc}
use chancery_integration_exa.Base58.{encode_base58, every_zero, KeyInput, normalize_public_key}
use chancery_integration_exa.Wire.{decode_unsigned_integer}
use chancery_integration_exa.Messages.{text_equals}

unfoldable pub slice_exact : List ℕ → ℕ → ℕ → Result (List ℕ)
slice_exact input offset byte_length =
    if ltb (length input) (offset + byte_length)
    then err slice_bounds
    else ok (take byte_length (drop offset input))

unfoldable pub read_unsigned_little_endian : List ℕ → ℕ → ℕ → Result ℕ
read_unsigned_little_endian input offset byte_length =
    slice_exact input offset byte_length >>= λ bs. ok (decode_unsigned_integer bs)

-- `input[index] ?? 0`, for an index that a length check has admitted
unfoldable pub byte_at : List ℕ → ℕ → ℕ
byte_at [] index = 0
byte_at (b ∷ bs) zero = b
byte_at (b ∷ bs) (suc index) = byte_at bs index

-- `decodeOptionalNonzeroPublicKey`
unfoldable pub decode_optional_nonzero_public_key : List ℕ → ℕ → Result (Option (List ℕ))
decode_optional_nonzero_public_key input offset = slice_exact input offset 32 >>= λ bs.
    ok (if every_zero bs then none else some (encode_base58 bs))

-- The tag of a `COption`, in front of what is read if it is 1.
unfoldable pub decode_c_option {ℓ} : {A : Type ℓ} → List ℕ → ℕ → Result A → Result (Option A)
decode_c_option input offset present = read_unsigned_little_endian input offset 4 >>= λ tag.
    if tag == 0
    then ok none
    else if tag == 1
    then (present >>= λ a. ok (some a))
    else err option_tag

unfoldable pub decode_c_option_public_key : List ℕ → ℕ → Result (Option (List ℕ))
decode_c_option_public_key input offset =
    decode_c_option input offset (slice_exact input (offset + 4) 32 >>= λ bs. ok (encode_base58 bs))

unfoldable pub decode_c_option_unsigned_integer : List ℕ → ℕ → Result (Option ℕ)
decode_c_option_unsigned_integer input offset =
    decode_c_option input offset (read_unsigned_little_endian input (offset + 4) 8)

pub record TransferFee : Type 0 where
  pub epoch : ℕ
  pub maximum_fee : ℕ
  pub transfer_fee_basis_points : ℕ

pub record TransferFeeConfig : Type 0 where
  pub transfer_fee_config_authority : Option (List ℕ)
  pub withdraw_withheld_authority : Option (List ℕ)
  pub withheld_amount : ℕ
  pub older_transfer_fee : TransferFee
  pub newer_transfer_fee : TransferFee

unfoldable pub decode_transfer_fee : List ℕ → ℕ → Result TransferFee
decode_transfer_fee value offset = do
  basis_points ← read_unsigned_little_endian value (offset + 16) 2
  guard (leb basis_points 10000) fee_basis_points
  fee_epoch ← read_unsigned_little_endian value offset 8
  maximum ← read_unsigned_little_endian value (offset + 8) 8
  ok (record { epoch = fee_epoch; maximum_fee = maximum; transfer_fee_basis_points = basis_points })

unfoldable pub decode_transfer_fee_config : List ℕ → Result TransferFeeConfig
decode_transfer_fee_config value = do
  guard (length value == 108) fee_config_size
  config_authority ← decode_optional_nonzero_public_key value 0
  withdraw_authority ← decode_optional_nonzero_public_key value 32
  withheld ← read_unsigned_little_endian value 64 8
  older ← decode_transfer_fee value 72
  newer ← decode_transfer_fee value 90
  ok (record {
    transfer_fee_config_authority = config_authority;
    withdraw_withheld_authority = withdraw_authority;
    withheld_amount = withheld;
    older_transfer_fee = older;
    newer_transfer_fee = newer;
  })

pub record FeeCalculation : Type 0 where
  pub fee_epoch : ℤ
  pub amount : ℕ
  pub basis_points : ℕ
  pub maximum : ℕ
  pub fee_amount : ℕ
  pub received_amount : ℕ

-- `selectActiveTransferFee`
unfoldable pub select_active_transfer_fee : TransferFeeConfig → ℤ → Result TransferFee
select_active_transfer_fee config (negsuc n) = err negative_amount
select_active_transfer_fee config (pos current_epoch) = ok (
    if ltb current_epoch config.newer_transfer_fee.epoch
    then config.older_transfer_fee
    else config.newer_transfer_fee)

-- `divideCeiling`, by a positive denominator
unfoldable pub divide_ceiling : ℕ → ℕ → ℕ
divide_ceiling numerator denominator =
    if numerator == 0 then 0 else (numerator + denominator - 1) / denominator

unfoldable pub uncapped_fee : ℕ → ℕ → ℕ
uncapped_fee amount basis_points =
    if amount == 0 || basis_points == 0 then 0 else divide_ceiling (amount * basis_points) 10000

unfoldable pub charge : ℤ → ℕ → TransferFee → Result FeeCalculation
charge current_epoch amount fee =
    let uncapped = uncapped_fee amount fee.transfer_fee_basis_points in
    let charged = if leb uncapped fee.maximum_fee then uncapped else fee.maximum_fee in
    if ltb amount charged
    then err fee_exceeds_amount
    else ok (record {
      fee_epoch = current_epoch;
      amount = amount;
      basis_points = fee.transfer_fee_basis_points;
      maximum = fee.maximum_fee;
      fee_amount = charged;
      received_amount = amount - charged;
    })

-- `calculateTokenTransferFee`; without a configuration the epoch is only passed on.
unfoldable pub calculate_token_transfer_fee :
    ℤ → Option TransferFeeConfig → ℤ → Result FeeCalculation
calculate_token_transfer_fee (negsuc n) config current_epoch = err negative_amount
calculate_token_transfer_fee (pos amount) none current_epoch = ok (record {
  fee_epoch = current_epoch;
  amount = amount;
  basis_points = 0;
  maximum = 0;
  fee_amount = 0;
  received_amount = amount;
})
calculate_token_transfer_fee (pos amount) (some config) current_epoch =
    select_active_transfer_fee config current_epoch >>= charge current_epoch amount

pub record TokenAccount : Type 0 where
  pub mint : List ℕ
  pub owner : List ℕ
  pub held : ℕ
  pub delegate : Option (List ℕ)
  pub state : ℕ
  pub native_reserve : Option ℕ
  pub delegated_amount : ℕ
  pub close_authority : Option (List ℕ)
  pub total_size : ℕ
  pub has_extensions : Bool

-- `decodeTokenAccount`
unfoldable pub decode_token_account : List ℕ → Result TokenAccount
decode_token_account input = do
  guard (leb 165 (length input)) token_account_size
  guard (leb (byte_at input 108) 2) token_state
  held ← read_unsigned_little_endian input 64 8
  delegate ← decode_c_option_public_key input 72
  reserve ← decode_c_option_unsigned_integer input 109
  delegated ← read_unsigned_little_endian input 121 8
  close ← decode_c_option_public_key input 129
  ok (record {
    mint = encode_base58 (take 32 input);
    owner = encode_base58 (take 32 (drop 32 input));
    held = held;
    delegate = delegate;
    state = byte_at input 108;
    native_reserve = reserve;
    delegated_amount = delegated;
    close_authority = close;
    total_size = length input;
    has_extensions = ltb 165 (length input);
  })

-- `assertTokenAccountBinding`
unfoldable pub assert_token_account_binding : TokenAccount → KeyInput → KeyInput → Result (Unit {0})
assert_token_account_binding account expected_mint expected_owner = do
  mint ← normalize_public_key expected_mint
  owner ← normalize_public_key expected_owner
  guard (text_equals account.mint mint) wrong_mint
  guard (text_equals account.owner owner) wrong_owner
  guard (account.state == 1) not_initialized
