-- ===== src/Tokens/Extensions.antt =====
-- typescript/src/SplToken.ts: `decodeTokenMint` and the extensions behind a mint.
pub mod Scan
pub mod Laid
pub mod Ended
use chancery_integration_exa.Common.{
  ℕ, zero, suc, ◌+◌, ◌-◌, ltb, leb, ◌==◌, if◌then◌else◌, Bool, true, false, not, ◌&&◌, ◌||◌, Option,
  none, some, List, [], ◌∷◌, ◌++◌, length, take, drop, Result, ok, err, ◌>>=◌, ◌>>◌, guard,
  mint_size, mint_flag, mint_truncated, mint_account_type, duplicate_extension, hook_size,
  trailing_tlv, stack_exhausted,
}
use chancery_integration_exa.Base58.{every_zero}
use chancery_integration_exa.Tokens.{
  slice_exact, read_unsigned_little_endian, byte_at, decode_optional_nonzero_public_key,
  decode_c_option_public_key, TransferFeeConfig, decode_transfer_fee_config,
}

pub record Extension : Type 0 where
  pub extension_type : ℕ
  pub byte_length : ℕ
  pub value : List ℕ

-- The variables of the loop of `decodeToken2022MintExtensions`.
pub record Scanned : Type 0 where
  pub cursor : ℕ
  pub extensions : List Extension
  pub transfer_fee_config : Option TransferFeeConfig
  pub transfer_hook_program_address : Option (List ℕ)
  pub has_unmodeled_transfer_behavior : Bool

unfoldable pub is_some {ℓ} : {A : Type ℓ} → Option A → Bool
is_some none = false
is_some (some a) = true

-- The `if` on the extension's type; an extension of another type changes nothing.
unfoldable pub note_extension : ℕ → List ℕ → Scanned → Result Scanned
note_extension extension_type value s =
    if extension_type == 1
    then (guard (not (is_some s.transfer_fee_config)) duplicate_extension
        >> (decode_transfer_fee_config value >>= λ config.
            ok (record s { transfer_fee_config = some config })))
    else if extension_type == 14
    then (guard (length value == 64) hook_size
        >> (decode_optional_nonzero_public_key value 32 >>= λ hook. ok (record s {
          transfer_hook_program_address = hook;
          has_unmodeled_transfer_behavior = s.has_unmodeled_transfer_behavior || is_some hook;
        })))
    else if extension_type == 16
    then ok (record s { has_unmodeled_transfer_behavior = true })
    else ok s

-- One turn behind the reading of the type and the length.
unfoldable pub take_extension : List ℕ → ℕ → ℕ → Scanned → Result Scanned
take_extension input extension_type byte_length s = do
  value ← slice_exact input (s.cursor + 4) byte_length
  next ← note_extension extension_type value s
  ok (record next {
    cursor = s.cursor + 4 + byte_length;
    extensions =
        s.extensions
        ++ (record { extension_type = extension_type; byte_length = byte_length; value = value }
            ∷ []);
  })

-- The loop, on `fuel` turns.
unfoldable pub scan_extensions : ℕ → List ℕ → Scanned → Result Scanned
scan_extensions zero input s = err stack_exhausted
scan_extensions (suc fuel) input s =
    if ltb (length input) (s.cursor + 4)
    then ok s
    else (read_unsigned_little_endian input s.cursor 2 >>= λ extension_type.
        read_unsigned_little_endian input (s.cursor + 2) 2 >>= λ byte_length.
        if extension_type == 0
        then ok s
        else (take_extension input extension_type byte_length s >>= scan_extensions fuel input))

abbrev pub at_start : ℕ → Scanned
at_start offset = record {
  cursor = offset;
  extensions = [];
  transfer_fee_config = none;
  transfer_hook_program_address = none;
  has_unmodeled_transfer_behavior = false;
}

unfoldable pub check_trailing : List ℕ → Scanned → Result Scanned
check_trailing input s =
    if ltb s.cursor (length input) && ltb (length input - s.cursor) 4
    then (guard (every_zero (drop s.cursor input)) trailing_tlv >> ok s)
    else ok s

-- `decodeToken2022MintExtensions`, with the account type; a turn takes at least 4 bytes.
unfoldable pub decode_token2022_mint_extensions : List ℕ → Result (Option ℕ × Scanned)
decode_token2022_mint_extensions input =
    if length input == 82
    then ok (none, at_start 82)
    else (guard (ltb 165 (length input)) mint_truncated
        >> (guard (byte_at input 165 == 1) mint_account_type
            >> (scan_extensions (length input) input (at_start 166)
                >>= check_trailing input
                >>= λ s. ok (some 1, s))))

pub record TokenMint : Type 0 where
  pub mint_authority : Option (List ℕ)
  pub supply : ℕ
  pub decimals : ℕ
  pub initialized : Bool
  pub freeze_authority : Option (List ℕ)
  pub size : ℕ
  pub account_type : Option ℕ
  pub scanned : Scanned

-- `decodeTokenMint`
unfoldable pub decode_token_mint : List ℕ → Result TokenMint
decode_token_mint input = do
  guard (leb 82 (length input)) mint_size
  authority ← decode_c_option_public_key input 0
  issued ← read_unsigned_little_endian input 36 8
  guard (byte_at input 45 == 0 || byte_at input 45 == 1) mint_flag
  freeze ← decode_c_option_public_key input 46
  p ← decode_token2022_mint_extensions input
  ok (record {
    mint_authority = authority;
    supply = issued;
    decimals = byte_at input 44;
    initialized = byte_at input 45 == 1;
    freeze_authority = freeze;
    size = length input;
    account_type = p.0;
    scanned = p.1;
  })
