-- ===== src/Tests/Oracle.antt =====
-- The text of a rate of oracles/typescript/src/OracleSnapshot.ts.
use chancery_integration_exa.Common.{◌≡◌, some, ◌∷◌, ◌++◌, length, ok}
use chancery_integration_exa.Common.Int.{pos}
use chancery_integration_exa.Base58.{Text}
use chancery_integration_exa.Values.{unsigned_decimal}
use chancery_integration_exa.Oracle.{format_rate_e9}
use chancery_integration_exa.Oracle.Rates.{format_rate_e9_lem}

format_rate_e9_lem_example :
    (integer : Text) × (fraction : Text) × (format_rate_e9 (pos 1990000001)
      ≡ ok (integer ++ (b'.' ∷ fraction)))
    × (unsigned_decimal integer ≡ some 1)
    × (unsigned_decimal fraction ≡ some 990000001)
    × (length fraction ≡ 9)
format_rate_e9_lem_example = format_rate_e9_lem 1990000001
