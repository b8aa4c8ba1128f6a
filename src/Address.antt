-- ===== src/Address.antt =====
-- typescript/src/ProgramAddress.ts: addresses derived by a hash, off the Ed25519 curve.
pub mod Search
use chancery_integration_exa.Common.{
  ℕ, zero, suc, ◌+◌, ◌-◌, ◌*◌, ◌/◌, ◌%◌, ◌^◌, ltb, leb, ◌==◌, if◌then◌else◌, Bool, true, false, not,
  ◌&&◌, ◌||◌, List, [], ◌∷◌, ◌++◌, length, take, drop, Result, Error, ok, err, ◌>>=◌, ◌>>◌, guard,
  no_inverse, too_many_seeds, seed_length, on_curve, no_address,
}
use chancery_integration_exa.Common.Int.{ℤ, pos, negsuc, sub_ℕ}
use chancery_integration_exa.Base58.{encode_base58, KeyInput, raw, decode_public_key}
use chancery_integration_exa.Wire.{decode_unsigned_integer}

-- `modulo`: the remainder of a bigint has the sign of the value.
unfoldable pub modulo : ℤ → ℕ → ℕ
modulo (pos n) modulus = n % modulus
modulo (negsuc n) modulus = if suc n % modulus == 0 then 0 else modulus - suc n % modulus

-- The loop of `modularPower`, on `fuel` rounds.
unfoldable pub power_loop : ℕ → ℕ → ℕ → ℕ → ℕ → ℕ
power_loop zero result base exponent modulus = result
power_loop (suc fuel) result base exponent modulus =
    let rest =
      power_loop fuel (if exponent % 2 == 1 then modulo (pos (result * base)) modulus else result)
        (modulo (pos (base * base)) modulus) (exponent / 2) modulus in
    if ltb 0 exponent then rest else result

-- `modularPower`; an exponent of this file has fewer than 256 bits.
unfoldable pub modular_power : ℕ → ℕ → ℕ → ℕ
modular_power base exponent modulus = power_loop 256 1 (modulo (pos base) modulus) exponent modulus

unfoldable pub modular_inverse : ℕ → ℕ → Result ℕ
modular_inverse value modulus =
    guard (not (modulo (pos value) modulus == 0)) no_inverse
    >> ok (modular_power value (modulus - 2) modulus)

-- `ED25519_FIELD_MODULUS`
abbrev pub field_modulus : ℕ
field_modulus = 2 ^ 255 - 19

-- `ED25519_D`, from the inverse of 121666.
unfoldable pub ed25519_d : ℕ → ℕ
ed25519_d inverse = modulo (sub_ℕ 0 (121665 * inverse)) field_modulus

abbrev pub sqrt_minus_one : ℕ
sqrt_minus_one = modular_power 2 ((field_modulus - 1) / 4) field_modulus

-- The x of `isEd25519CurvePoint` from a candidate: the candidate, or its product with a root of -1.
unfoldable pub corrected_root : ℕ → ℕ → ℕ
corrected_root x x_squared =
    if not (modulo (sub_ℕ (x * x) x_squared) field_modulus == 0)
    then modulo (pos (x * sqrt_minus_one)) field_modulus
    else x

unfoldable pub accepts_root : ℕ → ℕ → ℕ → Bool
accepts_root x x_squared sign =
    if not (modulo (sub_ℕ (x * x) x_squared) field_modulus == 0)
    then false
    else if x == 0 && sign == 1
    then false
    else true

-- No point where the denominator is 0; otherwise the test of its inverse.
unfoldable pub guard_root : ℕ → (ℕ → Bool) → Result Bool
guard_root denominator test =
    if denominator == 0
    then ok false
    else (modular_inverse denominator field_modulus >>= λ d. ok (test d))

-- `encodedY[31] & 0x7f` and its sign bit: y without the top bit of 256.
unfoldable pub has_root : ℕ → ℕ → Result Bool
has_root y sign = do
  inverse ← modular_inverse 121666 field_modulus
  let y_squared = modulo (pos (y * y)) field_modulus
  let numerator = modulo (sub_ℕ y_squared 1) field_modulus
  let denominator = modulo (pos (ed25519_d inverse * y_squared + 1)) field_modulus
  guard_root denominator (λ d.
      let x_squared = modulo (pos (numerator * d)) field_modulus in
      let x =
        corrected_root (modular_power x_squared ((field_modulus + 3) / 8) field_modulus)
          x_squared in
      accepts_root x x_squared sign)

-- `isEd25519CurvePoint`
unfoldable pub is_curve_point : List ℕ → Result Bool
is_curve_point compressed_point =
    let whole = decode_unsigned_integer compressed_point in
    let y = whole % 2 ^ 255 in
    if not (length compressed_point == 32)
    then ok false
    else if leb field_modulus y
    then ok false
    else has_root y (whole / 2 ^ 255 % 2)

unfoldable pub concatenate : List (List ℕ) → List ℕ
concatenate [] = []
concatenate (part ∷ parts) = part ++ concatenate parts

unfoldable pub seeds_fit : List (List ℕ) → Bool
seeds_fit [] = true
seeds_fit (seed ∷ seeds) = leb (length seed) 32 && seeds_fit seeds

-- `validateSeeds`
unfoldable pub validate_seeds : List (List ℕ) → ℕ → Result (Unit {0})
validate_seeds seeds maximum_seed_count =
    guard (leb (length seeds) maximum_seed_count) too_many_seeds
    >> guard (seeds_fit seeds) seed_length

-- `new TextEncoder().encode("ProgramDerivedAddress")`
abbrev pub marker : List ℕ
marker =
    b'P'
    ∷ (b'r'
        ∷ (b'o'
            ∷ (b'g'
                ∷ (b'r'
                    ∷ (b'a'
                        ∷ (b'm'
                            ∷ (b'D'
                                ∷ (b'e'
                                    ∷ (b'r'
                                        ∷ (b'i'
                                            ∷ (b'v'
                                                ∷ (b'e'
                                                    ∷ (b'd'
                                                        ∷ (b'A'
                                                            ∷ (b'd'
                                                            ∷ (b'd'
                                                            ∷ (b'r'
                                                            ∷ (b'e'
                                                            ∷ (b's' ∷ (b's' ∷ []))))))))))))))))))))

-- `error.message === "Derived address is on the Ed25519 curve"`
unfoldable pub is_on_curve : Error → Bool
is_on_curve on_curve = true
is_on_curve _ = false

-- The address with its bump; the next bump if the address is on the curve.
unfoldable pub or_next : ℕ → Result (List ℕ × ℕ) → Result (List ℕ) → Result (List ℕ × ℕ)
or_next bump rest (ok address) = ok (address, bump)
or_next bump rest (err e) = if is_on_curve e then rest else err e

-- `hash` is the SHA-256 of node's `crypto`.
module _ (hash : List ℕ → List ℕ) where
  unfoldable pub create_program_address : List (List ℕ) → KeyInput → Result (List ℕ)
  create_program_address seeds program_address = do
    validate_seeds seeds 16
    program_address_bytes ← decode_public_key program_address
    let address_bytes = hash (concatenate (seeds ++ (program_address_bytes ∷ (marker ∷ []))))
    on ← is_curve_point address_bytes
    if on then err on_curve else ok (encode_base58 address_bytes)

  -- The loop of `findProgramAddress`, on the bumps below a bound, downwards.
  unfoldable pub find_bump : ℕ → List (List ℕ) → KeyInput → Result (List ℕ × ℕ)
  find_bump zero seeds program_address = err no_address
  find_bump (suc bump) seeds program_address =
      let rest = find_bump bump seeds program_address in
      or_next bump rest (create_program_address (seeds ++ ((bump ∷ []) ∷ [])) program_address)

  unfoldable pub find_program_address : List (List ℕ) → KeyInput → Result (List ℕ × ℕ)
  find_program_address seeds program_address =
      validate_seeds seeds 15 >> find_bump 256 seeds program_address
