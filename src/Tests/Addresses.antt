-- ===== src/Tests/Addresses.antt =====
-- Runs of the search for an address and of a settlement policy, and their theorems.
use chancery_integration_exa.Common.{
  ℕ, ◌≡◌, ◌<◌, ◌==◌, refl, if◌then◌else◌, List, [], ◌∷◌, replicate, true, ok, err, on_curve,
}
use chancery_integration_exa.Base58.{
  KeyInput, raw, decode_key_input, decode_public_key, encode_base58,
}
use chancery_integration_exa.Wire.{decode_unsigned_integer}
use chancery_integration_exa.Address.{
  modulo, power_loop, modular_power, modular_inverse, ed25519_d, corrected_root, accepts_root,
  guard_root, has_root, is_curve_point, concatenate, seeds_fit, validate_seeds, is_on_curve,
  or_next, create_program_address, find_bump, find_program_address,
}
use chancery_integration_exa.Address.Search.{find_program_address_lem}

-- A hash that is on the curve for the first bump, and 2^256 - 1 for the others.
abbrev two_hashes : List ℕ → List ℕ
two_hashes [] = []
two_hashes (b ∷ bs) = if b == 255 then replicate 32 0 else replicate 32 255

abbrev program : KeyInput
program = raw (replicate 32 9)

zeros_on_curve : is_curve_point (replicate 32 0) ≡ ok true
unfolding is_curve_point has_root guard_root accepts_root corrected_root ed25519_d modular_inverse
    modular_power power_loop modulo decode_unsigned_integer
zeros_on_curve = refl

second_bump :
    find_program_address two_hashes [] program ≡ ok (encode_base58 (replicate 32 255), 254)
unfolding find_program_address find_bump create_program_address validate_seeds seeds_fit concatenate
    is_curve_point has_root guard_root accepts_root corrected_root ed25519_d modular_inverse
    modular_power power_loop modulo decode_unsigned_integer or_next is_on_curve decode_public_key
    decode_key_input
second_bump = refl

find_program_address_lem_example :
    (254 < 256)
    × (create_program_address two_hashes ((254 ∷ []) ∷ []) program
        ≡ ok (encode_base58 (replicate 32 255)))
    × ((b : ℕ)
        → 254 < b
        → b < 256
        → create_program_address two_hashes ((b ∷ []) ∷ []) program ≡ err on_curve)
find_program_address_lem_example =
    find_program_address_lem two_hashes [] program (encode_base58 (replicate 32 255)) 254
      second_bump
