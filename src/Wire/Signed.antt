-- ===== src/Wire/Signed.antt =====
-- Two's complement: the signed encoder and decoder are inverse.
use chancery_integration_exa.Common.{
  ℕ, suc, ◌+◌, ◌*◌, ◌-◌, ◌/◌, ◌%◌, ◌^◌, ◌≤◌, ◌<◌, ◌≡◌, sym, ap, ◌∙◌, arith, List, length, ok, All,
  ltb, ◌==◌, if◌then◌else◌, Bool-cases, inl, inr, ◌↔◌,
}
use mathlib.Core.Path.{subst}
use native.Mathlib.Nat.{two-pow-succ, div-eq_of_lt, div-eq_of_lt-le, one-le-pow}
use chancery_integration_exa.Common.Int.{ℤ, pos, negsuc}
use chancery_integration_exa.Base58.{IsByte}
use chancery_integration_exa.Wire.{
  decode_unsigned_integer, encode_unsigned, encode_signed, decode_signed_integer,
}
use chancery_integration_exa.Wire.Integers.{encode_unsigned_iff, decode_unsigned_lt}

half_power : (count : ℕ) → 1 ≤ count → 2 ^ (count * 8) ≡ 2 ^ (count * 8 - 1) + 2 ^ (count * 8 - 1)
half_power count h =
    let e : count * 8 ≡ suc (count * 8 - 1) = omega arith in
    ap (λ (t : ℕ). 2 ^ t) e ∙ two-pow-succ (count * 8 - 1)

sign_test : (u h : ℕ) → 0 < h → u < h + h → (u / h % 2 == 0) ≡ ltb u h
sign_test u h p q = elim (Bool-cases (ltb u h)) [
  | inl t ↦ rw (t, div-eq_of_lt {n = u} {m = h} (ground arith))
  | inr t ↦ rw (t, div-eq_of_lt-le {k = 1} h {m = u} (ground arith) (ground arith))
]

-- The decoder without its bit test.
abbrev from_unsigned : ℕ → ℕ → ℤ
from_unsigned u h = if ltb u h then pos u else negsuc (h + h - u - 1)

decode_signed-from_unsigned :
    (bs : List ℕ) (count : ℕ)
    → length bs ≡ count
    → 1 ≤ count
    → All IsByte bs
    → decode_signed_integer bs ≡ from_unsigned (decode_unsigned_integer bs) (2 ^ (count * 8 - 1))
unfolding decode_signed_integer
decode_signed-from_unsigned bs count sized some low =
    let u = decode_unsigned_integer bs in
    let h = 2 ^ (count * 8 - 1) in
    let below : u < h + h =
      subst (λ t. u < t) (half_power count some)
        (subst (λ t. u < 2 ^ (t * 8)) sized (decode_unsigned_lt bs low)) in
    rw
      (
        sized,
        half_power count some,
        sign_test u h (one-le-pow (count * 8 - 1) 2 (omega arith)) below,
      )
      (ground (arith, below))

-- In at least one byte, an integer is encoded to exactly those bytes, of the given count, that decode
-- to it.
pub encode_signed_iff :
    (z : ℤ) (count : ℕ) (bs : List ℕ)
    → 1 ≤ count
    → (encode_signed z count ≡ ok bs)
      ↔ ((length bs ≡ count) × All IsByte bs × (decode_signed_integer bs ≡ z))
unfolding encode_signed
encode_signed_iff (pos n) count bs some = (
  λ e.
      let fits : n < 2 ^ (count * 8 - 1) = ground arith in
      let plain : encode_unsigned (pos n) count ≡ ok bs = ground arith in
      let (sized, low, same) = (encode_unsigned_iff n count bs).0 plain in
      (sized, low, decode_signed-from_unsigned bs count sized some low ∙ rw same (ground arith)),
  λ (sized, low, same). ground (
    arith,
    decode_signed-from_unsigned bs count sized some low,
    (encode_unsigned_iff n count bs).1,
  ),
)
encode_signed_iff (negsuc n) count bs some = (
  λ e.
      let fits : n < 2 ^ (count * 8 - 1) = ground arith in
      let plain : encode_unsigned (pos (2 ^ (count * 8) - suc n)) count ≡ ok bs = ground arith in
      let (sized, low, same) = (encode_unsigned_iff (2 ^ (count * 8) - suc n) count bs).0 plain in
      (
        sized,
        low,
        decode_signed-from_unsigned bs count sized some low
            ∙ rw same (ground (arith, half_power count some)),
      ),
  λ (sized, low, same).
      let u = decode_unsigned_integer bs in
      let h = 2 ^ (count * 8 - 1) in
      let whole : 2 ^ (count * 8) ≡ h + h = half_power count some in
      let below : u < h + h =
        subst (λ t. u < t) whole (subst (λ t. u < 2 ^ (t * 8)) sized (decode_unsigned_lt bs low)) in
      let read : from_unsigned u h ≡ negsuc n =
        sym (decode_signed-from_unsigned bs count sized some low) ∙ same in
      let fits : n < h = ground (arith, read, below) in
      let shifted : u ≡ 2 ^ (count * 8) - suc n = ground (arith, read, below, whole) in
      ground (
        arith,
        fits,
        (encode_unsigned_iff (2 ^ (count * 8) - suc n) count bs).1 (sized, low, shifted),
      ),
)
