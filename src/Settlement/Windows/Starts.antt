-- ===== src/Settlement/Windows/Starts.antt =====
-- The start of the window that a time falls into.
use native.Mathlib.Nat.{
  zero-mul, suc-mul, div-add-mod', mod-lt, mul-le-mul_right, le-div_iff_mul-le, div-mul-le_self,
  lt_of_mul-lt-mul_right,
}
use chancery_integration_exa.Common.{
  ℕ, zero, suc, ◌+◌, ◌*◌, ◌/◌, ◌%◌, ◌≤◌, ◌<◌, ◌≡◌, ◌==◌, refl, sym, ap, ◌∙◌, arith, inl, inr,
  Bool-cases, if◌then◌else◌, ok, >>=-eq-ok,
}
use chancery_integration_exa.Common.Int.{ℤ, pos, negsuc, negate, scale, pos_part, neg_part}
use chancery_integration_exa.Settlement.Windows.{
  floor_division, period_seconds, canonical_window_start,
}

-- z ≤ w and z < w, in terms that `omega` reads.
abbrev pub AtMost : ℤ → ℤ → Type 0
AtMost z w = pos_part z + neg_part w ≤ pos_part w + neg_part z

negate_parts : (n : ℕ) → (pos_part (negate n) ≡ 0) × (neg_part (negate n) ≡ n)
negate_parts zero = (refl, refl)
negate_parts (suc n) = (refl, refl)

scale-negate : (n k : ℕ) → scale (negate n) k ≡ negate (n * k)
scale-negate zero k = ap pos (zero-mul k) ∙ ap negate (sym (zero-mul k))
scale-negate (suc n) k = refl

-- How many windows a negative time is before 0, rounded up.
windows_before : ℕ → ℕ → ℕ
windows_before n d = if n % d == 0 then n / d else suc (n / d)

windows_before_bounds :
    (n d : ℕ) → 0 < d → (n ≤ windows_before n d * d) × (windows_before n d * d < n + d)
unfolding windows_before
windows_before_bounds n d h = elim (Bool-cases (n % d == 0)) [
  | inl t ↦ rw t (ground (arith, div-add-mod' n d), ground (arith, div-add-mod' n d))
  | inr t ↦ rw t (
    ground (arith, div-add-mod' n d, mod-lt n h, suc-mul (n / d) d),
    ground (arith, div-add-mod' n d, mod-lt n h, suc-mul (n / d) d),
  )
]

floor_parts :
    (n d : ℕ)
    → (pos_part (scale (floor_division (negsuc n) d) d) ≡ 0)
      × (neg_part (scale (floor_division (negsuc n) d) d) ≡ windows_before (suc n) d * d)
unfolding floor_division windows_before
floor_parts n d = elim (Bool-cases (suc n % d == 0)) [
  | inl t ↦ rw (t, scale-negate (suc n / d) d) (negate_parts (suc n / d * d))
  | inr t ↦ rw t (negate_parts (suc (suc n / d) * d))
]

floor_monotone :
    (z w : ℤ) (d : ℕ)
    → 0 < d
    → pos_part z + neg_part w ≤ pos_part w + neg_part z
    → pos_part (scale (floor_division z d) d) + neg_part (scale (floor_division w d) d)
      ≤ pos_part (scale (floor_division w d) d) + neg_part (scale (floor_division z d) d)
floor_monotone (pos n) (pos m) d h le =
    unfold floor_division in omega (arith, mul-le-mul_right d fewer)
  where
    fewer : n / d ≤ m / d
    fewer = (le-div_iff_mul-le h).1 (omega (arith, div-mul-le_self n d, le))
floor_monotone (pos n) (negsuc m) d h le = absurd (omega (arith, le))
floor_monotone (negsuc n) (pos m) d h le = omega (arith, floor_parts n d, none_below)
  where
    none_below : neg_part (scale (floor_division (pos m) d) d) ≡ 0
    none_below = unfold floor_division in refl
floor_monotone (negsuc n) (negsuc m) d h le =
    omega (arith, floor_parts n d, floor_parts m d, mul-le-mul_right d fewer)
  where
    fewer : windows_before (suc m) d ≤ windows_before (suc n) d
    fewer = omega (
      arith,
      lt_of_mul-lt-mul_right d {m = windows_before (suc m) d} {n = suc (windows_before (suc n) d)} (
          omega (
            arith,
            windows_before_bounds (suc m) d h,
            windows_before_bounds (suc n) d h,
            suc-mul (windows_before (suc n) d) d,
            le,
          )),
    )

floor_bounds :
    (z : ℤ) (d : ℕ)
    → 0 < d
    → (pos_part (scale (floor_division z d) d) + neg_part z
        ≤ pos_part z + neg_part (scale (floor_division z d) d))
      × (pos_part z + neg_part (scale (floor_division z d) d)
          < pos_part (scale (floor_division z d) d) + neg_part z + d)
floor_bounds (pos n) d h =
    unfold floor_division in
    (omega (arith, div-add-mod' n d, mod-lt n h), omega (arith, div-add-mod' n d, mod-lt n h))
floor_bounds (negsuc n) d h = (
  omega (arith, floor_parts n d, windows_before_bounds (suc n) d h),
  omega (arith, floor_parts n d, windows_before_bounds (suc n) d h),
)

period_positive : (kind period : ℕ) → period_seconds kind ≡ ok period → 0 < period
unfolding period_seconds
period_positive kind period e = ground arith

-- A window starts at or before the time that falls into it, and ends behind that time.
pub canonical_window_start_bounds :
    (kind : ℕ) (now start : ℤ) (period : ℕ)
    → period_seconds kind ≡ ok period
    → canonical_window_start kind now ≡ ok start
    → (pos_part start + neg_part now ≤ pos_part now + neg_part start)
      × (pos_part now + neg_part start < pos_part start + neg_part now + period)
unfolding canonical_window_start
canonical_window_start_bounds kind now start period known e =
    rw (← shown) (floor_bounds now period (period_positive kind period known))
  where
    shown : scale (floor_division now period) period ≡ start
    shown = cc (known, e)

-- The window of a later time starts no earlier.
pub canonical_window_start_monotone :
    (kind : ℕ) (earlier now stored start : ℤ)
    → pos_part earlier + neg_part now ≤ pos_part now + neg_part earlier
    → canonical_window_start kind earlier ≡ ok stored
    → canonical_window_start kind now ≡ ok start
    → pos_part stored + neg_part start ≤ pos_part start + neg_part stored
unfolding canonical_window_start
canonical_window_start_monotone kind earlier now stored start le e f =
    let (period, known, shown) = >>=-eq-ok (period_seconds kind) _ f in
    let first : scale (floor_division earlier period) period ≡ stored = cc (known, e) in
    let second : scale (floor_division now period) period ≡ start = cc shown in
    rw (← first, ← second)
      (floor_monotone earlier now period (period_positive kind period known) le)
