-- ===== src/Common/Radix.antt =====
-- Little-endian digit lists in any base, and the carry loop that rebases a number: the shared part
-- of the base58 encoder and decoders.
use chancery_integration_exa.Common.{
  ℕ, zero, suc, ◌+◌, ◌*◌, ◌/◌, ◌%◌, ◌≤◌, ◌<◌, ◌≡◌, refl, ◌==◌, if◌then◌else◌, List, [], ◌∷◌, ◌++◌,
  arith, All, All-reverse, reverse, ap, sym, ◌∙◌,
}
use mathlib.Core.Path.{subst}
use native.Mathlib.Nat.{
  mod-add-div, div-lt_self, mod-lt, mul-le-mul_right, mod-eq_of_lt, add-mul-mod_self_left,
  add-mul-div_left, div-eq_of_lt,
}
use mathlib.Core.List.{reverse-cons, reverse-append, append-nil, append_assoc, reverse-reverse}

-- The number that digits stand for, lowest digit first.
unfoldable pub value : ℕ → List ℕ → ℕ
value b [] = 0
value b (d ∷ ds) = d + b * value b ds

-- `while (carry > 0) { push(carry % radix); carry = floor(carry / radix); }` on `fuel` rounds.
unfoldable pub spill : ℕ → ℕ → ℕ → List ℕ
spill radix zero carry = []
spill radix (suc fuel) carry =
    let rest = spill radix fuel (carry / radix) in if carry == 0 then [] else (carry % radix) ∷ rest

-- One round of the outer loop: every digit is multiplied by `factor`, the carry runs through, and
-- what is left of it is pushed. `carry` rounds of `spill` are enough, since each makes it smaller.
unfoldable pub multiply_add : ℕ → ℕ → List ℕ → ℕ → List ℕ
unfolding spill
multiply_add factor radix [] carry = spill radix carry carry
multiply_add factor radix (d ∷ ds) carry =
    ((carry + d * factor) % radix) ∷ multiply_add factor radix ds ((carry + d * factor) / radix)

-- Digits below the base, with no zero on top: every suffix stands for a positive number.
abbrev pub IsCanonical : ℕ → List ℕ → Type 0
IsCanonical b [] = Unit {0}
IsCanonical b (d ∷ ds) = (d < b) × (0 < value b (d ∷ ds)) × IsCanonical b ds

-- Digits are fed highest first: the outer loop.
unfoldable pub rebase : ℕ → ℕ → List ℕ → List ℕ → List ℕ
rebase factor radix acc [] = acc
rebase factor radix acc (x ∷ xs) = rebase factor radix (multiply_add factor radix acc x) xs

spill-suc : (r f c : ℕ) → spill r (suc f) (suc c) ≡ (suc c % r) ∷ spill r f (suc c / r)
unfolding spill
spill-suc r f c = ground arith

value-spill : (r f c : ℕ) → 2 ≤ r → c ≤ f → value r (spill r f c) ≡ c
unfolding value spill
value-spill r zero c h k = omega arith
value-spill r (suc f) zero h k = refl
value-spill r (suc f) (suc c) h k = rw spill-suc (
    omega (
      arith,
      mod-add-div (suc c) r,
      ap (λ (t : ℕ). r * t)
          (value-spill r f (suc c / r) h
            (omega (arith, div-lt_self {n = suc c} {k = r} (omega arith) h))),
    ))

pub value-multiply_add :
    (m r : ℕ) (ds : List ℕ) (c : ℕ) → 2 ≤ r → value r (multiply_add m r ds c) ≡ c + m * value r ds
unfolding value multiply_add
value-multiply_add m r [] c h = omega (arith, value-spill r c c h (omega arith))
value-multiply_add m r (d ∷ ds) c h = omega (
  arith,
  mod-add-div (c + d * m) r,
  ap (λ (t : ℕ). r * t) (value-multiply_add m r ds ((c + d * m) / r) h),
)

spill-IsCanonical : (r f c : ℕ) → 2 ≤ r → c ≤ f → IsCanonical r (spill r f c)
unfolding spill
spill-IsCanonical r zero c h k = tt
spill-IsCanonical r (suc f) zero h k = tt
spill-IsCanonical r (suc f) (suc c) h k =
    let less : suc c / r < suc c = div-lt_self {n = suc c} {k = r} (omega arith) h in
    rw spill-suc (
      mod-lt (suc c) (omega arith),
      rw (← spill-suc r f c) (omega (arith, value-spill r (suc f) (suc c) h k)),
      spill-IsCanonical r f (suc c / r) h (omega arith),
    )

multiply_add-IsCanonical :
    (m r : ℕ) (ds : List ℕ) (c : ℕ)
    → 1 ≤ m
    → 2 ≤ r
    → IsCanonical r ds
    → IsCanonical r (multiply_add m r ds c)
unfolding multiply_add
multiply_add-IsCanonical m r [] c hm hr h = spill-IsCanonical r c c hr (omega arith)
multiply_add-IsCanonical m r (d ∷ ds) c hm hr (low, positive, h) = (
  mod-lt (c + d * m) (omega arith),
  omega (
    arith,
    value-multiply_add m r (d ∷ ds) c hr,
    mul-le-mul_right {m = 1} {n = m} (value r (d ∷ ds)) hm,
  ),
  multiply_add-IsCanonical m r ds ((c + d * m) / r) hm hr h,
)

digit_unique : (b x y v w : ℕ) → x < b → y < b → x + b * v ≡ y + b * w → (x ≡ y) × (v ≡ w)
digit_unique b x y v w p q e = (
  omega (
    arith,
    ap (λ (t : ℕ). t % b) e,
    add-mul-mod_self_left x b v,
    add-mul-mod_self_left y b w,
    mod-eq_of_lt p,
    mod-eq_of_lt q,
  ),
  omega (
    arith,
    ap (λ (t : ℕ). t / b) e,
    add-mul-div_left x v {y = b} (omega arith),
    add-mul-div_left y w {y = b} (omega arith),
    div-eq_of_lt p,
    div-eq_of_lt q,
  ),
)

-- Canonical digits of one number are one list.
pub canonical_unique :
    (b : ℕ) (xs ys : List ℕ)
    → IsCanonical b xs
    → IsCanonical b ys
    → value b xs ≡ value b ys
    → xs ≡ ys
unfolding value
canonical_unique b [] [] h k e = refl
canonical_unique b [] (y ∷ ys) h (_, positive, _) e = absurd (omega arith)
canonical_unique b (x ∷ xs) [] (_, positive, _) k e = absurd (omega arith)
canonical_unique b (x ∷ xs) (y ∷ ys) (p, _, h) (q, _, k) e =
    let (heads, tails) = digit_unique b x y (value b xs) (value b ys) p q e in
    cc (canonical_unique b xs ys h k tails)

value-rebase :
    (m r : ℕ) (acc xs ys : List ℕ)
    → 2 ≤ r
    → value r acc ≡ value m ys
    → value r (rebase m r acc xs) ≡ value m (reverse xs ++ ys)
unfolding rebase
value-rebase m r acc [] ys h e = e
value-rebase m r acc (x ∷ xs) ys h e =
    rw (reverse-cons, append_assoc)
      (value-rebase m r (multiply_add m r acc x) xs (x ∷ ys) h
        (unfold value in omega (arith, value-multiply_add m r acc x h, ap (λ (t : ℕ). m * t) e)))

rebase-IsCanonical :
    (m r : ℕ) (acc xs : List ℕ)
    → 1 ≤ m
    → 2 ≤ r
    → IsCanonical r acc
    → IsCanonical r (rebase m r acc xs)
unfolding rebase
rebase-IsCanonical m r acc [] hm hr h = h
rebase-IsCanonical m r acc (x ∷ xs) hm hr h =
    rebase-IsCanonical m r (multiply_add m r acc x) xs hm hr
      (multiply_add-IsCanonical m r acc x hm hr h)

-- A big-endian number with no leading zero.
abbrev pub Leads : ℕ → List ℕ → Type 0
Leads b [] = ⊥
Leads b (x ∷ xs) = (0 < x) × (x < b) × All (λ d. d < b) xs

snoc-IsCanonical :
    (b x : ℕ) (ys : List ℕ)
    → 0 < x
    → x < b
    → All (λ d. d < b) ys
    → IsCanonical b (ys ++ (x ∷ [])) × (0 < value b (ys ++ (x ∷ [])))
unfolding value
snoc-IsCanonical b x [] p q h = ((q, omega arith, tt), omega arith)
snoc-IsCanonical b x (y ∷ ys) p q (hy, h) =
    let (canonical, positive) = snoc-IsCanonical b x ys p q h in
    let grows : 0 < y + b * value b (ys ++ (x ∷ [])) =
      omega (arith, mul-le-mul_right {m = 1} {n = b} (value b (ys ++ (x ∷ []))) (omega arith)) in
    ((hy, grows, canonical), grows)

reverse-IsCanonical : (b : ℕ) (xs : List ℕ) → Leads b xs → IsCanonical b (reverse xs)
reverse-IsCanonical b [] h = absurd h
reverse-IsCanonical b (x ∷ xs) (p, q, h) =
    rw reverse-cons (snoc-IsCanonical b x (reverse xs) p q (All-reverse (λ d. d < b) xs h)).0

start_digit-IsCanonical : (m r c : ℕ) → 2 ≤ r → 0 < c → IsCanonical r (multiply_add m r (0 ∷ []) c)
unfolding multiply_add
start_digit-IsCanonical m r c hr p = (
  mod-lt (c + 0 * m) (omega arith),
  omega (arith, value-multiply_add m r (0 ∷ []) c hr),
  spill-IsCanonical r ((c + 0 * m) / r) ((c + 0 * m) / r) hr (omega arith),
)

-- For a first digit that is not 0, starting from no digit or from `[0]` is the same.
pub multiply_add_start :
    (m r c : ℕ) → 1 ≤ m → 2 ≤ r → 0 < c → multiply_add m r [] c ≡ multiply_add m r (0 ∷ []) c
multiply_add_start m r c hm hr p =
    canonical_unique r _ _ (multiply_add-IsCanonical m r [] c hm hr tt)
      (start_digit-IsCanonical m r c hr p)
      (unfold value in
        omega (arith, value-multiply_add m r [] c hr, value-multiply_add m r (0 ∷ []) c hr))

value-reverse_pos : (b : ℕ) (xs : List ℕ) → Leads b xs → 0 < value b (reverse xs)
value-reverse_pos b [] h = absurd h
value-reverse_pos b (x ∷ xs) (p, q, h) =
    rw reverse-cons (snoc-IsCanonical b x (reverse xs) p q (All-reverse (λ d. d < b) xs h)).1

canonical_top :
    (b d : ℕ) (ds : List ℕ)
    → IsCanonical b (d ∷ ds)
    → (x : ℕ) × (ys : List ℕ) × (d ∷ ds ≡ ys ++ (x ∷ [])) × (0 < x) × (x < b) × All (λ t. t < b) ys
unfolding value
canonical_top b d [] (p, positive, _) = (d, [], refl, omega arith, p, tt)
canonical_top b d (e ∷ ds) (p, positive, h) =
    let (x, ys, same, hx, hb, low) = canonical_top b e ds h in
    (x, d ∷ ys, ap (λ (t : List ℕ). d ∷ t) same, hx, hb, (p, low))

reverse-Leads : (b d : ℕ) (ds : List ℕ) → IsCanonical b (d ∷ ds) → Leads b (reverse (d ∷ ds))
reverse-Leads b d ds h =
    let (x, ys, same, hx, hb, low) = canonical_top b d ds h in
    subst (λ t. Leads b (reverse t)) (sym same)
      (rw reverse-append (hx, hb, All-reverse (λ t. t < b) ys low))

-- From the initial `[0]` the loop gives canonical digits, if the number has no leading zero.
start-IsCanonical :
    (m r : ℕ) (xs : List ℕ) → 1 ≤ m → 2 ≤ r → Leads m xs → IsCanonical r (rebase m r (0 ∷ []) xs)
unfolding rebase
start-IsCanonical m r [] hm hr h = absurd h
start-IsCanonical m r (x ∷ xs) hm hr (p, q, h) =
    rebase-IsCanonical m r (multiply_add m r (0 ∷ []) x) xs hm hr
      (start_digit-IsCanonical m r x hr p)

start-value :
    (m r : ℕ) (xs : List ℕ) → 2 ≤ r → value r (rebase m r (0 ∷ []) xs) ≡ value m (reverse xs)
start-value m r xs h =
    rw (append-nil) at (value-rebase m r (0 ∷ []) xs [] h (unfold value in omega arith))

-- Rebasing there and back gives the digits back, lowest first.
pub rebase-rebase :
    (m r : ℕ) (xs : List ℕ)
    → 2 ≤ m
    → 2 ≤ r
    → Leads m xs
    → Leads r (reverse (rebase m r (0 ∷ []) xs))
      × (rebase r m (0 ∷ []) (reverse (rebase m r (0 ∷ []) xs)) ≡ reverse xs)
rebase-rebase m r xs hm hr h =
    let leads =
      digits_lead (rebase m r (0 ∷ []) xs) (start-IsCanonical m r xs (omega arith) hr h)
        (start-value m r xs hr) in
    (
      leads,
      canonical_unique m _ _ (start-IsCanonical r m _ (omega arith) hm leads)
          (reverse-IsCanonical m xs h)
          (start-value r m _ hm ∙ rw reverse-reverse (start-value m r xs hr)),
    )
  where
    digits_lead :
        (ds : List ℕ) → IsCanonical r ds → value r ds ≡ value m (reverse xs) → Leads r (reverse ds)
    digits_lead [] c e = unfold value in absurd (omega (arith, e, value-reverse_pos m xs h))
    digits_lead (d ∷ ds) c e = reverse-Leads r d ds c
