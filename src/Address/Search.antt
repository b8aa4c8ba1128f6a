-- ===== src/Address/Search.antt =====
-- `findProgramAddress` returns the highest bump whose address is off the curve.
use chancery_integration_exa.Common.{
  ℕ, zero, suc, ◌<◌, ◌≡◌, refl, ap, arith, List, [], ◌∷◌, ◌++◌, Result, ok, err, ◌⊎◌, inl, inr,
  >>=-eq-ok, true, Bool-cases, Error, on_curve,
}
use chancery_integration_exa.Base58.{KeyInput}
use chancery_integration_exa.Address.{
  create_program_address, find_bump, find_program_address, validate_seeds, is_on_curve, or_next,
}

on_curve_only : (e : Error) → is_on_curve e ≡ true → e ≡ on_curve
unfolding is_on_curve
on_curve_only on_curve h = refl
on_curve_only _ h = absurd (cc)

or_next_inv :
    (bump : ℕ) (rest : Result (List ℕ × ℕ)) (made : Result (List ℕ)) (p : List ℕ × ℕ)
    → or_next bump rest made ≡ ok p
    → ((made ≡ ok p.0) × (bump ≡ p.1)) ⊎ ((made ≡ err on_curve) × (rest ≡ ok p))
unfolding or_next
or_next_inv bump rest (ok a) p e =
    let same : (a, bump) ≡ p = cc e in inl (ap ok (ap (λ t. t.0) same), ap (λ t. t.1) same)
or_next_inv bump rest (err x) p e = elim (Bool-cases (is_on_curve x)) [
  | inl t ↦ inr (ap err (on_curve_only x t), ground arith)
  | inr t ↦ absurd (ground arith)
]

module _ (hash : List ℕ → List ℕ) (seeds : List (List ℕ)) (program_address : KeyInput) where
  abbrev at_bump : ℕ → Result (List ℕ)
  at_bump bump = create_program_address hash (seeds ++ ((bump ∷ []) ∷ [])) program_address

  find_bump_lem :
      (bound : ℕ) (address : List ℕ) (bump : ℕ)
      → find_bump hash bound seeds program_address ≡ ok (address, bump)
      → (bump < bound)
        × (at_bump bump ≡ ok address)
        × ((b : ℕ) → bump < b → b < bound → at_bump b ≡ err on_curve)
  unfolding find_bump
  find_bump_lem zero address bump e = absurd (cc)
  find_bump_lem (suc bound) address bump e =
      elim (or_next_inv bound _ (at_bump bound) (address, bump) e) [
        | inl (made, same) ↦ (
          omega (arith, same),
          rw (← same) made,
          λ b above below. absurd (omega (arith, same, above, below)),
        )
        | inr (failed, more) ↦
            let (below, made, others) = find_bump_lem bound address bump more in
            (
              omega (arith, below),
              made,
              λ b above here. elim (less b here) [
                | inl same ↦ rw same failed
                | inr under ↦ others b above under
              ],
            )
      ]
    where
      less : (b : ℕ) → b < suc bound → (b ≡ bound) ⊎ (b < bound)
      less b h = ground arith

-- The bump that is found fits in a byte and its address is the result; every higher bump gives an
-- address on the curve.
pub find_program_address_lem :
    (hash : List ℕ → List ℕ) (seeds : List (List ℕ)) (program_address : KeyInput) (address : List ℕ)
    (bump : ℕ)
    → find_program_address hash seeds program_address ≡ ok (address, bump)
    → (bump < 256)
      × (create_program_address hash (seeds ++ ((bump ∷ []) ∷ [])) program_address ≡ ok address)
      × ((b : ℕ)
          → bump < b
          → b < 256
          → create_program_address hash (seeds ++ ((b ∷ []) ∷ [])) program_address ≡ err on_curve)
unfolding find_program_address
find_program_address_lem hash seeds program_address address bump e =
    let (_, _, more) = >>=-eq-ok (validate_seeds seeds 15) _ e in
    find_bump_lem hash seeds program_address 256 address bump more
