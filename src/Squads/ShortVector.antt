-- ===== src/Squads/ShortVector.antt =====
-- The lengths that typescript/src/SolanaTransaction.ts writes and
-- typescript/src/squads/SquadsVaultMessage.ts reads.
use chancery_integration_exa.Common.{
  ℕ, zero, suc, ◌+◌, ◌*◌, ◌/◌, ◌%◌, ◌^◌, ◌≤◌, ◌<◌, ◌≡◌, refl, ap, ◌∙◌, arith, ltb, if◌then◌else◌,
  true, false, Bool-cases, inl, inr, List, ◌++◌, Result, ok, guard, guard-eq-ok, ok-injective, ◌>>◌,
  short_vector_range,
}
use native.Mathlib.Nat.{mod-add-div}
use chancery_integration_exa.Transactions.{short_vector_loop, encode_short_vector_length}
use chancery_integration_exa.Squads.Message.{read_short_loop, read_short_vector_length}
use chancery_integration_exa.Squads.Reads.{Reads, read_u8_lem, >>=-ok}

-- A number and what is left of it after its low seven bits.
split : (n m : ℕ) → n * m ≡ n % 128 * m + n / 128 * (m * 128)
split n m = omega (arith, ap (λ (t : ℕ). t * m) (mod-add-div n 128))

ltb_of_lt : (a b : ℕ) → a < b → ltb a b ≡ true
ltb_of_lt a b h = ground arith

ltb_of_le : (a b : ℕ) → b ≤ a → ltb a b ≡ false
ltb_of_le a b h = ground arith

div_low : (n p : ℕ) → n < 128 * p → n / 128 < p
div_low n p h = omega (arith, h)

power : (turns : ℕ) → 128 * 128 ^ suc turns ≡ 128 ^ suc (suc turns)
power turns = omega arith

-- The last byte of a length, and a byte that others follow.
last_byte :
    (byte value multiplier : ℕ) (rest : List ℕ) (more : Result (ℕ × List ℕ))
    → byte < 128
    → value + byte * multiplier < 2 ^ 53
    → (guard (ltb (value + byte % 128 * multiplier) (2 ^ 53)) short_vector_range
        >> (if ltb byte 128 then ok (value + byte % 128 * multiplier, rest) else more))
      ≡ ok (value + byte * multiplier, rest)
last_byte byte value multiplier rest more low safe =
    let plain : byte % 128 ≡ byte = omega (arith, low) in
    rw (plain, ltb_of_lt (value + byte * multiplier) (2 ^ 53) safe, ltb_of_lt byte 128 low) refl

next_byte :
    (seven value multiplier : ℕ) (rest : List ℕ) (more : ℕ → Result (ℕ × List ℕ))
    → seven < 128
    → value + seven * multiplier < 2 ^ 53
    → (guard (ltb (value + (seven + 128) % 128 * multiplier) (2 ^ 53)) short_vector_range
        >> (if ltb (seven + 128) 128
            then ok (value + (seven + 128) % 128 * multiplier, rest)
            else more (value + (seven + 128) % 128 * multiplier)))
      ≡ more (value + seven * multiplier)
next_byte seven value multiplier rest more low safe =
    let plain : (seven + 128) % 128 ≡ seven = omega (arith, low) in
    rw
      (
        plain,
        ltb_of_lt (value + seven * multiplier) (2 ^ 53) safe,
        ltb_of_le (seven + 128) 128 (omega arith),
      )
      refl

read_short_loop-short_vector_loop :
    (turns n value multiplier : ℕ)
    → n < 128 ^ suc turns
    → value + n * multiplier < 2 ^ 53
    → Reads
        (read_short_loop (suc turns) value multiplier)
        (short_vector_loop (suc turns) n)
        (value + n * multiplier)
unfolding read_short_loop short_vector_loop
read_short_loop-short_vector_loop zero n value multiplier low safe rest =
    let small : n < 128 = omega (arith, low) in
    let plain : n % 128 ≡ n = omega (arith, small) in
    let none_left : n / 128 ≡ 0 = omega (arith, small) in
    rw (ltb_of_le 0 (n / 128) (omega arith), plain)
      (>>=-ok _ (read_u8_lem n rest) (last_byte n value multiplier rest _ small safe))
read_short_loop-short_vector_loop (suc turns) n value multiplier low safe rest =
    let total = split n multiplier in
    let bits : n % 128 < 128 = omega arith in
    let summed : value + n % 128 * multiplier + n / 128 * (multiplier * 128)
        ≡ value + n * multiplier =
      omega (arith, total) in
    let first : value + n % 128 * multiplier < 2 ^ 53 = omega (arith, total, safe) in
    elim (Bool-cases (ltb 0 (n / 128))) [
      | inl more ↦ rw more (
          >>=-ok _ (read_u8_lem (n % 128 + 128) _) (
            next_byte (n % 128) value multiplier _
              (λ t.
                read_short_loop (suc turns) t (multiplier * 128)
                  (short_vector_loop (suc turns) (n / 128) ++ rest))
              bits first
            ∙ (read_short_loop-short_vector_loop turns (n / 128) (value + n % 128 * multiplier)
                  (multiplier * 128) (div_low n (128 ^ suc turns) (rw (power turns) low))
                  (rw summed safe) rest
                ∙ ap (λ (t : ℕ). ok (t, rest)) summed)))
      | inr done ↦
          let none_left : n / 128 ≡ 0 = ground arith in
          let small : n % 128 ≡ n = omega (arith, none_left) in
          rw done (
            >>=-ok _ (read_u8_lem (n % 128) rest) (
              last_byte (n % 128) value multiplier rest _ bits first
              ∙ ap (λ (t : ℕ). ok (value + t * multiplier, rest)) small))
    ]

-- A length that is encoded is read back, whatever follows it.
pub read_short_vector_length-encode_short_vector_length :
    (n : ℕ) (bytes : List ℕ)
    → encode_short_vector_length n ≡ ok bytes
    → Reads read_short_vector_length bytes n
unfolding encode_short_vector_length read_short_vector_length
read_short_vector_length-encode_short_vector_length n bytes h rest =
    let (low, same) = guard-eq-ok (ltb n (2 ^ 53)) _ _ h in
    let small : n < 2 ^ 53 = ground arith in
    let written = ok-injective same in
    rw (← written) (
      read_short_loop-short_vector_loop 7 n 0 1 (omega (arith, small)) (omega (arith, small)) rest
      ∙ ap (λ (t : ℕ). ok (t, rest)) (omega arith))
