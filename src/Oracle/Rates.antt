-- ===== src/Oracle/Rates.antt =====
-- oracles/typescript/src/OracleSnapshot.ts: the text of a rate is the rate.
use chancery_integration_exa.Common.{
  ℕ, zero, suc, ◌+◌, ◌*◌, ◌/◌, ◌%◌, ◌^◌, ◌-◌, ◌<◌, ◌≡◌, refl, ap, ◌∙◌, arith, leb, ◌==◌, true, ◌&&◌,
  Bool-cases, inl, inr, some, [], ◌∷◌, ◌++◌, length, ok, length-append,
}
use chancery_integration_exa.Common.Int.{pos}
use chancery_integration_exa.Base58.{Text}
use chancery_integration_exa.Values.{decimal_digits, unsigned_decimal}
use chancery_integration_exa.Oracle.{padded_digits, decimal_text, format_rate_e9}

last_digit : (acc d : ℕ) → d < 10 → decimal_digits acc ((d + b'0') ∷ []) ≡ some (acc * 10 + d)
unfolding decimal_digits
last_digit acc d h = ground arith

digit_test :
    (c acc n : ℕ) (cs : Text)
    → decimal_digits acc (c ∷ cs) ≡ some n
    → ((leb b'0' c && leb c b'9') ≡ true) × (decimal_digits (acc * 10 + (c - b'0')) cs ≡ some n)
unfolding decimal_digits
digit_test c acc n cs h = elim (Bool-cases (leb b'0' c && leb c b'9')) [
  | inl digit ↦ (digit, ground (arith, digit, h))
  | inr other ↦ absurd (ground (arith, other, h))
]

decimal_digits-append :
    (acc n d : ℕ) (cs : Text)
    → d < 10
    → decimal_digits acc cs ≡ some n
    → decimal_digits acc (cs ++ ((d + b'0') ∷ [])) ≡ some (n * 10 + d)
unfolding decimal_digits
decimal_digits-append acc n d [] low h =
    let same : acc ≡ n = cc in rw (← same) (last_digit acc d low)
decimal_digits-append acc n d (c ∷ cs) low h =
    let (digit, rest) = digit_test c acc n cs h in
    rw digit (decimal_digits-append (acc * 10 + (c - b'0')) n d cs low rest)

unsigned_decimal-append :
    (cs : Text) (c : ℕ) → unsigned_decimal (cs ++ (c ∷ [])) ≡ decimal_digits 0 (cs ++ (c ∷ []))
unfolding unsigned_decimal
unsigned_decimal-append [] c = refl
unsigned_decimal-append (b ∷ cs) c = refl

decimal_digits-padded_digits :
    (count n : ℕ) → n < 10 ^ count → decimal_digits 0 (padded_digits count n) ≡ some n
unfolding padded_digits decimal_digits
decimal_digits-padded_digits zero n low = ap some (omega arith)
decimal_digits-padded_digits (suc count) n low =
    let power : 10 ^ suc count ≡ 10 * 10 ^ count = omega arith in
    let higher : n / 10 < 10 ^ count = div_low n (10 ^ count) (rw (← power) low) in
    let digit : n % 10 < 10 = omega arith in
    decimal_digits-append 0 (n / 10) (n % 10) (padded_digits count (n / 10)) digit
      (decimal_digits-padded_digits count (n / 10) higher)
    ∙ ap some (omega arith)
  where
    div_low : (n p : ℕ) → n < 10 * p → n / 10 < p
    div_low n p h = omega (arith, h)

length-padded_digits : (count n : ℕ) → length (padded_digits count n) ≡ count
unfolding padded_digits
length-padded_digits zero n = refl
length-padded_digits (suc count) n = omega (
  arith,
  length-append (padded_digits count (n / 10)) ((n % 10 + b'0') ∷ []),
  length-padded_digits count (n / 10),
)

decimal_digits-decimal_text :
    (fuel n : ℕ) → n < fuel → decimal_digits 0 (decimal_text fuel n) ≡ some n
unfolding decimal_text
decimal_digits-decimal_text zero n low = absurd (omega arith)
decimal_digits-decimal_text (suc fuel) n low =
    let digit : n % 10 < 10 = omega arith in
    elim (Bool-cases (n / 10 == 0)) [
      | inl last ↦
          let small : n % 10 ≡ n = ground arith in
          rw last (last_digit 0 (n % 10) digit ∙ ap some (omega (arith, small)))
      | inr more ↦
          let positive : 0 < n / 10 = ground arith in
          rw more (
            decimal_digits-append 0 (n / 10) (n % 10) (decimal_text fuel (n / 10)) digit
              (decimal_digits-decimal_text fuel (n / 10) (omega (arith, positive, low)))
            ∙ ap some (omega arith))
    ]

unsigned_decimal-decimal_text :
    (fuel n : ℕ)
    → unsigned_decimal (decimal_text (suc fuel) n) ≡ decimal_digits 0 (decimal_text (suc fuel) n)
unfolding decimal_text unsigned_decimal
unsigned_decimal-decimal_text fuel n = elim (Bool-cases (n / 10 == 0)) [
  | inl last ↦ rw last refl
  | inr more ↦ rw more (unsigned_decimal-append (decimal_text fuel (n / 10)) (n % 10 + b'0'))
]

unsigned_decimal-padded_digits :
    (count n : ℕ)
    → unsigned_decimal (padded_digits (suc count) n)
      ≡ decimal_digits 0 (padded_digits (suc count) n)
unfolding padded_digits
unsigned_decimal-padded_digits count n =
    unsigned_decimal-append (padded_digits count (n / 10)) (n % 10 + b'0')

-- The text of a rate is two decimal texts with a point between them: that of the whole units, and
-- that of the billionths, in nine digits.
pub format_rate_e9_lem :
    (rate_e9 : ℕ)
    → (integer : Text) × (fraction : Text) × (format_rate_e9 (pos rate_e9)
        ≡ ok (integer ++ (b'.' ∷ fraction)))
      × (unsigned_decimal integer ≡ some (rate_e9 / 1000000000))
      × (unsigned_decimal fraction ≡ some (rate_e9 % 1000000000))
      × (length fraction ≡ 9)
unfolding format_rate_e9
format_rate_e9_lem rate_e9 =
    let integer = rate_e9 / 1000000000 in
    let fraction = rate_e9 % 1000000000 in
    let low : fraction < 10 ^ 9 = omega arith in
    let next : integer < suc integer = omega arith in
    (
      decimal_text (suc integer) integer,
      padded_digits 9 fraction,
      refl,
      unsigned_decimal-decimal_text integer integer
          ∙ decimal_digits-decimal_text (suc integer) integer next,
      unsigned_decimal-padded_digits 8 fraction ∙ decimal_digits-padded_digits 9 fraction low,
      length-padded_digits 9 fraction,
    )
