-- ===== src/Wire/Integers.antt =====
-- Integers in little-endian bytes: both round trips, unsigned and in two's complement.
use chancery_integration_exa.Common.{
  ℕ, zero, suc, ◌+◌, ◌*◌, ◌/◌, ◌%◌, ◌^◌, ◌<◌, ◌≡◌, refl, ap, arith, List, [], ◌∷◌, length, ok, All,
  ltb, Bool-cases, inl, inr, ◌↔◌,
}
use mathlib.Core.Path.{subst}
use native.Mathlib.Nat.{pow-suc}
use chancery_integration_exa.Common.Int.{pos}
use chancery_integration_exa.Base58.{IsByte}
use chancery_integration_exa.Wire.{le_bytes, decode_unsigned_integer, encode_unsigned}

pub length-le_bytes : (count n : ℕ) → length (le_bytes count n) ≡ count
unfolding le_bytes
length-le_bytes zero n = refl
length-le_bytes (suc count) n = ap suc (length-le_bytes count (n / 256))

pub le_bytes-IsByte : (count n : ℕ) → All IsByte (le_bytes count n)
unfolding le_bytes
le_bytes-IsByte zero n = tt
le_bytes-IsByte (suc count) n = (omega arith, le_bytes-IsByte count (n / 256))

pub power_of_byte : (count : ℕ) → 2 ^ (suc count * 8) ≡ 256 * 2 ^ (count * 8)
power_of_byte count =
    let eight : suc count * 8 ≡ suc (suc (suc (suc (suc (suc (suc (suc (count * 8)))))))) =
      omega arith in
    rw eight (simp pow-suc (omega arith))

pub decode-le_bytes :
    (count n : ℕ) → n < 2 ^ (count * 8) → decode_unsigned_integer (le_bytes count n) ≡ n
unfolding le_bytes decode_unsigned_integer
decode-le_bytes zero n h = omega arith
decode-le_bytes (suc count) n h =
    omega (arith, decode-le_bytes count (n / 256) (omega (arith, power_of_byte count)))

pub decode_unsigned_lt :
    (bs : List ℕ) → All IsByte bs → decode_unsigned_integer bs < 2 ^ (length bs * 8)
unfolding decode_unsigned_integer
decode_unsigned_lt [] h = omega arith
decode_unsigned_lt (b ∷ bs) (p, h) =
    omega (arith, decode_unsigned_lt bs h, power_of_byte (length bs))

le_bytes-decode :
    (bs : List ℕ) → All IsByte bs → le_bytes (length bs) (decode_unsigned_integer bs) ≡ bs
unfolding le_bytes decode_unsigned_integer
le_bytes-decode [] h = refl
le_bytes-decode (b ∷ bs) (p, h) =
    let low : (decode_unsigned_integer bs * 256 + b) % 256 ≡ b = omega arith in
    let high : (decode_unsigned_integer bs * 256 + b) / 256 ≡ decode_unsigned_integer bs =
      omega arith in
    cc (low, high, le_bytes-decode bs h)

-- A number is encoded to exactly those bytes, of the given count, that decode to it.
pub encode_unsigned_iff :
    (n count : ℕ) (bs : List ℕ)
    → (encode_unsigned (pos n) count ≡ ok bs)
      ↔ ((length bs ≡ count) × All IsByte bs × (decode_unsigned_integer bs ≡ n))
unfolding encode_unsigned
encode_unsigned_iff n count bs = (
  λ e. elim (Bool-cases (ltb n (2 ^ (count * 8)))) [
    | inl t ↦
        let same : le_bytes count n ≡ bs = ground arith in
        (
          subst (λ t. length t ≡ count) same (length-le_bytes count n),
          subst (All IsByte) same (le_bytes-IsByte count n),
          subst (λ t. decode_unsigned_integer t ≡ n) same (decode-le_bytes count n (ground arith)),
        )
    | inr t ↦ absurd (ground arith)
  ],
  λ (sized, low, same).
      let fits : n < 2 ^ (count * 8) =
        subst (λ t. t < 2 ^ (count * 8)) same
          (subst (λ t. decode_unsigned_integer bs < 2 ^ (t * 8)) sized
            (decode_unsigned_lt bs low)) in
      let back : le_bytes count n ≡ bs =
        subst (λ t. le_bytes t n ≡ bs) sized
          (subst (λ t. le_bytes (length bs) t ≡ bs) same (le_bytes-decode bs low)) in
      ground arith,
)
