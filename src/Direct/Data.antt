-- ===== src/Direct/Data.antt =====
-- integration/typescript/src/direct_settlement.ts: the bytes of a built instruction.
use mathlib.Core.Path.{subst}
use chancery_integration_exa.Common.{
  ℕ, ◌+◌, ◌*◌, ◌^◌, ◌<◌, ◌≡◌, refl, sym, ap, ◌∙◌, arith, ltb, ◌==◌, ==_iff, Bool, true, false, not,
  ◌&&◌, ◌||◌, some, List, [], ◌∷◌, ◌++◌, length, take, drop, ok, ◌>>=◌, or_throw, >>=-eq-ok,
  guard-eq-ok, ok-injective, or_throw-eq-ok, length-append, take-length_append, drop-length_append,
  not_an_integer, Option-cases, inl, inr,
}
use chancery_integration_exa.Base58.{Text}
use chancery_integration_exa.Values.{hex_pairs, hex_digit, unsigned_decimal}
use chancery_integration_exa.Wire.{le_bytes, decode_unsigned_integer}
use chancery_integration_exa.Wire.Integers.{length-le_bytes, decode-le_bytes}
use chancery_integration_exa.Wire.Reading.{drop-drop}
use chancery_integration_exa.Direct.{
  parse_pathway_id, without_prefix, parse_unsigned_u64, encode_direct_settlement_data,
}

length-hex_pairs :
    (digits bytes : List ℕ) → hex_pairs digits ≡ ok bytes → length digits ≡ 2 * length bytes
unfolding hex_pairs
length-hex_pairs [] bytes h = let none_left : [] ≡ bytes = ok-injective h in rw (← none_left) refl
length-hex_pairs (c ∷ []) bytes h = absurd (cc)
length-hex_pairs (c ∷ (d ∷ digits)) bytes h = elim (Option-cases (hex_digit c)) [
  | inl e ↦ absurd (cc)
  | inr (high, e) ↦ elim (Option-cases (hex_digit d)) [
    | inl e' ↦ absurd (cc)
    | inr (low, e') ↦
        let opened : (hex_pairs digits >>= λ more. ok ((high * 16 + low) ∷ more)) ≡ ok bytes = cc in
        let (more, e2, h2) = >>=-eq-ok (hex_pairs digits) _ opened in
        let all = ok-injective h2 in rw (← all) (omega (arith, length-hex_pairs digits more e2))
  ]
]

parse_pathway_id-length :
    (pathway_id : Text) (bytes : List ℕ)
    → parse_pathway_id pathway_id ≡ ok bytes
    → length bytes ≡ 32
unfolding parse_pathway_id
parse_pathway_id-length pathway_id bytes h =
    let (sized, read) = guard-eq-ok (length (without_prefix pathway_id) == 64) _ _ h in
    omega (
      arith,
      (==_iff (length (without_prefix pathway_id)) 64).0 sized,
      length-hex_pairs (without_prefix pathway_id) bytes read,
    )

parse_unsigned_u64_lem :
    (value : Text) (allow_zero : Bool) (n : ℕ)
    → parse_unsigned_u64 value allow_zero ≡ ok n
    → (unsigned_decimal value ≡ some n) × (n < 2 ^ 64) × ((not allow_zero && n == 0) ≡ false)
unfolding parse_unsigned_u64
parse_unsigned_u64_lem value allow_zero n h =
    let (parsed, e1, h1) = >>=-eq-ok (or_throw not_an_integer (unsigned_decimal value)) _ h in
    let (low, h2) =
      guard-eq-ok (not ((not allow_zero && parsed == 0) || not (ltb parsed (2 ^ 64)))) _ _ h1 in
    let same = ok-injective h2 in
    let (nonzero, small) = split (not allow_zero && parsed == 0) (ltb parsed (2 ^ 64)) low in
    rw (← same) (or_throw-eq-ok not_an_integer _ e1, ground arith, nonzero)
  where
    split : (a b : Bool) → not (a || not b) ≡ true → (a ≡ false) × (b ≡ true)
    split true b e = absurd (cc)
    split false true e = (refl, refl)
    split false false e = absurd (cc)

-- The data of a direct settlement, byte range by byte range.
abbrev pub IsSettlementData : List ℕ → Text → Text → Text → List ℕ → Type 0
IsSettlementData discriminator pathway_id amount minimum_output bytes =
    (length bytes ≡ 50)
    × (take 2 bytes ≡ discriminator)
    × (parse_pathway_id pathway_id ≡ ok (take 32 (drop 2 bytes)))
    × (unsigned_decimal amount ≡ some (decode_unsigned_integer (take 8 (drop 34 bytes))))
    × (0 < decode_unsigned_integer (take 8 (drop 34 bytes)))
    × (unsigned_decimal minimum_output ≡ some (decode_unsigned_integer (drop 42 bytes)))

take_of : (n : ℕ) (xs ys : List ℕ) → length xs ≡ n → take n (xs ++ ys) ≡ xs
take_of n xs ys sized = rw (← sized) (take-length_append xs ys)

drop_of : (n : ℕ) (xs ys : List ℕ) → length xs ≡ n → drop n (xs ++ ys) ≡ ys
drop_of n xs ys sized = rw (← sized) (drop-length_append xs ys)

-- Four ranges laid end to end.
ranges :
    (a b c d : List ℕ)
    → length a ≡ 2
    → length b ≡ 32
    → length c ≡ 8
    → (take 2 (a ++ (b ++ (c ++ d))) ≡ a)
      × (take 32 (drop 2 (a ++ (b ++ (c ++ d)))) ≡ b)
      × (take 8 (drop 34 (a ++ (b ++ (c ++ d)))) ≡ c)
      × (drop 42 (a ++ (b ++ (c ++ d))) ≡ d)
ranges a b c d ha hb hc =
    let first = drop_of 2 a (b ++ (c ++ d)) ha in
    let second : drop 34 (a ++ (b ++ (c ++ d))) ≡ c ++ d =
      drop-drop 2 32 (a ++ (b ++ (c ++ d)))
      ∙ (ap (λ (t : List ℕ). drop 32 t) first ∙ drop_of 32 b (c ++ d) hb) in
    let third : drop 42 (a ++ (b ++ (c ++ d))) ≡ d =
      drop-drop 34 8 (a ++ (b ++ (c ++ d)))
      ∙ (ap (λ (t : List ℕ). drop 8 t) second ∙ drop_of 8 c d hc) in
    (
      take_of 2 a (b ++ (c ++ d)) ha,
      ap (λ (t : List ℕ). take 32 t) first ∙ take_of 32 b (c ++ d) hb,
      ap (λ (t : List ℕ). take 8 t) second ∙ take_of 8 c d hc,
      third,
    )

pub data-IsSettlementData :
    (discriminator : List ℕ) (pathway_id amount minimum_output : Text) (bytes : List ℕ)
    → length discriminator ≡ 2
    → encode_direct_settlement_data discriminator pathway_id amount minimum_output ≡ ok bytes
    → IsSettlementData discriminator pathway_id amount minimum_output bytes
unfolding encode_direct_settlement_data
data-IsSettlementData discriminator pathway_id amount minimum_output bytes two h =
    let (pathway, e1, h1) = >>=-eq-ok (parse_pathway_id pathway_id) _ h in
    let (input, e2, h2) = >>=-eq-ok (parse_unsigned_u64 amount false) _ h1 in
    let (output, e3, h3) = >>=-eq-ok (parse_unsigned_u64 minimum_output true) _ h2 in
    let all = ok-injective h3 in
    let (shown, small, nonzero) = parse_unsigned_u64_lem amount false input e2 in
    let (shown', small', any) = parse_unsigned_u64_lem minimum_output true output e3 in
    let sized = parse_pathway_id-length pathway_id pathway e1 in
    let back : decode_unsigned_integer (le_bytes 8 input) ≡ input = decode-le_bytes 8 input small in
    let back' : decode_unsigned_integer (le_bytes 8 output) ≡ output =
      decode-le_bytes 8 output small' in
    let positive : 0 < input = not_zero input nonzero in
    let (r1, r2, r3, r4) =
      ranges discriminator pathway (le_bytes 8 input) (le_bytes 8 output) two sized
        (length-le_bytes 8 input) in
    subst (IsSettlementData discriminator pathway_id amount minimum_output) all (
      whole_length discriminator pathway input output two sized,
      r1,
      e1 ∙ ap ok (sym r2),
      shown ∙ ap some (sym back ∙ ap (λ (t : List ℕ). decode_unsigned_integer t) (sym r3)),
      subst (λ n. 0 < n) (sym back ∙ ap (λ (t : List ℕ). decode_unsigned_integer t) (sym r3))
          positive,
      shown' ∙ ap some (sym back' ∙ ap (λ (t : List ℕ). decode_unsigned_integer t) (sym r4)),
    )
  where
    not_zero : (n : ℕ) → (true && n == 0) ≡ false → 0 < n
    not_zero n e = ground arith

    whole_length :
        (a b : List ℕ) (x y : ℕ)
        → length a ≡ 2
        → length b ≡ 32
        → length (a ++ (b ++ (le_bytes 8 x ++ le_bytes 8 y))) ≡ 50
    whole_length a b x y ha hb = omega (
      arith,
      length-append a (b ++ (le_bytes 8 x ++ le_bytes 8 y)),
      length-append b (le_bytes 8 x ++ le_bytes 8 y),
      length-append (le_bytes 8 x) (le_bytes 8 y),
      length-le_bytes 8 x,
      length-le_bytes 8 y,
    )
