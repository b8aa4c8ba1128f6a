-- ===== src/Base58/Letters.antt =====
-- The base58 alphabet and its index table are inverse, and how leading characters are split off.
use chancery_integration_exa.Common.{
  ℕ, zero, suc, ◌<◌, ◌≡◌, refl, ap, arith, ◌==◌, ==_iff, Bool, true, false, ◌&&◌, none, some, List,
  [], ◌∷◌, ◌++◌, length, get_elem?, drop, replicate, All, ok, inl, inr, ◌∙◌, Bool-cases,
  Option-cases,
}
use chancery_integration_exa.Common.Radix.{rebase, multiply_add}
use chancery_integration_exa.Base58.{
  base58_alphabet, alphabet_index, leading_count, letters, decode_characters,
}

-- A test of every number below a bound, by running it.
passes_below : (ℕ → Bool) → ℕ → Bool
passes_below test zero = true
passes_below test (suc bound) = passes_below test bound && test bound

passes_below_lem :
    (test : ℕ → Bool) (bound c : ℕ) → c < bound → passes_below test bound ≡ true → test c ≡ true
unfolding passes_below
passes_below_lem test zero c low passed = absurd (omega (arith, low))
passes_below_lem test (suc bound) c low passed = ground (arith, passes_below_lem test bound c)

-- `d` has a letter, and the letter's index is `d`.
letter_agrees : ℕ → Bool
letter_agrees d = elim (get_elem? base58_alphabet d) [
  | none ↦ false
  | some c ↦ elim (alphabet_index c) [ none ↦ false | some i ↦ i == d ]
]

-- A character with an index is the letter of that index.
index_agrees : ℕ → Bool
index_agrees c = elim (alphabet_index c) [
  | none ↦ true
  | some i ↦ elim (get_elem? base58_alphabet i) [ none ↦ false | some c' ↦ c' == c ]
]

letter_table : passes_below letter_agrees 58 ≡ true
unfolding passes_below letter_agrees base58_alphabet alphabet_index
letter_table = refl

index_table : passes_below index_agrees 128 ≡ true
unfolding passes_below index_agrees base58_alphabet alphabet_index
index_table = refl

get_elem?_lt {ℓ} :
    {A : Type ℓ} (xs : List A) (i : ℕ) {a : A} → get_elem? xs i ≡ some a → i < length xs
get_elem?_lt [] i e = cc
get_elem?_lt (x ∷ xs) zero e = omega arith
get_elem?_lt (x ∷ xs) (suc i) e = omega (arith, get_elem?_lt xs i e)

pub letter_of :
    (d : ℕ)
    → d < 58
    → (c : ℕ) × (get_elem? base58_alphabet d ≡ some c) × (alphabet_index c ≡ some d)
unfolding letter_agrees
letter_of d h = elim (Option-cases (get_elem? base58_alphabet d)) [
  | inl e ↦ absurd (ground (arith, passes_below_lem letter_agrees 58 d h letter_table))
  | inr (c, e) ↦ (c, e, ground (arith, passes_below_lem letter_agrees 58 d h letter_table))
]

index_below : (c i : ℕ) → alphabet_index c ≡ some i → c < 128
unfolding alphabet_index
index_below c i e = ground arith

pub letter_of_index : (c i : ℕ) → alphabet_index c ≡ some i → get_elem? base58_alphabet i ≡ some c
unfolding index_agrees
letter_of_index c i e =
    ground (arith, passes_below_lem index_agrees 128 c (index_below c i e) index_table)

pub index_lt : (c i : ℕ) → alphabet_index c ≡ some i → i < 58
unfolding base58_alphabet
index_lt c i e = get_elem?_lt base58_alphabet i (letter_of_index c i e)

one_is_zero : (d : ℕ) → get_elem? base58_alphabet d ≡ some b'1' → d < 58 → d ≡ 0
one_is_zero d e h =
    let (c, here, back) = letter_of d h in
    let one : alphabet_index b'1' ≡ some 0 = unfold alphabet_index base58_alphabet in refl in
    cc (one, back, e, here)

zero_is_one : get_elem? base58_alphabet 0 ≡ some b'1'
unfolding base58_alphabet
zero_is_one = refl

pub letter_one : (d c : ℕ) → d < 58 → get_elem? base58_alphabet d ≡ some c → (c == b'1') ≡ (d == 0)
letter_one zero c h e = let same : c ≡ b'1' = cc (zero_is_one, e) in ground arith
letter_one (suc d) c h e = elim (Bool-cases (c == b'1')) [
  | inl k ↦
      let same : c ≡ b'1' = (==_iff c b'1').0 k in
      absurd (omega (arith, one_is_zero (suc d) (cc (e, same)) h))
  | inr k ↦ rw k (ground arith)
]

pub zero_index : (c : ℕ) → alphabet_index c ≡ some 0 → c ≡ b'1'
zero_index c e = cc (letter_of_index c 0 e, zero_is_one)

pub letters_cons :
    (d : ℕ) (ds : List ℕ) {c : ℕ}
    → get_elem? base58_alphabet d ≡ some c
    → letters (d ∷ ds) ≡ c ∷ letters ds
unfolding letters
letters_cons d ds e = rw (e, letters)

-- Decoding the letters of digits is rebasing the digits.
pub decode_characters-letters :
    (acc ds : List ℕ)
    → All (λ d. d < 58) ds
    → decode_characters acc (letters ds) ≡ ok (rebase 58 256 acc ds)
unfolding decode_characters rebase
decode_characters-letters acc [] h = unfold letters in refl
decode_characters-letters acc (d ∷ ds) (p, h) =
    let (c, here, back) = letter_of d p in
    rw (letters_cons d ds here, decode_characters, back)
      (decode_characters-letters (multiply_add 58 256 acc d) ds h)

-- Characters that decode are the letters of digits.
pub decode_characters_inv :
    (acc cs bs : List ℕ)
    → decode_characters acc cs ≡ ok bs
    → (ds : List ℕ) × (letters ds ≡ cs) × All (λ d. d < 58) ds × (rebase 58 256 acc ds ≡ bs)
unfolding decode_characters rebase
decode_characters_inv acc [] bs e = ([], unfold letters in refl, tt, cc)
decode_characters_inv acc (c ∷ cs) bs e = elim (Option-cases (alphabet_index c)) [
  | inl k ↦ absurd (cc (rw (k, decode_characters) at e))
  | inr (i, k) ↦
      let (ds, same, low, value) =
        decode_characters_inv (multiply_add 58 256 acc i) cs bs (rw (k, decode_characters) at e) in
      (
        i ∷ ds,
        letters_cons i ds (letter_of_index c i k) ∙ ap (λ t. c ∷ t) same,
        (index_lt c i k, low),
        value,
      )
]

-- Splitting leading characters off.
pub leading_split :
    (x : ℕ) (xs : List ℕ) → replicate (leading_count x xs) x ++ drop (leading_count x xs) xs ≡ xs
unfolding leading_count
leading_split x [] = refl
leading_split x (y ∷ ys) = ground (arith, leading_split x ys)

pub leading_rest : (x : ℕ) (xs : List ℕ) → leading_count x (drop (leading_count x xs) xs) ≡ 0
unfolding leading_count
leading_rest x [] = refl
leading_rest x (y ∷ ys) = elim (Bool-cases (y == x)) [
  | inl e ↦ rw e (leading_rest x ys)
  | inr e ↦ rw e (rw e)
]

pub leading_count-replicate :
    (x n : ℕ) (ys : List ℕ) → leading_count x ys ≡ 0 → leading_count x (replicate n x ++ ys) ≡ n
unfolding leading_count
leading_count-replicate x zero ys h = h
leading_count-replicate x (suc n) ys h = ground (arith, leading_count-replicate x n ys h)

pub drop-replicate : (x n : ℕ) (ys : List ℕ) → drop n (replicate n x ++ ys) ≡ ys
drop-replicate x zero ys = refl
drop-replicate x (suc n) ys = drop-replicate x n ys
