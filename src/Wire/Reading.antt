-- ===== src/Wire/Reading.antt =====
-- `BinaryReader.readBytes`: what it returns and where it leaves the reader.
use chancery_integration_exa.Common.{
  ℕ, zero, suc, ◌+◌, ◌≤◌, ◌≡◌, refl, sym, ap, ◌∙◌, arith, List, [], ◌∷◌, ◌++◌, length, take, drop,
  ok, length-append, length-take, length-drop, take-append-drop, take-length_append,
  drop-length_append,
}
use native.Mathlib.Nat.{zero-add, suc-add}
use chancery_integration_exa.Wire.{Reader, read_bytes}

-- The reader is inside its input, and `xs` is what it has not read.
abbrev pub At : Reader → List ℕ → Type 0
At r xs = (r.offset ≤ length r.input) × (drop r.offset r.input ≡ xs)

abbrev pub advance : ℕ → Reader → Reader
advance n r = record r { offset = r.offset + n }

drop-nil : (n : ℕ) → drop {A = ℕ} n [] ≡ []
drop-nil zero = refl
drop-nil (suc n) = refl

pub drop-drop : (m n : ℕ) (xs : List ℕ) → drop (m + n) xs ≡ drop n (drop m xs)
drop-drop zero n xs = rw zero-add
drop-drop (suc m) n [] = drop-nil (suc m + n) ∙ sym (drop-nil n)
drop-drop (suc m) n (x ∷ xs) = rw suc-add (drop-drop m n xs)

pub At-length : (r : Reader) (xs : List ℕ) → At r xs → length r.input ≡ r.offset + length xs
At-length r xs (inside, left) = omega (arith, length-drop r.offset r.input, ap (λ t. length t) left)

pub read_bytes_takes :
    (n : ℕ) (r : Reader) (xs ys : List ℕ)
    → At r (xs ++ ys)
    → length xs ≡ n
    → (read_bytes n r ≡ ok (xs, advance n r)) × At (advance n r) ys
unfolding read_bytes
read_bytes_takes n r xs ys h sized = (
  ground (arith, At-length r (xs ++ ys) h, length-append xs ys, taken),
  (
    omega (arith, At-length r (xs ++ ys) h, length-append xs ys),
    drop-drop r.offset n r.input ∙ rw (h.1, ← sized) (drop-length_append xs ys),
  ),
)
  where
    taken : take n (drop r.offset r.input) ≡ xs
    taken = rw (h.1, ← sized) (take-length_append xs ys)

pub read_bytes_inv :
    (n : ℕ) (r : Reader) (xs bs : List ℕ) (r' : Reader)
    → At r xs
    → read_bytes n r ≡ ok (bs, r')
    → (rest : List ℕ) × (xs ≡ bs ++ rest) × (length bs ≡ n) × At r' rest
unfolding read_bytes
read_bytes_inv n r xs bs r' h e =
    let (enough, same, moved) = facts in
    (
      drop n xs,
      rw (same, h.1) (sym (take-append-drop n xs)),
      rw (same, h.1, length-take) (omega (arith, At-length r xs h)),
      rw (moved) (omega arith, drop-drop r.offset n r.input ∙ rw (h.1)),
    )
  where
    facts :
        (r.offset + n ≤ length r.input) × (bs ≡ take n (drop r.offset r.input)) × (r' ≡ advance n r)
    facts = (ground arith, ground arith, ground arith)
