-- ===== src/Base58/RoundTrip.antt =====
-- Base58 round trips, both ways, and the texts that decode.
use chancery_integration_exa.Common.{
  ℕ, zero, suc, ◌<◌, ◌≤◌, ◌≡◌, refl, ap, arith, ◌==◌, if◌then◌else◌, List, [], ◌∷◌, ◌++◌, length,
  drop, replicate, All, Result, ok, reverse, sym, ◌∙◌, length-append, length-replicate, All-append,
  All-drop, All-replicate, ◌>>=◌, >>=-eq-ok,
}
use mathlib.Core.Path.{subst}
use mathlib.Core.List.{reverse-reverse, append-nil}
use chancery_integration_exa.Common.Radix.{rebase, Leads, rebase-rebase}
use chancery_integration_exa.Base58.{
  IsByte, leading_count, letters, decode_characters, encode_base58, decode_base58,
}
use chancery_integration_exa.Base58.Letters.{
  letter_of, letter_one, letters_cons, decode_characters-letters, decode_characters_inv,
  leading_split, leading_rest, leading_count-replicate, drop-replicate,
}

-- The digits of a number without leading zeros, in another base.
abbrev big_digits : ℕ → ℕ → List ℕ → List ℕ
big_digits m r [] = []
big_digits m r (x ∷ xs) = reverse (rebase m r (0 ∷ []) (x ∷ xs))

Leads-of_leading_count :
    (b x : ℕ) (xs : List ℕ)
    → leading_count 0 (x ∷ xs) ≡ 0
    → All (λ d. d < b) (x ∷ xs)
    → Leads b (x ∷ xs)
unfolding leading_count
Leads-of_leading_count b zero xs e h = absurd (ground arith)
Leads-of_leading_count b (suc x) xs e (p, h) = (omega arith, p, h)

leading_count_of_Leads : (b : ℕ) (xs : List ℕ) → Leads b xs → leading_count 0 xs ≡ 0
unfolding leading_count
leading_count_of_Leads b [] h = refl
leading_count_of_Leads b (x ∷ xs) h = ground arith

All-of_Leads : (b : ℕ) (xs : List ℕ) → Leads b xs → All (λ d. d < b) xs
All-of_Leads b [] h = tt
All-of_Leads b (x ∷ xs) (p, q, h) = (q, h)

big_digits_of_Leads :
    (m r : ℕ) (xs : List ℕ) → Leads m xs → big_digits m r xs ≡ reverse (rebase m r (0 ∷ []) xs)
big_digits_of_Leads m r [] h = absurd h
big_digits_of_Leads m r (x ∷ xs) h = refl

-- The letters of digits start with `1` exactly as often as the digits start with 0.
leading_count-letters :
    (ds : List ℕ) → All (λ d. d < 58) ds → leading_count b'1' (letters ds) ≡ leading_count 0 ds
unfolding leading_count
leading_count-letters [] h = unfold letters in refl
leading_count-letters (d ∷ ds) (p, h) =
    let (c, here, _) = letter_of d p in
    rw (letters_cons d ds here)
      (rw (leading_count, letter_one d c p here, leading_count-letters ds h))

-- What the encoder does after its test for an empty input, which changes nothing.
abbrev encode_body : List ℕ → List ℕ
encode_body bytes =
    if leading_count 0 bytes == length bytes
    then replicate (leading_count 0 bytes) b'1'
    else replicate (leading_count 0 bytes) b'1'
      ++ letters (reverse (rebase 256 58 (0 ∷ []) (drop (leading_count 0 bytes) bytes)))

encode_base58-body : (bytes : List ℕ) → encode_base58 bytes ≡ encode_body bytes
unfolding encode_base58 leading_count
encode_base58-body [] = refl
encode_base58-body (b ∷ bs) = refl

abbrev decode_body : List ℕ → Result (List ℕ)
decode_body encoded =
    if leading_count b'1' encoded == length encoded
    then ok (replicate (leading_count b'1' encoded) 0)
    else (decode_characters (0 ∷ []) (drop (leading_count b'1' encoded) encoded) >>= λ bytes.
        ok (replicate (leading_count b'1' encoded) 0 ++ reverse bytes))

decode_base58-body : (encoded : List ℕ) → decode_base58 encoded ≡ decode_body encoded
unfolding decode_base58 leading_count
decode_base58-body [] = refl
decode_base58-body (c ∷ cs) = refl

test_all {ℓ} :
    {A : Type ℓ} (n x : ℕ) (t e : A) → (if n == length (replicate n x ++ []) then t else e) ≡ t
test_all n x t e = rw (append-nil, length-replicate) (ground arith)

test_some {ℓ} :
    {A : Type ℓ} (n x y : ℕ) (ys : List ℕ) (t e : A)
    → (if n == length (replicate n x ++ (y ∷ ys)) then t else e) ≡ e
test_some n x y ys t e = rw (length-append, length-replicate) (ground arith)

-- Leading zeros become leading `1`s, and the rest is rebased.
encode_split :
    (n : ℕ) (ys : List ℕ)
    → leading_count 0 ys ≡ 0
    → encode_base58 (replicate n 0 ++ ys) ≡ replicate n b'1' ++ letters (big_digits 256 58 ys)
encode_split n [] h =
    encode_base58-body (replicate n 0 ++ [])
    ∙ rw (leading_count-replicate 0 n [] h)
        (test_all n 0 _ _ ∙ unfold letters in sym (append-nil _))
encode_split n (y ∷ ys) h =
    encode_base58-body (replicate n 0 ++ (y ∷ ys))
    ∙ rw (leading_count-replicate 0 n (y ∷ ys) h, drop-replicate 0 n (y ∷ ys))
        (test_some n 0 y ys _ _)

pub decode_split :
    (n c : ℕ) (cs : List ℕ)
    → leading_count b'1' (c ∷ cs) ≡ 0
    → decode_base58 (replicate n b'1' ++ (c ∷ cs))
      ≡ (decode_characters (0 ∷ []) (c ∷ cs) >>= λ bytes. ok (replicate n 0 ++ reverse bytes))
decode_split n c cs h =
    decode_base58-body (replicate n b'1' ++ (c ∷ cs))
    ∙ rw (leading_count-replicate b'1' n (c ∷ cs) h, drop-replicate b'1' n (c ∷ cs))
        (test_some n b'1' c cs _ _)

pub decode_ones : (n : ℕ) → decode_base58 (replicate n b'1' ++ []) ≡ ok (replicate n 0)
decode_ones n =
    decode_base58-body (replicate n b'1' ++ [])
    ∙ rw (leading_count-replicate b'1' n [] (unfold leading_count in refl)) (test_all n b'1' _ _)

-- Both directions for a number without leading zeros.
digits_back :
    (m r : ℕ) (ys : List ℕ)
    → 2 ≤ m
    → 2 ≤ r
    → leading_count 0 ys ≡ 0
    → All (λ d. d < m) ys
    → (leading_count 0 (big_digits m r ys) ≡ 0)
      × All (λ d. d < r) (big_digits m r ys)
      × (big_digits r m (big_digits m r ys) ≡ ys)
digits_back m r [] hm hr e h = (e, tt, refl)
digits_back m r (y ∷ ys) hm hr e h =
    let (leads, back) = rebase-rebase m r (y ∷ ys) hm hr (Leads-of_leading_count m y ys e h) in
    (
      leading_count_of_Leads r _ leads,
      All-of_Leads r _ leads,
      big_digits_of_Leads r m _ leads ∙ ap reverse back ∙ reverse-reverse (y ∷ ys),
    )

-- The letters of a number without leading zeros decode to that number in base 256.
decode-letters :
    (n : ℕ) (ds : List ℕ)
    → leading_count 0 ds ≡ 0
    → All (λ d. d < 58) ds
    → decode_base58 (replicate n b'1' ++ letters ds) ≡ ok (replicate n 0 ++ big_digits 58 256 ds)
decode-letters n [] e h = unfold letters in (decode_ones n ∙ ap ok (sym (append-nil _)))
decode-letters n (d ∷ ds) e (p, h) =
    let (c, here, _) = letter_of d p in
    let shown : letters (d ∷ ds) ≡ c ∷ letters ds = letters_cons d ds here in
    rw shown (
      decode_split n c (letters ds)
        (subst (λ t. leading_count b'1' t ≡ 0) shown (leading_count-letters (d ∷ ds) (p, h) ∙ e))
      ∙ rw (← shown, decode_characters-letters (0 ∷ []) (d ∷ ds) (p, h)))

-- Decoding what the encoder wrote gives the bytes back, for every list of bytes.
pub decode_base58-encode_base58 :
    (bytes : List ℕ) → All IsByte bytes → decode_base58 (encode_base58 bytes) ≡ ok bytes
decode_base58-encode_base58 bytes h =
    let n = leading_count 0 bytes in
    let rest = drop n bytes in
    let whole : replicate n 0 ++ rest ≡ bytes = leading_split 0 bytes in
    let (e, low, back) =
      digits_back 256 58 rest (omega arith) (omega arith) (leading_rest 0 bytes)
        (All-drop IsByte n bytes h) in
    subst (λ t. decode_base58 (encode_base58 t) ≡ ok t) whole
      (rw (encode_split n rest (leading_rest 0 bytes))
        (decode-letters n (big_digits 256 58 rest) e low ∙ rw back))

IsByte-of_digits : (n : ℕ) (ds : List ℕ) → All IsByte ds → All IsByte (replicate n 0 ++ ds)
IsByte-of_digits n ds h =
    All-append IsByte (replicate n 0) ds (All-replicate IsByte n 0 (omega arith)) h

-- A text that decodes is `1`s and the letters of a number without leading zeros.
decode_shape :
    (s bytes : List ℕ)
    → decode_base58 s ≡ ok bytes
    → (n : ℕ) × (ds : List ℕ) × (leading_count 0 ds ≡ 0)
      × All (λ d. d < 58) ds
      × (replicate n b'1' ++ letters ds ≡ s)
decode_shape s bytes e =
    let n = leading_count b'1' s in
    let rest = drop n s in
    let (ds, same, low) =
      rest_letters (rest) (leading_rest b'1' s)
        (subst (λ t. decode_base58 t ≡ ok bytes) (sym (leading_split b'1' s)) e) in
    (
      n,
      ds,
      sym (leading_count-letters ds low)
          ∙ subst (λ t. leading_count b'1' t ≡ 0) (sym same) (leading_rest b'1' s),
      low,
      ap (λ t. replicate n b'1' ++ t) same ∙ leading_split b'1' s,
    )
  where
    rest_letters :
        (cs : List ℕ)
        → leading_count b'1' cs ≡ 0
        → decode_base58 (replicate (leading_count b'1' s) b'1' ++ cs) ≡ ok bytes
        → (ds : List ℕ) × (letters ds ≡ cs) × All (λ d. d < 58) ds
    rest_letters [] h k = ([], unfold letters in refl, tt)
    rest_letters (c ∷ cs) h k =
        let (bs, decoded, _) =
          >>=-eq-ok (decode_characters (0 ∷ []) (c ∷ cs)) _ (sym (decode_split _ c cs h) ∙ k) in
        let (ds, same, low, _) = decode_characters_inv (0 ∷ []) (c ∷ cs) bs decoded in
        (ds, same, low)

-- A text that decodes, decodes to bytes, and encoding these gives the text back.
pub encode_base58-decode_base58 :
    (s bytes : List ℕ) → decode_base58 s ≡ ok bytes → (encode_base58 bytes ≡ s) × All IsByte bytes
encode_base58-decode_base58 s bytes e =
    let (n, ds, lead, low, whole) = decode_shape s bytes e in
    let (lead', low', back) = digits_back 58 256 ds (omega arith) (omega arith) lead low in
    let decoded : ok (replicate n 0 ++ big_digits 58 256 ds) ≡ ok bytes =
      sym (decode-letters n ds lead low) ∙ (rw whole e) in
    let bytes_are : replicate n 0 ++ big_digits 58 256 ds ≡ bytes = cc in
    (
      subst (λ t. encode_base58 t ≡ s) bytes_are
          (encode_split n (big_digits 58 256 ds) lead' ∙ rw back whole),
      subst (All IsByte) bytes_are (IsByte-of_digits n (big_digits 58 256 ds) low'),
    )
