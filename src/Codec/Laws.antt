-- ===== src/Codec/Laws.antt =====
-- The two laws that tie an encoder to a decoder, and the codecs of a fixed number of bytes.
use chancery_integration_exa.Common.{
  ℕ, ◌≡◌, List, [], ◌∷◌, ◌++◌, length, Result, ok, All, >>=-eq-ok,
}
use mathlib.Core.Path.{subst}
use chancery_integration_exa.Base58.{IsByte}
use chancery_integration_exa.Values.{Value}
use chancery_integration_exa.Wire.{Reader, read_bytes, Decoder, decode_with}
use chancery_integration_exa.Wire.Reading.{At, advance, read_bytes_takes, read_bytes_inv}

abbrev pub Encoder : Type 0
Encoder = Value → Result (List ℕ)

-- Encoding what was decoded gives the bytes that were read.
abbrev pub Reads : Encoder → Decoder → Type 0
Reads encode decode =
    (r : Reader) (xs : List ℕ) (v : Value) (r' : Reader)
    → At r xs
    → All IsByte xs
    → decode r ≡ ok (v, r')
    → (used : List ℕ) × (rest : List ℕ) × (xs ≡ used ++ rest) × At r' rest × (encode v ≡ ok used)

-- What was encoded is decoded, and the reader stops behind it.
abbrev pub Accepts : Encoder → Decoder → Type 0
Accepts encode decode =
    (r : Reader) (v : Value) (bs rest : List ℕ)
    → encode v ≡ ok bs
    → At r (bs ++ rest)
    → (v' : Value) × (r' : Reader) × (decode r ≡ ok (v', r')) × At r' rest

pub IsByte-append_left : (xs ys : List ℕ) → All IsByte (xs ++ ys) → All IsByte xs
IsByte-append_left [] ys h = tt
IsByte-append_left (x ∷ xs) ys (p, h) = (p, IsByte-append_left xs ys h)

pub IsByte-append_right : (xs ys : List ℕ) → All IsByte (xs ++ ys) → All IsByte ys
IsByte-append_right [] ys h = h
IsByte-append_right (x ∷ xs) ys (p, h) = IsByte-append_right xs ys h

module _ (encode : Encoder) (count : ℕ) (view : List ℕ → Value) where
  pub decode_with-Reads :
      ((bs : List ℕ) → length bs ≡ count → All IsByte bs → encode (view bs) ≡ ok bs)
      → Reads encode (decode_with count view)
  unfolding decode_with
  decode_with-Reads back r xs v r' h low e =
      let ((bs, next), read, shown) = >>=-eq-ok (read_bytes count r) _ e in
      let (rest, split, sized, left) = read_bytes_inv count r xs bs next h read in
      (
        bs,
        rest,
        split,
        subst (λ t. At t rest) (cc (shown)) left,
        subst (λ t. encode t ≡ ok bs) (cc (shown))
            (back bs sized (IsByte-append_left bs rest (subst (All IsByte) split low))),
      )

  pub decode_with-Accepts :
      ((v : Value) (bs : List ℕ) → encode v ≡ ok bs → length bs ≡ count)
      → Accepts encode (decode_with count view)
  unfolding decode_with
  decode_with-Accepts sized r v bs rest e h =
      let (read, left) = read_bytes_takes count r bs rest h (sized v bs e) in
      (view bs, advance count r, rw read, left)
