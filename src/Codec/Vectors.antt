-- ===== src/Codec/Vectors.antt =====
-- Vectors, byte arrays and byte vectors satisfy both laws.
use chancery_integration_exa.Common.{
  ℕ, ◌≡◌, refl, sym, ap, ◌∙◌, arith, List, ◌++◌, length, Result, ok, All, >>=-eq-ok,
}
use mathlib.Core.Path.{subst}
use mathlib.Core.List.{append_assoc}
use chancery_integration_exa.Common.Int.{pos}
use chancery_integration_exa.Base58.{IsByte}
use chancery_integration_exa.Values.{Value, bytes, array, array_from_value, bytes_from_value}
use chancery_integration_exa.Wire.{
  Reader, read_bytes, Decoder, decode_unsigned_integer, encode_unsigned,
}
use chancery_integration_exa.Wire.Integers.{encode_unsigned_iff}
use chancery_integration_exa.Wire.Reading.{At, advance, read_bytes_takes, read_bytes_inv}
use chancery_integration_exa.Codec.{
  item_total, encode_items, encode_array, encode_vector, decode_count, decode_vector,
  decode_byte_array, decode_byte_vector, encode_byte_array, encode_byte_vector,
}
use chancery_integration_exa.Codec.Laws.{
  Encoder, Reads, Accepts, decode_with-Reads, decode_with-Accepts, IsByte-append_left,
  IsByte-append_right,
}
use chancery_integration_exa.Codec.Parts.{array_back, array_Reads, array_Accepts}

-- The length in front of a vector.
count_inv :
    (r : Reader) (xs : List ℕ) (n : ℕ) (r' : Reader)
    → At r xs
    → All IsByte xs
    → decode_count r ≡ ok (n, r')
    → (count : List ℕ) × (rest : List ℕ) × (xs ≡ count ++ rest)
      × At r' rest
      × (encode_unsigned (pos n) 4 ≡ ok count)
unfolding decode_count
count_inv r xs n r' h low e =
    let ((bs, next), read, shown) = >>=-eq-ok (read_bytes 4 r) _ e in
    let (rest, split, sized, left) = read_bytes_inv 4 r xs bs next h read in
    let moved : next ≡ r' = cc shown in
    let amount : decode_unsigned_integer bs ≡ n = cc shown in
    (
      bs,
      rest,
      split,
      subst (λ t. At t rest) moved left,
      (encode_unsigned_iff n 4 bs).1
          (sized, IsByte-append_left bs rest (subst (All IsByte) split low), amount),
    )

count_takes :
    (r : Reader) (n : ℕ) (count rest : List ℕ)
    → encode_unsigned (pos n) 4 ≡ ok count
    → At r (count ++ rest)
    → (decode_count r ≡ ok (n, advance 4 r)) × At (advance 4 r) rest
unfolding decode_count
count_takes r n count rest e h =
    let (sized, _, amount) = (encode_unsigned_iff n 4 count).0 e in
    let (read, left) = read_bytes_takes 4 r count rest h sized in (rw (read, amount), left)

module _ (encode : Encoder) (decode : Decoder) where
  vector_back :
      (n : ℕ) (v : Value) (count used : List ℕ)
      → encode_unsigned (pos n) 4 ≡ ok count
      → encode_array encode n v ≡ ok used
      → encode_vector encode v ≡ ok (count ++ used)
  unfolding encode_vector encode_array array_from_value
  vector_back n (array vs) count used c e = ground arith
  vector_back n _ count used c e = absurd (cc)

  pub vector_Reads : Reads encode decode → Reads (encode_vector encode) (decode_vector decode)
  unfolding decode_vector
  vector_Reads item r xs v r' h low e =
      let ((n, next), first, more) = >>=-eq-ok (decode_count r) _ e in
      let (count, rest, split, left, counted) = count_inv r xs n next h low first in
      let (used, after, split', stopped, back) =
        array_Reads encode decode item n next rest v r' left
          (IsByte-append_right count rest (subst (All IsByte) split low)) more in
      (
        count ++ used,
        after,
        split ∙ ap (λ t. count ++ t) split' ∙ sym (append_assoc count used after),
        stopped,
        vector_back n v count used counted back,
      )

  vector_parts :
      (v : Value) (bs : List ℕ)
      → encode_vector encode v ≡ ok bs
      → (n : ℕ) × (count : List ℕ) × (used : List ℕ) × (bs ≡ count ++ used)
        × (encode_unsigned (pos n) 4 ≡ ok count)
        × (encode_array encode n v ≡ ok used)
  unfolding encode_vector array_from_value
  vector_parts (array vs) bs e =
      let (count, counted, more) = >>=-eq-ok (encode_unsigned (pos (item_total vs)) 4) _ e in
      let (used, made, shown) = >>=-eq-ok (encode_items encode vs) _ more in
      (item_total vs, count, used, cc shown, counted, array_back encode decode vs _ used made refl)
  vector_parts _ bs e = absurd (cc)

  pub vector_Accepts : Accepts encode decode → Accepts (encode_vector encode) (decode_vector decode)
  unfolding decode_vector
  vector_Accepts item r v bs rest e h =
      let (n, count, used, same, counted, made) = vector_parts v bs e in
      let start : At r (count ++ (used ++ rest)) =
        subst (At r) (ap (λ t. t ++ rest) same ∙ append_assoc count used rest) h in
      let (read, left) = count_takes r n count (used ++ rest) counted start in
      let (v', r', decoded, stopped) =
        array_Accepts encode decode item n (advance 4 r) v used rest made left in
      (v', r', rw read decoded, stopped)

module _ (atob : List ℕ → Result (List ℕ)) where
  byte_array_back :
      (n : ℕ) (bs : List ℕ) → length bs ≡ n → encode_byte_array atob n (bytes bs) ≡ ok bs
  unfolding encode_byte_array bytes_from_value
  byte_array_back n bs sized = ground arith

  byte_array_length :
      (n : ℕ) (v : Value) (bs : List ℕ) → encode_byte_array atob n v ≡ ok bs → length bs ≡ n
  unfolding encode_byte_array
  byte_array_length n v bs e =
      let (key, _, checked) = >>=-eq-ok (bytes_from_value atob v) _ e in ground (arith, checked)

  pub byte_array_Reads : (n : ℕ) → Reads (encode_byte_array atob n) (decode_byte_array n)
  unfolding decode_byte_array
  byte_array_Reads n =
      decode_with-Reads (encode_byte_array atob n) n bytes
        (λ bs sized low. byte_array_back n bs sized)

  pub byte_array_Accepts : (n : ℕ) → Accepts (encode_byte_array atob n) (decode_byte_array n)
  unfolding decode_byte_array
  byte_array_Accepts n =
      decode_with-Accepts (encode_byte_array atob n) n bytes (byte_array_length n)

  byte_vector_parts :
      (v : Value) (bs : List ℕ)
      → encode_byte_vector atob v ≡ ok bs
      → (n : ℕ) × (count : List ℕ) × (used : List ℕ) × (bs ≡ count ++ used)
        × (encode_unsigned (pos n) 4 ≡ ok count)
        × (encode_byte_array atob n v ≡ ok used)
  unfolding encode_byte_vector encode_byte_array
  byte_vector_parts v bs e =
      let (given, found, more) = >>=-eq-ok (bytes_from_value atob v) _ e in
      let (count, counted, shown) = >>=-eq-ok (encode_unsigned (pos (length given)) 4) _ more in
      (length given, count, given, cc shown, counted, ground (arith, found))

  byte_vector_back :
      (n : ℕ) (v : Value) (count used : List ℕ)
      → encode_unsigned (pos n) 4 ≡ ok count
      → encode_byte_array atob n v ≡ ok used
      → encode_byte_vector atob v ≡ ok (count ++ used)
  unfolding encode_byte_vector encode_byte_array
  byte_vector_back n v count used c e =
      let (given, found, checked) = >>=-eq-ok (bytes_from_value atob v) _ e in
      let sized : length given ≡ n = ground (arith, checked) in
      let same : given ≡ used = ground (arith, checked) in
      rw (found, sized, c) (ap (λ t. ok (count ++ t)) same)

  pub byte_vector_Reads : Reads (encode_byte_vector atob) decode_byte_vector
  unfolding decode_byte_vector
  byte_vector_Reads r xs v r' h low e =
      let ((n, next), first, more) = >>=-eq-ok (decode_count r) _ e in
      let (count, rest, split, left, counted) = count_inv r xs n next h low first in
      let (used, after, split', stopped, back) =
        byte_array_Reads n next rest v r' left
          (IsByte-append_right count rest (subst (All IsByte) split low)) more in
      (
        count ++ used,
        after,
        split ∙ ap (λ t. count ++ t) split' ∙ sym (append_assoc count used after),
        stopped,
        byte_vector_back n v count used counted back,
      )

  pub byte_vector_Accepts : Accepts (encode_byte_vector atob) decode_byte_vector
  unfolding decode_byte_vector
  byte_vector_Accepts r v bs rest e h =
      let (n, count, used, same, counted, made) = byte_vector_parts v bs e in
      let start : At r (count ++ (used ++ rest)) =
        subst (At r) (ap (λ t. t ++ rest) same ∙ append_assoc count used rest) h in
      let (read, left) = count_takes r n count (used ++ rest) counted start in
      let (v', r', decoded, stopped) = byte_array_Accepts n (advance 4 r) v used rest made left in
      (v', r', rw read decoded, stopped)
