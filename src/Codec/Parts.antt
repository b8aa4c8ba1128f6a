-- ===== src/Codec/Parts.antt =====
-- Options, arrays and vectors satisfy both laws if their items do.
use chancery_integration_exa.Common.{
  ℕ, zero, suc, ◌≡◌, refl, sym, ap, ◌∙◌, arith, List, [], ◌∷◌, ◌++◌, ok, All, Bool, true, false,
  if◌then◌else◌, inl, inr, >>=-eq-ok, Bool-cases, invalid_option_tag,
}
use mathlib.Core.Path.{subst}
use mathlib.Core.List.{append_assoc}
use chancery_integration_exa.Base58.{IsByte}
use chancery_integration_exa.Values.{Value, null, array, Items, nil, cons, array_from_value}
use chancery_integration_exa.Wire.{Reader, Decoder}
use chancery_integration_exa.Wire.Reading.{At, advance}
use chancery_integration_exa.Codec.{
  is_absent, encode_option, decode_option, decode_tag, item_total, encode_items, decode_items,
  encode_array, decode_array,
}
use chancery_integration_exa.Codec.Laws.{Encoder, Reads, Accepts, IsByte-append_right}
use chancery_integration_exa.Codec.Primitives.{tag, decode_tag_inv, decode_tag_takes}

-- The decoder returns neither `null` nor `undefined`.
abbrev pub IsPresent : Decoder → Type 0
IsPresent decode =
    (r : Reader) (v : Value) (r' : Reader) → decode r ≡ ok (v, r') → is_absent v ≡ false

module _ (encode : Encoder) (decode : Decoder) where
  null_back : (v : Value) → null ≡ v → encode_option encode v ≡ ok (0 ∷ [])
  unfolding encode_option is_absent
  null_back v e = rw (← e)

  pub option_Reads :
      IsPresent decode → Reads encode decode → Reads (encode_option encode) (decode_option decode)
  unfolding decode_option
  option_Reads solid item r xs v r' h low e =
      let ((b, next), read, shown) = >>=-eq-ok (decode_tag invalid_option_tag r) _ e in
      let (rest, split, left) = decode_tag_inv invalid_option_tag r xs b next h read in
      by_tag b next rest split left shown
    where
      by_tag :
          (b : Bool) (next : Reader) (rest : List ℕ)
          → xs ≡ tag b ∷ rest
          → At next rest
          → (if b then decode next else ok (null, next)) ≡ ok (v, r')
          → (used : List ℕ) × (rest : List ℕ) × (xs ≡ used ++ rest)
            × At r' rest
            × (encode_option encode v ≡ ok used)
      by_tag false next rest split left shown =
          (0 ∷ [], rest, split, subst (λ t. At t rest) (cc shown) left, null_back v (cc shown))
      by_tag true next rest split left shown =
          let (used, after, rest_split, stopped, back) =
            item next rest v r' left (subst (All IsByte) split low).1 shown in
          (
            1 ∷ used,
            after,
            split ∙ ap (λ t. 1 ∷ t) rest_split,
            stopped,
            unfold encode_option in rw (solid next v r' shown, back),
          )

  pub option_Accepts : Accepts encode decode → Accepts (encode_option encode) (decode_option decode)
  unfolding decode_option encode_option
  option_Accepts item r v bs rest e h = elim (Bool-cases (is_absent v)) [
    | inl gone ↦
        let same : bs ≡ 0 ∷ [] = ground arith in
        let (read, left) =
          decode_tag_takes invalid_option_tag r false rest (subst (λ t. At r (t ++ rest)) same h) in
        (null, advance 1 r, rw read, left)
    | inr here ↦
        let (part, made, shown) = >>=-eq-ok (encode v) _ (rw (here, encode_option) at e) in
        let same : bs ≡ 1 ∷ part = cc shown in
        let (read, left) =
          decode_tag_takes invalid_option_tag r true (part ++ rest)
            (subst (λ t. At r (t ++ rest)) same h) in
        let (v', r', decoded, stopped) = item (advance 1 r) v part rest made left in
        (v', r', rw read decoded, stopped)
  ]

  pub items_Reads :
      Reads encode decode
      → (n : ℕ) (r : Reader) (xs : List ℕ) (vs : Items) (r' : Reader) → At r xs
      → All IsByte xs
      → decode_items decode n r ≡ ok (vs, r')
      → (used : List ℕ) × (rest : List ℕ) × (xs ≡ used ++ rest)
        × At r' rest
        × (encode_items encode vs ≡ ok used)
        × (item_total vs ≡ n)
  unfolding decode_items encode_items item_total
  items_Reads item zero r xs nil r' h low e =
      ([], xs, refl, subst (λ t. At t xs) (cc e) h, refl, refl)
  items_Reads item zero r xs (cons v vs) r' h low e = absurd (cc e)
  items_Reads item (suc n) r xs ws r' h low e =
      let ((v, next), first, more) = >>=-eq-ok (decode r) _ e in
      let ((vs, last), others, shown) = >>=-eq-ok (decode_items decode n next) _ more in
      let (used, rest, split, left, back) = item r xs v next h low first in
      let same : cons v vs ≡ ws = cc shown in
      let moved : last ≡ r' = cc shown in
      let (used', rest', split', left', back', total) =
        items_Reads item n next rest vs last left
          (IsByte-append_right used rest (subst (All IsByte) split low)) others in
      (
        used ++ used',
        rest',
        split ∙ ap (λ t. used ++ t) split' ∙ sym (append_assoc used used' rest'),
        subst (λ t. At t rest') moved left',
        subst (λ t. encode_items encode t ≡ ok (used ++ used')) same (rw (back, back')),
        subst (λ t. item_total t ≡ suc n) same (ap suc total),
      )

  pub items_Accepts :
      Accepts encode decode
      → (r : Reader) (vs : Items) (bs rest : List ℕ) → encode_items encode vs ≡ ok bs
      → At r (bs ++ rest)
      → (vs' : Items) × (r' : Reader) × (decode_items decode (item_total vs) r ≡ ok (vs', r'))
        × At r' rest
  unfolding decode_items encode_items item_total
  items_Accepts item r nil bs rest e h =
      let same : bs ≡ [] = cc e in (nil, r, refl, subst (λ t. At r (t ++ rest)) same h)
  items_Accepts item r (cons v vs) bs rest e h =
      let (part, first, more) = >>=-eq-ok (encode v) _ e in
      let (parts, others, shown) = >>=-eq-ok (encode_items encode vs) _ more in
      let same : bs ≡ part ++ parts = cc shown in
      let start : At r (part ++ (parts ++ rest)) =
        subst (At r) (ap (λ t. t ++ rest) same ∙ append_assoc part parts rest) h in
      let (v', next, decoded, left) = item r v part (parts ++ rest) first start in
      let (vs', r', decoded', stopped) = items_Accepts item next vs parts rest others left in
      (cons v' vs', r', rw (decoded, decoded'), stopped)

  pub array_back :
      (vs : Items) (n : ℕ) (used : List ℕ)
      → encode_items encode vs ≡ ok used
      → item_total vs ≡ n
      → encode_array encode n (array vs) ≡ ok used
  unfolding encode_array array_from_value
  array_back vs n used back total = ground arith

  pub array_Reads :
      Reads encode decode → (n : ℕ) → Reads (encode_array encode n) (decode_array decode n)
  unfolding decode_array
  array_Reads item n r xs v r' h low e =
      let ((vs, next), read, shown) = >>=-eq-ok (decode_items decode n r) _ e in
      let (used, rest, split, left, back, total) = items_Reads item n r xs vs next h low read in
      let same : array vs ≡ v = cc shown in
      let moved : next ≡ r' = cc shown in
      (
        used,
        rest,
        split,
        subst (λ t. At t rest) moved left,
        subst (λ t. encode_array encode n t ≡ ok used) same (array_back vs n used back total),
      )

  array_parts :
      (n : ℕ) (v : Value) (bs : List ℕ)
      → encode_array encode n v ≡ ok bs
      → (vs : Items) × (encode_items encode vs ≡ ok bs) × (item_total vs ≡ n)
  unfolding encode_array array_from_value
  array_parts n (array vs) bs e = (vs, ground arith, ground arith)
  array_parts n _ bs e = absurd (cc)

  pub array_Accepts :
      Accepts encode decode → (n : ℕ) → Accepts (encode_array encode n) (decode_array decode n)
  unfolding decode_array
  array_Accepts item n r v bs rest e h =
      let (vs, made, total) = array_parts n v bs e in
      let (vs', r', decoded, left) = items_Accepts item r vs bs rest made h in
      let counted : decode_items decode n r ≡ ok (vs', r') =
        subst (λ t. decode_items decode t r ≡ ok (vs', r')) total decoded in
      (array vs', r', rw counted, left)
