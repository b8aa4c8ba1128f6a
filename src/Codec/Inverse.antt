-- ===== src/Codec/Inverse.antt =====
-- `encodeType` and `decodeType`, seen from a caller.
use Prim.Native.String.{String}
use mathlib.Core.List.{append_cancel_right}
use chancery_integration_exa.Common.{
  ℕ, ◌≤◌, ◌≡◌, refl, sym, ap, ◌∙◌, arith, List, ◌++◌, length, drop, Result, ok, All,
}
use chancery_integration_exa.Base58.{IsByte}
use chancery_integration_exa.Values.{Value}
use chancery_integration_exa.Schema.{TypeSchema, StructSchema}
use chancery_integration_exa.Wire.{Reader}
use chancery_integration_exa.Codec.{encode_type, encode_named, decode_type, decode_named}
use chancery_integration_exa.Codec.RoundTrip.{
  IsPlain, HasRecords, type_Reads, type_Accepts, named_Reads, named-IsPresent, named_Accepts,
}

-- Encoding a value that was decoded gives back exactly the bytes that the decoder consumed, if no
-- option holds an option, each struct's field names are distinct, the reader is inside its input and
-- what is left there is bytes.
pub encode_type-decode_type :
    (atob : List ℕ → Result (List ℕ)) (types : List (String × StructSchema)) (depth : ℕ)
    (t : TypeSchema) (r : Reader) (v : Value) (r' : Reader)
    → HasRecords types
    → IsPlain t
    → r.offset ≤ length r.input
    → All IsByte (drop r.offset r.input)
    → decode_type types depth t r ≡ ok (v, r')
    → (used : List ℕ) × (drop r.offset r.input ≡ used ++ drop r'.offset r'.input)
      × (encode_type atob types depth t v ≡ ok used)
encode_type-decode_type atob types depth t r v r' records plain inside low e =
    let (used, rest, split, (_, left), back) =
      type_Reads atob (encode_named atob types depth) (decode_named types depth)
        (named_Reads atob types records depth) (named-IsPresent types depth) t plain r
        (drop r.offset r.input) v r' (inside, refl) low e in
    (used, split ∙ ap (λ x. used ++ x) (sym left), back)

-- Whatever a value was encoded to is decoded, with what follows left unread, to a value that has
-- the same encoding, under the same conditions on the schema and the bytes.
pub decode_type-encode_type :
    (atob : List ℕ → Result (List ℕ)) (types : List (String × StructSchema)) (depth : ℕ)
    (t : TypeSchema) (v : Value) (bs rest : List ℕ)
    → HasRecords types
    → IsPlain t
    → All IsByte (bs ++ rest)
    → encode_type atob types depth t v ≡ ok bs
    → (v' : Value) × (r' : Reader) × (decode_type types depth t
          (record { input = bs ++ rest; offset = 0 })
        ≡ ok (v', r'))
      × (drop r'.offset r'.input ≡ rest)
      × (encode_type atob types depth t v' ≡ ok bs)
decode_type-encode_type atob types depth t v bs rest records plain low e =
    let start : Reader = record { input = bs ++ rest; offset = 0 } in
    let (v', r', decoded, stopped) =
      type_Accepts atob (encode_named atob types depth) (decode_named types depth)
        (named_Accepts atob types depth) t start v bs rest e (omega arith, refl) in
    let left = stopped.1 in
    let (used, split, back) =
      encode_type-decode_type atob types depth t start v' r' records plain (omega arith) low
        decoded in
    let same : used ≡ bs =
      sym (append_cancel_right bs used rest (split ∙ ap (λ x. used ++ x) left)) in
    (v', r', decoded, left, back ∙ ap ok same)
