-- ===== src/Messages/Accounts.antt =====
-- `decodeChanceryAccount` and `encodeChanceryAccount` are inverse.
use Prim.Native.String.{String}
use mathlib.Core.Path.{subst}
use chancery_integration_exa.Common.{
  ℕ, ◌≤◌, ◌≡◌, ◌==◌, refl, sym, ap, ◌∙◌, arith, List, [], ◌++◌, length, drop, Result, ok, All, Bool,
  true, some, guard-eq-ok, or_throw, or_throw-eq-ok, account_size, unknown_discriminator, All-drop,
  >>=-eq-ok, length-append, drop-length_append, All-map,
}
use chancery_integration_exa.Base58.{IsByte}
use chancery_integration_exa.Values.{Fields}
use chancery_integration_exa.Schema.{lookup}
use chancery_integration_exa.Codec.RoundTrip.{HasRecords, IsRecord}
use chancery_integration_exa.Messages.{
  AccountSchema, ChancerySchema, discriminator_equals, find_schema, find_account_schema,
  get_account_schema, decode_payload, encode_payload, decode_chancery_account,
  encode_chancery_account,
}
use chancery_integration_exa.Messages.Tables.{
  HasDistinctKeys, find_schema_passes, find_schema_All, lookup-find_schema, find_schema-lookup,
  discriminator_equals_inv, discriminator_equals_front, found_only, lookup_All,
}
use chancery_integration_exa.Messages.Payload.{
  encode_payload-decode_payload, decode_payload-encode_payload,
}

-- Every account's discriminator has the schema's width, and its struct has distinct field names and
-- no option in an option.
abbrev pub IsAccount : ChancerySchema → String × AccountSchema → Type 0
IsAccount schema entry =
    (length entry.1.discriminator ≡ schema.account_discriminator_bytes) × IsRecord entry.1.fields

decode_account_inv :
    (schema : ChancerySchema) (depth : ℕ) (input : List ℕ) (name : String) (values : Fields)
    → decode_chancery_account schema depth input ≡ ok (name, values)
    → (a : AccountSchema) × (find_schema
          (λ x. discriminator_equals input 0 x.discriminator)
          schema.accounts
        ≡ some (name, a))
      × ((length input == a.size) ≡ true)
      × (decode_payload schema.types depth a.fields input schema.account_discriminator_bytes
          ≡ ok values)
unfolding decode_chancery_account find_account_schema
decode_account_inv schema depth input name values e =
    let ((found, a), here, more) =
      >>=-eq-ok
        (or_throw unknown_discriminator
          (find_schema (λ x. discriminator_equals input 0 x.discriminator) schema.accounts))
        _ e in
    let (sized, more') = guard-eq-ok (length input == a.size) account_size _ more in
    let (final, read, shown) =
      >>=-eq-ok
        (decode_payload schema.types depth a.fields input schema.account_discriminator_bytes) _
        more' in
    let same : final ≡ values = cc shown in
    let key : found ≡ name = cc shown in
    (a, rw (← key) (or_throw-eq-ok unknown_discriminator _ here), sized, rw (← same) read)

-- Encoding a decoded account gives back its bytes, if the schema's account names are distinct, every
-- discriminator has the schema's width, and no option holds an option and each struct's field names
-- are distinct.
pub encode_chancery_account-decode_chancery_account :
    (atob : List ℕ → Result (List ℕ)) (schema : ChancerySchema) (depth : ℕ) (input : List ℕ)
    (name : String) (values : Fields)
    → HasRecords schema.types
    → HasDistinctKeys schema.accounts
    → All (IsAccount schema) schema.accounts
    → All IsByte input
    → decode_chancery_account schema depth input ≡ ok (name, values)
    → encode_chancery_account atob schema depth name values ≡ ok input
unfolding encode_chancery_account get_account_schema
encode_chancery_account-decode_chancery_account atob schema depth input name values records keys
      accounts low e =
    let (a, found, sized, read) = decode_account_inv schema depth input name values e in
    let test : AccountSchema → Bool = λ x. discriminator_equals input 0 x.discriminator in
    let (width, record_fields) =
      find_schema_All test (IsAccount schema) schema.accounts name a accounts found in
    let (inside, split) =
      discriminator_equals_inv input 0 a.discriminator
        (find_schema_passes test schema.accounts name a found) in
    let whole : input ≡ a.discriminator ++ drop schema.account_discriminator_bytes input =
      subst (λ n. input ≡ a.discriminator ++ drop n input) (omega (arith, width)) split in
    let payload =
      encode_payload-decode_payload atob schema depth true a.fields input
        schema.account_discriminator_bytes values records record_fields
        (All-drop IsByte schema.account_discriminator_bytes input low) read in
    rw (lookup-find_schema test schema.accounts name a keys found, payload, ← whole, sized) refl

encode_account_inv :
    (atob : List ℕ → Result (List ℕ)) (schema : ChancerySchema) (depth : ℕ) (name : String)
    (a : AccountSchema) (given : Fields) (bs : List ℕ)
    → lookup name schema.accounts ≡ some a
    → encode_chancery_account atob schema depth name given ≡ ok bs
    → (payload : List ℕ) × (encode_payload atob schema depth true a.fields given ≡ ok payload)
      × ((length bs == a.size) ≡ true)
      × (a.discriminator ++ payload ≡ bs)
unfolding encode_chancery_account get_account_schema
encode_account_inv atob schema depth name a given bs here = rw here (λ e.
    let (payload, made, more) =
      >>=-eq-ok (encode_payload atob schema depth true a.fields given) _ e in
    let (sized, shown) =
      guard-eq-ok (length (a.discriminator ++ payload) == a.size) account_size _ more in
    let whole : a.discriminator ++ payload ≡ bs = cc shown in
    (payload, made, subst (λ t. (length t == a.size) ≡ true) whole sized, whole))

-- An encoded account is decoded under its own name, to values that have the same encoding, if the
-- schema is as above and no account of another name has its discriminator.
pub decode_chancery_account-encode_chancery_account :
    (atob : List ℕ → Result (List ℕ)) (schema : ChancerySchema) (depth : ℕ) (name : String)
    (a : AccountSchema) (given : Fields) (bs : List ℕ)
    → HasRecords schema.types
    → HasDistinctKeys schema.accounts
    → All (IsAccount schema) schema.accounts
    → lookup name schema.accounts ≡ some a
    → All (λ entry. entry.1.discriminator ≡ a.discriminator → entry.0 ≡ name) schema.accounts
    → All IsByte bs
    → encode_chancery_account atob schema depth name given ≡ ok bs
    → (values : Fields) × (decode_chancery_account schema depth bs ≡ ok (name, values))
      × (encode_chancery_account atob schema depth name values ≡ ok bs)
unfolding decode_chancery_account find_account_schema
decode_chancery_account-encode_chancery_account atob schema depth name a given bs records keys
      accounts here alone low e =
    let (width, _) = lookup_All (IsAccount schema) schema.accounts name a accounts here in
    let (payload, made, sized, whole) =
      encode_account_inv atob schema depth name a given bs here e in
    let left : drop schema.account_discriminator_bytes bs ≡ payload =
      rw (← whole, ← width) (drop-length_append a.discriminator payload) in
    let inside : schema.account_discriminator_bytes ≤ length bs =
      omega (arith, width, length-append a.discriminator payload, ap (λ t. length t) whole) in
    let (values, read) =
      decode_payload-encode_payload atob schema depth true a.fields bs
        schema.account_discriminator_bytes given inside (rw left made) in
    let found : find_schema (λ x. discriminator_equals bs 0 x.discriminator) schema.accounts
        ≡ some (name, a) =
      rw (← whole) (
        find_schema-lookup
          (λ x. discriminator_equals (a.discriminator ++ payload) 0 x.discriminator) schema.accounts
          name a here (discriminator_equals_front [] a.discriminator payload)
          (found_only (λ x. x.discriminator) [] a.discriminator payload name schema.accounts
            (All-map (λ entry h. width ∙ sym h.0) schema.accounts accounts) alone)) in
    let decoded : decode_chancery_account schema depth bs ≡ ok (name, values) =
      rw (found, sized, read) refl in
    (
      values,
      decoded,
      encode_chancery_account-decode_chancery_account atob schema depth bs name values records keys
          accounts low decoded,
    )
