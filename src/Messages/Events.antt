-- ===== src/Messages/Events.antt =====
-- `encodeChanceryEventData` gives back the data that `decodeChanceryEventData` has read.
use Prim.Native.String.{String}
use mathlib.Core.Path.{subst}
use chancery_integration_exa.Common.{
  ℕ, ◌+◌, ◌≡◌, refl, sym, ap, arith, List, [], ◌++◌, length, drop, Result, ok, All, Bool, false,
  if◌then◌else◌, some, or_throw, or_throw-eq-ok, unknown_discriminator, >>=-eq-ok, Bool-cases, inl,
  inr, ltb, length-append, All-drop,
}
use chancery_integration_exa.Base58.{IsByte}
use chancery_integration_exa.Values.{Fields}
use chancery_integration_exa.Codec.RoundTrip.{HasRecords, IsRecord}
use chancery_integration_exa.Messages.{
  MessageSchema, ChancerySchema, begins_with, discriminator_equals, find_schema, find_event_schema,
  get_event_schema, event_payload_offset, decode_payload, decode_chancery_event_data,
  encode_chancery_event_data,
}
use chancery_integration_exa.Messages.Tables.{
  HasDistinctKeys, find_schema_passes, find_schema_All, lookup-find_schema, begins_with_inv,
  discriminator_equals_inv,
}
use chancery_integration_exa.Messages.Payload.{encode_payload-decode_payload}

-- Every event's discriminator has the schema's width, and its struct has distinct field names and no
-- option in an option.
abbrev pub IsEvent : ChancerySchema → String × MessageSchema → Type 0
IsEvent schema entry =
    (length entry.1.discriminator ≡ schema.event_discriminator_bytes) × IsRecord entry.1.fields

-- The data is the prefix, if it begins with it, and what stands from the payload's offset on.
payload_offset_split :
    (schema : ChancerySchema) (input : List ℕ)
    → input
      ≡ (if begins_with input schema.event_cpi_prefix then schema.event_cpi_prefix else [])
        ++ drop (event_payload_offset schema input) input
unfolding event_payload_offset
payload_offset_split schema input = elim (Bool-cases (begins_with input schema.event_cpi_prefix)) [
  | inl t ↦
      let split = begins_with_inv input schema.event_cpi_prefix t in
      let long : ltb (length input) (length schema.event_cpi_prefix) ≡ false = ground (
        arith,
        ap (λ x. length x) split,
        length-append schema.event_cpi_prefix (drop (length schema.event_cpi_prefix) input),
      ) in
      rw (long, t) split
  | inr t ↦ elim (Bool-cases (ltb (length input) (length schema.event_cpi_prefix))) [
    | inl u ↦ rw (t, u) refl
    | inr u ↦ rw (t, u) refl
  ]
]

decode_event_inv :
    (schema : ChancerySchema) (depth : ℕ) (input : List ℕ) (name : String) (values : Fields)
    → decode_chancery_event_data schema depth input ≡ ok (name, values)
    → (a : MessageSchema) × (find_schema
          (λ x. discriminator_equals input (event_payload_offset schema input) x.discriminator)
          schema.events
        ≡ some (name, a))
      × (decode_payload schema.types depth a.fields input
            (event_payload_offset schema input + schema.event_discriminator_bytes)
          ≡ ok values)
unfolding decode_chancery_event_data find_event_schema
decode_event_inv schema depth input name values e =
    let offset = event_payload_offset schema input in
    let ((found, a), here, more) =
      >>=-eq-ok
        (or_throw unknown_discriminator
          (find_schema (λ x. discriminator_equals input offset x.discriminator) schema.events))
        _ e in
    let (final, read, shown) =
      >>=-eq-ok
        (decode_payload schema.types depth a.fields input
          (offset + schema.event_discriminator_bytes))
        _ more in
    let same : final ≡ values = cc shown in
    let key : found ≡ name = cc shown in
    (a, rw (← key) (or_throw-eq-ok unknown_discriminator _ here), rw (← same) read)

-- Encoding a decoded event, with the prefix if the data begins with it, gives back the data, if the
-- schema's event names are distinct, every discriminator has the schema's width, and no option holds
-- an option and each struct's field names are distinct.
pub encode_chancery_event_data-decode_chancery_event_data :
    (atob : List ℕ → Result (List ℕ)) (schema : ChancerySchema) (depth : ℕ) (input : List ℕ)
    (name : String) (values : Fields)
    → HasRecords schema.types
    → HasDistinctKeys schema.events
    → All (IsEvent schema) schema.events
    → All IsByte input
    → decode_chancery_event_data schema depth input ≡ ok (name, values)
    → encode_chancery_event_data atob schema depth name values
        (begins_with input schema.event_cpi_prefix)
      ≡ ok input
unfolding encode_chancery_event_data get_event_schema
encode_chancery_event_data-decode_chancery_event_data atob schema depth input name values records
      keys events low e =
    let (a, found, read) = decode_event_inv schema depth input name values e in
    let offset = event_payload_offset schema input in
    let test : MessageSchema → Bool = λ x. discriminator_equals input offset x.discriminator in
    let (width, record_fields) =
      find_schema_All test (IsEvent schema) schema.events name a events found in
    let (inside, split) =
      discriminator_equals_inv input offset a.discriminator
        (find_schema_passes test schema.events name a found) in
    let payload =
      encode_payload-decode_payload atob schema depth false a.fields input
        (offset + schema.event_discriminator_bytes) values records record_fields
        (All-drop IsByte (offset + schema.event_discriminator_bytes) input low) read in
    let body : a.discriminator ++ drop (offset + schema.event_discriminator_bytes) input
        ≡ drop offset input =
      subst (λ n. a.discriminator ++ drop (offset + n) input ≡ drop offset input) width
        (sym split) in
    rw (lookup-find_schema test schema.events name a keys found, payload, body)
      (ap ok (sym (payload_offset_split schema input)))
