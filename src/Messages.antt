-- ===== src/Messages.antt =====
-- typescript/src/ChanceryAccount.ts, ChanceryInstruction.ts (the data of an instruction) and
-- ChanceryEvent.ts (the data of an event): a discriminator, then the fields of a struct. The schema
-- that the repository generates is an argument.
pub mod Tables
pub mod Payload
pub mod Accounts
pub mod Events
use Prim.Native.String.{String}
use chancery_integration_exa.Common.{
  ℕ, ◌+◌, ◌/◌, ◌%◌, ltb, leb, ◌==◌, if◌then◌else◌, Bool, true, false, not, ◌&&◌, Option, none, some,
  List, [], ◌∷◌, ◌++◌, length, take, drop, Result, ok, err, ◌>>=◌, ◌>>◌, guard, or_throw,
  unknown_account, unknown_instruction, unknown_event, account_size, trailing_bytes,
  short_instruction, unknown_discriminator,
}
use chancery_integration_exa.Values.{Value, Fields, end}
use chancery_integration_exa.Schema.{StructSchema, lookup}
use chancery_integration_exa.Wire.{Reader, new_reader, remaining}
use chancery_integration_exa.Records.{encode_struct, decode_fields}
use chancery_integration_exa.Codec.{encode_type, decode_type, zero_value_for_type}

-- An account of the schema; an instruction and an event have no `size`.
pub record AccountSchema : Type 0 where
  pub size : ℕ
  pub discriminator : List ℕ
  pub fields : StructSchema

pub record MessageSchema : Type 0 where
  pub discriminator : List ℕ
  pub fields : StructSchema

-- `CHANCERY_SCHEMA`, with the widths of `CHANCERY_SCHEMA.wire`
pub record ChancerySchema : Type 0 where
  pub accounts : List (String × AccountSchema)
  pub instructions : List (String × MessageSchema)
  pub events : List (String × MessageSchema)
  pub types : List (String × StructSchema)
  pub account_discriminator_bytes : ℕ
  pub instruction_discriminator_bytes : ℕ
  pub event_discriminator_bytes : ℕ
  pub event_cpi_prefix : List ℕ

-- The loop of `discriminatorEquals`, over the bytes from the offset on.
unfoldable pub begins_with : List ℕ → List ℕ → Bool
begins_with input [] = true
begins_with [] (d ∷ ds) = false
begins_with (x ∷ xs) (d ∷ ds) = if not (x == d) then false else begins_with xs ds

-- `discriminatorEquals(data, offset, discriminator)`; an account's is at offset 0.
unfoldable pub discriminator_equals : List ℕ → ℕ → List ℕ → Bool
discriminator_equals input offset discriminator =
    if ltb (length input) (offset + length discriminator)
    then false
    else begins_with (drop offset input) discriminator

-- The loop of `findAccountSchema`, `findEventSchema` and `instructionByDiscriminator`: the first
-- entry that passes the test.
unfoldable pub find_schema {ℓ} : {A : Type ℓ} → (A → Bool) → List (String × A) → Option (String × A)
find_schema test [] = none
find_schema test ((name, a) ∷ rest) = if test a then some (name, a) else find_schema test rest

unfoldable pub get_account_schema : ChancerySchema → String → Result AccountSchema
get_account_schema schema name = or_throw unknown_account (lookup name schema.accounts)

unfoldable pub get_instruction_schema : ChancerySchema → String → Result MessageSchema
get_instruction_schema schema name = or_throw unknown_instruction (lookup name schema.instructions)

unfoldable pub get_event_schema : ChancerySchema → String → Result MessageSchema
get_event_schema schema name = or_throw unknown_event (lookup name schema.events)

-- `findAccountSchema`
unfoldable pub find_account_schema : ChancerySchema → List ℕ → Result (String × AccountSchema)
find_account_schema schema input =
    or_throw unknown_discriminator
      (find_schema (λ a. discriminator_equals input 0 a.discriminator) schema.accounts)

-- `String(byte)`
unfoldable pub byte_text : ℕ → List ℕ
byte_text n =
    if ltb n 10
    then (48 + n) ∷ []
    else if ltb n 100
    then (48 + n / 10) ∷ (48 + n % 10) ∷ []
    else (48 + n / 100) ∷ (48 + n / 10 % 10) ∷ (48 + n % 10) ∷ []

-- `discriminatorKey`: the bytes in decimal with ":" between them.
unfoldable pub discriminator_key : List ℕ → List ℕ
discriminator_key [] = []
discriminator_key (b ∷ []) = byte_text b
discriminator_key (b ∷ (c ∷ bs)) = byte_text b ++ b':' ∷ discriminator_key (c ∷ bs)

-- Equality of two texts.
unfoldable pub text_equals : List ℕ → List ℕ → Bool
text_equals [] [] = true
text_equals (x ∷ xs) (y ∷ ys) = if x == y then text_equals xs ys else false
text_equals _ _ = false

-- `instructionByDiscriminator`
unfoldable pub instruction_by_discriminator :
    ChancerySchema → List ℕ → Result (String × MessageSchema)
instruction_by_discriminator schema input =
    let actual_key = discriminator_key (take schema.instruction_discriminator_bytes input) in
    guard (not (ltb (length input) schema.instruction_discriminator_bytes)) short_instruction
    >> or_throw unknown_discriminator (
        find_schema (λ a. text_equals (discriminator_key a.discriminator) actual_key)
          schema.instructions)

-- `eventPayloadOffset`
unfoldable pub event_payload_offset : ChancerySchema → List ℕ → ℕ
event_payload_offset schema input =
    if ltb (length input) (length schema.event_cpi_prefix)
    then 0
    else if begins_with input schema.event_cpi_prefix
    then length schema.event_cpi_prefix
    else 0

-- `findEventSchema`
unfoldable pub find_event_schema : ChancerySchema → List ℕ → ℕ → Result (String × MessageSchema)
find_event_schema schema input offset =
    or_throw unknown_discriminator
      (find_schema (λ a. discriminator_equals input offset a.discriminator) schema.events)

-- A reader at the offset, `decodeStruct`, and the check that nothing is left.
unfoldable pub decode_payload :
    List (String × StructSchema) → ℕ → StructSchema → List ℕ → ℕ → Result Fields
decode_payload types depth fields input offset = new_reader input offset >>= λ r.
    decode_fields (decode_type types depth) fields end r >>= λ p.
    guard (remaining p.1 == 0) trailing_bytes >> ok p.0

-- `decodeChanceryAccount`
unfoldable pub decode_chancery_account : ChancerySchema → ℕ → List ℕ → Result (String × Fields)
decode_chancery_account schema depth input = find_account_schema schema input >>= λ found.
    guard (length input == found.1.size) account_size
    >> (decode_payload schema.types depth found.1.fields input schema.account_discriminator_bytes
        >>= λ values. ok (found.0, values))

-- `decodeChanceryInstructionData`
unfoldable pub decode_chancery_instruction_data :
    ChancerySchema → ℕ → List ℕ → Result (String × Fields)
decode_chancery_instruction_data schema depth input =
    instruction_by_discriminator schema input >>= λ found.
    decode_payload schema.types depth found.1.fields input schema.instruction_discriminator_bytes
    >>= λ values. ok (found.0, values)

-- `decodeChanceryEventData`
unfoldable pub decode_chancery_event_data : ChancerySchema → ℕ → List ℕ → Result (String × Fields)
decode_chancery_event_data schema depth input =
    let offset = event_payload_offset schema input in
    find_event_schema schema input offset >>= λ found.
    decode_payload schema.types depth found.1.fields input
      (offset + schema.event_discriminator_bytes)
    >>= λ values. ok (found.0, values)

-- `atob` is the runtime's base64 decoder.
module _ (atob : List ℕ → Result (List ℕ)) (schema : ChancerySchema) (depth : ℕ) where
  unfoldable pub encode_payload : Bool → StructSchema → Fields → Result (List ℕ)
  encode_payload default_missing_padding =
      encode_struct (encode_type atob schema.types depth) (zero_value_for_type schema.types depth)
        default_missing_padding

  -- `encodeChanceryAccount`
  unfoldable pub encode_chancery_account : String → Fields → Result (List ℕ)
  encode_chancery_account name values = do
    a ← get_account_schema schema name
    payload ← encode_payload true a.fields values
    guard (length (a.discriminator ++ payload) == a.size) account_size
    ok (a.discriminator ++ payload)

  -- `encodeChanceryInstructionData`
  unfoldable pub encode_chancery_instruction_data : String → Fields → Result (List ℕ)
  encode_chancery_instruction_data name values = do
    a ← get_instruction_schema schema name
    payload ← encode_payload false a.fields values
    ok (a.discriminator ++ payload)

  -- `encodeChanceryEventData`
  unfoldable pub encode_chancery_event_data : String → Fields → Bool → Result (List ℕ)
  encode_chancery_event_data name values include_cpi_prefix = do
    a ← get_event_schema schema name
    payload ← encode_payload false a.fields values
    ok (
        (if include_cpi_prefix then schema.event_cpi_prefix else [])
        ++ (a.discriminator ++ payload))
