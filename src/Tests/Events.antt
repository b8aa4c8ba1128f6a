-- ===== src/Tests/Events.antt =====
-- A run of an event's data, and its theorem.
use chancery_integration_exa.Common.{ℕ, ◌≡◌, refl, arith, List, [], ◌∷◌, All, ok}
use chancery_integration_exa.Base58.{IsByte}
use chancery_integration_exa.Schema.{get_defined_type_schema, lookup}
use chancery_integration_exa.Wire.{
  new_reader, remaining, decode_with, read_bytes, decode_unsigned_integer,
}
use chancery_integration_exa.Records.{decode_struct, decode_fields, set_field}
use chancery_integration_exa.Codec.{decode_type_in, decode_named, decode_primitive}
use chancery_integration_exa.Messages.{
  MessageSchema, ChancerySchema, begins_with, discriminator_equals, find_schema, find_event_schema,
  event_payload_offset, decode_payload, decode_chancery_event_data, encode_chancery_event_data,
}
use chancery_integration_exa.Messages.Events.{
  IsEvent, encode_chancery_event_data-decode_chancery_event_data,
}
use chancery_integration_exa.Tests.{no_base64, pair_fields, pair_types, pair_records, vault_values}

abbrev moved : MessageSchema
moved = record { discriminator = 6 ∷ (5 ∷ []); fields = pair_fields }

abbrev moved_schema : ChancerySchema
moved_schema = record {
  accounts = [];
  instructions = [];
  events = ("Moved", moved) ∷ [];
  types = pair_types;
  account_discriminator_bytes = 2;
  instruction_discriminator_bytes = 2;
  event_discriminator_bytes = 2;
  event_cpi_prefix = 1 ∷ (0 ∷ []);
}

abbrev moved_bytes : List ℕ
moved_bytes = 1 ∷ (0 ∷ (6 ∷ (5 ∷ (7 ∷ (2 ∷ (1 ∷ []))))))

moved_bytes-IsByte : All IsByte moved_bytes
moved_bytes-IsByte = (
  omega arith,
  (omega arith, (omega arith, (omega arith, (omega arith, (omega arith, (omega arith, tt)))))),
)

moved-IsEvent : All (IsEvent moved_schema) moved_schema.events
moved-IsEvent = ((refl, pair_records.0), tt)

moved_decoded : decode_chancery_event_data moved_schema 1 moved_bytes ≡ ok ("Moved", vault_values)
unfolding decode_chancery_event_data event_payload_offset find_event_schema find_schema
    discriminator_equals begins_with decode_payload new_reader remaining decode_type_in decode_named
    decode_struct decode_fields decode_primitive decode_with read_bytes decode_unsigned_integer
    set_field get_defined_type_schema lookup
moved_decoded = refl

encode_chancery_event_data-decode_chancery_event_data_example :
    encode_chancery_event_data no_base64 moved_schema 1 "Moved" vault_values
      (begins_with moved_bytes (1 ∷ (0 ∷ [])))
    ≡ ok moved_bytes
encode_chancery_event_data-decode_chancery_event_data_example =
    encode_chancery_event_data-decode_chancery_event_data no_base64 moved_schema 1 moved_bytes
      "Moved" vault_values pair_records (tt, tt) moved-IsEvent moved_bytes-IsByte moved_decoded
