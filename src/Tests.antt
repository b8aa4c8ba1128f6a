-- ===== src/Tests.antt =====
-- Runs at concrete inputs, and the theorems applied to them.
pub mod Money
pub mod Events
pub mod Addresses
pub mod Policies
pub mod Keys
pub mod Execution
pub mod Transactions
pub mod Squads
pub mod Client
pub mod Direct
pub mod Oracle
use Prim.Native.String.{String}
use chancery_integration_exa.Common.{
  ℕ, ◌≡◌, ◌≢◌, ◌≤◌, ◌<◌, ◌+◌, ◌*◌, ◌↔◌, ◌⊎◌, refl, ap, ◌∙◌, arith, List, [], ◌∷◌, ◌++◌, All, length,
  drop, replicate, Option, none, some, Bool, true, false, Result, Error, ok, err, invalid_base64,
  on_curve,
}
use chancery_integration_exa.Common.Int.{ℤ, pos, negsuc, pos_part, neg_part, ltb_ℤ}
use chancery_integration_exa.Base58.{IsByte, decode_base58, encode_base58}
use chancery_integration_exa.Values.{
  Value, integer_from_value, is_safe_integer, record_from_value, number, object, Fields, end, field,
}
use chancery_integration_exa.Schema.{
  TypeSchema, primitive, u8, u16, defined, FieldSchema, StructSchema, is_option,
  get_defined_type_schema, lookup,
}
use chancery_integration_exa.Wire.{
  Reader, new_reader, remaining, encode_unsigned_integer, encode_unsigned, le_bytes, decode_with,
  read_bytes, decode_unsigned_integer,
}
use chancery_integration_exa.Codec.{
  decode_type, encode_type, encode_type_in, encode_named, encode_primitive, zero_value_in,
  decode_type_in, decode_named, decode_primitive,
}
use chancery_integration_exa.Records.{
  encode_struct, field_value, get_field, is_undefined, is_padding, decode_struct, decode_fields,
  set_field,
}
use chancery_integration_exa.Messages.{
  AccountSchema, ChancerySchema, find_account_schema, find_schema, discriminator_equals,
  begins_with, decode_payload, encode_payload, get_account_schema, decode_chancery_account,
  encode_chancery_account,
}
use chancery_integration_exa.Messages.Accounts.{
  IsAccount, encode_chancery_account-decode_chancery_account,
  decode_chancery_account-encode_chancery_account,
}
use chancery_integration_exa.Codec.RoundTrip.{HasRecords}
use text.Mathlib.Text.{◌==◌ as str_eq}
use chancery_integration_exa.Codec.Inverse.{decode_type-encode_type, encode_type-decode_type}

abbrev no_base64 : List ℕ → Result (List ℕ)
no_base64 s = err invalid_base64

abbrev pair_fields : StructSchema
pair_fields =
    record { name = "a"; type = primitive u8 } ∷ (record { name = "b"; type = primitive u16 } ∷ [])

abbrev pair_types : List (String × StructSchema)
pair_types = ("Pair", pair_fields) ∷ []

abbrev pair_value : Value
pair_value = object (field "a" (number (pos 7)) (field "b" (number (pos 258)) end))

pub b_a-eq-absurd : (str_eq "b" "a" ≡ true) → ⊥
b_a-eq-absurd e = absurd (cc)

pair_records : HasRecords pair_types
pair_records =
    (((((λ e. b_a-eq-absurd (ap (λ t. str_eq t "a") e ∙ refl)), tt), (tt, tt)), (tt, (tt, tt))), tt)

abbrev reader_at : List ℕ → ℕ → Reader
reader_at input offset = record { input = input; offset = offset }

pair_encoded :
    encode_type no_base64 pair_types 1 (defined "Pair") pair_value ≡ ok (7 ∷ (2 ∷ (1 ∷ [])))
unfolding encode_type_in encode_named encode_struct field_value get_field is_undefined is_padding
    encode_primitive encode_unsigned_integer encode_unsigned integer_from_value is_safe_integer
    le_bytes get_defined_type_schema lookup record_from_value is_option zero_value_in
pair_encoded = refl

pair_decoded :
    decode_type pair_types 1 (defined "Pair") (reader_at (7 ∷ (2 ∷ (1 ∷ (9 ∷ [])))) 0)
    ≡ ok (pair_value, reader_at (7 ∷ (2 ∷ (1 ∷ (9 ∷ [])))) 3)
unfolding decode_type_in decode_named decode_struct decode_fields decode_primitive decode_with
    read_bytes decode_unsigned_integer set_field get_defined_type_schema lookup
pair_decoded = refl

decode_type-encode_type_example :
    (v : Value) × (r : Reader) × (decode_type pair_types 1
        (defined "Pair")
        (reader_at ((7 ∷ (2 ∷ (1 ∷ []))) ++ (9 ∷ [])) 0)
      ≡ ok (v, r))
    × (drop r.offset r.input ≡ 9 ∷ [])
    × (encode_type no_base64 pair_types 1 (defined "Pair") v ≡ ok (7 ∷ (2 ∷ (1 ∷ []))))
decode_type-encode_type_example =
    decode_type-encode_type no_base64 pair_types 1 (defined "Pair") pair_value (7 ∷ (2 ∷ (1 ∷ [])))
      (9 ∷ []) pair_records tt (omega arith, (omega arith, (omega arith, (omega arith, tt))))
      pair_encoded

encode_type-decode_type_example :
    (used : List ℕ) × (drop 0 (7 ∷ (2 ∷ (1 ∷ (9 ∷ []))))
      ≡ used ++ drop 3 (7 ∷ (2 ∷ (1 ∷ (9 ∷ [])))))
    × (encode_type no_base64 pair_types 1 (defined "Pair") pair_value ≡ ok used)
encode_type-decode_type_example =
    encode_type-decode_type no_base64 pair_types 1 (defined "Pair")
      (reader_at (7 ∷ (2 ∷ (1 ∷ (9 ∷ [])))) 0) pair_value (reader_at (7 ∷ (2 ∷ (1 ∷ (9 ∷ [])))) 3)
      pair_records tt (omega arith) (omega arith, (omega arith, (omega arith, (omega arith, tt))))
      pair_decoded

-- One account, of 2 bytes of discriminator and 3 of fields.
abbrev vault : AccountSchema
vault = record { size = 5; discriminator = 4 ∷ (2 ∷ []); fields = pair_fields }

abbrev vault_schema : ChancerySchema
vault_schema = record {
  accounts = ("Vault", vault) ∷ [];
  instructions = [];
  events = [];
  types = pair_types;
  account_discriminator_bytes = 2;
  instruction_discriminator_bytes = 2;
  event_discriminator_bytes = 8;
  event_cpi_prefix = 1 ∷ (0 ∷ []);
}

abbrev vault_bytes : List ℕ
vault_bytes = 4 ∷ (2 ∷ (7 ∷ (2 ∷ (1 ∷ []))))

abbrev vault_values : Fields
vault_values = field "a" (number (pos 7)) (field "b" (number (pos 258)) end)

vault_bytes-IsByte : All IsByte vault_bytes
vault_bytes-IsByte = (omega arith, (omega arith, (omega arith, (omega arith, (omega arith, tt)))))

vault-IsAccount : All (IsAccount vault_schema) vault_schema.accounts
vault-IsAccount = ((refl, pair_records.0), tt)

vault_decoded : decode_chancery_account vault_schema 1 vault_bytes ≡ ok ("Vault", vault_values)
unfolding decode_chancery_account find_account_schema find_schema discriminator_equals begins_with
    decode_payload new_reader remaining decode_type_in decode_named decode_struct decode_fields
    decode_primitive decode_with read_bytes decode_unsigned_integer set_field
    get_defined_type_schema lookup
vault_decoded = refl

vault_encoded :
    encode_chancery_account no_base64 vault_schema 1 "Vault" vault_values ≡ ok vault_bytes
unfolding encode_chancery_account get_account_schema encode_payload encode_type_in encode_named
    encode_struct field_value get_field is_undefined is_padding encode_primitive
    encode_unsigned_integer encode_unsigned integer_from_value is_safe_integer le_bytes
    get_defined_type_schema lookup record_from_value is_option zero_value_in
vault_encoded = refl

vault_looked_up : lookup "Vault" vault_schema.accounts ≡ some vault
unfolding lookup
vault_looked_up = refl

encode_chancery_account-decode_chancery_account_example :
    encode_chancery_account no_base64 vault_schema 1 "Vault" vault_values ≡ ok vault_bytes
encode_chancery_account-decode_chancery_account_example =
    encode_chancery_account-decode_chancery_account no_base64 vault_schema 1 vault_bytes "Vault"
      vault_values pair_records (tt, tt) vault-IsAccount vault_bytes-IsByte vault_decoded

decode_chancery_account-encode_chancery_account_example :
    (values : Fields) × (decode_chancery_account vault_schema 1 vault_bytes ≡ ok ("Vault", values))
    × (encode_chancery_account no_base64 vault_schema 1 "Vault" values ≡ ok vault_bytes)
decode_chancery_account-encode_chancery_account_example =
    decode_chancery_account-encode_chancery_account no_base64 vault_schema 1 "Vault" vault
      vault_values vault_bytes pair_records (tt, tt) vault-IsAccount vault_looked_up
      ((λ same. refl), tt) vault_bytes-IsByte vault_encoded
