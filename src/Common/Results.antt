-- ===== src/Common/Results.antt =====
-- Results of code that may throw: `err` names the throw statement that was reached.
use mathlib.Core.Path.{◌≡◌, refl}
use mathlib.Core.Bool.{Bool, true, false}
use mathlib.Core.Option.{Option, none, some}
use mathlib.Core.Logic.{◌⊎◌, inl, inr}

-- One constructor for each `throw new Error(...)` of the modelled code; message texts are left out.
pub data Error : Type 0 where
  invalid_base58_character public_key_length empty_base58 default_public_key : Error
  not_an_integer unsigned_range signed_range invalid_hexadecimal not_a_byte not_bytes : Error
  not_an_object not_an_array not_a_boolean unsupported_primitive byte_count item_count : Error
  field_required unknown_field reader_offset reader_exhausted invalid_boolean_tag : Error
  invalid_option_tag unknown_defined_type invalid_base64 unknown_account unknown_instruction : Error
  unknown_event account_size trailing_bytes short_instruction unknown_discriminator : Error
  rounding_mode negative_amount window_kind no_inverse too_many_seeds seed_length on_curve
        no_address :
      Error
  token_account_size token_state mint_size mint_flag mint_truncated mint_account_type : Error
  duplicate_extension hook_size fee_config_size fee_basis_points trailing_tlv option_tag : Error
  slice_bounds fee_exceeds_amount wrong_mint wrong_owner not_initialized : Error
  short_vector_value no_lookup_table table_length writable_placement readonly_placement : Error
  static_key_count header_count key_count absent_program absent_account signature_length : Error
  table_account_length table_state missing_keypair packet_limit no_signatures : Error
  secret_key_length keypair_suffix seed_mismatch seed_bytes public_key_export : Error
  available_bytes short_vector_range short_vector_encoding message_version not_u8 not_u16 : Error
  too_many_writable_signers too_many_signers too_many_writable_keys total_keys static_program :
      Error
  pathway_id_length account_positions : Error
  no_pathway many_pathways account_index_range payer_key payer_signer duplicate_table missing_table
        table_position placement_table :
      Error
  -- No `throw`: the stack is exhausted by a defined type that holds itself.
  stack_exhausted : Error

pub data Result {ℓ} (A : Type ℓ) : Type ℓ where
  err : Error → Result A
  ok : A → Result A

-- `if (value === undefined) throw`.
abbrev pub or_throw {ℓ} : {A : Type ℓ} → Error → Option A → Result A
or_throw e none = err e
or_throw e (some a) = ok a

infixl 5 ◌>>=◌
abbrev pub ◌>>=◌ {ℓ κ} : {V : Type ℓ} {W : Type κ} → Result V → (V → Result W) → Result W
err thrown >>= next = err thrown
ok v >>= next = next v

-- A chain that returns has returned at its first step.
pub >>=-eq-ok {ℓ κ} :
    {V : Type ℓ} {W : Type κ} (first : Result V) (next : V → Result W) {w : W}
    → (first >>= next) ≡ ok w
    → (v : V) × (first ≡ ok v) × (next v ≡ ok w)
>>=-eq-ok (err thrown) next returned = absurd (cc)
>>=-eq-ok (ok v) next returned = (v, refl, returned)

pub Result-cases {ℓ} :
    {A : Type ℓ} (r : Result A) → ((a : A) × (r ≡ ok a)) ⊎ ((e : Error) × (r ≡ err e))
Result-cases (ok a) = inl (a, refl)
Result-cases (err e) = inr (e, refl)

pub or_throw-eq-ok {ℓ} :
    {A : Type ℓ} (e : Error) (o : Option A) {a : A} → or_throw e o ≡ ok a → o ≡ some a
or_throw-eq-ok e none h = absurd (cc)
or_throw-eq-ok e (some a) h = cc

-- `if (!test) throw`.
abbrev pub guard : Bool → Error → Result (Unit {0})
guard false thrown = err thrown
guard true thrown = ok tt

infixl 5 ◌>>◌
abbrev pub ◌>>◌ {ℓ} : {W : Type ℓ} → Result (Unit {0}) → Result W → Result W
check >> following = check >>= λ _. following

pub guard-eq-ok {ℓ} :
    {A : Type ℓ} (b : Bool) (e : Error) (f : Unit {0} → Result A) {a : A}
    → (guard b e >>= f) ≡ ok a
    → (b ≡ true) × (f tt ≡ ok a)
guard-eq-ok true e f h = (refl, h)
guard-eq-ok false e f h = absurd (cc)

pub ok-injective {ℓ} : {A : Type ℓ} {a b : A} → ok a ≡ ok b → a ≡ b
ok-injective h = cc
