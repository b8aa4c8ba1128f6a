-- ===== src/Schema.antt =====
-- typescript/src/ChancerySchema.ts: the type schemas. `unsupported` is any name of a primitive that
-- the codec does not know; a struct schema is the list of its fields.
use Prim.Native.String.{String}
use text.Mathlib.Text.{◌==◌}
use chancery_integration_exa.Common.{
  ℕ, List, [], ◌∷◌, Option, none, some, Bool, true, false, if◌then◌else◌, Result, ok, err,
  unknown_defined_type,
}

pub data PrimitiveTypeName : Type 0 where
  u8 u16 u32 u64 u128 i64 i128 bool pubkey unsupported : PrimitiveTypeName

pub data TypeSchema : Type 0 where
  primitive : PrimitiveTypeName → TypeSchema
  array_of : TypeSchema → ℕ → TypeSchema
  option_of : TypeSchema → TypeSchema
  vector_of : TypeSchema → TypeSchema
  defined : String → TypeSchema

pub record FieldSchema : Type 0 where
  pub name : String
  pub type : TypeSchema

abbrev pub StructSchema : Type 0
StructSchema = List FieldSchema

-- `typeSchema.item === "u8"`
unfoldable pub is_u8 : TypeSchema → Bool
is_u8 (primitive u8) = true
is_u8 _ = false

unfoldable pub is_option : TypeSchema → Bool
is_option (option_of t) = true
is_option _ = false

-- `record[name]`
unfoldable pub lookup {ℓ} : {A : Type ℓ} → String → List (String × A) → Option A
lookup key [] = none
lookup key ((k, v) ∷ rest) = if k == key then some v else lookup key rest

unfoldable pub get_defined_type_schema : List (String × StructSchema) → String → Result StructSchema
get_defined_type_schema types name = elim (lookup name types) [
  | none ↦ err unknown_defined_type
  | some fields ↦ ok fields
]
