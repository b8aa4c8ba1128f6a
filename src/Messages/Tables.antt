-- ===== src/Messages/Tables.antt =====
-- Finding a schema by its discriminator, and by its name.
use Prim.Native.String.{String}
use text.Mathlib.Text.{◌==◌ as str_eq}
use text.Mathlib.TextEquality.{eq_iff}
use mathlib.Core.Path.{subst}
use chancery_integration_exa.Common.{
  ℕ, ◌+◌, ◌≤◌, ◌≡◌, ◌≢◌, ◌==◌, refl, sym, ap, ◌∙◌, arith, List, [], ◌∷◌, ◌++◌, length, drop, All,
  Bool, true, some, inl, inr, Bool-cases, length-append, drop-length_append,
}
use chancery_integration_exa.Schema.{lookup}
use chancery_integration_exa.Messages.{begins_with, discriminator_equals, find_schema}
use chancery_integration_exa.Wire.Reading.{drop-drop}

-- Entries have different names.
abbrev pub HasDistinctKeys {ℓ} : {A : Type ℓ} → List (String × A) → Type 0
HasDistinctKeys [] = Unit {0}
HasDistinctKeys ((k, a) ∷ rest) = All (λ entry. entry.0 ≢ k) rest × HasDistinctKeys rest

module _ {ℓ} {A : Type ℓ} (test : A → Bool) where
  pub find_schema_passes :
      (xs : List (String × A)) (name : String) (a : A)
      → find_schema test xs ≡ some (name, a)
      → test a ≡ true
  unfolding find_schema
  find_schema_passes [] name a e = absurd (cc)
  find_schema_passes ((k, b) ∷ xs) name a e = elim (Bool-cases (test b)) [
    | inl t ↦ let same : b ≡ a = ground arith in subst (λ x. test x ≡ true) same t
    | inr t ↦ find_schema_passes xs name a (ground arith)
  ]

  pub find_schema_All :
      (P : String × A → Type 0) (xs : List (String × A)) (name : String) (a : A)
      → All P xs
      → find_schema test xs ≡ some (name, a)
      → P (name, a)
  unfolding find_schema
  find_schema_All P [] name a h e = absurd (cc)
  find_schema_All P ((k, b) ∷ xs) name a (p, h) e = elim (Bool-cases (test b)) [
    | inl t ↦
        let key : k ≡ name = ground arith in
        let same : b ≡ a = ground arith in subst (λ t. P (t, a)) key (subst (λ t. P (k, t)) same p)
    | inr t ↦ find_schema_All P xs name a h (ground arith)
  ]

  pub lookup-find_schema :
      (xs : List (String × A)) (name : String) (a : A)
      → HasDistinctKeys xs
      → find_schema test xs ≡ some (name, a)
      → lookup name xs ≡ some a
  unfolding find_schema lookup
  lookup-find_schema [] name a h e = absurd (cc)
  lookup-find_schema ((k, b) ∷ xs) name a (new, h) e = elim (Bool-cases (test b)) [
    | inl t ↦ ground (arith, eq_iff k name)
    | inr t ↦ ground (
      arith,
      eq_iff k name,
      lookup-find_schema xs name a h,
      find_schema_All (λ entry. entry.0 ≢ k) xs name a new,
    )
  ]

  -- The entry under a name is found if only that entry passes.
  pub find_schema-lookup :
      (xs : List (String × A)) (name : String) (a : A)
      → lookup name xs ≡ some a
      → test a ≡ true
      → All (λ entry. test entry.1 ≡ true → entry.0 ≡ name) xs
      → find_schema test xs ≡ some (name, a)
  unfolding find_schema lookup
  find_schema-lookup [] name a e t h = absurd (cc)
  find_schema-lookup ((k, b) ∷ xs) name a e t (p, h) = elim (Bool-cases (str_eq k name)) [
    | inl u ↦ ground (arith, eq_iff k name)
    | inr u ↦ ground (arith, eq_iff k name, find_schema-lookup xs name a)
  ]

pub begins_with_inv : (xs ds : List ℕ) → begins_with xs ds ≡ true → xs ≡ ds ++ drop (length ds) xs
unfolding begins_with
begins_with_inv xs [] e = refl
begins_with_inv [] (d ∷ ds) e = absurd (cc)
begins_with_inv (x ∷ xs) (d ∷ ds) e = elim (Bool-cases (x == d)) [
  | inl t ↦
      let same : x ≡ d = ground arith in
      rw (← same) (ap (λ r. x ∷ r) (begins_with_inv xs ds (ground arith)))
  | inr t ↦ absurd (ground arith)
]

pub begins_with_append : (ds xs : List ℕ) → begins_with (ds ++ xs) ds ≡ true
unfolding begins_with
begins_with_append [] xs = refl
begins_with_append (d ∷ ds) xs = ground (arith, begins_with_append ds xs)

-- Of two lists of one length, at most one is at the front.
pub begins_with_same :
    (ds es xs : List ℕ) → length ds ≡ length es → begins_with (ds ++ xs) es ≡ true → ds ≡ es
unfolding begins_with
begins_with_same [] [] xs sized e = refl
begins_with_same [] (y ∷ es) xs sized e = absurd (omega (arith, sized))
begins_with_same (d ∷ ds) [] xs sized e = absurd (omega (arith, sized))
begins_with_same (d ∷ ds) (y ∷ es) xs sized e = ground (arith, begins_with_same ds es xs)

pub discriminator_equals_inv :
    (input : List ℕ) (offset : ℕ) (ds : List ℕ)
    → discriminator_equals input offset ds ≡ true
    → (offset + length ds ≤ length input)
      × (drop offset input ≡ ds ++ drop (offset + length ds) input)
unfolding discriminator_equals
discriminator_equals_inv input offset ds e =
    (ground arith, begins_with_inv (drop offset input) ds (ground arith) ∙ rw drop-drop refl)

pub discriminator_equals_front :
    (front ds xs : List ℕ) → discriminator_equals (front ++ (ds ++ xs)) (length front) ds ≡ true
unfolding discriminator_equals
discriminator_equals_front front ds xs = ground (
  arith,
  ap (λ t. begins_with t ds) (drop-length_append front (ds ++ xs)),
  begins_with_append ds xs,
  length-append front (ds ++ xs),
  length-append ds xs,
)

pub discriminator_equals_same :
    (front ds es xs : List ℕ)
    → length ds ≡ length es
    → discriminator_equals (front ++ (ds ++ xs)) (length front) es ≡ true
    → ds ≡ es
unfolding discriminator_equals
discriminator_equals_same front ds es xs sized e =
    begins_with_same ds es xs sized
      (ground (arith, ap (λ t. begins_with t es) (drop-length_append front (ds ++ xs))))

-- Behind `front`, only the entry whose discriminator stands there is found.
pub found_only {ℓ} :
    {A : Type ℓ} (disc : A → List ℕ) (front ds payload : List ℕ) (name : String)
    (xs : List (String × A))
    → All (λ entry. length ds ≡ length (disc entry.1)) xs
    → All (λ entry. disc entry.1 ≡ ds → entry.0 ≡ name) xs
    → All
        (λ entry.
          discriminator_equals (front ++ (ds ++ payload)) (length front) (disc entry.1) ≡ true
          → entry.0 ≡ name)
        xs
found_only disc front ds payload name [] widths alone = tt
found_only disc front ds payload name ((k, a) ∷ xs) (width, widths) (p, alone) = (
  λ e. p (sym (discriminator_equals_same front ds (disc a) payload width e)),
  found_only disc front ds payload name xs widths alone,
)

pub lookup_All {ℓ} :
    {A : Type ℓ} (P : String × A → Type 0) (xs : List (String × A)) (name : String) (a : A)
    → All P xs
    → lookup name xs ≡ some a
    → P (name, a)
unfolding lookup
lookup_All P [] name a h e = absurd (cc)
lookup_All P ((k, b) ∷ xs) name a (p, h) e = elim (Bool-cases (str_eq k name)) [
  | inl t ↦
      let key : k ≡ name = ground (arith, eq_iff k name) in
      let same : b ≡ a = ground arith in subst (λ t. P (t, a)) key (subst (λ t. P (k, t)) same p)
  | inr t ↦ lookup_All P xs name a h (ground arith)
]
