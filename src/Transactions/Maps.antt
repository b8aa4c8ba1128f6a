-- ===== src/Transactions/Maps.antt =====
-- typescript/src/SolanaTransaction.ts: the entries of a `Map`, and `accountIndexByAddress`.
use chancery_integration_exa.Common.{
  ℕ, zero, suc, ◌≡◌, refl, sym, ap, ◌∙◌, arith, ◌==◌, if◌then◌else◌, Bool, true, false, Bool-cases,
  Option-cases, inl, inr, Option, some, none, List, [], ◌∷◌, get_elem?, drop,
}
use chancery_integration_exa.Messages.{text_equals}
use chancery_integration_exa.Base58.{Text}
use chancery_integration_exa.Transactions.{map_get, map_set, map_has}
use chancery_integration_exa.Transactions.Message.{set_indexes, account_index_by_address}

pub text_equals_refl : (a : Text) → text_equals a a ≡ true
unfolding text_equals
text_equals_refl [] = refl
text_equals_refl (x ∷ a) = ground (arith, text_equals_refl a)

pub text_equals_sound : (a b : Text) → text_equals a b ≡ true → a ≡ b
unfolding text_equals
text_equals_sound [] [] h = refl
text_equals_sound [] (y ∷ b) h = absurd (cc)
text_equals_sound (x ∷ a) [] h = absurd (cc)
text_equals_sound (x ∷ a) (y ∷ b) h = elim (Bool-cases (x == y)) [
  | inl e ↦
      let head : x ≡ y = ground arith in
      let tail : a ≡ b = text_equals_sound a b (ground arith) in cc
  | inr e ↦ absurd (ground arith)
]

module _ {ℓ} {V : Type ℓ} where
  pub map_get-map_set :
      (m : List (Text × V)) (key : Text) (v : V) → map_get (map_set m key v) key ≡ some v
  unfolding map_get map_set
  map_get-map_set [] key v = rw (text_equals_refl key) refl
  map_get-map_set ((k, u) ∷ m) key v = elim (Bool-cases (text_equals k key)) [
    | inl e ↦ rw e (rw e refl)
    | inr e ↦ rw e (rw e (map_get-map_set m key v))
  ]

  pub map_get-map_set_other :
      (m : List (Text × V)) (key other : Text) (v : V)
      → text_equals key other ≡ false
      → map_get (map_set m key v) other ≡ map_get m other
  unfolding map_get map_set
  map_get-map_set_other [] key other v h = rw h refl
  map_get-map_set_other ((k, u) ∷ m) key other v h = elim (Bool-cases (text_equals k key)) [
    | inl e ↦
        let same : k ≡ key = text_equals_sound k key e in
        let apart : text_equals k other ≡ false = rw same h in rw e (rw apart refl)
    | inr e ↦ rw e (rw (map_get-map_set_other m key other v h) refl)
  ]

-- An entry that is the address at its index.
abbrev pub Resolves : List (Text × ℕ) → List Text → Type 0
Resolves indexes keys =
    (address : Text) (i : ℕ) → map_get indexes address ≡ some i → get_elem? keys i ≡ some address

drop_head :
    (n : ℕ) (keys rest : List Text) (a : Text)
    → drop n keys ≡ a ∷ rest
    → (get_elem? keys n ≡ some a) × (drop (suc n) keys ≡ rest)
drop_head zero [] rest a h = absurd (cc)
drop_head zero (k ∷ keys) rest a h = (cc, cc)
drop_head (suc n) [] rest a h = absurd (cc)
drop_head (suc n) (k ∷ keys) rest a h = drop_head n keys rest a h

set_indexes-Resolves :
    (keys rest : List Text) (indexes : List (Text × ℕ)) (next : ℕ)
    → drop next keys ≡ rest
    → Resolves indexes keys
    → Resolves (set_indexes indexes rest next) keys
unfolding set_indexes
set_indexes-Resolves keys [] indexes next d h = h
set_indexes-Resolves keys (a ∷ rest) indexes next d h =
    set_indexes-Resolves keys rest (map_set indexes a next) (suc next)
      (drop_head next keys rest a d).1
      (λ address i found. elim (Bool-cases (text_equals a address)) [
        | inl e ↦
            let same : a ≡ address = text_equals_sound a address e in
            let set : map_get (map_set indexes a next) address ≡ some next =
              rw (← same) (map_get-map_set indexes a next) in
            let at : next ≡ i = cc in rw (← at) (rw (← same) (drop_head next keys rest a d).0)
        | inr e ↦ h address i (sym (map_get-map_set_other indexes a address next e) ∙ found)
      ])

-- The table of indexes gives each address a place where it stands among the keys.
pub account_index-Resolves : (keys : List Text) → Resolves (account_index_by_address keys) keys
unfolding account_index_by_address map_get
account_index-Resolves keys =
    set_indexes-Resolves keys keys [] 0 refl (λ address i found. absurd (cc))

-- Whether an address is among the keys.
unfoldable pub has_address : List Text → Text → Bool
has_address [] address = false
has_address (k ∷ keys) address =
    let later = has_address keys address in if text_equals k address then true else later

map_has-map_set_same :
    (m : List (Text × ℕ)) (key : Text) (v : ℕ) → map_has (map_set m key v) key ≡ true
unfolding map_has
map_has-map_set_same m key v =
    ap (λ (o : Option ℕ). elim o [ none ↦ false | some i ↦ true ]) (map_get-map_set m key v)

map_has-map_set :
    (m : List (Text × ℕ)) (key other : Text) (v : ℕ)
    → map_has m other ≡ true
    → map_has (map_set m key v) other ≡ true
unfolding map_has
map_has-map_set m key other v h = elim (Bool-cases (text_equals key other)) [
  | inl e ↦
      let same : key ≡ other = text_equals_sound key other e in
      rw (← same) (map_has-map_set_same m key v)
  | inr e ↦
      ap (λ (o : Option ℕ). elim o [ none ↦ false | some i ↦ true ])
        (map_get-map_set_other m key other v e)
      ∙ h
]

set_indexes_keep :
    (rest : List Text) (m : List (Text × ℕ)) (next : ℕ) (address : Text)
    → map_has m address ≡ true
    → map_has (set_indexes m rest next) address ≡ true
unfolding set_indexes
set_indexes_keep [] m next address h = h
set_indexes_keep (a ∷ rest) m next address h =
    set_indexes_keep rest (map_set m a next) (suc next) address (map_has-map_set m a address next h)

set_indexes_has :
    (rest : List Text) (m : List (Text × ℕ)) (next : ℕ) (address : Text)
    → has_address rest address ≡ true
    → map_has (set_indexes m rest next) address ≡ true
unfolding set_indexes has_address map_has
set_indexes_has [] m next address h = absurd (cc)
set_indexes_has (a ∷ rest) m next address h = elim (Bool-cases (text_equals a address)) [
  | inl e ↦
      let same : a ≡ address = text_equals_sound a address e in
      set_indexes_keep rest (map_set m a next) (suc next) address
        (rw (← same) (map_has-map_set_same m a next))
  | inr e ↦ set_indexes_has rest (map_set m a next) (suc next) address (ground (arith, e, h))
]

pub account_index_has :
    (keys : List Text) (address : Text)
    → has_address keys address ≡ true
    → (i : ℕ) × (map_get (account_index_by_address keys) address ≡ some i)
unfolding account_index_by_address map_has
account_index_has keys address h =
    let held = set_indexes_has keys [] 0 address h in
    elim (Option-cases (map_get (account_index_by_address keys) address)) [
      | inl e ↦ absurd (cc)
      | inr found ↦ found
    ]
