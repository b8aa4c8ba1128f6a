-- ===== src/Squads/Accepted.antt =====
-- typescript/src/squads/SquadsVaultMessage.ts: the validation accepts what a message without lookup
-- tables is parsed to, if its counts fit their bytes.
use chancery_integration_exa.Common.{
  ℕ, zero, suc, ◌+◌, ◌-◌, ◌≤◌, ◌<◌, ◌≡◌, refl, ap, arith, ltb, leb, Bool, true, List, [], ◌∷◌,
  length, get_elem?, some, ok, guard, Error, >>=-eq-ok,
}
use chancery_integration_exa.Base58.{Text, text, decode_public_key, normalize_public_key}
use chancery_integration_exa.Transactions.{AccountMeta, Instruction, AggregatedMeta, count_matching}
use chancery_integration_exa.Transactions.Message.{
  meta_addresses, key_parts, required_signatures, readonly_signed, readonly_unsigned,
}
use chancery_integration_exa.Transactions.Compiled.{AreResolved}
use chancery_integration_exa.Squads.Message.{SquadsInstruction, SquadsMessage}
use chancery_integration_exa.Squads.Validate.{
  assert_u8, assert_u16, validate_keys, validate_lookups, validate_indexes, validate_instructions,
  validate_header, validate_squads_vault_transaction_message,
}
use chancery_integration_exa.Squads.Compile.{StandardMessage, squads_message_of}
use chancery_integration_exa.Squads.Parsed.{AreCompiled, AreResolved-length}
use chancery_integration_exa.Squads.Reads.{>>=-ok}

guard-ok : (b : Bool) (e : Error) → b ≡ true → guard b e ≡ ok tt
guard-ok b e h = rw h refl

within : (n limit : ℕ) → n ≤ limit → leb n limit ≡ true
within n limit h = ground arith

below : (n limit : ℕ) → n < limit → ltb n limit ≡ true
below n limit h = ground arith

assert_u8-ok : (n : ℕ) → n ≤ 255 → assert_u8 n ≡ ok tt
unfolding assert_u8
assert_u8-ok n h = guard-ok _ _ (within n 255 h)

assert_u16-ok : (n : ℕ) → n ≤ 65535 → assert_u16 n ≡ ok tt
unfolding assert_u16
assert_u16-ok n h = guard-ok _ _ (within n 65535 h)

position_low {ℓ} :
    {A : Type ℓ} (xs : List A) (i : ℕ) (x : A) → get_elem? xs i ≡ some x → i < length xs
position_low [] i x e = absurd (cc)
position_low (y ∷ ys) zero x e = omega arith
position_low (y ∷ ys) (suc i) x e = omega (arith, position_low ys i x e)

-- Keys that are decoded are normalised.
validate_keys-ok :
    (keys : List Text) (parts : List ℕ) → key_parts keys ≡ ok parts → validate_keys keys ≡ ok tt
unfolding key_parts validate_keys normalize_public_key
validate_keys-ok [] parts h = refl
validate_keys-ok (key ∷ keys) parts h =
    let (part, e1, h1) = >>=-eq-ok (decode_public_key (text key)) _ h in
    let (others, e2, h2) = >>=-eq-ok (key_parts keys) _ h1 in
    >>=-ok _ (>>=-ok _ e1 refl) (validate_keys-ok keys others e2)

validate_indexes-ok :
    (keys : List Text) (total : ℕ) (accounts : List AccountMeta) (indexes : List ℕ)
    → length keys ≡ total
    → AreResolved keys accounts indexes
    → validate_indexes total indexes ≡ ok tt
unfolding validate_indexes
validate_indexes-ok keys total [] [] same h = refl
validate_indexes-ok keys total [] (i ∷ indexes) same h = absurd h
validate_indexes-ok keys total (a ∷ accounts) [] same h = absurd h
validate_indexes-ok keys total (a ∷ accounts) (i ∷ indexes) same ((place, small), h) =
    >>=-ok _
      (>>=-ok _ (assert_u8-ok i small)
        (guard-ok _ _ (below i total (omega (arith, position_low keys i a.address place, same)))))
      (validate_indexes-ok keys total accounts indexes same h)

-- The counts of accounts and of bytes of each instruction fit one byte and two.
abbrev pub FitBytes : List Instruction → Type 0
FitBytes [] = Unit {0}
FitBytes (instruction ∷ instructions) =
    ((length instruction.accounts ≤ 255) × (length instruction.data_bytes ≤ 65535))
    × FitBytes instructions

validate_instructions-ok :
    (keys : List Text) (total : ℕ) (instructions : List Instruction)
    (compiled : List SquadsInstruction)
    → length keys ≡ total
    → length keys ≤ 255
    → FitBytes instructions
    → AreCompiled keys instructions compiled
    → validate_instructions (length keys) total compiled ≡ ok tt
unfolding validate_instructions
validate_instructions-ok keys total [] [] same few fit h = refl
validate_instructions-ok keys total [] (c ∷ cs) same few fit h = absurd h
validate_instructions-ok keys total (i ∷ is) [] same few fit h = absurd h
validate_instructions-ok keys total (i ∷ is) (c ∷ cs) same few ((few', short), fit)
      ((place, resolved, filled), h) =
    let low = position_low keys c.program_id_index i.program_address place in
    let counted = AreResolved-length keys i.accounts c.account_indexes resolved in
    >>=-ok _ (assert_u8-ok c.program_id_index (omega (arith, low, few))) (
      >>=-ok _ (guard-ok _ _ (below c.program_id_index (length keys) low)) (
        >>=-ok _ (assert_u8-ok (length c.account_indexes) (omega (arith, counted, few'))) (
          >>=-ok _ (assert_u16-ok (length c.data_bytes) (rw filled short)) (
            >>=-ok _ (validate_indexes-ok keys total i.accounts c.account_indexes same resolved)
              (validate_instructions-ok keys total is cs same few fit h)))))

AreCompiled-length :
    (keys : List Text) (instructions : List Instruction) (compiled : List SquadsInstruction)
    → AreCompiled keys instructions compiled
    → length compiled ≡ length instructions
AreCompiled-length keys [] [] h = refl
AreCompiled-length keys [] (c ∷ cs) h = absurd h
AreCompiled-length keys (i ∷ is) [] h = absurd h
AreCompiled-length keys (i ∷ is) (c ∷ cs) (p, h) = ap suc (AreCompiled-length keys is cs h)

pub readonly_signed-le :
    (metas : List AggregatedMeta) → readonly_signed metas ≤ required_signatures metas
unfolding readonly_signed required_signatures count_matching
readonly_signed-le [] = omega arith
readonly_signed-le (meta ∷ metas) = ground (arith, readonly_signed-le metas)

pub unsigned-le :
    (metas : List AggregatedMeta)
    → required_signatures metas + readonly_unsigned metas ≤ length (meta_addresses metas)
unfolding readonly_unsigned required_signatures count_matching meta_addresses
unsigned-le [] = omega arith
unsigned-le (meta ∷ metas) = ground (arith, unsigned-le metas)

-- A message without lookups, of which the counts are in order and fit, is valid.
validate-ok :
    (m : SquadsMessage) (instructions : List Instruction) (parts : List ℕ)
    → m.address_table_lookups ≡ []
    → m.num_writable_signers ≤ m.num_signers
    → m.num_signers + m.num_writable_non_signers ≤ length m.account_keys
    → length m.account_keys ≤ 255
    → length instructions ≤ 255
    → FitBytes instructions
    → key_parts m.account_keys ≡ ok parts
    → AreCompiled m.account_keys instructions m.instructions
    → validate_squads_vault_transaction_message m ≡ ok tt
unfolding validate_squads_vault_transaction_message validate_header validate_lookups
validate-ok m instructions parts plain order keys_order few some_few fit decoded good =
    let counted = AreCompiled-length m.account_keys instructions m.instructions good in
    let total = length m.account_keys in
    let unlisted : assert_u8 (length m.address_table_lookups) ≡ ok tt =
      rw plain (assert_u8-ok 0 (omega arith)) in
    let unloaded : validate_lookups m.address_table_lookups 0 ≡ ok 0 = rw plain refl in
    >>=-ok _
      (>>=-ok _ (assert_u8-ok m.num_signers (omega (arith, keys_order, few))) (
        >>=-ok _ (assert_u8-ok m.num_writable_signers (omega (arith, order, keys_order, few))) (
          >>=-ok _ (assert_u8-ok m.num_writable_non_signers (omega (arith, keys_order, few))) (
            >>=-ok _ (assert_u8-ok total few) (
              >>=-ok _ (assert_u8-ok (length m.instructions) (omega (arith, counted, some_few))) (
                >>=-ok _ unlisted (
                  >>=-ok _ (guard-ok _ _ (within m.num_writable_signers m.num_signers order)) (
                    >>=-ok _ (guard-ok _ _ (within m.num_signers total (omega (arith, keys_order))))
                      (guard-ok _ _ (
                        within m.num_writable_non_signers (total - m.num_signers)
                          (omega (arith, keys_order))))))))))))
      (>>=-ok _ (validate_keys-ok m.account_keys parts decoded) (
        >>=-ok _ unloaded (
          >>=-ok _ (guard-ok _ _ (within (total + 0) 256 (omega (arith, few)))) (
            validate_instructions-ok m.account_keys (total + 0) instructions m.instructions
              (omega arith) few fit good))))

-- The message that parsed parts make.
abbrev pub message_of : StandardMessage → SquadsMessage
message_of parsed = record {
  num_signers = parsed.signers;
  num_writable_signers = parsed.signers - parsed.readonly_signed;
  num_writable_non_signers = length parsed.account_keys - parsed.signers - parsed.readonly_unsigned;
  account_keys = parsed.account_keys;
  instructions = parsed.instructions;
  address_table_lookups = parsed.lookups;
}

pub squads_message_of-ok :
    (parsed : StandardMessage) (instructions : List Instruction) (parts : List ℕ)
    → parsed.lookups ≡ []
    → parsed.readonly_signed ≤ parsed.signers
    → parsed.signers + parsed.readonly_unsigned ≤ length parsed.account_keys
    → length parsed.account_keys ≤ 255
    → length instructions ≤ 255
    → FitBytes instructions
    → key_parts parsed.account_keys ≡ ok parts
    → AreCompiled parsed.account_keys instructions parsed.instructions
    → squads_message_of parsed ≡ ok (message_of parsed)
unfolding squads_message_of
squads_message_of-ok parsed instructions parts plain order keys_order few some_few fit decoded
      good =
    >>=-ok _
      (>>=-ok _
        (>>=-ok _ (guard-ok _ _ (within parsed.readonly_signed parsed.signers order)) (
          guard-ok _ _ (
            within (parsed.signers + parsed.readonly_unsigned) (length parsed.account_keys)
              keys_order)))
        (validate-ok (message_of parsed) instructions parts plain (omega arith)
          (omega (arith, keys_order)) few some_few fit decoded good))
      refl
