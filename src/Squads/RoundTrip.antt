-- ===== src/Squads/RoundTrip.antt =====
-- typescript/src/squads/SquadsVaultMessage.ts: a message that is encoded is decoded again.
use mathlib.Core.List.{append-nil}
use chancery_integration_exa.Common.{
  ℕ, ◌+◌, ◌≤◌, ◌≡◌, refl, sym, ap, ◌∙◌, arith, leb, ltb, List, [], ◌∷◌, ◌++◌, length, All, ok, ◌>>◌,
  guard, ok-injective, >>=-eq-ok, guard-eq-ok, not_u8,
}
use chancery_integration_exa.Common.Int.{pos}
use chancery_integration_exa.Base58.{text, normalize_public_key}
use chancery_integration_exa.Squads.{whole, encode_u8, encode_u16}
use chancery_integration_exa.Squads.Message.{
  SquadsInstruction, SquadsLookup, SquadsMessage, read_message_bytes, read_u8, read_u16, read_many,
  read_key,
}
use chancery_integration_exa.Squads.Validate.{
  assert_u8, assert_u16, assert_all_u8, validate_keys, validate_lookups, validate_indexes,
  validate_instructions, validate_header, validate_squads_vault_transaction_message,
}
use chancery_integration_exa.Squads.Encode.{
  byte_array, encode_all, length_u8, encode_key, encode_instruction, encode_lookup, message_parts,
  encode_squads_vault_transaction_message,
}
use chancery_integration_exa.Squads.Decode.{
  read_instruction, read_lookup, read_message, decode_squads_vault_transaction_message,
}
use chancery_integration_exa.Squads.Reads.{
  Reads, Reads-first, >>=-ok, read_message_bytes_lem, read_u8-encode_u8, read_u16-encode_u16,
  read_key-encode_key, read_many-encode_all, byte_array_lem,
}

abbrev pub AreBytes : List ℕ → Type 0
AreBytes numbers = All (λ n. n ≤ 255) numbers

abbrev IsInstruction : SquadsInstruction → Type 0
IsInstruction instruction = AreBytes instruction.account_indexes

abbrev IsLookup : SquadsLookup → Type 0
IsLookup lookup = AreBytes lookup.writable_indexes × AreBytes lookup.readonly_indexes

-- The indexes of a validated message are bytes.
assert_all_u8-AreBytes : (numbers : List ℕ) → assert_all_u8 numbers ≡ ok tt → AreBytes numbers
unfolding assert_all_u8 assert_u8
assert_all_u8-AreBytes [] h = tt
assert_all_u8-AreBytes (n ∷ numbers) h =
    let (small, rest) = guard-eq-ok (leb n 255) not_u8 _ h in
    (ground arith, assert_all_u8-AreBytes numbers rest)

validate_indexes-AreBytes :
    (total : ℕ) (numbers : List ℕ) → validate_indexes total numbers ≡ ok tt → AreBytes numbers
unfolding validate_indexes assert_u8
validate_indexes-AreBytes total [] h = tt
validate_indexes-AreBytes total (n ∷ numbers) h =
    let (checked, both, rest) = >>=-eq-ok (guard (leb n 255) not_u8 >> _) _ h in
    let (small, low) = guard-eq-ok (leb n 255) not_u8 _ both in
    (ground arith, validate_indexes-AreBytes total numbers rest)

validate_instructions-good :
    (static total : ℕ) (instructions : List SquadsInstruction)
    → validate_instructions static total instructions ≡ ok tt
    → All IsInstruction instructions
unfolding validate_instructions
validate_instructions-good static total [] h = tt
validate_instructions-good static total (i ∷ instructions) h =
    let (u1, e1, h1) = >>=-eq-ok (assert_u8 i.program_id_index) _ h in
    let (u2, e2, h2) = >>=-eq-ok (guard (ltb i.program_id_index static) _) _ h1 in
    let (u3, e3, h3) = >>=-eq-ok (assert_u8 (length i.account_indexes)) _ h2 in
    let (u4, e4, h4) = >>=-eq-ok (assert_u16 (length i.data_bytes)) _ h3 in
    let (u5, e5, h5) = >>=-eq-ok (validate_indexes total i.account_indexes) _ h4 in
    (
      validate_indexes-AreBytes total i.account_indexes e5,
      validate_instructions-good static total instructions h5,
    )

validate_lookups-good :
    (lookups : List SquadsLookup) (loaded total : ℕ)
    → validate_lookups lookups loaded ≡ ok total
    → All IsLookup lookups
unfolding validate_lookups
validate_lookups-good [] loaded total h = tt
validate_lookups-good (l ∷ lookups) loaded total h =
    let (u1, e1, h1) = >>=-eq-ok (normalize_public_key (text l.account_key)) _ h in
    let (u2, e2, h2) = >>=-eq-ok (assert_u8 (length l.writable_indexes)) _ h1 in
    let (u3, e3, h3) = >>=-eq-ok (assert_u8 (length l.readonly_indexes)) _ h2 in
    let (u4, e4, h4) = >>=-eq-ok (assert_all_u8 l.writable_indexes) _ h3 in
    let (u5, e5, h5) = >>=-eq-ok (assert_all_u8 l.readonly_indexes) _ h4 in
    (
      (assert_all_u8-AreBytes l.writable_indexes e4, assert_all_u8-AreBytes l.readonly_indexes e5),
      validate_lookups-good lookups _ total h5,
    )

pub validate_message-good :
    (message : SquadsMessage)
    → validate_squads_vault_transaction_message message ≡ ok tt
    → All IsInstruction message.instructions × All IsLookup message.address_table_lookups
unfolding validate_squads_vault_transaction_message
validate_message-good message h =
    let (u1, e1, h1) = >>=-eq-ok (validate_header message) _ h in
    let (u2, e2, h2) = >>=-eq-ok (validate_keys message.account_keys) _ h1 in
    let (loaded, e3, h3) = >>=-eq-ok (validate_lookups message.address_table_lookups 0) _ h2 in
    let (low, h4) = guard-eq-ok (leb (length message.account_keys + loaded) 256) _ _ h3 in
    (
      validate_instructions-good _ _ message.instructions h4,
      validate_lookups-good message.address_table_lookups 0 loaded e3,
    )

read_instruction-encode_instruction :
    (instruction : SquadsInstruction) (bytes : List ℕ)
    → IsInstruction instruction
    → encode_instruction instruction ≡ ok bytes
    → Reads read_instruction bytes instruction
unfolding encode_instruction read_instruction
read_instruction-encode_instruction i bytes good h rest =
    let (program, e1, h1) = >>=-eq-ok (encode_u8 (whole (pos i.program_id_index))) _ h in
    let (count, e2, h2) = >>=-eq-ok (length_u8 i.account_indexes) _ h1 in
    let (data_length, e3, h3) = >>=-eq-ok (encode_u16 (whole (pos (length i.data_bytes)))) _ h2 in
    let all : program ++ (count ++ (i.account_indexes ++ (data_length ++ i.data_bytes))) ≡ bytes =
      ap (λ (t : List ℕ). program ++ (count ++ (t ++ (data_length ++ i.data_bytes))))
        (sym (byte_array_lem i.account_indexes good))
      ∙ cc in
    rw (← all) (
      >>=-ok _ (Reads-first read_u8 program _ rest _ (read_u8-encode_u8 _ program e1)) (
        >>=-ok _ (Reads-first read_u8 count _ rest _ (read_u8-encode_u8 _ count e2)) (
          >>=-ok _
            (Reads-first (read_message_bytes (length i.account_indexes)) i.account_indexes _ rest _
              (read_message_bytes_lem (length i.account_indexes) i.account_indexes refl))
            (>>=-ok _
              (Reads-first read_u16 data_length _ rest _ (read_u16-encode_u16 _ data_length e3))
              (>>=-ok _ (read_message_bytes_lem (length i.data_bytes) i.data_bytes refl rest)
                refl)))))

read_lookup-encode_lookup :
    (lookup : SquadsLookup) (bytes : List ℕ)
    → IsLookup lookup
    → encode_lookup lookup ≡ ok bytes
    → Reads read_lookup bytes lookup
unfolding encode_lookup read_lookup
read_lookup-encode_lookup l bytes (good_w, good_r) h rest =
    let (key, e1, h1) = >>=-eq-ok (encode_key l.account_key) _ h in
    let (writable, e2, h2) = >>=-eq-ok (length_u8 l.writable_indexes) _ h1 in
    let (readonly, e3, h3) = >>=-eq-ok (length_u8 l.readonly_indexes) _ h2 in
    let plain : key
          ++ (writable
              ++ (byte_array l.writable_indexes ++ (readonly ++ byte_array l.readonly_indexes)))
        ≡ bytes =
      cc in
    let all : key ++ (writable ++ (l.writable_indexes ++ (readonly ++ l.readonly_indexes)))
        ≡ bytes =
      ap (λ (t : List ℕ). key ++ (writable ++ (t ++ (readonly ++ l.readonly_indexes))))
        (sym (byte_array_lem l.writable_indexes good_w))
      ∙ (ap
            (λ (t : List ℕ).
              key ++ (writable ++ (byte_array l.writable_indexes ++ (readonly ++ t))))
            (sym (byte_array_lem l.readonly_indexes good_r))
          ∙ plain) in
    rw (← all) (
      >>=-ok _ (Reads-first read_key key _ rest _ (read_key-encode_key l.account_key key e1)) (
        >>=-ok _ (Reads-first read_u8 writable _ rest _ (read_u8-encode_u8 _ writable e2)) (
          >>=-ok _
            (Reads-first (read_message_bytes (length l.writable_indexes)) l.writable_indexes _ rest
              _ (read_message_bytes_lem (length l.writable_indexes) l.writable_indexes refl))
            (>>=-ok _ (Reads-first read_u8 readonly _ rest _ (read_u8-encode_u8 _ readonly e3)) (
              >>=-ok _
                (read_message_bytes_lem (length l.readonly_indexes) l.readonly_indexes refl rest)
                refl)))))

All-any {ℓ} : {A : Type ℓ} (values : List A) → All (λ _. Unit {0}) values
All-any [] = tt
All-any (a ∷ values) = (tt, All-any values)

read_message-message_parts :
    (m : SquadsMessage) (bytes : List ℕ)
    → All IsInstruction m.instructions
    → All IsLookup m.address_table_lookups
    → message_parts m ≡ ok bytes
    → Reads read_message bytes m
unfolding message_parts read_message
read_message-message_parts m bytes good_i good_l h rest =
    let (b1, e1, h1) = >>=-eq-ok (encode_u8 (whole (pos m.num_signers))) _ h in
    let (b2, e2, h2) = >>=-eq-ok (encode_u8 (whole (pos m.num_writable_signers))) _ h1 in
    let (b3, e3, h3) = >>=-eq-ok (encode_u8 (whole (pos m.num_writable_non_signers))) _ h2 in
    let (b4, e4, h4) = >>=-eq-ok (length_u8 m.account_keys) _ h3 in
    let (b5, e5, h5) = >>=-eq-ok (encode_all encode_key m.account_keys) _ h4 in
    let (b6, e6, h6) = >>=-eq-ok (length_u8 m.instructions) _ h5 in
    let (b7, e7, h7) = >>=-eq-ok (encode_all encode_instruction m.instructions) _ h6 in
    let (b8, e8, h8) = >>=-eq-ok (length_u8 m.address_table_lookups) _ h7 in
    let (b9, e9, h9) = >>=-eq-ok (encode_all encode_lookup m.address_table_lookups) _ h8 in
    let all : b1 ++ (b2 ++ (b3 ++ (b4 ++ (b5 ++ (b6 ++ (b7 ++ (b8 ++ b9))))))) ≡ bytes =
      ok-injective h9 in
    rw (← all) (
      >>=-ok _ (Reads-first read_u8 b1 _ rest _ (read_u8-encode_u8 _ b1 e1)) (
        >>=-ok _ (Reads-first read_u8 b2 _ rest _ (read_u8-encode_u8 _ b2 e2)) (
          >>=-ok _ (Reads-first read_u8 b3 _ rest _ (read_u8-encode_u8 _ b3 e3)) (
            >>=-ok _ (Reads-first read_u8 b4 _ rest _ (read_u8-encode_u8 _ b4 e4)) (
              >>=-ok _
                (Reads-first (read_many read_key (length m.account_keys)) b5 _ rest m.account_keys (
                  read_many-encode_all (λ _. Unit {0}) encode_key read_key m.account_keys b5
                    (λ a part good. read_key-encode_key a part) (All-any m.account_keys) e5))
                (>>=-ok _ (Reads-first read_u8 b6 _ rest _ (read_u8-encode_u8 _ b6 e6)) (
                  >>=-ok _
                    (Reads-first (read_many read_instruction (length m.instructions)) b7 _ rest
                      m.instructions
                      (read_many-encode_all IsInstruction encode_instruction read_instruction
                        m.instructions b7 read_instruction-encode_instruction good_i e7))
                    (>>=-ok _ (Reads-first read_u8 b8 _ rest _ (read_u8-encode_u8 _ b8 e8)) (
                      >>=-ok _
                        (read_many-encode_all IsLookup encode_lookup read_lookup
                          m.address_table_lookups b9 read_lookup-encode_lookup good_l e9 rest)
                        refl)))))))))

-- A vault transaction message that is encoded is decoded to itself.
pub decode_message-encode_message :
    (message : SquadsMessage) (bytes : List ℕ)
    → encode_squads_vault_transaction_message message ≡ ok bytes
    → decode_squads_vault_transaction_message bytes ≡ ok message
unfolding encode_squads_vault_transaction_message decode_squads_vault_transaction_message
decode_message-encode_message message bytes h =
    let (checked, valid, parts) =
      >>=-eq-ok (validate_squads_vault_transaction_message message) _ h in
    let (good_i, good_l) = validate_message-good message valid in
    let whole_message : read_message bytes ≡ ok (message, []) =
      ap (λ (t : List ℕ). read_message t) (sym (append-nil bytes))
      ∙ read_message-message_parts message bytes good_i good_l parts [] in
    >>=-ok _ whole_message (>>=-ok _ valid refl)
