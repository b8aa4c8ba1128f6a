-- ===== src/Squads/Parsed.antt =====
-- The instructions and the keys that typescript/src/SolanaTransaction.ts compiles, as
-- typescript/src/squads/SquadsVaultMessage.ts reads them.
use chancery_integration_exa.Common.{
  ℕ, suc, ◌≡◌, refl, sym, ap, ◌∙◌, List, [], ◌∷◌, ◌++◌, length, get_elem?, some, ok, >>=-eq-ok,
  ok-injective, or_throw, or_throw-eq-ok, absent_program,
}
use chancery_integration_exa.Base58.{text, decode_public_key, normalize_public_key}
use chancery_integration_exa.Base58.Keys.{normalize_public_key_text, decode_public_key_inv}
use chancery_integration_exa.Base58.{Text}
use chancery_integration_exa.Transactions.{AccountMeta, Instruction, encode_short_vector_length}
use chancery_integration_exa.Transactions.Message.{
  compiled_index, account_indexes, account_index_by_address, instruction_part, instruction_parts,
  key_parts,
}
use chancery_integration_exa.Transactions.Maps.{account_index-Resolves}
use chancery_integration_exa.Transactions.Compiled.{
  AreResolved, account_indexes-AreResolved, compiled_index_lem,
}
use chancery_integration_exa.Squads.Message.{
  SquadsInstruction, read_message_bytes, read_short_vector_length, read_many, read_key,
}
use chancery_integration_exa.Squads.Compile.{read_standard_instruction}
use chancery_integration_exa.Squads.Reads.{
  Reads, Reads-first, >>=-ok, read_message_bytes_lem, read_u8_lem,
}
use chancery_integration_exa.Squads.ShortVector.{
  read_short_vector_length-encode_short_vector_length,
}

-- A compiled instruction names, among the keys, the program and the accounts of an instruction, and
-- has its data.
abbrev pub IsCompiled : List Text → Instruction → SquadsInstruction → Type 0
IsCompiled keys instruction compiled =
    (get_elem? keys compiled.program_id_index ≡ some instruction.program_address)
    × AreResolved keys instruction.accounts compiled.account_indexes
    × (compiled.data_bytes ≡ instruction.data_bytes)

abbrev pub AreCompiled : List Text → List Instruction → List SquadsInstruction → Type 0
AreCompiled keys [] [] = Unit {0}
AreCompiled keys (instruction ∷ instructions) (compiled ∷ others) =
    IsCompiled keys instruction compiled × AreCompiled keys instructions others
AreCompiled keys _ _ = ⊥

pub AreResolved-length :
    (keys : List Text) (accounts : List AccountMeta) (indexes : List ℕ)
    → AreResolved keys accounts indexes
    → length indexes ≡ length accounts
AreResolved-length keys [] [] h = refl
AreResolved-length keys [] (i ∷ indexes) h = absurd h
AreResolved-length keys (a ∷ accounts) [] h = absurd h
AreResolved-length keys (a ∷ accounts) (i ∷ indexes) (p, h) =
    ap suc (AreResolved-length keys accounts indexes h)

read_instruction_part :
    (keys : List Text) (instruction : Instruction) (part : List ℕ)
    → instruction_part (account_index_by_address keys) instruction ≡ ok part
    → (compiled : SquadsInstruction) × Reads read_standard_instruction part compiled
      × IsCompiled keys instruction compiled
unfolding instruction_part read_standard_instruction
read_instruction_part keys i part h =
    let table = account_index_by_address keys in
    let (program, e1, h1) = >>=-eq-ok (normalize_public_key (text i.program_address)) _ h in
    let (index, e2, h2) = >>=-eq-ok (or_throw absent_program (compiled_index table program)) _ h1 in
    let (count, e3, h3) = >>=-eq-ok (encode_short_vector_length (length i.accounts)) _ h2 in
    let (indexes, e4, h4) = >>=-eq-ok (account_indexes table i.accounts) _ h3 in
    let (size, e5, h5) = >>=-eq-ok (encode_short_vector_length (length i.data_bytes)) _ h4 in
    let all = ok-injective h5 in
    let resolved = account_indexes-AreResolved keys i.accounts indexes e4 in
    let (found, small) =
      compiled_index_lem table program index (or_throw-eq-ok absent_program _ e2) in
    let place = account_index-Resolves keys program index found in
    let own = normalize_public_key_text i.program_address program e1 in
    let compiled : SquadsInstruction = record {
      program_id_index = index;
      account_indexes = indexes;
      data_bytes = i.data_bytes;
    } in
    (
      compiled,
      (λ rest.
          ap (λ (t : List ℕ). read_standard_instruction (t ++ rest)) (sym all)
          ∙ (>>=-ok _ (read_u8_lem index _) (
              >>=-ok _
                (Reads-first read_short_vector_length count _ rest _
                  (read_short_vector_length-encode_short_vector_length _ count e3))
                (>>=-ok _
                  (Reads-first (read_message_bytes (length i.accounts)) indexes _ rest _ (
                    read_message_bytes_lem (length i.accounts) indexes
                      (AreResolved-length keys i.accounts indexes resolved)))
                  (>>=-ok _
                    (Reads-first read_short_vector_length size _ rest _
                      (read_short_vector_length-encode_short_vector_length _ size e5))
                    (>>=-ok _ (read_message_bytes_lem (length i.data_bytes) i.data_bytes refl rest)
                      refl)))))),
      (place ∙ ap some own, resolved, refl),
    )

pub read_instruction_parts :
    (keys : List Text) (instructions : List Instruction) (parts : List ℕ)
    → instruction_parts (account_index_by_address keys) instructions ≡ ok parts
    → (compiled : List SquadsInstruction) × Reads
        (read_many read_standard_instruction (length instructions))
        parts
        compiled
      × AreCompiled keys instructions compiled
unfolding instruction_parts read_many
read_instruction_parts keys [] parts h =
    let none_left : [] ≡ parts = ok-injective h in ([], (λ rest. rw (← none_left) refl), tt)
read_instruction_parts keys (i ∷ instructions) parts h =
    let table = account_index_by_address keys in
    let (part, e1, h1) = >>=-eq-ok (instruction_part table i) _ h in
    let (others, e2, h2) = >>=-eq-ok (instruction_parts table instructions) _ h1 in
    let all = ok-injective h2 in
    let (first, reads, good) = read_instruction_part keys i part e1 in
    let (later, reads_later, goods) = read_instruction_parts keys instructions others e2 in
    (
      first ∷ later,
      (λ rest.
          ap
            (λ (t : List ℕ).
              read_many read_standard_instruction (suc (length instructions)) (t ++ rest))
            (sym all)
          ∙ (>>=-ok _ (Reads-first read_standard_instruction part others rest first reads)
              (>>=-ok _ (reads_later rest) refl))),
      (good, goods),
    )

pub read_key_parts :
    (keys : List Text) (parts : List ℕ)
    → key_parts keys ≡ ok parts
    → Reads (read_many read_key (length keys)) parts keys
unfolding key_parts read_many read_key
read_key_parts [] parts h rest =
    let none_left : [] ≡ parts = ok-injective h in rw (← none_left) refl
read_key_parts (key ∷ keys) parts h rest =
    let (part, e1, h1) = >>=-eq-ok (decode_public_key (text key)) _ h in
    let (others, e2, h2) = >>=-eq-ok (key_parts keys) _ h1 in
    let all = ok-injective h2 in
    let (sized, same) = decode_public_key_inv key part e1 in
    rw (← all) (
      >>=-ok _
        (>>=-ok _
          (Reads-first (read_message_bytes 32) part others rest part
            (read_message_bytes_lem 32 part sized))
          (ap (λ (t : Text). ok (t, others ++ rest)) same))
        (>>=-ok _ (read_key_parts keys others e2 rest) refl))
