-- ===== src/Tests/Execution.antt =====
-- Runs of integration/typescript/src/settlement_execution.ts on ports that log their calls.
use chancery_integration_exa.Common.{
  ℕ, ◌≡◌, refl, ◌⊎◌, inl, inr, some, none, List, [], ◌∷◌, Bool, true, false,
}
use chancery_integration_exa.Base58.{codes}
use chancery_integration_exa.Base58.{Text}
use chancery_integration_exa.Execution.{
  gave, simulation, submission, confirmation, Port, PreparedMarketMakerSettlement, redeem, accepted,
  rejected, confirmed, unconfirmed, is_empty, trim, trim_start, is_white_space, empty_signature,
  throw_at, awaited, reconcile_stage, after_confirmation, confirm_stage, after_submission,
  submit_stage, after_simulation, simulate_stage, execute_prepared_market_maker_settlement,
}
use chancery_integration_exa.Execution.Lifecycle.{Steps, started, ended, thrown}
use chancery_integration_exa.Execution.Ordered.{execute_prepared_iff}
use chancery_integration_exa.Execution.Reported.{
  IsReport, execute_prepared-IsReport, execute_prepared_early,
}

abbrev order : PreparedMarketMakerSettlement
order = record {
  action = redeem;
  principal = codes "P";
  input_amount = codes "5";
  minimum_output = codes "4";
  instruction = record { program_id = codes "C"; accounts = []; data_bytes = [] };
}

-- The calls are logged in the world, the last one first; the answers are given.
abbrev port_of : Bool → Text → Bool → Port (List ℕ) ℕ
port_of accepts signature confirms = record {
  prepare_transaction = λ s w. (gave 9, 1 ∷ w);
  simulate =
      λ t s w. (gave (elim accepts [ true ↦ accepted | false ↦ rejected (codes "low") ]), 2 ∷ w);
  submit = λ t s w. (gave signature, 3 ∷ w);
  confirm = λ x s w.
      (gave (elim confirms [ true ↦ confirmed | false ↦ unconfirmed (codes "late") ]), 4 ∷ w);
  reconcile = λ x s w. (gave tt, 5 ∷ w);
}

late_run :
    execute_prepared_market_maker_settlement (port_of true (codes " s ") false) order []
    ≡ (thrown confirmation (codes "late") (some (codes " s ")), 4 ∷ 3 ∷ 2 ∷ 1 ∷ [])
unfolding execute_prepared_market_maker_settlement simulate_stage submit_stage confirm_stage
    reconcile_stage awaited throw_at after_simulation after_submission after_confirmation is_empty
    trim trim_start is_white_space
late_run = refl

blank_run :
    execute_prepared_market_maker_settlement (port_of true (codes "  ") true) order []
    ≡ (thrown submission empty_signature none, 3 ∷ 2 ∷ 1 ∷ [])
unfolding execute_prepared_market_maker_settlement simulate_stage submit_stage confirm_stage
    reconcile_stage awaited throw_at after_simulation after_submission after_confirmation is_empty
    trim trim_start is_white_space
blank_run = refl

early_run :
    execute_prepared_market_maker_settlement (port_of false (codes "s") true) order []
    ≡ (thrown simulation (codes "low") none, 2 ∷ 1 ∷ [])
unfolding execute_prepared_market_maker_settlement simulate_stage submit_stage confirm_stage
    reconcile_stage awaited throw_at after_simulation after_submission after_confirmation is_empty
    trim trim_start is_white_space
early_run = refl

-- Nothing was submitted.
abbrev IsUnsent : List ℕ → Type 0
IsUnsent [] = Unit {0}
IsUnsent (call ∷ calls) = ((call ≡ 1) ⊎ (call ≡ 2)) × IsUnsent calls

execute_prepared_iff_example :
    Steps
      (port_of true (codes " s ") false)
      order
      started
      []
      (ended (thrown confirmation (codes "late") (some (codes " s "))))
      (4 ∷ 3 ∷ 2 ∷ 1 ∷ [])
execute_prepared_iff_example =
    (execute_prepared_iff (port_of true (codes " s ") false) order [] (4 ∷ 3 ∷ 2 ∷ 1 ∷ [])
        (thrown confirmation (codes "late") (some (codes " s ")))).0
      late_run

execute_prepared-IsReport_example :
    IsReport order (thrown confirmation (codes "late") (some (codes " s ")))
execute_prepared-IsReport_example =
    execute_prepared-IsReport (port_of true (codes " s ") false) order [] (4 ∷ 3 ∷ 2 ∷ 1 ∷ [])
      (thrown confirmation (codes "late") (some (codes " s "))) late_run

execute_prepared_early_example : IsUnsent (2 ∷ 1 ∷ [])
execute_prepared_early_example =
    execute_prepared_early (port_of false (codes "s") true) order IsUnsent (λ w q. (inl refl, q))
      (λ t w q. (inr refl, q)) [] (2 ∷ 1 ∷ [])
      (record { stage = simulation; message = codes "low"; signature = none }) early_run refl tt
