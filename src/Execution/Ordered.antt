-- ===== src/Execution/Ordered.antt =====
-- The runs of integration/typescript/src/settlement_execution.ts and the step relation agree.
use mathlib.Core.Path.{subst}
use chancery_integration_exa.Common.{◌≡◌, ◌↔◌, inl, inr, refl, Option, some, none, Bool-cases}
use chancery_integration_exa.Base58.{Text}
use chancery_integration_exa.Execution.{
  Attempt, threw, gave, SettlementExecutionStage, preparation, simulation, submission, confirmation,
  reconciliation, Execution, Port, PreparedMarketMakerSettlement, SettlementSimulationResult,
  accepted, rejected, SettlementConfirmationResult, confirmed, unconfirmed, is_empty, trim,
  throw_at, awaited, reconcile_stage, after_confirmation, confirm_stage, after_submission,
  submit_stage, after_simulation, simulate_stage, execute_prepared_market_maker_settlement,
}
use chancery_integration_exa.Execution.Lifecycle.{
  Progress, started, prepared, simulated, submitted, settled, ended, thrown, prepares,
  prepare_throws, accepts, rejects, simulate_throws, submits, submits_blank, submit_throws,
  confirms, denies, confirm_throws, reconciles, reconcile_throws, Steps, stop, then_step, rest,
  Steps-rest,
}

-- What holds of both answers of a call holds of the run that awaits it.
awaited_cases :
    {W A : Type 0} (P : Execution × W → Type 0) (stage : SettlementExecutionStage)
    (signature : Option Text) (answer : Attempt A × W) (next : A → W → Execution × W)
    → ((m : Text) (v : W) → answer ≡ (threw m, v) → P (thrown stage m signature, v))
    → ((a : A) (v : W) → answer ≡ (gave a, v) → P (next a v))
    → P (awaited stage signature answer next)
unfolding awaited throw_at
awaited_cases P stage signature (threw m, v) next throws gives = throws m v refl
awaited_cases P stage signature (gave a, v) next throws gives = gives a v refl

module _ {W T : Type 0} (port : Port W T) (settlement : PreparedMarketMakerSettlement) where
  -- The progress leads to the end that the run reports.
  abbrev Ends : Progress T → W → Execution × W → Type 0
  Ends p w run = Steps port settlement p w (ended run.0) run.1

  settled-Ends :
      (signature : Text) (w : W)
      → Ends (settled signature) w (reconcile_stage port settlement signature w)
  unfolding reconcile_stage
  settled-Ends signature w =
      awaited_cases (Ends (settled signature) w) reconciliation (some signature)
        (port.reconcile signature settlement w) _ (λ m v e. then_step (reconcile_throws e) stop)
        (λ done v e. then_step (reconciles e) stop)

  confirmed-Ends :
      (signature : Text) (w v : W) (answer : SettlementConfirmationResult)
      → port.confirm signature settlement w ≡ (gave answer, v)
      → Ends (submitted signature) w (after_confirmation port settlement signature answer v)
  unfolding after_confirmation throw_at
  confirmed-Ends signature w v confirmed e = then_step (confirms e) (settled-Ends signature v)
  confirmed-Ends signature w v (unconfirmed m) e = then_step (denies e) stop

  submitted-Ends :
      (signature : Text) (w : W)
      → Ends (submitted signature) w (confirm_stage port settlement signature w)
  unfolding confirm_stage
  submitted-Ends signature w =
      awaited_cases (Ends (submitted signature) w) confirmation (some signature)
        (port.confirm signature settlement w) (after_confirmation port settlement signature)
        (λ m v e. then_step (confirm_throws e) stop)
        (λ answer v. confirmed-Ends signature w v answer)

  signed-Ends :
      (t : T) (signature : Text) (w v : W)
      → port.submit t settlement w ≡ (gave signature, v)
      → Ends (simulated t) w (after_submission port settlement signature v)
  unfolding after_submission throw_at
  signed-Ends t signature w v e = elim (Bool-cases (is_empty (trim signature))) [
    | inl blank ↦ rw blank (then_step (submits_blank e blank) stop)
    | inr shown ↦ rw shown (then_step (submits e shown) (submitted-Ends signature v))
  ]

  simulated-Ends : (t : T) (w : W) → Ends (simulated t) w (submit_stage port settlement t w)
  unfolding submit_stage
  simulated-Ends t w =
      awaited_cases (Ends (simulated t) w) submission none (port.submit t settlement w)
        (after_submission port settlement) (λ m v e. then_step (submit_throws e) stop)
        (λ signature v. signed-Ends t signature w v)

  accepted-Ends :
      (t : T) (w v : W) (answer : SettlementSimulationResult)
      → port.simulate t settlement w ≡ (gave answer, v)
      → Ends (prepared t) w (after_simulation port settlement t answer v)
  unfolding after_simulation throw_at
  accepted-Ends t w v accepted e = then_step (accepts e) (simulated-Ends t v)
  accepted-Ends t w v (rejected m) e = then_step (rejects e) stop

  prepared-Ends : (t : T) (w : W) → Ends (prepared t) w (simulate_stage port settlement t w)
  unfolding simulate_stage
  prepared-Ends t w =
      awaited_cases (Ends (prepared t) w) simulation none (port.simulate t settlement w)
        (after_simulation port settlement t) (λ m v e. then_step (simulate_throws e) stop)
        (λ answer v. accepted-Ends t w v answer)

  started-Ends :
      (w : W) → Ends started w (execute_prepared_market_maker_settlement port settlement w)
  unfolding execute_prepared_market_maker_settlement
  started-Ends w =
      awaited_cases (Ends started w) preparation none (port.prepare_transaction settlement w)
        (simulate_stage port settlement) (λ m v e. then_step (prepare_throws e) stop)
        (λ t v e. then_step (prepares e) (prepared-Ends t v))

-- A run of a prepared settlement reports an end, in a world, exactly if the steps of its lifecycle
-- lead there from the start: preparation, an accepted simulation, a submission with a signature that
-- is not blank, a confirmation and a reconciliation, or the failure of one of them.
pub execute_prepared_iff :
    {W T : Type 0} (port : Port W T) (settlement : PreparedMarketMakerSettlement) (world after : W)
    (end : Execution)
    → (execute_prepared_market_maker_settlement port settlement world ≡ (end, after))
      ↔ Steps port settlement started world (ended end) after
unfolding rest
execute_prepared_iff {W} port settlement world after end = (
  λ run.
      subst (λ (t : Execution × W). Steps port settlement started world (ended t.0) t.1) run
        (started-Ends port settlement world),
  λ steps. Steps-rest port settlement steps,
)
