-- ===== src/Execution/Reported.antt =====
-- What the end of a run of integration/typescript/src/settlement_execution.ts tells its caller.
use mathlib.Core.Path.{subst}
use chancery_integration_exa.Common.{◌≡◌, refl, Option, some, none, Bool, true, false}
use chancery_integration_exa.Base58.{Text}
use chancery_integration_exa.Execution.{
  Attempt, SettlementExecutionStage, preparation, simulation, submission, confirmation,
  reconciliation, SettlementExecutionError, Execution, failed, executed, Port,
  PreparedMarketMakerSettlement, SettlementSimulationResult, is_empty, trim,
  execute_prepared_market_maker_settlement,
}
use chancery_integration_exa.Execution.Lifecycle.{
  Progress, started, prepared, simulated, submitted, settled, ended, Step, prepares, prepare_throws,
  accepts, rejects, simulate_throws, submits, submits_blank, submit_throws, confirms, denies,
  confirm_throws, reconciles, reconcile_throws, Steps, stop, then_step,
}
use chancery_integration_exa.Execution.Ordered.{execute_prepared_iff}

-- The stages after an accepted submission.
abbrev pub is_late : SettlementExecutionStage → Bool
is_late preparation = false
is_late simulation = false
is_late submission = false
is_late confirmation = true
is_late reconciliation = true

-- The stages that submit nothing.
abbrev pub is_early : SettlementExecutionStage → Bool
is_early preparation = true
is_early simulation = true
is_early submission = false
is_early confirmation = false
is_early reconciliation = false

abbrev pub IsShown : Text → Type 0
IsShown signature = is_empty (trim signature) ≡ false

-- Where a signature is reported: in a late stage, and it is not blank.
abbrev pub IsSignature : SettlementExecutionStage → Option Text → Type 0
IsSignature stage none = is_late stage ≡ false
IsSignature stage (some signature) = (is_late stage ≡ true) × IsShown signature

abbrev pub IsReport : PreparedMarketMakerSettlement → Execution → Type 0
IsReport settlement (failed error) = IsSignature error.stage error.signature
IsReport settlement (executed result) =
    (result.action ≡ settlement.action) × IsShown result.signature

-- What is known of the signature on the way.
abbrev Known : {T : Type 0} → PreparedMarketMakerSettlement → Progress T → Type 0
Known settlement started = Unit {0}
Known settlement (prepared t) = Unit {0}
Known settlement (simulated t) = Unit {0}
Known settlement (submitted signature) = IsShown signature
Known settlement (settled signature) = IsShown signature
Known settlement (ended e) = IsReport settlement e

module _ {W T : Type 0} (port : Port W T) (settlement : PreparedMarketMakerSettlement) where
  Step-Known :
      {p q : Progress T} {w v : W}
      → Step port settlement p w q v
      → Known settlement p
      → Known settlement q
  Step-Known (prepares e) k = tt
  Step-Known (prepare_throws e) k = refl
  Step-Known (accepts e) k = tt
  Step-Known (rejects e) k = refl
  Step-Known (simulate_throws e) k = refl
  Step-Known (submits e b) k = b
  Step-Known (submits_blank e b) k = refl
  Step-Known (submit_throws e) k = refl
  Step-Known (confirms e) k = k
  Step-Known (denies e) k = (refl, k)
  Step-Known (confirm_throws e) k = (refl, k)
  Step-Known (reconciles e) k = (refl, k)
  Step-Known (reconcile_throws e) k = (refl, k)

  Steps-Known :
      {p q : Progress T} {w v : W}
      → Steps port settlement p w q v
      → Known settlement p
      → Known settlement q
  Steps-Known stop k = k
  Steps-Known (then_step s more) k = Steps-Known more (Step-Known s k)

  module _ (Q : W → Type 0)
      (prepare_keeps : (w : W) → Q w → Q (port.prepare_transaction settlement w).1)
      (simulate_keeps : (t : T) (w : W) → Q w → Q (port.simulate t settlement w).1) where
    -- What is kept as long as nothing is submitted.
    abbrev Kept : Progress T → W → Type 0
    Kept started w = Q w
    Kept (prepared t) w = Q w
    Kept (simulated t) w = Q w
    Kept (submitted signature) w = Unit {0}
    Kept (settled signature) w = Unit {0}
    Kept (ended (failed error)) w = is_early error.stage ≡ true → Q w
    Kept (ended (executed result)) w = Unit {0}

    prepare_leaves :
        {w v : W} {answer : Attempt T}
        → port.prepare_transaction settlement w ≡ (answer, v)
        → Q w
        → Q v
    prepare_leaves {w} e q = subst (λ (r : Attempt T × W). Q r.1) e (prepare_keeps w q)

    simulate_leaves :
        {w v : W} {t : T} {answer : Attempt SettlementSimulationResult}
        → port.simulate t settlement w ≡ (answer, v)
        → Q w
        → Q v
    simulate_leaves {w} {v} {t} e q =
        subst (λ (r : Attempt SettlementSimulationResult × W). Q r.1) e (simulate_keeps t w q)

    Step-Kept : {p q : Progress T} {w v : W} → Step port settlement p w q v → Kept p w → Kept q v
    Step-Kept (prepares e) k = prepare_leaves e k
    Step-Kept (prepare_throws e) k = λ early. prepare_leaves e k
    Step-Kept (accepts e) k = simulate_leaves e k
    Step-Kept (rejects e) k = λ early. simulate_leaves e k
    Step-Kept (simulate_throws e) k = λ early. simulate_leaves e k
    Step-Kept (submits e b) k = tt
    Step-Kept (submits_blank e b) k = λ early. absurd (cc)
    Step-Kept (submit_throws e) k = λ early. absurd (cc)
    Step-Kept (confirms e) k = tt
    Step-Kept (denies e) k = λ early. absurd (cc)
    Step-Kept (confirm_throws e) k = λ early. absurd (cc)
    Step-Kept (reconciles e) k = tt
    Step-Kept (reconcile_throws e) k = λ early. absurd (cc)

    Steps-Kept : {p q : Progress T} {w v : W} → Steps port settlement p w q v → Kept p w → Kept q v
    Steps-Kept stop k = k
    Steps-Kept (then_step s more) k = Steps-Kept more (Step-Kept s k)

-- A run that throws reports a signature exactly in the stages of confirmation and reconciliation,
-- and no run reports a blank signature; a run that returns has the action of its settlement.
pub execute_prepared-IsReport :
    {W T : Type 0} (port : Port W T) (settlement : PreparedMarketMakerSettlement) (world after : W)
    (end : Execution)
    → execute_prepared_market_maker_settlement port settlement world ≡ (end, after)
    → IsReport settlement end
execute_prepared-IsReport port settlement world after end run =
    Steps-Known port settlement ((execute_prepared_iff port settlement world after end).0 run) tt

-- What preparing and simulating keep is kept by a run that throws in the stage of preparation or
-- simulation: such a run has submitted nothing.
pub execute_prepared_early :
    {W T : Type 0} (port : Port W T) (settlement : PreparedMarketMakerSettlement) (Q : W → Type 0)
    (prepare_keeps : (w : W) → Q w → Q (port.prepare_transaction settlement w).1)
    (simulate_keeps : (t : T) (w : W) → Q w → Q (port.simulate t settlement w).1) (world after : W)
    (error : SettlementExecutionError)
    → execute_prepared_market_maker_settlement port settlement world ≡ (failed error, after)
    → is_early error.stage ≡ true
    → Q world
    → Q after
execute_prepared_early port settlement Q prepare_keeps simulate_keeps world after error run early
      q =
    Steps-Kept port settlement Q prepare_keeps simulate_keeps
      ((execute_prepared_iff port settlement world after (failed error)).0 run) q early
