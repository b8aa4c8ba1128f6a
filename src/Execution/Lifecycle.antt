-- ===== src/Execution/Lifecycle.antt =====
-- The five stages of integration/typescript/src/settlement_execution.ts as a step relation: where a
-- settlement stands, and which answer of the port takes it further.
use chancery_integration_exa.Common.{◌≡◌, refl, ◌∙◌, Option, some, none, true, false}
use chancery_integration_exa.Base58.{Text}
use chancery_integration_exa.Execution.{
  threw, gave, SettlementExecutionStage, preparation, simulation, submission, confirmation,
  reconciliation, Execution, failed, executed, Port, PreparedMarketMakerSettlement, accepted,
  rejected, confirmed, unconfirmed, is_empty, trim, empty_signature, throw_at, awaited,
  reconcile_stage, after_confirmation, confirm_stage, after_submission, submit_stage,
  after_simulation, simulate_stage, execute_prepared_market_maker_settlement,
}

-- What is known of a settlement that is being executed.
pub data Progress (T : Type 0) : Type 0 where
  started : Progress T
  prepared : T → Progress T
  simulated : T → Progress T
  submitted : Text → Progress T
  settled : Text → Progress T
  ended : Execution → Progress T

-- The run that has thrown.
abbrev pub thrown : SettlementExecutionStage → Text → Option Text → Execution
thrown stage message signature =
    failed (record { stage = stage; message = message; signature = signature })

module _ {W T : Type 0} (port : Port W T) (settlement : PreparedMarketMakerSettlement) where
  pub data Step : Progress T → W → Progress T → W → Type 0 where
    prepares :
        {w v : W} {t : T}
        → port.prepare_transaction settlement w ≡ (gave t, v)
        → Step started w (prepared t) v
    prepare_throws :
        {w v : W} {m : Text}
        → port.prepare_transaction settlement w ≡ (threw m, v)
        → Step started w (ended (thrown preparation m none)) v
    accepts :
        {w v : W} {t : T}
        → port.simulate t settlement w ≡ (gave accepted, v)
        → Step (prepared t) w (simulated t) v
    rejects :
        {w v : W} {t : T} {m : Text}
        → port.simulate t settlement w ≡ (gave (rejected m), v)
        → Step (prepared t) w (ended (thrown simulation m none)) v
    simulate_throws :
        {w v : W} {t : T} {m : Text}
        → port.simulate t settlement w ≡ (threw m, v)
        → Step (prepared t) w (ended (thrown simulation m none)) v
    submits :
        {w v : W} {t : T} {signature : Text}
        → port.submit t settlement w ≡ (gave signature, v)
        → is_empty (trim signature) ≡ false
        → Step (simulated t) w (submitted signature) v
    submits_blank :
        {w v : W} {t : T} {signature : Text}
        → port.submit t settlement w ≡ (gave signature, v)
        → is_empty (trim signature) ≡ true
        → Step (simulated t) w (ended (thrown submission empty_signature none)) v
    submit_throws :
        {w v : W} {t : T} {m : Text}
        → port.submit t settlement w ≡ (threw m, v)
        → Step (simulated t) w (ended (thrown submission m none)) v
    confirms :
        {w v : W} {signature : Text}
        → port.confirm signature settlement w ≡ (gave confirmed, v)
        → Step (submitted signature) w (settled signature) v
    denies :
        {w v : W} {signature m : Text}
        → port.confirm signature settlement w ≡ (gave (unconfirmed m), v)
        → Step (submitted signature) w (ended (thrown confirmation m (some signature))) v
    confirm_throws :
        {w v : W} {signature m : Text}
        → port.confirm signature settlement w ≡ (threw m, v)
        → Step (submitted signature) w (ended (thrown confirmation m (some signature))) v
    reconciles :
        {w v : W} {signature : Text}
        → port.reconcile signature settlement w ≡ (gave tt, v)
        → Step
            (settled signature)
            w
            (ended (executed (record { action = settlement.action; signature = signature })))
            v
    reconcile_throws :
        {w v : W} {signature m : Text}
        → port.reconcile signature settlement w ≡ (threw m, v)
        → Step (settled signature) w (ended (thrown reconciliation m (some signature))) v

  pub data Steps : Progress T → W → Progress T → W → Type 0 where
    stop : {p : Progress T} {w : W} → Steps p w p w
    then_step : {p q r : Progress T} {w v u : W} → Step p w q v → Steps q v r u → Steps p w r u

  -- What the code does from a progress on.
  unfoldable pub rest : Progress T → W → Execution × W
  rest started w = execute_prepared_market_maker_settlement port settlement w
  rest (prepared t) w = simulate_stage port settlement t w
  rest (simulated t) w = submit_stage port settlement t w
  rest (submitted signature) w = confirm_stage port settlement signature w
  rest (settled signature) w = reconcile_stage port settlement signature w
  rest (ended e) w = (e, w)

  -- A step leaves the rest of the run as it was.
  Step-rest : {p q : Progress T} {w v : W} → Step p w q v → rest p w ≡ rest q v
  unfolding rest execute_prepared_market_maker_settlement simulate_stage submit_stage confirm_stage
      reconcile_stage awaited throw_at after_simulation after_submission after_confirmation
  Step-rest (prepares e) = rw e refl
  Step-rest (prepare_throws e) = rw e refl
  Step-rest (accepts e) = rw e refl
  Step-rest (rejects e) = rw e refl
  Step-rest (simulate_throws e) = rw e refl
  Step-rest (submits e b) = rw e (rw b refl)
  Step-rest (submits_blank e b) = rw e (rw b refl)
  Step-rest (submit_throws e) = rw e refl
  Step-rest (confirms e) = rw e refl
  Step-rest (denies e) = rw e refl
  Step-rest (confirm_throws e) = rw e refl
  Step-rest (reconciles e) = rw e refl
  Step-rest (reconcile_throws e) = rw e refl

  pub Steps-rest : {p q : Progress T} {w v : W} → Steps p w q v → rest p w ≡ rest q v
  Steps-rest stop = refl
  Steps-rest (then_step s more) = Step-rest s ∙ Steps-rest more
