-- ===== src/Execution.antt =====
-- integration/typescript/src/settlement_execution.ts, with the types of
-- integration/typescript/src/model.ts that it uses. What the port's functions change outside the
-- process is a world `W`, which each call takes and gives back; a call that rejects has thrown.
pub mod Lifecycle
pub mod Ordered
pub mod Reported
use chancery_integration_exa.Common.{
  ℕ, leb, ltb, ◌==◌, if◌then◌else◌, Bool, ◌&&◌, ◌||◌, Option, none, some, List, [], ◌∷◌, reverse,
}
use chancery_integration_exa.Base58.{Text, codes}

-- What a promise settles to; a rejection is known by the message of its error.
pub data Attempt {ℓ} (A : Type ℓ) : Type ℓ where
  threw : Text → Attempt A
  gave : A → Attempt A

pub data SettlementExecutionStage : Type 0 where
  preparation simulation submission confirmation reconciliation : SettlementExecutionStage

-- `SettlementExecutionError`; `none` is the signature null.
pub record SettlementExecutionError : Type 0 where
  pub stage : SettlementExecutionStage
  pub message : Text
  pub signature : Option Text

pub record AccountMetaSpec : Type 0 where
  pub name : Text
  pub address : Text
  pub is_signer : Bool
  pub is_writable : Bool

pub record InstructionSpec : Type 0 where
  pub program_id : Text
  pub accounts : List AccountMetaSpec
  pub data_bytes : List ℕ

pub data MarketMakerSettlementAction : Type 0 where
  mint redeem : MarketMakerSettlementAction

pub record PreparedMarketMakerSettlement : Type 0 where
  pub action : MarketMakerSettlementAction
  pub principal : Text
  pub input_amount : Text
  pub minimum_output : Text
  pub instruction : InstructionSpec

pub data SettlementSimulationResult : Type 0 where
  accepted : SettlementSimulationResult
  rejected : Text → SettlementSimulationResult

pub data SettlementConfirmationResult : Type 0 where
  confirmed : SettlementConfirmationResult
  unconfirmed : Text → SettlementConfirmationResult

pub record ExecutedMarketMakerSettlement : Type 0 where
  pub action : MarketMakerSettlementAction
  pub signature : Text

-- `MarketMakerSettlementExecutionPort<T>`
pub record Port (W T : Type 0) : Type 0 where
  pub prepare_transaction : PreparedMarketMakerSettlement → W → Attempt T × W
  pub simulate : T → PreparedMarketMakerSettlement → W → Attempt SettlementSimulationResult × W
  pub submit : T → PreparedMarketMakerSettlement → W → Attempt Text × W
  pub confirm : Text → PreparedMarketMakerSettlement → W → Attempt SettlementConfirmationResult × W
  pub reconcile : Text → PreparedMarketMakerSettlement → W → Attempt (Unit {0}) × W

-- White space and line terminators of ECMAScript, which `trim` removes.
unfoldable pub is_white_space : ℕ → Bool
is_white_space c =
    (leb 9 c && leb c 13)
    || (c == 32 || c == 160 || c == 5760 || (leb 8192 c && leb c 8202) || c == 8232 || c == 8233)
    || (c == 8239 || c == 8287 || c == 12288 || c == 65279)

unfoldable pub trim_start : Text → Text
trim_start [] = []
trim_start (c ∷ cs) = let rest = trim_start cs in if is_white_space c then rest else c ∷ cs

-- `String.prototype.trim`
unfoldable pub trim : Text → Text
trim text = reverse (trim_start (reverse (trim_start text)))

unfoldable pub is_empty : Text → Bool
is_empty [] = Bool.true
is_empty (c ∷ cs) = Bool.false

-- A run that throws or returns, and the world it leaves.
pub data Execution : Type 0 where
  failed : SettlementExecutionError → Execution
  executed : ExecutedMarketMakerSettlement → Execution

abbrev pub empty_signature : Text
empty_signature = codes "Settlement submission returned an empty transaction signature"

-- `throw new SettlementExecutionError(stage, message, signature)`
unfoldable pub throw_at :
    {W : Type 0} → SettlementExecutionStage → Text → Option Text → W → Execution × W
throw_at stage message signature world =
    (failed (record { stage = stage; message = message; signature = signature }), world)

-- `try { value = await call } catch { throw at the stage }` and what follows.
unfoldable pub awaited :
    {W A : Type 0}
    → SettlementExecutionStage
    → Option Text
    → Attempt A × W
    → (A → W → Execution × W)
    → Execution × W
awaited stage signature (threw message, world) next = throw_at stage message signature world
awaited stage signature (gave value, world) next = next value world

module _ {W T : Type 0} (port : Port W T) (settlement : PreparedMarketMakerSettlement) where
  -- From `executionPort.reconcile` to the end.
  unfoldable pub reconcile_stage : Text → W → Execution × W
  reconcile_stage signature world =
      awaited reconciliation (some signature) (port.reconcile signature settlement world)
        (λ done world.
          (executed (record { action = settlement.action; signature = signature }), world))

  unfoldable pub after_confirmation : Text → SettlementConfirmationResult → W → Execution × W
  after_confirmation signature confirmed world = reconcile_stage signature world
  after_confirmation signature (unconfirmed reason) world =
      throw_at confirmation reason (some signature) world

  -- From `executionPort.confirm`.
  unfoldable pub confirm_stage : Text → W → Execution × W
  confirm_stage signature world =
      awaited confirmation (some signature) (port.confirm signature settlement world)
        (after_confirmation signature)

  unfoldable pub after_submission : Text → W → Execution × W
  after_submission signature world =
      if is_empty (trim signature)
      then throw_at submission empty_signature none world
      else confirm_stage signature world

  -- From `executionPort.submit`.
  unfoldable pub submit_stage : T → W → Execution × W
  submit_stage transaction world =
      awaited submission none (port.submit transaction settlement world) after_submission

  unfoldable pub after_simulation : T → SettlementSimulationResult → W → Execution × W
  after_simulation transaction accepted world = submit_stage transaction world
  after_simulation transaction (rejected reason) world = throw_at simulation reason none world

  -- From `executionPort.simulate`.
  unfoldable pub simulate_stage : T → W → Execution × W
  simulate_stage transaction world =
      awaited simulation none (port.simulate transaction settlement world)
        (after_simulation transaction)

  unfoldable pub execute_prepared_market_maker_settlement : W → Execution × W
  execute_prepared_market_maker_settlement world =
      awaited preparation none (port.prepare_transaction settlement world) simulate_stage
