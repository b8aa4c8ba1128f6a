-- ===== src/Client/Extensions.antt =====
-- typescript/src/client/ChanceryClient.ts: the extensions that `validateCoreSettlementGates` admits.
use native.Mathlib.Nat.{div-div-eq-div-mul, pow-succ'}
use chancery_integration_exa.Common.{
  not-eq-false, ℕ, zero, suc, ◌^◌, ◌/◌, ◌%◌, ◌<◌, ◌≡◌, refl, sym, ap, ◌∙◌, arith, ◌==◌,
  if◌then◌else◌, Bool, true, false, not, ◌&&◌, ◌||◌, Option, none, some, List, [], ◌∷◌,
}
use chancery_integration_exa.Settlement.{SettlementAction, observed, has_flag}
use chancery_integration_exa.Settlement.Clean.{append_empty, observed_empty}
use chancery_integration_exa.Client.Gates.{
  GateIssue, common_bit, extra_bit, word_issue, AssetGate, TokenGate, PathwayGate, EvidenceGate,
  asset_extension_issues, token_extension_issues, validate_core_settlement_gates, module_active,
  mode_issues,
}

has_flag-suc : (flags i : ℕ) → has_flag flags (suc i) ≡ has_flag (flags / 2) i
unfolding has_flag
has_flag-suc flags i =
    ap (λ (n : ℕ). n % 2 == 1)
      (ap (λ (p : ℕ). flags / p) (pow-succ' 2 i) ∙ sym (div-div-eq-div-mul flags 2 (2 ^ i)))

has_flag-zero : (flags : ℕ) → has_flag flags 0 ≡ (flags % 2 == 1)
unfolding has_flag
has_flag-zero flags = ap (λ (n : ℕ). n % 2 == 1) (omega arith)

or_false_inv : (a b : Bool) → (a || b) ≡ false → (a ≡ false) × (b ≡ false)
or_false_inv true b h = absurd (cc)
or_false_inv false b h = (refl, h)

common_bit_lem :
    (bits left right i : ℕ)
    → i < bits
    → common_bit bits left right ≡ false
    → (has_flag left i && has_flag right i) ≡ false
unfolding common_bit
common_bit_lem zero left right i low h = absurd (omega arith)
common_bit_lem (suc bits) left right zero low h =
    let (here, later) = or_false_inv _ _ h in rw (has_flag-zero left, has_flag-zero right) here
common_bit_lem (suc bits) left right (suc i) low h =
    let below : i < bits = omega (arith, low) in
    let (here, later) = or_false_inv _ _ h in
    rw (has_flag-suc left i, has_flag-suc right i)
      (common_bit_lem bits (left / 2) (right / 2) i below later)

extra_bit_lem :
    (bits left right i : ℕ)
    → i < bits
    → extra_bit bits left right ≡ false
    → (has_flag left i && not (has_flag right i)) ≡ false
unfolding extra_bit
extra_bit_lem zero left right i low h = absurd (omega arith)
extra_bit_lem (suc bits) left right zero low h =
    let (here, later) = or_false_inv _ _ h in rw (has_flag-zero left, has_flag-zero right) here
extra_bit_lem (suc bits) left right (suc i) low h =
    let below : i < bits = omega (arith, low) in
    let (here, later) = or_false_inv _ _ h in
    rw (has_flag-suc left i, has_flag-suc right i)
      (extra_bit_lem bits (left / 2) (right / 2) i below later)

-- Of a word, the extension is not observed, or it is approved and forbidden by none.
abbrev pub IsAdmitted : ℕ → ℕ → ℕ → ℕ → ℕ → Type 0
IsAdmitted word approved forbidden pathway i =
    ((has_flag word i && not (has_flag approved i)) ≡ false)
    × ((has_flag word i && has_flag forbidden i) ≡ false)
    × ((has_flag word i && has_flag pathway i) ≡ false)

word_issue-IsAdmitted :
    (word approved forbidden protocol pathway i : ℕ)
    → i < 64
    → word_issue word approved forbidden protocol pathway ≡ none
    → IsAdmitted word approved forbidden pathway i
      × ((has_flag word i && has_flag protocol i) ≡ false)
unfolding word_issue
word_issue-IsAdmitted word approved forbidden protocol pathway i low h =
    let (all_approved, first) = no_issue (extra_bit 64 word approved) _ _ h in
    let (allowed, second) =
      no_issue (common_bit 64 word forbidden || common_bit 64 word protocol) _ _ first in
    let (admitted, third) = no_issue (common_bit 64 word pathway) _ _ second in
    let (asset_allows, protocol_allows) = or_false_inv _ _ allowed in
    (
      (
        extra_bit_lem 64 word approved i low all_approved,
        common_bit_lem 64 word forbidden i low asset_allows,
        common_bit_lem 64 word pathway i low admitted,
      ),
      common_bit_lem 64 word protocol i low protocol_allows,
    )
  where
    no_issue :
        (test : Bool) (issue : GateIssue) (next : Option GateIssue)
        → (if test then some issue else next) ≡ none
        → (test ≡ false) × (next ≡ none)
    no_issue true issue next e = absurd (cc)
    no_issue false issue next e = (refl, e)

both_words :
    (first second : Option GateIssue)
    → (elim first [
      | some issue ↦ issue ∷ []
      | none ↦ elim second [ some issue ↦ issue ∷ [] | none ↦ [] ]
    ])
      ≡ []
    → (first ≡ none) × (second ≡ none)
both_words none none h = (refl, refl)
both_words none (some issue) h = absurd (cc)
both_words (some issue) second h = absurd (cc)

no_first_flag : (b : Bool) → (b && has_flag 1 0) ≡ false → b ≡ false
unfolding has_flag
no_first_flag true e = absurd (cc)
no_first_flag false e = refl

-- Where the gates of a settlement raise no issue, the settlement module is active, the issued token
-- is ready, each extension that was observed of the asset is approved and forbidden neither by the
-- asset nor by the pathway, nor is the transfer hook observed, and no active extension of the issued
-- token is forbidden by the pathway.
pub gates-IsAdmitted :
    (action : SettlementAction) (current_slot : ℕ) (module_statuses : List ℕ) (asset : AssetGate)
    (token : TokenGate) (pathway : PathwayGate) (evidence : Option EvidenceGate) (i : ℕ)
    → validate_core_settlement_gates action current_slot module_statuses asset token pathway
        evidence
      ≡ []
    → i < 64
    → (module_active module_statuses ≡ true)
      × (has_flag token.control_flags 63 ≡ true)
      × IsAdmitted asset.observed_mask.0 asset.approved_mask.0 asset.forbidden_mask.0
          pathway.forbidden_collateral_mask.0 i
      × IsAdmitted asset.observed_mask.1 asset.approved_mask.1 asset.forbidden_mask.1
          pathway.forbidden_collateral_mask.1 i
      × (has_flag asset.observed_mask.0 0 ≡ false)
      × ((has_flag token.active_mask.0 i && has_flag pathway.forbidden_token_mask.0 i) ≡ false)
      × ((has_flag token.active_mask.1 i && has_flag pathway.forbidden_token_mask.1 i) ≡ false)
unfolding validate_core_settlement_gates asset_extension_issues token_extension_issues
gates-IsAdmitted action current_slot module_statuses asset token pathway evidence i h low =
    let first_low : 0 < 64 = omega arith in
    let (a1, h1) = append_empty (observed (not (module_active module_statuses)) _) _ h in
    let (a2, h2) = append_empty (mode_issues action asset.mode) _ h1 in
    let (a3, h3) = append_empty _ _ h2 in
    let (a4, h4) = append_empty (asset_extension_issues asset pathway) _ h3 in
    let (a5, h5) = append_empty (observed (not (has_flag token.control_flags 63)) _) _ h4 in
    let (a6, h6) = append_empty _ _ h5 in
    let (a7, a8) = append_empty (token_extension_issues token pathway) _ h6 in
    let (w0, w1) = both_words _ _ a4 in
    let (first, hook) = word_issue-IsAdmitted _ _ _ 1 _ i low w0 in
    let (second, plain) = word_issue-IsAdmitted _ _ _ 0 _ i low w1 in
    let (other, no_hook) = word_issue-IsAdmitted _ _ _ 1 _ 0 first_low w0 in
    let (t0, t1) = or_false_inv _ _ (observed_empty _ _ a7) in
    (
      not-eq-false _ (observed_empty _ _ a1),
      not-eq-false _ (observed_empty _ _ a5),
      first,
      second,
      no_first_flag _ no_hook,
      common_bit_lem 64 token.active_mask.0 pathway.forbidden_token_mask.0 i low t0,
      common_bit_lem 64 token.active_mask.1 pathway.forbidden_token_mask.1 i low t1,
    )
