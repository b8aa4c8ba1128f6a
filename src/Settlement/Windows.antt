-- ===== src/Settlement/Windows.antt =====
-- `canonicalWindowStart` and `observeLimitPolicy`: the limits on what is settled in a window of time.
pub mod Starts
pub mod Observed
use chancery_integration_exa.Common.{
  ℕ, zero, suc, ◌+◌, ◌-◌, ◌*◌, ◌/◌, ◌%◌, ◌^◌, ltb, leb, ◌==◌, if◌then◌else◌, Bool, true, false, not,
  ◌&&◌, ◌||◌, Option, none, some, List, [], ◌∷◌, Result, ok, err, ◌>>=◌, window_kind,
  negative_amount,
}
use chancery_integration_exa.Common.Int.{ℤ, pos, negsuc, negate, scale, leb_ℤ, ltb_ℤ}
use chancery_integration_exa.Settlement.{SettlementAction, mint, redeem}

-- `floorDivision` by a positive denominator; the quotient of two bigints is cut towards zero.
unfoldable pub floor_division : ℤ → ℕ → ℤ
floor_division (pos n) d = pos (n / d)
floor_division (negsuc n) d = if suc n % d == 0 then negate (suc n / d) else negsuc (suc n / d)

-- The seconds of a window; the kinds are those of `WINDOW_KIND`.
unfoldable pub period_seconds : ℕ → Result ℕ
period_seconds kind =
    if kind == 0
    then ok 3600
    else if kind == 1
    then ok 86400
    else if kind == 2
    then ok 604800
    else if kind == 3
    then ok 2592000
    else err window_kind

-- `canonicalWindowStart`
unfoldable pub canonical_window_start : ℕ → ℤ → Result ℤ
canonical_window_start kind timestamp =
    period_seconds kind >>= λ period. ok (scale (floor_division timestamp period) period)

pub record LimitPolicy : Type 0 where
  pub per_transaction_maximum : ℕ
  pub per_hour_maximum : ℕ
  pub per_day_maximum : ℕ
  pub per_seven_day_maximum : ℕ
  pub per_thirty_day_maximum : ℕ
  pub maximum_actions_per_hour : ℕ
  pub maximum_actions_per_day : ℕ

-- An account of one window; the two words of an accumulator are low word first.
pub record UsageWindow : Type 0 where
  pub window_start : ℤ
  pub gross_in : ℕ × ℕ
  pub gross_output_amount : ℕ × ℕ
  pub action_count : ℕ

-- `wordsToUnsigned128`: the or of words of 64 bits.
unfoldable pub words_to_unsigned128 : ℕ × ℕ → ℕ
words_to_unsigned128 words = words.0 + words.1 * 2 ^ 64

unfoldable pub accumulator : SettlementAction → UsageWindow → ℕ
accumulator mint w = words_to_unsigned128 w.gross_in
accumulator redeem w = words_to_unsigned128 w.gross_output_amount

pub record LimitWindowObservation : Type 0 where
  pub kind : ℕ
  pub maximum : ℕ
  pub stored_window_start : Option ℤ
  pub canonical_start : ℤ
  pub rolled_before_check : Bool
  pub clock_regression : Bool
  pub current_amount : ℕ
  pub proposed_amount : ℕ
  pub projected_amount : ℕ
  pub remaining_before : Option ℕ
  pub remaining_after : Option ℕ
  pub allowed : Bool
  pub current_action_count : ℕ
  pub projected_action_count : ℕ
  pub maximum_action_count : ℕ
  pub action_remaining_before : Option ℕ
  pub action_remaining_after : Option ℕ
  pub action_allowed : Bool

pub record LimitObservation : Type 0 where
  pub action : SettlementAction
  pub transaction_maximum : ℕ
  pub transaction_proposed : ℕ
  pub transaction_remaining_before : Option ℕ
  pub transaction_remaining_after : Option ℕ
  pub transaction_allowed : Bool
  pub windows : List LimitWindowObservation

-- `maximum === 0n ? null : maximumBigInt(maximum - amount, 0n)`; a difference on ℕ stops at 0.
unfoldable pub remaining_of : ℕ → ℕ → Option ℕ
remaining_of maximum amount = if maximum == 0 then none else some (maximum - amount)

-- `storedStart !== null && storedStart === canonicalStart`, and the counters that are then used.
unfoldable pub uses_stored : Option UsageWindow → ℤ → Bool
uses_stored none start = false
uses_stored (some w) start = leb_ℤ w.window_start start && leb_ℤ start w.window_start

unfoldable pub stored_amount : SettlementAction → Option UsageWindow → ℤ → ℕ
stored_amount action none start = 0
stored_amount action (some w) start = if uses_stored (some w) start then accumulator action w else 0

unfoldable pub stored_count : Option UsageWindow → ℤ → ℕ
stored_count none start = 0
stored_count (some w) start = if uses_stored (some w) start then w.action_count else 0

unfoldable pub stored_start : Option UsageWindow → Option ℤ
stored_start none = none
stored_start (some w) = some w.window_start

-- `storedStart !== null && storedStart < canonicalStart`
unfoldable pub is_rolled : Option UsageWindow → ℤ → Bool
is_rolled none start = false
is_rolled (some w) start = ltb_ℤ w.window_start start

-- `storedStart !== null && storedStart > canonicalStart`
unfoldable pub is_regressed : Option UsageWindow → ℤ → Bool
is_regressed none start = false
is_regressed (some w) start = ltb_ℤ start w.window_start

-- One turn of the loop of `observeLimitPolicy`, behind the window's start.
unfoldable pub observe_from :
    SettlementAction → ℕ → ℕ → ℕ → ℕ → Option UsageWindow → ℤ → LimitWindowObservation
observe_from action proposed kind maximum maximum_actions w start =
    let regression = is_regressed w start in
    let current = stored_amount action w start in
    let count = stored_count w start in
    let projected = current + proposed in
    record {
      kind = kind;
      maximum = maximum;
      stored_window_start = stored_start w;
      canonical_start = start;
      rolled_before_check = is_rolled w start;
      clock_regression = regression;
      current_amount = current;
      proposed_amount = proposed;
      projected_amount = projected;
      remaining_before = remaining_of maximum current;
      remaining_after = remaining_of maximum projected;
      allowed = not regression && (maximum == 0 || leb projected maximum);
      current_action_count = count;
      projected_action_count = count + 1;
      maximum_action_count = maximum_actions;
      action_remaining_before = remaining_of maximum_actions count;
      action_remaining_after = remaining_of maximum_actions (count + 1);
      action_allowed = not regression && (maximum_actions == 0 || leb (count + 1) maximum_actions);
    }

unfoldable pub observe_window :
    SettlementAction → ℕ → ℤ → ℕ → ℕ → ℕ → Option UsageWindow → Result LimitWindowObservation
observe_window action proposed now kind maximum maximum_actions w =
    canonical_window_start kind now >>= λ start.
    ok (observe_from action proposed kind maximum maximum_actions w start)

-- `windows`: hourly, daily, weekly, monthly.
pub record UsageWindows : Type 0 where
  pub hourly : Option UsageWindow
  pub daily : Option UsageWindow
  pub weekly : Option UsageWindow
  pub monthly : Option UsageWindow

-- `observeLimitPolicy`
unfoldable pub observe_limit_policy :
    LimitPolicy → SettlementAction → ℤ → UsageWindows → ℤ → Result LimitObservation
observe_limit_policy policy action (negsuc n) ws now = err negative_amount
observe_limit_policy policy action (pos amount) ws now = do
  hour ←
      observe_window action amount now 0 policy.per_hour_maximum policy.maximum_actions_per_hour
        ws.hourly
  day ←
      observe_window action amount now 1 policy.per_day_maximum policy.maximum_actions_per_day
        ws.daily
  week ← observe_window action amount now 2 policy.per_seven_day_maximum 0 ws.weekly
  month ← observe_window action amount now 3 policy.per_thirty_day_maximum 0 ws.monthly
  ok (record {
    action = action;
    transaction_maximum = policy.per_transaction_maximum;
    transaction_proposed = amount;
    transaction_remaining_before =
        if policy.per_transaction_maximum == 0 then none else some policy.per_transaction_maximum;
    transaction_remaining_after = remaining_of policy.per_transaction_maximum amount;
    transaction_allowed =
        policy.per_transaction_maximum == 0 || leb amount policy.per_transaction_maximum;
    windows = hour ∷ (day ∷ (week ∷ (month ∷ [])));
  })
