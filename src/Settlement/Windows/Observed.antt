-- ===== src/Settlement/Windows/Observed.antt =====
-- What `observeLimitPolicy` reports of a window.
use chancery_integration_exa.Common.{
  ℕ, ◌+◌, ◌-◌, ◌≤◌, ◌≡◌, ◌≢◌, ◌↔◌, arith, true, false, Option, some, ok, >>=-eq-ok,
}
use chancery_integration_exa.Common.Int.{ℤ, ltb_ℤ, pos_part, neg_part}
use chancery_integration_exa.Settlement.{SettlementAction}
use chancery_integration_exa.Settlement.Windows.{
  canonical_window_start, UsageWindow, LimitWindowObservation, remaining_of, uses_stored,
  stored_amount, stored_count, is_rolled, is_regressed, observe_from, observe_window,
}
use chancery_integration_exa.Settlement.Windows.Starts.{canonical_window_start_monotone}

module _ (action : SettlementAction) (proposed : ℕ) (now : ℤ)
    (kind maximum maximum_actions : ℕ) where
  allows_from :
      (w : Option UsageWindow) (start : ℤ) (q : LimitWindowObservation)
      → maximum ≢ 0
      → observe_from action proposed kind maximum maximum_actions w start ≡ q
      → q.allowed ≡ true
      → (before : ℕ) × (after : ℕ) × (q.remaining_before ≡ some before)
        × (q.remaining_after ≡ some after)
        × (before ≡ after + proposed)
        × (q.projected_amount + after ≡ maximum)
  unfolding observe_from remaining_of
  allows_from w start q limited same = rw (← same) (λ allowed. (
    maximum - stored_amount action w start,
    maximum - (stored_amount action w start + proposed),
    ground arith,
    ground arith,
    ground arith,
    ground arith,
  ))

  -- A window with a maximum that allows an amount had room for it: what is left falls by exactly the
  -- amount, and the projected total and what is left make up the maximum.
  pub window_allows :
      (w : Option UsageWindow) (q : LimitWindowObservation)
      → maximum ≢ 0
      → observe_window action proposed now kind maximum maximum_actions w ≡ ok q
      → q.allowed ≡ true
      → (before : ℕ) × (after : ℕ) × (q.remaining_before ≡ some before)
        × (q.remaining_after ≡ some after)
        × (before ≡ after + proposed)
        × (q.projected_amount + after ≡ maximum)
  unfolding observe_window
  window_allows w q limited e allowed =
      let (start, _, shown) = >>=-eq-ok (canonical_window_start kind now) _ e in
      let same : observe_from action proposed kind maximum maximum_actions w start ≡ q = cc shown in
      allows_from w start q limited same allowed

  -- A window that was stored in an earlier period counts as empty: nothing of it is used up, its
  -- clock is in order, and the amount is allowed exactly if there is no maximum or it is no more.
  pub window_rolls :
      (w : UsageWindow) (start : ℤ) (q : LimitWindowObservation)
      → observe_window action proposed now kind maximum maximum_actions (some w) ≡ ok q
      → canonical_window_start kind now ≡ ok start
      → ltb_ℤ w.window_start start ≡ true
      → (q.rolled_before_check ≡ true)
        × (q.current_amount ≡ 0)
        × (q.current_action_count ≡ 0)
        × (q.clock_regression ≡ false)
        × ((q.allowed ≡ true) ↔ (maximum ≢ 0 → proposed ≤ maximum))
  unfolding observe_window observe_from stored_amount stored_count uses_stored is_rolled
      is_regressed
  window_rolls w start q e known earlier =
      let same : observe_from action proposed kind maximum maximum_actions (some w) start ≡ q =
        cc (known, e) in
      rw (← same) (ground arith, ground arith, ground arith, ground arith, ground arith)

  -- A window whose start was canonical at an earlier time is never taken for a clock that runs
  -- backwards.
  pub window_clock :
      (w : UsageWindow) (earlier : ℤ) (q : LimitWindowObservation)
      → pos_part earlier + neg_part now ≤ pos_part now + neg_part earlier
      → canonical_window_start kind earlier ≡ ok w.window_start
      → observe_window action proposed now kind maximum maximum_actions (some w) ≡ ok q
      → q.clock_regression ≡ false
  unfolding observe_window observe_from is_regressed
  window_clock w earlier q le stored e =
      let (start, known, shown) = >>=-eq-ok (canonical_window_start kind now) _ e in
      let same : observe_from action proposed kind maximum maximum_actions (some w) start ≡ q =
        cc shown in
      rw (← same) (
        ground (
          arith,
          canonical_window_start_monotone kind earlier now w.window_start start le stored known,
        ))
