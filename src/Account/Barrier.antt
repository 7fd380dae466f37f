-- ===== src/Account/Barrier.antt =====
-- The reported scheduling barrier agrees with the test that selection makes.
use zcode2api_plus.Common.{
  ℕ, ◌≤◌, ◌<◌, ◌≡◌, ◌↔◌, Bool, true, false, not, ◌&&◌, none, some, if◌then◌else◌, arith, is_nil,
}
use zcode2api_plus.Account.{
  Account, Status, is_exhausted, is_jwt, deref_string, initialization_blocked,
}
use zcode2api_plus.Account.Scheduling.{
  Reason, is_selectable, is_auto_claim_target, effective_status, in_risk_control_silent_window,
  local_scheduling_barrier,
}

-- One of the five registered statuses.
abbrev pub is_known : Status → Bool
is_known (Status.other t) = false
is_known _ = true

-- An account with a registered status is reported as ready exactly when selection may take it and
-- it stands in no isolation window.
pub barrier_ready :
    (a : Account) (now window : ℕ)
    → is_known a.status ≡ true
    → ((local_scheduling_barrier (some a) now window).0 ≡ Reason.ready)
      ↔ ((is_selectable a now ≡ true) × (in_risk_control_silent_window a now window ≡ false))
unfolding local_scheduling_barrier is_selectable
barrier_ready a now window k = (ready, selected)
  where
    ready :
        (local_scheduling_barrier (some a) now window).0 ≡ Reason.ready
        → (is_selectable a now ≡ true) × (in_risk_control_silent_window a now window ≡ false)
    ready h = ground arith

    selected :
        (is_selectable a now ≡ true) × (in_risk_control_silent_window a now window ≡ false)
        → (local_scheduling_barrier (some a) now window).0 ≡ Reason.ready
    selected h = ground arith

-- A time that the barrier names lies ahead, and from then on the unchanged account is ready.
pub barrier_until :
    (a : Account) (now window until later : ℕ)
    → (local_scheduling_barrier (some a) now window).1 ≡ some until
    → until ≤ later
    → (now < until) × (local_scheduling_barrier (some a) later window ≡ (Reason.ready, none))
unfolding local_scheduling_barrier
barrier_until a now window until later h l = (ground arith, ground arith)

-- An account whose quota is used up may still claim a new plan.
abbrev pub without_exhaustion : Account → Account
without_exhaustion a = record a {
  status = if is_exhausted a.status then Status.active else a.status;
}

-- Among accounts with a registered status, automatic claiming takes the JWT accounts with a token
-- that selection would take if used-up quota did not count.
pub is_auto_claim_target_eq :
    (a : Account) (now : ℕ)
    → is_known a.status ≡ true
    → is_auto_claim_target a now ≡ (
        is_jwt a.mode
        && not (is_nil (deref_string a.jwt_token))
        && is_selectable (without_exhaustion a) now)
unfolding is_auto_claim_target is_selectable initialization_blocked
is_auto_claim_target_eq a now k = ground arith

-- An account with a registered status that selection takes shows as active.
pub selectable_shows_active :
    (a : Account) (now : ℕ)
    → is_known a.status ≡ true
    → is_selectable a now ≡ true
    → effective_status a now ≡ Status.active
unfolding effective_status is_selectable
selectable_shows_active a now k h = ground arith
