-- ===== src/Admin/Laws.antt =====
-- What the administrators' operations promise.
use zcode2api_plus.Common.{
  ℕ, ◌≤◌, ◌≡◌, ◌⊎◌, true, false, not, ◌&&◌, none, some, Text, is_some, arith,
}
use zcode2api_plus.Account.{Account, Status, is_invalid, initialization_blocked}
use zcode2api_plus.Account.Scheduling.{
  is_selectable, is_risk_control_invalid, in_risk_control_silent_window, risk_control_silent_until,
}
use zcode2api_plus.Admin.{cools_past, apply_enabled, set_archived, RecoverError, recover_account}

-- Disabling an account and enabling it again is no way round a verdict: what may be called after
-- that was not invalid before, and had no cooling that still runs.
pub enable_after_disable :
    (off on later : ℕ) (a : Account)
    → on ≤ later
    → is_selectable (apply_enabled on (apply_enabled off a false) true) later ≡ true
    → (is_invalid a.status ≡ false) × (cools_past a.cooling_until later ≡ false)
unfolding apply_enabled is_selectable initialization_blocked
enable_after_disable off on later a l h = (ground arith, ground arith)

-- But it does clear whole-account exhaustion: a used-up account with no cooling that still runs comes
-- back as an active one.
pub enable_clears_exhausted :
    (off on : ℕ) (a : Account)
    → a.status ≡ Status.exhausted
    → cools_past a.cooling_until on ≡ false
    → (apply_enabled on (apply_enabled off a false) true).status ≡ Status.active
unfolding apply_enabled
enable_clears_exhausted off on a e c = ground arith

-- Archiving stops an account at once and for good; bringing it back leaves it disabled, so that
-- it is called again only when it is enabled as well.
pub set_archived_lem :
    (at back later : ℕ) (a : Account)
    → (is_selectable (set_archived at a true) later ≡ false)
      × (is_selectable (set_archived back (set_archived at a true) false) later ≡ false)
      × ((set_archived back (set_archived at a true) false).enabled ≡ false)
unfolding set_archived is_selectable initialization_blocked
set_archived_lem at back later a = (ground arith, ground arith, ground arith)

-- Recovery is refused, with the account unchanged, unless risk control made it invalid and it is
-- not archived. Otherwise the account starts a new row of risk control answers, and may be called
-- once its silent window is over, where one is kept, and not before.
pub recover_account_lem :
    (silent_window : ℕ) (note : Text) (now later : ℕ) (a : Account)
    → now ≤ later
    → let (b, error) = recover_account silent_window note now a in
      ((error ≡ some RecoverError.account_archived) × (is_some a.archived_at ≡ true) × (b ≡ a))
      ⊎ ((error ≡ some RecoverError.account_not_recoverable)
          × (is_some a.archived_at ≡ false)
          × (is_risk_control_invalid a ≡ false)
          × (b ≡ a))
      ⊎ ((error ≡ none)
          × (is_some a.archived_at ≡ false)
          × (is_risk_control_invalid a ≡ true)
          × (b.risk_control_streak ≡ 0)
          × (is_selectable b later ≡ (
              not (in_risk_control_silent_window a later silent_window)
              && is_selectable (record a { status = Status.active }) later)))
unfolding recover_account is_selectable initialization_blocked in_risk_control_silent_window
    risk_control_silent_until
recover_account_lem silent_window note now later a l = ground arith
