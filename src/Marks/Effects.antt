-- ===== src/Marks/Effects.antt =====
-- When an account may be called again after each mark.
use zcode2api_plus.Common.{ℕ, suc, ◌≡◌, true, false, not, ◌&&◌, List, some, Text, leb, arith}
use zcode2api_plus.Account.{Account, Status, initialization_blocked, accepts_request_result}
use zcode2api_plus.Account.Scheduling.{is_selectable}
use zcode2api_plus.Table.{Accounts, find}
use zcode2api_plus.Table.Laws.{KeepsNames, accepted_update}
use zcode2api_plus.Marks.{
  after_seconds, mark_rate_limited, rate_limit, upstream_down, apply_risk_control,
}

-- The account with nothing but its status set back to active.
abbrev pub as_active : Account → Account
as_active a = record a { status = Status.active }

-- A rate limit stops an account until the end of its cooling, and for no longer: from then on it
-- may be called exactly if it could be with an active status.
pub rate_limit_selectable :
    (cooling_seconds : ℕ) (msg : Text) (now later : ℕ) (a : Account)
    → let (b, r) = rate_limit cooling_seconds msg now a in
      is_selectable b later
      ≡ (leb (after_seconds now r.0) later && is_selectable (as_active a) later)
unfolding rate_limit is_selectable initialization_blocked
rate_limit_selectable cooling_seconds msg now later a = ground arith

-- The same of an answer 503.
pub upstream_down_selectable :
    (cooling_seconds : ℕ) (steps : List ℕ) (msg : Text) (now later : ℕ) (a : Account)
    → let (b, r) = upstream_down cooling_seconds steps msg now a in
      is_selectable b later
      ≡ (leb (after_seconds now r.0) later && is_selectable (as_active a) later)
unfolding upstream_down is_selectable initialization_blocked
upstream_down_selectable cooling_seconds steps msg now later a = ground arith

-- A risk control answer stops an account until the end of its cooling, and for good when it made
-- the account invalid.
pub apply_risk_control_selectable :
    (steps : List ℕ) (detail : Text) (now later : ℕ) (a : Account)
    → let (b, r) = apply_risk_control steps detail now a in
      is_selectable b later
      ≡ (not r.2 && (leb (after_seconds now r.0) later && is_selectable (as_active a) later))
unfolding apply_risk_control is_selectable initialization_blocked
apply_risk_control_selectable steps detail now later a = ground arith

-- The callback, with a name that it keeps.
rate_limit_names :
    (cooling_seconds : ℕ) (msg : Text) (now : ℕ) → KeepsNames (rate_limit cooling_seconds msg now)
unfolding rate_limit
rate_limit_names cooling_seconds msg now a = ground arith

-- A rate limit that arrives late puts an account that is invalid back into rotation: where the
-- program takes the answer for one of the account's login, the account that it writes is no longer
-- stopped by its status, and may be called from the end of the cooling on exactly if it could be
-- with an active status; before, it could not be called at all.
pub rate_limit_revives_invalid :
    (cooling_seconds : ℕ) (msg : Text) (now later : ℕ) (s : Accounts) (e a : Account)
    → find s e.provider e.id ≡ some a
    → accepts_request_result (some a) (some e) ≡ true
    → a.status ≡ Status.invalid
    → (is_selectable a later ≡ false)
      × ((b : Account) × (find
              (mark_rate_limited cooling_seconds s (some e) msg now).0
              e.provider
              e.id
            ≡ some b)
          × (is_selectable b later ≡ (
              leb (after_seconds now (rate_limit cooling_seconds msg now a).1.0) later
              && is_selectable (as_active a) later)))
unfolding mark_rate_limited
rate_limit_revives_invalid cooling_seconds msg now later s e a f t i =
    let (found, told) =
      accepted_update (rate_limit cooling_seconds msg now)
        (rate_limit_names cooling_seconds msg now) s e a f t in
    (
      invalid_refused,
      (
        (rate_limit cooling_seconds msg now a).0,
        rw (mark_rate_limited, told) found,
        rate_limit_selectable cooling_seconds msg now later a,
      ),
    )
  where
    invalid_refused : is_selectable a later ≡ false
    invalid_refused = unfold is_selectable in ground arith

abbrev counted : ℕ → Account → Account
counted now a = record a { use_count = suc a.use_count; last_used_at = some now }
