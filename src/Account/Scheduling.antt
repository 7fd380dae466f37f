-- ===== src/Account/Scheduling.antt =====
-- Which accounts may be called, and why not: the tests of internal/model/account.go,
-- internal/model/scheduling.go and internal/model/riskcontrol.go that read the clock.
use zcode2api_plus.Common.{
  ℕ, ◌+◌, Bool, true, false, not, ◌&&◌, ◌||◌, Option, none, some, Text, ltb, leb, if◌then◌else◌,
  is_none, is_some, is_nil, [],
}
use zcode2api_plus.Account.{
  Account, Status, is_active, is_exhausted, is_cooling, is_invalid, is_disabled, is_jwt,
  is_risk_control, is_manageable, deref_string, initialization_blocked,
}

-- `t != nil && !now.Before(unixTime(*t))`.
abbrev pub passed : Option ℕ → ℕ → Bool
passed none now = false
passed (some t) now = not (ltb now t)

unfoldable pub is_quota_refresh_target : Account → Bool
unfolding initialization_blocked
is_quota_refresh_target a =
    not (initialization_blocked a)
    && is_jwt a.mode
    && is_none a.archived_at
    && a.enabled
    && not (is_disabled a.status)

unfoldable pub is_auto_claim_target : Account → ℕ → Bool
unfolding is_manageable
is_auto_claim_target a now =
    if a.model_probe_only
      || initialization_blocked a
      || not (is_jwt a.mode)
      || is_none a.jwt_token
      || is_nil (deref_string a.jwt_token)
      || is_some a.archived_at
      || not a.enabled
      || not (is_manageable a.status)
    then false
    else not (is_cooling a.status) || passed a.cooling_until now

unfoldable pub is_selectable : Account → ℕ → Bool
is_selectable a now =
    if a.model_probe_only
    then false
    else if initialization_blocked a
    then false
    else if is_some a.archived_at
    then false
    else if not a.enabled || is_disabled a.status || is_invalid a.status
    then false
    else if is_exhausted a.status
    then false
    else if is_cooling a.status
    then passed a.cooling_until now
    else true

unfoldable pub effective_status : Account → ℕ → Status
effective_status a now =
    if is_cooling a.status && passed a.cooling_until now then Status.active else a.status

unfoldable pub is_risk_control_invalid : Account → Bool
is_risk_control_invalid a = is_invalid a.status && is_risk_control a.last_error_kind

-- A window of 0 is off, as is a negative one in the source.
unfoldable pub in_risk_control_silent_window : Account → ℕ → ℕ → Bool
in_risk_control_silent_window a now window = elim a.last_risk_control_at [
  | none ↦ false
  | some t ↦ ltb 0 window && ltb now (t + window)
]

unfoldable pub risk_control_silent_until : Account → ℕ → Option ℕ
risk_control_silent_until a window = elim a.last_risk_control_at [
  | none ↦ none
  | some t ↦ if ltb 0 window then some (t + window) else none
]

-- The reason strings of `LocalSchedulingBarrier`.
pub data Reason : Type 0 where
  missing model_probe_only archived disabled : Reason
  initialization : Text → Reason
  invalid exhausted unknown ready cooling risk_isolation : Reason

-- The end of the function: an isolation window that ends no earlier takes the place of what the
-- cooling gave.
unfoldable pub isolate : Account → ℕ → ℕ → Reason × Option ℕ → Reason × Option ℕ
unfolding in_risk_control_silent_window risk_control_silent_until
isolate a now window (reason, until) =
    if in_risk_control_silent_window a now window
    then elim (risk_control_silent_until a window) [
      | none ↦ (reason, until)
      | some r ↦ elim until [
        | none ↦ (Reason.risk_isolation, some r)
        | some u ↦ if leb u r then (Reason.risk_isolation, some r) else (reason, some u)
      ]
    ]
    else (reason, until)

abbrev pub init_reason : Account → Text
init_reason a = elim a.initialization [ none ↦ [] | some v ↦ v.reason ]

-- The cooling part: a reason, and until when; `none` returns at once.
unfoldable pub cooling_barrier : Account → ℕ → ℕ → Reason × Option ℕ
unfolding isolate
cooling_barrier a now window =
    if is_cooling a.status
    then elim a.cooling_until [
      | none ↦ (Reason.cooling, none)
      | some c ↦
          isolate a now window
            (if ltb now c then (Reason.cooling, some c) else (Reason.ready, none))
    ]
    else isolate a now window (Reason.ready, none)

unfoldable pub local_scheduling_barrier : Option Account → ℕ → ℕ → Reason × Option ℕ
unfolding cooling_barrier
local_scheduling_barrier none now window = (Reason.missing, none)
local_scheduling_barrier (some a) now window =
    if a.model_probe_only
    then (Reason.model_probe_only, none)
    else if is_some a.archived_at
    then (Reason.archived, none)
    else if not a.enabled || is_disabled a.status
    then (Reason.disabled, none)
    else if initialization_blocked a
    then (Reason.initialization (init_reason a), none)
    else if is_invalid a.status
    then (Reason.invalid, none)
    else if is_exhausted a.status
    then (Reason.exhausted, none)
    else if not (is_active a.status) && not (is_cooling a.status)
    then (Reason.unknown, none)
    else cooling_barrier a now window
