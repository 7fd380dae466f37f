-- ===== src/Marks.antt =====
-- What the outcome of a request does to its account: the callbacks and the marks of
-- internal/gateway/classify.go, riskscope.go and engine.go, `ApplyRiskControl` of
-- internal/model/riskcontrol.go. `cooling_seconds` is config.CoolingSeconds; ladders of cooling
-- times are lists of seconds. The change of proxy after a risk control answer is not modelled.
pub mod Ladder
pub mod Effects
pub mod RiskLadder
pub mod Late
use zcode2api_plus.Common.{
  ℕ, zero, suc, ◌+◌, ◌-◌, ◌*◌, Bool, true, false, not, ◌&&◌, ◌||◌, List, [], ◌∷◌, Option, none,
  some, Text, ltb, leb, if◌then◌else◌, is_nil, length, get_elem?, or_else,
}
use zcode2api_plus.Account.{
  Account, Status, ErrorKind, rate_limited, upstream_unavailable, risk_control, is_cooling,
  is_exhausted, is_invalid, accepts_request_result,
}
use zcode2api_plus.Table.{Accounts, update, update_for_request}

abbrev pub second : ℕ
second = 1_000_000_000

-- `float64(now.Add(time.Duration(secs)*time.Second).UnixNano()) / 1e9`.
abbrev pub after_seconds : ℕ → ℕ → ℕ
after_seconds now secs = now + secs * second

abbrev pub rate_limit_cooling_steps : List ℕ
rate_limit_cooling_steps = 30 ∷ 60 ∷ 120 ∷ []

-- `steps[streak-1]` for a streak of at least 1 (a smaller one counts as 1).
abbrev pub rung : List ℕ → ℕ → Option ℕ
rung steps zero = get_elem? steps 0
rung steps (suc n) = get_elem? steps n

-- The rung of the ladder, at most the cap, which is also what stands past its end.
unfoldable pub capped_seconds : ℕ → List ℕ → ℕ → ℕ
capped_seconds cap steps streak = elim (rung steps streak) [
  | none ↦ cap
  | some secs ↦ if ltb secs cap then secs else cap
]

unfoldable pub transient_cooling_seconds : ℕ → ℕ → ℕ
unfolding capped_seconds
transient_cooling_seconds cooling_seconds = capped_seconds cooling_seconds rate_limit_cooling_steps

unfoldable pub upstream_503_cooling_seconds : ℕ → List ℕ → ℕ → ℕ
unfolding capped_seconds
upstream_503_cooling_seconds = capped_seconds

-- Past the end of the ladder the account becomes invalid.
unfoldable pub risk_control_cooling_seconds : List ℕ → ℕ → ℕ × Bool
risk_control_cooling_seconds steps streak = elim (rung steps streak) [
  | none ↦ (0, true)
  | some secs ↦ (secs, false)
]

unfoldable pub stamp_account_error : Account → ErrorKind → Text → ℕ → Account
stamp_account_error a kind detail now = record a {
  last_error_kind = some kind;
  last_error_at = some now;
  last_error = if is_nil detail then a.last_error else some detail;
}

-- The callback of `MarkRateLimited`; it leaves the seconds and the streak.
unfoldable pub rate_limit : ℕ → Text → ℕ → Account → Account × (ℕ × ℕ)
unfolding transient_cooling_seconds stamp_account_error
rate_limit cooling_seconds msg now a =
    let streak = suc a.rate_limit_streak in
    let secs = transient_cooling_seconds cooling_seconds streak in
    (
      stamp_account_error
          (record a {
            rate_limit_streak = streak;
            status = Status.cooling;
            cooling_until = some (after_seconds now secs);
          })
          rate_limited msg now,
      (secs, streak),
    )

-- The callback of `MarkUpstreamUnavailable`.
unfoldable pub upstream_down : ℕ → List ℕ → Text → ℕ → Account → Account × (ℕ × ℕ)
unfolding upstream_503_cooling_seconds stamp_account_error
upstream_down cooling_seconds steps msg now a =
    let streak = suc a.upstream_503_streak in
    let secs = upstream_503_cooling_seconds cooling_seconds steps streak in
    (
      stamp_account_error
          (record a {
            fail_count = suc a.fail_count;
            upstream_503_streak = streak;
            status = Status.cooling;
            cooling_until = some (after_seconds now secs);
          })
          upstream_unavailable msg now,
      (secs, streak),
    )

-- `ApplyRiskControl`; it gives the seconds, the streak, and whether the account is now invalid.
unfoldable pub apply_risk_control : List ℕ → Text → ℕ → Account → Account × (ℕ × ℕ × Bool)
apply_risk_control steps detail now a =
    let streak = suc a.risk_control_streak in
    let hit = record a {
      risk_control_streak = streak;
      last_risk_control_at = some now;
      last_error_kind = some risk_control;
      last_error_at = some now;
      last_error = some detail;
    } in
    elim (rung steps streak) [
      | none ↦ (record hit { status = Status.invalid; cooling_until = none }, (0, streak, true))
      | some secs ↦ (
        record hit { status = Status.cooling; cooling_until = some (after_seconds now secs) },
        (secs, streak, false),
      )
    ]

-- The callback of `NoteRiskControlWithoutCooling`.
unfoldable pub note_risk_control : Text → ℕ → Account → Account
note_risk_control msg now a = record a {
  last_error_kind = some risk_control;
  last_error_at = some now;
  last_error = some msg;
  last_risk_control_at = some now;
}

-- The callback of `MarkAccount`.
unfoldable pub set_status : ℕ → Status → ErrorKind → Text → ℕ → Account → Account
unfolding stamp_account_error
set_status cooling_seconds status kind msg now a =
    stamp_account_error
      (record a {
        status = status;
        cooling_until =
            if is_cooling status then some (after_seconds now cooling_seconds) else a.cooling_until;
      })
      kind msg now

-- The callback of `bumpFail`.
unfoldable pub count_failure : ErrorKind → ℕ → Account → Account
unfolding stamp_account_error
count_failure kind now a =
    stamp_account_error (record a { fail_count = suc a.fail_count }) kind [] now

-- `ResetRateLimitStreak`, `ResetRiskControlStreak` and `ResetUpstream503Streak`, one by one.
unfoldable pub reset_streaks : Account → Account
reset_streaks a = record a {
  rate_limit_streak = 0;
  risk_control_streak = 0;
  upstream_503_streak = 0;
}

-- `ts < *live.CoolingUntil`, where there is one.
abbrev pub still_cooling : Option ℕ → ℕ → Bool
still_cooling none now = false
still_cooling (some until) now = ltb now until

-- The callback of `MarkSuccess`.
unfoldable pub succeed : Option Account → ℕ → Account → Account
unfolding reset_streaks
succeed expected now a =
    let used = record a { use_count = suc a.use_count; last_used_at = some now } in
    if not (accepts_request_result (some used) expected)
    then used
    else if is_invalid used.status
        || (is_cooling used.status && still_cooling used.cooling_until now)
    then used
    else let reset = reset_streaks used in
      if is_cooling reset.status || is_exhausted reset.status
      then record reset { status = Status.active }
      else reset

-- The marks themselves. A count of 0 says that the answer did not count.
unfoldable pub mark_rate_limited : ℕ → Accounts → Option Account → Text → ℕ → Accounts × ℕ × ℕ
unfolding update_for_request rate_limit
mark_rate_limited cooling_seconds s expected msg now =
    let (t, r) = update_for_request s expected (rate_limit cooling_seconds msg now) in
    elim r [
      | none ↦ (t, transient_cooling_seconds cooling_seconds 1, 0)
      | some (secs, streak) ↦ (t, secs, streak)
    ]

unfoldable pub mark_upstream_unavailable :
    ℕ → List ℕ → Accounts → Option Account → Text → ℕ → Accounts × ℕ × ℕ
unfolding update_for_request upstream_down
mark_upstream_unavailable cooling_seconds steps s expected msg now =
    let (t, r) = update_for_request s expected (upstream_down cooling_seconds steps msg now) in
    elim r [
      | none ↦ (t, upstream_503_cooling_seconds cooling_seconds steps 1, 0)
      | some (secs, streak) ↦ (t, secs, streak)
    ]

-- Up to the change of proxy.
unfoldable pub mark_risk_control :
    List ℕ → Accounts → Option Account → Text → ℕ → Accounts × ℕ × ℕ × Bool
unfolding update_for_request apply_risk_control
mark_risk_control steps s expected msg now =
    let (t, r) = update_for_request s expected (apply_risk_control steps msg now) in
    elim r [
      | none ↦ let (secs, invalid) = risk_control_cooling_seconds steps 1 in (t, secs, 0, invalid)
      | some (secs, streak, invalid) ↦ (t, secs, streak, invalid)
    ]

abbrev pub no_result : (Account → Account) → Account → Account × Unit {0}
no_result f a = (f a, tt)

unfoldable pub mark_account :
    ℕ → Accounts → Option Account → Status → ErrorKind → Text → ℕ → Accounts
unfolding update_for_request set_status
mark_account cooling_seconds s expected status kind msg now =
    (update_for_request s expected (no_result (set_status cooling_seconds status kind msg now))).0

unfoldable pub bump_fail : Accounts → Option Account → ErrorKind → ℕ → Accounts
unfolding update_for_request count_failure
bump_fail s expected kind now =
    (update_for_request s expected (no_result (count_failure kind now))).0

unfoldable pub record_account_error : Accounts → Option Account → ErrorKind → Text → ℕ → Accounts
unfolding update_for_request stamp_account_error
record_account_error s expected kind detail now =
    (update_for_request s expected (no_result (λ a. stamp_account_error a kind detail now))).0

unfoldable pub mark_success : Accounts → Account → ℕ → Accounts
unfolding update succeed
mark_success s expected now =
    (update s expected.provider expected.id (no_result (succeed (some expected) now))).0

-- The first half of `NoteRiskControlWithoutCooling`.
unfoldable pub record_risk_control : Accounts → Option Account → Text → ℕ → Accounts
unfolding update_for_request note_risk_control
record_risk_control s expected msg now =
    (update_for_request s expected (no_result (note_risk_control msg now))).0

-- The callbacks of `RecordStreamTruncate` and of `RecordUpstreamTruncate`.
unfoldable pub count_stream_truncate : Account → Account
count_stream_truncate a = record a { stream_truncate_count = suc a.stream_truncate_count }

unfoldable pub avoid_until : ℕ → Account → Account
avoid_until until a = record a { truncate_avoid_until = until }

-- The part of `RecordUpstreamTruncate` that writes to the account.
unfoldable pub record_upstream_truncate : ℕ → Accounts → Account → ℕ → Accounts
unfolding update update_for_request count_stream_truncate avoid_until
record_upstream_truncate avoid s e now =
    let t = (update s e.provider e.id (no_result count_stream_truncate)).0 in
    if ltb 0 avoid
    then (update_for_request t (some e) (no_result (avoid_until (after_seconds now avoid)))).0
    else t
