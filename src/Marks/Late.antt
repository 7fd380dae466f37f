-- ===== src/Marks/Late.antt =====
-- Answers that come back after an administrator has stopped their account.
use zcode2api_plus.Common.{
  ℕ, ◌≡◌, refl, if_intro, ltb, Bool, true, false, not, ◌&&◌, List, some, Text, is_none, arith,
}
use zcode2api_plus.Account.{
  Account, Status, ErrorKind, is_disabled, accepts_request_result, initialization_blocked,
}
use zcode2api_plus.Account.Scheduling.{is_selectable}
use zcode2api_plus.Table.{Accounts, find, update}
use zcode2api_plus.Table.Laws.{find-update, refused_update, KeepsNames}
use zcode2api_plus.Marks.{
  succeed, mark_rate_limited, mark_upstream_unavailable, mark_risk_control, mark_account, bump_fail,
  record_account_error, mark_success, no_result, rate_limit, upstream_down, apply_risk_control,
  set_status, count_failure, stamp_account_error, record_risk_control, record_upstream_truncate,
  note_risk_control, count_stream_truncate, avoid_until, after_seconds,
}

-- What becomes of a request, with the account it was made for.
pub data Answer : Type 0 where
  limited : ℕ → Text → Answer
  unavailable : ℕ → List ℕ → Text → Answer
  risk : List ℕ → Text → Answer
  marked : ℕ → Status → ErrorKind → Text → Answer
  failed : ErrorKind → Answer
  noted : ErrorKind → Text → Answer
  succeeded : Answer
  risk_noted : Text → Answer
  truncated : ℕ → Answer

unfoldable pub answer : Accounts → Account → ℕ → Answer → Accounts
answer s e now (limited cap msg) = (mark_rate_limited cap s (some e) msg now).0
answer s e now (unavailable cap steps msg) =
    (mark_upstream_unavailable cap steps s (some e) msg now).0
answer s e now (risk steps msg) = (mark_risk_control steps s (some e) msg now).0
answer s e now (marked cap status kind msg) = mark_account cap s (some e) status kind msg now
answer s e now (failed kind) = bump_fail s (some e) kind now
answer s e now (noted kind detail) = record_account_error s (some e) kind detail now
answer s e now succeeded = mark_success s e now
answer s e now (risk_noted msg) = record_risk_control s (some e) msg now
answer s e now (truncated avoid) = record_upstream_truncate avoid s e now

-- Disabled, by switch or status, or archived.
unfoldable pub is_stopped : Account → Bool
is_stopped a = not (a.enabled && not (is_disabled a.status) && is_none a.archived_at)

stopped_refuses :
    (a e : Account) → is_stopped a ≡ true → accepts_request_result (some a) (some e) ≡ false
unfolding is_stopped accepts_request_result
stopped_refuses a e h = ground arith

stopped_succeed :
    (a e : Account) (now : ℕ) → is_stopped a ≡ true → is_stopped (succeed (some e) now a) ≡ true
unfolding is_stopped succeed accepts_request_result
stopped_succeed a e now h = ground arith

pub stopped_unselectable :
    (a : Account) (now : ℕ) → is_stopped a ≡ true → is_selectable a now ≡ false
unfolding is_stopped is_selectable initialization_blocked
stopped_unselectable a now h = ground arith

-- What is found under the name of the account.
abbrev pub StaysStopped : Accounts → Text → Text → Type 0
StaysStopped s provider id = (b : Account) × (find s provider id ≡ some b) × (is_stopped b ≡ true)

truncate_stopped :
    (avoid : ℕ) (s : Accounts) (e a : Account) (now : ℕ)
    → find s e.provider e.id ≡ some a
    → is_stopped a ≡ true
    → StaysStopped (record_upstream_truncate avoid s e now) e.provider e.id
unfolding record_upstream_truncate count_stream_truncate is_stopped
truncate_stopped avoid s e a now f h =
    let t = (update s e.provider e.id (no_result count_stream_truncate)).0 in
    let g =
      find-update (no_result count_stream_truncate) (λ b. (refl, refl)) s e.provider e.id a f in
    let (same, none_told) =
      refused_update t e (count_stream_truncate a)
        (no_result (avoid_until (after_seconds now avoid))) g
        (stopped_refuses (count_stream_truncate a) e h) in
    if_intro (λ u. StaysStopped u e.provider e.id) (ltb 0 avoid)
      (λ y. rw same (count_stream_truncate a, g, h)) (λ n. (count_stream_truncate a, g, h))

succeed_names : (e : Account) (now : ℕ) → KeepsNames (no_result (succeed (some e) now))
unfolding succeed
succeed_names e now a = ground arith

pub answer_stopped :
    (s : Accounts) (e a : Account) (now : ℕ) (r : Answer)
    → find s e.provider e.id ≡ some a
    → is_stopped a ≡ true
    → StaysStopped (answer s e now r) e.provider e.id
unfolding answer mark_rate_limited mark_upstream_unavailable mark_risk_control mark_account
    bump_fail record_account_error mark_success record_risk_control
answer_stopped s e a now (limited cap msg) f h =
    let (same, none_told) =
      refused_update s e a (rate_limit cap msg now) f (stopped_refuses a e h) in
    rw (answer, mark_rate_limited, none_told, same) (a, f, h)
answer_stopped s e a now (unavailable cap steps msg) f h =
    let (same, none_told) =
      refused_update s e a (upstream_down cap steps msg now) f (stopped_refuses a e h) in
    rw (answer, mark_upstream_unavailable, none_told, same) (a, f, h)
answer_stopped s e a now (risk steps msg) f h =
    let (same, none_told) =
      refused_update s e a (apply_risk_control steps msg now) f (stopped_refuses a e h) in
    rw (answer, mark_risk_control, none_told, same) (a, f, h)
answer_stopped s e a now (marked cap status kind msg) f h =
    let (same, none_told) =
      refused_update s e a (no_result (set_status cap status kind msg now)) f
        (stopped_refuses a e h) in
    rw (answer, mark_account, same) (a, f, h)
answer_stopped s e a now (failed kind) f h =
    let (same, none_told) =
      refused_update s e a (no_result (count_failure kind now)) f (stopped_refuses a e h) in
    rw (answer, bump_fail, same) (a, f, h)
answer_stopped s e a now (noted kind detail) f h =
    let (same, none_told) =
      refused_update s e a (no_result (λ b. stamp_account_error b kind detail now)) f
        (stopped_refuses a e h) in
    rw (answer, record_account_error, same) (a, f, h)
answer_stopped s e a now succeeded f h = (
  succeed (some e) now a,
  find-update (no_result (succeed (some e) now)) (succeed_names e now) s e.provider e.id a f,
  stopped_succeed a e now h,
)
answer_stopped s e a now (risk_noted msg) f h =
    let (same, none_told) =
      refused_update s e a (no_result (note_risk_control msg now)) f (stopped_refuses a e h) in
    rw (answer, record_risk_control, same) (a, f, h)
answer_stopped s e a now (truncated avoid) f h = truncate_stopped avoid s e a now f h
