-- ===== src/PoolStat.antt =====
-- The state of the pool as the error answer reports it when no account can be chosen: `PoolStats` of
-- internal/store/store.go.
pub mod Counts
use zcode2api_plus.Common.{
  ℕ, ◌+◌, ◌*◌, Bool, true, false, not, ◌&&◌, ◌||◌, List, [], ◌∷◌, Option, none, some, Text, codes,
  ltb, if◌then◌else◌, is_nil, is_none, is_some, or_else, lookup, insert,
}
use zcode2api_plus.Account.{
  Account, ErrorKind, Status, initialization_blocked, is_cooling, is_disabled, is_exhausted,
  is_invalid, upstream_overload, rate_limited, quota_exhausted, model_busy, auth_failed,
  connection_failed, upstream_unavailable, captcha_failed, invalid_response, client_canceled,
  upstream_error, quota_query_failed, risk_control, other_kind,
}
use zcode2api_plus.Account.Scheduling.{passed, in_risk_control_silent_window}
use zcode2api_plus.Account.Quota.{Availability, model_availability}
use zcode2api_plus.Account.Expiry.{soonest_non_refreshing_expiry}
use zcode2api_plus.Selection.{View, nanos_per_day}

pub record PoolStat : Type 0 where
  pub initializing : ℕ
  pub total : ℕ
  pub archived : ℕ
  pub disabled : ℕ
  pub invalid : ℕ
  pub exhausted : ℕ
  pub cooling : ℕ
  pub risk_silent : ℕ
  pub active : ℕ
  pub expiring_soon : ℕ
  pub cooling_earliest : Option ℕ
  pub cooling_by_kind : List (Text × ℕ)
  pub model_stat : List (Text × ℕ)

unfoldable pub empty_stat : PoolStat
empty_stat = record {
  initializing = 0;
  total = 0;
  archived = 0;
  disabled = 0;
  invalid = 0;
  exhausted = 0;
  cooling = 0;
  risk_silent = 0;
  active = 0;
  expiring_soon = 0;
  cooling_earliest = none;
  cooling_by_kind = [];
  model_stat = [];
}

unfoldable pub kind_text : ErrorKind → Text
kind_text upstream_overload = codes "upstream_overload"
kind_text rate_limited = codes "rate_limited"
kind_text quota_exhausted = codes "quota_exhausted"
kind_text model_busy = codes "model_busy"
kind_text auth_failed = codes "auth_failed"
kind_text connection_failed = codes "connection_failed"
kind_text upstream_unavailable = codes "upstream_unavailable"
kind_text captcha_failed = codes "captcha_failed"
kind_text invalid_response = codes "invalid_response"
kind_text client_canceled = codes "client_canceled"
kind_text upstream_error = codes "upstream_error"
kind_text quota_query_failed = codes "quota_query_failed"
kind_text risk_control = codes "risk_control"
kind_text (other_kind s) = s

abbrev pub cooling_kind : Option ErrorKind → Text
cooling_kind none = []
cooling_kind (some k) = kind_text k

unfoldable pub availability_text : Availability → Text
availability_text Availability.available = codes "available"
availability_text Availability.exhausted = codes "exhausted"
availability_text Availability.absent = codes "absent"
availability_text Availability.disabled = codes "disabled"
availability_text Availability.unknown = codes "unknown"

-- `m[k]++`.
abbrev pub count_up : Text → List (Text × ℕ) → List (Text × ℕ)
count_up k m = insert k (or_else (lookup k m) 0 + 1) m

-- The earlier of the two, where there are two.
abbrev pub earliest : Option ℕ → Option ℕ → Option ℕ
earliest none best = best
earliest (some t) none = some t
earliest (some t) (some best) = some (if ltb t best then t else best)

unfoldable pub count_cooling : Account → PoolStat → PoolStat
count_cooling a s = record s {
  cooling = s.cooling + 1;
  cooling_earliest = earliest a.cooling_until s.cooling_earliest;
  cooling_by_kind = count_up (cooling_kind a.last_error_kind) s.cooling_by_kind;
}

unfoldable pub count_active : View → Text → ℕ → Account → PoolStat → PoolStat
count_active v model now a s =
    let expires =
      ltb 0 v.expire_first_days
      && is_some
          (soonest_non_refreshing_expiry a model now (v.expire_first_days * nanos_per_day)) in
    if is_nil model then record s { active = s.active + 1 } else record s {
      active = s.active + 1;
      model_stat = count_up (availability_text (model_availability a model)) s.model_stat;
      expiring_soon = if expires then s.expiring_soon + 1 else s.expiring_soon;
    }

-- One turn of the loop, after the task projection has been published.
unfoldable pub count_account : View → Text → ℕ → PoolStat → Account → PoolStat
count_account v model now before a =
    let s = record before { total = before.total + 1 } in
    if initialization_blocked a
    then record s { initializing = s.initializing + 1 }
    else if is_some a.archived_at
    then record s { archived = s.archived + 1 }
    else if not a.enabled || is_disabled a.status
    then record s { disabled = s.disabled + 1 }
    else if is_invalid a.status
    then record s { invalid = s.invalid + 1 }
    else if is_exhausted a.status
    then record s { exhausted = s.exhausted + 1 }
    else if is_cooling a.status && not (passed a.cooling_until now)
    then count_cooling a s
    else if in_risk_control_silent_window a now v.silent_window
    then record s { risk_silent = s.risk_silent + 1 }
    else count_active v model now a s

abbrev pub project : View → Account → Account
project v a = record a { initialization = v.initialization_of a }

unfoldable pub stats_from : View → Text → ℕ → PoolStat → List Account → PoolStat
stats_from v model now s [] = s
stats_from v model now s (a ∷ xs) =
    stats_from v model now (count_account v model now s (project v a)) xs

unfoldable pub pool_stats : View → Text → ℕ → List Account → PoolStat
pool_stats v model now accounts = stats_from v model now empty_stat accounts
