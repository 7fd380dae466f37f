-- ===== src/Line.antt =====
-- The health of proxy lines: internal/store/line405.go (answers 405) and proxy_soft_failure.go
-- (requests that were not completed), with proxy_egress.go. Times are nanoseconds since the epoch,
-- what the entries keep is milliseconds. The settings are not negative, as config.go makes them.
-- Writing an entry to the database and moving accounts off a line are not modelled.
pub mod Reject
pub mod Soft
pub mod Prune
pub mod Sorting
pub mod Oldest
pub mod Sound
pub mod Isolation
pub mod Row
pub mod Probation
pub mod Quarantine
pub mod First
pub mod Limits
pub mod Account405
use zcode2api_plus.Common.{
  ℕ, zero, suc, ◌+◌, ◌-◌, ◌*◌, ◌/◌, ◌^◌, Bool, true, false, not, ◌&&◌, ◌||◌, List, [], ◌∷◌, ◌++◌,
  Option, none, some, Text, codes, text_eq, text_ne, ltb, leb, ◌==◌, if◌then◌else◌, is_nil, length,
  keep, lookup, insert, delete, min, max,
}
use zcode2api_plus.Marks.{second}

abbrev pub minute : ℕ
minute = 60 * second

abbrev pub hour : ℕ
hour = 60 * minute

abbrev pub milli : ℕ
milli = 1_000_000

pub record ProxyEgress : Type 0 where
  pub id : Text
  pub mode : Text
  pub generation : ℕ
  pub identity : Text

pub record Settings : Type 0 where
  -- config.Line405MinStreak, Line405QuarantineMinutes, Line405MaxQuarantineMinutes,
  -- Line405ProbeCooldownMinutes and Line405ProbePerHour.
  pub min_streak : ℕ
  pub quarantine_minutes : ℕ
  pub max_quarantine_minutes : ℕ
  pub probe_cooldown_minutes : ℕ
  pub probe_per_hour : ℕ
  -- config.ProxySoftQuarantine, ProxySoftProbation, ProxySoftWindow, ProxySoftMinAttempts,
  -- ProxySoftMinFailures, ProxySoftMinRatePercent, ProxySoftQuarantineMinutes,
  -- ProxySoftConsecutive, ProxySoftConsecutiveWindow, ProxySoftTruncateStrikes and
  -- ProxySoftTruncateWindow; the windows in milliseconds.
  pub soft_quarantine : Bool
  pub soft_probation : Bool
  pub soft_window : ℕ
  pub soft_min_attempts : ℕ
  pub soft_min_failures : ℕ
  pub soft_min_rate_percent : ℕ
  pub soft_quarantine_minutes : ℕ
  pub soft_consecutive : ℕ
  pub soft_consecutive_window : ℕ
  pub soft_truncate_strikes : ℕ
  pub soft_truncate_window : ℕ

-- `1 << shift` times the first duration, with a shift of at most 3.
unfoldable pub doubled : ℕ → ℕ → ℕ
doubled base strikes = if leb strikes 1 then base else base * 2 ^ min (strikes - 1) 3

unfoldable pub line405_quarantine : Settings → ℕ → ℕ
unfolding doubled
line405_quarantine c strikes =
    let base = c.quarantine_minutes * minute in
    if leb strikes 1 then base else min (doubled base strikes) (c.max_quarantine_minutes * minute)

unfoldable pub soft_quarantine_duration : Settings → ℕ → ℕ
unfolding doubled
soft_quarantine_duration c strikes = doubled (c.soft_quarantine_minutes * minute) strikes

abbrev pub line405_limit : ℕ
line405_limit = 4096

abbrev pub line405_ttl : ℕ
line405_ttl = 24 * hour

-- Entries by their last activity, for `sort.Slice`.
unfoldable pub insert_by : {V : Type 0} → (V → ℕ) → Text × V → List (Text × V) → List (Text × V)
insert_by at e [] = e ∷ []
insert_by at e (f ∷ fs) =
    let rest = insert_by at e fs in if ltb (at e.1) (at f.1) then e ∷ f ∷ fs else f ∷ rest

unfoldable pub sort_by : {V : Type 0} → (V → ℕ) → List (Text × V) → List (Text × V)
unfolding insert_by
sort_by at [] = []
sort_by at (e ∷ es) = insert_by at e (sort_by at es)

unfoldable pub delete_first : {V : Type 0} → ℕ → List (Text × V) → List (Text × V) → List (Text × V)
delete_first zero list m = m
delete_first (suc n) [] m = m
delete_first (suc n) (e ∷ es) m = delete_first n es (delete e.0 m)

-- The two halves of `pruneLine405Locked` and `pruneProxySoftLocked`: drop what is out of date, then
-- the oldest beyond the limit.
unfoldable pub prune_map :
    {V : Type 0} → (V → ℕ) → (V → Bool) → ℕ → List (Text × V) → List (Text × V)
unfolding sort_by delete_first
prune_map at stale limit m =
    let kept = keep (λ e. not (stale e.1)) m in
    if leb (length kept) limit
    then kept
    else delete_first (length kept - limit) (sort_by at kept) kept
