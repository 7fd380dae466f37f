-- ===== src/Line/Soft.antt =====
-- Lines on which requests are not completed: internal/store/proxy_soft_failure.go. The error of the
-- database write and the accounts that `reassignOffQuarantineLocked` moves are not modelled.
use zcode2api_plus.Common.{
  ℕ, suc, ◌+◌, ◌-◌, ◌*◌, ◌/◌, Bool, true, false, not, ◌&&◌, ◌||◌, List, [], Option, none, some,
  Text, codes, text_eq, text_ne, ltb, leb, ◌==◌, if◌then◌else◌, is_nil, is_some, length, or_else,
  lookup, insert,
}
use zcode2api_plus.Line.{ProxyEgress, Settings, hour, milli, soft_quarantine_duration, prune_map}

pub record ProxySoftFailure : Type 0 where
  pub identity : Text
  pub profile_id : Text
  pub generation : ℕ
  pub attempts : ℕ
  pub failures : ℕ
  pub window_start : ℕ
  pub last_at : ℕ
  pub last_strike_at : ℕ
  pub last_signal : Text
  pub last_status : ℕ
  pub strikes : ℕ
  pub quarantine_until : ℕ
  pub probation : Bool
  pub slow : ℕ
  pub consecutive : ℕ
  pub consecutive_since : ℕ
  pub truncates : ℕ
  pub truncate_window_start : ℕ

pub record Recheck : Type 0 where
  pub route : ProxyEgress
  pub policy_revision : ℕ
  pub at : ℕ
  pub pending : Bool

pub record SoftLines : Type 0 where
  pub closed : Bool
  pub entries : List (Text × ProxySoftFailure)
  pub rechecks : List (Text × Recheck)
  pub policy_revision : ℕ

pub data Trigger : Type 0 where
  truncate_strikes probation_hit consecutive_hit rate extend : Trigger

pub data SoftDecision : Type 0 where
  nothing : SoftDecision
  quarantine extended : ℕ → ℕ → Trigger → SoftDecision

abbrev pub soft_limit : ℕ
soft_limit = 4096

abbrev pub recheck_limit : ℕ
recheck_limit = 1024

abbrev pub soft_ttl : ℕ
soft_ttl = 24 * hour

-- proxySoftQuietReset, proxySoftStrikeCooldown in milliseconds, and proxySlowFirstByte.
abbrev pub quiet_reset_ms : ℕ
quiet_reset_ms = 1_800_000

abbrev pub strike_cooldown_ms : ℕ
strike_cooldown_ms = 300_000

abbrev pub slow_first_byte : ℕ
slow_first_byte = 30_000_000_000

abbrev pub new_soft : Text → ℕ → ProxySoftFailure
new_soft identity now_ms = record {
  identity = identity;
  profile_id = [];
  generation = 0;
  attempts = 0;
  failures = 0;
  window_start = now_ms;
  last_at = 0;
  last_strike_at = 0;
  last_signal = [];
  last_status = 0;
  strikes = 0;
  quarantine_until = 0;
  probation = false;
  slow = 0;
  consecutive = 0;
  consecutive_since = 0;
  truncates = 0;
  truncate_window_start = 0;
}

-- The window opens again only outside a quarantine.
unfoldable pub reopen_window : Settings → ℕ → ProxySoftFailure → ProxySoftFailure
reopen_window c now_ms ent =
    if leb ent.quarantine_until now_ms && leb c.soft_window (now_ms - ent.window_start)
    then record ent { window_start = now_ms; attempts = 0; failures = 0 }
    else ent

-- A quarantine that is over is followed by probation.
unfoldable pub end_quarantine : Settings → ℕ → ProxySoftFailure → ProxySoftFailure
end_quarantine c now_ms ent =
    if ltb 0 ent.quarantine_until && leb ent.quarantine_until now_ms
    then record ent { quarantine_until = 0; probation = c.soft_probation || ent.probation }
    else ent

unfoldable pub reset_quiet : Settings → ℕ → ProxySoftFailure → ProxySoftFailure
reset_quiet c now_ms ent =
    if not c.soft_probation
      && ltb 0 ent.strikes
      && leb ent.quarantine_until now_ms
      && ltb 0 ent.last_at
      && leb quiet_reset_ms (now_ms - ent.last_at)
    then record ent { strikes = 0; consecutive = 0; consecutive_since = 0; probation = false }
    else ent

unfoldable pub count_outcome :
    Settings → ProxyEgress → Bool → ℕ → ProxySoftFailure → ProxySoftFailure
count_outcome c e ok now_ms ent0 =
    let ent = record ent0 {
      profile_id = e.id;
      generation = e.generation;
      attempts = suc ent0.attempts;
    } in
    if ok
    then (let calm = record ent { consecutive = 0; consecutive_since = 0 } in
        if calm.probation then record calm { probation = false; strikes = 0 } else calm)
    else let failed = record ent { failures = suc ent.failures } in
      if ent.consecutive == 0 || ltb c.soft_consecutive_window (now_ms - ent.consecutive_since)
      then record failed { consecutive = 1; consecutive_since = now_ms }
      else record failed { consecutive = suc ent.consecutive }

abbrev pub upstream_truncate : Text
upstream_truncate = codes "upstream_truncate"

unfoldable pub count_truncate : Settings → Text → Bool → ℕ → ProxySoftFailure → ProxySoftFailure
count_truncate c signal ok now_ms ent =
    if not ok && text_eq signal upstream_truncate && ltb 0 c.soft_truncate_strikes
    then (if ent.truncate_window_start == 0
          || leb c.soft_truncate_window (now_ms - ent.truncate_window_start)
        then record ent { truncate_window_start = now_ms; truncates = 1 }
        else record ent { truncates = suc ent.truncates })
    else ent

abbrev pub note_last : Text → ℕ → ℕ → ProxySoftFailure → ProxySoftFailure
note_last signal status now_ms ent = record ent {
  last_at = now_ms;
  last_signal = if is_nil signal then ent.last_signal else signal;
  last_status = if ltb 0 status then status else ent.last_status;
}

-- The entry before the outcome counts.
unfoldable pub soft_ready : Settings → Text → ℕ → Option ProxySoftFailure → ProxySoftFailure
unfolding reopen_window end_quarantine reset_quiet
soft_ready c identity now_ms found =
    let ent = or_else found (new_soft identity now_ms) in
    reset_quiet c now_ms (end_quarantine c now_ms (reopen_window c now_ms ent))

-- Everything but the decision.
unfoldable pub soft_count :
    Settings → ProxyEgress → Text → ℕ → Bool → ℕ → Option ProxySoftFailure → ProxySoftFailure
unfolding soft_ready count_outcome count_truncate
soft_count c e signal status ok now_ms found = note_last signal status now_ms (
    count_truncate c signal ok now_ms
      (count_outcome c e ok now_ms (soft_ready c e.identity now_ms found)))

-- The four reasons for a quarantine, of a failure, in the order in which they name it.
unfoldable pub soft_trigger : Settings → Text → ℕ → ProxySoftFailure → Option Trigger
soft_trigger c signal now_ms ent =
    if ltb 0 c.soft_truncate_strikes
      && text_eq signal upstream_truncate
      && leb c.soft_truncate_strikes ent.truncates
      && ltb 0 ent.truncate_window_start
      && leb (now_ms - ent.truncate_window_start) c.soft_truncate_window
    then some truncate_strikes
    else if c.soft_probation && ent.probation
    then some probation_hit
    else if ltb 0 c.soft_consecutive
        && leb c.soft_consecutive ent.consecutive
        && leb (now_ms - ent.consecutive_since) c.soft_consecutive_window
    then some consecutive_hit
    else if leb c.soft_min_attempts ent.attempts
        && leb c.soft_min_failures ent.failures
        && leb (c.soft_min_rate_percent * ent.attempts) (ent.failures * 100)
    then some rate
    else none

-- One strike more, from now on.
unfoldable pub strike : Settings → ℕ → ProxySoftFailure → ProxySoftFailure
unfolding soft_quarantine_duration
strike c now ent =
    let strikes = suc ent.strikes in
    record ent {
      strikes = strikes;
      last_strike_at = now / milli;
      quarantine_until = (now + soft_quarantine_duration c strikes) / milli;
    }

unfoldable pub soft_decide :
    Settings → Text → Bool → ℕ → ProxySoftFailure → ProxySoftFailure × SoftDecision
unfolding soft_trigger strike
soft_decide c signal ok now ent =
    let hit = strike c now ent in
    let until = now + soft_quarantine_duration c hit.strikes in
    if ok || not c.soft_quarantine
    then (ent, nothing)
    else if ltb (now / milli) ent.quarantine_until
    then (if leb strike_cooldown_ms (now / milli - ent.last_strike_at)
        then (hit, extended until hit.strikes extend)
        else (ent, nothing))
    else elim (soft_trigger c signal (now / milli) ent) [
      | none ↦ (ent, nothing)
      | some t ↦ (record hit { probation = false }, quarantine until hit.strikes t)
    ]

unfoldable pub queue_soft_recheck : ProxySoftFailure → ℕ → SoftLines → SoftLines
queue_soft_recheck ent now s =
    if is_nil ent.profile_id
      || is_some (lookup ent.profile_id s.rechecks)
      || leb recheck_limit (length s.rechecks)
    then s
    else let route : ProxyEgress = record {
      id = ent.profile_id;
      mode = codes "proxy";
      generation = ent.generation;
      identity = ent.identity;
    } in
      record s {
        rechecks =
            insert ent.profile_id
              (record {
                route = route;
                policy_revision = s.policy_revision;
                at = now;
                pending = true;
              })
              s.rechecks;
      }

abbrev pub is_out_of_date : ℕ → ProxySoftFailure → Bool
is_out_of_date now ent =
    ltb ent.last_at ((now - soft_ttl) / milli) && leb ent.quarantine_until (now / milli)

unfoldable pub prune_soft : ℕ → SoftLines → SoftLines
unfolding prune_map
prune_soft now s = record s {
  entries = prune_map (λ ent. ent.last_at) (is_out_of_date now) soft_limit s.entries;
}

abbrev pub is_nothing : SoftDecision → Bool
is_nothing nothing = true
is_nothing _ = false

unfoldable pub record_soft_outcome :
    Settings → ProxyEgress → Text → ℕ → Bool → ℕ → SoftLines → SoftLines × SoftDecision
unfolding soft_count soft_decide prune_soft queue_soft_recheck
record_soft_outcome c e signal status ok now s =
    if text_ne e.mode (codes "proxy") || is_nil e.identity || is_nil e.id
    then (s, nothing)
    else if not ok && is_nil signal
    then (s, nothing)
    else if s.closed
    then (s, nothing)
    else let counted =
        soft_count c e signal status ok (now / milli) (lookup e.identity s.entries) in
      let (ent, out) = soft_decide c signal ok now counted in
      let t = record s { entries = insert e.identity ent s.entries } in
      (if is_nothing out then t else queue_soft_recheck ent now (prune_soft now t), out)

unfoldable pub record_slow_sample : ProxyEgress → ℕ → ℕ → SoftLines → SoftLines
record_slow_sample e ttfb now s =
    if text_ne e.mode (codes "proxy")
      || is_nil e.identity
      || is_nil e.id
      || ltb ttfb slow_first_byte
    then s
    else if s.closed
    then s
    else elim (lookup e.identity s.entries) [
      | none ↦ s
      | some ent ↦ record s {
        entries =
            insert e.identity (record ent { slow = suc ent.slow; last_at = now / milli }) s.entries;
      }
    ]

-- Membership in `proxyQuarantineLocked`.
unfoldable pub is_quarantined : Text → ℕ → SoftLines → Bool
is_quarantined identity now s = elim (lookup identity s.entries) [
  | none ↦ false
  | some ent ↦ ltb (now / milli) ent.quarantine_until
]
