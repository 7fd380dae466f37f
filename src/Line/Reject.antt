-- ===== src/Line/Reject.antt =====
-- Lines that the provider rejects with 405: internal/store/line405.go.
use zcode2api_plus.Common.{
  ℕ, suc, ◌+◌, ◌-◌, ◌*◌, ◌/◌, Bool, true, false, not, ◌&&◌, ◌||◌, List, [], Option, none, some,
  Text, codes, text_eq, text_ne, ltb, leb, ◌==◌, if◌then◌else◌, is_nil, lookup, insert, max,
}
use zcode2api_plus.Line.{
  ProxyEgress, Settings, minute, hour, milli, line405_quarantine, line405_limit, line405_ttl,
  prune_map,
}

pub data ProbeState : Type 0 where
  no_probe queued healthy failed : ProbeState

pub record Line405Failure : Type 0 where
  pub identity : Text
  pub profile_id : Text
  pub generation : ℕ
  pub consecutive_405 : ℕ
  pub total_405 : ℕ
  pub ok : ℕ
  pub strikes : ℕ
  pub first_at : ℕ
  pub last_at : ℕ
  pub quarantine_until : ℕ
  pub probe_state : ProbeState
  pub probe_at : ℕ

-- The part of the store that line405.go works on.
pub record Lines : Type 0 where
  pub closed : Bool
  pub entries : List (Text × Line405Failure)
  pub probed_at : List (Text × ℕ)
  pub probe_hour : ℕ
  pub probe_count : ℕ

pub data Decision405 : Type 0 where
  ignored recorded : Decision405
  quarantine : Text → ℕ → ℕ → Decision405

abbrev pub is_out_of_date : ℕ → Line405Failure → Bool
is_out_of_date now ent =
    ltb ent.last_at ((now - line405_ttl) / milli) && leb ent.quarantine_until (now / milli)

unfoldable pub prune_line405 : ℕ → Lines → Lines
unfolding prune_map
prune_line405 now s = record s {
  entries = prune_map (λ ent. ent.last_at) (is_out_of_date now) line405_limit s.entries;
}

abbrev pub cooling_down : Settings → Option ℕ → ℕ → Bool
cooling_down c none now = false
cooling_down c (some last) now =
    let cooldown = c.probe_cooldown_minutes * minute in ltb 0 cooldown && ltb (now - last) cooldown

-- A new hour starts with the whole budget.
abbrev pub roll_hour : ℕ → Lines → Lines
roll_hour now s =
    let h = now / hour * 3600 in
    if s.probe_hour == h then s else record s { probe_hour = h; probe_count = 0 }

-- `queue_probe` says whether `queueModelProbeLocked` takes the probe of this profile.
unfoldable pub maybe_queue_probe :
    Settings → (Text → ℕ → Bool) → Line405Failure → ℕ → Lines → Lines × Line405Failure
maybe_queue_probe c queue_probe ent now s =
    if is_nil ent.profile_id || c.probe_per_hour == 0
    then (s, ent)
    else if cooling_down c (lookup ent.profile_id s.probed_at) now
    then (s, ent)
    else let t = roll_hour now s in
      if leb c.probe_per_hour t.probe_count
      then (t, ent)
      else if not (queue_probe ent.profile_id now)
      then (t, ent)
      else (
        record t {
          probed_at = insert ent.profile_id now t.probed_at;
          probe_count = suc t.probe_count;
        },
        record ent { probe_state = queued; probe_at = now / milli },
      )

abbrev pub new_entry : Text → ℕ → Line405Failure
new_entry identity now_ms = record {
  identity = identity;
  profile_id = [];
  generation = 0;
  consecutive_405 = 0;
  total_405 = 0;
  ok = 0;
  strikes = 0;
  first_at = now_ms;
  last_at = 0;
  quarantine_until = 0;
  probe_state = no_probe;
  probe_at = 0;
}

-- The entry that a 405 of this line counts in.
abbrev pub entry_for_line : ProxyEgress → ℕ → Option Line405Failure → Line405Failure
entry_for_line e now_ms (some ent) =
    if ent.generation == e.generation then ent else new_entry e.identity now_ms
entry_for_line e now_ms none = new_entry e.identity now_ms

abbrev pub count_405 : ProxyEgress → ℕ → Line405Failure → Line405Failure
count_405 e now_ms ent = record ent {
  profile_id = e.id;
  generation = e.generation;
  consecutive_405 = suc ent.consecutive_405;
  total_405 = suc ent.total_405;
  last_at = now_ms;
}

unfoldable pub isolate : Settings → ℕ → Line405Failure → Line405Failure
unfolding line405_quarantine
isolate c now ent =
    let strikes = suc ent.strikes in
    record ent {
      strikes = strikes;
      quarantine_until = max ent.quarantine_until ((now + line405_quarantine c strikes) / milli);
    }

unfoldable pub record_line405 :
    Settings → (Text → ℕ → Bool) → ProxyEgress → ℕ → Lines → Lines × Decision405
unfolding isolate maybe_queue_probe prune_line405
record_line405 c queue_probe e now s =
    if text_ne e.mode (codes "proxy") || is_nil e.identity || is_nil e.id
    then (s, ignored)
    else if s.closed
    then (s, ignored)
    else let now_ms = now / milli in
      let ent = count_405 e now_ms (entry_for_line e now_ms (lookup e.identity s.entries)) in
      if c.min_streak == 0 || ltb ent.consecutive_405 c.min_streak
      then (record s { entries = insert e.identity ent s.entries }, recorded)
      else let hit = isolate c now ent in
        let (t, probed) = maybe_queue_probe c queue_probe hit now s in
        (
          prune_line405 now (record t { entries = insert e.identity probed t.entries }),
          quarantine hit.profile_id (now + line405_quarantine c hit.strikes) hit.strikes,
        )

-- What a success and a healthy verdict reset.
abbrev pub cleared : Line405Failure → Line405Failure
cleared ent = record ent { consecutive_405 = 0; strikes = 0; quarantine_until = 0 }

unfoldable pub record_line_ok : ProxyEgress → ℕ → Lines → Lines
unfolding prune_line405
record_line_ok e now s =
    if text_ne e.mode (codes "proxy") || is_nil e.identity
    then s
    else elim (lookup e.identity s.entries) [
      | none ↦ s
      | some ent ↦
          let changed =
            not (ent.consecutive_405 == 0)
            || not (ent.strikes == 0)
            || not (ent.quarantine_until == 0) in
          let t = record s {
            entries =
                insert e.identity (record (cleared ent) { ok = suc ent.ok; last_at = now / milli })
                  s.entries;
          } in
          if changed then prune_line405 now t else t
    ]

-- The verdicts of a model probe that say something of the line.
unfoldable pub verdict_state : Text → Option ProbeState
verdict_state v =
    if text_eq v (codes "healthy_recent")
      || text_eq v (codes "mixed")
      || text_eq v (codes "account_correlated")
    then some healthy
    else if text_eq v (codes "route_correlated") || text_eq v (codes "suspect")
    then some failed
    else none

abbrev pub is_healthy : ProbeState → Bool
is_healthy healthy = true
is_healthy _ = false

-- `target` is the identity and the generation of the profile with this id, if there is one.
unfoldable pub apply_probe_verdict :
    Text → Text → Option (Text × ℕ) → ℕ → Lines → Lines × Option (ProbeState × Text)
unfolding verdict_state prune_line405
apply_probe_verdict profile_id verdict target now s =
    if s.closed || is_nil profile_id then (s, none) else elim (verdict_state verdict) [
      | none ↦ (s, none)
      | some state ↦ elim target [
        | none ↦ (s, none)
        | some (identity, generation) ↦ elim (lookup identity s.entries) [
          | none ↦ (s, none)
          | some ent ↦
              if not (ent.generation == generation)
              then (s, none)
              else let marked = record ent { probe_state = state; probe_at = now / milli } in
                let judged = if is_healthy state then cleared marked else marked in
                (
                  prune_line405 now (record s { entries = insert identity judged s.entries }),
                  some (state, identity),
                )
        ]
      ]
    ]

-- Membership in `line405BlockedLocked`, and in `line405QuarantineLocked`.
unfoldable pub is_blocked : Text → ℕ → Lines → Bool
is_blocked identity now s = elim (lookup identity s.entries) [
  | none ↦ false
  | some ent ↦ ltb (now / milli) ent.quarantine_until
]

unfoldable pub line405_blocked : ProxyEgress → ℕ → Lines → Bool
unfolding is_blocked
line405_blocked e now s =
    if text_ne e.mode (codes "proxy") || is_nil e.identity
    then false
    else is_blocked e.identity now s
