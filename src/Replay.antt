-- ===== src/Replay.antt =====
-- The guard against replays of refused content: internal/gateway/replayguard.go, and the scope in
-- which one request counts its refusals: internal/gateway/riskscope.go. Times are nanoseconds; each
-- call is given the time it reads. `allow_once` is the setting ReplayAllowOnce and `threshold` the
-- setting RiskControlRequestLevelThreshold. A guard that is nil, as for a window of 0, is `none` in
-- `new_replay_guard`; the calls then do nothing.
pub mod Window
pub mod Allowance
pub mod Scope
use zcode2api_plus.Common.{
  ℕ, zero, suc, ◌+◌, ◌-◌, Bool, true, false, not, ◌&&◌, ◌||◌, List, [], ◌∷◌, Option, none, some,
  Text, text_eq, ltb, leb, ◌==◌, if◌then◌else◌, is_nil, keep, any, length, lookup, insert, delete,
}

-- `replayGuardMaxEntries`.
abbrev pub max_entries : ℕ
max_entries = 1024

pub record ReplayEntry : Type 0 where
  pub at : ℕ
  pub allowances : ℕ

pub record ReplayGuard : Type 0 where
  pub entries : List (Text × ReplayEntry)
  pub ttl : ℕ

abbrev pub new_replay_guard : ℕ → Option ReplayGuard
new_replay_guard zero = none
new_replay_guard (suc n) = some (record { entries = []; ttl = suc n })

-- `g.ttl - g.now().Sub(ent.at)`, where nothing is left once it is not positive.
abbrev pub time_left : ℕ → ℕ → ReplayEntry → ℕ
time_left ttl now e = ttl + e.at - now

abbrev pub set_entries : List (Text × ReplayEntry) → ReplayGuard → ReplayGuard
set_entries m g = record { entries = m; ttl = g.ttl }

-- `Remaining` of a key whose entry has been looked up.
abbrev pub remaining_of : Text → ℕ → Option ReplayEntry → ReplayGuard → ReplayGuard × ℕ
remaining_of key now none g = (g, 0)
remaining_of key now (some e) g =
    if time_left g.ttl now e == 0
    then (set_entries (delete key g.entries) g, 0)
    else (g, time_left g.ttl now e)

unfoldable pub remaining : Text → ℕ → ReplayGuard → ReplayGuard × ℕ
remaining key now g = if is_nil key then (g, 0) else remaining_of key now (lookup key g.entries) g

abbrev pub spend : ReplayEntry → ReplayEntry
spend e = record { at = e.at; allowances = e.allowances - 1 }

-- `Take` of a key whose entry has been looked up: the guard, whether the request is blocked, and
-- for how long.
abbrev pub take_of : Text → ℕ → Option ReplayEntry → ReplayGuard → ReplayGuard × Bool × ℕ
take_of key now none g = (g, false, 0)
take_of key now (some e) g =
    if time_left g.ttl now e == 0
    then (set_entries (delete key g.entries) g, false, 0)
    else if ltb 0 e.allowances
    then (set_entries (insert key (spend e) g.entries) g, false, 0)
    else (g, true, time_left g.ttl now e)

unfoldable pub take : Text → ℕ → ReplayGuard → ReplayGuard × Bool × ℕ
take key now g = if is_nil key then (g, false, 0) else take_of key now (lookup key g.entries) g

-- `now.Sub(ent.at) < g.ttl`.
abbrev pub is_live : ℕ → ℕ → Text × ReplayEntry → Bool
is_live ttl now (k, e) = ltb now (ttl + e.at)

abbrev pub make_room : List (Text × ReplayEntry) → List (Text × ReplayEntry)
make_room m = if leb max_entries (length m) then [] else m

abbrev pub armed : Bool → Option ReplayEntry → ℕ
armed allow_once none = if allow_once then 1 else 0
armed allow_once (some e) = e.allowances

abbrev pub add_entry : Bool → Text → ℕ → List (Text × ReplayEntry) → List (Text × ReplayEntry)
add_entry allow_once key now m =
    insert key (record { at = now; allowances = armed allow_once (lookup key m) }) m

unfoldable pub record_verdict : Bool → Text → ℕ → ReplayGuard → ReplayGuard
record_verdict allow_once key now g =
    if is_nil key
    then g
    else set_entries (add_entry allow_once key now (make_room (keep (is_live g.ttl now) g.entries)))
        g

-- `RiskScope`; its sets are maps to `true`, as in the source. A scope or an account that is nil has
-- no verdict: `verdict` is for those that are there.
pub record RiskScope : Type 0 where
  pub lines : List (Text × Bool)
  pub accounts : List (Text × Bool)
  pub content_key : Text

abbrev pub new_risk_scope : Text → RiskScope
new_risk_scope key = record { lines = []; accounts = []; content_key = key }

unfoldable pub verdict : ℕ → Text → Text → Bool → RiskScope → RiskScope × Bool
verdict threshold account line_key line_dirty s =
    let lines =
      if not line_dirty && not (is_nil line_key) then insert line_key true s.lines else s.lines in
    (
      record {
        lines = lines;
        accounts = insert account true s.accounts;
        content_key = s.content_key;
      },
      leb threshold (length lines),
    )
