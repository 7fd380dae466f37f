-- ===== src/Recovery.antt =====
-- Recovery of used-up models on API keys: internal/store/quota_recovery.go. Once a waiting time is
-- over, one real request at a time may try the model again under a lease. `hash` is the SHA-256 of
-- the four parts of a credential; `saved` says whether a database transaction succeeds. Times are
-- nanoseconds. The leases, keyed by a pair in the source, are keyed by account and then model.
pub mod Leases
pub mod Cloning
pub mod Loop
pub mod Single
pub mod Exclusive
pub mod Pacing
pub mod Resting
pub mod Restored
pub mod Late
use zcode2api_plus.Common.{
  ℕ, zero, suc, ◌+◌, ◌-◌, ◌*◌, ◌/◌, Bool, true, false, not, ◌&&◌, ◌||◌, List, [], ◌∷◌, ◌++◌, map,
  Option, none, some, Text, codes, text_eq, ltb, leb, ◌==◌, if◌then◌else◌, is_nil, is_none, is_some,
  any, all, keep, or_else, lookup, insert, delete, min, max,
}
use zcode2api_plus.ModelName.{normalize_model_name}
use zcode2api_plus.Account.{
  Account, Status, Mode, ErrorKind, quota_exhausted, Json, null, str, JsonMap, secret,
  same_credential, is_api_key, is_invalid, is_cooling, is_disabled, is_exhausted, deref_string,
}
use zcode2api_plus.Account.Quota.{
  Availability, model_availability, mark_model_exhausted, entry_model, entry_for,
  quota_entries_for_model, names_model,
}
use zcode2api_plus.Table.{Accounts, find, write, accounts_of}
use zcode2api_plus.Marks.{second, still_cooling}

abbrev pub long_wait : ℕ
long_wait = 6 * 3600 * second

-- `quotaRetryDelays[step]`, for a step that is cut to the table.
abbrev pub retry_delay : ℕ → ℕ
retry_delay zero = 300 * second
retry_delay (suc zero) = 900 * second
retry_delay (suc (suc zero)) = 3600 * second
retry_delay (suc (suc (suc n))) = long_wait

pub record RetryState : Type 0 where
  pub credential_hash : Text
  pub generation : ℕ
  pub step : ℕ
  pub next_at : ℕ
  pub minimum_seconds : ℕ

abbrev pub Recoveries : Type 0
Recoveries = List (Text × List (Text × RetryState))

-- A lease; its serial number stands for its pointer.
pub record QuotaProbe : Type 0 where
  pub serial : ℕ
  pub expected : Account
  pub model : Text
  pub generation : ℕ

-- The part of the store that quota_recovery.go works on.
pub record Recovery : Type 0 where
  pub accounts : Accounts
  pub recovery : Recoveries
  pub probes : List (Text × List (Text × QuotaProbe))
  pub next_serial : ℕ

-- `m[id][name]`, for a map of maps.
unfoldable pub lookup2 : {V : Type 0} → Text → Text → List (Text × List (Text × V)) → Option V
lookup2 id name m = lookup name (or_else (lookup id m) [])

-- `m[id][name] = v`, with the inner map made where there is none.
unfoldable pub insert2 :
    {V : Type 0} → Text → Text → V → List (Text × List (Text × V)) → List (Text × List (Text × V))
insert2 id name v m = insert id (insert name v (or_else (lookup id m) [])) m

unfoldable pub delete2 :
    {V : Type 0} → Text → Text → List (Text × List (Text × V)) → List (Text × List (Text × V))
delete2 id name m = elim (lookup id m) [
  | none ↦ m
  | some inner ↦
      let rest = delete name inner in if is_nil rest then delete id m else insert id rest m
]

abbrev pub credential_hash : (Text → Mode → Text → ℕ → Text) → Account → Text
credential_hash hash a = hash a.provider a.mode (secret a) a.credential_generation

unfoldable pub quota_delay : RetryState → ℕ
quota_delay st = max (retry_delay (min st.step 3)) (min st.minimum_seconds 21600 * second)

abbrev pub put_state : Text → Text → Option RetryState → Recoveries → Recoveries
put_state id name none next = next
put_state id name (some st) next = insert2 id name st next

-- The states of the models that are still marked on an account.
unfoldable pub kept_models : Text → Recoveries → List Text → Recoveries → Recoveries
kept_models id recovery [] next = next
kept_models id recovery (m ∷ ms) next =
    let name = normalize_model_name m in
    let rest = kept_models id recovery ms next in put_state id name (lookup2 id name recovery) rest

unfoldable pub clone_accounts : Recoveries → List Account → Recoveries
unfolding kept_models
clone_accounts recovery [] = []
clone_accounts recovery (a ∷ xs) =
    let rest = clone_accounts recovery xs in
    if is_api_key a.mode then kept_models a.id recovery a.exhausted_models rest else rest

abbrev pub all_accounts : Accounts → List Account
all_accounts [] = []
all_accounts ((provider, xs) ∷ rest) = xs ++ all_accounts rest

-- `cloneQuotaRecoveryLocked`.
unfoldable pub clone_recovery : Recovery → Recoveries
unfolding clone_accounts
clone_recovery s = clone_accounts s.recovery (all_accounts s.accounts)

-- `commitQuotaRecoveryLocked`: what fails to be saved changes nothing.
unfoldable pub commit : Bool → Recoveries → Option Account → Recovery → Recovery × Bool
commit false next pending s = (s, false)
commit true next none s = (record s { recovery = next }, true)
commit true next (some a) s =
    (record s { recovery = next; accounts = write s.accounts a.provider a.id a }, true)

-- A status that a used-up model does not replace.
abbrev pub is_strong : Status → Bool
is_strong st = is_invalid st || is_cooling st || is_disabled st

abbrev pub is_availability_exhausted : Availability → Bool
is_availability_exhausted Availability.exhausted = true
is_availability_exhausted _ = false

-- Every column of the snapshot is used up, and there is one.
abbrev pub all_used_up : Account → Bool
all_used_up a =
    not (is_nil a.quota)
    && all (λ e. is_availability_exhausted (model_availability a (entry_model e))) a.quota

unfoldable pub exhaust_account : Bool → Text → ℕ → Account → Account
exhaust_account marked detail now a =
    let b =
      if is_strong a.status
      then a
      else if marked
      then record a {
        status = if all_used_up a then Status.exhausted else Status.active;
        cooling_until = none;
      }
      else record a { status = Status.exhausted } in
    record b {
      last_error_kind = some quota_exhausted;
      last_error_at = some now;
      last_error = if is_nil detail then b.last_error else some detail;
    }

-- A generation above that of a lease that is still held.
abbrev pub over_flight : ℕ → Option QuotaProbe → ℕ
over_flight generation none = generation
over_flight generation (some probe) = max generation probe.generation

-- The state of a model after one more failure.
unfoldable pub fail_again : Text → Option RetryState → Option QuotaProbe → ℕ → ℕ → RetryState
unfolding quota_delay
fail_again hash_now found in_flight minimum_wait now =
    let old : RetryState = or_else found (record {
      credential_hash = [];
      generation = 0;
      step = 0;
      next_at = 0;
      minimum_seconds = 0;
    }) in
    let same = text_eq old.credential_hash hash_now in
    let base = over_flight old.generation in_flight in
    let next : RetryState = record {
      credential_hash = hash_now;
      generation = suc base;
      step = if same then old.step else 0;
      next_at = if same then old.next_at else 0;
      minimum_seconds = min minimum_wait long_wait / second;
    } in
    record next { next_at = max next.next_at (now + quota_delay next) }
