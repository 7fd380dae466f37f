-- ===== src/Recovery/Leases.antt =====
-- The three operations of internal/store/quota_recovery.go.
use zcode2api_plus.Common.{
  ℕ, suc, ◌+◌, Bool, true, false, not, ◌&&◌, ◌||◌, List, [], ◌∷◌, map, Option, none, some, Text,
  codes, text_eq, ltb, leb, ◌==◌, if◌then◌else◌, is_nil, is_none, is_some, keep, or_else, insert,
  min,
}
use zcode2api_plus.ModelName.{normalize_model_name, trim_space}
use zcode2api_plus.Account.{
  Account, Status, Mode, ErrorKind, quota_exhausted, null, str, JsonMap, secret, same_credential,
  is_api_key, is_invalid, is_cooling, is_disabled, is_exhausted, deref_string,
}
use zcode2api_plus.Account.Quota.{
  model_availability, mark_model_exhausted, entry_for, quota_entries_for_model, names_model,
}
use zcode2api_plus.Table.{find, accounts_of}
use zcode2api_plus.Selection.{mem}
use zcode2api_plus.Marks.{still_cooling}
use zcode2api_plus.Recovery.{
  RetryState, QuotaProbe, Recovery, lookup2, insert2, delete2, credential_hash, retry_delay,
  quota_delay, clone_recovery, commit, is_availability_exhausted, exhaust_account, fail_again,
}

abbrev pub Hash : Type 0
Hash = Text → Mode → Text → ℕ → Text

-- The answer says whether the change was saved.
unfoldable pub mark_quota_exhausted :
    Hash → Bool → Option Account → Text → Text → ℕ → ℕ → Recovery → Recovery × Bool
unfolding commit exhaust_account fail_again
mark_quota_exhausted hash saved none name detail now minimum_wait s = (s, true)
mark_quota_exhausted hash saved (some expected) name0 detail now minimum_wait s =
    elim (find s.accounts expected.provider expected.id) [
      | none ↦ (s, true)
      | some live ↦
          if not (same_credential (some live) (some expected))
          then (s, true)
          else let name = normalize_model_name name0 in
            let (a, marked) = mark_model_exhausted live name in
            let pending = exhaust_account marked detail now a in
            let next = clone_recovery s in
            let again =
              fail_again (credential_hash hash pending) (lookup2 pending.id name next)
                (lookup2 pending.id name s.probes) minimum_wait now in
            commit saved
              (if marked && is_api_key pending.mode
                then insert2 pending.id name again next
                else next)
              (some pending) s
    ]

unfoldable pub quota_probe_eligible : Account → Text → ℕ → Bool
quota_probe_eligible a name now =
    is_api_key a.mode
    && not (is_nil (secret a))
    && is_none a.archived_at
    && a.enabled
    && not (is_invalid a.status)
    && not (is_disabled a.status)
    && not (still_cooling a.cooling_until now)
    && not (is_cooling a.status && is_none a.cooling_until)
    && is_availability_exhausted (model_availability a name)
    && names_model name a.exhausted_models

abbrev pub is_quota_exhausted : Option ErrorKind → Bool
is_quota_exhausted (some quota_exhausted) = true
is_quota_exhausted _ = false

abbrev pub usable_time : Option ℕ → ℕ → Option ℕ
usable_time none now = none
usable_time (some t) now = if ltb 0 t && leb t now then some t else none

-- The first wait of a model that has no state yet starts with the error, if its time is known.
unfoldable pub first_state : Hash → Option RetryState → Account → ℕ → RetryState
first_state hash found a now =
    let known = is_none found && is_quota_exhausted a.last_error_kind in
    let base = if known then or_else (usable_time a.last_error_at now) now else now in
    record {
      credential_hash = credential_hash hash a;
      generation = suc (elim found [ none ↦ 0 | some st ↦ st.generation ]);
      step = 0;
      next_at = base + retry_delay 0;
      minimum_seconds = 0;
    }

abbrev pub is_current : Hash → Account → Option RetryState → Bool
is_current hash a none = false
is_current hash a (some st) = text_eq st.credential_hash (credential_hash hash a)

unfoldable pub next_state : RetryState → ℕ → RetryState
unfolding quota_delay
next_state st now =
    let later : RetryState = record st { step = min (suc st.step) 3 } in
    record later { next_at = now + quota_delay later }

pub data Acquired : Type 0 where
  nothing save_failed : Acquired
  leased : QuotaProbe → Acquired

-- The state of this model, made and saved where there is none for this credential.
unfoldable pub prepare : Hash → Bool → Account → Text → ℕ → Recovery → Recovery × Option RetryState
unfolding first_state commit
prepare hash saved a name now s =
    let found = lookup2 a.id name s.recovery in
    let made = first_state hash found a now in
    if is_current hash a found
    then (s, found)
    else let (t, ok) = commit saved (insert2 a.id name made (clone_recovery s)) none s in
      (t, if ok then some made else none)

-- `next[a.ID][name] = state`, the commit, and the lease.
unfoldable pub take_lease : Bool → Account → Text → RetryState → ℕ → Recovery → Recovery × Acquired
unfolding next_state commit
take_lease saved a name st now s =
    let later = next_state st now in
    let (t, ok) = commit saved (insert2 a.id name later (clone_recovery s)) none s in
    let probe : QuotaProbe = record {
      serial = t.next_serial;
      expected = a;
      model = name;
      generation = later.generation;
    } in
    if ok
    then (
      record t { probes = insert2 a.id name probe t.probes; next_serial = suc t.next_serial },
      leased probe,
    )
    else (t, save_failed)

abbrev pub passed_over : List Text → Text → ℕ → Account → Recovery → Bool
passed_over skip name now a s =
    mem a.id skip || is_some (lookup2 a.id name s.probes) || not (quota_probe_eligible a name now)

-- The loop of `AcquireQuotaProbe`, over the accounts of the provider; `saved` says of each account
-- whether the transaction for its first state succeeds, `then_saved` of that for the lease.
unfoldable pub acquire_from :
    Hash
    → (Account → Bool)
    → Bool
    → List Text
    → Text
    → ℕ
    → List Account
    → Recovery
    → Recovery × Acquired
unfolding prepare take_lease
acquire_from hash saved then_saved skip name now [] s = (s, nothing)
acquire_from hash saved then_saved skip name now (a ∷ xs) s = elim (passed_over skip name now a s) [
  | true ↦ acquire_from hash saved then_saved skip name now xs s
  | false ↦
      let (t, st) = prepare hash (saved a) a name now s in
      elim st [
        | none ↦ (t, save_failed)
        | some found ↦ elim (ltb now found.next_at) [
          | true ↦ acquire_from hash saved then_saved skip name now xs t
          | false ↦ take_lease then_saved a name found now t
        ]
      ]
]

unfoldable pub acquire_quota_probe :
    Hash → (Account → Bool) → Bool → Text → List Text → Text → ℕ → Recovery → Recovery × Acquired
unfolding acquire_from
acquire_quota_probe hash saved then_saved provider skip name0 now s =
    let name = normalize_model_name name0 in
    if is_nil name
    then (s, nothing)
    else acquire_from hash saved then_saved skip name now (accounts_of s.accounts provider) s

abbrev pub device_mid : Account → Text
device_mid a = trim_space (deref_string a.virtual_device_mid)

-- The account is still the one that the lease was given for, and still waits.
unfoldable pub still_expected : Hash → QuotaProbe → Account → Option RetryState → ℕ → Bool
unfolding quota_probe_eligible
still_expected hash probe live st now =
    let expected = probe.expected in
    same_credential (some live) (some expected)
    && elim st [ none ↦ 0 | some found ↦ found.generation ] == probe.generation
    && text_eq (credential_hash hash live) (credential_hash hash expected)
    && text_eq (deref_string live.proxy_id) (deref_string expected.proxy_id)
    && text_eq (deref_string live.proxy_url) (deref_string expected.proxy_url)
    && text_eq (device_mid live) (device_mid expected)
    && quota_probe_eligible live probe.model now

-- The old figures of a column of this model become unknown.
-- A column that is nil in the source is an empty one here.
abbrev pub forget_figures : Text → Text × JsonMap → Text × JsonMap
forget_figures model e =
    if entry_for model e
    then (e.0, insert (codes "available") null (insert (codes "remaining") null e.1))
    else e

-- Where the account has columns, but none of this model, one without figures is added.
unfoldable pub restored_quota : Text → Account → List (Text × JsonMap)
restored_quota model a =
    let quota = map (forget_figures model) a.quota in
    if not (is_nil quota) && is_nil (quota_entries_for_model (record a { quota = quota }) model)
    then insert model ((codes "model", str model) ∷ []) quota
    else quota

unfoldable pub restore_model : Text → Account → Account
unfolding restored_quota
restore_model model a =
    let b = record a {
      exhausted_models =
          keep (λ m. not (text_eq (normalize_model_name m) model)) a.exhausted_models;
      quota = restored_quota model a;
    } in
    if is_exhausted b.status || is_cooling b.status
    then record b { status = Status.active; cooling_until = none }
    else b

-- The answers are whether the model was restored, and whether all was saved.
unfoldable pub finish_quota_probe :
    Hash → Bool → QuotaProbe → Bool → ℕ → Recovery → Recovery × Bool × Bool
unfolding still_expected restore_model commit
finish_quota_probe hash saved probe confirmed now s =
    let id = (probe.expected).id in
    elim (lookup2 id probe.model s.probes) [
      | none ↦ (s, false, true)
      | some held ↦
          if not (held.serial == probe.serial)
          then (s, false, true)
          else let t = record s { probes = delete2 id probe.model s.probes } in
            elim (find t.accounts (probe.expected).provider id) [
              | none ↦ (t, false, true)
              | some live ↦
                  if not confirmed
                    || not (still_expected hash probe live (lookup2 id probe.model t.recovery) now)
                  then (t, false, true)
                  else let next = delete2 id probe.model (clone_recovery t) in
                    let (u, ok) = commit saved next (some (restore_model probe.model live)) t in
                    (u, ok, ok)
            ]
    ]
