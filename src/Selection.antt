-- ===== src/Selection.antt =====
-- Selection of an account: `selectAccount` and what it calls in internal/store (store.go, pin.go,
-- proxy_selection.go, proxy_uplink.go, line405.go). What other parts of the store have decided
-- is read from `View`: it holds for the length of one call, under the store's lock.
pub mod Layers
pub mod Richest
pub mod Answer
pub mod Lines
pub mod Turns
use zcode2api_plus.Common.{
  ℕ, zero, suc, ◌+◌, ◌*◌, ◌%◌, Bool, true, false, not, ◌&&◌, ◌||◌, List, [], ◌∷◌, ◌++◌, map, Option,
  none, some, Text, codes, text_eq, ltb, leb, ◌==◌, if◌then◌else◌, is_nil, is_none, is_some, any,
  keep, first, length, get_elem?, or_else, lookup, insert, max, ℤ, pos, negsuc, ltb_ℤ,
}
use zcode2api_plus.ModelName.{normalize_model_name}
use zcode2api_plus.Account.{Account, JsonMap, Json, num, InitializationView, deref_string}
use zcode2api_plus.Account.Scheduling.{is_selectable, in_risk_control_silent_window}
use zcode2api_plus.Account.Quota.{
  Availability, model_availability, usable_quota_for_model, positive,
}
use zcode2api_plus.Account.Expiry.{soonest_non_refreshing_expiry, is_one_time}

pub record Profile : Type 0 where
  pub id : Text
  pub url : Text
  pub enabled : Bool

pub record View : Type 0 where
  -- The task projection and the probe role that the store publishes for an account.
  pub initialization_of : Account → Option InitializationView
  pub is_model_probe : Text → Bool
  -- strictProxyIdentity, and the routes that have been retired.
  pub identity : Text → Text
  pub strict_blocked : Text → Bool
  pub profiles : List Profile
  -- line405BlockedLocked, and the snapshot of upload rates in KB/s.
  pub line_blocked : Text → Bool
  pub uplink : List (Text × ℕ)
  pub pin : Option (Text × ℕ)
  -- config.RiskSilentWindow(), config.SelectExpireFirstDays and config.SelectUplinkBand.
  pub silent_window : ℕ
  pub expire_first_days : ℕ
  pub uplink_band : Bool

-- One call: its provider's accounts, and its arguments.
pub record Query : Type 0 where
  pub provider : Text
  pub accounts : List Account
  pub skip_ids : List Text
  pub model_name : Text
  pub force_direct : Bool
  pub avoid : List Text
  pub now : ℕ

abbrev pub mem : Text → List Text → Bool
mem t ts = any (text_eq t) ts

-- What the loop writes into each account before it looks at it.
abbrev pub publish : View → Account → Account
publish v a = record a {
  initialization = v.initialization_of a;
  model_probe_only = v.is_model_probe a.id;
}

unfoldable pub bound_line_identity : View → Account → Text
bound_line_identity v a =
    let raw = deref_string a.proxy_url in if is_nil raw then codes "direct" else v.identity raw

unfoldable pub proxy_binding_available : View → Account → Bool
proxy_binding_available v a =
    let url = deref_string a.proxy_url in
    let id = deref_string a.proxy_id in
    if is_nil url
    then is_nil id
    else if v.strict_blocked url
    then false
    else if is_nil id
    then true
    else elim (first (λ p. text_eq p.id id) v.profiles) [
      | none ↦ false
      | some p ↦ p.enabled && text_eq (v.identity p.url) (v.identity url)
    ]

unfoldable pub account_avoids : View → Account → List Text → Bool
account_avoids v a avoid =
    let url = deref_string a.proxy_url in
    if is_nil avoid then false else if is_nil url then false else mem (v.identity url) avoid

-- The first layer.
unfoldable pub may_take : View → Query → Account → Bool
may_take v q a =
    is_selectable a q.now
    && not (mem a.id q.skip_ids)
    && not (in_risk_control_silent_window a q.now v.silent_window)
    && (q.force_direct || proxy_binding_available v a)
    && not (account_avoids v a q.avoid)

unfoldable pub base : View → Query → List Account
base v q = keep (may_take v q) (map (publish v) q.accounts)

-- `pinHitLocked`, without its log line.
unfoldable pub pin_hit : View → ℕ → List Account → Option Account
pin_hit v now accounts = elim v.pin [
  | none ↦ none
  | some (id, until) ↦
      if is_nil id || leb until now then none else first (λ a. text_eq a.id id) accounts
]

abbrev pub is_available : Availability → Bool
is_available Availability.available = true
is_available _ = false

abbrev pub is_unknown : Availability → Bool
is_unknown Availability.unknown = true
is_unknown _ = false

-- Lines with too many 405 answers, and the model. Note that a model name drops `preferred`.
unfoldable pub model_layer : View → Query → List Account → List Account
model_layer v q accounts =
    if is_nil q.model_name
    then (let preferred = keep (λ a. not (v.line_blocked (bound_line_identity v a))) accounts in
        if is_nil preferred then accounts else preferred)
    else let available = keep (λ a. is_available (model_availability a q.model_name)) accounts in
      if is_nil available
      then keep (λ a. is_unknown (model_availability a q.model_name)) accounts
      else available

-- The accounts for which a test holds, or all where there are none.
abbrev pub narrow : (Account → Bool) → List Account → List Account
narrow p accounts = let kept = keep p accounts in if is_nil kept then accounts else kept

unfoldable pub truncate_layer : Query → List Account → List Account
truncate_layer q accounts =
    if ltb 1 (length accounts)
    then narrow (λ a. not (ltb q.now a.truncate_avoid_until)) accounts
    else accounts

abbrev pub nanos_per_day : ℕ
nanos_per_day = 86_400_000_000_000

unfoldable pub expiry_layer : View → Query → List Account → List Account
expiry_layer v q accounts =
    if ltb 0 v.expire_first_days && not (is_nil q.model_name)
    then narrow
        (λ a. is_some (
          soonest_non_refreshing_expiry a q.model_name q.now (v.expire_first_days * nanos_per_day)))
        accounts
    else accounts

-- `asNumber`: no text counts here.
abbrev pub as_number : Option Json → Option ℤ
as_number (some (num n)) = some n
as_number _ = none

abbrev pub promo_left : JsonMap → Bool
promo_left q = elim (as_number (lookup (codes "remaining") q)) [
  | none ↦ false
  | some n ↦ positive n
]

unfoldable pub has_promo_quota : Account → Bool
has_promo_quota a = any (λ e. is_one_time e.1 && promo_left e.1) a.quota

unfoldable pub promo_layer : List Account → List Account
promo_layer accounts =
    let promo = keep has_promo_quota accounts in
    if is_nil promo then keep (λ a. not (has_promo_quota a)) accounts else promo

-- 4 fast, 3 middling, 2 unknown, 1 slow: `UplinkBand` and `uplinkRankOfIdentity`.
unfoldable pub uplink_band_of : ℕ → ℕ
uplink_band_of kbps =
    if kbps == 0 then 0 else if leb 600 kbps then 3 else if leb 150 kbps then 2 else 1

unfoldable pub uplink_rank : View → Account → ℕ
uplink_rank v a =
    let band = uplink_band_of (or_else (lookup (bound_line_identity v a) v.uplink) 0) in
    if band == 0 then 2 else if band == 1 then 1 else band + 1

unfoldable pub best_rank : View → List Account → ℕ
best_rank v [] = 0
best_rank v (a ∷ xs) = max (uplink_rank v a) (best_rank v xs)

unfoldable pub uplink_layer : View → List Account → List Account
uplink_layer v accounts =
    if v.uplink_band && not (is_nil v.uplink)
    then (let best = best_rank v accounts in
        if ltb 0 best then narrow (λ a. uplink_rank v a == best) accounts else accounts)
    else accounts

-- The quota left for the model, -1 where the snapshot has no figure.
unfoldable pub score : Text → Account → ℤ
score model a =
    let (total, found) = usable_quota_for_model a model in if found then total else negsuc 0

-- The loop over the pool, from the best figure so far and the accounts that have it.
unfoldable pub top_from : Text → ℤ → List Account → List Account → List Account
top_from model best top [] = top
top_from model best top (a ∷ xs) =
    let v = score model a in
    let rises = ltb_ℤ best v in
    top_from model (if rises then v else best)
      (if rises then a ∷ [] else if ltb_ℤ v best then top else top ++ a ∷ []) xs

unfoldable pub quota_layer : Text → List Account → List Account
quota_layer model [] = []
quota_layer model (a ∷ xs) = top_from model (score model a) (a ∷ []) xs

-- The accounts among which the cursor chooses.
unfoldable pub candidates : View → Query → List Account → List Account
candidates v q accounts =
    quota_layer q.model_name (
      uplink_layer v (promo_layer (expiry_layer v q (truncate_layer q (model_layer v q accounts)))))

abbrev pub Rotation : Type 0
Rotation = List (Text × ℕ)

abbrev pub or_star : Text → Text
or_star [] = codes "*"
or_star (c ∷ s) = c ∷ s

abbrev pub rotation_key : Query → Text
rotation_key q = q.provider ++ codes ":" ++ or_star q.model_name

-- `pool[idx]`, and the cursor of the next call.
unfoldable pub rotate : Text → Rotation → List Account → Option Account × Rotation
rotate key r pool =
    let n = length pool in
    let idx = or_else (lookup key r) 0 % n in (get_elem? pool idx, insert key ((idx + 1) % n) r)

-- The pinned account, or the next one of the pool.
unfoldable pub choose : Text → Rotation → Option Account → List Account → Option Account × Rotation
choose key r (some a) pool = (some a, r)
choose key r none pool = if is_nil pool then (none, r) else rotate key r pool

unfoldable pub select_account : View → Query → Rotation → Option Account × Rotation
select_account v q r =
    let accounts = base v q in
    choose (rotation_key q) r (pin_hit v q.now accounts) (candidates v q accounts)

-- `SelectAvoiding` and `SelectForDirectAvoiding`: a second try without the lines to avoid.
unfoldable pub select_avoiding : View → Query → Rotation → Option Account × Rotation
select_avoiding v q r =
    let (found, r') = select_account v q r in
    elim found [
      | some a ↦ (some a, r')
      | none ↦ if is_nil q.avoid then (none, r') else select_account v (record q { avoid = [] }) r'
    ]
