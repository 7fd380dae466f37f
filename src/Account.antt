-- ===== src/Account.antt =====
-- The account of internal/model/account.go: its fields, its statuses, and the tests that read no
-- quota. Times are nanoseconds since the epoch, both Go's `time.Time` and the stored `float64`
-- seconds; durations are nanoseconds; token counts and streaks do not wrap.
pub mod Scheduling
pub mod Barrier
pub mod Quota
pub mod Exhaustion
pub mod Expiry
pub mod Sync
use zcode2api_plus.Common.{
  ℕ, ◌+◌, Bool, true, false, not, ◌&&◌, ◌||◌, List, [], ◌∷◌, Option, none, some, Text, codes,
  text_eq, ltb, leb, ◌==◌, if◌then◌else◌, is_none, is_some, or_else, is_nil, ℤ,
}

-- A decoded JSON value, with integers for numbers.
mutual
  pub data Json : Type 0 where
    null : Json
    bool : Bool → Json
    num : ℤ → Json
    str : Text → Json
    arr : Items → Json
    obj : Members → Json

  pub data Items : Type 0 where
    no_items : Items
    item : Json → Items → Items

  pub data Members : Type 0 where
    no_members : Members
    member : Text → Json → Members → Members

-- A `map[string]any`.
abbrev pub JsonMap : Type 0
JsonMap = List (Text × Json)

-- The status strings; `other` is any string that is none of the five.
pub data Status : Type 0 where
  active exhausted cooling invalid disabled : Status
  other : Text → Status

pub data Mode : Type 0 where
  jwt api_key : Mode
  other_mode : Text → Mode

-- internal/model/errorkind.go; `other_kind` is an unregistered string.
pub data ErrorKind : Type 0 where
  upstream_overload rate_limited quota_exhausted model_busy auth_failed : ErrorKind
  connection_failed upstream_unavailable captcha_failed invalid_response : ErrorKind
  client_canceled upstream_error quota_query_failed risk_control : ErrorKind
  other_kind : Text → ErrorKind

pub record ClaimState : Type 0 where
  pub claimed_at : Option ℕ
  pub next_at : Option ℕ
  pub last_error : Option Text

-- internal/model/initialization.go: the fields that other code tests.
pub record InitializationView : Type 0 where
  pub state : Text
  pub reason : Text
  pub managed : Bool
  pub blocked : Bool
  pub granted_at : ℕ

-- internal/model/start_plan.go; a hash is a text here.
pub record StartPlanObservation : Type 0 where
  pub account_id : Text
  pub provider : Text
  pub checked_at : ℕ
  pub missing : Bool
  pub proxy_id : Text
  pub proxy_url : Text
  pub credential_hash : Text
  pub credential_generation : ℕ

pub record Account : Type 0 where
  pub id : Text
  pub name : Text
  pub provider : Text
  pub mode : Mode
  pub email : Option Text
  pub jwt_token : Option Text
  pub api_key : Option Text
  pub enabled : Bool
  pub status : Status
  pub quota : List (Text × JsonMap)
  pub exhausted_models : List Text
  pub disabled_models : List Text
  pub plan : JsonMap
  pub plans : List JsonMap
  pub use_count : ℕ
  pub fail_count : ℕ
  pub total_input_tokens : ℕ
  pub total_output_tokens : ℕ
  pub total_cache_creation_tokens : ℕ
  pub total_cache_read_tokens : ℕ
  pub last_used_at : Option ℕ
  pub last_checked_at : Option ℕ
  pub cooling_until : Option ℕ
  pub last_error : Option Text
  pub last_error_kind : Option ErrorKind
  pub last_error_at : Option ℕ
  pub last_risk_control_at : Option ℕ
  pub proxy_url : Option Text
  pub proxy_id : Option Text
  pub created_at : ℕ
  pub archived_at : Option ℕ
  pub user_id : Option Text
  pub virtual_device_mid : Option Text
  pub claim : Option ClaimState
  pub initialization : Option InitializationView
  pub model_probe_only : Bool
  pub rate_limit_streak : ℕ
  pub risk_control_streak : ℕ
  pub upstream_503_streak : ℕ
  pub stream_truncate_count : ℕ
  pub truncate_avoid_until : ℕ
  pub start_plan_observation : StartPlanObservation
  pub credential_generation : ℕ

abbrev pub is_active : Status → Bool
is_active active = true
is_active _ = false

abbrev pub is_exhausted : Status → Bool
is_exhausted exhausted = true
is_exhausted _ = false

abbrev pub is_cooling : Status → Bool
is_cooling cooling = true
is_cooling _ = false

abbrev pub is_invalid : Status → Bool
is_invalid invalid = true
is_invalid _ = false

abbrev pub is_disabled : Status → Bool
is_disabled disabled = true
is_disabled _ = false

abbrev pub is_jwt : Mode → Bool
is_jwt jwt = true
is_jwt _ = false

abbrev pub is_api_key : Mode → Bool
is_api_key api_key = true
is_api_key _ = false

abbrev pub is_risk_control : Option ErrorKind → Bool
is_risk_control (some risk_control) = true
is_risk_control _ = false

-- Equality of two mode strings.
abbrev pub mode_eq : Mode → Mode → Bool
mode_eq jwt jwt = true
mode_eq api_key api_key = true
mode_eq (other_mode s) (other_mode t) = text_eq s t
mode_eq _ _ = false

abbrev pub deref_string : Option Text → Text
deref_string p = or_else p []

unfoldable pub is_manageable : Status → Bool
is_manageable active = true
is_manageable cooling = true
is_manageable exhausted = true
is_manageable _ = false

-- `normalize` of a decoded account; missing containers are empty lists here from the start.
unfoldable pub normalize : Account → Account
normalize a =
    if is_none a.last_risk_control_at
      && is_some a.last_error_at
      && is_risk_control a.last_error_kind
    then record a { last_risk_control_at = a.last_error_at }
    else a

unfoldable pub secret : Account → Text
secret a = if is_jwt a.mode then deref_string a.jwt_token else deref_string a.api_key

-- The receiver and the argument are pointers that may be nil.
unfoldable pub same_credential : Option Account → Option Account → Bool
unfolding secret
same_credential (some a) (some e) =
    text_eq a.id e.id
    && text_eq a.provider e.provider
    && mode_eq a.mode e.mode
    && text_eq (secret a) (secret e)
    && a.credential_generation == e.credential_generation
same_credential _ _ = false

unfoldable pub accepts_request_result : Option Account → Option Account → Bool
unfolding same_credential
accepts_request_result none e = same_credential none e
accepts_request_result (some a) e =
    same_credential (some a) e && a.enabled && not (is_disabled a.status) && is_none a.archived_at

unfoldable pub is_initializing : Account → Bool
is_initializing a = elim a.initialization [
  | none ↦ false
  | some v ↦ v.managed && not (text_eq v.state (codes "completed"))
]

unfoldable pub initialization_blocked : Account → Bool
initialization_blocked a = elim a.initialization [ none ↦ false | some v ↦ v.managed && v.blocked ]

unfoldable pub uses_fixed_proxy : Account → Bool
uses_fixed_proxy a = elim a.initialization [
  | none ↦ false
  | some v ↦ v.managed && ltb 0 v.granted_at
]

unfoldable pub accumulate_tokens : Account → ℕ → ℕ → ℕ → ℕ → Account
accumulate_tokens a input output creation read = record a {
  total_input_tokens = a.total_input_tokens + input;
  total_output_tokens = a.total_output_tokens + output;
  total_cache_creation_tokens = a.total_cache_creation_tokens + creation;
  total_cache_read_tokens = a.total_cache_read_tokens + read;
}

unfoldable pub reset_token_stats : Account → Account
reset_token_stats a = record a {
  total_input_tokens = 0;
  total_output_tokens = 0;
  total_cache_creation_tokens = 0;
  total_cache_read_tokens = 0;
}
