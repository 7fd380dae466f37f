-- ===== src/Examples.antt =====
-- Tests, and the theorems applied at concrete inputs.
pub mod Accounts
pub mod Quotas
pub mod Selecting
pub mod Tokens
pub mod Tickets
pub mod Lines
pub mod Recoveries
pub mod Replays
use zcode2api_plus.Common.{
  ℕ, Bool, true, false, List, [], ◌∷◌, Option, none, some, Text, codes, ◌*◌, pos,
}
use zcode2api_plus.Account.{Account, Status, Mode, num, str, ErrorKind}

abbrev pub day : ℕ
day = 86_400_000_000_000

abbrev pub start_time : ℕ
start_time = 20_000 * 86_400_000_000_000

-- An account of a JWT login with 100 left for one model.
abbrev pub first_account : Account
first_account = record {
  id = codes "a1";
  name = codes "first";
  provider = codes "zai";
  mode = Mode.jwt;
  email = none;
  jwt_token = some (codes "jwt");
  api_key = none;
  enabled = true;
  status = Status.active;
  quota =
      (
        codes "glm",
        (codes "model", str (codes "GLM"))
            ∷ (codes "remaining", num (pos 100))
            ∷ (codes "period", str (codes "one_time"))
            ∷ (codes "expires_at", num (pos 1_728_050_000))
            ∷ [],
      )
      ∷ [];
  exhausted_models = [];
  disabled_models = [];
  plan = [];
  plans = [];
  use_count = 3;
  fail_count = 0;
  total_input_tokens = 0;
  total_output_tokens = 0;
  total_cache_creation_tokens = 0;
  total_cache_read_tokens = 0;
  last_used_at = none;
  last_checked_at = none;
  cooling_until = none;
  last_error = none;
  last_error_kind = none;
  last_error_at = none;
  last_risk_control_at = none;
  proxy_url = none;
  proxy_id = none;
  created_at = 0;
  archived_at = none;
  user_id = none;
  virtual_device_mid = none;
  claim = none;
  initialization = none;
  model_probe_only = false;
  rate_limit_streak = 0;
  risk_control_streak = 0;
  upstream_503_streak = 0;
  stream_truncate_count = 0;
  truncate_avoid_until = 0;
  start_plan_observation = record {
    account_id = [];
    provider = [];
    checked_at = 0;
    missing = false;
    proxy_id = [];
    proxy_url = [];
    credential_hash = [];
    credential_generation = 0;
  };
  credential_generation = 1;
}

abbrev pub second_account : Account
second_account = record first_account { id = codes "a2"; name = codes "second" }

-- Banned by risk control.
abbrev pub banned_account : Account
banned_account = record first_account {
  status = Status.invalid;
  last_error_kind = some ErrorKind.risk_control;
  last_risk_control_at = some start_time;
  risk_control_streak = 2;
}

abbrev pub used_up_account : Account
used_up_account = record first_account { status = Status.exhausted }
