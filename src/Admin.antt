-- ===== src/Admin.antt =====
-- What administrators do to an account: the field changes of `SetEnabled`, `SetArchived`,
-- `EditAccount`, `RenewJWT` and `RecoverAccount` of internal/store/store.go, on an account that no
-- initialization task manages. `silent_window` is config.RiskSilentWindow().
pub mod Laws
use zcode2api_plus.Common.{
  ℕ, Bool, true, false, not, ◌&&◌, List, [], Option, none, some, Text, ltb, if◌then◌else◌, is_some,
}
use zcode2api_plus.Account.{
  Account, Status, Mode, jwt, api_key, ErrorKind, risk_control, is_invalid, is_disabled,
}
use zcode2api_plus.Account.Scheduling.{risk_control_silent_until, is_risk_control_invalid}

-- `acc.CoolingUntil != nil && *acc.CoolingUntil > now`.
abbrev pub cools_past : Option ℕ → ℕ → Bool
cools_past none now = false
cools_past (some until) now = ltb now until

unfoldable pub apply_enabled : ℕ → Account → Bool → Account
apply_enabled now a false = record a {
  enabled = false;
  status = if is_invalid a.status then a.status else Status.disabled;
}
apply_enabled now a true = record a {
  enabled = true;
  status =
      if not (is_disabled a.status)
      then a.status
      else if cools_past a.cooling_until now
      then Status.cooling
      else Status.active;
}

unfoldable pub set_archived : ℕ → Account → Bool → Account
unfolding apply_enabled
set_archived now a true = apply_enabled now (record a { archived_at = some now }) false
set_archived now a false = record a { archived_at = none }

-- The part of an edit that replaces the credential, by `SecretMode`.
unfoldable pub replace_secret : Account → Mode → Text → Account
replace_secret a jwt s = record a {
  mode = jwt;
  jwt_token = some s;
  api_key = none;
  status = Status.active;
  last_error = none;
  last_error_kind = none;
  last_error_at = none;
  risk_control_streak = 0;
  last_risk_control_at = none;
}
replace_secret a _ s = record a {
  mode = api_key;
  api_key = some s;
  jwt_token = none;
  status = Status.active;
  last_error = none;
  last_error_kind = none;
  last_error_at = none;
  risk_control_streak = 0;
  last_risk_control_at = none;
}

unfoldable pub renew_jwt : Account → Text → Account
renew_jwt a token = record a {
  mode = jwt;
  jwt_token = some token;
  status = Status.active;
  last_error = none;
  last_error_kind = none;
  last_error_at = none;
  risk_control_streak = 0;
  last_risk_control_at = none;
}

-- The text of the note is not modelled: it is `note`.
unfoldable pub apply_recovered : ℕ → Text → ℕ → Account → Account
apply_recovered silent_window note now a =
    let free = record a {
      status = Status.active;
      cooling_until = none;
      risk_control_streak = 0;
      last_error = none;
      last_error_kind = none;
      last_error_at = none;
    } in
    elim (risk_control_silent_until a silent_window) [
      | none ↦ free
      | some until ↦
          if ltb now until
          then record free {
            status = Status.cooling;
            cooling_until = some until;
            last_error_kind = some risk_control;
            last_error = some note;
            last_error_at = some now;
          }
          else free
    ]

pub data RecoverError : Type 0 where
  account_archived account_not_recoverable : RecoverError

-- The account of `RecoverAccount`, and its error.
unfoldable pub recover_account : ℕ → Text → ℕ → Account → Account × Option RecoverError
unfolding apply_recovered
recover_account silent_window note now a =
    if is_some a.archived_at
    then (a, some account_archived)
    else if not (is_risk_control_invalid a)
    then (a, some account_not_recoverable)
    else (apply_recovered silent_window note now a, none)
