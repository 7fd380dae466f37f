-- ===== src/Examples/Quotas.antt =====
-- The theorems on model names and quota.
use zcode2api_plus.Common.{ℕ, ◌+◌, ◌≡◌, lookup, text_eq, refl, [], ◌∷◌, codes, if◌then◌else◌, In}
use zcode2api_plus.ModelName.{normalize_model_name}
use zcode2api_plus.Account.{JsonMap, num, str}
use zcode2api_plus.Common.{pos}
use zcode2api_plus.Account.Quota.{
  quota_has_balance, usable_figure, quota_number, to_float, entry_for, entry_model, parse_number,
  parse_digits, Availability, model_availability, snapshot_availability, names_model,
  quota_entries_for_model, sync_exhausted_models,
}
use zcode2api_plus.Account.Sync.{sync_exhausted_models_availability}
use zcode2api_plus.Account.Expiry.{
  soonest_from, soonest_step, quota_non_refreshing, quota_expiry_unix, normalize_unix_seconds,
  contains, IsUrgent, soonest_non_refreshing_expiry, soonest_expiry_sound,
}
use zcode2api_plus.Examples.{first_account, start_time, day}

sync_exhausted_models_availability_example :
    model_availability (sync_exhausted_models first_account) (codes "GLM") ≡ (
      if names_model (normalize_model_name (codes "GLM")) first_account.disabled_models
      then Availability.disabled
      else snapshot_availability first_account (normalize_model_name (codes "GLM")))
unfolding normalize_model_name
sync_exhausted_models_availability_example =
    sync_exhausted_models_availability first_account (codes "GLM") refl

abbrev lapses : ℕ
lapses = 1_728_050_000_000_000_000

soonest_expiry_sound_example :
    (q : JsonMap) × In q
      (quota_entries_for_model first_account (normalize_model_name (codes "glm")))
    × IsUrgent start_time (start_time + day) q lapses
unfolding soonest_non_refreshing_expiry quota_entries_for_model normalize_model_name soonest_from
    soonest_step quota_has_balance usable_figure quota_number to_float quota_non_refreshing
    quota_expiry_unix normalize_unix_seconds entry_for entry_model lookup text_eq contains
    parse_number parse_digits zcode2api_plus.Account.Quota.string_at
soonest_expiry_sound_example =
    soonest_expiry_sound first_account (codes "glm") start_time day {e = lapses} refl

abbrev promo_column : JsonMap
promo_column =
    (codes "model", str (codes "GLM"))
    ∷ (codes "remaining", num (pos 100))
    ∷ (codes "period", str (codes "one_time"))
    ∷ (codes "expires_at", num (pos 1_728_050_000))
    ∷ []
