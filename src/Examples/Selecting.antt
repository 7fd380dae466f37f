-- ===== src/Examples/Selecting.antt =====
-- The theorems on the selection of an account.
use zcode2api_plus.Common.{
  ℕ, ◌+◌, ◌%◌, ◌<◌, ◌≡◌, ◌⊎◌, inl, inr, refl, Bool, true, false, List, [], ◌∷◌, Option, none, some,
  Text, codes, length, get_elem?, is_none, map, In, ◌≤ℤ◌, lookup, or_else,
}
use zcode2api_plus.Account.{Account}
use zcode2api_plus.Account.Quota.{usable_quota_for_model, model_availability}
use zcode2api_plus.Selection.{
  View, Query, publish, may_take, base, pin_hit, score, quota_layer, candidates, rotation_key,
  select_account, select_avoiding, is_available,
}
use zcode2api_plus.Selection.Answer.{Fits, select_account_sound, select_account_some}
use zcode2api_plus.Selection.Lines.{isolating, isolation_ignores_model}
use zcode2api_plus.Selection.Richest.{quota_layer_richest}
use zcode2api_plus.Selection.Turns.{turns, no_account_starves}
use zcode2api_plus.Common.{keep}
use zcode2api_plus.PoolStat.{pool_stats}
use zcode2api_plus.PoolStat.Counts.{is_free, pool_stats_active}
use zcode2api_plus.Examples.{first_account, second_account, start_time}

-- Nothing is pinned, isolated or measured.
abbrev view : View
view = record {
  initialization_of = λ a. none;
  is_model_probe = λ id. false;
  identity = λ url. url;
  strict_blocked = λ url. false;
  profiles = [];
  line_blocked = λ line. false;
  uplink = [];
  pin = none;
  silent_window = 0;
  expire_first_days = 0;
  uplink_band = false;
}

abbrev two_accounts : Query
two_accounts = record {
  provider = codes "zai";
  accounts = first_account ∷ second_account ∷ [];
  skip_ids = [];
  model_name = [];
  force_direct = false;
  avoid = codes "slow" ∷ [];
  now = start_time;
}

select_account_sound_example :
    In first_account (map (publish view) two_accounts.accounts)
    × (may_take view two_accounts first_account ≡ true)
    × ((pin_hit view start_time (base view two_accounts) ≡ some first_account)
        ⊎ Fits view two_accounts first_account)
unfolding select_account zcode2api_plus.Selection.choose pin_hit candidates quota_layer
    zcode2api_plus.Selection.uplink_layer zcode2api_plus.Selection.promo_layer
    zcode2api_plus.Selection.expiry_layer zcode2api_plus.Selection.truncate_layer
    zcode2api_plus.Selection.model_layer base may_take
    zcode2api_plus.Account.Scheduling.is_selectable zcode2api_plus.Account.initialization_blocked
    zcode2api_plus.Account.Scheduling.in_risk_control_silent_window
    zcode2api_plus.Selection.proxy_binding_available zcode2api_plus.Selection.account_avoids
    zcode2api_plus.Account.Quota.quota_number zcode2api_plus.Account.Quota.to_float
    zcode2api_plus.Account.Quota.usable_figure zcode2api_plus.Account.Quota.usable_from
    usable_quota_for_model zcode2api_plus.Common.insert zcode2api_plus.Common.lookup
    zcode2api_plus.Common.text_eq zcode2api_plus.Selection.bound_line_identity
    zcode2api_plus.Selection.has_promo_quota zcode2api_plus.Account.Expiry.contains
    zcode2api_plus.Selection.rotate score zcode2api_plus.Selection.top_from
    zcode2api_plus.ModelName.normalize_model_name
    zcode2api_plus.Account.Quota.quota_entries_for_model zcode2api_plus.Account.Quota.string_at
    zcode2api_plus.Account.Quota.entry_for zcode2api_plus.Account.Quota.entry_model
select_account_sound_example = select_account_sound view two_accounts [] {a = first_account} refl

select_account_some_example : is_none (select_account view two_accounts []).0 ≡ false
unfolding may_take zcode2api_plus.Account.Scheduling.is_selectable
    zcode2api_plus.Account.initialization_blocked
    zcode2api_plus.Account.Scheduling.in_risk_control_silent_window
    zcode2api_plus.Selection.proxy_binding_available zcode2api_plus.Selection.account_avoids
select_account_some_example =
    select_account_some view two_accounts [] second_account (inr (inl refl)) refl (inl refl)

quota_layer_richest_example :
    score (codes "glm") second_account ≤ℤ score (codes "glm") first_account
unfolding quota_layer zcode2api_plus.Selection.top_from score usable_quota_for_model
    zcode2api_plus.Account.Quota.usable_from zcode2api_plus.Account.Quota.quota_entries_for_model
    zcode2api_plus.ModelName.normalize_model_name zcode2api_plus.Account.Quota.entry_for
    zcode2api_plus.Common.text_eq zcode2api_plus.Account.Quota.entry_model
    zcode2api_plus.Account.Quota.string_at zcode2api_plus.Common.lookup
    zcode2api_plus.Account.Quota.usable_figure zcode2api_plus.Account.Quota.quota_number
    zcode2api_plus.Account.Quota.to_float zcode2api_plus.Common.◌+ℤ◌
quota_layer_richest_example =
    quota_layer_richest (codes "glm") (first_account ∷ second_account ∷ []) first_account
      second_account (inl refl) (inr (inl refl))

isolation_ignores_model_example :
    select_account
      (isolating view (λ line. true))
      (record two_accounts { model_name = codes "glm" })
      []
    ≡ select_account view (record two_accounts { model_name = codes "glm" }) []
isolation_ignores_model_example =
    isolation_ignores_model view (λ line. true) (record two_accounts { model_name = codes "glm" })
      [] refl

none_pinned : pin_hit view two_accounts.now (base view two_accounts) ≡ none
unfolding pin_hit
none_pinned = refl

both_left :
    candidates view two_accounts (base view two_accounts) ≡ first_account ∷ second_account ∷ []
unfolding select_account zcode2api_plus.Selection.choose pin_hit candidates quota_layer
    zcode2api_plus.Selection.uplink_layer zcode2api_plus.Selection.promo_layer
    zcode2api_plus.Selection.expiry_layer zcode2api_plus.Selection.truncate_layer
    zcode2api_plus.Selection.model_layer base may_take
    zcode2api_plus.Account.Scheduling.is_selectable zcode2api_plus.Account.initialization_blocked
    zcode2api_plus.Account.Scheduling.in_risk_control_silent_window
    zcode2api_plus.Selection.proxy_binding_available zcode2api_plus.Selection.account_avoids
    zcode2api_plus.Account.Quota.quota_number zcode2api_plus.Account.Quota.to_float
    zcode2api_plus.Account.Quota.usable_figure zcode2api_plus.Account.Quota.usable_from
    usable_quota_for_model zcode2api_plus.Common.insert zcode2api_plus.Common.lookup
    zcode2api_plus.Common.text_eq zcode2api_plus.Selection.bound_line_identity
    zcode2api_plus.Selection.has_promo_quota zcode2api_plus.Account.Expiry.contains
    zcode2api_plus.Selection.rotate score zcode2api_plus.Selection.top_from
    zcode2api_plus.ModelName.normalize_model_name
    zcode2api_plus.Account.Quota.quota_entries_for_model zcode2api_plus.Account.Quota.string_at
    zcode2api_plus.Account.Quota.entry_for zcode2api_plus.Account.Quota.entry_model
both_left = refl

no_account_starves_example :
    (i : ℕ) × (i < length (candidates view two_accounts (base view two_accounts)))
    × ((select_account view two_accounts (turns view two_accounts i [])).0 ≡ some second_account)
no_account_starves_example =
    no_account_starves view two_accounts none_pinned (rw both_left refl) [] second_account
      (rw both_left (inr (inl refl)))

pool_stats_active_example :
    (pool_stats view (codes "glm") start_time two_accounts.accounts).active
    ≡ length (keep (is_free view start_time) two_accounts.accounts)
pool_stats_active_example = pool_stats_active view (codes "glm") start_time two_accounts.accounts
