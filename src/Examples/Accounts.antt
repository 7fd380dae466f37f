-- ===== src/Examples/Accounts.antt =====
-- The theorems on single accounts and on the account table.
use zcode2api_plus.Common.{
  subst, ap, or_else, ℕ, ◌+◌, ◌≤◌, ◌<◌, ◌≡◌, ◌⊎◌, ◌↔◌, inl, inr, refl, arith, Bool, true, false,
  not, ◌&&◌, List, [], ◌∷◌, ◌++◌, Option, none, some, Text, codes, is_nil, is_some, leb, length,
}
use zcode2api_plus.Account.{
  Account, Status, Mode, ErrorKind, is_jwt, is_invalid, deref_string, accepts_request_result,
}
use zcode2api_plus.Account.Scheduling.{
  Reason, local_scheduling_barrier, is_selectable, in_risk_control_silent_window,
  is_risk_control_invalid,
}
use zcode2api_plus.Account.Barrier.{barrier_ready}
use zcode2api_plus.Marks.{
  capped_seconds, rate_limit_cooling_steps, after_seconds, rate_limit, mark_rate_limited,
  upstream_down, apply_risk_control, count_failure,
}
use zcode2api_plus.Marks.Effects.{as_active, rate_limit_revives_invalid}
use zcode2api_plus.Marks.RiskLadder.{OnLadder, hits, risk_ladder}
use zcode2api_plus.Admin.{apply_enabled, cools_past, recover_account, RecoverError}
use zcode2api_plus.Admin.Laws.{enable_after_disable, recover_account_lem}
use zcode2api_plus.Table.{Accounts, find, update_for_request, is_named}
use zcode2api_plus.Table.Laws.{update_for_request_lem, KeepsNames}
use zcode2api_plus.Marks.Late.{limited, succeeded}
use zcode2api_plus.Recovery.{Recovery}
use zcode2api_plus.Recovery.Leases.{Hash}
use zcode2api_plus.Recovery.Late.{Outcome, marks, used_up, outcomes, late_answers_cannot_revive}
use zcode2api_plus.Examples.{first_account, second_account, banned_account, start_time, day}

barrier_ready_example :
    ((local_scheduling_barrier (some first_account) start_time day).0 ≡ Reason.ready) ↔ (
      (is_selectable first_account start_time ≡ true)
      × (in_risk_control_silent_window first_account start_time day ≡ false))
barrier_ready_example = barrier_ready first_account start_time day refl

abbrev cooling_account : Account
cooling_account = record first_account {
  status = Status.cooling;
  cooling_until = some (start_time + 30_000_000_000);
}

risk_ladder_example :
    OnLadder
      (600 ∷ 1_200 ∷ [])
      (first_account.risk_control_streak + length {A = Text × ℕ} ((codes "405", start_time) ∷ []))
      (start_time + day)
      (hits
        (600 ∷ 1_200 ∷ [])
        first_account
        ((codes "405", start_time) ∷ [] ++ (codes "405", start_time + day) ∷ []))
risk_ladder_example =
    risk_ladder (600 ∷ 1_200 ∷ []) ((codes "405", start_time) ∷ []) (codes "405") (start_time + day)
      first_account

abbrev banned_table : Accounts
banned_table = (codes "zai", banned_account ∷ []) ∷ []

rate_limit_revives_invalid_example :
    (is_selectable banned_account (start_time + day) ≡ false)
    × ((b : Account) × (find
            (mark_rate_limited 300 banned_table (some banned_account) (codes "429") start_time).0
            banned_account.provider
            banned_account.id
          ≡ some b)
        × (is_selectable b (start_time + day) ≡ (
            leb
              (after_seconds start_time
                (rate_limit 300 (codes "429") start_time banned_account).1.0)
              (start_time + day)
            && is_selectable (as_active banned_account) (start_time + day))))
unfolding find zcode2api_plus.Common.lookup zcode2api_plus.Common.text_eq is_named
    accepts_request_result
rate_limit_revives_invalid_example =
    rate_limit_revives_invalid 300 (codes "429") start_time (start_time + day) banned_table
      banned_account banned_account refl refl refl

enable_after_disable_example :
    (is_invalid first_account.status ≡ false)
    × (cools_past first_account.cooling_until (start_time + day) ≡ false)
unfolding is_selectable apply_enabled zcode2api_plus.Account.initialization_blocked
enable_after_disable_example =
    enable_after_disable start_time start_time (start_time + day) first_account (omega arith) refl

recover_account_lem_example :
    let (b, error) = recover_account day (codes "recovered") start_time banned_account in
    ((error ≡ some RecoverError.account_archived)
      × (is_some banned_account.archived_at ≡ true)
      × (b ≡ banned_account))
    ⊎ ((error ≡ some RecoverError.account_not_recoverable)
        × (is_some banned_account.archived_at ≡ false)
        × (is_risk_control_invalid banned_account ≡ false)
        × (b ≡ banned_account))
    ⊎ ((error ≡ none)
        × (is_some banned_account.archived_at ≡ false)
        × (is_risk_control_invalid banned_account ≡ true)
        × (b.risk_control_streak ≡ 0)
        × (is_selectable b (start_time + day) ≡ (
            not (in_risk_control_silent_window banned_account (start_time + day) day)
            && is_selectable
                (record banned_account { status = Status.active })
                (start_time + day))))
recover_account_lem_example =
    recover_account_lem day (codes "recovered") start_time (start_time + day) banned_account
      (omega arith)

abbrev table : Accounts
table = (codes "zai", first_account ∷ second_account ∷ []) ∷ []

abbrev fail_once : Account → Account × Unit {0}
fail_once a = (count_failure ErrorKind.rate_limited start_time a, tt)

fail_once_names : KeepsNames fail_once
unfolding count_failure
fail_once_names a = (refl, refl)

update_for_request_lem_example :
    let (t, r) = update_for_request table (some second_account) fail_once in
    ((t ≡ table) × (r ≡ none))
    ⊎ ((live : Account) × (find table (codes "zai") (codes "a2") ≡ some live)
        × (accepts_request_result (some live) (some second_account) ≡ true)
        × (find t (codes "zai") (codes "a2") ≡ some (fail_once live).0)
        × (r ≡ some (fail_once live).1))
update_for_request_lem_example =
    update_for_request_lem fail_once fail_once_names table second_account

second_apart :
    (live : Account)
    → find table (codes "zai") (codes "a2") ≡ some live
    → is_named (codes "a1") live ≡ false
unfolding is_named zcode2api_plus.Common.text_eq find zcode2api_plus.Common.lookup
second_apart live h =
    subst (λ a. is_named (codes "a1") a ≡ false) (ap (λ o. or_else o second_account) h) refl

abbrev archived_account : Account
archived_account = record second_account { archived_at = some start_time; enabled = false }

abbrev late_table : Accounts
late_table = (codes "zai", first_account ∷ archived_account ∷ []) ∷ []

abbrev late_store : Recovery
late_store = record { accounts = late_table; recovery = []; probes = []; next_serial = 0 }

abbrev provider_hash : Hash
provider_hash provider mode key generation = provider

abbrev late_row : List (Account × ℕ × Outcome)
late_row =
    (second_account, start_time, marks (limited 300 (codes "429")))
    ∷ (second_account, start_time, used_up provider_hash true (codes "glm") (codes "quota") 0)
    ∷ (second_account, start_time + day, marks succeeded)
    ∷ []

late_answers_cannot_revive_example :
    (b : Account) × (find (outcomes late_store late_row).accounts (codes "zai") (codes "a2")
      ≡ some b)
    × (is_selectable b (start_time + day) ≡ false)
unfolding find zcode2api_plus.Common.lookup zcode2api_plus.Common.text_eq is_named
    zcode2api_plus.Marks.Late.is_stopped
late_answers_cannot_revive_example =
    late_answers_cannot_revive (codes "zai") (codes "a2") late_row late_store archived_account
      (start_time + day) (refl, refl, (refl, refl, (refl, refl, tt))) refl refl
