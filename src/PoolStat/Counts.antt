-- ===== src/PoolStat/Counts.antt =====
-- What the counts of a pool mean.
use zcode2api_plus.Common.{
  ℕ, ◌+◌, ◌≡◌, Bool, false, not, ◌&&◌, List, [], ◌∷◌, Text, arith, keep, length, if◌then◌else◌,
}
use zcode2api_plus.Account.{Account, initialization_blocked}
use zcode2api_plus.Account.Scheduling.{is_selectable, in_risk_control_silent_window}
use zcode2api_plus.Selection.{View}
use zcode2api_plus.PoolStat.{
  PoolStat, empty_stat, count_account, count_cooling, count_active, project, stats_from, pool_stats,
}

abbrev pub counted : PoolStat → ℕ
counted s =
    s.initializing + s.archived + s.disabled + s.invalid + s.exhausted + s.cooling + s.risk_silent
    + s.active

-- An account free to be called, if it is not looked at whether it is kept for model probes.
unfoldable pub is_free : View → ℕ → Account → Bool
is_free v now a =
    is_selectable (record (project v a) { model_probe_only = false }) now
    && not (in_risk_control_silent_window a now v.silent_window)

account_once :
    (v : View) (model : Text) (now : ℕ) (s : PoolStat) (a : Account)
    → let t = count_account v model now s a in (t.total ≡ s.total + 1) × (counted t ≡ counted s + 1)
unfolding count_account count_cooling count_active
account_once v model now s a = ground arith

account_active :
    (v : View) (model : Text) (now : ℕ) (s : PoolStat) (a : Account)
    → (count_account v model now s (project v a)).active
      ≡ (if is_free v now a then s.active + 1 else s.active)
unfolding count_account count_cooling count_active is_free is_selectable initialization_blocked
    in_risk_control_silent_window
account_active v model now s a = ground arith

stats_counted :
    (v : View) (model : Text) (now : ℕ) (xs : List Account) (s : PoolStat)
    → ((stats_from v model now s xs).total ≡ s.total + length xs)
      × (counted (stats_from v model now s xs) ≡ counted s + length xs)
unfolding stats_from
stats_counted v model now [] s = (omega arith, omega arith)
stats_counted v model now (a ∷ xs) s =
    let t = count_account v model now s (project v a) in
    let (total, every) = stats_counted v model now xs t in
    let (one, once) = account_once v model now s (project v a) in (omega arith, omega arith)

stats_active :
    (v : View) (model : Text) (now : ℕ) (xs : List Account) (s : PoolStat)
    → (stats_from v model now s xs).active ≡ s.active + length (keep (is_free v now) xs)
unfolding stats_from
stats_active v model now [] s = omega arith
stats_active v model now (a ∷ xs) s =
    let t = count_account v model now s (project v a) in
    let rest = stats_active v model now xs t in
    let one = account_active v model now s a in ground arith

-- Every account of the provider is counted in exactly one of the eight classes.
pub pool_stats_total :
    (v : View) (model : Text) (now : ℕ) (accounts : List Account)
    → ((pool_stats v model now accounts).total ≡ length accounts)
      × (counted (pool_stats v model now accounts) ≡ length accounts)
unfolding pool_stats empty_stat
pool_stats_total v model now accounts =
    let (total, every) = stats_counted v model now accounts empty_stat in (omega arith, omega arith)

-- The accounts counted as active are those that the first test of selection passes and that stand
-- in no silent window, those kept for model probes counted like the others.
pub pool_stats_active :
    (v : View) (model : Text) (now : ℕ) (accounts : List Account)
    → (pool_stats v model now accounts).active ≡ length (keep (is_free v now) accounts)
unfolding pool_stats empty_stat
pool_stats_active v model now accounts =
    let every = stats_active v model now accounts empty_stat in omega arith
