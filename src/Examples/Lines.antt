-- ===== src/Examples/Lines.antt =====
-- The theorems on proxy lines and on cooling ladders.
use zcode2api_plus.Common.{
  ℕ, ◌+◌, ◌*◌, ◌/◌, ◌≤◌, ◌<◌, ◌≡◌, refl, arith, Bool, true, false, List, [], ◌∷◌, map, Option, none,
  some, Text, codes, lookup,
}
use zcode2api_plus.Marks.{second}
use zcode2api_plus.Line.{ProxyEgress, Settings, milli}
use zcode2api_plus.Line.Reject.{Line405Failure, Lines, record_line405, record_line_ok, is_blocked}
use zcode2api_plus.Line.Sound.{isolation_cap}
use zcode2api_plus.Line.Isolation.{Runs405, start, hits, success_unblocks}
use zcode2api_plus.Line.Soft.{
  ProxySoftFailure, SoftLines, new_soft, record_soft_outcome, is_quarantined,
}
use zcode2api_plus.Line.Probation.{soft_cap}
use zcode2api_plus.Line.Row.{row, isolated_for_a_reason}
use zcode2api_plus.Line.Quarantine.{RunsSoft, records, quarantine_ends}
use zcode2api_plus.Line.First.{Cleared, PutAside, outcome, first_outcome_decides}
use zcode2api_plus.Cooling.{
  itoa, join_commas, parse_cooling_steps, normalize_cooling_steps, risk_cooling_steps,
  upstream_503_steps,
}
use zcode2api_plus.Cooling.Ladder.{IsLadder, parse-print, used_ladders, normalize_cooling_steps_lem}
use zcode2api_plus.Examples.{start_time}

abbrev usual : Settings
usual = record {
  min_streak = 2;
  quarantine_minutes = 30;
  max_quarantine_minutes = 240;
  probe_cooldown_minutes = 30;
  probe_per_hour = 12;
  soft_quarantine = true;
  soft_probation = true;
  soft_window = 1_800_000;
  soft_min_attempts = 3;
  soft_min_failures = 3;
  soft_min_rate_percent = 50;
  soft_quarantine_minutes = 30;
  soft_consecutive = 2;
  soft_consecutive_window = 7_200_000;
  soft_truncate_strikes = 2;
  soft_truncate_window = 3_600_000;
}

abbrev line : ProxyEgress
line = record { id = codes "p1"; mode = codes "proxy"; generation = 1; identity = codes "h" }

abbrev no_lines : Lines
no_lines = record { closed = false; entries = []; probed_at = []; probe_hour = 0; probe_count = 0 }

abbrev takes_all : Text → ℕ → Bool
takes_all id now = true

abbrev once : Lines
once = (record_line405 usual takes_all line start_time no_lines).0

abbrev twice : Lines
twice = (record_line405 usual takes_all line (start_time + second) once).0

twice_run : Runs405 usual takes_all start_time no_lines (start_time + second) twice
twice_run =
    hits start_time once line (start_time + second)
      (hits start_time no_lines line start_time start (omega arith)) (omega arith)

isolated_for_a_reason_example :
    (ent : Line405Failure) × (lookup (codes "h") twice.entries ≡ some ent)
    × (0 < 2)
    × (2 ≤ row (codes "h") twice_run)
    × ((start_time + 2 * second) / milli < ent.last_at + isolation_cap usual)
unfolding is_blocked lookup record_line405 zcode2api_plus.Common.text_eq
    zcode2api_plus.Common.insert
isolated_for_a_reason_example =
    isolated_for_a_reason usual takes_all (codes "h") (start_time + 2 * second) refl twice_run refl

success_unblocks_example :
    is_blocked (codes "h") start_time (record_line_ok line start_time twice) ≡ false
unfolding zcode2api_plus.Common.text_eq record_line405 lookup zcode2api_plus.Common.insert
success_unblocks_example = success_unblocks line start_time start_time twice refl refl (refl, tt)

abbrev no_soft : SoftLines
no_soft = record { closed = false; entries = []; rechecks = []; policy_revision = 0 }

abbrev failed_at : ℕ → SoftLines → SoftLines
failed_at now s = (record_soft_outcome usual line (codes "transport_timeout") 0 false now s).0

abbrev failed_twice : SoftLines
failed_twice = failed_at (start_time + second) (failed_at start_time no_soft)

soft_run : RunsSoft usual start_time no_soft (start_time + second) failed_twice
soft_run =
    records start_time (failed_at start_time no_soft) line (codes "transport_timeout") 0 false
      (start_time + second)
      (records start_time no_soft line (codes "transport_timeout") 0 false start_time RunsSoft.start
        (omega arith))
      (omega arith)

quarantine_ends_example :
    (ent : ProxySoftFailure) × (lookup (codes "h") failed_twice.entries ≡ some ent)
    × (0 < ent.strikes)
    × (ent.probation ≡ false)
    × ((start_time + 2 * second) / milli < ent.last_strike_at + soft_cap usual)
unfolding is_quarantined lookup record_soft_outcome zcode2api_plus.Common.text_eq
    zcode2api_plus.Common.insert
quarantine_ends_example =
    quarantine_ends usual (codes "h") (start_time + 2 * second) tt soft_run refl

-- Put aside until a moment ago.
abbrev past_quarantine : ProxySoftFailure
past_quarantine = record (new_soft (codes "h") 0) { strikes = 1; quarantine_until = 5 }

first_outcome_decides_example :
    Cleared usual (outcome usual line (codes "transport_reset") 0 start_time past_quarantine true)
    × PutAside usual start_time 2
        (outcome usual line (codes "transport_reset") 0 start_time past_quarantine false)
first_outcome_decides_example =
    first_outcome_decides usual line (codes "transport_reset") 0 start_time past_quarantine refl
      refl (omega arith) (omega arith)

parse-print_example :
    parse_cooling_steps (join_commas (map itoa (300 ∷ 900 ∷ []))) ≡ some (300 ∷ 900 ∷ [])
parse-print_example =
    parse-print 300 (900 ∷ []) (omega arith, omega arith, (omega arith, omega arith, tt))

used_ladders_example :
    IsLadder (risk_cooling_steps (some (codes "300,x")) (codes "60"))
    × IsLadder (upstream_503_steps (some (codes "300,x")) (codes "60"))
used_ladders_example = used_ladders (some (codes "300,x")) (codes "60")

normalize_cooling_steps_lem_example :
    (parse_cooling_steps (codes "60,120") ≡ parse_cooling_steps (codes " 60, 120"))
    × (normalize_cooling_steps (codes "60,120") ≡ some (codes "60,120"))
unfolding normalize_cooling_steps zcode2api_plus.Account.Quota.parse_digits
normalize_cooling_steps_lem_example =
    normalize_cooling_steps_lem (codes " 60, 120") (codes "60,120") refl
