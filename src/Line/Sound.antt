-- ===== src/Line/Sound.antt =====
-- What an entry of a line with 405 answers promises, and the single changes that keep it.
use zcode2api_plus.Common.{
  ℕ, suc, ◌+◌, ◌*◌, ◌/◌, ◌≤◌, ◌<◌, ◌≡◌, refl, Bool, not, ◌||◌, Option, none, some, Text, leb, ◌==◌,
  is_nil, lookup, max, arith, if_intro,
}
use zcode2api_plus.Line.{ProxyEgress, Settings, hour, minute, milli, line405_quarantine}
use zcode2api_plus.Line.Reject.{
  Line405Failure, Lines, queued, new_entry, entry_for_line, count_405, isolate, maybe_queue_probe,
  cooling_down, roll_hour,
}

-- The longest isolation, in milliseconds.
abbrev pub isolation_cap : Settings → ℕ
isolation_cap c = max c.quarantine_minutes c.max_quarantine_minutes * 60000

-- An isolated line has had its row of 405 answers since its last success, was isolated no more
-- often than it has had answers in that row, and is not isolated beyond the cap from the last one.
pub record IsSound (c : Settings) (clock : ℕ) (ent : Line405Failure) : Type 0 where
  pub counted : ent.consecutive_405 ≤ ent.total_405
  pub struck : ent.strikes ≤ ent.consecutive_405
  pub reason : 0 < ent.quarantine_until → (0 < c.min_streak) × (c.min_streak ≤ ent.consecutive_405)
  pub past : ent.last_at ≤ clock / milli
  pub capped : ent.quarantine_until ≤ ent.last_at + isolation_cap c

minutes_milli : (now k : ℕ) → (now + k * minute) / milli ≡ now / milli + k * 60000
minutes_milli now k = omega arith

quarantine_capped :
    (c : Settings) (now strikes : ℕ)
    → (now + line405_quarantine c strikes) / milli ≤ now / milli + isolation_cap c
unfolding line405_quarantine
quarantine_capped c now strikes =
    let base = c.quarantine_minutes * minute in
    let top = c.max_quarantine_minutes * minute in
    if_intro (λ d. (now + d) / milli ≤ now / milli + isolation_cap c) (leb strikes 1)
      (λ y. omega (arith, minutes_milli now c.quarantine_minutes))
      (λ n. omega (arith, minutes_milli now c.max_quarantine_minutes))

module _ (c : Settings) where
  pub IsSound-later :
      (clock now : ℕ) (ent : Line405Failure) → clock ≤ now → IsSound c clock ent → IsSound c now ent
  IsSound-later clock now ent h i = record {
    counted = i.counted;
    struck = i.struck;
    reason = i.reason;
    past = omega (arith, i.past, div_mono clock now h);
    capped = i.capped;
  }
    where
      div_mono : (a b : ℕ) → a ≤ b → a / milli ≤ b / milli
      div_mono a b h = omega arith

  pub IsSound-new : (identity : Text) (now : ℕ) → IsSound c now (new_entry identity (now / milli))
  IsSound-new identity now = record {
    counted = omega arith;
    struck = omega arith;
    reason = λ h. absurd (omega arith);
    past = omega arith;
    capped = omega arith;
  }

  pub IsSound-found :
      (e : ProxyEgress) (now : ℕ) (o : Option Line405Failure)
      → ((ent : Line405Failure) → o ≡ some ent → IsSound c now ent)
      → IsSound c now (entry_for_line e (now / milli) o)
  IsSound-found e now none f = IsSound-new e.identity now
  IsSound-found e now (some ent) f =
      if_intro (IsSound c now) (ent.generation == e.generation) (λ y. f ent refl)
        (λ n. IsSound-new e.identity now)

  pub IsSound-count :
      (e : ProxyEgress) (now : ℕ) (ent : Line405Failure)
      → IsSound c now ent
      → IsSound c now (count_405 e (now / milli) ent)
  IsSound-count e now ent i = record {
    counted = omega (arith, i.counted);
    struck = omega (arith, i.struck);
    reason = λ h. let (a, b) = i.reason h in (a, omega arith);
    past = omega arith;
    capped = omega (arith, i.past, i.capped);
  }

  pub IsSound-isolate :
      (e : ProxyEgress) (now : ℕ) (ent : Line405Failure)
      → IsSound c now ent
      → 0 < c.min_streak
      → c.min_streak ≤ suc ent.consecutive_405
      → IsSound c now (isolate c now (count_405 e (now / milli) ent))
  unfolding isolate
  IsSound-isolate e now ent i p q = record {
    counted = omega (arith, i.counted);
    struck = omega (arith, i.struck);
    reason = λ h. (p, q);
    past = omega arith;
    capped = omega (arith, i.past, i.capped, quarantine_capped c now (suc ent.strikes));
  }

  -- A probe that is queued changes nothing of what the entry promises.
  abbrev pub Probed : ℕ → Lines → Lines × Line405Failure → Type 0
  Probed now s r = IsSound c now r.1 × ((r.0).entries ≡ s.entries)

  pub Probed-queue :
      (queue_probe : Text → ℕ → Bool) (ent : Line405Failure) (now : ℕ) (s : Lines)
      → IsSound c now ent
      → Probed now s (maybe_queue_probe c queue_probe ent now s)
  unfolding maybe_queue_probe
  Probed-queue queue_probe ent now s i =
      if_intro (Probed now s) (is_nil ent.profile_id || c.probe_per_hour == 0) (λ y. (i, refl))
        (λ n.
          if_intro (Probed now s) (cooling_down c (lookup ent.profile_id s.probed_at) now)
            (λ y. (i, refl))
            (λ n.
              if_intro (Probed now s) (leb c.probe_per_hour (roll_hour now s).probe_count)
                (λ y. (i, rolled))
                (λ n.
                  if_intro (Probed now s) (not (queue_probe ent.profile_id now)) (λ y. (i, rolled))
                    (λ n. (same, rolled)))))
    where
      rolled : (roll_hour now s).entries ≡ s.entries
      rolled =
          if_intro (λ (t : Lines). t.entries ≡ s.entries) (s.probe_hour == now / hour * 3600)
            (λ y. refl) (λ n. refl)

      same : IsSound c now (record ent { probe_state = queued; probe_at = now / milli })
      same = record {
        counted = i.counted;
        struck = i.struck;
        reason = i.reason;
        past = i.past;
        capped = i.capped;
      }
