-- ===== src/Line/Probation.antt =====
-- Lines put aside after requests that were not completed: what an entry promises, and how every
-- phase of `RecordProxySoftOutcome` keeps it.
use zcode2api_plus.Common.{
  ℕ, zero, suc, ◌+◌, ◌-◌, ◌*◌, ◌/◌, ◌^◌, ◌≤◌, ◌<◌, ◌≡◌, inl, inr, refl, Bool, true, false, not,
  ◌&&◌, ◌||◌, Option, Text, ltb, leb, or_else, min, arith, if_intro, Option-cases,
}
use zcode2api_plus.Line.{ProxyEgress, Settings, minute, milli, doubled, soft_quarantine_duration}
use zcode2api_plus.Line.Soft.{
  ProxySoftFailure, SoftDecision, new_soft, reopen_window, end_quarantine, reset_quiet,
  count_outcome, count_truncate, soft_count, soft_trigger, strike, soft_decide, quiet_reset_ms,
  strike_cooldown_ms,
}

-- Eight times the first duration, in milliseconds.
abbrev pub soft_cap : Settings → ℕ
soft_cap c = 8 * c.soft_quarantine_minutes * 60000

-- A line that is put aside has strikes and is not on probation, one on probation has strikes, and
-- none is put aside for longer than the cap from its last strike.
pub record IsFit (c : Settings) (clock : ℕ) (ent : ProxySoftFailure) : Type 0 where
  pub counted : ent.failures ≤ ent.attempts
  pub struck : 0 < ent.quarantine_until → (0 < ent.strikes) × (ent.probation ≡ false)
  pub watched : ent.probation ≡ true → 0 < ent.strikes
  pub past : ent.last_strike_at ≤ clock / milli
  pub capped : ent.quarantine_until ≤ ent.last_strike_at + soft_cap c

doubled_cases : (base strikes : ℕ) → doubled base strikes ≤ 8 * base
unfolding doubled
doubled_cases base strikes =
    if_intro (λ d. d ≤ 8 * base) (leb strikes 1) (λ y. omega arith)
      (λ n. go (min (strikes - 1) 3) (omega arith))
  where
    go : (k : ℕ) → k ≤ 3 → base * 2 ^ k ≤ 8 * base
    go zero h = omega arith
    go (suc zero) h = omega arith
    go (suc (suc zero)) h = omega arith
    go (suc (suc (suc zero))) h = omega arith
    go (suc (suc (suc (suc k)))) h = absurd (omega arith)

module _ (c : Settings) (now : ℕ) where
  pub IsFit-new : (identity : Text) → IsFit c now (new_soft identity (now / milli))
  IsFit-new identity = record {
    counted = omega arith;
    struck = λ h. absurd (omega arith);
    watched = λ h. absurd (ground arith);
    past = omega arith;
    capped = omega arith;
  }

  pub IsFit-window :
      (ent : ProxySoftFailure) → IsFit c now ent → IsFit c now (reopen_window c (now / milli) ent)
  unfolding reopen_window
  IsFit-window ent i =
      if_intro (IsFit c now)
        (leb ent.quarantine_until (now / milli)
          && leb c.soft_window (now / milli - ent.window_start))
        (λ y. record {
          counted = omega arith;
          struck = i.struck;
          watched = i.watched;
          past = i.past;
          capped = i.capped;
        })
        (λ n. i)

  -- A quarantine that stands is not yet over.
  abbrev pub Standing : ProxySoftFailure → Type 0
  Standing ent = 0 < ent.quarantine_until → now / milli < ent.quarantine_until

  pub IsFit-end :
      (ent : ProxySoftFailure)
      → IsFit c now ent
      → let r = end_quarantine c (now / milli) ent in IsFit c now r × Standing r
  unfolding end_quarantine
  IsFit-end ent i =
      if_intro (λ (r : ProxySoftFailure). IsFit c now r × Standing r)
        (ltb 0 ent.quarantine_until && leb ent.quarantine_until (now / milli))
        (λ y. (
          record {
            counted = i.counted;
            struck = λ h. absurd (omega arith);
            watched = λ h. (i.struck (ground arith)).0;
            past = i.past;
            capped = omega arith;
          },
          λ h. absurd (omega arith),
        ))
        (λ n. (i, λ h. ground arith))

  pub IsFit-quiet :
      (ent : ProxySoftFailure)
      → IsFit c now ent
      → Standing ent
      → let r = reset_quiet c (now / milli) ent in IsFit c now r × Standing r
  unfolding reset_quiet
  IsFit-quiet ent i s =
      if_intro (λ (r : ProxySoftFailure). IsFit c now r × Standing r)
        (not c.soft_probation
          && ltb 0 ent.strikes
          && leb ent.quarantine_until (now / milli)
          && ltb 0 ent.last_at
          && leb quiet_reset_ms (now / milli - ent.last_at))
        (λ y. (
          record {
            counted = i.counted;
            struck = λ h. absurd (let k = s h in ground arith);
            watched = λ h. absurd (ground arith);
            past = i.past;
            capped = i.capped;
          },
          s,
        ))
        (λ n. (i, s))

  pub IsFit-count :
      (e : ProxyEgress) (ok : Bool) (ent : ProxySoftFailure)
      → IsFit c now ent
      → Standing ent
      → IsFit c now (count_outcome c e ok (now / milli) ent)
  unfolding count_outcome
  IsFit-count e ok ent i s = record {
    counted = ground (arith, i.counted);
    struck = λ h. ground (arith, i.struck, i.watched);
    watched = λ h. ground (arith, i.watched);
    past = ground (arith, i.past);
    capped = ground (arith, i.capped);
  }

  pub IsFit-truncate :
      (signal : Text) (ok : Bool) (ent : ProxySoftFailure)
      → IsFit c now ent
      → IsFit c now (count_truncate c signal ok (now / milli) ent)
  unfolding count_truncate
  IsFit-truncate signal ok ent i = record {
    counted = ground (arith, i.counted);
    struck = λ h. ground (arith, i.struck, i.watched);
    watched = λ h. ground (arith, i.watched);
    past = ground (arith, i.past);
    capped = ground (arith, i.capped);
  }

  strike_capped :
      (strikes : ℕ) → (now + soft_quarantine_duration c strikes) / milli ≤ now / milli + soft_cap c
  unfolding soft_quarantine_duration
  strike_capped strikes = omega (arith, doubled_cases (c.soft_quarantine_minutes * minute) strikes)

  -- One strike more, of an entry that is not on probation, or leaves it.
  IsFit-strike :
      (ent : ProxySoftFailure) (on : Bool)
      → IsFit c now ent
      → on ≡ false
      → IsFit c now (record (strike c now ent) { probation = on })
  unfolding strike
  IsFit-strike ent on i o = record {
    counted = i.counted;
    struck = λ h. (omega arith, o);
    watched = λ h. omega arith;
    past = omega arith;
    capped = strike_capped (suc ent.strikes);
  }

  pub IsFit-decide :
      (signal : Text) (ok : Bool) (ent : ProxySoftFailure)
      → IsFit c now ent
      → IsFit c now (soft_decide c signal ok now ent).0
  unfolding soft_decide strike
  IsFit-decide signal ok ent i =
      let fine = λ (r : ProxySoftFailure × SoftDecision). IsFit c now r.0 in
      if_intro fine (ok || not c.soft_quarantine) (λ y. i)
        (λ n.
          if_intro fine (ltb (now / milli) ent.quarantine_until)
            (λ q.
              if_intro fine (leb strike_cooldown_ms (now / milli - ent.last_strike_at))
                (λ y. extended_fit (ground arith)) (λ n. i))
            (λ q. elim (Option-cases (soft_trigger c signal (now / milli) ent)) [
              | inl e ↦ rw e i
              | inr (t, e) ↦ rw e (IsFit-strike ent false i refl)
            ]))
    where
      extended_fit : 0 < ent.quarantine_until → IsFit c now (strike c now ent)
      extended_fit h = let (a, b) = i.struck h in IsFit-strike ent ent.probation i b

  pub IsFit-soft_count :
      (e : ProxyEgress) (signal : Text) (status : ℕ) (ok : Bool) (found : Option ProxySoftFailure)
      → IsFit c now (or_else found (new_soft e.identity (now / milli)))
      → IsFit c now (soft_count c e signal status ok (now / milli) found)
  unfolding soft_count
  IsFit-soft_count e signal status ok found i =
      let ent = or_else found (new_soft e.identity (now / milli)) in
      let opened = reopen_window c (now / milli) ent in
      let over = end_quarantine c (now / milli) opened in
      let (f, s) = IsFit-end opened (IsFit-window ent i) in
      let (g, t) = IsFit-quiet over f s in
      let h = IsFit-count e ok (reset_quiet c (now / milli) over) g t in
      let j = IsFit-truncate signal ok _ h in
      record {
        counted = j.counted;
        struck = j.struck;
        watched = j.watched;
        past = j.past;
        capped = j.capped;
      }
