-- ===== src/Line/Quarantine.antt =====
-- Lines put aside after requests that were not completed: why, for how long, and how they come back.
use zcode2api_plus.Common.{
  ℕ, suc, ◌+◌, ◌/◌, ◌≤◌, ◌<◌, ◌≡◌, inl, inr, refl, Bool, true, false, not, ◌&&◌, ◌||◌, some, Text,
  codes, text_ne, ltb, leb, is_nil, is_some, length, or_else, lookup, insert, arith, if_intro,
  Option-cases,
}
use zcode2api_plus.Line.{ProxyEgress, Settings, milli}
use zcode2api_plus.Line.Soft.{
  ProxySoftFailure, SoftLines, SoftDecision, new_soft, soft_count, soft_decide, prune_soft,
  queue_soft_recheck, is_nothing, record_soft_outcome, record_slow_sample, is_quarantined,
  slow_first_byte, recheck_limit,
}
use zcode2api_plus.Line.Prune.{Every, Every-lookup, Every-insert, Every-prune, Every-map}
use zcode2api_plus.Line.Probation.{soft_cap, IsFit, IsFit-new, IsFit-soft_count, IsFit-decide}

module _ (c : Settings) where
  -- Every entry is fit at this time.
  abbrev pub Fit : ℕ → SoftLines → Type 0
  Fit clock s = Every (IsFit c clock) s.entries

  Fit-later : (clock now : ℕ) (s : SoftLines) → clock ≤ now → Fit clock s → Fit now s
  Fit-later clock now s h e =
      Every-map (IsFit c clock) (IsFit c now) s.entries
        (λ v i. record {
          counted = i.counted;
          struck = i.struck;
          watched = i.watched;
          past = omega (arith, i.past, h);
          capped = i.capped;
        })
        e

  pub queue_entries :
      (ent : ProxySoftFailure) (now : ℕ) (s : SoftLines)
      → (queue_soft_recheck ent now s).entries ≡ s.entries
  unfolding queue_soft_recheck
  queue_entries ent now s =
      if_intro (λ (t : SoftLines). t.entries ≡ s.entries)
        (is_nil ent.profile_id
          || is_some (lookup ent.profile_id s.rechecks)
          || leb recheck_limit (length s.rechecks))
        (λ y. refl) (λ n. refl)

  Fit-prune : (now : ℕ) (s : SoftLines) → Fit now s → Fit now (prune_soft now s)
  unfolding prune_soft
  Fit-prune now s h = Every-prune (IsFit c now) _ _ _ s.entries h

  IsFit-found :
      (identity : Text) (now : ℕ) (s : SoftLines)
      → Fit now s
      → IsFit c now (or_else (lookup identity s.entries) (new_soft identity (now / milli)))
  IsFit-found identity now s h = elim (Option-cases (lookup identity s.entries)) [
    | inl n ↦ rw n (IsFit-new c now identity)
    | inr (ent, l) ↦ rw l (Every-lookup (IsFit c now) identity ent s.entries h l)
  ]

  Fit-record :
      (e : ProxyEgress) (signal : Text) (status : ℕ) (ok : Bool) (now : ℕ) (s : SoftLines)
      → Fit now s
      → Fit now (record_soft_outcome c e signal status ok now s).0
  unfolding record_soft_outcome
  Fit-record e signal status ok now s h =
      let fine = λ (r : SoftLines × SoftDecision). Fit now r.0 in
      let counted = soft_count c e signal status ok (now / milli) (lookup e.identity s.entries) in
      let r = soft_decide c signal ok now counted in
      let t : SoftLines = record s { entries = insert e.identity r.0 s.entries } in
      let i = IsFit-decide c now signal ok counted (
        IsFit-soft_count c now e signal status ok (lookup e.identity s.entries)
          (IsFit-found e.identity now s h)) in
      let put = Every-insert (IsFit c now) e.identity r.0 s.entries h i in
      if_intro fine (text_ne e.mode (codes "proxy") || is_nil e.identity || is_nil e.id) (λ y. h)
        (λ n.
          if_intro fine (not ok && is_nil signal) (λ y. h)
            (λ n.
              if_intro fine s.closed (λ y. h)
                (λ n.
                  if_intro (λ (u : SoftLines). Fit now u) (is_nothing r.1) (λ y. put)
                    (λ n. rw (queue_entries r.0 now (prune_soft now t)) (Fit-prune now t put)))))

  Fit-slow :
      (e : ProxyEgress) (ttfb now : ℕ) (s : SoftLines)
      → Fit now s
      → Fit now (record_slow_sample e ttfb now s)
  unfolding record_slow_sample
  Fit-slow e ttfb now s h =
      if_intro (Fit now)
        (text_ne e.mode (codes "proxy")
          || is_nil e.identity
          || is_nil e.id
          || ltb ttfb slow_first_byte)
        (λ y. h)
        (λ n.
          if_intro (Fit now) s.closed (λ y. h)
            (λ n. elim (Option-cases (lookup e.identity s.entries)) [
              | inl l ↦ rw l h
              | inr (ent, l) ↦ rw l (
                  Every-insert (IsFit c now) e.identity _ s.entries h
                    (slower ent (Every-lookup (IsFit c now) e.identity ent s.entries h l)))
            ]))
    where
      slower :
          (ent : ProxySoftFailure)
          → IsFit c now ent
          → IsFit c now (record ent { slow = suc ent.slow; last_at = now / milli })
      slower ent i = record {
        counted = i.counted;
        struck = i.struck;
        watched = i.watched;
        past = i.past;
        capped = i.capped;
      }

-- The lines in use: outcomes and slow answers, in the order of time.
pub data RunsSoft (c : Settings) (clock : ℕ) (s : SoftLines) : ℕ → SoftLines → Type 0 where
  start : RunsSoft c clock s clock s
  records :
      (at : ℕ) (t : SoftLines) (e : ProxyEgress) (signal : Text) (status : ℕ) (ok : Bool) (now : ℕ)
      → RunsSoft c clock s at t
      → at ≤ now
      → RunsSoft c clock s now (record_soft_outcome c e signal status ok now t).0
  slows :
      (at : ℕ) (t : SoftLines) (e : ProxyEgress) (ttfb now : ℕ)
      → RunsSoft c clock s at t
      → at ≤ now
      → RunsSoft c clock s now (record_slow_sample e ttfb now t)

module _ (c : Settings) where
  Runs-Fit :
      {clock : ℕ} {s : SoftLines} {at : ℕ} {t : SoftLines}
      → Fit c clock s
      → RunsSoft c clock s at t
      → Fit c at t
  Runs-Fit h start = h
  Runs-Fit h (records at t e signal status ok now r l) =
      Fit-record c e signal status ok now t (Fit-later c at now t l (Runs-Fit h r))
  Runs-Fit h (slows at t e ttfb now r l) =
      Fit-slow c e ttfb now t (Fit-later c at now t l (Runs-Fit h r))

  -- Whatever outcomes come, in the order of time: a line that is put aside has a strike and is not
  -- on probation, and comes back once eight times the first quarantine has passed since its last
  -- strike, however many strikes it has.
  pub quarantine_ends :
      {clock : ℕ} {s : SoftLines} {at : ℕ} {t : SoftLines} (identity : Text) (now : ℕ)
      → Fit c clock s
      → RunsSoft c clock s at t
      → is_quarantined identity now t ≡ true
      → (ent : ProxySoftFailure) × (lookup identity t.entries ≡ some ent)
        × (0 < ent.strikes)
        × (ent.probation ≡ false)
        × (now / milli < ent.last_strike_at + soft_cap c)
  unfolding is_quarantined
  quarantine_ends {at = at} {t = t} identity now h r b =
      elim (Option-cases (lookup identity t.entries)) [
        | inl n ↦ absurd (ground arith)
        | inr (ent, l) ↦
            let i = Every-lookup (IsFit c at) identity ent t.entries (Runs-Fit h r) l in
            let late : now / milli < ent.quarantine_until = ground arith in
            let (p, q) = i.struck (omega (arith, late)) in
            (ent, l, p, q, omega (arith, late, i.capped))
      ]
