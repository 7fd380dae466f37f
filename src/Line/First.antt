-- ===== src/Line/First.antt =====
-- The first outcome of a line after a quarantine.
use zcode2api_plus.Common.{
  ◌≢◌, ℕ, suc, ◌+◌, ◌/◌, ◌≤◌, ◌<◌, ◌≡◌, inl, inr, refl, ◌∙◌, subst, Bool, true, false, none, some,
  Text, ltb, arith, Option-cases,
}
use zcode2api_plus.Line.{ProxyEgress, Settings, milli, soft_quarantine_duration}
use zcode2api_plus.Line.Soft.{
  ProxySoftFailure, SoftDecision, Trigger, nothing, quarantine, reopen_window, end_quarantine,
  reset_quiet, count_outcome, count_truncate, soft_ready, soft_count, soft_trigger, strike,
  soft_decide,
}

module _ (c : Settings) where
  -- What this outcome finds of its line: it was put aside, and is on probation now.
  abbrev OnProbation : ℕ → ProxySoftFailure → Type 0
  OnProbation strikes ent =
      (ent.strikes ≡ strikes) × (ent.probation ≡ true) × (ent.quarantine_until ≡ 0)

  ended :
      (now_ms : ℕ) (ent : ProxySoftFailure)
      → c.soft_probation ≡ true
      → 0 < ent.quarantine_until
      → ent.quarantine_until ≤ now_ms
      → OnProbation ent.strikes (end_quarantine c now_ms ent)
  unfolding end_quarantine
  ended now_ms ent a p q = (ground arith, ground arith, ground arith)

  opened :
      (now_ms : ℕ) (ent : ProxySoftFailure)
      → let r = reopen_window c now_ms ent in
        (r.strikes ≡ ent.strikes) × (r.quarantine_until ≡ ent.quarantine_until)
  unfolding reopen_window
  opened now_ms ent = (ground arith, ground arith)

  unquiet :
      (now_ms : ℕ) (ent : ProxySoftFailure)
      → c.soft_probation ≡ true
      → reset_quiet c now_ms ent ≡ ent
  unfolding reset_quiet
  unquiet now_ms ent a = rw a refl

  OnProbation-ready :
      (now_ms : ℕ) (ent : ProxySoftFailure)
      → c.soft_probation ≡ true
      → 0 < ent.quarantine_until
      → ent.quarantine_until ≤ now_ms
      → OnProbation ent.strikes
          (reset_quiet c now_ms (end_quarantine c now_ms (reopen_window c now_ms ent)))
  OnProbation-ready now_ms ent a p q =
      let (s, u) = opened now_ms ent in
      let (x, y, z) =
        ended now_ms (reopen_window c now_ms ent) a (omega (arith, u)) (omega (arith, u)) in
      rw (unquiet now_ms (end_quarantine c now_ms (reopen_window c now_ms ent)) a) (x ∙ s, y, z)

  count_success :
      (e : ProxyEgress) (signal : Text) (now_ms strikes : ℕ) (ent : ProxySoftFailure)
      → OnProbation strikes ent
      → let r = count_truncate c signal true now_ms (count_outcome c e true now_ms ent) in
        (r.strikes ≡ 0) × (r.probation ≡ false) × (r.quarantine_until ≡ 0)
  unfolding count_truncate count_outcome
  count_success e signal now_ms strikes ent (s, p, u) = (ground arith, ground arith, ground arith)

  count_failure :
      (e : ProxyEgress) (signal : Text) (now_ms strikes : ℕ) (ent : ProxySoftFailure)
      → OnProbation strikes ent
      → OnProbation strikes
          (count_truncate c signal false now_ms (count_outcome c e false now_ms ent))
  unfolding count_truncate count_outcome
  count_failure e signal now_ms strikes ent (s, p, u) = (ground arith, ground arith, ground arith)

  -- What a success and a failure do to a line on probation.
  abbrev pub Cleared : ProxySoftFailure × SoftDecision → Type 0
  Cleared r =
      ((r.0).strikes ≡ 0)
      × ((r.0).probation ≡ false)
      × ((r.0).quarantine_until ≡ 0)
      × (r.1 ≡ nothing)

  -- The line is under quarantine for the time that so many strikes ask for, from now on, and the
  -- caller is told so.
  abbrev pub PutAside : ℕ → ℕ → ProxySoftFailure × SoftDecision → Type 0
  PutAside now strikes r =
      ((r.0).strikes ≡ strikes)
      × ((r.0).quarantine_until ≡ (now + soft_quarantine_duration c strikes) / milli)
      × ((t : Trigger) × (r.1 ≡ quarantine (now + soft_quarantine_duration c strikes) strikes t))

  decided :
      (signal : Text) (now : ℕ) (ent : ProxySoftFailure) (t : Trigger)
      → c.soft_quarantine ≡ true
      → ltb (now / milli) ent.quarantine_until ≡ false
      → soft_trigger c signal (now / milli) ent ≡ some t
      → let hit = strike c now ent in
        soft_decide c signal false now ent ≡ (
          record hit { probation = false },
          quarantine (now + soft_quarantine_duration c hit.strikes) hit.strikes t,
        )
  unfolding soft_decide
  decided signal now ent t a q e = rw (soft_decide, a, q, e) refl

  triggered :
      (signal : Text) (now_ms : ℕ) (ent : ProxySoftFailure)
      → c.soft_probation ≡ true
      → ent.probation ≡ true
      → soft_trigger c signal now_ms ent ≢ none
  unfolding soft_trigger
  triggered signal now_ms ent b p n = ground arith

  decide_failure :
      (signal : Text) (now strikes : ℕ) (ent : ProxySoftFailure)
      → c.soft_quarantine ≡ true
      → c.soft_probation ≡ true
      → OnProbation strikes ent
      → PutAside now (suc strikes) (soft_decide c signal false now ent)
  unfolding strike
  decide_failure signal now strikes ent a b (s, p, u) =
      elim (Option-cases (soft_trigger c signal (now / milli) ent)) [
        | inl n ↦ absurd (triggered signal (now / milli) ent b p n)
        | inr (t, e) ↦
            let d = decided signal now ent t a (ground arith) e in
            subst (λ n. PutAside now (suc n) (soft_decide c signal false now ent)) s
              (rw d (refl, refl, (t, refl)))
      ]

  decide_success :
      (signal : Text) (now : ℕ) (ent : ProxySoftFailure)
      → ent.strikes ≡ 0
      → ent.probation ≡ false
      → ent.quarantine_until ≡ 0
      → Cleared (soft_decide c signal true now ent)
  unfolding soft_decide
  decide_success signal now ent s p u = (s, p, u, refl)

  module _ (e : ProxyEgress) (signal : Text) (status now : ℕ) (ent : ProxySoftFailure) where
    -- The entry and the decision after an outcome of this line.
    abbrev pub outcome : Bool → ProxySoftFailure × SoftDecision
    outcome ok =
        soft_decide c signal ok now (soft_count c e signal status ok (now / milli) (some ent))

    outcome_success :
        c.soft_probation ≡ true
        → 0 < ent.quarantine_until
        → ent.quarantine_until ≤ now / milli
        → Cleared (outcome true)
    unfolding soft_count soft_ready
    outcome_success b p q =
        let ready = soft_ready c e.identity (now / milli) (some ent) in
        let i = OnProbation-ready (now / milli) ent b p q in
        let (s, f, u) = count_success e signal (now / milli) ent.strikes ready i in
        decide_success signal now _ s f u

    outcome_failure :
        c.soft_quarantine ≡ true
        → c.soft_probation ≡ true
        → 0 < ent.quarantine_until
        → ent.quarantine_until ≤ now / milli
        → PutAside now (suc ent.strikes) (outcome false)
    unfolding soft_count soft_ready
    outcome_failure a b p q =
        let ready = soft_ready c e.identity (now / milli) (some ent) in
        let i = OnProbation-ready (now / milli) ent b p q in
        let f = count_failure e signal (now / milli) ent.strikes ready i in
        decide_failure signal now ent.strikes _ a b f

    -- After a quarantine that is over, where probation is on, the first outcome decides: a success
    -- takes all strikes away and leaves the line free, a failure puts the line under quarantine again
    -- from now on, for the time that one strike more asks for.
    pub first_outcome_decides :
        c.soft_quarantine ≡ true
        → c.soft_probation ≡ true
        → 0 < ent.quarantine_until
        → ent.quarantine_until ≤ now / milli
        → Cleared (outcome true) × PutAside now (suc ent.strikes) (outcome false)
    first_outcome_decides a b p q = (outcome_success b p q, outcome_failure a b p q)
