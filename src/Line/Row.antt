-- ===== src/Line/Row.antt =====
-- Why a line is isolated: the row of answers 405 that it gave without a success.
use zcode2api_plus.Common.{
  ℕ, suc, ◌+◌, ◌/◌, ◌≤◌, ◌<◌, ◌≡◌, ◌≢◌, inl, inr, refl, sym, ap, ◌∙◌, subst, Bool, true, false, not,
  ◌&&◌, ◌||◌, [], Option, none, some, Text, codes, text_eq, text_eq_iff, text_ne, ltb, ◌==◌,
  if◌then◌else◌, is_nil, IsDistinct, lookup, insert, lookup-insert, arith, if_intro, Bool-cases,
  Option-cases,
}
use zcode2api_plus.Line.{ProxyEgress, Settings, milli, line405_limit}
use zcode2api_plus.Line.Reject.{
  Line405Failure, Lines, ProbeState, Decision405, entry_for_line, count_405, isolate, cleared,
  maybe_queue_probe, prune_line405, record_line405, record_line_ok, verdict_state, is_healthy,
  apply_probe_verdict, is_blocked, is_out_of_date,
}
use zcode2api_plus.Line.Oldest.{prune_found, IsDistinct-insert, IsDistinct-prune}
use zcode2api_plus.Line.Prune.{Every, Every-lookup}
use zcode2api_plus.Line.Sound.{isolation_cap, IsSound}
use zcode2api_plus.Line.Isolation.{Runs405, start, hits, succeeds, judges, Runs-Sound}

-- A request over this line, whose identity and profile are known.
abbrev pub over_line : ProxyEgress → Text → Bool
over_line e identity =
    not (text_ne e.mode (codes "proxy") || is_nil e.identity) && text_eq e.identity identity

-- The answers 405 of a line since its last success, counted over what happened.
unfoldable pub row :
    {c : Settings} {queue_probe : Text → ℕ → Bool} {clock : ℕ} {s : Lines} {at : ℕ} {t : Lines}
    → Text
    → Runs405 c queue_probe clock s at t
    → ℕ
row identity start = 0
row identity (hits at t e now r l) =
    if over_line e identity then suc (row identity r) else row identity r
row identity (succeeds at t e now r l) = if over_line e identity then 0 else row identity r
row identity (judges at t profile_id verdict target now r l) = row identity r

-- The counter of a line says no more than this.
record Low (identity : Text) (n : ℕ) (s : Lines) : Type 0 where
  once : IsDistinct s.entries
  low : (v : Line405Failure) → lookup identity s.entries ≡ some v → v.consecutive_405 ≤ n

module _ (identity : Text) (n : ℕ) where
  Low-more : (m : ℕ) (s : Lines) → n ≤ m → Low identity n s → Low identity m s
  Low-more m s l h = record { once = h.once; low = λ v f. let a = h.low v f in omega arith }

  Low-prune : (now : ℕ) (s : Lines) → Low identity n s → Low identity n (prune_line405 now s)
  unfolding prune_line405
  Low-prune now s h = record {
    once = IsDistinct-prune (λ u. u.last_at) (is_out_of_date now) line405_limit s.entries h.once;
    low = λ v f. h.low v (
        prune_found (λ u. u.last_at) (is_out_of_date now) line405_limit identity v s.entries h.once
          f);
  }

  Low-tidied :
      (test : Bool) (now : ℕ) (s : Lines)
      → Low identity n s
      → Low identity n (if test then prune_line405 now s else s)
  Low-tidied test now s h = if_intro (Low identity n) test (λ y. Low-prune now s h) (λ k. h)

  -- An entry is written, for this line or another.
  Low-put :
      (key : Text) (ent : Line405Failure) (m : ℕ) (s t : Lines)
      → t.entries ≡ insert key ent s.entries
      → m ≤ n
      → Low identity m s
      → (text_eq key identity ≡ true → ent.consecutive_405 ≤ n)
      → Low identity n t
  Low-put key ent m s t e l h f = record {
    once = subst IsDistinct (sym e) (IsDistinct-insert key ent s.entries h.once);
    low =
        λ v g. put v (sym (ap (lookup identity) e ∙ lookup-insert key identity ent s.entries) ∙ g);
  }
    where
      put :
          (v : Line405Failure)
          → (if text_eq key identity then some ent else lookup identity s.entries) ≡ some v
          → v.consecutive_405 ≤ n
      put v g = elim (Bool-cases (text_eq key identity)) [
        | inl y ↦ let same : some ent ≡ some v = rw y at g in let a = f y in ground arith
        | inr d ↦ let a = h.low v (rw d at g) in omega arith
      ]

-- A probe that is queued changes neither the entries nor the counter.
queued_same :
    (c : Settings) (queue_probe : Text → ℕ → Bool) (ent : Line405Failure) (now : ℕ) (s : Lines)
    → let r = maybe_queue_probe c queue_probe ent now s in
      ((r.0).entries ≡ s.entries) × ((r.1).consecutive_405 ≡ ent.consecutive_405)
unfolding maybe_queue_probe
queued_same c queue_probe ent now s = (ground arith, ground arith)

isolate_same :
    (c : Settings) (now : ℕ) (ent : Line405Failure)
    → (isolate c now ent).consecutive_405 ≡ ent.consecutive_405
unfolding isolate
isolate_same c now ent = refl

-- The entry that an answer 405 counts in.
counted_le :
    (identity : Text) (n : ℕ) (e : ProxyEgress) (now_ms : ℕ) (s : Lines)
    → Low identity n s
    → text_eq e.identity identity ≡ true
    → (count_405 e now_ms (entry_for_line e now_ms (lookup e.identity s.entries))).consecutive_405
      ≤ suc n
counted_le identity n e now_ms s h y =
    let same = (text_eq_iff e.identity identity).0 y in
    elim (Option-cases (lookup e.identity s.entries)) [
      | inl l ↦ rw l (omega arith)
      | inr (ent, l) ↦
          let a = h.low ent (ap (λ i. lookup i s.entries) (sym same) ∙ l) in rw l (ground arith)
    ]

module _ (c : Settings) (queue_probe : Text → ℕ → Bool) (identity : Text) (n : ℕ) where
  Low-record :
      (e : ProxyEgress) (now : ℕ) (s : Lines)
      → Low identity n s
      → Low identity
          (if over_line e identity then suc n else n)
          (record_line405 c queue_probe e now s).0
  unfolding record_line405
  Low-record e now s h =
      let m = if over_line e identity then suc n else n in
      let fine = λ (r : Lines × Decision405). Low identity m r.0 in
      let ent =
        count_405 e (now / milli) (entry_for_line e (now / milli) (lookup e.identity s.entries)) in
      let hit = isolate c now ent in
      let (t, probed) = maybe_queue_probe c queue_probe hit now s in
      let (te, pe) = queued_same c queue_probe hit now s in
      let more : n ≤ m = ground arith in
      if_intro fine (text_ne e.mode (codes "proxy") || is_nil e.identity || is_nil e.id)
        (λ y. Low-more identity n m s more h)
        (λ g.
          if_intro fine s.closed (λ y. Low-more identity n m s more h)
            (λ k.
              let counted = λ (y : text_eq e.identity identity ≡ true). low_counted e now s h g y in
              if_intro fine (c.min_streak == 0 || ltb ent.consecutive_405 c.min_streak)
                (λ y. Low-put identity m e.identity ent n s _ refl more h counted)
                (λ b.
                  Low-prune identity m now
                    (record t { entries = insert e.identity probed t.entries })
                    (Low-put identity m e.identity probed n s _ (ap (insert e.identity probed) te)
                      more h (λ y. omega (arith, counted y, pe, isolate_same c now ent))))))
    where
      low_counted :
          (e : ProxyEgress) (now : ℕ) (s : Lines)
          → Low identity n s
          → (text_ne e.mode (codes "proxy") || is_nil e.identity || is_nil e.id) ≡ false
          → text_eq e.identity identity ≡ true
          → (count_405 e
              (now / milli)
              (entry_for_line e (now / milli) (lookup e.identity s.entries))).consecutive_405
            ≤ (if over_line e identity then suc n else n)
      low_counted e now s h g y =
          let a = counted_le identity n e (now / milli) s h y in
          let o : over_line e identity ≡ true = ground arith in rw o a

  Low-absent :
      (key : Text) (s : Lines)
      → Low identity n s
      → text_eq key identity ≡ true
      → lookup key s.entries ≡ none
      → Low identity 0 s
  Low-absent key s h y l =
      let none_there : lookup identity s.entries ≡ none =
        ap (λ i. lookup i s.entries) (sym ((text_eq_iff key identity).0 y)) ∙ l in
      record { once = h.once; low = λ v f. absurd (ground arith) }

  Low-reset :
      (key : Text) (ent : Line405Failure) (s : Lines)
      → Low identity n s
      → text_eq key identity ≡ true
      → ent.consecutive_405 ≡ 0
      → Low identity 0 (record s { entries = insert key ent s.entries })
  Low-reset key ent s h y z = record {
    once = IsDistinct-insert key ent s.entries h.once;
    low = λ v f. reset v (sym (lookup-insert key identity ent s.entries ∙ rw y refl) ∙ f);
  }
    where
      reset : (v : Line405Failure) → some ent ≡ some v → v.consecutive_405 ≤ 0
      reset v f = ground arith

  Low-ok :
      (e : ProxyEgress) (now : ℕ) (s : Lines)
      → Low identity n s
      → Low identity (if over_line e identity then 0 else n) (record_line_ok e now s)
  unfolding record_line_ok
  Low-ok e now s h =
      let m = if over_line e identity then 0 else n in
      let test = text_ne e.mode (codes "proxy") || is_nil e.identity in
      if_intro (Low identity m) test
        (λ y. let o : over_line e identity ≡ false = ground arith in rw o h)
        (λ g. elim (Bool-cases (text_eq e.identity identity)) [
          | inl y ↦
              let o : over_line e identity ≡ true = ground arith in
              rw o (elim (Option-cases (lookup e.identity s.entries)) [
                | inl l ↦ rw l (Low-absent e.identity s h y l)
                | inr (ent, l) ↦
                    let v = record (cleared ent) { ok = suc ent.ok; last_at = now / milli } in
                    rw l (
                      Low-tidied identity 0 (changed ent) now (put v s)
                        (Low-reset e.identity v s h y refl))
              ])
          | inr d ↦
              let o : over_line e identity ≡ false = ground arith in
              rw o (elim (Option-cases (lookup e.identity s.entries)) [
                | inl l ↦ rw l h
                | inr (ent, l) ↦
                    let v = record (cleared ent) { ok = suc ent.ok; last_at = now / milli } in
                    rw l (
                      Low-tidied identity n (changed ent) now (put v s) (
                        Low-put identity n e.identity v n s (put v s) refl (omega arith) h
                          (λ y. absurd (ground arith))))
              ])
        ])
    where
      changed : Line405Failure → Bool
      changed ent =
          not (ent.consecutive_405 == 0)
          || not (ent.strikes == 0)
          || not (ent.quarantine_until == 0)

      put : Line405Failure → Lines → Lines
      put v s = record s { entries = insert e.identity v s.entries }

  Low-verdict :
      (profile_id verdict : Text) (target : Option (Text × ℕ)) (now : ℕ) (s : Lines)
      → Low identity n s
      → Low identity n (apply_probe_verdict profile_id verdict target now s).0
  unfolding apply_probe_verdict
  Low-verdict profile_id verdict target now s h =
      let fine = λ (r : Lines × Option (ProbeState × Text)). Low identity n r.0 in
      if_intro fine (s.closed || is_nil profile_id) (λ y. h)
        (λ g. elim (Option-cases (verdict_state verdict)) [
          | inl v ↦ rw v h
          | inr (state, v) ↦ elim (Option-cases target) [
            | inl t ↦ rw (v, t) h
            | inr ((key, generation), t) ↦ elim (Option-cases (lookup key s.entries)) [
              | inl l ↦ rw (v, t, l) h
              | inr (ent, l) ↦
                  rw (v, t, l)
                    (if_intro fine (not (ent.generation == generation)) (λ y. h)
                      (λ k.
                        Low-prune identity n now
                          (record s { entries = insert key (judged state ent) s.entries })
                          (Low-put identity n key (judged state ent) n s _ refl (omega arith) h
                            (λ y. judged_le state key ent l y))))
            ]
          ]
        ])
    where
      judged : ProbeState → Line405Failure → Line405Failure
      judged state ent =
          let marked = record ent { probe_state = state; probe_at = now / milli } in
          if is_healthy state then cleared marked else marked

      judged_le :
          (state : ProbeState) (key : Text) (ent : Line405Failure)
          → lookup key s.entries ≡ some ent
          → text_eq key identity ≡ true
          → (judged state ent).consecutive_405 ≤ n
      judged_le state key ent l y =
          let a =
            h.low ent (ap (λ i. lookup i s.entries) (sym ((text_eq_iff key identity).0 y)) ∙ l) in
          if_intro (λ (v : Line405Failure). v.consecutive_405 ≤ n) (is_healthy state)
            (λ y. omega arith) (λ k. omega arith)

module _ (c : Settings) (queue_probe : Text → ℕ → Bool) (identity : Text) where
  Runs-Low :
      {clock : ℕ} {s : Lines} {at : ℕ} {t : Lines}
      → s.entries ≡ []
      → (r : Runs405 c queue_probe clock s at t) → Low identity (row identity r) t
  unfolding row
  Runs-Low {s = s} h start = record {
    once = rw h tt;
    low = λ v f. absurd (nothing v (sym (ap (lookup identity) h) ∙ f));
  }
    where
      nothing : (v : Line405Failure) → lookup identity [] ≢ some v
      nothing v f = unfold lookup in ground arith
  Runs-Low h (hits at t e now r l) =
      Low-record c queue_probe identity (row identity r) e now t (Runs-Low h r)
  Runs-Low h (succeeds at t e now r l) =
      Low-ok c queue_probe identity (row identity r) e now t (Runs-Low h r)
  Runs-Low h (judges at t profile_id verdict target now r l) =
      Low-verdict c queue_probe identity (row identity r) profile_id verdict target now t
        (Runs-Low h r)

  -- From an empty table on, whatever answers, successes and verdicts come, in the order of time: a
  -- line that is isolated has given at least the configured number of answers 405 since its last
  -- success, counted over what happened, and is free again once the longest quarantine has passed
  -- since its last answer.
  pub isolated_for_a_reason :
      {clock : ℕ} {s : Lines} {at : ℕ} {t : Lines} (now : ℕ)
      → s.entries ≡ []
      → (r : Runs405 c queue_probe clock s at t) → is_blocked identity now t ≡ true
      → (ent : Line405Failure) × (lookup identity t.entries ≡ some ent)
        × (0 < c.min_streak)
        × (c.min_streak ≤ row identity r)
        × (now / milli < ent.last_at + isolation_cap c)
  unfolding is_blocked
  isolated_for_a_reason {clock = clock} {s = s} {at = at} {t = t} now h r b =
      let sound = Runs-Sound c queue_probe (subst (λ m. Every (IsSound c clock) m) (sym h) tt) r in
      let counted = Runs-Low h r in
      elim (Option-cases (lookup identity t.entries)) [
        | inl n ↦ absurd (ground arith)
        | inr (ent, l) ↦
            let i = Every-lookup (IsSound c at) identity ent t.entries sound l in
            let low = counted.low ent l in
            let late : now / milli < ent.quarantine_until = ground arith in
            let (p, q) = i.reason (omega (arith, late)) in
            (ent, l, p, omega (arith, q, low), omega (arith, late, i.capped))
      ]
