-- ===== src/Line/Isolation.antt =====
-- Lines isolated because of 405: what holds of their entries throughout, and what a success does.
use zcode2api_plus.Common.{
  ℕ, suc, ◌/◌, ◌≤◌, ◌≡◌, inl, inr, refl, Bool, false, not, ◌||◌, List, Option, some, Text, codes,
  text_ne, ltb, ◌==◌, if◌then◌else◌, is_nil, IsDistinct, text_eq_refl, lookup-insert, lookup,
  insert, arith, if_intro, Option-cases,
}
use zcode2api_plus.Line.{ProxyEgress, Settings, milli, line405_limit}
use zcode2api_plus.Line.Reject.{
  Line405Failure, Lines, ProbeState, Decision405, entry_for_line, count_405, isolate, cleared,
  maybe_queue_probe, prune_line405, record_line405, record_line_ok, verdict_state, is_healthy,
  apply_probe_verdict, is_blocked, is_out_of_date,
}
use zcode2api_plus.Line.Oldest.{prune_found, IsDistinct-insert}
use zcode2api_plus.Line.Prune.{Every, Every-lookup, Every-insert, Every-prune, Every-map}
use zcode2api_plus.Line.Sound.{
  IsSound, IsSound-later, IsSound-found, IsSound-count, IsSound-isolate, Probed-queue,
}

module _ (c : Settings) where
  -- Every entry is sound at this time.
  abbrev pub Sound : ℕ → Lines → Type 0
  Sound clock s = Every (IsSound c clock) s.entries

  Sound-later : (clock now : ℕ) (s : Lines) → clock ≤ now → Sound clock s → Sound now s
  Sound-later clock now s h e =
      Every-map (IsSound c clock) (IsSound c now) s.entries (λ v. IsSound-later c clock now v h) e

  Sound-put :
      (now : ℕ) (identity : Text) (ent : Line405Failure) (s : Lines)
      → Sound now s
      → IsSound c now ent
      → Sound now (record s { entries = insert identity ent s.entries })
  Sound-put now identity ent s h i = Every-insert (IsSound c now) identity ent s.entries h i

  Sound-prune : (now : ℕ) (s : Lines) → Sound now s → Sound now (prune_line405 now s)
  unfolding prune_line405
  Sound-prune now s h = Every-prune (IsSound c now) _ _ _ s.entries h

  Sound-put_pruned :
      (now : ℕ) (identity : Text) (ent : Line405Failure) (s : Lines)
      → Sound now s
      → IsSound c now ent
      → Sound now (prune_line405 now (record s { entries = insert identity ent s.entries }))
  Sound-put_pruned now identity ent s h i =
      Sound-prune now (record s { entries = insert identity ent s.entries })
        (Sound-put now identity ent s h i)

  Sound-record :
      (queue_probe : Text → ℕ → Bool) (e : ProxyEgress) (now : ℕ) (s : Lines)
      → Sound now s
      → Sound now (record_line405 c queue_probe e now s).0
  unfolding record_line405
  Sound-record queue_probe e now s h =
      let fine = λ (r : Lines × Decision405). Sound now r.0 in
      let ent = entry_for_line e (now / milli) (lookup e.identity s.entries) in
      let i =
        IsSound-found c e now (lookup e.identity s.entries)
          (λ u l. Every-lookup (IsSound c now) e.identity u s.entries h l) in
      let counted = IsSound-count c e now ent i in
      if_intro fine (text_ne e.mode (codes "proxy") || is_nil e.identity || is_nil e.id) (λ y. h)
        (λ n.
          if_intro fine s.closed (λ y. h)
            (λ n.
              if_intro fine (c.min_streak == 0 || ltb (suc ent.consecutive_405) c.min_streak)
                (λ y. Sound-put now e.identity _ s h counted)
                (λ n.
                  let hit = isolate c now (count_405 e (now / milli) ent) in
                  let (j, same) =
                    Probed-queue c queue_probe hit now s
                      (IsSound-isolate c e now ent i (ground arith) (ground arith)) in
                  Sound-put_pruned now e.identity _ (maybe_queue_probe c queue_probe hit now s).0
                    (rw same h) j)))

  Sound-ok :
      (e : ProxyEgress) (now : ℕ) (s : Lines) → Sound now s → Sound now (record_line_ok e now s)
  unfolding record_line_ok
  Sound-ok e now s h =
      if_intro (Sound now) (text_ne e.mode (codes "proxy") || is_nil e.identity) (λ y. h)
        (λ n. elim (Option-cases (lookup e.identity s.entries)) [
          | inl l ↦ rw l h
          | inr (ent, l) ↦ rw l (
              let i = Every-lookup (IsSound c now) e.identity ent s.entries h l in
              if_intro (Sound now) _ (λ y. Sound-put_pruned now e.identity _ s h (reset ent i))
                (λ n. Sound-put now e.identity _ s h (reset ent i)))
        ])
    where
      reset :
          (ent : Line405Failure)
          → IsSound c now ent
          → IsSound c now (record (cleared ent) { ok = suc ent.ok; last_at = now / milli })
      reset ent i = record {
        counted = omega arith;
        struck = omega arith;
        reason = λ h. absurd (omega arith);
        past = omega arith;
        capped = omega arith;
      }

  Sound-verdict :
      (profile_id verdict : Text) (target : Option (Text × ℕ)) (now : ℕ) (s : Lines)
      → Sound now s
      → Sound now (apply_probe_verdict profile_id verdict target now s).0
  unfolding apply_probe_verdict
  Sound-verdict profile_id verdict target now s h =
      let fine = λ (r : Lines × Option (ProbeState × Text)). Sound now r.0 in
      if_intro fine (s.closed || is_nil profile_id) (λ y. h)
        (λ n. elim (Option-cases (verdict_state verdict)) [
          | inl v ↦ rw v h
          | inr (state, v) ↦ elim (Option-cases target) [
            | inl t ↦ rw (v, t) h
            | inr ((identity, generation), t) ↦ elim (Option-cases (lookup identity s.entries)) [
              | inl l ↦ rw (v, t, l) h
              | inr (ent, l) ↦
                  rw (v, t, l)
                    (if_intro fine (not (ent.generation == generation)) (λ y. h)
                      (λ n. Sound-put_pruned now identity _ s h (
                        judged state ent
                          (Every-lookup (IsSound c now) identity ent s.entries h l))))
            ]
          ]
        ])
    where
      judged :
          (state : ProbeState) (ent : Line405Failure)
          → IsSound c now ent
          → let marked = record ent { probe_state = state; probe_at = now / milli } in
            IsSound c now (if is_healthy state then cleared marked else marked)
      judged state ent i =
          if_intro (IsSound c now) (is_healthy state)
            (λ y. record {
              counted = omega arith;
              struck = omega arith;
              reason = λ h. absurd (omega arith);
              past = i.past;
              capped = omega arith;
            })
            (λ n. record {
              counted = i.counted;
              struck = i.struck;
              reason = i.reason;
              past = i.past;
              capped = i.capped;
            })

-- The lines in use: answers, successes and verdicts, in the order of time.
pub data Runs405 (c : Settings) (queue_probe : Text → ℕ → Bool) (clock : ℕ) (s : Lines)
    : ℕ → Lines → Type 0 where
  start : Runs405 c queue_probe clock s clock s
  hits :
      (at : ℕ) (t : Lines) (e : ProxyEgress) (now : ℕ)
      → Runs405 c queue_probe clock s at t
      → at ≤ now
      → Runs405 c queue_probe clock s now (record_line405 c queue_probe e now t).0
  succeeds :
      (at : ℕ) (t : Lines) (e : ProxyEgress) (now : ℕ)
      → Runs405 c queue_probe clock s at t
      → at ≤ now
      → Runs405 c queue_probe clock s now (record_line_ok e now t)
  judges :
      (at : ℕ) (t : Lines) (profile_id verdict : Text) (target : Option (Text × ℕ)) (now : ℕ)
      → Runs405 c queue_probe clock s at t
      → at ≤ now
      → Runs405 c queue_probe clock s now (apply_probe_verdict profile_id verdict target now t).0

module _ (c : Settings) (queue_probe : Text → ℕ → Bool) where
  pub Runs-Sound :
      {clock : ℕ} {s : Lines} {at : ℕ} {t : Lines}
      → Sound c clock s
      → Runs405 c queue_probe clock s at t
      → Sound c at t
  Runs-Sound h start = h
  Runs-Sound h (hits at t e now r l) =
      Sound-record c queue_probe e now t (Sound-later c at now t l (Runs-Sound h r))
  Runs-Sound h (succeeds at t e now r l) =
      Sound-ok c e now t (Sound-later c at now t l (Runs-Sound h r))
  Runs-Sound h (judges at t profile_id verdict target now r l) =
      Sound-verdict c profile_id verdict target now t (Sound-later c at now t l (Runs-Sound h r))

not_blocked :
    (identity : Text) (at : ℕ) (s : Lines)
    → ((v : Line405Failure) → lookup identity s.entries ≡ some v → v.quarantine_until ≡ 0)
    → is_blocked identity at s ≡ false
unfolding is_blocked
not_blocked identity at s f = elim (Option-cases (lookup identity s.entries)) [
  | inl n ↦ ground arith
  | inr (v, l) ↦ let z = f v l in ground arith
]

written_free :
    (identity : Text) (ent v : Line405Failure) (m : List (Text × Line405Failure))
    → ent.quarantine_until ≡ 0
    → lookup identity (insert identity ent m) ≡ some v
    → v.quarantine_until ≡ 0
written_free identity ent v m z h =
    ground (arith, lookup-insert identity identity ent m, text_eq_refl identity)

freed :
    (identity : Text) (ent : Line405Failure) (at now : ℕ) (s : Lines)
    → IsDistinct s.entries
    → ent.quarantine_until ≡ 0
    → let t = record s { entries = insert identity ent s.entries } in
      (is_blocked identity at t ≡ false) × (is_blocked identity at (prune_line405 now t) ≡ false)
unfolding prune_line405
freed identity ent at now s d z =
    let t : Lines = record s { entries = insert identity ent s.entries } in
    let free = λ (v : Line405Failure). written_free identity ent v s.entries z in
    (
      not_blocked identity at t free,
      not_blocked identity at (prune_line405 now t) (λ v l. free v (
          prune_found (λ u. u.last_at) (is_out_of_date now) line405_limit identity v t.entries
            (IsDistinct-insert identity ent s.entries d) l)),
    )

-- A success frees its line at once, whatever came before, until it is rejected again.
pub success_unblocks :
    (e : ProxyEgress) (now at : ℕ) (s : Lines)
    → text_ne e.mode (codes "proxy") ≡ false
    → is_nil e.identity ≡ false
    → IsDistinct s.entries
    → is_blocked e.identity at (record_line_ok e now s) ≡ false
unfolding record_line_ok
success_unblocks e now at s m i d = elim (Option-cases (lookup e.identity s.entries)) [
  | inl n ↦
      rw (record_line_ok, m, i, n) (not_blocked e.identity at s (λ v l. absurd (ground (arith, n))))
  | inr (ent, l) ↦
      let (a, b) =
        freed e.identity (record (cleared ent) { ok = suc ent.ok; last_at = now / milli }) at now s
          d refl in
      rw (record_line_ok, m, i, l)
        (if_intro (λ t. is_blocked e.identity at t ≡ false) _ (λ y. b) (λ n. a))
]
