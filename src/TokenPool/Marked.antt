-- ===== src/TokenPool/Marked.antt =====
-- Tokens that have been given out stay known while the pool goes on working.
use zcode2api_plus.Common.{
  ℕ, ◌+◌, ◌-◌, ◌≤◌, ◌<◌, ◌≡◌, refl, sym, ap, ◌∙◌, subst, not, ◌||◌, ◌&&◌, List, [], ◌∷◌, ◌++◌,
  Option, none, some, Text, text_eq, ltb, leb, ◌==◌, if_intro, is_nil, first, lookup, insert, keep,
  lookup-insert, arith, inl, inr, Bool-cases, Option-cases,
}
use zcode2api_plus.ModelName.{trim_space}
use zcode2api_plus.TokenPool.{
  TokenPool, Decoders, Config, PoolToken, PoolError, got, Waiter, minute, bucket, inflight_of,
  take_fresh, pop, prune, append_bucket, fail_waiters, launch_mints, deliver, ensure_mints,
  token_dedupe_key, extract_certify_id, captcha_config_key,
}
use zcode2api_plus.TokenPool.Cpu.{CpuGovernor}
use zcode2api_plus.TokenPool.Ops.{
  warm, take, Taken, popped, enqueue, begin_take, receive, Solved, solved, solve_failed,
  count_mint_fail, hand_over, accept, settle, landed, mint, note_idle, decay, wanted, refill_once,
  issued_now,
}

-- The key is on record until this time or longer, and a record made from a base time on would last
-- as long.
pub record Held (k : Text) (until base : ℕ) (p : TokenPool) : Type 0 where
  pub expires : ℕ
  pub found : lookup k p.issued ≡ some expires
  pub late : until ≤ expires
  pub renews : until ≤ base + p.opts.ttl + minute

-- An operation that touches neither the record nor the options.
pub Held-same :
    {k : Text} {until base : ℕ} (p q : TokenPool)
    → q.issued ≡ p.issued
    → q.opts ≡ p.opts
    → Held k until base p
    → Held k until base q
Held-same {k} {until} {base} p q i o h = record {
  expires = h.expires;
  found = ap (lookup k) i ∙ h.found;
  late = h.late;
  renews = subst (λ x. until ≤ base + x.ttl + minute) (sym o) h.renews;
}

keep_found :
    (k : Text) (v now : ℕ) (m : List (Text × ℕ))
    → now < v
    → lookup k m ≡ some v
    → lookup k (keep (λ e. ltb now e.1) m) ≡ some v
unfolding lookup
keep_found k v now [] l h = absurd (ground arith)
keep_found k v now ((j, w) ∷ m) l h = ground (arith, keep_found k v now m l)

module _ (d : Decoders) (k : Text) (until base now : ℕ) (from : base ≤ now)
    (early : now < until) where
  abbrev H : TokenPool → Type 0
  H p = Held k until base p

  pub Held-prune : (p : TokenPool) → H p → H (prune now p)
  unfolding prune
  Held-prune p h = record {
    expires = h.expires;
    found = keep_found k h.expires now p.issued (omega (arith, h.late)) h.found;
    late = h.late;
    renews = h.renews;
  }

  -- One more record is made.
  Held-issue :
      (j : Text) (p q : TokenPool)
      → q.issued ≡ insert j (now + p.opts.ttl + minute) p.issued
      → q.opts ≡ p.opts
      → H p
      → H q
  Held-issue j p q i o h = elim (Bool-cases (text_eq j k)) [
    | inl y ↦ record {
      expires = now + p.opts.ttl + minute;
      found = ap (lookup k) i ∙ lookup-insert j k (now + p.opts.ttl + minute) p.issued ∙ rw y refl;
      late = omega (arith, h.renews);
      renews = subst (λ x. until ≤ base + x.ttl + minute) (sym o) h.renews;
    }
    | inr n ↦ record {
      expires = h.expires;
      found =
          ap (lookup k) i ∙ lookup-insert j k (now + p.opts.ttl + minute) p.issued ∙ rw n h.found;
      late = h.late;
      renews = subst (λ x. until ≤ base + x.ttl + minute) (sym o) h.renews;
    }
  ]

  Held-pop : (key : Text) (p : TokenPool) → H p → H (pop d now key p).1
  unfolding pop
  Held-pop key p h = elim (Option-cases (take_fresh now (bucket p key))) [
    | inl n ↦ rw (pop, n) (Held-same p _ refl refl h)
    | inr (t, e) ↦
        rw (pop, e) (Held-issue (token_dedupe_key d t.0.param t.0.certify_id) p _ refl refl h)
  ]

  Held-launch : (key : Text) (n : ℕ) (p : TokenPool) → H p → H (launch_mints key n p)
  unfolding launch_mints
  Held-launch key n p h =
      if_intro H (leb n 0 || not p.has_solver || p.closed) (λ y. h) (λ m. Held-same p _ refl refl h)

  Held-fail : (e : PoolError) (p : TokenPool) → H p → H (fail_waiters e p)
  unfolding fail_waiters
  Held-fail e p h = Held-same p _ refl refl h

  Held-deliver : (ws : List Waiter) (p : TokenPool) → H p → H (deliver d now ws p).0
  unfolding deliver
  Held-deliver [] p h = h
  Held-deliver (w ∷ ws) p h = elim (Option-cases (pop d now p.key p).0) [
    | inl n ↦ rw (deliver, n) (Held-pop p.key p h)
    | inr (t, f) ↦
        let q = (pop d now p.key p).1 in
        let next : TokenPool = record q { waiters = ws; sent = q.sent ++ (w.id, got t) ∷ [] } in
        rw (deliver, f) (Held-deliver ws next (Held-same q next refl refl (Held-pop p.key p h)))
  ]

  pub Held-ensure : (p : TokenPool) → H p → H (ensure_mints d now p)
  unfolding ensure_mints
  Held-ensure p h =
      let q = (deliver d now p.waiters p).0 in
      let g = Held-deliver p.waiters p h in
      if_intro H (p.closed || not p.active || not p.has_solver) (λ y. Held-fail _ p h)
        (λ n.
          if_intro H (is_nil p.waiters || ltb 0 (inflight_of p p.key)) (λ y. h)
            (λ n.
              if_intro H (deliver d now p.waiters p).1 (λ y. g)
                (λ n.
                  if_intro H (leb q.opts.empty_solve q.mint_fail_streak) (λ y. Held-fail _ q g)
                    (λ n. Held-launch q.key q.opts.empty_solve q g))))

  Held-enqueue : (key : Text) (id : ℕ) (p : TokenPool) → H p → H (enqueue d key id now p)
  unfolding enqueue
  Held-enqueue key id p h = Held-ensure _ (Held-same p _ refl refl h)

  Held-popped :
      (key : Text) (id : ℕ) (tok : Option PoolToken) (p : TokenPool)
      → H p
      → H (popped d key id now tok p).1
  unfolding popped
  Held-popped key id none p h = Held-enqueue key id p h
  Held-popped key id (some tok) p h = Held-prune p h

  pub Held-take : (cfg : Config) (id : ℕ) (p : TokenPool) → H p → H (take d cfg id now p).1
  unfolding take begin_take
  Held-take cfg id p h =
      let key = captcha_config_key cfg in
      let P = λ (r : Taken × TokenPool). H r.1 in
      let q = begin_take now p in
      if_intro P p.closed (λ y. h)
        (λ n.
          if_intro P (not p.active || not (text_eq p.key key) || not p.has_solver)
            (λ y. Held-prune p h)
            (λ m.
              Held-popped key id (pop d now key q).0 (pop d now key q).1
                (Held-pop key q (Held-same (prune now p) q refl refl (Held-prune p h)))))

  Held-hand :
      (key : Text) (tok : PoolToken) (ws : List Waiter) (p : TokenPool)
      → H p
      → H (hand_over key tok ws p)
  unfolding hand_over append_bucket
  Held-hand key tok [] p h = Held-same p _ refl refl h
  Held-hand key tok (w ∷ ws) p h = Held-same p _ refl refl h

  Held-accept :
      (cfg : Config) (key param : Text) (p : TokenPool) → H p → H (accept d cfg key param now p)
  unfolding accept count_mint_fail
  Held-accept cfg key param p h =
      let j = token_dedupe_key d (trim_space param) (extract_certify_id d param) in
      if_intro H (issued_now (lookup j p.issued) now) (λ y. Held-same p _ refl refl h)
        (λ n. Held-hand key _ p.waiters _ (Held-issue j p _ refl refl h))

  Held-settle :
      (cfg : Config) (key : Text) (result : Solved) (p : TokenPool)
      → H p
      → H (settle d cfg key result now p)
  unfolding settle count_mint_fail
  Held-settle cfg key solve_failed p h = Held-same p _ refl refl h
  Held-settle cfg key (solved param) p h =
      if_intro H (is_nil (trim_space param)) (λ y. Held-same p _ refl refl h)
        (λ n.
          if_intro H (text_eq p.key key && p.active) (λ y. Held-accept cfg key param p h) (λ n. h))

  pub Held-mint :
      (cfg : Config) (key : Text) (result : Solved) (p : TokenPool)
      → H p
      → H (mint d cfg key result now p)
  unfolding mint landed
  Held-mint cfg key result p h =
      Held-ensure _ (Held-settle cfg key result (landed key p) (Held-same p _ refl refl h))

  pub Held-receive : (id : ℕ) (p : TokenPool) → H p → H (receive id now p).1
  unfolding receive
  Held-receive id p h = elim (Option-cases (first (λ e. e.0 == id) p.sent)) [
    | inl n ↦ rw (receive, n) h
    | inr (e, f) ↦ rw (receive, f) (Held-prune _ (Held-same p _ refl refl h))
  ]

  pub Held-warm : (p : TokenPool) → H p → H (warm now p)
  unfolding warm
  Held-warm p h =
      let q = prune now p in
      if_intro H (p.closed || not p.active || not p.has_solver) (λ y. h)
        (λ n.
          if_intro H (not (is_nil (bucket q q.key)) || ltb 0 (inflight_of q q.key))
            (λ y. Held-prune p h) (λ n. Held-launch q.key 1 q (Held-prune p h)))

  idle_same :
      (idle : ℕ) (p : TokenPool)
      → ((note_idle idle p).issued ≡ p.issued) × ((note_idle idle p).opts ≡ p.opts)
  unfolding note_idle
  idle_same idle p = (ground arith, ground arith)

  decay_same : (p : TokenPool) → ((decay now p).issued ≡ p.issued) × ((decay now p).opts ≡ p.opts)
  unfolding decay
  decay_same p = (ground arith, ground arith)

  pub Held-refill : (g : Option CpuGovernor) (p : TokenPool) → H p → H (refill_once d g now p)
  unfolding refill_once
  Held-refill g p h =
      let q = prune now p in
      let r = note_idle (now - q.last_take) q in
      let l = launch_mints r.key (wanted g (now - r.last_take) r) r in
      let (i, o) = idle_same (now - q.last_take) q in
      let (j, u) = decay_same l in
      if_intro H (p.closed || not p.active || not p.has_solver) (λ y. h)
        (λ n.
          if_intro H (not (is_nil q.waiters)) (λ y. Held-ensure q (Held-prune p h))
            (λ n. Held-same l (decay now l) j u (
              Held-launch r.key (wanted g (now - r.last_take) r) r
                (Held-same q r i o (Held-prune p h)))))
