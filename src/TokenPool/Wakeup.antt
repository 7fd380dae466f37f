-- ===== src/TokenPool/Wakeup.antt =====
-- Mints that waiting requests set off, and the rest of an idle pool.
use zcode2api_plus.Common.{
  ℕ, ◌+◌, ◌-◌, ◌<◌, ◌≡◌, refl, sym, ap, subst, true, false, not, ◌||◌, List, [], ◌∷◌, Option, none,
  some, Text, text_eq_refl, ltb, leb, if_intro, is_nil, lookup-insert, insert, arith, inl, inr, ◌⊎◌,
  Bool-cases, Option-cases,
}
use zcode2api_plus.TokenPool.{
  TokenPool, Decoders, PoolToken, Waiter, bucket, inflight_of, take_fresh, pop, prune, fail_waiters,
  launch_mints, deliver, ensure_mints,
}
use zcode2api_plus.TokenPool.Bounds.{Keeps-ensure}
use zcode2api_plus.TokenPool.Cpu.{CpuGovernor}
use zcode2api_plus.TokenPool.Ops.{begin_take, refill_once, note_idle, wanted, decay}

-- Nobody waits, or a mint is under way.
abbrev pub Awake : TokenPool → Type 0
Awake p = (is_nil p.waiters ≡ true) ⊎ (0 < inflight_of p p.key)

pub launch_awake :
    (n : ℕ) (p : TokenPool)
    → 0 < n
    → p.has_solver ≡ true
    → p.closed ≡ false
    → 0 < inflight_of (launch_mints p.key n p) (launch_mints p.key n p).key
unfolding launch_mints
launch_awake n p h s c =
    rw (launch_mints, s, c)
      (ground
        (arith, lookup-insert p.key p.key (inflight_of p p.key + n) p.inflight, text_eq_refl p.key))

pub pop-none :
    (d : Decoders) (now : ℕ) (key : Text) (p : TokenPool)
    → take_fresh now (bucket p key) ≡ none
    → pop d now key p ≡ (none, record p { buckets = insert key [] p.buckets })
unfolding pop
pop-none d now key p e = rw (pop, e) refl

pub pop_found :
    (d : Decoders) (now : ℕ) (key : Text) (p : TokenPool) (t : PoolToken × List PoolToken)
    → take_fresh now (bucket p key) ≡ some t
    → (pop d now key p).0 ≡ some t.0
unfolding pop
pop_found d now key p t e = rw (pop, e) refl

pub emptied :
    (now : ℕ) (key : Text) (p : TokenPool)
    → take_fresh now (bucket (record p { buckets = insert key [] p.buckets }) key) ≡ none
unfolding take_fresh
emptied now key p = rw (lookup-insert key key [] p.buckets, text_eq_refl key) refl

pub deliver-none :
    (d : Decoders) (now : ℕ) (ws : List Waiter) (p : TokenPool)
    → take_fresh now (bucket p p.key) ≡ none
    → is_nil ws ≡ false
    → deliver d now ws p ≡ (record p { buckets = insert p.key [] p.buckets }, false)
unfolding deliver
deliver-none d now [] p e n = absurd (ground arith)
deliver-none d now (w ∷ ws) p e n =
    rw (deliver, ap (λ r. r.0) (pop-none d now p.key p e), ap (λ r. r.1) (pop-none d now p.key p e))
      refl

-- With nothing to hand out, someone waits only for a mint that is under way.
ensure_empty :
    (d : Decoders) (now : ℕ) (p : TokenPool)
    → 0 < p.opts.empty_solve
    → take_fresh now (bucket p p.key) ≡ none
    → Awake (ensure_mints d now p)
unfolding ensure_mints fail_waiters
ensure_empty d now p h e =
    if_intro Awake (p.closed || not p.active || not p.has_solver) (λ y. inl refl)
      (λ n.
        if_intro Awake (is_nil p.waiters || ltb 0 (inflight_of p p.key))
          (λ y. elim (Bool-cases (is_nil p.waiters)) [ inl z ↦ inl z | inr m ↦ inr (ground arith) ])
          (λ m. rw (deliver-none d now p.waiters p e (ground arith)) (
            if_intro Awake (leb p.opts.empty_solve p.mint_fail_streak) (λ y. inl refl)
              (λ k. inr (
                launch_awake p.opts.empty_solve (record p { buckets = insert p.key [] p.buckets }) h
                  (ground arith) (ground arith))))))

pub begun_solve :
    (now : ℕ) (p : TokenPool) → 0 < p.opts.empty_solve → 0 < (begin_take now p).opts.empty_solve
unfolding begin_take prune
begun_solve now p h = h

pub begun_key : (now : ℕ) (p : TokenPool) → (begin_take now p).key ≡ p.key
unfolding begin_take prune
begun_key now p = refl

deliver-some :
    (d : Decoders) (now : ℕ) (ws : List Waiter) (p : TokenPool) (t : PoolToken × List PoolToken)
    → take_fresh now (bucket p p.key) ≡ some t
    → is_nil ws ≡ false
    → (deliver d now ws p).1 ≡ true
unfolding deliver
deliver-some d now [] p t e n = absurd (ground arith)
deliver-some d now (w ∷ ws) p t e n = rw (deliver, pop_found d now p.key p t e) refl

-- The pool after a delivery: no one waits any more, or no token is left.
deliver_ends :
    (d : Decoders) (now : ℕ) (ws : List Waiter) (p : TokenPool)
    → p.waiters ≡ ws
    → let q = (deliver d now ws p).0 in
      (is_nil q.waiters ≡ true) ⊎ (take_fresh now (bucket q q.key) ≡ none)
unfolding deliver
deliver_ends d now [] p e = inl (rw e refl)
deliver_ends d now (w ∷ ws) p e = elim (Option-cases (take_fresh now (bucket p p.key))) [
  | inl n ↦
      rw
        (
          deliver,
          ap (λ r. r.0) (pop-none d now p.key p n),
          ap (λ r. r.1) (pop-none d now p.key p n),
        )
        (inr (emptied now p.key p))
  | inr (t, f) ↦ rw (deliver, pop_found d now p.key p t f) (deliver_ends d now ws _ refl)
]

-- Someone in the queue is no reason to stop mints that run.
stays_Awake : (d : Decoders) (now : ℕ) (p : TokenPool) → Awake p → Awake (ensure_mints d now p)
unfolding ensure_mints fail_waiters
stays_Awake d now p a =
    if_intro Awake (p.closed || not p.active || not p.has_solver) (λ y. inl refl)
      (λ n.
        if_intro Awake (is_nil p.waiters || ltb 0 (inflight_of p p.key)) (λ y. a)
          (λ m. absurd (ground arith)))

round_ends :
    (d : Decoders) (now : ℕ) (p : TokenPool)
    → 0 < p.opts.empty_solve
    → let q = ensure_mints d now p in Awake q ⊎ (take_fresh now (bucket q q.key) ≡ none)
unfolding ensure_mints fail_waiters
round_ends d now p h = elim (Option-cases (take_fresh now (bucket p p.key))) [
  | inl e ↦ inl (ensure_empty d now p h e)
  | inr (t, e) ↦
      let P : TokenPool → Type 0 = λ q. Awake q ⊎ (take_fresh now (bucket q q.key) ≡ none) in
      if_intro P (p.closed || not p.active || not p.has_solver) (λ y. inl (inl refl))
        (λ n.
          if_intro P (is_nil p.waiters || ltb 0 (inflight_of p p.key))
            (λ y. elim (Bool-cases (is_nil p.waiters)) [
              | inl z ↦ inl (inl z)
              | inr m ↦ inl (inr (ground arith))
            ])
            (λ m.
              rw (deliver-some d now p.waiters p t e (ground arith))
                (elim (deliver_ends d now p.waiters p refl) [
                  | inl z ↦ inl (inl z)
                  | inr z ↦ inr z
                ])))
]

-- In a pool that starts at least one mint at a time, two rounds do: after the second, no one waits without a mint under way.
pub second_round_Awake :
    (d : Decoders) (now : ℕ) (p : TokenPool)
    → 0 < p.opts.empty_solve
    → Awake (ensure_mints d now (ensure_mints d now p))
second_round_Awake d now p h =
    let q = ensure_mints d now p in
    let h' : 0 < q.opts.empty_solve =
      subst (λ o. 0 < o.empty_solve) (sym (Keeps-ensure d now p).opts) h in
    elim (round_ends d now p h) [
      | inr e ↦ ensure_empty d now q h' e
      | inl (inl n) ↦ stays_Awake d now q (inl n)
      | inl (inr l) ↦ stays_Awake d now q (inr l)
    ]

-- After the long idle time, while nobody waits, the level is not kept up: no mint is started.
pub deep_idle_rests :
    (d : Decoders) (g : Option CpuGovernor) (now : ℕ) (p : TokenPool)
    → is_nil p.waiters ≡ true
    → p.opts.idle_stop < now - p.last_take
    → ((refill_once d g now p).mint_total ≡ p.mint_total)
      × ((refill_once d g now p).inflight ≡ p.inflight)
unfolding refill_once prune note_idle wanted launch_mints decay
deep_idle_rests d g now p n h = ground arith
