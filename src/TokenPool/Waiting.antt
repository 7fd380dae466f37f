-- ===== src/TokenPool/Waiting.antt =====
-- A request that has to wait is not forgotten.
use zcode2api_plus.Common.{
  ℕ, ◌<◌, ◌≡◌, refl, ◌∙◌, Bool, true, not, ◌||◌, List, [], ◌∷◌, ◌++◌, none, Text, text_eq,
  text_eq_iff, ltb, leb, ◌==◌, if_intro, is_nil, any, insert, arith, inl, inr, ◌⊎◌, Option-cases,
}
use zcode2api_plus.TokenPool.{
  TokenPool, Decoders, Config, PoolError, Waiter, bucket, inflight_of, take_fresh, pop, fail_all,
  fail_waiters, launch_mints, ensure_mints, captcha_config_key,
}
use zcode2api_plus.TokenPool.Ops.{take, Taken, waits, popped, enqueue, begin_take}
use zcode2api_plus.TokenPool.Wakeup.{
  launch_awake, pop-none, pop_found, emptied, deliver-none, begun_solve, begun_key,
}

-- The waiter of this number stands in the queue.
abbrev pub is_queued : ℕ → TokenPool → Bool
is_queued id p = any (λ w. w.id == id) p.waiters

-- Something has been put into its channel.
abbrev pub is_answered : ℕ → TokenPool → Bool
is_answered id p = any (λ e. e.0 == id) p.sent

-- It waits for a mint that is under way, or it has been answered.
abbrev pub Served : ℕ → TokenPool → Type 0
Served id p = ((is_queued id p ≡ true) × (0 < inflight_of p p.key)) ⊎ (is_answered id p ≡ true)

any-append :
    {A : Type 0} (f : A → Bool) (xs ys : List A) → any f (xs ++ ys) ≡ (any f xs || any f ys)
any-append f [] ys = refl
any-append f (x ∷ xs) ys = ground (arith, any-append f xs ys)

any-fail_all :
    (id : ℕ) (e : PoolError) (ws : List Waiter)
    → any (λ r. r.0 == id) (fail_all e ws) ≡ any (λ w. w.id == id) ws
any-fail_all id e [] = refl
any-fail_all id e (w ∷ ws) = ground (arith, any-fail_all id e ws)

failed_answered :
    (id : ℕ) (e : PoolError) (p : TokenPool)
    → is_queued id p ≡ true
    → is_answered id (fail_waiters e p) ≡ true
unfolding fail_waiters
failed_answered id e p h =
    ground (
      arith,
      any-append (λ r. r.0 == id) p.sent (fail_all e p.waiters),
      any-fail_all id e p.waiters,
    )

launch_queued :
    (id : ℕ) (key : Text) (n : ℕ) (p : TokenPool)
    → is_queued id p ≡ true
    → is_queued id (launch_mints key n p) ≡ true
unfolding launch_mints
launch_queued id key n p h =
    if_intro (λ q. is_queued id q ≡ true) (leb n 0 || not p.has_solver || p.closed) (λ y. h)
      (λ k. h)

-- With nothing to hand out, a waiter is served.
ensure-Served :
    (d : Decoders) (id now : ℕ) (p : TokenPool)
    → 0 < p.opts.empty_solve
    → take_fresh now (bucket p p.key) ≡ none
    → is_queued id p ≡ true
    → Served id (ensure_mints d now p)
unfolding ensure_mints
ensure-Served d id now p h e i =
    let P = Served id in
    let q : TokenPool = record p { buckets = insert p.key [] p.buckets } in
    if_intro P (p.closed || not p.active || not p.has_solver) (λ y. inr (failed_answered id _ p i))
      (λ n.
        if_intro P (is_nil p.waiters || ltb 0 (inflight_of p p.key)) (λ y. inl (i, ground arith))
          (λ m. rw (deliver-none d now p.waiters p e (ground arith)) (
            if_intro P (leb p.opts.empty_solve p.mint_fail_streak)
              (λ y. inr (failed_answered id _ q i))
              (λ k. inl (
                launch_queued id p.key p.opts.empty_solve q i,
                launch_awake p.opts.empty_solve q h (ground arith) (ground arith),
              )))))

queued-Served :
    (d : Decoders) (key : Text) (id now : ℕ) (p : TokenPool)
    → 0 < p.opts.empty_solve
    → p.key ≡ key
    → let r = popped d key id now (pop d now key p).0 (pop d now key p).1 in
      r.0 ≡ waits → Served id r.1
unfolding popped enqueue
queued-Served d key id now p h k w = elim (Option-cases (take_fresh now (bucket p key))) [
  | inr (t, e) ↦ let f = pop_found d now key p t e in absurd (ground arith)
  | inl e ↦
      rw (pop-none d now key p e)
        (ensure-Served d id now _ h (rw k (emptied now key p)) (joined p.waiters))
]
  where
    joined :
        (ws : List Waiter) → any (λ w. w.id == id) (ws ++ record { id = id; key = key } ∷ []) ≡ true
    joined ws = ground (arith, any-append (λ w. w.id == id) ws (record { id = id; key = key } ∷ []))

-- In a pool that starts at least one mint at a time, a request that `Take` makes wait stands in the
-- queue while a mint is under way, or something has been put into its channel already.
pub waits-Served :
    (d : Decoders) (cfg : Config) (id now : ℕ) (p : TokenPool)
    → 0 < p.opts.empty_solve
    → (take d cfg id now p).0 ≡ waits
    → Served id (take d cfg id now p).1
unfolding take
waits-Served d cfg id now p h =
    let key = captcha_config_key cfg in
    let P : Taken × TokenPool → Type 0 = λ r. r.0 ≡ waits → Served id r.1 in
    if_intro P p.closed (λ y. λ w. absurd (ground arith))
      (λ n.
        if_intro P (not p.active || not (text_eq p.key key) || not p.has_solver)
          (λ y. λ w. absurd (ground arith))
          (λ m.
            queued-Served d key id now (begin_take now p) (begun_solve now p h)
              (begun_key now p ∙ (text_eq_iff p.key key).0 (ground arith))))
