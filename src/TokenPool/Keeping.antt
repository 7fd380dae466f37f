-- ===== src/TokenPool/Keeping.antt =====
-- What the operations of the pool keep, one by one.
use zcode2api_plus.Common.{
  ℕ, ◌-◌, ◌≡◌, refl, subst, true, not, ◌&&◌, ◌||◌, List, [], ◌∷◌, Option, Text, text_eq, ltb, leb,
  ◌==◌, is_nil, keep, first, lookup, arith, inl, inr, Bool-cases, Option-cases,
}
use zcode2api_plus.ModelName.{trim_space}
use zcode2api_plus.TokenPool.{
  TokenPool, Config, Decoders, PoolToken, got, failed, Waiter, WaitResult, bucket, inflight_of,
  prune, launch_mints, minute, token_dedupe_key, extract_certify_id,
}
use zcode2api_plus.TokenPool.Cpu.{CpuGovernor}
use zcode2api_plus.TokenPool.Ops.{
  warm, begin_take, receive, remove_waiter, remove_first, Solved, solve_failed, solved,
  count_mint_fail, hand_over, issued_now, accept, settle, landed, mint, note_idle, decay, wanted,
  refill_once,
}
use zcode2api_plus.TokenPool.Bounds.{
  AllKey, Keeps, Keeps-refl, Keeps-trans, Keeps-prune, Keeps-append, Keeps-launch, Keeps-ensure,
  Keeps-buckets,
}

pub Keeps-warm : (now : ℕ) (p : TokenPool) → Keeps p (warm now p)
unfolding warm
Keeps-warm now p = elim (Bool-cases (p.closed || not p.active || not p.has_solver)) [
  | inl y ↦ rw y (Keeps-refl p)
  | inr n ↦
      let q = prune now p in
      elim (Bool-cases (not (is_nil (bucket q q.key)) || ltb 0 (inflight_of q q.key))) [
        | inl y ↦ rw (n, y) (Keeps-prune now p)
        | inr m ↦ rw (n, m) (Keeps-trans p q _ (Keeps-prune now p) (Keeps-launch q.key 1 q))
      ]
]

-- What is in the channels is not the matter here.
Keeps-sent : (p : TokenPool) (s : List (ℕ × WaitResult)) → Keeps p (record p { sent = s })
Keeps-sent p s = Keeps-buckets p _ refl refl refl refl refl (λ h. h)

pub Keeps-receive : (id now : ℕ) (p : TokenPool) → Keeps p (receive id now p).1
unfolding receive
Keeps-receive id now p = elim (Option-cases (first (λ e. e.0 == id) p.sent)) [
  | inl n ↦ rw (receive, n) (Keeps-refl p)
  | inr (e, f) ↦
      let q : TokenPool = record p { sent = keep (λ x. not (x.0 == id)) p.sent } in
      rw (receive, f) (Keeps-trans p q _ (Keeps-sent p q.sent) (Keeps-prune now q))
]

keyed_remove : (id : ℕ) (k : Text) (ws : List Waiter) → AllKey k ws → AllKey k (remove_first id ws)
unfolding remove_first
keyed_remove id k [] h = tt
keyed_remove id k (w ∷ ws) h = elim (Bool-cases (w.id == id)) [
  | inl y ↦ rw y h.1
  | inr n ↦ rw n (h.0, keyed_remove id k ws h.1)
]

nil_remove : (id : ℕ) (ws : List Waiter) → is_nil ws ≡ true → is_nil (remove_first id ws) ≡ true
unfolding remove_first
nil_remove id [] h = refl
nil_remove id (w ∷ ws) h = absurd (ground arith)

pub Keeps-remove : (w : Waiter) (p : TokenPool) → Keeps p (remove_waiter w p)
unfolding remove_waiter
Keeps-remove w p = elim (Option-cases (first (λ x. x.id == w.id) p.waiters)) [
  | inr (x, e) ↦
      rw (remove_waiter, e)
        record {
          opts = refl;
          key = refl;
          closed = refl;
          active = refl;
          short = λ h. h;
          keyed = λ k h. keyed_remove w.id k p.waiters h;
          none_new = λ h. nil_remove w.id p.waiters h;
        }
  | inl n ↦ elim (Option-cases (first (λ e. e.0 == w.id) p.sent)) [
    | inl m ↦ rw (remove_waiter, n, m) (Keeps-refl p)
    | inr ((i, failed e), f) ↦ rw (remove_waiter, n, f) (Keeps-sent p _)
    | inr ((i, got tok), f) ↦
        let q : TokenPool = record p { sent = keep (λ x. not (x.0 == w.id)) p.sent } in
        elim (Bool-cases (q.active && text_eq q.key w.key)) [
          | inl y ↦
              rw (remove_waiter, n, f, y)
                (Keeps-trans p q _ (Keeps-sent p q.sent) (Keeps-append w.key tok q))
          | inr m ↦ rw (remove_waiter, n, f, m) (Keeps-sent p q.sent)
        ]
  ]
]

Keeps-hand_over :
    (key : Text) (tok : PoolToken) (ws : List Waiter) (p : TokenPool)
    → p.waiters ≡ ws
    → Keeps p (hand_over key tok ws p)
unfolding hand_over
Keeps-hand_over key tok [] p e = Keeps-append key tok p
Keeps-hand_over key tok (w ∷ ws) p e = record {
  opts = refl;
  key = refl;
  closed = refl;
  active = refl;
  short = λ h. h;
  keyed = λ k h. (subst (AllKey k) e h).1;
  none_new = λ h. absurd (ground arith);
}

Keeps-count : (p : TokenPool) → Keeps p (count_mint_fail p)
unfolding count_mint_fail
Keeps-count p = Keeps-buckets p _ refl refl refl refl refl (λ h. h)

Keeps-accept :
    (d : Decoders) (cfg : Config) (key param : Text) (now : ℕ) (p : TokenPool)
    → Keeps p (accept d cfg key param now p)
unfolding accept
Keeps-accept d cfg key param now p =
    let dedupe = token_dedupe_key d (trim_space param) (extract_certify_id d param) in
    elim (Bool-cases (issued_now (lookup dedupe p.issued) now)) [
      | inl y ↦ rw (accept, y) (Keeps-count p)
      | inr n ↦
          rw (accept, n)
            (Keeps-trans p _ _ (Keeps-buckets p _ refl refl refl refl refl (λ h. h))
              (Keeps-hand_over key _ p.waiters _ refl))
    ]

Keeps-settle :
    (d : Decoders) (cfg : Config) (key : Text) (result : Solved) (now : ℕ) (p : TokenPool)
    → Keeps p (settle d cfg key result now p)
unfolding settle
Keeps-settle d cfg key solve_failed now p = Keeps-count p
Keeps-settle d cfg key (solved param) now p = elim (Bool-cases (is_nil (trim_space param))) [
  | inl y ↦ rw (settle, y) (Keeps-count p)
  | inr n ↦ elim (Bool-cases (text_eq p.key key && p.active)) [
    | inl y ↦ rw (settle, n, y) (Keeps-accept d cfg key param now p)
    | inr m ↦ rw (settle, n, m) (Keeps-refl p)
  ]
]

pub Keeps-mint :
    (d : Decoders) (cfg : Config) (key : Text) (result : Solved) (now : ℕ) (p : TokenPool)
    → Keeps p (mint d cfg key result now p)
unfolding mint landed
Keeps-mint d cfg key result now p =
    let q = landed key p in
    let r = settle d cfg key result now q in
    Keeps-trans p r _
      (Keeps-trans p q r (Keeps-buckets p q refl refl refl refl refl (λ h. h))
        (Keeps-settle d cfg key result now q))
      (Keeps-ensure d now r)

Keeps-note : (idle : ℕ) (p : TokenPool) → Keeps p (note_idle idle p)
unfolding note_idle
Keeps-note idle p = elim (Bool-cases (ltb p.opts.idle_stop idle)) [
  | inl y ↦ rw (note_idle, y) (Keeps-buckets p _ refl refl refl refl refl (λ h. h))
  | inr n ↦ elim (Bool-cases (ltb p.opts.idle_shrink idle)) [
    | inl y ↦ rw (note_idle, n, y) (Keeps-buckets p _ refl refl refl refl refl (λ h. h))
    | inr m ↦ rw (note_idle, n, m) (Keeps-buckets p _ refl refl refl refl refl (λ h. h))
  ]
]

Keeps-decay : (now : ℕ) (p : TokenPool) → Keeps p (decay now p)
unfolding decay
Keeps-decay now p = elim (Bool-cases (leb minute (now - p.last_decay))) [
  | inl y ↦ rw (decay, y) (Keeps-buckets p _ refl refl refl refl refl (λ h. h))
  | inr n ↦ rw (decay, n) (Keeps-refl p)
]

pub Keeps-refill :
    (d : Decoders) (g : Option CpuGovernor) (now : ℕ) (p : TokenPool)
    → Keeps p (refill_once d g now p)
unfolding refill_once
Keeps-refill d g now p = elim (Bool-cases (p.closed || not p.active || not p.has_solver)) [
  | inl y ↦ rw (refill_once, y) (Keeps-refl p)
  | inr n ↦
      let q = prune now p in
      elim (Bool-cases (not (is_nil q.waiters))) [
        | inl y ↦
            rw (refill_once, n, y) (Keeps-trans p q _ (Keeps-prune now p) (Keeps-ensure d now q))
        | inr m ↦
            let r = note_idle (now - q.last_take) q in
            let s = launch_mints r.key (wanted g (now - r.last_take) r) r in
            rw (refill_once, n, m)
              (Keeps-trans p s _
                (Keeps-trans p r s
                  (Keeps-trans p q r (Keeps-prune now p) (Keeps-note (now - q.last_take) q))
                  (Keeps-launch r.key (wanted g (now - r.last_take) r) r))
                (Keeps-decay now s))
      ]
]

pub Keeps-begin : (now : ℕ) (p : TokenPool) → Keeps p (begin_take now p)
unfolding begin_take
Keeps-begin now p =
    Keeps-trans p (prune now p) _ (Keeps-prune now p)
      (Keeps-buckets (prune now p) _ refl refl refl refl refl (λ h. h))
