-- ===== src/TokenPool/Bounds.antt =====
-- How large the buckets grow and whose waiters wait: what the inner operations of the pool keep.
use zcode2api_plus.Common.{
  ℕ, ◌-◌, ◌≤◌, ◌≡◌, refl, sym, ◌∙◌, subst, Bool, true, not, ◌||◌, List, [], ◌∷◌, ◌++◌, some, Text,
  text_eq, ltb, leb, is_nil, length, length-drop, lookup, insert, keep, or_else, arith, inl, inr,
  Bool-cases, Option-cases,
}
use zcode2api_plus.TokenPool.{
  TokenPool, Decoders, PoolToken, PoolError, WaitResult, got, Waiter, bucket, inflight_of,
  append_bucket, take_fresh, take_last, fresh, pop, prune, prune_buckets, fail_waiters,
  launch_mints, deliver, ensure_mints, unavailable,
}

-- No bucket holds more tokens than the bound.
abbrev pub Short : ℕ → List (Text × List PoolToken) → Type 0
Short n [] = Unit {0}
Short n ((k, list) ∷ m) = (length list ≤ n) × Short n m

-- All waiters wait for a token of this configuration.
abbrev pub AllKey : Text → List Waiter → Type 0
AllKey key [] = Unit {0}
AllKey key (w ∷ ws) = (w.key ≡ key) × AllKey key ws

pub Short-lookup :
    (n : ℕ) (key : Text) (m : List (Text × List PoolToken))
    → Short n m
    → length (or_else (lookup key m) []) ≤ n
unfolding lookup
Short-lookup n key [] h = omega arith
Short-lookup n key ((k, list) ∷ m) h = ground (arith, Short-lookup n key m)

pub Short-insert :
    (n : ℕ) (key : Text) (list : List PoolToken) (m : List (Text × List PoolToken))
    → Short n m
    → length list ≤ n
    → Short n (insert key list m)
unfolding insert
Short-insert n key list [] h l = (l, tt)
Short-insert n key list ((k, other) ∷ m) h l = elim (Bool-cases (text_eq k key)) [
  | inl y ↦ rw y (l, h.1)
  | inr d ↦ rw d (h.0, Short-insert n key list m h.1 l)
]

keep_short : (p : PoolToken → Bool) (xs : List PoolToken) → length (keep p xs) ≤ length xs
keep_short p [] = omega arith
keep_short p (x ∷ xs) = ground (arith, keep_short p xs)

pub Short-prune :
    (n now : ℕ) (m : List (Text × List PoolToken)) → Short n m → Short n (prune_buckets now m)
unfolding prune_buckets
Short-prune n now [] h = tt
Short-prune n now ((k, list) ∷ m) h = elim (Bool-cases (is_nil (keep (fresh now) list))) [
  | inl y ↦ rw y (Short-prune n now m h.1)
  | inr d ↦ rw d (omega (arith, keep_short (fresh now) list, h.0), Short-prune n now m h.1)
]

take_last_short : (n : ℕ) (xs : List PoolToken) → length (take_last n xs) ≤ n
take_last_short n xs = ground (arith, length-drop (length xs - n) xs)

take_fresh_short :
    (now : ℕ) (xs : List PoolToken) {tok : PoolToken} {rest : List PoolToken}
    → take_fresh now xs ≡ some (tok, rest)
    → length rest ≤ length xs
unfolding take_fresh
take_fresh_short now [] h = absurd (ground arith)
take_fresh_short now (x ∷ xs) {tok} {rest} h = elim (Bool-cases (fresh now x)) [
  | inl y ↦ let e : xs ≡ rest = ground arith in rw (sym e) (omega arith)
  | inr n ↦ omega (arith, take_fresh_short now xs {tok = tok} {rest = rest} (rw n at h))
]

-- What an operation on the inside leaves as it is, and what it makes no worse.
pub record Keeps (p q : TokenPool) : Type 0 where
  pub opts : q.opts ≡ p.opts
  pub key : q.key ≡ p.key
  pub closed : q.closed ≡ p.closed
  pub active : q.active ≡ p.active
  pub short : Short p.opts.max p.buckets → Short p.opts.max q.buckets
  pub keyed : (k : Text) → AllKey k p.waiters → AllKey k q.waiters
  pub none_new : is_nil p.waiters ≡ true → is_nil q.waiters ≡ true

pub Keeps-refl : (p : TokenPool) → Keeps p p
Keeps-refl p = record {
  opts = refl;
  key = refl;
  closed = refl;
  active = refl;
  short = λ h. h;
  keyed = λ k h. h;
  none_new = λ h. h;
}

pub Keeps-trans : (p q r : TokenPool) → Keeps p q → Keeps q r → Keeps p r
Keeps-trans p q r f g = record {
  opts = g.opts ∙ f.opts;
  key = g.key ∙ f.key;
  closed = g.closed ∙ f.closed;
  active = g.active ∙ f.active;
  short = λ h.
      subst (λ o. Short o.max r.buckets) f.opts
        (g.short (subst (λ o. Short o.max q.buckets) (sym f.opts) (f.short h)));
  keyed = λ k h. g.keyed k (f.keyed k h);
  none_new = λ h. g.none_new (f.none_new h);
}

-- An operation on buckets alone.
pub Keeps-buckets :
    (p q : TokenPool)
    → q.opts ≡ p.opts
    → q.key ≡ p.key
    → q.closed ≡ p.closed
    → q.active ≡ p.active
    → q.waiters ≡ p.waiters
    → (Short p.opts.max p.buckets → Short p.opts.max q.buckets)
    → Keeps p q
Keeps-buckets p q o k c a w s = record {
  opts = o;
  key = k;
  closed = c;
  active = a;
  short = s;
  keyed = λ j h. rw w h;
  none_new = λ h. rw w h;
}

pub Keeps-prune : (now : ℕ) (p : TokenPool) → Keeps p (prune now p)
unfolding prune
Keeps-prune now p =
    Keeps-buckets p _ refl refl refl refl refl (Short-prune p.opts.max now p.buckets)

pub Keeps-append :
    (key : Text) (tok : PoolToken) (p : TokenPool) → Keeps p (append_bucket key tok p)
unfolding append_bucket
Keeps-append key tok p =
    Keeps-buckets p _ refl refl refl refl refl
      (λ h. Short-insert p.opts.max key _ p.buckets h (take_last_short p.opts.max _))

pub Keeps-pop : (d : Decoders) (now : ℕ) (key : Text) (p : TokenPool) → Keeps p (pop d now key p).1
unfolding pop
Keeps-pop d now key p = elim (Option-cases (take_fresh now (bucket p key))) [
  | inl n ↦
      rw (pop, n)
        (Keeps-buckets p _ refl refl refl refl refl
          (λ h. Short-insert p.opts.max key [] p.buckets h (omega arith)))
  | inr (t, e) ↦
      rw (pop, e)
        (Keeps-buckets p _ refl refl refl refl refl (λ h.
          Short-insert p.opts.max key t.1 p.buckets h (
            omega (
              arith,
              take_fresh_short now (bucket p key) {tok = t.0} {rest = t.1} e,
              Short-lookup p.opts.max key p.buckets h,
            ))))
]

pub Keeps-fail : (e : PoolError) (p : TokenPool) → Keeps p (fail_waiters e p)
unfolding fail_waiters
Keeps-fail e p = record {
  opts = refl;
  key = refl;
  closed = refl;
  active = refl;
  short = λ h. h;
  keyed = λ k h. tt;
  none_new = λ h. refl;
}

pub Keeps-launch : (key : Text) (n : ℕ) (p : TokenPool) → Keeps p (launch_mints key n p)
unfolding launch_mints
Keeps-launch key n p = elim (Bool-cases (leb n 0 || not p.has_solver || p.closed)) [
  | inl y ↦ rw y (Keeps-refl p)
  | inr d ↦ rw d (Keeps-buckets p _ refl refl refl refl refl (λ h. h))
]

-- The waiters that stand in the queue when the one at its head is served.
served_head :
    (p q : TokenPool) (w : Waiter) (ws : List Waiter) (s : List (ℕ × WaitResult))
    → p.waiters ≡ w ∷ ws
    → Keeps p q
    → Keeps p (record q { waiters = ws; sent = s })
served_head p q w ws s e f = record {
  opts = f.opts;
  key = f.key;
  closed = f.closed;
  active = f.active;
  short = f.short;
  keyed = λ k h. (subst (AllKey k) e h).1;
  none_new = λ h. absurd (ground arith);
}

pub Keeps-deliver :
    (d : Decoders) (now : ℕ) (ws : List Waiter) (p : TokenPool)
    → p.waiters ≡ ws
    → Keeps p (deliver d now ws p).0
unfolding deliver
Keeps-deliver d now [] p e = Keeps-refl p
Keeps-deliver d now (w ∷ ws) p e = elim (Option-cases (pop d now p.key p).0) [
  | inl n ↦ rw (deliver, n) (Keeps-pop d now p.key p)
  | inr (t, f) ↦
      let q = (pop d now p.key p).1 in
      let next : TokenPool = record q { waiters = ws; sent = q.sent ++ (w.id, got t) ∷ [] } in
      rw (deliver, f)
        (Keeps-trans p next _
          (served_head p q w ws (q.sent ++ (w.id, got t) ∷ []) e (Keeps-pop d now p.key p))
          (Keeps-deliver d now ws next refl))
]

pub Keeps-ensure : (d : Decoders) (now : ℕ) (p : TokenPool) → Keeps p (ensure_mints d now p)
unfolding ensure_mints
Keeps-ensure d now p = elim (Bool-cases (p.closed || not p.active || not p.has_solver)) [
  | inl y ↦ rw y (Keeps-fail unavailable p)
  | inr a ↦ elim (Bool-cases (is_nil p.waiters || ltb 0 (inflight_of p p.key))) [
    | inl y ↦ rw (a, y) (Keeps-refl p)
    | inr b ↦
        let r = deliver d now p.waiters p in
        let f = Keeps-deliver d now p.waiters p refl in
        elim (Bool-cases r.1) [
          | inl y ↦ rw (a, b, y) f
          | inr c ↦ elim (Bool-cases (leb r.0.opts.empty_solve r.0.mint_fail_streak)) [
            | inl y ↦ rw (a, b, c, y) (Keeps-trans p r.0 _ f (Keeps-fail unavailable r.0))
            | inr n ↦
                rw (a, b, c, n)
                  (Keeps-trans p r.0 _ f (Keeps-launch r.0.key r.0.opts.empty_solve r.0))
          ]
        ]
  ]
]
