-- ===== src/TokenPool/Run.antt =====
-- The pool in use: any sequence of its operations, and what holds throughout.
use zcode2api_plus.Common.{
  ℕ, ◌≡◌, refl, sym, ◌∙◌, subst, Bool, true, false, not, ◌&&◌, ◌||◌, List, [], ◌∷◌, ◌++◌, Option,
  none, some, Text, text_eq, text_eq_iff, if◌then◌else◌, is_nil, arith, if_intro, inl, inr,
  Bool-cases,
}
use zcode2api_plus.TokenPool.{
  TokenPool, Config, Decoders, PoolToken, PoolError, pool_closed, unavailable, Waiter, pop, prune,
  fail_waiters, captcha_config_key,
}
use zcode2api_plus.TokenPool.Cpu.{CpuGovernor}
use zcode2api_plus.TokenPool.Ops.{
  warm, set_solver, set_config, start_over, clear, take, begin_take, enqueue, popped, Taken,
  receive, remove_waiter, Solved, mint, refill_once, close,
}
use zcode2api_plus.TokenPool.Bounds.{
  Short, AllKey, Keeps, Keeps-trans, Keeps-prune, Keeps-pop, Keeps-ensure,
}
use zcode2api_plus.TokenPool.Keeping.{
  Keeps-warm, Keeps-receive, Keeps-remove, Keeps-mint, Keeps-refill, Keeps-begin,
}

-- `prunes` is what `Stats` and a `Take` that is given up do.
pub data Step (d : Decoders) (p : TokenPool) : TokenPool → Type 0 where
  warms : (now : ℕ) → Step d p (warm now p)
  sets_solver : (has : Bool) → Step d p (set_solver has p)
  sets_config :
      (cfg : Config) (verified : Bool) (now : ℕ) → Step d p (set_config cfg verified now p)
  clears : Step d p (clear p)
  takes : (cfg : Config) (id now : ℕ) → Step d p (take d cfg id now p).1
  receives : (id now : ℕ) → Step d p (receive id now p).1
  gives_up : (w : Waiter) → Step d p (remove_waiter w p)
  mints :
      (cfg : Config) (key : Text) (result : Solved) (now : ℕ)
      → Step d p (mint d cfg key result now p)
  refills : (g : Option CpuGovernor) (now : ℕ) → Step d p (refill_once d g now p)
  closes : Step d p (close p)
  prunes : (now : ℕ) → Step d p (prune now p)

pub data Runs (d : Decoders) (p : TokenPool) : TokenPool → Type 0 where
  start : Runs d p p
  then_step : (q : TokenPool) {r : TokenPool} → Runs d p q → Step d q r → Runs d p r

-- Buckets are bounded; whoever waits, waits for the configuration that is set, in an open pool.
pub record IsWell (p : TokenPool) : Type 0 where
  pub short : Short p.opts.max p.buckets
  pub keyed : AllKey p.key p.waiters
  pub serving : is_nil p.waiters ≡ false → (p.closed ≡ false) × (p.active ≡ true)

IsWell-Keeps : (p q : TokenPool) → IsWell p → Keeps p q → IsWell q
IsWell-Keeps p q h f = record {
  short = rw (f.opts) (f.short h.short);
  keyed = rw (f.key) (f.keyed p.key h.keyed);
  serving = λ n. elim (Bool-cases (is_nil p.waiters)) [
    | inl y ↦ let e = f.none_new y in absurd (ground arith)
    | inr m ↦ let (c, a) = h.serving m in (f.closed ∙ c, f.active ∙ a)
  ];
}

closed-IsWell :
    (p : TokenPool)
    → Short p.opts.max p.buckets
    → is_nil p.waiters ≡ true
    → AllKey p.key p.waiters
    → IsWell p
closed-IsWell p s n k = record { short = s; keyed = k; serving = λ m. absurd (ground arith) }

-- A pool that has failed its waiters, and is empty.
failed-IsWell :
    (e : PoolError) (p : TokenPool) → Short p.opts.max p.buckets → IsWell (fail_waiters e p)
unfolding fail_waiters
failed-IsWell e p s = closed-IsWell (fail_waiters e p) s refl tt

over-IsWell :
    (cfg : Config) (verified : Bool) (key : Text) (q : TokenPool)
    → IsWell q
    → q.closed ≡ false
    → text_eq key q.key ≡ true
    → let r = record q { key = key; cfg = cfg; active = verified && cfg.enabled } in
      IsWell
        (if r.active then r else fail_waiters unavailable (record r { buckets = []; issued = [] }))
over-IsWell cfg verified key q h c e =
    if_intro IsWell (verified && cfg.enabled)
      (λ y. record {
        short = h.short;
        keyed = subst (λ k. AllKey k q.waiters) (sym ((text_eq_iff key q.key).0 e)) h.keyed;
        serving = λ n. (c, y);
      })
      (λ n. failed-IsWell unavailable _ tt)

fresh-IsWell :
    (cfg : Config) (verified : Bool) (key : Text) (now : ℕ) (p : TokenPool)
    → let q = start_over now p in
      let r = record q { key = key; cfg = cfg; active = verified && cfg.enabled } in
      IsWell
        (if r.active then r else fail_waiters unavailable (record r { buckets = []; issued = [] }))
unfolding start_over fail_waiters
fresh-IsWell cfg verified key now p = elim (Bool-cases (verified && cfg.enabled)) [
  | inl y ↦ rw y (closed-IsWell _ tt refl tt)
  | inr n ↦ rw n (closed-IsWell _ tt refl tt)
]

IsWell-config :
    (cfg : Config) (verified : Bool) (now : ℕ) (p : TokenPool)
    → IsWell p
    → IsWell (set_config cfg verified now p)
unfolding set_config
IsWell-config cfg verified now p h =
    let key = captcha_config_key cfg in
    if_intro IsWell p.closed (λ y. h)
      (λ n.
        if_intro {A = TokenPool}
          (λ q.
            let r : TokenPool = record q {
              key = key;
              cfg = cfg;
              active = verified && cfg.enabled;
            } in
            IsWell (
              if r.active
              then r
              else fail_waiters unavailable (record r { buckets = []; issued = [] })))
          (text_eq key p.key) (λ y. over-IsWell cfg verified key p h n y)
          (λ m. fresh-IsWell cfg verified key now p))

IsWell-close : (p : TokenPool) → IsWell p → IsWell (close p)
unfolding close
IsWell-close p h = if_intro IsWell p.closed (λ y. h) (λ n. failed-IsWell pool_closed _ tt)

keyed-append :
    (k : Text) (ws : List Waiter) (w : Waiter) → AllKey k ws → w.key ≡ k → AllKey k (ws ++ w ∷ [])
keyed-append k [] w h e = (e, tt)
keyed-append k (v ∷ ws) w h e = (h.0, keyed-append k ws w h.1 e)

IsWell-enqueue :
    (d : Decoders) (key : Text) (id now : ℕ) (p : TokenPool)
    → IsWell p
    → p.closed ≡ false
    → p.active ≡ true
    → p.key ≡ key
    → IsWell (enqueue d key id now p)
unfolding enqueue
IsWell-enqueue d key id now p h c a k =
    IsWell-Keeps _ _
      record {
        short = h.short;
        keyed = keyed-append p.key p.waiters (record { id = id; key = key }) h.keyed (sym k);
        serving = λ n. (c, a);
      }
      (Keeps-ensure d now _)

IsWell-popped :
    (d : Decoders) (key : Text) (id now : ℕ) (tok : Option PoolToken) (p : TokenPool)
    → IsWell p
    → p.closed ≡ false
    → p.active ≡ true
    → p.key ≡ key
    → IsWell (popped d key id now tok p).1
unfolding popped
IsWell-popped d key id now none p h c a k = IsWell-enqueue d key id now p h c a k
IsWell-popped d key id now (some tok) p h c a k = IsWell-Keeps p _ h (Keeps-prune now p)

IsWell-take :
    (d : Decoders) (cfg : Config) (id now : ℕ) (p : TokenPool)
    → IsWell p
    → IsWell (take d cfg id now p).1
unfolding take
IsWell-take d cfg id now p h =
    let key = captcha_config_key cfg in
    let P = λ (r : Taken × TokenPool). IsWell r.1 in
    let q = begin_take now p in
    let f = Keeps-trans p q _ (Keeps-begin now p) (Keeps-pop d now key q) in
    if_intro P p.closed (λ y. h)
      (λ n.
        if_intro P (not p.active || not (text_eq p.key key) || not p.has_solver)
          (λ y. IsWell-Keeps p _ h (Keeps-prune now p))
          (λ m.
            IsWell-popped d key id now (pop d now key q).0 (pop d now key q).1
              (IsWell-Keeps p _ h f) (f.closed ∙ n) (f.active ∙ ground arith)
              (f.key ∙ (text_eq_iff p.key key).0 (ground arith))))

IsWell-clear : (p : TokenPool) → IsWell p → IsWell (clear p)
unfolding clear
IsWell-clear p h = record { short = tt; keyed = h.keyed; serving = h.serving }

IsWell-solver : (has : Bool) (p : TokenPool) → IsWell p → IsWell (set_solver has p)
unfolding set_solver
IsWell-solver has p h = record { short = h.short; keyed = h.keyed; serving = h.serving }

IsWell-Step : (d : Decoders) (p q : TokenPool) → IsWell p → Step d p q → IsWell q
IsWell-Step d p q h (warms now) = IsWell-Keeps p q h (Keeps-warm now p)
IsWell-Step d p q h (sets_solver has) = IsWell-solver has p h
IsWell-Step d p q h (sets_config cfg verified now) = IsWell-config cfg verified now p h
IsWell-Step d p q h clears = IsWell-clear p h
IsWell-Step d p q h (takes cfg id now) = IsWell-take d cfg id now p h
IsWell-Step d p q h (receives id now) = IsWell-Keeps p q h (Keeps-receive id now p)
IsWell-Step d p q h (gives_up w) = IsWell-Keeps p q h (Keeps-remove w p)
IsWell-Step d p q h (mints cfg key result now) =
    IsWell-Keeps p q h (Keeps-mint d cfg key result now p)
IsWell-Step d p q h (refills g now) = IsWell-Keeps p q h (Keeps-refill d g now p)
IsWell-Step d p q h closes = IsWell-close p h
IsWell-Step d p q h (prunes now) = IsWell-Keeps p q h (Keeps-prune now p)

-- Whatever the order of operations, a pool that started well stays so: no bucket grows past the
-- maximum, and every waiter stands in an open pool and wants the configuration that is set.
pub Runs-IsWell : (d : Decoders) (p q : TokenPool) → IsWell p → Runs d p q → IsWell q
Runs-IsWell d p q h start = h
Runs-IsWell d p q h (then_step m r s) = IsWell-Step d m q (Runs-IsWell d p m h r) s
