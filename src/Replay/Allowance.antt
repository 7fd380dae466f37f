-- ===== src/Replay/Allowance.antt =====
-- How many requests are let through while content is under guard.
use zcode2api_plus.Common.{
  ℕ, suc, ◌+◌, ◌-◌, ◌<◌, ◌≤◌, ◌≡◌, refl, sym, subst, ◌∙◌, inl, inr, Bool, true, false, List, [],
  ◌∷◌, none, some, Text, text_eq, text_eq_iff, text_eq_refl, ltb, if◌then◌else◌, is_nil, length,
  lookup, insert, lookup-insert, arith, min, Bool-cases,
}
use zcode2api_plus.Replay.{
  ReplayEntry, ReplayGuard, max_entries, time_left, spend, set_entries, remaining, take,
  record_verdict,
}
use zcode2api_plus.Replay.Window.{
  remaining_keeps, take_other, take_same, record_same, record_other, record_sizes, record_new,
  length-insert,
}

-- A call of the guard with its time.
pub data Call : Type 0 where
  asking : Text → ℕ → Call
  taking : Text → ℕ → Call
  recording : Text → ℕ → Call

abbrev pub time_of : Call → ℕ
time_of (asking k t) = t
time_of (taking k t) = t
time_of (recording k t) = t

abbrev pub call : Bool → Call → ReplayGuard → ReplayGuard
call allow_once (asking k t) g = (remaining k t g).0
call allow_once (taking k t) g = (take k t g).0
call allow_once (recording k t) g = record_verdict allow_once k t g

-- 1 for a request with the content that is let through.
abbrev pub let_through : Text → Call → ReplayGuard → ℕ
let_through key (asking k t) g = 0
let_through key (taking k t) g = if text_eq k key then (if (take k t g).1 then 0 else 1) else 0
let_through key (recording k t) g = 0

-- 1 for a request with the content.
abbrev pub tries : Text → Call → ℕ
tries key (asking k t) = 0
tries key (taking k t) = if text_eq k key then 1 else 0
tries key (recording k t) = 0

unfoldable pub all_let_through : Bool → Text → List Call → ReplayGuard → ℕ
all_let_through allow_once key [] g = 0
all_let_through allow_once key (c ∷ cs) g =
    let_through key c g + all_let_through allow_once key cs (call allow_once c g)

abbrev pub all_tries : Text → List Call → ℕ
all_tries key [] = 0
all_tries key (c ∷ cs) = tries key c + all_tries key cs

-- Every call is made inside the window that begins at a time.
abbrev pub IsInside : ℕ → ℕ → List Call → Type 0
IsInside start ttl [] = Unit {0}
IsInside start ttl (c ∷ cs) =
    (start ≤ time_of c) × (time_of c < start + ttl) × IsInside start ttl cs

-- The guard holds an entry of the content, made at the start or later, with so many allowances.
abbrev pub Holds : Text → ℕ → ℕ → ReplayGuard → Type 0
Holds key start n g =
    (e : ReplayEntry) × (lookup key g.entries ≡ some e) × (start ≤ e.at) × (e.allowances ≡ n)

-- What one call inside the window does to the entry of the content.
record Stepped (key : Text) (start n : ℕ) (c : Call) (g h : ReplayGuard) : Type 0 where
  passed : let_through key c g ≡ min n (tries key c)
  held : Holds key start (n - tries key c) h
  same_ttl : h.ttl ≡ g.ttl
  grown : length h.entries ≤ suc (length g.entries)

stepped :
    (key : Text) (start n t : ℕ) (g : ReplayGuard) (r : ReplayGuard × Bool × ℕ)
    → take key t g ≡ r
    → (if r.1 then 0 else 1) ≡ min n 1
    → Holds key start (n - 1) r.0
    → (r.0).ttl ≡ g.ttl
    → length (r.0).entries ≤ suc (length g.entries)
    → Stepped key start n (taking key t) g (take key t g).0
stepped key start n t g r q p h e l = record {
  passed = rw (text_eq_refl key, q) p;
  held = rw (text_eq_refl key, q) h;
  same_ttl = rw q e;
  grown = rw q l;
}

step_taking :
    (key : Text) (start n t : ℕ) (g : ReplayGuard)
    → is_nil key ≡ false
    → start ≤ t
    → t < start + g.ttl
    → Holds key start n g
    → Stepped key start n (taking key t) g (take key t g).0
step_taking key start n t g x b l (e, h, a, m) = elim (Bool-cases (ltb 0 e.allowances)) [
  | inl y ↦
      stepped key start n t g (set_entries (insert key (spend e) g.entries) g, false, 0)
        (taken ∙ rw y refl) (ground arith)
        (
          spend e,
          rw (lookup-insert key key (spend e) g.entries, text_eq_refl key) refl,
          a,
          omega arith,
        )
        refl (length-insert key (spend e) g.entries)
  | inr f ↦
      stepped key start n t g (g, true, time_left g.ttl t e) (taken ∙ rw f refl) (ground arith)
        (e, h, a, ground arith) refl (omega arith)
]
  where
    taken : take key t g ≡ (
        if ltb 0 e.allowances
        then (set_entries (insert key (spend e) g.entries) g, false, 0)
        else (g, true, time_left g.ttl t e))
    taken = take_same key t e g x (omega arith) h

step :
    (allow_once : Bool) (key : Text) (start n : ℕ) (c : Call) (g : ReplayGuard)
    → is_nil key ≡ false
    → start ≤ time_of c
    → time_of c < start + g.ttl
    → length g.entries < max_entries
    → Holds key start n g
    → Stepped key start n c g (call allow_once c g)
step allow_once key start n (asking k t) g x b l s (e, h, a, m) =
    let kept = remaining_keeps key k t e g (omega arith) h in
    record {
      passed = omega arith;
      held = (e, kept.0, a, omega arith);
      same_ttl = kept.1;
      grown = omega arith;
    }
step allow_once key start n (taking k t) g x b l s (e, h, a, m) =
    elim (Bool-cases (text_eq k key)) [
      | inl y ↦
          subst (λ j. Stepped key start n (taking j t) g (take j t g).0)
            (sym ((text_eq_iff k key).0 y)) (step_taking key start n t g x b l (e, h, a, m))
      | inr f ↦
          let kept = take_other key k t e g f h in
          record {
            passed = rw f (omega arith);
            held = rw f (e, kept.0, a, omega arith);
            same_ttl = kept.1;
            grown = kept.2;
          }
    ]
step allow_once key start n (recording k t) g x b l s (e, h, a, m) =
    let sizes = record_sizes allow_once k t g in
    elim (Bool-cases (text_eq k key)) [
      | inl y ↦ record {
        passed = omega arith;
        held = (
          record { at = t; allowances = e.allowances },
          subst
              (λ j.
                lookup key (record_verdict allow_once j t g).entries
                ≡ some (record { at = t; allowances = e.allowances }))
              (sym ((text_eq_iff k key).0 y))
              (record_same allow_once key t e g x (omega arith) s h),
          b,
          omega arith,
        );
        same_ttl = sizes.0;
        grown = sizes.1;
      }
      | inr f ↦ record {
        passed = omega arith;
        held = (e, record_other allow_once key k t e g f (omega arith) s h, a, omega arith);
        same_ttl = sizes.0;
        grown = sizes.1;
      }
    ]

exact :
    (allow_once : Bool) (key : Text) (start n : ℕ) (cs : List Call) (g : ReplayGuard)
    → is_nil key ≡ false
    → IsInside start g.ttl cs
    → length g.entries + length cs ≤ max_entries
    → Holds key start n g
    → all_let_through allow_once key cs g ≡ min n (all_tries key cs)
unfolding all_let_through
exact allow_once key start n [] g x i s h = omega arith
exact allow_once key start n (c ∷ cs) g x (b, l, i) s h =
    let one = step allow_once key start n c g x b l (omega arith) h in
    let more =
      exact allow_once key start (n - tries key c) cs (call allow_once c g) x
        (subst (λ t. IsInside start t cs) (sym one.same_ttl) i) (omega (arith, one.grown))
        one.held in
    omega (arith, one.passed, more)

-- After a verdict on new content, of the requests with that content inside its window exactly the
-- first is let through, or none where the setting does not allow one, whatever other contents are
-- asked about, taken and recorded in between and however often the verdict on this content is
-- repeated. The guard must not reach its maximum of entries, at which it is cleared.
pub replay_lets_one :
    (allow_once : Bool) (key : Text) (start : ℕ) (cs : List Call) (g : ReplayGuard)
    → is_nil key ≡ false
    → lookup key g.entries ≡ none
    → IsInside start g.ttl cs
    → suc (length g.entries) + length cs ≤ max_entries
    → all_let_through allow_once key cs (record_verdict allow_once key start g)
      ≡ min (if allow_once then 1 else 0) (all_tries key cs)
replay_lets_one allow_once key start cs g x h i s =
    let sizes = record_sizes allow_once key start g in
    exact allow_once key start (if allow_once then 1 else 0) cs
      (record_verdict allow_once key start g) x (subst (λ t. IsInside start t cs) (sym sizes.0) i)
      (omega (arith, sizes.1))
      (
        record { at = start; allowances = if allow_once then 1 else 0 },
        record_new allow_once key start g x h,
        omega arith,
        refl,
      )
