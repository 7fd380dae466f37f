-- ===== src/Recovery/Pacing.antt =====
-- The pauses between two tries of one model of one account.
use zcode2api_plus.Common.{
  ℕ, zero, suc, ◌+◌, ◌*◌, ◌≤◌, ◌<◌, ◌≡◌, ◌≢◌, inl, inr, refl, sym, ap, ◌∙◌, Bool, true, false, ◌&&◌,
  List, [], ◌∷◌, Option, none, some, Text, text_eq, text_eq_iff, text_eq_refl, ltb, ◌==◌,
  if◌then◌else◌, In, min, arith, if_intro, Bool-cases, Option-cases,
}
use zcode2api_plus.Account.{Account, is_api_key}
use zcode2api_plus.Account.Quota.{names_model}
use zcode2api_plus.Table.{accounts_of, find}
use zcode2api_plus.Marks.{second}
use zcode2api_plus.Recovery.{
  RetryState, QuotaProbe, Recovery, Recoveries, lookup2, insert2, retry_delay, quota_delay,
  clone_recovery, commit,
}
use zcode2api_plus.Recovery.Leases.{
  Hash, Acquired, leased, save_failed, quota_probe_eligible, first_state, next_state, prepare,
  take_lease, passed_over, acquire_from, is_current, finish_quota_probe,
}
use zcode2api_plus.Recovery.Cloning.{lookup2-insert2, clone_recovery_keeps}
use zcode2api_plus.Recovery.Loop.{Unmoved, Given, take_lease_lem, prepare-Unmoved}

abbrev result : Recovery → Acquired → Recovery × Acquired
result s r = (s, r)

-- The state of a model says that it waits until after this time.
abbrev pub Waits : Text → Text → ℕ → Recovery → Type 0
Waits id name now s =
    (st : RetryState) × (lookup2 id name s.recovery ≡ some st) × (now < st.next_at)

-- The account of this id that bears the mark of this model.
abbrev pub Marked : Account → Text → Recovery → Type 0
Marked a name s =
    (provider : Text) × In a (accounts_of s.accounts provider)
    × (is_api_key a.mode ≡ true)
    × (names_model name a.exhausted_models ≡ true)

first_wait :
    (hash : Hash) (o : Option RetryState) (st : RetryState) (b : Account) (now : ℕ)
    → o ≡ some st
    → now < (first_state hash o b now).next_at
unfolding first_state
first_wait hash o st b now e = rw e (omega arith)

prepare-Waits :
    (hash : Hash) (saved : Bool) (a b : Account) (name : Text) (now : ℕ) (s : Recovery)
    → Marked a name s
    → Waits a.id name now s
    → Waits a.id name now (prepare hash saved b name now s).0
unfolding prepare commit
prepare-Waits hash saved a b name now s (provider, m, k, u) (st, l, w) =
    if_intro (λ (r : Recovery × Option RetryState). Waits a.id name now r.0)
      (is_current hash b (lookup2 b.id name s.recovery)) (λ y. (st, l, w)) (λ n. committed saved)
  where
    made : RetryState
    made = first_state hash (lookup2 b.id name s.recovery) b now

    next : Recoveries
    next = insert2 b.id name made (clone_recovery s)

    committed : (ok : Bool) → Waits a.id name now (commit ok next none s).0
    committed false = (st, l, w)
    committed true =
        let e = lookup2-insert2 a.id name b.id name made (clone_recovery s) in
        elim (Bool-cases (text_eq b.id a.id && text_eq name name)) [
          | inl y ↦
              let same : b.id ≡ a.id = ground (arith, text_eq_iff b.id a.id) in
              (
                made,
                e ∙ rw y refl,
                first_wait hash (lookup2 b.id name s.recovery) st b now
                    (ap (λ i. lookup2 i name s.recovery) same ∙ l),
              )
          | inr d ↦ (st, e ∙ rw d (clone_recovery_keeps a provider name st s m k u l), w)
        ]

pub prepare_found :
    (hash : Hash) (saved : Bool) (b : Account) (name : Text) (now : ℕ) (s : Recovery)
    (found : RetryState)
    → (prepare hash saved b name now s).1 ≡ some found
    → lookup2 b.id name (prepare hash saved b name now s).0.recovery ≡ some found
unfolding prepare commit
prepare_found hash saved b name now s found =
    if_intro
      (λ (r : Recovery × Option RetryState).
        r.1 ≡ some found → lookup2 b.id name (r.0).recovery ≡ some found)
      (is_current hash b (lookup2 b.id name s.recovery)) (λ y h. h) (λ n. committed saved)
  where
    made : RetryState
    made = first_state hash (lookup2 b.id name s.recovery) b now

    committed :
        (ok : Bool)
        → let (t, done) = commit ok (insert2 b.id name made (clone_recovery s)) none s in
          (if done then some made else none) ≡ some found
          → lookup2 b.id name t.recovery ≡ some found
    committed false h = absurd (ground arith)
    committed true h =
        lookup2-insert2 b.id name b.id name made (clone_recovery s)
        ∙ rw (text_eq_refl b.id, text_eq_refl name) h

module _ (hash : Hash) (saved : Account → Bool) (then_saved : Bool) (skip : List Text) (name : Text)
    (now : ℕ) where
  pub never_early :
      (a : Account) (xs : List Account) (s t : Recovery) (probe : QuotaProbe)
      → Marked a name s
      → Waits a.id name now s
      → acquire_from hash saved then_saved skip name now xs s ≡ (t, leased probe)
      → (probe.expected).id ≢ a.id
  unfolding acquire_from
  never_early a [] s t probe m w h = absurd (ground arith)
  never_early a (b ∷ xs) s t probe m w h = elim (Bool-cases (passed_over skip name now b s)) [
    | inl y ↦ never_early a xs s t probe m w (rw (acquire_from, y) at h)
    | inr n ↦
        let (p, st) = prepare hash (saved b) b name now s in
        let f = prepare-Unmoved hash (saved b) b name now s in
        let v = prepare-Waits hash (saved b) a b name now s m w in
        elim (Option-cases st) [
          | inl e ↦ absurd (failed p (rw (acquire_from, n, e) at h))
          | inr (found, e) ↦ elim (Bool-cases (ltb now found.next_at)) [
            | inl y ↦ never_early a xs p t probe (moved p f) v (rw (acquire_from, n, e, y) at h)
            | inr d ↦
                due p found v (prepare_found hash (saved b) b name now s found e) d
                  (rw (acquire_from, n, e, d) at h)
          ]
        ]
  ]
    where
      failed : (p : Recovery) → result p save_failed ≢ (t, leased probe)
      failed p h = ground arith

      moved : (p : Recovery) → Unmoved s p → Marked a name p
      moved p f = let (provider, i, k, u) = m in (provider, rw (f.accounts) i, k, u)

      due :
          (p : Recovery) (found : RetryState)
          → Waits a.id name now p
          → lookup2 b.id name p.recovery ≡ some found
          → ltb now found.next_at ≡ false
          → take_lease then_saved b name found now p ≡ (t, leased probe)
          → (probe.expected).id ≢ a.id
      due p found (x, l, w) q d h e =
          let expected = (take_lease_lem then_saved b name found now p t probe h).0 in
          let same : b.id ≡ a.id = sym (ap (λ y. y.id) expected) ∙ e in
          let both : some x ≡ some found =
            sym l ∙ ap (λ i. lookup2 i name p.recovery) (sym same) ∙ q in
          ground arith

pause : (n : ℕ) → 900 * second ≤ retry_delay (min (min (suc n) 3) 3)
pause zero = omega arith
pause (suc zero) = omega arith
pause (suc (suc n)) =
    let e : min (min (suc (suc (suc n))) 3) 3 ≡ 3 = omega arith in rw e (omega arith)

pub next_pause : (st : RetryState) (now : ℕ) → now + 900 * second ≤ (next_state st now).next_at
unfolding next_state quota_delay
next_pause st now = omega (arith, pause st.step)

-- A request that fails under a lease changes neither accounts nor waiting times.
pub finish_failed :
    (hash : Hash) (saved : Bool) (probe : QuotaProbe) (now : ℕ) (s : Recovery)
    → let t = (finish_quota_probe hash saved probe false now s).0 in
      (t.accounts ≡ s.accounts) × (t.recovery ≡ s.recovery)
unfolding finish_quota_probe
finish_failed hash saved probe now s =
    elim (Option-cases (lookup2 (probe.expected).id probe.model s.probes)) [
      | inl n ↦ rw (finish_quota_probe, n) (refl, refl)
      | inr (held, e) ↦ elim (Bool-cases (held.serial == probe.serial)) [
        | inr n ↦ rw (finish_quota_probe, e, n) (refl, refl)
        | inl y ↦
            elim (Option-cases (find s.accounts (probe.expected).provider (probe.expected).id)) [
              | inl n ↦ rw (finish_quota_probe, e, y, n) (refl, refl)
              | inr (live, l) ↦ rw (finish_quota_probe, e, y, l) (refl, refl)
            ]
      ]
    ]

-- What a lease says of its account and of the next try.
pub Given-Waits :
    (hash : Hash) (provider : Text) (skip : List Text) (name : Text) (now now2 : ℕ)
    (s t v : Recovery) (probe : QuotaProbe)
    → Given hash skip name now (accounts_of s.accounts provider) s t probe
    → now2 < now + 900 * second
    → v.accounts ≡ t.accounts
    → v.recovery ≡ t.recovery
    → Marked probe.expected name v × Waits (probe.expected).id name now2 v
unfolding quota_probe_eligible
Given-Waits hash provider skip name now now2 s t v probe g early a r =
    let there = ap (λ x. lookup2 (g.account).id name x) r ∙ g.there in
    rw (g.expected) (
      (let (k, n) = of_chosen g.before g.chosen in
          (provider, rw (a, g.same_accounts) g.listed, k, n)),
      (next_state g.state now, there, omega (arith, next_pause g.state now)),
    )
  where
    of_chosen :
        (b : Recovery)
        → passed_over skip name now g.account b ≡ false
        → (is_api_key (g.account).mode ≡ true)
          × (names_model name (g.account).exhausted_models ≡ true)
    of_chosen b h = (ground arith, ground arith)
