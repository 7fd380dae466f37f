-- ===== src/Recovery/Loop.antt =====
-- The loop that looks for an account to try: what a lease that it gives says of its account.
use zcode2api_plus.Common.{
  ℕ, zero, suc, ◌*◌, ◌≤◌, ◌≡◌, ◌≢◌, inl, inr, refl, sym, ap, ◌∙◌, Bool, true, false, List, [], ◌∷◌,
  Option, none, some, Text, text_eq_refl, text_eq_iff, if◌then◌else◌, ltb, In, min, arith, if_intro,
  Bool-cases, Option-cases,
}
use zcode2api_plus.Account.{Account}
use zcode2api_plus.Marks.{second}
use zcode2api_plus.Recovery.{
  RetryState, QuotaProbe, Recovery, Recoveries, lookup2, insert2, long_wait, retry_delay,
  quota_delay, clone_recovery, commit, credential_hash,
}
use zcode2api_plus.Recovery.Leases.{
  Hash, Acquired, leased, nothing, save_failed, first_state, next_state, prepare, take_lease,
  passed_over, acquire_from, is_current,
}
use zcode2api_plus.Recovery.Cloning.{lookup2-insert2}

pub delay_cases : (n : ℕ) → (300 * second ≤ retry_delay n) × (retry_delay n ≤ long_wait)
delay_cases zero = (omega arith, omega arith)
delay_cases (suc zero) = (omega arith, omega arith)
delay_cases (suc (suc zero)) = (omega arith, omega arith)
delay_cases (suc (suc (suc n))) = (omega arith, omega arith)

-- Every wait is at least five minutes and at most six hours.
pub quota_delay_bounds :
    (st : RetryState) → (300 * second ≤ quota_delay st) × (quota_delay st ≤ long_wait)
unfolding quota_delay
quota_delay_bounds st =
    let (a, b) = delay_cases (min st.step 3) in (omega (arith, a), omega (arith, b))

-- What a step of the loop leaves alone.
pub record Unmoved (s t : Recovery) : Type 0 where
  pub accounts : t.accounts ≡ s.accounts
  pub probes : t.probes ≡ s.probes
  pub serial : t.next_serial ≡ s.next_serial

commit-Unmoved :
    (saved : Bool) (next : Recoveries) (s : Recovery) → Unmoved s (commit saved next none s).0
unfolding commit
commit-Unmoved true next s = record { accounts = refl; probes = refl; serial = refl }
commit-Unmoved false next s = record { accounts = refl; probes = refl; serial = refl }

pub prepare-Unmoved :
    (hash : Hash) (saved : Bool) (a : Account) (name : Text) (now : ℕ) (s : Recovery)
    → Unmoved s (prepare hash saved a name now s).0
unfolding prepare
prepare-Unmoved hash saved a name now s =
    if_intro (λ (r : Recovery × Option RetryState). Unmoved s r.0)
      (is_current hash a (lookup2 a.id name s.recovery))
      (λ y. record { accounts = refl; probes = refl; serial = refl })
      (λ n. commit-Unmoved saved _ s)

-- The state that a try goes by belongs to the credential of its account.
prepare_current :
    (hash : Hash) (saved : Bool) (a : Account) (name : Text) (now : ℕ) (s : Recovery)
    (found : RetryState)
    → (prepare hash saved a name now s).1 ≡ some found
    → found.credential_hash ≡ credential_hash hash a
unfolding prepare first_state commit
prepare_current hash saved a name now s found =
    if_intro
      (λ (r : Recovery × Option RetryState).
        r.1 ≡ some found → found.credential_hash ≡ credential_hash hash a)
      (is_current hash a (lookup2 a.id name s.recovery))
      (λ y h.
        (text_eq_iff found.credential_hash (credential_hash hash a)).0
          (ap (is_current hash a) (sym h) ∙ y))
      (λ n. made saved)
  where
    hash_or : Option RetryState → Text
    hash_or none = []
    hash_or (some st) = st.credential_hash

    made :
        (ok : Bool)
        → (if (commit ok
              (insert2 a.id name
                (first_state hash (lookup2 a.id name s.recovery) a now)
                (clone_recovery s))
              none
              s).1
            then some (first_state hash (lookup2 a.id name s.recovery) a now)
            else none)
          ≡ some found
        → found.credential_hash ≡ credential_hash hash a
    made false h = absurd (ground arith)
    made true h = ap (λ o. hash_or o) (sym h)

-- A lease that the loop gives, and the state in which it gives it.
pub record Given (hash : Hash) (skip : List Text) (name : Text) (now : ℕ) (xs : List Account)
    (s t : Recovery) (probe : QuotaProbe) : Type 0 where
  pub account : Account
  pub before : Recovery
  pub state : RetryState
  pub listed : In account xs
  pub chosen : passed_over skip name now account before ≡ false
  pub unmoved : Unmoved s before
  pub expected : probe.expected ≡ account
  pub model : probe.model ≡ name
  pub serial : probe.serial ≡ s.next_serial
  pub result : t.probes ≡ insert2 account.id name probe s.probes
  pub same_accounts : t.accounts ≡ s.accounts
  pub there : lookup2 account.id name t.recovery ≡ some (next_state state now)
  pub current : state.credential_hash ≡ credential_hash hash account

abbrev lease_or : QuotaProbe → Acquired → QuotaProbe
lease_or d nothing = d
lease_or d save_failed = d
lease_or d (leased p) = p

abbrev pair : Recovery → Acquired → Recovery × Acquired
pair t r = (t, r)

pub take_lease_lem :
    (saved : Bool) (a : Account) (name : Text) (st : RetryState) (now : ℕ) (s t : Recovery)
    (probe : QuotaProbe)
    → take_lease saved a name st now s ≡ (t, leased probe)
    → (probe.expected ≡ a)
      × (probe.model ≡ name)
      × (probe.serial ≡ s.next_serial)
      × (t.probes ≡ insert2 a.id name probe s.probes)
      × (t.accounts ≡ s.accounts)
      × (lookup2 a.id name t.recovery ≡ some (next_state st now))
unfolding take_lease commit
take_lease_lem false a name st now s t probe h = absurd (ground arith)
take_lease_lem true a name st now s t probe h =
    let r : Recovery × Acquired = take_lease true a name st now s in
    let e : r.0 ≡ t = ap (λ x. x.0) h in
    let p : lease_or probe r.1 ≡ probe = ap (λ x. lease_or probe x.1) h in
    (
      sym (ap (λ x. x.expected) p),
      sym (ap (λ x. x.model) p),
      sym (ap (λ x. x.serial) p),
      sym (ap (λ x. x.probes) e) ∙ ap (λ x. insert2 a.id name x s.probes) p,
      sym (ap (λ x. x.accounts) e),
      sym (ap (λ x. lookup2 a.id name x.recovery) e)
          ∙ lookup2-insert2 a.id name a.id name (next_state st now) (clone_recovery s)
          ∙ rw (text_eq_refl a.id, text_eq_refl name) refl,
    )

module _ (hash : Hash) (saved : Account → Bool) (then_saved : Bool) (skip : List Text) (name : Text)
    (now : ℕ) where
  Unmoved-trans : (s t u : Recovery) → Unmoved s t → Unmoved t u → Unmoved s u
  Unmoved-trans s t u f g = record {
    accounts = g.accounts ∙ f.accounts;
    probes = g.probes ∙ f.probes;
    serial = g.serial ∙ f.serial;
  }

  -- What the rest of the loop gives, the loop gives.
  Given-later :
      (x : Account) (xs : List Account) (s u t : Recovery) (probe : QuotaProbe)
      → Unmoved s u
      → Given hash skip name now xs u t probe
      → Given hash skip name now (x ∷ xs) s t probe
  Given-later x xs s u t probe f g = record {
    account = g.account;
    before = g.before;
    state = g.state;
    listed = inr g.listed;
    chosen = g.chosen;
    unmoved = Unmoved-trans s u g.before f g.unmoved;
    expected = g.expected;
    model = g.model;
    serial = g.serial ∙ f.serial;
    result = g.result ∙ ap (λ x. insert2 (g.account).id name probe x) f.probes;
    same_accounts = g.same_accounts ∙ f.accounts;
    there = g.there;
    current = g.current;
  }

  pub acquire_from_lem :
      (xs : List Account) (s t : Recovery) (probe : QuotaProbe)
      → acquire_from hash saved then_saved skip name now xs s ≡ (t, leased probe)
      → Given hash skip name now xs s t probe
  unfolding acquire_from
  acquire_from_lem [] s t probe h = absurd (ground arith)
  acquire_from_lem (a ∷ xs) s t probe h = elim (Bool-cases (passed_over skip name now a s)) [
    | inl y ↦
        Given-later a xs s s t probe (record { accounts = refl; probes = refl; serial = refl })
          (acquire_from_lem xs s t probe (rw (acquire_from, y) at h))
    | inr n ↦
        let (p, st) = prepare hash (saved a) a name now s in
        let f = prepare-Unmoved hash (saved a) a name now s in
        elim (Option-cases st) [
          | inl e ↦ absurd (failed p (rw (acquire_from, n, e) at h))
          | inr (found, e) ↦ elim (Bool-cases (ltb now found.next_at)) [
            | inl y ↦
                Given-later a xs s p t probe f
                  (acquire_from_lem xs p t probe (rw (acquire_from, n, e, y) at h))
            | inr w ↦
                given n p found f (prepare_current hash (saved a) a name now s found e)
                  (rw (acquire_from, n, e, w) at h)
          ]
        ]
  ]
    where
      failed : (p : Recovery) → pair p save_failed ≢ (t, leased probe)
      failed p h = ground arith

      given :
          passed_over skip name now a s ≡ false
          → (p : Recovery) (found : RetryState) → Unmoved s p
          → found.credential_hash ≡ credential_hash hash a
          → take_lease then_saved a name found now p ≡ (t, leased probe)
          → Given hash skip name now (a ∷ xs) s t probe
      given n p found f own h =
          let (expected, model, serial, result, same, there) =
            take_lease_lem then_saved a name found now p t probe h in
          record {
            account = a;
            before = s;
            state = found;
            listed = inl refl;
            chosen = n;
            unmoved = record { accounts = refl; probes = refl; serial = refl };
            expected = expected;
            model = model;
            serial = serial ∙ f.serial;
            result = result ∙ ap (λ x. insert2 a.id name probe x) f.probes;
            same_accounts = same ∙ f.accounts;
            there = there;
            current = own;
          }
