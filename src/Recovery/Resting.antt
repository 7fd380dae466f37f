-- ===== src/Recovery/Resting.antt =====
-- How long a model of an account is left alone after it has been tried.
use zcode2api_plus.Common.{
  ℕ, ◌+◌, ◌*◌, ◌≤◌, ◌<◌, ◌≡◌, inl, inr, refl, sym, ap, ◌∙◌, subst, Bool, true, false, ◌&&◌, List,
  [], ◌∷◌, Option, none, some, Text, text_eq, text_eq_iff, text_eq_refl, ltb, is_nil, In, arith,
  if_intro, Bool-cases, Option-cases,
}
use zcode2api_plus.ModelName.{normalize_model_name}
use zcode2api_plus.Account.{Account}
use zcode2api_plus.Table.{accounts_of}
use zcode2api_plus.Marks.{second}
use zcode2api_plus.Recovery.{
  RetryState, QuotaProbe, Recovery, lookup2, insert2, clone_recovery, commit, credential_hash,
}
use zcode2api_plus.Recovery.Leases.{
  Hash, Acquired, leased, first_state, next_state, prepare, take_lease, passed_over, acquire_from,
  acquire_quota_probe, is_current, finish_quota_probe,
}
use zcode2api_plus.Recovery.Cloning.{lookup2-insert2, clone_recovery_keeps}
use zcode2api_plus.Recovery.Single.{acquire_lem, acquire_started}
use zcode2api_plus.Recovery.Pacing.{
  Marked, Waits, next_pause, prepare_found, never_early, finish_failed, Given-Waits,
}

-- No other account of this list has the id.
abbrev pub Alone : Account → List Account → Type 0
Alone a xs = (b : Account) → In b xs → b.id ≡ a.id → b ≡ a

-- The model of this account, which bears its mark, waits until this time at least.
record Rests (hash : Hash) (a : Account) (name : Text) (until : ℕ) (s : Recovery) : Type 0 where
  marked : Marked a name s
  alone : (provider : Text) → Alone a (accounts_of s.accounts provider)
  state : RetryState
  there : lookup2 a.id name s.recovery ≡ some state
  own : state.credential_hash ≡ credential_hash hash a
  waits : until ≤ state.next_at

module _ (hash : Hash) (a : Account) (name : Text) (until : ℕ) where
  abbrev R : Recovery → Type 0
  R s = Rests hash a name until s

  Rests-same : (s t : Recovery) → t.accounts ≡ s.accounts → t.recovery ≡ s.recovery → R s → R t
  Rests-same s t x y r = record {
    marked = let (provider, i, k, u) = r.marked in (provider, rw x i, k, u);
    alone = λ provider. rw x (r.alone provider);
    state = r.state;
    there = ap (lookup2 a.id name) y ∙ r.there;
    own = r.own;
    waits = r.waits;
  }

  -- The state of another model, or of another account, is written.
  Rests-put :
      (id n : Text) (st : RetryState) (s t : Recovery)
      → (text_eq id a.id && text_eq n name) ≡ false
      → t.accounts ≡ s.accounts
      → t.recovery ≡ insert2 id n st (clone_recovery s)
      → R s
      → R t
  Rests-put id n st s t d x y r =
      let (provider, i, k, u) = r.marked in
      record {
        marked = (provider, rw x i, k, u);
        alone = λ provider. rw x (r.alone provider);
        state = r.state;
        there =
            ap (lookup2 a.id name) y
            ∙ lookup2-insert2 a.id name id n st (clone_recovery s)
            ∙ rw d (clone_recovery_keeps a provider name r.state s i k u r.there);
        own = r.own;
        waits = r.waits;
      }

  Rests-prepare :
      (saved : Bool) (b : Account) (n : Text) (now : ℕ) (s : Recovery)
      → (b.id ≡ a.id → b ≡ a)
      → R s
      → R (prepare hash saved b n now s).0
  unfolding prepare commit
  Rests-prepare saved b n now s o r =
      if_intro (λ (q : Recovery × Option RetryState). R q.0)
        (is_current hash b (lookup2 b.id n s.recovery)) (λ y. r)
        (λ c. elim (Bool-cases (text_eq b.id a.id && text_eq n name)) [
          | inl y ↦ absurd (kept c y)
          | inr d ↦ committed saved d
        ])
    where
      made : RetryState
      made = first_state hash (lookup2 b.id n s.recovery) b now

      committed :
          (ok : Bool)
          → (text_eq b.id a.id && text_eq n name) ≡ false
          → R (commit ok (insert2 b.id n made (clone_recovery s)) none s).0
      committed false d = r
      committed true d = Rests-put b.id n made s _ d refl refl r

      kept :
          is_current hash b (lookup2 b.id n s.recovery) ≡ false
          → (text_eq b.id a.id && text_eq n name) ≡ true
          → ⊥
      kept c y =
          let i : b.id ≡ a.id = ground (arith, text_eq_iff b.id a.id) in
          let m : n ≡ name = ground (arith, text_eq_iff n name) in
          let there : lookup2 b.id n s.recovery ≡ some r.state =
            ap (λ x. lookup2 x n s.recovery) i ∙ ap (λ x. lookup2 a.id x s.recovery) m ∙ r.there in
          let current : is_current hash b (lookup2 b.id n s.recovery) ≡ true =
            ap (is_current hash b) there
            ∙ ap (λ x. is_current hash x (some r.state)) (o i)
            ∙ ap (λ x. text_eq x (credential_hash hash a)) r.own
            ∙ text_eq_refl (credential_hash hash a) in
          ground arith

  Rests-take :
      (saved : Bool) (b : Account) (n : Text) (found : RetryState) (now : ℕ) (s : Recovery)
      → now < until
      → lookup2 b.id n s.recovery ≡ some found
      → ltb now found.next_at ≡ false
      → R s
      → R (take_lease saved b n found now s).0
  unfolding take_lease commit
  Rests-take false b n found now s e f d r = r
  Rests-take true b n found now s e f d r =
      elim (Bool-cases (text_eq b.id a.id && text_eq n name)) [
        | inr k ↦ Rests-put b.id n (next_state found now) s _ k refl refl r
        | inl y ↦
            let i : b.id ≡ a.id = ground (arith, text_eq_iff b.id a.id) in
            let m : n ≡ name = ground (arith, text_eq_iff n name) in
            let same : some r.state ≡ some found =
              sym r.there
              ∙ ap (λ x. lookup2 x name s.recovery) (sym i)
              ∙ ap (λ x. lookup2 b.id x s.recovery) (sym m)
              ∙ f in
            let w = r.waits in absurd (ground arith)
      ]

  module _ (saved : Account → Bool) (then_saved : Bool) (skip : List Text) (n : Text)
      (now : ℕ) where
    Rests-from :
        (xs : List Account) (s : Recovery)
        → now < until
        → Alone a xs
        → R s
        → R (acquire_from hash saved then_saved skip n now xs s).0
    unfolding acquire_from
    Rests-from [] s e o r = r
    Rests-from (b ∷ xs) s e o r = elim (Bool-cases (passed_over skip n now b s)) [
      | inl y ↦ rw (acquire_from, y) (Rests-from xs s e (λ c l. o c (inr l)) r)
      | inr k ↦
          let p = (prepare hash (saved b) b n now s).0 in
          let rp = Rests-prepare (saved b) b n now s (o b (inl refl)) r in
          elim (Option-cases (prepare hash (saved b) b n now s).1) [
            | inl f ↦ rw (acquire_from, k, f) rp
            | inr (found, f) ↦ elim (Bool-cases (ltb now found.next_at)) [
              | inl y ↦ rw (acquire_from, k, f, y) (Rests-from xs p e (λ c l. o c (inr l)) rp)
              | inr d ↦
                  rw (acquire_from, k, f, d)
                    (Rests-take then_saved b n found now p e
                      (prepare_found hash (saved b) b n now s found f) d rp)
            ]
          ]
    ]

  Rests-acquire :
      (saved : Account → Bool) (then_saved : Bool) (provider : Text) (skip : List Text) (n : Text)
      (now : ℕ) (s : Recovery)
      → now < until
      → R s
      → R (acquire_quota_probe hash saved then_saved provider skip n now s).0
  unfolding acquire_quota_probe
  Rests-acquire saved then_saved provider skip n now s e r =
      if_intro (λ (q : Recovery × Acquired). R q.0) (is_nil (normalize_model_name n)) (λ y. r)
        (λ k.
          Rests-from saved then_saved skip (normalize_model_name n) now
            (accounts_of s.accounts provider) s e (r.alone provider) r)

-- Calls for leases before a time, and leases that end without success, in any order.
pub data Tries (hash : Hash) (until : ℕ) (s : Recovery) : Recovery → Type 0 where
  rests : Tries hash until s s
  acquires :
      (q : Recovery) (saved : Account → Bool) (then_saved : Bool) (provider : Text)
      (skip : List Text) (name : Text) (now : ℕ)
      → Tries hash until s q
      → now < until
      → Tries hash until s (acquire_quota_probe hash saved then_saved provider skip name now q).0
  fails :
      (q : Recovery) (saved : Bool) (other : QuotaProbe) (now : ℕ)
      → Tries hash until s q
      → Tries hash until s (finish_quota_probe hash saved other false now q).0

Tries-Rests :
    {hash : Hash} (a : Account) (name : Text) {until : ℕ} {s t : Recovery}
    → Rests hash a name until s
    → Tries hash until s t
    → Rests hash a name until t
Tries-Rests a name r rests = r
Tries-Rests {hash} a name {until} r (acquires q saved then_saved provider skip n now u e) =
    Rests-acquire hash a name until saved then_saved provider skip n now q e
      (Tries-Rests a name r u)
Tries-Rests {hash} a name {until} r (fails q saved other now u) =
    let (x, y) = finish_failed hash saved other now q in
    Rests-same hash a name until q _ x y (Tries-Rests a name r u)

-- After a lease, the model is not tried again on that account for at least 15 minutes, as long as the
-- lease brings no success: no row of calls for leases and of leases that fail, this one and others,
-- saved or not, ends with a call in that time that gives a lease for it. The accounts stay as they
-- are meanwhile, no other account has the id, and no new answer marks a model as used up.
pub lease_pauses :
    (hash : Hash) (saved saved2 : Account → Bool) (then_saved then_saved2 : Bool)
    (provider provider2 : Text) (skip skip2 : List Text) (name name2 : Text) (now now2 : ℕ)
    (s t u v : Recovery) (probe other : QuotaProbe)
    → acquire_quota_probe hash saved then_saved provider skip name now s ≡ (t, leased probe)
    → ((p : Text) → Alone probe.expected (accounts_of s.accounts p))
    → Tries hash (now + 900 * second) t v
    → now2 < now + 900 * second
    → acquire_quota_probe hash saved2 then_saved2 provider2 skip2 name2 now2 v ≡ (u, leased other)
    → ¬ (((other.expected).id ≡ (probe.expected).id) × (other.model ≡ probe.model))
lease_pauses hash saved saved2 then_saved then_saved2 provider provider2 skip skip2 name name2 now
      now2 s t u v probe other h alone tries early k (i, m) =
    let g = acquire_lem hash saved then_saved provider skip name now s t probe h in
    let b = acquire_lem hash saved2 then_saved2 provider2 skip2 name2 now2 v u other k in
    let same : normalize_model_name name ≡ normalize_model_name name2 =
      sym g.model ∙ sym m ∙ b.model in
    let r = Tries-Rests probe.expected (normalize_model_name name) (first_rest h alone) tries in
    let (marked, waits) =
      subst (λ n. Marked probe.expected n v × Waits (probe.expected).id n now2 v) same
        (r.marked, (r.state, r.there, omega (arith, r.waits))) in
    never_early hash saved2 then_saved2 skip2 (normalize_model_name name2) now2 probe.expected
      (accounts_of v.accounts provider2) v u other marked waits
      (acquire_started hash saved2 then_saved2 provider2 skip2 name2 now2 v u other k) i
  where
    next_own : (st : RetryState) → (next_state st now).credential_hash ≡ st.credential_hash
    next_own st = unfold next_state in refl

    first_rest :
        acquire_quota_probe hash saved then_saved provider skip name now s ≡ (t, leased probe)
        → ((p : Text) → Alone probe.expected (accounts_of s.accounts p))
        → Rests hash probe.expected (normalize_model_name name) (now + 900 * second) t
    first_rest h alone =
        let g = acquire_lem hash saved then_saved provider skip name now s t probe h in
        let (marked, waits) =
          Given-Waits hash provider skip (normalize_model_name name) now now s t t probe g
            (omega arith) refl refl in
        record {
          marked = marked;
          alone = λ p. rw g.same_accounts (alone p);
          state = next_state g.state now;
          there =
              ap (λ x. lookup2 x.id (normalize_model_name name) t.recovery) g.expected ∙ g.there;
          own = next_own g.state ∙ g.current ∙ ap (credential_hash hash) (sym g.expected);
          waits = next_pause g.state now;
        }
