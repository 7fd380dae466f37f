-- ===== src/Recovery/Exclusive.antt =====
-- One lease at a time for a model of an account.
use zcode2api_plus.Common.{
  ℕ, ◌≡◌, ◌≢◌, inl, inr, refl, sym, ap, ◌∙◌, Bool, true, false, not, ◌&&◌, ◌||◌, List, [], ◌∷◌,
  Option, none, some, Text, text_eq, text_eq_iff, ltb, ◌==◌, if◌then◌else◌, is_nil, or_else, lookup,
  insert, delete, lookup-insert, lookup-delete, arith, if_intro, Bool-cases, Option-cases,
}
use zcode2api_plus.ModelName.{normalize_model_name}
use zcode2api_plus.Account.{Account, same_credential}
use zcode2api_plus.Table.{Accounts, find, accounts_of}
use zcode2api_plus.Recovery.{
  RetryState, QuotaProbe, Recovery, Recoveries, lookup2, delete2, clone_recovery, commit,
}
use zcode2api_plus.Recovery.Leases.{
  Hash, Acquired, leased, mark_quota_exhausted, prepare, take_lease, passed_over, acquire_from,
  acquire_quota_probe, still_expected, restore_model, finish_quota_probe, next_state,
}
use zcode2api_plus.Recovery.Cloning.{lookup2-insert2}
use zcode2api_plus.Recovery.Loop.{prepare-Unmoved}
use zcode2api_plus.Recovery.Single.{acquire_lem, free_before, held_after}

-- The store at work while a lease is held: calls for leases, ends of other leases, marks of used-up
-- models, and any change of the accounts from outside.
pub data Uses (hash : Hash) (probe : QuotaProbe) (s : Recovery) : Recovery → Type 0 where
  rests : Uses hash probe s s
  acquires :
      (q : Recovery) (saved : Account → Bool) (then_saved : Bool) (provider : Text)
      (skip : List Text) (name : Text) (now : ℕ)
      → Uses hash probe s q
      → Uses hash probe s (acquire_quota_probe hash saved then_saved provider skip name now q).0
  finishes :
      (q : Recovery) (saved : Bool) (other : QuotaProbe) (confirmed : Bool) (now : ℕ)
      → Uses hash probe s q
      → other.serial ≢ probe.serial
      → Uses hash probe s (finish_quota_probe hash saved other confirmed now q).0
  exhausts :
      (q : Recovery) (saved : Bool) (expected : Option Account) (name detail : Text) (now wait : ℕ)
      → Uses hash probe s q
      → Uses hash probe s (mark_quota_exhausted hash saved expected name detail now wait q).0
  edits :
      (q : Recovery) (accounts : Accounts)
      → Uses hash probe s q
      → Uses hash probe s (record q { accounts = accounts })

inner_put :
    {V : Type 0} (id i j : Text) (rest : List (Text × V)) (m : List (Text × List (Text × V)))
    → lookup j (or_else (lookup i (if is_nil rest then delete id m else insert id rest m)) [])
      ≡ (if text_eq id i then lookup j rest else lookup j (or_else (lookup i m) []))
inner_put id i j [] m =
    ap (λ o. lookup j (or_else o [])) (lookup-delete id i m)
    ∙ elim (Bool-cases (text_eq id i)) [ inl y ↦ rw y refl | inr d ↦ rw d refl ]
inner_put id i j (x ∷ xs) m =
    ap (λ o. lookup j (or_else o [])) (lookup-insert id i (x ∷ xs) m)
    ∙ elim (Bool-cases (text_eq id i)) [ inl y ↦ rw y refl | inr d ↦ rw d refl ]

-- Other entries of a map of maps are not touched by a deletion.
lookup2-delete2 :
    {V : Type 0} (id name i j : Text) (m : List (Text × List (Text × V)))
    → (text_eq id i && text_eq name j) ≡ false
    → lookup2 i j (delete2 id name m) ≡ lookup2 i j m
unfolding lookup2 delete2
lookup2-delete2 id name i j m h = elim (Option-cases (lookup id m)) [
  | inl n ↦ rw (delete2, n) refl
  | inr (inner, l) ↦
      rw (delete2, l)
        (inner_put id i j (delete name inner) m ∙ elim (Bool-cases (text_eq id i)) [
          | inl y ↦
              let other : text_eq name j ≡ false = ground arith in
              let there : lookup i m ≡ some inner =
                ap (λ x. lookup x m) (sym ((text_eq_iff id i).0 y)) ∙ l in
              rw y (
                lookup-delete name j inner
                ∙ rw other refl
                ∙ sym (ap (λ o. lookup j (or_else o [])) there))
          | inr d ↦ rw d refl
        ])
]

module _ (probe : QuotaProbe) where
  -- The lease is on record.
  abbrev Kept : Recovery → Type 0
  Kept s = lookup2 (probe.expected).id probe.model s.probes ≡ some probe

  Kept-commit :
      (saved : Bool) (next : Recoveries) (pending : Option Account) (s : Recovery)
      → Kept s
      → Kept (commit saved next pending s).0
  unfolding commit
  Kept-commit false next pending s h = h
  Kept-commit true next none s h = h
  Kept-commit true next (some a) s h = h

  Kept-take :
      (saved : Bool) (a : Account) (name : Text) (st : RetryState) (now : ℕ) (s : Recovery)
      → lookup2 a.id name s.probes ≡ none
      → Kept s
      → Kept (take_lease saved a name st now s).0
  unfolding take_lease commit
  Kept-take false a name st now s n h = h
  Kept-take true a name st now s n h =
      let made : QuotaProbe = record {
        serial = s.next_serial;
        expected = a;
        model = name;
        generation = (next_state st now).generation;
      } in
      lookup2-insert2 (probe.expected).id probe.model a.id name made s.probes
      ∙ elim (Bool-cases (text_eq a.id (probe.expected).id && text_eq name probe.model)) [
        | inl y ↦
            let i : a.id ≡ (probe.expected).id =
              ground (arith, text_eq_iff a.id (probe.expected).id) in
            let m : name ≡ probe.model = ground (arith, text_eq_iff name probe.model) in
            let both : none ≡ some probe =
              sym n
              ∙ ap (λ x. lookup2 x name s.probes) i
              ∙ ap (λ x. lookup2 (probe.expected).id x s.probes) m
              ∙ h in
            absurd (ground arith)
        | inr d ↦ rw d h
      ]

  Kept-exhaust :
      (hash : Hash) (saved : Bool) (expected : Option Account) (name detail : Text) (now wait : ℕ)
      (s : Recovery)
      → Kept s
      → Kept (mark_quota_exhausted hash saved expected name detail now wait s).0
  unfolding mark_quota_exhausted
  Kept-exhaust hash saved none name detail now wait s h = h
  Kept-exhaust hash saved (some e) name detail now wait s h =
      elim (Option-cases (find s.accounts e.provider e.id)) [
        | inl n ↦ rw (mark_quota_exhausted, n) h
        | inr (live, f) ↦ elim (Bool-cases (same_credential (some live) (some e))) [
          | inl y ↦ rw (mark_quota_exhausted, f, y) (Kept-commit saved _ _ s h)
          | inr n ↦ rw (mark_quota_exhausted, f, n) h
        ]
      ]

  -- The end of another lease.
  Kept-finish :
      (hash : Hash) (saved : Bool) (other : QuotaProbe) (confirmed : Bool) (now : ℕ) (s : Recovery)
      → other.serial ≢ probe.serial
      → Kept s
      → Kept (finish_quota_probe hash saved other confirmed now s).0
  unfolding finish_quota_probe
  Kept-finish hash saved other confirmed now s d h =
      elim (Option-cases (lookup2 (other.expected).id other.model s.probes)) [
        | inl n ↦ rw (finish_quota_probe, n) h
        | inr (held, e) ↦ elim (Bool-cases (held.serial == other.serial)) [
          | inr n ↦ rw (finish_quota_probe, e, n) h
          | inl y ↦
              let t = record s { probes = delete2 (other.expected).id other.model s.probes } in
              let kept = still held e y in
              elim (Option-cases (find s.accounts (other.expected).provider (other.expected).id)) [
                | inl n ↦ rw (finish_quota_probe, e, y, n) kept
                | inr (live, l) ↦
                    rw (finish_quota_probe, e, y, l)
                      (if_intro (λ (r : Recovery × Bool × Bool). Kept r.0)
                        (not confirmed
                          || not (
                              still_expected hash other live
                                (lookup2 (other.expected).id other.model s.recovery) now))
                        (λ z. kept)
                        (λ z.
                          Kept-commit saved
                            (delete2 (other.expected).id other.model (clone_recovery t))
                            (some (restore_model other.model live)) t kept))
              ]
        ]
      ]
    where
      still :
          (held : QuotaProbe)
          → lookup2 (other.expected).id other.model s.probes ≡ some held
          → (held.serial == other.serial) ≡ true
          → lookup2
              (probe.expected).id
              probe.model
              (delete2 (other.expected).id other.model s.probes)
            ≡ some probe
      still held e y =
          elim (Bool-cases
            (text_eq (other.expected).id (probe.expected).id && text_eq other.model probe.model)) [
              | inl z ↦
                  let i : (other.expected).id ≡ (probe.expected).id =
                    ground (arith, text_eq_iff (other.expected).id (probe.expected).id) in
                  let m : other.model ≡ probe.model =
                    ground (arith, text_eq_iff other.model probe.model) in
                  let both : some held ≡ some probe =
                    sym e
                    ∙ ap (λ x. lookup2 x other.model s.probes) i
                    ∙ ap (λ x. lookup2 (probe.expected).id x s.probes) m
                    ∙ h in
                  absurd (ground arith)
              | inr n ↦
                  lookup2-delete2 (other.expected).id other.model (probe.expected).id probe.model
                    s.probes n
                  ∙ h
            ]

  module _ (hash : Hash) (saved : Account → Bool) (then_saved : Bool) (skip : List Text) where
    Kept-from :
        (name : Text) (now : ℕ) (xs : List Account) (s : Recovery)
        → Kept s
        → Kept (acquire_from hash saved then_saved skip name now xs s).0
    unfolding acquire_from
    Kept-from name now [] s h = h
    Kept-from name now (a ∷ xs) s h = elim (Bool-cases (passed_over skip name now a s)) [
      | inl y ↦ rw (acquire_from, y) (Kept-from name now xs s h)
      | inr n ↦
          let p = (prepare hash (saved a) a name now s).0 in
          let same = (prepare-Unmoved hash (saved a) a name now s).probes in
          let kept : Kept p = ap (lookup2 (probe.expected).id probe.model) same ∙ h in
          elim (Option-cases (prepare hash (saved a) a name now s).1) [
            | inl e ↦ rw (acquire_from, n, e) kept
            | inr (found, e) ↦ elim (Bool-cases (ltb now found.next_at)) [
              | inl y ↦ rw (acquire_from, n, e, y) (Kept-from name now xs p kept)
              | inr d ↦
                  rw (acquire_from, n, e, d)
                    (Kept-take then_saved a name found now p
                      (ap (lookup2 a.id name) same ∙ unheld n) kept)
            ]
          ]
    ]
      where
        unheld : passed_over skip name now a s ≡ false → lookup2 a.id name s.probes ≡ none
        unheld n = ground arith

    Kept-acquire :
        (provider name : Text) (now : ℕ) (s : Recovery)
        → Kept s
        → Kept (acquire_quota_probe hash saved then_saved provider skip name now s).0
    unfolding acquire_quota_probe
    Kept-acquire provider name now s h =
        if_intro (λ (r : Recovery × Acquired). Kept r.0) (is_nil (normalize_model_name name))
          (λ y. h)
          (λ n. Kept-from (normalize_model_name name) now (accounts_of s.accounts provider) s h)

  Kept-Uses : {hash : Hash} {s t : Recovery} → Kept s → Uses hash probe s t → Kept t
  Kept-Uses h rests = h
  Kept-Uses {hash} h (acquires q saved then_saved provider skip name now u) =
      Kept-acquire hash saved then_saved skip provider name now q (Kept-Uses h u)
  Kept-Uses {hash} h (finishes q saved other confirmed now u d) =
      Kept-finish hash saved other confirmed now q d (Kept-Uses h u)
  Kept-Uses {hash} h (exhausts q saved expected name detail now wait u) =
      Kept-exhaust hash saved expected name detail now wait q (Kept-Uses h u)
  Kept-Uses h (edits q accounts u) = Kept-Uses h u

-- One lease at a time: once a call has given a lease, no call gives one for the same model of the
-- same account before that lease is finished, whatever it passes over, however late it is, and
-- whatever happens in between: other calls and the ends of their leases, marks of used-up models, and
-- changes of the accounts, saved or not.
pub one_lease :
    (hash : Hash) (saved saved2 : Account → Bool) (then_saved then_saved2 : Bool)
    (provider provider2 : Text) (skip skip2 : List Text) (name name2 : Text) (now now2 : ℕ)
    (s t u v : Recovery) (probe other : QuotaProbe)
    → acquire_quota_probe hash saved then_saved provider skip name now s ≡ (t, leased probe)
    → Uses hash probe t v
    → acquire_quota_probe hash saved2 then_saved2 provider2 skip2 name2 now2 v ≡ (u, leased other)
    → ¬ (((other.expected).id ≡ (probe.expected).id) × (other.model ≡ probe.model))
one_lease hash saved saved2 then_saved then_saved2 provider provider2 skip skip2 name name2 now now2
      s t u v probe other h uses k (i, m) =
    let a = acquire_lem hash saved then_saved provider skip name now s t probe h in
    let b = acquire_lem hash saved2 then_saved2 provider2 skip2 name2 now2 v u other k in
    let there = Kept-Uses probe (held_after _ _ _ _ _ s t probe a) uses in
    let gone = free_before _ _ _ _ _ v u other b in
    let both : none ≡ some probe =
      sym gone
      ∙ ap (λ x. lookup2 x other.model v.probes) i
      ∙ ap (λ x. lookup2 (probe.expected).id x v.probes) m
      ∙ there in
    ground arith
