-- ===== src/Selection/Answer.antt =====
-- What `selectAccount` answers: the account given may be dispatched to, and none is withheld while
-- some account may.
use zcode2api_plus.Common.{
  ◌≡◌, refl, ap, ◌∙◌, Bool, true, false, ◌||◌, List, [], ◌∷◌, some, Text, arith, inl, inr, ◌⊎◌, In,
  In-keep, In-keep_inv, get_elem?-In, get_elem?_total, length, keep, first, map, is_nil, is_none,
  if◌then◌else◌, Bool-cases, Option-cases, or_else, lookup, text_eq, leb, ℕ,
}
use native.Mathlib.Nat.{mod-lt}
use zcode2api_plus.Account.{Account}
use zcode2api_plus.Account.Quota.{model_availability}
use zcode2api_plus.Selection.{
  choose, View, Query, Rotation, publish, may_take, base, pin_hit, is_available, is_unknown,
  model_layer, candidates, rotate, rotation_key, account_avoids, select_account, select_avoiding,
}
use zcode2api_plus.Selection.Layers.{nil_not, Narrows-narrow}
use zcode2api_plus.Selection.Richest.{Narrows-candidates}

-- The model of the call, where it names one, is what the account has; or it is not known whether
-- the account has it, and no account that may be taken is known to.
abbrev pub Fits : View → Query → Account → Type 0
Fits v q a =
    (is_nil q.model_name ≡ true)
    ⊎ (is_available (model_availability a q.model_name) ≡ true)
    ⊎ ((is_unknown (model_availability a q.model_name) ≡ true)
        × ((b : Account)
            → In b (base v q)
            → is_available (model_availability b q.model_name) ≡ false))

keep_nil :
    (p : Account → Bool) (b : Account) (xs : List Account)
    → is_nil (keep p xs) ≡ true
    → In b xs
    → p b ≡ false
keep_nil p b xs h m = elim (Bool-cases (p b)) [
  | inr n ↦ n
  | inl y ↦ let f = nil_not b (keep p xs) (In-keep p b xs m y) in absurd (ground arith)
]

-- A list of what passes the first test, or failing any, the second.
prefers :
    (p g : Account → Bool) (a : Account) (xs : List Account)
    → In a (if is_nil (keep p xs) then keep g xs else keep p xs)
    → In a xs × ((p a ≡ true) ⊎ ((g a ≡ true) × ((b : Account) → In b xs → p b ≡ false)))
prefers p g a xs m = elim (Bool-cases (is_nil (keep p xs))) [
  | inl y ↦ let r = In-keep_inv g a xs (rw y at m) in (r.0, inr (r.1, λ b k. keep_nil p b xs y k))
  | inr n ↦ let r = In-keep_inv p a xs (rw n at m) in (r.0, inl r.1)
]

prefers_some :
    (p g : Account → Bool) (a : Account) (xs : List Account)
    → In a xs
    → (p a ≡ true) ⊎ (g a ≡ true)
    → is_nil (if is_nil (keep p xs) then keep g xs else keep p xs) ≡ false
prefers_some p g a xs m t = elim (Bool-cases (is_nil (keep p xs))) [
  | inr n ↦ rw (n, n) refl
  | inl y ↦ elim t [
    | inl u ↦ let f = nil_not a (keep p xs) (In-keep p a xs m u) in absurd (ground arith)
    | inr u ↦ rw y (nil_not a (keep g xs) (In-keep g a xs m u))
  ]
]

model_layer-Fits :
    (v : View) (q : Query) (a : Account)
    → In a (model_layer v q (base v q))
    → In a (base v q) × Fits v q a
unfolding model_layer
model_layer-Fits v q a m = elim (Bool-cases (is_nil q.model_name)) [
  | inl y ↦ ((Narrows-narrow _ (base v q)).within a (rw y at m), inl y)
  | inr n ↦ let (k, f) = prefers _ _ a (base v q) (rw n at m) in (k, inr f)
]

model_layer_some :
    (v : View) (q : Query) (a : Account)
    → In a (base v q)
    → (is_nil q.model_name ≡ true)
      ⊎ (is_available (model_availability a q.model_name) ≡ true)
      ⊎ (is_unknown (model_availability a q.model_name) ≡ true)
    → is_nil (model_layer v q (base v q)) ≡ false
unfolding model_layer
model_layer_some v q a m t = elim (Bool-cases (is_nil q.model_name)) [
  | inl y ↦ rw y ((Narrows-narrow _ (base v q)).empties ∙ nil_not a (base v q) m)
  | inr n ↦ elim t [
    | inl y ↦ absurd (ground arith)
    | inr u ↦ rw n (prefers_some _ _ a (base v q) m u)
  ]
]

first-In : (p : Account → Bool) (xs : List Account) {a : Account} → first p xs ≡ some a → In a xs
first-In p [] h = ground arith
first-In p (x ∷ xs) {a} h = elim (Bool-cases (p x)) [
  | inl y ↦ inl (ground arith)
  | inr n ↦ inr (first-In p xs (rw n at h))
]

pin_hit-In :
    (v : View) (now : ℕ) (xs : List Account) {a : Account} → pin_hit v now xs ≡ some a → In a xs
unfolding pin_hit
pin_hit-In v now xs {a} h = elim (Option-cases v.pin) [
  | inl n ↦ absurd (ground arith)
  | inr (p, e) ↦ elim (Bool-cases (is_nil p.0 || leb p.1 now)) [
    | inl y ↦ absurd (ground arith)
    | inr d ↦ first-In (λ b. text_eq b.id p.0) xs (ground arith)
  ]
]

rotate_sound :
    (key : Text) (r : Rotation) (pool : List Account) {a : Account}
    → (rotate key r pool).0 ≡ some a
    → In a pool
unfolding rotate
rotate_sound key r pool h = get_elem?-In pool _ h

rotate_some :
    (key : Text) (r : Rotation) (pool : List Account)
    → is_nil pool ≡ false
    → is_none (rotate key r pool).0 ≡ false
unfolding rotate
rotate_some key r [] h = absurd (ground arith)
rotate_some key r (x ∷ xs) h =
    let (a, e) =
      get_elem?_total (x ∷ xs) _
        (mod-lt (or_else (lookup key r) 0) {m = length (x ∷ xs)} (omega arith)) in
    rw e refl

In-base :
    (v : View) (q : Query) (a : Account)
    → In a (base v q)
    → In a (map (publish v) q.accounts) × (may_take v q a ≡ true)
unfolding base
In-base v q a m = In-keep_inv (may_take v q) a (map (publish v) q.accounts) m

-- The account that is given is one of the provider's, passes the first layer, and has the model of
-- the call as far as any account has; or it is the pinned one, whose models are not looked at.
pub select_account_sound :
    (v : View) (q : Query) (r : Rotation) {a : Account}
    → (select_account v q r).0 ≡ some a
    → In a (map (publish v) q.accounts)
      × (may_take v q a ≡ true)
      × ((pin_hit v q.now (base v q) ≡ some a) ⊎ Fits v q a)
unfolding select_account choose
select_account_sound v q r {a} h = elim (Option-cases (pin_hit v q.now (base v q))) [
  | inr (b, e) ↦
      let same : b ≡ a = ground arith in
      let pinned : pin_hit v q.now (base v q) ≡ some a = rw e (ap some same) in
      let (i, t) = In-base v q a (pin_hit-In v q.now (base v q) pinned) in (i, t, inl pinned)
  | inl e ↦ elim (Bool-cases (is_nil (candidates v q (base v q)))) [
    | inl y ↦ absurd (ground arith)
    | inr n ↦
        let drawn : In a (candidates v q (base v q)) =
          rotate_sound (rotation_key q) r (candidates v q (base v q)) (ground arith) in
        let (m, f) = model_layer-Fits v q a ((Narrows-candidates v q (base v q)).within a drawn) in
        let (i, t) = In-base v q a m in (i, t, inr f)
  ]
]

-- Where an account may be taken and the model of the call is not ruled out for it, some account
-- is given.
pub select_account_some :
    (v : View) (q : Query) (r : Rotation) (a : Account)
    → In a (map (publish v) q.accounts)
    → may_take v q a ≡ true
    → (is_nil q.model_name ≡ true)
      ⊎ (is_available (model_availability a q.model_name) ≡ true)
      ⊎ (is_unknown (model_availability a q.model_name) ≡ true)
    → is_none (select_account v q r).0 ≡ false
unfolding select_account choose base
select_account_some v q r a m t fits =
    let filled =
      (Narrows-candidates v q (base v q)).empties
      ∙ model_layer_some v q a (In-keep (may_take v q) a (map (publish v) q.accounts) m t) fits in
    let some_one = rotate_some (rotation_key q) r (candidates v q (base v q)) filled in
    elim (Option-cases (pin_hit v q.now (base v q))) [
      | inr (b, e) ↦ ground arith
      | inl e ↦ ground arith
    ]

unavoided :
    (v : View) (q : Query) (a : Account)
    → is_nil q.avoid ≡ true
    → may_take v q a ≡ may_take v (record q { avoid = [] }) a
unfolding may_take account_avoids
unavoided v q a h = ground arith

-- A second try is made without the lines to avoid, and only a call that can be answered on no
-- line ends empty.
pub select_avoiding_some :
    (v : View) (q : Query) (r : Rotation) (a : Account)
    → In a (map (publish v) q.accounts)
    → may_take v (record q { avoid = [] }) a ≡ true
    → (is_nil q.model_name ≡ true)
      ⊎ (is_available (model_availability a q.model_name) ≡ true)
      ⊎ (is_unknown (model_availability a q.model_name) ≡ true)
    → is_none (select_avoiding v q r).0 ≡ false
unfolding select_avoiding
select_avoiding_some v q r a m t fits = elim (Option-cases (select_account v q r).0) [
  | inr (b, e) ↦ ground arith
  | inl e ↦ elim (Bool-cases (is_nil q.avoid)) [
    | inr n ↦
        let again =
          select_account_some v (record q { avoid = [] }) (select_account v q r).1 a m t fits in
        ground arith
    | inl y ↦
        let found = select_account_some v q r a m (unavoided v q a y ∙ t) fits in
        absurd (ground arith)
  ]
]
