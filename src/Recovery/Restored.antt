-- ===== src/Recovery/Restored.antt =====
-- A model that answered again: what a lease that ends well does to its account.
use zcode2api_plus.Common.{
  ◌≡◌, inl, inr, refl, ap, ◌∙◌, true, false, not, ◌&&◌, ◌||◌, List, [], ◌∷◌, map, none, some, Text,
  codes, text_eq, text_eq_iff, text_eq_refl, if◌then◌else◌, is_nil, keep, lookup, insert,
  lookup-insert, arith, if_intro, Bool-cases,
}
use zcode2api_plus.ModelName.{normalize_model_name}
use zcode2api_plus.Account.{Account, Json, null, str, JsonMap, is_exhausted, is_cooling}
use zcode2api_plus.Account.Quota.{
  Availability, quota_number, string_at, entry_model, entry_for, quota_entries_for_model,
  remainings, snapshot_availability, names_model, model_availability, to_float,
}
use zcode2api_plus.Recovery.Leases.{restore_model, restored_quota, forget_figures}

-- A column without a figure for what remains.
abbrev Unknown : JsonMap → Type 0
Unknown q = quota_number q (codes "remaining") ≡ none

lookup_other :
    (k j : Text) (v : Json) (q : JsonMap)
    → text_eq k j ≡ false
    → lookup j (insert k v q) ≡ lookup j q
lookup_other k j v q h = ground (arith, lookup-insert k j v q)

-- A column with its figures forgotten.
abbrev blank : JsonMap → JsonMap
blank q = insert (codes "available") null (insert (codes "remaining") null q)

blank_remaining : (q : JsonMap) → lookup (codes "remaining") (blank q) ≡ some null
unfolding text_eq
blank_remaining q =
    lookup_other (codes "available") (codes "remaining") null (insert (codes "remaining") null q)
      refl
    ∙ lookup-insert (codes "remaining") (codes "remaining") null q

forgotten : (q : JsonMap) → Unknown (blank q)
unfolding quota_number to_float
forgotten q = rw (quota_number, blank_remaining q) refl

-- No column of this model has a figure.
abbrev Silent : Text → List (Text × JsonMap) → Type 0
Silent t [] = Unit {0}
Silent t (e ∷ es) = (entry_for t e ≡ true → Unknown e.1) × Silent t es

Silent-forget : (t : Text) (quota : List (Text × JsonMap)) → Silent t (map (forget_figures t) quota)
Silent-forget t [] = tt
Silent-forget t ((name, q) ∷ es) = (
  if_intro (λ (e : Text × JsonMap). entry_for t e ≡ true → Unknown e.1) (entry_for t (name, q))
      (λ y h. forgotten q) (λ n h. absurd (ground arith)),
  Silent-forget t es,
)

Silent-insert :
    (t k : Text) (v : JsonMap) (m : List (Text × JsonMap))
    → Unknown v
    → Silent t m
    → Silent t (insert k v m)
unfolding insert
Silent-insert t k v [] u s = (λ h. u, tt)
Silent-insert t k v ((j, w) ∷ m) u (p, s) =
    if_intro (Silent t) (text_eq j k) (λ y. (λ h. u, s)) (λ n. (p, Silent-insert t k v m u s))

Silent-none :
    (t : Text) (m : List (Text × JsonMap))
    → Silent t m
    → remainings (map (λ e. e.1) (keep (entry_for t) m)) ≡ []
unfolding remainings
Silent-none t [] s = refl
Silent-none t (e ∷ es) (p, s) = elim (Bool-cases (entry_for t e)) [
  | inl y ↦ rw (y) (rw (remainings, p y) (Silent-none t es s))
  | inr n ↦ rw n (Silent-none t es s)
]

-- A column of this model makes its entries non-empty.
kept_one :
    (t k : Text) (v : JsonMap) (m : List (Text × JsonMap))
    → entry_for t (k, v) ≡ true
    → is_nil (map (λ e. e.1) (keep (entry_for t) (insert k v m))) ≡ false
unfolding insert
kept_one t k v [] h = rw h refl
kept_one t k v ((j, w) ∷ m) h =
    if_intro (λ r. is_nil (map (λ e. e.1) (keep (entry_for t) r)) ≡ false) (text_eq j k)
      (λ y. rw h refl)
      (λ n.
        if_intro (λ (r : List (Text × JsonMap)). is_nil (map (λ e. e.1) r) ≡ false)
          (entry_for t (j, w)) (λ y. refl) (λ d. kept_one t k v m h))

names_removed :
    (model other : Text) (ms : List Text)
    → names_model other (keep (λ m. not (text_eq (normalize_model_name m) model)) ms)
      ≡ (if text_eq model other then false else names_model other ms)
unfolding names_model
names_removed model other [] = ground arith
names_removed model other (m ∷ ms) = ground (
  arith,
  names_removed model other ms,
  text_eq_iff (normalize_model_name m) model,
  text_eq_iff (normalize_model_name m) other,
  text_eq_iff model other,
)

unknown_figures :
    (a : Account) (model : Text)
    → normalize_model_name model ≡ model
    → is_nil model ≡ false
    → remainings (quota_entries_for_model a model) ≡ []
    → (is_nil a.quota ≡ false → is_nil (quota_entries_for_model a model) ≡ false)
    → snapshot_availability a model ≡ Availability.unknown
unfolding snapshot_availability
unknown_figures a model e n r f = rw (snapshot_availability, r) (ground arith)

entries_of :
    (a : Account) (model : Text)
    → normalize_model_name model ≡ model
    → is_nil model ≡ false
    → quota_entries_for_model a model ≡ map (λ e. e.1) (keep (entry_for model) a.quota)
unfolding quota_entries_for_model
entries_of a model e n = rw (quota_entries_for_model, e, n) refl

availability_of :
    (a : Account) (model : Text)
    → normalize_model_name model ≡ model
    → is_nil model ≡ false
    → names_model model a.exhausted_models ≡ false
    → snapshot_availability a model ≡ Availability.unknown
    → model_availability a model ≡ (
        if names_model model a.disabled_models then Availability.disabled else Availability.unknown)
unfolding model_availability
availability_of a model e n m s = rw (model_availability, e, n, m, s) refl

abbrev column : Text → JsonMap
column model = (codes "model", str model) ∷ []

column-Unknown : (model : Text) → Unknown (column model)
unfolding quota_number lookup text_eq
column-Unknown model = refl

-- The column that is added is for this model.
new_column :
    (model : Text)
    → normalize_model_name model ≡ model
    → entry_for model (model, column model) ≡ true
unfolding entry_for entry_model string_at lookup text_eq
new_column model e =
    if_intro (λ m. text_eq (normalize_model_name m) model ≡ true) (is_nil model)
      (λ y. rw e (text_eq_refl model)) (λ n. rw e (text_eq_refl model))

-- Figures of this model: none. Columns of this model: some, where there are columns.
abbrev Restocked : Text → List (Text × JsonMap) → Type 0
Restocked t m =
    Silent t m × (is_nil m ≡ false → is_nil (map (λ e. e.1) (keep (entry_for t) m)) ≡ false)

restored_quota-Restocked :
    (model : Text) (a : Account)
    → normalize_model_name model ≡ model
    → is_nil model ≡ false
    → Restocked model (restored_quota model a)
unfolding restored_quota
restored_quota-Restocked model a e n =
    let quota = map (forget_figures model) a.quota in
    let entries = entries_of (record a { quota = quota }) model e n in
    let silent = Silent-forget model a.quota in
    if_intro (Restocked model)
      (not (is_nil quota) && is_nil (quota_entries_for_model (record a { quota = quota }) model))
      (λ y. (
        Silent-insert model model (column model) quota (column-Unknown model) silent,
        λ h. kept_one model model (column model) quota (new_column model e),
      ))
      (λ y. (silent, λ h. ground (arith, entries)))

-- What the change of status keeps.
abbrev SameMarks : Account → Account → Type 0
SameMarks b c =
    (c.exhausted_models ≡ b.exhausted_models)
    × (c.disabled_models ≡ b.disabled_models)
    × (c.quota ≡ b.quota)

abbrev unmarked : Text → Account → Account
unmarked model a = record a {
  exhausted_models = keep (λ m. not (text_eq (normalize_model_name m) model)) a.exhausted_models;
  quota = restored_quota model a;
}

restored_marks : (model : Text) (a : Account) → SameMarks (unmarked model a) (restore_model model a)
unfolding restore_model
restored_marks model a =
    if_intro (SameMarks (unmarked model a)) (is_exhausted a.status || is_cooling a.status)
      (λ y. (refl, refl, refl)) (λ n. (refl, refl, refl))

-- Restoring a model leaves it unknown, unless an administrator has disabled it: nothing is made up
-- about what remains. The marks of every other model stay.
pub restore_model_lem :
    (model : Text) (a : Account)
    → normalize_model_name model ≡ model
    → is_nil model ≡ false
    → let b = restore_model model a in
      (model_availability b model ≡ (
        if names_model model a.disabled_models
        then Availability.disabled
        else Availability.unknown))
      × ((other : Text)
          → text_eq model other ≡ false
          → names_model other b.exhausted_models ≡ names_model other a.exhausted_models)
restore_model_lem model a e n =
    let b = restore_model model a in
    let (x, d, q) = restored_marks model a in
    let (silent, some_) = restored_quota-Restocked model a e n in
    let entries = entries_of b model e n in
    let figures : remainings (quota_entries_for_model b model) ≡ [] =
      rw (entries, q) (Silent-none model (restored_quota model a) silent) in
    let columns : is_nil b.quota ≡ false → is_nil (quota_entries_for_model b model) ≡ false =
      rw (entries, q) some_ in
    (
      availability_of b model e n
            (rw x (names_removed model model a.exhausted_models ∙ rw (text_eq_refl model) refl))
            (unknown_figures b model e n figures columns)
          ∙ ap (λ ms. if names_model model ms then Availability.disabled else Availability.unknown)
              d,
      λ other o. rw x (names_removed model other a.exhausted_models ∙ rw o refl),
    )
