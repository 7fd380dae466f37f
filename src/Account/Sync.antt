-- ===== src/Account/Sync.antt =====
-- `SyncExhaustedModels`: the marks agree with the snapshot, in whatever order the map is walked.
use zcode2api_plus.Common.{
  ◌≡◌, refl, sym, ap, ◌∙◌, Bool, true, false, not, ◌&&◌, List, [], ◌∷◌, ◌++◌, map, none, some, Text,
  codes, text_eq, text_eq_iff, text_eq_refl, if◌then◌else◌, is_nil, any, keep, or_else, lookup,
  arith, inl, inr, Bool-cases, Option-cases, ℤ,
}
use mathlib.Core.List.{append_assoc, append-nil}
use zcode2api_plus.ModelName.{normalize_model_name}
use zcode2api_plus.ModelName.Normal.{normalize_idem}
use zcode2api_plus.Account.{Account, JsonMap}
use zcode2api_plus.Account.Quota.{
  Availability, quota_number, entry_model, entry_for, quota_entries_for_model, remainings, positive,
  snapshot_availability, names_model, model_availability, group_remaining, group_quota, used_up,
  sync_exhausted_models,
}

abbrev Groups : Type 0
Groups = List (Text × List ℤ)

-- The keys are normal forms and distinct, and no group is empty.
abbrev IsGrouped : Groups → Type 0
IsGrouped [] = Unit {0}
IsGrouped ((k, vs) ∷ gs) =
    (normalize_model_name k ≡ k) × (is_nil vs ≡ false) × (lookup k gs ≡ none) × IsGrouped gs

abbrev figures : Text → Groups → List ℤ
figures t gs = or_else (lookup t gs) []

lookup-group_remaining :
    (t m : Text) (v : ℤ) (gs : Groups)
    → lookup t (group_remaining m v gs)
      ≡ (if text_eq m t then some (figures m gs ++ v ∷ []) else lookup t gs)
unfolding lookup group_remaining
lookup-group_remaining t m v [] = refl
lookup-group_remaining t m v ((k, vs) ∷ gs) =
    ground
      (arith, text_eq_iff k m, text_eq_iff k t, text_eq_iff m t, lookup-group_remaining t m v gs)

is_nil-append : (vs : List ℤ) (v : ℤ) → is_nil (vs ++ v ∷ []) ≡ false
is_nil-append [] v = refl
is_nil-append (w ∷ vs) v = refl

group_remaining-IsGrouped :
    (m : Text) (v : ℤ) (gs : Groups)
    → normalize_model_name m ≡ m
    → IsGrouped gs
    → IsGrouped (group_remaining m v gs)
unfolding group_remaining lookup
group_remaining-IsGrouped m v [] e g = (e, refl, refl, tt)
group_remaining-IsGrouped m v ((k, vs) ∷ gs) e (c, n, l, g) = elim (Bool-cases (text_eq k m)) [
  | inl y ↦ rw y (c, is_nil-append vs v, l, g)
  | inr d ↦ rw d (c, n, fresh d, group_remaining-IsGrouped m v gs e g)
]
  where
    fresh : text_eq k m ≡ false → lookup k (group_remaining m v gs) ≡ none
    fresh d = ground (arith, lookup-group_remaining k m v gs, text_eq_iff k m, text_eq_iff m k, l)

group_quota_skip :
    (gs : Groups) (e : Text × JsonMap) (es : List (Text × JsonMap))
    → quota_number e.1 (codes "remaining") ≡ none
    → group_quota gs (e ∷ es) ≡ group_quota gs es
unfolding group_quota
group_quota_skip gs e es h = ground arith

group_quota_add :
    (gs : Groups) (e : Text × JsonMap) (es : List (Text × JsonMap)) {v : ℤ}
    → quota_number e.1 (codes "remaining") ≡ some v
    → group_quota gs (e ∷ es)
      ≡ group_quota (group_remaining (normalize_model_name (entry_model e)) v gs) es
unfolding group_quota
group_quota_add gs e es h = ground arith

group_quota-IsGrouped :
    (es : List (Text × JsonMap)) (gs : Groups) → IsGrouped gs → IsGrouped (group_quota gs es)
group_quota-IsGrouped [] gs g = unfold group_quota in g
group_quota-IsGrouped (e ∷ es) gs g = elim (Option-cases (quota_number e.1 (codes "remaining"))) [
  | inl n ↦ rw (group_quota_skip gs e es n) (group_quota-IsGrouped es gs g)
  | inr (v, s) ↦
      let m = normalize_model_name (entry_model e) in
      rw (group_quota_add gs e es s) (
        group_quota-IsGrouped es (group_remaining m v gs)
          (group_remaining-IsGrouped m v gs (normalize_idem (entry_model e)) g))
]

-- The columns for one normal form.
abbrev columns : Text → List (Text × JsonMap) → List JsonMap
columns t es = map (λ e. e.1) (keep (entry_for t) es)

remainings_skip :
    (q : JsonMap) (qs : List JsonMap)
    → quota_number q (codes "remaining") ≡ none
    → remainings (q ∷ qs) ≡ remainings qs
unfolding remainings
remainings_skip q qs h = ground arith

remainings_add :
    (q : JsonMap) (qs : List JsonMap) {v : ℤ}
    → quota_number q (codes "remaining") ≡ some v
    → remainings (q ∷ qs) ≡ v ∷ remainings qs
unfolding remainings
remainings_add q qs h = ground arith

columns_skip :
    (t : Text) (e : Text × JsonMap) (es : List (Text × JsonMap))
    → quota_number e.1 (codes "remaining") ≡ none
    → remainings (columns t (e ∷ es)) ≡ remainings (columns t es)
columns_skip t e es h = elim (Bool-cases (entry_for t e)) [
  | inl y ↦ rw y (remainings_skip e.1 (columns t es) h)
  | inr n ↦ rw n refl
]

figures_grow :
    (t m : Text) (v : ℤ) (gs : Groups) (rest : List ℤ)
    → figures t (group_remaining m v gs) ++ rest
      ≡ figures t gs ++ (if text_eq m t then v ∷ rest else rest)
figures_grow t m v gs rest = rw (lookup-group_remaining t m v gs) (elim (Bool-cases (text_eq m t)) [
  | inl y ↦ rw y (
      append_assoc (figures m gs) (v ∷ []) rest
      ∙ ap (λ k. figures k gs ++ v ∷ rest) ((text_eq_iff m t).0 y))
  | inr n ↦ rw n refl
])

columns_add :
    (t : Text) (e : Text × JsonMap) (es : List (Text × JsonMap)) {v : ℤ}
    → quota_number e.1 (codes "remaining") ≡ some v
    → remainings (columns t (e ∷ es)) ≡ (
        if text_eq (normalize_model_name (entry_model e)) t
        then v ∷ remainings (columns t es)
        else remainings (columns t es))
unfolding entry_for
columns_add t e es h = elim (Bool-cases (text_eq (normalize_model_name (entry_model e)) t)) [
  | inl y ↦ rw y (remainings_add e.1 (columns t es) h)
  | inr n ↦ rw n refl
]

figures-group_quota :
    (t : Text) (es : List (Text × JsonMap)) (gs : Groups)
    → figures t (group_quota gs es) ≡ figures t gs ++ remainings (columns t es)
figures-group_quota t [] gs = unfold group_quota remainings in sym (append-nil (figures t gs))
figures-group_quota t (e ∷ es) gs = elim (Option-cases (quota_number e.1 (codes "remaining"))) [
  | inl n ↦ rw (group_quota_skip gs e es n, columns_skip t e es n) (figures-group_quota t es gs)
  | inr (v, s) ↦
      let m = normalize_model_name (entry_model e) in
      rw (group_quota_add gs e es s, columns_add t e es s)
        (figures-group_quota t es (group_remaining m v gs)
          ∙ figures_grow t m v gs (remainings (columns t es)))
]

abbrev up : List ℤ → Bool
up vs = not (is_nil vs) && not (any positive vs)

names-used_up :
    (t : Text) (gs : Groups) → IsGrouped gs → names_model t (used_up gs) ≡ up (figures t gs)
unfolding names_model used_up lookup
names-used_up t [] g = refl
names-used_up t ((k, vs) ∷ gs) (c, n, l, g) =
    ground (arith, names-used_up t gs g, text_eq_iff k t, text_eq_refl t)

sync_names :
    (a : Account) (t : Text)
    → names_model t (sync_exhausted_models a).exhausted_models ≡ up (remainings (columns t a.quota))
unfolding sync_exhausted_models lookup
sync_names a t =
    names-used_up t (group_quota [] a.quota) (group_quota-IsGrouped a.quota [] tt)
    ∙ ap up (figures-group_quota t a.quota [])

entries_columns :
    (a : Account) (model : Text)
    → is_nil (normalize_model_name model) ≡ false
    → quota_entries_for_model a (normalize_model_name model)
      ≡ columns (normalize_model_name model) a.quota
unfolding quota_entries_for_model
entries_columns a model h = rw (normalize_idem model) (ground arith)

snapshot_kept :
    (a : Account) (t : Text)
    → snapshot_availability (sync_exhausted_models a) t ≡ snapshot_availability a t
unfolding snapshot_availability quota_entries_for_model sync_exhausted_models
snapshot_kept a t = refl

disabled_kept : (a : Account) → (sync_exhausted_models a).disabled_models ≡ a.disabled_models
unfolding sync_exhausted_models
disabled_kept a = refl

snapshot_up :
    (a : Account) (model : Text)
    → is_nil (normalize_model_name model) ≡ false
    → up (remainings (columns (normalize_model_name model) a.quota)) ≡ true
    → snapshot_availability a (normalize_model_name model) ≡ Availability.exhausted
unfolding snapshot_availability
snapshot_up a model n h = rw (entries_columns a model n) (ground arith)

-- After the marks are synchronised, a model whose normal form is not empty shows what the snapshot alone says of it, unless an
-- administrator has disabled it: no old mark outlives a snapshot with quota left, and used-up
-- quota is marked.
pub sync_exhausted_models_availability :
    (a : Account) (model : Text)
    → is_nil (normalize_model_name model) ≡ false
    → model_availability (sync_exhausted_models a) model ≡ (
        if names_model (normalize_model_name model) a.disabled_models
        then Availability.disabled
        else snapshot_availability a (normalize_model_name model))
unfolding model_availability
sync_exhausted_models_availability a model h =
    let t = normalize_model_name model in
    ground (arith, sync_names a t, snapshot_kept a t, disabled_kept a, snapshot_up a model h)
