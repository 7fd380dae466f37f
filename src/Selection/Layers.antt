-- ===== src/Selection/Layers.antt =====
-- The layers of `selectAccount`: each one only drops accounts, and drops all of them only where
-- there were none. The model layer alone may leave nothing.
use zcode2api_plus.Common.{
  ◌≡◌, refl, sym, ◌∙◌, Bool, true, false, List, [], ◌∷◌, arith, inl, inr, In, In-keep_inv, keep,
  is_nil, Bool-cases, not, subst, length, ltb, ◌&&◌,
}
use zcode2api_plus.Account.{Account}
use zcode2api_plus.Selection.{
  View, Query, narrow, truncate_layer, expiry_layer, promo_layer, has_promo_quota, best_rank,
  uplink_layer,
}

-- What is left comes from what there was, and is empty only with it.
pub record Narrows (xs ys : List Account) : Type 0 where
  pub within : (a : Account) → In a ys → In a xs
  pub empties : is_nil ys ≡ is_nil xs

pub Narrows-refl : (xs : List Account) → Narrows xs xs
Narrows-refl xs = record { within = λ a m. m; empties = refl }

pub Narrows-trans : (xs ys zs : List Account) → Narrows xs ys → Narrows ys zs → Narrows xs zs
Narrows-trans xs ys zs f g = record {
  within = λ a m. f.within a (g.within a m);
  empties = g.empties ∙ f.empties;
}

pub nil_not : (a : Account) (xs : List Account) → In a xs → is_nil xs ≡ false
nil_not a [] m = absurd m
nil_not a (x ∷ xs) m = refl

pub Narrows-narrow : (p : Account → Bool) (xs : List Account) → Narrows xs (narrow p xs)
Narrows-narrow p xs = elim (Bool-cases (is_nil (keep p xs))) [
  | inl y ↦ rw y (Narrows-refl xs)
  | inr n ↦
      rw n record { within = λ a m. (In-keep_inv p a xs m).0; empties = n ∙ sym (filled xs n) }
]
  where
    filled : (ys : List Account) → is_nil (keep p ys) ≡ false → is_nil ys ≡ false
    filled [] h = h
    filled (y ∷ ys) h = refl

pub Narrows-truncate : (q : Query) (xs : List Account) → Narrows xs (truncate_layer q xs)
unfolding truncate_layer
Narrows-truncate q xs = elim (Bool-cases (ltb 1 (length xs))) [
  | inl y ↦ rw y (Narrows-narrow _ xs)
  | inr n ↦ rw n (Narrows-refl xs)
]

pub Narrows-expiry : (v : View) (q : Query) (xs : List Account) → Narrows xs (expiry_layer v q xs)
unfolding expiry_layer
Narrows-expiry v q xs = elim (Bool-cases (ltb 0 v.expire_first_days && not (is_nil q.model_name))) [
  | inl y ↦ rw y (Narrows-narrow _ xs)
  | inr n ↦ rw n (Narrows-refl xs)
]

complement :
    (p : Account → Bool) (xs : List Account)
    → is_nil (keep p xs) ≡ true
    → Narrows xs (keep (λ a. not (p a)) xs)
complement p [] h = Narrows-refl []
complement p (x ∷ xs) h = elim (Bool-cases (p x)) [
  | inl y ↦ absurd (ground arith)
  | inr n ↦ rw n record {
    within =
        λ a m. elim m [ inl e ↦ inl e | inr k ↦ inr ((complement p xs (rw n at h)).within a k) ];
    empties = refl;
  }
]

pub Narrows-promo : (xs : List Account) → Narrows xs (promo_layer xs)
unfolding promo_layer
Narrows-promo xs = elim (Bool-cases (is_nil (keep has_promo_quota xs))) [
  | inl y ↦ rw y (complement has_promo_quota xs y)
  | inr n ↦ rw n (subst (Narrows xs) (kept n) (Narrows-narrow has_promo_quota xs))
]
  where
    kept :
        is_nil (keep has_promo_quota xs) ≡ false
        → narrow has_promo_quota xs ≡ keep has_promo_quota xs
    kept n = rw n refl

pub Narrows-uplink : (v : View) (xs : List Account) → Narrows xs (uplink_layer v xs)
unfolding uplink_layer
Narrows-uplink v xs = elim (Bool-cases (v.uplink_band && not (is_nil v.uplink))) [
  | inr n ↦ rw n (Narrows-refl xs)
  | inl y ↦ elim (Bool-cases (ltb 0 (best_rank v xs))) [
    | inl z ↦ rw (y, z) (Narrows-narrow _ xs)
    | inr n ↦ rw (y, n) (Narrows-refl xs)
  ]
]
