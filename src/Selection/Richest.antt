-- ===== src/Selection/Richest.antt =====
-- The quota layer keeps the accounts with the most left, and the layers together.
use zcode2api_plus.Common.{
  ◌≡◌, refl, ap, false, List, [], ◌∷◌, ◌++◌, Text, ℤ, ltb_ℤ, ◌≤ℤ◌, arith, inl, inr, ◌⊎◌, In,
  In-append_cases, is_nil, if◌then◌else◌, Bool-cases, eq_of_parts,
}
use zcode2api_plus.Account.{Account}
use zcode2api_plus.Selection.{
  View, Query, score, top_from, quota_layer, candidates, model_layer, truncate_layer, expiry_layer,
  promo_layer, uplink_layer,
}
use zcode2api_plus.Selection.Layers.{
  Narrows, Narrows-trans, Narrows-truncate, Narrows-expiry, Narrows-promo, Narrows-uplink,
}

-- The figure that the loop has kept so far belongs to each account that it has kept.
abbrev AllScore : Text → ℤ → List Account → Type 0
AllScore model best [] = Unit {0}
AllScore model best (a ∷ xs) = (score model a ≡ best) × AllScore model best xs

AllScore-at :
    (model : Text) (best : ℤ) (a : Account) (xs : List Account)
    → AllScore model best xs
    → In a xs
    → score model a ≡ best
AllScore-at model best a [] h m = absurd m
AllScore-at model best a (x ∷ xs) h (inl e) = rw e h.0
AllScore-at model best a (x ∷ xs) h (inr m) = AllScore-at model best a xs h.1 m

AllScore-append :
    (model : Text) (best : ℤ) (xs : List Account) (a : Account)
    → AllScore model best xs
    → score model a ≡ best
    → AllScore model best (xs ++ a ∷ [])
AllScore-append model best [] a h e = (e, tt)
AllScore-append model best (x ∷ xs) a h e = (h.0, AllScore-append model best xs a h.1 e)

-- What the loop leaves, from a start and the rest of the pool.
record Best (model : Text) (best : ℤ) (top xs ys : List Account) : Type 0 where
  from : (a : Account) → In a ys → In a top ⊎ In a xs
  start : (a : Account) → In a ys → best ≤ℤ score model a
  above : (a b : Account) → In a ys → In b xs → score model b ≤ℤ score model a
  filled : is_nil ys ≡ false

-- One turn of the loop.
record Turn (model : Text) (best best' : ℤ) (top top' : List Account) (x : Account) : Type 0 where
  scores : AllScore model best' top'
  grows : best ≤ℤ best'
  covers : score model x ≤ℤ best'
  source : (a : Account) → In a top' → In a top ⊎ (a ≡ x)
  some_left : is_nil top' ≡ false

Best-cons :
    (model : Text) (best best' : ℤ) (top top' xs ys : List Account) (x : Account)
    → Turn model best best' top top' x
    → Best model best' top' xs ys
    → Best model best top (x ∷ xs) ys
Best-cons model best best' top top' xs ys x t r = record {
  from = λ a m. elim (r.from a m) [
    | inr k ↦ inr (inr k)
    | inl k ↦ elim (t.source a k) [ inl l ↦ inl l | inr e ↦ inr (inl e) ]
  ];
  start = λ a m. let u = t.grows in let w = r.start a m in omega arith;
  above = λ a b m k. elim k [
    | inr l ↦ r.above a b m l
    | inl e ↦
        let same : score model b ≡ score model x = ap (score model) e in
        let u = t.covers in let w = r.start a m in rw same (omega arith)
  ];
  filled = r.filled;
}

append_filled : (xs : List Account) (a : Account) → is_nil (xs ++ a ∷ []) ≡ false
append_filled [] a = refl
append_filled (x ∷ xs) a = refl

turn :
    (model : Text) (best : ℤ) (top : List Account) (x : Account)
    → AllScore model best top
    → is_nil top ≡ false
    → let v = score model x in
      let rises = ltb_ℤ best v in
      Turn model best
        (if rises then v else best)
        top
        (if rises then x ∷ [] else if ltb_ℤ v best then top else top ++ x ∷ [])
        x
turn model best top x h n = elim (Bool-cases (ltb_ℤ best (score model x))) [
  | inl y ↦ rw y record {
    scores = (refl, tt);
    grows = ground arith;
    covers = omega arith;
    source = λ a m. elim m [ inl e ↦ inr e | inr k ↦ absurd k ];
    some_left = refl;
  }
  | inr d ↦ elim (Bool-cases (ltb_ℤ (score model x) best)) [
    | inl z ↦
        rw (d, z)
          record {
            scores = h;
            grows = omega arith;
            covers = ground arith;
            source = λ a m. inl m;
            some_left = n;
          }
    | inr z ↦
        rw (d, z)
          record {
            scores =
                AllScore-append model best top x h
                  (eq_of_parts (score model x) best (ground arith));
            grows = omega arith;
            covers = ground arith;
            source = λ a m. elim (In-append_cases a top (x ∷ []) m) [
              | inl k ↦ inl k
              | inr k ↦ elim k [ inl e ↦ inr e | inr l ↦ absurd l ]
            ];
            some_left = append_filled top x;
          }
  ]
]

top_from-Best :
    (model : Text) (xs : List Account) (best : ℤ) (top : List Account)
    → AllScore model best top
    → is_nil top ≡ false
    → Best model best top xs (top_from model best top xs)
unfolding top_from
top_from-Best model [] best top h n = record {
  from = λ a m. inl m;
  start = λ a m. rw (AllScore-at model best a top h m) (omega arith);
  above = λ a b m k. absurd k;
  filled = n;
}
top_from-Best model (x ∷ xs) best top h n =
    let t = turn model best top x h n in
    Best-cons model best _ top _ xs _ x t (top_from-Best model xs _ _ t.scores t.some_left)

pub Narrows-quota : (model : Text) (xs : List Account) → Narrows xs (quota_layer model xs)
unfolding quota_layer
Narrows-quota model [] = record { within = λ a m. m; empties = refl }
Narrows-quota model (x ∷ xs) =
    let r = top_from-Best model xs (score model x) (x ∷ []) (refl, tt) refl in
    record {
      within = λ a m. elim (r.from a m) [
        | inr k ↦ inr k
        | inl k ↦ elim k [ inl e ↦ inl e | inr l ↦ absurd l ]
      ];
      empties = r.filled;
    }

-- No account of the pool has more quota left for the model than one that the layer keeps.
pub quota_layer_richest :
    (model : Text) (xs : List Account) (a b : Account)
    → In a (quota_layer model xs)
    → In b xs
    → score model b ≤ℤ score model a
unfolding quota_layer
quota_layer_richest model [] a b m k = absurd k
quota_layer_richest model (x ∷ xs) a b m (inl e) =
    rw e ((top_from-Best model xs (score model x) (x ∷ []) (refl, tt) refl).start a m)
quota_layer_richest model (x ∷ xs) a b m (inr k) =
    (top_from-Best model xs (score model x) (x ∷ []) (refl, tt) refl).above a b m k

-- The layers below the model layer drop accounts, but never all of them.
pub Narrows-candidates :
    (v : View) (q : Query) (xs : List Account) → Narrows (model_layer v q xs) (candidates v q xs)
unfolding candidates
Narrows-candidates v q xs =
    let a = model_layer v q xs in
    let b = truncate_layer q a in
    let c = expiry_layer v q b in
    let d = promo_layer c in
    let e = uplink_layer v d in
    Narrows-trans a e _
      (Narrows-trans a d e
        (Narrows-trans a c d (Narrows-trans a b c (Narrows-truncate q a) (Narrows-expiry v q b))
          (Narrows-promo c))
        (Narrows-uplink v d))
      (Narrows-quota q.model_name e)
