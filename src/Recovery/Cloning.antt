-- ===== src/Recovery/Cloning.antt =====
-- Maps of maps, and what the clone of the recovery states holds.
use zcode2api_plus.Common.{
  ◌≡◌, ◌⊎◌, inl, inr, refl, sym, ap, ◌∙◌, true, false, ◌&&◌, List, [], ◌∷◌, Option, none, some,
  Text, text_eq, text_eq_iff, if◌then◌else◌, In, In-append_left, In-append_right, or_else, lookup,
  insert, lookup-insert, arith, if_intro, Bool-cases, Option-cases,
}
use zcode2api_plus.ModelName.{normalize_model_name}
use zcode2api_plus.Account.{Account, is_api_key}
use zcode2api_plus.Account.Quota.{names_model}
use zcode2api_plus.Table.{Accounts, accounts_of}
use zcode2api_plus.Recovery.{
  RetryState, Recoveries, Recovery, lookup2, insert2, kept_models, clone_accounts, all_accounts,
  clone_recovery,
}

within :
    {V : Type 0} (n k : Text) (v : V) (o : Option (List (Text × V)))
    → lookup n (insert k v (or_else o []))
      ≡ (if text_eq k n then some v else lookup n (or_else o []))
within n k v o = lookup-insert k n v (or_else o [])

pub lookup2-insert2 :
    {V : Type 0} (i n j k : Text) (v : V) (m : List (Text × List (Text × V)))
    → lookup2 i n (insert2 j k v m) ≡ (if text_eq j i && text_eq k n then some v else lookup2 i n m)
unfolding lookup2 insert2
lookup2-insert2 i n j k v m =
    let e = lookup-insert j i (insert k v (or_else (lookup j m) [])) m in
    ap (λ o. lookup n (or_else o [])) e ∙ elim (Bool-cases (text_eq j i)) [
      | inl y ↦ rw y (within n k v (lookup j m) ∙ rw ((text_eq_iff j i).0 y) refl)
      | inr d ↦ rw d refl
    ]

pub kept_models_sound :
    (id i n : Text) (v : RetryState) (recovery : Recoveries) (ms : List Text) (next : Recoveries)
    → (lookup2 i n next ≡ some v → lookup2 i n recovery ≡ some v)
    → lookup2 i n (kept_models id recovery ms next) ≡ some v
    → lookup2 i n recovery ≡ some v
unfolding kept_models
kept_models_sound id i n v recovery [] next f h = f h
kept_models_sound id i n v recovery (m ∷ ms) next f h =
    let name = normalize_model_name m in
    let rest = kept_models id recovery ms next in
    elim (Option-cases (lookup2 id name recovery)) [
      | inl e ↦ kept_models_sound id i n v recovery ms next f (rw (kept_models, e) at h)
      | inr (st, e) ↦
          let k : lookup2 i n (insert2 id name st rest) ≡ some v = rw (kept_models, e) at h in
          let l = lookup2-insert2 i n id name st rest in
          elim (Bool-cases (text_eq id i && text_eq name n)) [
            | inl y ↦ ground (arith, text_eq_iff id i, text_eq_iff name n)
            | inr d ↦ kept_models_sound id i n v recovery ms next f (ground arith)
          ]
    ]

-- An entry that was there, or whose model is marked, is in the result.
pub kept_models_keeps :
    (id i n : Text) (v : RetryState) (recovery : Recoveries) (ms : List Text) (next : Recoveries)
    → lookup2 i n recovery ≡ some v
    → (lookup2 i n next ≡ some v) ⊎ ((id ≡ i) × (names_model n ms ≡ true))
    → lookup2 i n (kept_models id recovery ms next) ≡ some v
unfolding kept_models names_model
kept_models_keeps id i n v recovery [] next h (inl e) = e
kept_models_keeps id i n v recovery [] next h (inr (a, b)) = absurd (ground arith)
kept_models_keeps id i n v recovery (m ∷ ms) next h c =
    let name = normalize_model_name m in
    let rest = kept_models id recovery ms next in
    elim (Option-cases (lookup2 id name recovery)) [
      | inl e ↦ rw (kept_models, e) (kept_models_keeps id i n v recovery ms next h (skip e c))
      | inr (st, e) ↦
          rw (kept_models, e)
            (lookup2-insert2 i n id name st rest
              ∙ elim (Bool-cases (text_eq id i && text_eq name n)) [
                | inl y ↦ ground (arith, text_eq_iff id i, text_eq_iff name n)
                | inr d ↦ rw d (kept_models_keeps id i n v recovery ms next h (other d c))
              ])
    ]
  where
    skip :
        lookup2 id (normalize_model_name m) recovery ≡ none
        → (lookup2 i n next ≡ some v) ⊎ ((id ≡ i) × (names_model n (m ∷ ms) ≡ true))
        → (lookup2 i n next ≡ some v) ⊎ ((id ≡ i) × (names_model n ms ≡ true))
    skip e (inl l) = inl l
    skip e (inr (a, b)) = inr (a, ground (arith, text_eq_iff (normalize_model_name m) n))

    other :
        (text_eq id i && text_eq (normalize_model_name m) n) ≡ false
        → (lookup2 i n next ≡ some v) ⊎ ((id ≡ i) × (names_model n (m ∷ ms) ≡ true))
        → (lookup2 i n next ≡ some v) ⊎ ((id ≡ i) × (names_model n ms ≡ true))
    other d (inl l) = inl l
    other d (inr (a, b)) = inr (a, ground (arith, text_eq_iff id i))

-- What the clone keeps: the state of a model that is marked on an API key account.
clone_accounts_keeps :
    (a : Account) (n : Text) (v : RetryState) (recovery : Recoveries) (xs : List Account)
    → In a xs
    → is_api_key a.mode ≡ true
    → names_model n a.exhausted_models ≡ true
    → lookup2 a.id n recovery ≡ some v
    → lookup2 a.id n (clone_accounts recovery xs) ≡ some v
unfolding clone_accounts
clone_accounts_keeps a n v recovery [] m k t h = absurd m
clone_accounts_keeps a n v recovery (x ∷ xs) (inl e) k t h =
    rw (ap (λ y. is_api_key y.mode) (sym e) ∙ k) (
      kept_models_keeps x.id a.id n v recovery x.exhausted_models (clone_accounts recovery xs) h
        (inr (ap (λ y. y.id) (sym e), rw (sym e) t)))
clone_accounts_keeps a n v recovery (x ∷ xs) (inr m) k t h =
    let rest = clone_accounts_keeps a n v recovery xs m k t h in
    if_intro (λ (r : Recoveries). lookup2 a.id n r ≡ some v) (is_api_key x.mode)
      (λ y.
        kept_models_keeps x.id a.id n v recovery x.exhausted_models (clone_accounts recovery xs) h
          (inl rest))
      (λ y. rest)

accounts_In :
    (a : Account) (provider : Text) (s : Accounts)
    → In a (accounts_of s provider)
    → In a (all_accounts s)
unfolding lookup
accounts_In a provider [] m = absurd m
accounts_In a provider ((p, xs) ∷ s) m = elim (Bool-cases (text_eq p provider)) [
  | inl y ↦ In-append_left a xs (all_accounts s) (rw y at m)
  | inr d ↦ In-append_right a xs (all_accounts s) (accounts_In a provider s (rw d at m))
]

pub clone_recovery_keeps :
    (a : Account) (provider n : Text) (v : RetryState) (s : Recovery)
    → In a (accounts_of s.accounts provider)
    → is_api_key a.mode ≡ true
    → names_model n a.exhausted_models ≡ true
    → lookup2 a.id n s.recovery ≡ some v
    → lookup2 a.id n (clone_recovery s) ≡ some v
unfolding clone_recovery
clone_recovery_keeps a provider n v s m k t h =
    clone_accounts_keeps a n v s.recovery (all_accounts s.accounts)
      (accounts_In a provider s.accounts m) k t h
