-- ===== src/Line/Prune.antt =====
-- What holds of every entry of a map, through writes and through pruning.
use zcode2api_plus.Common.{
  ℕ, zero, suc, ◌≡◌, subst, Bool, not, List, [], ◌∷◌, some, Text, text_eq, leb, length, keep,
  lookup, insert, delete, arith, if_intro, inl, inr, Bool-cases,
}
use zcode2api_plus.Line.{sort_by, delete_first, prune_map}

module _ {V : Type 0} (P : V → Type 0) where
  abbrev pub Every : List (Text × V) → Type 0
  Every [] = Unit {0}
  Every ((k, v) ∷ m) = P v × Every m

  pub Every-lookup : (k : Text) (v : V) (m : List (Text × V)) → Every m → lookup k m ≡ some v → P v
  unfolding lookup
  Every-lookup k v [] e h = absurd (ground arith)
  Every-lookup k v ((j, w) ∷ m) (p, e) h = elim (Bool-cases (text_eq j k)) [
    | inl y ↦ subst P (ground arith) p
    | inr n ↦ Every-lookup k v m e (ground arith)
  ]

  pub Every-insert : (k : Text) (v : V) (m : List (Text × V)) → Every m → P v → Every (insert k v m)
  unfolding insert
  Every-insert k v [] e p = (p, tt)
  Every-insert k v ((j, w) ∷ m) (q, e) p =
      if_intro Every (text_eq j k) (λ y. (p, e)) (λ n. (q, Every-insert k v m e p))

  Every-delete : (k : Text) (m : List (Text × V)) → Every m → Every (delete k m)
  unfolding delete
  Every-delete k [] e = tt
  Every-delete k ((j, w) ∷ m) (q, e) =
      if_intro Every (text_eq j k) (λ y. Every-delete k m e) (λ n. (q, Every-delete k m e))

  Every-keep : (p : Text × V → Bool) (m : List (Text × V)) → Every m → Every (keep p m)
  Every-keep p [] e = tt
  Every-keep p ((j, w) ∷ m) (q, e) =
      if_intro Every (p (j, w)) (λ y. (q, Every-keep p m e)) (λ n. Every-keep p m e)

  Every-delete_first : (n : ℕ) (list m : List (Text × V)) → Every m → Every (delete_first n list m)
  unfolding delete_first
  Every-delete_first zero list m e = e
  Every-delete_first (suc n) [] m e = e
  Every-delete_first (suc n) ((k, v) ∷ list) m e =
      Every-delete_first n list (delete k m) (Every-delete k m e)

  pub Every-prune :
      (at : V → ℕ) (stale : V → Bool) (limit : ℕ) (m : List (Text × V))
      → Every m
      → Every (prune_map at stale limit m)
  unfolding prune_map
  Every-prune at stale limit m e =
      let k = Every-keep (λ x. not (stale x.1)) m e in
      if_intro Every (leb (length (keep (λ x. not (stale x.1)) m)) limit) (λ y. k)
        (λ n. Every-delete_first _ (sort_by at (keep (λ x. not (stale x.1)) m)) _ k)

pub Every-map :
    {V : Type 0} (P Q : V → Type 0) (m : List (Text × V))
    → ((v : V) → P v → Q v)
    → Every P m
    → Every Q m
Every-map P Q [] f e = tt
Every-map P Q ((k, v) ∷ m) f (p, e) = (f v p, Every-map P Q m f e)
