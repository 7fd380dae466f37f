-- ===== src/Line/Sorting.antt =====
-- `sort.Slice` by the last activity keeps the entries of a map.
use zcode2api_plus.Common.{
  ℕ, suc, ◌≡◌, refl, ap, ◌∙◌, false, List, [], ◌∷◌, none, some, Text, text_eq, text_eq_iff, ltb,
  if◌then◌else◌, length, IsDistinct, lookup, arith, if_intro, inl, inr, Bool-cases,
}
use zcode2api_plus.Line.{insert_by, sort_by}

pub absent :
    {V : Type 0} (k i : Text) (w : V) (l : List (Text × V))
    → lookup k ((i, w) ∷ l) ≡ none
    → (text_eq i k ≡ false) × (lookup k l ≡ none)
unfolding lookup
absent k i w l h = elim (Bool-cases (text_eq i k)) [
  | inl y ↦ absurd (ground arith)
  | inr n ↦ (n, ground arith)
]

module _ {V : Type 0} (at : V → ℕ) where
  pub lookup-insert_by :
      (j k : Text) (v : V) (l : List (Text × V))
      → lookup k l ≡ none
      → lookup j (insert_by at (k, v) l) ≡ (if text_eq k j then some v else lookup j l)
  unfolding insert_by lookup
  lookup-insert_by j k v [] h = refl
  lookup-insert_by j k v ((i, w) ∷ l) h =
      ground (arith, text_eq_iff i k, text_eq_iff k j, text_eq_iff i j, lookup-insert_by j k v l)

  length-insert_by :
      (e : Text × V) (l : List (Text × V)) → length (insert_by at e l) ≡ suc (length l)
  unfolding insert_by
  length-insert_by e [] = refl
  length-insert_by e (f ∷ l) =
      if_intro (λ (r : List (Text × V)). length r ≡ suc (suc (length l))) (ltb (at e.1) (at f.1))
        (λ y. refl) (λ n. ap suc (length-insert_by e l))

  IsDistinct-insert_by :
      (k : Text) (v : V) (l : List (Text × V))
      → lookup k l ≡ none
      → IsDistinct l
      → IsDistinct (insert_by at (k, v) l)
  unfolding insert_by
  IsDistinct-insert_by k v [] h d = (h, tt)
  IsDistinct-insert_by k v ((i, w) ∷ l) h (n, d) =
      let (other, m) = absent k i w l h in
      if_intro IsDistinct (ltb (at v) (at w)) (λ y. (h, (n, d)))
        (λ y. (fresh other m, IsDistinct-insert_by k v l m d))
    where
      fresh : text_eq i k ≡ false → lookup k l ≡ none → lookup i (insert_by at (k, v) l) ≡ none
      fresh o m = ground (arith, lookup-insert_by i k v l, text_eq_iff i k, text_eq_iff k i, n)

  pub lookup-sort_by :
      (j : Text) (m : List (Text × V)) → IsDistinct m → lookup j (sort_by at m) ≡ lookup j m
  unfolding sort_by lookup
  lookup-sort_by j [] d = refl
  lookup-sort_by j ((k, v) ∷ m) (n, d) =
      ground (
        arith,
        lookup-insert_by j k v (sort_by at m),
        lookup-sort_by j m d,
        lookup-sort_by k m d,
        n,
      )

  pub IsDistinct-sort_by : (m : List (Text × V)) → IsDistinct m → IsDistinct (sort_by at m)
  unfolding sort_by
  IsDistinct-sort_by [] d = tt
  IsDistinct-sort_by ((k, v) ∷ m) (n, d) =
      IsDistinct-insert_by k v (sort_by at m) (lookup-sort_by k m d ∙ n) (IsDistinct-sort_by m d)

  pub length-sort_by : (m : List (Text × V)) → length (sort_by at m) ≡ length m
  unfolding sort_by
  length-sort_by [] = refl
  length-sort_by (e ∷ m) = length-insert_by e (sort_by at m) ∙ ap suc (length-sort_by m)
