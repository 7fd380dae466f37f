-- ===== src/Line/Oldest.antt =====
-- Pruning leaves no more entries than the limit.
use zcode2api_plus.Common.{
  ℕ, zero, suc, ◌+◌, ◌-◌, ◌≤◌, ◌<◌, ◌≡◌, refl, sym, ap, ◌∙◌, Bool, true, false, not, List, [], ◌∷◌,
  none, some, Text, text_eq, text_eq_iff, text_eq_refl, leb, length, keep, IsDistinct, lookup,
  insert, delete, lookup-insert, lookup-delete, text_eq_symm, is_some, arith, if_intro, inl, inr,
  Option-cases,
}
use zcode2api_plus.Line.{sort_by, delete_first, prune_map}
use zcode2api_plus.Line.Sorting.{absent, lookup-sort_by, IsDistinct-sort_by, length-sort_by}

module _ {V : Type 0} (at : V → ℕ) where
  IsDistinct-delete : (k : Text) (m : List (Text × V)) → IsDistinct m → IsDistinct (delete k m)
  unfolding delete
  IsDistinct-delete k [] d = tt
  IsDistinct-delete k ((j, w) ∷ m) (n, d) =
      if_intro IsDistinct (text_eq j k) (λ y. IsDistinct-delete k m d)
        (λ y. (gone, IsDistinct-delete k m d))
    where
      gone : lookup j (delete k m) ≡ none
      gone = ground (arith, lookup-delete k j m, n)

  delete_le : (k : Text) (m : List (Text × V)) → length (delete k m) ≤ length m
  unfolding delete
  delete_le k [] = omega arith
  delete_le k ((j, w) ∷ m) = ground (arith, delete_le k m)

  delete_lt :
      (k : Text) (v : V) (m : List (Text × V))
      → lookup k m ≡ some v
      → length (delete k m) < length m
  unfolding delete lookup
  delete_lt k v [] h = absurd (ground arith)
  delete_lt k v ((j, w) ∷ m) h = ground (arith, delete_le k m, delete_lt k v m)

  -- Every key of the list is a key of the map.
  abbrev Found : List (Text × V) → List (Text × V) → Type 0
  Found [] m = Unit {0}
  Found ((k, v) ∷ l) m = (is_some (lookup k m) ≡ true) × Found l m

  Found-delete :
      (k : Text) (l m : List (Text × V)) → lookup k l ≡ none → Found l m → Found l (delete k m)
  Found-delete k [] m n f = tt
  Found-delete k ((i, w) ∷ l) m n (h, f) =
      let (o, r) = absent k i w l n in
      (
        ground (arith, lookup-delete k i m, text_eq_iff k i, text_eq_iff i k),
        Found-delete k l m r f,
      )

  delete_first_le :
      (n : ℕ) (l m : List (Text × V))
      → n ≤ length l
      → IsDistinct l
      → Found l m
      → length (delete_first n l m) + n ≤ length m
  unfolding delete_first
  delete_first_le zero l m h d f = omega arith
  delete_first_le (suc n) [] m h d f = absurd (omega arith)
  delete_first_le (suc n) ((k, v) ∷ l) m h (a, d) (b, f) =
      let rest = delete_first_le n l (delete k m) (omega arith) d (Found-delete k l m a f) in
      elim (Option-cases (lookup k m)) [
        | inl e ↦ absurd (ground arith)
        | inr (u, e) ↦ omega (arith, rest, delete_lt k u m e)
      ]

  Found-weaken :
      (l m n : List (Text × V))
      → ((k : Text) → is_some (lookup k m) ≡ true → is_some (lookup k n) ≡ true)
      → Found l m
      → Found l n
  Found-weaken [] m n g f = tt
  Found-weaken ((k, v) ∷ l) m n g (h, f) = (g k h, Found-weaken l m n g f)

  Found-cons : (l m : List (Text × V)) (k : Text) (v : V) → Found l m → Found l ((k, v) ∷ m)
  unfolding lookup
  Found-cons [] m k v f = tt
  Found-cons ((i, w) ∷ l) m k v (h, f) = (ground arith, Found-cons l m k v f)

  Found-refl : (m : List (Text × V)) → Found m m
  unfolding lookup
  Found-refl [] = tt
  Found-refl ((k, v) ∷ m) = (rw (text_eq_refl k) refl, Found-cons m m k v (Found-refl m))

  Found-sorted : (m : List (Text × V)) → IsDistinct m → Found (sort_by at m) m
  Found-sorted m d =
      Found-weaken (sort_by at m) (sort_by at m) m
        (λ k h. ap is_some (sym (lookup-sort_by at k m d)) ∙ h) (Found-refl (sort_by at m))

  absent-keep :
      (p : Text × V → Bool) (k : Text) (m : List (Text × V))
      → lookup k m ≡ none
      → lookup k (keep p m) ≡ none
  unfolding lookup
  absent-keep p k [] h = refl
  absent-keep p k ((j, w) ∷ m) h = ground (arith, absent-keep p k m)

  IsDistinct-keep :
      (p : Text × V → Bool) (m : List (Text × V)) → IsDistinct m → IsDistinct (keep p m)
  IsDistinct-keep p [] d = tt
  IsDistinct-keep p ((j, w) ∷ m) (n, d) =
      if_intro IsDistinct (p (j, w)) (λ y. (absent-keep p j m n, IsDistinct-keep p m d))
        (λ y. IsDistinct-keep p m d)

  -- Pruning a map leaves at most as many entries as its limit says.
  pub prune_map_le :
      (stale : V → Bool) (limit : ℕ) (m : List (Text × V))
      → IsDistinct m
      → length (prune_map at stale limit m) ≤ limit
  unfolding prune_map
  prune_map_le stale limit m d =
      let kept = keep (λ e. not (stale e.1)) m in
      let k = IsDistinct-keep (λ e. not (stale e.1)) m d in
      if_intro (λ (r : List (Text × V)). length r ≤ limit) (leb (length kept) limit)
        (λ y. ground arith)
        (λ n.
          let b =
            delete_first_le (length kept - limit) (sort_by at kept) kept
              (omega (arith, length-sort_by at kept)) (IsDistinct-sort_by at kept k)
              (Found-sorted kept k) in
          omega (arith, b, n_lt kept n))
    where
      n_lt : (l : List (Text × V)) → leb (length l) limit ≡ false → limit < length l
      n_lt l h = ground arith

  IsDistinct-delete_first :
      (n : ℕ) (l m : List (Text × V)) → IsDistinct m → IsDistinct (delete_first n l m)
  unfolding delete_first
  IsDistinct-delete_first zero l m d = d
  IsDistinct-delete_first (suc n) [] m d = d
  IsDistinct-delete_first (suc n) ((k, v) ∷ l) m d =
      IsDistinct-delete_first n l (delete k m) (IsDistinct-delete k m d)

  -- Pruning leaves every key once.
  pub IsDistinct-prune :
      (stale : V → Bool) (limit : ℕ) (m : List (Text × V))
      → IsDistinct m
      → IsDistinct (prune_map at stale limit m)
  unfolding prune_map
  IsDistinct-prune stale limit m d =
      let kept = keep (λ e. not (stale e.1)) m in
      let k = IsDistinct-keep (λ e. not (stale e.1)) m d in
      if_intro IsDistinct (leb (length kept) limit) (λ y. k)
        (λ n. IsDistinct-delete_first (length kept - limit) (sort_by at kept) kept k)

  keep_found :
      (p : Text × V → Bool) (k : Text) (v : V) (m : List (Text × V))
      → IsDistinct m
      → lookup k (keep p m) ≡ some v
      → lookup k m ≡ some v
  unfolding lookup
  keep_found p k v [] d h = h
  keep_found p k v ((j, w) ∷ m) (n, d) h =
      ground (arith, keep_found p k v m d, absent-keep p k m, text_eq_iff j k)

  delete_first_found :
      (n : ℕ) (l : List (Text × V)) (k : Text) (v : V) (m : List (Text × V))
      → lookup k (delete_first n l m) ≡ some v
      → lookup k m ≡ some v
  unfolding delete_first
  delete_first_found zero l k v m h = h
  delete_first_found (suc n) [] k v m h = h
  delete_first_found (suc n) ((i, w) ∷ l) k v m h =
      ground (arith, delete_first_found n l k v (delete i m) h, lookup-delete i k m)

  -- Pruning changes no entry that it leaves.
  pub prune_found :
      (stale : V → Bool) (limit : ℕ) (k : Text) (v : V) (m : List (Text × V))
      → IsDistinct m
      → lookup k (prune_map at stale limit m) ≡ some v
      → lookup k m ≡ some v
  unfolding prune_map
  prune_found stale limit k v m d =
      let kept = keep (λ e. not (stale e.1)) m in
      if_intro (λ (r : List (Text × V)). lookup k r ≡ some v → lookup k m ≡ some v)
        (leb (length kept) limit) (λ y h. keep_found (λ e. not (stale e.1)) k v m d h)
        (λ n h.
          keep_found (λ e. not (stale e.1)) k v m d
            (delete_first_found (length kept - limit) (sort_by at kept) k v kept h))

absent-insert :
    {V : Type 0} (i k : Text) (v : V) (m : List (Text × V))
    → text_eq k i ≡ false
    → lookup i m ≡ none
    → lookup i (insert k v m) ≡ none
absent-insert i k v m h n = ground (arith, lookup-insert k i v m)

pub IsDistinct-insert :
    {V : Type 0} (k : Text) (v : V) (m : List (Text × V)) → IsDistinct m → IsDistinct (insert k v m)
unfolding insert
IsDistinct-insert k v [] d = (unfold lookup in refl, tt)
IsDistinct-insert k v ((j, w) ∷ m) (n, d) =
    if_intro IsDistinct (text_eq j k) (λ y. (rw (sym ((text_eq_iff j k).0 y)) n, d))
      (λ y. (absent-insert j k v m (ground (arith, text_eq_symm j k)) n, IsDistinct-insert k v m d))
