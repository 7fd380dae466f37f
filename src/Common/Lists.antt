-- ===== src/Common/Lists.antt =====
-- Lists measured and indexed by native numbers, membership as a computed type, and the loops over
-- lists that the program writes out: filters, searches and tests.
use Prim.Native.Nat.{ℕ, zero, suc, ◌+◌, ◌-◌, ◌<◌}
use mathlib.Core.Path.{◌≡◌, refl, sym, ap}
use mathlib.Core.Logic.{◌⊎◌, inl, inr}
use mathlib.Core.Bool.{Bool, true, false, ◌&&◌, ◌||◌}
use mathlib.Core.List.{List, [], ◌∷◌, ◌++◌}
use mathlib.Core.Option.{Option, none, some}
use native.Mathlib.Omega.{arith}
use zcode2api_plus.Common.Tests.{if◌then◌else◌, Bool-cases}

module _ {ℓ} {A : Type ℓ} where
  abbrev pub length : List A → ℕ
  length [] = 0
  length (x ∷ xs) = suc (length xs)

  abbrev pub get_elem? : List A → ℕ → Option A
  get_elem? [] i = none
  get_elem? (x ∷ xs) zero = some x
  get_elem? (x ∷ xs) (suc i) = get_elem? xs i

  abbrev pub drop : ℕ → List A → List A
  drop zero xs = xs
  drop (suc n) [] = []
  drop (suc n) (x ∷ xs) = drop n xs

  -- The test `len(xs) == 0`.
  abbrev pub is_nil : List A → Bool
  is_nil [] = true
  is_nil (x ∷ xs) = false

  pub length-append : (xs ys : List A) → length (xs ++ ys) ≡ length xs + length ys
  length-append [] ys = omega arith
  length-append (x ∷ xs) ys = omega (arith, length-append xs ys)

  pub length-drop : (n : ℕ) (xs : List A) → length (drop n xs) ≡ length xs - n
  length-drop zero xs = omega arith
  length-drop (suc n) [] = omega arith
  length-drop (suc n) (x ∷ xs) = omega (arith, length-drop n xs)

  -- The items for which a test holds, in order.
  abbrev pub keep : (A → Bool) → List A → List A
  keep p [] = []
  keep p (x ∷ xs) = if p x then x ∷ keep p xs else keep p xs

  abbrev pub any : (A → Bool) → List A → Bool
  any p [] = false
  any p (x ∷ xs) = p x || any p xs

  abbrev pub all : (A → Bool) → List A → Bool
  all p [] = true
  all p (x ∷ xs) = p x && all p xs

  -- The first item for which a test holds.
  abbrev pub first : (A → Bool) → List A → Option A
  first p [] = none
  first p (x ∷ xs) = if p x then some x else first p xs

module _ {A : Type 0} where
  -- Membership with its position, which proofs may take apart.
  abbrev pub In : A → List A → Type 0
  In a [] = ⊥
  In a (x ∷ xs) = (a ≡ x) ⊎ In a xs

  pub In-append_left : (a : A) (xs ys : List A) → In a xs → In a (xs ++ ys)
  In-append_left a [] ys h = absurd h
  In-append_left a (x ∷ xs) ys (inl e) = inl e
  In-append_left a (x ∷ xs) ys (inr h) = inr (In-append_left a xs ys h)

  pub In-append_right : (a : A) (xs ys : List A) → In a ys → In a (xs ++ ys)
  In-append_right a [] ys h = h
  In-append_right a (x ∷ xs) ys h = inr (In-append_right a xs ys h)

  pub In-append_cases : (a : A) (xs ys : List A) → In a (xs ++ ys) → In a xs ⊎ In a ys
  In-append_cases a [] ys h = inr h
  In-append_cases a (x ∷ xs) ys (inl e) = inl (inl e)
  In-append_cases a (x ∷ xs) ys (inr h) = elim (In-append_cases a xs ys h) [
    | inl l ↦ inl (inr l)
    | inr r ↦ inr r
  ]

  pub In-drop : (n : ℕ) (a : A) (xs : List A) → In a (drop n xs) → In a xs
  In-drop zero a xs h = h
  In-drop (suc n) a [] h = absurd h
  In-drop (suc n) a (x ∷ xs) h = inr (In-drop n a xs h)

  pub get_elem?-In : (xs : List A) (i : ℕ) {a : A} → get_elem? xs i ≡ some a → In a xs
  get_elem?-In [] i h = absurd (ground arith)
  get_elem?-In (x ∷ xs) zero {a} h = inl (ground arith)
  get_elem?-In (x ∷ xs) (suc i) h = inr (get_elem?-In xs i h)

  pub get_elem?_total : (xs : List A) (i : ℕ) → i < length xs → (a : A) × (get_elem? xs i ≡ some a)
  get_elem?_total [] i h = elim h [ ]
  get_elem?_total (x ∷ xs) zero h = (x, refl)
  get_elem?_total (x ∷ xs) (suc i) h = get_elem?_total xs i (omega arith)

module _ {A : Type 0} (p : A → Bool) where
  pub In-keep : (a : A) (xs : List A) → In a xs → p a ≡ true → In a (keep p xs)
  In-keep a [] h t = absurd h
  In-keep a (x ∷ xs) (inl e) t = rw (ap p (sym e), t) (inl e)
  In-keep a (x ∷ xs) (inr h) t = elim (Bool-cases (p x)) [
    | inl y ↦ rw y (inr (In-keep a xs h t))
    | inr n ↦ rw n (In-keep a xs h t)
  ]

  pub In-keep_inv : (a : A) (xs : List A) → In a (keep p xs) → In a xs × (p a ≡ true)
  In-keep_inv a [] h = absurd h
  In-keep_inv a (x ∷ xs) h = elim (Bool-cases (p x)) [
    | inl y ↦ split y (In-keep_inv a xs) (rw y at h)
    | inr n ↦ let r = In-keep_inv a xs (rw n at h) in (inr r.0, r.1)
  ]
    where
      split :
          p x ≡ true
          → (In a (keep p xs) → In a xs × (p a ≡ true))
          → In a (x ∷ keep p xs)
          → In a (x ∷ xs) × (p a ≡ true)
      split y rest (inl e) = (inl e, rw e y)
      split y rest (inr r) = (inr (rest r).0, (rest r).1)

  pub any_of_In : (a : A) (xs : List A) → In a xs → p a ≡ true → any p xs ≡ true
  any_of_In a [] h t = absurd h
  any_of_In a (x ∷ xs) (inl e) t = rw (ap p (sym e), t) refl
  any_of_In a (x ∷ xs) (inr h) t = ground (arith, any_of_In a xs h t)

  pub In-of_any : (xs : List A) → any p xs ≡ true → (a : A) × In a xs × (p a ≡ true)
  In-of_any [] h = absurd (ground arith)
  In-of_any (x ∷ xs) h = elim (Bool-cases (p x)) [
    | inl y ↦ (x, inl refl, y)
    | inr n ↦ let r = In-of_any xs (rw n at h) in (r.0, inr r.1, r.2)
  ]

  pub all_at : (a : A) (xs : List A) → all p xs ≡ true → In a xs → p a ≡ true
  all_at a [] h m = absurd m
  all_at a (x ∷ xs) h (inl e) = rw e (ground arith)
  all_at a (x ∷ xs) h (inr m) = all_at a xs (ground arith) m

  pub all_intro : (xs : List A) → ((a : A) → In a xs → p a ≡ true) → all p xs ≡ true
  all_intro [] h = refl
  all_intro (x ∷ xs) h = rw (h x (inl refl)) (all_intro xs (λ a m. h a (inr m)))
