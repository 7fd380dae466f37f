-- ===== src/Marks/Ladder.antt =====
-- The ladders of cooling times.
use zcode2api_plus.Common.{
  ℕ, zero, suc, ◌≤◌, ◌≡◌, refl, List, [], ◌∷◌, none, some, ltb, if◌then◌else◌, get_elem?, arith,
  length,
}
use zcode2api_plus.Marks.{capped_seconds}

pub get_elem?-none : (steps : List ℕ) (i : ℕ) → length steps ≤ i → get_elem? steps i ≡ none
get_elem?-none [] i h = refl
get_elem?-none (x ∷ xs) zero h = absurd (omega arith)
get_elem?-none (x ∷ xs) (suc i) h = get_elem?-none xs i (omega arith)

-- No rung is above the cap.
pub capped_seconds-le :
    (cap : ℕ) (steps : List ℕ) (streak : ℕ) → capped_seconds cap steps streak ≤ cap
unfolding capped_seconds
capped_seconds-le cap steps streak = ground arith

-- A rising ladder.
abbrev pub IsRising : List ℕ → Type 0
IsRising [] = Unit {0}
IsRising (x ∷ []) = Unit {0}
IsRising (x ∷ y ∷ xs) = (x ≤ y) × IsRising (y ∷ xs)

rung_from : ℕ → List ℕ → ℕ → ℕ
rung_from cap steps i = elim (get_elem? steps i) [
  | none ↦ cap
  | some secs ↦ if ltb secs cap then secs else cap
]

rung_from-next :
    (cap : ℕ) (steps : List ℕ) (i : ℕ)
    → IsRising steps
    → rung_from cap steps i ≤ rung_from cap steps (suc i)
unfolding rung_from
rung_from-next cap [] i r = omega arith
rung_from-next cap (x ∷ []) zero r = ground arith
rung_from-next cap (x ∷ []) (suc i) r = omega arith
rung_from-next cap (x ∷ y ∷ xs) zero r = ground arith
rung_from-next cap (x ∷ y ∷ xs) (suc i) r = rung_from-next cap (y ∷ xs) i r.1

-- On a rising ladder one more failure in a row never shortens the cooling, also where the ladder
-- ends, and no cooling is longer than the cap.
pub capped_seconds_mono :
    (cap : ℕ) (steps : List ℕ) (streak : ℕ)
    → IsRising steps
    → (capped_seconds cap steps streak ≤ capped_seconds cap steps (suc streak))
      × (capped_seconds cap steps (suc streak) ≤ cap)
unfolding capped_seconds
capped_seconds_mono cap steps zero r = (omega arith, capped_seconds-le cap steps 1)
capped_seconds_mono cap steps (suc n) r =
    (unfold rung_from in rung_from-next cap steps n r, capped_seconds-le cap steps (suc (suc n)))
