-- ===== src/Marks/RiskLadder.antt =====
-- Risk control answers in a row.
use zcode2api_plus.Common.{
  ℕ, suc, ◌+◌, ◌≤◌, ◌<◌, ◌≡◌, ◌⊎◌, refl, List, [], ◌∷◌, ◌++◌, none, some, Text, length, get_elem?,
  get_elem?_total, arith, inl, inr, subst,
}
use native.Mathlib.Decide.{dec_lt}
use zcode2api_plus.Account.{Account, Status}
use zcode2api_plus.Marks.{after_seconds, apply_risk_control}
use zcode2api_plus.Marks.Ladder.{get_elem?-none}

-- The answers, oldest first: the text of each, and when it came.
abbrev pub hits : List ℕ → Account → List (Text × ℕ) → Account
hits steps a [] = a
hits steps a ((d, t) ∷ hs) = hits steps (apply_risk_control steps d t a).0 hs

streak-apply :
    (steps : List ℕ) (d : Text) (t : ℕ) (a : Account)
    → (apply_risk_control steps d t a).0.risk_control_streak ≡ suc a.risk_control_streak
unfolding apply_risk_control
streak-apply steps d t a = ground arith

streak-hits :
    (steps : List ℕ) (hs : List (Text × ℕ)) (a : Account)
    → (hits steps a hs).risk_control_streak ≡ a.risk_control_streak + length hs
streak-hits steps [] a = omega arith
streak-hits steps ((d, t) ∷ hs) a =
    omega (arith, streak-hits steps hs (apply_risk_control steps d t a).0, streak-apply steps d t a)

hits-snoc :
    (steps : List ℕ) (hs : List (Text × ℕ)) (d : Text) (t : ℕ) (a : Account)
    → hits steps a (hs ++ (d, t) ∷ []) ≡ (apply_risk_control steps d t (hits steps a hs)).0
hits-snoc steps [] d t a = refl
hits-snoc steps ((d', t') ∷ hs) d t a = hits-snoc steps hs d t (apply_risk_control steps d' t' a).0

-- What the answer after `k` others leaves: on the ladder a cooling of that rung, past it an
-- invalid account.
abbrev pub OnLadder : List ℕ → ℕ → ℕ → Account → Type 0
OnLadder steps k t b =
    ((k < length steps)
      × ((secs : ℕ) × (get_elem? steps k ≡ some secs)
          × (b.status ≡ Status.cooling)
          × (b.cooling_until ≡ some (after_seconds t secs))))
    ⊎ ((length steps ≤ k) × (b.status ≡ Status.invalid) × (b.cooling_until ≡ none))

apply-OnLadder :
    (steps : List ℕ) (d : Text) (t : ℕ) (a : Account)
    → OnLadder steps a.risk_control_streak t (apply_risk_control steps d t a).0
unfolding apply_risk_control
apply-OnLadder steps d t a = elim (dec_lt a.risk_control_streak (length steps)) [
  | yes l ↦
      let (secs, e) = get_elem?_total steps a.risk_control_streak l in
      inl (l, (secs, e, ground arith, ground arith))
  | no g ↦
      let e = get_elem?-none steps a.risk_control_streak (omega arith) in
      inr (omega arith, ground arith, ground arith)
]

-- A row of risk control answers climbs the ladder rung by rung, and the first answer past its end
-- makes the account invalid: as many answers are forgiven as the ladder has rungs, those before
-- the row included.
pub risk_ladder :
    (steps : List ℕ) (hs : List (Text × ℕ)) (d : Text) (t : ℕ) (a : Account)
    → OnLadder steps (a.risk_control_streak + length hs) t (hits steps a (hs ++ (d, t) ∷ []))
risk_ladder steps hs d t a = rw (hits-snoc steps hs d t a) (
    subst (λ k. OnLadder steps k t (apply_risk_control steps d t (hits steps a hs)).0)
      (streak-hits steps hs a) (apply-OnLadder steps d t (hits steps a hs)))
