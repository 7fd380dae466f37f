-- ===== src/Cooling/Ladder.antt =====
-- Cooling ladders printed and read again, and what is used whatever the settings hold.
use zcode2api_plus.Common.{
  ℕ, ◌≤◌, ◌≡◌, inl, inr, refl, sym, subst, ap, ◌≢◌, ◌∙◌, true, false, List, [], ◌∷◌, ◌++◌, map,
  Option, none, some, Text, is_nil, all, arith, Option-cases,
}
use zcode2api_plus.ModelName.{trim_space}
use zcode2api_plus.Cooling.{
  step_max, comma, split_commas, join_commas, atoi_positive, itoa, parse_parts, parse_cooling_steps,
  normalize_cooling_steps, printed, steps_string, first_parsed, risk_cooling_steps,
  upstream_503_steps,
}
use zcode2api_plus.Cooling.Digits.{is_digit, itoa-IsNumeral, trim_digits, atoi-itoa}

split_numeral : (p : Text) → all is_digit p ≡ true → split_commas p ≡ p ∷ []
unfolding split_commas
split_numeral [] a = refl
split_numeral (c ∷ p) a = ground (arith, split_numeral p)

split_before_comma :
    (p s : Text) → all is_digit p ≡ true → split_commas (p ++ comma ∷ s) ≡ p ∷ split_commas s
unfolding split_commas
split_before_comma [] s a = refl
split_before_comma (c ∷ p) s a = ground (arith, split_before_comma p s)

split-join :
    (n : ℕ) (ns : List ℕ) → split_commas (join_commas (map itoa (n ∷ ns))) ≡ map itoa (n ∷ ns)
unfolding join_commas
split-join n [] = split_numeral (itoa n) (itoa-IsNumeral n).1
split-join n (m ∷ ns) =
    split_before_comma (itoa n) (join_commas (map itoa (m ∷ ns))) (itoa-IsNumeral n).1
    ∙ ap (λ x. itoa n ∷ x) (split-join m ns)

-- Every step is within its bounds.
abbrev pub InBounds : List ℕ → Type 0
InBounds [] = Unit {0}
InBounds (n ∷ ns) = (1 ≤ n) × (n ≤ step_max) × InBounds ns

parse_part : (n : ℕ) → 1 ≤ n → n ≤ step_max → atoi_positive (trim_space (itoa n)) ≡ some n
parse_part n a b = rw (trim_digits (itoa n) (itoa-IsNumeral n).1) (atoi-itoa n a b)

parse_parts-map : (ns : List ℕ) → InBounds ns → parse_parts (map itoa ns) ≡ some ns
unfolding parse_parts
parse_parts-map [] b = refl
parse_parts-map (n ∷ ns) (a, b, c) =
    rw (parse_parts, parse_part n a b, parse_parts-map ns c) (ap (λ x. some (x ∷ ns)) (omega arith))

abbrev BoundsOf : Option (List ℕ) → Type 0
BoundsOf none = Unit {0}
BoundsOf (some ns) = InBounds ns

at_least_one : (p : Text) (n : ℕ) → atoi_positive p ≡ some n → 1 ≤ n
unfolding atoi_positive
at_least_one p n h = ground arith

parse_parts-BoundsOf : (ps : List Text) → BoundsOf (parse_parts ps)
unfolding parse_parts
parse_parts-BoundsOf [] = tt
parse_parts-BoundsOf (p ∷ ps) = elim (Option-cases (atoi_positive (trim_space p))) [
  | inl e ↦ rw (parse_parts, e) tt
  | inr (n, e) ↦
      added n (at_least_one (trim_space p) n e) e (parse_parts ps) refl (parse_parts-BoundsOf ps)
]
  where
    added :
        (n : ℕ)
        → 1 ≤ n
        → atoi_positive (trim_space p) ≡ some n
        → (o : Option (List ℕ)) → parse_parts ps ≡ o
        → BoundsOf o
        → BoundsOf (parse_parts (p ∷ ps))
    added n l e none q b = rw (parse_parts, e, q) tt
    added n l e (some ns) q b = rw (parse_parts, e, q) (omega arith, omega arith, b)

-- A ladder that may be used: it has a step, and every step is within its bounds.
abbrev pub IsLadder : List ℕ → Type 0
IsLadder ns = (is_nil ns ≡ false) × InBounds ns

abbrev LadderOf : Option (List ℕ) → Type 0
LadderOf none = Unit {0}
LadderOf (some ns) = IsLadder ns

parse-LadderOf : (raw : Text) → LadderOf (parse_cooling_steps raw)
unfolding parse_cooling_steps
parse-LadderOf raw =
    go (parse_parts (split_commas raw)) refl (parse_parts-BoundsOf (split_commas raw))
  where
    go :
        (o : Option (List ℕ))
        → parse_parts (split_commas raw) ≡ o
        → BoundsOf o
        → LadderOf (parse_cooling_steps raw)
    go none e b = rw (parse_cooling_steps, e) tt
    go (some []) e b = rw (parse_cooling_steps, e) tt
    go (some (n ∷ ns)) e b = rw (parse_cooling_steps, e) (refl, b)

first_parsed-IsLadder :
    (o p : Option (List ℕ)) (last : List ℕ)
    → LadderOf o
    → LadderOf p
    → IsLadder last
    → IsLadder (first_parsed o p last)
first_parsed-IsLadder (some a) p last x y z = x
first_parsed-IsLadder none (some b) last x y z = y
first_parsed-IsLadder none none last x y z = z

-- Whatever the setting and the default hold, both ladders that are used have a step, and every
-- step lies between one second and seven days.
pub used_ladders :
    (setting : Option Text) (default_ : Text)
    → IsLadder (risk_cooling_steps setting default_)
      × IsLadder (upstream_503_steps setting default_)
unfolding risk_cooling_steps upstream_503_steps
used_ladders setting default_ =
    let a = parse-LadderOf (steps_string setting default_) in
    let b = parse-LadderOf default_ in
    (
      first_parsed-IsLadder _ _ _ a b (
        refl,
        (omega arith, omega arith, (omega arith, omega arith, (omega arith, omega arith, tt))),
      ),
      first_parsed-IsLadder _ _ _ a b (
        refl,
        (omega arith, omega arith, (omega arith, omega arith, (omega arith, omega arith, tt))),
      ),
    )

-- A ladder that is printed and read again is the same ladder, as long as it has a step and every
-- step lies between one second and seven days.
pub parse-print :
    (n : ℕ) (ns : List ℕ)
    → InBounds (n ∷ ns)
    → parse_cooling_steps (join_commas (map itoa (n ∷ ns))) ≡ some (n ∷ ns)
unfolding parse_cooling_steps
parse-print n ns b = rw (parse_cooling_steps, split-join n ns, parse_parts-map (n ∷ ns) b) refl

no_text_is_some : (t : Text) → none ≢ some t
no_text_is_some t e = ground arith

-- What is stored after normalising reads back as the ladder that was typed, and is normal already.
pub normalize_cooling_steps_lem :
    (raw stored : Text)
    → normalize_cooling_steps raw ≡ some stored
    → (parse_cooling_steps stored ≡ parse_cooling_steps raw)
      × (normalize_cooling_steps stored ≡ some stored)
unfolding normalize_cooling_steps
normalize_cooling_steps_lem raw stored h = go (parse_cooling_steps raw) refl (parse-LadderOf raw)
  where
    shown :
        (o : Option (List ℕ))
        → parse_cooling_steps raw ≡ o
        → parse_cooling_steps stored ≡ o
        → (parse_cooling_steps stored ≡ parse_cooling_steps raw)
          × (normalize_cooling_steps stored ≡ some stored)
    shown o e f = (f ∙ sym e, ap printed (f ∙ sym e) ∙ h)

    go :
        (o : Option (List ℕ))
        → parse_cooling_steps raw ≡ o
        → LadderOf o
        → (parse_cooling_steps stored ≡ parse_cooling_steps raw)
          × (normalize_cooling_steps stored ≡ some stored)
    go none e l = absurd (no_text_is_some stored (rw (normalize_cooling_steps, e) at h))
    go (some []) e l = absurd (ground arith)
    go (some (n ∷ ns)) e (x, b) =
        let same : some (join_commas (map itoa (n ∷ ns))) ≡ some stored =
          rw (normalize_cooling_steps, e) at h in
        let t : join_commas (map itoa (n ∷ ns)) ≡ stored = ground arith in
        shown (some (n ∷ ns)) e
          (subst (λ u. parse_cooling_steps u ≡ some (n ∷ ns)) t (parse-print n ns b))
