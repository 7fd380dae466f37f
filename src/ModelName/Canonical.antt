-- ===== src/ModelName/Canonical.antt =====
-- Normal forms of model names: which texts they are, and that normalising ends in one.
use zcode2api_plus.Common.{
  ℕ, ◌≡◌, refl, ap, Bool, true, false, not, ◌&&◌, [], ◌∷◌, map, Text, leb, ◌==◌, if◌then◌else◌,
  is_nil, arith,
}
use zcode2api_plus.ModelName.{
  is_space, trim_left, trim_right, lower, to_lower, replace_char, has_double_dash,
}

-- A character that normalising leaves as it is.
abbrev pub keeps : ℕ → Bool
keeps c = not (leb b'A' c && leb c b'Z') && not (c == b'_') && not (c == b' ')

abbrev pub all_keep : Text → Bool
all_keep [] = true
all_keep (c ∷ s) = keeps c && all_keep s

abbrev pub head_solid : Text → Bool
head_solid [] = true
head_solid (c ∷ s) = not (is_space c)

abbrev pub last_solid : Text → Bool
last_solid [] = true
last_solid (c ∷ []) = not (is_space c)
last_solid (c ∷ d ∷ s) = last_solid (d ∷ s)

-- The texts that name a model: no capital, underscore or space, no space at either end, and no
-- two dashes in a row.
pub record IsCanonical (s : Text) : Type 0 where
  pub kept : all_keep s ≡ true
  pub head : head_solid s ≡ true
  pub last : last_solid s ≡ true
  pub dashes : has_double_dash s ≡ false

pub trim_left-head : (s : Text) → head_solid (trim_left s) ≡ true
unfolding trim_left
trim_left-head [] = refl
trim_left-head (c ∷ s) = ground (arith, trim_left-head s)

pub trim_right-last : (s : Text) → last_solid (trim_right s) ≡ true
unfolding trim_right
trim_right-last [] = refl
trim_right-last (c ∷ s) = step (trim_right s) (trim_right-last s)
  where
    step :
        (r : Text)
        → last_solid r ≡ true
        → last_solid (if is_nil r && is_space c then [] else c ∷ r) ≡ true
    step [] h = ground arith
    step (d ∷ r) h = h

pub trim_right-head : (s : Text) → head_solid s ≡ true → head_solid (trim_right s) ≡ true
unfolding trim_right
trim_right-head [] h = refl
trim_right-head (c ∷ s) h = ground arith

-- Mapping a function that makes no space out of another character.
pub head-map :
    (f : ℕ → ℕ)
    → ((c : ℕ) → is_space c ≡ false → is_space (f c) ≡ false)
    → (s : Text) → head_solid s ≡ true
    → head_solid (map f s) ≡ true
head-map f keep [] h = refl
head-map f keep (c ∷ s) h = ground (arith, keep c)

pub last-map :
    (f : ℕ → ℕ)
    → ((c : ℕ) → is_space c ≡ false → is_space (f c) ≡ false)
    → (s : Text) → last_solid s ≡ true
    → last_solid (map f s) ≡ true
last-map f keep [] h = refl
last-map f keep (c ∷ []) h = ground (arith, keep c)
last-map f keep (c ∷ d ∷ s) h = last-map f keep (d ∷ s) h

-- The three character maps, in a row.
pub recode : ℕ → ℕ
recode c = let l = lower c in let u = if l == b'_' then b'-' else l in if u == b' ' then b'-' else u

pub recode-solid : (c : ℕ) → is_space c ≡ false → is_space (recode c) ≡ false
unfolding recode lower is_space
recode-solid c h = ground arith

pub recode-keeps : (c : ℕ) → keeps (recode c) ≡ true
unfolding recode lower
recode-keeps c = ground arith

pub recode_of_keeps : (c : ℕ) → keeps c ≡ true → recode c ≡ c
unfolding recode lower
recode_of_keeps c h = ground arith

pub recoded :
    (s : Text) → replace_char b' ' b'-' (replace_char b'_' b'-' (to_lower s)) ≡ map recode s
unfolding replace_char to_lower recode
recoded [] = refl
recoded (c ∷ s) = ap (λ r. recode c ∷ r) (recoded s)

pub map-recode-keep : (s : Text) → all_keep (map recode s) ≡ true
map-recode-keep [] = refl
map-recode-keep (c ∷ s) = rw (recode-keeps c) (map-recode-keep s)

pub map-recode_of_keep : (s : Text) → all_keep s ≡ true → map recode s ≡ s
map-recode_of_keep [] h = refl
map-recode_of_keep (c ∷ s) h =
    cc (recode_of_keeps c (ground arith), map-recode_of_keep s (ground arith))
