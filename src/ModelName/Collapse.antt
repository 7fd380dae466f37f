-- ===== src/ModelName/Collapse.antt =====
-- The loop that collapses runs of dashes: it ends within its fuel, and what it keeps.
use zcode2api_plus.Common.{
  ℕ, zero, suc, ◌≤◌, ◌<◌, ◌≡◌, refl, Bool, true, false, ◌&&◌, [], ◌∷◌, Text, ◌==◌, length, arith,
  inl, inr, Bool-cases,
}
use zcode2api_plus.ModelName.{is_space, has_double_dash, replace_double_dash, collapse_dashes}
use zcode2api_plus.ModelName.Canonical.{all_keep, head_solid, last_solid}

length-replace_le : (s : Text) → length (replace_double_dash s) ≤ length s
unfolding replace_double_dash
length-replace_le [] = omega arith
length-replace_le (a ∷ []) = omega arith
length-replace_le (a ∷ b ∷ s) = ground (arith, length-replace_le s, length-replace_le (b ∷ s))

length-replace_lt :
    (s : Text) → has_double_dash s ≡ true → length (replace_double_dash s) < length s
unfolding replace_double_dash has_double_dash
length-replace_lt [] h = ground arith
length-replace_lt (a ∷ []) h = ground arith
length-replace_lt (a ∷ b ∷ s) h = ground (arith, length-replace_le s, length-replace_lt (b ∷ s))

-- With fuel for each character the loop ends by its test.
pub collapse_dashes_total :
    (fuel : ℕ) (s : Text) → length s ≤ fuel → has_double_dash (collapse_dashes fuel s) ≡ false
unfolding collapse_dashes
collapse_dashes_total zero [] h = unfold has_double_dash in refl
collapse_dashes_total zero (c ∷ s) h = absurd (omega arith)
collapse_dashes_total (suc fuel) s h = elim (Bool-cases (has_double_dash s)) [
  | inl more ↦
      rw more (
        collapse_dashes_total fuel (replace_double_dash s)
          (omega (arith, length-replace_lt s more)))
  | inr done ↦ rw done done
]

pub collapse_dashes_done :
    (fuel : ℕ) (s : Text) → has_double_dash s ≡ false → collapse_dashes fuel s ≡ s
unfolding collapse_dashes
collapse_dashes_done zero s h = refl
collapse_dashes_done (suc fuel) s h = rw h

-- What one round keeps, every round keeps.
collapse_keeps :
    (P : Text → Bool)
    → ((s : Text) → P s ≡ true → P (replace_double_dash s) ≡ true)
    → (fuel : ℕ) (s : Text) → P s ≡ true
    → P (collapse_dashes fuel s) ≡ true
unfolding collapse_dashes
collapse_keeps P keep zero s h = h
collapse_keeps P keep (suc fuel) s h = elim (Bool-cases (has_double_dash s)) [
  | inl more ↦ rw more (collapse_keeps P keep fuel (replace_double_dash s) (keep s h))
  | inr done ↦ rw done h
]

replace-keep : (s : Text) → all_keep s ≡ true → all_keep (replace_double_dash s) ≡ true
unfolding replace_double_dash
replace-keep [] h = refl
replace-keep (a ∷ []) h = h
replace-keep (a ∷ b ∷ s) h = ground (arith, replace-keep s, replace-keep (b ∷ s))

replace-head : (s : Text) → head_solid s ≡ true → head_solid (replace_double_dash s) ≡ true
unfolding replace_double_dash is_space
replace-head [] h = refl
replace-head (a ∷ []) h = h
replace-head (a ∷ b ∷ s) h = ground arith

-- What stands before a text that ends well, or is empty, when it is no space.
last_cons :
    (c : ℕ) (s : Text) → is_space c ≡ false → last_solid s ≡ true → last_solid (c ∷ s) ≡ true
last_cons c [] e h = rw e refl
last_cons c (d ∷ s) e h = h

replace_hit :
    (a b : ℕ) (s : Text)
    → (a == b'-' && b == b'-') ≡ true
    → replace_double_dash (a ∷ b ∷ s) ≡ b'-' ∷ replace_double_dash s
unfolding replace_double_dash
replace_hit a b s h = ground arith

replace_miss :
    (a b : ℕ) (s : Text)
    → (a == b'-' && b == b'-') ≡ false
    → replace_double_dash (a ∷ b ∷ s) ≡ a ∷ replace_double_dash (b ∷ s)
unfolding replace_double_dash
replace_miss a b s h = ground arith

-- A round leaves no empty text behind.
replace_cons : (a : ℕ) (s : Text) → (b : ℕ) × (r : Text) × (replace_double_dash (a ∷ s) ≡ b ∷ r)
replace_cons a [] = (a, [], unfold replace_double_dash in refl)
replace_cons a (b ∷ s) = elim (Bool-cases (a == b'-' && b == b'-')) [
  | inl y ↦ (b'-', replace_double_dash s, replace_hit a b s y)
  | inr n ↦ (a, replace_double_dash (b ∷ s), replace_miss a b s n)
]

dash_solid : is_space b'-' ≡ false
unfolding is_space
dash_solid = refl

replace-last : (s : Text) → last_solid s ≡ true → last_solid (replace_double_dash s) ≡ true
replace-last [] h = unfold replace_double_dash in refl
replace-last (a ∷ []) h = unfold replace_double_dash in h
replace-last (a ∷ b ∷ s) h = elim (Bool-cases (a == b'-' && b == b'-')) [
  | inl y ↦
      rw (replace_hit a b s y)
        (last_cons b'-' (replace_double_dash s) dash_solid (replace-last s (tail_last s h)))
  | inr n ↦
      let (c, r, e) = replace_cons b s in
      rw (replace_miss a b s n, e) (rw e at (replace-last (b ∷ s) h))
]
  where
    tail_last : (s : Text) → last_solid (b ∷ s) ≡ true → last_solid s ≡ true
    tail_last [] g = refl
    tail_last (c ∷ t) g = g

pub collapse-keep :
    (fuel : ℕ) (s : Text) → all_keep s ≡ true → all_keep (collapse_dashes fuel s) ≡ true
collapse-keep = collapse_keeps all_keep replace-keep

pub collapse-head :
    (fuel : ℕ) (s : Text) → head_solid s ≡ true → head_solid (collapse_dashes fuel s) ≡ true
collapse-head = collapse_keeps head_solid replace-head

pub collapse-last :
    (fuel : ℕ) (s : Text) → last_solid s ≡ true → last_solid (collapse_dashes fuel s) ≡ true
collapse-last = collapse_keeps last_solid replace-last
