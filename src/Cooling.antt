-- ===== src/Cooling.antt =====
-- The cooling ladders as settings: the texts of internal/store/store.go that hold seconds with
-- commas between them. `strconv.Atoi` and `strconv.Itoa` are those of 64-bit integers.
pub mod Digits
pub mod Ladder
use zcode2api_plus.Common.{
  ℕ, zero, suc, ◌+◌, ◌-◌, ◌*◌, ◌/◌, ◌%◌, ◌^◌, Bool, true, false, not, ◌&&◌, ◌||◌, List, [], ◌∷◌,
  ◌++◌, map, Option, none, some, Text, ltb, leb, ◌==◌, if◌then◌else◌, is_nil, or_else, min, ℤ, pos,
  negsuc,
}
use zcode2api_plus.ModelName.{trim_space}
use zcode2api_plus.Account.Quota.{parse_number}

abbrev pub step_max : ℕ
step_max = 604_800

abbrev pub comma : ℕ
comma = b','

-- `strings.Split(raw, ",")`.
abbrev pub cons_head : ℕ → List Text → List Text
cons_head c [] = (c ∷ []) ∷ []
cons_head c (p ∷ ps) = (c ∷ p) ∷ ps

unfoldable pub split_commas : Text → List Text
split_commas [] = [] ∷ []
split_commas (c ∷ s) =
    let rest = split_commas s in if c == comma then [] ∷ rest else cons_head c rest

-- `strings.Join(parts, ",")`.
unfoldable pub join_commas : List Text → Text
join_commas [] = []
join_commas (p ∷ []) = p
join_commas (p ∷ q ∷ ps) = p ++ comma ∷ join_commas (q ∷ ps)

-- `strconv.Atoi`, where only a number of at least 1 is of use: `none` is an error or below 1.
unfoldable pub atoi_positive : Text → Option ℕ
unfolding parse_number
atoi_positive s = elim (parse_number s) [
  | some (pos n) ↦ if leb 1 n && ltb n (2 ^ 63) then some n else none
  | _ ↦ none
]

-- `strconv.Itoa` on a natural number, by its digits; the number itself is fuel enough.
unfoldable pub itoa_from : ℕ → ℕ → Text
itoa_from zero n = []
itoa_from (suc fuel) n =
    let rest = itoa_from fuel (n / 10) in
    if ltb n 10 then (b'0' + n) ∷ [] else rest ++ (b'0' + n % 10) ∷ []

unfoldable pub itoa : ℕ → Text
unfolding itoa_from
itoa n = itoa_from (suc n) n

-- One wrong part makes the whole text wrong.
unfoldable pub parse_parts : List Text → Option (List ℕ)
unfolding atoi_positive trim_space
parse_parts [] = some []
parse_parts (p ∷ ps) = elim (atoi_positive (trim_space p)) [
  | none ↦ none
  | some n ↦ elim (parse_parts ps) [ none ↦ none | some ns ↦ some (min n step_max ∷ ns) ]
]

-- `parseRiskCoolingSteps`; a split is never empty, so neither is what it gives.
unfoldable pub parse_cooling_steps : Text → Option (List ℕ)
unfolding split_commas parse_parts
parse_cooling_steps raw = elim (parse_parts (split_commas raw)) [
  | none ↦ none
  | some [] ↦ none
  | some (n ∷ ns) ↦ some (n ∷ ns)
]

-- The steps with commas between them.
abbrev pub printed : Option (List ℕ) → Option Text
printed none = none
printed (some steps) = some (join_commas (map itoa steps))

-- `NormalizeRiskCoolingSteps` and `NormalizeUpstream503CoolingSteps`.
unfoldable pub normalize_cooling_steps : Text → Option Text
unfolding parse_cooling_steps join_commas itoa
normalize_cooling_steps raw = printed (parse_cooling_steps raw)

-- `RiskCoolingStepsString`, from the setting and the default of the configuration.
unfoldable pub steps_string : Option Text → Text → Text
unfolding trim_space
steps_string none default_ = default_
steps_string (some v) default_ = let t = trim_space v in if is_nil t then default_ else t

abbrev pub first_parsed : Option (List ℕ) → Option (List ℕ) → List ℕ → List ℕ
first_parsed (some steps) _ last = steps
first_parsed none (some steps) last = steps
first_parsed none none last = last

-- `RiskCoolingSteps` and `Upstream503CoolingSteps`.
unfoldable pub risk_cooling_steps : Option Text → Text → List ℕ
unfolding parse_cooling_steps steps_string
risk_cooling_steps setting default_ =
    first_parsed (parse_cooling_steps (steps_string setting default_))
      (parse_cooling_steps default_) (300 ∷ 900 ∷ 3600 ∷ [])

unfoldable pub upstream_503_steps : Option Text → Text → List ℕ
unfolding parse_cooling_steps steps_string
upstream_503_steps setting default_ =
    first_parsed (parse_cooling_steps (steps_string setting default_))
      (parse_cooling_steps default_) (30 ∷ 60 ∷ 120 ∷ [])
