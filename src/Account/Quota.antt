-- ===== src/Account/Quota.antt =====
-- The quota snapshot of an account and what scheduling reads from it: the functions of
-- internal/model/account.go on `Quota`, `ExhaustedModels` and `DisabledModels`. Quota figures are
-- integers, also those read from a text.
use zcode2api_plus.Common.{
  ℕ, ◌+◌, ◌-◌, ◌*◌, Bool, true, false, not, ◌&&◌, ◌||◌, List, [], ◌∷◌, ◌++◌, map, Option, none,
  some, Text, codes, text_eq, leb, ◌==◌, if◌then◌else◌, is_nil, any, keep, lookup, ℤ, pos, ◌+ℤ◌,
  ltb_ℤ, sub_ℕ,
}
use zcode2api_plus.ModelName.{normalize_model_name, trim_space}
use zcode2api_plus.Account.{Account, Json, num, str, JsonMap}
use zcode2api_plus.Account.Scheduling.{is_selectable}

-- `strconv.ParseFloat` on decimal integers; any other text is refused.
unfoldable pub parse_digits : ℕ → Text → Option ℕ
parse_digits acc [] = some acc
parse_digits acc (c ∷ s) =
    let rest = parse_digits (acc * 10 + (c - b'0')) s in
    if leb b'0' c && leb c b'9' then rest else none

unfoldable pub parse_number : Text → Option ℤ
parse_number [] = none
parse_number (c ∷ s) =
    if c == b'-' || c == b'+'
    then if is_nil s then none else elim (parse_digits 0 s) [
      | none ↦ none
      | some n ↦ some (if c == b'-' then sub_ℕ 0 n else pos n)
    ]
    else elim (parse_digits 0 (c ∷ s)) [ none ↦ none | some n ↦ some (pos n) ]

-- The error carries no more than that there is one.
unfoldable pub to_float : Json → Option ℤ
to_float (num n) = some n
to_float (str s) = parse_number (trim_space s)
to_float _ = none

unfoldable pub quota_number : JsonMap → Text → Option ℤ
quota_number quota key = elim (lookup key quota) [ none ↦ none | some v ↦ to_float v ]

-- `s, _ := quota[key].(string)`.
unfoldable pub string_at : Text → JsonMap → Text
string_at key quota = elim (lookup key quota) [ some (str s) ↦ s | _ ↦ [] ]

-- The model that a column of the snapshot is for: its `model`, or its name.
unfoldable pub entry_model : Text × JsonMap → Text
entry_model (name, quota) =
    let model = string_at (codes "model") quota in if is_nil model then name else model

-- Whether a column is for the model of this normal form.
unfoldable pub entry_for : Text → Text × JsonMap → Bool
entry_for target entry = text_eq (normalize_model_name (entry_model entry)) target

unfoldable pub quota_entries_for_model : Account → Text → List JsonMap
quota_entries_for_model a model =
    let target = normalize_model_name model in
    if is_nil target then [] else map (λ e. e.1) (keep (entry_for target) a.quota)

pub data Availability : Type 0 where
  available exhausted disabled absent unknown : Availability

-- The figures under `remaining` that are numbers.
unfoldable pub remainings : List JsonMap → List ℤ
remainings [] = []
remainings (q ∷ qs) = elim (quota_number q (codes "remaining")) [
  | none ↦ remainings qs
  | some v ↦ v ∷ remainings qs
]

abbrev pub positive : ℤ → Bool
positive v = ltb_ℤ (pos 0) v

-- What the snapshot alone says of a model.
unfoldable pub snapshot_availability : Account → Text → Availability
snapshot_availability a target =
    let entries = quota_entries_for_model a target in
    let figures = remainings entries in
    if not (is_nil figures)
    then if any positive figures then Availability.available else Availability.exhausted
    else if not (is_nil entries)
    then Availability.unknown
    else if not (is_nil a.quota)
    then Availability.absent
    else Availability.unknown

-- A list of model names holds one with this normal form.
unfoldable pub names_model : Text → List Text → Bool
names_model target = any (λ m. text_eq (normalize_model_name m) target)

unfoldable pub model_availability : Account → Text → Availability
model_availability a model =
    let target = normalize_model_name model in
    if is_nil target
    then Availability.unknown
    else if names_model target a.disabled_models
    then Availability.disabled
    else if names_model target a.exhausted_models
    then Availability.exhausted
    else snapshot_availability a target

unfoldable pub is_model_selectable : Account → Text → ℕ → Bool
is_model_selectable a model now =
    if not (is_selectable a now) then false else elim (model_availability a model) [
      | Availability.available ↦ true
      | Availability.unknown ↦ true
      | _ ↦ false
    ]

-- `for key in {"available", "remaining"}`: the first of the two that is a number.
unfoldable pub usable_figure : JsonMap → Option ℤ
usable_figure q = elim (quota_number q (codes "available")) [
  | some v ↦ some v
  | none ↦ quota_number q (codes "remaining")
]

unfoldable pub quota_has_balance : JsonMap → Bool
quota_has_balance q = elim (usable_figure q) [ some v ↦ positive v | none ↦ false ]

-- The loop of `UsableQuotaForModel`, from the total and the flag so far.
unfoldable pub usable_from : ℤ → Bool → List JsonMap → ℤ × Bool
usable_from total found [] = (total, found)
usable_from total found (q ∷ qs) = elim (usable_figure q) [
  | some v ↦ usable_from (total +ℤ v) true qs
  | none ↦ usable_from total found qs
]

unfoldable pub usable_quota_for_model : Account → Text → ℤ × Bool
usable_quota_for_model a model = usable_from (pos 0) false (quota_entries_for_model a model)

-- The loop of `SetDisabledModels`, over what was kept so far.
unfoldable pub distinct_from : List Text → List Text → List Text
distinct_from out [] = out
distinct_from out (m ∷ ms) =
    let n = normalize_model_name m in
    distinct_from (if is_nil n || any (text_eq n) out then out else out ++ n ∷ []) ms

unfoldable pub set_disabled_models : Account → List Text → Account
set_disabled_models a models = record a { disabled_models = distinct_from [] models }

unfoldable pub mark_model_exhausted : Account → Text → Account × Bool
mark_model_exhausted a model =
    let target = normalize_model_name model in
    if is_nil target
    then (a, false)
    else if names_model target a.exhausted_models
    then (a, true)
    else (record a { exhausted_models = a.exhausted_models ++ target ∷ [] }, true)

-- `remainings[m] = append(remainings[m], v)`, over the columns of the snapshot.
unfoldable pub group_remaining : Text → ℤ → List (Text × List ℤ) → List (Text × List ℤ)
group_remaining m v [] = (m, v ∷ []) ∷ []
group_remaining m v ((k, vs) ∷ groups) =
    if text_eq k m then (k, vs ++ v ∷ []) ∷ groups else (k, vs) ∷ group_remaining m v groups

unfoldable pub group_quota : List (Text × List ℤ) → List (Text × JsonMap) → List (Text × List ℤ)
group_quota groups [] = groups
group_quota groups (e ∷ es) = elim (quota_number e.1 (codes "remaining")) [
  | none ↦ group_quota groups es
  | some v ↦ group_quota (group_remaining (normalize_model_name (entry_model e)) v groups) es
]

unfoldable pub used_up : List (Text × List ℤ) → List Text
used_up [] = []
used_up ((m, vs) ∷ groups) = if any positive vs then used_up groups else m ∷ used_up groups

unfoldable pub sync_exhausted_models : Account → Account
sync_exhausted_models a = record a { exhausted_models = used_up (group_quota [] a.quota) }
