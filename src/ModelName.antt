-- ===== src/ModelName.antt =====
-- `NormalizeModelName` of internal/model/account.go, on a model name that is a Go string.
-- `strings.ToLower` is taken on ASCII letters; other code points are left as they are.
pub mod Canonical
pub mod Collapse
pub mod Normal
use zcode2api_plus.Common.{
  ℕ, zero, suc, ◌+◌, Bool, true, false, not, ◌&&◌, ◌||◌, List, [], ◌∷◌, map, Text, leb, ◌==◌,
  if◌then◌else◌, is_nil, length,
}

-- `unicode.IsSpace`.
unfoldable pub is_space : ℕ → Bool
is_space c =
    (leb 9 c && leb c 13)
    || c == 0x20
    || c == 0x85
    || c == 0xa0
    || c == 0x1680
    || (leb 0x2000 c && leb c 0x200a)
    || c == 0x2028
    || c == 0x2029
    || c == 0x202f
    || c == 0x205f
    || c == 0x3000

unfoldable pub trim_left : Text → Text
trim_left [] = []
trim_left (c ∷ s) = if is_space c then trim_left s else c ∷ s

unfoldable pub trim_right : Text → Text
trim_right [] = []
trim_right (c ∷ s) = let r = trim_right s in if is_nil r && is_space c then [] else c ∷ r

-- `strings.TrimSpace`.
unfoldable pub trim_space : Text → Text
unfolding trim_left trim_right is_space
trim_space s = trim_right (trim_left s)

unfoldable pub lower : ℕ → ℕ
lower c = if leb b'A' c && leb c b'Z' then c + 32 else c

-- `strings.ToLower`, on ASCII.
unfoldable pub to_lower : Text → Text
unfolding lower
to_lower = map lower

-- `strings.ReplaceAll` of one character by another.
unfoldable pub replace_char : ℕ → ℕ → Text → Text
replace_char old new = map (λ c. if c == old then new else c)

-- `strings.Contains(s, "--")`.
unfoldable pub has_double_dash : Text → Bool
has_double_dash [] = false
has_double_dash (a ∷ []) = false
has_double_dash (a ∷ b ∷ s) = (a == b'-' && b == b'-') || has_double_dash (b ∷ s)

-- `strings.ReplaceAll(s, "--", "-")`: from the left, without overlap.
unfoldable pub replace_double_dash : Text → Text
replace_double_dash [] = []
replace_double_dash (a ∷ []) = a ∷ []
replace_double_dash (a ∷ b ∷ s) = elim (a == b'-' && b == b'-') [
  | true ↦ b'-' ∷ replace_double_dash s
  | false ↦ a ∷ replace_double_dash (b ∷ s)
]

-- `for strings.Contains(s, "--") { s = strings.ReplaceAll(s, "--", "-") }`. Every round shortens
-- the text, so its length is fuel enough.
unfoldable pub collapse_dashes : ℕ → Text → Text
collapse_dashes zero s = s
collapse_dashes (suc fuel) s =
    let rest = collapse_dashes fuel (replace_double_dash s) in if has_double_dash s then rest else s

unfoldable pub normalize_model_name : Text → Text
unfolding trim_space to_lower replace_char collapse_dashes has_double_dash replace_double_dash
normalize_model_name s =
    let dashed = replace_char b' ' b'-' (replace_char b'_' b'-' (to_lower (trim_space s))) in
    collapse_dashes (length dashed) dashed
