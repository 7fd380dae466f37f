-- ===== src/ModelName/Normal.antt =====
-- Normalising a model name ends in a canonical text, and leaves a canonical text as it is.
use zcode2api_plus.Common.{◌≡◌, refl, ◌∙◌, ap, true, [], ◌∷◌, map, Text, length, arith}
use native.Mathlib.Nat.{le_refl}
use zcode2api_plus.ModelName.{
  trim_left, trim_right, trim_space, collapse_dashes, normalize_model_name,
}
use zcode2api_plus.ModelName.Canonical.{
  IsCanonical, head_solid, last_solid, trim_left-head, trim_right-last, trim_right-head, head-map,
  last-map, recode, recode-solid, recoded, map-recode-keep, map-recode_of_keep,
}
use zcode2api_plus.ModelName.Collapse.{
  collapse_dashes_total, collapse_dashes_done, collapse-keep, collapse-head, collapse-last,
}

trim_left_solid : (s : Text) → head_solid s ≡ true → trim_left s ≡ s
unfolding trim_left
trim_left_solid [] h = refl
trim_left_solid (c ∷ s) h = ground arith

trim_right_solid : (s : Text) → last_solid s ≡ true → trim_right s ≡ s
unfolding trim_right
trim_right_solid [] h = refl
trim_right_solid (c ∷ []) h = ground arith
trim_right_solid (c ∷ d ∷ s) h = rw (trim_right_solid (d ∷ s) h) refl

trim_space_solid : (s : Text) → head_solid s ≡ true → last_solid s ≡ true → trim_space s ≡ s
unfolding trim_space
trim_space_solid s h l = rw (trim_left_solid s h) (trim_right_solid s l)

normalize_recode :
    (s : Text)
    → normalize_model_name s
      ≡ collapse_dashes (length (map recode (trim_space s))) (map recode (trim_space s))
unfolding normalize_model_name
normalize_recode s = rw (recoded (trim_space s)) refl

-- Whatever name a request or a snapshot gives, what is compared is canonical: no capital, no
-- underscore, no space, no two dashes in a row, and no space at either end.
pub normalize_model_name-IsCanonical : (s : Text) → IsCanonical (normalize_model_name s)
normalize_model_name-IsCanonical s = rw (normalize_recode s) (record {
  kept = collapse-keep _ _ (map-recode-keep (trim_space s));
  head = collapse-head _ _ (head-map recode recode-solid (trim_space s) trimmed_head);
  last = collapse-last _ _ (last-map recode recode-solid (trim_space s) trimmed_last);
  dashes = collapse_dashes_total _ _ (le_refl _);
})
  where
    trimmed_head : head_solid (trim_space s) ≡ true
    trimmed_head = unfold trim_space in trim_right-head (trim_left s) (trim_left-head s)

    trimmed_last : last_solid (trim_space s) ≡ true
    trimmed_last = unfold trim_space in trim_right-last (trim_left s)

pub normalize_of_IsCanonical : (s : Text) → IsCanonical s → normalize_model_name s ≡ s
normalize_of_IsCanonical s v =
    normalize_recode s
    ∙ ap (λ t. collapse_dashes (length (map recode t)) (map recode t))
        (trim_space_solid s v.head v.last)
    ∙ ap (λ t. collapse_dashes (length t) t) (map-recode_of_keep s v.kept)
    ∙ collapse_dashes_done _ s v.dashes

-- Normalising twice is normalising once, so names stored in normal form compare like raw ones.
pub normalize_idem :
    (s : Text) → normalize_model_name (normalize_model_name s) ≡ normalize_model_name s
normalize_idem s = normalize_of_IsCanonical _ (normalize_model_name-IsCanonical s)
