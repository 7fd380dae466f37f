-- ===== src/Selection/Lines.antt =====
-- How far the isolation of lines with too many 405 answers reaches.
use zcode2api_plus.Common.{◌≡◌, refl, Bool, false, List, [], ◌∷◌, Text, ap, is_nil, max, ℕ}
use zcode2api_plus.Account.{Account}
use zcode2api_plus.Selection.{
  View, Query, Rotation, base, may_take, proxy_binding_available, account_avoids, pin_hit,
  model_layer, expiry_layer, uplink_layer, uplink_rank, best_rank, bound_line_identity, candidates,
  select_account,
}

module _ (v : View) (blocked : Text → Bool) where
  abbrev pub isolating : View
  isolating = record v { line_blocked = blocked }

  ranks_alike : (xs : List Account) → best_rank isolating xs ≡ best_rank v xs
  unfolding best_rank uplink_rank bound_line_identity
  ranks_alike [] = refl
  ranks_alike (x ∷ xs) = ap (max (uplink_rank v x)) (ranks_alike xs)

  uplink_alike : (xs : List Account) → uplink_layer isolating xs ≡ uplink_layer v xs
  unfolding uplink_layer uplink_rank bound_line_identity
  uplink_alike xs = rw (ranks_alike xs) refl

  base_alike : (q : Query) → base isolating q ≡ base v q
  unfolding base may_take proxy_binding_available account_avoids
  base_alike q = refl

  expiry_alike : (q : Query) (xs : List Account) → expiry_layer isolating q xs ≡ expiry_layer v q xs
  unfolding expiry_layer
  expiry_alike q xs = refl

  pin_alike : (now : ℕ) (xs : List Account) → pin_hit isolating now xs ≡ pin_hit v now xs
  unfolding pin_hit
  pin_alike now xs = refl

  model_alike :
      (q : Query) (xs : List Account)
      → is_nil q.model_name ≡ false
      → model_layer isolating q xs ≡ model_layer v q xs
  unfolding model_layer
  model_alike q xs h = rw h refl

  candidates_alike :
      (q : Query) (xs : List Account)
      → is_nil q.model_name ≡ false
      → candidates isolating q xs ≡ candidates v q xs
  unfolding candidates
  candidates_alike q xs h = rw (model_alike q xs h, expiry_alike q _, uplink_alike _) refl

  -- For a call that names a model, it makes no difference which lines are isolated.
  pub isolation_ignores_model :
      (q : Query) (r : Rotation)
      → is_nil q.model_name ≡ false
      → select_account isolating q r ≡ select_account v q r
  unfolding select_account
  isolation_ignores_model q r h =
      rw (select_account, base_alike q, pin_alike q.now (base v q), candidates_alike q (base v q) h)
        refl
