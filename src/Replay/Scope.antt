-- ===== src/Replay/Scope.antt =====
-- How the refusals of one request are counted.
use zcode2api_plus.Common.{
  ℕ, suc, ◌≡◌, refl, ap, ◌∙◌, Bool, true, not, ◌&&◌, List, [], ◌∷◌, map, Text, text_eq, leb,
  if◌then◌else◌, is_nil, is_some, any, keep, length, lookup, insert, lookup-insert, arith,
}
use zcode2api_plus.Replay.{RiskScope, new_risk_scope, verdict}

-- A refusal: the account, the key of the line, and whether the line was under isolation before it.
pub record Refusal : Type 0 where
  pub account : Text
  pub line_key : Text
  pub line_dirty : Bool

-- The scope of a request after its refusals, the latest of which stands first.
unfoldable pub scope_after : ℕ → Text → List Refusal → RiskScope
scope_after threshold key [] = new_risk_scope key
scope_after threshold key (x ∷ xs) =
    (verdict threshold x.account x.line_key x.line_dirty (scope_after threshold key xs)).0

abbrev pub counts : Refusal → Bool
counts x = not x.line_dirty && not (is_nil x.line_key)

abbrev pub clean_lines : List Refusal → List Text
clean_lines xs = map (λ x. x.line_key) (keep counts xs)

-- The number of different texts in a list.
abbrev pub distinct : List Text → ℕ
distinct [] = 0
distinct (x ∷ xs) = if any (λ y. text_eq y x) xs then distinct xs else suc (distinct xs)

abbrev set_of : List Text → List (Text × Bool)
set_of [] = []
set_of (x ∷ xs) = insert x true (set_of xs)

length-insert :
    (k : Text) (m : List (Text × Bool))
    → length (insert k true m) ≡ (if is_some (lookup k m) then length m else suc (length m))
unfolding insert lookup
length-insert k [] = refl
length-insert k ((j, w) ∷ m) = ground (arith, length-insert k m)

is_some-lookup :
    (k : Text) (xs : List Text) → is_some (lookup k (set_of xs)) ≡ any (λ y. text_eq y k) xs
unfolding lookup
is_some-lookup k [] = refl
is_some-lookup k (x ∷ xs) = ground (arith, lookup-insert x k true (set_of xs), is_some-lookup k xs)

length-set_of : (xs : List Text) → length (set_of xs) ≡ distinct xs
length-set_of [] = refl
length-set_of (x ∷ xs) =
    ground (arith, length-insert x (set_of xs), is_some-lookup x xs, length-set_of xs)

scope_lines :
    (threshold : ℕ) (key : Text) (xs : List Refusal)
    → (scope_after threshold key xs).lines ≡ set_of (clean_lines xs)
unfolding scope_after verdict
scope_lines threshold key [] = refl
scope_lines threshold key (x ∷ xs) = ground (arith, scope_lines threshold key xs)

scope_accounts :
    (threshold : ℕ) (key : Text) (xs : List Refusal)
    → (scope_after threshold key xs).accounts ≡ set_of (map (λ x. x.account) xs)
unfolding scope_after verdict
scope_accounts threshold key [] = refl
scope_accounts threshold key (x ∷ xs) = ap (insert x.account true) (scope_accounts threshold key xs)

verdict_lines :
    (threshold : ℕ) (key : Text) (x : Refusal) (xs : List Refusal)
    → (verdict threshold x.account x.line_key x.line_dirty (scope_after threshold key xs)).1
      ≡ leb threshold (length (scope_after threshold key (x ∷ xs)).lines)
unfolding verdict scope_after
verdict_lines threshold key x xs = refl

-- A refusal of a request's content is taken for a refusal of the request exactly when the lines
-- which were not under isolation and which refused it so far, each counted once and lines without a
-- key not at all, are as many as the threshold; and the accounts reported are those that met a
-- refusal, each counted once.
pub verdict_lem :
    (threshold : ℕ) (key : Text) (x : Refusal) (xs : List Refusal)
    → ((verdict threshold x.account x.line_key x.line_dirty (scope_after threshold key xs)).1
        ≡ leb threshold (distinct (clean_lines (x ∷ xs))))
      × (length (scope_after threshold key (x ∷ xs)).accounts
          ≡ distinct (map (λ y. y.account) (x ∷ xs)))
verdict_lem threshold key x xs = (
  answer,
  ap length (scope_accounts threshold key (x ∷ xs)) ∙ length-set_of (map (λ y. y.account) (x ∷ xs)),
)
  where
    answer :
        (verdict threshold x.account x.line_key x.line_dirty (scope_after threshold key xs)).1
        ≡ leb threshold (distinct (clean_lines (x ∷ xs)))
    answer =
        verdict_lines threshold key x xs
        ∙ ap (λ m. leb threshold (length m)) (scope_lines threshold key (x ∷ xs))
        ∙ ap (leb threshold) (length-set_of (clean_lines (x ∷ xs)))
