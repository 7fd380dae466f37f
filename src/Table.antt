-- ===== src/Table.antt =====
-- The account table of internal/store: one list of accounts for each provider, and the writes that
-- requests make through it. The row in the database follows the memory and is not modelled.
pub mod Laws
use zcode2api_plus.Common.{
  Bool, true, false, ◌||◌, List, [], ◌∷◌, Option, none, some, Text, text_eq, if◌then◌else◌, lookup,
  insert, or_else, first,
}
use zcode2api_plus.Account.{Account, accepts_request_result}

abbrev pub Accounts : Type 0
Accounts = List (Text × List Account)

-- The test of `findLocked`.
unfoldable pub is_named : Text → Account → Bool
is_named id_or_name a = text_eq a.id id_or_name || text_eq a.name id_or_name

abbrev pub accounts_of : Accounts → Text → List Account
accounts_of s provider = or_else (lookup provider s) []

unfoldable pub find : Accounts → Text → Text → Option Account
find s provider id_or_name = first (is_named id_or_name) (accounts_of s provider)

-- A write through the pointer that `findLocked` returns: the first account found is replaced.
unfoldable pub replace_first : (Account → Bool) → Account → List Account → List Account
replace_first p b [] = []
replace_first p b (a ∷ xs) = if p a then b ∷ xs else a ∷ replace_first p b xs

unfoldable pub write : Accounts → Text → Text → Account → Accounts
write s provider id_or_name b =
    insert provider (replace_first (is_named id_or_name) b (accounts_of s provider)) s

-- `Update`, for an account that no initialization task manages. The callback also gives what it
-- leaves in the caller's variables; `none` says that no account was found.
unfoldable pub update :
    {R : Type 0} → Accounts → Text → Text → (Account → Account × R) → Accounts × Option R
update s provider id_or_name fn = elim (find s provider id_or_name) [
  | none ↦ (s, none)
  | some live ↦ (write s provider id_or_name (fn live).0, some (fn live).1)
]

-- `UpdateForRequest`: the answer to a request counts only for the login that made the request.
unfoldable pub update_for_request :
    {R : Type 0} → Accounts → Option Account → (Account → Account × R) → Accounts × Option R
update_for_request s none fn = (s, none)
update_for_request s (some e) fn = elim (find s e.provider e.id) [
  | none ↦ (s, none)
  | some live ↦
      if accepts_request_result (some live) (some e)
      then (write s e.provider e.id (fn live).0, some (fn live).1)
      else (s, none)
]
