-- ===== src/Table/Laws.antt =====
-- What a write to the account table reaches.
use zcode2api_plus.Common.{
  subst, ap, ◌∙◌, ◌≡◌, refl, Bool, true, false, List, [], ◌∷◌, none, some, Text, text_eq,
  text_eq_iff, text_eq_refl, lookup-insert, first, arith, inl, inr, Bool-cases, Option-cases, ◌⊎◌,
}
use zcode2api_plus.Account.{Account, accepts_request_result}
use zcode2api_plus.Table.{
  Accounts, is_named, accounts_of, find, replace_first, write, update, update_for_request,
}

first-replace_first :
    (p : Account → Bool) (a b : Account) (xs : List Account)
    → first p xs ≡ some a
    → p b ≡ true
    → first p (replace_first p b xs) ≡ some b
unfolding replace_first
first-replace_first p a b [] h t = ground arith
first-replace_first p a b (x ∷ xs) h t = elim (Bool-cases (p x)) [
  | inl y ↦ rw (y, t) refl
  | inr n ↦ rw (n, n) (first-replace_first p a b xs (rw n at h) t)
]

-- Another test is not disturbed when it tells the two versions of the account from its own.
first-replace_other :
    (p q : Account → Bool) (a b : Account) (xs : List Account)
    → first p xs ≡ some a
    → q a ≡ false
    → q b ≡ false
    → first q (replace_first p b xs) ≡ first q xs
unfolding replace_first
first-replace_other p q a b [] h s t = refl
first-replace_other p q a b (x ∷ xs) h s t = ground (arith, first-replace_other p q a b xs)

-- The account that is written is the one that is found again.
pub find-write :
    (s : Accounts) (provider id_or_name : Text) (a b : Account)
    → find s provider id_or_name ≡ some a
    → is_named id_or_name b ≡ true
    → find (write s provider id_or_name b) provider id_or_name ≡ some b
unfolding find write
find-write s provider k a b h t =
    rw
      (
        lookup-insert provider provider (replace_first (is_named k) b (accounts_of s provider)) s,
        text_eq_refl provider,
      )
      (first-replace_first (is_named k) a b (accounts_of s provider) h t)

accounts-write_other :
    (s : Accounts) (provider k q : Text) (b : Account)
    → text_eq provider q ≡ false
    → accounts_of (write s provider k b) q ≡ accounts_of s q
unfolding write
accounts-write_other s provider k q b d =
    rw (lookup-insert provider q (replace_first (is_named k) b (accounts_of s provider)) s, d) refl

accounts-write_self :
    (s : Accounts) (provider k : Text) (b : Account)
    → accounts_of (write s provider k b) provider
      ≡ replace_first (is_named k) b (accounts_of s provider)
unfolding write
accounts-write_self s provider k b =
    rw
      (
        lookup-insert provider provider (replace_first (is_named k) b (accounts_of s provider)) s,
        text_eq_refl provider,
      )
      refl

-- An account under a name that neither version of the written one goes by is found as before.
pub find-write_other :
    (s : Accounts) (provider k q j : Text) (a b : Account)
    → find s provider k ≡ some a
    → is_named j a ≡ false
    → is_named j b ≡ false
    → find (write s provider k b) q j ≡ find s q j
unfolding find
find-write_other s provider k q j a b h m n = elim (Bool-cases (text_eq provider q)) [
  | inl y ↦
      subst (λ r. find (write s provider k b) r j ≡ find s r j) ((text_eq_iff provider q).0 y) same
  | inr d ↦ ap (first (is_named j)) (accounts-write_other s provider k q b d)
]
  where
    same : find (write s provider k b) provider j ≡ find s provider j
    same =
        rw (accounts-write_self s provider k b)
          (first-replace_other (is_named k) (is_named j) a b (accounts_of s provider) h m n)

first_sound :
    (p : Account → Bool) (xs : List Account) {a : Account} → first p xs ≡ some a → p a ≡ true
first_sound p [] h = ground arith
first_sound p (x ∷ xs) {a} h = elim (Bool-cases (p x)) [
  | inl y ↦ let e : x ≡ a = ground arith in subst (λ z. p z ≡ true) e y
  | inr n ↦ first_sound p xs (rw n at h)
]

-- The callbacks of the program keep the names of an account.
abbrev pub KeepsNames : {R : Type 0} → (Account → Account × R) → Type 0
KeepsNames fn = (a : Account) → ((fn a).0.id ≡ a.id) × ((fn a).0.name ≡ a.name)

pub named_after :
    (k : Text) (a b : Account) → b.id ≡ a.id → b.name ≡ a.name → is_named k b ≡ is_named k a
unfolding is_named
named_after k a b i n = rw (i, n) refl

module _ {R : Type 0} (fn : Account → Account × R) (keeps : KeepsNames fn) where
  written :
      (s : Accounts) (provider k : Text) (live : Account)
      → find s provider k ≡ some live
      → find (write s provider k (fn live).0) provider k ≡ some (fn live).0
  written s provider k live f = find-write s provider k live (fn live).0 f (
      named_after k live (fn live).0 (keeps live).0 (keeps live).1
      ∙ first_sound (is_named k) (accounts_of s provider) (unfold find in f))

  -- An answer that is accepted is applied to the account, and the caller learns so.
  pub accepted_update :
      (s : Accounts) (e live : Account)
      → find s e.provider e.id ≡ some live
      → accepts_request_result (some live) (some e) ≡ true
      → (find (update_for_request s (some e) fn).0 e.provider e.id ≡ some (fn live).0)
        × ((update_for_request s (some e) fn).1 ≡ some (fn live).1)
  unfolding update_for_request
  accepted_update s e live f y = (ground (arith, written s e.provider e.id live f), ground arith)

  -- An answer either counts for nothing, or it is applied to the account of the table that has the
  -- login of the request, is enabled and not archived; the caller learns which.
  pub update_for_request_lem :
      (s : Accounts) (e : Account)
      → let (t, r) = update_for_request s (some e) fn in
        ((t ≡ s) × (r ≡ none))
        ⊎ ((live : Account) × (find s e.provider e.id ≡ some live)
            × (accepts_request_result (some live) (some e) ≡ true)
            × (find t e.provider e.id ≡ some (fn live).0)
            × (r ≡ some (fn live).1))
  unfolding update_for_request
  update_for_request_lem s e = elim (Option-cases (find s e.provider e.id)) [
    | inl n ↦ inl (ground arith, ground arith)
    | inr (live, f) ↦ elim (Bool-cases (accepts_request_result (some live) (some e))) [
      | inr no_more ↦ inl (ground arith, ground arith)
      | inl y ↦ inr (live, f, y, (accepted_update s e live f y).0, (accepted_update s e live f y).1)
    ]
  ]

  -- No other account of any provider is touched.
  pub update_for_request_frame :
      (s : Accounts) (e : Account) (q j : Text)
      → ((live : Account) → find s e.provider e.id ≡ some live → is_named j live ≡ false)
      → find (update_for_request s (some e) fn).0 q j ≡ find s q j
  unfolding update_for_request
  update_for_request_frame s e q j apart = elim (Option-cases (find s e.provider e.id)) [
    | inl n ↦ ground arith
    | inr (live, f) ↦ ground (
      arith,
      find-write_other s e.provider e.id q j live (fn live).0 f (apart live f)
          (named_after j live (fn live).0 (keeps live).0 (keeps live).1 ∙ apart live f),
    )
  ]

  -- What `Update` writes is what is found afterwards.
  pub find-update :
      (s : Accounts) (provider k : Text) (live : Account)
      → find s provider k ≡ some live
      → find (update s provider k fn).0 provider k ≡ some (fn live).0
  unfolding update
  find-update s provider k live f = ground (arith, written s provider k live f)

-- An answer that is not accepted changes nothing.
pub refused_update :
    {R : Type 0} (s : Accounts) (e live : Account) (fn : Account → Account × R)
    → find s e.provider e.id ≡ some live
    → accepts_request_result (some live) (some e) ≡ false
    → ((update_for_request s (some e) fn).0 ≡ s) × ((update_for_request s (some e) fn).1 ≡ none)
unfolding update_for_request
refused_update s e live fn f r =
    (rw (update_for_request, f, r) refl, rw (update_for_request, f, r) refl)
