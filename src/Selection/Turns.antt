-- ===== src/Selection/Turns.antt =====
-- Calls that find the same pool take turns.
use zcode2api_plus.Common.{
  ℕ, zero, suc, ◌+◌, ◌-◌, ◌%◌, ◌<◌, ◌≡◌, refl, sym, ap, ◌∙◌, false, List, [], ◌∷◌, none, some, Text,
  In, arith, length, get_elem?, or_else, lookup, lookup-insert, text_eq_refl, is_nil, inl, inr,
}
use native.Mathlib.Nat.{mod-lt, mod-mod, mod-add-mod, mod-eq_of_lt, add-mod-mod, add-mod_right}
use zcode2api_plus.Account.{Account}
use zcode2api_plus.Selection.{
  choose, View, Query, Rotation, base, pin_hit, candidates, rotate, rotation_key, select_account,
}

abbrev pub cursor : Text → Rotation → ℕ
cursor key r = or_else (lookup key r) 0

rotate_next :
    (key : Text) (r : Rotation) (pool : List Account)
    → cursor key (rotate key r pool).1 ≡ (cursor key r % length pool + 1) % length pool
unfolding rotate
rotate_next key r pool =
    rw (lookup-insert key key ((cursor key r % length pool + 1) % length pool) r, text_eq_refl key)
      refl

rotate_pick :
    (key : Text) (r : Rotation) (pool : List Account)
    → (rotate key r pool).0 ≡ get_elem? pool (cursor key r % length pool)
unfolding rotate
rotate_pick key r pool = refl

-- The cursors after a number of calls.
unfoldable pub turns : View → Query → ℕ → Rotation → Rotation
turns v q zero r = r
turns v q (suc n) r = (select_account v q (turns v q n r)).1

index_exists :
    {A : Type 0} (a : A) (xs : List A)
    → In a xs
    → (k : ℕ) × (k < length xs) × (get_elem? xs k ≡ some a)
index_exists a [] m = absurd m
index_exists a (x ∷ xs) (inl e) = (0, omega arith, ap some (sym e))
index_exists a (x ∷ xs) (inr m) =
    let (k, l, e) = index_exists a xs m in (suc k, omega (arith, l), e)

-- Going round from any start, each place is reached in less than one round.
round_reaches : (c n k : ℕ) → k < n → (c + (k + n - c % n) % n) % n ≡ k
round_reaches c n k h =
    let lt = mod-lt c {m = n} (omega arith) in
    add-mod-mod c (k + n - c % n) n
    ∙ sym (mod-add-mod c n (k + n - c % n))
    ∙ ap (λ x. x % n) (omega (arith, lt))
    ∙ add-mod_right k n
    ∙ mod-eq_of_lt h

module _ (v : View) (q : Query) (free : pin_hit v q.now (base v q) ≡ none)
    (filled : is_nil (candidates v q (base v q)) ≡ false) where
  abbrev pool : List Account
  pool = candidates v q (base v q)

  as_rotate : (r : Rotation) → select_account v q r ≡ rotate (rotation_key q) r pool
  unfolding select_account choose
  as_rotate r = ground arith

  cursor_after :
      (r : Rotation) (i : ℕ)
      → cursor (rotation_key q) (turns v q i r) % length pool
        ≡ (cursor (rotation_key q) r + i) % length pool
  unfolding turns
  cursor_after r zero = ap (λ x. x % length pool) (omega arith)
  cursor_after r (suc i) =
      let key = rotation_key q in
      let s = turns v q i r in
      ap (λ x. cursor key x.1 % length pool) (as_rotate s)
      ∙ ap (λ x. x % length pool) (rotate_next key s pool)
      ∙ mod-mod (cursor key s % length pool + 1) (length pool)
      ∙ ap (λ x. (x + 1) % length pool) (cursor_after r i)
      ∙ mod-add-mod (cursor key r + i) (length pool) 1
      ∙ ap (λ x. x % length pool) (omega arith)

  -- While nothing that can be called is pinned, and the pool stays as it is and is not empty, the
  -- call after i others takes the i-th account after the one that the cursor shows.
  pub turn_picks :
      (r : Rotation) (i : ℕ)
      → (select_account v q (turns v q i r)).0
        ≡ get_elem? pool ((cursor (rotation_key q) r + i) % length pool)
  turn_picks r i =
      ap (λ x. x.0) (as_rotate (turns v q i r))
      ∙ rotate_pick (rotation_key q) (turns v q i r) pool
      ∙ ap (get_elem? pool) (cursor_after r i)

  -- While nothing that can be called is pinned, and the pool stays as it is and is not empty, each of
  -- its accounts is given within one round of calls.
  pub no_account_starves :
      (r : Rotation) (a : Account)
      → In a pool
      → (i : ℕ) × (i < length pool) × ((select_account v q (turns v q i r)).0 ≡ some a)
  no_account_starves r a m =
      let (k, l, e) = index_exists a pool m in
      let c = cursor (rotation_key q) r in
      let n = length pool in
      let i = (k + n - c % n) % n in
      (
        i,
        mod-lt (k + n - c % n) {m = n} (omega arith),
        turn_picks r i ∙ ap (get_elem? pool) (round_reaches c n k l) ∙ e,
      )
