-- ===== src/Line/Account405.antt =====
-- internal/store/account405.go: is a 405 the line's fault, or the account's?
use zcode2api_plus.Common.{
  ℕ, suc, ◌-◌, ◌*◌, ◌≤◌, ◌<◌, ◌≡◌, ◌↔◌, refl, ◌∙◌, Bool, true, false, not, ◌&&◌, List, [], ◌∷◌,
  Option, none, some, Text, text_eq, text_eq_refl, text_ne, ltb, leb, if◌then◌else◌, is_nil, length,
  lookup, insert, lookup-insert, arith,
}
use zcode2api_plus.Line.{hour, prune_map}

pub record Account405Mark : Type 0 where
  pub identity : Text
  pub at : ℕ

abbrev pub Marks405 : Type 0
Marks405 = List (Text × Account405Mark)

abbrev pub account405_ttl : ℕ
account405_ttl = 2 * hour

abbrev pub account405_limit : ℕ
account405_limit = 8192

unfoldable pub prune_account405 : ℕ → Marks405 → Marks405
unfolding prune_map
prune_account405 now m =
    prune_map (λ mark. mark.at) (λ mark. ltb mark.at (now - account405_ttl)) account405_limit m

-- The mark of an earlier 405 on another line, not too long ago.
abbrev pub moved_line : Option Account405Mark → Text → ℕ → Bool
moved_line none identity now = false
moved_line (some prev) identity now =
    leb (now - prev.at) account405_ttl
    && not (is_nil prev.identity)
    && not (is_nil identity)
    && text_ne prev.identity identity

-- `NoteAccount405`; `true` says that the line is to blame.
unfoldable pub note_account405 : Text → Text → ℕ → Marks405 → Marks405 × Bool
unfolding prune_account405
note_account405 id identity now m =
    if is_nil id
    then (m, true)
    else let marked = insert id (record { identity = identity; at = now }) m in
      (
        if ltb account405_limit (length marked) then prune_account405 now marked else marked,
        not (moved_line (lookup id m) identity now),
      )

length-insert :
    (k : Text) (v : Account405Mark) (m : Marks405) → length (insert k v m) ≤ suc (length m)
unfolding insert
length-insert k v [] = omega arith
length-insert k v ((j, w) ∷ m) = ground (arith, length-insert k v m)

marked_there :
    (id line : Text) (t0 : ℕ) (m : Marks405)
    → is_nil id ≡ false
    → length m < account405_limit
    → lookup id (note_account405 id line t0 m).0 ≡ some (record { identity = line; at = t0 })
unfolding note_account405
marked_there id line t0 m n l =
    let mark : Account405Mark = record { identity = line; at = t0 } in
    let room : ltb account405_limit (length (insert id mark m)) ≡ false =
      ground (arith, length-insert id mark m) in
    rw (note_account405, n, room) (lookup-insert id id mark m ∙ rw (text_eq_refl id) refl)

blames :
    (id line : Text) (now : ℕ) (m : Marks405)
    → is_nil id ≡ false
    → (note_account405 id line now m).1 ≡ not (moved_line (lookup id m) line now)
unfolding note_account405
blames id line now m n = rw n refl

moved_iff :
    (mark : Account405Mark) (line : Text) (now : ℕ)
    → (not (moved_line (some mark) line now) ≡ false) ↔ (
        (now - mark.at ≤ account405_ttl)
        × (is_nil mark.identity ≡ false)
        × (is_nil line ≡ false)
        × (text_eq mark.identity line ≡ false))
moved_iff mark line now =
    (λ h. (ground arith, ground arith, ground arith, ground arith), λ (a, b, c, d). ground arith)

-- Of two answers 405 to one account, the second blames the account just when it came over another
-- line within two hours of the first, both lines being known, as long as the table has room.
pub second_405_blames :
    (id first second : Text) (t0 t1 : ℕ) (m : Marks405)
    → is_nil id ≡ false
    → length m < account405_limit
    → ((note_account405 id second t1 (note_account405 id first t0 m).0).1 ≡ false) ↔ (
        (t1 - t0 ≤ account405_ttl)
        × (is_nil first ≡ false)
        × (is_nil second ≡ false)
        × (text_eq first second ≡ false))
second_405_blames id first second t0 t1 m n l =
    rw (blames id second t1 (note_account405 id first t0 m).0 n, marked_there id first t0 m n l)
      (moved_iff (record { identity = first; at = t0 }) second t1)
