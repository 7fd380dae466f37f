-- ===== src/Replay/Window.antt =====
-- What each operation does to an entry whose window is open, and to the size of the guard.
use zcode2api_plus.Common.{
  ℕ, suc, ◌+◌, ◌<◌, ◌≤◌, ◌≡◌, refl, inl, inr, Bool, true, false, List, [], ◌∷◌, none, some, Text,
  text_eq, text_eq_iff, text_eq_refl, ltb, leb, if◌then◌else◌, is_nil, keep, length, lookup, insert,
  delete, lookup-insert, lookup-delete, arith, Bool-cases, Option-cases,
}
use zcode2api_plus.Replay.{
  ReplayEntry, ReplayGuard, max_entries, time_left, is_live, make_room, spend, set_entries,
  remaining, take, record_verdict,
}

length-keep : {A : Type 0} (p : A → Bool) (m : List A) → length (keep p m) ≤ length m
length-keep p [] = omega arith
length-keep p (x ∷ m) = ground (arith, length-keep p m)

pub length-insert :
    {V : Type 0} (k : Text) (v : V) (m : List (Text × V)) → length (insert k v m) ≤ suc (length m)
unfolding insert
length-insert k v [] = omega arith
length-insert k v ((j, w) ∷ m) = ground (arith, length-insert k v m)

length-delete : {V : Type 0} (k : Text) (m : List (Text × V)) → length (delete k m) ≤ length m
unfolding delete
length-delete k [] = omega arith
length-delete k ((j, w) ∷ m) = ground (arith, length-delete k m)

-- An entry that is live is still found after the others have been cleared away.
lookup-keep :
    (key : Text) (ttl now : ℕ) (e : ReplayEntry) (m : List (Text × ReplayEntry))
    → now < ttl + e.at
    → lookup key m ≡ some e
    → lookup key (keep (is_live ttl now) m) ≡ some e
unfolding lookup
lookup-keep key ttl now e [] l h = absurd (ground arith)
lookup-keep key ttl now e ((k, f) ∷ m) l h = ground (arith, lookup-keep key ttl now e m l)

pub remaining_keeps :
    (key k : Text) (t : ℕ) (e : ReplayEntry) (g : ReplayGuard)
    → t < g.ttl + e.at
    → lookup key g.entries ≡ some e
    → (lookup key ((remaining k t g).0).entries ≡ some e)
      × (((remaining k t g).0).ttl ≡ g.ttl)
      × (length ((remaining k t g).0).entries ≤ length g.entries)
unfolding remaining
remaining_keeps key k t e g l h = ground (
  arith,
  text_eq_iff k key,
  lookup-delete k key g.entries,
  length-delete k g.entries,
  Option-cases (lookup k g.entries),
)

pub take_other :
    (key k : Text) (t : ℕ) (e : ReplayEntry) (g : ReplayGuard)
    → text_eq k key ≡ false
    → lookup key g.entries ≡ some e
    → (lookup key ((take k t g).0).entries ≡ some e)
      × (((take k t g).0).ttl ≡ g.ttl)
      × (length ((take k t g).0).entries ≤ suc (length g.entries))
unfolding take
take_other key k t e g n h = elim (Option-cases (lookup k g.entries)) [
  | inl m ↦ ground arith
  | inr (f, m) ↦ ground (arith, lookup-delete k key g.entries, length-delete k g.entries, spent f)
]
  where
    spent :
        (f : ReplayEntry)
        → (lookup key (insert k (spend f) g.entries) ≡ some e)
          × (length (insert k (spend f) g.entries) ≤ suc (length g.entries))
    spent f =
        (rw (lookup-insert k key (spend f) g.entries, n) h, length-insert k (spend f) g.entries)

pub take_same :
    (key : Text) (t : ℕ) (e : ReplayEntry) (g : ReplayGuard)
    → is_nil key ≡ false
    → t < g.ttl + e.at
    → lookup key g.entries ≡ some e
    → take key t g ≡ (
        if ltb 0 e.allowances
        then (set_entries (insert key (spend e) g.entries) g, false, 0)
        else (g, true, time_left g.ttl t e))
unfolding take
take_same key t e g n l h = ground (arith, Option-cases (lookup key g.entries))

room :
    (key : Text) (t : ℕ) (e : ReplayEntry) (g : ReplayGuard)
    → t < g.ttl + e.at
    → length g.entries < max_entries
    → lookup key g.entries ≡ some e
    → lookup key (make_room (keep (is_live g.ttl t) g.entries)) ≡ some e
room key t e g l s h = rw fits (lookup-keep key g.ttl t e g.entries l h)
  where
    fits : leb max_entries (length (keep (is_live g.ttl t) g.entries)) ≡ false
    fits = ground (arith, length-keep (is_live g.ttl t) g.entries)

pub record_same :
    (allow_once : Bool) (key : Text) (t : ℕ) (e : ReplayEntry) (g : ReplayGuard)
    → is_nil key ≡ false
    → t < g.ttl + e.at
    → length g.entries < max_entries
    → lookup key g.entries ≡ some e
    → lookup key (record_verdict allow_once key t g).entries
      ≡ some (record { at = t; allowances = e.allowances })
unfolding record_verdict
record_same allow_once key t e g n l s h = rw n (
    rw
      (
        lookup-insert key key _ (make_room (keep (is_live g.ttl t) g.entries)),
        text_eq_refl key,
        (room key t e g l s h),
      )
      refl)

pub record_other :
    (allow_once : Bool) (key k : Text) (t : ℕ) (e : ReplayEntry) (g : ReplayGuard)
    → text_eq k key ≡ false
    → t < g.ttl + e.at
    → length g.entries < max_entries
    → lookup key g.entries ≡ some e
    → lookup key (record_verdict allow_once k t g).entries ≡ some e
unfolding record_verdict
record_other allow_once key k t e g n l s h = elim (Bool-cases (is_nil k)) [
  | inl y ↦ rw y h
  | inr f ↦ rw f (
      rw (lookup-insert k key _ (make_room (keep (is_live g.ttl t) g.entries)), n)
        (room key t e g l s h))
]

pub record_sizes :
    (allow_once : Bool) (k : Text) (t : ℕ) (g : ReplayGuard)
    → ((record_verdict allow_once k t g).ttl ≡ g.ttl)
      × (length (record_verdict allow_once k t g).entries ≤ suc (length g.entries))
unfolding record_verdict
record_sizes allow_once k t g = elim (Bool-cases (is_nil k)) [
  | inl y ↦ rw y (refl, omega arith)
  | inr f ↦ rw f (
    refl,
    omega (arith, cleared, length-insert k _ (make_room (keep (is_live g.ttl t) g.entries))),
  )
]
  where
    cleared : length (make_room (keep (is_live g.ttl t) g.entries)) ≤ length g.entries
    cleared = ground (arith, length-keep (is_live g.ttl t) g.entries)

lookup-keep-none :
    (key : Text) (ttl now : ℕ) (m : List (Text × ReplayEntry))
    → lookup key m ≡ none
    → lookup key (keep (is_live ttl now) m) ≡ none
unfolding lookup
lookup-keep-none key ttl now [] h = refl
lookup-keep-none key ttl now ((k, f) ∷ m) h = ground (arith, lookup-keep-none key ttl now m)

room_none :
    (key : Text) (t : ℕ) (g : ReplayGuard)
    → lookup key g.entries ≡ none
    → lookup key (make_room (keep (is_live g.ttl t) g.entries)) ≡ none
unfolding lookup
room_none key t g h = ground (arith, lookup-keep-none key g.ttl t g.entries h)

pub record_new :
    (allow_once : Bool) (key : Text) (t : ℕ) (g : ReplayGuard)
    → is_nil key ≡ false
    → lookup key g.entries ≡ none
    → lookup key (record_verdict allow_once key t g).entries
      ≡ some (record { at = t; allowances = if allow_once then 1 else 0 })
unfolding record_verdict
record_new allow_once key t g n h = rw n (
    rw
      (
        lookup-insert key key _ (make_room (keep (is_live g.ttl t) g.entries)),
        text_eq_refl key,
        room_none key t g h,
      )
      refl)
