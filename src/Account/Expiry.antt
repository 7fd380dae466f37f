-- ===== src/Account/Expiry.antt =====
-- `SoonestNonRefreshingExpiry` of internal/model/account.go: when quota that would lapse unused
-- runs out. Time stamps of the snapshot become nanoseconds since the epoch.
use zcode2api_plus.Common.{
  ℕ, ◌+◌, ◌*◌, ◌≤◌, ◌<◌, ◌≡◌, ◌⊎◌, refl, subst, Bool, true, false, not, ◌&&◌, ◌||◌, List, [], ◌∷◌,
  Option, none, some, Text, codes, ltb, leb, ◌==◌, if◌then◌else◌, is_nil, In, arith, inl, inr, ℤ,
  pos, negsuc,
}
use zcode2api_plus.ModelName.{normalize_model_name}
use zcode2api_plus.Account.{Account, JsonMap}
use zcode2api_plus.Account.Quota.{
  string_at, quota_number, quota_entries_for_model, quota_has_balance,
}

abbrev nanos : ℕ
nanos = 1_000_000_000

-- Seconds, milliseconds, microseconds or nanoseconds, told apart by size; as nanoseconds.
unfoldable pub normalize_unix_seconds : ℤ → Option ℕ
normalize_unix_seconds (negsuc n) = none
normalize_unix_seconds (pos v) =
    if ltb v 1_000_000_000
    then none
    else if leb 100_000_000_000_000_000 v
    then some v
    else if leb 100_000_000_000_000 v
    then some (v * 1_000)
    else if leb 100_000_000_000 v
    then some (v * 1_000_000)
    else some (v * 1_000_000_000)

abbrev seconds_at : JsonMap → Text → Option ℕ
seconds_at q key = elim (quota_number q key) [ none ↦ none | some v ↦ normalize_unix_seconds v ]

-- `expires_at` first, then `period_end`.
unfoldable pub quota_expiry_unix : JsonMap → Option ℕ
quota_expiry_unix q = elim (seconds_at q (codes "expires_at")) [
  | some t ↦ some t
  | none ↦ seconds_at q (codes "period_end")
]

abbrev has_prefix : Text → Text → Bool
has_prefix [] s = true
has_prefix (c ∷ p) [] = false
has_prefix (c ∷ p) (d ∷ s) = c == d && has_prefix p s

-- `strings.Contains`.
unfoldable pub contains : Text → Text → Bool
contains p [] = has_prefix p []
contains p (c ∷ s) = has_prefix p (c ∷ s) || contains p s

abbrev pub is_one_time : JsonMap → Bool
is_one_time q = contains (codes "one_time") (string_at (codes "period") q)

-- A span of more than 36 hours.
abbrev long_span : Option ℕ → Option ℕ → Bool
long_span (some start) (some end) = ltb (start + 36 * 3600 * nanos) end
long_span _ _ = false

unfoldable pub quota_non_refreshing : JsonMap → Bool
quota_non_refreshing q =
    is_one_time q
    || long_span (seconds_at q (codes "period_start")) (seconds_at q (codes "period_end"))

-- One round of the loop: the best expiry so far, and a column.
unfoldable pub soonest_step : ℕ → ℕ → Option ℕ → JsonMap → Option ℕ
soonest_step now limit best q =
    if not (quota_has_balance q) || not (quota_non_refreshing q)
    then best
    else elim (quota_expiry_unix q) [
      | none ↦ best
      | some e ↦
          if ltb limit e || leb e now
          then best
          else elim best [ none ↦ some e | some b ↦ if ltb e b then some e else some b ]
    ]

unfoldable pub soonest_from : ℕ → ℕ → Option ℕ → List JsonMap → Option ℕ
soonest_from now limit best [] = best
soonest_from now limit best (q ∷ qs) = soonest_from now limit (soonest_step now limit best q) qs

-- `none` is the flag `false`; a window of 0 is off.
unfoldable pub soonest_non_refreshing_expiry : Account → Text → ℕ → ℕ → Option ℕ
soonest_non_refreshing_expiry a model now window =
    if window == 0
    then none
    else if is_nil (normalize_model_name model)
    then none
    else soonest_from now (now + window) none
        (quota_entries_for_model a (normalize_model_name model))

-- A column with quota left that lapses, unused, at the time `e`: after `now`, and by `limit`.
pub record IsUrgent (now limit : ℕ) (q : JsonMap) (e : ℕ) : Type 0 where
  pub balance : quota_has_balance q ≡ true
  pub lapses : quota_non_refreshing q ≡ true
  pub expiry : quota_expiry_unix q ≡ some e
  pub ahead : now < e
  pub within : e ≤ limit

-- No later than.
abbrev AtMost : Option ℕ → ℕ → Type 0
AtMost none n = ⊥
AtMost (some b) n = b ≤ n

step_mono :
    (now limit n : ℕ) (best : Option ℕ) (q : JsonMap)
    → AtMost best n
    → AtMost (soonest_step now limit best q) n
unfolding soonest_step
step_mono now limit n none q h = absurd h
step_mono now limit n (some b) q h = ground arith

step_urgent :
    (now limit e : ℕ) (best : Option ℕ) (q : JsonMap)
    → IsUrgent now limit q e
    → AtMost (soonest_step now limit best q) e
unfolding soonest_step
step_urgent now limit e best q u = ground arith

step_source :
    (now limit e : ℕ) (best : Option ℕ) (q : JsonMap)
    → soonest_step now limit best q ≡ some e
    → (best ≡ some e) ⊎ IsUrgent now limit q e
unfolding soonest_step
step_source now limit e best q h = ground arith

from_mono :
    (now limit n : ℕ) (qs : List JsonMap) (best : Option ℕ)
    → AtMost best n
    → AtMost (soonest_from now limit best qs) n
unfolding soonest_from
from_mono now limit n [] best h = h
from_mono now limit n (q ∷ qs) best h =
    from_mono now limit n qs (soonest_step now limit best q) (step_mono now limit n best q h)

from_urgent :
    (now limit e : ℕ) (q : JsonMap) (qs : List JsonMap) (best : Option ℕ)
    → In q qs
    → IsUrgent now limit q e
    → AtMost (soonest_from now limit best qs) e
unfolding soonest_from
from_urgent now limit e q [] best m u = absurd m
from_urgent now limit e q (p ∷ qs) best (inl same) u =
    from_mono now limit e qs (soonest_step now limit best p)
      (step_urgent now limit e best p (subst (λ x. IsUrgent now limit x e) same u))
from_urgent now limit e q (p ∷ qs) best (inr m) u =
    from_urgent now limit e q qs (soonest_step now limit best p) m u

from_source :
    (now limit e : ℕ) (qs : List JsonMap) (best : Option ℕ)
    → soonest_from now limit best qs ≡ some e
    → (best ≡ some e) ⊎ ((q : JsonMap) × In q qs × IsUrgent now limit q e)
unfolding soonest_from
from_source now limit e [] best h = inl h
from_source now limit e (p ∷ qs) best h =
    elim (from_source now limit e qs (soonest_step now limit best p) h) [
      | inr (q, m, u) ↦ inr (q, inr m, u)
      | inl s ↦ elim (step_source now limit e best p s) [
        | inl b ↦ inl b
        | inr u ↦ inr (p, inl refl, u)
      ]
    ]

-- The time given is one at which quota of the model that is left, and does not refresh, lapses
-- within the window.
pub soonest_expiry_sound :
    (a : Account) (model : Text) (now window : ℕ) {e : ℕ}
    → soonest_non_refreshing_expiry a model now window ≡ some e
    → (q : JsonMap) × In q (quota_entries_for_model a (normalize_model_name model))
      × IsUrgent now (now + window) q e
unfolding soonest_non_refreshing_expiry
soonest_expiry_sound a model now window {e} h =
    elim (from_source now (now + window) e (quota_entries_for_model a (normalize_model_name model))
      none (ground arith)) [ inl n ↦ absurd (ground arith) | inr found ↦ found ]

some_of_AtMost : (o : Option ℕ) (n : ℕ) → AtMost o n → (b : ℕ) × (o ≡ some b) × (b ≤ n)
some_of_AtMost none n h = absurd h
some_of_AtMost (some b) n h = (b, refl, h)

-- And no such time is missed: where the normal form of the model's name is not empty and a column of
-- the model lapses within the window, a time is given, and it is no later.
pub soonest_expiry_least :
    (a : Account) (model : Text) (now window : ℕ) (q : JsonMap) (e : ℕ)
    → is_nil (normalize_model_name model) ≡ false
    → In q (quota_entries_for_model a (normalize_model_name model))
    → IsUrgent now (now + window) q e
    → (b : ℕ) × (soonest_non_refreshing_expiry a model now window ≡ some b) × (b ≤ e)
unfolding soonest_non_refreshing_expiry
soonest_expiry_least a model now window q e n m u =
    let entries = quota_entries_for_model a (normalize_model_name model) in
    let (b, s, l) = some_of_AtMost _ e (from_urgent now (now + window) e q entries none m u) in
    (b, ground arith, l)
