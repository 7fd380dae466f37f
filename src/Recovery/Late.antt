-- ===== src/Recovery/Late.antt =====
-- Answers that come back after an administrator has stopped their account: the marks on the account
-- table, and the mark of a used-up model, which asks only for the login.
use zcode2api_plus.Common.{
  ℕ, ◌≡◌, ◌∙◌, ap, subst, text_eq_refl, Bool, true, false, List, [], ◌∷◌, some, Text, text_eq,
  text_eq_iff, arith, inl, inr, Bool-cases,
}
use zcode2api_plus.ModelName.{normalize_model_name}
use zcode2api_plus.Account.{Account, same_credential}
use zcode2api_plus.Account.Scheduling.{is_selectable}
use zcode2api_plus.Account.Quota.{mark_model_exhausted}
use zcode2api_plus.Table.{Accounts, find, write, is_named}
use zcode2api_plus.Table.Laws.{find-write}
use zcode2api_plus.Marks.Late.{
  Answer, answer, is_stopped, StaysStopped, answer_stopped, stopped_unselectable,
}
use zcode2api_plus.Recovery.{Recovery, Recoveries, exhaust_account, commit}
use zcode2api_plus.Recovery.Leases.{Hash, mark_quota_exhausted}

-- What becomes of a request: an answer that marks the account, or one that says that the model is
-- used up, whose mark may be saved or not.
pub data Outcome : Type 0 where
  marks : Answer → Outcome
  used_up : Hash → Bool → Text → Text → ℕ → Outcome

unfoldable pub outcome : Recovery → Account → ℕ → Outcome → Recovery
unfolding answer
outcome s e now (marks r) = record s { accounts = answer s.accounts e now r }
outcome s e now (used_up hash saved name detail wait) =
    (mark_quota_exhausted hash saved (some e) name detail now wait s).0

-- Answers in the order in which they arrive, each with the login that its request was made under.
unfoldable pub outcomes : Recovery → List (Account × ℕ × Outcome) → Recovery
outcomes s [] = s
outcomes s ((e, now, r) ∷ rs) = outcomes (outcome s e now r) rs

abbrev pub AllFor : Text → Text → List (Account × ℕ × Outcome) → Type 0
AllFor provider id [] = Unit {0}
AllFor provider id ((e, now, r) ∷ rs) =
    (e.provider ≡ provider) × (e.id ≡ id) × AllFor provider id rs

exhausted_stopped :
    (marked : Bool) (detail : Text) (now : ℕ) (a : Account)
    → is_stopped a ≡ true
    → (is_stopped (exhaust_account marked detail now a) ≡ true)
      × ((exhaust_account marked detail now a).id ≡ a.id)
      × ((exhaust_account marked detail now a).provider ≡ a.provider)
      × ((exhaust_account marked detail now a).name ≡ a.name)
unfolding is_stopped exhaust_account
exhausted_stopped marked detail now a h = (ground arith, ground arith, ground arith, ground arith)

model_stopped :
    (name : Text) (a : Account)
    → is_stopped a ≡ true
    → let b = (mark_model_exhausted a name).0 in
      (is_stopped b ≡ true) × (b.id ≡ a.id) × (b.provider ≡ a.provider) × (b.name ≡ a.name)
unfolding is_stopped mark_model_exhausted
model_stopped name a h = (ground arith, ground arith, ground arith, ground arith)

same_login :
    (a e : Account)
    → same_credential (some a) (some e) ≡ true
    → (a.id ≡ e.id) × (a.provider ≡ e.provider)
unfolding same_credential
same_login a e h =
    (ground (arith, text_eq_iff a.id e.id), ground (arith, text_eq_iff a.provider e.provider))

written_stopped :
    (s : Accounts) (e a b : Account)
    → find s e.provider e.id ≡ some a
    → is_stopped b ≡ true
    → b.provider ≡ e.provider
    → b.id ≡ e.id
    → StaysStopped (write s b.provider b.id b) e.provider e.id
unfolding is_named
written_stopped s e a b f h p i = (b, ap (λ t. find t e.provider e.id) same ∙ found, h)
  where
    same : write s b.provider b.id b ≡ write s e.provider e.id b
    same = ap (λ x. write s x b.id b) p ∙ ap (λ x. write s e.provider x b) i

    named : is_named e.id b ≡ true
    named = ground (arith, text_eq_refl b.id, ap (λ x. text_eq b.id x) i)

    found : find (write s e.provider e.id b) e.provider e.id ≡ some b
    found = find-write s e.provider e.id a b f named

committed_stopped :
    (saved : Bool) (next : Recoveries) (s : Recovery) (e a b : Account)
    → find s.accounts e.provider e.id ≡ some a
    → is_stopped a ≡ true
    → is_stopped b ≡ true
    → b.provider ≡ e.provider
    → b.id ≡ e.id
    → StaysStopped (commit saved next (some b) s).0.accounts e.provider e.id
unfolding commit
committed_stopped false next s e a b f g h p i = (a, f, g)
committed_stopped true next s e a b f g h p i = written_stopped s.accounts e a b f h p i

used_up_stopped :
    (hash : Hash) (saved : Bool) (name detail : Text) (now wait : ℕ) (s : Recovery) (e a : Account)
    → find s.accounts e.provider e.id ≡ some a
    → is_stopped a ≡ true
    → StaysStopped
        (mark_quota_exhausted hash saved (some e) name detail now wait s).0.accounts
        e.provider
        e.id
unfolding mark_quota_exhausted
used_up_stopped hash saved name detail now wait s e a f h =
    elim (Bool-cases (same_credential (some a) (some e))) [
      | inl y ↦
          let (b, marked) = mark_model_exhausted a (normalize_model_name name) in
          let (sb, ib, pb, nb) = model_stopped (normalize_model_name name) a h in
          let (sc, ic, pc, nc) = exhausted_stopped marked detail now b sb in
          let (i, p) = same_login a e y in
          rw (mark_quota_exhausted, f, y)
            (committed_stopped saved _ s e a _ f h sc (pc ∙ pb ∙ p) (ic ∙ ib ∙ i))
      | inr n ↦ rw (mark_quota_exhausted, f, n) (a, f, h)
    ]

outcome_stopped :
    (s : Recovery) (e a : Account) (now : ℕ) (r : Outcome)
    → find s.accounts e.provider e.id ≡ some a
    → is_stopped a ≡ true
    → StaysStopped (outcome s e now r).accounts e.provider e.id
unfolding outcome
outcome_stopped s e a now (marks r) f h = answer_stopped s.accounts e a now r f h
outcome_stopped s e a now (used_up hash saved name detail wait) f h =
    used_up_stopped hash saved name detail now wait s e a f h

outcomes_stopped :
    (provider id : Text) (rs : List (Account × ℕ × Outcome)) (s : Recovery) (a : Account)
    → AllFor provider id rs
    → find s.accounts provider id ≡ some a
    → is_stopped a ≡ true
    → StaysStopped (outcomes s rs).accounts provider id
unfolding outcomes
outcomes_stopped provider id [] s a m f h = (a, f, h)
outcomes_stopped provider id ((e, now, r) ∷ rs) s a m f h =
    let g : find s.accounts e.provider e.id ≡ some a = rw (m.0, m.1) f in
    let (b, k, t) = outcome_stopped s e a now r g h in
    outcomes_stopped provider id rs (outcome s e now r) b m.2
      (subst (λ x. find (outcome s e now r).accounts x id ≡ some b) m.0
        (subst (λ x. find (outcome s e now r).accounts e.provider x ≡ some b) m.1 k))
      t

-- Once an account is disabled or archived, no row of late answers to its requests makes it one that
-- may be called: rate limits, answers 503, risk control answers with and without a cooling, marks of
-- any status, failures, errors, streams cut off, successes and used-up models, saved or not, under
-- whichever of its logins the requests were made.
pub late_answers_cannot_revive :
    (provider id : Text) (rs : List (Account × ℕ × Outcome)) (s : Recovery) (a : Account)
    (later : ℕ)
    → AllFor provider id rs
    → find s.accounts provider id ≡ some a
    → is_stopped a ≡ true
    → (b : Account) × (find (outcomes s rs).accounts provider id ≡ some b)
      × (is_selectable b later ≡ false)
late_answers_cannot_revive provider id rs s a later m f h =
    let (b, k, t) = outcomes_stopped provider id rs s a m f h in
    (b, k, stopped_unselectable b later t)
