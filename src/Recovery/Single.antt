-- ===== src/Recovery/Single.antt =====
-- What a lease that is given says of the leases before and after.
use zcode2api_plus.Common.{
  ℕ, ◌≡◌, ◌≢◌, inl, inr, refl, sym, ap, ◌∙◌, Bool, false, List, Option, none, some, Text,
  text_eq_refl, is_nil, is_some, arith, Bool-cases,
}
use zcode2api_plus.ModelName.{normalize_model_name}
use zcode2api_plus.Account.{Account}
use zcode2api_plus.Table.{accounts_of}
use zcode2api_plus.Recovery.{QuotaProbe, Recovery, lookup2}
use zcode2api_plus.Recovery.Leases.{
  Hash, Acquired, leased, nothing, passed_over, acquire_from, acquire_quota_probe,
}
use zcode2api_plus.Recovery.Cloning.{lookup2-insert2}
use zcode2api_plus.Recovery.Loop.{Given, acquire_from_lem}

abbrev result : Recovery → Acquired → Recovery × Acquired
result s r = (s, r)

pub acquire_started :
    (hash : Hash) (saved : Account → Bool) (then_saved : Bool) (provider : Text) (skip : List Text)
    (name : Text) (now : ℕ) (s t : Recovery) (probe : QuotaProbe)
    → acquire_quota_probe hash saved then_saved provider skip name now s ≡ (t, leased probe)
    → acquire_from hash saved then_saved skip
        (normalize_model_name name)
        now
        (accounts_of s.accounts provider)
        s
      ≡ (t, leased probe)
unfolding acquire_quota_probe
acquire_started hash saved then_saved provider skip name now s t probe h =
    elim (Bool-cases (is_nil (normalize_model_name name))) [
      | inl y ↦ absurd (nothing_given s (rw (acquire_quota_probe, y) at h))
      | inr n ↦ rw (acquire_quota_probe, n) at h
    ]
  where
    nothing_given : (s : Recovery) → result s nothing ≢ (t, leased probe)
    nothing_given s h = ground arith

pub acquire_lem :
    (hash : Hash) (saved : Account → Bool) (then_saved : Bool) (provider : Text) (skip : List Text)
    (name : Text) (now : ℕ) (s t : Recovery) (probe : QuotaProbe)
    → acquire_quota_probe hash saved then_saved provider skip name now s ≡ (t, leased probe)
    → Given hash skip (normalize_model_name name) now (accounts_of s.accounts provider) s t probe
acquire_lem hash saved then_saved provider skip name now s t probe h =
    acquire_from_lem hash saved then_saved skip (normalize_model_name name) now
      (accounts_of s.accounts provider) s t probe
      (acquire_started hash saved then_saved provider skip name now s t probe h)

pub free_before :
    (hash : Hash) (skip : List Text) (name : Text) (now : ℕ) (xs : List Account) (s t : Recovery)
    (probe : QuotaProbe)
    → Given hash skip name now xs s t probe
    → lookup2 (probe.expected).id probe.model s.probes ≡ none
free_before hash skip name now xs s t probe g =
    rw (g.expected, g.model, sym (g.unmoved).probes) (none_of (free g.chosen))
  where
    free :
        passed_over skip name now g.account g.before ≡ false
        → is_some (lookup2 (g.account).id name (g.before).probes) ≡ false
    free h = ground arith

    none_of : {o : Option QuotaProbe} → is_some o ≡ false → o ≡ none
    none_of {o} h = ground arith

pub held_after :
    (hash : Hash) (skip : List Text) (name : Text) (now : ℕ) (xs : List Account) (s t : Recovery)
    (probe : QuotaProbe)
    → Given hash skip name now xs s t probe
    → lookup2 (probe.expected).id probe.model t.probes ≡ some probe
held_after hash skip name now xs s t probe g =
    ap (λ x. lookup2 x.id probe.model t.probes) g.expected
    ∙ ap (λ m. lookup2 (g.account).id m t.probes) g.model
    ∙ ap (λ m. lookup2 (g.account).id name m) g.result
    ∙ lookup2-insert2 (g.account).id name (g.account).id name probe s.probes
    ∙ rw (text_eq_refl (g.account).id, text_eq_refl name) refl
