-- ===== src/Examples/Recoveries.antt =====
-- The theorems on the recovery of used-up models.
use zcode2api_plus.Common.{
  ℕ, ◌+◌, ◌*◌, ◌<◌, ◌≡◌, ◌≢◌, ◌∙◌, ap, sym, inl, inr, In, Bool-cases, refl, arith, Bool, true,
  false, List, [], ◌∷◌, Option, none, some, Text, codes, text_eq, if◌then◌else◌,
}
use zcode2api_plus.Account.{Account, Status, Mode}
use zcode2api_plus.Account.Quota.{Availability, model_availability, names_model}
use zcode2api_plus.Recovery.{Recovery, RetryState, QuotaProbe}
use zcode2api_plus.Recovery.Leases.{
  Hash, leased, acquire_quota_probe, finish_quota_probe, restore_model,
}
use zcode2api_plus.Recovery.Exclusive.{Uses, edits, rests, one_lease}
use zcode2api_plus.Recovery.Resting.{Tries, fails, lease_pauses}
use zcode2api_plus.Table.{accounts_of}
use zcode2api_plus.Recovery.Restored.{restore_model_lem}
use zcode2api_plus.Examples.{first_account, start_time}

-- A hash that tells providers apart.
abbrev plain_hash : Hash
plain_hash provider mode key generation = provider

abbrev first_key : Account
first_key = record first_account {
  id = codes "k1";
  mode = Mode.api_key;
  api_key = some (codes "sk");
  status = Status.exhausted;
  exhausted_models = codes "glm" ∷ [];
}

abbrev second_key : Account
second_key = record first_key { id = codes "k2" }

abbrev due : RetryState
due = record {
  credential_hash = codes "zai";
  generation = 1;
  step = 0;
  next_at = start_time;
  minimum_seconds = 0;
}

abbrev two_keys : Recovery
two_keys = record {
  accounts = (codes "zai", first_key ∷ second_key ∷ []) ∷ [];
  recovery = (codes "k1", (codes "glm", due) ∷ []) ∷ (codes "k2", (codes "glm", due) ∷ []) ∷ [];
  probes = [];
  next_serial = 0;
}

abbrev first_probe : QuotaProbe
first_probe = record { serial = 0; expected = first_key; model = codes "glm"; generation = 1 }

abbrev second_probe : QuotaProbe
second_probe = record first_probe { serial = 1; expected = second_key }

abbrev one_leased : Recovery
one_leased =
    (acquire_quota_probe plain_hash (λ a. true) true (codes "zai") [] (codes "GLM") start_time
      two_keys).0

abbrev both_leased : Recovery
both_leased =
    (acquire_quota_probe plain_hash (λ a. true) true (codes "zai") [] (codes "glm") start_time
      one_leased).0

abbrev one_failed : Recovery
one_failed = (finish_quota_probe plain_hash true first_probe false start_time one_leased).0

abbrev other_leased : Recovery
other_leased =
    (acquire_quota_probe plain_hash (λ a. true) true (codes "zai") [] (codes "glm") start_time
      one_failed).0

first_lease :
    acquire_quota_probe plain_hash
      (λ a. true)
      true
      (codes "zai")
      []
      (codes "GLM")
      start_time
      two_keys
    ≡ (one_leased, leased first_probe)
unfolding acquire_quota_probe zcode2api_plus.ModelName.normalize_model_name
    zcode2api_plus.Common.lookup text_eq zcode2api_plus.Recovery.lookup2
    zcode2api_plus.Recovery.Leases.quota_probe_eligible zcode2api_plus.Account.secret
    model_availability names_model
first_lease = refl

second_lease :
    acquire_quota_probe plain_hash
      (λ a. true)
      true
      (codes "zai")
      []
      (codes "glm")
      start_time
      one_leased
    ≡ (both_leased, leased second_probe)
unfolding acquire_quota_probe zcode2api_plus.ModelName.normalize_model_name
    zcode2api_plus.Common.lookup text_eq zcode2api_plus.Recovery.lookup2
    zcode2api_plus.Recovery.Leases.quota_probe_eligible zcode2api_plus.Account.secret
    model_availability names_model zcode2api_plus.Recovery.insert2 zcode2api_plus.Common.insert
    zcode2api_plus.Recovery.clone_recovery
second_lease = refl

third_lease :
    acquire_quota_probe plain_hash
      (λ a. true)
      true
      (codes "zai")
      []
      (codes "glm")
      start_time
      one_failed
    ≡ (other_leased, leased second_probe)
unfolding acquire_quota_probe zcode2api_plus.ModelName.normalize_model_name
    zcode2api_plus.Common.lookup finish_quota_probe zcode2api_plus.Recovery.lookup2 text_eq
    zcode2api_plus.Account.secret model_availability names_model zcode2api_plus.Recovery.insert2
    zcode2api_plus.Common.insert zcode2api_plus.Table.find zcode2api_plus.Table.is_named
    zcode2api_plus.Recovery.delete2 zcode2api_plus.Common.delete
    zcode2api_plus.Recovery.clone_recovery
third_lease = refl

edited_use : Uses plain_hash first_probe one_leased one_leased
edited_use = edits one_leased one_leased.accounts rests

one_lease_example : ¬ ((codes "k2" ≡ codes "k1") × (codes "glm" ≡ codes "glm"))
one_lease_example =
    one_lease plain_hash (λ a. true) (λ a. true) true true (codes "zai") (codes "zai") [] []
      (codes "GLM") (codes "glm") start_time start_time two_keys one_leased both_leased one_leased
      first_probe second_probe first_lease edited_use second_lease

-- No other account has the id of the first.
first_alone :
    (p : Text) (b : Account)
    → In b (accounts_of two_keys.accounts p)
    → b.id ≡ codes "k1"
    → b ≡ first_key
unfolding zcode2api_plus.Common.lookup
first_alone p b = elim (Bool-cases (text_eq (codes "zai") p)) [
  | inl y ↦ rw y (λ l i. listed l i)
  | inr n ↦ rw n (λ l i. absurd l)
]
  where
    apart : codes "k2" ≢ codes "k1"
    apart e = ground arith

    listed : In b (first_key ∷ second_key ∷ []) → b.id ≡ codes "k1" → b ≡ first_key
    listed (inl e) i = e
    listed (inr (inl e)) i = absurd (apart (sym (ap (λ x. x.id) e) ∙ i))
    listed (inr (inr l)) i = absurd l

lease_pauses_example : ¬ ((codes "k2" ≡ codes "k1") × (codes "glm" ≡ codes "glm"))
lease_pauses_example =
    lease_pauses plain_hash (λ a. true) (λ a. true) true true (codes "zai") (codes "zai") [] []
      (codes "GLM") (codes "glm") start_time start_time two_keys one_leased other_leased one_failed
      first_probe second_probe first_lease first_alone
      (fails one_leased true first_probe start_time Tries.rests) (omega arith) third_lease

restore_model_lem_example :
    let b = restore_model (codes "glm") first_key in
    (model_availability b (codes "glm") ≡ (
      if names_model (codes "glm") first_key.disabled_models
      then Availability.disabled
      else Availability.unknown))
    × ((other : Text)
        → text_eq (codes "glm") other ≡ false
        → names_model other b.exhausted_models ≡ names_model other first_key.exhausted_models)
unfolding zcode2api_plus.ModelName.normalize_model_name
restore_model_lem_example = restore_model_lem (codes "glm") first_key refl refl
