-- ===== src/Examples/Replays.antt =====
-- The theorems on the guard against replays and on the scope of a request.
use zcode2api_plus.Common.{
  ℕ, ◌+◌, ◌≡◌, refl, arith, true, false, List, [], ◌∷◌, map, Text, codes, leb, length, min,
  if◌then◌else◌,
}
use zcode2api_plus.Replay.{ReplayGuard, record_verdict, verdict}
use zcode2api_plus.Replay.Allowance.{
  Call, taking, recording, asking, all_let_through, all_tries, replay_lets_one,
}
use zcode2api_plus.Replay.Scope.{Refusal, scope_after, clean_lines, distinct, verdict_lem}

abbrev content : Text
content = codes "glm|1f"

abbrev empty_guard : ReplayGuard
empty_guard = record { entries = []; ttl = 60 }

abbrev storm : List Call
storm =
    asking content 101
    ∷ taking content 102
    ∷ recording (codes "other") 103
    ∷ recording content 110
    ∷ taking content 120
    ∷ taking content 150
    ∷ []

replay_lets_one_example :
    all_let_through true content storm (record_verdict true content 100 empty_guard)
    ≡ min 1 (all_tries content storm)
unfolding zcode2api_plus.Common.lookup
replay_lets_one_example =
    replay_lets_one true content 100 storm empty_guard refl refl
      (
        omega arith,
        omega arith,
        (
          omega arith,
          omega arith,
          (
            omega arith,
            omega arith,
            (omega arith, omega arith, (omega arith, omega arith, (omega arith, omega arith, tt))),
          ),
        ),
      )
      (omega arith)

abbrev first_refusal : Refusal
first_refusal = record { account = codes "a"; line_key = codes "l1"; line_dirty = false }

abbrev dirty_refusal : Refusal
dirty_refusal = record { account = codes "b"; line_key = codes "l2"; line_dirty = true }

verdict_lem_example :
    ((verdict 1 (codes "a") (codes "l1") false (scope_after 1 content (dirty_refusal ∷ []))).1
      ≡ leb 1 (distinct (clean_lines (first_refusal ∷ dirty_refusal ∷ []))))
    × (length (scope_after 1 content (first_refusal ∷ dirty_refusal ∷ [])).accounts
        ≡ distinct (codes "a" ∷ codes "b" ∷ []))
verdict_lem_example = verdict_lem 1 content first_refusal (dirty_refusal ∷ [])
