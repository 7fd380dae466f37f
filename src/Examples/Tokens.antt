-- ===== src/Examples/Tokens.antt =====
-- The theorems on the token pool.
use zcode2api_plus.Common.{
  ℕ, ◌+◌, ◌-◌, ◌<◌, ◌≤◌, ◌≡◌, ◌⊎◌, refl, arith, Bool, true, false, List, [], ◌∷◌, Option, none,
  some, Text, codes,
}
use zcode2api_plus.TokenPool.{TokenPool, Options, Config, Decoders, PoolToken, captcha_config_key}
use zcode2api_plus.TokenPool.Ops.{
  new_token_pool, set_config, take, warm, landed, mint, solved, solve_failed, settle, refill_once,
  token, waits,
}
use zcode2api_plus.TokenPool.Run.{IsWell, start, then_step, takes, sets_config, Runs-IsWell}
use zcode2api_plus.TokenPool.Wakeup.{deep_idle_rests}
use zcode2api_plus.TokenPool.Waiting.{Served, waits-Served}
use zcode2api_plus.TokenPool.Again.{rests, warms, taken_not_minted_again}
use zcode2api_plus.TokenPool.{ensure_mints, token_dedupe_key, extract_certify_id}
use zcode2api_plus.ModelName.{trim_space}
use zcode2api_plus.TokenPool.{normalized}
use zcode2api_plus.Examples.{start_time, day}

-- Decoders that read the parameter itself.
abbrev plain : Decoders
plain = record { decodings = λ raw. []; json_certify_id = λ t. t; digest = λ t. t }

abbrev options : Options
options = record {
  ttl = 95_000_000_000;
  min = 1;
  max = 2;
  empty_solve = 2;
  idle_shrink = 120_000_000_000;
  idle_stop = 900_000_000_000;
}

abbrev scene : Config
scene = record {
  enabled = true;
  prefix = codes "p";
  region = codes "cn";
  scene_id = codes "s";
  skip_model_request = false;
}

abbrev empty_pool : TokenPool
empty_pool = new_token_pool options true start_time

abbrev set_pool : TokenPool
set_pool = set_config scene true start_time empty_pool

abbrev first_token : PoolToken
first_token = record {
  param = codes "tok";
  region = codes "cn";
  certify_id = codes "tok";
  minted_at = start_time;
  expires_at = start_time + 95_000_000_000;
}

abbrev stocked_pool : TokenPool
stocked_pool = record empty_pool {
  cfg = scene;
  key = captcha_config_key scene;
  active = true;
  buckets = (captcha_config_key scene, first_token ∷ []) ∷ [];
}

empty_IsWell : IsWell empty_pool
unfolding new_token_pool
empty_IsWell = record { short = tt; keyed = tt; serving = λ n. absurd (ground arith) }

Runs-IsWell_example : IsWell (take plain scene 1 start_time set_pool).1
Runs-IsWell_example =
    Runs-IsWell plain empty_pool (take plain scene 1 start_time set_pool).1 empty_IsWell (
      then_step set_pool (then_step empty_pool start (sets_config scene true start_time))
        (takes scene 1 start_time))

waits-Served_example : Served 1 (take plain scene 1 start_time set_pool).1
unfolding set_config new_token_pool zcode2api_plus.Common.text_eq captcha_config_key trim_space
    zcode2api_plus.TokenPool.Ops.start_over zcode2api_plus.TokenPool.fail_waiters take
    zcode2api_plus.TokenPool.Ops.popped zcode2api_plus.TokenPool.pop
    zcode2api_plus.TokenPool.take_fresh zcode2api_plus.Common.lookup
    zcode2api_plus.TokenPool.Ops.begin_take zcode2api_plus.TokenPool.prune
    zcode2api_plus.TokenPool.prune_buckets
waits-Served_example = waits-Served plain scene 1 start_time set_pool (omega arith) refl

deep_idle_rests_example :
    let q = refill_once plain none (start_time + day) set_pool in
    (q.mint_total ≡ set_pool.mint_total) × (q.inflight ≡ set_pool.inflight)
unfolding set_config new_token_pool zcode2api_plus.Common.text_eq captcha_config_key trim_space
    zcode2api_plus.TokenPool.Ops.start_over zcode2api_plus.TokenPool.fail_waiters
deep_idle_rests_example = deep_idle_rests plain none (start_time + day) set_pool refl (omega arith)

abbrev given_pool : TokenPool
given_pool = (take plain scene 1 start_time stocked_pool).1

-- A moment later the pool keeps its level up.
abbrev warmed_pool : TokenPool
warmed_pool = warm (start_time + 1_000_000_000) given_pool

taken_not_minted_again_example :
    (mint plain scene
        (captcha_config_key scene)
        (solved (codes " tok "))
        (start_time + 60_000_000_000)
        warmed_pool
      ≡ mint plain scene
          (captcha_config_key scene)
          solve_failed
          (start_time + 60_000_000_000)
          warmed_pool)
    ⊎ (mint plain scene
          (captcha_config_key scene)
          (solved (codes " tok "))
          (start_time + 60_000_000_000)
          warmed_pool
        ≡ ensure_mints plain
            (start_time + 60_000_000_000)
            (landed (captcha_config_key scene) warmed_pool))
unfolding take new_token_pool zcode2api_plus.Common.text_eq captcha_config_key trim_space
    zcode2api_plus.TokenPool.Ops.popped zcode2api_plus.TokenPool.pop
    zcode2api_plus.TokenPool.take_fresh zcode2api_plus.Common.lookup
    zcode2api_plus.TokenPool.Ops.begin_take zcode2api_plus.TokenPool.prune
    zcode2api_plus.TokenPool.prune_buckets extract_certify_id
    zcode2api_plus.TokenPool.first_certify_id
taken_not_minted_again_example =
    taken_not_minted_again plain scene scene 1 start_time (start_time + 60_000_000_000) stocked_pool
      warmed_pool first_token (captcha_config_key scene) (codes " tok ") refl refl
      (warms given_pool (start_time + 1_000_000_000) rests (omega arith) (omega arith))
      (omega arith)
