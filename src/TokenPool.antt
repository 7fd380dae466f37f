-- ===== src/TokenPool.antt =====
-- The pool of captcha tokens that are solved ahead of requests: `tokenPool` of
-- internal/captcha/token_pool.go and the CPU governor beside it. A method is one function on the
-- whole state, because it holds the lock; the clock is read once for each. A solver runs outside
-- the lock, so `mint` is the part of the goroutine after `Solve` has returned. Log lines, the
-- samples of waiting times and the texts of errors are not modelled.
pub mod Cpu
pub mod Ops
pub mod Keeping
pub mod Run
pub mod Bounds
pub mod Wakeup
pub mod Waiting
pub mod Marked
pub mod Again
pub mod Fresh
pub mod Settings
use zcode2api_plus.Common.{
  ℕ, suc, ◌+◌, ◌-◌, Bool, true, false, not, ◌&&◌, ◌||◌, List, [], ◌∷◌, ◌++◌, map, Option, none,
  some, Text, codes, text_eq, ltb, leb, if◌then◌else◌, is_nil, keep, drop, length, or_else, lookup,
  insert, delete,
}
use zcode2api_plus.ModelName.{trim_space}

pub record Config : Type 0 where
  pub enabled : Bool
  pub prefix : Text
  pub region : Text
  pub scene_id : Text
  pub skip_model_request : Bool

-- Durations in ns.
pub record Options : Type 0 where
  pub ttl : ℕ
  pub min : ℕ
  pub max : ℕ
  pub empty_solve : ℕ
  pub idle_shrink : ℕ
  pub idle_stop : ℕ

-- `tokenPoolOptions.normalized`, from the defaults of the configuration.
unfoldable pub normalized : Options → Options → Options
normalized def o =
    let least = if ltb o.min 1 then def.min else o.min in
    let solve = if ltb o.empty_solve 1 then def.empty_solve else o.empty_solve in
    let shrink = if leb o.idle_shrink 0 then def.idle_shrink else o.idle_shrink in
    record {
      ttl = if leb o.ttl 0 then def.ttl else o.ttl;
      min = least;
      max = if ltb o.max least then least else o.max;
      empty_solve = if ltb 2 solve then 2 else solve;
      idle_shrink = shrink;
      idle_stop = if leb o.idle_stop shrink then def.idle_stop else o.idle_stop;
    }

pub record PoolToken : Type 0 where
  pub param : Text
  pub region : Text
  pub certify_id : Text
  pub minted_at : ℕ
  pub expires_at : ℕ

pub data PoolError : Type 0 where
  unavailable : PoolError
  pool_closed : PoolError

pub data WaitResult : Type 0 where
  got : PoolToken → WaitResult
  failed : PoolError → WaitResult

-- A waiter is known by a number in place of its pointer.
pub record Waiter : Type 0 where
  pub id : ℕ
  pub key : Text

-- `sent` holds what has been put into the channels of waiters, oldest first.
pub record TokenPool : Type 0 where
  pub opts : Options
  pub has_solver : Bool
  pub closed : Bool
  pub cfg : Config
  pub key : Text
  pub active : Bool
  pub buckets : List (Text × List PoolToken)
  pub issued : List (Text × ℕ)
  pub inflight : List (Text × ℕ)
  pub waiters : List Waiter
  pub sent : List (ℕ × WaitResult)
  pub mint_fail_streak : ℕ
  pub target : ℕ
  pub last_take : ℕ
  pub last_empty : ℕ
  pub last_decay : ℕ
  pub idle_shrink_logged : Bool
  pub idle_stop_logged : Bool
  pub take_total : ℕ
  pub empty_take_total : ℕ
  pub mint_total : ℕ
  pub mint_fail_total : ℕ

unfoldable pub captcha_config_key : Config → Text
captcha_config_key cfg =
    trim_space cfg.scene_id
    ++ codes "|"
    ++ trim_space cfg.region
    ++ codes "|"
    ++ trim_space cfg.prefix

-- What is not the program's: the decoders of net/url and encoding/base64 (the results of those that
-- succeed, in the order tried), the certifyId that encoding/json reads, empty where it fails, and
-- the first half of the SHA-256 sum, in hex.
pub record Decoders : Type 0 where
  pub decodings : Text → List Text
  pub json_certify_id : Text → Text
  pub digest : Text → Text

unfoldable pub first_certify_id : (Text → Text) → List Text → Text
first_certify_id read [] = []
first_certify_id read (c ∷ cs) =
    let id = trim_space (read c) in if is_nil id then first_certify_id read cs else id

unfoldable pub extract_certify_id : Decoders → Text → Text
extract_certify_id d param =
    let raw = trim_space param in first_certify_id d.json_certify_id (raw ∷ d.decodings raw)

unfoldable pub token_dedupe_key : Decoders → Text → Text → Text
token_dedupe_key d param certify_id =
    if is_nil certify_id then codes "param:" ++ d.digest param else codes "certify:" ++ certify_id

abbrev pub minute : ℕ
minute = 60_000_000_000

abbrev pub bucket : TokenPool → Text → List PoolToken
bucket p key = or_else (lookup key p.buckets) []

abbrev pub inflight_of : TokenPool → Text → ℕ
inflight_of p key = or_else (lookup key p.inflight) 0

abbrev pub fresh : ℕ → PoolToken → Bool
fresh now tok = ltb now tok.expires_at

-- The last `n` of a list.
abbrev pub take_last : ℕ → List PoolToken → List PoolToken
take_last n xs = if ltb n (length xs) then drop (length xs - n) xs else xs

unfoldable pub append_bucket : Text → PoolToken → TokenPool → TokenPool
append_bucket key tok p = record p {
  buckets = insert key (take_last p.opts.max (bucket p key ++ tok ∷ [])) p.buckets;
}

-- The oldest token that has not expired, and what stands behind it.
unfoldable pub take_fresh : ℕ → List PoolToken → Option (PoolToken × List PoolToken)
take_fresh now [] = none
take_fresh now (tok ∷ rest) = if fresh now tok then some (tok, rest) else take_fresh now rest

unfoldable pub pop : Decoders → ℕ → Text → TokenPool → Option PoolToken × TokenPool
pop d now key p = elim (take_fresh now (bucket p key)) [
  | none ↦ (none, record p { buckets = insert key [] p.buckets })
  | some (tok, rest) ↦ (
    some tok,
    record p {
      buckets = insert key rest p.buckets;
      issued =
          insert (token_dedupe_key d tok.param tok.certify_id) (now + p.opts.ttl + minute) p.issued;
    },
  )
]

unfoldable pub prune_buckets : ℕ → List (Text × List PoolToken) → List (Text × List PoolToken)
prune_buckets now [] = []
prune_buckets now ((key, list) ∷ m) =
    let kept = keep (fresh now) list in
    let rest = prune_buckets now m in if is_nil kept then rest else (key, kept) ∷ rest

unfoldable pub prune : ℕ → TokenPool → TokenPool
prune now p = record p {
  buckets = prune_buckets now p.buckets;
  issued = keep (λ e. ltb now e.1) p.issued;
}

abbrev pub fail_all : PoolError → List Waiter → List (ℕ × WaitResult)
fail_all e ws = map (λ w. (w.id, failed e)) ws

unfoldable pub fail_waiters : PoolError → TokenPool → TokenPool
fail_waiters e p = record p { sent = p.sent ++ fail_all e p.waiters; waiters = [] }

unfoldable pub launch_mints : Text → ℕ → TokenPool → TokenPool
launch_mints key n p = if leb n 0 || not p.has_solver || p.closed then p else record p {
  inflight = insert key (inflight_of p key + n) p.inflight;
  mint_total = p.mint_total + n;
}

-- `deliverBucketToWaitersLocked`, over the waiters in order; also whether one was served.
unfoldable pub deliver : Decoders → ℕ → List Waiter → TokenPool → TokenPool × Bool
deliver d now [] p = (p, false)
deliver d now (w ∷ ws) p =
    let (tok, q) = pop d now p.key p in
    elim tok [
      | none ↦ (q, false)
      | some t ↦ (
        (deliver d now ws (record q { waiters = ws; sent = q.sent ++ (w.id, got t) ∷ [] })).0,
        true,
      )
    ]

unfoldable pub ensure_mints : Decoders → ℕ → TokenPool → TokenPool
ensure_mints d now p =
    if p.closed || not p.active || not p.has_solver
    then fail_waiters unavailable p
    else if is_nil p.waiters || ltb 0 (inflight_of p p.key)
    then p
    else (let (q, delivered) = deliver d now p.waiters p in
        if delivered
        then q
        else if leb q.opts.empty_solve q.mint_fail_streak
        then fail_waiters unavailable q
        else launch_mints q.key q.opts.empty_solve q)
