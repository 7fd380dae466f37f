-- ===== src/TokenPool/Ops.antt =====
-- The operations of the token pool.
use zcode2api_plus.Common.{
  ℕ, ◌+◌, ◌-◌, Bool, true, false, not, ◌&&◌, ◌||◌, List, [], ◌∷◌, ◌++◌, Option, none, some, Text,
  text_eq, ltb, leb, ◌==◌, if◌then◌else◌, is_nil, length, lookup, insert, delete, keep, first, min,
}
use zcode2api_plus.ModelName.{trim_space}
use zcode2api_plus.TokenPool.{
  TokenPool, Options, Config, Decoders, PoolToken, PoolError, unavailable, pool_closed, WaitResult,
  got, failed, Waiter, captcha_config_key, extract_certify_id, token_dedupe_key, minute, bucket,
  inflight_of, append_bucket, pop, prune, fail_waiters, launch_mints, ensure_mints,
}
use zcode2api_plus.TokenPool.Cpu.{CpuGovernor, scaled}

-- `newTokenPool` at a time, with normalized options; `Config` is the empty one.
unfoldable pub new_token_pool : Options → Bool → ℕ → TokenPool
new_token_pool opts has_solver now = record {
  opts = opts;
  has_solver = has_solver;
  closed = false;
  cfg = record {
    enabled = false;
    prefix = [];
    region = [];
    scene_id = [];
    skip_model_request = false;
  };
  key = [];
  active = false;
  buckets = [];
  issued = [];
  inflight = [];
  waiters = [];
  sent = [];
  mint_fail_streak = 0;
  target = opts.min;
  last_take = now;
  last_empty = 0;
  last_decay = now;
  idle_shrink_logged = false;
  idle_stop_logged = false;
  take_total = 0;
  empty_take_total = 0;
  mint_total = 0;
  mint_fail_total = 0;
}

unfoldable pub warm : ℕ → TokenPool → TokenPool
warm now p =
    if p.closed || not p.active || not p.has_solver
    then p
    else (let q = prune now p in
        if not (is_nil (bucket q q.key)) || ltb 0 (inflight_of q q.key)
        then q
        else launch_mints q.key 1 q)

unfoldable pub set_solver : Bool → TokenPool → TokenPool
set_solver has p = record p { has_solver = has }

unfoldable pub ready : Config → TokenPool → Bool
ready cfg p = not p.closed && p.active && p.has_solver && text_eq p.key (captcha_config_key cfg)

-- The part of `SetConfig` for a key that has changed.
unfoldable pub start_over : ℕ → TokenPool → TokenPool
start_over now p = fail_waiters unavailable (record p {
  buckets = [];
  issued = [];
  target = p.opts.min;
  idle_shrink_logged = false;
  idle_stop_logged = false;
  last_take = now;
  last_decay = now;
  mint_fail_streak = 0;
})

unfoldable pub set_config : Config → Bool → ℕ → TokenPool → TokenPool
set_config cfg verified now p =
    if p.closed
    then p
    else (let key = captcha_config_key cfg in
        let q = if text_eq key p.key then p else start_over now p in
        let r = record q { key = key; cfg = cfg; active = verified && cfg.enabled } in
        if r.active then r else fail_waiters unavailable (record r { buckets = []; issued = [] }))

unfoldable pub clear : TokenPool → TokenPool
clear p = record p { buckets = []; issued = [] }

-- `Take` up to its `select`: an answer, or the wait of the waiter with the number given.
pub data Taken : Type 0 where
  refused : PoolError → Taken
  token : PoolToken → Taken
  waits : Taken

-- The pool is empty: the request joins the queue.
unfoldable pub enqueue : Decoders → Text → ℕ → ℕ → TokenPool → TokenPool
enqueue d key id now p = ensure_mints d now (record p {
  empty_take_total = p.empty_take_total + 1;
  last_empty = now;
  target = if ltb p.target p.opts.max then p.target + 1 else p.target;
  mint_fail_streak = if is_nil p.waiters then 0 else p.mint_fail_streak;
  waiters = p.waiters ++ record { id = id; key = key } ∷ [];
})

unfoldable pub popped : Decoders → Text → ℕ → ℕ → Option PoolToken → TokenPool → Taken × TokenPool
popped d key id now none p = (waits, enqueue d key id now p)
popped d key id now (some tok) p = (token tok, prune now p)

unfoldable pub begin_take : ℕ → TokenPool → TokenPool
begin_take now p = record (prune now p) { take_total = p.take_total + 1; last_take = now }

unfoldable pub take : Decoders → Config → ℕ → ℕ → TokenPool → Taken × TokenPool
take d cfg id now p =
    let key = captcha_config_key cfg in
    if p.closed
    then (refused pool_closed, p)
    else if not p.active || not (text_eq p.key key) || not p.has_solver
    then (refused unavailable, prune now p)
    else (let (tok, q) = pop d now key (begin_take now p) in popped d key id now tok q)

-- A waiter receives from its channel, and `finishTakeLocked` prunes.
unfoldable pub receive : ℕ → ℕ → TokenPool → Option WaitResult × TokenPool
receive id now p = elim (first (λ e. e.0 == id) p.sent) [
  | none ↦ (none, p)
  | some e ↦ (some e.1, prune now (record p { sent = keep (λ x. not (x.0 == id)) p.sent }))
]

unfoldable pub remove_first : ℕ → List Waiter → List Waiter
remove_first id [] = []
remove_first id (w ∷ ws) = if w.id == id then ws else w ∷ remove_first id ws

-- `removeWaiter` with restoreToken, as its callers have it.
unfoldable pub remove_waiter : Waiter → TokenPool → TokenPool
remove_waiter w p = elim (first (λ x. x.id == w.id) p.waiters) [
  | some x ↦ record p { waiters = remove_first w.id p.waiters }
  | none ↦ elim (first (λ e. e.0 == w.id) p.sent) [
    | none ↦ p
    | some (id, result) ↦
        let q = record p { sent = keep (λ x. not (x.0 == w.id)) p.sent } in
        elim result [
          | failed e ↦ q
          | got tok ↦ if q.active && text_eq q.key w.key then append_bucket w.key tok q else q
        ]
  ]
]

-- What `Solve` returns: an error, or a parameter.
pub data Solved : Type 0 where
  solve_failed : Solved
  solved : Text → Solved

unfoldable pub count_mint_fail : TokenPool → TokenPool
count_mint_fail p = record p {
  mint_fail_total = p.mint_fail_total + 1;
  mint_fail_streak = p.mint_fail_streak + 1;
}

-- The new token goes to the earliest waiter, or into the bucket.
unfoldable pub hand_over : Text → PoolToken → List Waiter → TokenPool → TokenPool
hand_over key tok [] p = append_bucket key tok p
hand_over key tok (w ∷ ws) p = record p { waiters = ws; sent = p.sent ++ (w.id, got tok) ∷ [] }

abbrev pub issued_now : Option ℕ → ℕ → Bool
issued_now none now = false
issued_now (some exp) now = ltb now exp

unfoldable pub accept : Decoders → Config → Text → Text → ℕ → TokenPool → TokenPool
accept d cfg key param now p =
    let tok : PoolToken = record {
      param = trim_space param;
      region = cfg.region;
      certify_id = extract_certify_id d param;
      minted_at = now;
      expires_at = now + p.opts.ttl;
    } in
    let dedupe = token_dedupe_key d tok.param tok.certify_id in
    if issued_now (lookup dedupe p.issued) now
    then count_mint_fail p
    else hand_over key tok p.waiters (record p {
      issued = insert dedupe (now + p.opts.ttl + minute) p.issued;
      mint_fail_streak = 0;
    })

unfoldable pub settle : Decoders → Config → Text → Solved → ℕ → TokenPool → TokenPool
settle d cfg key solve_failed now p = count_mint_fail p
settle d cfg key (solved param) now p =
    if is_nil (trim_space param)
    then count_mint_fail p
    else if text_eq p.key key && p.active
    then accept d cfg key param now p
    else p

-- An entry that would not stay above 0 is deleted.
unfoldable pub landed : Text → TokenPool → TokenPool
landed key p = record p {
  inflight =
      if leb (inflight_of p key) 1
      then delete key p.inflight
      else insert key (inflight_of p key - 1) p.inflight;
}

unfoldable pub mint : Decoders → Config → Text → Solved → ℕ → TokenPool → TokenPool
mint d cfg key result now p = ensure_mints d now (settle d cfg key result now (landed key p))

-- The marks of the log lines, and the target while idle.
unfoldable pub note_idle : ℕ → TokenPool → TokenPool
note_idle idle p =
    if ltb p.opts.idle_stop idle
    then record p {
      idle_stop_logged = true;
      idle_shrink_logged = if p.idle_stop_logged then p.idle_shrink_logged else true;
    }
    else if ltb p.opts.idle_shrink idle
    then record p { idle_shrink_logged = true }
    else record p { idle_shrink_logged = false; idle_stop_logged = false }

unfoldable pub decay : ℕ → TokenPool → TokenPool
decay now p =
    if leb minute (now - p.last_decay)
    then record p {
      target =
          if leb minute (now - p.last_empty) && ltb p.opts.min p.target
          then p.target - 1
          else p.target;
      last_decay = now;
    }
    else p

-- How many mints the level asks for.
unfoldable pub wanted : Option CpuGovernor → ℕ → TokenPool → ℕ
wanted g idle p =
    let idle_target =
      if ltb p.opts.idle_shrink idle || ltb p.opts.idle_stop idle then 1 else p.target in
    let (target, concurrency) = scaled g idle_target p.opts.empty_solve in
    if ltb p.opts.idle_stop idle
    then 0
    else min concurrency (target - length (bucket p p.key) - inflight_of p p.key)

-- `refillOnce`, with the governor after its `Update`.
unfoldable pub refill_once : Decoders → Option CpuGovernor → ℕ → TokenPool → TokenPool
refill_once d g now p =
    if p.closed || not p.active || not p.has_solver
    then p
    else (let q = prune now p in
        if not (is_nil q.waiters)
        then ensure_mints d now q
        else (let r = note_idle (now - q.last_take) q in
            decay now (launch_mints r.key (wanted g (now - r.last_take) r) r)))

-- `Close`, up to the wait for its goroutines.
unfoldable pub close : TokenPool → TokenPool
close p =
    if p.closed
    then p
    else fail_waiters pool_closed
        (record p { closed = true; active = false; buckets = []; issued = [] })
