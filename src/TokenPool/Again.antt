-- ===== src/TokenPool/Again.antt =====
-- A token that has been given out is not accepted from a mint again.
use zcode2api_plus.Common.{
  ℕ, ◌+◌, ◌≤◌, ◌<◌, ◌≡◌, refl, ap, ◌∙◌, Bool, false, ◌&&◌, Option, Text, text_eq, ltb, ◌==◌,
  if_intro, is_nil, first, lookup, arith, inl, inr, ◌⊎◌, Option-cases,
}
use zcode2api_plus.ModelName.{trim_space}
use zcode2api_plus.TokenPool.{
  TokenPool, Decoders, Config, PoolToken, Waiter, got, failed, minute, append_bucket, prune,
  ensure_mints, token_dedupe_key, extract_certify_id,
}
use zcode2api_plus.TokenPool.Cpu.{CpuGovernor}
use zcode2api_plus.TokenPool.Ops.{
  warm, set_solver, take, token, receive, remove_waiter, Solved, solved, solve_failed,
  count_mint_fail, accept, settle, landed, mint, refill_once, issued_now,
}
use zcode2api_plus.TokenPool.Fresh.{taken_known}
use zcode2api_plus.TokenPool.Marked.{
  Held, Held-same, Held-prune, Held-take, Held-mint, Held-receive, Held-warm, Held-refill,
}

-- The pool at work between two times: every operation but those that throw all tokens away, which
-- are a change of configuration, `Clear` and `Close`.
pub data Works (d : Decoders) (from until : ℕ) (p : TokenPool) : TokenPool → Type 0 where
  rests : Works d from until p p
  warms :
      (q : TokenPool) (now : ℕ)
      → Works d from until p q
      → from ≤ now
      → now < until
      → Works d from until p (warm now q)
  sets_solver :
      (q : TokenPool) (has : Bool)
      → Works d from until p q
      → Works d from until p (set_solver has q)
  takes :
      (q : TokenPool) (cfg : Config) (id now : ℕ)
      → Works d from until p q
      → from ≤ now
      → now < until
      → Works d from until p (take d cfg id now q).1
  receives :
      (q : TokenPool) (id now : ℕ)
      → Works d from until p q
      → from ≤ now
      → now < until
      → Works d from until p (receive id now q).1
  gives_up :
      (q : TokenPool) (w : Waiter)
      → Works d from until p q
      → Works d from until p (remove_waiter w q)
  mints :
      (q : TokenPool) (cfg : Config) (key : Text) (result : Solved) (now : ℕ)
      → Works d from until p q
      → from ≤ now
      → now < until
      → Works d from until p (mint d cfg key result now q)
  refills :
      (q : TokenPool) (g : Option CpuGovernor) (now : ℕ)
      → Works d from until p q
      → from ≤ now
      → now < until
      → Works d from until p (refill_once d g now q)
  prunes :
      (q : TokenPool) (now : ℕ)
      → Works d from until p q
      → from ≤ now
      → now < until
      → Works d from until p (prune now q)

removed_same :
    (w : Waiter) (p : TokenPool)
    → ((remove_waiter w p).issued ≡ p.issued) × ((remove_waiter w p).opts ≡ p.opts)
unfolding remove_waiter append_bucket
removed_same w p = elim (Option-cases (first (λ x. x.id == w.id) p.waiters)) [
  | inr (x, f) ↦ rw (remove_waiter, f) (refl, refl)
  | inl n ↦ elim (Option-cases (first (λ e. e.0 == w.id) p.sent)) [
    | inl m ↦ rw (remove_waiter, n, m) (refl, refl)
    | inr ((id, failed e), f) ↦ rw (remove_waiter, n, f) (refl, refl)
    | inr ((id, got tok), f) ↦ rw (remove_waiter, n, f) (ground arith)
  ]
]

-- A record that is there at the start stays.
Works-Held :
    (d : Decoders) (k : Text) (from until : ℕ) {p q : TokenPool}
    → Held k until from p
    → Works d from until p q
    → Held k until from q
unfolding set_solver
Works-Held d k from until h rests = h
Works-Held d k from until h (warms q now r a b) =
    Held-warm d k until from now a b q (Works-Held d k from until h r)
Works-Held d k from until h (sets_solver q has r) =
    Held-same q _ refl refl (Works-Held d k from until h r)
Works-Held d k from until h (takes q cfg id now r a b) =
    Held-take d k until from now a b cfg id q (Works-Held d k from until h r)
Works-Held d k from until h (receives q id now r a b) =
    Held-receive d k until from now a b id q (Works-Held d k from until h r)
Works-Held d k from until h (gives_up q w r) =
    let (i, o) = removed_same w q in
    Held-same q (remove_waiter w q) i o (Works-Held d k from until h r)
Works-Held d k from until h (mints q cfg key result now r a b) =
    Held-mint d k until from now a b cfg key result q (Works-Held d k from until h r)
Works-Held d k from until h (refills q g now r a b) =
    Held-refill d k until from now a b g q (Works-Held d k from until h r)
Works-Held d k from until h (prunes q now r a b) =
    Held-prune d k until from now a b q (Works-Held d k from until h r)

-- A mint of something on record counts as a failed one, or not at all.
settle-Held :
    (d : Decoders) (cfg : Config) (key param : Text) (now : ℕ) (q : TokenPool) {until base : ℕ}
    → now < until
    → Held (token_dedupe_key d (trim_space param) (extract_certify_id d param)) until base q
    → (settle d cfg key (solved param) now q ≡ settle d cfg key solve_failed now q)
      ⊎ (settle d cfg key (solved param) now q ≡ q)
unfolding settle accept
settle-Held d cfg key param now q {until} {base} l h =
    let fine = λ (r : TokenPool). (r ≡ count_mint_fail q) ⊎ (r ≡ q) in
    let j = token_dedupe_key d (trim_space param) (extract_certify_id d param) in
    if_intro fine (is_nil (trim_space param)) (λ y. inl refl)
      (λ n.
        if_intro fine (text_eq q.key key && q.active)
          (λ y.
            if_intro fine (issued_now (lookup j q.issued) now) (λ z. inl refl)
              (λ m. absurd (known (rw h.found at m))))
          (λ n. inr refl))
  where
    known : ltb now h.expires ≡ false → ⊥
    known m = let e = h.late in ground arith

-- A token that `Take` gives at once is not accepted from a mint again until its time of life and a
-- minute have passed, whatever the pool does in between short of a change of configuration, `Clear`
-- and `Close`: a mint that yields it, or another token of the same certifyId, is handled as a failed
-- one, or as one for a configuration that is no longer set, which changes nothing but the count of
-- mints under way and what that sets off.
pub taken_not_minted_again :
    (d : Decoders) (cfg again : Config) (id now later : ℕ) (p q : TokenPool) (tok : PoolToken)
    (key param : Text)
    → (take d cfg id now p).0 ≡ token tok
    → token_dedupe_key d (trim_space param) (extract_certify_id d param)
      ≡ token_dedupe_key d tok.param tok.certify_id
    → Works d now (now + p.opts.ttl + minute) (take d cfg id now p).1 q
    → later < now + p.opts.ttl + minute
    → (mint d again key (solved param) later q ≡ mint d again key solve_failed later q)
      ⊎ (mint d again key (solved param) later q ≡ ensure_mints d later (landed key q))
unfolding mint
taken_not_minted_again d cfg again id now later p q tok key param h same works l =
    elim (settle-Held d again key param later (landed key q) l (unlanded held)) [
      | inl e ↦ inl (ap (ensure_mints d later) e)
      | inr e ↦ inr (ap (ensure_mints d later) e)
    ]
  where
    until : ℕ
    until = now + p.opts.ttl + minute

    j : Text
    j = token_dedupe_key d (trim_space param) (extract_certify_id d param)

    given : Held j until now (take d cfg id now p).1
    given =
        let (k, c, f) = taken_known d cfg id now p tok h in
        record {
          expires = until;
          found = ap (λ x. lookup x ((take d cfg id now p).1).issued) same ∙ f.marked;
          late = omega arith;
          renews = omega (arith, f.lasting);
        }

    held : Held j until now q
    held = Works-Held d j now until given works

    unlanded : Held j until now q → Held j until now (landed key q)
    unlanded x = unfold landed in Held-same q _ refl refl x
