-- ===== src/TokenPool/Fresh.antt =====
-- A token that a request is given has not expired, and belongs to the request's configuration.
use zcode2api_plus.Common.{
  ℕ, ◌+◌, ◌<◌, ◌≡◌, refl, subst, false, not, ◌||◌, List, [], ◌∷◌, some, Text, text_eq, text_eq_refl,
  text_eq_iff, ltb, if_intro, lookup, insert, keep, arith, inl, inr, Bool-cases, Option-cases,
}
use zcode2api_plus.TokenPool.{
  TokenPool, Decoders, Config, PoolToken, bucket, take_fresh, pop, prune, minute, token_dedupe_key,
  captcha_config_key, fresh,
}
use zcode2api_plus.TokenPool.Ops.{take, Taken, token, popped, begin_take}

abbrev pub dedupe_of : Decoders → PoolToken → Text
dedupe_of d tok = token_dedupe_key d tok.param tok.certify_id

-- An entry that stays is still the one found.
lookup-keep :
    (k : Text) (v now : ℕ) (m : List (Text × ℕ))
    → now < v
    → lookup k (keep (λ e. ltb now e.1) (insert k v m)) ≡ some v
unfolding lookup insert
lookup-keep k v now [] h = ground (arith, text_eq_refl k)
lookup-keep k v now ((j, w) ∷ m) h = ground (arith, text_eq_refl k, lookup-keep k v now m h)

take_fresh_sound :
    (now : ℕ) (xs : List PoolToken) {t : PoolToken × List PoolToken}
    → take_fresh now xs ≡ some t
    → now < t.0.expires_at
unfolding take_fresh
take_fresh_sound now [] h = absurd (ground arith)
take_fresh_sound now (x ∷ xs) {t} h = elim (Bool-cases (fresh now x)) [
  | inl y ↦ let e : x ≡ t.0 = ground arith in subst (λ z. now < z.expires_at) e (ground arith)
  | inr n ↦ take_fresh_sound now xs {t = t} (rw n at h)
]

-- What is known once a token has been taken from the bucket.
pub record Popped (d : Decoders) (now ttl : ℕ) (tok : PoolToken) (q : TokenPool) : Type 0 where
  pub unexpired : now < tok.expires_at
  pub lasting : q.opts.ttl ≡ ttl
  pub marked : lookup (dedupe_of d tok) q.issued ≡ some (now + ttl + minute)

popped_known :
    (d : Decoders) (key : Text) (id now : ℕ) (p : TokenPool) (tok : PoolToken)
    → let r = popped d key id now (pop d now key p).0 (pop d now key p).1 in
      r.0 ≡ token tok → Popped d now p.opts.ttl tok r.1
unfolding popped pop prune
popped_known d key id now p tok h = elim (Option-cases (take_fresh now (bucket p key))) [
  | inl e ↦ absurd (ground arith)
  | inr (t, e) ↦
      let same : t.0 ≡ tok = ground arith in
      let q : TokenPool = record p {
        buckets = insert key t.1 p.buckets;
        issued = insert (dedupe_of d t.0) (now + p.opts.ttl + minute) p.issued;
      } in
      rw (popped, pop, e)
        (subst (λ z. Popped d now p.opts.ttl z (prune now q)) same
          record {
            lasting = refl;
            unexpired = take_fresh_sound now (bucket p key) {t = t} e;
            marked =
                lookup-keep (dedupe_of d t.0) (now + p.opts.ttl + minute) now p.issued
                  (omega arith);
          })
]

pub taken_known :
    (d : Decoders) (cfg : Config) (id now : ℕ) (p : TokenPool) (tok : PoolToken)
    → (take d cfg id now p).0 ≡ token tok
    → (p.key ≡ captcha_config_key cfg)
      × (p.closed ≡ false)
      × Popped d now p.opts.ttl tok (take d cfg id now p).1
unfolding take begin_take prune
taken_known d cfg id now p tok =
    let key = captcha_config_key cfg in
    let P : Taken × TokenPool → Type 0 =
      λ r. r.0 ≡ token tok → (p.key ≡ key) × (p.closed ≡ false) × Popped d now p.opts.ttl tok r.1 in
    if_intro P p.closed (λ y. λ w. absurd (ground arith))
      (λ n.
        if_intro P (not p.active || not (text_eq p.key key) || not p.has_solver)
          (λ y. λ w. absurd (ground arith))
          (λ m. λ w. (
            (text_eq_iff p.key key).0 (ground arith),
            n,
            popped_known d key id now (begin_take now p) tok w,
          )))

-- A token that `Take` gives at once has not expired, and the pool is open and set to the
-- configuration that was asked for.
pub take_sound :
    (d : Decoders) (cfg : Config) (id now : ℕ) (p : TokenPool) (tok : PoolToken)
    → (take d cfg id now p).0 ≡ token tok
    → (now < tok.expires_at) × (p.key ≡ captcha_config_key cfg) × (p.closed ≡ false)
take_sound d cfg id now p tok h =
    let (k, c, f) = taken_known d cfg id now p tok h in (f.unexpired, k, c)
