-- ===== src/Ticket/Upkeep.antt =====
-- What the pool of tickets keeps, and the two kinds of change that keep it: a ticket is touched
-- where it stands, or it goes and its work is cancelled.
use zcode2api_plus.Common.{
  ℕ, ◌≤◌, ◌<◌, ◌≡◌, ◌≢◌, ◌⊎◌, inl, inr, refl, sym, ap, ◌∙◌, true, false, List, [], ◌∷◌, some, Text,
  text_eq, text_eq_iff, ◌==◌, length, any, lookup, insert, delete, lookup-insert, lookup-delete,
  arith, Bool-cases, Option-cases,
}
use zcode2api_plus.Ticket.{Ticket, Pool, queue_size, is_cancelled, release_ticket, release_all}

-- What a map with an entry written or removed holds was written or was there.
pub insert_found {ℓ} :
    {V : Type ℓ} (i j : Text) (v w : V) (m : List (Text × V))
    → lookup j (insert i v m) ≡ some w
    → ((i ≡ j) × (v ≡ w)) ⊎ ((text_eq i j ≡ false) × (lookup j m ≡ some w))
insert_found i j v w m h =
    let e = lookup-insert i j v m in
    elim (Bool-cases (text_eq i j)) [
      | inl y ↦ inl ((text_eq_iff i j).0 y, ground (arith, e))
      | inr n ↦ inr (n, ground (arith, e))
    ]

pub delete_found {ℓ} :
    {V : Type ℓ} (i j : Text) (w : V) (m : List (Text × V))
    → lookup j (delete i m) ≡ some w
    → (text_eq i j ≡ false) × (lookup j m ≡ some w)
delete_found i j w m h =
    let e = lookup-delete i j m in
    elim (Bool-cases (text_eq i j)) [
      | inl y ↦ absurd (ground (arith, e))
      | inr n ↦ (n, ground (arith, e))
    ]

pub nothing_in_nil {ℓ} :
    {V : Type ℓ} (i : Text) {v : V} {m : List (Text × V)} → m ≡ [] → lookup i m ≢ some v
unfolding lookup
nothing_in_nil i e h = ground (arith, ap (lookup i) e)

-- Serials are distinct, channels do not overflow, the work of a ticket in the pool is not cancelled,
-- nor is that of a ticket still to come, and a closed pool has no ticket.
pub record IsWell {Attr : Type 0} (p : Pool Attr) : Type 0 where
  pub below :
      (id : Text) (t : Ticket Attr) → lookup id p.tickets ≡ some t → t.serial < p.next_serial
  pub one :
      (i j : Text) (t u : Ticket Attr)
      → lookup i p.tickets ≡ some t
      → lookup j p.tickets ≡ some u
      → t.serial ≡ u.serial
      → i ≡ j
  pub short :
      (id : Text) (t : Ticket Attr) → lookup id p.tickets ≡ some t → length t.queue ≤ queue_size
  pub live :
      (id : Text) (t : Ticket Attr) → lookup id p.tickets ≡ some t → is_cancelled p t.serial ≡ false
  pub past : (n : ℕ) → p.closed ≡ false → p.next_serial ≤ n → is_cancelled p n ≡ false
  pub shut : p.closed ≡ true → p.tickets ≡ []

module _ {Attr : Type 0} where
  -- A ticket rewritten in place, with its serial and room in its channel.
  pub record Touches (p q : Pool Attr) : Type 0 where
    pub id : Text
    pub old : Ticket Attr
    pub new : Ticket Attr
    pub there : lookup id p.tickets ≡ some old
    pub result : q ≡ record p { tickets = insert id new p.tickets }
    pub same : new.serial ≡ old.serial
    pub fits : length new.queue ≤ queue_size

  -- The ticket found after a change in place, by the serial of one that was there before.
  pub touched_from :
      (p : Pool Attr) (id j : Text) (old new t : Ticket Attr)
      → lookup id p.tickets ≡ some old
      → new.serial ≡ old.serial
      → lookup j (insert id new p.tickets) ≡ some t
      → (u : Ticket Attr) × (lookup j p.tickets ≡ some u) × (t.serial ≡ u.serial)
  touched_from p id j old new t there same h = elim (insert_found id j new t p.tickets h) [
    | inl (e, n) ↦ (old, rw (sym e) there, sym (ap (λ x. x.serial) n) ∙ same)
    | inr (d, l) ↦ (t, l, refl)
  ]

  touched-IsWell :
      (p : Pool Attr) (id : Text) (old new : Ticket Attr)
      → lookup id p.tickets ≡ some old
      → new.serial ≡ old.serial
      → length new.queue ≤ queue_size
      → IsWell p
      → IsWell (record p { tickets = insert id new p.tickets })
  touched-IsWell p id old new there same fits w =
      let from = λ (j : Text) (t : Ticket Attr). touched_from p id j old new t there same in
      record {
        below = λ j t h. let (u, l, e) = from j t h in rw e (w.below j u l);
        one = λ i j t u h k e.
            let (a, la, ea) = from i t h in
            let (b, lb, eb) = from j u k in w.one i j a b la lb (sym ea ∙ e ∙ eb);
        short = λ j t h. elim (insert_found id j new t p.tickets h) [
          | inl (e, n) ↦ rw (sym n) fits
          | inr (d, l) ↦ w.short j t l
        ];
        live = λ j t h. let (u, l, e) = from j t h in rw e (w.live j u l);
        past = w.past;
        shut = λ c. absurd (nothing_in_nil id (w.shut c) there);
      }

  pub Touches-IsWell : (p q : Pool Attr) → IsWell p → Touches p q → IsWell q
  Touches-IsWell p q w t = rw (t.result) (touched-IsWell p t.id t.old t.new t.there t.same t.fits w)

  -- Cancelling one serial more.
  cancelled_more :
      (p : Pool Attr) (serial n : ℕ)
      → serial ≢ n
      → is_cancelled p n ≡ false
      → any (λ k. k == n) (serial ∷ p.cancelled) ≡ false
  cancelled_more p serial n d h = ground arith

  pub release_ticket-IsWell : (id : Text) (p : Pool Attr) → IsWell p → IsWell (release_ticket id p)
  unfolding release_ticket
  release_ticket-IsWell id p w = elim (Option-cases (lookup id p.tickets)) [
    | inl n ↦ rw (release_ticket, n) w
    | inr (t, l) ↦ rw (release_ticket, l) (gone t l)
  ]
    where
      gone :
          (t : Ticket Attr)
          → lookup id p.tickets ≡ some t
          → IsWell (record p { tickets = delete id p.tickets; cancelled = t.serial ∷ p.cancelled })
      gone t l = record {
        below = λ j u h. w.below j u (delete_found id j u p.tickets h).1;
        one = λ i j u v h k e.
            w.one i j u v (delete_found id i u p.tickets h).1 (delete_found id j v p.tickets k).1 e;
        short = λ j u h. w.short j u (delete_found id j u p.tickets h).1;
        live = λ j u h.
            let (d, k) = delete_found id j u p.tickets h in
            cancelled_more p t.serial u.serial
              (λ e. ground (arith, text_eq_iff id j, w.one id j t u l k e)) (w.live j u k);
        past = λ n o h.
            cancelled_more p t.serial n (λ e. omega (arith, w.below id t l)) (w.past n o h);
        shut = λ c. absurd (nothing_in_nil id (w.shut c) l);
      }

  pub release_all-IsWell : (ids : List Text) (p : Pool Attr) → IsWell p → IsWell (release_all ids p)
  unfolding release_all
  release_all-IsWell [] p w = w
  release_all-IsWell (id ∷ ids) p w =
      release_all-IsWell ids (release_ticket id p) (release_ticket-IsWell id p w)
