-- ===== src/Ticket/Phases.antt =====
-- The plain machine behind the pool of tickets: a phase for each serial, which waits, is worked on
-- by one producer, and ends; and how the changes of the pool move it.
use zcode2api_plus.Common.{
  ℕ, ◌≤◌, ◌≡◌, ◌≢◌, ◌⊎◌, inl, inr, refl, sym, ap, ◌∙◌, subst, true, false, List, [], ◌∷◌, some,
  Text, text_eq, text_eq_iff, ◌==◌, if◌then◌else◌, In, lookup, arith, if_intro, Option-cases,
}
use zcode2api_plus.Ticket.{
  TicketStatus, unset, pending, processing, completed, failed, canceled, Ticket, Pool, stale_ids,
  release_ticket, release_all, sweep_expired_tickets, close,
}
use zcode2api_plus.Ticket.Upkeep.{IsWell, Touches, insert_found, delete_found, nothing_in_nil}
use zcode2api_plus.Ticket.Steps.{World, Kept, SameStatus}

pub data Phase : Type 0 where
  unborn waiting working ended : Phase

abbrev pub rank : Phase → ℕ
rank unborn = 0
rank waiting = 1
rank working = 2
rank ended = 3

-- An ended ticket may end again: `emit` does not look at the status.
pub data Next : Phase → Phase → Type 0 where
  appears : Next unborn waiting
  begins : Next waiting working
  ends : Next working ended
  ends_again : Next ended ended

abbrev pub advance : (ℕ → Phase) → ℕ → Phase → ℕ → Phase
advance f k phase n = if n == k then phase else f n

pub data Moves (f : ℕ → Phase) : (ℕ → Phase) → Type 0 where
  stays : Moves f f
  moves : (k : ℕ) (phase : Phase) → Next (f k) phase → Moves f (advance f k phase)

pub data MovesAll (f : ℕ → Phase) : (ℕ → Phase) → Type 0 where
  nothing : MovesAll f f
  then_move : (g : ℕ → Phase) {h : ℕ → Phase} → MovesAll f g → Moves g h → MovesAll f h

abbrev pub phase_of : TicketStatus → Phase
phase_of unset = waiting
phase_of pending = waiting
phase_of processing = working
phase_of completed = ended
phase_of failed = ended
phase_of canceled = ended

-- The phases agree with the pool; what they say of tickets that have left it is free.
pub record Follows {Attr : Type 0} (w : World Attr) (f : ℕ → Phase) : Type 0 where
  pub agrees :
      (id : Text) (t : Ticket Attr)
      → lookup id (w.pool).tickets ≡ some t
      → f t.serial ≡ phase_of t.status
  pub fresh : (n : ℕ) → (w.pool).next_serial ≤ n → f n ≡ unborn
  pub busy : (n : ℕ) → In n w.producers → 2 ≤ rank (f n)

Next-rank : {p q : Phase} → Next p q → rank p ≤ rank q
Next-rank appears = omega arith
Next-rank begins = omega arith
Next-rank ends = omega arith
Next-rank ends_again = omega arith

Moves-rank : {f g : ℕ → Phase} → Moves f g → (n : ℕ) → rank (f n) ≤ rank (g n)
Moves-rank stays n = omega arith
Moves-rank {f} (moves k phase s) n =
    if_intro (λ p. rank (f n) ≤ rank p) (n == k) (λ y. rw (ap f (the_same y)) (Next-rank s))
      (λ d. omega arith)
  where
    the_same : (n == k) ≡ true → n ≡ k
    the_same y = ground arith

pub MovesAll-rank : {f g : ℕ → Phase} → MovesAll f g → (n : ℕ) → rank (f n) ≤ rank (g n)
MovesAll-rank nothing n = omega arith
MovesAll-rank (then_move g r s) n = omega (arith, MovesAll-rank r n, Moves-rank s n)

pub advance_at : (f : ℕ → Phase) (k n : ℕ) (phase : Phase) → n ≡ k → advance f k phase n ≡ phase
advance_at f k n phase e = ground arith

pub advance_other : (f : ℕ → Phase) (k n : ℕ) (phase : Phase) → n ≢ k → advance f k phase n ≡ f n
advance_other f k n phase e = ground arith

module _ {Attr : Type 0} where
  -- A step of the pool is matched by a move of the phases.
  abbrev pub Matched : (ℕ → Phase) → World Attr → Type 0
  Matched f v = (g : ℕ → Phase) × Moves f g × Follows v g

  -- Tickets may only have left.
  pub record Fewer (p q : Pool Attr) : Type 0 where
    pub subset :
        (id : Text) (t : Ticket Attr) → lookup id q.tickets ≡ some t → lookup id p.tickets ≡ some t
    pub same_next : q.next_serial ≡ p.next_serial

  pub Fewer-release : (id : Text) (p : Pool Attr) → Fewer p (release_ticket id p)
  unfolding release_ticket
  Fewer-release id p = elim (Option-cases (lookup id p.tickets)) [
    | inl n ↦ rw (release_ticket, n) (record { subset = λ j t h. h; same_next = refl })
    | inr (u, l) ↦
        rw (release_ticket, l)
          (record { subset = λ j t h. (delete_found id j t p.tickets h).1; same_next = refl })
  ]

  Fewer-release_all : (ids : List Text) (p : Pool Attr) → Fewer p (release_all ids p)
  unfolding release_all
  Fewer-release_all [] p = record { subset = λ j t h. h; same_next = refl }
  Fewer-release_all (id ∷ ids) p =
      let a = Fewer-release id p in
      let b = Fewer-release_all ids (release_ticket id p) in
      record {
        subset = λ j t h. a.subset j t (b.subset j t h);
        same_next = b.same_next ∙ a.same_next;
      }

  pub Fewer-sweep :
      (ticket_timeout now : ℕ) (p : Pool Attr)
      → Fewer p (sweep_expired_tickets ticket_timeout now p)
  unfolding sweep_expired_tickets
  Fewer-sweep ticket_timeout now p = Fewer-release_all (stale_ids ticket_timeout now p) p

  pub Fewer-close : (p : Pool Attr) → Fewer p (close p)
  unfolding close
  Fewer-close p = record { subset = λ j t h. absurd (nothing_in_nil j refl h); same_next = refl }

  pub Follows-Fewer :
      (w : World Attr) (q : Pool Attr) (f : ℕ → Phase)
      → Follows w f
      → Fewer w.pool q
      → Follows (record w { pool = q }) f
  Follows-Fewer w q f a b = record {
    agrees = λ j t h. a.agrees j t (b.subset j t h);
    fresh = λ n h. a.fresh n (omega (arith, b.same_next));
    busy = a.busy;
  }

  -- A change in place that leaves the phase of its ticket.
  pub Follows-same :
      (w : World Attr) (q : Pool Attr) (f : ℕ → Phase)
      → Follows w f
      → Kept SameStatus w.pool q
      → Follows (record w { pool = q }) f
  Follows-same w q f a (inl e) = rw e a
  Follows-same w q f a (inr k) =
      let t = k.touch in
      rw (t.result) (record {
        agrees = λ j u h. elim (insert_found t.id j t.new u (w.pool).tickets h) [
          | inl (i, n) ↦
              subst (λ x. f x.serial ≡ phase_of x.status) n
                (ap f t.same ∙ a.agrees t.id t.old t.there ∙ sym (ap phase_of k.by))
          | inr (d, l) ↦ a.agrees j u l
        ];
        fresh = a.fresh;
        busy = a.busy;
      })

  -- A change in place that a producer makes to the phase of its ticket.
  pub Matched-put :
      (w : World Attr) (q : Pool Attr) (ps : List ℕ) (f : ℕ → Phase) (phase : Phase)
      → IsWell w.pool
      → Follows w f
      → (t : Touches w.pool q) → phase_of (t.new).status ≡ phase
      → Next (f (t.old).serial) phase
      → 2 ≤ rank phase
      → ((n : ℕ) → In n ps → (n ≡ (t.old).serial) ⊎ In n w.producers)
      → Matched f (record { pool = q; producers = ps })
  Matched-put w q ps f phase h a t e s b more =
      let k = (t.old).serial in
      (
        advance f k phase,
        moves k phase s,
        rw (t.result) (record {
          agrees = λ j u l. elim (insert_found t.id j t.new u (w.pool).tickets l) [
            | inl (i, n) ↦
                subst (λ x. advance f k phase x.serial ≡ phase_of x.status) n
                  (advance_at f k (t.new).serial phase t.same ∙ sym e)
            | inr (d, m) ↦
                advance_other f k u.serial phase (λ y. apart d (h.one j t.id u t.old m t.there y))
                ∙ a.agrees j u m
          ];
          fresh = λ n l.
              advance_other f k n phase (λ y. omega (arith, h.below t.id t.old t.there))
              ∙ a.fresh n l;
          busy = λ n m.
              if_intro (λ p. 2 ≤ rank p) (n == k) (λ y. b)
                (λ d. elim (more n m) [ inl y ↦ absurd (ground arith) | inr m2 ↦ a.busy n m2 ]);
        }),
      )
    where
      apart : {i j : Text} → text_eq i j ≡ false → j ≢ i
      apart {i} {j} d y = ground (arith, text_eq_iff i j)
