-- ===== src/Ticket/Invariant.antt =====
-- The pool of tickets stays well formed, whatever requests, producers and streams do, in any order.
use zcode2api_plus.Common.{
  ℕ, suc, ◌≤◌, ◌≡◌, inl, inr, refl, sym, ap, ◌∙◌, true, false, [], ◌∷◌, Option, Text, length,
  insert, arith, if_intro,
}
use zcode2api_plus.Account.{JsonMap}
use zcode2api_plus.Ticket.{
  Ticket, Pool, queue_size, stale_ids, sweep_expired_tickets, new_ticket, close,
}
use zcode2api_plus.Ticket.Upkeep.{
  IsWell, nothing_in_nil, Touches-IsWell, insert_found, release_ticket-IsWell, release_all-IsWell,
}
use zcode2api_plus.Ticket.Steps.{
  World, Step, Runs, Kept, claim-Puts, send_puts, settle_puts, finish_puts, receive_puts, creates,
  closes, releases, claims, sends, settles, finishes, receives, start, then_step,
}

module _ {Attr : Type 0} where
  pub Kept-IsWell :
      (P : Ticket Attr → Ticket Attr → Type 0) (p q : Pool Attr) → IsWell p → Kept P p q → IsWell q
  Kept-IsWell P p q w (inl e) = rw e w
  Kept-IsWell P p q w (inr t) = Touches-IsWell p q w t.touch

  pub sweep-IsWell :
      (ticket_timeout now : ℕ) (p : Pool Attr)
      → IsWell p
      → IsWell (sweep_expired_tickets ticket_timeout now p)
  unfolding sweep_expired_tickets
  sweep-IsWell ticket_timeout now p w = release_all-IsWell (stale_ids ticket_timeout now p) p w

  -- A closed pool without tickets.
  empty-IsWell : (p : Pool Attr) → p.tickets ≡ [] → p.closed ≡ true → IsWell p
  empty-IsWell p e c = record {
    below = λ j t h. absurd (nothing_in_nil j e h);
    one = λ i j t u h k s. absurd (nothing_in_nil i e h);
    short = λ j t h. absurd (nothing_in_nil j e h);
    live = λ j t h. absurd (nothing_in_nil j e h);
    past = λ n o h. absurd (ground arith);
    shut = λ d. e;
  }

  pub close-IsWell : (p : Pool Attr) → IsWell p → IsWell (close p)
  close-IsWell p w = empty-IsWell (close p) (unfold close in refl) (unfold close in refl)

  added-IsWell :
      (p : Pool Attr) (id : Text) (tk : Ticket Attr)
      → IsWell p
      → p.closed ≡ false
      → tk.serial ≡ p.next_serial
      → length tk.queue ≤ queue_size
      → IsWell (record p { tickets = insert id tk p.tickets; next_serial = suc p.next_serial })
  added-IsWell p id tk w open_ e f = record {
    below = λ j t h. elim (insert_found id j tk t p.tickets h) [
      | inl (i, n) ↦ rw (sym n) (omega (arith, e))
      | inr (d, l) ↦ omega (arith, w.below j t l)
    ];
    one = λ i j t u h k s. elim (insert_found id i tk t p.tickets h) [
      | inl (a, n) ↦ elim (insert_found id j tk u p.tickets k) [
        | inl (b, m) ↦ sym a ∙ b
        | inr (d, l) ↦ absurd (omega (arith, w.below j u l, e, s, ap (λ x. x.serial) n))
      ]
      | inr (d, l) ↦ elim (insert_found id j tk u p.tickets k) [
        | inl (b, m) ↦ absurd (omega (arith, w.below i t l, e, s, ap (λ x. x.serial) m))
        | inr (c, m) ↦ w.one i j t u l m s
      ]
    ];
    short = λ j t h. elim (insert_found id j tk t p.tickets h) [
      | inl (i, n) ↦ rw (sym n) f
      | inr (d, l) ↦ w.short j t l
    ];
    live = λ j t h. elim (insert_found id j tk t p.tickets h) [
      | inl (i, n) ↦ rw (sym n, e) (w.past p.next_serial open_ (omega arith))
      | inr (d, l) ↦ w.live j t l
    ];
    past = λ n o h. w.past n o (omega arith);
    shut = λ c. absurd (ground arith);
  }

  turned_away-IsWell :
      (p : Pool Attr)
      → IsWell p
      → p.closed ≡ true
      → IsWell
          (record p { cancelled = p.next_serial ∷ p.cancelled; next_serial = suc p.next_serial })
  turned_away-IsWell p w c = empty-IsWell _ (w.shut c) c

  pub new_ticket-IsWell :
      (ticket_timeout now : ℕ) (id : Text) (body : JsonMap) (snapshot : Attr) (short_id : Text)
      (p : Pool Attr)
      → IsWell p
      → IsWell (new_ticket ticket_timeout now id body snapshot short_id p).0
  unfolding new_ticket
  new_ticket-IsWell ticket_timeout now id body snapshot short_id p0 w0 =
      let p = sweep_expired_tickets ticket_timeout now p0 in
      let w = sweep-IsWell ticket_timeout now p0 w0 in
      if_intro (λ (r : Pool Attr × Option Text). IsWell r.0) p.closed
        (λ c. turned_away-IsWell p w c) (λ c. added-IsWell p id _ w c refl (omega arith))

  module _ (migrate : JsonMap → Attr) (ticket_timeout : ℕ) where
    pub Step-IsWell :
        (w v : World Attr) → IsWell w.pool → Step migrate ticket_timeout w v → IsWell v.pool
    Step-IsWell w v h (creates now id body snapshot short_id) =
        new_ticket-IsWell ticket_timeout now id body snapshot short_id w.pool h
    Step-IsWell w v h closes = close-IsWell w.pool h
    Step-IsWell w v h (releases id) = release_ticket-IsWell id w.pool h
    Step-IsWell w v h (claims id tk snapshot e) =
        Touches-IsWell w.pool _ h (claim-Puts w.pool h migrate id tk snapshot e).touch
    Step-IsWell w v h (sends id worker ev m) =
        Kept-IsWell _ w.pool _ h (send_puts w.pool h id worker ev)
    Step-IsWell w v h (settles id serial ev m) =
        Kept-IsWell _ w.pool _ h (settle_puts w.pool h id serial ev)
    Step-IsWell w v h (finishes id serial is_canceled m) =
        Kept-IsWell _ w.pool _ h (finish_puts w.pool h id serial is_canceled)
    Step-IsWell w v h (receives id) = Kept-IsWell _ w.pool _ h (receive_puts w.pool h id)

    -- Whatever requests, producers and streams do, in any order: serials stay distinct, no channel
    -- exceeds its 256 events, the work of a ticket in the pool is never cancelled, and a closed
    -- pool has no ticket.
    pub tickets-IsWell :
        {w v : World Attr} → IsWell w.pool → Runs migrate ticket_timeout w v → IsWell v.pool
    tickets-IsWell h start = h
    tickets-IsWell h (then_step u r s) = Step-IsWell u _ (tickets-IsWell h r) s
