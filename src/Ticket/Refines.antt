-- ===== src/Ticket/Refines.antt =====
-- The pool of tickets refines the plain machine of phases, so no ticket is ever worked on twice.
use zcode2api_plus.Common.{
  ℕ, suc, ◌≤◌, ◌≡◌, ◌≢◌, ◌⊎◌, inl, inr, refl, sym, ap, ◌∙◌, subst, true, false, List, ◌∷◌, Option,
  some, Text, ◌==◌, In, In-keep_inv, insert, arith, if_intro,
}
use zcode2api_plus.Account.{JsonMap}
use zcode2api_plus.Ticket.{
  TicketStatus, Ticket, Pool, is_waiting, is_processing, sweep_expired_tickets, new_ticket,
  claim_ticket,
}
use zcode2api_plus.Ticket.Upkeep.{IsWell, insert_found}
use zcode2api_plus.Ticket.Steps.{
  World, Step, Runs, Kept, Puts, EndsStatus, BeginsStatus, claim-Puts, send_puts, settle_puts,
  finish_puts, receive_puts, creates, closes, releases, claims, sends, settles, finishes, receives,
  start, then_step,
}
use zcode2api_plus.Ticket.Invariant.{Step-IsWell, tickets-IsWell, sweep-IsWell}
use zcode2api_plus.Ticket.Phases.{
  Phase, unborn, waiting, working, ended, rank, Next, appears, begins, ends, ends_again, advance,
  stays, moves, MovesAll, nothing, then_move, phase_of, Follows, MovesAll-rank, Matched,
  Fewer-release, Fewer-sweep, Fewer-close, Follows-Fewer, Follows-same, Matched-put, advance_at,
  advance_other,
}

phase_waiting : (s : TicketStatus) → is_waiting s ≡ true → phase_of s ≡ waiting
phase_waiting s h = ground arith

phase_working : (s : TicketStatus) → is_processing s ≡ true → phase_of s ≡ working
phase_working s h = ground arith

phase_ended :
    (s : TicketStatus) → is_waiting s ≡ false → is_processing s ≡ false → phase_of s ≡ ended
phase_ended s h k = ground arith

Next-ended : (p : Phase) → 2 ≤ rank p → Next p ended
Next-ended unborn h = absurd (omega arith)
Next-ended waiting h = absurd (omega arith)
Next-ended working h = ends
Next-ended ended h = ends_again

module _ {Attr : Type 0} where
  Matched-ends :
      (w : World Attr) (q : Pool Attr) (ps : List ℕ) (f : ℕ → Phase) (serial : ℕ)
      → IsWell w.pool
      → Follows w f
      → In serial w.producers
      → ((n : ℕ) → In n ps → In n w.producers)
      → Kept (EndsStatus serial) w.pool q
      → Matched f (record { pool = q; producers = ps })
  Matched-ends w q ps f serial h a m less (inl e) = (
    f,
    stays,
    rw e (record { agrees = a.agrees; fresh = a.fresh; busy = λ n i. a.busy n (less n i) }),
  )
  Matched-ends w q ps f serial h a m less (inr k) =
      let t = k.touch in
      let (same, not_waiting, not_working) = k.by in
      Matched-put w q ps f ended h a t (phase_ended (t.new).status not_waiting not_working)
        (Next-ended (f (t.old).serial) (rw same (a.busy serial m))) (omega arith)
        (λ n i. inr (less n i))

  Matched-begins :
      (w : World Attr) (q : Pool Attr) (f : ℕ → Phase) (serial : ℕ)
      → IsWell w.pool
      → Follows w f
      → Puts (BeginsStatus serial) w.pool q
      → Matched f (record { pool = q; producers = serial ∷ w.producers })
  Matched-begins w q f serial h a k =
      let t = k.touch in
      let (same, was, is_now) = k.by in
      let from = a.agrees t.id t.old t.there ∙ phase_waiting (t.old).status was in
      Matched-put w q (serial ∷ w.producers) f working h a t (phase_working (t.new).status is_now)
        (subst (λ p. Next p working) (sym from) begins) (omega arith) (first_or_old (sym same))
    where
      first_or_old :
          {k : ℕ} → serial ≡ k → (n : ℕ) → In n (serial ∷ w.producers) → (n ≡ k) ⊎ In n w.producers
      first_or_old e n (inl i) = inl (i ∙ e)
      first_or_old e n (inr i) = inr i

  Matched-added :
      (w : World Attr) (id : Text) (tk : Ticket Attr) (f : ℕ → Phase)
      → IsWell w.pool
      → Follows w f
      → tk.serial ≡ (w.pool).next_serial
      → phase_of tk.status ≡ waiting
      → Matched f (record w {
        pool = record (w.pool) {
          tickets = insert id tk (w.pool).tickets;
          next_serial = suc (w.pool).next_serial;
        };
      })
  Matched-added w id tk f h a e s =
      let k = (w.pool).next_serial in
      (
        advance f k waiting,
        moves k waiting (subst (λ p. Next p waiting) (sym (a.fresh k (omega arith))) appears),
        record {
          agrees = λ j u l. elim (insert_found id j tk u (w.pool).tickets l) [
            | inl (i, n) ↦
                subst (λ x. advance f k waiting x.serial ≡ phase_of x.status) n
                  (advance_at f k tk.serial waiting e ∙ sym s)
            | inr (d, m) ↦
                advance_other f k u.serial waiting (λ y. omega (arith, h.below j u m))
                ∙ a.agrees j u m
          ];
          fresh = λ n l. advance_other f k n waiting (λ y. omega arith) ∙ a.fresh n (omega arith);
          busy = λ n m.
              if_intro (λ p. 2 ≤ rank p) (n == k)
                (λ y. absurd (unborn_busy n (a.fresh n (ground arith)) (a.busy n m)))
                (λ d. a.busy n m);
        },
      )
    where
      unborn_busy : (n : ℕ) → f n ≡ unborn → ¬ (2 ≤ rank (f n))
      unborn_busy n u b = omega (arith, ap rank u)

  Matched-turned_away :
      (w : World Attr) (f : ℕ → Phase)
      → Follows w f
      → Matched f (record w {
        pool = record (w.pool) {
          cancelled = (w.pool).next_serial ∷ (w.pool).cancelled;
          next_serial = suc (w.pool).next_serial;
        };
      })
  Matched-turned_away w f a = (
    f,
    stays,
    record { agrees = a.agrees; fresh = λ n l. a.fresh n (omega arith); busy = a.busy },
  )

  Matched-create :
      (ticket_timeout now : ℕ) (id : Text) (body : JsonMap) (snapshot : Attr) (short_id : Text)
      (w : World Attr) (f : ℕ → Phase)
      → IsWell w.pool
      → Follows w f
      → Matched f
          (record w { pool = (new_ticket ticket_timeout now id body snapshot short_id w.pool).0 })
  unfolding new_ticket
  Matched-create ticket_timeout now id body snapshot short_id w f h a =
      let p = sweep_expired_tickets ticket_timeout now w.pool in
      let v : World Attr = record w { pool = p } in
      let b = Follows-Fewer w p f a (Fewer-sweep ticket_timeout now w.pool) in
      let i = sweep-IsWell ticket_timeout now w.pool h in
      if_intro (λ (r : Pool Attr × Option Text). Matched f (record w { pool = r.0 })) p.closed
        (λ c. Matched-turned_away v f b) (λ c. Matched-added v id _ f i b refl refl)

  module _ (migrate : JsonMap → Attr) (ticket_timeout : ℕ) where
    Step-Matched :
        (w v : World Attr) (f : ℕ → Phase)
        → IsWell w.pool
        → Follows w f
        → Step migrate ticket_timeout w v
        → Matched f v
    Step-Matched w v f h a (creates now id body snapshot short_id) =
        Matched-create ticket_timeout now id body snapshot short_id w f h a
    Step-Matched w v f h a closes = (f, stays, Follows-Fewer w _ f a (Fewer-close w.pool))
    Step-Matched w v f h a (releases id) =
        (f, stays, Follows-Fewer w _ f a (Fewer-release id w.pool))
    Step-Matched w v f h a (claims id tk snapshot e) =
        Matched-begins w _ f tk.serial h a (claim-Puts w.pool h migrate id tk snapshot e)
    Step-Matched w v f h a (sends id worker ev m) =
        (f, stays, Follows-same w _ f a (send_puts w.pool h id worker ev))
    Step-Matched w v f h a (settles id serial ev m) =
        Matched-ends w _ w.producers f serial h a m (λ n i. i) (settle_puts w.pool h id serial ev)
    Step-Matched w v f h a (finishes id serial is_canceled m) =
        Matched-ends w _ _ f serial h a m (λ n i. (In-keep_inv _ n w.producers i).0)
          (finish_puts w.pool h id serial is_canceled)
    Step-Matched w v f h a (receives id) =
        (f, stays, Follows-same w _ f a (receive_puts w.pool h id))

    -- The pool of tickets refines the plain machine: from phases that agree with a well-formed
    -- pool, every run of the pool is matched by a run of the machine, in which a serial only
    -- appears, begins and ends, and at its end the phases agree with the pool again.
    pub tickets_refine :
        {w v : World Attr} (f : ℕ → Phase)
        → IsWell w.pool
        → Follows w f
        → Runs migrate ticket_timeout w v
        → (g : ℕ → Phase) × MovesAll f g × Follows v g
    tickets_refine f h a start = (f, nothing, a)
    tickets_refine f h a (then_step u r s) =
        let (g, m, b) = tickets_refine f h a r in
        let (k, n, c) = Step-Matched u _ g (tickets-IsWell migrate ticket_timeout h r) b s in
        (k, then_move g m n, c)

    -- A ticket that a producer has claimed is never claimed again, under whatever id, as long as
    -- the pool runs from a well-formed state that some phases agree with.
    pub claimed_once :
        (w v : World Attr) (f : ℕ → Phase) (id : Text) (tk : Ticket Attr) (snapshot : Attr)
        → IsWell w.pool
        → Follows w f
        → (claim_ticket migrate id w.pool).1 ≡ some (tk, snapshot)
        → Runs migrate ticket_timeout
            (record {
              pool = (claim_ticket migrate id w.pool).0;
              producers = tk.serial ∷ w.producers;
            })
            v
        → (j : Text) (u : Ticket Attr) (other : Attr)
        → (claim_ticket migrate j v.pool).1 ≡ some (u, other)
        → u.serial ≢ tk.serial
    claimed_once w v f id tk snapshot h a c r j u other d e =
        let s : Step migrate ticket_timeout w _ = claims id tk snapshot c in
        let (g, m, b) = Step-Matched w _ f h a s in
        let (k, n, l) = tickets_refine g (Step-IsWell migrate ticket_timeout w _ h s) b r in
        let i =
          tickets-IsWell migrate ticket_timeout (Step-IsWell migrate ticket_timeout w _ h s) r in
        let p = claim-Puts v.pool i migrate j u other d in
        let (same, was, now_is) = p.by in
        let t = p.touch in
        let low : rank (k u.serial) ≡ 1 =
          rw (sym same, l.agrees t.id t.old t.there, phase_waiting (t.old).status was) refl in
        omega
          (arith, MovesAll-rank n tk.serial, b.busy tk.serial (inl refl), ap (λ x. rank (k x)) e)
