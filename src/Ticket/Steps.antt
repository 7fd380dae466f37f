-- ===== src/Ticket/Steps.antt =====
-- The pool of tickets in use: requests create and release tickets, producers claim them, send and
-- finish, streams receive. A producer is known by the serial of the ticket that it claimed.
use zcode2api_plus.Common.{
  ℕ, ◌≤◌, ◌≡◌, ◌⊎◌, inl, inr, refl, sym, ap, ◌∙◌, Bool, true, false, not, ◌||◌, List, [], ◌∷◌, some,
  Text, leb, ◌==◌, if◌then◌else◌, length, length-append, In, keep, lookup, insert, arith, if_intro,
  Bool-cases, Option-cases,
}
use zcode2api_plus.Account.{JsonMap}
use zcode2api_plus.Ticket.{
  TicketEvent, ready, chunk, done, error, TicketStatus, canceled, failed, Sent, take_front, Ticket,
  Pool, queue_size, is_waiting, is_processing, status_after, is_cancelled, release_ticket,
  new_ticket, close, claimed, claim_ticket, finish_ticket_work, send_event, settle_status,
  receive_event,
}
use zcode2api_plus.Ticket.Upkeep.{IsWell, Touches}

-- The pool, and the producers that have claimed a ticket and not yet finished.
pub record World (Attr : Type 0) : Type 0 where
  pub pool : Pool Attr
  pub producers : List ℕ

module _ {Attr : Type 0} where
  module _ (migrate : JsonMap → Attr) (ticket_timeout : ℕ) where
    pub data Step (w : World Attr) : World Attr → Type 0 where
      creates :
          (now : ℕ) (id : Text) (body : JsonMap) (snapshot : Attr) (short_id : Text)
          → Step w (record w {
            pool = (new_ticket ticket_timeout now id body snapshot short_id w.pool).0;
          })
      closes : Step w (record w { pool = close w.pool })
      releases : (id : Text) → Step w (record w { pool = release_ticket id w.pool })
      claims :
          (id : Text) (tk : Ticket Attr) (snapshot : Attr)
          → (claim_ticket migrate id w.pool).1 ≡ some (tk, snapshot)
          → Step w (record w {
            pool = (claim_ticket migrate id w.pool).0;
            producers = tk.serial ∷ w.producers;
          })
      sends :
          (id : Text) (worker : ℕ) (ev : TicketEvent)
          → In worker w.producers
          → Step w (record w { pool = (send_event id worker ev w.pool).0 })
      settles :
          (id : Text) (serial : ℕ) (ev : TicketEvent)
          → In serial w.producers
          → Step w (record w { pool = settle_status id serial ev w.pool })
      finishes :
          (id : Text) (serial : ℕ) (is_canceled : Bool)
          → In serial w.producers
          → Step w (record w {
            pool = finish_ticket_work id serial is_canceled w.pool;
            producers = keep (λ n. not (n == serial)) w.producers;
          })
      receives : (id : Text) → Step w (record w { pool = (receive_event id w.pool).0 })

    pub data Runs (w : World Attr) : World Attr → Type 0 where
      start : Runs w w
      then_step : (v : World Attr) {u : World Attr} → Runs w v → Step v u → Runs w u

  -- What a change in place may do to the status, given the old one.
  pub record Puts (P : Ticket Attr → Ticket Attr → Type 0) (p q : Pool Attr) : Type 0 where
    pub touch : Touches p q
    pub by : P touch.old touch.new

  abbrev pub SameStatus : Ticket Attr → Ticket Attr → Type 0
  SameStatus t u = u.status ≡ t.status

  -- A producer's change of status, for the ticket of this serial.
  abbrev pub EndsStatus : ℕ → Ticket Attr → Ticket Attr → Type 0
  EndsStatus serial t u =
      (t.serial ≡ serial) × (is_waiting u.status ≡ false) × (is_processing u.status ≡ false)

  abbrev pub BeginsStatus : ℕ → Ticket Attr → Ticket Attr → Type 0
  BeginsStatus serial t u =
      (t.serial ≡ serial) × (is_waiting t.status ≡ true) × (is_processing u.status ≡ true)

  pub put :
      (P : Ticket Attr → Ticket Attr → Type 0) (p : Pool Attr) (id : Text) (old new : Ticket Attr)
      → lookup id p.tickets ≡ some old
      → new.serial ≡ old.serial
      → length new.queue ≤ queue_size
      → P old new
      → Puts P p (record p { tickets = insert id new p.tickets })
  put P p id old new there same fits by = record {
    touch = record {
      id = id;
      old = old;
      new = new;
      there = there;
      result = refl;
      same = same;
      fits = fits;
    };
    by = by;
  }

  -- Nothing changes, or one ticket does in place.
  abbrev pub Kept : (Ticket Attr → Ticket Attr → Type 0) → Pool Attr → Pool Attr → Type 0
  Kept P p q = (q ≡ p) ⊎ Puts P p q

  claimed_same :
      (migrate : JsonMap → Attr) (t : Ticket Attr)
      → let u = (claimed migrate t).0 in
        (u.serial ≡ t.serial) × (u.queue ≡ t.queue) × (is_processing u.status ≡ true)
  claimed_same migrate t = elim (Option-cases t.attribution) [
    | inl n ↦ rw n (refl, refl, refl)
    | inr (a, e) ↦ rw e (refl, refl, refl)
  ]

  module _ (p : Pool Attr) (w : IsWell p) where
    pub claim-Puts :
        (migrate : JsonMap → Attr) (id : Text) (tk : Ticket Attr) (snapshot : Attr)
        → (claim_ticket migrate id p).1 ≡ some (tk, snapshot)
        → Puts (BeginsStatus tk.serial) p (claim_ticket migrate id p).0
    unfolding claim_ticket
    claim-Puts migrate id tk snapshot h = elim (Option-cases (lookup id p.tickets)) [
      | inl n ↦ absurd (ground (arith, n))
      | inr (t, l) ↦ elim (Bool-cases (is_waiting t.status)) [
        | inl y ↦
            let (s, q, b) = claimed_same migrate t in
            let e : (claimed migrate t).0 ≡ tk = ground (arith, l, y) in
            rw (claim_ticket, l, y)
              (put (BeginsStatus tk.serial) p id t (claimed migrate t).0 l s (rw q (w.short id t l))
                (sym s ∙ ap (λ x. x.serial) e, y, b))
        | inr n ↦ absurd (ground (arith, l, n))
      ]
    ]

    pub send_puts :
        (id : Text) (worker : ℕ) (ev : TicketEvent)
        → Kept SameStatus p (send_event id worker ev p).0
    unfolding send_event
    send_puts id worker ev =
        if_intro (λ (r : Pool Attr × Sent). Kept SameStatus p r.0) (is_cancelled p worker)
          (λ c. inl refl)
          (λ c. elim (Option-cases (lookup id p.tickets)) [
            | inl n ↦ rw n (inl refl)
            | inr (t, l) ↦ rw l (
                if_intro (λ (r : Pool Attr × Sent). Kept SameStatus p r.0)
                  (leb queue_size (length t.queue)) (λ f. inl refl)
                  (λ r. inr (
                    put SameStatus p id t _ l refl
                      (ground (arith, length-append t.queue (ev ∷ []), w.short id t l)) refl)))
          ])

    pub settle_puts :
        (id : Text) (serial : ℕ) (ev : TicketEvent)
        → Kept (EndsStatus serial) p (settle_status id serial ev p)
    unfolding settle_status
    settle_puts id serial ev = elim (Option-cases (status_after ev)) [
      | inl n ↦ rw (settle_status, n) (inl refl)
      | inr (st, e) ↦ elim (Option-cases (lookup id p.tickets)) [
        | inl n ↦ rw (settle_status, e, n) (inl refl)
        | inr (t, l) ↦
            rw (settle_status, e, l)
              (if_intro (Kept (EndsStatus serial) p) (t.serial == serial)
                (λ y. inr (
                  put (EndsStatus serial) p id t _ l refl (w.short id t l)
                    (let (q, r) = ended ev st e in (ground arith, q, r))))
                (λ n. inl refl))
      ]
    ]
      where
        ended :
            (ev : TicketEvent) (st : TicketStatus)
            → status_after ev ≡ some st
            → (is_waiting st ≡ false) × (is_processing st ≡ false)
        ended ready st e = absurd (ground arith)
        ended (chunk d) st e = absurd (ground arith)
        ended done st e = ground arith
        ended (error d) st e = ground arith

    pub finish_puts :
        (id : Text) (serial : ℕ) (is_canceled : Bool)
        → Kept (EndsStatus serial) p (finish_ticket_work id serial is_canceled p)
    unfolding finish_ticket_work
    finish_puts id serial is_canceled = elim (Option-cases (lookup id p.tickets)) [
      | inl n ↦ rw (finish_ticket_work, n) (inl refl)
      | inr (t, l) ↦
          rw (finish_ticket_work, l)
            (if_intro (Kept (EndsStatus serial) p)
              (not (t.serial == serial) || not (is_processing t.status)) (λ y. inl refl)
              (λ n. inr (
                put (EndsStatus serial) p id t _ l refl (w.short id t l)
                  (ground arith, ended is_canceled, not_working is_canceled))))
    ]
      where
        ended : (b : Bool) → is_waiting (if b then canceled else failed) ≡ false
        ended true = refl
        ended false = refl

        not_working : (b : Bool) → is_processing (if b then canceled else failed) ≡ false
        not_working true = refl
        not_working false = refl

    pub receive_puts : (id : Text) → Kept SameStatus p (receive_event id p).0
    unfolding receive_event
    receive_puts id = elim (Option-cases (lookup id p.tickets)) [
      | inl n ↦ rw (receive_event, n) (inl refl)
      | inr (t, l) ↦ rw (receive_event, l) (taken t l t.queue (w.short id t l))
    ]
      where
        taken :
            (t : Ticket Attr)
            → lookup id p.tickets ≡ some t
            → (q : List TicketEvent) → length q ≤ queue_size
            → Kept SameStatus p (take_front id t q p).0
        taken t l [] e = inl refl
        taken t l (ev ∷ rest) e = inr (put SameStatus p id t _ l refl (omega (arith, e)) refl)
