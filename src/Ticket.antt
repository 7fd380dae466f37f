-- ===== src/Ticket.antt =====
-- The tickets of internal/asyncpool/pool.go: their life cycle and the stream that waits for one.
-- A ticket's pointer is its serial number, the context that its cancel function ends is in the list
-- `cancelled`. `Attr` is upstream.AttributionSnapshot; `ticket_timeout` is config.AsyncTicketTimeout
-- in seconds; a fresh ticket id is an argument. `processTicket` between claim and finish is any
-- sequence of emissions; `tasks.Wait` is not modelled.
pub mod Upkeep
pub mod Steps
pub mod Invariant
pub mod Phases
pub mod Refines
pub mod Sweep
pub mod Stream
use zcode2api_plus.Common.{
  ℕ, suc, ◌+◌, ◌-◌, ◌*◌, Bool, true, false, not, ◌&&◌, ◌||◌, List, [], ◌∷◌, ◌++◌, map, Option, none,
  some, Text, ltb, leb, ◌==◌, if◌then◌else◌, length, any, keep, lookup, insert, delete,
}
use zcode2api_plus.Account.{Json, JsonMap}
use zcode2api_plus.Marks.{second}

-- The status strings; `unset` is the empty one.
pub data TicketStatus : Type 0 where
  unset pending processing completed failed canceled : TicketStatus

pub data TicketEvent : Type 0 where
  ready : TicketEvent
  chunk : Json → TicketEvent
  done : TicketEvent
  error : Json → TicketEvent

abbrev pub ticket_sweep_grace : ℕ
ticket_sweep_grace = 60 * second

-- The capacity of a ticket's channel.
abbrev pub queue_size : ℕ
queue_size = 256

module _ (Attr : Type 0) where
  pub record Ticket : Type 0 where
    pub serial : ℕ
    pub status : TicketStatus
    pub body : JsonMap
    pub attribution : Option Attr
    pub queue : List TicketEvent
    pub created_at : ℕ
    pub short_id : Text

  pub record Pool : Type 0 where
    pub tickets : List (Text × Ticket)
    pub closed : Bool
    pub cancelled : List ℕ
    pub next_serial : ℕ

-- `tk.status == "pending" || tk.status == ""`.
abbrev pub is_waiting : TicketStatus → Bool
is_waiting unset = true
is_waiting pending = true
is_waiting _ = false

abbrev pub is_processing : TicketStatus → Bool
is_processing processing = true
is_processing _ = false

-- What `emit` does to the status, if anything.
abbrev pub status_after : TicketEvent → Option TicketStatus
status_after done = some TicketStatus.completed
status_after (error d) = some TicketStatus.failed
status_after _ = none

-- `time.Now().Add(-timeout - grace)`; before that much time has passed nothing is older.
abbrev pub sweep_cutoff : ℕ → ℕ → ℕ
sweep_cutoff ticket_timeout now = now - ticket_timeout * second - ticket_sweep_grace

-- The first half of `emit` reads the ticket and sends; `blocked` waits for room or for the end of the context.
pub data Sent : Type 0 where
  refused blocked : Sent
  sent : ℕ → Sent

module _ {Attr : Type 0} where
  -- `ctx.Err() != nil`, for the context of a ticket's work.
  abbrev pub is_cancelled : Pool Attr → ℕ → Bool
  is_cancelled p serial = any (λ n. n == serial) p.cancelled

  unfoldable pub get_ticket : Pool Attr → Text → Option (Ticket Attr)
  get_ticket p id = lookup id p.tickets

  unfoldable pub release_ticket : Text → Pool Attr → Pool Attr
  release_ticket id p = elim (lookup id p.tickets) [
    | none ↦ p
    | some tk ↦ record p { tickets = delete id p.tickets; cancelled = tk.serial ∷ p.cancelled }
  ]

  unfoldable pub release_all : List Text → Pool Attr → Pool Attr
  unfolding release_ticket
  release_all [] p = p
  release_all (id ∷ ids) p = release_all ids (release_ticket id p)

  abbrev pub is_stale : ℕ → ℕ → Text × Ticket Attr → Bool
  is_stale ticket_timeout now (id, tk) = ltb tk.created_at (sweep_cutoff ticket_timeout now)

  abbrev pub stale_ids : ℕ → ℕ → Pool Attr → List Text
  stale_ids ticket_timeout now p = map (λ e. e.0) (keep (is_stale ticket_timeout now) p.tickets)

  unfoldable pub sweep_expired_tickets : ℕ → ℕ → Pool Attr → Pool Attr
  unfolding release_all
  sweep_expired_tickets ticket_timeout now p = release_all (stale_ids ticket_timeout now p) p

  -- `newTicketWithAttribution`; `none` is the empty id of a closed pool.
  unfoldable pub new_ticket :
      ℕ → ℕ → Text → JsonMap → Attr → Text → Pool Attr → Pool Attr × Option Text
  unfolding sweep_expired_tickets
  new_ticket ticket_timeout now id body snapshot short_id p0 =
      let p = sweep_expired_tickets ticket_timeout now p0 in
      let tk : Ticket Attr = record {
        serial = p.next_serial;
        status = TicketStatus.pending;
        body = body;
        attribution = some snapshot;
        queue = [];
        created_at = now;
        short_id = short_id;
      } in
      if p.closed
      then (
        record p { cancelled = p.next_serial ∷ p.cancelled; next_serial = suc p.next_serial },
        none,
      )
      else (record p { tickets = insert id tk p.tickets; next_serial = suc p.next_serial }, some id)

  unfoldable pub close : Pool Attr → Pool Attr
  close p = record p {
    closed = true;
    cancelled = map (λ e. (e.1).serial) p.tickets ++ p.cancelled;
    tickets = [];
  }

  -- The snapshot of an older ticket is made when it is claimed: `migrate` is
  -- `NewAttributionSnapshot(nil, MetadataSessionID(tk.body))`.
  abbrev pub claimed : (JsonMap → Attr) → Ticket Attr → Ticket Attr × Attr
  claimed migrate tk = elim tk.attribution [
    | some snapshot ↦ (record tk { status = TicketStatus.processing }, snapshot)
    | none ↦
        let snapshot = migrate tk.body in
        (record tk { status = TicketStatus.processing; attribution = some snapshot }, snapshot)
  ]

  unfoldable pub claim_ticket :
      (JsonMap → Attr) → Text → Pool Attr → Pool Attr × Option (Ticket Attr × Attr)
  claim_ticket migrate id p = elim (lookup id p.tickets) [
    | none ↦ (p, none)
    | some tk ↦
        if not (is_waiting tk.status)
        then (p, none)
        else let c = claimed migrate tk in (record p { tickets = insert id c.0 p.tickets }, some c)
  ]

  -- The ticket of this id is still the one that the caller holds.
  unfoldable pub finish_ticket_work : Text → ℕ → Bool → Pool Attr → Pool Attr
  finish_ticket_work id serial is_canceled p = elim (lookup id p.tickets) [
    | none ↦ p
    | some tk ↦ if not (tk.serial == serial) || not (is_processing tk.status) then p else record p {
      tickets =
          insert id
            (record tk {
              status = if is_canceled then TicketStatus.canceled else TicketStatus.failed;
            })
            p.tickets;
    }
  ]

  unfoldable pub send_event : Text → ℕ → TicketEvent → Pool Attr → Pool Attr × Sent
  send_event id worker ev p =
      if is_cancelled p worker then (p, refused) else elim (lookup id p.tickets) [
        | none ↦ (p, refused)
        | some tk ↦ if leb queue_size (length tk.queue) then (p, blocked) else (
          record p { tickets = insert id (record tk { queue = tk.queue ++ ev ∷ [] }) p.tickets },
          sent tk.serial,
        )
      ]

  -- The second critical section of `emit`, after the send.
  unfoldable pub settle_status : Text → ℕ → TicketEvent → Pool Attr → Pool Attr
  settle_status id serial ev p = elim (status_after ev) [
    | none ↦ p
    | some status ↦ elim (lookup id p.tickets) [
      | none ↦ p
      | some tk ↦
          if tk.serial == serial
          then record p { tickets = insert id (record tk { status = status }) p.tickets }
          else p
    ]
  ]

  abbrev pub take_front :
      Text → Ticket Attr → List TicketEvent → Pool Attr → Pool Attr × Option TicketEvent
  take_front id tk [] p = (p, none)
  take_front id tk (ev ∷ rest) p =
      (record p { tickets = insert id (record tk { queue = rest }) p.tickets }, some ev)

  -- `ev := <-tk.queue`.
  unfoldable pub receive_event : Text → Pool Attr → Pool Attr × Option TicketEvent
  receive_event id p = elim (lookup id p.tickets) [
    | none ↦ (p, none)
    | some tk ↦ take_front id tk tk.queue p
  ]
