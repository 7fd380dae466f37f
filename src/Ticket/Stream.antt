-- ===== src/Ticket/Stream.antt =====
-- `streamTicket` of internal/asyncpool/pool.go. Each entry of the list is one round of its loop: the
-- time at which it looks at its deadline, what then comes of its wait, and whether the write that
-- follows succeeds; `sent` says this of the first write. Nothing closes a ticket's channel.
pub mod Ends
use zcode2api_plus.Common.{
  ℕ, ◌+◌, ◌*◌, ◌≤◌, ◌≡◌, ◌≢◌, ◌↔◌, ◌⊎◌, inl, inr, refl, Bool, true, false, not, ◌&&◌, ◌||◌, List,
  [], ◌∷◌, ◌++◌, Option, none, some, Text, ltb, leb, if◌then◌else◌, is_some, any, all, lookup,
  arith, if_intro, Bool-cases, Option-cases, text_eq_refl, text_eq,
}
use zcode2api_plus.Account.{Json}
use zcode2api_plus.Marks.{second}
use zcode2api_plus.Ticket.{TicketEvent, ready, chunk, done, error, Ticket, Pool, release_ticket}

pub data Frame : Type 0 where
  not_found timed_out keepalive ready_frame done_frame : Frame
  ticket_frame : Text → Frame
  chunk_frame : Json → Frame
  error_frame : Json → Frame

pub data Happening : Type 0 where
  left quiet : Happening
  event : TicketEvent → Happening

-- The frames handed to `write`; whether the request is over, and then whether it completed.
abbrev pub Streamed : Type 0
Streamed = List Frame × Option Bool

-- `if err := send(...); err != nil { return }`, and what follows.
abbrev pub send : Bool → Frame → Streamed → Streamed
send ok f rest = if ok then (f ∷ rest.0, rest.1) else (f ∷ [], some false)

abbrev pub on_event : Bool → TicketEvent → Streamed → Streamed
on_event ok ready rest = send ok ready_frame rest
on_event ok (chunk data_) rest = send ok (chunk_frame data_) rest
on_event ok done rest = (done_frame ∷ [], some ok)
on_event ok (error data_) rest = (error_frame data_ ∷ [], some false)

abbrev pub on_happening : Bool → Happening → Streamed → Streamed
on_happening ok left rest = ([], some false)
on_happening ok quiet rest = send ok keepalive rest
on_happening ok (event ev) rest = on_event ok ev rest

unfoldable pub stream_loop : ℕ → List (ℕ × Happening × Bool) → Streamed
stream_loop deadline [] = ([], none)
stream_loop deadline ((now, h, ok) ∷ hs) =
    let rest = stream_loop deadline hs in
    if ltb now deadline then on_happening ok h rest else (timed_out ∷ [], some false)

-- `at_exit` is the pool when the request is over, from which the ticket is then released.
unfoldable pub stream_ticket :
    {Attr : Type 0}
    → Bool
    → ℕ
    → Text
    → Pool Attr
    → List (ℕ × Happening × Bool)
    → Pool Attr
    → Streamed × Pool Attr
unfolding stream_loop
stream_ticket sent ticket_timeout id p hs at_exit = elim (lookup id p.tickets) [
  | none ↦ ((not_found ∷ [], some false), at_exit)
  | some tk ↦
      let deadline = tk.created_at + ticket_timeout * second in
      let r = send sent (ticket_frame id) (stream_loop deadline hs) in
      (r, if is_some (r.1) then release_ticket id at_exit else at_exit)
]
