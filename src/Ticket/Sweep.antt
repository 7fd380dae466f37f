-- ===== src/Ticket/Sweep.antt =====
-- What a sweep removes from the pool of tickets.
use zcode2api_plus.Common.{
  ◌≡◌, inl, inr, none, Text, text_eq, text_eq_iff, if◌then◌else◌, lookup, lookup-delete, arith,
  Option-cases,
}
use zcode2api_plus.Ticket.{Ticket, Pool, release_ticket}

module _ {Attr : Type 0} where
  pub lookup-release :
      (id j : Text) (p : Pool Attr)
      → lookup j (release_ticket id p).tickets ≡ (if text_eq id j then none else lookup j p.tickets)
  unfolding release_ticket
  lookup-release id j p = elim (Option-cases (lookup id p.tickets)) [
    | inl n ↦ rw (release_ticket, n) (unchanged n)
    | inr (t, l) ↦ rw (release_ticket, l) (lookup-delete id j p.tickets)
  ]
    where
      unchanged :
          lookup id p.tickets ≡ none
          → lookup j p.tickets ≡ (if text_eq id j then none else lookup j p.tickets)
      unchanged n = ground (arith, text_eq_iff id j)
