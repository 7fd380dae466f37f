-- ===== src/Examples/Tickets.antt =====
-- The theorems on tickets.
use zcode2api_plus.Common.{
  ℕ, ◌+◌, ◌*◌, ◌≡◌, ◌≢◌, refl, inl, arith, Bool, true, false, List, [], ◌∷◌, Option, none, some,
  Text, codes, lookup, is_some, any, max,
}
use zcode2api_plus.Account.{JsonMap, null}
use zcode2api_plus.Marks.{second}
use zcode2api_plus.Ticket.{
  TicketStatus, Ticket, new_ticket, claim_ticket, settle_status, done, chunk,
}
use zcode2api_plus.Ticket.Upkeep.{IsWell}
use zcode2api_plus.Ticket.Steps.{World, Runs, start, then_step, creates, claims, settles}
use zcode2api_plus.Ticket.Invariant.{tickets-IsWell}
use zcode2api_plus.Ticket.Phases.{Phase, unborn, MovesAll, Follows}
use zcode2api_plus.Ticket.Refines.{tickets_refine, claimed_once}
use zcode2api_plus.Ticket.Stream.{Happening, event, quiet, stream_ticket}
use zcode2api_plus.Ticket.Stream.Ends.{
  AtEnd, AllBy, up_to_late, last_final, stream_ends_once, stream_over,
}
use zcode2api_plus.Examples.{start_time}

abbrev nobody : World Text
nobody = record {
  pool = record { tickets = []; closed = false; cancelled = []; next_serial = 0 };
  producers = [];
}

abbrev migrate : JsonMap → Text
migrate body = codes "late"

abbrev created : Text → World Text → World Text
created id w = record w {
  pool = (new_ticket 600 start_time id [] (codes "now") (codes "abc") w.pool).0;
}

-- One ticket, pending; then processing; then completed.
abbrev pending_ticket : Ticket Text
pending_ticket = record {
  serial = 0;
  status = TicketStatus.pending;
  body = [];
  attribution = some (codes "now");
  queue = [];
  created_at = start_time;
  short_id = codes "abc";
}

abbrev claimed_ticket : Ticket Text
claimed_ticket = record pending_ticket { status = TicketStatus.processing }

abbrev one_waiting : World Text
one_waiting = created (codes "t1") nobody

abbrev one_working : World Text
one_working = record {
  pool = (claim_ticket migrate (codes "t1") one_waiting.pool).0;
  producers = 0 ∷ [];
}

abbrev one_ended : World Text
one_ended = record one_working { pool = settle_status (codes "t1") 0 done one_working.pool }

nobody_IsWell : IsWell nobody.pool
unfolding lookup
nobody_IsWell = record {
  below = λ id t h. absurd (ground arith);
  one = λ i j t u h k e. absurd (ground arith);
  short = λ id t h. absurd (ground arith);
  live = λ id t h. absurd (ground arith);
  past = λ n o h. refl;
  shut = λ c. refl;
}

nobody-Follows : Follows nobody (λ n. unborn)
unfolding lookup
nobody-Follows = record {
  agrees = λ id t h. absurd (ground arith);
  fresh = λ n h. refl;
  busy = λ n m. absurd m;
}

waiting_run : Runs migrate 600 nobody one_waiting
waiting_run =
    then_step nobody start (creates start_time (codes "t1") [] (codes "now") (codes "abc"))

claim_works :
    (claim_ticket migrate (codes "t1") one_waiting.pool).1 ≡ some (claimed_ticket, codes "now")
unfolding claim_ticket lookup new_ticket zcode2api_plus.Common.insert zcode2api_plus.Common.text_eq
claim_works = refl

ended_run : Runs migrate 600 nobody one_ended
ended_run =
    then_step one_working
      (then_step one_waiting waiting_run
        (claims (codes "t1") claimed_ticket (codes "now") claim_works))
      (settles (codes "t1") 0 done (inl refl))

tickets-IsWell_example : IsWell one_ended.pool
tickets-IsWell_example = tickets-IsWell migrate 600 nobody_IsWell ended_run

tickets_refine_example : (g : ℕ → Phase) × MovesAll (λ n. unborn) g × Follows one_ended g
tickets_refine_example =
    tickets_refine migrate 600 (λ n. unborn) nobody_IsWell nobody-Follows ended_run

-- A second ticket comes while the first is worked on.
abbrev two : World Text
two = created (codes "t2") one_working

abbrev second_ticket : Ticket Text
second_ticket = record claimed_ticket { serial = 1 }

second_claim : (claim_ticket migrate (codes "t2") two.pool).1 ≡ some (second_ticket, codes "now")
unfolding claim_ticket lookup new_ticket zcode2api_plus.Common.insert zcode2api_plus.Common.text_eq
second_claim = refl

waiting_IsWell : IsWell one_waiting.pool
waiting_IsWell = tickets-IsWell migrate 600 nobody_IsWell waiting_run

waiting_Follows : (g : ℕ → Phase) × MovesAll (λ n. unborn) g × Follows one_waiting g
waiting_Follows = tickets_refine migrate 600 (λ n. unborn) nobody_IsWell nobody-Follows waiting_run

claimed_once_example : second_ticket.serial ≢ claimed_ticket.serial
claimed_once_example =
    claimed_once migrate 600 one_waiting two waiting_Follows.0 (codes "t1") claimed_ticket
      (codes "now") waiting_IsWell waiting_Follows.2 claim_works
      (then_step one_working start (creates start_time (codes "t2") [] (codes "now") (codes "abc")))
      (codes "t2") second_ticket (codes "now") second_claim

waiting_there : lookup (codes "t1") (one_waiting.pool).tickets ≡ some pending_ticket
unfolding lookup new_ticket zcode2api_plus.Common.insert zcode2api_plus.Common.text_eq
waiting_there = refl

abbrev answer : List (ℕ × Happening × Bool)
answer =
    (start_time, event (chunk null), true)
    ∷ (start_time, quiet, true)
    ∷ (start_time, event done, true)
    ∷ []

stream_ends_once_example :
    let (r, q) = stream_ticket true 600 (codes "t1") one_waiting.pool answer one_waiting.pool in
    AtEnd r.0 × (true ≡ true → true ≡ true → is_some r.1 ≡ true → last_final r.0 ≡ true)
stream_ends_once_example =
    stream_ends_once true 600 (codes "t1") one_waiting.pool one_waiting.pool answer

abbrev silence : List (ℕ × Happening × Bool)
silence = (start_time + 590 * second, quiet, true) ∷ (start_time + 601 * second, quiet, true) ∷ []

stream_over_example :
    let deadline = start_time + 600 * second in
    let (r, q) = stream_ticket true 600 (codes "t1") one_waiting.pool silence one_waiting.pool in
    AllBy (max (start_time + 580 * second) deadline + 15 * second) (up_to_late deadline silence)
    × (stream_ticket true 600
          (codes "t1")
          one_waiting.pool
          (up_to_late deadline silence)
          one_waiting.pool
        ≡ (r, q))
    × (is_some r.1 ≡ true)
    × (lookup (codes "t1") q.tickets ≡ none)
stream_over_example =
    stream_over true 600 (codes "t1") (15 * second) (start_time + 580 * second) one_waiting.pool
      one_waiting.pool silence pending_ticket waiting_there (omega arith, (omega arith, tt)) refl
