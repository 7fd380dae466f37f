-- ===== src/Ticket/Stream/Ends.antt =====
-- How the stream of a ticket ends.
use zcode2api_plus.Common.{
  ℕ, ◌+◌, ◌*◌, ◌≤◌, ◌≡◌, ap, sym, ◌∙◌, max, not, ◌&&◌, all, Bool-cases, if◌then◌else◌, inl, inr,
  refl, Bool, true, false, ◌||◌, List, [], ◌∷◌, none, some, Text, ltb, leb, is_some, any, lookup,
  arith, if_intro, Option-cases, text_eq_refl,
}
use zcode2api_plus.Marks.{second}
use zcode2api_plus.Ticket.{ready, chunk, done, error, Ticket, Pool, release_ticket}
use zcode2api_plus.Ticket.Sweep.{lookup-release}
use zcode2api_plus.Ticket.Stream.{
  Frame, Happening, Streamed, not_found, timed_out, keepalive, ready_frame, done_frame,
  ticket_frame, chunk_frame, error_frame, left, quiet, event, send, on_happening, stream_loop,
  stream_ticket,
}

-- Frames after which a client knows how its request ended.
abbrev pub is_final : Frame → Bool
is_final done_frame = true
is_final (error_frame d) = true
is_final timed_out = true
is_final not_found = true
is_final _ = false

abbrev pub is_left : ℕ × Happening × Bool → Bool
is_left (now, left, ok) = true
is_left (now, h, ok) = false

-- No frame but the last is final.
abbrev pub AtEnd : List Frame → Type 0
AtEnd [] = Unit {0}
AtEnd (f ∷ []) = Unit {0}
AtEnd (f ∷ g ∷ fs) = (is_final f ≡ false) × AtEnd (g ∷ fs)

abbrev pub last_final : List Frame → Bool
last_final [] = false
last_final (f ∷ []) = is_final f
last_final (f ∷ g ∷ fs) = last_final (g ∷ fs)

AtEnd-cons : (f : Frame) (fs : List Frame) → is_final f ≡ false → AtEnd fs → AtEnd (f ∷ fs)
AtEnd-cons f [] h a = tt
AtEnd-cons f (g ∷ fs) h a = (h, a)

send-AtEnd :
    (ok : Bool) (f : Frame) (r : Streamed) → is_final f ≡ false → AtEnd r.0 → AtEnd (send ok f r).0
send-AtEnd ok f r h a =
    if_intro (λ (s : Streamed). AtEnd s.0) ok (λ y. AtEnd-cons f r.0 h a) (λ n. tt)

on_happening-AtEnd :
    (ok : Bool) (h : Happening) (r : Streamed) → AtEnd r.0 → AtEnd (on_happening ok h r).0
on_happening-AtEnd ok left r a = tt
on_happening-AtEnd ok quiet r a = send-AtEnd ok keepalive r refl a
on_happening-AtEnd ok (event ready) r a = send-AtEnd ok ready_frame r refl a
on_happening-AtEnd ok (event (chunk d)) r a = send-AtEnd ok (chunk_frame d) r refl a
on_happening-AtEnd ok (event done) r a = tt
on_happening-AtEnd ok (event (error d)) r a = tt

pub stream_loop-AtEnd :
    (deadline : ℕ) (hs : List (ℕ × Happening × Bool)) → AtEnd (stream_loop deadline hs).0
unfolding stream_loop
stream_loop-AtEnd deadline [] = tt
stream_loop-AtEnd deadline ((now, h, ok) ∷ hs) =
    if_intro (λ (s : Streamed). AtEnd s.0) (ltb now deadline)
      (λ y. on_happening-AtEnd ok h _ (stream_loop-AtEnd deadline hs)) (λ n. tt)

last_final-cons : (f : Frame) (fs : List Frame) → last_final fs ≡ true → last_final (f ∷ fs) ≡ true
last_final-cons f [] h = absurd (ground arith)
last_final-cons f (g ∷ fs) h = h

-- What a request that is over leaves behind, if its client stayed and every write succeeded.
abbrev Ended : Streamed → Type 0
Ended r = is_some r.1 ≡ true → last_final r.0 ≡ true

send-Ended : (f : Frame) (r : Streamed) → Ended r → Ended (send true f r)
send-Ended f r e = λ o. last_final-cons f r.0 (e o)

on_happening-Ended :
    (now : ℕ) (h : Happening) (r : Streamed)
    → is_left (now, h, true) ≡ false
    → Ended r
    → Ended (on_happening true h r)
on_happening-Ended now left r l e = absurd (ground arith)
on_happening-Ended now quiet r l e = send-Ended keepalive r e
on_happening-Ended now (event ready) r l e = send-Ended ready_frame r e
on_happening-Ended now (event (chunk d)) r l e = send-Ended (chunk_frame d) r e
on_happening-Ended now (event done) r l e = λ o. refl
on_happening-Ended now (event (error d)) r l e = λ o. refl

-- The client stays, and all that is written reaches it.
abbrev pub is_smooth : ℕ × Happening × Bool → Bool
is_smooth x = not (is_left x) && x.2

stream_loop-Ended :
    (deadline : ℕ) (hs : List (ℕ × Happening × Bool))
    → all is_smooth hs ≡ true
    → Ended (stream_loop deadline hs)
unfolding stream_loop
stream_loop-Ended deadline [] l = λ o. absurd (ground arith)
stream_loop-Ended deadline ((now, h, false) ∷ hs) l = absurd (ground arith)
stream_loop-Ended deadline ((now, h, true) ∷ hs) l =
    if_intro Ended (ltb now deadline)
      (λ y.
        on_happening-Ended now h _ (stays (is_left (now, h, true)) l)
          (stream_loop-Ended deadline hs (later (is_left (now, h, true)) l)))
      (λ n o. refl)
  where
    stays : (a : Bool) → (not a && true && all is_smooth hs) ≡ true → a ≡ false
    stays a e = ground arith

    later : (a : Bool) → (not a && true && all is_smooth hs) ≡ true → all is_smooth hs ≡ true
    later a e = ground arith

-- The loop has looked at its clock at or after this time.
abbrev pub is_late : ℕ → ℕ × Happening × Bool → Bool
is_late deadline x = leb deadline x.0

-- Its rounds up to the first that is late, this one included.
abbrev pub up_to_late : ℕ → List (ℕ × Happening × Bool) → List (ℕ × Happening × Bool)
up_to_late deadline [] = []
up_to_late deadline (x ∷ hs) = if ltb x.0 deadline then x ∷ up_to_late deadline hs else x ∷ []

-- Each round begins no later than this after the one before, and the first after the start.
abbrev pub Paced : ℕ → ℕ → List (ℕ × Happening × Bool) → Type 0
Paced gap start [] = Unit {0}
Paced gap start (x ∷ hs) = (x.0 ≤ start + gap) × Paced gap x.0 hs

-- Every round begins by this time.
abbrev pub AllBy : ℕ → List (ℕ × Happening × Bool) → Type 0
AllBy end [] = Unit {0}
AllBy end (x ∷ hs) = (x.0 ≤ end) × AllBy end hs

Paced-by :
    (gap start opened deadline : ℕ) (hs : List (ℕ × Happening × Bool))
    → start ≤ max opened deadline
    → Paced gap start hs
    → AllBy (max opened deadline + gap) (up_to_late deadline hs)
Paced-by gap start opened deadline [] s p = tt
Paced-by gap start opened deadline (x ∷ hs) s (a, p) =
    if_intro (AllBy (max opened deadline + gap)) (ltb x.0 deadline)
      (λ y. (omega (arith, a, s), Paced-by gap x.0 opened deadline hs (ground arith) p))
      (λ n. (omega (arith, a, s), tt))

over_send :
    (ok : Bool) (f : Frame) (r : Streamed) → is_some r.1 ≡ true → is_some (send ok f r).1 ≡ true
over_send ok f r o = if_intro (λ (s : Streamed). is_some s.1 ≡ true) ok (λ y. o) (λ n. refl)

over_happening :
    (ok : Bool) (h : Happening) (r : Streamed)
    → is_some r.1 ≡ true
    → is_some (on_happening ok h r).1 ≡ true
over_happening ok left r o = refl
over_happening ok quiet r o = over_send ok keepalive r o
over_happening ok (event ready) r o = over_send ok ready_frame r o
over_happening ok (event (chunk d)) r o = over_send ok (chunk_frame d) r o
over_happening ok (event done) r o = refl
over_happening ok (event (error d)) r o = refl

module _ (deadline now : ℕ) (h : Happening) (ok : Bool) (hs : List (ℕ × Happening × Bool)) where
  loop_early :
      ltb now deadline ≡ true
      → stream_loop deadline ((now, h, ok) ∷ hs) ≡ on_happening ok h (stream_loop deadline hs)
  unfolding stream_loop
  loop_early y = rw y refl

  loop_late :
      ltb now deadline ≡ false
      → stream_loop deadline ((now, h, ok) ∷ hs) ≡ (timed_out ∷ [], some false)
  unfolding stream_loop
  loop_late n = rw n refl

-- The rounds after the first late one are never reached, and by then the request is over.
cut_over :
    (deadline : ℕ) (hs : List (ℕ × Happening × Bool))
    → any (is_late deadline) hs ≡ true
    → (stream_loop deadline (up_to_late deadline hs) ≡ stream_loop deadline hs)
      × (is_some (stream_loop deadline hs).1 ≡ true)
cut_over deadline [] l = absurd (ground arith)
cut_over deadline ((now, h, ok) ∷ hs) l = elim (Bool-cases (ltb now deadline)) [
  | inl y ↦
      let (same, over) = cut_over deadline hs (later y l) in
      let cut : up_to_late deadline ((now, h, ok) ∷ hs) ≡ (now, h, ok) ∷ up_to_late deadline hs =
        rw y refl in
      (
        ap (stream_loop deadline) cut
            ∙ loop_early deadline now h ok (up_to_late deadline hs) y
            ∙ ap (on_happening ok h) same
            ∙ sym (loop_early deadline now h ok hs y),
        ap (λ r. is_some r.1) (loop_early deadline now h ok hs y)
            ∙ over_happening ok h (stream_loop deadline hs) over,
      )
  | inr n ↦
      let cut : up_to_late deadline ((now, h, ok) ∷ hs) ≡ (now, h, ok) ∷ [] = rw n refl in
      (
        ap (stream_loop deadline) cut
            ∙ loop_late deadline now h ok [] n
            ∙ sym (loop_late deadline now h ok hs n),
        ap (λ r. is_some r.1) (loop_late deadline now h ok hs n),
      )
]
  where
    later :
        ltb now deadline ≡ true
        → (leb deadline now || any (is_late deadline) hs) ≡ true
        → any (is_late deadline) hs ≡ true
    later y l = ground arith

module _ {Attr : Type 0} (sent : Bool) (ticket_timeout : ℕ) (id : Text) where
  -- A client of a stream gets at most one frame that ends the request, as the last one. Once the
  -- request is over it has got one, if it stayed connected and every write succeeded.
  pub stream_ends_once :
      (p at_exit : Pool Attr) (hs : List (ℕ × Happening × Bool))
      → let (r, q) = stream_ticket sent ticket_timeout id p hs at_exit in
        AtEnd r.0
        × ((sent ≡ true) → all is_smooth hs ≡ true → is_some r.1 ≡ true → last_final r.0 ≡ true)
  unfolding stream_ticket
  stream_ends_once p at_exit hs = elim (Option-cases (lookup id p.tickets)) [
    | inl n ↦ rw (stream_ticket, n) (tt, λ w l o. refl)
    | inr (tk, l) ↦
        let deadline = tk.created_at + ticket_timeout * second in
        rw (stream_ticket, l)
          (
            send-AtEnd sent (ticket_frame id) _ refl (stream_loop-AtEnd deadline hs),
            λ w s. rw w (
                send-Ended (ticket_frame id) (stream_loop deadline hs)
                  (stream_loop-Ended deadline hs s)),
          )
  ]

  -- A stream whose rounds begin no further apart than a gap (which is the longest wait of one and its
  -- write) is over within one gap of its deadline, the time of creation and the timeout, or of its
  -- opening, if that is later: where the loop would go on to a round at or after the deadline, the
  -- rounds that begin by then settle all that it writes, the request is over, and its ticket has left
  -- the pool.
  pub stream_over :
      (gap opened : ℕ) (p at_exit : Pool Attr) (hs : List (ℕ × Happening × Bool)) (tk : Ticket Attr)
      → lookup id p.tickets ≡ some tk
      → Paced gap opened hs
      → any (is_late (tk.created_at + ticket_timeout * second)) hs ≡ true
      → let deadline = tk.created_at + ticket_timeout * second in
        let (r, q) = stream_ticket sent ticket_timeout id p hs at_exit in
        AllBy (max opened deadline + gap) (up_to_late deadline hs)
        × (stream_ticket sent ticket_timeout id p (up_to_late deadline hs) at_exit ≡ (r, q))
        × (is_some r.1 ≡ true)
        × (lookup id q.tickets ≡ none)
  unfolding stream_ticket
  stream_over gap opened p at_exit hs tk l paced late =
      let deadline = tk.created_at + ticket_timeout * second in
      let (same, ended) = cut_over deadline hs late in
      let over = over_send sent (ticket_frame id) (stream_loop deadline hs) ended in
      (
        Paced-by gap opened opened deadline hs (omega arith) paced,
        rw (stream_ticket, l) (rw same refl),
        rw (stream_ticket, l) over,
        rw (stream_ticket, l) (rw over (released at_exit)),
      )
    where
      released : (q : Pool Attr) → lookup id (release_ticket id q).tickets ≡ none
      released q = ground (arith, lookup-release id id q, text_eq_refl id)
