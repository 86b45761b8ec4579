-- ===== src/Connection/Exchange.antt =====
-- What a peer sees of a connection: answers, partial writes, and the next request.
use rust_tcp_server.Base.{
  ℕ, ◌+◌, ◌<◌, ◌≡◌, ◌≢◌, refl, sym, ap, ◌∙◌, subst, inl, inr, true, false, not, List, [], ◌∷◌, ltb,
  leb, Bytes, Bool-cases, length, length-drop, drop, drop-drop, arith, lt→ltb, le→ltb,
}
use rust_tcp_server.Connection.Invariant.{InvIn, Inv}
use rust_tcp_server.Connection.{
  ConnAction, want_read, want_write, close, ConnState, reading, writing, closed, Connection,
  action_in, pending_write, error_response, handle_status, on_bytes, on_written, on_bytes_in,
  is_expired,
}
use rust_tcp_server.Http.Method.{same_method, head}
use rust_tcp_server.Http.Parser.Ceilings.{reset_fresh}
use rust_tcp_server.Http.Parser.{push}
use rust_tcp_server.Http.Request.{Request, wants_keep_alive}
use rust_tcp_server.Http.Response.{Response, encode}
use rust_tcp_server.Http.State.{new_parser, reset, ParseStatus, incomplete, complete, failed}

-- The answer that follows a parse status: none, the routed response with its framing, or the error
-- response on a connection that is then to be closed.
abbrev pub Answers : (Request → Response) → ParseStatus → Connection × ConnAction → Type 0
Answers respond incomplete (c, a) = (a ≡ want_read) × (c.state ≡ reading) × (pending_write c ≡ [])
Answers respond (complete r n) (c, a) =
    (a ≡ want_write)
    × (pending_write c
        ≡ encode (respond r) (wants_keep_alive r) (not (same_method r.method head)) [])
    × (c.close_after_write ≡ not (wants_keep_alive r))
Answers respond (failed e) (c, a) =
    (a ≡ want_write)
    × (pending_write c ≡ encode (error_response e) false true [])
    × (c.close_after_write ≡ true)

module _ (respond : Request → Response) where
  handle_status-Answers :
      (c : Connection) (s : ParseStatus) → Answers respond s (handle_status respond c s)
  unfolding handle_status pending_write
  handle_status-Answers c incomplete = (refl, refl, refl)
  handle_status-Answers c (complete r n) = (refl, refl, refl)
  handle_status-Answers c (failed e) = (refl, refl, refl)

  -- A reading connection answers exactly what its parser says of the bytes; a parse error is
  -- answered too, and its connection closes after that.
  pub on_bytes-Answers :
      (c : Connection) (bytes : Bytes)
      → c.state ≡ reading
      → Answers respond (push c.parser bytes).1 (on_bytes respond c bytes)
  unfolding on_bytes
  on_bytes-Answers c bytes e = rw e (
      handle_status-Answers (record c { parser = (push c.parser bytes).0 }) (push c.parser bytes).1)

  -- Bytes that arrive while a response is being written, or after the end, are not taken in.
  pub on_bytes_ignored :
      (c : Connection) (bytes : Bytes)
      → c.state ≢ reading
      → on_bytes respond c bytes ≡ (c, action_in c.state)
  unfolding on_bytes
  on_bytes_ignored c bytes n = go c.state refl
    where
      go :
          (s : ConnState)
          → c.state ≡ s
          → on_bytes_in respond c.state c bytes ≡ (c, action_in c.state)
      go reading e = absurd (n e)
      go writing e = rw e refl
      go closed e = rw e refl

  on_bytes-deadline :
      (c : Connection) (bytes : Bytes)
      → ((on_bytes respond c bytes).0.deadline ≡ c.deadline)
        × ((on_bytes respond c bytes).0.read_timeout ≡ c.read_timeout)
  unfolding on_bytes
  on_bytes-deadline c bytes = ground arith

  abbrev pub feed : Connection → List Bytes → Connection
  feed c [] = c
  feed c (b ∷ bs) = feed (on_bytes respond c b).0 bs

  -- However slowly a client sends, and whatever it sends, the deadline does not move: the
  -- connection is expired at the time at which it would be with no byte at all.
  pub feed-is_expired :
      (c : Connection) (chunks : List Bytes) (now : ℕ)
      → is_expired (feed c chunks) now ≡ is_expired c now
  unfolding is_expired
  feed-is_expired c [] now = refl
  feed-is_expired c (b ∷ bs) now =
      feed-is_expired (on_bytes respond c b).0 bs now
      ∙ ap (λ d. leb d now) (on_bytes-deadline c b).0

-- A partial write takes what was written off the front of what is pending, and wants to write on.
pub on_written_part :
    (now : ℕ) (c : Connection) (n : ℕ)
    → c.state ≡ writing
    → n < length (pending_write c)
    → (pending_write (on_written now c n).0 ≡ drop n (pending_write c))
      × ((on_written now c n).1 ≡ want_write)
      × (length (pending_write (on_written now c n).0) + n ≡ length (pending_write c))
unfolding on_written pending_write
on_written_part now c n e l =
    let rest = length-drop c.write_pos c.write_buf in
    let l' : n < length (drop c.write_pos c.write_buf) = ground (arith, rw e at l) in
    let more = lt→ltb (c.write_pos + n) (length c.write_buf) (omega (arith, rest)) in
    rw (e, more)
      (
        sym (drop-drop n c.write_pos c.write_buf),
        refl,
        omega (arith, rest, length-drop (c.write_pos + n) c.write_buf),
      )

-- The state of a connection whose response is wholly written: closed, or reading with the parser
-- that starts afresh on the bytes behind the answered request, and with a new deadline.
abbrev pub Finished : ℕ → Connection → Connection × ConnAction → Type 0
Finished now c (d, a) =
    (c.close_after_write ≡ true → (d.state ≡ closed) × (a ≡ close))
    × (c.close_after_write ≡ false
        → (d.state ≡ reading)
          × (a ≡ want_read)
          × (d.parser ≡ record new_parser { buf = c.parser.buf })
          × (d.deadline ≡ now + c.read_timeout))
    × (pending_write d ≡ [])

-- When all that is pending is written, the connection does what its flag says.
pub on_written_all :
    (now : ℕ) (c : Connection)
    → Inv c
    → c.state ≡ writing
    → Finished now c (on_written now c (length (pending_write c)))
unfolding on_written pending_write
on_written_all now c v e =
    rw (e, all)
      (elim (Bool-cases c.close_after_write) [
        | inl last ↦ rw last (λ _. (refl, refl), λ k. cc, refl)
        | inr keep ↦ rw keep (λ k. cc, λ _. (refl, refl, fresh keep, refl), refl)
      ])
  where
    fresh : c.close_after_write ≡ false → reset c.parser ≡ record new_parser { buf = c.parser.buf }
    fresh keep =
        let w = subst (λ s. InvIn s c) e v in
        elim w.1 [ inl last ↦ cc | inr (d, h) ↦ reset_fresh c.parser h ]

    all : ltb (c.write_pos + length (drop c.write_pos c.write_buf)) (length c.write_buf) ≡ false
    all = le→ltb _ _ (omega (arith, length-drop c.write_pos c.write_buf))
