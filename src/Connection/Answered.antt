-- ===== src/Connection/Answered.antt =====
-- A connection from the bytes of a request to the last byte of its answer.
use rust_tcp_server.Base.{
  ℕ, ◌+◌, ◌<◌, ◌≡◌, refl, sym, ap, subst, ◌∙◌, true, false, not, List, [], ◌∷◌, Bytes, lt→ltb,
  length, length-drop, drop, arith,
}
use rust_tcp_server.Connection.Exchange.{Finished, on_written_all}
use rust_tcp_server.Connection.Invariant.{Inv, on_bytes-Inv, on_written-Inv}
use rust_tcp_server.Connection.{
  ConnAction, want_read, close, reading, writing, closed, Connection, pending_write, handle_status,
  start_writing, on_bytes, on_bytes_in, on_written,
}
use rust_tcp_server.Http.Parser.{push}
use rust_tcp_server.Http.Request.{Request, wants_keep_alive}
use rust_tcp_server.Http.Response.{Response}
use rust_tcp_server.Http.State.{
  RequestParser, new_parser, ParseStatus, incomplete, complete, failed,
}

-- The socket takes the answer in parts: first so many bytes at a time, never all.
unfoldable pub after_parts : ℕ → Connection → List ℕ → Connection
after_parts now c [] = c
after_parts now c (n ∷ ns) = after_parts now (on_written now c n).0 ns

abbrev pub AreParts : ℕ → Connection → List ℕ → Type 0
AreParts now c [] = Unit {0}
AreParts now c (n ∷ ns) = (n < length (pending_write c)) × AreParts now (on_written now c n).0 ns

-- And then all that is left.
abbrev pub written_out : ℕ → Connection → Connection × ConnAction
written_out now c = on_written now c (length (pending_write c))

-- What a write in part leaves as it was.
abbrev Alike : Connection → Connection → Type 0
Alike c d =
    (d.state ≡ c.state)
    × (d.parser ≡ c.parser)
    × (d.close_after_write ≡ c.close_after_write)
    × (d.read_timeout ≡ c.read_timeout)

on_written-Alike :
    (now : ℕ) (c : Connection) (n : ℕ)
    → c.state ≡ writing
    → n < length (pending_write c)
    → Alike c (on_written now c n).0
unfolding on_written pending_write
on_written-Alike now c n e l =
    let l' : n < length (drop c.write_pos c.write_buf) = ground (arith, rw e at l) in
    let more =
      lt→ltb (c.write_pos + n) (length c.write_buf)
        (omega (arith, length-drop c.write_pos c.write_buf)) in
    rw (e, more) (refl, refl, refl, refl)

parts-Alike :
    (now : ℕ) (c : Connection) (ns : List ℕ)
    → Inv c
    → c.state ≡ writing
    → AreParts now c ns
    → Inv (after_parts now c ns) × Alike c (after_parts now c ns)
unfolding after_parts
parts-Alike now c [] v e h = (v, (refl, refl, refl, refl))
parts-Alike now c (n ∷ ns) v e (l, h) =
    let d = (on_written now c n).0 in
    let (s, p, k, t) = on_written-Alike now c n e l in
    let (w, (s', p', k', t')) = parts-Alike now d ns (on_written-Inv now c n v) (s ∙ e) h in
    (w, (s' ∙ s, p' ∙ p, k' ∙ k, t' ∙ t))

-- What becomes of a connection, by what the parser says of the bytes that it took in.
abbrev pub Follows : ℕ → Connection → RequestParser × ParseStatus → Connection × ConnAction → Type 0
Follows now c (q, incomplete) x = Unit {0}
Follows now c (q, complete r n) x =
    (wants_keep_alive r ≡ false → (x.0.state ≡ closed) × (x.1 ≡ close))
    × (wants_keep_alive r ≡ true
        → (x.0.state ≡ reading)
          × (x.1 ≡ want_read)
          × (x.0.parser ≡ record new_parser { buf = q.buf })
          × (x.0.deadline ≡ now + c.read_timeout))
    × (pending_write x.0 ≡ [])
Follows now c (q, failed e) x = (x.0.state ≡ closed) × (x.1 ≡ close) × (pending_write x.0 ≡ [])

keeps_open :
    (now : ℕ) (d : Connection) (x : Connection × ConnAction)
    → Finished now d x
    → d.close_after_write ≡ false
    → (x.0.state ≡ reading)
      × (x.1 ≡ want_read)
      × (x.0.parser ≡ record new_parser { buf = d.parser.buf })
      × (x.0.deadline ≡ now + d.read_timeout)
keeps_open now d (c, a) (last, keep, none) e = keep e

closes :
    (now : ℕ) (d : Connection) (x : Connection × ConnAction)
    → Finished now d x
    → d.close_after_write ≡ true
    → (x.0.state ≡ closed) × (x.1 ≡ close)
closes now d (c, a) (last, keep, none) e = last e

leaves_none :
    (now : ℕ) (d : Connection) (x : Connection × ConnAction)
    → Finished now d x
    → pending_write x.0 ≡ []
leaves_none now d (c, a) (last, keep, none) = none

module _ (respond : Request → Response) where
  handle_status-Follows :
      (now : ℕ) (c : Connection) (q : RequestParser) (s : ParseStatus) (ns : List ℕ)
      → Inv (handle_status respond (record c { parser = q }) s).0
      → AreParts now (handle_status respond (record c { parser = q }) s).0 ns
      → Follows now c
          (q, s)
          (written_out now
            (after_parts now (handle_status respond (record c { parser = q }) s).0 ns))
  unfolding handle_status start_writing
  handle_status-Follows now c q incomplete ns v h = tt
  handle_status-Follows now c q (complete r n) ns v h =
      let d = (handle_status respond (record c { parser = q }) (complete r n)).0 in
      let (w, (s, p, k, t)) = parts-Alike now d ns v refl h in
      let e = after_parts now d ns in
      let f = on_written_all now e w s in
      (
        λ no. closes now e (written_out now e) f (k ∙ ap not no),
        λ yes.
            (let (st, a, pa, dl) = keeps_open now e (written_out now e) f (k ∙ ap not yes) in
              (
                st,
                a,
                pa ∙ ap (λ x. record new_parser { buf = x.buf }) p,
                dl ∙ ap (λ x. now + x) t,
              )),
        leaves_none now e (written_out now e) f,
      )
  handle_status-Follows now c q (failed x) ns v h =
      let d = (handle_status respond (record c { parser = q }) (failed x)).0 in
      let (w, (s, p, k, t)) = parts-Alike now d ns v refl h in
      let e = after_parts now d ns in
      let f = on_written_all now e w s in
      let (st, a) = closes now e (written_out now e) f k in
      (st, a, leaves_none now e (written_out now e) f)

  -- A reading connection takes in bytes that complete a request or are refused, and its answer is
  -- written, in whatever parts. Then it closes if the request does not want to be kept alive or the
  -- bytes are refused, and only then; else it reads on, with a parser that starts afresh on the bytes
  -- behind the request and with a new deadline. Nothing is pending any more.
  pub on_written-Follows :
      (now : ℕ) (c : Connection) (bytes : Bytes) (ns : List ℕ)
      → Inv c
      → c.state ≡ reading
      → AreParts now (on_bytes respond c bytes).0 ns
      → Follows now c
          (push c.parser bytes)
          (written_out now (after_parts now (on_bytes respond c bytes).0 ns))
  unfolding on_bytes
  on_written-Follows now c bytes ns v e h =
      let r = push c.parser bytes in
      let same : on_bytes respond c bytes ≡ handle_status respond (record c { parser = r.0 }) r.1 =
        ap (λ s. on_bytes_in respond s c bytes) e in
      subst (λ x. Follows now c r (written_out now (after_parts now x.0 ns))) (sym same)
        (handle_status-Follows now c r.0 r.1 ns
          (subst (λ x. Inv x.0) same (on_bytes-Inv respond c bytes v))
          (subst (λ x. AreParts now x.0 ns) same h))
