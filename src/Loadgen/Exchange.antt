-- ===== src/Loadgen/Exchange.antt =====
-- A worker of the load generator with a connection of the server at the other end.
use rust_tcp_server.Base.{
  ℕ, zero, suc, ◌≤◌, ◌≡◌, refl, sym, ap, subst, ◌∙◌, true, false, not, List, [], ◌∷◌, ◌++◌, Bytes,
  length, append_assoc,
}
use rust_tcp_server.Connection.Exchange.{Finished, on_written_all}
use rust_tcp_server.Connection.Invariant.{Inv, on_bytes-Inv, on_written-Inv}
use rust_tcp_server.Connection.{
  ConnAction, want_read, want_write, reading, Connection, on_bytes, on_written, pending_write,
  handle_status, on_bytes_in, parsed, start_writing,
}
use rust_tcp_server.Http.Method.{http11, same_method, head}
use rust_tcp_server.Http.Parser.Messages.{sent}
use rust_tcp_server.Http.Parser.RoundTrip.{push-sent}
use rust_tcp_server.Http.Parser.{push}
use rust_tcp_server.Http.Request.{Request}
use rust_tcp_server.Http.Response.{Response, body_bytes}
use rust_tcp_server.Http.State.{RequestParser, complete, new_parser}
use rust_tcp_server.Loadgen.Reader.Fields.{OneLine}
use rust_tcp_server.Loadgen.Reader.RoundTrip.{AreClean, read_response-encode}
use rust_tcp_server.Loadgen.Reader.{whole, read_response}
use rust_tcp_server.Text.Number.{usize_max}
use rust_tcp_server.Loadgen.Request.{
  request_text, request_message, request_text-sent, request_message-IsMessage, request_of,
  request_of-kept, request_of-body,
}

module _ (respond : Request → Response) where
  -- A connection that waits for a request, of which it has nothing yet.
  abbrev pub Ready : Connection → Type 0
  Ready c = Inv c × (c.state ≡ reading) × (c.parser ≡ new_parser)

  -- The connection with an answer to write.
  abbrev answering : Connection → RequestParser → Bytes → Connection
  answering c q target =
      start_writing (record c { parser = q }) (respond (request_of target)) true true

  on_bytes-answering :
      (c : Connection) (target : Bytes)
      → c.state ≡ reading
      → c.parser ≡ new_parser
      → OneLine target
      → length target ≤ 256
      → (q : RequestParser) × (on_bytes respond c (request_text target)
          ≡ (answering c q target, want_write))
        × (q.buf ≡ [])
  unfolding on_bytes handle_status
  on_bytes-answering c target e f h l =
      let m = request_message target in
      let (q, pushed, left) = push-sent m http11 [] (request_message-IsMessage target h l) in
      let got : push c.parser (request_text target)
          ≡ (q, complete (request_of target) (length (sent m []))) =
        ap (λ p. push p (request_text target)) f
        ∙ ap (push new_parser) (request_text-sent target)
        ∙ pushed in
      (
        q,
        ap (λ s. on_bytes_in respond s c (request_text target)) e
            ∙ ap (parsed respond c) got
            ∙ ap
                (λ k. (
                  start_writing (record c { parser = q }) (respond (request_of target)) k
                      (not (same_method (request_of target).method head)),
                  want_write,
                ))
                (request_of-kept target)
            ∙ ap
                (λ k. (
                  start_writing (record c { parser = q }) (respond (request_of target)) true k,
                  want_write,
                ))
                (request_of-body target),
        left,
      )

  Finished-Ready :
      (now : ℕ) (d : Connection) (r : Connection × ConnAction)
      → Finished now d r
      → d.close_after_write ≡ false
      → d.parser.buf ≡ []
      → (r.1 ≡ want_read) × (r.0.state ≡ reading) × (r.0.parser ≡ new_parser)
  unfolding new_parser
  Finished-Ready now d (c, a) (last, keep, none) e b =
      let (s, w, p, t) = keep e in (w, s, p ∙ ap (λ x. record new_parser { buf = x }) b)

  -- The answer is written whole.
  abbrev pub sent_whole : ℕ → Connection → Connection × ConnAction
  sent_whole now d = on_written now d (length (pending_write d))

  answering-sent :
      (now : ℕ) (c : Connection) (q : RequestParser) (target : Bytes)
      → Inv (answering c q target)
      → q.buf ≡ []
      → ((sent_whole now (answering c q target)).1 ≡ want_read)
        × Ready (sent_whole now (answering c q target)).0
  unfolding start_writing
  answering-sent now c q target v left =
      let d = answering c q target in
      let (w, s, p) =
        Finished-Ready now d (sent_whole now d) (on_written_all now d v refl) refl left in
      (w, (on_written-Inv now d (length (pending_write d)) v, s, p))

  -- The load generator's request and the server's answer fit together. A connection that waits with
  -- nothing in its parser answers the request as soon as it has it; what it has to write then is
  -- read by the client as one whole response, and nothing that comes behind it is; and when it is
  -- written, the connection is open and waits with nothing in its parser. The target is a line of
  -- ASCII of 256 bytes at most, and the fields that the handler has set are of one line each, with
  -- nothing around the name or a colon in it.
  pub exchange-Ready :
      (now : ℕ) (c : Connection) (target rest : Bytes)
      → Ready c
      → OneLine target
      → length target ≤ 256
      → AreClean (respond (request_of target)).headers.inner
      → length (body_bytes (respond (request_of target)).body) ≤ usize_max
      → ((on_bytes respond c (request_text target)).1 ≡ want_write)
        × (read_response (pending_write (on_bytes respond c (request_text target)).0 ++ rest)
            ≡ (rest, whole))
        × ((sent_whole now (on_bytes respond c (request_text target)).0).1 ≡ want_read)
        × Ready (sent_whole now (on_bytes respond c (request_text target)).0).0
  unfolding start_writing pending_write
  exchange-Ready now c target rest (v, e, f) h l clean small =
      let (q, answered, left) = on_bytes-answering c target e f h l in
      let d = answering c q target in
      let kept : Inv d =
        subst (λ r. Inv r.0) answered (on_bytes-Inv respond c (request_text target) v) in
      let response = respond (request_of target) in
      let (w, ready) = answering-sent now c q target kept left in
      rw answered (refl, read_response-encode response true rest clean small, w, ready)

  -- What the server sends to a worker that makes a request whenever it has been answered, at the
  -- times at which the answers are written.
  unfoldable pub session : Bytes → List ℕ → Connection → Bytes
  session target [] c = []
  session target (now ∷ times) c =
      let d = (on_bytes respond c (request_text target)).0 in
      pending_write d ++ session target times (sent_whole now d).0

  -- So many responses are read whole, and what is left then.
  abbrev pub ReadWhole : ℕ → Bytes → Bytes → Type 0
  ReadWhole zero bytes rest = bytes ≡ rest
  ReadWhole (suc n) bytes rest =
      ((read_response bytes).1 ≡ whole) × ReadWhole n (read_response bytes).0 rest

  -- However many requests a worker sends on its connection, each after the answer to the one before:
  -- it reads each answer whole off the bytes that come, from its first to its last byte, and nothing
  -- of what follows the last of them. The connection is one that waits with nothing in its parser,
  -- as a new one does; the target is a line of ASCII of 256 bytes at most, and the fields that the
  -- handler has set are of one line each, with nothing around the name or a colon in it.
  pub session-ReadWhole :
      (times : List ℕ) (c : Connection) (target rest : Bytes)
      → Ready c
      → OneLine target
      → length target ≤ 256
      → AreClean (respond (request_of target)).headers.inner
      → length (body_bytes (respond (request_of target)).body) ≤ usize_max
      → ReadWhole (length times) (session target times c ++ rest) rest
  unfolding session
  session-ReadWhole [] c target rest r h l clean small = refl
  session-ReadWhole (now ∷ times) c target rest r h l clean small =
      let d = (on_bytes respond c (request_text target)).0 in
      let later = session target times (sent_whole now d).0 in
      let (a, first, w, next) = exchange-Ready now c target (later ++ rest) r h l clean small in
      let kept : Ready (sent_whole now d).0 = next in
      subst (λ b. ReadWhole (suc (length times)) b rest)
        (sym (append_assoc (pending_write d) later rest))
        (
          ap (λ x. x.1) first,
          subst (λ b. ReadWhole (length times) b rest) (sym (ap (λ x. x.0) first))
              (session-ReadWhole times (sent_whole now d).0 target rest kept h l clean small),
        )
