-- ===== src/Connection/Pipelining.antt =====
-- A request that comes in pieces, or behind another one.
use rust_tcp_server.Base.{ℕ, ◌≡◌, refl, sym, ap, subst, ◌∙◌, false, not, [], ◌++◌, Bytes, length}
use rust_tcp_server.Connection.Exchange.{Answers, on_bytes-Answers, on_written_all}
use rust_tcp_server.Connection.Invariant.{InvIn, Inv}
use rust_tcp_server.Connection.{
  ConnAction, want_read, want_write, reading, writing, Connection, pending_write, handle_status,
  on_bytes, on_written, parsed,
}
use rust_tcp_server.Http.Method.{same_method, head}
use rust_tcp_server.Http.Parser.Advance.{forget-forget}
use rust_tcp_server.Http.Parser.Chunks.{seen, Grows, push-append}
use rust_tcp_server.Http.Parser.Fields.{forget}
use rust_tcp_server.Http.Parser.{push}
use rust_tcp_server.Http.Request.{Request, wants_keep_alive}
use rust_tcp_server.Http.Response.{Response, encode}
use rust_tcp_server.Http.State.{
  RequestParser, new_parser, ParseStatus, incomplete, complete, failed,
}

-- All that a caller can tell of a connection and its action.
abbrev pub view : Connection × ConnAction → Connection × ConnAction
view (c, a) = (record c { parser = forget c.parser }, a)

module _ (respond : Request → Response) where
  view-handle_status :
      (c : Connection) (p : RequestParser) (s : ParseStatus)
      → view (handle_status respond (record c { parser = p }) s)
        ≡ view (handle_status respond (record c { parser = forget p }) s)
  unfolding handle_status
  view-handle_status c p incomplete =
      ap (λ q. (record c { parser = q; state = reading }, want_read)) (forget-forget p)
  view-handle_status c p (complete r n) =
      ap
        (λ q.
          let d = (handle_status respond (record c { parser = p }) (complete r n)).0 in
          (record d { parser = q }, want_write))
        (forget-forget p)
  view-handle_status c p (failed e) =
      ap
        (λ q.
          let d = (handle_status respond (record c { parser = p }) (failed e)).0 in
          (record d { parser = q }, want_write))
        (forget-forget p)

  view-parsed :
      (c : Connection) (x y : RequestParser × ParseStatus)
      → seen x ≡ seen y
      → view (parsed respond c x) ≡ view (parsed respond c y)
  view-parsed c x y e =
      view-handle_status c x.0 x.1
      ∙ ap (λ z. view (parsed respond c z)) e
      ∙ sym (view-handle_status c y.0 y.1)

  on_bytes_reading :
      (c : Connection) (a : Bytes)
      → c.state ≡ reading
      → on_bytes respond c a ≡ parsed respond c (push c.parser a)
  unfolding on_bytes
  on_bytes_reading c a e = rw e refl

  parsed_state :
      (c : Connection) (q : RequestParser) (x : RequestParser × ParseStatus)
      → parsed respond (record c { parser = q; state = reading }) x ≡ parsed respond c x
  unfolding handle_status
  parsed_state c q (p, incomplete) = refl
  parsed_state c q (p, complete r n) = refl
  parsed_state c q (p, failed e) = refl

  append_from :
      (c : Connection) (x : RequestParser × ParseStatus) (a b : Bytes)
      → Grows b x (push c.parser (a ++ b))
      → (parsed respond c x).1 ≡ want_read
      → view (on_bytes respond (parsed respond c x).0 b)
        ≡ view (parsed respond c (push c.parser (a ++ b)))
  unfolding handle_status
  append_from c (q, incomplete) a b g w =
      ap view (on_bytes_reading (record c { parser = q; state = reading }) b refl)
      ∙ ap view (parsed_state c q (push q b))
      ∙ view-parsed c (push q b) (push c.parser (a ++ b)) (sym g)
  append_from c (q, complete r n) a b g w = cc
  append_from c (q, failed e) a b g w = cc

  -- A connection that wants more after the first piece does with the second what it does with both
  -- at once.
  pub on_bytes-append :
      (c : Connection) (a b : Bytes)
      → Inv c
      → c.state ≡ reading
      → (on_bytes respond c a).1 ≡ want_read
      → view (on_bytes respond (on_bytes respond c a).0 b) ≡ view (on_bytes respond c (a ++ b))
  on_bytes-append c a b v e w =
      rw (on_bytes_reading c a e, on_bytes_reading c (a ++ b) e)
        (append_from c (push c.parser a) a b
          (push-append c.parser a b (subst (λ s. InvIn s c) e v).0)
          (rw (on_bytes_reading c a e) at w))

  -- A request that arrived behind the one answered is kept, and is answered as soon as `on_bytes` is
  -- called again, even with no byte; but the end of the response itself only asks for more to read.
  pub pipelined_request_waits :
      (now : ℕ) (c : Connection) (q : RequestParser) (r : Request) (n : ℕ)
      → Inv c
      → c.state ≡ writing
      → c.close_after_write ≡ false
      → push (record new_parser { buf = c.parser.buf }) [] ≡ (q, complete r n)
      → let d = on_written now c (length (pending_write c)) in
        let next = on_bytes respond d.0 [] in
        (d.1 ≡ want_read)
        × (pending_write d.0 ≡ [])
        × (next.1 ≡ want_write)
        × (pending_write next.0
            ≡ encode (respond r) (wants_keep_alive r) (not (same_method r.method head)) [])
  pipelined_request_waits now c q r n v e keep h =
      let d = on_written now c (length (pending_write c)) in
      let finished = on_written_all now c v e in
      let (is_reading, asks, fresh, _) = finished.1 keep in
      let status = ap (λ x. x.1) (ap (λ p. push p []) fresh ∙ h) in
      let answers =
        subst (λ s. Answers respond s (on_bytes respond d.0 [])) status
          (on_bytes-Answers respond d.0 [] is_reading) in
      (asks, finished.2, answers.0, answers.1)
