-- ===== src/Server/Blocking/Delivery.antt =====
-- What a client of the blocking loop is sent.
use rust_tcp_server.Base.{
  ℕ, ◌<◌, ◌≡◌, refl, sym, ap, ◌∙◌, Bool, true, false, List, [], ◌∷◌, ◌++◌, append-nil, Bytes,
}
use rust_tcp_server.Base.Extension.{unclaimed, Falls, loop_returns}
use rust_tcp_server.Base.Rounds.{ret, Ends, loop-Ends}
use rust_tcp_server.Connection.Actions.{
  on_bytes-action, on_written-action, action_in-want_read, action_in-want_write,
  pending_write_reading,
}
use rust_tcp_server.Connection.Invariant.{Inv, new_connection-Inv, on_bytes-Inv, on_written-Inv}
use rust_tcp_server.Connection.{
  ConnAction, want_read, want_write, close, ConnState, reading, writing, closed, Connection,
  new_connection, action_in, pending_write,
}
use rust_tcp_server.Http.Request.{Request}
use rust_tcp_server.Http.Response.{Response}
use rust_tcp_server.Server.Blocking.{
  Serving, serve_read, serve_write, serve_in, serve_step, serve_connection,
}
use rust_tcp_server.Http.State.{new_parser}
use rust_tcp_server.Server.EventIo.Answers.{Answer, all_bytes, answers_from}
use rust_tcp_server.Server.EventIo.Delivery.{
  Same, Took, Wrote, Delivered, Owes, Owes-Delivered, Owes-Same, on_written-Owes, on_bytes-Owes,
}
use rust_tcp_server.Server.EventIo.{IoResult, got, would_block, io_error}

-- A call that the stream answers leaves it fewer to answer.
abbrev pub Answered : {K A : Type 0} → (K → ℕ) → K → K × IoResult A → Type 0
Answered moves k (j, got a) = moves j < moves k
Answered moves k (j, would_block) = Unit {0}
Answered moves k (j, io_error) = Unit {0}

module _ {K : Type 0} (read : K → K × IoResult Bytes) (write : K → Bytes → K × IoResult ℕ)
    (clock : K → ℕ) (sent : K → Bytes) (pieces : K → List Bytes)
    (read_takes : (k : K) → Took sent pieces k (read k))
    (write_sends : (k : K) (p : Bytes) → Wrote sent pieces k p (write k p))
    (respond : Request → Response) (z : Bytes) (ps : List Bytes) where
  abbrev due : List Bytes → List Answer
  due bs = answers_from respond new_parser bs

  abbrev pub Owing : K → Connection → Type 0
  Owing k c = Owes sent pieces respond z ps due k c

  abbrev pub Serves : Serving K → Type 0
  Serves d = Inv d.conn × (d.action ≡ action_in d.conn.state) × Owing d.stream d.conn

  -- At a normal end all the answers to what was read are sent; at an error they are but for what is
  -- pending.
  abbrev pub Served : Bool → Serving K → Type 0
  Served true d =
      (bs : List Bytes) × (pieces d.stream ≡ ps ++ bs) × (sent d.stream ≡ z ++ all_bytes (due bs))
  Served false d = Delivered sent pieces z ps due d.stream d.conn

  kept :
      (d : Serving K) (k : K)
      → Same sent pieces d.stream k
      → Serves d
      → Delivered sent pieces z ps due k d.conn
  kept d k e (_, _, o) =
      Owes-Delivered sent pieces respond z ps due k d.conn
        (Owes-Same sent pieces respond z ps due d.stream k d.conn e o)

  all_sent :
      (k : K) (c : Connection)
      → pending_write c ≡ []
      → Delivered sent pieces z ps due k c
      → (bs : List Bytes) × (pieces k ≡ ps ++ bs) × (sent k ≡ z ++ all_bytes (due bs))
  all_sent k c e (bs, p, s) = (bs, p, sym (append-nil (sent k)) ∙ ap (λ b. sent k ++ b) (sym e) ∙ s)

  serve_read-Ends :
      (d : Serving K) (x : K × IoResult Bytes)
      → Took sent pieces d.stream x
      → d.conn.state ≡ reading
      → Serves d
      → Ends Serves Served (serve_read read write clock respond d x)
  serve_read-Ends d (k, got []) s r g =
      all_sent k d.conn (pending_write_reading d.conn r) (kept d k s g)
  serve_read-Ends d (k, got (b ∷ bs)) s r g = (
    on_bytes-Inv respond d.conn (b ∷ bs) g.0,
    on_bytes-action respond d.conn (b ∷ bs),
    on_bytes-Owes sent pieces respond z ps due d.stream k d.conn (b ∷ bs) r s.0 s.1 g.2,
  )
  serve_read-Ends d (k, would_block) s r g = kept d k s g
  serve_read-Ends d (k, io_error) s r g = kept d k s g

  serve_write-Ends :
      (d : Serving K) (x : K × IoResult ℕ)
      → Wrote sent pieces d.stream (pending_write d.conn) x
      → d.conn.state ≡ writing
      → Serves d
      → Ends Serves Served (serve_write read write clock respond d x)
  serve_write-Ends d (k, got n) s w g = (
    on_written-Inv (clock k) d.conn n g.0,
    on_written-action (clock k) d.conn n,
    on_written-Owes sent pieces respond z ps due (clock k) d.stream k d.conn n g.0 w s g.2,
  )
  serve_write-Ends d (k, would_block) s w g = kept d k s g
  serve_write-Ends d (k, io_error) s w g = kept d k s g

  pending_write_closed : (c : Connection) → c.state ≡ closed → pending_write c ≡ []
  unfolding pending_write
  pending_write_closed c e = rw e refl

  action_in-close : (s : ConnState) → action_in s ≡ close → s ≡ closed
  action_in-close reading e = cc
  action_in-close writing e = cc
  action_in-close closed e = refl

  serve_in-Ends :
      (a : ConnAction) (d : Serving K)
      → d.action ≡ a
      → Serves d
      → Ends Serves Served (serve_in read write clock respond a d)
  serve_in-Ends want_read d e g =
      serve_read-Ends d (read d.stream) (read_takes d.stream)
        (action_in-want_read d.conn.state (sym g.1 ∙ e)) g
  serve_in-Ends want_write d e g =
      serve_write-Ends d (write d.stream (pending_write d.conn))
        (write_sends d.stream (pending_write d.conn))
        (action_in-want_write d.conn.state (sym g.1 ∙ e)) g
  serve_in-Ends close d e g =
      all_sent d.stream d.conn
        (pending_write_closed d.conn (action_in-close d.conn.state (sym g.1 ∙ e)))
        (Owes-Delivered sent pieces respond z ps due d.stream d.conn g.2)

  pub serve_step-Ends :
      (d : Serving K) → Serves d → Ends Serves Served (serve_step read write clock respond d)
  unfolding serve_step
  serve_step-Ends d g = serve_in-Ends d.action d refl g

module _ {K : Type 0} (read : K → K × IoResult Bytes) (write : K → Bytes → K × IoResult ℕ)
    (clock : K → ℕ) (moves : K → ℕ) (read_answers : (k : K) → Answered moves k (read k))
    (write_answers : (k : K) (p : Bytes) → Answered moves k (write k p))
    (respond : Request → Response) where
  serve_in-Falls :
      (a : ConnAction) (d : Serving K)
      → Falls
          (λ b. unclaimed)
          (λ t. Unit {0})
          (λ t. moves t.stream)
          d
          (serve_in read write clock respond a d)
  serve_in-Falls want_read d = go (read d.stream) (read_answers d.stream)
    where
      go :
          (x : K × IoResult Bytes)
          → Answered moves d.stream x
          → Falls
              (λ b. unclaimed)
              (λ t. Unit {0})
              (λ t. moves t.stream)
              d
              (serve_read read write clock respond d x)
      go (k, got []) h = λ e. cc
      go (k, got (b ∷ bs)) h = (tt, h)
      go (k, would_block) h = λ e. cc
      go (k, io_error) h = λ e. cc
  serve_in-Falls want_write d =
      write_Falls (write d.stream (pending_write d.conn))
        (write_answers d.stream (pending_write d.conn))
    where
      write_Falls :
          (x : K × IoResult ℕ)
          → Answered moves d.stream x
          → Falls
              (λ b. unclaimed)
              (λ t. Unit {0})
              (λ t. moves t.stream)
              d
              (serve_write read write clock respond d x)
      write_Falls (k, got n) h = (tt, h)
      write_Falls (k, would_block) h = λ e. cc
      write_Falls (k, io_error) h = λ e. cc
  serve_in-Falls close d = λ e. cc

  pub serve_step-Falls :
      (d : Serving K)
      → Unit {0}
      → Falls
          (λ b. unclaimed)
          (λ t. Unit {0})
          (λ t. moves t.stream)
          d
          (serve_step read write clock respond d)
  unfolding serve_step
  serve_step-Falls d u = serve_in-Falls d.action d

-- A stream that answers no more calls than there is fuel is served to an end. At a normal end the
-- client was sent the answers to the pieces that were read, whole, in order and nothing else: each
-- request that the parser completes is answered once, as its handler responds, until one that asks
-- for the close or is refused. At an I/O error it was sent that but for what is still pending,
-- which is the rest of it.
pub serve_connection-Served :
    {K : Type 0} (read : K → K × IoResult Bytes) (write : K → Bytes → K × IoResult ℕ)
    (clock : K → ℕ) (sent : K → Bytes) (pieces : K → List Bytes)
    (read_takes : (k : K) → Took sent pieces k (read k))
    (write_sends : (k : K) (p : Bytes) → Wrote sent pieces k p (write k p)) (moves : K → ℕ)
    (read_answers : (k : K) → Answered moves k (read k))
    (write_answers : (k : K) (p : Bytes) → Answered moves k (write k p))
    (respond : Request → Response) (fuel read_timeout : ℕ) (k : K)
    → moves k < fuel
    → (d : Serving K) × (b : Bool) × (serve_connection read write clock respond fuel read_timeout k
        ≡ (d, ret b))
      × Served read write clock sent pieces read_takes write_sends respond (sent k) (pieces k) b d
unfolding serve_connection new_connection pending_write
serve_connection-Served {K} read write clock sent pieces read_takes write_sends moves read_answers
      write_answers respond fuel read_timeout k l =
    let d : Serving K = record {
      stream = k;
      conn = new_connection (clock k) read_timeout;
      action = want_read;
    } in
    let step = serve_step read write clock respond in
    let (t, b, e) =
      loop_returns (λ b. unclaimed) (λ t. Unit {0}) (λ t. moves t.stream) step
        (serve_step-Falls read write clock moves read_answers write_answers respond) fuel d tt l in
    let kept =
      loop-Ends
        (Serves read write clock sent pieces read_takes write_sends respond (sent k) (pieces k))
        (Served read write clock sent pieces read_takes write_sends respond (sent k) (pieces k))
        step
        (serve_step-Ends read write clock sent pieces read_takes write_sends respond (sent k)
          (pieces k))
        fuel d
        (
          new_connection-Inv (clock k) read_timeout,
          refl,
          ([], [], sym (append-nil (pieces k)), refl, λ more. refl),
        ) in
    (t, b, e, rw e at kept)
