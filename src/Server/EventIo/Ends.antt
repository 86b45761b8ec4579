-- ===== src/Server/EventIo/Ends.antt =====
-- `drive_io` ends, with what it leaves.
use rust_tcp_server.Base.{
  ℕ, zero, suc, ◌<◌, ◌≡◌, ◌≢◌, refl, sym, ◌∙◌, Bool, true, List, [], ◌∷◌, ◌++◌, append-nil, Bytes,
}
use rust_tcp_server.App.{Metrics}
use rust_tcp_server.Base.Rounds.{ret}
use rust_tcp_server.Connection.Invariant.{Inv}
use rust_tcp_server.Connection.{
  ConnAction, want_read, close, reading, writing, closed, Connection, action_in, pending_write,
}
use rust_tcp_server.Http.Request.{Request}
use rust_tcp_server.Http.Response.{Response}
use rust_tcp_server.Server.EventIo.Answers.{Answer, answers_then}
use rust_tcp_server.Server.EventIo.Delivery.{
  Took, Wrote, Owes, Owes-Delivered, Owes-Same, on_written-Owes, on_bytes-Owes, Delivered,
}
use rust_tcp_server.Server.EventIo.Drive.{ReadKeeps, WriteKeeps}
use rust_tcp_server.Server.EventIo.{IoResult, got, would_block, io_error, Driven, drive_io}
use rust_tcp_server.Server.EventIo.Loop.{ReadMoves, WriteMoves, drive_io-Left}

-- What is owed, through one call.
module _ {K : Type 0} (sent : K → Bytes) (pieces : K → List Bytes) (respond : Request → Response)
    (now : ℕ) (z : Bytes) (ps : List Bytes) (answers : List Bytes → List Answer) where
  abbrev Owed : K → Connection → Type 0
  Owed k c = Owes sent pieces respond z ps answers k c

  read-Owes :
      (k : K) (c : Connection) (x : K × IoResult Bytes)
      → Took sent pieces k x
      → c.state ≡ reading
      → Owed k c
      → ReadKeeps Owed respond now c x
  read-Owes k c (j, got []) t r o = Owes-Same sent pieces respond z ps answers k j c t o
  read-Owes k c (j, got (b ∷ bs)) t r o =
      on_bytes-Owes sent pieces respond z ps answers k j c (b ∷ bs) r t.0 t.1 o
  read-Owes k c (j, would_block) t r o = Owes-Same sent pieces respond z ps answers k j c t o
  read-Owes k c (j, io_error) t r o = Owes-Same sent pieces respond z ps answers k j c t o

  write-Owes :
      (k : K) (c : Connection) (x : K × IoResult ℕ)
      → Wrote sent pieces k (pending_write c) x
      → Inv c
      → c.state ≡ writing
      → Owed k c
      → WriteKeeps Owed respond now c x
  write-Owes k c (j, got zero) t v w o =
      Owes-Same sent pieces respond z ps answers k j c (t.1 ∙ append-nil (sent k), t.2) o
  write-Owes k c (j, got (suc n)) t v w o =
      on_written-Owes sent pieces respond z ps answers now k j c (suc n) v w t o
  write-Owes k c (j, would_block) t v w o = Owes-Same sent pieces respond z ps answers k j c t o
  write-Owes k c (j, io_error) t v w o = Owes-Same sent pieces respond z ps answers k j c t o

-- What is left of an event, for a connection that began it.
abbrev pub Leaves :
    {K : Type 0}
    → (K → K × IoResult Bytes)
    → (K → Bytes)
    → (K → List Bytes)
    → (Request → Response)
    → Bool
    → K
    → Connection
    → ConnAction
    → Driven K
    → Type 0
Leaves {K} read sent pieces respond drain k c a d =
    Inv d.conn
    × Delivered sent pieces (sent k ++ pending_write c) (pieces k) (answers_then respond c) d.stream
        d.conn
    × (a ≢ close → a ≡ action_in d.conn.state)
    × (drain ≡ true → a ≡ want_read → (j : K) × (read j ≡ (d.stream, would_block)))

-- With fuel for one call more than the socket can serve, an event ends. Whatever the socket did, the
-- connection keeps its invariant. What the peer was sent, with what is still pending, is what it was
-- before and then the answers to the pieces that were read, no byte lost, repeated or out of place:
-- each request that the parser completes is answered once, as its handler responds, until one that
-- asks for the close or is refused, and after that there are no more. The action is the close
-- of the connection or the one of its state; and where the event was drained and the connection is
-- to wait for input, the last call was a read that had none.
pub drive_io-Leaves :
    {K : Type 0} (read : K → K × IoResult Bytes) (write : K → Bytes → K × IoResult ℕ)
    (sent : K → Bytes) (pieces : K → List Bytes)
    (read_takes : (k : K) → Took sent pieces k (read k))
    (write_sends : (k : K) (p : Bytes) → Wrote sent pieces k p (write k p)) (moves : K → ℕ)
    (read_moves : (k : K) → ReadMoves moves k (read k))
    (write_moves : (k : K) (p : Bytes) → WriteMoves moves k (write k p))
    (respond : Request → Response) (now : ℕ) (drain : Bool) (fuel : ℕ) (k : K) (c : Connection)
    (metrics : Metrics)
    → Inv c
    → c.state ≢ closed
    → moves k < fuel
    → (d : Driven K) × (a : ConnAction) × (drive_io read write respond now drain fuel k c metrics
        ≡ (d, ret a))
      × Leaves read sent pieces respond drain k c a d
drive_io-Leaves {K} read write sent pieces read_takes write_sends moves read_moves write_moves
      respond now drain fuel k c metrics v n l =
    let z = sent k ++ pending_write c in
    let answers = answers_then respond c in
    let (d, a, e, h) =
      drive_io-Left read write moves read_moves write_moves respond now drain
        (Owes sent pieces respond z (pieces k) answers)
        (λ j b r o.
          read-Owes sent pieces respond now z (pieces k) answers j b (read j) (read_takes j) r o)
        (λ j b i w o.
          write-Owes sent pieces respond now z (pieces k) answers j b (write j (pending_write b))
            (write_sends j (pending_write b)) i w o)
        fuel k c metrics v n l
        ([], [], sym (append-nil (pieces k)), sym (append-nil z), λ more. refl) in
    let told = Owes-Delivered sent pieces respond z (pieces k) answers d.stream d.conn h.1 in
    (d, a, e, (h.0, told, h.2, h.3))
