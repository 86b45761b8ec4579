-- ===== src/Server/EventIo/Drive.antt =====
-- What `drive_io` leaves, whatever the socket answers, and that it ends.
use rust_tcp_server.Base.{
  ℕ, zero, suc, ◌<◌, ◌≡◌, ◌≢◌, refl, sym, ap, ◌∙◌, subst, inl, inr, Bool, true, Bool-cases, [], ◌∷◌,
  arith, Bytes, length,
}
use rust_tcp_server.Base.Rounds.{Ends}
use rust_tcp_server.Connection.Actions.{
  on_bytes-action, on_written-action, action_in-want_read, action_in-want_write,
  pending_write_writing,
}
use rust_tcp_server.Connection.Invariant.{Inv, on_bytes-Inv, on_written-Inv}
use rust_tcp_server.Connection.{
  ConnAction, want_read, want_write, close, reading, writing, Connection, action_in, pending_write,
  on_bytes, on_written,
}
use rust_tcp_server.Http.Request.{Request}
use rust_tcp_server.Http.Response.{Response}
use rust_tcp_server.Server.EventIo.{
  IoResult, got, would_block, io_error, Driven, go_on, sent_out, after_read, after_write,
  write_pending, io_in, io_step,
}

-- A property of a socket with its connection that every call keeps: a read on a connection that reads,
-- and a write of what is pending on one that writes.
module _ {K : Type 0} (Told : K → Connection → Type 0) (respond : Request → Response) (now : ℕ)
    (c : Connection) where
  abbrev pub ReadKeeps : K × IoResult Bytes → Type 0
  ReadKeeps (j, got []) = Told j c
  ReadKeeps (j, got (b ∷ bs)) = Told j (on_bytes respond c (b ∷ bs)).0
  ReadKeeps (j, would_block) = Told j c
  ReadKeeps (j, io_error) = Told j c

  abbrev pub WriteKeeps : K × IoResult ℕ → Type 0
  WriteKeeps (j, got zero) = Told j c
  WriteKeeps (j, got (suc n)) = Told j (on_written now c (suc n)).0
  WriteKeeps (j, would_block) = Told j c
  WriteKeeps (j, io_error) = Told j c

module _ {K : Type 0} (read : K → K × IoResult Bytes) (write : K → Bytes → K × IoResult ℕ)
    (respond : Request → Response) (now : ℕ) (drain : Bool) (Told : K → Connection → Type 0)
    (reads : (k : K) (c : Connection)
      → c.state ≡ reading
      → Told k c
      → ReadKeeps Told respond now c (read k))
    (writes : (k : K) (c : Connection)
      → Inv c
      → c.state ≡ writing
      → Told k c
      → WriteKeeps Told respond now c (write k (pending_write c))) where
  -- The loop's invariant: the action is the one that the connection's state asks for.
  abbrev pub Going : Driven K → Type 0
  Going d = Inv d.conn × (d.action ≡ action_in d.conn.state) × Told d.stream d.conn

  -- What is returned: the close of the connection, or the action of its state; in the latter case a
  -- drained socket was last asked for more and had none.
  abbrev pub Left : ConnAction → Driven K → Type 0
  Left a d =
      Inv d.conn
      × Told d.stream d.conn
      × (a ≢ close → a ≡ action_in d.conn.state)
      × (drain ≡ true → a ≡ want_read → (k : K) × (read k ≡ (d.stream, would_block)))

  go_on-Ends : (d : Driven K) → Going d → Ends Going Left (go_on read write respond now drain d)
  go_on-Ends d (v, a, s) = elim (Bool-cases drain) [
    | inl yes_drain ↦ rw yes_drain (v, a, s)
    | inr one ↦ rw one (v, s, λ _. a, λ y. cc)
  ]

  after_read-Ends :
      (d : Driven K) (x : K × IoResult Bytes)
      → read d.stream ≡ x
      → ReadKeeps Told respond now d.conn x
      → d.conn.state ≡ reading
      → Going d
      → Ends Going Left (after_read read write respond now drain d x)
  after_read-Ends d (k, got []) e t r g = (g.0, t, λ n. absurd (n refl), λ _ n. cc)
  after_read-Ends d (k, got (b ∷ bs)) e t r g =
      let x = on_bytes respond d.conn (b ∷ bs) in
      go_on-Ends (record d { stream = k; conn = x.0; action = x.1 })
        (on_bytes-Inv respond d.conn (b ∷ bs) g.0, on_bytes-action respond d.conn (b ∷ bs), t)
  after_read-Ends d (k, would_block) e t r g =
      (g.0, t, λ _. ap action_in (sym r), λ _ _. (d.stream, e))
  after_read-Ends d (k, io_error) e t r g = (g.0, t, λ n. absurd (n refl), λ _ n. cc)

  sent_out-Ends :
      (d : Driven K) (c : Connection) (a : ConnAction)
      → Going (record d { conn = c; action = a })
      → Ends Going Left (sent_out read write respond now drain d (c, a))
  sent_out-Ends d c want_write g = (g.0, g.2, λ _. g.1, λ _ n. cc)
  sent_out-Ends d c want_read g = go_on-Ends (record d { conn = c; action = want_read }) g
  sent_out-Ends d c close g = go_on-Ends (record d { conn = c; action = close }) g

  after_write-Ends :
      (d : Driven K) (x : K × IoResult ℕ)
      → WriteKeeps Told respond now d.conn x
      → d.conn.state ≡ writing
      → Going d
      → Ends Going Left (after_write read write respond now drain d x)
  after_write-Ends d (k, got zero) t w g = (g.0, t, λ n. absurd (n refl), λ _ n. cc)
  after_write-Ends d (k, got (suc n)) t w g =
      let x = on_written now d.conn (suc n) in
      sent_out-Ends (record d { stream = k }) x.0 x.1
        (on_written-Inv now d.conn (suc n) g.0, on_written-action now d.conn (suc n), t)
  after_write-Ends d (k, would_block) t w g = (g.0, t, λ _. ap action_in (sym w), λ _ n. cc)
  after_write-Ends d (k, io_error) t w g = (g.0, t, λ n. absurd (n refl), λ _ n. cc)

  write_pending-Ends :
      (d : Driven K) (p : Bytes)
      → pending_write d.conn ≡ p
      → 0 < length p
      → d.conn.state ≡ writing
      → Going d
      → Ends Going Left (write_pending read write respond now drain d p)
  write_pending-Ends d [] e l w g = absurd (omega arith)
  write_pending-Ends d (b ∷ bs) e l w g =
      after_write-Ends d (write d.stream (b ∷ bs))
        (subst (λ p. WriteKeeps Told respond now d.conn (write d.stream p)) e
          (writes d.stream d.conn g.0 w g.2))
        w g

  io_in-Ends :
      (a : ConnAction) (d : Driven K)
      → d.action ≡ a
      → Going d
      → Ends Going Left (io_in read write respond now drain a d)
  io_in-Ends want_read d e g =
      let r = action_in-want_read d.conn.state (sym g.1 ∙ e) in
      after_read-Ends d (read d.stream) refl (reads d.stream d.conn r g.2) r g
  io_in-Ends want_write d e g =
      let w = action_in-want_write d.conn.state (sym g.1 ∙ e) in
      write_pending-Ends d (pending_write d.conn) refl (pending_write_writing d.conn g.0 w) w g
  io_in-Ends close d e g = (g.0, g.2, λ n. absurd (n refl), λ _ n. cc)

  pub io_step-Ends :
      (d : Driven K) → Going d → Ends Going Left (io_step read write respond now drain d)
  unfolding io_step
  io_step-Ends d g = io_in-Ends d.action d refl g
