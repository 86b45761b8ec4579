-- ===== src/Server/Uring/Flight/Steps.antt =====
-- The handlers of io_uring.rs keep one operation in flight for each connection.
use rust_tcp_server.Base.{
  ℕ, zero, suc, ◌<◌, ◌≤◌, ◌^◌, ◌%◌, ◌≡◌, refl, sym, ◌∙◌, subst, List, Option, none, some, true,
  false, Bool-cases, inl, inr, ◌==◌, ==_iff, leb, length, take, length-drop, arith,
}
use rust_tcp_server.Base.Assoc.{
  find_key, remove_key, insert_key, find_key-remove_key, find_key-insert_key,
}
use rust_tcp_server.Connection.Actions.{
  on_bytes-action, on_written-action, action_in-want_read, action_in-want_write,
  pending_write_writing,
}
use rust_tcp_server.Connection.Invariant.{Inv, new_connection-Inv, on_bytes-Inv, on_written-Inv}
use rust_tcp_server.Connection.{
  ConnAction, want_read, want_write, close, writing, Connection, action_in, new_connection,
  pending_write, on_bytes, on_written,
}
use rust_tcp_server.Server.Uring.Flight.Pushes.{
  Spare, Ready, submit_recv-Driven, submit_send-Driven, submit_close-Driven,
}
use rust_tcp_server.App.{inc_connections}
use rust_tcp_server.Server.Uring.Buffers.{BufRing, recycle, buffer_bytes}
use rust_tcp_server.Server.Uring.Flight.Fits.{on_bytes_fits, on_written_fits}
use rust_tcp_server.Server.Uring.Flight.{New, RingLaws, BusyAt, Driven}
use rust_tcp_server.Server.Uring.{
  Outcome, done, errno, Cqe, RingCalls, Runtime, dropped, drop_connection, send_found, apply,
  accept_done, recv_done, send_done,
}

module _ {R : Type 0} (calls : RingCalls R) (laws : RingLaws calls) where
  put-Spare :
      (cs : List Cqe) (rt : Runtime R) (fd : ℕ) (d : Connection)
      → Spare calls laws cs fd rt
      → Spare calls laws cs fd (record rt { conns = insert_key fd d rt.conns })
  put-Spare cs rt fd d (l, others, far, r, s) = (
    l,
    λ q k n. rw (find_key-insert_key fd q d rt.conns, n) (others q k n),
    λ q k.
        (let n : (fd == q) ≡ false = ground arith in
          rw (find_key-insert_key fd q d rt.conns, n) (far q k)),
    r,
    s,
  )

  gone-Spare :
      (cs : List Cqe) (rt : Runtime R) (fd : ℕ)
      → Spare calls laws cs fd rt
      → Spare calls laws cs fd (record rt { conns = remove_key fd rt.conns })
  gone-Spare cs rt fd (l, others, far, r, s) = (
    l,
    λ q k n. rw (find_key-remove_key fd q rt.conns, n) (others q k n),
    λ q k.
        (let n : (fd == q) ≡ false = ground arith in
          rw (find_key-remove_key fd q rt.conns, n) (far q k)),
    r,
    s,
  )

  find_put :
      (rt : Runtime R) (fd : ℕ) (d : Connection) → find_key fd (insert_key fd d rt.conns) ≡ some d
  find_put rt fd d =
      let self : (fd == fd) ≡ true = (==_iff fd fd).1 refl in
      find_key-insert_key fd fd d rt.conns ∙ rw self refl

  absent-Driven :
      (cs : List Cqe) (rt : Runtime R) (fd : ℕ)
      → Spare calls laws cs fd rt
      → find_key fd rt.conns ≡ none
      → Driven calls laws cs rt
  absent-Driven cs rt fd (l, others, far, r, s) gone = (
    λ q k. elim (Bool-cases (fd == q)) [
      | inl y ↦ subst (λ x. BusyAt calls laws cs rt x) ((==_iff fd q).0 y) (rw gone (r, s))
      | inr n ↦ others q k n
    ],
    far,
  )

  drop_connection-Driven :
      (cs : List Cqe) (rt : Runtime R) (fd : ℕ)
      → Spare calls laws cs fd rt
      → Driven calls laws cs (drop_connection calls rt fd)
  unfolding drop_connection
  drop_connection-Driven cs rt fd sp = go (find_key fd rt.conns) refl
    where
      gone : find_key fd (remove_key fd rt.conns) ≡ none
      gone =
          let self : (fd == fd) ≡ true = (==_iff fd fd).1 refl in
          find_key-remove_key fd fd rt.conns ∙ rw self refl

      go :
          (o : Option Connection)
          → find_key fd rt.conns ≡ o
          → Driven calls laws cs (dropped calls rt fd o)
      go none e = absent-Driven cs rt fd sp e
      go (some c) e =
          submit_close-Driven calls laws cs (record rt { conns = remove_key fd rt.conns }) fd
            (gone-Spare cs rt fd sp) gone

  send_found-Driven :
      (f : Runtime R → ℕ → ConnAction → Runtime R) (cs : List Cqe) (now : ℕ) (rt : Runtime R)
      (fd : ℕ) (c : Connection)
      → Spare calls laws cs fd rt
      → find_key fd rt.conns ≡ some c
      → Ready calls laws c
      → c.state ≡ writing
      → Driven calls laws cs (send_found calls f now rt fd (some c))
  send_found-Driven f cs now rt fd c sp found (v, o, b) st =
      let some_left : 0 < length (pending_write c) = pending_write_writing c v st in
      let bounded : length (pending_write c) ≤ length c.write_buf =
        (unfold pending_write in rw st (omega (arith, length-drop c.write_pos c.write_buf))) in
      let sent : (length (pending_write c) % 2 ^ 32 == 0) ≡ false = ground arith in
      rw sent (
        submit_send-Driven calls laws cs rt fd c
          (take (length (pending_write c) % 2 ^ 32) (pending_write c)) sp found (v, o, b) st)

  -- What `apply` finds in the table, with the action that its connection returned.
  apply-Driven :
      (cs : List Cqe) (fuel now : ℕ) (rt : Runtime R) (fd : ℕ) (c : Connection) (a : ConnAction)
      → Spare calls laws cs fd rt
      → find_key fd rt.conns ≡ some c
      → Inv c
      → length c.write_buf < 2 ^ 32
      → a ≡ action_in c.state
      → Driven calls laws cs (apply calls (suc fuel) now rt fd a)
  unfolding apply
  apply-Driven cs fuel now rt fd c want_read sp found v b e =
      let st = action_in-want_read c.state (sym e) in
      submit_recv-Driven calls laws cs rt fd c sp found (v, λ x. cc, b) st
  apply-Driven cs fuel now rt fd c want_write sp found v b e =
      let st = action_in-want_write c.state (sym e) in
      rw found (send_found-Driven (apply calls fuel now) cs now rt fd c sp found (v, λ x. cc, b) st)
  apply-Driven cs fuel now rt fd c close sp found v b e = drop_connection-Driven cs rt fd sp

  pub accept_done-Driven :
      (cs : List Cqe) (rt : Runtime R) (now : ℕ) (o : Outcome)
      → Driven calls laws cs rt
      → New o rt.conns
      → Driven calls laws cs (accept_done calls rt now o)
  unfolding new_connection
  accept_done-Driven cs rt now (errno e) h n = h
  accept_done-Driven cs rt now (done fd) (busy, far) (l, gone) =
      let idle = busy fd (omega (arith, l)) in
      let (r, s) = (rw gone at idle) in
      let spare : Spare calls laws cs fd rt = (omega (arith, l), λ q k _. busy q k, far, r, s) in
      let fresh = new_connection now calls.read_timeout in
      elim (Bool-cases (leb calls.max_connections (length rt.conns))) [
        | inl full ↦ rw full (submit_close-Driven calls laws cs rt fd spare gone)
        | inr free ↦ rw free (
            submit_recv-Driven calls laws cs
              (record rt {
                conns = insert_key fd fresh rt.conns;
                metrics = inc_connections rt.metrics;
              })
              fd fresh (put-Spare cs rt fd fresh spare) (find_put rt fd fresh)
              (new_connection-Inv now calls.read_timeout, λ x. cc, omega arith) refl)
      ]

  -- What follows on a completion for a connection.
  put-Driven :
      (cs : List Cqe) (now : ℕ) (rt : Runtime R) (br : BufRing) (fd : ℕ) (d : Connection)
      (a : ConnAction)
      → Spare calls laws cs fd rt
      → Inv d
      → length d.write_buf < 2 ^ 32
      → a ≡ action_in d.state
      → Driven calls laws cs
          (apply calls 2 now (record rt { conns = insert_key fd d rt.conns; br = br }) fd a)
  put-Driven cs now rt br fd d a sp v b e =
      apply-Driven cs 1 now (record rt { conns = insert_key fd d rt.conns; br = br }) fd d a
        (put-Spare cs rt fd d sp) (find_put rt fd d) v b e

  pub recv_done-Driven :
      (cs : List Cqe) (now : ℕ) (rt : Runtime R) (fd : ℕ) (buffer : Option ℕ) (o : Outcome)
      (c : Connection)
      → Spare calls laws cs fd rt
      → find_key fd rt.conns ≡ some c
      → Ready calls laws c
      → Driven calls laws cs (recv_done calls now rt fd buffer o)
  recv_done-Driven cs now rt fd buffer (errno e) c sp found h = drop_connection-Driven cs rt fd sp
  recv_done-Driven cs now rt fd buffer (done zero) c sp found h = drop_connection-Driven cs rt fd sp
  recv_done-Driven cs now rt fd none (done (suc n)) c sp found h =
      drop_connection-Driven cs rt fd sp
  recv_done-Driven cs now rt fd (some bid) (done (suc n)) c sp found (v, o, b) =
      let bytes = buffer_bytes rt.br bid (suc n) in
      let x = on_bytes calls.respond c bytes in
      rw found (
        put-Driven cs now rt (recycle rt.br bid) fd x.0 x.1 sp
          (on_bytes-Inv calls.respond c bytes v) (on_bytes_fits calls.respond laws.fits c bytes b)
          (on_bytes-action calls.respond c bytes))

  pub send_done-Driven :
      (cs : List Cqe) (now : ℕ) (rt : Runtime R) (fd : ℕ) (o : Outcome) (c : Connection)
      → Spare calls laws cs fd rt
      → find_key fd rt.conns ≡ some c
      → Ready calls laws c
      → Driven calls laws cs (send_done calls now rt fd o)
  send_done-Driven cs now rt fd (errno e) c sp found h = drop_connection-Driven cs rt fd sp
  send_done-Driven cs now rt fd (done n) c sp found (v, o, b) =
      let x = on_written now c n in
      rw found (
        put-Driven cs now rt rt.br fd x.0 x.1 sp (on_written-Inv now c n v)
          (on_written_fits now c n b) (on_written-action now c n))
