-- ===== src/Server/Epoll/Edge.antt =====
-- The drained loop of epoll.rs is the reactor's.
use rust_tcp_server.Base.{
  ℕ, ◌≡◌, refl, ap, ◌∙◌, true, false, List, [], ◌∷◌, Option, none, some, leb, if◌then◌else◌,
}
use rust_tcp_server.Base.Rounds.{again, ret, loop}
use rust_tcp_server.Connection.{new_connection}
use rust_tcp_server.Server.EventIo.{drive_io}
use rust_tcp_server.Server.Epoll.{
  epoll_once, epoll_events, epoll_event, accept_clients, accept_round, accept_result, shed,
  close_each, drive_ready, drive_in,
}
use rust_tcp_server.Server.Reactor.{
  Calls, edge, for_read, Event, Accept, accepted, none_pending, accept_error, Reactor, after_accept,
  accept_step, accept_ready, drive_slot, drive, on_event, on_events, apply_backpressure,
  sweep_expired, run_once,
}
use rust_tcp_server.Server.Table.{Slot, expired_in, get_slot, insert_slot, table_len}
use rust_tcp_server.Server.Epoll.Shared.{
  close_conn_same, after_drive_same, shed_same, close_each_same, added_client_same,
}

module _ {K E L : Type 0} (calls : Calls K E L) where
  accept_result_same :
      (now : ℕ) (s : Reactor K E L) (x : L × Accept K)
      → accept_result calls edge true now s x ≡ after_accept calls now s x
  accept_result_same now s (l, accepted fd stream false) = refl
  accept_result_same now s (l, accepted fd stream true) =
      let slot : Slot K = record {
        stream = stream;
        conn = new_connection now calls.read_timeout;
      } in
      let t = record s { listener = l; conns = insert_slot s.conns fd slot } in
      ap (λ u. (u, again))
        (added_client_same calls (λ t. t) true t fd (calls.add s.epoll fd for_read edge))
  accept_result_same now s (l, none_pending) = refl
  accept_result_same now s (l, accept_error) = refl

  accept_round_same :
      (now : ℕ) (s : Reactor K E L) → accept_round calls edge true now s ≡ accept_step calls now s
  unfolding accept_round accept_step
  accept_round_same now s =
      ap (λ x. if leb calls.max_connections (table_len s.conns) then (s, ret false) else x)
        (accept_result_same now s (calls.accept s.listener))

  accept_clients_same :
      (now : ℕ) (s : Reactor K E L)
      → accept_clients calls edge true now s ≡ accept_ready calls now s
  unfolding accept_clients accept_ready
  accept_clients_same now s =
      λ i. loop (calls.accept_fuel s.listener) (λ t. accept_round_same now t i) s

  drive_in_same :
      (now : ℕ) (s : Reactor K E L) (fd : ℕ) (o : Option (Slot K))
      → drive_in calls edge true now s fd o ≡ drive_slot calls now s fd o
  drive_in_same now s fd none = refl
  drive_in_same now s fd (some slot) =
      after_drive_same calls (λ t. t) true s fd
        (drive_io calls.read calls.write calls.respond now true (calls.io_fuel slot.stream)
          slot.stream slot.conn s.metrics)

  drive_ready_same :
      (now : ℕ) (s : Reactor K E L) (fd : ℕ)
      → drive_ready calls edge true now s fd ≡ drive calls now s fd
  unfolding drive_ready drive
  drive_ready_same now s fd = drive_in_same now s fd (get_slot s.conns fd)

  epoll_event_same :
      (s : Reactor K E L) (v : Event) → epoll_event calls edge true s v ≡ on_event calls s v
  unfolding epoll_event on_event
  epoll_event_same s v =
      rw
        (
          ap (λ x. x.0) (accept_clients_same v.at s),
          close_conn_same calls (λ t. t) true s v.fd,
          drive_ready_same v.at s v.fd,
        )
        refl

  epoll_events_same :
      (s : Reactor K E L) (vs : List Event)
      → epoll_events calls edge true s vs ≡ on_events calls s vs
  unfolding epoll_events on_events
  epoll_events_same s [] = refl
  epoll_events_same s (v ∷ vs) =
      epoll_events_same (epoll_event calls edge true s v) vs
      ∙ ap (λ t. on_events calls t vs) (epoll_event_same s v)

  -- An iteration of epoll-et, which is the loop of epoll.rs with the edge trigger and the drain, is
  -- one of the reactor on the same kernel: whatever that reports and whichever of its calls fail,
  -- both leave the same connections, registrations, triggers and counters.
  pub epoll_once-run_once :
      (now : ℕ) (s : Reactor K E L) (ready : Option (List Event))
      → epoll_once calls edge true now s ready ≡ run_once calls now s ready
  unfolding epoll_once run_once sweep_expired
  epoll_once-run_once now s none = refl
  epoll_once-run_once now s (some ready) =
      let t = ap (shed calls edge true) (epoll_events_same s ready) in
      let u = t ∙ shed_same calls (λ t. t) true (on_events calls s ready) in
      let swept =
        λ (x : Reactor K E L). close_each calls edge true x (expired_in now x.conns.slots) in
      ap swept u
      ∙ close_each_same calls (λ t. t) true (apply_backpressure calls (on_events calls s ready))
          (expired_in now (apply_backpressure calls (on_events calls s ready)).conns.slots)
