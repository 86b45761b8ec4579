-- ===== src/Server/Epoll/Watch.antt =====
-- Each live connection of epoll.rs is registered for what it waits for, under either trigger, drained
-- or not.
use rust_tcp_server.Base.{
  ℕ, ◌≡◌, refl, Bool-cases, inl, inr, Bool, true, false, List, [], ◌∷◌, Option, none, some, leb,
  ◌==◌, ◌||◌,
}
use rust_tcp_server.Base.Rounds.{Ends, loop-Ends}
use rust_tcp_server.Connection.{new_connection}
use rust_tcp_server.Server.EventIo.{drive_io}
use rust_tcp_server.Server.Epoll.{
  epoll_once, epoll_events, epoll_event, accept_clients, accept_round, accept_result, next_accept,
  add_client, shed, close_conn, drive_ready, drive_in,
}
use rust_tcp_server.Server.Reactor.{
  Trigger, Calls, for_read, Event, Accept, accepted, none_pending, accept_error, Reactor,
}
use rust_tcp_server.Server.Table.{Slot, expired_in, get_slot, insert_slot, table_len}
use rust_tcp_server.Server.Epoll.Shared.{
  chosen, close_conn_same, after_drive_same, shed_same, close_each_same, added_client_same,
}
use rust_tcp_server.Server.Reactor.Watch.{Apart, Laws, admit-Sound}
use rust_tcp_server.Server.Reactor.Steps.{after_io-Sound}
use rust_tcp_server.Server.Reactor.Run.{
  Keeps, Ends-Keeps, admit-NoSlot, drop_conn-Keeps, after_io-NoSlot, apply_backpressure-Keeps,
  drop_each-Keeps,
}

-- The calls with the one trigger of the loop, whatever trigger is asked for.
abbrev pub triggered : {K E L : Type 0} → Calls K E L → Trigger → Bool → Calls K E L
triggered calls trigger drain = chosen calls (λ _. trigger) drain

module _ {K E L : Type 0} (calls : Calls K E L) (trigger : Trigger) (drain : Bool)
    (laws : Laws (triggered calls trigger drain)) where
  abbrev Kept : Reactor K E L → Type 0
  Kept s = Keeps (triggered calls trigger drain) laws s

  add_client-Kept :
      (now : ℕ) (s : Reactor K E L) (fd : ℕ) (stream : K)
      → (fd == calls.listener_fd) ≡ false
      → Kept s
      → Kept (add_client calls trigger drain now s fd stream)
  add_client-Kept now s fd stream e (h, n) =
      let slot : Slot K = record {
        stream = stream;
        conn = new_connection now calls.read_timeout;
      } in
      let t = record s { conns = insert_slot s.conns fd slot } in
      rw (added_client_same calls (λ _. trigger) drain t fd (calls.add s.epoll fd for_read trigger))
        (
          admit-Sound (triggered calls trigger drain) laws now s fd stream h,
          admit-NoSlot (triggered calls trigger drain) laws now s fd stream e n,
        )

  next_accept-Ends :
      (s : Reactor K E L) → Kept s → Ends Kept (λ b t. Kept t) (next_accept calls trigger drain s)
  next_accept-Ends s h = elim (Bool-cases drain) [ inl e ↦ rw e h | inr e ↦ rw e h ]

  accept_round-Ends :
      (now : ℕ) (s : Reactor K E L)
      → Kept s
      → Ends Kept (λ b t. Kept t) (accept_round calls trigger drain now s)
  unfolding accept_round
  accept_round-Ends now s h = elim (Bool-cases (leb calls.max_connections (table_len s.conns))) [
    | inl full ↦ rw full h
    | inr free ↦ rw free (go (calls.accept s.listener) (laws.accept_apart s.listener))
  ]
    where
      go :
          (x : L × Accept K)
          → Apart calls.listener_fd x
          → Ends Kept (λ b t. Kept t) (accept_result calls trigger drain now s x)
      go (l, accepted fd stream false) e = next_accept-Ends (record s { listener = l }) h
      go (l, accepted fd stream true) e =
          next_accept-Ends
            (add_client calls trigger drain now (record s { listener = l }) fd stream)
            (add_client-Kept now (record s { listener = l }) fd stream e h)
      go (l, none_pending) e = h
      go (l, accept_error) e = h

  accept_clients-Kept :
      (now : ℕ) (s : Reactor K E L) → Kept s → Kept (accept_clients calls trigger drain now s).0
  unfolding accept_clients
  accept_clients-Kept now s h =
      Ends-Keeps (triggered calls trigger drain) laws (accept_clients calls trigger drain now s) (
        loop-Ends Kept (λ b t. Kept t) (accept_round calls trigger drain now)
          (accept_round-Ends now) (calls.accept_fuel s.listener) s h)

  close_conn-Kept :
      (s : Reactor K E L) (fd : ℕ) → Kept s → Kept (close_conn calls trigger drain s fd)
  close_conn-Kept s fd h =
      rw (close_conn_same calls (λ _. trigger) drain s fd)
        (drop_conn-Keeps (triggered calls trigger drain) laws s fd h)

  drive_ready-Kept :
      (now : ℕ) (s : Reactor K E L) (fd : ℕ)
      → (fd == calls.listener_fd) ≡ false
      → Kept s
      → Kept (drive_ready calls trigger drain now s fd)
  unfolding drive_ready
  drive_ready-Kept now s fd e (h, n) = go (get_slot s.conns fd) refl
    where
      go :
          (o : Option (Slot K))
          → get_slot s.conns fd ≡ o
          → Kept (drive_in calls trigger drain now s fd o)
      go none d = (h, n)
      go (some slot) d =
          let x =
            drive_io calls.read calls.write calls.respond now drain (calls.io_fuel slot.stream)
              slot.stream slot.conn s.metrics in
          rw (after_drive_same calls (λ _. trigger) drain s fd x) (
            after_io-Sound (triggered calls trigger drain) laws now drain s fd slot d h,
            after_io-NoSlot (triggered calls trigger drain) laws s fd x e n,
          )

  epoll_event-Kept :
      (s : Reactor K E L) (v : Event) → Kept s → Kept (epoll_event calls trigger drain s v)
  unfolding epoll_event
  epoll_event-Kept s v h = elim (Bool-cases (v.fd == calls.listener_fd)) [
    | inl y ↦ rw y (elim (Bool-cases v.readable) [
      | inl r ↦ rw r (accept_clients-Kept v.at s h)
      | inr r ↦ rw r h
    ])
    | inr e ↦ rw e (elim (Bool-cases (v.error || v.hup)) [
      | inl over ↦ rw over (close_conn-Kept s v.fd h)
      | inr fine ↦ rw fine (elim (Bool-cases (v.readable || v.writable)) [
        | inl ready ↦ rw ready (drive_ready-Kept v.at s v.fd e h)
        | inr idle ↦ rw idle h
      ])
    ])
  ]

  epoll_events-Kept :
      (s : Reactor K E L) (vs : List Event) → Kept s → Kept (epoll_events calls trigger drain s vs)
  unfolding epoll_events
  epoll_events-Kept s [] h = h
  epoll_events-Kept s (v ∷ vs) h =
      epoll_events-Kept (epoll_event calls trigger drain s v) vs (epoll_event-Kept s v h)

  -- After an iteration of either model, whatever the kernel reported and whichever of its calls
  -- failed, every live connection satisfies its invariant, is not closed, and is registered, and
  -- noted in `wants`, for exactly the direction that its state machine waits for.
  pub epoll_once-Keeps :
      (now : ℕ) (s : Reactor K E L) (ready : Option (List Event))
      → Keeps (triggered calls trigger drain) laws s
      → Keeps (triggered calls trigger drain) laws (epoll_once calls trigger drain now s ready)
  unfolding epoll_once
  epoll_once-Keeps now s none h = h
  epoll_once-Keeps now s (some ready) h =
      let t = epoll_events calls trigger drain s ready in
      let u = shed calls trigger drain t in
      let kept : Kept u = rw (shed_same calls (λ _. trigger) drain t) (
        apply_backpressure-Keeps (triggered calls trigger drain) laws t
          (epoll_events-Kept s ready h)) in
      rw (close_each_same calls (λ _. trigger) drain u (expired_in now u.conns.slots))
        (drop_each-Keeps (triggered calls trigger drain) laws u (expired_in now u.conns.slots) kept)
