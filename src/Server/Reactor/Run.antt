-- ===== src/Server/Reactor/Run.antt =====
-- An iteration of `run` keeps every live connection registered for what it waits for.
use rust_tcp_server.Base.{
  ℕ, ◌≡◌, refl, ◌∙◌, subst, ◌==◌, ==_iff, Bool, true, false, Bool-cases, inl, inr, leb, ltb, not,
  ◌&&◌, ◌||◌, List, [], ◌∷◌, Option, none, some, arith,
}
use rust_tcp_server.Base.Assoc.{find_key, find_key-remove_key, find_key-insert_key}
use rust_tcp_server.Base.Rounds.{Round, again, ret, Ends, loop-Ends}
use rust_tcp_server.Connection.{ConnAction, want_read, want_write, close, new_connection}
use rust_tcp_server.Server.EventIo.{Driven, drive_io}
use rust_tcp_server.Server.Reactor.Steps.{drive-Sound}
use rust_tcp_server.Server.Reactor.Watch.{
  Sets, Apart, Laws, Sound, drop_conn-Sound, put, admit-Sound,
}
use rust_tcp_server.Server.Reactor.{
  edge, Interest, for_read, for_write, Event, Accept, accepted, none_pending, accept_error,
  matches_interest, Reactor, Calls, drop_conn, watched, admit, after_accept, accept_step,
  accept_ready, reregistered, watch_for, relisten, apply_action, after_io, drive_slot, drive,
  on_event, on_events, apply_backpressure, drop_each, sweep_expired, run_once,
}
use rust_tcp_server.Server.Table.{Slot, expired_in, get_slot, table_len}

module _ {K E L : Type 0} (calls : Calls K E L) (laws : Laws calls) where
  -- Every live connection is watched for what it waits for, and none is under the listener's
  -- descriptor.
  abbrev NoSlot : Reactor K E L → Type 0
  NoSlot s = get_slot s.conns calls.listener_fd ≡ none

  abbrev pub Keeps : Reactor K E L → Type 0
  Keeps s = Sound calls laws s × NoSlot s

  drop_conn-NoSlot : (s : Reactor K E L) (fd : ℕ) → NoSlot s → NoSlot (drop_conn calls s fd)
  unfolding drop_conn
  drop_conn-NoSlot s fd h = find_key-remove_key fd calls.listener_fd s.conns.slots ∙ ground arith

  pub drop_conn-Keeps : (s : Reactor K E L) (fd : ℕ) → Keeps s → Keeps (drop_conn calls s fd)
  drop_conn-Keeps s fd (h, n) =
      (drop_conn-Sound calls laws s fd (λ q _. h q), drop_conn-NoSlot s fd n)

  put-NoSlot :
      (s : Reactor K E L) (fd : ℕ) (slot : Slot K)
      → (fd == calls.listener_fd) ≡ false
      → NoSlot s
      → NoSlot (put calls laws s fd slot)
  put-NoSlot s fd slot e n = find_key-insert_key fd calls.listener_fd slot s.conns.slots ∙ rw e n

  pub admit-NoSlot :
      (now : ℕ) (s : Reactor K E L) (fd : ℕ) (stream : K)
      → (fd == calls.listener_fd) ≡ false
      → NoSlot s
      → NoSlot (admit calls now s fd stream)
  admit-NoSlot now s fd stream e n = go (calls.add s.epoll fd for_read edge)
    where
      slot : Slot K
      slot = record { stream = stream; conn = new_connection now calls.read_timeout }

      go : (x : E × Bool) → NoSlot (watched calls (put calls laws s fd slot) fd x)
      go (d, true) = put-NoSlot s fd slot e n
      go (d, false) =
          find_key-remove_key fd calls.listener_fd (put calls laws s fd slot).conns.slots
          ∙ rw e (put-NoSlot s fd slot e n)

  accept_step-Ends :
      (now : ℕ) (s : Reactor K E L)
      → Keeps s
      → Ends Keeps (λ b t. Keeps t) (accept_step calls now s)
  unfolding accept_step
  accept_step-Ends now s (h, n) =
      elim (Bool-cases (leb calls.max_connections (table_len s.conns))) [
        | inl full ↦ rw full (h, n)
        | inr free ↦ rw free (go (calls.accept s.listener) (laws.accept_apart s.listener))
      ]
    where
      go :
          (x : L × Accept K)
          → Apart calls.listener_fd x
          → Ends Keeps (λ b t. Keeps t) (after_accept calls now s x)
      go (l, accepted fd stream false) e = (h, n)
      go (l, accepted fd stream true) e = (
        admit-Sound calls laws now (record s { listener = l }) fd stream h,
        admit-NoSlot now (record s { listener = l }) fd stream e n,
      )
      go (l, none_pending) e = (h, n)
      go (l, accept_error) e = (h, n)

  pub Ends-Keeps : (x : Reactor K E L × Round Bool) → Ends Keeps (λ b t. Keeps t) x → Keeps x.0
  Ends-Keeps (s, again) h = h
  Ends-Keeps (s, ret b) h = h

  accept_ready-Keeps : (now : ℕ) (s : Reactor K E L) → Keeps s → Keeps (accept_ready calls now s).0
  unfolding accept_ready
  accept_ready-Keeps now s h = Ends-Keeps (accept_ready calls now s) (
      loop-Ends Keeps (λ b t. Keeps t) (accept_step calls now) (accept_step-Ends now)
        (calls.accept_fuel s.listener) s h)

  watch_for-NoSlot :
      (s : Reactor K E L) (fd : ℕ) (next : Interest) → NoSlot s → NoSlot (watch_for calls s fd next)
  watch_for-NoSlot s fd next n = elim (Bool-cases (matches_interest (find_key fd s.wants) next)) [
    | inl same ↦ rw same n
    | inr other ↦ rw other (go (calls.modify s.epoll fd next edge))
  ]
    where
      go : (x : E × Bool) → NoSlot (reregistered calls s fd next x)
      go (e, true) = n
      go (e, false) = drop_conn-NoSlot (record s { epoll = e }) fd n

  apply_action-NoSlot :
      (s : Reactor K E L) (fd : ℕ) (a : ConnAction) → NoSlot s → NoSlot (apply_action calls s fd a)
  apply_action-NoSlot s fd want_read n = watch_for-NoSlot s fd for_read n
  apply_action-NoSlot s fd want_write n = watch_for-NoSlot s fd for_write n
  apply_action-NoSlot s fd close n = drop_conn-NoSlot s fd n

  pub after_io-NoSlot :
      (s : Reactor K E L) (fd : ℕ) (x : Driven K × Round ConnAction)
      → (fd == calls.listener_fd) ≡ false
      → NoSlot s
      → NoSlot (after_io calls s fd x)
  after_io-NoSlot s fd (d, again) e n = n
  after_io-NoSlot s fd (d, ret a) e n =
      let slot : Slot K = record { stream = d.stream; conn = d.conn } in
      let t = record s { metrics = d.metrics } in
      apply_action-NoSlot (put calls laws t fd slot) fd a (put-NoSlot t fd slot e n)

  drive-Keeps :
      (now : ℕ) (s : Reactor K E L) (fd : ℕ)
      → (fd == calls.listener_fd) ≡ false
      → Keeps s
      → Keeps (drive calls now s fd)
  drive-Keeps now s fd e (h, n) =
      (drive-Sound calls laws now s fd h, unfold drive in go (get_slot s.conns fd))
    where
      go : (o : Option (Slot K)) → NoSlot (drive_slot calls now s fd o)
      go none = n
      go (some slot) =
          after_io-NoSlot s fd
            (drive_io calls.read calls.write calls.respond now true (calls.io_fuel slot.stream)
              slot.stream slot.conn s.metrics)
            e n

  on_event-Keeps : (s : Reactor K E L) (v : Event) → Keeps s → Keeps (on_event calls s v)
  unfolding on_event
  on_event-Keeps s v h = elim (Bool-cases (v.fd == calls.listener_fd)) [
    | inl y ↦ rw y (elim (Bool-cases v.readable) [
      | inl r ↦ rw r (accept_ready-Keeps v.at s h)
      | inr r ↦ rw r h
    ])
    | inr e ↦ rw e (elim (Bool-cases (v.error || v.hup)) [
      | inl over ↦ rw over (drop_conn-Keeps s v.fd h)
      | inr fine ↦ rw fine (elim (Bool-cases (v.readable || v.writable)) [
        | inl ready ↦ rw ready (drive-Keeps v.at s v.fd e h)
        | inr idle ↦ rw idle h
      ])
    ])
  ]

  on_events-Keeps : (s : Reactor K E L) (vs : List Event) → Keeps s → Keeps (on_events calls s vs)
  unfolding on_events
  on_events-Keeps s [] h = h
  on_events-Keeps s (v ∷ vs) h = on_events-Keeps (on_event calls s v) vs (on_event-Keeps s v h)

  -- A change of the listener's registration is none of a connection's.
  other_epoll :
      (s : Reactor K E L) (e : E) (listening : Bool)
      → ((q : ℕ)
          → (calls.listener_fd == q) ≡ false
          → laws.registered e q ≡ laws.registered s.epoll q)
      → Keeps s
      → Keeps (record s { epoll = e; listener_registered = listening })
  other_epoll s e listening r (h, n) = (
    λ q. elim (Bool-cases (calls.listener_fd == q)) [
      | inl y ↦
          let gone : get_slot s.conns q ≡ none =
            subst (λ k. get_slot s.conns k ≡ none) ((==_iff _ q).0 y) n in
          rw gone tt
      | inr o ↦ rw (r q o) (h q)
    ],
    n,
  )

  pub apply_backpressure-Keeps : (s : Reactor K E L) → Keeps s → Keeps (apply_backpressure calls s)
  unfolding apply_backpressure
  apply_backpressure-Keeps s h =
      elim (Bool-cases (s.listener_registered && leb calls.max_connections (table_len s.conns))) [
        | inl full ↦ rw full (
            other_epoll s (calls.delete s.epoll calls.listener_fd) false
              (λ q e. laws.delete_clears s.epoll calls.listener_fd q ∙ rw e refl) h)
        | inr room ↦
            rw room
              (elim (Bool-cases
                (not s.listener_registered && ltb (table_len s.conns) calls.max_connections)) [
                  | inl free ↦ rw free (
                      go (calls.add s.epoll calls.listener_fd for_read edge)
                        (laws.add_sets s.epoll calls.listener_fd for_read))
                  | inr same ↦ rw same h
                ])
      ]
    where
      go :
          (x : E × Bool)
          → Sets laws.registered s.epoll calls.listener_fd for_read x
          → Keeps (relisten calls s x)
      go (e, true) r = other_epoll s e true (λ q n. r q ∙ rw n refl) h
      go (e, false) r = other_epoll s e s.listener_registered (λ q n. r q) h

  pub drop_each-Keeps : (s : Reactor K E L) (fds : List ℕ) → Keeps s → Keeps (drop_each calls s fds)
  unfolding drop_each
  drop_each-Keeps s [] h = h
  drop_each-Keeps s (fd ∷ fds) h =
      drop_each-Keeps (drop_conn calls s fd) fds (drop_conn-Keeps s fd h)

  -- After an iteration, whatever the kernel reported and whichever of its calls failed, every live
  -- connection satisfies its invariant, is not closed, and is registered, and noted in `wants`, for
  -- exactly the direction that its state machine waits for.
  pub run_once-Keeps :
      (now : ℕ) (s : Reactor K E L) (ready : Option (List Event))
      → Keeps s
      → Keeps (run_once calls now s ready)
  unfolding run_once sweep_expired
  run_once-Keeps now s none h = h
  run_once-Keeps now s (some ready) h =
      let u = apply_backpressure calls (on_events calls s ready) in
      drop_each-Keeps u (expired_in now u.conns.slots)
        (apply_backpressure-Keeps (on_events calls s ready) (on_events-Keeps s ready h))
