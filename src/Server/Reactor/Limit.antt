-- ===== src/Server/Reactor/Limit.antt =====
-- The reactor holds no more connections than its limit.
use rust_tcp_server.Base.{
  ℕ, suc, ◌≤◌, ◌<◌, ◌≡◌, refl, Bool, true, false, Bool-cases, inl, inr, leb, List, [], ◌∷◌, Option,
  none, some, arith, length,
}
use rust_tcp_server.Base.Assoc.{
  find_key, insert_key, length-remove_key, length-insert_key, remove_key_found,
}
use rust_tcp_server.Base.Rounds.{Round, again, ret, Ends, loop-Ends}
use rust_tcp_server.Connection.{ConnAction, want_read, want_write, close, new_connection}
use rust_tcp_server.Server.EventIo.{Driven, drive_io}
use rust_tcp_server.Server.Reactor.{
  edge, Interest, for_read, for_write, Event, Accept, accepted, none_pending, accept_error,
  matches_interest, Reactor, Calls, drop_conn, watched, admit, after_accept, accept_step,
  accept_ready, reregistered, watch_for, apply_action, after_io, drive_slot, drive, on_event,
  on_events, apply_backpressure, drop_each, sweep_expired, run_once,
}
use rust_tcp_server.Server.Table.{Slot, expired_in, get_slot}

module _ {K E L : Type 0} (calls : Calls K E L) where
  abbrev pub held : Reactor K E L → ℕ
  held s = length s.conns.slots

  abbrev pub Limited : Reactor K E L → Type 0
  Limited s = held s ≤ calls.max_connections

  drop_conn-held : (s : Reactor K E L) (fd : ℕ) → held (drop_conn calls s fd) ≤ held s
  unfolding drop_conn
  drop_conn-held s fd = length-remove_key fd s.conns.slots

  admit-Limited :
      (now : ℕ) (s : Reactor K E L) (fd : ℕ) (stream : K)
      → held s < calls.max_connections
      → Limited (admit calls now s fd stream)
  admit-Limited now s fd stream l = go (calls.add s.epoll fd for_read edge)
    where
      t : Reactor K E L
      t = record s {
        conns = record {
          slots =
              insert_key fd
                (record { stream = stream; conn = new_connection now calls.read_timeout })
                s.conns.slots;
        };
      }

      grown : held t ≤ suc (held s)
      grown =
          length-insert_key fd
            (record { stream = stream; conn = new_connection now calls.read_timeout }) s.conns.slots

      go : (x : E × Bool) → Limited (watched calls t fd x)
      go (e, false) = omega (arith, grown, length-remove_key fd t.conns.slots)
      go (e, true) = omega (arith, grown)

  accept_step-Ends :
      (now : ℕ) (s : Reactor K E L)
      → Limited s
      → Ends Limited (λ b t. Limited t) (accept_step calls now s)
  unfolding accept_step
  accept_step-Ends now s l = elim (Bool-cases (leb calls.max_connections (held s))) [
    | inl full ↦ rw full l
    | inr free ↦ rw free (go (calls.accept s.listener) (ground arith))
  ]
    where
      go :
          (x : L × Accept K)
          → held s < calls.max_connections
          → Ends Limited (λ b t. Limited t) (after_accept calls now s x)
      go (k, accepted fd stream false) m = l
      go (k, accepted fd stream true) m = admit-Limited now (record s { listener = k }) fd stream m
      go (k, none_pending) m = l
      go (k, accept_error) m = l

  Ends-Limited : (x : Reactor K E L × Round Bool) → Ends Limited (λ b t. Limited t) x → Limited x.0
  Ends-Limited (s, again) l = l
  Ends-Limited (s, ret b) l = l

  accept_ready-Limited :
      (now : ℕ) (s : Reactor K E L) → Limited s → Limited (accept_ready calls now s).0
  unfolding accept_ready
  accept_ready-Limited now s l = Ends-Limited (accept_ready calls now s) (
      loop-Ends Limited (λ b t. Limited t) (accept_step calls now) (accept_step-Ends now)
        (calls.accept_fuel s.listener) s l)

  watch_for-held :
      (s : Reactor K E L) (fd : ℕ) (next : Interest) → held (watch_for calls s fd next) ≤ held s
  watch_for-held s fd next = elim (Bool-cases (matches_interest (find_key fd s.wants) next)) [
    | inl same ↦ rw same (omega arith)
    | inr other ↦ rw other (go (calls.modify s.epoll fd next edge))
  ]
    where
      go : (x : E × Bool) → held (reregistered calls s fd next x) ≤ held s
      go (e, true) = omega arith
      go (e, false) = drop_conn-held (record s { epoll = e }) fd

  apply_action-held :
      (s : Reactor K E L) (fd : ℕ) (a : ConnAction) → held (apply_action calls s fd a) ≤ held s
  apply_action-held s fd want_read = watch_for-held s fd for_read
  apply_action-held s fd want_write = watch_for-held s fd for_write
  apply_action-held s fd close = drop_conn-held s fd

  after_io-held :
      (s : Reactor K E L) (fd : ℕ) (slot : Slot K) (x : Driven K × Round ConnAction)
      → get_slot s.conns fd ≡ some slot
      → held (after_io calls s fd x) ≤ held s
  unfolding insert_key
  after_io-held s fd slot (d, again) h = omega arith
  after_io-held s fd slot (d, ret a) h = omega (
    arith,
    remove_key_found fd slot s.conns.slots h,
    apply_action-held
        (record s {
          conns = record {
            slots = insert_key fd (record { stream = d.stream; conn = d.conn }) s.conns.slots;
          };
          metrics = d.metrics;
        })
        fd a,
  )

  drive-held : (now : ℕ) (s : Reactor K E L) (fd : ℕ) → held (drive calls now s fd) ≤ held s
  unfolding drive
  drive-held now s fd = go (get_slot s.conns fd) refl
    where
      go :
          (o : Option (Slot K))
          → get_slot s.conns fd ≡ o
          → held (drive_slot calls now s fd o) ≤ held s
      go none e = omega arith
      go (some slot) e =
          after_io-held s fd slot
            (drive_io calls.read calls.write calls.respond now true (calls.io_fuel slot.stream)
              slot.stream slot.conn s.metrics)
            e

  on_event-Limited : (s : Reactor K E L) (v : Event) → Limited s → Limited (on_event calls s v)
  unfolding on_event
  on_event-Limited s v l =
      ground (arith, accept_ready-Limited v.at s l, drop_conn-held s v.fd, drive-held v.at s v.fd)

  pub on_events-Limited :
      (s : Reactor K E L) (vs : List Event) → Limited s → Limited (on_events calls s vs)
  unfolding on_events
  on_events-Limited s [] l = l
  on_events-Limited s (v ∷ vs) l =
      on_events-Limited (on_event calls s v) vs (on_event-Limited s v l)

  apply_backpressure-held : (s : Reactor K E L) → held (apply_backpressure calls s) ≡ held s
  unfolding apply_backpressure
  apply_backpressure-held s = ground arith

  drop_each-held : (s : Reactor K E L) (fds : List ℕ) → held (drop_each calls s fds) ≤ held s
  unfolding drop_each
  drop_each-held s [] = omega arith
  drop_each-held s (fd ∷ fds) =
      omega (arith, drop_each-held (drop_conn calls s fd) fds, drop_conn-held s fd)

  -- Whatever the kernel reports, accepts or refuses in an iteration, the connections stay within the
  -- limit that they were within before.
  pub run_once-Limited :
      (now : ℕ) (s : Reactor K E L) (ready : Option (List Event))
      → Limited s
      → Limited (run_once calls now s ready)
  unfolding run_once sweep_expired
  run_once-Limited now s none l = l
  run_once-Limited now s (some ready) l =
      let t = on_events calls s ready in
      let u = apply_backpressure calls t in
      omega (
        arith,
        on_events-Limited s ready l,
        apply_backpressure-held t,
        drop_each-held u (expired_in now u.conns.slots),
      )
