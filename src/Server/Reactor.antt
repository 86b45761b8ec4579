-- ===== src/Server/Reactor.antt =====
-- server/src/reactor.rs: the edge-triggered event loop. The kernel's interest list is a value of `E`
-- and the listening socket one of `L`; the clock's reading comes with each event and each sweep.
pub mod Limit
pub mod Sweep
pub mod Watch
pub mod Steps
pub mod Run
pub mod Backlog
use rust_tcp_server.Base.{
  ℕ, zero, suc, Bool, true, false, not, ◌&&◌, ◌||◌, ◌==◌, leb, ltb, List, [], ◌∷◌, Option, none,
  some, if◌then◌else◌, Bytes,
}
use rust_tcp_server.App.{Metrics, inc_connections}
use rust_tcp_server.Base.Assoc.{find_key, remove_key, insert_key}
use rust_tcp_server.Base.Rounds.{Round, again, ret, loop}
use rust_tcp_server.Connection.{
  ConnAction, want_read, want_write, close, Connection, new_connection,
}
use rust_tcp_server.Http.Request.{Request}
use rust_tcp_server.Http.Response.{Response}
use rust_tcp_server.Server.EventIo.{IoResult, Driven, drive_io}
use rust_tcp_server.Server.Table.{
  Slot, ConnTable, new_table, insert_slot, get_slot, set_slot, remove_slot, table_len, expired_in,
}

-- sys/epoll.rs.
pub data Trigger : Type 0 where
  level edge : Trigger

pub data Interest : Type 0 where
  for_read for_write for_read_write : Interest

pub record Event : Type 0 where
  pub fd : ℕ
  pub readable : Bool
  pub writable : Bool
  pub hup : Bool
  pub error : Bool
  pub at : ℕ

-- What `accept_nonblocking` returns, with whether `set_nonblocking` works on the new descriptor.
pub data Accept (K : Type 0) : Type 0 where
  accepted : ℕ → K → Bool → Accept K
  none_pending accept_error : Accept K

unfoldable pub matches_interest : Option Interest → Interest → Bool
matches_interest (some for_read) for_read = true
matches_interest (some for_write) for_write = true
matches_interest (some for_read_write) for_read_write = true
matches_interest _ _ = false

pub record Reactor (K E L : Type 0) : Type 0 where
  pub epoll : E
  pub conns : ConnTable K
  pub listener : L
  pub wants : List (ℕ × Interest)
  pub listener_registered : Bool
  pub metrics : Metrics

-- The calls of the reactor: on the interest list (add and modify say if they worked), on the
-- listening socket and on streams; its settings; the fuel for one event on a stream, and for one
-- readiness of the listener.
pub record Calls (K E L : Type 0) : Type 0 where
  pub add : E → ℕ → Interest → Trigger → E × Bool
  pub modify : E → ℕ → Interest → Trigger → E × Bool
  pub delete : E → ℕ → E
  pub accept : L → L × Accept K
  pub read : K → K × IoResult Bytes
  pub write : K → Bytes → K × IoResult ℕ
  pub respond : Request → Response
  pub listener_fd : ℕ
  pub max_connections : ℕ
  pub read_timeout : ℕ
  pub io_fuel : K → ℕ
  pub accept_fuel : L → ℕ

module _ {K E L : Type 0} (calls : Calls K E L) where
  abbrev registered_listener : L → Metrics → E × Bool → Option (Reactor K E L)
  registered_listener l m (e, false) = none
  registered_listener l m (e, true) = some (record {
    epoll = e;
    conns = new_table;
    listener = l;
    wants = [];
    listener_registered = true;
    metrics = m;
  })

  -- Whether `set_nonblocking` works, and what `Epoll::new` returns; `none` is an I/O error. The
  -- counters are those of the app.
  unfoldable pub new_reactor : Bool → Option E → L → Metrics → Option (Reactor K E L)
  new_reactor false e l m = none
  new_reactor true none l m = none
  new_reactor true (some e) l m =
      registered_listener l m (calls.add e calls.listener_fd for_read edge)

  unfoldable pub drop_conn : Reactor K E L → ℕ → Reactor K E L
  drop_conn s fd = record s {
    epoll = calls.delete s.epoll fd;
    wants = remove_key fd s.wants;
    conns = remove_slot s.conns fd;
  }

  -- A connection that is new: in the table, and if it can be registered, in `wants`.
  abbrev pub watched : Reactor K E L → ℕ → E × Bool → Reactor K E L
  watched s fd (e, false) = record s { epoll = e; conns = remove_slot s.conns fd }
  watched s fd (e, true) = record s {
    epoll = e;
    wants = insert_key fd for_read s.wants;
    metrics = inc_connections s.metrics;
  }

  abbrev pub admit : ℕ → Reactor K E L → ℕ → K → Reactor K E L
  admit now s fd stream =
      let slot : Slot K = record {
        stream = stream;
        conn = new_connection now calls.read_timeout;
      } in
      watched (record s { conns = insert_slot s.conns fd slot }) fd
        (calls.add s.epoll fd for_read edge)

  abbrev pub after_accept : ℕ → Reactor K E L → L × Accept K → Reactor K E L × Round (Bool)
  after_accept now s (l, accepted fd stream false) = (record s { listener = l }, again)
  after_accept now s (l, accepted fd stream true) =
      (admit now (record s { listener = l }) fd stream, again)
  after_accept now s (l, none_pending) = (record s { listener = l }, ret true)
  after_accept now s (l, accept_error) = (record s { listener = l }, ret false)

  -- What a round returns says whether the backlog was drained.
  unfoldable pub accept_step : ℕ → Reactor K E L → Reactor K E L × Round Bool
  accept_step now s =
      if leb calls.max_connections (table_len s.conns)
      then (s, ret false)
      else after_accept now s (calls.accept s.listener)

  unfoldable pub accept_ready : ℕ → Reactor K E L → Reactor K E L × Round Bool
  unfolding accept_step loop
  accept_ready now s = loop (calls.accept_fuel s.listener) (accept_step now) s

  abbrev pub reregistered : Reactor K E L → ℕ → Interest → E × Bool → Reactor K E L
  reregistered s fd next (e, true) = record s { epoll = e; wants = insert_key fd next s.wants }
  reregistered s fd next (e, false) = drop_conn (record s { epoll = e }) fd

  abbrev pub watch_for : Reactor K E L → ℕ → Interest → Reactor K E L
  watch_for s fd next =
      if matches_interest (find_key fd s.wants) next
      then s
      else reregistered s fd next (calls.modify s.epoll fd next edge)

  abbrev pub apply_action : Reactor K E L → ℕ → ConnAction → Reactor K E L
  apply_action s fd want_read = watch_for s fd for_read
  apply_action s fd want_write = watch_for s fd for_write
  apply_action s fd close = drop_conn s fd

  abbrev pub after_io : Reactor K E L → ℕ → Driven K × Round ConnAction → Reactor K E L
  after_io s fd (d, again) = s
  after_io s fd (d, ret a) =
      let slot : Slot K = record { stream = d.stream; conn = d.conn } in
      apply_action (record s { conns = set_slot s.conns fd slot; metrics = d.metrics }) fd a

  abbrev pub drive_slot : ℕ → Reactor K E L → ℕ → Option (Slot K) → Reactor K E L
  drive_slot now s fd none = s
  drive_slot now s fd (some slot) = after_io s fd (
      drive_io calls.read calls.write calls.respond now true (calls.io_fuel slot.stream) slot.stream
        slot.conn s.metrics)

  unfoldable pub drive : ℕ → Reactor K E L → ℕ → Reactor K E L
  unfolding drop_conn matches_interest
  drive now s fd = drive_slot now s fd (get_slot s.conns fd)

  unfoldable pub on_event : Reactor K E L → Event → Reactor K E L
  on_event s v =
      if v.fd == calls.listener_fd
      then (if v.readable then (accept_ready v.at s).0 else s)
      else if v.error || v.hup
      then drop_conn s v.fd
      else if v.readable || v.writable
      then drive v.at s v.fd
      else s

  unfoldable pub on_events : Reactor K E L → List Event → Reactor K E L
  on_events s [] = s
  on_events s (v ∷ vs) = on_events (on_event s v) vs

  abbrev pub relisten : Reactor K E L → E × Bool → Reactor K E L
  relisten s (e, true) = record s { epoll = e; listener_registered = true }
  relisten s (e, false) = record s { epoll = e }

  unfoldable pub apply_backpressure : Reactor K E L → Reactor K E L
  apply_backpressure s =
      if s.listener_registered && leb calls.max_connections (table_len s.conns)
      then record s { epoll = calls.delete s.epoll calls.listener_fd; listener_registered = false }
      else if not s.listener_registered && ltb (table_len s.conns) calls.max_connections
      then relisten s (calls.add s.epoll calls.listener_fd for_read edge)
      else s

  unfoldable pub drop_each : Reactor K E L → List ℕ → Reactor K E L
  drop_each s [] = s
  drop_each s (fd ∷ fds) = drop_each (drop_conn s fd) fds

  unfoldable pub sweep_expired : ℕ → Reactor K E L → Reactor K E L
  sweep_expired now s = drop_each s (expired_in now s.conns.slots)

  -- One iteration of `run`: what `epoll_wait` reported, or `none` for its error, and the sweep's time.
  unfoldable pub run_once : ℕ → Reactor K E L → Option (List Event) → Reactor K E L
  run_once now s none = s
  run_once now s (some ready) = sweep_expired now (apply_backpressure (on_events s ready))
