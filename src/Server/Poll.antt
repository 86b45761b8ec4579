-- ===== src/Server/Poll.antt =====
-- server/src/models/poll.rs: the event loop on `poll(2)`, which is given the whole set of descriptors
-- in every iteration. Clock readings come with what `poll` reports and with the sweep.
pub mod Pairs
use rust_tcp_server.Base.{
  ℕ, Bool, true, false, ◌&&◌, ◌||◌, ltb, List, [], ◌∷◌, Option, none, some, if◌then◌else◌, Bytes,
}
use rust_tcp_server.App.{Metrics, inc_connections}
use rust_tcp_server.Base.Assoc.{remove_key, insert_key}
use rust_tcp_server.Base.Rounds.{Round, again, ret}
use rust_tcp_server.Connection.{ConnAction, want_read, want_write, close, new_connection}
use rust_tcp_server.Http.Request.{Request}
use rust_tcp_server.Http.Response.{Response}
use rust_tcp_server.Server.EventIo.{IoResult, Driven, drive_io}
use rust_tcp_server.Server.Reactor.{
  Interest, for_read, for_write, Accept, accepted, none_pending, accept_error,
}
use rust_tcp_server.Server.Table.{
  Slot, ConnTable, insert_slot, get_slot, set_slot, remove_slot, table_len, expired_in,
}

-- An entry's `revents`, and the time at which it is looked at.
pub record Revents : Type 0 where
  pub readable : Bool
  pub writable : Bool
  pub hup : Bool
  pub error : Bool
  pub at : ℕ

pub record Poll (K L : Type 0) : Type 0 where
  pub conns : ConnTable K
  pub wants : List (ℕ × Interest)
  pub listener : L
  pub metrics : Metrics

-- The calls on the listening socket and on streams, the settings, and the fuel for an event.
pub record PollCalls (K L : Type 0) : Type 0 where
  pub accept : L → L × Accept K
  pub read : K → K × IoResult Bytes
  pub write : K → Bytes → K × IoResult ℕ
  pub respond : Request → Response
  pub max_connections : ℕ
  pub read_timeout : ℕ
  pub io_fuel : K → ℕ

-- What `poll` filled in: for the listener, if it was in the set, and for the other descriptors.
pub record Polled : Type 0 where
  pub listener_events : Revents
  pub events_of : ℕ → Revents

abbrev pub keys : {A : Type 0} → List (ℕ × A) → List ℕ
keys [] = []
keys ((fd, a) ∷ m) = fd ∷ keys m

module _ {K L : Type 0} (calls : PollCalls K L) where
  unfoldable pub poll_drop : Poll K L → ℕ → Poll K L
  poll_drop s fd = record s { wants = remove_key fd s.wants; conns = remove_slot s.conns fd }

  abbrev pub taken : ℕ → Poll K L → L × Accept K → Poll K L
  taken now s (l, accepted fd stream false) = record s { listener = l }
  taken now s (l, accepted fd stream true) =
      let slot : Slot K = record {
        stream = stream;
        conn = new_connection now calls.read_timeout;
      } in
      record s {
        listener = l;
        conns = insert_slot s.conns fd slot;
        wants = insert_key fd for_read s.wants;
        metrics = inc_connections s.metrics;
      }
  taken now s (l, none_pending) = record s { listener = l }
  taken now s (l, accept_error) = record s { listener = l }

  unfoldable pub accept_one : ℕ → Poll K L → Poll K L
  accept_one now s = taken now s (calls.accept s.listener)

  abbrev pub want : Poll K L → ℕ → ConnAction → Poll K L
  want s fd want_read = record s { wants = insert_key fd for_read s.wants }
  want s fd want_write = record s { wants = insert_key fd for_write s.wants }
  want s fd close = poll_drop s fd

  abbrev pub driven : Poll K L → ℕ → Driven K × Round ConnAction → Poll K L
  driven s fd (d, again) = s
  driven s fd (d, ret a) =
      let slot : Slot K = record { stream = d.stream; conn = d.conn } in
      want (record s { conns = set_slot s.conns fd slot; metrics = d.metrics }) fd a

  abbrev pub drive_found : ℕ → Poll K L → ℕ → Option (Slot K) → Poll K L
  drive_found now s fd none = s
  drive_found now s fd (some slot) = driven s fd (
      drive_io calls.read calls.write calls.respond now false (calls.io_fuel slot.stream)
        slot.stream slot.conn s.metrics)

  unfoldable pub poll_drive : ℕ → Poll K L → ℕ → Poll K L
  unfolding poll_drop
  poll_drive now s fd = drive_found now s fd (get_slot s.conns fd)

  unfoldable pub poll_event : Poll K L → ℕ → Revents → Poll K L
  poll_event s fd v =
      if v.error || v.hup
      then poll_drop s fd
      else if v.readable || v.writable
      then poll_drive v.at s fd
      else s

  unfoldable pub poll_events : (ℕ → Revents) → Poll K L → List ℕ → Poll K L
  poll_events events_of s [] = s
  poll_events events_of s (fd ∷ fds) = poll_events events_of (poll_event s fd (events_of fd)) fds

  unfoldable pub poll_sweep : Poll K L → List ℕ → Poll K L
  poll_sweep s [] = s
  poll_sweep s (fd ∷ fds) = poll_sweep (poll_drop s fd) fds

  abbrev pub listener_in_set : Poll K L → Bool
  listener_in_set s = ltb (table_len s.conns) calls.max_connections

  abbrev pub listener_part : Poll K L → Revents → Poll K L
  listener_part s v = if listener_in_set s && v.readable then accept_one v.at s else s

  -- The expired connections, once the events are handled.
  abbrev pub swept : ℕ → Poll K L → Poll K L
  swept now s = poll_sweep s (expired_in now s.conns.slots)

  -- One iteration of `serve`: what `poll` reported, or `none` for its error. The descriptors are those
  -- of the set that `poll` was given, before the accept.
  unfoldable pub poll_once : ℕ → Poll K L → Option Polled → Poll K L
  poll_once now s none = s
  poll_once now s (some polled) =
      swept now
        (poll_events polled.events_of (listener_part s polled.listener_events) (keys s.wants))
