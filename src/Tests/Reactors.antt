-- ===== src/Tests/Reactors.antt =====
-- The theorems on the event loop at concrete inputs.
use rust_tcp_server.Base.{
  ◌≡◌, ◌≢◌, refl, arith, Bool, true, false, List, [], ◌∷◌, some, codes, length,
}
use rust_tcp_server.App.{new_metrics}
use rust_tcp_server.Base.Assoc.{find_key}
use rust_tcp_server.Base.Rounds.{ret}
use rust_tcp_server.Connection.Invariant.{new_connection-Inv}
use rust_tcp_server.Connection.{ConnAction, closed, new_connection}
use rust_tcp_server.Server.EventIo.Ends.{Leaves, drive_io-Leaves}
use rust_tcp_server.Server.EventIo.{Driven, drive_io}
use rust_tcp_server.Server.Reactor.Backlog.{Shrinks, accept_ready_returns, backlog_waits}
use rust_tcp_server.Server.Reactor.Limit.{Limited, run_once-Limited}
use rust_tcp_server.Server.Reactor.Run.{Keeps, run_once-Keeps}
use rust_tcp_server.Server.Reactor.Sweep.{Unique, unexpired, sweep_expired-unexpired}
use rust_tcp_server.Server.Reactor.{
  edge, for_read, Event, Reactor, drop_conn, accept_ready, accept_step, on_events,
  apply_backpressure, run_once, sweep_expired,
}
use rust_tcp_server.Server.Table.{Slot, new_table, get_slot}
use rust_tcp_server.Tests.Connections.{opened, respond}
use rust_tcp_server.Tests.Requests.{hello}
use rust_tcp_server.Tests.System.{
  Sock, next_client, sock_read, sock_write, sock_out, sock_moves, sock_pieces, sock_read_takes,
  sock_write_sends, sock_read_moves, sock_write_moves, Watching, registered_for, system,
  system_laws,
}

abbrev pub client : Sock
client = record { chunks = codes "GET /a" ∷ hello ∷ []; room = 1; out = []; taken = [] }

opened_open : opened.state ≢ closed
unfolding new_connection
opened_open e = cc

drive_io-Leaves_example :
    (d : Driven Sock) × (a : ConnAction) × (drive_io sock_read sock_write respond 8 true 4 client
        opened new_metrics
      ≡ (d, ret a))
    × Leaves sock_read sock_out sock_pieces respond true client opened a d
drive_io-Leaves_example =
    drive_io-Leaves sock_read sock_write sock_out sock_pieces sock_read_takes sock_write_sends
      sock_moves sock_read_moves sock_write_moves respond 8 true 4 client opened new_metrics
      (new_connection-Inv 7 30) opened_open (omega arith)

-- A reactor with no connection and one client in its backlog.
abbrev pub start : Reactor Sock Watching (List Sock)
start = record {
  epoll = (0, registered_for for_read edge) ∷ [];
  conns = new_table;
  listener = client ∷ [];
  wants = [];
  listener_registered = true;
  metrics = new_metrics;
}

abbrev pub ready : List Event
ready =
    record { fd = 0; readable = true; writable = false; hup = false; error = false; at = 7 }
    ∷ record { fd = 1; readable = true; writable = true; hup = false; error = false; at = 8 }
    ∷ []

start-Keeps : Keeps (system 1) (system_laws 1) start
unfolding find_key
start-Keeps = (λ q. tt, refl)

run_once-Keeps_example : Keeps (system 1) (system_laws 1) (run_once (system 1) 9 start (some ready))
run_once-Keeps_example = run_once-Keeps (system 1) (system_laws 1) 9 start (some ready) start-Keeps

run_once-Limited_example : Limited (system 1) (run_once (system 1) 9 start (some ready))
run_once-Limited_example = run_once-Limited (system 1) 9 start (some ready) (omega arith)

abbrev served : Slot Sock
served = record { stream = client; conn = opened }

-- A reactor at its limit of one connection, with another client in its backlog.
abbrev busy : Reactor Sock Watching (List Sock)
busy = record start {
  epoll = (1, registered_for for_read edge) ∷ (0, registered_for for_read edge) ∷ [];
  conns = record { slots = (1, served) ∷ [] };
  wants = (1, for_read) ∷ [];
}

busy-Unique : Unique busy.conns.slots
unfolding find_key
busy-Unique = (refl, tt)

sweep_expired-unexpired_example :
    get_slot (sweep_expired (system 1) 40 busy).conns 1 ≡ unexpired 40 (get_slot busy.conns 1)
sweep_expired-unexpired_example = sweep_expired-unexpired (system 1) 40 busy 1 busy-Unique

abbrev hung_up : Event
hung_up = record { fd = 1; readable = false; writable = false; hup = true; error = false; at = 8 }

served_found : get_slot busy.conns 1 ≡ some served
unfolding find_key
served_found = refl

backlog_waits_example :
    (accept_step (system 1) 8 busy ≡ (busy, ret false))
    × (apply_backpressure (system 1) (on_events (system 1) busy (hung_up ∷ []))
        ≡ drop_conn (system 1) busy 1)
backlog_waits_example =
    backlog_waits (system 1) busy hung_up served refl refl refl refl served_found

client-Shrinks : (l : List Sock) → Shrinks length l (next_client l)
client-Shrinks [] = tt
client-Shrinks (k ∷ ks) = omega arith

accept_ready_returns_example :
    (t : Reactor Sock Watching (List Sock)) × (b : Bool) × (accept_ready (system 4) 7 start
      ≡ (t, ret b))
accept_ready_returns_example =
    accept_ready_returns (system 4) length client-Shrinks 7 start (omega arith)
