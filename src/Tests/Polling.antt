-- ===== src/Tests/Polling.antt =====
-- The theorem on the poll loop at a concrete input.
use rust_tcp_server.Base.{
  suc, refl, arith, true, false, Bool-cases, inl, inr, ◌==◌, List, [], ◌∷◌, some,
}
use rust_tcp_server.App.{new_metrics}
use rust_tcp_server.Base.Assoc.{find_key}
use rust_tcp_server.Server.Poll.Pairs.{Paired, StreamLaws, Agreed, poll_once-Agreed}
use rust_tcp_server.Server.Poll.{Revents, Poll, PollCalls, Polled, poll_once}
use rust_tcp_server.Server.Reactor.{for_read}
use rust_tcp_server.Server.Table.{get_slot}
use rust_tcp_server.Connection.{new_connection}
use rust_tcp_server.Connection.Invariant.{new_connection-Inv}
use rust_tcp_server.Tests.Connections.{opened, respond}
use rust_tcp_server.Tests.Reactors.{client}
use rust_tcp_server.Tests.System.{
  Sock, next_client, sock_read, sock_write, sock_moves, sock_read_moves, sock_write_moves,
}

abbrev calls : PollCalls Sock (List Sock)
calls = record {
  accept = next_client;
  read = sock_read;
  write = sock_write;
  respond = respond;
  max_connections = 2;
  read_timeout = 30;
  io_fuel = λ k. suc (sock_moves k);
}

laws : StreamLaws calls
laws = record {
  moves = sock_moves;
  read_moves = sock_read_moves;
  write_moves = sock_write_moves;
  enough = λ k. omega arith;
}

-- One connection, and a client in the backlog.
abbrev state : Poll Sock (List Sock)
state = record {
  conns = record { slots = (5, record { stream = client; conn = opened }) ∷ [] };
  wants = (5, for_read) ∷ [];
  listener = client ∷ [];
  metrics = new_metrics;
}

abbrev is_ready : Revents
is_ready = record { readable = true; writable = false; hup = false; error = false; at = 8 }

abbrev polled : Polled
polled = record { listener_events = is_ready; events_of = λ fd. is_ready }

state-Agreed : Agreed calls laws state
unfolding find_key new_connection
state-Agreed q = elim (Bool-cases (5 == q)) [
  | inl e ↦ rw e (new_connection-Inv 7 30, λ c. cc, refl)
  | inr e ↦ rw e refl
]

poll_once-Agreed_example :
    Paired
      (get_slot (poll_once calls 9 state (some polled)).conns 5)
      (find_key 5 (poll_once calls 9 state (some polled)).wants)
poll_once-Agreed_example = poll_once-Agreed calls laws 9 state (some polled) state-Agreed 5
