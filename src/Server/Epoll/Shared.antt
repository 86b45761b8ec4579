-- ===== src/Server/Epoll/Shared.antt =====
-- What epoll.rs does as the reactor does, drained or not.
use rust_tcp_server.Base.{
  ℕ, ◌≡◌, refl, ap, ◌∙◌, Bool, true, false, List, [], ◌∷◌, Option, none, some,
}
use rust_tcp_server.Base.Rounds.{Round, again, ret}
use rust_tcp_server.Base.Assoc.{find_key}
use rust_tcp_server.Connection.{ConnAction, want_read, want_write, close}
use rust_tcp_server.Server.EventIo.{Driven}
use rust_tcp_server.Server.Epoll.{
  added_client, shed, listens_again, close_each, close_conn, after_drive, act_on, want_next,
  modified, same_interest,
}
use rust_tcp_server.Server.Reactor.{
  Trigger, edge, Interest, for_read, for_write, for_read_write, Reactor, Calls, matches_interest,
  drop_conn, watched, reregistered, watch_for, apply_action, after_io, relisten, apply_backpressure,
  drop_each,
}
use rust_tcp_server.Server.Table.{Slot, set_slot}

-- The reactor has its triggers replaced, so that it asks for the trigger that epoll.rs has.
module _ {K E L : Type 0} (calls : Calls K E L) (choose : Trigger → Trigger) (drain : Bool) where
  abbrev pub chosen : Calls K E L
  chosen = record {
    add = λ e fd i t. calls.add e fd i (choose t);
    modify = λ e fd i t. calls.modify e fd i (choose t);
    delete = calls.delete;
    accept = calls.accept;
    read = calls.read;
    write = calls.write;
    respond = calls.respond;
    listener_fd = calls.listener_fd;
    max_connections = calls.max_connections;
    read_timeout = calls.read_timeout;
    io_fuel = calls.io_fuel;
    accept_fuel = calls.accept_fuel;
  }

  pub close_conn_same :
      (s : Reactor K E L) (fd : ℕ)
      → close_conn calls (choose edge) drain s fd ≡ drop_conn chosen s fd
  unfolding close_conn drop_conn
  close_conn_same s fd = refl

  same_interest_same :
      (o : Option Interest) (i : Interest) → same_interest o i ≡ matches_interest o i
  unfolding same_interest matches_interest
  same_interest_same none for_read = refl
  same_interest_same none for_write = refl
  same_interest_same none for_read_write = refl
  same_interest_same (some for_read) for_read = refl
  same_interest_same (some for_read) for_write = refl
  same_interest_same (some for_read) for_read_write = refl
  same_interest_same (some for_write) for_read = refl
  same_interest_same (some for_write) for_write = refl
  same_interest_same (some for_write) for_read_write = refl
  same_interest_same (some for_read_write) for_read = refl
  same_interest_same (some for_read_write) for_write = refl
  same_interest_same (some for_read_write) for_read_write = refl

  modified_same :
      (s : Reactor K E L) (fd : ℕ) (next : Interest) (x : E × Bool)
      → modified calls (choose edge) drain s fd next x ≡ reregistered chosen s fd next x
  modified_same s fd next (e, true) = refl
  modified_same s fd next (e, false) = close_conn_same (record s { epoll = e }) fd

  want_next_same :
      (s : Reactor K E L) (fd : ℕ) (next : Interest)
      → want_next calls (choose edge) drain s fd next ≡ watch_for chosen s fd next
  want_next_same s fd next =
      rw
        (
          same_interest_same (find_key fd s.wants) next,
          modified_same s fd next (calls.modify s.epoll fd next (choose edge)),
        )
        refl

  act_on_same :
      (s : Reactor K E L) (fd : ℕ) (a : ConnAction)
      → act_on calls (choose edge) drain s fd a ≡ apply_action chosen s fd a
  act_on_same s fd want_read = want_next_same s fd for_read
  act_on_same s fd want_write = want_next_same s fd for_write
  act_on_same s fd close = close_conn_same s fd

  pub after_drive_same :
      (s : Reactor K E L) (fd : ℕ) (x : Driven K × Round ConnAction)
      → after_drive calls (choose edge) drain s fd x ≡ after_io chosen s fd x
  after_drive_same s fd (d, again) = refl
  after_drive_same s fd (d, ret a) =
      let slot : Slot K = record { stream = d.stream; conn = d.conn } in
      act_on_same (record s { conns = set_slot s.conns fd slot; metrics = d.metrics }) fd a

  listens_again_same :
      (s : Reactor K E L) (x : E × Bool)
      → listens_again calls (choose edge) drain s x ≡ relisten chosen s x
  listens_again_same s (e, true) = refl
  listens_again_same s (e, false) = refl

  pub shed_same :
      (s : Reactor K E L) → shed calls (choose edge) drain s ≡ apply_backpressure chosen s
  unfolding shed apply_backpressure
  shed_same s =
      rw (listens_again_same s (calls.add s.epoll calls.listener_fd for_read (choose edge))) refl

  pub close_each_same :
      (s : Reactor K E L) (fds : List ℕ)
      → close_each calls (choose edge) drain s fds ≡ drop_each chosen s fds
  unfolding close_each drop_each
  close_each_same s [] = refl
  close_each_same s (fd ∷ fds) =
      close_each_same (close_conn calls (choose edge) drain s fd) fds
      ∙ ap (λ t. drop_each chosen t fds) (close_conn_same s fd)

  pub added_client_same :
      (s : Reactor K E L) (fd : ℕ) (x : E × Bool)
      → added_client calls (choose edge) drain s fd x ≡ watched chosen s fd x
  added_client_same s fd (e, true) = refl
  added_client_same s fd (e, false) = refl
