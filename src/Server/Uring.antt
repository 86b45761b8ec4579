-- ===== src/Server/Uring.antt =====
-- server/src/models/io_uring.rs, `Runtime`: the completion-based loop. The submission and completion
-- queues are a value of `R`, and a descriptor is the 32-bit pattern of its `i32`.
pub mod Words
pub mod Kernel
pub mod Buffers
pub mod Flight
use rust_tcp_server.Base.{
  ℕ, zero, suc, ◌%◌, ◌^◌, Bool, true, false, not, List, [], ◌∷◌, Option, none, some, leb, ◌==◌,
  if◌then◌else◌, Bytes, length, take,
}
use rust_tcp_server.App.{Metrics, inc_connections}
use rust_tcp_server.Base.Assoc.{find_key, remove_key, insert_key}
use rust_tcp_server.Connection.{
  ConnAction, want_read, want_write, close, Connection, new_connection, pending_write, on_bytes,
  on_written,
}
use rust_tcp_server.Http.Request.{Request}
use rust_tcp_server.Http.Response.{Response}
use rust_tcp_server.Server.Uring.Buffers.{
  BufRing, NewRing, ring_of, num_bufs, buf_size, new_ring, recycle, buffer_bytes,
}
use rust_tcp_server.Server.Uring.Words.{op_accept, op_recv, op_send, op_close, pack, unpack}

-- A submission: what is to be done on a descriptor, and the word that its completion carries. A
-- `recv` names no memory, and a `send` the bytes that the kernel reads.
pub data Job : Type 0 where
  accept_multi recv close_fd : Job
  send : Bytes → Job

pub record Sqe : Type 0 where
  pub job : Job
  pub fd : ℕ
  pub user_data : ℕ

-- The `i32` result of a completion, by its sign.
pub data Outcome : Type 0 where
  done errno : ℕ → Outcome

-- `more` and `buffer` are what the flags say; `at` is the clock when the completion is handled.
pub record Cqe : Type 0 where
  pub user_data : ℕ
  pub result : Outcome
  pub more : Bool
  pub buffer : Option ℕ
  pub at : ℕ

-- What `submit_with_args` returns: it worked or timed out, or there is nothing to drain.
pub data Wait : Type 0 where
  woken retry : Wait

-- The calls on the ring, where `push` says if there was room, and the completions come with what the
-- kernel has written to the pool; and the settings.
pub record RingCalls (R : Type 0) : Type 0 where
  pub push : R → Sqe → R × Bool
  pub submit : R → R
  pub submit_with_args : R → R × Wait
  pub completions : R → (ℕ → ℕ) → R × (ℕ → ℕ) × List Cqe
  pub respond : Request → Response
  pub listener_fd : ℕ
  pub max_connections : ℕ
  pub read_timeout : ℕ

pub record Runtime (R : Type 0) : Type 0 where
  pub ring : R
  pub br : BufRing
  pub conns : List (ℕ × Connection)
  pub accept_armed : Bool
  pub metrics : Metrics

abbrev runtime_on : {R : Type 0} → R → NewRing → Bool → Metrics → Option (Runtime R)
runtime_on r (ring_of br) true metrics =
    some (record { ring = r; br = br; conns = []; accept_armed = false; metrics = metrics })
runtime_on r _ registered metrics = none

-- What building the ring and mapping the buffers return, and whether they can be registered; the
-- counters are those of the app.
unfoldable pub new_runtime : {R : Type 0} → Option R → Bool → Bool → Metrics → Option (Runtime R)
unfolding new_ring
new_runtime none mapped registered metrics = none
new_runtime (some r) mapped registered metrics =
    runtime_on r (new_ring mapped num_bufs buf_size) registered metrics

module _ {R : Type 0} (calls : RingCalls R) where
  abbrev pub retried : Runtime R → Sqe → R × Bool → Runtime R × Bool
  retried rt e (r, ok) = (record rt { ring = r }, ok)

  abbrev pub first_push : Runtime R → Sqe → R × Bool → Runtime R × Bool
  first_push rt e (r, true) = (record rt { ring = r }, true)
  first_push rt e (r, false) = retried rt e (calls.push (calls.submit r) e)

  unfoldable pub push_sqe : Runtime R → Sqe → Runtime R × Bool
  push_sqe rt e = first_push rt e (calls.push rt.ring e)

  abbrev pub armed : Runtime R × Bool → Runtime R
  armed (rt, true) = record rt { accept_armed = true }
  armed (rt, false) = rt

  abbrev pub accept_sqe : Sqe
  accept_sqe = record {
    job = accept_multi;
    fd = calls.listener_fd;
    user_data = pack op_accept calls.listener_fd;
  }

  unfoldable pub arm_accept : Runtime R → Runtime R
  unfolding push_sqe
  arm_accept rt = armed (push_sqe rt accept_sqe)

  abbrev pub recv_sqe : ℕ → Sqe
  recv_sqe fd = record { job = recv; fd = fd; user_data = pack op_recv fd }

  unfoldable pub submit_recv : Runtime R → ℕ → Runtime R
  submit_recv rt fd = (push_sqe rt (recv_sqe fd)).0

  abbrev pub close_sqe : ℕ → Sqe
  close_sqe fd = record { job = close_fd; fd = fd; user_data = pack op_close fd }

  unfoldable pub submit_close : Runtime R → ℕ → Runtime R
  submit_close rt fd = (push_sqe rt (close_sqe fd)).0

  abbrev pub dropped : Runtime R → ℕ → Option Connection → Runtime R
  dropped rt fd none = rt
  dropped rt fd (some c) = submit_close (record rt { conns = remove_key fd rt.conns }) fd

  unfoldable pub drop_connection : Runtime R → ℕ → Runtime R
  unfolding submit_close
  drop_connection rt fd = dropped rt fd (find_key fd rt.conns)

  abbrev pub send_sqe : ℕ → Bytes → Sqe
  send_sqe fd bytes = record { job = send bytes; fd = fd; user_data = pack op_send fd }

  -- `submit_send`, where `apply` is the call that it makes when there is nothing to send. The length
  -- goes into a `u32`.
  abbrev pub send_found :
      (Runtime R → ℕ → ConnAction → Runtime R) → ℕ → Runtime R → ℕ → Option Connection → Runtime R
  send_found apply now rt fd none = rt
  send_found apply now rt fd (some c) =
      let len = length (pending_write c) % 2 ^ 32 in
      let (d, a) = on_written now c 0 in
      if len == 0
      then apply (record rt { conns = insert_key fd d rt.conns }) fd a
      else (push_sqe rt (send_sqe fd (take len (pending_write c)))).0

  -- The rounds that `apply` and `submit_send` may call each other are bounded by `fuel`.
  unfoldable pub apply : ℕ → ℕ → Runtime R → ℕ → ConnAction → Runtime R
  unfolding submit_recv drop_connection
  apply zero now rt fd a = rt
  apply (suc fuel) now rt fd want_read = submit_recv rt fd
  apply (suc fuel) now rt fd want_write =
      send_found (apply fuel now) now rt fd (find_key fd rt.conns)
  apply (suc fuel) now rt fd close = drop_connection rt fd

  abbrev pub stopped : Runtime R → Bool → Runtime R
  stopped rt more = if more then rt else record rt { accept_armed = false }

  abbrev pub accept_done : Runtime R → ℕ → Outcome → Runtime R
  accept_done rt now (errno e) = rt
  accept_done rt now (done fd) =
      if leb calls.max_connections (length rt.conns)
      then submit_close rt fd
      else submit_recv
          (record rt {
            conns = insert_key fd (new_connection now calls.read_timeout) rt.conns;
            metrics = inc_connections rt.metrics;
          })
          fd

  unfoldable pub on_accept : Runtime R → Cqe → Runtime R
  unfolding submit_recv submit_close
  on_accept rt c = accept_done (stopped rt c.more) c.at c.result

  abbrev pub received : ℕ → Runtime R → ℕ → ℕ → ℕ → Option Connection → Runtime R
  received now rt fd bid n none = record rt { br = recycle rt.br bid }
  received now rt fd bid n (some c) =
      let (d, a) = on_bytes calls.respond c (buffer_bytes rt.br bid n) in
      apply 2 now (record rt { conns = insert_key fd d rt.conns; br = recycle rt.br bid }) fd a

  abbrev pub recv_done : ℕ → Runtime R → ℕ → Option ℕ → Outcome → Runtime R
  recv_done now rt fd buffer (errno e) = drop_connection rt fd
  recv_done now rt fd buffer (done zero) = drop_connection rt fd
  recv_done now rt fd none (done (suc n)) = drop_connection rt fd
  recv_done now rt fd (some bid) (done (suc n)) =
      received now rt fd bid (suc n) (find_key fd rt.conns)

  unfoldable pub on_recv : Runtime R → ℕ → Cqe → Runtime R
  unfolding drop_connection apply
  on_recv rt fd c = recv_done c.at rt fd c.buffer c.result

  abbrev pub sent_part : ℕ → Runtime R → ℕ → ℕ → Option Connection → Runtime R
  sent_part now rt fd n none = rt
  sent_part now rt fd n (some c) =
      let (d, a) = on_written now c n in
      apply 2 now (record rt { conns = insert_key fd d rt.conns }) fd a

  abbrev pub send_done : ℕ → Runtime R → ℕ → Outcome → Runtime R
  send_done now rt fd (errno e) = drop_connection rt fd
  send_done now rt fd (done n) = sent_part now rt fd n (find_key fd rt.conns)

  unfoldable pub on_send : Runtime R → ℕ → Cqe → Runtime R
  unfolding drop_connection apply
  on_send rt fd c = send_done c.at rt fd c.result

  abbrev pub on_op : Runtime R → ℕ × ℕ → Cqe → Runtime R
  on_op rt (op, fd) c =
      if op == op_accept
      then on_accept rt c
      else if op == op_recv
      then on_recv rt fd c
      else if op == op_send
      then on_send rt fd c
      else rt

  unfoldable pub on_cqe : Runtime R → Cqe → Runtime R
  unfolding on_accept on_recv on_send
  on_cqe rt c = on_op rt (unpack c.user_data) c

  unfoldable pub on_cqes : Runtime R → List Cqe → Runtime R
  on_cqes rt [] = rt
  on_cqes rt (c ∷ cs) = on_cqes (on_cqe rt c) cs

  abbrev pub drained : Runtime R → R × (ℕ → ℕ) × List Cqe → Runtime R
  drained rt (r, pool, cqes) =
      on_cqes (record rt { ring = r; br = record rt.br { pool = pool } }) cqes

  unfoldable pub drain_cqes : Runtime R → Runtime R
  unfolding on_cqes
  drain_cqes rt = drained rt (calls.completions rt.ring rt.br.pool)

  abbrev pub after_wait : Runtime R → R × Wait → Runtime R
  after_wait rt (r, woken) = drain_cqes (record rt { ring = r })
  after_wait rt (r, retry) = record rt { ring = r }

  abbrev pub rearm : Bool → Runtime R → Runtime R
  rearm true rt = rt
  rearm false rt = arm_accept rt

  -- One iteration of `run`.
  unfoldable pub uring_once : Runtime R → Runtime R
  unfolding arm_accept drain_cqes
  uring_once rt = let s = rearm rt.accept_armed rt in after_wait s (calls.submit_with_args s.ring)
