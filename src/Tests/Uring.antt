-- ===== src/Tests/Uring.antt =====
-- Runs of the loop of io_uring.rs on a small ring.
use rust_tcp_server.Base.{
  ℕ, suc, ◌+◌, ◌*◌, ◌<◌, ◌^◌, ◌≡◌, refl, Bool, true, false, List, [], ◌∷◌, none, some, ◌==◌, ltb,
  ltb→lt, if◌then◌else◌, codes, arith, length,
}
use rust_tcp_server.App.{new_metrics}
use rust_tcp_server.Connection.{new_connection}
use rust_tcp_server.Http.Headers.{insert_header}
use rust_tcp_server.Http.Request.{Request}
use rust_tcp_server.Http.Response.{
  Response, new_response, text_response, write_digits, write_usize, is_owned, write_fields, encode,
}
use rust_tcp_server.Http.Status.{ok_status, reason}
use rust_tcp_server.Text.Ascii.{to_ascii_lowercase, eq_ignore_ascii_case}
use rust_tcp_server.Base.Assoc.{find_key, insert_key}
use rust_tcp_server.Server.Uring.Buffers.{BufRing}
use rust_tcp_server.Server.Uring.Buffers.Circulation.{count}
use rust_tcp_server.Server.Uring.Flight.{carried, RingLaws, Driven, Genuine}
use rust_tcp_server.Server.Uring.Flight.Rounds.{uring_once-Driven}
use rust_tcp_server.Server.Uring.Words.{op_accept, op_recv, op_send, pack, unpack}
use rust_tcp_server.Server.Uring.{
  done, Cqe, woken, RingCalls, Runtime, arm_accept, on_cqe, uring_once,
}

-- The words in flight, and what the kernel is to complete, one in each round.
record SmallRing : Type 0 where
  words : List ℕ
  script : List Cqe

remove_one : ℕ → List ℕ → List ℕ
remove_one w [] = []
remove_one w (v ∷ vs) = let rest = remove_one w vs in if w == v then vs else v ∷ rest

count-remove_one :
    (w v : ℕ) (vs : List ℕ)
    → 0 < count v vs
    → count w vs ≡ (if v == w then suc (count w (remove_one v vs)) else count w (remove_one v vs))
unfolding count remove_one
count-remove_one w v [] l = absurd (omega arith)
count-remove_one w v (x ∷ vs) l = ground (arith, count-remove_one w v vs)

abbrev delivered : SmallRing → (ℕ → ℕ) → List Cqe → SmallRing × (ℕ → ℕ) × List Cqe
delivered r pool [] = (r, pool, [])
delivered r pool (c ∷ cs) =
    if ltb 0 (count c.user_data r.words)
    then (record { words = remove_one c.user_data r.words; script = cs }, pool, c ∷ [])
    else (r, pool, [])

abbrev answer : Request → Response
answer q = text_response ok_status (codes "hi")

-- Buffers hold the letters of a request line.
abbrev uring_calls : RingCalls SmallRing
uring_calls = record {
  push = λ r e. (record r { words = e.user_data ∷ r.words }, true);
  submit = λ r. r;
  submit_with_args = λ r. (r, woken);
  completions = λ r pool. delivered r (λ at. b'A' + at) r.script;
  respond = answer;
  listener_fd = 3;
  max_connections = 10;
  read_timeout = 30;
}

answer_fits : (q : Request) (k b : Bool) → length (encode (answer q) k b []) < 2 ^ 32
unfolding encode text_response new_response insert_header write_fields write_usize write_digits
    is_owned eq_ignore_ascii_case to_ascii_lowercase reason
answer_fits q true true = ltb→lt _ _ refl
answer_fits q true false = ltb→lt _ _ refl
answer_fits q false true = ltb→lt _ _ refl
answer_fits q false false = ltb→lt _ _ refl

delivered_counts :
    (r : SmallRing) (pool : ℕ → ℕ) (cs : List Cqe) (w : ℕ)
    → carried w (delivered r pool cs).2 + count w (delivered r pool cs).0.words ≡ count w r.words
unfolding carried
delivered_counts r pool [] w = omega arith
delivered_counts r pool (c ∷ cs) w = ground (arith, count-remove_one w c.user_data r.words)

uring_laws : RingLaws uring_calls
unfolding count
uring_laws = record {
  flight = λ r w. count w r.words;
  pushed = λ r e w. ground arith;
  submitted = λ r w. refl;
  room = λ r e. refl;
  waited = λ r w. refl;
  completed = λ r pool fd. (
    delivered_counts r (λ at. b'A' + at) r.script (pack op_recv fd),
    delivered_counts r (λ at. b'A' + at) r.script (pack op_send fd),
  );
  fits = answer_fits;
}

abbrev small_buffers : BufRing
small_buffers = record {
  ring = [];
  pool = λ at. 0;
  pool_len = 256 * 16384;
  mask = 255;
  local_tail = 0;
  tail = 0;
}

-- A client comes, and sends 20 bytes.
abbrev uring_script : List Cqe
uring_script =
    record { user_data = pack op_accept 3; result = done 5; more = false; buffer = none; at = 1 }
    ∷ record { user_data = pack op_recv 5; result = done 20; more = false; buffer = some 7; at = 2 }
    ∷ []

abbrev uring_start : Runtime SmallRing
uring_start = record {
  ring = record { words = []; script = uring_script };
  br = small_buffers;
  conns = [];
  accept_armed = false;
  metrics = new_metrics;
}

uring_start-Driven : Driven uring_calls uring_laws [] uring_start
unfolding carried count find_key uring_laws
uring_start-Driven = (λ q l. (refl, refl), λ q l. refl)

abbrev uring_next : Runtime SmallRing
uring_next = uring_once uring_calls uring_start

uring_start-Genuine : Genuine uring_calls uring_laws uring_start
unfolding arm_accept pack count remove_one find_key
uring_start-Genuine = ((op_accept, 3, omega arith, omega arith, refl, λ e. (omega arith, refl)), tt)

uring_next-Driven : Driven uring_calls uring_laws [] uring_next
uring_next-Driven =
    uring_once-Driven uring_calls uring_laws uring_start (omega arith) uring_start-Driven
      uring_start-Genuine

uring_next-Genuine : Genuine uring_calls uring_laws uring_next
unfolding uring_once arm_accept pack unpack count remove_one find_key insert_key on_cqe
    new_connection
uring_next-Genuine =
    ((op_recv, 5, omega arith, omega arith, refl, λ e. absurd (omega (arith, e))), tt)

uring_once-Driven_example : Driven uring_calls uring_laws [] (uring_once uring_calls uring_next)
uring_once-Driven_example =
    uring_once-Driven uring_calls uring_laws uring_next (omega arith) uring_next-Driven
      uring_next-Genuine
