-- ===== src/Tests/Loads.antt =====
-- The theorems on the load generator at concrete inputs.
use rust_tcp_server.Base.{
  Bytes, ◌+◌, ◌*◌, ◌≤◌, ◌≡◌, refl, true, [], ◌∷◌, ◌++◌, codes, length, arith,
}
use rust_tcp_server.Connection.Invariant.{new_connection-Inv}
use rust_tcp_server.Connection.{new_connection}
use rust_tcp_server.Http.Headers.{insert_header}
use rust_tcp_server.Http.Request.{Request}
use rust_tcp_server.Loadgen.Exchange.{Ready, session, ReadWhole, session-ReadWhole}
use rust_tcp_server.Loadgen.Reader.Fields.{OneLine}
use rust_tcp_server.Http.Response.{Response, body_bytes, ok_response, new_response, encode}
use rust_tcp_server.Loadgen.Queue.Ends.{worker_call, Called, calls, rests, Called-length}
use rust_tcp_server.Loadgen.Queue.Accounts.{total, AllStopped, Run-finished}
use rust_tcp_server.Loadgen.Queue.{
  QueueState, new_queue, push_time, pop_time, close_queue, Worker, new_worker, worker_pop,
  worker_reply, Run, started, scheduled, closed, popped, replied,
}
use rust_tcp_server.Loadgen.Reader.RoundTrip.{AreClean, read_response-encode}
use rust_tcp_server.Loadgen.Reader.Texts.{
  is_plain, is_plain-IsLine, is_one_line, is_one_line-OneLine,
}
use rust_tcp_server.Loadgen.Reader.{whole, read_response}
use rust_tcp_server.Text.Number.{usize_max}
use rust_tcp_server.Text.Trim.{
  is_space, is_space_pair, is_space_triple, width_front, width_back, trim_by, trim,
}

abbrev page : Response
page = ok_response (codes "text/html") (codes "<p>hi</p>")

page-AreClean : AreClean page.headers.inner
unfolding ok_response new_response insert_header trim trim_by width_front width_back is_space
    is_space_pair is_space_triple is_plain is_one_line
page-AreClean =
    let name = is_plain-IsLine (codes "Content-Type") refl in
    let value = is_one_line-OneLine (codes "text/html") refl in ((name.0, name.1, refl, value), tt)

page_small : length (body_bytes page.body) ≤ usize_max
unfolding ok_response
page_small = omega arith

read_response-encode_example :
    read_response (encode page true true [] ++ codes "HTTP/1.1") ≡ (codes "HTTP/1.1", whole)
read_response-encode_example =
    read_response-encode page true (codes "HTTP/1.1") page-AreClean page_small

-- One worker, one request, answered, and the end.
abbrev one_queue : QueueState
one_queue = push_time new_queue 5

abbrev taker : Worker
taker = (worker_pop one_queue (new_worker true)).1

abbrev one_worker : Worker
one_worker =
    (worker_pop (close_queue (worker_pop one_queue (new_worker true)).0)
      (worker_reply taker 9 true)).1

abbrev last_queue : QueueState
last_queue =
    (worker_pop (close_queue (worker_pop one_queue (new_worker true)).0)
      (worker_reply taker 9 true)).0

one-Run : Run (5 ∷ []) last_queue (one_worker ∷ [])
one-Run =
    popped (5 ∷ []) (close_queue (worker_pop one_queue (new_worker true)).0) []
      (worker_reply taker 9 true) []
      (closed (5 ∷ []) (worker_pop one_queue (new_worker true)).0 (worker_reply taker 9 true ∷ []) (
        replied (5 ∷ []) (worker_pop one_queue (new_worker true)).0 [] taker [] 9 true (
          popped (5 ∷ []) one_queue [] (new_worker true) []
            (scheduled [] new_queue (new_worker true ∷ []) 5 (started (true ∷ [])) refl))))

one-Run_over : AllStopped (one_worker ∷ [])
unfolding worker_pop pop_time close_queue push_time worker_reply new_worker
one-Run_over = (refl, tt)

Run-finished_example :
    total (λ v. v.ok) (one_worker ∷ []) + total (λ v. v.errors) (one_worker ∷ []) ≡ 1
Run-finished_example = Run-finished (5 ∷ []) last_queue one_worker [] one-Run one-Run_over

-- The rest of that run, from the end of scheduling on: a reply, and a `pop` that finds nothing.
abbrev shut_queue : QueueState
shut_queue = close_queue (worker_pop one_queue (new_worker true)).0

rest_of_run : Called 2 shut_queue (taker ∷ []) last_queue (one_worker ∷ [])
unfolding worker_call worker_pop pop_time worker_reply new_worker push_time close_queue
rest_of_run =
    calls 1 shut_queue shut_queue (taker ∷ []) [] (worker_reply taker 9 true) [] 0 true
      (calls 0 shut_queue shut_queue (taker ∷ []) [] taker [] 9 true (rests shut_queue (taker ∷ []))
        (λ e. cc))
      (λ e. cc)

shut_queue_done : shut_queue.scheduling_done ≡ true
unfolding close_queue
shut_queue_done = refl

Called-length_example : 2 ≤ 3 * length shut_queue.pending + 2 * length (taker ∷ [])
Called-length_example =
    Called-length 2 shut_queue (taker ∷ []) last_queue (one_worker ∷ []) shut_queue_done rest_of_run

-- The exchange on a new connection, for a page that every request is answered with.
abbrev local : Bytes
local = codes "localhost:8080"

local-OneLine : OneLine local
unfolding is_one_line
local-OneLine = is_one_line-OneLine (codes "localhost:8080") refl

abbrev respond_page : Request → Response
respond_page r = page

waiting-Ready : Ready respond_page (new_connection 3 30)
unfolding new_connection
waiting-Ready = (new_connection-Inv 3 30, refl, refl)

session-ReadWhole_example :
    ReadWhole respond_page 3
      (session respond_page local (7 ∷ 9 ∷ 12 ∷ []) (new_connection 3 30) ++ codes "HTTP")
      (codes "HTTP")
session-ReadWhole_example =
    session-ReadWhole respond_page (7 ∷ 9 ∷ 12 ∷ []) (new_connection 3 30) local (codes "HTTP")
      waiting-Ready local-OneLine (omega arith) page-AreClean page_small
