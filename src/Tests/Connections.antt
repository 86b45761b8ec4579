-- ===== src/Tests/Connections.antt =====
-- The theorems on connections at concrete inputs.
use rust_tcp_server.Base.{
  true, arith, ◌≤◌, ◌≡◌, refl, false, not, [], ◌∷◌, ◌++◌, Bytes, codes, length,
}
use rust_tcp_server.App.{App, handle, new_metrics}
use rust_tcp_server.Assets.{empty_cache}
use rust_tcp_server.Connection.Answered.{
  after_parts, AreParts, Follows, written_out, on_written-Follows,
}
use rust_tcp_server.Connection.Exchange.{feed, feed-is_expired, on_written_part}
use rust_tcp_server.Connection.Invariant.{Inv, new_connection-Inv, on_bytes-Inv, on_written-Inv}
use rust_tcp_server.Connection.Pipelining.{pipelined_request_waits}
use rust_tcp_server.Connection.{
  Connection, want_read, want_write, reading, writing, new_connection, pending_write, on_bytes,
  on_written, is_expired,
}
use rust_tcp_server.Http.Method.{get, head, same_method}
use rust_tcp_server.Http.Parser.{push}
use rust_tcp_server.Http.Request.{Request, wants_keep_alive, connection_has, any_token}
use rust_tcp_server.Http.Response.Layout.{encode_layout}
use rust_tcp_server.Http.Response.{Response, text_response, encode}
use rust_tcp_server.Http.State.{RequestParser, new_parser, complete}
use rust_tcp_server.Http.Status.{ok_status}
use rust_tcp_server.Router.{new_router, insert_route}
use rust_tcp_server.Tests.Requests.{hello, hello_request, push_runs}

-- An app with one route, whose handler is the text that it answers.
abbrev app : App Bytes
app = record {
  router = insert_route new_router get (codes "/a") (codes "A");
  assets = empty_cache;
  metrics = new_metrics;
}

abbrev pub respond : Request → Response
respond = handle (λ text req a. text_response ok_status text) app

abbrev pub opened : Connection
opened = new_connection 7 30

pub opened_reading : opened.state ≡ reading
unfolding new_connection
opened_reading = refl

-- Two requests in one read.
abbrev pub twice : Bytes
twice = hello ++ hello

abbrev answering : Connection
answering = (on_bytes respond opened twice).0

on_bytes-Inv_example : Inv answering
on_bytes-Inv_example = on_bytes-Inv respond opened twice (new_connection-Inv 7 30)

on_written-Inv_example : Inv (on_written 9 answering 20).0
on_written-Inv_example =
    on_written-Inv 9 answering 20 (on_bytes-Inv respond opened twice (new_connection-Inv 7 30))

answering_writing : answering.state ≡ writing
unfolding push_runs on_bytes new_connection
answering_writing = refl

feed-is_expired_example :
    is_expired (feed respond opened (codes "G" ∷ codes "E" ∷ [])) 40 ≡ is_expired opened 40
feed-is_expired_example = feed-is_expired respond opened (codes "G" ∷ codes "E" ∷ []) 40

answering_pending : pending_write answering ≡ encode (respond hello_request) true true []
unfolding push_runs on_bytes new_connection pending_write wants_keep_alive connection_has any_token
    same_method
answering_pending = refl

answering_long : 9 ≤ length (pending_write answering)
answering_long =
    rw (answering_pending, encode_layout (respond hello_request) true true []) (omega arith)

-- The answer to the first of the two is written in three parts.
two_parts-AreParts : AreParts 9 answering (5 ∷ 3 ∷ [])
two_parts-AreParts =
    let rest =
      (on_written_part 9 answering 5 answering_writing (omega (arith, answering_long))).2 in
    (omega (arith, answering_long), (omega (arith, answering_long, rest), tt))

on_written-Follows_example :
    Follows 9 opened
      (push opened.parser twice)
      (written_out 9 (after_parts 9 answering (5 ∷ 3 ∷ [])))
on_written-Follows_example =
    on_written-Follows respond 9 opened twice (5 ∷ 3 ∷ []) (new_connection-Inv 7 30) opened_reading
      two_parts-AreParts

answering_keeps : answering.close_after_write ≡ false
unfolding push_runs on_bytes new_connection wants_keep_alive connection_has any_token
answering_keeps = refl

abbrev second : RequestParser
second = (push (record new_parser { buf = answering.parser.buf }) []).0

second_completes :
    push (record new_parser { buf = answering.parser.buf }) [] ≡ (second, complete hello_request 45)
unfolding push_runs on_bytes new_connection
second_completes = refl

pipelined_request_waits_example :
    let d = on_written 9 answering (length (pending_write answering)) in
    let next = on_bytes respond d.0 [] in
    (d.1 ≡ want_read)
    × (pending_write d.0 ≡ [])
    × (next.1 ≡ want_write)
    × (pending_write next.0
        ≡ encode
            (respond hello_request)
            (wants_keep_alive hello_request)
            (not (same_method hello_request.method head))
            [])
pipelined_request_waits_example =
    pipelined_request_waits respond 9 answering second hello_request 45
      (on_bytes-Inv respond opened twice (new_connection-Inv 7 30)) answering_writing
      answering_keeps second_completes
