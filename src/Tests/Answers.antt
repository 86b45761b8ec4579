-- ===== src/Tests/Answers.antt =====
-- The theorems on responses, header fields and routes at concrete inputs.
use rust_tcp_server.Base.{
  false, arith, Bytes, ◌≤◌, ℕ, ◌≡◌, true, ◌&&◌, some, ◌++◌, codes, length, if◌then◌else◌,
}
use rust_tcp_server.Http.Headers.{Headers, no_headers, insert_header}
use rust_tcp_server.Http.Method.{get, same_method}
use rust_tcp_server.Http.Response.Framing.{Framed, encode-Framed}
use rust_tcp_server.Http.Response.{
  Response, new_response, text_response, with_header, encode, body_bytes,
}
use rust_tcp_server.Http.Status.{not_found}
use rust_tcp_server.Router.Lookup.{lookup_route-insert_route}
use rust_tcp_server.Router.Segments.{segments, same_segments}
use rust_tcp_server.Text.Number.{usize_max}
use rust_tcp_server.Router.{Router, new_router, insert_route, lookup_route}

-- A response that tries to set a field of the encoder.
abbrev lost : Response
lost = with_header (text_response not_found (codes "gone")) (codes "content-LENGTH") (codes "9")

lost_small : length (body_bytes lost.body) ≤ usize_max
unfolding with_header text_response new_response insert_header
lost_small = omega arith

lost_code : lost.status.code ≤ usize_max
unfolding with_header text_response new_response
lost_code = omega arith

encode-Framed_example :
    (h : Bytes) × Framed lost true h
    × (encode lost true true (codes "before") ≡ codes "before" ++ (h ++ body_bytes lost.body))
    × (encode lost true false (codes "before") ≡ codes "before" ++ h)
encode-Framed_example = encode-Framed lost true (codes "before") lost_code lost_small

abbrev fields : Headers
fields = insert_header no_headers (codes "Host") (codes "x")

abbrev router : Router ℕ
router = insert_route new_router get (codes "/a") 1

lookup_route-insert_route_example :
    lookup_route (insert_route router get (codes "/b") 2) get (codes "/a/") ≡ (
      if same_method get get && same_segments (segments (codes "/b")) (segments (codes "/a/"))
      then some 2
      else lookup_route router get (codes "/a/"))
lookup_route-insert_route_example =
    lookup_route-insert_route router get get (codes "/b") (codes "/a/") 2
