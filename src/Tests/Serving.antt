-- ===== src/Tests/Serving.antt =====
-- The theorem on the blocking loop at a concrete input.
use rust_tcp_server.Base.{ℕ, zero, suc, ◌≡◌, refl, ap, arith, Bool, List, [], ◌∷◌, Bytes, length}
use rust_tcp_server.Base.Rounds.{ret}
use rust_tcp_server.Server.Blocking.Delivery.{Answered, Served, serve_connection-Served}
use rust_tcp_server.Server.Blocking.{Serving, serve_connection}
use rust_tcp_server.Tests.Connections.{respond}
use rust_tcp_server.Tests.Reactors.{client}
use rust_tcp_server.Tests.System.{
  Sock, read_in, sock_read, write_in, sock_write, sock_out, sock_moves, sock_pieces,
  sock_read_takes, sock_write_sends,
}

read-Answered : (k : Sock) → Answered sock_moves k (sock_read k)
read-Answered k = go k.chunks refl
  where
    go : (cs : List Bytes) → k.chunks ≡ cs → Answered sock_moves k (read_in k cs)
    go [] e = tt
    go ([] ∷ cs) e =
        let size : length k.chunks ≡ suc (length cs) = ap length e in omega (arith, size)
    go ((b ∷ bs) ∷ cs) e =
        let size : length k.chunks ≡ suc (length cs) = ap length e in omega (arith, size)

write-Answered : (k : Sock) (p : Bytes) → Answered sock_moves k (sock_write k p)
write-Answered k p = go k.room refl
  where
    go : (r : ℕ) → k.room ≡ r → Answered sock_moves k (write_in k r p)
    go zero e = tt
    go (suc r) e = omega (arith, e)

serve_connection-Served_example :
    (d : Serving Sock) × (b : Bool) × (serve_connection sock_read sock_write
        (λ k. 7)
        respond
        5
        30
        client
      ≡ (d, ret b))
    × Served sock_read sock_write
        (λ k. 7)
        sock_out
        sock_pieces
        sock_read_takes
        sock_write_sends
        respond
        (sock_out client)
        (sock_pieces client)
        b
        d
serve_connection-Served_example =
    serve_connection-Served sock_read sock_write (λ k. 7) sock_out sock_pieces sock_read_takes
      sock_write_sends sock_moves read-Answered write-Answered respond 5 30 client (omega arith)
