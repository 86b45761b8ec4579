-- ===== src/Connection/Actions.antt =====
-- The action that a connection returns is the one of its state, and what it has pending is its state.
use rust_tcp_server.Base.{ℕ, ◌<◌, ◌≡◌, refl, subst, [], arith, Bytes, length, length-drop}
use rust_tcp_server.Connection.Invariant.{InvIn, Inv}
use rust_tcp_server.Connection.{
  want_read, want_write, ConnState, reading, writing, closed, Connection, action_in, pending_write,
  handle_status, on_bytes, on_bytes_in, on_written, on_written_in,
}
use rust_tcp_server.Http.Parser.{push}
use rust_tcp_server.Http.Request.{Request}
use rust_tcp_server.Http.Response.{Response}
use rust_tcp_server.Http.State.{ParseStatus, incomplete, complete, failed}

module _ (respond : Request → Response) where
  handle_status-action :
      (c : Connection) (s : ParseStatus)
      → (handle_status respond c s).1 ≡ action_in (handle_status respond c s).0.state
  unfolding handle_status
  handle_status-action c incomplete = refl
  handle_status-action c (complete r n) = refl
  handle_status-action c (failed e) = refl

  on_bytes_in-action :
      (s : ConnState) (c : Connection) (bytes : Bytes)
      → c.state ≡ s
      → (on_bytes_in respond s c bytes).1 ≡ action_in (on_bytes_in respond s c bytes).0.state
  on_bytes_in-action reading c bytes e =
      handle_status-action (record c { parser = (push c.parser bytes).0 }) (push c.parser bytes).1
  on_bytes_in-action writing c bytes e = rw e refl
  on_bytes_in-action closed c bytes e = rw e refl

  pub on_bytes-action :
      (c : Connection) (bytes : Bytes)
      → (on_bytes respond c bytes).1 ≡ action_in (on_bytes respond c bytes).0.state
  unfolding on_bytes
  on_bytes-action c bytes = on_bytes_in-action c.state c bytes refl

on_written_in-action :
    (s : ConnState) (now : ℕ) (c : Connection) (n : ℕ)
    → c.state ≡ s
    → (on_written_in s now c n).1 ≡ action_in (on_written_in s now c n).0.state
on_written_in-action writing now c n e = ground arith
on_written_in-action reading now c n e = rw e refl
on_written_in-action closed now c n e = rw e refl

pub on_written-action :
    (now : ℕ) (c : Connection) (n : ℕ)
    → (on_written now c n).1 ≡ action_in (on_written now c n).0.state
unfolding on_written
on_written-action now c n = on_written_in-action c.state now c n refl

pub action_in-want_read : (s : ConnState) → action_in s ≡ want_read → s ≡ reading
action_in-want_read reading e = refl
action_in-want_read writing e = cc
action_in-want_read closed e = cc

pub action_in-want_write : (s : ConnState) → action_in s ≡ want_write → s ≡ writing
action_in-want_write reading e = cc
action_in-want_write writing e = refl
action_in-want_write closed e = cc

pub pending_write_reading : (c : Connection) → c.state ≡ reading → pending_write c ≡ []
unfolding pending_write
pending_write_reading c e = rw e refl

-- A writing connection has something to write.
pub pending_write_writing :
    (c : Connection) → Inv c → c.state ≡ writing → 0 < length (pending_write c)
unfolding pending_write
pending_write_writing c v e =
    let low = (subst (λ s. InvIn s c) e v).0 in
    rw e (omega (arith, length-drop c.write_pos c.write_buf))
