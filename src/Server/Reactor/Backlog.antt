-- ===== src/Server/Reactor/Backlog.antt =====
-- What becomes of an accept loop that stopped at the limit.
use rust_tcp_server.Base.{
  ℕ, ◌<◌, ◌≡◌, refl, ◌==◌, Bool, true, false, leb, Bool-cases, inl, inr, subst, sym, [], ◌∷◌, some,
  arith, length,
}
use rust_tcp_server.Base.Assoc.{remove_key_found}
use rust_tcp_server.Connection.{new_connection}
use rust_tcp_server.Server.Reactor.{
  edge, Event, for_read, Accept, accepted, none_pending, accept_error, watched, admit, after_accept,
  accept_ready, Reactor, Calls, drop_conn, accept_step, on_event, on_events, apply_backpressure,
}
use rust_tcp_server.Base.Extension.{unclaimed, Falls, loop_returns}
use rust_tcp_server.Base.Rounds.{ret}
use rust_tcp_server.Server.Table.{Slot, insert_slot, get_slot, table_len}

-- An accepted client leaves the backlog shorter.
abbrev pub Shrinks : {K L : Type 0} → (L → ℕ) → L → L × Accept K → Type 0
Shrinks backlog l (k, accepted fd stream ok) = backlog k < backlog l
Shrinks backlog l (k, none_pending) = Unit {0}
Shrinks backlog l (k, accept_error) = Unit {0}

module _ {K E L : Type 0} (calls : Calls K E L) where
  -- In a full reactor the accept loop returns without a call, its backlog not drained. If a connection
  -- hangs up later in the same batch, the reactor has room again before the limit is applied, so the
  -- listener is neither taken out nor put back: no call re-arms its edge, and the backlog waits for
  -- the next client.
  pub backlog_waits :
      (s : Reactor K E L) (v : Event) (slot : Slot K)
      → calls.max_connections ≡ length s.conns.slots
      → s.listener_registered ≡ true
      → (v.fd == calls.listener_fd) ≡ false
      → v.hup ≡ true
      → get_slot s.conns v.fd ≡ some slot
      → (accept_step calls v.at s ≡ (s, ret false))
        × (apply_backpressure calls (on_events calls s (v ∷ [])) ≡ drop_conn calls s v.fd)
  unfolding accept_step apply_backpressure on_events on_event drop_conn
  backlog_waits s v slot full listens other hup found =
      let room = remove_key_found v.fd slot s.conns.slots found in
      (ground arith, ground (arith, room))

  module _ (backlog : L → ℕ) (shrinks : (l : L) → Shrinks backlog l (calls.accept l)) where
    listener-watched :
        (t : Reactor K E L) (fd : ℕ) (x : E × Bool) → (watched calls t fd x).listener ≡ t.listener
    listener-watched t fd (e, true) = refl
    listener-watched t fd (e, false) = refl

    listener-admit :
        (now : ℕ) (t : Reactor K E L) (fd : ℕ) (stream : K)
        → (admit calls now t fd stream).listener ≡ t.listener
    listener-admit now t fd stream =
        let slot : Slot K = record {
          stream = stream;
          conn = new_connection now calls.read_timeout;
        } in
        listener-watched (record t { conns = insert_slot t.conns fd slot }) fd
          (calls.add t.epoll fd for_read edge)

    waiting : Reactor K E L → ℕ
    waiting s = backlog s.listener

    accept_step-Falls :
        (now : ℕ) (s : Reactor K E L)
        → Unit {0}
        → Falls (λ b. unclaimed) (λ t. Unit {0}) waiting s (accept_step calls now s)
    unfolding accept_step waiting
    accept_step-Falls now s u = elim (Bool-cases (leb calls.max_connections (table_len s.conns))) [
      | inl full ↦ rw full (λ e. cc)
      | inr free ↦ rw free (go (calls.accept s.listener) (shrinks s.listener))
    ]
      where
        go :
            (x : L × Accept K)
            → Shrinks backlog s.listener x
            → Falls (λ b. unclaimed) (λ t. Unit {0}) waiting s (after_accept calls now s x)
        go (l, accepted fd stream false) h = (tt, h)
        go (l, accepted fd stream true) h = (
          tt,
          subst (λ k. backlog k < backlog s.listener)
              (sym (listener-admit now (record s { listener = l }) fd stream)) h,
        )
        go (l, none_pending) h = λ e. cc
        go (l, accept_error) h = λ e. cc

    -- The accept loop returns, with fuel for one call more than there are clients in the backlog.
    pub accept_ready_returns :
        (now : ℕ) (s : Reactor K E L)
        → backlog s.listener < calls.accept_fuel s.listener
        → (t : Reactor K E L) × (b : Bool) × (accept_ready calls now s ≡ (t, ret b))
    unfolding accept_ready waiting
    accept_ready_returns now s l =
        loop_returns (λ b. unclaimed) (λ t. Unit {0}) waiting (accept_step calls now)
          (accept_step-Falls now) (calls.accept_fuel s.listener) s tt l
