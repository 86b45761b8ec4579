-- ===== src/Server/Reactor/Steps.antt =====
-- Every step of the reactor leaves each live connection registered for what it waits for.
use rust_tcp_server.Base.{
  ℕ, ◌≡◌, ◌≢◌, refl, sym, ap, ◌∙◌, subst, ◌==◌, ==_iff, Bool, true, false, Bool-cases, inl, inr,
  Option, none, some,
}
use rust_tcp_server.Base.Assoc.{find_key, find_key-insert_key}
use rust_tcp_server.Connection.Actions.{action_in-want_read, action_in-want_write}
use rust_tcp_server.Connection.Invariant.{Inv}
use rust_tcp_server.Connection.{ConnAction, want_read, want_write, close, action_in}
use rust_tcp_server.Server.EventIo.Loop.{drive_io_ends}
use rust_tcp_server.Server.EventIo.{drive_io}
use rust_tcp_server.Server.Reactor.Watch.{
  interest_in, Watched, Sets, matches_interest_lem, Laws, Sound, drop_conn-Sound, put, put-SoundBut,
  Live, set-Sound,
}
use rust_tcp_server.Server.Reactor.{
  edge, Interest, for_read, for_write, matches_interest, Reactor, Calls, reregistered, watch_for,
  apply_action, after_io, drive_slot, drive,
}
use rust_tcp_server.Server.Table.{Slot, get_slot}

module _ {K E L : Type 0} (calls : Calls K E L) (laws : Laws calls) where
  -- The reactor with a slot whose connection now waits for `next`.
  watch_for-Sound :
      (s : Reactor K E L) (fd : ℕ) (old slot : Slot K) (next : Interest)
      → Sound calls laws s
      → get_slot s.conns fd ≡ some old
      → Live calls laws slot.conn next
      → Sound calls laws (watch_for calls (put calls laws s fd slot) fd next)
  watch_for-Sound s fd old slot next h o l =
      elim (Bool-cases (matches_interest (find_key fd s.wants) next)) [
        | inl same ↦ rw same (λ q. elim (Bool-cases (fd == q)) [
          | inl y ↦
              let w = matches_interest_lem (find_key fd s.wants) next same in
              let e : fd ≡ q = (==_iff fd q).0 y in
              let r : laws.registered s.epoll fd ≡ find_key fd s.wants =
                (subst (λ x. Watched x (find_key fd s.wants) (laws.registered s.epoll fd)) o
                  (h fd)).3 in
              rw (find_key-insert_key fd q slot s.conns.slots, y)
                (subst (λ k. Watched (some slot) (find_key k s.wants) (laws.registered s.epoll k)) e
                  (l.0, l.1, w ∙ l.2, r))
          | inr n ↦ put-SoundBut calls laws s fd slot (λ k _. h k) q n
        ])
        | inr other ↦
            rw other (go (calls.modify s.epoll fd next edge) (laws.modify_sets s.epoll fd next))
      ]
    where
      go :
          (x : E × Bool)
          → Sets laws.registered s.epoll fd next x
          → Sound calls laws (reregistered calls (put calls laws s fd slot) fd next x)
      go (e, true) r = set-Sound calls laws s fd slot next e (λ q _. h q) l r
      go (e, false) r =
          drop_conn-Sound calls laws (record (put calls laws s fd slot) { epoll = e }) fd
            (λ q n. rw (find_key-insert_key fd q slot s.conns.slots, r q, n) (h q))

  apply_action-Sound :
      (s : Reactor K E L) (fd : ℕ) (old slot : Slot K) (a : ConnAction)
      → Sound calls laws s
      → get_slot s.conns fd ≡ some old
      → Inv slot.conn
      → (a ≢ close → a ≡ action_in slot.conn.state)
      → Sound calls laws (apply_action calls (put calls laws s fd slot) fd a)
  apply_action-Sound s fd old slot want_read h o v m =
      let e = action_in-want_read slot.conn.state (sym (m (λ x. cc))) in
      watch_for-Sound s fd old slot for_read h o (v, λ c. cc, ap interest_in (sym e))
  apply_action-Sound s fd old slot want_write h o v m =
      let e = action_in-want_write slot.conn.state (sym (m (λ x. cc))) in
      watch_for-Sound s fd old slot for_write h o (v, λ c. cc, ap interest_in (sym e))
  apply_action-Sound s fd old slot close h o v m =
      drop_conn-Sound calls laws (put calls laws s fd slot) fd
        (put-SoundBut calls laws s fd slot (λ q _. h q))

  -- A slot is driven through an event, drained or not.
  pub after_io-Sound :
      (now : ℕ) (drain : Bool) (s : Reactor K E L) (fd : ℕ) (slot : Slot K)
      → get_slot s.conns fd ≡ some slot
      → Sound calls laws s
      → Sound calls laws (
          after_io calls s fd (
            drive_io calls.read calls.write calls.respond now drain
              (calls.io_fuel slot.stream)
              slot.stream
              slot.conn
              s.metrics))
  after_io-Sound now drain s fd slot e h =
      let live =
        subst (λ x. Watched x (find_key fd s.wants) (laws.registered s.epoll fd)) e (h fd) in
      let (d, a, r, v, acts) =
        drive_io_ends calls.read calls.write laws.moves laws.read_moves laws.write_moves
          calls.respond now drain (calls.io_fuel slot.stream) slot.stream slot.conn s.metrics live.0
          live.1 (laws.enough slot.stream) in
      rw r (
        apply_action-Sound (record s { metrics = d.metrics }) fd slot
          (record { stream = d.stream; conn = d.conn }) a h e v acts)

  drive_slot-Sound :
      (now : ℕ) (s : Reactor K E L) (fd : ℕ) (o : Option (Slot K))
      → get_slot s.conns fd ≡ o
      → Sound calls laws s
      → Sound calls laws (drive_slot calls now s fd o)
  drive_slot-Sound now s fd none e h = h
  drive_slot-Sound now s fd (some slot) e h = after_io-Sound now true s fd slot e h

  pub drive-Sound :
      (now : ℕ) (s : Reactor K E L) (fd : ℕ)
      → Sound calls laws s
      → Sound calls laws (drive calls now s fd)
  unfolding drive
  drive-Sound now s fd h = drive_slot-Sound now s fd (get_slot s.conns fd) refl h
