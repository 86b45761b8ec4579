-- ===== src/Server/Uring/Flight/Finished.antt =====
-- What a completion takes out of flight.
use rust_tcp_server.Base.{
  ℕ, suc, ◌+◌, ◌<◌, ◌^◌, ◌≡◌, ◌⊎◌, refl, List, ◌∷◌, Option, none, some, true, inl, inr, ◌==◌,
  ==_iff, arith,
}
use rust_tcp_server.Base.Assoc.{find_key}
use rust_tcp_server.Connection.{ConnState, reading, writing, closed, Connection}
use rust_tcp_server.Server.Uring.Flight.Pushes.{pack_other, Spare, Ready}
use rust_tcp_server.Server.Uring.Flight.{carried, RingLaws, Busy, due, BusyAt, Driven}
use rust_tcp_server.Server.Uring.Words.{op_recv, op_send, pack}
use rust_tcp_server.Server.Uring.{Cqe, RingCalls, Runtime}

module _ {R : Type 0} (calls : RingCalls R) (laws : RingLaws calls) where
  pub finished_others :
      (c : Cqe) (cs : List Cqe) (rt : Runtime R) (op fd : ℕ)
      → Driven calls laws (c ∷ cs) rt
      → op < 256
      → fd < 2 ^ 32
      → c.user_data ≡ pack op fd
      → (q : ℕ) → q < 2 ^ 32
      → ((k : ℕ) → (k ≡ op_recv) ⊎ (k ≡ op_send) → (op ≡ k) × (fd ≡ q) → ⊥)
      → BusyAt calls laws cs rt q
  unfolding carried
  finished_others c cs rt op fd (busy, far) small l w q k n =
      let r =
        pack_other calls laws op op_recv fd q small (omega arith) l k (n op_recv (inl refl)) in
      let s =
        pack_other calls laws op op_send fd q small (omega arith) l k (n op_send (inr refl)) in
      (rw (w, r, s) at (busy q k))

  Busy-recv :
      (o : Option Connection) (t r s : ℕ)
      → t ≡ suc r
      → Busy o t s
      → (d : Connection) × (o ≡ some d) × Ready calls laws d × (r ≡ 0) × (s ≡ 0)
  Busy-recv none t r s n (h, k) = absurd (omega (arith, h, n))
  Busy-recv (some d) t r s n (v, o, b, h, k) = go d.state refl
    where
      go :
          (st : ConnState)
          → d.state ≡ st
          → (c : Connection) × (some d ≡ some c) × Ready calls laws c × (r ≡ 0) × (s ≡ 0)
      go reading e =
          let one : t ≡ 1 = rw e at h in (d, refl, (v, o, b), omega (arith, one), rw e at k)
      go writing e = (let no_recv : t ≡ 0 = rw e at h in absurd (omega (arith, no_recv)))
      go closed e = absurd (o e)

  Busy-send :
      (o : Option Connection) (t r s : ℕ)
      → t ≡ suc s
      → Busy o r t
      → (d : Connection) × (o ≡ some d) × Ready calls laws d × (r ≡ 0) × (s ≡ 0)
  Busy-send none t r s n (h, k) = absurd (omega (arith, k, n))
  Busy-send (some d) t r s n (v, o, b, h, k) = go d.state refl
    where
      go :
          (st : ConnState)
          → d.state ≡ st
          → (c : Connection) × (some d ≡ some c) × Ready calls laws c × (r ≡ 0) × (s ≡ 0)
      go reading e = (let no_send : t ≡ 0 = rw e at k in absurd (omega (arith, no_send)))
      go writing e =
          let one : t ≡ 1 = rw e at k in (d, refl, (v, o, b), rw e at h, omega (arith, one))
      go closed e = absurd (o e)

  -- The completion of a `recv` or a `send` takes it out of flight, and was the only one.
  pub recv-Spare :
      (c : Cqe) (cs : List Cqe) (rt : Runtime R) (fd : ℕ)
      → Driven calls laws (c ∷ cs) rt
      → fd < 2 ^ 32
      → c.user_data ≡ pack op_recv fd
      → (d : Connection) × (find_key fd rt.conns ≡ some d)
        × Ready calls laws d
        × Spare calls laws cs fd rt
  unfolding carried
  recv-Spare c cs rt fd (busy, far) l w =
      let self : (pack op_recv fd == pack op_recv fd) ≡ true = (==_iff _ _).1 refl in
      let other =
        pack_other calls laws op_recv op_send fd fd (omega arith) (omega arith) l l
          (λ s. absurd (omega (arith, s.0))) in
      let h : Busy (find_key fd rt.conns)
          (suc (carried (pack op_recv fd) cs) + laws.flight rt.ring (pack op_recv fd))
          (due calls laws cs rt (pack op_send fd)) =
        rw (w, self, other) at (busy fd l) in
      let (d, found, ready, r, s) =
        Busy-recv (find_key fd rt.conns)
          (suc (carried (pack op_recv fd) cs) + laws.flight rt.ring (pack op_recv fd))
          (due calls laws cs rt (pack op_recv fd)) (due calls laws cs rt (pack op_send fd))
          (omega arith) h in
      (
        d,
        found,
        ready,
        (
          l,
          λ q k n.
              finished_others c cs rt op_recv fd (busy, far) (omega arith) l w q k
                (λ j _ s. cc (n, (==_iff fd q).1 s.1)),
          far,
          r,
          s,
        ),
      )

  pub send-Spare :
      (c : Cqe) (cs : List Cqe) (rt : Runtime R) (fd : ℕ)
      → Driven calls laws (c ∷ cs) rt
      → fd < 2 ^ 32
      → c.user_data ≡ pack op_send fd
      → (d : Connection) × (find_key fd rt.conns ≡ some d)
        × Ready calls laws d
        × Spare calls laws cs fd rt
  unfolding carried
  send-Spare c cs rt fd (busy, far) l w =
      let self : (pack op_send fd == pack op_send fd) ≡ true = (==_iff _ _).1 refl in
      let other =
        pack_other calls laws op_send op_recv fd fd (omega arith) (omega arith) l l
          (λ s. absurd (omega (arith, s.0))) in
      let h : Busy (find_key fd rt.conns) (due calls laws cs rt (pack op_recv fd))
          (suc (carried (pack op_send fd) cs) + laws.flight rt.ring (pack op_send fd)) =
        rw (w, self, other) at (busy fd l) in
      let (d, found, ready, r, s) =
        Busy-send (find_key fd rt.conns)
          (suc (carried (pack op_send fd) cs) + laws.flight rt.ring (pack op_send fd))
          (due calls laws cs rt (pack op_recv fd)) (due calls laws cs rt (pack op_send fd))
          (omega arith) h in
      (
        d,
        found,
        ready,
        (
          l,
          λ q k n.
              finished_others c cs rt op_send fd (busy, far) (omega arith) l w q k
                (λ j _ s. cc (n, (==_iff fd q).1 s.1)),
          far,
          r,
          s,
        ),
      )
