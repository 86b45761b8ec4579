-- ===== src/Server/Uring/Flight/Rounds.antt =====
-- An iteration of the loop of io_uring.rs.
use rust_tcp_server.Base.{
  ℕ, ◌+◌, ◌<◌, ◌^◌, ◌≡◌, ◌≢◌, refl, sym, ap, ◌∙◌, subst, List, [], ◌∷◌, Bool, true, false,
  Bool-cases, inl, inr, ◌==◌, ==_iff, arith,
}
use rust_tcp_server.Base.Assoc.{find_key}
use rust_tcp_server.Server.Uring.Flight.Pushes.{push_sqe-Added, due_other, Busy-same}
use rust_tcp_server.Server.Uring.Flight.Steps.{
  accept_done-Driven, recv_done-Driven, send_done-Driven,
}
use rust_tcp_server.Server.Uring.Flight.Finished.{recv-Spare, send-Spare, finished_others}
use rust_tcp_server.Server.Uring.Flight.{
  New, Completed, GenuineBatch, GenuineWait, Genuine, carried, RingLaws, Driven, Known, Honest,
}
use rust_tcp_server.Server.Uring.Words.{op_accept, op_recv, op_send, pack, unpack, unpack-pack}
use rust_tcp_server.Server.Uring.{
  rearm, arm_accept, accept_sqe, armed, drained, after_wait, Wait, woken, retry, drain_cqes,
  uring_once, Cqe, RingCalls, Runtime, stopped, on_accept, on_recv, on_send, on_cqe, on_cqes,
}

module _ {R : Type 0} (calls : RingCalls R) (laws : RingLaws calls) where
  stopped-Driven :
      (cs : List Cqe) (rt : Runtime R) (more : Bool)
      → Driven calls laws cs rt
      → Driven calls laws cs (stopped calls rt more)
  stopped-Driven cs rt more h = elim (Bool-cases more) [ inl e ↦ rw e h | inr e ↦ rw e h ]

  on_accept-Driven :
      (c : Cqe) (cs : List Cqe) (rt : Runtime R)
      → Driven calls laws cs rt
      → New c.result rt.conns
      → Driven calls laws cs (on_accept calls rt c)
  unfolding on_accept
  on_accept-Driven c cs rt h n = elim (Bool-cases c.more) [
    | inl e ↦ rw e (accept_done-Driven calls laws cs rt c.at c.result h n)
    | inr e ↦
        rw e
          (accept_done-Driven calls laws cs (record rt { accept_armed = false }) c.at c.result h n)
  ]

  -- A completion of another operation is none of a connection's.
  skipped-Driven :
      (c : Cqe) (cs : List Cqe) (rt : Runtime R) (op fd : ℕ)
      → Driven calls laws (c ∷ cs) rt
      → op < 256
      → fd < 2 ^ 32
      → c.user_data ≡ pack op fd
      → op ≢ op_recv
      → op ≢ op_send
      → Driven calls laws cs rt
  skipped-Driven c cs rt op fd h small l w nr ns = (
    λ q k.
        finished_others calls laws c cs rt op fd h small l w q k
          (λ j m s. elim m [ inl e ↦ nr (s.0 ∙ e) | inr e ↦ ns (s.0 ∙ e) ]),
    h.1,
  )

  on_cqe-Driven :
      (c : Cqe) (cs : List Cqe) (rt : Runtime R)
      → Driven calls laws (c ∷ cs) rt
      → Known c rt.conns
      → Driven calls laws cs (on_cqe calls rt c)
  unfolding on_cqe on_recv on_send
  on_cqe-Driven c cs rt h (op, fd, small, l, w, n) =
      let known : unpack c.user_data ≡ (op, fd) = ap unpack w ∙ unpack-pack op fd small l in
      rw known (elim (Bool-cases (op == op_accept)) [
        | inl a ↦
            let e = (==_iff op op_accept).0 a in
            rw a (
              on_accept-Driven c cs rt
                (skipped-Driven c cs rt op fd h small l w (λ s. ground arith) (λ s. ground arith))
                (n e))
        | inr na ↦ rw na (elim (Bool-cases (op == op_recv)) [
          | inl a ↦
              let e = (==_iff op op_recv).0 a in
              let (d, found, ready, sp) =
                recv-Spare calls laws c cs rt fd h l (w ∙ ap (λ k. pack k fd) e) in
              rw a (recv_done-Driven calls laws cs c.at rt fd c.buffer c.result d sp found ready)
          | inr nr ↦ rw nr (elim (Bool-cases (op == op_send)) [
            | inl a ↦
                let e = (==_iff op op_send).0 a in
                let (d, found, ready, sp) =
                  send-Spare calls laws c cs rt fd h l (w ∙ ap (λ k. pack k fd) e) in
                rw a (send_done-Driven calls laws cs c.at rt fd c.result d sp found ready)
            | inr ns ↦
                rw ns
                  (skipped-Driven c cs rt op fd h small l w (λ s. ground arith) (λ s. ground arith))
          ])
        ])
      ])

  on_cqes-Driven :
      (rt : Runtime R) (cs : List Cqe)
      → Driven calls laws cs rt
      → Honest calls laws rt cs
      → Driven calls laws [] (on_cqes calls rt cs)
  unfolding on_cqes
  on_cqes-Driven rt [] h t = h
  on_cqes-Driven rt (c ∷ cs) h (k, t) =
      on_cqes-Driven (on_cqe calls rt c) cs (on_cqe-Driven c cs rt h k) t

  arm_accept-Driven :
      (rt : Runtime R)
      → calls.listener_fd < 2 ^ 32
      → Driven calls laws [] rt
      → Driven calls laws [] (arm_accept calls rt)
  unfolding arm_accept
  arm_accept-Driven rt l (busy, far) =
      let e = accept_sqe calls in
      let (r, pushed, added) = push_sqe-Added calls laws rt e in
      subst (λ x. Driven calls laws [] (armed calls x)) (sym pushed)
        (
          λ q k.
              Busy-same calls laws (find_key q rt.conns) _ _ _ _
                (due_other calls laws [] rt e r op_accept op_recv calls.listener_fd q added refl
                  (omega arith) (omega arith) l k (λ s. absurd (omega (arith, s.0))))
                (due_other calls laws [] rt e r op_accept op_send calls.listener_fd q added refl
                  (omega arith) (omega arith) l k (λ s. absurd (omega (arith, s.0))))
                (busy q k),
          far,
        )

  rearm-Driven :
      (b : Bool) (rt : Runtime R)
      → calls.listener_fd < 2 ^ 32
      → Driven calls laws [] rt
      → Driven calls laws [] (rearm calls b rt)
  rearm-Driven true rt l h = h
  rearm-Driven false rt l h = arm_accept-Driven rt l h

  drained-Driven :
      (rt : Runtime R) (x : R × (ℕ → ℕ) × List Cqe)
      → Driven calls laws [] rt
      → Completed laws.flight rt.ring x
      → GenuineBatch calls laws rt x
      → Driven calls laws [] (drained calls rt x)
  unfolding carried
  drained-Driven rt (r, pool, cqes) (busy, far) k g =
      on_cqes-Driven (record rt { ring = r; br = record rt.br { pool = pool } }) cqes
        (
          λ q l.
              Busy-same calls laws (find_key q rt.conns) _ _ _ _ (omega (arith, (k q).0))
                (omega (arith, (k q).1)) (busy q l),
          far,
        )
        g

  moved-Driven :
      (rt : Runtime R) (r : R)
      → Driven calls laws [] rt
      → ((w : ℕ) → laws.flight r w ≡ laws.flight rt.ring w)
      → Driven calls laws [] (record rt { ring = r })
  moved-Driven rt r (busy, far) k = (
    λ q l.
        Busy-same calls laws (find_key q rt.conns) _ _ _ _
          (ap (λ x. carried (pack op_recv q) [] + x) (k _))
          (ap (λ x. carried (pack op_send q) [] + x) (k _)) (busy q l),
    far,
  )

  after_wait-Driven :
      (rt : Runtime R) (x : R × Wait)
      → Driven calls laws [] rt
      → ((w : ℕ) → laws.flight x.0 w ≡ laws.flight rt.ring w)
      → GenuineWait calls laws rt x
      → Driven calls laws [] (after_wait calls rt x)
  unfolding drain_cqes
  after_wait-Driven rt (r, woken) h k g =
      let s = record rt { ring = r } in
      drained-Driven s (calls.completions r rt.br.pool) (moved-Driven rt r h k)
        (laws.completed r rt.br.pool) g
  after_wait-Driven rt (r, retry) h k g = moved-Driven rt r h k

  -- An iteration keeps this, however the kernel orders the completions and whatever they report:
  -- each connection in the table satisfies its invariant, is not closed, and has exactly one
  -- operation in flight, a `recv` if it reads and a `send` if it writes; a descriptor that has no
  -- connection has none. So no connection is left waiting for nothing, and no two operations run
  -- on one. The ring is one that has room after a submission and completes each `recv` and `send`
  -- once, under its own word; what is accepted is the descriptor of no connection; and a response
  -- fits in the length of a `send`.
  pub uring_once-Driven :
      (rt : Runtime R)
      → calls.listener_fd < 2 ^ 32
      → Driven calls laws [] rt
      → Genuine calls laws rt
      → Driven calls laws [] (uring_once calls rt)
  unfolding uring_once
  uring_once-Driven rt l h g =
      let s = rearm calls rt.accept_armed rt in
      after_wait-Driven s (calls.submit_with_args s.ring) (rearm-Driven rt.accept_armed rt l h)
        (laws.waited s.ring) g
