-- ===== src/Server/Uring/Flight/Pushes.antt =====
-- What the submissions of io_uring.rs put in flight.
use rust_tcp_server.Base.{
  ℕ, suc, ◌+◌, ◌<◌, ◌≤◌, ◌^◌, ◌≡◌, ◌≢◌, refl, sym, ap, ◌∙◌, subst, List, Option, none, some, Bool,
  true, false, Bool-cases, inl, inr, ◌==◌, ==_iff, if◌then◌else◌, Bytes, length, arith,
}
use rust_tcp_server.Base.Assoc.{find_key}
use rust_tcp_server.Connection.Invariant.{Inv}
use rust_tcp_server.Connection.{reading, writing, closed, Connection}
use rust_tcp_server.Server.Uring.Flight.{carried, Pushed, RingLaws, Busy, due, BusyAt, Driven}
use rust_tcp_server.Server.Uring.Words.{op_recv, op_send, op_close, pack, unpack, unpack-pack}
use rust_tcp_server.Server.Uring.{
  Sqe, Cqe, RingCalls, Runtime, retried, first_push, push_sqe, submit_recv, submit_close, recv_sqe,
  close_sqe, send_sqe,
}

pack_same :
    (a b p q : ℕ)
    → a < 256
    → b < 256
    → p < 2 ^ 32
    → q < 2 ^ 32
    → pack a p ≡ pack b q
    → (a ≡ b) × (p ≡ q)
pack_same a b p q la lb lp lq e =
    let same = sym (unpack-pack a p la lp) ∙ ap unpack e ∙ unpack-pack b q lb lq in
    (ap (λ x. x.0) same, ap (λ x. x.1) same)

module _ {R : Type 0} (calls : RingCalls R) (laws : RingLaws calls) where
  abbrev pub Added : Runtime R → Sqe → R → Type 0
  Added rt e r =
      (w : ℕ)
      → laws.flight r w
        ≡ (if e.user_data == w then suc (laws.flight rt.ring w) else laws.flight rt.ring w)

  -- A push succeeds, at once or after a submission.
  pub push_sqe-Added :
      (rt : Runtime R) (e : Sqe)
      → (r : R) × (push_sqe calls rt e ≡ (record rt { ring = r }, true)) × Added rt e r
  unfolding push_sqe
  push_sqe-Added rt e = go (calls.push rt.ring e) (laws.pushed rt.ring e)
    where
      again :
          (s : R) (x : R × Bool)
          → ((w : ℕ) → laws.flight s w ≡ laws.flight rt.ring w)
          → x.1 ≡ true
          → Pushed laws.flight (calls.submit s) e x
          → (r : R) × (retried calls rt e x ≡ (record rt { ring = r }, true)) × Added rt e r
      again s (r, true) k t p = (r, refl, λ w. p w ∙ rw (laws.submitted s w, k w) refl)
      again s (r, false) k t p = cc

      go :
          (x : R × Bool)
          → Pushed laws.flight rt.ring e x
          → (r : R) × (first_push calls rt e x ≡ (record rt { ring = r }, true)) × Added rt e r
      go (r, true) p = (r, refl, p)
      go (r, false) p =
          again r (calls.push (calls.submit r) e) p (laws.room r e) (laws.pushed (calls.submit r) e)

  -- Every connection but that of `fd` has its operation in flight, and `fd` has none.
  abbrev pub Spare : List Cqe → ℕ → Runtime R → Type 0
  Spare cs fd rt =
      (fd < 2 ^ 32)
      × ((q : ℕ) → q < 2 ^ 32 → (fd == q) ≡ false → BusyAt calls laws cs rt q)
      × ((q : ℕ) → 2 ^ 32 ≤ q → find_key q rt.conns ≡ none)
      × (due calls laws cs rt (pack op_recv fd) ≡ 0)
      × (due calls laws cs rt (pack op_send fd) ≡ 0)

  pub pack_other :
      (a b p q : ℕ)
      → a < 256
      → b < 256
      → p < 2 ^ 32
      → q < 2 ^ 32
      → ((a ≡ b) × (p ≡ q) → ⊥)
      → (pack a p == pack b q) ≡ false
  pack_other a b p q la lb lp lq n = elim (Bool-cases (pack a p == pack b q)) [
    | inl y ↦ absurd (n (pack_same a b p q la lb lp lq ((==_iff _ _).0 y)))
    | inr n ↦ n
  ]

  pub due_other :
      (cs : List Cqe) (rt : Runtime R) (e : Sqe) (r : R) (a b p q : ℕ)
      → Added rt e r
      → e.user_data ≡ pack a p
      → a < 256
      → b < 256
      → p < 2 ^ 32
      → q < 2 ^ 32
      → ((a ≡ b) × (p ≡ q) → ⊥)
      → due calls laws cs (record rt { ring = r }) (pack b q) ≡ due calls laws cs rt (pack b q)
  due_other cs rt e r a b p q added w la lb lp lq n =
      let apart = pack_other a b p q la lb lp lq n in
      ap (λ x. carried (pack b q) cs + x) (added (pack b q) ∙ rw (w, apart) refl)

  due_same :
      (cs : List Cqe) (rt : Runtime R) (e : Sqe) (r : R) (w : ℕ)
      → Added rt e r
      → e.user_data ≡ w
      → due calls laws cs (record rt { ring = r }) w ≡ suc (due calls laws cs rt w)
  due_same cs rt e r w added h =
      let same : (e.user_data == w) ≡ true = (==_iff _ _).1 h in
      let more : laws.flight r w ≡ suc (laws.flight rt.ring w) = added w ∙ rw same refl in
      omega (arith, more)

  pub Busy-same : (o : Option Connection) (r s t u : ℕ) → t ≡ r → u ≡ s → Busy o r s → Busy o t u
  Busy-same o r s t u p q h = rw (p, q) h

  -- A submission for `fd` leaves what is in flight for the others.
  others-Added :
      (cs : List Cqe) (rt : Runtime R) (fd op : ℕ) (e : Sqe) (r : R)
      → Spare cs fd rt
      → op < 256
      → e.user_data ≡ pack op fd
      → Added rt e r
      → (q : ℕ) → q < 2 ^ 32
      → (fd == q) ≡ false
      → BusyAt calls laws cs (record rt { ring = r }) q
  others-Added cs rt fd op e r (l, others, _, _, _) small word added q k n =
      let apart : fd ≢ q = (λ s. cc (n, (==_iff fd q).1 s)) in
      Busy-same (find_key q rt.conns) _ _ _ _
        (due_other cs rt e r op op_recv fd q added word small (omega arith) l k (λ s. apart s.1))
        (due_other cs rt e r op op_send fd q added word small (omega arith) l k (λ s. apart s.1))
        (others q k n)

  abbrev pub Ready : Connection → Type 0
  Ready c = Inv c × (c.state ≢ closed) × (length c.write_buf < 2 ^ 32)

  -- What is in flight for `fd` after its submission.
  settled-Driven :
      (cs : List Cqe) (rt : Runtime R) (fd op : ℕ) (e : Sqe) (r : R)
      → Spare cs fd rt
      → op < 256
      → e.user_data ≡ pack op fd
      → Added rt e r
      → BusyAt calls laws cs (record rt { ring = r }) fd
      → Driven calls laws cs (record rt { ring = r })
  settled-Driven cs rt fd op e r sp small word added at_fd = (
    λ q k. elim (Bool-cases (fd == q)) [
      | inl y ↦
          subst (λ x. BusyAt calls laws cs (record rt { ring = r }) x) ((==_iff fd q).0 y) at_fd
      | inr n ↦ others-Added cs rt fd op e r sp small word added q k n
    ],
    sp.2,
  )

  pub submit_recv-Driven :
      (cs : List Cqe) (rt : Runtime R) (fd : ℕ) (c : Connection)
      → Spare cs fd rt
      → find_key fd rt.conns ≡ some c
      → Ready c
      → c.state ≡ reading
      → Driven calls laws cs (submit_recv calls rt fd)
  unfolding submit_recv
  submit_recv-Driven cs rt fd c sp found (v, o, b) st =
      let e = recv_sqe calls fd in
      let (r, pushed, added) = push_sqe-Added rt e in
      let one = due_same cs rt e r (pack op_recv fd) added refl in
      let same =
        due_other cs rt e r op_recv op_send fd fd added refl (omega arith) (omega arith) sp.0 sp.0
          (λ s. absurd (omega (arith, s.0))) in
      subst (λ x. Driven calls laws cs x.0) (sym pushed)
        (settled-Driven cs rt fd op_recv e r sp (omega arith) refl added
          (rw found (v, o, b, one ∙ rw (st, sp.3) refl, same ∙ rw (st, sp.4) refl)))

  pub submit_send-Driven :
      (cs : List Cqe) (rt : Runtime R) (fd : ℕ) (c : Connection) (bytes : Bytes)
      → Spare cs fd rt
      → find_key fd rt.conns ≡ some c
      → Ready c
      → c.state ≡ writing
      → Driven calls laws cs (push_sqe calls rt (send_sqe calls fd bytes)).0
  submit_send-Driven cs rt fd c bytes sp found (v, o, b) st =
      let e = send_sqe calls fd bytes in
      let (r, pushed, added) = push_sqe-Added rt e in
      let one = due_same cs rt e r (pack op_send fd) added refl in
      let same =
        due_other cs rt e r op_send op_recv fd fd added refl (omega arith) (omega arith) sp.0 sp.0
          (λ s. absurd (omega (arith, s.0))) in
      subst (λ x. Driven calls laws cs x.0) (sym pushed)
        (settled-Driven cs rt fd op_send e r sp (omega arith) refl added
          (rw found (v, o, b, same ∙ rw (st, sp.3) refl, one ∙ rw (st, sp.4) refl)))

  pub submit_close-Driven :
      (cs : List Cqe) (rt : Runtime R) (fd : ℕ)
      → Spare cs fd rt
      → find_key fd rt.conns ≡ none
      → Driven calls laws cs (submit_close calls rt fd)
  unfolding submit_close
  submit_close-Driven cs rt fd sp gone =
      let e = close_sqe calls fd in
      let (r, pushed, added) = push_sqe-Added rt e in
      let other = λ (op : ℕ) (small : op < 256) (n : (op_close ≡ op) → ⊥).
        due_other cs rt e r op_close op fd fd added refl (omega arith) small sp.0 sp.0
          (λ s. n s.0) in
      subst (λ x. Driven calls laws cs x.0) (sym pushed)
        (settled-Driven cs rt fd op_close e r sp (omega arith) refl added (
          rw gone (
            other op_recv (omega arith) (λ s. absurd (omega (arith, s))) ∙ sp.3,
            other op_send (omega arith) (λ s. absurd (omega (arith, s))) ∙ sp.4,
          )))
