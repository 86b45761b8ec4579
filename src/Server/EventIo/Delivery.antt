-- ===== src/Server/EventIo/Delivery.antt =====
-- What `drive_io` does to a connection and to its socket, whatever the socket answers.
use rust_tcp_server.Base.{
  ℕ, ◌≤◌, ◌≡◌, sym, ap, ◌∙◌, inl, inr, Bool-cases, List, [], ◌∷◌, ◌++◌, append_assoc, append-nil,
  ltb, ltb→lt, arith, Bytes, length, take, drop, take-append-drop,
}
use rust_tcp_server.Connection.Actions.{pending_write_reading}
use rust_tcp_server.Connection.Exchange.{on_bytes-Answers, on_written_part, on_written_all}
use rust_tcp_server.Connection.Invariant.{Inv}
use rust_tcp_server.Connection.{reading, writing, Connection, pending_write, on_bytes, on_written}
use rust_tcp_server.Http.Parser.{push}
use rust_tcp_server.Http.Request.{Request}
use rust_tcp_server.Http.Response.{Response}
use rust_tcp_server.Server.EventIo.{IoResult, got, would_block, io_error}
use rust_tcp_server.Server.EventIo.Answers.{
  Answer, all_bytes, answers_of, answers_then, answers_then_end, on_bytes-due, on_written-due,
  drop_all, pending-Answers, all_bytes-concat,
}

-- `sent` is what the peer of a socket was sent, and `pieces` what was read from it, read by read.
-- A read that gives bytes adds them as a piece, and a write adds the bytes that it took to what is
-- sent, which are the first of those it was given.
module _ {K : Type 0} (sent : K → Bytes) (pieces : K → List Bytes) where
  abbrev pub Same : K → K → Type 0
  Same k j = (sent j ≡ sent k) × (pieces j ≡ pieces k)

  abbrev pub Took : K → K × IoResult Bytes → Type 0
  Took k (j, got []) = Same k j
  Took k (j, got (b ∷ bs)) = (sent j ≡ sent k) × (pieces j ≡ pieces k ++ (b ∷ bs) ∷ [])
  Took k (j, would_block) = Same k j
  Took k (j, io_error) = Same k j

  abbrev pub Wrote : K → Bytes → K × IoResult ℕ → Type 0
  Wrote k p (j, got n) = (n ≤ length p) × (sent j ≡ sent k ++ take n p) × (pieces j ≡ pieces k)
  Wrote k p (j, would_block) = Same k j
  Wrote k p (j, io_error) = Same k j

  -- After the bytes `z`, what is sent and what is pending are the answers to the pieces that were
  -- read since `ps`, whole and in order.
  abbrev pub Delivered : Bytes → List Bytes → (List Bytes → List Answer) → K → Connection → Type 0
  Delivered z ps answers k c =
      (bs : List Bytes) × (pieces k ≡ ps ++ bs)
      × (sent k ++ pending_write c ≡ z ++ all_bytes (answers bs))

  module _ (respond : Request → Response) (z : Bytes) (ps : List Bytes)
      (answers : List Bytes → List Answer) where
    -- The same on the way: what is due for the pieces to come is due from the connection.
    abbrev pub Owes : K → Connection → Type 0
    Owes k c =
        (bs : List Bytes) × (xs : List Answer) × (pieces k ≡ ps ++ bs)
        × (sent k ++ pending_write c ≡ z ++ all_bytes xs)
        × ((more : List Bytes) → answers (bs ++ more) ≡ xs ++ answers_then respond c more)

    pub Owes-Delivered : (k : K) (c : Connection) → Owes k c → Delivered z ps answers k c
    Owes-Delivered k c (bs, xs, p, s, f) =
        let all : answers bs ≡ xs =
          ap answers (sym (append-nil bs))
          ∙ f []
          ∙ ap (λ ys. xs ++ ys) (answers_then_end respond c)
          ∙ append-nil xs in
        (bs, p, s ∙ ap (λ ys. z ++ all_bytes ys) (sym all))

    pub Owes-Same : (k j : K) (c : Connection) → Same k j → Owes k c → Owes j c
    Owes-Same k j c (e, p) (bs, xs, q, s, f) =
        (bs, xs, p ∙ q, ap (λ b. b ++ pending_write c) e ∙ s, f)

    pub on_written-Owes :
        (now : ℕ) (k j : K) (c : Connection) (n : ℕ)
        → Inv c
        → c.state ≡ writing
        → Wrote k (pending_write c) (j, got n)
        → Owes k c
        → Owes j (on_written now c n).0
    on_written-Owes now k j c n v w (l, e, p) (bs, xs, q, s, f) = (
      bs,
      xs,
      p ∙ q,
      moved ∙ s,
      λ more. f more ∙ ap (λ ys. xs ++ ys) (sym (on_written-due respond now c n more w)),
    )
      where
        rest : pending_write (on_written now c n).0 ≡ drop n (pending_write c)
        rest = elim (Bool-cases (ltb n (length (pending_write c)))) [
          | inl part ↦ (on_written_part now c n w (ltb→lt _ _ part)).0
          | inr whole ↦
              let e : n ≡ length (pending_write c) = ground arith in
              ap (λ m. pending_write (on_written now c m).0) e
              ∙ (on_written_all now c v w).2
              ∙ sym (drop_all (pending_write c))
              ∙ ap (λ m. drop m (pending_write c)) (sym e)
        ]

        moved : sent j ++ pending_write (on_written now c n).0 ≡ sent k ++ pending_write c
        moved =
            ap (λ b. b ++ pending_write (on_written now c n).0) e
            ∙ ap (λ b. (sent k ++ take n (pending_write c)) ++ b) rest
            ∙ append_assoc (sent k) (take n (pending_write c)) (drop n (pending_write c))
            ∙ ap (λ b. sent k ++ b) (take-append-drop n (pending_write c))

    pub on_bytes-Owes :
        (k j : K) (c : Connection) (b : Bytes)
        → c.state ≡ reading
        → sent j ≡ sent k
        → pieces j ≡ pieces k ++ b ∷ []
        → Owes k c
        → Owes j (on_bytes respond c b).0
    on_bytes-Owes k j c b r e p (bs, xs, q, s, f) =
        let more = answers_of respond (push c.parser b).1 in
        let whole : sent k ≡ z ++ all_bytes xs =
          sym (append-nil (sent k)) ∙ ap (λ t. sent k ++ t) (sym (pending_write_reading c r)) ∙ s in
        (
          bs ++ b ∷ [],
          xs ++ more,
          p ∙ ap (λ t. t ++ b ∷ []) q ∙ append_assoc ps bs (b ∷ []),
          ap (λ t. t ++ pending_write (on_bytes respond c b).0) (e ∙ whole)
              ∙ ap (λ t. (z ++ all_bytes xs) ++ t)
                  (pending-Answers respond _ _ (on_bytes-Answers respond c b r))
              ∙ append_assoc z (all_bytes xs) (all_bytes more)
              ∙ ap (λ t. z ++ t) (sym (all_bytes-concat xs more)),
          λ later.
              (ap answers (append_assoc bs (b ∷ []) later)
                ∙ f (b ∷ later)
                ∙ ap (λ ys. xs ++ ys) (on_bytes-due respond c b later r)
                ∙ sym (append_assoc xs more (answers_then respond (on_bytes respond c b).0 later))),
        )
