-- ===== src/Server/EventIo/Answers.antt =====
-- The answers that are due for what was read, read by read.
use rust_tcp_server.Base.{
  ℕ, ◌+◌, if◌then◌else◌, ◌≡◌, refl, sym, ap, ◌∙◌, inl, inr, Bool, true, false, not, Bool-cases,
  List, [], ◌∷◌, ◌++◌, append_assoc, append-nil, ltb, Bytes, length, drop,
}
use rust_tcp_server.Connection.Exchange.{Answers}
use rust_tcp_server.Connection.{
  ConnAction, ConnState, closed, handle_status, start_writing, on_bytes_in, reading, writing,
  Connection, pending_write, error_response, on_bytes, on_written,
}
use rust_tcp_server.Http.Method.{same_method, head}
use rust_tcp_server.Http.Parser.{push}
use rust_tcp_server.Http.Request.{Request, wants_keep_alive}
use rust_tcp_server.Http.Response.{Response, encode}
use rust_tcp_server.Http.State.{ParseStatus, incomplete, complete, failed, RequestParser, reset}
use rust_tcp_server.Http.Status.{ParseError}

-- A response as the encoder frames it.
pub record Answer : Type 0 where
  pub response : Response
  pub keep_alive : Bool
  pub include_body : Bool

abbrev pub answer_bytes : Answer → Bytes
answer_bytes a = encode a.response a.keep_alive a.include_body []

abbrev pub all_bytes : List Answer → Bytes
all_bytes [] = []
all_bytes (a ∷ xs) = answer_bytes a ++ all_bytes xs

abbrev pub answer_to : (Request → Response) → Request → Answer
answer_to respond r = record {
  response = respond r;
  keep_alive = wants_keep_alive r;
  include_body = not (same_method r.method head);
}

abbrev pub refusal : ParseError → Answer
refusal e = record { response = error_response e; keep_alive = false; include_body = true }

-- What the parser's status adds to the answers.
abbrev pub answers_of : (Request → Response) → ParseStatus → List Answer
answers_of respond incomplete = []
answers_of respond (complete r n) = answer_to respond r ∷ []
answers_of respond (failed e) = refusal e ∷ []

-- The answers to what the parser says of a piece, with those to the pieces after it: a request is
-- answered by its handler and, if it wants to be kept alive, followed by the answers from a parser
-- that is reset; a refusal is the last answer.
abbrev pub replies :
    (Request → Response) → (RequestParser → List Answer) → RequestParser × ParseStatus → List Answer
replies respond later (q, incomplete) = later q
replies respond later (q, complete r n) =
    answer_to respond r ∷ (if wants_keep_alive r then later (reset q) else [])
replies respond later (q, failed e) = refusal e ∷ []

-- The answers that are due for the pieces of a stream, one for each read, from a parser on.
unfoldable pub answers_from : (Request → Response) → RequestParser → List Bytes → List Answer
answers_from respond p [] = []
answers_from respond p (b ∷ bs) = replies respond (λ q. answers_from respond q bs) (push p b)

-- Those that are due from a connection, behind the answer that it is writing.
abbrev due_in : (Request → Response) → ConnState → Bool → RequestParser → List Bytes → List Answer
due_in respond reading last p bs = answers_from respond p bs
due_in respond writing last p bs = if last then [] else answers_from respond (reset p) bs
due_in respond closed last p bs = []

abbrev pub answers_then : (Request → Response) → Connection → List Bytes → List Answer
answers_then respond c bs = due_in respond c.state c.close_after_write c.parser bs

pub answers_then_end :
    (respond : Request → Response) (c : Connection) → answers_then respond c [] ≡ []
unfolding answers_from
answers_then_end respond c = go c.state c.close_after_write
  where
    go : (s : ConnState) (last : Bool) → due_in respond s last c.parser [] ≡ []
    go reading last = refl
    go writing true = refl
    go writing false = refl
    go closed last = refl

handle_status-due :
    (respond : Request → Response) (c : Connection) (s : ParseStatus) (bs : List Bytes)
    → replies respond (λ q. answers_from respond q bs) (c.parser, s)
      ≡ answers_of respond s ++ answers_then respond (handle_status respond c s).0 bs
unfolding handle_status start_writing
handle_status-due respond c incomplete bs = refl
handle_status-due respond c (complete r n) bs = elim (Bool-cases (wants_keep_alive r)) [
  | inl keep ↦ rw keep refl
  | inr last ↦ rw last refl
]
handle_status-due respond c (failed e) bs = refl

-- A piece that is read adds its own answers, and those to the rest are due from what it leaves.
pub on_bytes-due :
    (respond : Request → Response) (c : Connection) (b : Bytes) (bs : List Bytes)
    → c.state ≡ reading
    → answers_then respond c (b ∷ bs)
      ≡ answers_of respond (push c.parser b).1 ++ answers_then respond (on_bytes respond c b).0 bs
unfolding answers_from on_bytes
on_bytes-due respond c b bs e =
    ap (λ s. due_in respond s c.close_after_write c.parser (b ∷ bs)) e
    ∙ handle_status-due respond (record c { parser = (push c.parser b).0 }) (push c.parser b).1 bs
    ∙ ap
        (λ s.
          answers_of respond (push c.parser b).1
          ++ answers_then respond (on_bytes_in respond s c b).0 bs)
        (sym e)

-- Writing changes nothing of what is due.
pub on_written-due :
    (respond : Request → Response) (now : ℕ) (c : Connection) (n : ℕ) (bs : List Bytes)
    → c.state ≡ writing
    → answers_then respond (on_written now c n).0 bs ≡ answers_then respond c bs
unfolding on_written
on_written-due respond now c n bs e =
    elim (Bool-cases (ltb (c.write_pos + n) (length c.write_buf))) [
      | inl part ↦ rw (e, part) refl
      | inr whole ↦ elim (Bool-cases c.close_after_write) [
        | inl last ↦ rw (e, whole, last) refl
        | inr keep ↦ rw (e, whole, keep) refl
      ]
    ]

pub drop_all : (s : Bytes) → drop (length s) s ≡ []
drop_all [] = refl
drop_all (c ∷ r) = drop_all r

pub pending-Answers :
    (respond : Request → Response) (s : ParseStatus) (x : Connection × ConnAction)
    → Answers respond s x
    → pending_write x.0 ≡ all_bytes (answers_of respond s)
pending-Answers respond incomplete x h = h.2
pending-Answers respond (complete r n) x h = h.1 ∙ sym (append-nil _)
pending-Answers respond (failed e) x h = h.1 ∙ sym (append-nil _)

pub all_bytes-concat : (xs bs : List Answer) → all_bytes (xs ++ bs) ≡ all_bytes xs ++ all_bytes bs
all_bytes-concat [] bs = refl
all_bytes-concat (a ∷ xs) bs =
    ap (λ s. answer_bytes a ++ s) (all_bytes-concat xs bs)
    ∙ sym (append_assoc (answer_bytes a) (all_bytes xs) (all_bytes bs))
