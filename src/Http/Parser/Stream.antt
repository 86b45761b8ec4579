-- ===== src/Http/Parser/Stream.antt =====
-- A request that comes in any number of pieces, and the bytes it leaves for the next one.
use rust_tcp_server.Base.{◌≡◌, refl, sym, ap, ◌∙◌, ◌++◌, [], ◌∷◌, List, Bytes, append_assoc}
use rust_tcp_server.Http.Parser.Bounds.{IsValid}
use rust_tcp_server.Http.Parser.Ceilings.{push-IsValid}
use rust_tcp_server.Http.Parser.Chunks.{seen, Grows, push-append}
use rust_tcp_server.Http.Parser.{push}
use rust_tcp_server.Http.State.{RequestParser, ParseStatus, incomplete, complete, failed}

abbrev pub flatten : List Bytes → Bytes
flatten [] = []
flatten (c ∷ cs) = c ++ flatten cs

-- The parser after a push of each piece, and that each of them leaves the request unfinished.
abbrev pub push_each : RequestParser → List Bytes → RequestParser
push_each p [] = p
push_each p (c ∷ cs) = push_each (push p c).0 cs

abbrev pub Waits : RequestParser → List Bytes → Type 0
Waits p [] = Unit {0}
Waits p (c ∷ cs) = ((push p c).1 ≡ incomplete) × Waits (push p c).0 cs

waits_once :
    (p : RequestParser) (a b : Bytes)
    → IsValid p
    → (push p a).1 ≡ incomplete
    → seen (push p (a ++ b)) ≡ seen (push (push p a).0 b)
waits_once p a b v e = go (push p a).1 e (push-append p a b v)
  where
    go :
        (s : ParseStatus)
        → s ≡ incomplete
        → Grows b ((push p a).0, s) (push p (a ++ b))
        → seen (push p (a ++ b)) ≡ seen (push (push p a).0 b)
    go incomplete d g = g
    go (complete r n) d g = cc
    go (failed x) d g = cc

-- However a stream is cut into pieces, one byte at a time or all at once: as long as the pieces
-- before the last leave the request unfinished, the last gives the status and the parser that one
-- push of the whole stream gives.
pub push-flatten :
    (p : RequestParser) (cs : List Bytes) (last : Bytes)
    → IsValid p
    → Waits p cs
    → seen (push (push_each p cs) last) ≡ seen (push p (flatten cs ++ last))
push-flatten p [] last v w = refl
push-flatten p (c ∷ cs) last v (e, w) =
    push-flatten (push p c).0 cs last (push-IsValid p c v) w
    ∙ sym (waits_once p c (flatten cs ++ last) v e)
    ∙ ap (λ s. seen (push p s)) (sym (append_assoc c (flatten cs) last))
