-- ===== src/Server/Uring/Buffers/Circulation.antt =====
-- The buffers go round: each of them is with the kernel, or held by the server, and never both.
use rust_tcp_server.Base.{
  ℕ, zero, suc, ◌+◌, ◌-◌, ◌*◌, ◌%◌, ◌^◌, ◌≤◌, ◌<◌, ◌≡◌, ◌≢◌, refl, sym, ap, ◌∙◌, subst, true, List,
  [], ◌∷◌, ◌++◌, map, Option, some, ◌==◌, ltb, if◌then◌else◌, length, length-append, arith,
}
use rust_tcp_server.Base.Assoc.{find_key}
use rust_tcp_server.Server.Uring.Buffers.Window.{window, length-window, stage_window}
use rust_tcp_server.Server.Uring.Buffers.{
  num_bufs, BufRingEntry, BufRing, described, stage, commit, recycle, stage_from, ring_of, new_ring,
}

-- From the kernel's head to the tail that it sees.
abbrev span : BufRing → ℕ → ℕ
span br head = (br.tail + 2 ^ 16 - head) % 2 ^ 16

abbrev pub offered : BufRing → ℕ → List (Option BufRingEntry)
offered br head = window br.ring head (span br head)

unfoldable pub count : ℕ → List ℕ → ℕ
count b [] = 0
count b (x ∷ xs) = let rest = count b xs in if b == x then suc rest else rest

count-append : (b : ℕ) (xs ys : List ℕ) → count b (xs ++ ys) ≡ count b xs + count b ys
unfolding count
count-append b [] ys = omega arith
count-append b (x ∷ xs) ys = ground (arith, count-append b xs ys)

abbrev offers : List ℕ → List (Option BufRingEntry)
offers ids = map (λ b. some (described b)) ids

offers-append : (xs ys : List ℕ) → offers (xs ++ ys) ≡ offers xs ++ offers ys
offers-append [] ys = refl
offers-append (x ∷ xs) ys = ap (λ l. some (described x) ∷ l) (offers-append xs ys)

-- A ring of 256 entries whose staged entries are all published.
abbrev pub Published : BufRing → Type 0
Published br = (br.mask ≡ 255) × (br.local_tail < 2 ^ 16) × (br.tail ≡ br.local_tail)

-- The kernel is offered buffers, and with those that are held they are the 256, each once.
abbrev pub Shared : BufRing → ℕ → List ℕ → Type 0
Shared br head held =
    Published br
    × (head < 2 ^ 16)
    × (ids : List ℕ) × (offered br head ≡ offers ids)
    × (length ids + length held ≡ num_bufs)
    × ((b : ℕ) → count b ids + count b held ≡ (if ltb b num_bufs then 1 else 0))

-- What happens to a new ring: the kernel takes the entry at its head for a `recv`, and the server
-- gives a buffer back that it holds.
pub data Reached : BufRing → ℕ → List ℕ → Type 0 where
  started : (br : BufRing) → new_ring true num_bufs 16384 ≡ ring_of br → Reached br 0 []
  selected :
      (br : BufRing) (head : ℕ) (held : List ℕ) (e : BufRingEntry)
      → Reached br head held
      → head ≢ br.tail
      → find_key (head % 256) br.ring ≡ some e
      → Reached br ((head + 1) % 2 ^ 16) (e.bid ∷ held)
  recycled :
      (br : BufRing) (head : ℕ) (before : List ℕ) (bid : ℕ) (after : List ℕ)
      → Reached br head (before ++ bid ∷ after)
      → Reached (recycle br bid) head (before ++ after)

length-offers : (ids : List ℕ) → length (offers ids) ≡ length ids
length-offers [] = refl
length-offers (x ∷ ids) = ap suc (length-offers ids)

-- One buffer more, at any place.
count_moved :
    (b bid : ℕ) (ids before after : List ℕ)
    → count b (ids ++ bid ∷ []) + count b (before ++ after)
      ≡ count b ids + count b (before ++ bid ∷ after)
unfolding count
count_moved b bid ids before after =
    let x = count-append b ids (bid ∷ []) in
    let y = count-append b before after in
    let z = count-append b before (bid ∷ after) in ground (arith, x, y, z)

recycle-Shared :
    (br : BufRing) (head : ℕ) (before : List ℕ) (bid : ℕ) (after : List ℕ)
    → Shared br head (before ++ bid ∷ after)
    → Shared (recycle br bid) head (before ++ after)
unfolding recycle
recycle-Shared br head before bid after ((m, l, t), h, ids, o, n, c) =
    let held = length-append before (bid ∷ after) in
    let n_ids : span br head ≡ length ids =
      sym (length-window br.ring (span br head) head) ∙ ap length o ∙ length-offers ids in
    let gap : span br head ≡ (br.local_tail + 2 ^ 16 - head) % 2 ^ 16 = rw t refl in
    (
      (m, omega arith, refl),
      h,
      ids ++ bid ∷ [],
      rw (m, offers-append ids (bid ∷ []), ← o)
          (stage_window br.ring (described bid) br.local_tail head (span br head) (omega arith) h l
            gap),
      omega (arith, held, length-append before after, length-append ids (bid ∷ [])),
      λ b. count_moved b bid ids before after ∙ c b,
    )

abbrev upto : ℕ → List ℕ
upto zero = []
upto (suc n) = upto n ++ n ∷ []

length-upto : (n : ℕ) → length (upto n) ≡ n
length-upto zero = refl
length-upto (suc n) = omega (arith, length-append (upto n) (n ∷ []), length-upto n)

count-upto : (b n : ℕ) → count b (upto n) ≡ (if ltb b n then 1 else 0)
unfolding count
count-upto b zero = ground arith
count-upto b (suc n) = ground (arith, count-append b (upto n) (n ∷ []), count-upto b n)

abbrev Staged : ℕ → BufRing → Type 0
Staged k br = (br.mask ≡ 255) × (br.local_tail ≡ k) × (window br.ring 0 k ≡ offers (upto k))

stage_from-Staged :
    (k n : ℕ) (br : BufRing) → k + n ≤ 256 → Staged k br → Staged (k + n) (stage_from k n br)
unfolding stage_from stage
stage_from-Staged k zero br l h = let same : k + 0 ≡ k = omega arith in rw same h
stage_from-Staged k (suc n) br l (m, t, w) =
    let size : k + suc n ≡ (k + 1) + n = omega arith in
    let next : ((k + 1) % 2 ^ 16 + 2 ^ 16 - 0) % 2 ^ 16 ≡ k + 1 = omega arith in
    let more =
      stage_window br.ring (described k) k 0 k (omega arith) (omega arith) (omega arith)
        (omega arith) in
    let shown : window (stage br k).ring 0 (k + 1) ≡ offers (upto (suc k)) =
      rw (m, t, ← next) (more ∙ rw w (sym (offers-append (upto k) (k ∷ [])))) in
    let one : suc k ≡ k + 1 = omega arith in
    rw size (
      stage_from-Staged (k + 1) n (stage br k) (omega arith)
        (m, ground arith, shown ∙ ap (λ x. offers (upto x)) one))

unstaged : BufRing
unstaged = record {
  ring = [];
  pool = λ at. 0;
  pool_len = 256 * 16384;
  mask = 255;
  local_tail = 0;
  tail = 0;
}

new_ring_staged : new_ring true num_bufs 16384 ≡ ring_of (commit (stage_from 0 256 unstaged))
unfolding new_ring unstaged
new_ring_staged = refl

unstaged-Staged : Staged 0 unstaged
unfolding unstaged window
unstaged-Staged = (refl, refl, refl)

commit-Shared : (br : BufRing) → Staged 256 br → Shared (commit br) 0 []
unfolding commit count
commit-Shared br (m, t, w) = (
  (m, omega (arith, t), refl),
  omega arith,
  upto 256,
  (let size : span (commit br) 0 ≡ 256 = omega (arith, t) in rw size w),
  omega (arith, length-upto 256),
  λ b. omega (arith, count-upto b 256),
)

new_ring-Shared : (br : BufRing) → new_ring true num_bufs 16384 ≡ ring_of br → Shared br 0 []
new_ring-Shared br e =
    let same : ring_of (commit (stage_from 0 256 unstaged)) ≡ ring_of br =
      sym new_ring_staged ∙ e in
    let made : commit (stage_from 0 256 unstaged) ≡ br = cc in
    subst (λ r. Shared r 0 []) made
      (commit-Shared (stage_from 0 256 unstaged)
        (stage_from-Staged 0 256 unstaged (omega arith) unstaged-Staged))

-- The kernel takes the entry at its head.
taken :
    (br : BufRing) (head n : ℕ) (e : BufRingEntry) (ids : List ℕ)
    → find_key (head % 256) br.ring ≡ some e
    → window br.ring head (suc n) ≡ offers ids
    → (rest : List ℕ) × (ids ≡ e.bid ∷ rest)
      × (window br.ring ((head + 1) % 2 ^ 16) n ≡ offers rest)
unfolding window
taken br head n e [] found w = cc
taken br head n e (x ∷ rest) found w =
    let first : some e ≡ some (described x) = cc in
    let same : e ≡ described x = cc in (rest, ap (λ k. k ∷ rest) (sym (ap (λ y. y.bid) same)), cc)

selected-Shared :
    (br : BufRing) (head : ℕ) (held : List ℕ) (e : BufRingEntry)
    → Shared br head held
    → head ≢ br.tail
    → find_key (head % 256) br.ring ≡ some e
    → Shared br ((head + 1) % 2 ^ 16) (e.bid ∷ held)
unfolding count
selected-Shared br head held e ((m, l, t), h, ids, o, n, c) busy found =
    let some_left : suc (span br head - 1) ≡ span br head = omega (arith, l, t, h, busy) in
    let (rest, first, w) = taken br head (span br head - 1) e ids found (rw some_left o) in
    let fewer : span br ((head + 1) % 2 ^ 16) ≡ span br head - 1 = omega (arith, l, t, h, busy) in
    (
      (m, l, t),
      omega arith,
      rest,
      rw fewer w,
      (let size = ap length first in omega (arith, n, size)),
      λ b. (let moved = ap (count b) first in ground (arith, c b, moved)),
    )

-- However the kernel's choices and the returns alternate, every buffer is always in one place: in
-- one entry of the ring, described as it is, between the kernel's head and the tail, or held by the
-- server. None is lost, offered twice, or overwritten before the kernel has taken it, though the
-- tail wraps.
pub Reached-Shared :
    (br : BufRing) (head : ℕ) (held : List ℕ) → Reached br head held → Shared br head held
Reached-Shared br _ _ (started _ e) = new_ring-Shared br e
Reached-Shared br _ _ (selected _ head held e r busy found) =
    selected-Shared br head held e (Reached-Shared br head held r) busy found
Reached-Shared _ _ _ (recycled br head before bid after r) =
    recycle-Shared br head before bid after (Reached-Shared br head (before ++ bid ∷ after) r)
