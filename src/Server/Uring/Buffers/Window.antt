-- ===== src/Server/Uring/Buffers/Window.antt =====
-- The entries of the ring as the kernel reads them.
use Prim.Native.Nat.{bit_and}
use rust_tcp_server.Base.{
  ℕ, zero, suc, ◌+◌, ◌-◌, ◌%◌, ◌^◌, ◌≤◌, ◌<◌, ◌≡◌, refl, ap, ◌∙◌, false, List, [], ◌∷◌, ◌++◌,
  Option, some, ◌==◌, length, arith, ==_iff,
}
use rust_tcp_server.Base.Assoc.{find_key, insert_key, find_key-insert_key}
use rust_tcp_server.Base.Bits.{bit_and_255}
use rust_tcp_server.Server.Uring.Buffers.{BufRingEntry}

-- The `n` slots from position `h` on, as the kernel reads them.
unfoldable pub window : List (ℕ × BufRingEntry) → ℕ → ℕ → List (Option BufRingEntry)
window ring h zero = []
window ring h (suc n) = find_key (h % 256) ring ∷ window ring ((h + 1) % 2 ^ 16) n

window-insert_key :
    (ring : List (ℕ × BufRingEntry)) (e : BufRingEntry) (n m h idx : ℕ)
    → n ≤ m
    → m < 256
    → idx ≡ (h + m) % 256
    → window (insert_key idx e ring) h n ≡ window ring h n
unfolding window
window-insert_key ring e zero m h idx le l i = refl
window-insert_key ring e (suc n) m h idx le l i =
    let other : (idx == h % 256) ≡ false = ground arith in
    rw (find_key-insert_key idx (h % 256) e ring, other)
      (ap (λ w. find_key (h % 256) ring ∷ w)
        (window-insert_key ring e n (m - 1) ((h + 1) % 2 ^ 16) idx (omega arith) (omega arith)
          (omega arith)))

window_last :
    (ring : List (ℕ × BufRingEntry)) (n h : ℕ)
    → window ring h (suc n) ≡ window ring h n ++ find_key ((h + n) % 256) ring ∷ []
unfolding window
window_last ring zero h = let same : (h + 0) % 256 ≡ h % 256 = omega arith in rw same refl
window_last ring (suc n) h =
    let same : ((h + 1) % 2 ^ 16 + n) % 256 ≡ (h + suc n) % 256 = omega arith in
    ap (λ w. find_key (h % 256) ring ∷ w) (window_last ring n ((h + 1) % 2 ^ 16)) ∙ rw same refl

pub length-window : (ring : List (ℕ × BufRingEntry)) (n h : ℕ) → length (window ring h n) ≡ n
unfolding window
length-window ring zero h = refl
length-window ring (suc n) h = ap suc (length-window ring n ((h + 1) % 2 ^ 16))

-- An entry that is staged at the tail `t` stands behind the others.
pub stage_window :
    (ring : List (ℕ × BufRingEntry)) (e : BufRingEntry) (t head n : ℕ)
    → n < 256
    → head < 2 ^ 16
    → t < 2 ^ 16
    → n ≡ (t + 2 ^ 16 - head) % 2 ^ 16
    → window (insert_key (bit_and t 255) e ring) head (((t + 1) % 2 ^ 16 + 2 ^ 16 - head) % 2 ^ 16)
      ≡ window ring head n ++ some e ∷ []
stage_window ring e t head n small l m d =
    let grown : ((t + 1) % 2 ^ 16 + 2 ^ 16 - head) % 2 ^ 16 ≡ suc n = omega arith in
    let slot : t % 256 ≡ (head + n) % 256 = omega arith in
    rw (grown, bit_and_255 t)
      (window_last (insert_key (t % 256) e ring) n head
        ∙ rw
            (
              window-insert_key ring e n n head (t % 256) (omega arith) small slot,
              find_key-insert_key (t % 256) ((head + n) % 256) e ring,
              (==_iff (t % 256) ((head + n) % 256)).1 slot,
            )
            refl)
