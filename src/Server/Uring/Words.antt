-- ===== src/Server/Uring/Words.antt =====
-- server/src/models/io_uring.rs, `pack` and `unpack`: an operation and a descriptor in one word. An
-- `i32` is its 32-bit pattern and an `i64` its 64-bit one.
use Prim.Native.Nat.{bit_and, bit_or}
use rust_tcp_server.Base.{ℕ, ◌+◌, ◌-◌, ◌*◌, ◌/◌, ◌%◌, ◌^◌, ◌<◌, ◌≡◌, ltb, if◌then◌else◌, arith}
use rust_tcp_server.Base.Bits.{bit_and_255, bit_or_byte}

abbrev pub op_accept : ℕ
op_accept = 1

abbrev pub op_recv : ℕ
op_recv = 2

abbrev pub op_send : ℕ
op_send = 3

abbrev pub op_close : ℕ
op_close = 4

-- `fd as i64`.
abbrev sign_extend : ℕ → ℕ
sign_extend x = if ltb x (2 ^ 31) then x else x + (2 ^ 64 - 2 ^ 32)

-- `ud >> 8` on an `i64`, which brings in copies of the sign.
abbrev shift_right_8 : ℕ → ℕ
shift_right_8 x = if ltb x (2 ^ 63) then x / 256 else x / 256 + (2 ^ 64 - 2 ^ 56)

unfoldable pub pack : ℕ → ℕ → ℕ
pack op fd = bit_or (bit_and op 0xff) (sign_extend fd * 256 % 2 ^ 64)

unfoldable pub unpack : ℕ → ℕ × ℕ
unpack ud = (bit_and ud 0xff, shift_right_8 ud % 2 ^ 32)

pack_sum : (op fd : ℕ) → pack op fd ≡ op % 256 + sign_extend fd % 2 ^ 56 * 256
unfolding pack
pack_sum op fd =
    let low : sign_extend fd * 256 % 2 ^ 64 ≡ sign_extend fd % 2 ^ 56 * 256 = omega arith in
    rw (bit_and_255 op, low) (bit_or_byte (op % 256) (sign_extend fd % 2 ^ 56) (omega arith))

shift_right_8-sum :
    (ud op fd : ℕ)
    → op < 256
    → fd < 2 ^ 32
    → ud ≡ op + sign_extend fd % 2 ^ 56 * 256
    → shift_right_8 ud % 2 ^ 32 ≡ fd
shift_right_8-sum ud op fd small l e = ground arith

-- Every descriptor, a negative one too, comes back from the word that it is packed in with an
-- operation, and so does the operation, if it fits in its byte.
pub unpack-pack : (op fd : ℕ) → op < 256 → fd < 2 ^ 32 → unpack (pack op fd) ≡ (op, fd)
unfolding unpack
unpack-pack op fd small l =
    let byte : op % 256 ≡ op = omega (arith, small) in
    let word : pack op fd ≡ op + sign_extend fd % 2 ^ 56 * 256 = rw byte at (pack_sum op fd) in
    let low : bit_and (pack op fd) 0xff ≡ op =
      omega (arith, word, bit_and_255 (pack op fd), small) in
    let high = shift_right_8-sum (pack op fd) op fd small l word in cc
