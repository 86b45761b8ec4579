-- ===== src/Server/Uring/Buffers.antt =====
-- server/src/models/io_uring.rs, `BufRing`: the ring of buffers that is shared with the kernel. Its
-- memory is a map from slots to entries and the pool one from addresses to bytes; a `u16` wraps.
pub mod Window
pub mod Circulation
use Prim.Native.Nat.{bit_and}
use rust_tcp_server.Base.{
  ℕ, zero, suc, ◌+◌, ◌-◌, ◌*◌, ◌%◌, ◌^◌, Bool, true, false, ◌||◌, not, List, [], ◌∷◌, ◌==◌,
  if◌then◌else◌, Bytes,
}
use rust_tcp_server.Base.Assoc.{insert_key}

abbrev pub num_bufs : ℕ
num_bufs = 256

abbrev pub buf_size : ℕ
buf_size = 16 * 1024

-- `BufRingEntry`; an address is relative to the pool.
pub record BufRingEntry : Type 0 where
  pub addr : ℕ
  pub len : ℕ
  pub bid : ℕ

-- `tail` is the one that the kernel sees.
pub record BufRing : Type 0 where
  pub ring : List (ℕ × BufRingEntry)
  pub pool : ℕ → ℕ
  pub pool_len : ℕ
  pub mask : ℕ
  pub local_tail : ℕ
  pub tail : ℕ

-- A buffer as the ring describes it.
abbrev pub described : ℕ → BufRingEntry
described bid = record { addr = bid * buf_size; len = buf_size; bid = bid }

unfoldable pub stage : BufRing → ℕ → BufRing
stage br bid = record br {
  ring = insert_key (bit_and br.local_tail br.mask) (described bid) br.ring;
  local_tail = (br.local_tail + 1) % 2 ^ 16;
}

unfoldable pub commit : BufRing → BufRing
commit br = record br { tail = br.local_tail }

unfoldable pub recycle : BufRing → ℕ → BufRing
unfolding stage commit
recycle br bid = commit (stage br bid)

-- The loop of `new`, with `n` buffers to go from `bid` on.
unfoldable pub stage_from : ℕ → ℕ → BufRing → BufRing
stage_from bid zero br = br
stage_from bid (suc n) br = stage_from (bid + 1) n (stage br bid)

unfoldable pub entries : BufRing → ℕ
entries br = br.mask + 1

-- The `len` bytes from an address on.
unfoldable pub bytes_from : (ℕ → ℕ) → ℕ → ℕ → Bytes
bytes_from pool at zero = []
bytes_from pool at (suc n) = pool at ∷ bytes_from pool (at + 1) n

-- `bytes_ptr`, and the slice that is made from it.
unfoldable pub buffer_bytes : BufRing → ℕ → ℕ → Bytes
buffer_bytes br bid n = bytes_from br.pool (bid * buf_size) n

pub data NewRing : Type 0 where
  ring_of : BufRing → NewRing
  map_failed panicked : NewRing

abbrev is_power_of_two : ℕ → Bool
is_power_of_two n = not (n == 0 || not (bit_and n (n - 1) == 0))

-- Whether `mmap` works, the number of buffers and their size.
unfoldable pub new_ring : Bool → ℕ → ℕ → NewRing
unfolding stage_from commit
new_ring mapped n size =
    if not (is_power_of_two n)
    then panicked
    else if not mapped
    then map_failed
    else ring_of (
        commit (
          stage_from 0 n (record {
            ring = [];
            pool = λ at. 0;
            pool_len = n * size;
            mask = n - 1;
            local_tail = 0;
            tail = 0;
          })))
