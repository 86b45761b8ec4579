-- ===== src/Tests/Rings.antt =====
-- The theorems on the parts of io_uring.rs at concrete inputs.
use rust_tcp_server.Base.{
  ℕ, ◌-◌, true, ◌≡◌, ◌≢◌, refl, ◌^◌, ◌*◌, ◌≤◌, ◌<◌, ◌⊎◌, [], some, codes, arith,
}
use rust_tcp_server.Base.Assoc.{find_key, insert_key, remove_key}
use rust_tcp_server.Http.Response.{write_digits, write_usize}
use rust_tcp_server.Server.Uring.Buffers.Circulation.{
  Shared, started, selected, recycled, Reached-Shared,
}
use rust_tcp_server.Server.Uring.Buffers.{
  BufRing, described, stage, stage_from, commit, recycle, new_ring, ring_of, num_bufs,
}
use rust_tcp_server.Server.Uring.Kernel.{
  supported, unsupported, check_kernel, release, check_kernel-release,
}
use rust_tcp_server.Server.Uring.Words.{pack, unpack, op_recv, unpack-pack}
use rust_tcp_server.Text.Utf8.{utf8_lead, utf8_run, is_utf8}

-- The descriptor −1.
unpack-pack_example : unpack (pack op_recv (2 ^ 32 - 1)) ≡ (op_recv, 2 ^ 32 - 1)
unpack-pack_example = unpack-pack op_recv (2 ^ 32 - 1) (omega arith) (omega arith)

arch_utf8 : is_utf8 (release 5 19 (codes ".17-arch1-1")) ≡ true
unfolding is_utf8 utf8_run utf8_lead write_usize write_digits
arch_utf8 = refl

abbrev five : ℕ
five = 5

abbrev nineteen : ℕ
nineteen = 19

check_kernel-release_example :
    (((5 < five) ⊎ ((five ≡ 5) × (19 ≤ nineteen)))
      → check_kernel (some (release five nineteen (codes ".17-arch1-1"))) ≡ supported)
    × (((five < 5) ⊎ ((five ≡ 5) × (nineteen < 19)))
        → check_kernel (some (release five nineteen (codes ".17-arch1-1")))
          ≡ unsupported five nineteen)
check_kernel-release_example =
    check_kernel-release five nineteen (codes ".17-arch1-1") (omega arith) (omega arith) refl
      arch_utf8

-- A new ring, of which the kernel takes the first buffer, and the server gives it back.
abbrev empty_ring : BufRing
empty_ring = record {
  ring = [];
  pool = λ at. 0;
  pool_len = 256 * 16384;
  mask = 255;
  local_tail = 0;
  tail = 0;
}

first_ring : BufRing
first_ring = commit (stage_from 0 256 empty_ring)

first_ring_made : new_ring true num_bufs 16384 ≡ ring_of first_ring
unfolding new_ring first_ring
first_ring_made = refl

first_busy : 0 ≢ first_ring.tail
unfolding first_ring commit stage_from stage
first_busy e = cc

first_entry : find_key 0 first_ring.ring ≡ some (described 0)
unfolding first_ring commit stage_from stage find_key insert_key remove_key
first_entry = refl

Reached-Shared_example : Shared (recycle first_ring 0) 1 []
Reached-Shared_example = Reached-Shared (recycle first_ring 0) 1 [] (
    recycled first_ring 1 [] 0 [] (
      selected first_ring 0 [] (described 0) (started first_ring first_ring_made) first_busy
        first_entry))
