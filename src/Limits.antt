-- ===== src/Limits.antt =====
-- core/src/limits.rs: the ceilings that the parser enforces.
use rust_tcp_server.Base.{ℕ, ◌*◌}

abbrev pub max_request_line : ℕ
max_request_line = 8 * 1024

abbrev pub max_header_bytes : ℕ
max_header_bytes = 32 * 1024

abbrev pub max_header_count : ℕ
max_header_count = 100

abbrev pub max_body_bytes : ℕ
max_body_bytes = 1024 * 1024

abbrev pub read_chunk : ℕ
read_chunk = 16 * 1024
