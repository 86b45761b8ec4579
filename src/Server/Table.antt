-- ===== src/Server/Table.antt =====
-- server/src/sys/conn_table.rs: the live connections of one event loop, by file descriptor.
use rust_tcp_server.Base.{ℕ, List, [], ◌∷◌, Option, if◌then◌else◌, length}
use rust_tcp_server.Base.Assoc.{find_key, remove_key, insert_key}
use rust_tcp_server.Connection.{Connection, is_expired}

pub record Slot (K : Type 0) : Type 0 where
  pub stream : K
  pub conn : Connection

pub record ConnTable (K : Type 0) : Type 0 where
  pub slots : List (ℕ × Slot K)

abbrev pub new_table : {K : Type 0} → ConnTable K
new_table = record { slots = [] }

-- The descriptor of the stream is an argument, as it is the key.
abbrev pub insert_slot : {K : Type 0} → ConnTable K → ℕ → Slot K → ConnTable K
insert_slot t fd slot = record { slots = insert_key fd slot t.slots }

-- `get_mut`, and the write through the reference that it gives.
abbrev pub get_slot : {K : Type 0} → ConnTable K → ℕ → Option (Slot K)
get_slot t fd = find_key fd t.slots

abbrev pub set_slot : {K : Type 0} → ConnTable K → ℕ → Slot K → ConnTable K
set_slot t fd slot = record { slots = insert_key fd slot t.slots }

abbrev pub remove_slot : {K : Type 0} → ConnTable K → ℕ → ConnTable K
remove_slot t fd = record { slots = remove_key fd t.slots }

abbrev pub table_len : {K : Type 0} → ConnTable K → ℕ
table_len t = length t.slots

-- The descriptors that a timeout scan collects.
unfoldable pub expired_in : {K : Type 0} → ℕ → List (ℕ × Slot K) → List ℕ
expired_in now [] = []
expired_in now ((fd, slot) ∷ rest) =
    let more = expired_in now rest in if is_expired slot.conn now then fd ∷ more else more
