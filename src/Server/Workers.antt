-- ===== src/Server/Workers.antt =====
-- The models that serve connections on processes or threads of their own.
pub mod Forking
pub mod Threads
pub mod Pool
pub mod Preforked
