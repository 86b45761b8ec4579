-- ===== src/Text.antt =====
-- The functions of Rust's `str` and `u8` that the server calls. A `String` is its UTF-8 bytes.
pub mod Ascii
pub mod Utf8
pub mod Trim
pub mod Number
pub mod Split
pub mod Digits
