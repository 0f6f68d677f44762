-- ===== src/Text.antt =====
-- Texts of numbers and of bytes: `hex_str` of rust/src/util.rs, `decode_hex` of rust/src/sweep.rs, and
-- the decimal texts of Rust's `to_string` and `parse::<u64>`.
pub mod Hex
pub mod Decimal
mod Examples
