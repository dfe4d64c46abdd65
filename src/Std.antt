-- ===== src/Std.antt =====
-- What the program uses of the C++ library, as far as its results depend on it.
pub mod Stoi
pub mod Bytes
pub mod Search
pub mod Decimal
mod Examples
