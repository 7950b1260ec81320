-- ===== src/Std.antt =====
-- What the source uses of Rust's standard library: `Ord`, byte slices, fixed-width integers in
-- bytes, UTF-8 checking, `BTreeMap`.
pub mod Order
pub mod Bytes
pub mod BTreeMap
pub mod Utf8
pub mod Bits
pub mod Pairs
