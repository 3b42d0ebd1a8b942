-- ===== src/Codec.antt =====
-- engine/core/binary_protocol.py: the fixed frames of the wire. A byte is a number below 256. `struct` is
-- not code of the repository: a format is the list of the widths of its fields, packed one after another.
pub mod Bytes
pub mod Wire
pub mod Sequences
pub mod Orders
pub mod Trades
pub mod Books
mod Tests
