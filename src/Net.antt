-- ===== src/Net.antt =====
-- The functions of Go's packages `net` and `encoding/binary` that the program calls on addresses:
-- `net.ParseIP`, `IP.To4`, `IP.String` of four bytes, `BigEndian.Uint32` and `PutUint32`. They belong
-- to the language's standard library. An address in bytes is a list, a text is its bytes.
mod Parse4
mod Parse6
mod ByteOrder
pub mod RoundTrip
pub mod Canonical
unfoldable pub use Parse4.{parse_fields, print_u8, print_ipv4}
unfoldable pub use Parse6.{parse_ip, to4, v4_in_v6_prefix}
unfoldable pub use ByteOrder.*
