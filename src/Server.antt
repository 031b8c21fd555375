-- ===== src/Server.antt =====
-- decision-engine/cmd/server/main.go: the connection handler of the Unix socket. The bytes that arrive
-- before the connection ends, or its deadline passes, are an argument; so is the JSON decoder.
-- `bufio.Scanner` and the encoding of a `Decision` belong to Go's standard library.
pub mod Lines
pub mod Respond
pub mod Connection
pub mod Laws
pub mod Http
pub mod Routes
pub mod Spares
