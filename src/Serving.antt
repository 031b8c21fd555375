-- ===== src/Serving.antt =====
-- decision-engine/cmd/server/main.go: the socket server with all its goroutines, as steps that may
-- interleave: the accept loop of `runUnixSocket`, one `handleConn` for each connection, one
-- `Evaluate` in each of them, and the goroutines that publish.
pub mod System
pub mod Steps
pub mod Passes
pub mod Account
pub mod Limit
pub mod Work
pub mod Finish
pub mod Announced
pub mod Named
