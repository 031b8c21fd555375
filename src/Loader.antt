-- ===== src/Loader.antt =====
-- ebpf/loader/main.go: the management API over the kernel's map of blocked addresses.
-- `Loader.Address` has the conversions, `Loader.Handlers` the HTTP handlers.
pub mod Address
pub mod Handlers
pub mod Startup
pub mod Reload
pub mod Service
pub mod Strangers
pub mod Handles
pub mod Leaks
pub mod RoundTrip
pub mod Blocking
pub mod WireOrder
pub mod Expiry
pub mod Errors
pub mod Listing
