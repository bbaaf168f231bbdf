-- ===== src/Ports.antt =====
-- The implementations in Go (go/) and TypeScript (ts/src/), as far as they parse SPIFFE IDs and
-- bundles, and how they agree with the one in Python.
pub mod Tests
pub mod Go
pub mod Ts
pub mod Units
pub mod Ids
pub mod Bundles
