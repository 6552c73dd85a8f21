-- ===== src/Valkey.antt =====
-- internal/store/valkeystore/valkeystore.go, the store that replicas share. `Server` is the Valkey
-- server with the client library, a parameter with the laws that the code relies on; `Scripts` has the
-- Lua scripts, `Methods` the Go methods that run them and read their replies; the other modules prove.
-- Times are milliseconds and scores integers, as far as the server's doubles hold them exactly.
pub mod SortedSets
pub mod Server
pub mod Scripts
pub mod Methods
pub mod Sound
pub mod Reading
pub mod Effects
pub mod Rounds
pub mod Outcome
pub mod Kept
pub mod Promised
pub mod Connection
pub mod Capacity
pub mod Errors
pub mod History
pub mod Tests
