-- ===== src/Memory.antt =====
-- internal/store/memory/memory.go. `State` has the entries and the store, `Holes` the seqs evicted
-- from the middle of the queue, `Tickets` the methods on one ticket, `Reconcile` the three loops of
-- `Reconcile`, `Admin` the other methods; the other modules prove.
pub mod Holes
pub mod Invariant
pub mod State
pub mod Tickets
pub mod Admin
pub mod Reconcile
pub mod View
pub mod Position
pub mod Rounds
pub mod Admission
pub mod Line
pub mod Counters
pub mod History
pub mod Instance
pub mod Kept
mod Tests
