-- ===== src/Queue.antt =====
-- internal/queue/controller.go, the admission state machine on top of a store. `Controller` has the
-- state and the calls that tend it, `Check` the decisions; the other modules prove.
pub mod Controller
pub mod Check
pub mod Serving
pub mod Decides
pub mod Answers
pub mod Tending
pub mod History
pub mod Timing
pub mod Capacity
mod Tests
