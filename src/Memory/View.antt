-- ===== src/Memory/View.antt =====
-- What a client of the memory store can see: the ids in line, first in first, and the status of each
-- id. These say what the store promises, with no address, seq or hole.
use gowait.Prelude.{String, Option, none, some, List, map}
use gowait.Clock.{Time}
use gowait.GoMap
use gowait.Store.{Status}
use gowait.Memory.State.{Store}

module _ {F : Type 0} where
  abbrev pub line : Store F → List String
  line s = map (λ p. (s.heap p).id) s.queue

  unfoldable pub status_of : Store F → String → Status
  status_of s id = elim (GoMap.lookup id s.entries) [
    | none ↦ Status.unknown
    | some p ↦ (s.heap p).status
  ]

  -- The last heartbeat of a ticket.
  unfoldable pub last_seen_of : Store F → String → Option Time
  last_seen_of s id = elim (GoMap.lookup id s.entries) [
    | none ↦ none
    | some p ↦ some (s.heap p).last_seen
  ]
