-- ===== src/Memory/Tests.antt =====
-- The memory store on concrete histories, with integers in place of floats.
use gowait.Prelude.{
  ℕ, ◌≡◌, refl, true, some, List, [], ◌∷◌, ℤ, pos, ◌+ℤ◌, ◌-ℤ◌, ◌≤ℤ◌, arith, ◌^◌, ◌<◌, suc, ◌↔◌, ◌⊎◌,
}
use gowait.Clock.{sub}
use gowait.Clock.Exact.{exact}
use gowait.GoMap
use mathlib.Core.Option
use gowait.Store.{Status, Snapshot}
use gowait.SortSearch.{search}
use gowait.Memory.Holes.{search_above, search_from, add_hole, prune}
use gowait.Memory.State.{Store, new, update}
use gowait.Memory.Tickets.{try_admit, enqueue, lookup, touch}
use gowait.Memory.Admin.{flush}
use gowait.Memory.Reconcile.{expire, empty_result, reconcile}
use gowait.Memory.History.{Call, admits, enqueues, looks, touches, reconciles, run, run_safe}
use gowait.Memory.Invariant.{IsWellFormed}
use gowait.Memory.View.{line, status_of}
use gowait.Memory.Position.{Reports, lookup-Reports, enqueue-Reports}
use gowait.Memory.Admission.{HasRoom, Tried, try_admit_iff, try_admit_effect}
use gowait.Memory.Line.{enqueue-line, flush-status}
use gowait.Memory.Invariant.Loops.{alive}
use gowait.Memory.Rounds.Expiry.{idle_count, Expires, expire-Expires, lists}
use gowait.Memory.Rounds.Outcome.{Round, reconcile-Round, reconcile-drains}

program : Unit {0}
unfolding run try_admit enqueue lookup touch flush reconcile new update GoMap.lookup GoMap.insert
    GoMap.remove search search_above search_from add_hole prune sub status_of
program = tt

-- Two enter, four wait, and the second of them stops polling.
abbrev calls : List Call
calls =
    admits "a" (pos 2) 1
    ∷ admits "b" (pos 2) 2
    ∷ enqueues "c" 3
    ∷ enqueues "d" 4
    ∷ enqueues "e" 5
    ∷ enqueues "f" 6
    ∷ looks "c" 40
    ∷ looks "e" 40
    ∷ looks "f" 40
    ∷ touches "a" 40
    ∷ touches "b" 40
    ∷ reconciles ("b" ∷ "a" ∷ []) (pos 2) (pos 60) (pos 30) 41
    ∷ []

abbrev room : Store ℤ
room = run exact (new (pos 0)) calls

room-line : line room ≡ "c" ∷ "e" ∷ "f" ∷ []
unfolding program
room-line = refl

room-holes : room.holes ≡ 2 ∷ []
unfolding program
room-holes = refl

run_safe_example : IsWellFormed room × (room.active ≤ℤ pos 2)
run_safe_example = run_safe exact (pos 0) calls (pos 2) (omega arith) (omega arith) (omega arith)

room-IsWellFormed : IsWellFormed room
room-IsWellFormed = run_safe_example.0

room-next_seq : suc room.next_seq < 2 ^ 63
unfolding program
room-next_seq = omega arith

lookup-Reports_example :
    (snap : Snapshot) × ((lookup room "f" 50).1 ≡ some snap)
    × Reports (lookup room "f" 50).0 "f" snap
lookup-Reports_example = lookup-Reports room "f" 50 room-IsWellFormed

-- "f" is third, though its seq is three above that of "c".
lookup_runs : Option.map (λ (s : Snapshot). s.position) (lookup room "f" 50).1 ≡ some (pos 3)
unfolding program
lookup_runs = refl

enqueue-Reports_example :
    (snap : Snapshot) × ((enqueue room "g" 50).1 ≡ some snap)
    × Reports (enqueue room "g" 50).0 "g" snap
enqueue-Reports_example = enqueue-Reports room "g" 50 room-IsWellFormed room-next_seq

reconcile-Round_example :
    (left : ℕ) × Round exact 200
      (pos 2)
      (alive (pos 180) 200 room.heap room.queue)
      room
      (reconcile exact room ("a" ∷ "b" ∷ "c" ∷ []) (pos 2) (pos 60) (pos 180) 200).0
      (reconcile exact room ("a" ∷ "b" ∷ "c" ∷ []) (pos 2) (pos 60) (pos 180) 200).1
      left
reconcile-Round_example =
    reconcile-Round exact (pos 60) (pos 180) 200 (pos 2) room ("a" ∷ "b" ∷ "c" ∷ [])
      room-IsWellFormed

-- Both sessions have run out by then, and the first two of the line enter.
reconcile_runs :
    line (reconcile exact room ("a" ∷ "b" ∷ "c" ∷ []) (pos 2) (pos 60) (pos 180) 200).0 ≡ "f" ∷ []
unfolding program
reconcile_runs = refl

reconcile-drains_example :
    let s' = (reconcile exact room ("b" ∷ "a" ∷ []) (pos 9) (pos 60) (pos 180) 60).0 in
    (line s' ≡ []) ⊎ (pos 9 ≤ℤ s'.active)
reconcile-drains_example =
    reconcile-drains exact (pos 60) (pos 180) 60 (pos 9) room ("b" ∷ "a" ∷ []) room-IsWellFormed

expire-Expires_example :
    let st' = expire exact (pos 60) 200 ("b" ∷ "a" ∷ []) (room, empty_result) in
    let reaped = pos (idle_count exact (pos 60) 200 room ("b" ∷ "a" ∷ [])) in
    Expires exact (pos 60) 200 (room, empty_result) st' (λ k. lists k ("b" ∷ "a" ∷ []))
    × (st'.1.expired ≡ pos 0 +ℤ reaped)
    × (st'.0.active ≡ room.active -ℤ reaped)
expire-Expires_example = expire-Expires exact (pos 60) 200 ("b" ∷ "a" ∷ []) (room, empty_result)

try_admit_iff_example :
    ((try_admit room "z" (pos 9) 50).1 ≡ true)
    ↔ ((status_of room "z" ≡ Status.active) ⊎ HasRoom room (pos 9))
try_admit_iff_example = try_admit_iff room "z" (pos 9) 50 room-IsWellFormed

try_admit_effect_example : Tried room "a" (pos 2) 50 (try_admit room "a" (pos 2) 50)
try_admit_effect_example = try_admit_effect room "a" (pos 2) 50 room-IsWellFormed

enqueue-line_example : line (enqueue room "g" 50).0 ≡ "c" ∷ "e" ∷ "f" ∷ "g" ∷ []
unfolding program
enqueue-line_example = (enqueue-line room "g" "c" 50 room-IsWellFormed room-next_seq).0

flush-status_example :
    (line (flush room).0 ≡ [])
    × ((flush room).0.active ≡ room.active)
    × (status_of (flush room).0 "c" ≡ Status.unknown)
unfolding program
flush-status_example = flush-status room "c" room-IsWellFormed
