-- ===== src/Memory/Tickets.antt =====
-- TryAdmit, Enqueue, Lookup and Touch of internal/store/memory/memory.go, and `snapshotLocked`.
-- A snapshot is `none` where the code would dereference the front of an empty queue.
use gowait.Prelude.{
  ℕ, ◌+◌, ◌-◌, ◌%◌, ◌^◌, String, Bool, true, false, ◌||◌, Option, none, some, List, [], ◌∷◌, ◌++◌,
  ℤ, pos, ◌+ℤ◌, ◌-ℤ◌, leb_ℤ, ltb, if◌then◌else◌, length,
}
use gowait.Clock.{Time}
use gowait.Int64.{to_int}
use gowait.GoMap
use gowait.Store.{Status, Snapshot}
use gowait.Memory.Holes.{search_above, search_from}
use gowait.Memory.State.{Store, blank, update, is_active, is_queued, see, admit_locked}

-- a - b on uint64
abbrev pub sub_uint64 : ℕ → ℕ → ℕ
sub_uint64 a b = (a + 2 ^ 64 - b) % 2 ^ 64

module _ {F : Type 0} where
  -- The position of a queued entry: its distance to the front less the holes between.
  unfoldable pub position : Store F → ℕ → List ℕ → Option ℤ
  position s p [] = none
  position s p (front ∷ rest) =
      let lo = search_above s.holes (s.heap front).seq in
      let hi = search_from s.holes (s.heap p).seq in
      some (to_int (sub_uint64 (s.heap p).seq (s.heap front).seq) +ℤ pos 1 -ℤ (pos hi -ℤ pos lo))

  abbrev pub snapshot_at : Store F → Status → ℤ → Snapshot
  snapshot_at s status place = record {
    status = status;
    position = place;
    queue_length = pos (length s.queue);
    active_count = s.active;
  }

  unfoldable pub snapshot_locked : Store F → ℕ → Option Snapshot
  unfolding position
  snapshot_locked s p =
      let status = (s.heap p).status in
      if is_queued status
      then elim (position s p s.queue) [
        | none ↦ none
        | some place ↦ some (snapshot_at s status place)
      ]
      else some (snapshot_at s status (pos 0))

  -- `e, ok := s.entries[id]; ok && e.status == StatusActive`, with the entry
  unfoldable pub active_entry : Store F → String → Option ℕ
  active_entry s id = elim (GoMap.lookup id s.entries) [
    | none ↦ none
    | some p ↦ if is_active (s.heap p).status then some p else none
  ]

  -- `e := s.entries[id]`, with a new blank entry put into the map where there is none
  unfoldable pub entry_or_new : Store F → String → Store F × ℕ
  entry_or_new s id = elim (GoMap.lookup id s.entries) [
    | some p ↦ (s, p)
    | none ↦ (
      record s {
        heap = update s.heap s.next_ptr (blank id);
        next_ptr = s.next_ptr + 1;
        entries = GoMap.insert id s.next_ptr s.entries;
      },
      s.next_ptr,
    )
  ]

  unfoldable pub try_admit : Store F → String → ℤ → Time → Store F × Bool
  unfolding active_entry entry_or_new see admit_locked
  try_admit s id capacity now = elim (active_entry s id) [
    | some p ↦ (see s p now, true)
    | none ↦
        if leb_ℤ capacity s.active || ltb 0 (length s.queue)
        then (s, false)
        else (let (s', p) = entry_or_new s id in (admit_locked s' p now, true))
  ]

  -- The new entry of `Enqueue`, in the map and at the end of the queue.
  unfoldable pub push_entry : Store F → String → Time → Store F
  push_entry s id now =
      let seq = (s.next_seq + 1) % 2 ^ 64 in
      let e = record (blank id) {
        status = Status.queued;
        enqueued_at = now;
        linked = true;
        seq = seq;
      } in
      record s {
        heap = update s.heap s.next_ptr e;
        next_ptr = s.next_ptr + 1;
        entries = GoMap.insert id s.next_ptr s.entries;
        queue = s.queue ++ s.next_ptr ∷ [];
        next_seq = seq;
      }

  unfoldable pub enqueue : Store F → String → Time → Store F × Option Snapshot
  unfolding push_entry see snapshot_locked
  enqueue s id now = elim (GoMap.lookup id s.entries) [
    | some p ↦ let s' = see s p now in (s', snapshot_locked s' p)
    | none ↦
        let p = s.next_ptr in let s' = see (push_entry s id now) p now in (s', snapshot_locked s' p)
  ]

  unfoldable pub lookup : Store F → String → Time → Store F × Option Snapshot
  unfolding see snapshot_locked
  lookup s id now = elim (GoMap.lookup id s.entries) [
    | none ↦ (s, some (snapshot_at s Status.unknown (pos 0)))
    | some p ↦ let s' = see s p now in (s', snapshot_locked s' p)
  ]

  unfoldable pub touch : Store F → String → Time → Store F × Bool
  unfolding active_entry see
  touch s id now = elim (active_entry s id) [ none ↦ (s, false) | some p ↦ (see s p now, true) ]
