-- ===== src/Memory/Admin.antt =====
-- Stats, SetCapacity, GetCapacity and Flush of internal/store/memory/memory.go.
use gowait.Prelude.{ℕ, String, Bool, true, List, [], ◌∷◌, ℤ, pos, length}
use gowait.GoMap
use gowait.Store.{Stats}
use gowait.Memory.State.{Entry, Store}

module _ {F : Type 0} where
  unfoldable pub stats : Store F → Stats F
  stats s = record {
    queue_length = pos (length s.queue);
    active_count = s.active;
    avg_session_secs = s.avg_session;
  }

  unfoldable pub set_capacity : Store F → ℤ → Store F
  set_capacity s capacity = record s { capacity = capacity; capacity_set = true }

  unfoldable pub get_capacity : Store F → ℤ × Bool
  get_capacity s = (s.capacity, s.capacity_set)

-- for el := front; el != nil; el = el.Next() { delete(s.entries, el.Value.id) }
unfoldable pub forget : (ℕ → Entry) → List ℕ → List (String × ℕ) → List (String × ℕ)
forget heap [] entries = entries
forget heap (p ∷ rest) entries = forget heap rest (GoMap.remove (heap p).id entries)

module _ {F : Type 0} where
  unfoldable pub flush : Store F → Store F × ℤ
  unfolding forget
  flush s = (
    record s { entries = forget s.heap s.queue s.entries; queue = []; holes = [] },
    pos (length s.queue),
  )
