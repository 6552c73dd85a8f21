-- ===== src/Memory/State.antt =====
-- The state of internal/store/memory/memory.go. Every method holds one mutex, so it is a function of
-- the store; its error is always nil and is left out.
-- The map and the queue share their entries, so an entry stands on a heap: a `*entry` is an address,
-- `entries` takes an id to one, and `queue` lists them. An `int` is an integer, a uint64 a number.
use gowait.Prelude.{ℕ, String, Bool, true, false, List, [], ◌==◌, ℤ, pos, ◌+ℤ◌, if◌then◌else◌}
use gowait.Clock.{Time}
use gowait.Store.{Status}

pub record Entry : Type 0 where
  pub id : String
  pub status : Status
  pub enqueued_at : Time
  pub admitted_at : Time
  pub last_seen : Time
  -- whether `elem` is set; the code never reads through it
  pub linked : Bool
  pub seq : ℕ

pub record Store (F : Type 0) : Type 0 where
  pub heap : ℕ → Entry
  -- the first address that no entry has
  pub next_ptr : ℕ
  pub entries : List (String × ℕ)
  pub queue : List ℕ
  pub active : ℤ
  pub avg_session : F
  pub capacity : ℤ
  pub capacity_set : Bool
  pub next_seq : ℕ
  pub holes : List ℕ

-- `&entry{id: id}`, the other fields zero
abbrev pub blank : String → Entry
blank id = record {
  id = id;
  status = Status.unknown;
  enqueued_at = 0;
  admitted_at = 0;
  last_seen = 0;
  linked = false;
  seq = 0;
}

-- A write through a pointer.
unfoldable pub update : (ℕ → Entry) → ℕ → Entry → ℕ → Entry
update heap p e q = if q == p then e else heap q

abbrev pub is_active : Status → Bool
is_active Status.active = true
is_active _ = false

abbrev pub is_queued : Status → Bool
is_queued Status.queued = true
is_queued _ = false

module _ {F : Type 0} where
  -- New(); `zero` is the zero value of a float64.
  unfoldable pub new : F → Store F
  new zero = record {
    heap = λ _. blank "";
    next_ptr = 0;
    entries = [];
    queue = [];
    active = pos 0;
    avg_session = zero;
    capacity = pos 0;
    capacity_set = false;
    next_seq = 0;
    holes = [];
  }

  -- e.lastSeen = now
  unfoldable pub see : Store F → ℕ → Time → Store F
  see s p now = record s { heap = update s.heap p (record (s.heap p) { last_seen = now }) }

  -- admitLocked
  unfoldable pub admit_locked : Store F → ℕ → Time → Store F
  admit_locked s p now = record s { heap = update s.heap p admitted; active = s.active +ℤ pos 1 }
    where
      admitted : Entry
      admitted = record (s.heap p) { status = Status.active; admitted_at = now; last_seen = now }
