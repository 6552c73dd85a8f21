-- ===== src/Memory/Invariant.antt =====
-- Well-formedness of the memory store. It reads of the heap only what no heartbeat writes, so it is
-- stated of a shape: the heap's ids, statuses and seqs beside the fields of the store that it binds.
pub mod Queue
pub mod Steps
pub mod Fresh
pub mod Methods
pub mod Loops
use gowait.Prelude.{
  ℕ, suc, ◌+◌, ◌^◌, ◌<◌, ◌≡◌, refl, fun_ext, String, Bool, true, false, ◌||◌, Option, some, List,
  [], ◌∷◌, map, ℤ, pos, ◌==◌, arith, if◌then◌else◌, All,
}
use gowait.GoMap
use gowait.GoMap.{Distinct, count}
use gowait.Store.{Status}
use gowait.Memory.Holes.Below.{Ascending}
use gowait.Memory.Holes.Tiled.{Tiled}
use gowait.Memory.State.{Entry, Store, is_active, is_queued}

pub record Shape : Type 0 where
  pub ids : ℕ → String
  pub statuses : ℕ → Status
  pub seqs : ℕ → ℕ
  pub next_ptr : ℕ
  pub entries : List (String × ℕ)
  pub queue : List ℕ
  pub active : ℤ
  pub next_seq : ℕ
  pub holes : List ℕ

abbrev pub shape : {F : Type 0} → Store F → Shape
shape s = record {
  ids = λ p. (s.heap p).id;
  statuses = λ p. (s.heap p).status;
  seqs = λ p. (s.heap p).seq;
  next_ptr = s.next_ptr;
  entries = s.entries;
  queue = s.queue;
  active = s.active;
  next_seq = s.next_seq;
  holes = s.holes;
}

-- A field of the heap, written at one address.
abbrev pub put {ℓ} : {A : Type ℓ} → (ℕ → A) → ℕ → A → ℕ → A
put f p v q = if q == p then v else f q

abbrev pub has : ℕ → List ℕ → Bool
has p [] = false
has p (q ∷ qs) = q == p || has p qs

-- The entry at an address of the queue waits, and the map takes its id back to it.
abbrev pub IsWaiting : Shape → ℕ → Type 0
IsWaiting h p = (h.statuses p ≡ Status.queued) × (GoMap.lookup (h.ids p) h.entries ≡ some p)

pub record IsWell (h : Shape) : Type 0 where
  pub distinct : Distinct h.entries
  -- an entry of the map has its key as id, lies below `next_ptr`, and is active or in the queue
  pub owned : (k : String) (p : ℕ) → GoMap.lookup k h.entries ≡ some p → h.ids p ≡ k
  pub allocated : (k : String) (p : ℕ) → GoMap.lookup k h.entries ≡ some p → p < h.next_ptr
  pub placed :
      (k : String) (p : ℕ)
      → GoMap.lookup k h.entries ≡ some p
      → is_active (h.statuses p) || has p h.queue ≡ true
  pub waiting : All (IsWaiting h) h.queue
  pub counted : h.active ≡ pos (count (λ p. is_active (h.statuses p)) h.entries)
  pub tiled : Tiled h.holes (suc h.next_seq) (map h.seqs h.queue)
  pub sorted : Ascending 0 h.holes
  pub bounded : All (λ x. x < suc h.next_seq) h.holes
  -- so that `int(e.seq - front.seq)` is exact
  pub roomy : h.next_seq < 2 ^ 63

abbrev pub IsWellFormed : {F : Type 0} → Store F → Type 0
IsWellFormed s = IsWell (shape s)

-- Shapes are equal if their heaps agree at each address.
pub shape_path :
    (h : Shape) (i : ℕ → String) (t : ℕ → Status) (q : ℕ → ℕ)
    → ((p : ℕ) → i p ≡ h.ids p)
    → ((p : ℕ) → t p ≡ h.statuses p)
    → ((p : ℕ) → q p ≡ h.seqs p)
    → record h { ids = i; statuses = t; seqs = q } ≡ h
shape_path h i t q a b c =
    λ j. record h { ids = fun_ext a j; statuses = fun_ext b j; seqs = fun_ext c j }
