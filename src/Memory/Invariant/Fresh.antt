-- ===== src/Memory/Invariant/Fresh.antt =====
-- What it does to well-formedness that a new entry comes to the map.
use gowait.Prelude.{
  ℕ, suc, ◌+◌, ◌^◌, ◌≤◌, ◌<◌, ◌≡◌, ◌≢◌, refl, String, false, ◌||◌, some, none, List, [], ◌∷◌, ◌++◌,
  map, pos, ◌+ℤ◌, ◌==◌, ==_iff, arith, if◌then◌else◌, All, str_eq-cases, str_eq_refl,
}
use gowait.GoMap
use gowait.GoMap.{
  count_elsewhere, Distinct, count, lookup-insert, lookup-remove, insert-Distinct, remove-Distinct,
  count-insert, count-remove, count_flip,
}
use gowait.Store.{Status}
use gowait.Memory.Holes.Tiled.{Tiled-snoc}
use gowait.Memory.State.{is_active}
use gowait.Memory.Invariant.{Shape, put, has, IsWaiting, IsWell}
use gowait.Memory.Invariant.Queue.{All-imp, map-middle}

-- A new address is in no queue.
pub All-IsWaiting-has :
    (h : Shape) (p : ℕ) (q : List ℕ)
    → ((k : String) (r : ℕ) → GoMap.lookup k h.entries ≡ some r → r < h.next_ptr)
    → All (IsWaiting h) q
    → h.next_ptr ≤ p
    → has p q ≡ false
All-IsWaiting-has h p [] alloc w l = refl
All-IsWaiting-has h p (r ∷ q) alloc w l =
    ground (arith, alloc (h.ids r) r w.0.1, All-IsWaiting-has h p q alloc w.1 l)

pub map-put {ℓ} :
    {A : Type ℓ} (f : ℕ → A) (p : ℕ) (v : A) (q : List ℕ)
    → has p q ≡ false
    → map (put f p v) q ≡ map f q
map-put f p v [] h = refl
map-put f p v (r ∷ q) h = ground (arith, map-put f p v q)

module _ (h : Shape) (id : String) (status : Status) (seq : ℕ) where
  -- A new entry under a new id.
  abbrev pub fresh : Shape
  fresh = record h {
    ids = put h.ids h.next_ptr id;
    statuses = put h.statuses h.next_ptr status;
    seqs = put h.seqs h.next_ptr seq;
    next_ptr = h.next_ptr + 1;
    entries = GoMap.insert id h.next_ptr h.entries;
  }

  module _ (w : IsWell h) (absent : GoMap.lookup id h.entries ≡ none) where
    fresh-owned : (k : String) (p : ℕ) → GoMap.lookup k fresh.entries ≡ some p → fresh.ids p ≡ k
    fresh-owned k p m = ground (
      arith,
      lookup-insert id k h.next_ptr h.entries,
      str_eq-cases id k,
      w.owned k p,
      w.allocated k p,
    )

    fresh-allocated :
        (k : String) (p : ℕ) → GoMap.lookup k fresh.entries ≡ some p → p < fresh.next_ptr
    fresh-allocated k p m = ground (arith, lookup-insert id k h.next_ptr h.entries, w.allocated k p)

    fresh-IsWaiting : All (IsWaiting fresh) h.queue
    fresh-IsWaiting =
        All-imp (IsWaiting h) (IsWaiting fresh) h.queue
          (λ q m v. ground (
            arith,
            lookup-insert id (h.ids q) h.next_ptr h.entries,
            str_eq-cases id (h.ids q),
            w.allocated (h.ids q) q,
            absent,
          ))
          w.waiting

    fresh-count : count (λ p. is_active (fresh.statuses p)) fresh.entries ≡ (
        if is_active status
        then suc (count (λ p. is_active (h.statuses p)) h.entries)
        else count (λ p. is_active (h.statuses p)) h.entries)
    fresh-count = ground (
      arith,
      count-insert (λ (p : ℕ). is_active (fresh.statuses p)) id h.next_ptr h.entries absent,
      count_elsewhere (λ (p : ℕ). is_active (h.statuses p))
          (λ (p : ℕ). is_active (fresh.statuses p)) h.next_ptr h.entries w.distinct
          (λ (j : String) (at : GoMap.lookup j h.entries ≡ some h.next_ptr).
            ground (arith, w.allocated j h.next_ptr at))
          (λ (q : ℕ) (ne : q ≢ h.next_ptr). ground arith),
    )

    fresh-seqs : map fresh.seqs h.queue ≡ map h.seqs h.queue
    fresh-seqs =
        map-put h.seqs h.next_ptr seq h.queue
          (All-IsWaiting-has h h.next_ptr h.queue w.allocated w.waiting (omega arith))

-- Direct admission: the new entry is active and in no queue.
pub IsWell-admit_new :
    (h : Shape) (id : String)
    → IsWell h
    → GoMap.lookup id h.entries ≡ none
    → IsWell (record (fresh h id Status.active 0) { active = h.active +ℤ pos 1 })
IsWell-admit_new h id w absent = record {
  distinct = insert-Distinct id h.next_ptr h.entries w.distinct;
  owned = fresh-owned h id Status.active 0 w absent;
  allocated = fresh-allocated h id Status.active 0 w absent;
  placed = λ k p m.
      ground (arith, lookup-insert id k h.next_ptr h.entries, w.placed k p, w.allocated k p);
  waiting = fresh-IsWaiting h id Status.active 0 w absent;
  counted = ground (arith, w.counted, fresh-count h id Status.active 0 w absent);
  tiled = rw (fresh-seqs h id Status.active 0 w absent) w.tiled;
  sorted = w.sorted;
  bounded = w.bounded;
  roomy = w.roomy;
}

All-lt-weaken : (e : ℕ) (xs : List ℕ) → All (λ x. x < e) xs → All (λ x. x < suc e) xs
All-lt-weaken e [] a = tt
All-lt-weaken e (x ∷ xs) a = (omega arith, All-lt-weaken e xs a.1)

All-snoc : (P : ℕ → Type 0) (xs : List ℕ) (x : ℕ) → All P xs → P x → All P (xs ++ x ∷ [])
All-snoc P [] x a p = (p, tt)
All-snoc P (y ∷ xs) x a p = (a.0, All-snoc P xs x a.1 p)

has-snoc : (q p : ℕ) (xs : List ℕ) → has q (xs ++ p ∷ []) ≡ (has q xs || p == q)
has-snoc q p [] = ground arith
has-snoc q p (x ∷ xs) = ground (arith, has-snoc q p xs)

-- A new ticket in line: the entry stands at the end of the queue under the next seq.
pub IsWell-enqueue :
    (h : Shape) (id : String)
    → IsWell h
    → GoMap.lookup id h.entries ≡ none
    → suc h.next_seq < 2 ^ 63
    → IsWell (record (fresh h id Status.queued (suc h.next_seq)) {
      queue = h.queue ++ h.next_ptr ∷ [];
      next_seq = suc h.next_seq;
    })
IsWell-enqueue h id w absent room = record {
  distinct = insert-Distinct id h.next_ptr h.entries w.distinct;
  owned = fresh-owned h id Status.queued (suc h.next_seq) w absent;
  allocated = fresh-allocated h id Status.queued (suc h.next_seq) w absent;
  placed = λ k p m. ground (
    arith,
    lookup-insert id k h.next_ptr h.entries,
    w.placed k p,
    w.allocated k p,
    has-snoc p h.next_ptr h.queue,
    ==_iff h.next_ptr p,
  );
  waiting =
      All-snoc (IsWaiting (fresh h id Status.queued (suc h.next_seq))) h.queue h.next_ptr
        (fresh-IsWaiting h id Status.queued (suc h.next_seq) w absent)
        (ground (arith, lookup-insert id id h.next_ptr h.entries, str_eq_refl id));
  counted = ground (arith, w.counted, fresh-count h id Status.queued (suc h.next_seq) w absent);
  tiled =
      rw (map-middle seqs h.queue (h.next_ptr ∷ []), fresh-seqs h id Status.queued seq w absent)
        (ground
          (arith, Tiled-snoc seq h.holes (map h.seqs h.queue) w.bounded (omega arith) w.tiled));
  sorted = w.sorted;
  bounded = All-lt-weaken (suc h.next_seq) h.holes w.bounded;
  roomy = room;
}
  where
    seq : ℕ
    seq = suc h.next_seq

    seqs : ℕ → ℕ
    seqs = put h.seqs h.next_ptr seq
