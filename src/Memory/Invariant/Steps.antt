-- ===== src/Memory/Invariant/Steps.antt =====
-- What it does to well-formedness that an entry leaves the map or the queue.
use gowait.Prelude.{
  ℕ, suc, ◌<◌, ◌≡◌, ◌≢◌, sym, ap, subst, String, true, false, some, List, [], ◌∷◌, ◌++◌, map, pos,
  ◌+ℤ◌, ◌-ℤ◌, ==_iff, arith, All, str_eq-cases, str_eq_refl,
}
use gowait.GoMap
use gowait.GoMap.{
  Distinct, count, lookup-insert, lookup-remove, insert-Distinct, remove-Distinct, count-insert,
  count-remove, count_flip,
}
use gowait.Store.{Status}
use gowait.Memory.Holes.{add_hole, prune}
use gowait.Memory.Holes.Below.{below}
use gowait.Memory.Holes.Order.{add_hole-Ascending, add_hole-All, prune-Ascending, prune-All}
use gowait.Memory.Holes.Tiled.{Tiled, Tiled-evict, Tiled-prune}
use gowait.Memory.State.{is_active}
use gowait.Memory.Invariant.{Shape, put, has, IsWaiting, IsWell}
use gowait.Memory.Invariant.Queue.{
  All-imp, All-middle, has-middle, map-middle, Tiled-middle, Tiled-once,
}

-- Expiry: an active entry leaves the map.
pub IsWell-expire :
    (h : Shape) (k : String) (p : ℕ)
    → IsWell h
    → GoMap.lookup k h.entries ≡ some p
    → is_active (h.statuses p) ≡ true
    → IsWell (record h { entries = GoMap.remove k h.entries; active = h.active -ℤ pos 1 })
IsWell-expire h k p w at on = record {
  distinct = remove-Distinct k h.entries w.distinct;
  owned = λ j q l. ground (arith, lookup-remove k j h.entries, w.owned j q);
  allocated = λ j q l. ground (arith, lookup-remove k j h.entries, w.allocated j q);
  placed = λ j q l. ground (arith, lookup-remove k j h.entries, w.placed j q);
  waiting =
      All-imp (IsWaiting h) (IsWaiting (record h { entries = GoMap.remove k h.entries })) h.queue
        (λ q m v. ground (arith, lookup-remove k (h.ids q) h.entries, str_eq-cases k (h.ids q)))
        w.waiting;
  counted = ground (
    arith,
    w.counted,
    count-remove (λ (q : ℕ). is_active (h.statuses q)) k p h.entries w.distinct at,
  );
  tiled = w.tiled;
  sorted = w.sorted;
  bounded = w.bounded;
  roomy = w.roomy;
}

-- Eviction: an entry anywhere in the queue leaves it and the map, and its seq is a hole.
pub IsWell-evict :
    (h : Shape) (l r : List ℕ) (p : ℕ)
    → IsWell h
    → h.queue ≡ l ++ p ∷ r
    → IsWell (record h {
      queue = l ++ r;
      entries = GoMap.remove (h.ids p) h.entries;
      holes = add_hole (h.seqs p) h.holes;
    })
IsWell-evict h l r p w e = record {
  distinct = remove-Distinct k h.entries w.distinct;
  owned = λ j q m. ground (arith, lookup-remove k j h.entries, w.owned j q);
  allocated = λ j q m. ground (arith, lookup-remove k j h.entries, w.allocated j q);
  placed = λ j q m. ground (
    arith,
    lookup-remove k j h.entries,
    w.placed j q,
    w.owned j q,
    e,
    has-middle q p l r,
    str_eq_refl k,
    ap h.ids,
  );
  waiting =
      All-imp (IsWaiting h) (IsWaiting (record h { entries = GoMap.remove k h.entries })) (l ++ r)
        (λ q m v. ground (
          arith,
          lookup-remove k (h.ids q) h.entries,
          str_eq-cases k (h.ids q),
          Tiled-once h.seqs h.holes (suc h.next_seq) p l r tiles,
          waits.0,
        ))
        waits.1;
  counted = ground (
    arith,
    w.counted,
    waits.0,
    count-remove (λ (q : ℕ). is_active (h.statuses q)) k p h.entries w.distinct,
  );
  tiled =
      rw (map-middle h.seqs l r)
        (Tiled-evict (suc h.next_seq) (h.seqs p) h.holes (map h.seqs l) (map h.seqs r) tiles');
  sorted = add_hole-Ascending (h.seqs p) h.holes w.sorted mid.0 mid.1;
  bounded = add_hole-All (suc h.next_seq) (h.seqs p) h.holes w.bounded mid.2;
  roomy = w.roomy;
}
  where
    k : String
    k = h.ids p

    waits : IsWaiting h p × All (IsWaiting h) (l ++ r)
    waits = All-middle (IsWaiting h) l r p (subst (All (IsWaiting h)) e w.waiting)

    tiles : Tiled h.holes (suc h.next_seq) (map h.seqs (l ++ p ∷ r))
    tiles = subst (λ q. Tiled h.holes (suc h.next_seq) (map h.seqs q)) e w.tiled

    tiles' : Tiled h.holes (suc h.next_seq) (map h.seqs l ++ h.seqs p ∷ map h.seqs r)
    tiles' = subst (Tiled h.holes (suc h.next_seq)) (map-middle h.seqs l (p ∷ r)) tiles

    mid :
        (0 < h.seqs p)
        × (below h.holes (suc (h.seqs p)) ≡ below h.holes (h.seqs p))
        × (h.seqs p < suc h.next_seq)
    mid = Tiled-middle h.holes (map h.seqs l) (map h.seqs r) (suc h.next_seq) (h.seqs p) tiles'

-- Promotion: the head of the queue becomes active.
pub IsWell-promote :
    (h : Shape) (p : ℕ) (rest : List ℕ)
    → IsWell h
    → h.queue ≡ p ∷ rest
    → IsWell (record h {
      queue = rest;
      statuses = put h.statuses p Status.active;
      active = h.active +ℤ pos 1;
    })
IsWell-promote h p rest w e = record {
  distinct = w.distinct;
  owned = w.owned;
  allocated = w.allocated;
  placed = λ j q m. ground (arith, w.placed j q, ==_iff p q, e);
  waiting =
      All-imp (IsWaiting h) (IsWaiting (record h { statuses = put h.statuses p Status.active }))
        rest (λ q m v. ground (arith, ==_iff q p, once)) waits.1;
  counted = ground (
    arith,
    w.counted,
    waits.0,
    count_flip (λ (q : ℕ). is_active (h.statuses q))
        (λ (q : ℕ). is_active (put h.statuses p Status.active q)) p (ground (arith, waits.0))
        (ground arith) (λ (q : ℕ) (ne : q ≢ p). ground arith) (h.ids p) h.entries w.distinct
        waits.0.1 (λ (j : String) (at : GoMap.lookup j h.entries ≡ some p). sym (w.owned j p at)),
  );
  tiled = tiles.4;
  sorted = w.sorted;
  bounded = w.bounded;
  roomy = w.roomy;
}
  where
    waits : IsWaiting h p × All (IsWaiting h) rest
    waits = subst (All (IsWaiting h)) e w.waiting

    tiles : Tiled h.holes (suc h.next_seq) (map h.seqs (p ∷ rest))
    tiles = subst (λ q. Tiled h.holes (suc h.next_seq) (map h.seqs q)) e w.tiled

    once : has p rest ≡ false
    once = Tiled-once h.seqs h.holes (suc h.next_seq) p [] rest tiles

pub IsWell-prune :
    (h : Shape) → IsWell h → IsWell (record h { holes = prune (map h.seqs h.queue) h.holes })
IsWell-prune h w = record {
  distinct = w.distinct;
  owned = w.owned;
  allocated = w.allocated;
  placed = w.placed;
  waiting = w.waiting;
  counted = w.counted;
  roomy = w.roomy;
  tiled = Tiled-prune (suc h.next_seq) h.holes (map h.seqs h.queue) w.sorted w.tiled;
  sorted = prune-Ascending (map h.seqs h.queue) h.holes w.sorted;
  bounded = prune-All (suc h.next_seq) (map h.seqs h.queue) h.holes w.bounded;
}
