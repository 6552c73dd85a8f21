-- ===== src/Memory/Position.antt =====
-- The position that a snapshot reports, and the place in line.
use gowait.Prelude.{
  ◌⊎◌, length-map, ℕ, zero, suc, ◌+◌, ◌-◌, ◌^◌, ◌≤◌, ◌<◌, ◌≡◌, refl, sym, ap, ◌∙◌, String, true,
  false, some, none, List, [], ◌∷◌, map, pos, ◌+ℤ◌, ◌-ℤ◌, ◌==◌, ==_iff, inl, inr, arith,
  Option-cases, Bool-cases, str_eq_refl, length, get_elem?,
}
use gowait.Clock.{Time}
use gowait.Int64.{to_int}
use gowait.GoMap
use gowait.GoMap.{lookup-insert}
use gowait.Store.{Status, Snapshot}
use gowait.Memory.Holes.Tiled.{Tiled, Tiled-rank, Tiled-searches}
use gowait.Memory.State.{Store, see, is_queued}
use gowait.Memory.Tickets.{
  sub_uint64, position, snapshot_at, snapshot_locked, enqueue, lookup, push_entry,
}
use gowait.Memory.Invariant.{shape, has, IsWellFormed}
use gowait.Memory.Invariant.Methods.{see-IsWellFormed, push_entry-IsWellFormed}
use gowait.Memory.View.{line, status_of}

get_elem?-map {ℓ κ} :
    {A : Type ℓ} {B : Type κ} (f : A → B) (xs : List A) (i : ℕ) (x : A)
    → get_elem? xs i ≡ some x
    → get_elem? (map f xs) i ≡ some (f x)
get_elem?-map f [] i x h = cc
get_elem?-map f (y ∷ xs) zero x h = ground (arith, ap f)
get_elem?-map f (y ∷ xs) (suc i) x h = get_elem?-map f xs i x h

-- The int arithmetic of the position, on seqs that fit.
position_arith :
    (x f lo hi i : ℕ)
    → x < 2 ^ 63
    → f ≤ x
    → lo ≤ hi
    → x - f + 1 ≡ suc i + (hi - lo)
    → to_int (sub_uint64 x f) +ℤ pos 1 -ℤ (pos hi -ℤ pos lo) ≡ pos (suc i)
position_arith x f lo hi i a b c d =
    let e : sub_uint64 x f ≡ x - f = omega arith in rw e (ground arith)

has-index : (p : ℕ) (q : List ℕ) → has p q ≡ true → (i : ℕ) × (get_elem? q i ≡ some p)
has-index p [] h = cc
has-index p (x ∷ q) h = elim (Bool-cases (x == p)) [
  | inl e ↦ (0, ground (arith, ==_iff x p))
  | inr n ↦ let (i, e) = has-index p q (ground (arith, n)) in (suc i, e)
]

-- What a snapshot says of a ticket: its status, the sizes of the room, and its place in line if it
-- is queued, counted from 1.
pub record Reports {F : Type 0} (s : Store F) (id : String) (snap : Snapshot) : Type 0 where
  pub status : snap.status ≡ status_of s id
  pub waiting : snap.queue_length ≡ pos (length (line s))
  pub active : snap.active_count ≡ s.active
  pub place :
      (is_queued (status_of s id) ≡ false) × (snap.position ≡ pos 0)
      ⊎ ((i : ℕ) × (is_queued (status_of s id) ≡ true)
          × (get_elem? (line s) i ≡ some id)
          × (snap.position ≡ pos (suc i)))

module _ {F : Type 0} where
  position_at :
      (s : Store F) (p i : ℕ) (q : List ℕ)
      → IsWellFormed s
      → get_elem? q i ≡ some p
      → Tiled s.holes (suc s.next_seq) (map (shape s).seqs q)
      → position s p q ≡ some (pos (suc i))
  unfolding position
  position_at s p i [] w h t = cc
  position_at s p i (f ∷ q) w h t =
      let x = (s.heap p).seq in
      let at = get_elem?-map (shape s).seqs (f ∷ q) i p h in
      let (r, le, lt) = Tiled-rank (suc s.next_seq) i (s.heap f).seq x s.holes _ t at in
      let (order, exact) =
        Tiled-searches (suc s.next_seq) i (s.heap f).seq x s.holes _ w.sorted t at in
      ap some (position_arith x (s.heap f).seq _ _ i (omega (arith, w.roomy)) le order exact)

  -- The entry at index `i` of the queue is told the position `i + 1`.
  pub position-index :
      (s : Store F) (p i : ℕ)
      → IsWellFormed s
      → get_elem? s.queue i ≡ some p
      → position s p s.queue ≡ some (pos (suc i))
  position-index s p i w h = position_at s p i s.queue w h w.tiled

  status_of_found :
      (s : Store F) (id : String) (p : ℕ)
      → GoMap.lookup id s.entries ≡ some p
      → status_of s id ≡ (s.heap p).status
  unfolding status_of
  status_of_found s id p e = rw (e, status_of)

  -- A snapshot of an entry in the map is taken without a fault.
  pub snapshot_locked-Reports :
      (s : Store F) (id : String) (p : ℕ)
      → IsWellFormed s
      → GoMap.lookup id s.entries ≡ some p
      → (snap : Snapshot) × (snapshot_locked s p ≡ some snap) × Reports s id snap
  unfolding snapshot_locked
  snapshot_locked-Reports s id p w e = elim (Bool-cases (is_queued (s.heap p).status)) [
    | inl q ↦
        let (i, at) = has-index p s.queue (ground (arith, q, w.placed id p e)) in
        (
          snapshot_at s (s.heap p).status (pos (suc i)),
          rw (q, position-index s p i w at, snapshot_locked),
          record {
            status = sym (status_of_found s id p e);
            waiting = ap pos (sym (length-map _ s.queue));
            active = refl;
            place = inr (
              i,
              ap is_queued (status_of_found s id p e) ∙ q,
              get_elem?-map (shape s).ids s.queue i p at ∙ ap some (w.owned id p e),
              refl,
            );
          },
        )
    | inr n ↦ (
      snapshot_at s (s.heap p).status (pos 0),
      rw (n, snapshot_locked),
      record {
        status = sym (status_of_found s id p e);
        waiting = ap pos (sym (length-map _ s.queue));
        active = refl;
        place = inl (ap is_queued (status_of_found s id p e) ∙ n, refl);
      },
    )
  ]

  status_of_absent :
      (s : Store F) (id : String)
      → GoMap.lookup id s.entries ≡ none
      → status_of s id ≡ Status.unknown
  unfolding status_of
  status_of_absent s id e = rw (e, status_of)

  pushed-lookup :
      (s : Store F) (id : String) (now : Time)
      → GoMap.lookup id (see (push_entry s id now) s.next_ptr now).entries ≡ some s.next_ptr
  unfolding see push_entry
  pushed-lookup s id now = ground (arith, lookup-insert id id s.next_ptr s.entries, str_eq_refl id)

  -- On a well-formed store `Lookup` takes its snapshot without a fault, and the snapshot has the
  -- ticket's status, the lengths of the line and of the active set, and the ticket's place in
  -- line.
  pub lookup-Reports :
      (s : Store F) (id : String) (now : Time)
      → IsWellFormed s
      → (snap : Snapshot) × ((lookup s id now).1 ≡ some snap) × Reports (lookup s id now).0 id snap
  unfolding lookup
  lookup-Reports s id now w = elim (Option-cases (GoMap.lookup id s.entries)) [
    | inl e ↦
        rw (e, lookup)
          (
            snapshot_at s Status.unknown (pos 0),
            refl,
            record {
              status = sym (status_of_absent s id e);
              waiting = ap pos (sym (length-map _ s.queue));
              active = refl;
              place = inl (ap is_queued (status_of_absent s id e), refl);
            },
          )
    | inr (p, e) ↦
        rw (e, lookup) (snapshot_locked-Reports (see s p now) id p (see-IsWellFormed s p now w) e)
  ]

  -- On a well-formed store with a seq left, `Enqueue` takes its snapshot without a fault, and the
  -- snapshot has the ticket's status after the call, the lengths of the line and of the active
  -- set, and the ticket's place in line.
  pub enqueue-Reports :
      (s : Store F) (id : String) (now : Time)
      → IsWellFormed s
      → suc s.next_seq < 2 ^ 63
      → (snap : Snapshot) × ((enqueue s id now).1 ≡ some snap)
        × Reports (enqueue s id now).0 id snap
  unfolding enqueue
  enqueue-Reports s id now w room = elim (Option-cases (GoMap.lookup id s.entries)) [
    | inl e ↦
        rw (e, enqueue)
          (snapshot_locked-Reports (see (push_entry s id now) s.next_ptr now) id s.next_ptr
            (see-IsWellFormed (push_entry s id now) s.next_ptr now
              (push_entry-IsWellFormed s id now w e room))
            (pushed-lookup s id now))
    | inr (p, e) ↦
        rw (e, enqueue) (snapshot_locked-Reports (see s p now) id p (see-IsWellFormed s p now w) e)
  ]
