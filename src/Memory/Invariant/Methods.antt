-- ===== src/Memory/Invariant/Methods.antt =====
-- The methods on one ticket, and the others but `Reconcile`, keep the store well-formed.
use gowait.Prelude.{
  ℕ, suc, ◌+◌, ◌%◌, ◌^◌, ◌++◌, ◌<◌, ◌≡◌, refl, sym, subst, String, Bool, true, false, some, none,
  List, [], ◌∷◌, ℤ, pos, ◌+ℤ◌, leb_ℤ, ltb, ==_iff, inl, inr, arith, Option-cases, Bool-cases, ◌||◌,
  length,
}
use gowait.Clock.{Time}
use gowait.GoMap
use gowait.Store.{Status}
use gowait.Memory.State.{Entry, Store, blank, update, is_active, new, see, admit_locked}
use gowait.Memory.Tickets.{
  active_entry, entry_or_new, push_entry, try_admit, enqueue, lookup, touch,
}
use gowait.Memory.Admin.{set_capacity, forget, flush}
use gowait.Memory.Invariant.{Shape, shape, has, IsWell, IsWellFormed, shape_path}
use gowait.Memory.Invariant.Steps.{IsWell-evict}
use gowait.Memory.Invariant.Fresh.{fresh, IsWell-admit_new, IsWell-enqueue}

has-length : (p : ℕ) (q : List ℕ) → has p q ≡ true → 0 < length q
has-length p [] h = cc
has-length p (x ∷ q) h = omega arith

module _ {F : Type 0} where
  -- A heartbeat is not part of the shape.
  pub shape-see : (s : Store F) (p : ℕ) (now : Time) → shape (see s p now) ≡ shape s
  unfolding see update
  shape-see s p now =
      shape_path (shape s) _ _ _ (λ q. ground (arith, ==_iff q p)) (λ q. ground (arith, ==_iff q p))
        (λ q. ground (arith, ==_iff q p))

  pub see-IsWellFormed :
      (s : Store F) (p : ℕ) (now : Time) → IsWellFormed s → IsWellFormed (see s p now)
  see-IsWellFormed s p now w = subst IsWell (sym (shape-see s p now)) w

  pub new-IsWellFormed : (zero : F) → IsWellFormed (new zero)
  unfolding new GoMap.lookup
  new-IsWellFormed zero = record {
    distinct = tt;
    owned = λ k p h. cc;
    allocated = λ k p h. cc;
    placed = λ k p h. cc;
    waiting = tt;
    counted = refl;
    tiled = tt;
    sorted = tt;
    bounded = tt;
    roomy = omega arith;
  }

  -- The store that a direct admission of a new id leaves.
  abbrev pub admitted_new : Store F → String → Time → Store F
  admitted_new s id now =
      admit_locked
        (record s {
          heap = update s.heap s.next_ptr (blank id);
          next_ptr = s.next_ptr + 1;
          entries = GoMap.insert id s.next_ptr s.entries;
        })
        s.next_ptr now

  entry_or_new_absent :
      (s : Store F) (id : String)
      → GoMap.lookup id s.entries ≡ none
      → entry_or_new s id ≡ (
        record s {
          heap = update s.heap s.next_ptr (blank id);
          next_ptr = s.next_ptr + 1;
          entries = GoMap.insert id s.next_ptr s.entries;
        },
        s.next_ptr,
      )
  unfolding entry_or_new
  entry_or_new_absent s id e = rw (e, entry_or_new)

  shape-admitted_new :
      (s : Store F) (id : String) (now : Time)
      → shape (admitted_new s id now)
        ≡ record (fresh (shape s) id Status.active 0) { active = s.active +ℤ pos 1 }
  unfolding admit_locked update
  shape-admitted_new s id now =
      shape_path (record (fresh (shape s) id Status.active 0) { active = s.active +ℤ pos 1 }) _ _ _
        (λ q. ground (arith, ==_iff q s.next_ptr)) (λ q. ground (arith, ==_iff q s.next_ptr))
        (λ q. ground (arith, ==_iff q s.next_ptr))

  admitted_new-IsWellFormed :
      (s : Store F) (id : String) (now : Time)
      → IsWellFormed s
      → GoMap.lookup id s.entries ≡ none
      → IsWellFormed (admitted_new s id now)
  admitted_new-IsWellFormed s id now w e =
      subst IsWell (sym (shape-admitted_new s id now)) (IsWell-admit_new (shape s) id w e)

  -- An entry that is not active waits in the queue.
  pub not_active-queue :
      (s : Store F) (id : String) (p : ℕ)
      → IsWellFormed s
      → GoMap.lookup id s.entries ≡ some p
      → is_active (s.heap p).status ≡ false
      → 0 < length s.queue
  not_active-queue s id p w e off = grind (arith, has-length p s.queue, w.placed id p e)

  abbrev pub is_full : Store F → ℤ → Bool
  is_full s capacity = leb_ℤ capacity s.active || ltb 0 (length s.queue)

  -- The branches of `TryAdmit` on a well-formed store: the heartbeat of an active ticket, the
  -- refusal, and the admission of a new entry.
  pub try_admit_cases {κ} :
      (P : Store F × Bool → Type κ) (s : Store F) (id : String) (capacity : ℤ) (now : Time)
      → IsWellFormed s
      → ((p : ℕ) → active_entry s id ≡ some p → P (see s p now, true))
      → (active_entry s id ≡ none → is_full s capacity ≡ true → P (s, false))
      → (GoMap.lookup id s.entries ≡ none
          → is_full s capacity ≡ false
          → P (admitted_new s id now, true))
      → P (try_admit s id capacity now)
  unfolding try_admit
  try_admit_cases P s id capacity now w seen refused admitted =
      elim (Option-cases (GoMap.lookup id s.entries)) [
        | inl e ↦
            rw (e, try_admit, active_entry)
              (elim (Bool-cases (is_full s capacity)) [
                | inl full ↦ rw full (refused (rw (e, active_entry)) full)
                | inr free ↦ rw free (
                    subst (λ r. P (admit_locked r.0 r.1 now, true))
                      (sym (entry_or_new_absent s id e)) (admitted e free))
              ])
        | inr (p, e) ↦ elim (Bool-cases (is_active (s.heap p).status)) [
          | inl on ↦ rw (e, on, try_admit, active_entry) (seen p (rw (e, on, active_entry)))
          | inr off ↦
              let full : is_full s capacity ≡ true =
                ground (arith, not_active-queue s id p w e off) in
              rw (e, off, full, try_admit, active_entry) (refused (rw (e, off, active_entry)) full)
        ]
      ]

  pub try_admit-IsWellFormed :
      (s : Store F) (id : String) (capacity : ℤ) (now : Time)
      → IsWellFormed s
      → IsWellFormed (try_admit s id capacity now).0
  try_admit-IsWellFormed s id capacity now w =
      try_admit_cases (λ r. IsWellFormed r.0) s id capacity now w
        (λ p _. see-IsWellFormed s p now w) (λ _ _. w)
        (λ e _. admitted_new-IsWellFormed s id now w e)

  pub touch-IsWellFormed :
      (s : Store F) (id : String) (now : Time) → IsWellFormed s → IsWellFormed (touch s id now).0
  unfolding touch
  touch-IsWellFormed s id now w = elim (Option-cases (active_entry s id)) [
    | inl e ↦ rw (e, touch) w
    | inr (p, e) ↦ rw (e, touch) (see-IsWellFormed s p now w)
  ]

  pub lookup-IsWellFormed :
      (s : Store F) (id : String) (now : Time) → IsWellFormed s → IsWellFormed (lookup s id now).0
  unfolding lookup
  lookup-IsWellFormed s id now w = elim (Option-cases (GoMap.lookup id s.entries)) [
    | inl e ↦ rw (e, lookup) w
    | inr (p, e) ↦ rw (e, lookup) (see-IsWellFormed s p now w)
  ]

  pub shape-push_entry :
      (s : Store F) (id : String) (now : Time)
      → suc s.next_seq < 2 ^ 63
      → shape (push_entry s id now) ≡ record (fresh (shape s) id Status.queued (suc s.next_seq)) {
        queue = s.queue ++ s.next_ptr ∷ [];
        next_seq = suc s.next_seq;
      }
  unfolding push_entry update
  shape-push_entry s id now room =
      let e : (s.next_seq + 1) % 2 ^ 64 ≡ suc s.next_seq = omega arith in
      rw e (
        shape_path
          (record (fresh (shape s) id Status.queued (suc s.next_seq)) {
            queue = s.queue ++ s.next_ptr ∷ [];
            next_seq = suc s.next_seq;
          })
          _ _ _ (λ q. ground (arith, ==_iff q s.next_ptr))
          (λ q. ground (arith, ==_iff q s.next_ptr)) (λ q. ground (arith, ==_iff q s.next_ptr)))

  pub push_entry-IsWellFormed :
      (s : Store F) (id : String) (now : Time)
      → IsWellFormed s
      → GoMap.lookup id s.entries ≡ none
      → suc s.next_seq < 2 ^ 63
      → IsWellFormed (push_entry s id now)
  push_entry-IsWellFormed s id now w e room =
      subst IsWell (sym (shape-push_entry s id now room)) (IsWell-enqueue (shape s) id w e room)

  pub enqueue-IsWellFormed :
      (s : Store F) (id : String) (now : Time)
      → IsWellFormed s
      → suc s.next_seq < 2 ^ 63
      → IsWellFormed (enqueue s id now).0
  unfolding enqueue
  enqueue-IsWellFormed s id now w room = elim (Option-cases (GoMap.lookup id s.entries)) [
    | inl e ↦
        rw (e, enqueue)
          (see-IsWellFormed (push_entry s id now) s.next_ptr now
            (push_entry-IsWellFormed s id now w e room))
    | inr (p, e) ↦ rw (e, enqueue) (see-IsWellFormed s p now w)
  ]

  pub set_capacity-IsWellFormed :
      (s : Store F) (n : ℤ) → IsWellFormed s → IsWellFormed (set_capacity s n)
  unfolding set_capacity
  set_capacity-IsWellFormed s n w = w

-- To flush is to evict the head until the queue is empty, and then to drop the holes.
IsWell-flush :
    (heap : ℕ → Entry) (q : List ℕ) (h : Shape)
    → IsWell h
    → ((p : ℕ) → (heap p).id ≡ h.ids p)
    → h.queue ≡ q
    → IsWell (record h { entries = forget heap q h.entries; queue = []; holes = [] })
unfolding forget
IsWell-flush heap [] h w same e = record {
  distinct = w.distinct;
  owned = w.owned;
  allocated = w.allocated;
  placed = λ k p l. ground (arith, w.placed k p l, e);
  waiting = tt;
  counted = w.counted;
  tiled = tt;
  sorted = tt;
  bounded = tt;
  roomy = w.roomy;
}
IsWell-flush heap (p ∷ q) h w same e =
    rw (same p) (IsWell-flush heap q _ (IsWell-evict h [] q p w e) same refl)

module _ {F : Type 0} where
  pub flush-IsWellFormed : (s : Store F) → IsWellFormed s → IsWellFormed (flush s).0
  unfolding flush
  flush-IsWellFormed s w = IsWell-flush s.heap s.queue (shape s) w (λ p. refl) refl
