-- ===== src/Memory/Line.antt =====
-- What `Enqueue` and `Flush` do to the line and to each ticket.
use gowait.Prelude.{
  ℕ, suc, ◌^◌, ◌<◌, ◌≡◌, refl, ap, ◌∙◌, inl, inr, String, Bool, true, false, ◌&&◌, some, none, List,
  [], ◌∷◌, ◌++◌, map, ==_iff, ◌⊎◌, arith, if◌then◌else◌, Option-cases, Bool-cases, str_eq,
  str_eq-cases, str_eq_refl, All,
}
use mathlib.Core.Path.{ap₂}
use mathlib.Core.List.{map-append}
use gowait.Clock.{Time}
use gowait.GoMap
use gowait.GoMap.{lookup-insert, lookup-remove}
use gowait.Store.{Status}
use gowait.Memory.State.{Entry, Store, update, see, is_active, is_queued}
use gowait.Memory.Tickets.{push_entry, enqueue}
use gowait.Memory.Admin.{forget, flush}
use gowait.Memory.Invariant.{Shape, shape, has, IsWaiting, IsWell, IsWellFormed}
use gowait.Memory.Invariant.Fresh.{map-put, All-IsWaiting-has}
use gowait.Memory.Invariant.Methods.{shape-see, shape-push_entry}
use gowait.Memory.View.{line, status_of}
use gowait.Memory.Rounds.Expiry.{lists}
use gowait.Memory.Admission.{status-see}

abbrev pub is_unknown : Status → Bool
is_unknown Status.unknown = true
is_unknown _ = false

has-IsWaiting :
    (h : Shape) (p : ℕ) (q : List ℕ)
    → All (IsWaiting h) q
    → has p q ≡ true
    → h.statuses p ≡ Status.queued
has-IsWaiting h p [] w e = cc
has-IsWaiting h p (x ∷ q) w e = ground (arith, ==_iff x p, ap h.statuses, has-IsWaiting h p q w.1)

-- A known ticket is active or queued.
pub found-status :
    (h : Shape) (k : String) (p : ℕ)
    → IsWell h
    → GoMap.lookup k h.entries ≡ some p
    → (h.statuses p ≡ Status.active) ⊎ ((h.statuses p ≡ Status.queued) × (has p h.queue ≡ true))
found-status h k p w e = elim (Bool-cases (is_active (h.statuses p))) [
  | inl on ↦ inl (ground (arith, on))
  | inr off ↦
      let in_queue : has p h.queue ≡ true = ground (arith, off, w.placed k p e) in
      inr (has-IsWaiting h p h.queue w.waiting in_queue, in_queue)
]

module _ {F : Type 0} where
  pub line-see : (s : Store F) (p : ℕ) (now : Time) → line (see s p now) ≡ line s
  line-see s p now = ap (λ h. map h.ids h.queue) (shape-see s p now)

  line-push_entry :
      (s : Store F) (id : String) (now : Time)
      → IsWellFormed s
      → suc s.next_seq < 2 ^ 63
      → line (push_entry s id now) ≡ line s ++ id ∷ []
  line-push_entry s id now w room =
      ap (λ h. map h.ids h.queue) (shape-push_entry s id now room)
      ∙ map-append _ s.queue (s.next_ptr ∷ [])
      ∙ ap₂ (λ a b. a ++ b ∷ [])
          (map-put (shape s).ids s.next_ptr id s.queue
            (All-IsWaiting-has (shape s) s.next_ptr s.queue w.allocated w.waiting (omega arith)))
          (ground (arith, ==_iff s.next_ptr s.next_ptr))

  push_entry-status :
      (s : Store F) (id k : String) (now : Time)
      → IsWellFormed s
      → status_of (push_entry s id now) k ≡ (if str_eq id k then Status.queued else status_of s k)
  unfolding status_of push_entry update
  push_entry-status s id k now w = elim (Option-cases (GoMap.lookup k s.entries)) [
    | inl e ↦ ground (arith, e, lookup-insert id k s.next_ptr s.entries)
    | inr (q, e) ↦ ground (arith, e, lookup-insert id k s.next_ptr s.entries, w.allocated k q e)
  ]

  -- On a well-formed store with a seq left, `Enqueue` of an unknown ticket puts it at the end of
  -- the line, as queued; of any other it changes neither the line nor the status of a ticket.
  pub enqueue-line :
      (s : Store F) (id k : String) (now : Time)
      → IsWellFormed s
      → suc s.next_seq < 2 ^ 63
      → let s' = (enqueue s id now).0 in
        let new = is_unknown (status_of s id) in
        (line s' ≡ (if new then line s ++ id ∷ [] else line s))
        × (status_of s' k ≡ (if new && str_eq id k then Status.queued else status_of s k))
  unfolding enqueue
  enqueue-line s id k now w room = elim (Option-cases (GoMap.lookup id s.entries)) [
    | inl e ↦
        let u : is_unknown (status_of s id) ≡ true = unfold status_of in ground (arith, e) in
        rw (e, u, enqueue)
          (
            line-see (push_entry s id now) s.next_ptr now ∙ line-push_entry s id now w room,
            status-see (push_entry s id now) s.next_ptr now k ∙ push_entry-status s id k now w,
          )
    | inr (p, e) ↦
        let u : is_unknown (status_of s id) ≡ false =
          unfold status_of in ground (arith, e, found-status (shape s) id p w e) in
        rw (e, u, enqueue) (line-see s p now, status-see s p now k)
  ]

forget-lookup :
    (heap : ℕ → Entry) (q : List ℕ) (m : List (String × ℕ)) (k : String)
    → GoMap.lookup k (forget heap q m)
      ≡ (if lists k (map (λ p. (heap p).id) q) then none else GoMap.lookup k m)
unfolding forget
forget-lookup heap [] m k = refl
forget-lookup heap (p ∷ q) m k =
    ground
      (arith, forget-lookup heap q (GoMap.remove (heap p).id m) k, lookup-remove (heap p).id k m)

-- The ids in line are those of the addresses in the queue.
has-lists : (f : ℕ → String) (p : ℕ) (q : List ℕ) → has p q ≡ true → lists (f p) (map f q) ≡ true
has-lists f p [] h = cc
has-lists f p (x ∷ q) h = ground (arith, ==_iff x p, str_eq_refl (f p), has-lists f p q)

lists-IsWaiting :
    (h : Shape) (k : String) (p : ℕ) (q : List ℕ)
    → All (IsWaiting h) q
    → GoMap.lookup k h.entries ≡ some p
    → lists k (map h.ids q) ≡ true
    → h.statuses p ≡ Status.queued
lists-IsWaiting h k p [] w e l = cc
lists-IsWaiting h k p (x ∷ q) w e l =
    ground (arith, str_eq-cases (h.ids x) k, lists-IsWaiting h k p q w.1 e)

module _ {F : Type 0} where
  -- On a well-formed store `Flush` empties the line, makes those who were queued unknown, and
  -- leaves the active count and the status of every other ticket.
  pub flush-status :
      (s : Store F) (k : String)
      → IsWellFormed s
      → (line (flush s).0 ≡ [])
        × ((flush s).0.active ≡ s.active)
        × (status_of (flush s).0 k
            ≡ (if is_queued (status_of s k) then Status.unknown else status_of s k))
  unfolding flush status_of
  flush-status s k w = (
    refl,
    refl,
    elim (Option-cases (GoMap.lookup k s.entries)) [
      | inl e ↦ ground (arith, e, forget-lookup s.heap s.queue s.entries k)
      | inr (p, e) ↦ ground (
        arith,
        e,
        forget-lookup s.heap s.queue s.entries k,
        found-status (shape s) k p w e,
        lists-IsWaiting (shape s) k p s.queue w.waiting e,
        has-lists (shape s).ids p s.queue,
        w.owned k p e,
      )
    ],
  )
