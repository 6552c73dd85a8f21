-- ===== src/Memory/Kept/Calls.antt =====
-- Enqueue, TryAdmit, Reconcile and Touch, in terms of the view.
use gowait.Prelude.{
  ℕ, zero, suc, ◌-◌, ◌^◌, ◌<◌, ◌≡◌, refl, ap, subst, ◌∙◌, ◌⊎◌, inl, inr, String, true, false, some,
  List, [], ◌∷◌, ◌++◌, map, ℤ, pos, ◌+ℤ◌, ◌≤ℤ◌, length, get_elem?, take, arith, Bool-cases, All,
  str_eq-cases, str_eq_refl, if◌then◌else◌, pos_part, min, length-map, length-take,
}
use gowait.Results.{ok}
use gowait.Clock.{Time, Duration, Floats}
use gowait.GoMap
use gowait.Store.{Status, Snapshot}
use gowait.Store.Promises.{Shows, IsPlaced, HasRoom}
use gowait.Memory.State.{Store, admit_locked}
use gowait.Memory.Tickets.{try_admit, enqueue, touch}
use gowait.Memory.Reconcile.{reconcile}
use gowait.Memory.Invariant.{Shape, shape, IsWaiting, IsWellFormed}
use gowait.Memory.Invariant.Methods.{
  touch-IsWellFormed, try_admit-IsWellFormed, try_admit_cases, enqueue-IsWellFormed,
}
use gowait.Memory.Invariant.Loops.{reconcile-IsWellFormed, alive}
use gowait.Memory.Counters.{
  touch_counters, enqueue_counters, try_admit-next_seq, reconcile-next_seq,
}
use gowait.Memory.View.{line, status_of}
use gowait.Memory.Position.{enqueue-Reports}
use gowait.Memory.Admission.{active_entry-status, full-HasRoom, free-HasRoom, admitted_new-status}
use gowait.Memory.Line.{enqueue-line, is_unknown}
use gowait.Memory.Rounds.Expiry.{lists}
use gowait.Memory.Rounds.Outcome.{reconcile-Round}
use gowait.Memory.Instance.{or_fault, view, IsValid}
use gowait.Memory.Kept.Looks.{Reports-Shows, touch-view}

-- Who is listed in line is queued.
listed_lem :
    (h : Shape) (k : String) (q : List ℕ)
    → All (IsWaiting h) q
    → lists k (map h.ids q) ≡ true
    → (p : ℕ) × (GoMap.lookup k h.entries ≡ some p) × (h.statuses p ≡ Status.queued)
listed_lem h k [] w e = cc
listed_lem h k (x ∷ q) w e = elim (str_eq-cases (h.ids x) k) [
  | inl (b, same) ↦ (x, subst (λ i. GoMap.lookup i h.entries ≡ some x) same w.0.1, w.0.0)
  | inr (b, n) ↦ listed_lem h k q w.1 (ground (arith, b))
]

-- One who was not listed before is at the end.
last_index :
    (xs : List String) (id : String) (i : ℕ)
    → lists id xs ≡ false
    → get_elem? (xs ++ id ∷ []) i ≡ some id
    → i ≡ length xs
last_index [] id zero h e = refl
last_index [] id (suc i) h e = cc
last_index (x ∷ xs) id zero h e = ground (arith, str_eq_refl id)
last_index (x ∷ xs) id (suc i) h e = ap suc (last_index xs id i (ground (arith, h)) e)

module _ {F : Type 0} where
  unlisted_lem :
      (s : Store F) (id : String)
      → IsWellFormed s
      → status_of s id ≡ Status.unknown
      → lists id (line s) ≡ false
  unfolding status_of
  unlisted_lem s id w u = elim (Bool-cases (lists id (line s))) [
    | inr n ↦ n
    | inl y ↦ let (p, e, q) = listed_lem (shape s) id s.queue w.waiting y in ground (arith, e, q)
  ]

  pub enqueue_kept :
      (n : ℕ) (s : Store F) (id : String) (now : Time)
      → IsValid (suc n) s
      → status_of s id ≡ Status.unknown
      → (snap : Snapshot) × (or_fault (enqueue s id now).1 ≡ ok snap)
        × (IsValid n (enqueue s id now).0
            × Shows (view (enqueue s id now).0) id snap
            × IsPlaced (view (enqueue s id now).0) id snap.position
            × (snap.position ≡ pos (suc (length (line s))))
            × ((enqueue s id now).0.active ≡ s.active))
  enqueue_kept n s id now (w, room) u =
      let fits : suc s.next_seq < 2 ^ 63 = omega arith in
      let new : is_unknown (status_of s id) ≡ true = rw u refl in
      let s' = (enqueue s id now).0 in
      let (snap, e, r) = enqueue-Reports s id now w fits in
      let behind : line s' ≡ line s ++ id ∷ [] =
        (enqueue-line s id id now w fits).0
        ∙ ap (λ b. if b then line s ++ id ∷ [] else line s) new in
      let queued : status_of s' id ≡ Status.queued =
        ground (arith, (enqueue-line s id id now w fits).1, new, str_eq_refl id) in
      let shown = Reports-Shows s' id snap r in
      let placed : IsPlaced (view s') id snap.position = elim shown.place [
        | inl (off, z) ↦ absurd (off queued)
        | inr p ↦ p
      ] in
      let last : placed.0 ≡ length (line s) =
        last_index (line s) id placed.0 (unlisted_lem s id w u)
          (subst (λ l. get_elem? l placed.0 ≡ some id) behind placed.2) in
      (
        snap,
        ap or_fault e,
        (
          (enqueue-IsWellFormed s id now w fits, omega (arith, enqueue_counters s id now fits)),
          shown,
          placed,
          placed.3 ∙ ap (λ i. pos (suc i)) last,
          (enqueue_counters s id now fits).1,
        ),
      )

  pub admit_kept :
      (n : ℕ) (s : Store F) (id : String) (capacity : ℤ) (now : Time)
      → IsValid n s
      → status_of s id ≡ Status.unknown
      → let r = try_admit s id capacity now in
        IsValid n r.0
        × ((r.1 ≡ true)
              × HasRoom (view s) capacity
              × (status_of r.0 id ≡ Status.active)
              × (r.0.active ≡ s.active +ℤ pos 1)
            ⊎ (r.1 ≡ false) × (¬ HasRoom (view s) capacity) × (view r.0 ≡ view s))
  admit_kept n s id capacity now (w, room) u = (
    (
      try_admit-IsWellFormed s id capacity now w,
      omega (arith, try_admit-next_seq s id capacity now),
    ),
    try_admit_cases
        (λ r.
          (r.1 ≡ true)
            × HasRoom (view s) capacity
            × (status_of r.0 id ≡ Status.active)
            × (r.0.active ≡ s.active +ℤ pos 1)
          ⊎ (r.1 ≡ false) × (¬ HasRoom (view s) capacity) × (view r.0 ≡ view s))
        s id capacity now w (λ p e. absurd (ground (arith, u, (active_entry-status s id p e).0)))
        (λ _ f. inr (refl, full-HasRoom s capacity f, refl))
        (λ _ f. inl (
          refl,
          free-HasRoom s capacity f,
          admitted_new-status s id now,
          unfold admit_locked in refl,
        )),
  )

  pub reconcile_kept :
      (fl : Floats F) (n : ℕ) (s : Store F) (order : List String) (capacity : ℤ)
      (active_ttl queue_ttl : Duration) (now : Time)
      → IsValid n s
      → let r = reconcile fl s order capacity active_ttl queue_ttl now in
        IsValid n r.0
        × (pos 0 ≤ℤ r.1.expired)
        × (r.1.expired ≤ℤ s.active)
        × (r.0.active +ℤ r.1.expired ≡ s.active +ℤ pos (length r.1.waited_secs))
  reconcile_kept fl n s order capacity active_ttl queue_ttl now (w, room) =
      let r = reconcile fl s order capacity active_ttl queue_ttl now in
      let (left, round) = reconcile-Round fl active_ttl queue_ttl now capacity s order w in
      let stay = alive queue_ttl now s.heap s.queue in
      let k = min (length stay) (pos_part capacity - left) in
      let some_wait : length r.1.waited_secs ≡ k =
        ap length round.waited ∙ length-map _ (take k stay) ∙ ground (arith, length-take k stay) in
      (
        (
          reconcile-IsWellFormed fl s order capacity active_ttl queue_ttl now w,
          omega (arith, reconcile-next_seq fl now s order capacity active_ttl queue_ttl),
        ),
        round.reaped,
        ground (arith, round.expired, round.reaped),
        ground (arith, round.active, round.expired, some_wait),
      )

  pub touch_kept :
      (n : ℕ) (s : Store F) (id : String) (now : Time)
      → IsValid n s
      → IsValid n (touch s id now).0 × (view (touch s id now).0 ≡ view s)
  touch_kept n s id now (w, room) =
      ((touch-IsWellFormed s id now w, omega (arith, touch_counters s id now)), touch-view s id now)
