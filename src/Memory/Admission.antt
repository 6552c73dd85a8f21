-- ===== src/Memory/Admission.antt =====
-- What `TryAdmit` and `Touch` decide.
use gowait.Prelude.{
  ℕ, ◌≡◌, refl, ap, ◌∙◌, ◌↔◌, ◌⊎◌, inl, inr, String, Bool, true, false, some, none, List, [], ◌∷◌,
  map, ℤ, pos, ◌+ℤ◌, ◌<ℤ◌, ◌≤ℤ◌, leb_ℤ, ltb, ◌||◌, ==_iff, arith, Option-cases, length, str_eq_refl,
}
use gowait.Clock.{Time}
use gowait.GoMap
use gowait.GoMap.{lookup-insert}
use gowait.Store.{Status}
use gowait.Memory.State.{Store, update, see, is_active, admit_locked}
use gowait.Memory.Tickets.{active_entry, try_admit}
use gowait.Memory.Invariant.{IsWellFormed}
use gowait.Memory.Invariant.Methods.{try_admit_cases, admitted_new, is_full}
use gowait.Memory.View.{line, status_of, last_seen_of}

module _ {F : Type 0} where
  pub active_entry-status :
      (s : Store F) (id : String) (p : ℕ)
      → active_entry s id ≡ some p
      → (status_of s id ≡ Status.active) × (GoMap.lookup id s.entries ≡ some p)
  unfolding active_entry status_of
  active_entry-status s id p h = elim (Option-cases (GoMap.lookup id s.entries)) [
    | inl e ↦ ground (arith, e)
    | inr (q, e) ↦ ground (arith, e)
  ]

  inactive-status :
      (s : Store F) (id : String) → active_entry s id ≡ none → is_active (status_of s id) ≡ false
  unfolding active_entry status_of
  inactive-status s id h = elim (Option-cases (GoMap.lookup id s.entries)) [
    | inl e ↦ ground (arith, e)
    | inr (q, e) ↦ ground (arith, e)
  ]

  unknown-inactive :
      (s : Store F) (id : String)
      → GoMap.lookup id s.entries ≡ none
      → is_active (status_of s id) ≡ false
  unfolding status_of
  unknown-inactive s id e = ground (arith, e)

  -- Room for one who comes in from outside.
  abbrev pub HasRoom : Store F → ℤ → Type 0
  HasRoom s capacity = (s.active <ℤ capacity) × (line s ≡ [])

  pub full-HasRoom : (s : Store F) (capacity : ℤ) → is_full s capacity ≡ true → ¬ HasRoom s capacity
  full-HasRoom s capacity h (a, b) = go s.queue h b
    where
      go :
          (q : List ℕ)
          → (leb_ℤ capacity s.active || ltb 0 (length q)) ≡ true
          → map (λ p. (s.heap p).id) q ≡ []
          → ⊥
      go [] f e = ground arith
      go (x ∷ q) f e = cc

  pub free-HasRoom : (s : Store F) (capacity : ℤ) → is_full s capacity ≡ false → HasRoom s capacity
  free-HasRoom s capacity h = (ground (arith, h), go s.queue h)
    where
      go :
          (q : List ℕ)
          → (leb_ℤ capacity s.active || ltb 0 (length q)) ≡ false
          → map (λ p. (s.heap p).id) q ≡ []
      go [] f = refl
      go (x ∷ q) f = ground arith

  -- On a well-formed store `TryAdmit` answers true exactly if the ticket is active, or there is a
  -- free slot and nobody waits.
  pub try_admit_iff :
      (s : Store F) (id : String) (capacity : ℤ) (now : Time)
      → IsWellFormed s
      → ((try_admit s id capacity now).1 ≡ true)
        ↔ ((status_of s id ≡ Status.active) ⊎ HasRoom s capacity)
  try_admit_iff s id capacity now w =
      try_admit_cases (λ r. (r.1 ≡ true) ↔ ((status_of s id ≡ Status.active) ⊎ HasRoom s capacity))
        s id capacity now w (λ p e. ((λ _. inl (active_entry-status s id p e).0), (λ _. refl)))
        (λ e f. (
          (λ h. cc),
          elim [
            | inl on ↦ ground (arith, on, inactive-status s id e)
            | inr room ↦ absurd (full-HasRoom s capacity f room)
          ],
        ))
        (λ e f. ((λ _. inr (free-HasRoom s capacity f)), (λ _. refl)))

  pub status-see :
      (s : Store F) (p : ℕ) (now : Time) (k : String) → status_of (see s p now) k ≡ status_of s k
  unfolding status_of see update
  status-see s p now k = elim (Option-cases (GoMap.lookup k s.entries)) [
    | inl e ↦ ground (arith, e)
    | inr (q, e) ↦ ground (arith, e, ==_iff q p)
  ]

  pub admitted_new-status :
      (s : Store F) (id : String) (now : Time)
      → status_of (admitted_new s id now) id ≡ Status.active
  unfolding status_of admit_locked update
  admitted_new-status s id now =
      ground (arith, lookup-insert id id s.next_ptr s.entries, str_eq_refl id)

  see-last_seen :
      (s : Store F) (id : String) (p : ℕ) (now : Time)
      → GoMap.lookup id s.entries ≡ some p
      → last_seen_of (see s p now) id ≡ some now
  unfolding last_seen_of see update
  see-last_seen s id p now e = ground (arith, e, ==_iff p p)

  admitted_new-last_seen :
      (s : Store F) (id : String) (now : Time) → last_seen_of (admitted_new s id now) id ≡ some now
  unfolding last_seen_of admit_locked update
  admitted_new-last_seen s id now =
      ground (arith, lookup-insert id id s.next_ptr s.entries, str_eq_refl id)

  -- A ticket that goes through, with its heartbeat.
  abbrev pub GoesThrough : Store F → String → Time → Store F × Bool → Type 0
  GoesThrough s id now r =
      (r.1 ≡ true)
      × (status_of r.0 id ≡ Status.active)
      × (last_seen_of r.0 id ≡ some now)
      × (r.0.queue ≡ s.queue)

  -- The three branches of TryAdmit: active already, newly admitted, refused.
  abbrev pub Tried : Store F → String → ℤ → Time → Store F × Bool → Type 0
  Tried s id capacity now r =
      (status_of s id ≡ Status.active) × GoesThrough s id now r × (r.0.active ≡ s.active)
      ⊎ ((is_active (status_of s id) ≡ false)
          × HasRoom s capacity
          × GoesThrough s id now r
          × (r.0.active ≡ s.active +ℤ pos 1)
          × (r.0.active ≤ℤ capacity))
      ⊎ ((is_active (status_of s id) ≡ false) × (¬ HasRoom s capacity) × (r ≡ (s, false)))

  -- On a well-formed store `TryAdmit` does one of three things. An active ticket goes through
  -- with its heartbeat, and the active count stays. A ticket that is not active, where a slot is
  -- free and nobody waits, goes through as active, and the active count grows by one, to the
  -- capacity at most. Any other ticket is refused, and the store is as it was. The queue stays in
  -- each case.
  pub try_admit_effect :
      (s : Store F) (id : String) (capacity : ℤ) (now : Time)
      → IsWellFormed s
      → Tried s id capacity now (try_admit s id capacity now)
  try_admit_effect s id capacity now w =
      try_admit_cases (Tried s id capacity now) s id capacity now w
        (λ p e.
          let (on, found) = active_entry-status s id p e in
          inl (
            on,
            (refl, status-see s p now id ∙ on, see-last_seen s id p now found, unfold see in refl),
            unfold see in refl,
          ))
        (λ e f. inr (inr (inactive-status s id e, full-HasRoom s capacity f, refl)))
        (λ e f.
          let room = free-HasRoom s capacity f in
          inr (
            inl (
              unknown-inactive s id e,
              room,
              (
                refl,
                admitted_new-status s id now,
                admitted_new-last_seen s id now,
                unfold admit_locked in refl,
              ),
              unfold admit_locked in refl,
              unfold admit_locked in ground (arith, room.0),
            )))

  pub try_admit-bound :
      (s : Store F) (id : String) (capacity : ℤ) (now : Time)
      → IsWellFormed s
      → let r = try_admit s id capacity now in
        (r.0.active ≡ s.active) ⊎ (r.0.active ≡ s.active +ℤ pos 1) × (r.0.active ≤ℤ capacity)
  try_admit-bound s id capacity now w = elim (try_admit_effect s id capacity now w) [
    | inl (on, through, same) ↦ inl same
    | inr (inl (off, room, through, more, most)) ↦ inr (more, most)
    | inr (inr (off, full, same)) ↦ inl (ap (λ r. r.0.active) same)
  ]
