-- ===== src/Memory/Kept/Looks.antt =====
-- Lookup, and the view of a store that it leaves.
use gowait.Prelude.{ℕ, ◌≡◌, refl, ap, fun_ext, subst, inl, inr, String, arith, Option-cases}
use gowait.Results.{ok}
use gowait.Clock.{Time}
use gowait.GoMap
use gowait.Store.{Snapshot}
use gowait.Store.Promises.{Shows}
use gowait.Memory.State.{Store, see}
use gowait.Memory.Tickets.{lookup, touch, active_entry}
use gowait.Memory.Invariant.Methods.{lookup-IsWellFormed}
use gowait.Memory.Counters.{lookup_counters}
use gowait.Memory.View.{line, status_of}
use gowait.Memory.Position.{Reports, lookup-Reports}
use gowait.Memory.Admission.{status-see}
use gowait.Memory.Line.{line-see}
use gowait.Memory.Instance.{or_fault, view, IsValid}

module _ {F : Type 0} where
  pub view_path :
      (s s' : Store F)
      → ((k : String) → status_of s' k ≡ status_of s k)
      → line s' ≡ line s
      → s'.active ≡ s.active
      → view s' ≡ view s
  view_path s s' a b c = λ j. record { status = fun_ext a j; line = b j; active = c j }

  see-view : (s : Store F) (p : ℕ) (now : Time) → view (see s p now) ≡ view s
  see-view s p now =
      view_path s (see s p now) (λ k. status-see s p now k) (line-see s p now) (unfold see in refl)

  lookup-view : (s : Store F) (id : String) (now : Time) → view (lookup s id now).0 ≡ view s
  unfolding lookup
  lookup-view s id now = elim (Option-cases (GoMap.lookup id s.entries)) [
    | inl e ↦ rw (e, lookup) refl
    | inr (p, e) ↦ rw (e, lookup) (see-view s p now)
  ]

  pub touch-view : (s : Store F) (id : String) (now : Time) → view (touch s id now).0 ≡ view s
  unfolding touch
  touch-view s id now = elim (Option-cases (active_entry s id)) [
    | inl e ↦ rw (e, touch) refl
    | inr (p, e) ↦ rw (e, touch) (see-view s p now)
  ]

  pub Reports-Shows :
      (s : Store F) (id : String) (snap : Snapshot) → Reports s id snap → Shows (view s) id snap
  Reports-Shows s id snap r = record {
    status = r.status;
    waiting = r.waiting;
    active = r.active;
    place = elim r.place [
      | inl (off, z) ↦ inl (ground (arith, off), z)
      | inr (i, on, at, e) ↦ inr (i, ground (arith, on), at, e)
    ];
  }

  pub lookup_kept :
      (n : ℕ) (s : Store F) (id : String) (now : Time)
      → IsValid n s
      → (snap : Snapshot) × (or_fault (lookup s id now).1 ≡ ok snap)
        × (IsValid n (lookup s id now).0
            × (view (lookup s id now).0 ≡ view s)
            × Shows (view s) id snap)
  lookup_kept n s id now (w, room) =
      let (snap, e, r) = lookup-Reports s id now w in
      (
        snap,
        ap or_fault e,
        (
          (lookup-IsWellFormed s id now w, omega (arith, lookup_counters s id now)),
          lookup-view s id now,
          subst (λ v. Shows v id snap) (lookup-view s id now)
              (Reports-Shows (lookup s id now).0 id snap r),
        ),
      )
