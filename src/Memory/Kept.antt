-- ===== src/Memory/Kept.antt =====
-- The promises of the interface, for the memory store.
pub mod Looks
pub mod Calls
use gowait.Prelude.{
  ℕ, zero, suc, ◌-◌, ◌^◌, ◌<◌, ◌≡◌, refl, ap, fun_ext, subst, ◌∙◌, ◌⊎◌, inl, inr, String, true,
  false, some, List, [], ◌∷◌, ◌++◌, map, ℤ, pos, ◌+ℤ◌, ◌≤ℤ◌, length, get_elem?, take, arith,
  Bool-cases, Option-cases, All, str_eq-cases, str_eq_refl, if◌then◌else◌, pos_part, min,
  length-map, length-take,
}
use gowait.Results.{ok}
use gowait.Clock.{Time, Duration, Floats}
use gowait.GoMap
use gowait.Store.{Status, Snapshot}
use gowait.Store.Promises.{Shows, Promises, IsPlaced, HasRoom}
use gowait.Memory.State.{Store, see, admit_locked}
use gowait.Memory.Tickets.{try_admit, enqueue, lookup, touch, active_entry}
use gowait.Memory.Reconcile.{reconcile}
use gowait.Memory.Invariant.{Shape, shape, IsWaiting, IsWellFormed}
use gowait.Memory.Admin.{set_capacity, flush}
use gowait.Memory.Invariant.Methods.{
  flush-IsWellFormed, lookup-IsWellFormed, touch-IsWellFormed, try_admit-IsWellFormed,
  try_admit_cases, enqueue-IsWellFormed,
}
use gowait.Memory.Invariant.Loops.{reconcile-IsWellFormed, alive}
use gowait.Memory.Counters.{
  lookup_counters, touch_counters, enqueue_counters, try_admit-next_seq, reconcile-next_seq,
}
use gowait.Memory.View.{line, status_of}
use gowait.Memory.Position.{Reports, lookup-Reports, enqueue-Reports}
use gowait.Memory.Admission.{
  status-see, active_entry-status, full-HasRoom, free-HasRoom, admitted_new-status,
}
use gowait.Memory.Line.{line-see, enqueue-line, is_unknown}
use gowait.Memory.Rounds.Expiry.{lists}
use gowait.Memory.Rounds.Outcome.{reconcile-Round}
use gowait.Memory.Instance.{or_fault, ops, view, IsValid}
use gowait.Memory.Kept.Looks.{lookup_kept}
use gowait.Memory.Kept.Calls.{enqueue_kept, admit_kept, reconcile_kept, touch_kept}

module _ {F : Type 0} where
  pub weakens_kept : (n : ℕ) (s : Store F) → IsValid (suc n) s → IsValid n s
  weakens_kept n s (w, room) = (w, omega arith)

  pub nonneg_kept : (n : ℕ) (s : Store F) → IsValid n s → pos 0 ≤ℤ s.active
  nonneg_kept n s (w, room) = let c = w.counted in ground (arith, c)

  pub set_capacity_kept :
      (n : ℕ) (s : Store F) (capacity : ℤ)
      → IsValid n s
      → IsValid n (set_capacity s capacity) × (view (set_capacity s capacity) ≡ view s)
  unfolding set_capacity status_of
  set_capacity_kept n s capacity w = (w, refl)

  pub flush_kept :
      (n : ℕ) (s : Store F)
      → IsValid n s
      → IsValid n (flush s).0
        × ((view (flush s).0).line ≡ [])
        × ((view (flush s).0).active ≡ (view s).active)
  unfolding flush
  flush_kept n s (w, room) = ((flush-IsWellFormed s w, room), refl, refl)

module _ {F : Type 0} (fl : Floats F) (walk : Store F → List String) where
  -- The promises of the interface hold of the memory store, for any order of its map.
  unfoldable pub kept : Promises (ops fl walk)
  kept = record {
    IsValid = IsValid;
    view = view;
    looks = lookup_kept;
    touches = λ n s id now w. ((touch s id now).1, refl, touch_kept n s id now w);
    admits = λ n s id capacity now w u.
        ((try_admit s id capacity now).1, refl, admit_kept n s id capacity now w u);
    enqueues = enqueue_kept;
    reconciles = λ n s capacity active_ttl queue_ttl now w. (
      (reconcile fl s (walk s) capacity active_ttl queue_ttl now).1,
      refl,
      reconcile_kept fl n s (walk s) capacity active_ttl queue_ttl now w,
    );
    weakens = weakens_kept;
    counts = λ n s w. (w, refl);
    adopts = λ n s w. (w, refl);
    sets = λ n s capacity w. (tt, refl, set_capacity_kept n s capacity w);
    flushes = λ n s w. ((flush s).1, refl, flush_kept n s w);
    nonneg = nonneg_kept;
  }
