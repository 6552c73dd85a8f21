-- ===== src/Prober/OnQueue.antt =====
-- The queue's controller as the one that the prober drives.
use gowait.Prelude.{◌≡◌, refl, ◌⊎◌, inl, inr, false, ℤ, pos, ◌≤ℤ◌, ltb_ℤ, arith}
use gowait.Results.{Result-cases}
use gowait.Store.Interface.{Ops}
use gowait.Queue.Controller.{Controller, Failure, on_store, set_capacity}
use gowait.Prober.{Control}

module _ {S E F : Type 0} (o : Ops S E F) where
  pub set_capacity_cases :
      (n : ℤ) (c : Controller S F)
      → pos 1 ≤ℤ n
      → ((set_capacity o n c).0.capacity ≡ n) ⊎ ((set_capacity o n c).0.capacity ≡ c.capacity)
  unfolding set_capacity on_store
  set_capacity_cases n c h =
      let fit : ltb_ℤ n (pos 1) ≡ false = ground arith in
      elim (Result-cases (o.set_capacity n c.store).1) [
        | inl (_, e) ↦ rw (fit, e) (inl refl)
        | inr (x, e) ↦ rw (fit, e) (inr refl)
      ]

  abbrev pub queue_control : Control (Controller S F) (Failure E)
  queue_control = record {
    capacity = λ c. c.capacity;
    set_capacity = set_capacity o;
    sets = set_capacity_cases;
  }
