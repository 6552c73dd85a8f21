-- ===== src/Queue/Capacity.antt =====
-- The capacity and its override.
use gowait.Prelude.{
  ◌≡◌, refl, inl, inr, true, false, ◌&&◌, ℤ, pos, ◌≤ℤ◌, leb_ℤ, ltb_ℤ, arith, Bool-cases, String,
  List,
}
use gowait.Results.{ok, Result-cases}
use gowait.Clock.{Floats}
use gowait.Store.Interface.{Ops}
use gowait.Memory.State
use gowait.Memory.Admin
use gowait.Memory.Instance.{ops}
use gowait.Queue.Controller.{Controller, on_store, set_capacity, refresh_capacity}

module _ {S E F : Type 0} (o : Ops S E F) where
  -- Whatever a store answers, `SetCapacity` of any number and a refresh by the janitor leave a positive
  -- capacity positive, where the configured one is positive.
  pub capacity_positive :
      (n : ℤ) (c : Controller S F)
      → pos 1 ≤ℤ c.capacity
      → pos 1 ≤ℤ c.cfg.capacity
      → (pos 1 ≤ℤ (set_capacity o n c).0.capacity) × (pos 1 ≤ℤ (refresh_capacity o c).capacity)
  unfolding set_capacity refresh_capacity on_store
  capacity_positive n c a b = (
    elim (Bool-cases (ltb_ℤ n (pos 1))) [
      | inl low ↦ rw low a
      | inr fit ↦ elim (Result-cases (o.set_capacity n c.store).1) [
        | inl (_, e) ↦ rw (fit, e) (ground (arith, fit))
        | inr (x, e) ↦ rw (fit, e) a
      ]
    ],
    elim (Result-cases (o.get_capacity c.store).1) [
      | inr (x, e) ↦ rw (e, refresh_capacity) a
      | inl ((m, set), e) ↦ elim (Bool-cases (set && leb_ℤ (pos 1) m)) [
        | inl on ↦ rw (e, on, refresh_capacity) (ground (arith, on))
        | inr off ↦ rw (e, off, refresh_capacity) b
      ]
    ],
  )

module _ {F : Type 0} (fl : Floats F) (walk : State.Store F → List String) where
  -- On the memory store `SetCapacity` of a positive number answers no error, the controller goes by the
  -- number, and so does any other on the same store after its next refresh.
  pub refresh_capacity-set_capacity :
      (n : ℤ) (c other : Controller (State.Store F) F)
      → pos 1 ≤ℤ n
      → ((set_capacity (ops fl walk) n c).1 ≡ ok tt)
        × ((set_capacity (ops fl walk) n c).0.capacity ≡ n)
        × ((refresh_capacity
              (ops fl walk)
              (record other { store = (set_capacity (ops fl walk) n c).0.store })).capacity
            ≡ n)
  unfolding set_capacity refresh_capacity on_store Admin.set_capacity Admin.get_capacity
  refresh_capacity-set_capacity n c other h =
      let fit : ltb_ℤ n (pos 1) ≡ false = ground arith in
      let real : leb_ℤ (pos 1) n ≡ true = ground arith in rw (fit, real) (refl, refl, refl)
