-- ===== src/Queue/Tending.antt =====
-- The controller's other calls of the store, which the admin API and the prober make.
use gowait.Prelude.{ℕ, ◌≡◌, ap, inl, inr, ℤ, pos, ltb_ℤ, arith, Bool-cases}
use gowait.Clock.{Floats}
use gowait.Store.Interface.{Ops}
use gowait.Store.Promises.{Promises}
use gowait.Queue.Controller.{Controller, on_store, stats, flush, set_capacity}
use gowait.Queue.Serving.{IsServing}

module _ {S E F : Type 0} (fl : Floats F) (o : Ops S E F) (p : Promises o) where
  -- Another state of the store with as many active.
  pub swapped :
      (n : ℕ) (c : Controller S F) (s : S)
      → IsServing fl o p n c
      → p.IsValid n s
      → (p.view s).active ≡ (p.view c.store).active
      → IsServing fl o p n (record c { store = s })
  swapped n c s v w same = record {
    valid = w;
    capacity = v.capacity;
    configured = v.configured;
    balanced = rw same v.balanced;
  }

  pub stats-IsServing :
      (n : ℕ) (c : Controller S F) → IsServing fl o p n c → IsServing fl o p n (stats o c).0
  unfolding stats on_store
  stats-IsServing n c v =
      let (w, same) = p.counts n c.store v.valid in
      swapped n c (o.stats c.store).0 v w (ap (λ u. u.active) same)

  pub flush-IsServing :
      (n : ℕ) (c : Controller S F) → IsServing fl o p n c → IsServing fl o p n (flush o c).0
  unfolding flush on_store
  flush-IsServing n c v =
      let (_, _, (w, gone, same)) = p.flushes n c.store v.valid in
      swapped n c (o.flush c.store).0 v w same

  pub set_capacity-IsServing :
      (n : ℕ) (k : ℤ) (c : Controller S F)
      → IsServing fl o p n c
      → IsServing fl o p n (set_capacity o k c).0
  unfolding set_capacity on_store
  set_capacity-IsServing n k c v = elim (Bool-cases (ltb_ℤ k (pos 1))) [
    | inl low ↦ rw low v
    | inr fit ↦
        let (a, e, (w, same)) = p.sets n c.store k v.valid in
        let v' = swapped n c (o.set_capacity k c.store).0 v w (ap (λ u. u.active) same) in
        rw (fit, e)
          (record {
            valid = v'.valid;
            capacity = ground (arith, fit);
            configured = v'.configured;
            balanced = v'.balanced;
          })
  ]
