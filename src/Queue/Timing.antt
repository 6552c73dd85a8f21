-- ===== src/Queue/Timing.antt =====
-- When requests reconcile, how often the janitor does, and the estimate of the wait.
use gowait.Prelude.{
  ℕ, zero, suc, ◌+◌, ◌-◌, ◌*◌, ◌/◌, ◌^◌, ◌≤◌, ◌<◌, ◌≡◌, refl, ap, inl, inr, Bool, false, pos, ◌-ℤ◌,
  ◌*ℤ◌, ◌≤ℤ◌, arith,
}
use native.Mathlib.Nat.{div-le_self}
use gowait.Int64.{wrap, wrap_id}
use gowait.Results.{ok, Result-cases}
use gowait.Clock.{Time, Floats, second}
use gowait.Store.Interface.{Ops}
use gowait.Queue.Controller.{
  Config, Controller, unix_nano, on_store, reconcile, is_due, maybe_reconcile, interval,
}
use gowait.Queue.Check.{estimate}

-- `UnixNano` of a time between 1970 and 2262.
abbrev pub IsUnix : Time → Type 0
IsUnix t = (62135596800000000000 ≤ t) × (t < 62135596800000000000 + 2 ^ 63)

unix_nano_exact : (t : Time) → IsUnix t → unix_nano t ≡ pos (t - 62135596800000000000)
unix_nano_exact t (a, b) = ground arith

elapsed :
    (t later : Time)
    → IsUnix t
    → IsUnix later
    → t ≤ later
    → wrap (unix_nano later -ℤ unix_nano t) ≡ pos (later - t)
elapsed t later a b h = rw (unix_nano_exact t a, unix_nano_exact later b) (ground arith)

not_due :
    {S F : Type 0} (t later : Time) (won : Bool) (c : Controller S F)
    → wrap (unix_nano later -ℤ c.last_reconcile) ≡ pos (later - t)
    → pos (later - t) ≤ℤ (c.cfg.min_reconcile_gap -ℤ pos 1)
    → is_due later won c ≡ false
unfolding is_due
not_due t later won c e gap = rw e (ground arith)

module _ {S E F : Type 0} (fl : Floats F) (o : Ops S E F) where
  reconcile-stamp :
      (now : Time) (c : Controller S F)
      → ((reconcile fl o now c).0.last_reconcile ≡ unix_nano now)
        × ((reconcile fl o now c).0.cfg ≡ c.cfg)
  unfolding reconcile on_store
  reconcile-stamp now c =
      elim (Result-cases (o.reconcile c.capacity c.cfg.active_ttl c.cfg.queue_ttl now c.store).1) [
        | inl (res, e) ↦ rw e (refl, refl)
        | inr (x, e) ↦ rw e (refl, refl)
      ]

  -- Once a reconcile has run, whether or not the store failed, a request within `MinReconcileGap` of it
  -- does nothing, on clock readings between 1970 and 2262.
  pub maybe_reconcile-reconcile :
      (t later : Time) (won : Bool) (c : Controller S F)
      → IsUnix t
      → IsUnix later
      → t ≤ later
      → pos (later - t) ≤ℤ (c.cfg.min_reconcile_gap -ℤ pos 1)
      → maybe_reconcile fl o later won (reconcile fl o t c).0 ≡ ((reconcile fl o t c).0, ok tt)
  unfolding maybe_reconcile
  maybe_reconcile-reconcile t later won c a b h gap =
      let c' = (reconcile fl o t c).0 in
      let (stamp, cfg) = reconcile-stamp t c in
      let early : is_due later won c' ≡ false =
        not_due t later won c' (rw stamp (elapsed t later a b h)) (rw cfg gap) in
      rw early refl

-- The janitor ticks at least once a second, and a positive interval apart.
pub interval_bounds : (cfg : Config) → (pos 1 ≤ℤ interval cfg) × (interval cfg ≤ℤ second)
unfolding interval
interval_bounds cfg = ground arith

-- With a positive capacity and no overflow, the estimate is the position times the average session
-- over the capacity, rounded down.
pub estimate_exact :
    {E : Type 0} (place avg capacity : ℕ)
    → 1 ≤ capacity
    → place * avg < 2 ^ 63
    → estimate {E = E} (pos place) (pos avg) (pos capacity) ≡ ok (pos ((place * avg) / capacity))
unfolding estimate
estimate_exact place avg zero h b = absurd (omega arith)
estimate_exact place avg (suc n) h b =
    let product : pos place *ℤ pos avg ≡ pos (place * avg) = ground arith in
    rw (product, wrap_id (place * avg) b)
      (ap ok
        (wrap_id ((place * avg) / suc n) (omega (arith, b, div-le_self (place * avg) (suc n)))))
