-- ===== src/Memory/History.antt =====
-- Any sequence of calls on a new store. The mutex makes the calls of concurrent requests such a
-- sequence, so this covers every interleaving.
use gowait.Prelude.{
  suc, ◌+◌, ◌^◌, ◌≤◌, ◌<◌, ◌≡◌, inl, inr, ◌⊎◌, String, List, [], ◌∷◌, ℤ, pos, ◌+ℤ◌, ◌≤ℤ◌, arith,
  length, All,
}
use gowait.Clock.{Time, Duration, Floats}
use gowait.Memory.State.{Store, new}
use gowait.Memory.Tickets.{try_admit, enqueue, lookup, touch}
use gowait.Memory.Admin.{set_capacity, flush}
use gowait.Memory.Reconcile.{reconcile}
use gowait.Memory.Invariant.{IsWellFormed}
use gowait.Memory.Invariant.Methods.{
  new-IsWellFormed, try_admit-IsWellFormed, enqueue-IsWellFormed, lookup-IsWellFormed,
  touch-IsWellFormed, set_capacity-IsWellFormed, flush-IsWellFormed,
}
use gowait.Memory.Invariant.Loops.{reconcile-IsWellFormed}
use gowait.Memory.Admission.{try_admit-bound}
use gowait.Memory.Counters.{
  try_admit-next_seq, lookup_counters, touch_counters, enqueue_counters, reconcile-next_seq,
}
use gowait.Memory.Rounds.Outcome.{reconcile_active_bound}

pub data Call : Type 0 where
  admits : String → ℤ → Time → Call
  enqueues looks touches : String → Time → Call
  -- the order of the map, the capacity, the two TTLs and the time
  reconciles : List String → ℤ → Duration → Duration → Time → Call
  sets_capacity : ℤ → Call
  flushes : Call

module _ {F : Type 0} (fl : Floats F) where
  unfoldable pub step : Store F → Call → Store F
  step s (admits id capacity now) = (try_admit s id capacity now).0
  step s (enqueues id now) = (enqueue s id now).0
  step s (looks id now) = (lookup s id now).0
  step s (touches id now) = (touch s id now).0
  step s (reconciles order capacity active_ttl queue_ttl now) =
      (reconcile fl s order capacity active_ttl queue_ttl now).0
  step s (sets_capacity n) = set_capacity s n
  step s flushes = (flush s).0

  unfoldable pub run : Store F → List Call → Store F
  unfolding step
  run s [] = s
  run s (c ∷ cs) = run (step s c) cs

-- The capacity that a call is given is at most `cap`.
abbrev pub Within : ℤ → Call → Type 0
Within cap (admits id capacity now) = capacity ≤ℤ cap
Within cap (reconciles order capacity active_ttl queue_ttl now) = capacity ≤ℤ cap
Within cap _ = Unit

module _ {F : Type 0} (fl : Floats F) where
  -- Only a new ticket takes a seq.
  step-next_seq :
      (s : Store F) (c : Call)
      → IsWellFormed s
      → suc s.next_seq < 2 ^ 63
      → (step fl s c).next_seq ≤ suc s.next_seq
  unfolding step set_capacity flush
  step-next_seq s (admits id capacity now) w room =
      omega (arith, try_admit-next_seq s id capacity now)
  step-next_seq s (enqueues id now) w room = (enqueue_counters s id now room).0
  step-next_seq s (looks id now) w room = omega (arith, lookup_counters s id now)
  step-next_seq s (touches id now) w room = omega (arith, touch_counters s id now)
  step-next_seq s (reconciles order capacity active_ttl queue_ttl now) w room =
      omega (arith, reconcile-next_seq fl now s order capacity active_ttl queue_ttl)
  step-next_seq s (sets_capacity n) w room = omega arith
  step-next_seq s flushes w room = omega arith

  pub step-IsWellFormed :
      (s : Store F) (c : Call)
      → IsWellFormed s
      → suc s.next_seq < 2 ^ 63
      → IsWellFormed (step fl s c)
  unfolding step
  step-IsWellFormed s (admits id capacity now) w room = try_admit-IsWellFormed s id capacity now w
  step-IsWellFormed s (enqueues id now) w room = enqueue-IsWellFormed s id now w room
  step-IsWellFormed s (looks id now) w room = lookup-IsWellFormed s id now w
  step-IsWellFormed s (touches id now) w room = touch-IsWellFormed s id now w
  step-IsWellFormed s (reconciles order capacity active_ttl queue_ttl now) w room =
      reconcile-IsWellFormed fl s order capacity active_ttl queue_ttl now w
  step-IsWellFormed s (sets_capacity n) w room = set_capacity-IsWellFormed s n w
  step-IsWellFormed s flushes w room = flush-IsWellFormed s w

  step_active_bound :
      (s : Store F) (c : Call) (cap : ℤ)
      → IsWellFormed s
      → suc s.next_seq < 2 ^ 63
      → Within cap c
      → s.active ≤ℤ cap
      → (step fl s c).active ≤ℤ cap
  unfolding step set_capacity flush
  step_active_bound s (admits id capacity now) cap v room h a =
      bound_of (try_admit-bound s id capacity now v)
    where
      r : Store F
      r = (try_admit s id capacity now).0

      bound_of :
          (r.active ≡ s.active) ⊎ (r.active ≡ s.active +ℤ pos 1) × (r.active ≤ℤ capacity)
          → r.active ≤ℤ cap
      bound_of (inl e) = rw e a
      bound_of (inr (e, b)) = omega arith
  step_active_bound s (enqueues id now) cap v room h a = rw (enqueue_counters s id now room).1 a
  step_active_bound s (looks id now) cap v room h a = rw (lookup_counters s id now).1 a
  step_active_bound s (touches id now) cap v room h a = rw (touch_counters s id now).1 a
  step_active_bound s (reconciles order capacity active_ttl queue_ttl now) cap v room h a =
      elim (reconcile_active_bound fl active_ttl queue_ttl now capacity s order v) [
        | inl b ↦ omega arith
        | inr b ↦ omega arith
      ]
  step_active_bound s (sets_capacity n) cap v room h a = a
  step_active_bound s flushes cap v room h a = a

  run_safe_from :
      (s : Store F) (cs : List Call) (cap : ℤ)
      → IsWellFormed s
      → s.active ≤ℤ cap
      → s.next_seq + length cs < 2 ^ 63
      → All (Within cap) cs
      → IsWellFormed (run fl s cs) × ((run fl s cs).active ≤ℤ cap)
  unfolding run
  run_safe_from s [] cap w a room h = (w, a)
  run_safe_from s (c ∷ cs) cap w a room h =
      run_safe_from (step fl s c) cs cap (step-IsWellFormed s c w (omega arith))
        (step_active_bound s c cap w (omega arith) h.0 a)
        (omega (arith, step-next_seq s c w (omega arith))) h.1

  -- After any history of fewer than 2^63 calls on a new store the store is well-formed, and the
  -- active count is at most a bound that is not negative and that no capacity given to `TryAdmit`
  -- or `Reconcile` exceeds.
  pub run_safe :
      (zero : F) (cs : List Call) (cap : ℤ)
      → pos 0 ≤ℤ cap
      → length cs < 2 ^ 63
      → All (Within cap) cs
      → IsWellFormed (run fl (new zero) cs) × ((run fl (new zero) cs).active ≤ℤ cap)
  unfolding new
  run_safe zero cs cap h room within =
      run_safe_from (new zero) cs cap (new-IsWellFormed zero) h (omega arith) within
