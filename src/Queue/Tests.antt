-- ===== src/Queue/Tests.antt =====
-- The controller on the memory store.
use gowait.Prelude.{
  ℕ, ◌≡◌, ◌+◌, refl, true, String, some, List, [], ◌∷◌, ℤ, pos, negsuc, ◌≤ℤ◌, arith,
}
use gowait.Results.{ok}
use gowait.Clock.{second}
use gowait.Metrics
use gowait.Store.Promises.{Answers}
use gowait.Memory.State.{Store}
use gowait.Memory.State
use gowait.Clock.Exact.{exact}
use gowait.Memory.Invariant.Methods.{new-IsWellFormed}
use gowait.Memory.Instance.{Fault, ops}
use gowait.Memory.Kept.{kept}
use gowait.Queue.Controller.{
  Config, Controller, new, set_metrics, set_capacity, refresh_capacity, reconcile, maybe_reconcile,
  interval,
}
use gowait.Queue.Check.{Outcome, check, status_of, estimate}
use gowait.Queue.Serving.{IsServing}
use gowait.Queue.Decides.{IsDecided}
use gowait.Queue.Answers.{check-IsDecided, status_of-check, status_of-view}
use gowait.Queue.Timing.{maybe_reconcile-reconcile, interval_bounds, estimate_exact}
use gowait.Queue.Capacity.{refresh_capacity-set_capacity}

abbrev map_keys : List (String × ℕ) → List String
map_keys [] = []
map_keys ((k, p) ∷ m) = k ∷ map_keys m

abbrev keys : Store ℤ → List String
keys s = map_keys s.entries

abbrev cfg : Config
cfg = record {
  capacity = pos 1;
  active_ttl = pos 60000000000;
  queue_ttl = pos 30000000000;
  min_reconcile_gap = pos 500000000;
  stats_cache_ttl = pos 3000000000;
}

-- 2026
abbrev noon : ℕ
noon = 63902865600000000000

abbrev empty : Controller (Store ℤ) ℤ
empty = set_metrics (some (Metrics.new exact)) (new (State.new (pos 0)) cfg)

start-IsServing : IsServing exact (ops exact keys) (kept exact keys) 2 empty
unfolding kept State.new
start-IsServing = record {
  valid = (new-IsWellFormed (pos 0), omega arith);
  capacity = omega arith;
  configured = omega arith;
  balanced = refl;
}

check-IsDecided_example : Answers (check exact (ops exact keys) "a" noon noon true empty) λ c' r.
    IsServing exact (ops exact keys) (kept exact keys) 1 c'
    × IsDecided ((kept exact keys).view c'.store) "a" r
check-IsDecided_example =
    check-IsDecided exact (ops exact keys) (kept exact keys) 1 "a" noon noon true empty
      start-IsServing

status_of-check_example :
    (r r' : Outcome) × ((check exact (ops exact keys) "a" noon noon true empty).1 ≡ ok r)
    × ((status_of exact (ops exact keys) "a" noon noon true empty).1 ≡ ok r')
    × (r.decision ≡ r'.decision)
    × (r.position ≡ r'.position)
status_of-check_example =
    status_of-check exact (ops exact keys) (kept exact keys) 1 "a" noon noon true empty
      start-IsServing

status_of-view_example : Answers (status_of exact (ops exact keys) "a" noon noon true empty) λ c' _.
    IsServing exact (ops exact keys) (kept exact keys) 2 c'
    × ((kept exact keys).view c'.store
        ≡ (kept exact keys).view (maybe_reconcile exact (ops exact keys) noon true empty).0.store)
status_of-view_example =
    status_of-view exact (ops exact keys) (kept exact keys) 2 "a" noon noon true empty
      start-IsServing

maybe_reconcile-reconcile_example :
    maybe_reconcile exact
      (ops exact keys)
      (noon + 400000000)
      true
      (reconcile exact (ops exact keys) noon empty).0
    ≡ ((reconcile exact (ops exact keys) noon empty).0, ok tt)
maybe_reconcile-reconcile_example =
    maybe_reconcile-reconcile exact (ops exact keys) noon (noon + 400000000) true empty
      (omega arith, omega arith) (omega arith, omega arith) (omega arith) (omega arith)

interval_bounds_example : (pos 1 ≤ℤ interval cfg) × (interval cfg ≤ℤ second)
interval_bounds_example = interval_bounds cfg

estimate_exact_example :
    estimate {E = Fault} (pos 7) (pos 60000000000) (pos 4) ≡ ok (pos 105000000000)
estimate_exact_example = estimate_exact 7 60000000000 4 (omega arith) (omega arith)

-- The 200,000th in line, with sessions of a day, is told a negative wait: the product wraps around.
estimate_wraps :
    estimate {E = Fault} (pos 200000) (pos 86400000000000) (pos 100) ≡ ok (negsuc 11667440737095515)
unfolding estimate
estimate_wraps = refl

refresh_capacity-set_capacity_example :
    ((set_capacity (ops exact keys) (pos 5) empty).1 ≡ ok tt)
    × ((set_capacity (ops exact keys) (pos 5) empty).0.capacity ≡ pos 5)
    × ((refresh_capacity
          (ops exact keys)
          (record empty { store = (set_capacity (ops exact keys) (pos 5) empty).0.store })).capacity
        ≡ pos 5)
refresh_capacity-set_capacity_example =
    refresh_capacity-set_capacity exact keys (pos 5) empty empty (omega arith)
