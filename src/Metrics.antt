-- ===== src/Metrics.antt =====
-- internal/metrics/metrics.go: the counters and the histogram of the waits. An `atomic.Int64` is its
-- 64 bits, a number below 2^64. A nil registry is `none`, on which every method does nothing.
pub mod Tally
pub mod Text
mod Tests
use gowait.Prelude.{
  ℕ, zero, suc, ◌+◌, ◌%◌, ◌^◌, Option, none, some, List, [], ◌∷◌, map, ℤ, pos, if◌then◌else◌,
}
use gowait.Int64.{to_uint}
use gowait.Clock.{Floats}
use gowait.Store.{ReconcileResult}

pub record Registry (F : Type 0) : Type 0 where
  pub admissions : ℕ
  pub expirations : ℕ
  pub evictions : ℕ
  pub req_proxied : ℕ
  pub req_queued : ℕ
  pub req_admin : ℕ
  pub wait_counts : List ℕ
  pub wait_sum : F
  pub wait_total : ℕ

-- The label values of gowait_requests_total.
pub data RequestDecision : Type 0 where
  proxied queued admin : RequestDecision

-- c.Add(n)
abbrev pub add : ℕ → ℤ → ℕ
add c n = (c + to_uint n) % 2 ^ 64

-- counts[i].Add(1)
unfoldable pub add_at : ℕ → List ℕ → List ℕ
add_at i [] = []
add_at zero (c ∷ counts) = add c (pos 1) ∷ counts
add_at (suc i) (c ∷ counts) = c ∷ add_at i counts

module _ {F : Type 0} (fl : Floats F) where
  abbrev pub wait_buckets : List F
  wait_buckets = map (λ n. fl.of_int64 (pos n)) (1 ∷ 5 ∷ 15 ∷ 30 ∷ 60 ∷ 120 ∷ 300 ∷ 600 ∷ [])

  -- New(version), without the version
  abbrev pub new : Registry F
  new = record {
    admissions = 0;
    expirations = 0;
    evictions = 0;
    req_proxied = 0;
    req_queued = 0;
    req_admin = 0;
    wait_counts = 0 ∷ map (λ _. 0) wait_buckets;
    wait_sum = fl.zero_value;
    wait_total = 0;
  }

  -- The first bucket whose bound is not below, or the one past the bounds.
  unfoldable pub bucket : F → List F → ℕ
  bucket wait_secs [] = 0
  bucket wait_secs (ub ∷ ubs) =
      let further = bucket wait_secs ubs in if fl.leq wait_secs ub then 0 else suc further

  unfoldable pub observe_admission : F → Option (Registry F) → Option (Registry F)
  unfolding bucket add_at
  observe_admission wait_secs none = none
  observe_admission wait_secs (some r) = some (record r {
    admissions = add r.admissions (pos 1);
    wait_counts = add_at (bucket wait_secs wait_buckets) r.wait_counts;
    wait_total = add r.wait_total (pos 1);
    wait_sum = fl.add r.wait_sum wait_secs;
  })

module _ {F : Type 0} where
  unfoldable pub add_reconcile : ReconcileResult F → Option (Registry F) → Option (Registry F)
  add_reconcile res none = none
  add_reconcile res (some r) = some (record r {
    expirations = add r.expirations res.expired;
    evictions = add r.evictions res.evicted;
  })

  unfoldable pub inc_request : RequestDecision → Option (Registry F) → Option (Registry F)
  inc_request d none = none
  inc_request RequestDecision.proxied (some r) =
      some (record r { req_proxied = add r.req_proxied (pos 1) })
  inc_request RequestDecision.queued (some r) =
      some (record r { req_queued = add r.req_queued (pos 1) })
  inc_request RequestDecision.admin (some r) =
      some (record r { req_admin = add r.req_admin (pos 1) })

-- The cumulative bucket lines of `WriteTo`, from the counts of the buckets in order.
unfoldable pub cumulate : ℕ → List ℕ → List ℕ
cumulate cum [] = []
cumulate cum (c ∷ counts) = let cum' = (cum + c) % 2 ^ 64 in cum' ∷ cumulate cum' counts
