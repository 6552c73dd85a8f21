-- ===== src/Queue/Controller.antt =====
-- The controller's state, its capacity, the reconciles and the janitor's tick.
-- A reading of the clock is an argument, as is who wins a race for a compare-and-swap.
use gowait.Prelude.{
  Bool, not, ◌&&◌, ◌||◌, Option, none, List, [], ◌∷◌, ℤ, pos, ◌-ℤ◌, ltb_ℤ, leb_ℤ, if◌then◌else◌,
}
use gowait.Int64.{wrap, quot}
use gowait.Results.{ok, error, M, ◌>>=◌, ◌>>◌, fail}
use gowait.Clock.{Time, Duration, Floats, second}
use gowait.Store.{Stats, ReconcileResult}
use gowait.Store.Interface.{Ops}
use gowait.Metrics.{Registry, observe_admission, add_reconcile}

pub record Config : Type 0 where
  pub capacity : ℤ
  pub active_ttl : Duration
  pub queue_ttl : Duration
  pub min_reconcile_gap : Duration
  pub stats_cache_ttl : Duration

pub record Controller (S F : Type 0) : Type 0 where
  pub store : S
  pub cfg : Config
  pub capacity : ℤ
  pub metrics : Option (Registry F)
  pub last_reconcile : ℤ
  pub stats_cache : Option (Stats F × Time)

-- How a call ends without an answer; the last is a panic.
pub data Failure (E : Type 0) : Type 0 where
  from_store : E → Failure E
  bad_capacity : ℤ → Failure E
  division_by_zero : Failure E

-- t.UnixNano(): the zero of Unix time is 62135596800 seconds after Go's.
abbrev pub unix_nano : Time → ℤ
unix_nano t = wrap (pos t -ℤ pos 62135596800000000000)

-- New(s, cfg, now)
abbrev pub new : {S F : Type 0} → S → Config → Controller S F
new s cfg = record {
  store = s;
  cfg = cfg;
  capacity = cfg.capacity;
  metrics = none;
  last_reconcile = pos 0;
  stats_cache = none;
}

abbrev pub set_metrics : {S F : Type 0} → Option (Registry F) → Controller S F → Controller S F
set_metrics r c = record c { metrics = r }

module _ {S E F : Type 0} where
  -- c.capacity.Store(n)
  abbrev pub store_capacity : ℤ → M (Controller S F) (Failure E) (Unit {0})
  store_capacity n c = (record c { capacity = n }, ok tt)

  -- A call of the store.
  unfoldable pub on_store : {A : Type 0} → M S E A → M (Controller S F) (Failure E) A
  on_store call c = (
    record c { store = (call c.store).0 },
    elim (call c.store).1 [ ok a ↦ ok a | error e ↦ error (from_store e) ],
  )

module _ {S E F : Type 0} (o : Ops S E F) where
  unfoldable pub stats : M (Controller S F) (Failure E) (Stats F)
  stats = on_store o.stats

  unfoldable pub flush : M (Controller S F) (Failure E) ℤ
  flush = on_store o.flush

  unfoldable pub set_capacity : ℤ → M (Controller S F) (Failure E) (Unit {0})
  unfolding on_store
  set_capacity n =
      if ltb_ℤ n (pos 1)
      then fail (bad_capacity n)
      else (do on_store (o.set_capacity n); store_capacity n)

  unfoldable pub refresh_capacity : Controller S F → Controller S F
  refresh_capacity c =
      let c' = record c { store = (o.get_capacity c.store).0 } in
      elim (o.get_capacity c.store).1 [
        | error e ↦ c'
        | ok (n, set) ↦
            if set && leb_ℤ (pos 1) n
            then record c' { capacity = n }
            else record c' { capacity = c'.cfg.capacity }
      ]

module _ {F : Type 0} (fl : Floats F) where
  -- for _, waited := range res.WaitedSecs { c.metrics.ObserveAdmission(waited) }
  unfoldable pub observe_all : List F → Option (Registry F) → Option (Registry F)
  observe_all [] r = r
  observe_all (waited ∷ rest) r = observe_all rest (observe_admission fl waited r)

module _ {S E F : Type 0} (fl : Floats F) where
  -- What the registry is fed after a reconcile.
  abbrev pub feed : ReconcileResult F → M (Controller S F) (Failure E) (Unit {0})
  feed res c =
      (record c { metrics = observe_all fl res.waited_secs (add_reconcile res c.metrics) }, ok tt)

module _ {S F : Type 0} where
  -- Whether `MinReconcileGap` lets a request reconcile, where `won` tells whether it wins the swap.
  unfoldable pub is_due : Time → Bool → Controller S F → Bool
  is_due now won c =
      not (ltb_ℤ (pos 0) c.cfg.min_reconcile_gap)
      || (not (ltb_ℤ (wrap (unix_nano now -ℤ c.last_reconcile)) c.cfg.min_reconcile_gap) && won)

-- The janitor's interval.
unfoldable pub interval : Config → Duration
interval cfg =
    let quarter = quot cfg.active_ttl (pos 4) in
    let capped = if ltb_ℤ second quarter then second else quarter in
    if leb_ℤ capped (pos 0) then second else capped

module _ {S E F : Type 0} (fl : Floats F) (o : Ops S E F) where
  unfoldable pub reconcile : Time → M (Controller S F) (Failure E) (Unit {0})
  unfolding on_store
  reconcile now c =
      (do res ← on_store (o.reconcile c.capacity c.cfg.active_ttl c.cfg.queue_ttl now); feed fl res)
        (record c { last_reconcile = unix_nano now })

  unfoldable pub maybe_reconcile : Time → Bool → M (Controller S F) (Failure E) (Unit {0})
  unfolding is_due reconcile
  maybe_reconcile now won c = if is_due now won c then reconcile now c else (c, ok tt)

  -- What the janitor does on a tick; the reconcile's error is dropped.
  unfoldable pub tick : Time → Controller S F → Controller S F
  unfolding refresh_capacity reconcile
  tick now c = (reconcile now (refresh_capacity o c)).0
