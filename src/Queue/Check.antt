-- ===== src/Queue/Check.antt =====
-- Check and StatusOf of internal/queue/controller.go, with the estimate of the wait.
use gowait.Prelude.{
  zero, String, Bool, true, false, ◌&&◌, Option, none, some, ℤ, pos, ◌+ℤ◌, ◌*ℤ◌, leb_ℤ, ltb_ℤ,
  eqb_ℤ, if◌then◌else◌,
}
use gowait.Int64.{wrap, quot}
use gowait.Results.{Result, ok, error, M, ◌>>=◌, ◌>>◌, pure}
use gowait.Clock.{Time, Duration, Floats, second, sub}
use gowait.Store.{Status, Snapshot, Stats}
use gowait.Store.Interface.{Ops}
use gowait.Metrics.{observe_admission}
use gowait.Queue.Controller.{
  Config, Controller, Failure, division_by_zero, on_store, maybe_reconcile,
}

pub data Decision : Type 0 where
  proxy wait : Decision

-- `Result` in the source.
pub record Outcome : Type 0 where
  pub decision : Decision
  pub position : ℤ
  pub queue_length : ℤ
  pub active_count : ℤ
  pub eta : Duration

-- d == DecisionWait
abbrev pub is_wait : Decision → Bool
is_wait Decision.wait = true
is_wait Decision.proxy = false

module _ {S F : Type 0} where
  -- The cached stats, if they are not older than the cache's TTL.
  unfoldable pub fresh_stats : Time → Controller S F → Option (Stats F)
  fresh_stats now c = elim c.stats_cache [
    | none ↦ none
    | some (st, at) ↦ if ltb_ℤ (sub now at) c.cfg.stats_cache_ttl then some st else none
  ]

module _ {E F : Type 0} (fl : Floats F) where
  -- The average session that the estimate goes by.
  unfoldable pub avg_session : Config → Result (Failure E) (Stats F) → Duration
  avg_session cfg (error e) = cfg.active_ttl
  avg_session cfg (ok st) =
      if fl.is_positive st.avg_session_secs
      then fl.to_int64 (fl.mul st.avg_session_secs (fl.of_int64 second))
      else cfg.active_ttl

-- position * avg / capacity, on int64
unfoldable pub estimate : {E : Type 0} → ℤ → Duration → ℤ → Result (Failure E) Duration
estimate place avg (pos zero) = error division_by_zero
estimate place avg capacity = ok (wrap (quot (wrap (place *ℤ avg)) capacity))

abbrev pub outcome : Decision → Snapshot → Duration → Outcome
outcome d snap wait_for = record {
  decision = d;
  position = snap.position;
  queue_length = snap.queue_length;
  active_count = snap.active_count;
  eta = wait_for;
}

-- What `StatusOf` answers for a snapshot.
unfoldable pub foresee : Status → Snapshot → ℤ → Decision × Snapshot
foresee Status.active snap capacity = (Decision.proxy, snap)
foresee Status.queued snap capacity = (Decision.wait, snap)
foresee Status.unknown snap capacity =
    if ltb_ℤ snap.active_count capacity && eqb_ℤ snap.queue_length (pos 0)
    then (Decision.proxy, snap)
    else (Decision.wait, record snap { position = snap.queue_length +ℤ pos 1 })

module _ {S E F : Type 0} (fl : Floats F) where
  -- c.metrics.ObserveAdmission(0)
  abbrev pub observe_now : M (Controller S F) (Failure E) (Unit {0})
  observe_now c = (record c { metrics = observe_admission fl fl.zero_value c.metrics }, ok tt)

module _ {S E F : Type 0} (o : Ops S E F) where
  unfoldable pub eta_stats : Time → M (Controller S F) (Failure E) (Stats F)
  unfolding fresh_stats on_store
  eta_stats now c =
      if leb_ℤ c.cfg.stats_cache_ttl (pos 0) then on_store o.stats c else elim (fresh_stats now c) [
        | some st ↦ (c, ok st)
        | none ↦
            (do st ← on_store o.stats; λ c'. (record c' { stats_cache = some (st, now) }, ok st)) c
      ]

  -- c.store.TryAdmit(ctx, ticketID, c.Capacity(), now)
  abbrev pub ask : String → Time → M (Controller S F) (Failure E) Bool
  ask id now c = on_store (o.try_admit id c.capacity now) c

module _ {S E F : Type 0} (fl : Floats F) (o : Ops S E F) where
  unfoldable pub eta : Time → ℤ → M (Controller S F) (Failure E) Duration
  unfolding eta_stats avg_session estimate
  eta now place c =
      let (c', st) = eta_stats o now c in
      (c', estimate place (avg_session fl c'.cfg st) c'.capacity)

  unfoldable pub result : Time → Decision → Snapshot → M (Controller S F) (Failure E) Outcome
  unfolding eta
  result now d snap =
      if is_wait d && ltb_ℤ (pos 0) snap.position
      then (do wait_for ← eta now snap.position; pure (outcome d snap wait_for))
      else pure (outcome d snap (pos 0))

  -- After `TryAdmit`, of a ticket that was unknown. `later` is the clock where the estimate reads it.
  unfoldable pub join :
      String → Time → Time → Snapshot → Bool → M (Controller S F) (Failure E) Outcome
  unfolding on_store result
  join id now later snap true = do
    observe_now fl
    result later Decision.proxy
        (record snap { status = Status.active; active_count = snap.active_count +ℤ pos 1 })
  join id now later snap false = do
    waiting ← on_store (o.enqueue id now)
    result later Decision.wait waiting

  unfoldable pub act :
      String → Time → Time → Snapshot → Status → M (Controller S F) (Failure E) Outcome
  unfolding on_store result join
  act id now later snap Status.active = do
    _ ← on_store (o.touch id now)
    result later Decision.proxy snap
  act id now later snap Status.queued = result later Decision.wait snap
  act id now later snap Status.unknown = do admitted ← ask o id now; join id now later snap admitted

  unfoldable pub check : String → Time → Time → Bool → M (Controller S F) (Failure E) Outcome
  unfolding maybe_reconcile on_store act
  check id now later won = do
    maybe_reconcile fl o now won
    snap ← on_store (o.lookup id now)
    act id now later snap snap.status

  abbrev pub answer : Time → Snapshot → M (Controller S F) (Failure E) Outcome
  answer later snap c =
      let (d, shown) = foresee snap.status snap c.capacity in result later d shown c

  unfoldable pub status_of : String → Time → Time → Bool → M (Controller S F) (Failure E) Outcome
  unfolding maybe_reconcile on_store foresee result
  status_of id now later won = do
    maybe_reconcile fl o now won
    snap ← on_store (o.lookup id now)
    answer later snap
