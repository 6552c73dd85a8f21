-- ===== src/Store/Interface.antt =====
-- The interface `Store` of internal/store/store.go, which both stores implement: its methods on a
-- state `S`, with errors of a type `E`. A state can hold more than one replica's view: what others do
-- to a shared store between two calls is part of the calls.
use gowait.Prelude.{String, Bool, ℤ}
use gowait.Clock.{Time, Duration}
use gowait.Results.{M}
use gowait.Store.{Snapshot, Stats, ReconcileResult}

pub record Ops (S E F : Type 0) : Type 0 where
  pub try_admit : String → ℤ → Time → M S E Bool
  pub enqueue : String → Time → M S E Snapshot
  pub lookup : String → Time → M S E Snapshot
  pub touch : String → Time → M S E Bool
  -- the capacity, the TTLs of sessions and of those in line, and the time
  pub reconcile : ℤ → Duration → Duration → Time → M S E (ReconcileResult F)
  pub stats : M S E (Stats F)
  pub set_capacity : ℤ → M S E (Unit {0})
  pub get_capacity : M S E (ℤ × Bool)
  pub flush : M S E ℤ
