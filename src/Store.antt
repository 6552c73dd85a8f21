-- ===== src/Store.antt =====
-- internal/store/store.go: the types that a store answers with.
pub mod Interface
pub mod Promises
pub mod Dynamic
use gowait.Prelude.{ℤ, List}

pub data Status : Type 0 where
  unknown queued active : Status

pub record Snapshot : Type 0 where
  pub status : Status
  pub position : ℤ
  pub queue_length : ℤ
  pub active_count : ℤ

module _ (F : Type 0) where
  pub record Stats : Type 0 where
    pub queue_length : ℤ
    pub active_count : ℤ
    pub avg_session_secs : F

  pub record ReconcileResult : Type 0 where
    pub promoted : ℤ
    pub expired : ℤ
    pub evicted : ℤ
    pub waited_secs : List F
