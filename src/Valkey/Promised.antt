-- ===== src/Valkey/Promised.antt =====
-- The store of internal/store/valkeystore/valkeystore.go as what the queue controller needs of a store.
use gowait.Clock.{Floats}
use gowait.Store.Promises.{Promises}
use gowait.Valkey.Server.{Commands, Laws, Client, Reliable, active, order}
use gowait.Valkey.Methods.{ops}
use gowait.Valkey.Sound.{weaken-IsSound}
use gowait.Valkey.Effects.{IsSoundAt, view_at}
use gowait.Valkey.Capacity.{set_kept, flush_kept}
use gowait.Valkey.Kept.{lookup_kept, touch_kept, admit_kept, enqueue_kept, nonneg_kept}
use gowait.Valkey.Kept.Reconciles.{reconcile_kept, stats_kept, capacity_kept}

module _ {DB E F : Type 0} (v : Commands DB F) (laws : Laws v) (cl : Client DB E)
    (rel : Reliable cl) where
  -- The promises of the interface hold of the store.
  unfoldable pub kept : (fl : Floats F) → Promises (ops fl v cl)
  kept fl = record {
    IsValid = λ n d. IsSoundAt n (v.contents d);
    view = λ d. view_at (v.contents d);
    weakens = λ n d s.
        weaken-IsSound n ((v.contents d).sorted active) ((v.contents d).sorted order)
          (v.contents d).counter s;
    looks = lookup_kept v laws cl rel;
    touches = touch_kept v laws cl rel;
    admits = admit_kept v laws cl rel;
    enqueues = enqueue_kept v laws cl rel;
    reconciles = λ n d limit active_ttl queue_ttl now s.
        reconcile_kept v laws cl rel fl n d limit active_ttl queue_ttl now s;
    counts = stats_kept v laws cl rel fl;
    adopts = capacity_kept v laws cl rel;
    sets = λ n d limit s. set_kept v laws cl rel n d limit s;
    flushes = flush_kept v laws cl rel;
    nonneg = λ n d s. nonneg_kept (v.contents d);
  }
