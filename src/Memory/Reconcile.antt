-- ===== src/Memory/Reconcile.antt =====
-- Reconcile of internal/store/memory/memory.go: expire idle sessions, evict ghosts, promote the head
-- of the queue into free slots. Go iterates over the map in an order of its own: `order` lists the
-- ids in that order. The result is threaded through the loops as the code's `res` is.
use gowait.Prelude.{
  ℕ, String, Bool, false, ◌&&◌, ◌==◌, none, some, List, [], ◌∷◌, ◌++◌, map, ℤ, pos, ◌+ℤ◌, ◌-ℤ◌,
  ltb_ℤ, if◌then◌else◌,
}
use gowait.Clock.{Time, Duration, sub, Floats}
use gowait.GoMap
use gowait.Store.{ReconcileResult}
use gowait.Memory.Holes.{add_hole, prune}
use gowait.Memory.State.{Store, update, is_active, admit_locked}

-- s.queue.Remove(el), where an element is known by its entry
unfoldable pub unlink : ℕ → List ℕ → List ℕ
unlink p [] = []
unlink p (q ∷ qs) = if q == p then qs else q ∷ unlink p qs

-- now.Sub(t) > ttl
unfoldable pub is_stale : Duration → Time → Time → Bool
is_stale ttl now t = ltb_ℤ ttl (sub now t)

module _ {F : Type 0} where
  abbrev pub empty_result : ReconcileResult F
  empty_result = record { promoted = pos 0; expired = pos 0; evicted = pos 0; waited_secs = [] }

  module _ (fl : Floats F) where
    open fl use {is_zero, add, mul, tenths, seconds}

    -- emaAlpha is 0.2
    unfoldable pub ema : F → F → F
    ema avg duration =
        if is_zero avg then duration else add (mul (tenths 2) duration) (mul (tenths 8) avg)

    -- The session at address `p`, which `id` maps to, is reaped.
    unfoldable pub expire_at : Store F → String → ℕ → Store F
    unfolding ema
    expire_at s id p = record s {
      avg_session = ema s.avg_session (seconds (sub (s.heap p).last_seen (s.heap p).admitted_at));
      entries = GoMap.remove id s.entries;
      active = s.active -ℤ pos 1;
    }

    module _ (active_ttl : Duration) (now : Time) where
      unfoldable pub expire_one : String → Store F × ReconcileResult F → Store F × ReconcileResult F
      unfolding expire_at is_stale
      expire_one id (s, res) = elim (GoMap.lookup id s.entries) [
        | none ↦ (s, res)
        | some p ↦
            if is_active (s.heap p).status && is_stale active_ttl now (s.heap p).last_seen
            then (expire_at s id p, record res { expired = res.expired +ℤ pos 1 })
            else (s, res)
      ]

      unfoldable pub expire :
          List String → Store F × ReconcileResult F → Store F × ReconcileResult F
      unfolding expire_one
      expire [] st = st
      expire (id ∷ order) st = expire order (expire_one id st)

  -- The ghost at address `p` leaves the queue and the map.
  unfoldable pub evict_at : Store F → ℕ → Store F
  unfolding unlink
  evict_at s p = record s {
    queue = unlink p s.queue;
    entries = GoMap.remove (s.heap p).id s.entries;
    holes = add_hole (s.heap p).seq s.holes;
  }

  module _ (queue_ttl : Duration) (now : Time) where
    unfoldable pub evict_one : ℕ → Store F × ReconcileResult F → Store F × ReconcileResult F
    unfolding evict_at is_stale
    evict_one p (s, res) =
        if is_stale queue_ttl now (s.heap p).last_seen
        then (evict_at s p, record res { evicted = res.evicted +ℤ pos 1 })
        else (s, res)

    -- The loop has taken `el.Next()` before the removal, so it visits the queue as it stood.
    unfoldable pub evict : List ℕ → Store F × ReconcileResult F → Store F × ReconcileResult F
    unfolding evict_one
    evict [] st = st
    evict (p ∷ rest) st = evict rest (evict_one p st)

  module _ (fl : Floats F) (now : Time) where
    -- The entry at the front of the queue, of which `rest` is what is behind it, is admitted.
    unfoldable pub promote_one :
        ℕ → List ℕ → Store F × ReconcileResult F → Store F × ReconcileResult F
    unfolding admit_locked
    promote_one p rest (s, res) =
        let e = record (s.heap p) { linked = false } in
        let s' = record s { queue = rest; heap = update s.heap p e } in
        (
          admit_locked s' p now,
          record res {
            waited_secs = res.waited_secs ++ fl.seconds (sub now e.enqueued_at) ∷ [];
            promoted = res.promoted +ℤ pos 1;
          },
        )

    -- for s.active < capacity { … }, on the queue that is left
    unfoldable pub promote : ℤ → List ℕ → Store F × ReconcileResult F → Store F × ReconcileResult F
    unfolding promote_one
    promote capacity [] st = st
    promote capacity (p ∷ rest) st =
        let more = promote capacity rest (promote_one p rest st) in
        if ltb_ℤ st.0.active capacity then more else st

  -- pruneHolesLocked
  unfoldable pub prune_holes : Store F → Store F
  prune_holes s = record s { holes = prune (map (λ p. (s.heap p).seq) s.queue) s.holes }

  module _ (fl : Floats F) where
    unfoldable pub reconcile :
        Store F → List String → ℤ → Duration → Duration → Time → Store F × ReconcileResult F
    unfolding expire evict promote prune_holes
    reconcile s order capacity active_ttl queue_ttl now =
        let (s1, res1) = expire fl active_ttl now order (s, empty_result) in
        let (s2, res2) = evict queue_ttl now s1.queue (s1, res1) in
        let (s3, res3) = promote fl now capacity s2.queue (s2, res2) in (prune_holes s3, res3)
