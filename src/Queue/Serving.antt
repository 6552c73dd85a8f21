-- ===== src/Queue/Serving.antt =====
-- The invariant of a controller on a store that keeps its promises, and the calls that tend it.
use gowait.Prelude.{
  ℕ, suc, ◌+◌, ◌-◌, ◌%◌, ◌^◌, ◌≡◌, refl, subst, inl, inr, Bool, Option, none, some, List, [], ◌∷◌,
  ℤ, pos, ◌+ℤ◌, ◌≤ℤ◌, pos_part, length, arith, Bool-cases,
}
use gowait.Results.{M, ◌>>=◌}
use gowait.Clock.{Time, Floats}
use gowait.Store.{ReconcileResult}
use gowait.Store.Interface.{Ops}
use gowait.Store.Promises.{Answers, >>=-Answers, Promises}
use gowait.Metrics.{Registry, observe_admission, add_reconcile}
use gowait.Queue.Controller.{
  Controller, Failure, on_store, observe_all, unix_nano, feed, reconcile, is_due, maybe_reconcile,
}

-- As many were admitted as have expired or are still in the room, modulo 2^64.
abbrev pub IsBalanced : {F : Type 0} → Option (Registry F) → ℕ → Type 0
IsBalanced none k = Unit
IsBalanced (some r) k = (r.expirations + k) % 2 ^ 64 ≡ r.admissions

module _ {F : Type 0} (fl : Floats F) where
  pub observe_admission-IsBalanced :
      (m : Option (Registry F)) (x : F) (k : ℕ)
      → IsBalanced m k
      → IsBalanced (observe_admission fl x m) (suc k)
  unfolding observe_admission
  observe_admission-IsBalanced none x k b = b
  observe_admission-IsBalanced (some r) x k b = ground (arith, b)

  observe_all-IsBalanced :
      (xs : List F) (m : Option (Registry F)) (k : ℕ)
      → IsBalanced m k
      → IsBalanced (observe_all fl xs m) (k + length xs)
  unfolding observe_all
  observe_all-IsBalanced [] m k b = subst (IsBalanced m) (omega arith) b
  observe_all-IsBalanced (x ∷ xs) m k b =
      subst (IsBalanced (observe_all fl xs (observe_admission fl x m))) (omega arith) (
        observe_all-IsBalanced xs (observe_admission fl x m) (suc k)
          (observe_admission-IsBalanced m x k b))

  add_reconcile-IsBalanced :
      (res : ReconcileResult F) (m : Option (Registry F)) (k : ℕ)
      → pos 0 ≤ℤ res.expired
      → IsBalanced m (k + pos_part res.expired)
      → IsBalanced (add_reconcile res m) k
  unfolding add_reconcile
  add_reconcile-IsBalanced res none k h b = b
  add_reconcile-IsBalanced res (some r) k h b = ground (arith, b, h)

  pub feed-IsBalanced :
      (res : ReconcileResult F) (m : Option (Registry F)) (a a' : ℤ)
      → pos 0 ≤ℤ a
      → pos 0 ≤ℤ a'
      → pos 0 ≤ℤ res.expired
      → res.expired ≤ℤ a
      → a' +ℤ res.expired ≡ a +ℤ pos (length res.waited_secs)
      → IsBalanced m (pos_part a)
      → IsBalanced (observe_all fl res.waited_secs (add_reconcile res m)) (pos_part a')
  feed-IsBalanced res m a a' ha ha' hx le e b =
      subst (IsBalanced (observe_all fl res.waited_secs (add_reconcile res m))) (ground (arith, e))
        (observe_all-IsBalanced res.waited_secs (add_reconcile res m)
          (pos_part a - pos_part res.expired)
          (add_reconcile-IsBalanced res m (pos_part a - pos_part res.expired) hx
            (subst (IsBalanced m) (ground arith) b)))

-- A call of the store, and what follows it.
pub on_store-Answers :
    {S E F A B : Type 0} (call : M S E A) (f : A → M (Controller S F) (Failure E) B)
    (c : Controller S F) (P : S → A → Type 0) (Q : Controller S F → B → Type 0)
    → Answers (call c.store) P
    → ((a : A) → P (call c.store).0 a → Answers (f a (record c { store = (call c.store).0 })) Q)
    → Answers ((on_store call >>= f) c) Q
unfolding on_store
on_store-Answers call f c P Q (a, e, q) next =
    >>=-Answers (λ c' x. (c' ≡ record c { store = (call c.store).0 }) × P (call c.store).0 x) Q
      (on_store call) f c (a, rw e refl, (refl, q)) (λ x (_, r). next x r)

module _ {S E F : Type 0} (fl : Floats F) (o : Ops S E F) (p : Promises o) where
  -- The store has room for `n` more tickets, both capacities are positive, and the counters agree
  -- with the room.
  pub record IsServing (n : ℕ) (c : Controller S F) : Type 0 where
    pub valid : p.IsValid n c.store
    pub capacity : pos 1 ≤ℤ c.capacity
    pub configured : pos 1 ≤ℤ c.cfg.capacity
    pub balanced : IsBalanced c.metrics (pos_part (p.view c.store).active)

  pub reconcile-IsServing :
      (n : ℕ) (now : Time) (c : Controller S F)
      → IsServing n c
      → Answers (reconcile fl o now c) λ c' _. IsServing n c' × (c'.capacity ≡ c.capacity)
  unfolding reconcile on_store
  reconcile-IsServing n now c v =
      let s' = (o.reconcile c.capacity c.cfg.active_ttl c.cfg.queue_ttl now c.store).0 in
      on_store-Answers (o.reconcile c.capacity c.cfg.active_ttl c.cfg.queue_ttl now) (feed fl)
        (record c { last_reconcile = unix_nano now })
        (λ t res.
          p.IsValid n t
          × (pos 0 ≤ℤ res.expired)
          × (res.expired ≤ℤ (p.view c.store).active)
          × ((p.view t).active +ℤ res.expired
              ≡ (p.view c.store).active +ℤ pos (length res.waited_secs)))
        (λ c' _. IsServing n c' × (c'.capacity ≡ c.capacity))
        (p.reconciles n c.store c.capacity c.cfg.active_ttl c.cfg.queue_ttl now v.valid)
        (λ res (w, hx, le, sum). (
          tt,
          refl,
          (
            record {
              valid = w;
              capacity = v.capacity;
              configured = v.configured;
              balanced =
                  feed-IsBalanced fl res c.metrics (p.view c.store).active (p.view s').active
                    (p.nonneg n c.store v.valid) (p.nonneg n s' w) hx le sum v.balanced;
            },
            refl,
          ),
        ))

  pub maybe_reconcile-IsServing :
      (n : ℕ) (now : Time) (won : Bool) (c : Controller S F)
      → IsServing n c
      → Answers (maybe_reconcile fl o now won c) λ c' _. IsServing n c'
  unfolding maybe_reconcile
  maybe_reconcile-IsServing n now won c v = elim (Bool-cases (is_due now won c)) [
    | inl due ↦ rw due (let (a, e, (w, k)) = reconcile-IsServing n now c v in (a, e, w))
    | inr early ↦ rw early (tt, refl, v)
  ]
