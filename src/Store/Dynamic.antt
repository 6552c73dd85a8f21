-- ===== src/Store/Dynamic.antt =====
-- A value of the interface type Store of internal/store/store.go, which holds a store of one of two
-- types: each method is that of the store that it holds.
use gowait.Prelude.{ℕ, suc, ◌≡◌, ◌⊎◌, refl, String, true, false, [], ℤ, pos, ◌+ℤ◌, ◌≤ℤ◌, length}
use gowait.Results.{ok, error, M}
use gowait.Clock.{Time, Duration}
use gowait.Store.{Status}
use gowait.Store.Interface.{Ops}
use gowait.Store.Promises.{View, IsPlaced, Shows, Answers, HasRoom, Promises}

pub data Store (S T : Type 0) : Type 0 where
  memory : S → Store S T
  valkey : T → Store S T

pub data StoreError (D E : Type 0) : Type 0 where
  memory_error : D → StoreError D E
  valkey_error : E → StoreError D E

module _ {S T D E : Type 0} where
  -- A call of the store that is held, and its error.
  abbrev pub dispatch : {A : Type 0} → M S D A → M T E A → M (Store S T) (StoreError D E) A
  dispatch f g (memory s) =
      (memory (f s).0, elim (f s).1 [ ok a ↦ ok a | error e ↦ error (memory_error e) ])
  dispatch f g (valkey t) =
      (valkey (g t).0, elim (g t).1 [ ok a ↦ ok a | error e ↦ error (valkey_error e) ])

module _ {S T D E F : Type 0} (o : Ops S D F) (q : Ops T E F) where
  abbrev pub ops : Ops (Store S T) (StoreError D E) F
  ops = record {
    try_admit =
        λ id capacity now. dispatch (o.try_admit id capacity now) (q.try_admit id capacity now);
    enqueue = λ id now. dispatch (o.enqueue id now) (q.enqueue id now);
    lookup = λ id now. dispatch (o.lookup id now) (q.lookup id now);
    touch = λ id now. dispatch (o.touch id now) (q.touch id now);
    reconcile = λ capacity active_ttl queue_ttl now.
        dispatch (o.reconcile capacity active_ttl queue_ttl now)
          (q.reconcile capacity active_ttl queue_ttl now);
    stats = dispatch o.stats q.stats;
    set_capacity = λ n. dispatch (o.set_capacity n) (q.set_capacity n);
    get_capacity = dispatch o.get_capacity q.get_capacity;
    flush = dispatch o.flush q.flush;
  }

  module _ (p : Promises o) (r : Promises q) where
    abbrev pub view : Store S T → View
    view (memory s) = p.view s
    view (valkey t) = r.view t

    abbrev pub IsValid : ℕ → Store S T → Type 0
    IsValid n (memory s) = p.IsValid n s
    IsValid n (valkey t) = r.IsValid n t

    pub looks_kept :
        (n : ℕ) (s : Store S T) (id : String) (now : Time)
        → IsValid n s
        → Answers
            (ops.lookup id now s)
            λ s' snap. IsValid n s' × (view s' ≡ view s) × Shows (view s) id snap
    looks_kept n (memory s) id now v = let (a, e, w) = p.looks n s id now v in (a, rw e refl, w)
    looks_kept n (valkey s) id now v = let (a, e, w) = r.looks n s id now v in (a, rw e refl, w)

    pub touches_kept :
        (n : ℕ) (s : Store S T) (id : String) (now : Time)
        → IsValid n s
        → Answers (ops.touch id now s) λ s' _. IsValid n s' × (view s' ≡ view s)
    touches_kept n (memory s) id now v = let (a, e, w) = p.touches n s id now v in (a, rw e refl, w)
    touches_kept n (valkey s) id now v = let (a, e, w) = r.touches n s id now v in (a, rw e refl, w)

    pub admits_kept :
        (n : ℕ) (s : Store S T) (id : String) (capacity : ℤ) (now : Time)
        → IsValid n s
        → (view s).status id ≡ Status.unknown
        → Answers (ops.try_admit id capacity now s) λ s' admitted.
          IsValid n s'
          × ((admitted ≡ true)
                × HasRoom (view s) capacity
                × ((view s').status id ≡ Status.active)
                × ((view s').active ≡ (view s).active +ℤ pos 1)
              ⊎ (admitted ≡ false) × (¬ HasRoom (view s) capacity) × (view s' ≡ view s))
    admits_kept n (memory s) id capacity now v u =
        let (a, e, w) = p.admits n s id capacity now v u in (a, rw e refl, w)
    admits_kept n (valkey s) id capacity now v u =
        let (a, e, w) = r.admits n s id capacity now v u in (a, rw e refl, w)

    pub enqueues_kept :
        (n : ℕ) (s : Store S T) (id : String) (now : Time)
        → IsValid (suc n) s
        → (view s).status id ≡ Status.unknown
        → Answers (ops.enqueue id now s) λ s' snap.
          IsValid n s'
          × Shows (view s') id snap
          × IsPlaced (view s') id snap.position
          × (snap.position ≡ pos (suc (length (view s).line)))
          × ((view s').active ≡ (view s).active)
    enqueues_kept n (memory s) id now v u =
        let (a, e, w) = p.enqueues n s id now v u in (a, rw e refl, w)
    enqueues_kept n (valkey s) id now v u =
        let (a, e, w) = r.enqueues n s id now v u in (a, rw e refl, w)

    pub reconciles_kept :
        (n : ℕ) (s : Store S T) (capacity : ℤ) (active_ttl queue_ttl : Duration) (now : Time)
        → IsValid n s
        → Answers (ops.reconcile capacity active_ttl queue_ttl now s) λ s' res.
          IsValid n s'
          × (pos 0 ≤ℤ res.expired)
          × (res.expired ≤ℤ (view s).active)
          × ((view s').active +ℤ res.expired ≡ (view s).active +ℤ pos (length res.waited_secs))
    reconciles_kept n (memory s) capacity active_ttl queue_ttl now v =
        let (a, e, w) = p.reconciles n s capacity active_ttl queue_ttl now v in (a, rw e refl, w)
    reconciles_kept n (valkey s) capacity active_ttl queue_ttl now v =
        let (a, e, w) = r.reconciles n s capacity active_ttl queue_ttl now v in (a, rw e refl, w)

    pub sets_kept :
        (n : ℕ) (s : Store S T) (capacity : ℤ)
        → IsValid n s
        → Answers (ops.set_capacity capacity s) λ s' _. IsValid n s' × (view s' ≡ view s)
    sets_kept n (memory s) capacity v = let (a, e, w) = p.sets n s capacity v in (a, rw e refl, w)
    sets_kept n (valkey s) capacity v = let (a, e, w) = r.sets n s capacity v in (a, rw e refl, w)

    pub flushes_kept :
        (n : ℕ) (s : Store S T)
        → IsValid n s
        → Answers
            (ops.flush s)
            λ s' _. IsValid n s' × ((view s').line ≡ []) × ((view s').active ≡ (view s).active)
    flushes_kept n (memory s) v = let (a, e, w) = p.flushes n s v in (a, rw e refl, w)
    flushes_kept n (valkey s) v = let (a, e, w) = r.flushes n s v in (a, rw e refl, w)

    pub counts_kept :
        (n : ℕ) (s : Store S T)
        → IsValid n s
        → IsValid n (ops.stats s).0 × (view (ops.stats s).0 ≡ view s)
    counts_kept n (memory s) v = p.counts n s v
    counts_kept n (valkey s) v = r.counts n s v

    pub adopts_kept :
        (n : ℕ) (s : Store S T)
        → IsValid n s
        → IsValid n (ops.get_capacity s).0 × (view (ops.get_capacity s).0 ≡ view s)
    adopts_kept n (memory s) v = p.adopts n s v
    adopts_kept n (valkey s) v = r.adopts n s v

    pub weakens_kept : (n : ℕ) (s : Store S T) → IsValid (suc n) s → IsValid n s
    weakens_kept n (memory s) v = p.weakens n s v
    weakens_kept n (valkey s) v = r.weakens n s v

    pub nonneg_kept : (n : ℕ) (s : Store S T) → IsValid n s → pos 0 ≤ℤ (view s).active
    nonneg_kept n (memory s) v = p.nonneg n s v
    nonneg_kept n (valkey s) v = r.nonneg n s v

    -- What both stores promise, whichever is held promises.
    unfoldable pub kept : Promises ops
    kept = record {
      IsValid = IsValid;
      view = view;
      weakens = weakens_kept;
      looks = looks_kept;
      touches = touches_kept;
      admits = admits_kept;
      enqueues = enqueues_kept;
      reconciles = reconciles_kept;
      counts = counts_kept;
      adopts = adopts_kept;
      sets = sets_kept;
      flushes = flushes_kept;
      nonneg = nonneg_kept;
    }
