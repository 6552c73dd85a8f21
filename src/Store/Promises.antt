-- ===== src/Store/Promises.antt =====
-- What the comments of the interface `Store` in internal/store/store.go promise a client, in terms of
-- a view that forgets how a store holds its tickets: the status of each, the line, first in first,
-- and the number of active ones. `IsValid n` is a store in which `n` more tickets can be queued.
use gowait.Prelude.{
  ℕ, suc, ◌≡◌, ◌≢◌, sym, subst, some, ◌⊎◌, String, true, false, List, [], ℤ, pos, ◌+ℤ◌, ◌≤ℤ◌, ◌<ℤ◌,
  length, get_elem?,
}
use gowait.Results.{Result, ok, error, M, ◌>>=◌}
use gowait.Clock.{Time, Duration}
use gowait.Store.{Status, Snapshot}
use gowait.Store.Interface.{Ops}

pub record View : Type 0 where
  pub status : String → Status
  pub line : List String
  pub active : ℤ

-- The ticket is the `i`-th of the line, from 0, and the snapshot says so, from 1.
abbrev pub IsPlaced : View → String → ℤ → Type 0
IsPlaced v id position =
    (i : ℕ) × (v.status id ≡ Status.queued)
    × (get_elem? v.line i ≡ some id)
    × (position ≡ pos (suc i))

pub record Shows (v : View) (id : String) (snap : Snapshot) : Type 0 where
  pub status : snap.status ≡ v.status id
  pub waiting : snap.queue_length ≡ pos (length v.line)
  pub active : snap.active_count ≡ v.active
  pub place : (v.status id ≢ Status.queued) × (snap.position ≡ pos 0) ⊎ IsPlaced v id snap.position

-- A call answers, without an error, and what it leaves and answers is as said.
abbrev pub Answers : {S E A : Type 0} → S × Result E A → (S → A → Type 0) → Type 0
Answers {A = A} r P = (a : A) × (r.1 ≡ ok a) × P r.0 a

-- A chain of calls answers as its last one does.
pub >>=-Answers :
    {S E A B : Type 0} (P : S → A → Type 0) (Q : S → B → Type 0) (m : M S E A) (f : A → M S E B)
    (s : S)
    → Answers (m s) P
    → ((a : A) → P (m s).0 a → Answers (f a (m s).0) Q)
    → Answers ((m >>= f) s) Q
>>=-Answers {E = E} P Q m f s (a, e, p) next =
    subst (λ r. Answers {E = E} (elim r [ ok b ↦ f b (m s).0 | error x ↦ ((m s).0, error x) ]) Q)
      (sym e) (next a p)

-- A free slot and nobody in line.
abbrev pub HasRoom : View → ℤ → Type 0
HasRoom v capacity = (v.active <ℤ capacity) × (v.line ≡ [])

pub record Promises {S E F : Type 0} (o : Ops S E F) : Type 1 where
  pub IsValid : ℕ → S → Type 0
  pub view : S → View
  pub weakens : (n : ℕ) (s : S) → IsValid (suc n) s → IsValid n s
  pub looks :
      (n : ℕ) (s : S) (id : String) (now : Time)
      → IsValid n s
      → Answers
          (o.lookup id now s)
          λ s' snap. IsValid n s' × (view s' ≡ view s) × Shows (view s) id snap
  pub touches :
      (n : ℕ) (s : S) (id : String) (now : Time)
      → IsValid n s
      → Answers (o.touch id now s) λ s' seen. IsValid n s' × (view s' ≡ view s)
  pub admits :
      (n : ℕ) (s : S) (id : String) (capacity : ℤ) (now : Time)
      → IsValid n s
      → (view s).status id ≡ Status.unknown
      → Answers (o.try_admit id capacity now s) λ s' admitted.
        IsValid n s'
        × ((admitted ≡ true)
              × HasRoom (view s) capacity
              × ((view s').status id ≡ Status.active)
              × ((view s').active ≡ (view s).active +ℤ pos 1)
            ⊎ (admitted ≡ false) × (¬ HasRoom (view s) capacity) × (view s' ≡ view s))
  pub enqueues :
      (n : ℕ) (s : S) (id : String) (now : Time)
      → IsValid (suc n) s
      → (view s).status id ≡ Status.unknown
      → Answers (o.enqueue id now s) λ s' snap.
        IsValid n s'
        × Shows (view s') id snap
        × IsPlaced (view s') id snap.position
        × (snap.position ≡ pos (suc (length (view s).line)))
        × ((view s').active ≡ (view s).active)
  pub reconciles :
      (n : ℕ) (s : S) (capacity : ℤ) (active_ttl queue_ttl : Duration) (now : Time)
      → IsValid n s
      → Answers (o.reconcile capacity active_ttl queue_ttl now s) λ s' res.
        IsValid n s'
        × (pos 0 ≤ℤ res.expired)
        × (res.expired ≤ℤ (view s).active)
        × ((view s').active +ℤ res.expired ≡ (view s).active +ℤ pos (length res.waited_secs))
  -- of `Stats` an error is allowed
  pub counts :
      (n : ℕ) (s : S) → IsValid n s → IsValid n (o.stats s).0 × (view (o.stats s).0 ≡ view s)
  pub adopts :
      (n : ℕ) (s : S)
      → IsValid n s
      → IsValid n (o.get_capacity s).0 × (view (o.get_capacity s).0 ≡ view s)
  pub sets :
      (n : ℕ) (s : S) (capacity : ℤ)
      → IsValid n s
      → Answers (o.set_capacity capacity s) λ s' _. IsValid n s' × (view s' ≡ view s)
  pub flushes :
      (n : ℕ) (s : S)
      → IsValid n s
      → Answers
          (o.flush s)
          λ s' _. IsValid n s' × ((view s').line ≡ []) × ((view s').active ≡ (view s).active)
  pub nonneg : (n : ℕ) (s : S) → IsValid n s → pos 0 ≤ℤ (view s).active
