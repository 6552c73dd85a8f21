-- ===== src/Memory/Counters.antt =====
-- What the methods do to the next seq and to the active count.
use gowait.Prelude.{
  ℕ, suc, ◌^◌, ◌≤◌, ◌<◌, ◌≡◌, refl, ◌∙◌, String, List, [], ◌∷◌, ℤ, arith, Bool-cases, inl, inr,
  ltb_ℤ,
}
use gowait.Clock.{Time, Duration, Floats}
use gowait.Store.{ReconcileResult}
use gowait.Memory.State.{Store}
use gowait.Memory.Tickets.{try_admit, enqueue, lookup, touch}
use gowait.Memory.Reconcile.{
  expire_one, expire, evict_one, evict, promote_one, promote, reconcile, empty_result,
}

module _ {F : Type 0} where
  pub try_admit-next_seq :
      (s : Store F) (id : String) (capacity : ℤ) (now : Time)
      → (try_admit s id capacity now).0.next_seq ≡ s.next_seq
  unfolding try_admit
  try_admit-next_seq s id capacity now = ground arith

  pub lookup_counters :
      (s : Store F) (id : String) (now : Time)
      → ((lookup s id now).0.next_seq ≡ s.next_seq) × ((lookup s id now).0.active ≡ s.active)
  unfolding lookup
  lookup_counters s id now = ground arith

  pub touch_counters :
      (s : Store F) (id : String) (now : Time)
      → ((touch s id now).0.next_seq ≡ s.next_seq) × ((touch s id now).0.active ≡ s.active)
  unfolding touch
  touch_counters s id now = ground arith

  pub enqueue_counters :
      (s : Store F) (id : String) (now : Time)
      → suc s.next_seq < 2 ^ 63
      → ((enqueue s id now).0.next_seq ≤ suc s.next_seq) × ((enqueue s id now).0.active ≡ s.active)
  unfolding enqueue
  enqueue_counters s id now room = ground arith

module _ {F : Type 0} (fl : Floats F) (now : Time) where
  expire-next_seq :
      (ttl : Duration) (order : List String) (st : Store F × ReconcileResult F)
      → (expire fl ttl now order st).0.next_seq ≡ st.0.next_seq
  unfolding expire
  expire-next_seq ttl [] st = refl
  expire-next_seq ttl (id ∷ order) st =
      expire-next_seq ttl order (expire_one fl ttl now id st) ∙ one
    where
      one : (expire_one fl ttl now id st).0.next_seq ≡ st.0.next_seq
      one = ground arith

  evict-next_seq :
      (ttl : Duration) (q : List ℕ) (st : Store F × ReconcileResult F)
      → (evict ttl now q st).0.next_seq ≡ st.0.next_seq
  unfolding evict
  evict-next_seq ttl [] st = refl
  evict-next_seq ttl (p ∷ q) st = evict-next_seq ttl q (evict_one ttl now p st) ∙ one
    where
      one : (evict_one ttl now p st).0.next_seq ≡ st.0.next_seq
      one = ground arith

  promote-next_seq :
      (capacity : ℤ) (q : List ℕ) (st : Store F × ReconcileResult F)
      → (promote fl now capacity q st).0.next_seq ≡ st.0.next_seq
  unfolding promote
  promote-next_seq capacity [] st = refl
  promote-next_seq capacity (p ∷ q) st = elim (Bool-cases (ltb_ℤ st.0.active capacity)) [
    | inl b ↦ rw b (promote-next_seq capacity q (promote_one fl now p q st))
    | inr b ↦ rw b
  ]

  pub reconcile-next_seq :
      (s : Store F) (order : List String) (capacity : ℤ) (active_ttl queue_ttl : Duration)
      → (reconcile fl s order capacity active_ttl queue_ttl now).0.next_seq ≡ s.next_seq
  unfolding reconcile
  reconcile-next_seq s order capacity active_ttl queue_ttl =
      let st : Store F × ReconcileResult F = (s, empty_result) in
      let st1 = expire fl active_ttl now order st in
      let st2 = evict queue_ttl now st1.0.queue st1 in
      promote-next_seq capacity st2.0.queue st2
      ∙ evict-next_seq queue_ttl st1.0.queue st1
      ∙ expire-next_seq active_ttl order st
