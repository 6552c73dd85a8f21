-- ===== src/Memory/Rounds/Eviction.antt =====
-- The second loop of `Reconcile`: what its count says. (Invariant/Loops has what it does to the queue.)
use gowait.Prelude.{
  ℕ, suc, ◌+◌, ◌≡◌, refl, sym, ap, add_pos, subst, ◌∙◌, List, [], ◌∷◌, ℤ, pos, ◌+ℤ◌, inl, inr,
  arith, Bool-cases, length,
}
use gowait.Clock.{Time, Duration}
use gowait.Store.{ReconcileResult}
use gowait.Memory.State.{Entry, Store}
use gowait.Memory.Reconcile.{is_stale, evict_one, evict}
use gowait.Memory.Invariant.Loops.{alive}

add_chain :
    (x y z : ℤ) (a b c : ℕ)
    → x +ℤ pos a ≡ y +ℤ pos b
    → y +ℤ pos c ≡ z +ℤ pos 1
    → x +ℤ pos (c + a) ≡ z +ℤ pos (suc b)
add_chain x y z a b c h k =
    sym (add_pos x a c (c + a) (omega arith))
    ∙ ap (λ t. t +ℤ pos c) h
    ∙ add_pos y b c (c + b) (omega arith)
    ∙ sym (add_pos y c b (c + b) refl)
    ∙ ap (λ t. t +ℤ pos b) k
    ∙ add_pos z 1 b (suc b) (omega arith)

length-alive :
    (ttl : Duration) (now : Time) (heap : ℕ → Entry) (p : ℕ) (q : List ℕ)
    → length (alive ttl now heap (p ∷ q))
      ≡ length (alive ttl now heap (p ∷ [])) + length (alive ttl now heap q)
length-alive ttl now heap p q = ground arith

module _ {F : Type 0} (ttl : Duration) (now : Time) where
  pub record Evicts (q : List ℕ) (st st' : Store F × ReconcileResult F) : Type 0 where
    pub heap : st'.0.heap ≡ st.0.heap
    pub expired : st'.1.expired ≡ st.1.expired
    pub promoted : st'.1.promoted ≡ st.1.promoted
    pub waited : st'.1.waited_secs ≡ st.1.waited_secs
    pub evicted :
        st'.1.evicted +ℤ pos (length (alive ttl now st.0.heap q)) ≡ st.1.evicted +ℤ pos (length q)

  evict_one-Evicts :
      (p : ℕ) (s : Store F) (res : ReconcileResult F)
      → Evicts (p ∷ []) (s, res) (evict_one ttl now p (s, res))
  unfolding evict_one
  evict_one-Evicts p s res = elim (Bool-cases (is_stale ttl now (s.heap p).last_seen)) [
    | inl b ↦ rw b (record {
      heap = refl;
      expired = refl;
      promoted = refl;
      waited = refl;
      evicted = ground arith;
    })
    | inr b ↦ rw b (record {
      heap = refl;
      expired = refl;
      promoted = refl;
      waited = refl;
      evicted = ground (arith, b);
    })
  ]

  pub evict-Evicts :
      (q : List ℕ) (st : Store F × ReconcileResult F) → Evicts q st (evict ttl now q st)
  unfolding evict
  evict-Evicts [] st = record {
    heap = refl;
    expired = refl;
    promoted = refl;
    waited = refl;
    evicted = refl;
  }
  evict-Evicts (p ∷ q) st =
      let a = evict_one-Evicts p st.0 st.1 in
      let b = evict-Evicts q (evict_one ttl now p st) in
      let b' = λ (h : ℕ → Entry).
        (evict ttl now q (evict_one ttl now p st)).1.evicted +ℤ pos (length (alive ttl now h q))
        ≡ (evict_one ttl now p st).1.evicted +ℤ pos (length q) in
      record {
        heap = b.heap ∙ a.heap;
        expired = b.expired ∙ a.expired;
        promoted = b.promoted ∙ a.promoted;
        waited = b.waited ∙ a.waited;
        evicted = rw (length-alive ttl now st.0.heap p q) (
            add_chain _ _ st.1.evicted _ (length q) _ (subst (λ h. b' h) a.heap b.evicted)
              a.evicted);
      }
