-- ===== src/Memory/Rounds/Promotion.antt =====
-- The third loop of `Reconcile`: the head of the line enters while there is room.
use gowait.Prelude.{
  ℕ, suc, ◌-◌, ◌≡◌, refl, sym, ap, fun_ext, ◌∙◌, List, [], ◌∷◌, ◌++◌, map, ℤ, pos, pos_part, min,
  ◌+ℤ◌, ltb_ℤ, ==_iff, inl, inr, arith, Bool-cases, length, take, drop,
}
use mathlib.Core.List.{append_assoc, append-nil}
use gowait.Clock.{Time, Floats, sub}
use gowait.Store.{ReconcileResult}
use gowait.Memory.State.{Entry, Store, update, admit_locked}
use gowait.Memory.Reconcile.{promote_one, promote}

module _ {F : Type 0} (fl : Floats F) (now : Time) where
  -- How long each of the entries has waited.
  abbrev pub waits : (ℕ → Entry) → List ℕ → List F
  waits heap = map (λ p. fl.seconds (sub now (heap p).enqueued_at))

  -- `k` entries are promoted off the front of `q`.
  pub record Promotes (k : ℕ) (q : List ℕ) (st st' : Store F × ReconcileResult F) : Type 0 where
    pub queue : st'.0.queue ≡ drop k q
    pub active : st'.0.active ≡ st.0.active +ℤ pos k
    pub promoted : st'.1.promoted ≡ st.1.promoted +ℤ pos k
    pub waited : st'.1.waited_secs ≡ st.1.waited_secs ++ waits st.0.heap (take k q)
    pub ids : (p : ℕ) → (st'.0.heap p).id ≡ (st.0.heap p).id
    pub expired : st'.1.expired ≡ st.1.expired
    pub evicted : st'.1.evicted ≡ st.1.evicted

  waits_same :
      (h h' : ℕ → Entry) (q : List ℕ)
      → ((p : ℕ) → (h' p).enqueued_at ≡ (h p).enqueued_at)
      → waits h' q ≡ waits h q
  waits_same h h' q e = ap (λ (f : ℕ → Time). map (λ p. fl.seconds (sub now (f p))) q) (fun_ext e)

  Promotes-zero :
      (q : List ℕ) (st : Store F × ReconcileResult F) → st.0.queue ≡ q → Promotes 0 q st st
  Promotes-zero q st e = record {
    queue = e;
    active = ground arith;
    promoted = ground arith;
    waited = sym (append-nil st.1.waited_secs);
    ids = λ p. refl;
    expired = refl;
    evicted = refl;
  }

  Promotes-suc :
      (k p : ℕ) (rest : List ℕ) (st st' : Store F × ReconcileResult F)
      → Promotes k rest (promote_one fl now p rest st) st'
      → Promotes (suc k) (p ∷ rest) st st'
  unfolding promote_one admit_locked update
  Promotes-suc k p rest st st' r = record {
    queue = r.queue;
    active = r.active ∙ ground arith;
    promoted = r.promoted ∙ ground arith;
    waited =
        r.waited
        ∙ ap
            (λ (ws : List F).
              (st.1.waited_secs ++ fl.seconds (sub now (st.0.heap p).enqueued_at) ∷ []) ++ ws)
            (waits_same st.0.heap (promote_one fl now p rest st).0.heap (take k rest)
              (λ q. ground (arith, ==_iff q p)))
        ∙ append_assoc st.1.waited_secs (fl.seconds (sub now (st.0.heap p).enqueued_at) ∷ [])
            (waits st.0.heap (take k rest));
    ids = λ q. r.ids q ∙ ground (arith, ==_iff q p);
    expired = r.expired;
    evicted = r.evicted;
  }

  -- As many enter as there are slots left, or all.
  pub promote-Promotes :
      (capacity : ℤ) (q : List ℕ) (n : ℕ) (st : Store F × ReconcileResult F)
      → st.0.queue ≡ q
      → st.0.active ≡ pos n
      → Promotes (min (length q) (pos_part capacity - n)) q st (promote fl now capacity q st)
  unfolding promote
  promote-Promotes capacity [] n st e a =
      let none_left : min 0 (pos_part capacity - n) ≡ 0 = omega arith in
      rw none_left (Promotes-zero [] st e)
  promote-Promotes capacity (p ∷ rest) n st e a = elim (Bool-cases (ltb_ℤ st.0.active capacity)) [
    | inl b ↦
        let more : min (suc (length rest)) (pos_part capacity - n)
            ≡ suc (min (length rest) (pos_part capacity - suc n)) =
          ground (arith, b, a) in
        rw (b, more)
          (Promotes-suc _ p rest st _ (
            promote-Promotes capacity rest (suc n) (promote_one fl now p rest st)
              (unfold promote_one in refl) (unfold promote_one admit_locked in ground (arith, a))))
    | inr b ↦
        let full : min (suc (length rest)) (pos_part capacity - n) ≡ 0 = ground (arith, b, a) in
        rw (b, full) (Promotes-zero (p ∷ rest) st e)
  ]
