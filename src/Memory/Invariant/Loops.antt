-- ===== src/Memory/Invariant/Loops.antt =====
-- The three loops of `Reconcile` keep the store well-formed.
use gowait.Prelude.{
  ℕ, suc, ◌≡◌, refl, sym, ap, subst, ◌∙◌, String, false, not, ◌&&◌, List, [], ◌∷◌, ◌++◌, ℤ, pos,
  ◌+ℤ◌, ltb_ℤ, ==_iff, inl, inr, arith, map, Option-cases, Bool-cases, keep,
}
use mathlib.Core.List.{append_assoc, append-nil}
use gowait.Clock.{Time, Duration, Floats}
use gowait.GoMap
use gowait.Store.{Status, ReconcileResult}
use gowait.Memory.Holes.Tiled.{Tiled}
use gowait.Memory.State.{Entry, Store, update, is_active, admit_locked}
use gowait.Memory.Reconcile.{
  unlink, is_stale, empty_result, expire_one, expire, evict_at, evict_one, evict, promote_one,
  promote, prune_holes, reconcile,
}
use gowait.Memory.Invariant.{shape, put, has, IsWell, IsWellFormed, shape_path}
use gowait.Memory.Invariant.Queue.{Tiled-once}
use gowait.Memory.Invariant.Steps.{IsWell-expire, IsWell-evict, IsWell-promote, IsWell-prune}

module _ {F : Type 0} (fl : Floats F) (ttl : Duration) (now : Time) where
  pub expire_one-IsWellFormed :
      (id : String) (s : Store F) (res : ReconcileResult F)
      → IsWellFormed s
      → IsWellFormed (expire_one fl ttl now id (s, res)).0
  unfolding expire_one
  expire_one-IsWellFormed id s res w = elim (Option-cases (GoMap.lookup id s.entries)) [
    | inl e ↦ rw (e, expire_one) w
    | inr (p, e) ↦
        elim (Bool-cases (is_active (s.heap p).status && is_stale ttl now (s.heap p).last_seen)) [
          | inl b ↦ rw (e, b, expire_one) (IsWell-expire (shape s) id p w e (ground (arith, b)))
          | inr b ↦ rw (e, b, expire_one) w
        ]
  ]

  pub expire-IsWellFormed :
      (order : List String) (st : Store F × ReconcileResult F)
      → IsWellFormed st.0
      → IsWellFormed (expire fl ttl now order st).0
  unfolding expire
  expire-IsWellFormed [] st w = w
  expire-IsWellFormed (id ∷ order) st w =
      expire-IsWellFormed order (expire_one fl ttl now id st)
        (expire_one-IsWellFormed id st.0 st.1 w)

unlink-middle : (p : ℕ) (l r : List ℕ) → has p (l ++ r) ≡ false → unlink p (l ++ p ∷ r) ≡ l ++ r
unfolding unlink
unlink-middle p [] r h = ground arith
unlink-middle p (x ∷ l) r h = ground (arith, unlink-middle p l r)

-- The addresses whose entries are not ghosts.
abbrev pub alive : Duration → Time → (ℕ → Entry) → List ℕ → List ℕ
alive ttl now heap = keep (λ p. not (is_stale ttl now (heap p).last_seen))

alive-cons :
    (ttl : Duration) (now : Time) (heap : ℕ → Entry) (p : ℕ) (rest : List ℕ)
    → alive ttl now heap (p ∷ []) ++ alive ttl now heap rest ≡ alive ttl now heap (p ∷ rest)
alive-cons ttl now heap p rest = ground arith

evict_at-IsWellFormed :
    {F : Type 0} (s : Store F) (l r : List ℕ) (p : ℕ)
    → IsWellFormed s
    → s.queue ≡ l ++ p ∷ r
    → IsWellFormed (evict_at s p) × ((evict_at s p).queue ≡ l ++ r)
unfolding evict_at
evict_at-IsWellFormed s l r p w e = (rw gone (IsWell-evict (shape s) l r p w e), gone)
  where
    gone : unlink p s.queue ≡ l ++ r
    gone = rw e (
        unlink-middle p l r (
          Tiled-once (shape s).seqs s.holes (suc s.next_seq) p l r
            (subst (λ q. Tiled s.holes (suc s.next_seq) (map (shape s).seqs q)) e w.tiled)))

module _ {F : Type 0} (ttl : Duration) (now : Time) where
  evict_one-lem :
      (p : ℕ) (rest l : List ℕ) (s : Store F) (res : ReconcileResult F)
      → IsWellFormed s
      → s.queue ≡ l ++ p ∷ rest
      → let r = (evict_one ttl now p (s, res)).0 in
        IsWellFormed r
        × (r.queue ≡ (l ++ alive ttl now s.heap (p ∷ [])) ++ rest)
        × (r.heap ≡ s.heap)
        × (r.active ≡ s.active)
  unfolding evict_one
  evict_one-lem p rest l s res w e = elim (Bool-cases (is_stale ttl now (s.heap p).last_seen)) [
    | inl b ↦
        let (w', e') = evict_at-IsWellFormed s l rest p w e in
        rw (b, append-nil l) (w', e', refl, refl)
    | inr b ↦ rw b (w, e ∙ sym (append_assoc l (p ∷ []) rest), refl, refl)
  ]

  -- The eviction loop keeps just the entries that are not ghosts, in their order.
  pub evict-lem :
      (rest l : List ℕ) (st : Store F × ReconcileResult F)
      → IsWellFormed st.0
      → st.0.queue ≡ l ++ rest
      → IsWellFormed (evict ttl now rest st).0
        × ((evict ttl now rest st).0.queue ≡ l ++ alive ttl now st.0.heap rest)
        × ((evict ttl now rest st).0.heap ≡ st.0.heap)
        × ((evict ttl now rest st).0.active ≡ st.0.active)
  unfolding evict
  evict-lem [] l st w e = (w, e, refl, refl)
  evict-lem (p ∷ rest) l st w e =
      let first = alive ttl now st.0.heap (p ∷ []) in
      let (w1, q1, h1, a1) = evict_one-lem p rest l st.0 st.1 w e in
      let (w2, q2, h2, a2) = evict-lem rest (l ++ first) (evict_one ttl now p st) w1 q1 in
      (
        w2,
        q2
            ∙ ap (λ h. (l ++ first) ++ alive ttl now h rest) h1
            ∙ append_assoc l first (alive ttl now st.0.heap rest)
            ∙ ap (◌++◌ l) (alive-cons ttl now st.0.heap p rest),
        h2 ∙ h1,
        a2 ∙ a1,
      )

module _ {F : Type 0} (fl : Floats F) (now : Time) where
  shape-promote_one :
      (p : ℕ) (rest : List ℕ) (s : Store F) (res : ReconcileResult F)
      → shape (promote_one fl now p rest (s, res)).0 ≡ record (shape s) {
        queue = rest;
        statuses = put (shape s).statuses p Status.active;
        active = s.active +ℤ pos 1;
      }
  unfolding promote_one admit_locked update
  shape-promote_one p rest s res =
      shape_path
        (record (shape s) {
          queue = rest;
          statuses = put (shape s).statuses p Status.active;
          active = s.active +ℤ pos 1;
        })
        _ _ _ (λ q. ground (arith, ==_iff q p)) (λ q. ground (arith, ==_iff q p))
        (λ q. ground (arith, ==_iff q p))

  pub promote_one-IsWellFormed :
      (p : ℕ) (rest : List ℕ) (s : Store F) (res : ReconcileResult F)
      → IsWellFormed s
      → s.queue ≡ p ∷ rest
      → IsWellFormed (promote_one fl now p rest (s, res)).0
  promote_one-IsWellFormed p rest s res w e =
      subst IsWell (sym (shape-promote_one p rest s res)) (IsWell-promote (shape s) p rest w e)

  pub promote-IsWellFormed :
      (capacity : ℤ) (q : List ℕ) (st : Store F × ReconcileResult F)
      → IsWellFormed st.0
      → st.0.queue ≡ q
      → IsWellFormed (promote fl now capacity q st).0
  unfolding promote
  promote-IsWellFormed capacity [] st w e = w
  promote-IsWellFormed capacity (p ∷ rest) st w e = elim (Bool-cases (ltb_ℤ st.0.active capacity)) [
    | inl b ↦ rw b (
        promote-IsWellFormed capacity rest (promote_one fl now p rest st)
          (promote_one-IsWellFormed p rest st.0 st.1 w e) (unfold promote_one in refl))
    | inr b ↦ rw b w
  ]

module _ {F : Type 0} (fl : Floats F) where
  prune_holes-IsWellFormed : (s : Store F) → IsWellFormed s → IsWellFormed (prune_holes s)
  unfolding prune_holes
  prune_holes-IsWellFormed s w = IsWell-prune (shape s) w

  -- For any order in which Go walks the map.
  pub reconcile-IsWellFormed :
      (s : Store F) (order : List String) (capacity : ℤ) (active_ttl queue_ttl : Duration)
      (now : Time)
      → IsWellFormed s
      → IsWellFormed (reconcile fl s order capacity active_ttl queue_ttl now).0
  unfolding reconcile
  reconcile-IsWellFormed s order capacity active_ttl queue_ttl now w =
      let st1 = expire fl active_ttl now order (s, empty_result) in
      let w1 = expire-IsWellFormed fl active_ttl now order (s, empty_result) w in
      let st2 = evict queue_ttl now st1.0.queue st1 in
      let w2 = (evict-lem queue_ttl now st1.0.queue [] st1 w1 refl).0 in
      prune_holes-IsWellFormed (promote fl now capacity st2.0.queue st2).0
        (promote-IsWellFormed fl now capacity st2.0.queue st2 w2 refl)
