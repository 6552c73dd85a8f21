-- ===== src/Memory/Rounds/Outcome.antt =====
-- One `Reconcile` as a whole.
use gowait.Prelude.{
  ℕ, zero, suc, ◌+◌, ◌-◌, ◌≤◌, ◌<◌, ◌≡◌, refl, sym, ap, fun_ext, subst, ◌∙◌, ◌⊎◌, inl, inr, String,
  Bool, List, [], ◌∷◌, ◌++◌, map, ℤ, pos, pos_part, min, ◌+ℤ◌, ◌≤ℤ◌, add_zero, pos_add, zero_pos,
  arith, length, length-map, take, drop,
}
use mathlib.Core.Path.{ap₂}
use gowait.Clock.{Time, Duration, Floats}
use gowait.Store.{ReconcileResult}
use gowait.Memory.State.{Store, is_active}
use gowait.Memory.Reconcile.{empty_result, expire, evict, promote, prune_holes, reconcile}
use gowait.Memory.Invariant.{IsWellFormed}
use gowait.Memory.Invariant.Loops.{alive, expire-IsWellFormed, evict-lem}
use gowait.Memory.View.{line}
use gowait.Memory.Rounds.Expiry.{Expires, expire-Expires}
use gowait.Memory.Rounds.Eviction.{Evicts, evict-Evicts}
use gowait.Memory.Rounds.Promotion.{Promotes, promote-Promotes, waits}
use gowait.GoMap.{count}

-- What a round does, in terms of the queue before it: `left` sessions outlive the expiry, `stay`
-- are the addresses in line that are not ghosts, and the first `k` of these enter.
pub record Round {F : Type 0} (fl : Floats F) (now : Time) (capacity : ℤ) (stay : List ℕ)
    (s s' : Store F) (res : ReconcileResult F) (left : ℕ) : Type 0 where
  pub expired : pos left +ℤ res.expired ≡ s.active
  pub reaped : pos 0 ≤ℤ res.expired
  pub evicted : res.evicted +ℤ pos (length stay) ≡ pos (length s.queue)
  pub promoted : res.promoted ≡ pos (min (length stay) (pos_part capacity - left))
  pub active : s'.active ≡ pos (left + min (length stay) (pos_part capacity - left))
  pub served :
      line s' ≡ drop (min (length stay) (pos_part capacity - left)) (map (λ p. (s.heap p).id) stay)
  pub waited :
      res.waited_secs
      ≡ waits fl now s.heap (take (min (length stay) (pos_part capacity - left)) stay)

map-drop {ℓ κ} :
    {A : Type ℓ} {B : Type κ} (f : A → B) (k : ℕ) (xs : List A)
    → map f (drop k xs) ≡ drop k (map f xs)
map-drop f zero xs = refl
map-drop f (suc k) [] = refl
map-drop f (suc k) (x ∷ xs) = map-drop f k xs

module _ {F : Type 0} (fl : Floats F) (active_ttl queue_ttl : Duration) (now : Time)
    (capacity : ℤ) where
  -- The three loops, one after the other.
  assemble :
      (s : Store F) (st1 st2 st3 : Store F × ReconcileResult F) (hit : String → Bool) (left : ℕ)
      → Expires fl active_ttl now (s, empty_result) st1 hit
      → st1.0.active ≡ pos left
      → Evicts queue_ttl now st1.0.queue st1 st2
      → st2.0.queue ≡ alive queue_ttl now st1.0.heap st1.0.queue
      → st2.0.active ≡ st1.0.active
      → Promotes fl now (min (length st2.0.queue) (pos_part capacity - left)) st2.0.queue st2 st3
      → Round fl now capacity st2.0.queue s (prune_holes st3.0) st3.1 left
  unfolding prune_holes
  assemble s st1 st2 st3 hit left e a v q2 a2 p = record {
    expired =
        ap (λ z. pos left +ℤ z) (p.expired ∙ v.expired)
        ∙ ap (λ z. z +ℤ st1.1.expired) (sym a)
        ∙ e.total
        ∙ add_zero s.active;
    reaped = subst (λ z. pos 0 ≤ℤ z) (sym (p.expired ∙ v.expired)) e.grows;
    evicted =
        ap (λ z. z +ℤ pos (length st2.0.queue)) p.evicted
        ∙ ap (λ q. st2.1.evicted +ℤ pos (length q)) q2
        ∙ v.evicted
        ∙ ap (λ z. z +ℤ pos (length st1.0.queue)) e.evicted
        ∙ zero_pos (length st1.0.queue)
        ∙ ap (λ q. pos (length q)) e.queue;
    promoted = p.promoted ∙ ap (λ z. z +ℤ pos k) (v.promoted ∙ e.promoted) ∙ zero_pos k;
    active = p.active ∙ ap (λ z. z +ℤ pos k) (a2 ∙ a) ∙ pos_add left k;
    served =
        ap (λ f. map f st3.0.queue) (fun_ext ids)
        ∙ ap (map (λ p. (s.heap p).id)) p.queue
        ∙ map-drop (λ p. (s.heap p).id) k st2.0.queue;
    waited =
        p.waited
        ∙ ap (λ ws. ws ++ waits fl now st2.0.heap (take k st2.0.queue)) (v.waited ∙ e.waited)
        ∙ ap (λ h. waits fl now h (take k st2.0.queue)) (v.heap ∙ e.heap);
  }
    where
      k : ℕ
      k = min (length st2.0.queue) (pos_part capacity - left)

      ids : (p : ℕ) → (st3.0.heap p).id ≡ (s.heap p).id
      ids q = p.ids q ∙ ap (λ h. (h q).id) (v.heap ∙ e.heap)

  -- One `Reconcile` of a well-formed store, whatever the order in which Go walks the map: for
  -- some number `left` of sessions that outlive the expiry, those in line that have polled in
  -- time stay, the first of them enter up to the capacity, the others keep their order, and the
  -- result has the counts of all this and the waits of those who entered.
  pub reconcile-Round :
      (s : Store F) (order : List String)
      → IsWellFormed s
      → (left : ℕ) × Round fl now capacity
          (alive queue_ttl now s.heap s.queue)
          s
          (reconcile fl s order capacity active_ttl queue_ttl now).0
          (reconcile fl s order capacity active_ttl queue_ttl now).1
          left
  unfolding reconcile
  reconcile-Round s order w =
      let st : Store F × ReconcileResult F = (s, empty_result) in
      let st1 = expire fl active_ttl now order st in
      let w1 = expire-IsWellFormed fl active_ttl now order st w in
      let (e, counted, left) = expire-Expires fl active_ttl now order st in
      let left = count (λ p. is_active (st1.0.heap p).status) st1.0.entries in
      let st2 = evict queue_ttl now st1.0.queue st1 in
      let (w2, q2, h2, a2) = evict-lem queue_ttl now st1.0.queue [] st1 w1 refl in
      let v = evict-Evicts queue_ttl now st1.0.queue st1 in
      let p = promote-Promotes fl now capacity st2.0.queue left st2 refl (a2 ∙ w1.counted) in
      let stay : st2.0.queue ≡ alive queue_ttl now s.heap s.queue =
        q2 ∙ ap₂ (alive queue_ttl now) e.heap e.queue in
      (
        left,
        subst
            (λ q.
              Round fl now capacity q s (reconcile fl s order capacity active_ttl queue_ttl now).0
                (reconcile fl s order capacity active_ttl queue_ttl now).1 left)
            stay
            (assemble s st1 st2 (promote fl now capacity st2.0.queue st2) _ left e w1.counted v q2
              a2 p),
      )

length-drop_zero {ℓ} : {A : Type ℓ} (k : ℕ) (xs : List A) → length xs ≤ k → drop k xs ≡ []
length-drop_zero zero [] h = refl
length-drop_zero zero (x ∷ xs) h = absurd (omega arith)
length-drop_zero (suc k) [] h = refl
length-drop_zero (suc k) (x ∷ xs) h = length-drop_zero k xs (omega arith)

Round-drains :
    {F : Type 0} (fl : Floats F) (now : Time) (capacity : ℤ) (stay : List ℕ) (s s' : Store F)
    (res : ReconcileResult F) (left : ℕ)
    → Round fl now capacity stay s s' res left
    → (line s' ≡ []) ⊎ (capacity ≤ℤ s'.active)
Round-drains fl now capacity stay s s' res left r = elim order [
  | inl few ↦
      let k : min (length stay) (pos_part capacity - left) ≡ length stay = omega arith in
      inl (
        r.served
        ∙ length-drop_zero _ (map (λ p. (s.heap p).id) stay)
            (omega (arith, length-map (λ p. (s.heap p).id) stay)))
  | inr many ↦ inr (rw r.active (omega arith))
]
  where
    order : (length stay ≤ pos_part capacity - left) ⊎ (pos_part capacity - left ≤ length stay)
    order = omega arith

Round_active_bound :
    {F : Type 0} (fl : Floats F) (now : Time) (capacity : ℤ) (stay : List ℕ) (s s' : Store F)
    (res : ReconcileResult F) (left : ℕ)
    → Round fl now capacity stay s s' res left
    → (s'.active ≤ℤ s.active) ⊎ (s'.active ≤ℤ capacity)
Round_active_bound fl now capacity stay s s' res left r = elim order [
  | inl over ↦ inl (rw (r.active, ← r.expired) (ground (arith, over, r.reaped)))
  | inr under ↦ inr (rw r.active (ground (arith, under)))
]
  where
    order : (pos_part capacity ≤ left) ⊎ (left < pos_part capacity)
    order = omega arith

module _ {F : Type 0} (fl : Floats F) (active_ttl queue_ttl : Duration) (now : Time) (capacity : ℤ)
    (s : Store F) (order : List String) where
  -- After a `Reconcile` of a well-formed store the line is empty or the active count is at least
  -- the capacity.
  pub reconcile-drains :
      IsWellFormed s
      → let s' = (reconcile fl s order capacity active_ttl queue_ttl now).0 in
        (line s' ≡ []) ⊎ (capacity ≤ℤ s'.active)
  reconcile-drains w =
      let (left, r) = reconcile-Round fl active_ttl queue_ttl now capacity s order w in
      Round-drains fl now capacity _ s _ _ left r

  -- After a `Reconcile` of a well-formed store the active count is at most what it was, or at
  -- most the capacity.
  pub reconcile_active_bound :
      IsWellFormed s
      → let s' = (reconcile fl s order capacity active_ttl queue_ttl now).0 in
        (s'.active ≤ℤ s.active) ⊎ (s'.active ≤ℤ capacity)
  reconcile_active_bound w =
      let (left, r) = reconcile-Round fl active_ttl queue_ttl now capacity s order w in
      Round_active_bound fl now capacity _ s _ _ left r
