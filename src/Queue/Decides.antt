-- ===== src/Queue/Decides.antt =====
-- What `Check` decides, on a store that keeps its promises.
use gowait.Prelude.{
  ℕ, zero, suc, ◌+◌, ◌≤◌, ◌≡◌, refl, sym, subst, ◌∙◌, ◌⊎◌, inl, inr, String, true, false, ◌&&◌,
  List, [], ◌∷◌, ℤ, pos, negsuc, ◌+ℤ◌, ◌≤ℤ◌, ltb_ℤ, leb_ℤ, eqb_ℤ, pos_part, neg_part, length, arith,
  Bool-cases, Option-cases,
}
use gowait.Results.{ok, Result-cases}
use gowait.Clock.{Time, Duration, Floats}
use gowait.Store.{Status, Snapshot}
use gowait.Store.Interface.{Ops}
use gowait.Store.Promises.{View, Shows, Answers, >>=-Answers, Promises, IsPlaced, HasRoom}
use gowait.Metrics.{observe_admission}
use gowait.Queue.Controller.{Controller, on_store}
use gowait.Queue.Check.{
  Decision, Outcome, is_wait, fresh_stats, eta_stats, estimate, eta, outcome, result, join, foresee,
}
use gowait.Queue.Serving.{IsServing, IsBalanced, on_store-Answers, observe_admission-IsBalanced}

-- With a capacity there is no division by zero.
pub estimate_ok :
    {E : Type 0} (place : ℤ) (avg : Duration) (capacity : ℤ)
    → pos 1 ≤ℤ capacity
    → (d : Duration) × (estimate {E = E} place avg capacity ≡ ok d)
unfolding estimate
estimate_ok place avg (pos zero) h = absurd (omega arith)
estimate_ok place avg (pos (suc n)) h = (_, refl)
estimate_ok place avg (negsuc n) h = absurd (omega arith)

module _ {S E F : Type 0} (fl : Floats F) (o : Ops S E F) (p : Promises o) where
  -- A change of the store that the view does not show.
  pub IsServing-view :
      (n : ℕ) (c c' : Controller S F)
      → IsServing fl o p n c
      → p.IsValid n c'.store
      → p.view c'.store ≡ p.view c.store
      → c'.capacity ≡ c.capacity
      → c'.cfg ≡ c.cfg
      → c'.metrics ≡ c.metrics
      → IsServing fl o p n c'
  IsServing-view n c c' v w e a b m = record {
    valid = w;
    capacity = rw a v.capacity;
    configured = rw b v.configured;
    balanced = rw (m, e) v.balanced;
  }

  eta_stats-IsServing :
      (n : ℕ) (later : Time) (c : Controller S F)
      → IsServing fl o p n c
      → IsServing fl o p n (eta_stats o later c).0
        × (p.view (eta_stats o later c).0.store ≡ p.view c.store)
  unfolding eta_stats on_store
  eta_stats-IsServing n later c v =
      let (w, e) = p.counts n c.store v.valid in
      elim (Bool-cases (leb_ℤ c.cfg.stats_cache_ttl (pos 0))) [
        | inl off ↦ rw off (IsServing-view n c _ v w e refl refl refl, e)
        | inr on ↦ elim (Option-cases (fresh_stats later c)) [
          | inr (st, f) ↦ rw (on, f) (v, refl)
          | inl f ↦ elim (Result-cases (o.stats c.store).1) [
            | inl (st, g) ↦ rw (on, f, g) (IsServing-view n c _ v w e refl refl refl, e)
            | inr (x, g) ↦ rw (on, f, g) (IsServing-view n c _ v w e refl refl refl, e)
          ]
        ]
      ]

  pub eta-IsServing :
      (n : ℕ) (later : Time) (place : ℤ) (c : Controller S F)
      → IsServing fl o p n c
      → Answers
          (eta fl o later place c)
          λ c' _. IsServing fl o p n c' × (p.view c'.store ≡ p.view c.store)
  unfolding eta
  eta-IsServing n later place c v =
      let (w, e) = eta_stats-IsServing n later c v in
      let (d, q) = estimate_ok place _ (eta_stats o later c).0.capacity w.capacity in (d, q, (w, e))

  pub result-IsServing :
      (n : ℕ) (later : Time) (d : Decision) (snap : Snapshot) (c : Controller S F)
      → IsServing fl o p n c
      → Answers (result fl o later d snap c) λ c' r.
        IsServing fl o p n c'
        × (p.view c'.store ≡ p.view c.store)
        × (r.decision ≡ d)
        × (r.position ≡ snap.position)
  unfolding result
  result-IsServing n later d snap c v =
      elim (Bool-cases (is_wait d && ltb_ℤ (pos 0) snap.position)) [
        | inl yes_eta ↦ rw yes_eta (
            >>=-Answers (λ c' _. IsServing fl o p n c' × (p.view c'.store ≡ p.view c.store))
              (λ c' r.
                IsServing fl o p n c'
                × (p.view c'.store ≡ p.view c.store)
                × (r.decision ≡ d)
                × (r.position ≡ snap.position))
              (eta fl o later snap.position) (λ wait_for c'. (c', ok (outcome d snap wait_for))) c
              (eta-IsServing n later snap.position c v)
              (λ wait_for (w, e). (outcome d snap wait_for, refl, (w, e, refl, refl))))
        | inr no_eta ↦ rw no_eta (outcome d snap (pos 0), refl, (v, refl, refl, refl))
      ]

-- What an outcome says of a ticket: it is proxied and active, or waits and is told its place in line.
abbrev pub IsDecided : View → String → Outcome → Type 0
IsDecided v id r =
    (r.decision ≡ Decision.proxy) × (v.status id ≡ Status.active)
    ⊎ (r.decision ≡ Decision.wait) × IsPlaced v id r.position

-- The outcome has the decision and the position that `StatusOf` foresees for a snapshot.
abbrev pub IsForeseen : Snapshot → ℤ → Outcome → Type 0
IsForeseen snap capacity r =
    (r.decision ≡ (foresee snap.status snap capacity).0)
    × (r.position ≡ (foresee snap.status snap capacity).1.position)

test-HasRoom :
    (v : View) (id : String) (snap : Snapshot) (capacity : ℤ)
    → Shows v id snap
    → HasRoom v capacity
    → (ltb_ℤ snap.active_count capacity && eqb_ℤ snap.queue_length (pos 0)) ≡ true
test-HasRoom v id snap capacity shown (a, b) = rw (shown.active, shown.waiting, b) (ground arith)

test-full :
    (v : View) (id : String) (snap : Snapshot) (capacity : ℤ)
    → Shows v id snap
    → ¬ HasRoom v capacity
    → (ltb_ℤ snap.active_count capacity && eqb_ℤ snap.queue_length (pos 0)) ≡ false
test-full v id snap capacity shown no_room = rw (shown.active, shown.waiting) (go v.line no_room)
  where
    go :
        (l : List String)
        → ¬ (
            (suc (pos_part v.active + neg_part capacity) ≤ pos_part capacity + neg_part v.active)
            × (l ≡ []))
        → (ltb_ℤ v.active capacity && eqb_ℤ (pos (length l)) (pos 0)) ≡ false
    go [] h = elim (Bool-cases (ltb_ℤ v.active capacity)) [
      | inl b ↦ absurd (h (ground (arith, b), refl))
      | inr b ↦ rw b refl
    ]
    go (x ∷ l) h = ground arith

module _ {S E F : Type 0} (fl : Floats F) (o : Ops S E F) (p : Promises o) where
  pub admitted-IsDecided :
      (n : ℕ) (id : String) (now later : Time) (snap : Snapshot) (c : Controller S F) (v0 : View)
      (capacity : ℤ)
      → p.IsValid n c.store
      → pos 1 ≤ℤ c.capacity
      → pos 1 ≤ℤ c.cfg.capacity
      → pos 0 ≤ℤ v0.active
      → IsBalanced c.metrics (pos_part v0.active)
      → (p.view c.store).active ≡ v0.active +ℤ pos 1
      → (p.view c.store).status id ≡ Status.active
      → snap.status ≡ Status.unknown
      → snap.position ≡ pos 0
      → Shows v0 id snap
      → HasRoom v0 capacity
      → Answers (join fl o id now later snap true c) λ c' r.
        IsServing fl o p n c' × IsDecided (p.view c'.store) id r × IsForeseen snap capacity r
  unfolding join foresee
  admitted-IsDecided n id now later snap c v0 capacity w k1 k2 h b a on u z shown room =
      let c1 = record c { metrics = observe_admission fl fl.zero_value c.metrics } in
      let served : IsServing fl o p n c1 = record {
        valid = w;
        capacity = k1;
        configured = k2;
        balanced =
            subst (IsBalanced c1.metrics) (ground (arith, a, h))
              (observe_admission-IsBalanced fl c.metrics fl.zero_value (pos_part v0.active) b);
      } in
      let entered = record snap {
        status = Status.active;
        active_count = snap.active_count +ℤ pos 1;
      } in
      let (r, e, (v', same, d, at)) =
        result-IsServing fl o p n later Decision.proxy entered c1 served in
      (
        r,
        e,
        (
          v',
          inl (d, rw same on),
          rw (u, foresee, test-HasRoom v0 id snap capacity shown room) (d, at),
        ),
      )

  pub refused-IsDecided :
      (n : ℕ) (id : String) (now later : Time) (snap : Snapshot) (c : Controller S F) (capacity : ℤ)
      → IsServing fl o p (suc n) c
      → snap.status ≡ Status.unknown
      → Shows (p.view c.store) id snap
      → ¬ HasRoom (p.view c.store) capacity
      → Answers (join fl o id now later snap false c) λ c' r.
        IsServing fl o p n c' × IsDecided (p.view c'.store) id r × IsForeseen snap capacity r
  unfolding join foresee
  refused-IsDecided n id now later snap c capacity v u shown no_room =
      let s' = (o.enqueue id now c.store).0 in
      on_store-Answers (o.enqueue id now) (λ waiting. result fl o later Decision.wait waiting) c
        (λ t found.
          p.IsValid n t
          × Shows (p.view t) id found
          × IsPlaced (p.view t) id found.position
          × (found.position ≡ pos (suc (length (p.view c.store).line)))
          × ((p.view t).active ≡ (p.view c.store).active))
        (λ c' r.
          IsServing fl o p n c' × IsDecided (p.view c'.store) id r × IsForeseen snap capacity r)
        (p.enqueues n c.store id now v.valid (sym shown.status ∙ u))
        (λ found (w, shows, placed, last, a).
          (let served : IsServing fl o p n (record c { store = s' }) = record {
            valid = w;
            capacity = v.capacity;
            configured = v.configured;
            balanced = rw a v.balanced;
          } in
            let (r, e, (v', same, d, at)) =
              result-IsServing fl o p n later Decision.wait found (record c { store = s' })
                served in
            (
              r,
              e,
              (
                v',
                inr (d, rw (same, at) placed),
                rw (u, foresee, test-full (p.view c.store) id snap capacity shown no_room)
                    (d, at ∙ last ∙ ground (arith, shown.waiting)),
              ),
            )))
