-- ===== src/Queue/Answers.antt =====
-- `Check` and `StatusOf` as a whole, on a store that keeps its promises.
use gowait.Prelude.{
  ℕ, suc, ◌≡◌, refl, sym, subst, ◌∙◌, ◌⊎◌, inl, inr, String, Bool, true, false, ℤ, pos, ◌+ℤ◌, arith,
}
use gowait.Results.{ok, ◌>>=◌}
use gowait.Clock.{Time, Floats}
use gowait.Store.{Status, Snapshot}
use gowait.Store.Interface.{Ops}
use gowait.Store.Promises.{Shows, Answers, >>=-Answers, Promises, HasRoom}
use gowait.Queue.Controller.{Controller, on_store, maybe_reconcile}
use gowait.Queue.Check.{Decision, Outcome, result, join, act, foresee, check, answer, status_of}
use gowait.Queue.Serving.{IsServing, on_store-Answers, maybe_reconcile-IsServing}
use gowait.Queue.Decides.{
  IsServing-view, result-IsServing, IsDecided, IsForeseen, admitted-IsDecided, refused-IsDecided,
}

IsForeseen-at :
    (snap : Snapshot) (capacity : ℤ) (r : Outcome) (st : Status)
    → snap.status ≡ st
    → (r.decision ≡ (foresee st snap capacity).0)
    → (r.position ≡ (foresee st snap capacity).1.position)
    → IsForeseen snap capacity r
IsForeseen-at snap capacity r st u d at =
    subst
      (λ b.
        (r.decision ≡ (foresee b snap capacity).0)
        × (r.position ≡ (foresee b snap capacity).1.position))
      (sym u) (d, at)

module _ {S E F : Type 0} (fl : Floats F) (o : Ops S E F) (p : Promises o) where
  pub fewer : (n : ℕ) (c : Controller S F) → IsServing fl o p (suc n) c → IsServing fl o p n c
  fewer n c v = record {
    valid = p.weakens n c.store v.valid;
    capacity = v.capacity;
    configured = v.configured;
    balanced = v.balanced;
  }

  act-IsDecided :
      (n : ℕ) (id : String) (now later : Time) (snap : Snapshot) (c : Controller S F) (st : Status)
      → snap.status ≡ st
      → IsServing fl o p (suc n) c
      → Shows (p.view c.store) id snap
      → Answers (act fl o id now later snap st c) λ c' r.
        IsServing fl o p n c' × IsDecided (p.view c'.store) id r × IsForeseen snap c.capacity r
  unfolding act foresee
  act-IsDecided n id now later snap c Status.active u v shown =
      on_store-Answers (o.touch id now) (λ _. result fl o later Decision.proxy snap) c
        (λ s' seen. p.IsValid (suc n) s' × (p.view s' ≡ p.view c.store))
        (λ c' r.
          IsServing fl o p n c' × IsDecided (p.view c'.store) id r × IsForeseen snap c.capacity r)
        (p.touches (suc n) c.store id now v.valid)
        (λ seen (w, e).
          (let c1 = record c { store = (o.touch id now c.store).0 } in
            let (r, q, (v', same, d, at)) =
              result-IsServing fl o p (suc n) later Decision.proxy snap c1
                (IsServing-view fl o p (suc n) c c1 v w e refl refl refl) in
            (
              r,
              q,
              (
                fewer n _ v',
                inl (d, rw (same, e) (sym shown.status ∙ u)),
                IsForeseen-at snap c.capacity r _ u d at,
              ),
            )))
  act-IsDecided n id now later snap c Status.queued u v shown =
      let (r, q, (v', same, d, at)) =
        result-IsServing fl o p (suc n) later Decision.wait snap c v in
      (
        r,
        q,
        (
          fewer n _ v',
          inr (
            d,
            elim shown.place [
              | inl (off, z) ↦ absurd (off (sym shown.status ∙ u))
              | inr placed ↦ rw (same, at) placed
            ],
          ),
          IsForeseen-at snap c.capacity r _ u d at,
        ),
      )
  act-IsDecided n id now later snap c Status.unknown u v shown =
      let unknown : (p.view c.store).status id ≡ Status.unknown = sym shown.status ∙ u in
      on_store-Answers (o.try_admit id c.capacity now) (join fl o id now later snap) c
        (λ s' admitted.
          p.IsValid (suc n) s'
          × ((admitted ≡ true)
                × HasRoom (p.view c.store) c.capacity
                × ((p.view s').status id ≡ Status.active)
                × ((p.view s').active ≡ (p.view c.store).active +ℤ pos 1)
              ⊎ (admitted ≡ false)
                × (¬ HasRoom (p.view c.store) c.capacity)
                × (p.view s' ≡ p.view c.store)))
        (λ c' r.
          IsServing fl o p n c' × IsDecided (p.view c'.store) id r × IsForeseen snap c.capacity r)
        (p.admits (suc n) c.store id c.capacity now v.valid unknown)
        (λ admitted (w, way).
          (let c1 = record c { store = (o.try_admit id c.capacity now c.store).0 } in
            elim way [
              | inl (y, room, on, a) ↦ rw y (
                  admitted-IsDecided fl o p n id now later snap c1 (p.view c.store) c.capacity
                    (p.weakens n c1.store w) v.capacity v.configured
                    (p.nonneg (suc n) c.store v.valid) v.balanced a on u
                    (elim shown.place [
                      | inl (off, z) ↦ z
                      | inr (i, q, _, _) ↦ ground (arith, q, unknown)
                    ])
                    shown room)
              | inr (y, no_room, same) ↦ rw y (
                  refused-IsDecided fl o p n id now later snap c1 c.capacity
                    (IsServing-view fl o p (suc n) c c1 v w same refl refl refl) u (rw same shown)
                    (rw same no_room))
            ]))

  -- The controller after the reconcile of a request.
  abbrev pub refreshed : Time → Bool → Controller S F → Controller S F
  refreshed now won c = (maybe_reconcile fl o now won c).0

  -- The outcome is the one foreseen for what `Lookup` then answers.
  abbrev pub Tells : String → Time → Bool → Controller S F → Outcome → Type 0
  Tells id now won c r =
      (snap : Snapshot) × ((o.lookup id now (refreshed now won c).store).1 ≡ ok snap)
      × IsForeseen snap (refreshed now won c).capacity r

  check_lem :
      (n : ℕ) (id : String) (now later : Time) (won : Bool) (c : Controller S F)
      → IsServing fl o p (suc n) c
      → Answers
          (check fl o id now later won c)
          λ c' r. IsServing fl o p n c' × IsDecided (p.view c'.store) id r × Tells id now won c r
  unfolding check
  check_lem n id now later won c v =
      let c1 = refreshed now won c in
      let Q : Controller S F → Outcome → Type 0 =
        λ c' r. IsServing fl o p n c' × IsDecided (p.view c'.store) id r × Tells id now won c r in
      let (a, e, w) = maybe_reconcile-IsServing fl o p (suc n) now won c v in
      let (snap, q, (w2, same, shown)) = p.looks (suc n) c1.store id now w.valid in
      let c2 = record c1 { store = (o.lookup id now c1.store).0 } in
      >>=-Answers (λ c' _. c' ≡ c1) Q (maybe_reconcile fl o now won)
        (λ _. on_store (o.lookup id now) >>= λ found. act fl o id now later found found.status) c
        (a, e, refl)
        (λ _ _.
          on_store-Answers (o.lookup id now) (λ found. act fl o id now later found found.status) c1
            (λ _ found. found ≡ snap) Q (snap, q, refl)
            (λ found f.
              subst (λ x. Answers (act fl o id now later x x.status c2) Q) (sym f)
                (let (r, g, (v', decided, foreseen)) =
                    act-IsDecided n id now later snap c2 snap.status refl
                      (IsServing-view fl o p (suc n) c1 c2 w w2 same refl refl refl)
                      (rw same shown) in
                  (r, g, (v', decided, (snap, q, foreseen))))))

  status_of_lem :
      (n : ℕ) (id : String) (now later : Time) (won : Bool) (c : Controller S F)
      → IsServing fl o p n c
      → Answers (status_of fl o id now later won c) λ c' r.
        IsServing fl o p n c'
        × (p.view c'.store ≡ p.view (refreshed now won c).store)
        × Tells id now won c r
  unfolding status_of
  status_of_lem n id now later won c v =
      let c1 = refreshed now won c in
      let Q : Controller S F → Outcome → Type 0 = λ c' r.
        IsServing fl o p n c' × (p.view c'.store ≡ p.view c1.store) × Tells id now won c r in
      let (a, e, w) = maybe_reconcile-IsServing fl o p n now won c v in
      let (snap, q, (w2, same, shown)) = p.looks n c1.store id now w.valid in
      let c2 = record c1 { store = (o.lookup id now c1.store).0 } in
      >>=-Answers (λ c' _. c' ≡ c1) Q (maybe_reconcile fl o now won)
        (λ _. on_store (o.lookup id now) >>= λ found. answer fl o later found) c (a, e, refl)
        (λ _ _.
          on_store-Answers (o.lookup id now) (λ found. answer fl o later found) c1
            (λ _ found. found ≡ snap) Q (snap, q, refl)
            (λ found f.
              subst (λ x. Answers (answer fl o later x c2) Q) (sym f)
                (let (d, seen) = foresee snap.status snap c1.capacity in
                  let (r, g, (v', unmoved, decided, at)) =
                    result-IsServing fl o p n later d seen c2
                      (IsServing-view fl o p n c1 c2 w w2 same refl refl refl) in
                  (r, g, (v', unmoved ∙ same, (snap, q, (decided, at)))))))

  -- On a store that keeps its promises and has room for one more ticket in line, and with
  -- positive capacities and counters that agree with the room, `Check` ends without an error: the
  -- ticket is proxied and active, or waits and is told its place in line. Afterwards the
  -- capacities are still positive and the counters still agree with the room.
  pub check-IsDecided :
      (n : ℕ) (id : String) (now later : Time) (won : Bool) (c : Controller S F)
      → IsServing fl o p (suc n) c
      → Answers
          (check fl o id now later won c)
          λ c' r. IsServing fl o p n c' × IsDecided (p.view c'.store) id r
  check-IsDecided n id now later won c v =
      let (r, e, (w, d, t)) = check_lem n id now later won c v in (r, e, (w, d))

  -- On a store that keeps its promises and has room for one more ticket in line, and with
  -- positive capacities and counters that agree with the room, `StatusOf` and `Check` of the same
  -- ticket, at the same time and on the same state, end without an error and agree on the
  -- decision and on the position.
  pub status_of-check :
      (n : ℕ) (id : String) (now later : Time) (won : Bool) (c : Controller S F)
      → IsServing fl o p (suc n) c
      → (r r' : Outcome) × ((check fl o id now later won c).1 ≡ ok r)
        × ((status_of fl o id now later won c).1 ≡ ok r')
        × (r.decision ≡ r'.decision)
        × (r.position ≡ r'.position)
  status_of-check n id now later won c v =
      let (r, e, (w, d, (snap, q, (a, b)))) = check_lem n id now later won c v in
      let (r', e', (w', d', (snap', q', (a', b')))) = status_of_lem (suc n) id now later won c v in
      let same : snap ≡ snap' = cc in (r, r', e, e', rw (a, a', same) refl, rw (b, b', same) refl)

  -- On a store that keeps its promises, and with positive capacities and counters that agree with
  -- the room, `StatusOf` ends without an error, keeps all this, and but for its reconcile changes
  -- neither the line nor the status of a ticket nor the active count.
  pub status_of-view :
      (n : ℕ) (id : String) (now later : Time) (won : Bool) (c : Controller S F)
      → IsServing fl o p n c
      → Answers (status_of fl o id now later won c) λ c' _.
        IsServing fl o p n c' × (p.view c'.store ≡ p.view (maybe_reconcile fl o now won c).0.store)
  status_of-view n id now later won c v =
      let (r, e, (w, same, t)) = status_of_lem n id now later won c v in (r, e, (w, same))
