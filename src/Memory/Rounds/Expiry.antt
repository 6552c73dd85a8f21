-- ===== src/Memory/Rounds/Expiry.antt =====
-- The first loop of `Reconcile`: idle sessions are reaped, whatever the order of the map.
use gowait.Prelude.{
  ℕ, ℤ, ◌≡◌, refl, ◌∙◌, String, Bool, false, ◌&&◌, ◌||◌, Option, some, none, List, [], ◌∷◌, ◌+ℤ◌,
  ◌-ℤ◌, ◌≤ℤ◌, inl, inr, arith, pos, not, ◌+◌, if◌then◌else◌, Option-cases, Bool-cases, str_eq,
  str_eq-cases,
}
use gowait.Clock.{Time, Duration, Floats}
use gowait.GoMap
use gowait.GoMap.{lookup-remove}
use gowait.Store.{ReconcileResult}
use gowait.Memory.State.{Entry, Store, is_active}
use gowait.Memory.Reconcile.{is_stale, expire_one, expire}

abbrev pub lists : String → List String → Bool
lists id [] = false
lists id (x ∷ xs) = str_eq x id || lists id xs

-- How many texts of a list there are with a property, each counted once.
abbrev pub distinct : (String → Bool) → List String → ℕ
distinct f [] = 0
distinct f (id ∷ order) = (if f id then 1 else 0) + distinct (λ k. not (str_eq id k) && f k) order

counts_add :
    (x y z : ℤ) (a b c : ℕ) → y ≡ x +ℤ pos a → z ≡ y +ℤ pos b → b ≡ c → z ≡ x +ℤ pos (a + c)
counts_add x y z a b c e f g = rw (f, e, g) (ground arith)

distinct_cong :
    (f g : String → Bool) (order : List String)
    → ((k : String) → f k ≡ g k)
    → distinct f order ≡ distinct g order
distinct_cong f g [] h = refl
distinct_cong f g (id ∷ order) h =
    rw
      (
        h id,
        distinct_cong (λ k. not (str_eq id k) && f k) (λ k. not (str_eq id k) && g k) order
            (λ k. rw (h k) refl),
      )
      refl

idle_at : Duration → Time → (ℕ → Entry) → Option ℕ → Bool
idle_at ttl now heap none = false
idle_at ttl now heap (some p) = is_active (heap p).status && is_stale ttl now (heap p).last_seen

module _ {F : Type 0} (ttl : Duration) (now : Time) where
  -- An active ticket that was last seen more than `ttl` ago.
  unfoldable pub idle_session : Store F → String → Bool
  unfolding idle_at
  idle_session s id = idle_at ttl now s.heap (GoMap.lookup id s.entries)

module _ {F : Type 0} (fl : Floats F) (ttl : Duration) (now : Time) where
  -- What the loop leaves alone, and what it does to the entry of an id.
  pub record Expires (st st' : Store F × ReconcileResult F) (hit : String → Bool) : Type 0 where
    pub heap : st'.0.heap ≡ st.0.heap
    pub queue : st'.0.queue ≡ st.0.queue
    pub holes : st'.0.holes ≡ st.0.holes
    pub promoted : st'.1.promoted ≡ st.1.promoted
    pub evicted : st'.1.evicted ≡ st.1.evicted
    pub waited : st'.1.waited_secs ≡ st.1.waited_secs
    pub total : st'.0.active +ℤ st'.1.expired ≡ st.0.active +ℤ st.1.expired
    pub grows : st.1.expired ≤ℤ st'.1.expired
    pub found :
        (k : String)
        → GoMap.lookup k st'.0.entries
          ≡ (if hit k && idle_session ttl now st.0 k then none else GoMap.lookup k st.0.entries)

  Expires-id : (st : Store F × ReconcileResult F) → Expires st st (λ _. false)
  Expires-id st = record {
    heap = refl;
    queue = refl;
    holes = refl;
    promoted = refl;
    evicted = refl;
    waited = refl;
    total = refl;
    grows = omega arith;
    found = λ k. refl;
  }

  expire_one-Expires :
      (id : String) (s : Store F) (res : ReconcileResult F)
      → Expires (s, res) (expire_one fl ttl now id (s, res)) (λ k. str_eq id k)
  unfolding expire_one idle_session
  expire_one-Expires id s res = elim (Option-cases (GoMap.lookup id s.entries)) [
    | inl e ↦
        rw (e, expire_one)
          (record {
            heap = refl;
            queue = refl;
            holes = refl;
            promoted = refl;
            evicted = refl;
            waited = refl;
            total = refl;
            grows = omega arith;
            found = λ k. ground (arith, str_eq-cases id k, e);
          })
    | inr (p, e) ↦
        elim (Bool-cases (is_active (s.heap p).status && is_stale ttl now (s.heap p).last_seen)) [
          | inl b ↦
              rw (e, b, expire_one)
                (record {
                  heap = refl;
                  queue = refl;
                  holes = refl;
                  promoted = refl;
                  evicted = refl;
                  waited = refl;
                  total = ground arith;
                  grows = ground arith;
                  found =
                      λ k. ground (arith, str_eq-cases id k, e, b, lookup-remove id k s.entries);
                })
          | inr b ↦
              rw (e, b, expire_one)
                (record {
                  heap = refl;
                  queue = refl;
                  holes = refl;
                  promoted = refl;
                  evicted = refl;
                  waited = refl;
                  total = refl;
                  grows = omega arith;
                  found = λ k. ground (arith, str_eq-cases id k, e, b);
                })
        ]
  ]

  idle_session_after :
      (st st' : Store F × ReconcileResult F) (hit : String → Bool) (k : String)
      → Expires st st' hit
      → idle_session ttl now st'.0 k
        ≡ (if hit k && idle_session ttl now st.0 k then false else idle_session ttl now st.0 k)
  unfolding idle_session
  idle_session_after st st' hit k e =
      rw (e.heap, e.found k)
        (elim (Bool-cases (hit k && idle_at ttl now st.0.heap (GoMap.lookup k st.0.entries))) [
          | inl b ↦ rw b
          | inr b ↦ rw b
        ])

  Expires-trans :
      (st st' st'' : Store F × ReconcileResult F) (f g : String → Bool)
      → Expires st st' f
      → Expires st' st'' g
      → Expires st st'' (λ k. f k || g k)
  Expires-trans st st' st'' f g a b = record {
    heap = b.heap ∙ a.heap;
    queue = b.queue ∙ a.queue;
    holes = b.holes ∙ a.holes;
    promoted = b.promoted ∙ a.promoted;
    evicted = b.evicted ∙ a.evicted;
    waited = b.waited ∙ a.waited;
    total = b.total ∙ a.total;
    grows = omega (arith, a.grows, b.grows);
    found = λ k. ground (arith, a.found k, b.found k, idle_session_after st st' f k a);
  }

  expire_parts :
      (order : List String) (st : Store F × ReconcileResult F)
      → Expires st (expire fl ttl now order st) (λ k. lists k order)
  unfolding expire
  expire_parts [] st = Expires-id st
  expire_parts (id ∷ order) st =
      Expires-trans st (expire_one fl ttl now id st) _ (λ k. str_eq id k) (λ k. lists k order)
        (expire_one-Expires id st.0 st.1) (expire_parts order (expire_one fl ttl now id st))

  -- The sessions of an order that are idle.
  abbrev pub idle_count : Store F → List String → ℕ
  idle_count s order = distinct (λ k. idle_session ttl now s k) order

  expire_one-counts :
      (id : String) (s : Store F) (res : ReconcileResult F)
      → (expire_one fl ttl now id (s, res)).1.expired
        ≡ res.expired +ℤ pos (if idle_session ttl now s id then 1 else 0)
  unfolding expire_one idle_session
  expire_one-counts id s res = elim (Option-cases (GoMap.lookup id s.entries)) [
    | inl e ↦ rw (e, expire_one) (ground arith)
    | inr (p, e) ↦
        elim (Bool-cases (is_active (s.heap p).status && is_stale ttl now (s.heap p).last_seen)) [
          | inl b ↦ rw (e, b, expire_one) refl
          | inr b ↦ rw (e, b, expire_one) (ground arith)
        ]
  ]

  expire-counts :
      (order : List String) (st : Store F × ReconcileResult F)
      → (expire fl ttl now order st).1.expired ≡ st.1.expired +ℤ pos (idle_count st.0 order)
  unfolding expire
  expire-counts [] st = ground arith
  expire-counts (id ∷ order) st =
      let st' = expire_one fl ttl now id st in
      let one = expire_one-counts id st.0 st.1 in
      let x = expire_one-Expires id st.0 st.1 in
      let rest = expire-counts order st' in
      let same =
        distinct_cong (λ k. idle_session ttl now st'.0 k)
          (λ k. not (str_eq id k) && idle_session ttl now st.0 k) order
          (λ k. ground (arith, idle_session_after st st' (λ j. str_eq id j) k x)) in
      counts_add st.1.expired st'.1.expired _ _ _ _ one rest same

  -- The expiry loop over any order takes from the map the idle sessions that the order lists and
  -- no other ticket, and leaves entries, queue, holes and the other counts as they are. The count
  -- of the expired grows by the number of these sessions, and the active count falls by it.
  pub expire-Expires :
      (order : List String) (st : Store F × ReconcileResult F)
      → let st' = expire fl ttl now order st in
        let reaped = pos (idle_count st.0 order) in
        Expires st st' (λ k. lists k order)
        × (st'.1.expired ≡ st.1.expired +ℤ reaped)
        × (st'.0.active ≡ st.0.active -ℤ reaped)
  expire-Expires order st =
      let e = expire_parts order st in
      let counted = expire-counts order st in
      let kept = e.total in (e, counted, ground (arith, counted, kept))
