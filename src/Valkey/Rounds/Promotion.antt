-- ===== src/Valkey/Rounds/Promotion.antt =====
-- The third loop of reconcileScript in internal/store/valkeystore/valkeystore.go.
use gowait.Prelude.{
  ℕ, zero, suc, ◌+◌, ◌<◌, ◌≡◌, refl, ap, sym, ◌∙◌, ◌⊎◌, inl, inr, String, true, false, Option, none,
  some, List, [], ◌∷◌, ◌++◌, ℤ, pos, ◌≤ℤ◌, ◌<ℤ◌, ◌-ℤ◌, ltb_ℤ, length, str_eq, arith, Bool-cases,
}
use gowait.GoMap
use gowait.Valkey.SortedSets.{SortedSet, place, first, behind, members}
use gowait.Valkey.SortedSets.Placing.{length-place_new}
use gowait.Valkey.Server.{Contents, Commands, Laws, order, seen, active, admitted, enqueued}
use gowait.Valkey.Scripts.{or_else, enter, wait_of, promote}
use gowait.Valkey.Sound.{promote-IsSound}
use gowait.Valkey.Effects.{IsSoundAt}
use gowait.Valkey.Rounds.{Holds, sound_of}
use gowait.Valkey.Rounds.Waits.{waits_since, enters, waits_agree, other_member}

heads : (l : SortedSet) → (l ≡ []) ⊎ ((id : String) × (y : ℤ) × (m : SortedSet) × (l ≡ (id, y) ∷ m))
heads [] = inl refl
heads ((id, y) ∷ m) = inr (id, y, m, refl)

-- What the third loop does: `gone` are the ids that it takes from the head of the line.
pub record Promoted (n : ℕ) (limit now : ℤ) (since : String → Option ℤ) (c c' : Contents)
    (waited : List ℤ) : Type 0 where
  pub sound : IsSoundAt n c'
  pub gone : List String
  pub served : members (c.sorted order) ≡ gone ++ members (c'.sorted order)
  pub many : length gone ≡ length waited
  pub waits : waited ≡ waits_since now since gone
  pub began : c'.sorted active ≡ enters now gone (c.sorted active)
  pub grown : length (c'.sorted active) ≡ length (c.sorted active) + length waited
  pub within : (waited ≡ []) ⊎ (pos (length (c'.sorted active)) ≤ℤ limit)
  pub full : (limit ≤ℤ pos (length (c'.sorted active))) ⊎ (c'.sorted order ≡ [])

module _ {DB F : Type 0} (v : Commands DB F) (laws : Laws v) where
  -- The writes of the third loop, after the pop.
  enter_lem :
      (now : ℤ) (id : String) (d : DB)
      → let c = v.contents d in
        let d' = (v.zpopmin order d).0 in
        Holds
          (v.contents (enter v now id d'))
          (place now id (c.sorted active))
          (behind (c.sorted order))
          c.counter
  unfolding enter
  enter_lem now id d =
      let d' = (v.zpopmin order d).0 in
      let d1 = v.hdel enqueued id (v.zrem seen id d') in
      rw
        (
          enter,
          laws.hset_lem admitted id now (v.zadd active now id d1),
          laws.zadd_lem active now id d1,
          laws.hdel_lem enqueued id (v.zrem seen id d'),
          laws.zrem_lem seen id d',
          (laws.zpopmin_lem order d).1,
        )
        (refl, refl, refl)

  wait_of_lem :
      (now : ℤ) (id : String) (d : DB)
      → wait_of v now id (v.zpopmin order d).0 ≡ now -ℤ or_else now (v.hget enqueued id d)
  unfolding wait_of
  wait_of_lem now id d =
      ap (λ x. now -ℤ or_else now x)
        (laws.hget-zrem enqueued id seen id (v.zpopmin order d).0
          ∙ laws.hget-zpopmin enqueued id order d)

  enter_since :
      (now : ℤ) (id j : String) (d : DB)
      → str_eq id j ≡ false
      → v.hget enqueued j (enter v now id (v.zpopmin order d).0) ≡ v.hget enqueued j d
  unfolding enter
  enter_since now id j d other =
      let d' = (v.zpopmin order d).0 in
      let d1 = v.zrem seen id d' in
      let d2 = v.hdel enqueued id d1 in
      laws.hget-hset j id now (v.zadd active now id d2)
      ∙ laws.hget-zadd enqueued j active now id d2
      ∙ laws.hget-hdel_other j id d1 other
      ∙ laws.hget-zrem enqueued j seen id d'
      ∙ laws.hget-zpopmin enqueued j order d

  next-Promoted :
      (n : ℕ) (limit now w : ℤ) (since since1 : String → Option ℤ) (id : String)
      (c c1 c2 : Contents) (l : SortedSet) (waited : List ℤ)
      → members (c.sorted order) ≡ id ∷ members l
      → GoMap.lookup id (c.sorted active) ≡ none
      → pos (length (c.sorted active)) <ℤ limit
      → Holds c1 (place now id (c.sorted active)) l c.counter
      → w ≡ now -ℤ or_else now (since id)
      → ((j : String) (y : ℤ) → GoMap.lookup j l ≡ some y → since1 j ≡ since j)
      → Promoted n limit now since1 c1 c2 waited
      → Promoted n limit now since c c2 (w ∷ waited)
  next-Promoted n limit now w since since1 id c c1 c2 l waited e out free (a, o, k) first_wait same
        p =
      let one : length (c1.sorted active) ≡ suc (length (c.sorted active)) =
        ap length a ∙ length-place_new now id (c.sorted active) out in
      let q = p.grown in
      record {
        sound = p.sound;
        gone = id ∷ p.gone;
        served = e ∙ ap (λ x. id ∷ members x) (sym o) ∙ ap (λ x. id ∷ x) p.served;
        many = ap suc p.many;
        waits =
            rw
              (
                first_wait,
                ← waits_agree now since1 since l p.gone (members (c2.sorted order))
                    (ap members (sym o) ∙ p.served) same,
              )
              (ap (λ x. (now -ℤ or_else now (since id)) ∷ x) p.waits);
        began = p.began ∙ ap (enters now p.gone) a;
        grown = omega (arith, one, q);
        within = elim p.within [
          | inl stop ↦ inr (ground (arith, one, rw stop at q, free))
          | inr most ↦ inr most
        ];
        full = p.full;
      }

  -- A round of the third loop that pops nobody.
  promote_empty :
      (fuel n : ℕ) (limit now : ℤ) (d : DB)
      → ltb_ℤ (pos (v.zcard active d)) limit ≡ true
      → (v.contents d).sorted order ≡ []
      → IsSoundAt n (v.contents d)
      → (d' : DB) × (waited : List ℤ) × (promote v (suc fuel) limit now d ≡ some (d', waited))
        × Promoted n limit now (λ i. v.hget enqueued i d) (v.contents d) (v.contents d') waited
  unfolding promote
  promote_empty fuel n limit now d b e s =
      let c = v.contents d in
      let (popped, left) = laws.zpopmin_lem order d in
      let stays : Holds (v.contents (v.zpopmin order d).0) (c.sorted active) [] c.counter =
        rw left (refl, ap behind e, refl) in
      rw (promote, b, popped, e)
        (
          (v.zpopmin order d).0,
          [],
          refl,
          record {
            sound =
                sound_of n (v.contents (v.zpopmin order d).0) (c.sorted active) [] c.counter stays
                  (rw e at s);
            gone = [];
            served = ap members e ∙ ap members (sym stays.1);
            many = refl;
            waits = refl;
            began = stays.0;
            grown = ap length stays.0 ∙ omega arith;
            within = inl refl;
            full = inr stays.1;
          },
        )

  promote_step :
      (fuel n : ℕ) (limit now y : ℤ) (id : String) (l : SortedSet) (d : DB)
      → ltb_ℤ (pos (v.zcard active d)) limit ≡ true
      → (v.contents d).sorted order ≡ (id, y) ∷ l
      → IsSoundAt n (v.contents d)
      → (let d1 = enter v now id (v.zpopmin order d).0 in
          ((v.contents d1).sorted order ≡ l)
          → IsSoundAt n (v.contents d1)
          → (d' : DB) × (waited : List ℤ) × (promote v fuel limit now d1 ≡ some (d', waited))
            × Promoted n limit now
                (λ i. v.hget enqueued i d1)
                (v.contents d1)
                (v.contents d')
                waited)
      → (d' : DB) × (waited : List ℤ) × (promote v (suc fuel) limit now d ≡ some (d', waited))
        × Promoted n limit now (λ i. v.hget enqueued i d) (v.contents d) (v.contents d') waited
  unfolding promote
  promote_step fuel n limit now y id l d b e s next =
      let c = v.contents d in
      let absent = (rw e at s.order_distinct).0 in
      let popped = (v.zpopmin order d).0 in
      let d1 = enter v now id popped in
      let (a, o, k) = enter_lem now id d in
      let o' = o ∙ ap behind e in
      let (s1, out) = promote-IsSound n (c.sorted active) id y l c.counter now (rw e at s) in
      let (d', waited, f, p) =
        next o'
          (sound_of n (v.contents d1) (place now id (c.sorted active)) l c.counter (a, o', k) s1) in
      let popped_one : (v.zpopmin order d).1 ≡ some id =
        (laws.zpopmin_lem order d).0 ∙ ap first e in
      let free : pos (length (c.sorted active)) <ℤ limit =
        ground (arith, rw (laws.zcard_lem active d) at b) in
      rw (promote, b, popped_one, f)
        (
          d',
          wait_of v now id popped ∷ waited,
          refl,
          next-Promoted n limit now (wait_of v now id popped) (λ i. v.hget enqueued i d)
              (λ i. v.hget enqueued i d1) id c (v.contents d1) (v.contents d') l waited
              (ap members e) out free (a, o', k) (wait_of_lem now id d)
              (λ j y at. enter_since now id j d (other_member id j y l absent at)) p,
        )

  -- With more fuel than the line is long the third loop of reconcileScript ends, on a sound
  -- database, which stays sound: it has taken as many ids from the head of the line, in order, as
  -- there are waits, and as many sessions have begun; the room is full or the line empty, and no
  -- promotion passes the capacity. Each wait is the time since the ticket's enqueueing, and the
  -- sessions are those before with the taken ids entered in order.
  pub promote_lem :
      (fuel n : ℕ) (limit now : ℤ) (d : DB)
      → length ((v.contents d).sorted order) < fuel
      → IsSoundAt n (v.contents d)
      → (d' : DB) × (waited : List ℤ) × (promote v fuel limit now d ≡ some (d', waited))
        × Promoted n limit now (λ i. v.hget enqueued i d) (v.contents d) (v.contents d') waited
  unfolding promote
  promote_lem zero n limit now d h s = absurd (omega (arith, h))
  promote_lem (suc fuel) n limit now d h s =
      elim (Bool-cases (ltb_ℤ (pos (v.zcard active d)) limit)) [
        | inr b ↦
            rw (promote, b)
              (
                d,
                [],
                refl,
                record {
                  sound = s;
                  gone = [];
                  served = refl;
                  many = refl;
                  waits = refl;
                  began = refl;
                  grown = omega arith;
                  within = inl refl;
                  full = inl (ground (arith, rw (laws.zcard_lem active d) at b));
                },
              )
        | inl b ↦ elim (heads ((v.contents d).sorted order)) [
          | inl e ↦ promote_empty fuel n limit now d b e s
          | inr (id, y, l, e) ↦ promote_step fuel n limit now y id l d b e s (λ o s1.
              promote_lem fuel n limit now (enter v now id (v.zpopmin order d).0)
                (omega (arith, h, ap length e, ap length o)) s1)
        ]
      ]
