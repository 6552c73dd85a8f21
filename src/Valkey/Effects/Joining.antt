-- ===== src/Valkey/Effects/Joining.antt =====
-- tryAdmitScript and enqueueScript of internal/store/valkeystore/valkeystore.go, for a ticket that is new.
use gowait.Prelude.{
  All, str_eq_refl, ℕ, suc, ◌+◌, ◌==◌, ◌&&◌, ◌≡◌, refl, ap, ◌∙◌, ◌⊎◌, inl, inr, String, true, false,
  Option, none, some, [], ◌∷◌, ℤ, pos, ◌+ℤ◌, ◌≤ℤ◌, ltb_ℤ, length, arith, Bool-cases,
}
use gowait.Results.{ok}
use gowait.GoMap
use gowait.Store.{Status}
use gowait.Store.Promises.{HasRoom}
use gowait.Valkey.SortedSets.{SortedSet, place, rank}
use gowait.Valkey.SortedSets.Placing.{lookup-place, place_last, rank-last, rank_absent}
use gowait.Valkey.Server.{
  Contents, Commands, Laws, int, order, seen, active, admitted, enqueued, with_set,
}
use gowait.Valkey.Scripts.{four, try_admit_script, queue_up, answer_rank, enqueue_script}
use gowait.Valkey.Sound.{status_in, view_of, place-IsSound, enter_view, join-IsSound, reached_step}
use gowait.Valkey.Effects.{IsSoundAt, view_at, Tells}

unknown_out : (a o : Option ℤ) → status_in a o ≡ Status.unknown → (a ≡ none) × (o ≡ none)
unknown_out none none u = (refl, refl)
unknown_out none (some y) u = cc
unknown_out (some x) o u = cc

joined_rank :
    (id : String) (k : ℤ) (ord : SortedSet)
    → GoMap.lookup id ord ≡ none
    → All (λ m. m.1 ≤ℤ k) ord
    → rank id (place (k +ℤ pos 1) id ord) ≡ some (length ord)
joined_rank id k ord o reached =
    rw (place_last (k +ℤ pos 1) id ord o (reached_step k ord reached))
      (rank-last (k +ℤ pos 1) id ord o)

-- A new ticket at the end of the line.
abbrev joined : String → Contents → Contents
joined id c =
    with_set order (place (c.counter +ℤ pos 1) id (c.sorted order))
      (record c { counter = c.counter +ℤ pos 1 })

-- The test of tryAdmitScript.
can_enter :
    (act ord : SortedSet) (limit : ℤ)
    → let free = ltb_ℤ (pos (length act)) limit && length ord == 0 in
      (free ≡ true → HasRoom (view_of act ord) limit)
      × (free ≡ false → ¬ HasRoom (view_of act ord) limit)
can_enter act [] limit = (λ b. (ground (arith, b), refl), λ b (l, e). ground (arith, b, l))
can_enter act ((j, y) ∷ ord) limit = (λ b. absurd (ground (arith, b)), λ b (l, e). cc)

module _ {DB F : Type 0} (v : Commands DB F) (laws : Laws v) where
  -- A ticket that is unknown gets a session where there is room and nobody waits.
  pub try_admit_script_lem :
      (n : ℕ) (id : String) (limit now : ℤ) (d : DB)
      → IsSoundAt n (v.contents d)
      → (view_at (v.contents d)).status id ≡ Status.unknown
      → let r = try_admit_script v id limit now d in
        (a : ℤ) × (r.1 ≡ ok (int a))
        × IsSoundAt n (v.contents r.0)
        × ((a ≡ pos 1)
              × HasRoom (view_at (v.contents d)) limit
              × ((view_at (v.contents r.0)).status id ≡ Status.active)
              × ((view_at (v.contents r.0)).active ≡ (view_at (v.contents d)).active +ℤ pos 1)
            ⊎ (a ≡ pos 0)
              × (¬ HasRoom (view_at (v.contents d)) limit)
              × (view_at (v.contents r.0) ≡ view_at (v.contents d)))
  unfolding try_admit_script
  try_admit_script_lem n id limit now d s u =
      let c = v.contents d in
      let (a, o) =
        unknown_out (GoMap.lookup id (c.sorted active)) (GoMap.lookup id (c.sorted order)) u in
      let new = enter_view n (c.sorted active) (c.sorted order) c.counter s now id a in
      let room = can_enter (c.sorted active) (c.sorted order) limit in
      elim (Bool-cases (ltb_ℤ (pos (v.zcard active d)) limit && v.zcard order d == 0)) [
        | inl b ↦
            rw
              (
                try_admit_script,
                laws.zscore_lem active id d ∙ a,
                b,
                laws.hset_lem admitted id now (v.zadd active now id d),
                laws.zadd_lem active now id d,
              )
              (
                pos 1,
                refl,
                place-IsSound n (c.sorted active) (c.sorted order) c.counter s now id o,
                inl (
                  refl,
                  room.0 (rw (laws.zcard_lem active d, laws.zcard_lem order d) at b),
                  new.0,
                  new.1,
                ),
              )
        | inr b ↦
            rw (try_admit_script, laws.zscore_lem active id d ∙ a, b)
              (
                pos 0,
                refl,
                s,
                inr (
                  refl,
                  room.1 (rw (laws.zcard_lem active d, laws.zcard_lem order d) at b),
                  refl,
                ),
              )
      ]

  -- The writes of enqueueScript for a new ticket.
  queue_up_contents :
      (id : String) (now : ℤ) (d : DB) → v.contents (queue_up v id now d) ≡ joined id (v.contents d)
  unfolding queue_up
  queue_up_contents id now d =
      let (d', k) = v.incr d in
      let (e, f) = laws.incr_lem d in
      rw
        (
          queue_up,
          laws.hset_lem enqueued id now (v.zadd order k id d'),
          laws.zadd_lem order k id d',
          e,
          f,
        )
        refl

  -- The tickets after enqueueScript, for a new one.
  abbrev put : String → ℤ → DB → DB
  put id now d = v.zadd seen now id (queue_up v id now d)

  put_contents :
      (id : String) (now : ℤ) (d : DB)
      → (l : SortedSet) × (v.contents (put id now d) ≡ with_set seen l (joined id (v.contents d)))
  put_contents id now d =
      let l = place now id ((v.contents (queue_up v id now d)).sorted seen) in
      (
        l,
        laws.zadd_lem seen now id (queue_up v id now d)
            ∙ ap (with_set seen l) (queue_up_contents id now d),
      )

  put_rank :
      (id : String) (now : ℤ) (d : DB)
      → GoMap.lookup id ((v.contents d).sorted order) ≡ none
      → All (λ m. m.1 ≤ℤ (v.contents d).counter) ((v.contents d).sorted order)
      → v.zrank order id (queue_up v id now d) ≡ some (length ((v.contents d).sorted order))
  put_rank id now d o reached =
      let c = v.contents d in
      let next = c.counter +ℤ pos 1 in
      laws.zrank_lem order id (queue_up v id now d)
      ∙ ap (λ x. rank id (x.sorted order)) (queue_up_contents id now d)
      ∙ joined_rank id c.counter (c.sorted order) o reached

  -- A ticket that is unknown takes the last place.
  pub enqueue_script_lem :
      (n : ℕ) (id : String) (now : ℤ) (d : DB)
      → IsSoundAt (suc n) (v.contents d)
      → (view_at (v.contents d)).status id ≡ Status.unknown
      → let r = enqueue_script v id now d in
        let c = v.contents d in
        let c' = v.contents r.0 in
        (q : ℤ) × (e : ℤ) × (r.1 ≡ ok (four (pos 1) (pos (length (c.sorted order) + 1)) q e))
        × IsSoundAt n c'
        × Tells c' id (pos 1) (pos (length (c.sorted order) + 1)) q e
        × ((view_at c').active ≡ (view_at c).active)
  unfolding enqueue_script answer_rank
  enqueue_script_lem n id now d s u =
      let c = v.contents d in
      let ord = c.sorted order in
      let (a, o) = unknown_out (GoMap.lookup id (c.sorted active)) (GoMap.lookup id ord) u in
      let (s', last) = join-IsSound n (c.sorted active) ord c.counter id s a o in
      let w = put id now d in
      let (l, e) = put_contents id now d in
      let at : Tells (with_set seen l (joined id c)) id (pos 1) (pos (length ord + 1))
          (pos (length ((joined id c).sorted order))) (pos (length (c.sorted active))) =
        record {
          waiting = refl;
          running = refl;
          told = inr (
              inr (
                refl,
                (
                  length ord,
                  c.counter +ℤ pos 1,
                  refl,
                  a,
                  rw (lookup-place (c.counter +ℤ pos 1) id id ord, str_eq_refl id) refl,
                  joined_rank id c.counter ord o s.reached,
                ),
              ));
        } in
      rw
        (
          enqueue_script,
          laws.zscore_lem active id d ∙ a,
          laws.zrank_lem order id d ∙ rank_absent id ord o,
          put_rank id now d o s.reached,
          answer_rank,
          laws.zcard_lem order w,
          laws.zcard_lem active w,
          e,
        )
        (
          pos (length ((joined id c).sorted order)),
          pos (length (c.sorted active)),
          refl,
          s',
          at,
          refl,
        )
