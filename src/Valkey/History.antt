-- ===== src/Valkey/History.antt =====
-- Calls of the replicas on the store of internal/store/valkeystore/valkeystore.go, one after the other:
-- the server runs each as one step.
use gowait.Prelude.{
  ℕ, suc, ◌+◌, ◌==◌, ◌&&◌, ◌≡◌, refl, ap, sym, subst, ◌∙◌, ◌⊎◌, inl, inr, String, true, none, List,
  [], ◌∷◌, ℤ, pos, ◌≤ℤ◌, ltb_ℤ, length, All, arith, Bool-cases, Option-cases,
}
use gowait.Results.{ok}
use gowait.Clock.{Time, Duration, Floats}
use gowait.GoMap
use gowait.Valkey.SortedSets.{SortedSet}
use gowait.Valkey.SortedSets.Placing.{rank-lookup, length-place_new}
use gowait.Valkey.Server.{
  Contents, Commands, Laws, Client, Reliable, int, order, active, seen, admitted,
}
use gowait.Valkey.Scripts.{four, try_admit_script, enqueue_script, answer_rank}
use gowait.Valkey.Methods.{
  try_admit, enqueue, lookup, touch, reconcile, stats, flush, unix_milli, get_capacity,
  set_capacity, try_lock,
}
use gowait.Valkey.Sound.{weaken-IsSound, place-IsSound}
use gowait.Valkey.Reading.{is_one_ok, parse_snapshot_ok}
use gowait.Valkey.Effects.{IsSoundAt, IsSame, see_seen, see_active}
use gowait.Valkey.Kept.{lookup_kept, touch_kept}
use gowait.Valkey.Kept.Reconciles.{reconcile_answers, stats_kept, capacity_kept}
use gowait.Valkey.Capacity.{flush_lem, set_kept, try_lock_kept}
use gowait.Valkey.Effects.Joining.{enqueue_script_lem}

-- Sound, and with no more sessions than before, or at most `limit`.
abbrev IsBounded : ℕ → ℤ → Contents → Contents → Type 0
IsBounded n limit c c' =
    IsSoundAt n c'
    × ((pos (length (c'.sorted active)) ≤ℤ pos (length (c.sorted active)))
        ⊎ (pos (length (c'.sorted active)) ≤ℤ limit))

weaken_at : (n : ℕ) (c : Contents) → IsSoundAt (suc n) c → IsSoundAt n c
weaken_at n c s = weaken-IsSound n (c.sorted active) (c.sorted order) c.counter s

IsSame-IsBounded : (n : ℕ) (limit : ℤ) (c c' : Contents) → IsSame n c c' → IsBounded n limit c c'
IsSame-IsBounded n limit c c' (s, e) = let k = ap (λ w. w.active) e in (s, inl (ground (arith, k)))

-- The line is empty where the second test of tryAdmitScript holds.
empty_line : (id : String) (l : SortedSet) → (length l == 0) ≡ true → GoMap.lookup id l ≡ none
unfolding GoMap.lookup
empty_line id [] h = refl
empty_line id ((j, y) ∷ l) h = absurd (ground (arith, h))

module _ {DB F : Type 0} (v : Commands DB F) (laws : Laws v) where
  try_admit_any :
      (n : ℕ) (id : String) (limit now : ℤ) (d : DB)
      → IsSoundAt n (v.contents d)
      → (a : ℤ) × ((try_admit_script v id limit now d).1 ≡ ok (int a))
        × IsBounded n limit (v.contents d) (v.contents (try_admit_script v id limit now d).0)
  unfolding try_admit_script
  try_admit_any n id limit now d s =
      let c = v.contents d in
      elim (Option-cases (v.zscore active id d)) [
        | inr (y, h) ↦
            rw (try_admit_script, h)
              (
                pos 1,
                refl,
                IsSame-IsBounded n limit c (v.contents (v.zadd active now id d))
                    (see_active v laws n id now y d s h),
              )
        | inl h ↦ elim (Bool-cases (ltb_ℤ (pos (v.zcard active d)) limit && v.zcard order d == 0)) [
          | inr b ↦ rw (try_admit_script, h, b) (pos 0, refl, (s, inl (omega arith)))
          | inl b ↦
              let out = sym (laws.zscore_lem active id d) ∙ h in
              let free : ltb_ℤ (pos (length (c.sorted active))) limit ≡ true =
                ground (arith, rw (laws.zcard_lem active d, laws.zcard_lem order d) at b) in
              let nobody : (length (c.sorted order) == 0) ≡ true =
                ground (arith, rw (laws.zcard_lem active d, laws.zcard_lem order d) at b) in
              let more = length-place_new now id (c.sorted active) out in
              rw
                (
                  try_admit_script,
                  h,
                  b,
                  laws.hset_lem admitted id now (v.zadd active now id d),
                  laws.zadd_lem active now id d,
                )
                (
                  pos 1,
                  refl,
                  (
                    place-IsSound n (c.sorted active) (c.sorted order) c.counter s now id
                        (empty_line id (c.sorted order) nobody),
                    inr (ground (arith, more, free)),
                  ),
                )
        ]
      ]

  enqueue_any :
      (n : ℕ) (id : String) (limit now : ℤ) (d : DB)
      → IsSoundAt (suc n) (v.contents d)
      → (a : ℤ) × (b : ℤ) × (q : ℤ) × (e : ℤ) × ((enqueue_script v id now d).1 ≡ ok (four a b q e))
        × IsBounded n limit (v.contents d) (v.contents (enqueue_script v id now d).0)
  unfolding enqueue_script answer_rank
  enqueue_any n id limit now d s =
      let c = v.contents d in
      let less = weaken_at n c s in
      elim (Option-cases (v.zscore active id d)) [
        | inr (y, h) ↦
            rw (enqueue_script, h)
              (
                pos 2,
                pos 0,
                pos (v.zcard order d),
                pos (v.zcard active d),
                refl,
                (less, inl (omega arith)),
              )
        | inl h ↦ elim (rank-lookup id (c.sorted order)) [
          | inr (k, y, r, o) ↦
              rw (enqueue_script, h, laws.zrank_lem order id d ∙ r, answer_rank)
                (
                  pos 1,
                  pos (k + 1),
                  pos (v.zcard order (v.zadd seen now id d)),
                  pos (v.zcard active (v.zadd seen now id d)),
                  refl,
                  IsSame-IsBounded n limit c (v.contents (v.zadd seen now id d))
                      (see_seen v laws n id now d less),
                )
          | inl (r, o) ↦
              let a = sym (laws.zscore_lem active id d) ∙ h in
              let (q, e, f, s', t, same) =
                enqueue_script_lem v laws n id now d s (rw (a, o) refl) in
              (pos 1, pos (length (c.sorted order) + 1), q, e, f, (s', inl (ground (arith, same))))
        ]
      ]

-- A call, of any replica.
pub data Call : Type 0 where
  try_admit_call : String → ℤ → Time → Call
  enqueue_call lookup_call touch_call : String → Time → Call
  reconcile_call : ℤ → Duration → Duration → Time → Call
  flush_call stats_call get_capacity_call : Call
  set_capacity_call : ℤ → Call
  try_lock_call : String → Duration → Call

-- The capacity of a call, if it has one, is at most `most`.
abbrev pub IsWithin : ℤ → Call → Type 0
IsWithin most (try_admit_call id limit now) = limit ≤ℤ most
IsWithin most (reconcile_call limit a b now) = limit ≤ℤ most
IsWithin most _ = Unit

module _ {DB E F : Type 0} (fl : Floats F) (v : Commands DB F) (cl : Client DB E) where
  -- What a call leaves.
  unfoldable pub perform : Call → DB → DB
  unfolding try_admit enqueue lookup touch reconcile flush stats get_capacity set_capacity try_lock
  perform (try_admit_call id limit now) d = (try_admit v cl id limit now d).0
  perform (enqueue_call id now) d = (enqueue v cl id now d).0
  perform (lookup_call id now) d = (lookup v cl id now d).0
  perform (touch_call id now) d = (touch v cl id now d).0
  perform (reconcile_call limit a b now) d = (reconcile fl v cl limit a b now d).0
  perform flush_call d = (flush v cl d).0
  perform stats_call d = (stats fl v cl d).0
  perform get_capacity_call d = (get_capacity v cl d).0
  perform (set_capacity_call limit) d = (set_capacity v cl limit d).0
  perform (try_lock_call name ttl) d = (try_lock v cl name ttl d).0

  unfoldable pub run : List Call → DB → DB
  unfolding perform
  run [] d = d
  run (k ∷ ks) d = run ks (perform k d)

  module _ (laws : Laws v) (rel : Reliable cl) where
    -- The most sessions after a call.
    abbrev IsHeld : ℕ → ℤ → Contents → Type 0
    IsHeld n most c = IsSoundAt n c × (pos (length (c.sorted active)) ≤ℤ most)

    bounded :
        (n : ℕ) (limit most : ℤ) (c c' : Contents)
        → limit ≤ℤ most
        → pos (length (c.sorted active)) ≤ℤ most
        → IsBounded n limit c c'
        → IsHeld n most c'
    bounded n limit most c c' h k (s, inl e) = (s, ground (arith, e, k))
    bounded n limit most c c' h k (s, inr e) = (s, ground (arith, e, h))

    -- Nothing that is seen changes.
    kept-IsHeld :
        (n : ℕ) (most : ℤ) (c c' : Contents)
        → pos (length (c.sorted active)) ≤ℤ most
        → IsSame n c c'
        → IsHeld n most c'
    kept-IsHeld n most c c' h same =
        bounded n most most c c' (omega arith) h (IsSame-IsBounded n most c c' same)

    perform-IsHeld :
        (n : ℕ) (most : ℤ) (k : Call) (d : DB)
        → IsWithin most k
        → IsHeld (suc n) most (v.contents d)
        → IsHeld n most (v.contents (perform k d))
    unfolding perform try_admit enqueue
    perform-IsHeld n most (try_admit_call id limit now) d w (s, h) =
        let m = try_admit_script v id limit (unix_milli now) in
        let (a, e, b) =
          try_admit_any v laws n id limit (unix_milli now) d (weaken_at n (v.contents d) s) in
        subst (λ x. IsHeld n most (v.contents x)) (sym (ap (λ r. r.0) (is_one_ok cl rel m d a e)))
          (bounded n limit most (v.contents d) (v.contents (m d).0) w h b)
    perform-IsHeld n most (enqueue_call id now) d w (s, h) =
        let m = enqueue_script v id (unix_milli now) in
        let (a, b, q, e, f, z) = enqueue_any v laws n id most (unix_milli now) d s in
        subst (λ x. IsHeld n most (v.contents x))
          (sym (ap (λ r. r.0) (parse_snapshot_ok cl rel m d a b q e f)))
          (bounded n most most (v.contents d) (v.contents (m d).0) (omega arith) h z)
    perform-IsHeld n most (lookup_call id now) d w (s, h) =
        let (snap, e, (s', same, shown)) =
          lookup_kept v laws cl rel n d id now (weaken_at n (v.contents d) s) in
        kept-IsHeld n most (v.contents d) (v.contents (lookup v cl id now d).0) h (s', same)
    perform-IsHeld n most (touch_call id now) d w (s, h) =
        let (a, e, same) = touch_kept v laws cl rel n d id now (weaken_at n (v.contents d) s) in
        kept-IsHeld n most (v.contents d) (v.contents (touch v cl id now d).0) h same
    perform-IsHeld n most (reconcile_call limit a b now) d w (s, h) =
        let (d', waited, e, r) =
          reconcile_answers v laws cl rel fl n d limit a b now (weaken_at n (v.contents d) s) in
        let total = r.balanced in
        subst (λ x. IsHeld n most (v.contents x)) (sym (ap (λ x. x.0) e))
          (
            r.sound,
            elim r.within [
              | inl stop ↦ ground (arith, rw stop at total, h)
              | inr most' ↦ ground (arith, most', w)
            ],
          )
    perform-IsHeld n most flush_call d w (s, h) =
        let (q, e, (s', dropped, line, act, left)) =
          flush_lem v laws cl rel n d (weaken_at n (v.contents d) s) in
        (s', ground (arith, act, h))
    perform-IsHeld n most stats_call d w (s, h) =
        kept-IsHeld n most (v.contents d) (v.contents (stats fl v cl d).0) h
          (stats_kept v laws cl rel fl n d (weaken_at n (v.contents d) s))
    perform-IsHeld n most get_capacity_call d w (s, h) =
        kept-IsHeld n most (v.contents d) (v.contents (get_capacity v cl d).0) h
          (capacity_kept v laws cl rel n d (weaken_at n (v.contents d) s))
    perform-IsHeld n most (set_capacity_call limit) d w (s, h) =
        let (a, e, same) = set_kept v laws cl rel n d limit (weaken_at n (v.contents d) s) in
        kept-IsHeld n most (v.contents d) (v.contents (set_capacity v cl limit d).0) h same
    perform-IsHeld n most (try_lock_call name ttl) d w (s, h) =
        let (a, e, same) =
          try_lock_kept v laws cl rel n name ttl d (weaken_at n (v.contents d) s) in
        kept-IsHeld n most (v.contents d) (v.contents (try_lock v cl name ttl d).0) h same

    -- With a client that reaches its server, and on a sound database whose counter leaves room
    -- below 2^53 for as many tickets as there are calls: whatever TryAdmit, Enqueue, Lookup,
    -- Touch, Reconcile, Flush, Stats, GetCapacity, SetCapacity and TryLock are called, for any tickets and at any
    -- times, the database stays sound, and no more sessions run than the largest capacity that is
    -- passed, if no more than that ran before.
    pub run_held :
        (n : ℕ) (most : ℤ) (calls : List Call) (d : DB)
        → All (IsWithin most) calls
        → IsSoundAt (length calls + n) (v.contents d)
        → pos (length ((v.contents d).sorted active)) ≤ℤ most
        → IsSoundAt n (v.contents (run calls d))
          × (pos (length ((v.contents (run calls d)).sorted active)) ≤ℤ most)
    unfolding run
    run_held n most [] d w s h = (subst (λ k. IsSoundAt k (v.contents d)) (omega arith) s, h)
    run_held n most (k ∷ ks) d w s h =
        let next : IsSoundAt (suc (length ks + n)) (v.contents d) =
          subst (λ j. IsSoundAt j (v.contents d)) (omega arith) s in
        let (s', h') = perform-IsHeld (length ks + n) most k d w.0 (next, h) in
        run_held n most ks (perform k d) w.1 s' h'
