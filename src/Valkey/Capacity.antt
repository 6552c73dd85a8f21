-- ===== src/Valkey/Capacity.antt =====
-- The capacity override, the locks and Flush of internal/store/valkeystore/valkeystore.go.
use gowait.Prelude.{
  ℕ, ◌≡◌, refl, inr, ap, sym, ◌∙◌, String, Bool, true, false, Option, none, some, [], ◌∷◌, ℤ, pos,
  ◌≤ℤ◌, length,
}
use gowait.Results.{Result, ok, error, M, >>=-ok}
use gowait.Clock.{Duration, min_int64, max_int64}
use gowait.Decimal.{itoa}
use gowait.Decimal.RoundTrip.{atoi-itoa}
use gowait.Store.Promises.{Answers}
use gowait.Store.{Status}
use gowait.GoMap
use gowait.Valkey.SortedSets.{SortedSet}
use gowait.Valkey.SortedSets.Placing.{length-members}
use gowait.Valkey.Server.{
  Bytes, Reply, null, okay, text, int, Abort, Commands, Laws, Client, Reliable, capacity, lock,
  order, seen, active, enqueued, with_set,
}
use gowait.Valkey.Scripts.{flush_script}
use gowait.Valkey.Methods.{
  StoreError, client, call, value, flush, set_capacity, get_capacity, adopt, get_reply, lock_reply,
  try_lock, milliseconds,
}
use gowait.Valkey.Sound.{IsSound, status_in}
use gowait.Valkey.Effects.{IsSoundAt, IsSame, view_at}
use gowait.Valkey.Reading.{call_ok, value_ok}

-- Who waited is unknown after a flush.
abbrev pub left : Status → Status
left Status.queued = Status.unknown
left st = st

left-status : (a o : Option ℤ) → status_in a none ≡ left (status_in a o)
left-status none none = refl
left-status none (some y) = refl
left-status (some x) o = refl

flushed-IsSound : (n : ℕ) (act ord : SortedSet) (k : ℤ) → IsSound n act ord k → IsSound n act [] k
unfolding GoMap.lookup
flushed-IsSound n act ord k s = record {
  active_distinct = s.active_distinct;
  order_distinct = tt;
  apart = λ i. inr refl;
  reached = tt;
  start = s.start;
  room = s.room;
}

module _ {DB E F : Type 0} (v : Commands DB F) (laws : Laws v) (cl : Client DB E)
    (rel : Reliable cl) where
  set_capacity_ok : (n : ℤ) (d : DB) → set_capacity v cl n d ≡ (v.set capacity (itoa n) d, ok tt)
  unfolding set_capacity
  set_capacity_ok n d =
      let m : M DB Abort Reply = λ x. (v.set capacity (itoa n) x, ok okay) in
      let said : Option E → Result (StoreError E) (Unit {0}) =
        λ r. elim r [ none ↦ ok tt | some e ↦ error (client e) ] in
      >>=-ok (call cl m) (λ reply x. (x, said (cl.reply_error reply))) d (m d).0 okay
        (call_ok cl rel m d okay refl)
      ∙ ap (λ r. (v.set capacity (itoa n) d, said r)) rel.okay_ok

  get_capacity_ok :
      (s : Bytes) (d : DB)
      → v.get capacity d ≡ some s
      → get_capacity v cl d ≡ (d, adopt v cl (ok s))
  unfolding get_capacity
  get_capacity_ok s d h =
      let e = rel.exec_ok (get_reply v cl) d (text s) (rw h refl) in
      rw (get_capacity, e, rel.to_string_ok s) refl

  -- With a client that reaches its server, SetCapacity of any int64 ends without an error, and
  -- GetCapacity then answers this number, set.
  pub get_capacity-set_capacity :
      (n : ℤ) (d : DB)
      → min_int64 ≤ℤ n
      → n ≤ℤ max_int64
      → ((set_capacity v cl n d).1 ≡ ok tt)
        × ((get_capacity v cl (set_capacity v cl n d).0).1 ≡ ok (n, true))
  unfolding adopt
  get_capacity-set_capacity n d low high =
      let put = set_capacity_ok n d in
      let kept =
        get_capacity_ok (itoa n) (v.set capacity (itoa n) d) (laws.get-set capacity (itoa n) d) in
      (
        ap (λ r. r.1) put,
        ap (λ r. (get_capacity v cl r.0).1) put
            ∙ ap (λ r. r.1) kept
            ∙ rw (adopt, atoi-itoa n low high) refl,
      )

  pub set_kept :
      (n : ℕ) (d : DB) (limit : ℤ)
      → IsSoundAt n (v.contents d)
      → Answers (set_capacity v cl limit d) λ d' _. IsSame n (v.contents d) (v.contents d')
  set_kept n d limit s =
      rw (set_capacity_ok limit d, laws.set_lem capacity (itoa limit) d) (tt, refl, (s, refl))

  -- SET NX of a lock, by its reply.
  try_lock_ok :
      (name : String) (ttl : Duration) (d d' : DB) (set : Bool)
      → v.set_nx (lock name) (49 ∷ []) (milliseconds ttl) d ≡ (d', set)
      → try_lock v cl name ttl d ≡ (d', ok set)
  unfolding try_lock
  try_lock_ok name ttl d d' true h =
      let e = rel.exec_ok (lock_reply v cl (49 ∷ []) name ttl) d okay (rw h refl) in
      rw (try_lock, e, rel.okay_ok, h) refl
  try_lock_ok name ttl d d' false h =
      let e = rel.exec_ok (lock_reply v cl (49 ∷ []) name ttl) d null (rw h refl) in
      let (x, missing, _, nil) = rel.null_error in rw (try_lock, e, missing, nil, h) refl

  pub try_lock_kept :
      (n : ℕ) (name : String) (ttl : Duration) (d : DB)
      → IsSoundAt n (v.contents d)
      → Answers (try_lock v cl name ttl d) λ d' _. IsSame n (v.contents d) (v.contents d')
  try_lock_kept n name ttl d s =
      let taken = v.set_nx (lock name) (49 ∷ []) (milliseconds ttl) d in
      rw
        (
          try_lock_ok name ttl d taken.0 taken.1 refl,
          laws.set_nx_lem (lock name) (49 ∷ []) (milliseconds ttl) d,
        )
        (taken.1, refl, (s, refl))

  -- With a client that reaches its server and leases of a millisecond or more, TryLock of a lock
  -- that nobody holds answers true, and a TryLock of the same lock right after it answers false.
  pub try_lock-try_lock :
      (name : String) (ttl ttl' : Duration) (d : DB)
      → pos 1 ≤ℤ milliseconds ttl
      → pos 1 ≤ℤ milliseconds ttl'
      → v.get (lock name) d ≡ none
      → ((try_lock v cl name ttl d).1 ≡ ok true)
        × ((try_lock v cl name ttl' (try_lock v cl name ttl d).0).1 ≡ ok false)
  try_lock-try_lock name ttl ttl' d some_ttl some_ttl' free =
      let one : Bytes = 49 ∷ [] in
      let taken = v.set_nx (lock name) one (milliseconds ttl) d in
      let (won, held) = laws.set_nx_new (lock name) one (milliseconds ttl) d some_ttl free in
      let first = try_lock_ok name ttl d taken.0 taken.1 refl in
      let second =
        try_lock_ok name ttl' taken.0 taken.0 false
          (laws.set_nx_held (lock name) one one (milliseconds ttl') taken.0 some_ttl' held) in
      (
        ap (λ r. r.1) first ∙ ap ok won,
        ap (λ r. (try_lock v cl name ttl' r.0).1) first ∙ ap (λ r. r.1) second,
      )

  -- A flush ends the waiting, and nothing else.
  pub flush_lem :
      (n : ℕ) (d : DB)
      → IsSoundAt n (v.contents d)
      → Answers (flush v cl d) λ d' dropped.
        IsSoundAt n (v.contents d')
        × (dropped ≡ pos (length (view_at (v.contents d)).line))
        × ((view_at (v.contents d')).line ≡ [])
        × ((view_at (v.contents d')).active ≡ (view_at (v.contents d)).active)
        × ((id : String)
            → (view_at (v.contents d')).status id ≡ left ((view_at (v.contents d)).status id))
  unfolding flush flush_script GoMap.lookup
  flush_lem n d s =
      let c = v.contents d in
      let d1 = v.del_set order d in
      let d2 = v.del_hash enqueued (v.del_set seen d1) in
      let e : v.contents d2 ≡ with_set seen [] (with_set order [] c) =
        laws.del_hash_lem enqueued (v.del_set seen d1)
        ∙ laws.del_set_lem seen d1
        ∙ ap (with_set seen []) (laws.del_set_lem order d) in
      let q = pos (v.zcard order d) in
      let run =
        >>=-ok (call cl (flush_script v)) (value cl) d d2 (int q)
          (call_ok cl rel (flush_script v) d (int q) refl)
        ∙ value_ok cl rel q d2 in
      rw (run, e)
        (
          q,
          refl,
          (
            flushed-IsSound n (c.sorted active) (c.sorted order) c.counter s,
            ap pos (laws.zcard_lem order d ∙ sym (length-members (c.sorted order))),
            refl,
            refl,
            λ id.
                left-status (GoMap.lookup id (c.sorted active)) (GoMap.lookup id (c.sorted order)),
          ),
        )

  pub flush_kept :
      (n : ℕ) (d : DB)
      → IsSoundAt n (v.contents d)
      → Answers (flush v cl d) λ d' _.
        IsSoundAt n (v.contents d')
        × ((view_at (v.contents d')).line ≡ [])
        × ((view_at (v.contents d')).active ≡ (view_at (v.contents d)).active)
  flush_kept n d s =
      let (k, e, (sound, dropped, nobody, same, gone)) = flush_lem n d s in
      (k, e, (sound, nobody, same))
