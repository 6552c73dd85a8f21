-- ===== src/Valkey/Methods.antt =====
-- The Go methods of internal/store/valkeystore/valkeystore.go: they run the scripts and read the replies.
use gowait.Prelude.{
  ◌/◌, String, Bool, true, false, Option, none, some, List, [], ◌∷◌, ℤ, pos, negsuc, ◌-ℤ◌, eqb_ℤ,
  if◌then◌else◌,
}
use gowait.Int64.{quot}
use gowait.Results.{Result, ok, error, M, ◌>>=◌, pure, fail}
use gowait.Clock.{Time, Duration, Floats}
use gowait.Decimal.{itoa, atoi}
use gowait.Store.{Status, Snapshot, Stats, ReconcileResult}
use gowait.Store.Interface.{Ops}
use gowait.Valkey.Server.{
  Bytes, Reply, Replies, null, okay, text, nil, cons, Abort, Commands, Client, capacity, lock,
}
use gowait.Valkey.Scripts.{
  try_admit_script, enqueue_script, lookup_script, touch_script, reconcile_script, flush_script,
  stats_script,
}

-- An error of the client, a reply of the wrong length, or a capacity that is no number.
pub data StoreError (E : Type 0) : Type 0 where
  client : E → StoreError E
  bad_length : StoreError E
  bad_value : Bytes → StoreError E

-- Nanoseconds in milliseconds, rounded down.
abbrev pub down_to_milli : ℤ → ℤ
down_to_milli (pos n) = pos (n / 1000000)
down_to_milli (negsuc n) = negsuc (n / 1000000)

-- t.UnixMilli() and d.Milliseconds(), which rounds toward zero
abbrev pub unix_milli : Time → ℤ
unix_milli t = down_to_milli (pos t -ℤ pos 62135596800000000000)

abbrev pub milliseconds : Duration → ℤ
milliseconds d = quot d (pos 1000000)

-- store.Status(n); a number that is no status is treated as unknown wherever a status is tested.
abbrev pub to_status : ℤ → Status
to_status n =
    if eqb_ℤ n (pos 2)
    then Status.active
    else if eqb_ℤ n (pos 1)
    then Status.queued
    else Status.unknown

module _ {DB E : Type 0} (cl : Client DB E) where
  -- An error of the client, passed on.
  abbrev pub passed : {A : Type 0} → Result E A → Result (StoreError E) A
  passed (ok a) = ok a
  passed (error e) = error (client e)

  -- script.Exec(…)
  unfoldable pub call : M DB Abort Reply → M DB (StoreError E) Reply
  call m d = ((cl.exec m d).0, passed (cl.exec m d).1)

  unfoldable pub value : Reply → M DB (StoreError E) ℤ
  value r d = (d, passed (cl.as_int64 r))

  unfoldable pub elements : Reply → M DB (StoreError E) Replies
  elements r d = (d, passed (cl.to_array r))

  -- The loop of parseSnapshot, over a reply of four.
  unfoldable pub snapshot_of : Replies → M DB (StoreError E) Snapshot
  unfolding value
  snapshot_of (cons a (cons b (cons c (cons e nil)))) = do
    status ← value a
    place ← value b
    waiting ← value c
    active ← value e
    pure (record {
      status = to_status status;
      position = place;
      queue_length = waiting;
      active_count = active;
    })
  snapshot_of _ = fail bad_length

  unfoldable pub parse_snapshot : M DB Abort Reply → M DB (StoreError E) Snapshot
  unfolding call elements snapshot_of
  parse_snapshot m = do reply ← call m; arr ← elements reply; snapshot_of arr

  -- n == 1
  unfoldable pub is_one : M DB Abort Reply → M DB (StoreError E) Bool
  unfolding call value
  is_one m = do reply ← call m; n ← value reply; pure (eqb_ℤ n (pos 1))

module _ {DB E F : Type 0} (v : Commands DB F) (cl : Client DB E) where
  unfoldable pub try_admit : String → ℤ → Time → M DB (StoreError E) Bool
  unfolding is_one
  try_admit id cap now = is_one cl (try_admit_script v id cap (unix_milli now))

  unfoldable pub enqueue : String → Time → M DB (StoreError E) Snapshot
  unfolding parse_snapshot
  enqueue id now = parse_snapshot cl (enqueue_script v id (unix_milli now))

  unfoldable pub lookup : String → Time → M DB (StoreError E) Snapshot
  unfolding parse_snapshot
  lookup id now = parse_snapshot cl (lookup_script v id (unix_milli now))

  unfoldable pub touch : String → Time → M DB (StoreError E) Bool
  unfolding is_one
  touch id now = is_one cl (touch_script v id (unix_milli now))

  unfoldable pub flush : M DB (StoreError E) ℤ
  unfolding call value
  flush = do reply ← call cl (flush_script v); value cl reply

  -- .Error() of the reply to SET
  unfoldable pub set_capacity : ℤ → M DB (StoreError E) (Unit {0})
  unfolding call
  set_capacity n = do
    reply ← call cl (λ d. (v.set capacity (itoa n) d, ok okay))
    λ d. (d, elim (cl.reply_error reply) [ none ↦ ok tt | some e ↦ error (client e) ])

  -- What GetCapacity makes of the text, or of the error, nil or not.
  unfoldable pub adopt : Result E Bytes → Result (StoreError E) (ℤ × Bool)
  adopt (error e) = if cl.is_nil e then ok (pos 0, false) else error (client e)
  adopt (ok s) = elim (atoi s) [ none ↦ error (bad_value s) | some n ↦ ok (n, true) ]

  abbrev pub get_reply : M DB Abort Reply
  get_reply d = (d, ok (elim (v.get capacity d) [ none ↦ null | some s ↦ text s ]))

  unfoldable pub get_capacity : M DB (StoreError E) (ℤ × Bool)
  unfolding adopt
  get_capacity d = (
    (cl.exec get_reply d).0,
    adopt (elim (cl.exec get_reply d).1 [ error e ↦ error e | ok reply ↦ cl.to_string reply ]),
  )

  -- SET NX answers nil where the key exists.
  abbrev pub lock_reply : Bytes → String → Duration → M DB Abort Reply
  lock_reply one name ttl d =
      let (d', set) = v.set_nx (lock name) one (milliseconds ttl) d in
      (d', ok (if set then okay else null))

  -- "1" is the value of a lock.
  unfoldable pub try_lock : String → Duration → M DB (StoreError E) Bool
  try_lock name ttl d =
      let r = cl.exec (lock_reply (49 ∷ []) name ttl) d in
      let failed : Option E = elim r.1 [ error e ↦ some e | ok reply ↦ cl.reply_error reply ] in
      (
        r.0,
        elim failed [
          | none ↦ ok true
          | some e ↦ if cl.is_nil e then ok false else error (client e)
        ],
      )

module _ {DB E F : Type 0} (fl : Floats F) (cl : Client DB E) where
  -- float64(msWaited) / 1000.0 of each
  unfoldable pub seconds_of : Replies → M DB (StoreError E) (List F)
  unfolding value
  seconds_of nil = pure []
  seconds_of (cons r rs) = do
    n ← value cl r
    rest ← seconds_of rs
    pure (fl.thousandth (fl.of_int64 n) ∷ rest)

  unfoldable pub result_of : Replies → M DB (StoreError E) (ReconcileResult F)
  unfolding value elements seconds_of
  result_of (cons a (cons b (cons c (cons w nil)))) = do
    promoted ← value cl a
    expired ← value cl b
    evicted ← value cl c
    waits ← elements cl w
    waited ← seconds_of waits
    pure
        (record { promoted = promoted; expired = expired; evicted = evicted; waited_secs = waited })
  result_of _ = fail bad_length

  -- The average that Stats reads, 0 where it cannot.
  unfoldable pub read_avg : Reply → F
  read_avg r = elim (cl.to_string r) [
    | error e ↦ fl.zero_value
    | ok [] ↦ fl.zero_value
    | ok (c ∷ cs) ↦ elim (fl.parse_float (c ∷ cs)) [ none ↦ fl.zero_value | some x ↦ x ]
  ]

  unfoldable pub stats_of : Replies → M DB (StoreError E) (Stats F)
  unfolding value read_avg
  stats_of (cons a (cons b (cons c nil))) = do
    waiting ← value cl a
    active ← value cl b
    pure (record { queue_length = waiting; active_count = active; avg_session_secs = read_avg c })
  stats_of _ = fail bad_length

module _ {DB E F : Type 0} (fl : Floats F) (v : Commands DB F) (cl : Client DB E) where
  unfoldable pub reconcile :
      ℤ → Duration → Duration → Time → M DB (StoreError E) (ReconcileResult F)
  unfolding call elements result_of
  reconcile cap active_ttl queue_ttl now = do
    reply ← call cl (
        reconcile_script v fl cap (milliseconds active_ttl) (milliseconds queue_ttl)
          (unix_milli now))
    arr ← elements cl reply
    result_of fl cl arr

  unfoldable pub stats : M DB (StoreError E) (Stats F)
  unfolding call elements stats_of
  stats = do reply ← call cl (stats_script v); arr ← elements cl reply; stats_of fl cl arr

  -- The store as an implementation of the interface.
  abbrev pub ops : Ops DB (StoreError E) F
  ops = record {
    try_admit = try_admit v cl;
    enqueue = enqueue v cl;
    lookup = lookup v cl;
    touch = touch v cl;
    reconcile = reconcile;
    stats = stats;
    set_capacity = set_capacity v cl;
    get_capacity = get_capacity v cl;
    flush = flush v cl;
  }
