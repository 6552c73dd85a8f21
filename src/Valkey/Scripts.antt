-- ===== src/Valkey/Scripts.antt =====
-- The Lua scripts of internal/store/valkeystore/valkeystore.go. Each runs as one step.
use gowait.Prelude.{
  ℕ, zero, suc, ◌+◌, ◌==◌, ◌&&◌, true, false, String, Option, none, some, List, [], ◌∷◌, ℤ, pos,
  ◌-ℤ◌, ltb_ℤ, if◌then◌else◌, length,
}
use gowait.Results.{ok, error, M, ◌>>=◌}
use gowait.Clock.{Floats}
use gowait.Memory.Reconcile.{ema}
use gowait.Valkey.Server.{
  Bytes, Reply, Replies, order, seen, active, admitted, enqueued, avg, int, text, array, nil, cons,
  Abort, lua_error, Commands,
}

-- { status, position, queue_length, active_count }
abbrev pub four : ℤ → ℤ → ℤ → ℤ → Reply
four a b c d = array (cons (int a) (cons (int b) (cons (int c) (cons (int d) nil))))

abbrev pub ints : List ℤ → Replies
ints [] = nil
ints (n ∷ ns) = cons (int n) (ints ns)

abbrev pub or_else : {A : Type 0} → A → Option A → A
or_else a none = a
or_else a (some b) = b

-- { promoted, #expired, #ghosts, waited }
abbrev pub summarised : List ℤ → List String → List String → Replies
summarised waited expired ghosts = cons (int (pos (length waited))) (
    cons (int (pos (length expired)))
      (cons (int (pos (length ghosts))) (cons (array (ints waited)) nil)))

abbrev pub summary : List ℤ → List String → List String → Reply
summary waited expired ghosts = array (summarised waited expired ghosts)

module _ {DB F : Type 0} (v : Commands DB F) where
  -- tryAdmitScript
  unfoldable pub try_admit_script : String → ℤ → ℤ → M DB Abort Reply
  try_admit_script id cap now d = elim (v.zscore active id d) [
    | some _ ↦ (v.zadd active now id d, ok (int (pos 1)))
    | none ↦
        if ltb_ℤ (pos (v.zcard active d)) cap && v.zcard order d == 0
        then (v.hset admitted id now (v.zadd active now id d), ok (int (pos 1)))
        else (d, ok (int (pos 0)))
  ]

  -- The writes of enqueueScript for an id that has no rank.
  unfoldable pub queue_up : String → ℤ → DB → DB
  queue_up id now d = let (d', seq) = v.incr d in v.hset enqueued id now (v.zadd order seq id d')

  -- The end of enqueueScript, where `rank + 1` of no rank is a Lua error.
  unfoldable pub answer_rank : String → ℤ → Option ℕ → M DB Abort Reply
  answer_rank id now rank d =
      let d' = v.zadd seen now id d in
      elim rank [
        | none ↦ (d', error lua_error)
        | some r ↦
            (d', ok (four (pos 1) (pos (r + 1)) (pos (v.zcard order d')) (pos (v.zcard active d'))))
      ]

  -- enqueueScript
  unfoldable pub enqueue_script : String → ℤ → M DB Abort Reply
  unfolding queue_up answer_rank
  enqueue_script id now d = elim (v.zscore active id d) [
    | some _ ↦ (d, ok (four (pos 2) (pos 0) (pos (v.zcard order d)) (pos (v.zcard active d))))
    | none ↦ elim (v.zrank order id d) [
      | some r ↦ answer_rank id now (some r) d
      | none ↦ let d' = queue_up id now d in answer_rank id now (v.zrank order id d') d'
    ]
  ]

  -- lookupScript
  unfoldable pub lookup_script : String → ℤ → M DB Abort Reply
  lookup_script id now d =
      let qlen = pos (v.zcard order d) in
      let act = pos (v.zcard active d) in
      elim (v.zscore active id d) [
        | some _ ↦ (v.zadd active now id d, ok (four (pos 2) (pos 0) qlen act))
        | none ↦ elim (v.zrank order id d) [
          | some r ↦ (v.zadd seen now id d, ok (four (pos 1) (pos (r + 1)) qlen act))
          | none ↦ (d, ok (four (pos 0) (pos 0) qlen act))
        ]
      ]

  -- touchScript
  unfoldable pub touch_script : String → ℤ → M DB Abort Reply
  touch_script id now d = elim (v.zscore active id d) [
    | some _ ↦ (v.zadd active now id d, ok (int (pos 1)))
    | none ↦ (d, ok (int (pos 0)))
  ]

  module _ (fl : Floats F) where
    -- The average after a session of `dur` seconds, where `0.2` and `0.8` are those of `ema`.
    unfoldable pub next_avg : F → DB → Bytes
    unfolding ema
    next_avg dur d = v.tostring (elim (v.get avg d) [
      | none ↦ dur
      | some s ↦ elim (v.tonumber s) [ none ↦ dur | some a ↦ ema fl a dur ]
    ])

    -- The body of the first loop of reconcileScript. Arithmetic on a missing score is a Lua error.
    unfoldable pub expire_one : String → M DB Abort (Unit {0})
    unfolding next_avg
    expire_one id d = elim (v.zscore active id d) [
      | none ↦ (d, error lua_error)
      | some last_seen ↦
          let admitted_at = or_else last_seen (v.hget admitted id d) in
          let dur = fl.thousandth (fl.of_int64 (last_seen -ℤ admitted_at)) in
          (v.hdel admitted id (v.zrem active id (v.set avg (next_avg dur d) d)), ok tt)
    ]

    unfoldable pub expire : List String → M DB Abort (Unit {0})
    unfolding expire_one
    expire [] d = (d, ok tt)
    expire (id ∷ ids) d = (expire_one id >>= λ _. expire ids) d

  -- The second loop.
  unfoldable pub evict_one : String → DB → DB
  evict_one id d = v.hdel enqueued id (v.zrem seen id (v.zrem order id d))

  unfoldable pub evict : List String → DB → DB
  unfolding evict_one
  evict [] d = d
  evict (id ∷ ids) d = evict ids (evict_one id d)

  -- The writes of the third loop for the member that it has popped.
  unfoldable pub enter : ℤ → String → DB → DB
  enter now id d =
      v.hset admitted id now (v.zadd active now id (v.hdel enqueued id (v.zrem seen id d)))

  -- now - enq, before the entry is deleted
  unfoldable pub wait_of : ℤ → String → DB → ℤ
  wait_of now id d = now -ℤ or_else now (v.hget enqueued id (v.zrem seen id d))

  -- The third loop, with the waits that it collects; `none` where the fuel runs out.
  unfoldable pub promote : ℕ → ℤ → ℤ → DB → Option (DB × List ℤ)
  unfolding enter wait_of
  promote zero cap now d = none
  promote (suc fuel) cap now d =
      let popped = v.zpopmin order d in
      elim (ltb_ℤ (pos (v.zcard active d)) cap) [
        | false ↦ some (d, [])
        | true ↦ elim popped.1 [
          | none ↦ some (popped.0, [])
          | some id ↦ elim (promote fuel cap now (enter now id popped.0)) [
            | none ↦ none
            | some (d', waited) ↦ some (d', wait_of now id popped.0 ∷ waited)
          ]
        ]
      ]

  -- The second and third loops: each round of the third pops a member or is the last.
  unfoldable pub serve : ℤ → ℤ → ℤ → List String → M DB Abort Reply
  unfolding evict promote
  serve cap queue_ttl now expired d =
      let ghosts = v.zbelow seen (now -ℤ queue_ttl) d in
      let d' = evict ghosts d in
      elim (promote (v.zcard order d' + 1) cap now d') [
        | none ↦ (d', error lua_error)
        | some (d'', waited) ↦ (d'', ok (summary waited expired ghosts))
      ]

  -- reconcileScript
  unfoldable pub reconcile_script : Floats F → ℤ → ℤ → ℤ → ℤ → M DB Abort Reply
  unfolding expire serve
  reconcile_script fl cap active_ttl queue_ttl now d =
      let expired = v.zbelow active (now -ℤ active_ttl) d in
      (expire fl expired >>= λ _. serve cap queue_ttl now expired) d

  -- flushScript
  unfoldable pub flush_script : M DB Abort Reply
  flush_script d =
      (v.del_hash enqueued (v.del_set seen (v.del_set order d)), ok (int (pos (v.zcard order d))))

  -- statsScript
  unfoldable pub stats_script : M DB Abort Reply
  stats_script d = (
    d,
    ok (
        array (
          cons (int (pos (v.zcard order d)))
            (cons (int (pos (v.zcard active d))) (cons (text (or_else [] (v.get avg d))) nil)))),
  )
