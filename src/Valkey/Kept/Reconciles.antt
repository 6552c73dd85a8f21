-- ===== src/Valkey/Kept/Reconciles.antt =====
-- Reconcile, Stats and GetCapacity of internal/store/valkeystore/valkeystore.go, for a client that reaches its
-- server.
use gowait.Prelude.{
  ℕ, ◌≡◌, refl, ap, ◌∙◌, none, some, List, [], ℤ, pos, ◌+ℤ◌, ◌-ℤ◌, ◌≤ℤ◌, length, length-map, arith,
}
use gowait.Results.{ok, ◌>>=◌, pure}
use gowait.Clock.{Time, Duration, Floats}
use gowait.Store.{Stats}
use gowait.Store.Promises.{Answers}
use gowait.Valkey.SortedSets.{below}
use gowait.Valkey.Server.{
  Commands, Laws, Client, Reliable, int, text, null, cons, nil, seen, order, active, enqueued, avg,
  capacity,
}
use gowait.Valkey.Scripts.{or_else, summarised, reconcile_script, stats_script}
use gowait.Valkey.Methods.{
  get_reply, value, result_of, stats_of, read_avg, unix_milli, milliseconds, reconcile, stats,
  get_capacity,
}
use gowait.Valkey.Reading.{array_then, value_then, outcome, result_of_ok, in_seconds}
use gowait.Valkey.Effects.{IsSoundAt, view_at, IsSame}
use gowait.Valkey.Outcome.{IsRound, reconcile_script_lem}

module _ {DB E F : Type 0} (v : Commands DB F) (laws : Laws v) (cl : Client DB E)
    (rel : Reliable cl) where
  -- On a sound database and with a client that reaches its server, Reconcile answers without an
  -- error the numbers of promoted, expired and evicted tickets and the waits in seconds, each the
  -- time since the enqueueing of a promoted ticket, in order, or 0 where that was not kept. The
  -- expired are the sessions whose last stamp is older than the active TTL, the evicted the
  -- members of `seen` whose stamp is older than the queue TTL. The promoted are the head of the
  -- line that is left, in order, as many as there are waits. The sessions are then those before,
  -- less the expired, with the promoted entered in order at this time.
  -- Promotion goes on until the room is full or the line is empty, and never past the capacity,
  -- and the database stays sound.
  pub reconcile_answers :
      (fl : Floats F) (n : ℕ) (d : DB) (limit : ℤ) (active_ttl queue_ttl : Duration) (now : Time)
      → IsSoundAt n (v.contents d)
      → let expired =
          below (unix_milli now -ℤ milliseconds active_ttl) ((v.contents d).sorted active) in
        let ghosts =
          below (unix_milli now -ℤ milliseconds queue_ttl) ((v.contents d).sorted seen) in
        (d' : DB) × (waited : List ℤ) × (reconcile fl v cl limit active_ttl queue_ttl now d ≡ (
          d',
          ok (
              outcome
                (pos (length waited))
                (pos (length expired))
                (pos (length ghosts))
                (in_seconds fl waited)),
        ))
        × IsRound n limit
            (unix_milli now)
            (λ i. v.hget enqueued i d)
            expired
            ghosts
            waited
            (v.contents d)
            (v.contents d')
  unfolding reconcile
  reconcile_answers fl n d limit active_ttl queue_ttl now s =
      let m =
        reconcile_script v fl limit (milliseconds active_ttl) (milliseconds queue_ttl)
          (unix_milli now) in
      let expired =
        below (unix_milli now -ℤ milliseconds active_ttl) ((v.contents d).sorted active) in
      let ghosts = below (unix_milli now -ℤ milliseconds queue_ttl) ((v.contents d).sorted seen) in
      let (d', waited, e, r) =
        reconcile_script_lem v laws fl n limit (milliseconds active_ttl) (milliseconds queue_ttl)
          (unix_milli now) d s in
      let rs = summarised waited expired ghosts in
      (
        d',
        waited,
        array_then cl rel m (result_of fl cl) d rs (ap (λ x. x.1) e)
            ∙ ap (λ x. result_of fl cl rs x.0) e
            ∙ result_of_ok cl rel fl (pos (length waited)) (pos (length expired))
                (pos (length ghosts)) waited d',
        r,
      )

  pub reconcile_kept :
      (fl : Floats F) (n : ℕ) (d : DB) (limit : ℤ) (active_ttl queue_ttl : Duration) (now : Time)
      → IsSoundAt n (v.contents d)
      → Answers (reconcile fl v cl limit active_ttl queue_ttl now d) λ d' res.
        IsSoundAt n (v.contents d')
        × (pos 0 ≤ℤ res.expired)
        × (res.expired ≤ℤ (view_at (v.contents d)).active)
        × ((view_at (v.contents d')).active +ℤ res.expired
            ≡ (view_at (v.contents d)).active +ℤ pos (length res.waited_secs))
  reconcile_kept fl n d limit active_ttl queue_ttl now s =
      let (d', waited, e, r) = reconcile_answers fl n d limit active_ttl queue_ttl now s in
      let ended = r.ended in
      let balanced = r.balanced in
      rw e (
        outcome (pos (length waited))
            (pos (
              length
                (below (unix_milli now -ℤ milliseconds active_ttl) ((v.contents d).sorted active))))
            (pos (
              length
                (below (unix_milli now -ℤ milliseconds queue_ttl) ((v.contents d).sorted seen))))
            (in_seconds fl waited),
        refl,
        (
          r.sound,
          ground arith,
          ground (arith, ended),
          ground (arith, balanced, length-map (λ k. fl.thousandth (fl.of_int64 k)) waited),
        ),
      )

  stats_same : (fl : Floats F) (d : DB) → (stats fl v cl d).0 ≡ d
  unfolding stats stats_of stats_script
  stats_same fl d =
      let q = pos (v.zcard order d) in
      let a = pos (v.zcard active d) in
      let t = text (or_else [] (v.get avg d)) in
      let made : ℤ → ℤ → Stats F =
        λ x y. record { queue_length = x; active_count = y; avg_session_secs = read_avg fl cl t } in
      ap (λ r. r.0)
        (array_then cl rel (stats_script v) (stats_of fl cl) d
            (cons (int q) (cons (int a) (cons t nil))) refl
          ∙ value_then cl rel q (λ x. do y ← value cl (int a); pure (made x y)) d (d, ok (made q a))
              (value_then cl rel a (λ y. pure (made q y)) d (d, ok (made q a)) refl))

  capacity_same : (d : DB) → (get_capacity v cl d).0 ≡ d
  unfolding get_capacity
  capacity_same d =
      ap (λ r. r.0)
        (rel.exec_ok (get_reply v cl) d (elim (v.get capacity d) [ none ↦ null | some s ↦ text s ])
          refl)

  pub stats_kept :
      (fl : Floats F) (n : ℕ) (d : DB)
      → IsSoundAt n (v.contents d)
      → IsSame n (v.contents d) (v.contents (stats fl v cl d).0)
  stats_kept fl n d s = rw (stats_same fl d) (s, refl)

  pub capacity_kept :
      (n : ℕ) (d : DB)
      → IsSoundAt n (v.contents d)
      → IsSame n (v.contents d) (v.contents (get_capacity v cl d).0)
  capacity_kept n d s = rw (capacity_same d) (s, refl)
