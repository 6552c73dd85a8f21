-- ===== src/Valkey/Tests.antt =====
-- The store on a small database, with a client that reaches it.
pub mod Database
use gowait.Prelude.{
  ℕ, ◌≡◌, ◌≢◌, refl, ap, sym, subst, ◌⊎◌, inl, inr, String, Bool, true, false, Option, none, some,
  List, [], ◌∷◌, ◌++◌, ◌≤◌, ◌<◌, ◌+◌, ℤ, pos, ◌+ℤ◌, ◌-ℤ◌, ◌≤ℤ◌, length, arith, str_eq-cases,
}
use gowait.Results.{Result, ok, error, M}
use gowait.Clock.Exact.{exact}
use gowait.GoMap
use gowait.Store.{Status}
use gowait.Store.Promises.{Answers, Shows, HasRoom, IsPlaced}
use gowait.Valkey.SortedSets.{SortedSet, below}
use gowait.Valkey.Server.{enqueued, Contents, SetKey, order, seen, active, lock, capacity}
use gowait.Valkey.Scripts.{promote}
use gowait.Valkey.Methods.{
  ops, touch, stats, try_admit, enqueue, lookup, flush, set_capacity, get_capacity, try_lock,
  reconcile, unix_milli, milliseconds, client,
}
use gowait.Valkey.Connection
use gowait.Valkey.Connection.{key_name-injective}
use gowait.Server.Http.{bytes}
use gowait.Valkey.Tests.Database.{Db, commands, commands-laws, Fault, joined, joined-reaches, down}
use gowait.Valkey.Sound.{IsSound}
use gowait.Clock.{second}
use gowait.Queue.Controller.{Controller, new}
use gowait.Queue.Check.{check}
use gowait.Queue.Serving.{IsServing}
use gowait.Queue.Decides.{IsDecided}
use gowait.Queue.Answers.{check-IsDecided}
use gowait.Valkey.Promised.{kept}
use gowait.Valkey.Kept.{lookup_kept, admit_kept, enqueue_kept}
use gowait.Valkey.Kept.Reconciles.{reconcile_answers}
use gowait.Valkey.Rounds.Promotion.{Promoted, promote_lem}
use gowait.Valkey.Outcome.{IsRound}
use gowait.Valkey.Reading.{outcome, in_seconds}
use gowait.Valkey.Capacity.{get_capacity-set_capacity, try_lock-try_lock}
use gowait.Valkey.History.{
  Call, enqueue_call, try_admit_call, lookup_call, reconcile_call, flush_call, set_capacity_call,
  try_lock_call, run, run_held,
}
use gowait.Valkey.Errors.{Fails, lost_server}
use gowait.Valkey.Effects.{IsSoundAt, view_at}

abbrev sets : SetKey → SortedSet
sets active = ("a", pos 1767268800000) ∷ []
sets order = ("b", pos 1) ∷ ("c", pos 2) ∷ []
sets seen = ("b", pos 1767268800000) ∷ ("c", pos 1767268801000) ∷ []

-- One session, two in line.
abbrev room : Db
room = record {
  contents = record { sorted = sets; counter = pos 2 };
  hashes = λ k. [];
  texts = λ k. none;
}

room-IsSound : (n : ℕ) → n < 1000 → IsSoundAt n room.contents
unfolding GoMap.lookup
room-IsSound n h = record {
  active_distinct = (refl, tt);
  order_distinct = (refl, (refl, tt));
  apart = λ i. elim (str_eq-cases "a" i) [
    | inl (b, e) ↦ inr (subst (λ j. GoMap.lookup j (sets order) ≡ none) e refl)
    | inr (b, e) ↦ inl (rw b refl)
  ];
  reached = (omega arith, (omega arith, tt));
  start = omega arith;
  room = omega (arith, h);
}

-- 2026-01-01T12:00:05
abbrev noon : ℕ
noon = 63902865605000000000

abbrev minute : ℤ
minute = pos 60000000000

unknown_d : (view_at room.contents).status "d" ≡ Status.unknown
unfolding GoMap.lookup
unknown_d = refl

some_ttl : pos 1 ≤ℤ milliseconds minute
some_ttl = omega arith

valid : IsSoundAt 5 room.contents
valid = room-IsSound 5 (omega arith)

admit_kept_example : Answers (try_admit commands joined "d" (pos 9) noon room) λ d' admitted.
    IsSoundAt 5 d'.contents
    × ((admitted ≡ true)
          × HasRoom (view_at room.contents) (pos 9)
          × ((view_at d'.contents).status "d" ≡ Status.active)
          × ((view_at d'.contents).active ≡ (view_at room.contents).active +ℤ pos 1)
        ⊎ (admitted ≡ false)
          × (¬ HasRoom (view_at room.contents) (pos 9))
          × (view_at d'.contents ≡ view_at room.contents))
admit_kept_example =
    admit_kept commands commands-laws joined joined-reaches 5 room "d" (pos 9) noon valid unknown_d

enqueue_kept_example : Answers (enqueue commands joined "d" noon room) λ d' snap.
    IsSoundAt 4 d'.contents
    × Shows (view_at d'.contents) "d" snap
    × IsPlaced (view_at d'.contents) "d" snap.position
    × (snap.position ≡ pos 3)
    × ((view_at d'.contents).active ≡ pos 1)
enqueue_kept_example =
    enqueue_kept commands commands-laws joined joined-reaches 4 room "d" noon valid unknown_d

-- Nobody polled within the second before: a round ends the session, drops the first in line and serves the next.
reconcile_answers_example :
    let expired = below (unix_milli noon -ℤ milliseconds second) (sets active) in
    let ghosts = below (unix_milli noon -ℤ milliseconds (pos 4500000000)) (sets seen) in
    (d' : Db) × (waited : List ℤ) × (reconcile exact commands joined
        (pos 1)
        second
        (pos 4500000000)
        noon
        room
      ≡ (
        d',
        ok (
            outcome
              (pos (length waited))
              (pos (length expired))
              (pos (length ghosts))
              (in_seconds exact waited)),
      ))
    × IsRound 5
        (pos 1)
        (unix_milli noon)
        (λ i. commands.hget enqueued i room)
        expired
        ghosts
        waited
        room.contents
        d'.contents
reconcile_answers_example =
    reconcile_answers commands commands-laws joined joined-reaches exact 5 room (pos 1) second
      (pos 4500000000) noon valid

promote_lem_example :
    (d' : Db) × (waited : List ℤ) × (promote commands 3 (pos 2) (pos 1767268805000) room
      ≡ some (d', waited))
    × Promoted 5
        (pos 2)
        (pos 1767268805000)
        (λ i. commands.hget enqueued i room)
        room.contents
        d'.contents
        waited
promote_lem_example =
    promote_lem commands commands-laws 3 5 (pos 2) (pos 1767268805000) room (omega arith) valid

get_capacity-set_capacity_example :
    ((set_capacity commands joined (pos 250) room).1 ≡ ok tt)
    × ((get_capacity commands joined (set_capacity commands joined (pos 250) room).0).1
        ≡ ok (pos 250, true))
get_capacity-set_capacity_example =
    get_capacity-set_capacity commands commands-laws joined joined-reaches (pos 250) room
      (omega arith) (omega arith)

try_lock-try_lock_example :
    ((try_lock commands joined "probe" minute room).1 ≡ ok true)
    × ((try_lock commands joined "probe" minute (try_lock commands joined "probe" minute room).0).1
        ≡ ok false)
try_lock-try_lock_example =
    try_lock-try_lock commands commands-laws joined joined-reaches "probe" minute minute room
      some_ttl some_ttl refl

-- Calls of several replicas.
abbrev day : List Call
day =
    enqueue_call "d" noon
    ∷ try_admit_call "e" (pos 2) noon
    ∷ lookup_call "b" (noon + 1000000000)
    ∷ reconcile_call (pos 3) minute minute (noon + 2000000000)
    ∷ flush_call
    ∷ set_capacity_call (pos 2)
    ∷ try_lock_call "prober" minute
    ∷ []

run_held_example :
    IsSoundAt 5 (run exact commands joined day room).contents
    × (pos (length ((run exact commands joined day room).contents.sorted active)) ≤ℤ pos 3)
run_held_example =
    run_held exact commands joined commands-laws joined-reaches 5 (pos 3) day room
      (tt, (omega arith, (tt, (omega arith, (tt, (tt, (tt, tt))))))) (room-IsSound 12 (omega arith))
      (omega arith)

lost_server_example :
    Fails Fault.unreachable room (try_admit commands down "d" (pos 9) noon)
    × Fails Fault.unreachable room (enqueue commands down "d" noon)
    × Fails Fault.unreachable room (lookup commands down "d" noon)
    × Fails Fault.unreachable room (touch commands down "d" noon)
    × Fails Fault.unreachable room (reconcile exact commands down (pos 9) minute minute noon)
    × Fails Fault.unreachable room (stats exact commands down)
    × Fails Fault.unreachable room (flush commands down)
    × Fails Fault.unreachable room (set_capacity commands down (pos 9))
    × Fails Fault.unreachable room (get_capacity commands down)
    × Fails Fault.unreachable room (try_lock commands down "probe" minute)
lost_server_example =
    lost_server exact commands down Fault.unreachable room "d" "probe" (pos 9) minute minute noon
      (λ m. refl) refl

-- The controller of a replica, on the shared store.
abbrev replica : Controller Db ℤ
replica = new room (record {
  capacity = pos 2;
  active_ttl = minute;
  queue_ttl = pos 30000000000;
  min_reconcile_gap = pos 500000000;
  stats_cache_ttl = pos 3000000000;
})

replica-IsServing :
    IsServing exact
      (ops exact commands joined)
      (kept commands commands-laws joined joined-reaches exact)
      5
      replica
unfolding kept
replica-IsServing = record {
  valid = valid;
  capacity = omega arith;
  configured = omega arith;
  balanced = tt;
}

-- A ticket that is new to the room gets a decision.
check_shared : Answers (check exact (ops exact commands joined) "d" noon noon true replica) λ c' r.
    IsServing exact
      (ops exact commands joined)
      (kept commands commands-laws joined joined-reaches exact)
      4
      c'
    × IsDecided ((kept commands commands-laws joined joined-reaches exact).view c'.store) "d" r
check_shared =
    check-IsDecided exact (ops exact commands joined)
      (kept commands commands-laws joined joined-reaches exact) 4 "d" noon noon true replica
      replica-IsServing

key_name-injective_example :
    Connection.Key.lock (bytes "prober") ≡ Connection.Key.lock (bytes "prober")
key_name-injective_example =
    key_name-injective (bytes "gowait:") (Connection.Key.lock (bytes "prober"))
      (Connection.Key.lock (bytes "prober")) refl
