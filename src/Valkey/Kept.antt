-- ===== src/Valkey/Kept.antt =====
-- The promises of the interface, for the store of internal/store/valkeystore/valkeystore.go with a
-- client that reaches its server.
pub mod Reconciles
use gowait.Prelude.{
  ℕ, suc, ◌+◌, ◌≡◌, refl, ap, sym, ◌∙◌, ◌⊎◌, inl, inr, String, true, false, none, some, List, [], ℤ,
  pos, ◌+ℤ◌, ◌-ℤ◌, ◌≤ℤ◌, eqb_ℤ, length, length-map, arith,
}
use gowait.Results.{ok, ◌>>=◌, pure}
use gowait.Clock.{Time, Duration, Floats}
use gowait.GoMap
use gowait.Store.{Status, Snapshot, Stats}
use gowait.Store.Promises.{Answers, Shows, IsPlaced, HasRoom}
use gowait.Valkey.SortedSets.{below, rank}
use gowait.Valkey.SortedSets.Placing.{rank-get_elem?, length-members}
use gowait.Valkey.Server.{
  Contents, Commands, Laws, Client, Reliable, int, text, null, cons, nil, seen, order, active, avg,
  capacity,
}
use gowait.Valkey.Scripts.{
  or_else, summarised, touch_script, lookup_script, try_admit_script, enqueue_script,
  reconcile_script, stats_script,
}
use gowait.Valkey.Methods.{
  get_reply, value, result_of, stats_of, read_avg, to_status, unix_milli, milliseconds, try_admit,
  enqueue, lookup, touch, reconcile, stats, get_capacity,
}
use gowait.Valkey.Reading.{
  is_one_ok, parse_snapshot_ok, array_then, value_then, outcome, result_of_ok, in_seconds,
}
use gowait.Valkey.Effects.{IsSoundAt, view_at, IsSame, Tells, touch_script_lem, lookup_script_lem}
use gowait.Valkey.Effects.Joining.{try_admit_script_lem, enqueue_script_lem}
use gowait.Valkey.Outcome.{IsRound, reconcile_script_lem}

-- A snapshot read from a reply that tells the place of a ticket.
abbrev told_as : ℤ → ℤ → ℤ → ℤ → Snapshot
told_as a b q e = record { status = to_status a; position = b; queue_length = q; active_count = e }

-- The place of a ticket with a rank.
ranked-IsPlaced :
    (c : Contents) (id : String) (b y : ℤ) (k : ℕ)
    → b ≡ pos (k + 1)
    → GoMap.lookup id (c.sorted active) ≡ none
    → GoMap.lookup id (c.sorted order) ≡ some y
    → rank id (c.sorted order) ≡ some k
    → IsPlaced (view_at c) id b
ranked-IsPlaced c id b y k e a o r =
    (k, rw (a, o) refl, rank-get_elem? id k (c.sorted order) r, e ∙ ap pos (omega arith))

Tells-Shows :
    (c : Contents) (id : String) (a b q e : ℤ)
    → Tells c id a b q e
    → Shows (view_at c) id (told_as a b q e)
Tells-Shows c id a b q e t = record {
  status = elim t.told [
    | inl (x, y, z) ↦ ap to_status x ∙ sym z
    | inr (inl (x, y, z)) ↦ ap to_status x ∙ sym z
    | inr (inr (x, (k, y, w, out, at, r))) ↦ ap to_status x ∙ rw (out, at) refl
  ];
  waiting = t.waiting ∙ ap pos (sym (length-members (c.sorted order)));
  active = t.running;
  place = elim t.told [
    | inl (x, y, z) ↦ inl (λ u. (let f : Status.active ≡ Status.queued = sym z ∙ u in cc), y)
    | inr (inl (x, y, z)) ↦ inl (λ u. (let f : Status.unknown ≡ Status.queued = sym z ∙ u in cc), y)
    | inr (inr (x, (k, y, w, out, at, r))) ↦ inr (ranked-IsPlaced c id b y k w out at r)
  ];
}

-- A ticket that the reply places.
Tells-IsPlaced :
    (c : Contents) (id : String) (b q e : ℤ) → Tells c id (pos 1) b q e → IsPlaced (view_at c) id b
Tells-IsPlaced c id b q e t = elim t.told [
  | inl (x, y, z) ↦ absurd (ground (arith, x))
  | inr (inl (x, y, z)) ↦ absurd (ground (arith, x))
  | inr (inr (x, (k, y, w, out, at, r))) ↦ ranked-IsPlaced c id b y k w out at r
]

module _ {DB E F : Type 0} (v : Commands DB F) (laws : Laws v) (cl : Client DB E)
    (rel : Reliable cl) where
  pub touch_kept :
      (n : ℕ) (d : DB) (id : String) (now : Time)
      → IsSoundAt n (v.contents d)
      → Answers (touch v cl id now d) λ d' seen. IsSame n (v.contents d) (v.contents d')
  unfolding touch
  touch_kept n d id now s =
      let (a, e, same) = touch_script_lem v laws n id (unix_milli now) d s in
      rw (is_one_ok cl rel (touch_script v id (unix_milli now)) d a e) (eqb_ℤ a (pos 1), refl, same)

  pub lookup_kept :
      (n : ℕ) (d : DB) (id : String) (now : Time)
      → IsSoundAt n (v.contents d)
      → Answers (lookup v cl id now d) λ d' snap.
        IsSoundAt n (v.contents d')
        × (view_at (v.contents d') ≡ view_at (v.contents d))
        × Shows (view_at (v.contents d)) id snap
  unfolding lookup
  lookup_kept n d id now s =
      let (a, b, q, e, f, same, tells) = lookup_script_lem v laws n id (unix_milli now) d s in
      rw (parse_snapshot_ok cl rel (lookup_script v id (unix_milli now)) d a b q e f)
        (told_as a b q e, refl, (same.0, same.1, Tells-Shows (v.contents d) id a b q e tells))

  -- On a sound database and with a client that reaches its server, TryAdmit of an unknown ticket
  -- answers without an error: true exactly where fewer sessions than the capacity run and nobody
  -- is in line, and then the ticket is active and counted; false changes nothing that is seen.
  pub admit_kept :
      (n : ℕ) (d : DB) (id : String) (limit : ℤ) (now : Time)
      → IsSoundAt n (v.contents d)
      → (view_at (v.contents d)).status id ≡ Status.unknown
      → Answers (try_admit v cl id limit now d) λ d' admitted.
        IsSoundAt n (v.contents d')
        × ((admitted ≡ true)
              × HasRoom (view_at (v.contents d)) limit
              × ((view_at (v.contents d')).status id ≡ Status.active)
              × ((view_at (v.contents d')).active ≡ (view_at (v.contents d)).active +ℤ pos 1)
            ⊎ (admitted ≡ false)
              × (¬ HasRoom (view_at (v.contents d)) limit)
              × (view_at (v.contents d') ≡ view_at (v.contents d)))
  unfolding try_admit
  admit_kept n d id limit now s u =
      let (a, e, s', cases) = try_admit_script_lem v laws n id limit (unix_milli now) d s u in
      rw (is_one_ok cl rel (try_admit_script v id limit (unix_milli now)) d a e) (
        eqb_ℤ a (pos 1),
        refl,
        (
          s',
          elim cases [
            | inl (x, y, z, w) ↦ inl (ap (λ k. eqb_ℤ k (pos 1)) x, y, z, w)
            | inr (x, y, z) ↦ inr (ap (λ k. eqb_ℤ k (pos 1)) x, y, z)
          ],
        ),
      )

  -- On a sound database whose counter is below 2^53 - 1, and with a client that reaches its
  -- server, Enqueue of an unknown ticket answers without an error a snapshot of the line and the
  -- room after it, in which the ticket is last in line, one place behind those that were there;
  -- no session begins or ends.
  pub enqueue_kept :
      (n : ℕ) (d : DB) (id : String) (now : Time)
      → IsSoundAt (suc n) (v.contents d)
      → (view_at (v.contents d)).status id ≡ Status.unknown
      → Answers (enqueue v cl id now d) λ d' snap.
        IsSoundAt n (v.contents d')
        × Shows (view_at (v.contents d')) id snap
        × IsPlaced (view_at (v.contents d')) id snap.position
        × (snap.position ≡ pos (suc (length (view_at (v.contents d)).line)))
        × ((view_at (v.contents d')).active ≡ (view_at (v.contents d)).active)
  unfolding enqueue
  enqueue_kept n d id now s u =
      let (q, e, f, s', tells, same) = enqueue_script_lem v laws n id (unix_milli now) d s u in
      let ord = (v.contents d).sorted order in
      let b = pos (length ord + 1) in
      let c' = v.contents (enqueue_script v id (unix_milli now) d).0 in
      rw (parse_snapshot_ok cl rel (enqueue_script v id (unix_milli now)) d (pos 1) b q e f) (
        told_as (pos 1) b q e,
        refl,
        (
          s',
          Tells-Shows c' id (pos 1) b q e tells,
          Tells-IsPlaced c' id b q e tells,
          ap pos (omega (arith, length-members ord)),
          same,
        ),
      )

pub nonneg_kept : (c : Contents) → pos 0 ≤ℤ (view_at c).active
nonneg_kept c = ground arith
