-- ===== src/Valkey/Effects.antt =====
-- What the scripts of internal/store/valkeystore/valkeystore.go do to the tickets of a database.
pub mod Joining
use gowait.Prelude.{
  All, str_eq_refl, ℕ, suc, ◌+◌, ◌==◌, ◌&&◌, ◌≡◌, refl, ap, sym, ◌∙◌, ◌⊎◌, inl, inr, String, true,
  false, Option, none, some, [], ◌∷◌, ℤ, pos, ◌+ℤ◌, ◌≤ℤ◌, ltb_ℤ, length, arith, Bool-cases,
  Option-cases,
}
use gowait.Results.{ok}
use gowait.GoMap
use gowait.Store.{Status}
use gowait.Store.Promises.{View, HasRoom}
use gowait.Valkey.SortedSets.{SortedSet, place, rank}
use gowait.Valkey.SortedSets.Placing.{lookup-place, place_last, rank-last, rank-lookup, rank_absent}
use gowait.Valkey.Server.{
  Contents, Commands, Laws, int, order, seen, active, admitted, enqueued, with_set,
}
use gowait.Valkey.Scripts.{
  four, try_admit_script, queue_up, answer_rank, enqueue_script, lookup_script, touch_script,
}
use gowait.Valkey.Sound.{
  status_in, view_of, IsSound, place-IsSound, active_out, touch_view, enter_view, join-IsSound,
  reached_step,
}

abbrev pub IsSoundAt : ℕ → Contents → Type 0
IsSoundAt n c = IsSound n (c.sorted active) (c.sorted order) c.counter

abbrev pub view_at : Contents → View
view_at c = view_of (c.sorted active) (c.sorted order)

-- Sound, and seen as before.
abbrev pub IsSame : ℕ → Contents → Contents → Type 0
IsSame n c c' = IsSoundAt n c' × (view_at c' ≡ view_at c)

-- What a reply of four says.
pub record Tells (c : Contents) (id : String) (a b q e : ℤ) : Type 0 where
  pub waiting : q ≡ pos (length (c.sorted order))
  pub running : e ≡ pos (length (c.sorted active))
  pub told :
      (a ≡ pos 2) × (b ≡ pos 0) × ((view_at c).status id ≡ Status.active)
      ⊎ (a ≡ pos 0) × (b ≡ pos 0) × ((view_at c).status id ≡ Status.unknown)
      ⊎ (a ≡ pos 1)
        × ((k : ℕ) × (y : ℤ) × (b ≡ pos (k + 1))
            × (GoMap.lookup id (c.sorted active) ≡ none)
            × (GoMap.lookup id (c.sorted order) ≡ some y)
            × (rank id (c.sorted order) ≡ some k))

module _ {DB F : Type 0} (v : Commands DB F) (laws : Laws v) where
  pub see_seen :
      (n : ℕ) (id : String) (now : ℤ) (d : DB)
      → IsSoundAt n (v.contents d)
      → IsSame n (v.contents d) (v.contents (v.zadd seen now id d))
  see_seen n id now d s = rw (laws.zadd_lem seen now id d) (s, refl)

  pub see_active :
      (n : ℕ) (id : String) (now y : ℤ) (d : DB)
      → IsSoundAt n (v.contents d)
      → v.zscore active id d ≡ some y
      → IsSame n (v.contents d) (v.contents (v.zadd active now id d))
  see_active n id now y d s h =
      let c = v.contents d in
      let h' = sym (laws.zscore_lem active id d) ∙ h in
      rw (laws.zadd_lem active now id d) (
        place-IsSound n (c.sorted active) (c.sorted order) c.counter s now id
            (active_out n (c.sorted active) (c.sorted order) c.counter s y id h'),
        touch_view n (c.sorted active) (c.sorted order) c.counter s now y id h',
      )

  -- A touch changes nothing that is seen.
  pub touch_script_lem :
      (n : ℕ) (id : String) (now : ℤ) (d : DB)
      → IsSoundAt n (v.contents d)
      → (a : ℤ) × ((touch_script v id now d).1 ≡ ok (int a))
        × IsSame n (v.contents d) (v.contents (touch_script v id now d).0)
  unfolding touch_script
  touch_script_lem n id now d s = elim (Option-cases (v.zscore active id d)) [
    | inl h ↦ rw (touch_script, h) (pos 0, refl, (s, refl))
    | inr (y, h) ↦ rw (touch_script, h) (pos 1, refl, see_active n id now y d s h)
  ]

  pub lookup_script_lem :
      (n : ℕ) (id : String) (now : ℤ) (d : DB)
      → IsSoundAt n (v.contents d)
      → (a : ℤ) × (b : ℤ) × (q : ℤ) × (e : ℤ) × ((lookup_script v id now d).1 ≡ ok (four a b q e))
        × IsSame n (v.contents d) (v.contents (lookup_script v id now d).0)
        × Tells (v.contents d) id a b q e
  unfolding lookup_script
  lookup_script_lem n id now d s =
      let qs = ap pos (laws.zcard_lem order d) in
      let es = ap pos (laws.zcard_lem active d) in
      let sc = laws.zscore_lem active id d in
      let rk = laws.zrank_lem order id d in
      elim (Option-cases (v.zscore active id d)) [
        | inr (y, h) ↦
            rw (lookup_script, h)
              (
                pos 2,
                pos 0,
                pos (v.zcard order d),
                pos (v.zcard active d),
                refl,
                see_active n id now y d s h,
                record {
                  waiting = qs;
                  running = es;
                  told = inl (refl, refl, rw (sym sc ∙ h) refl);
                },
              )
        | inl h ↦ elim (rank-lookup id ((v.contents d).sorted order)) [
          | inl (r, o) ↦
              rw (lookup_script, h, rk ∙ r)
                (
                  pos 0,
                  pos 0,
                  pos (v.zcard order d),
                  pos (v.zcard active d),
                  refl,
                  (s, refl),
                  record {
                    waiting = qs;
                    running = es;
                    told = inr (inl (refl, refl, rw (sym sc ∙ h, o) refl));
                  },
                )
          | inr (k, y, r, o) ↦
              rw (lookup_script, h, rk ∙ r)
                (
                  pos 1,
                  pos (k + 1),
                  pos (v.zcard order d),
                  pos (v.zcard active d),
                  refl,
                  see_seen n id now d s,
                  record {
                    waiting = qs;
                    running = es;
                    told = inr (inr (refl, (k, y, refl, sym sc ∙ h, o, r)));
                  },
                )
        ]
      ]
