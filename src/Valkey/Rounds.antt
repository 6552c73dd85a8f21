-- ===== src/Valkey/Rounds.antt =====
-- reconcileScript of internal/store/valkeystore/valkeystore.go, loop by loop.
pub mod Waits
pub mod Promotion
use gowait.Prelude.{
  ℕ, zero, suc, ◌+◌, ◌<◌, ◌≡◌, refl, ap, sym, ◌∙◌, ◌⊎◌, inl, inr, String, true, false, none, some,
  List, [], ◌∷◌, ◌++◌, ℤ, pos, ◌-ℤ◌, ◌≤ℤ◌, ◌<ℤ◌, ltb_ℤ, length, arith, Bool-cases,
}
use gowait.Results.{ok, >>=-ok}
use gowait.Clock.{Floats}
use gowait.GoMap
use gowait.Valkey.SortedSets.{SortedSet, place, first, behind, members}
use gowait.Valkey.SortedSets.Placing.{length-place_new}
use gowait.Valkey.SortedSets.Removing.{removes, Listed, contains}
use gowait.Valkey.Server.{Contents, Commands, Laws, order, seen, active, admitted, enqueued, avg}
use gowait.Valkey.Scripts.{
  or_else, next_avg, expire_one, expire, evict_one, evict, enter, wait_of, promote,
}
use gowait.Valkey.Sound.{IsSound, promote-IsSound}
use gowait.Valkey.Effects.{IsSoundAt}

-- The sessions, the line and the counter.
abbrev pub Holds : Contents → SortedSet → SortedSet → ℤ → Type 0
Holds c act ord k = (c.sorted active ≡ act) × (c.sorted order ≡ ord) × (c.counter ≡ k)

pub sound_of :
    (n : ℕ) (c : Contents) (act ord : SortedSet) (k : ℤ)
    → Holds c act ord k
    → IsSound n act ord k
    → IsSoundAt n c
sound_of n c act ord k (a, o, e) s = rw (a, o, e) s

module _ {DB F : Type 0} (v : Commands DB F) (laws : Laws v) where
  module _ (fl : Floats F) where
    expire_one_lem :
        (id : String) (y : ℤ) (d : DB)
        → let c = v.contents d in
          GoMap.lookup id (c.sorted active) ≡ some y
          → (d' : DB) × (expire_one v fl id d ≡ (d', ok tt))
            × Holds (v.contents d') (GoMap.remove id (c.sorted active)) (c.sorted order) c.counter
            × ((v.contents d').sorted seen ≡ c.sorted seen)
            × ((j : String) → v.hget enqueued j d' ≡ v.hget enqueued j d)
    unfolding expire_one
    expire_one_lem id y d h =
        let dur = fl.thousandth (fl.of_int64 (y -ℤ or_else y (v.hget admitted id d))) in
        let d' = v.set avg (next_avg v fl dur d) d in
        rw (expire_one, laws.zscore_lem active id d ∙ h)
          (
            v.hdel admitted id (v.zrem active id d'),
            refl,
            rw
                (
                  laws.hdel_lem admitted id (v.zrem active id d'),
                  laws.zrem_lem active id d',
                  laws.set_lem avg (next_avg v fl dur d) d,
                )
                (refl, refl, refl),
            rw
                (
                  laws.hdel_lem admitted id (v.zrem active id d'),
                  laws.zrem_lem active id d',
                  laws.set_lem avg (next_avg v fl dur d) d,
                )
                refl,
            λ j.
                laws.hget-hdel j id (v.zrem active id d')
                ∙ laws.hget-zrem enqueued j active id d'
                ∙ laws.hget-set enqueued j avg (next_avg v fl dur d) d,
          )

    pub expire_lem :
        (ids : List String) (d : DB)
        → let c = v.contents d in
          Listed ids (c.sorted active)
          → (d' : DB) × (expire v fl ids d ≡ (d', ok tt))
            × Holds (v.contents d') (removes ids (c.sorted active)) (c.sorted order) c.counter
            × ((v.contents d').sorted seen ≡ c.sorted seen)
            × ((j : String) → v.hget enqueued j d' ≡ v.hget enqueued j d)
    unfolding expire removes
    expire_lem [] d listed = (d, refl, (refl, refl, refl), refl, λ j. refl)
    expire_lem (id ∷ ids) d ((y, h), listed) =
        let (d', e, (a, o, k), z, t) = expire_one_lem id y d h in
        let (d'', f, (a', o', k'), z', t') = expire_lem ids d' (rw a listed) in
        (
          d'',
          >>=-ok (expire_one v fl id) (λ _. expire v fl ids) d d' tt e ∙ f,
          (a' ∙ ap (removes ids) a, o' ∙ o, k' ∙ k),
          z' ∙ z,
          λ j. t' j ∙ t j,
        )

  pub evict_lem :
      (ids : List String) (d : DB)
      → let c = v.contents d in
        Holds
          (v.contents (evict v ids d))
          (c.sorted active)
          (removes ids (c.sorted order))
          c.counter
  unfolding evict removes
  evict_lem [] d = (refl, refl, refl)
  evict_lem (id ∷ ids) d =
      let (a, o, k) = evict_lem ids (evict_one v id d) in
      let d1 = v.zrem order id d in
      let e = laws.hdel_lem enqueued id (v.zrem seen id d1) ∙ laws.zrem_lem seen id d1 in
      let f = laws.zrem_lem order id d in
      (
        a ∙ ap (λ c. c.sorted active) e ∙ ap (λ c. c.sorted active) f,
        o ∙ ap (λ c. removes ids (c.sorted order)) e ∙ ap (λ c. removes ids (c.sorted order)) f,
        k ∙ ap (λ c. c.counter) e ∙ ap (λ c. c.counter) f,
      )

  -- Who is not evicted keeps the time of enqueueing.
  pub evict_since :
      (ids : List String) (d : DB) (j : String)
      → contains j ids ≡ false
      → v.hget enqueued j (evict v ids d) ≡ v.hget enqueued j d
  unfolding evict contains
  evict_since [] d j h = refl
  evict_since (id ∷ ids) d j h =
      let d1 = v.zrem order id d in
      let d2 = v.zrem seen id d1 in
      evict_since ids (evict_one v id d) j (ground (arith, h))
      ∙ laws.hget-hdel_other j id d2 (ground (arith, h))
      ∙ laws.hget-zrem enqueued j seen id d1
      ∙ laws.hget-zrem enqueued j order id d
