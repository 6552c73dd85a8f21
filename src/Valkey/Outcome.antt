-- ===== src/Valkey/Outcome.antt =====
-- What a round of reconcileScript in internal/store/valkeystore/valkeystore.go does and answers.
use gowait.Prelude.{
  ℕ, ◌+◌, ◌≤◌, ◌≡◌, refl, ap, sym, subst, ◌∙◌, ◌⊎◌, inl, inr, String, Option, false, Bool-cases,
  some, List, [], ◌++◌, ℤ, pos, ◌-ℤ◌, ◌≤ℤ◌, length, arith,
}
use gowait.Results.{Result, ok, >>=-ok}
use gowait.Clock.{Floats}
use gowait.GoMap
use gowait.Valkey.SortedSets.{SortedSet, below, members}
use gowait.Valkey.SortedSets.Removing.{
  removes, below-Listed, length-removes, contains, lookup-removes,
}
use gowait.Valkey.Server.{Contents, Commands, Laws, Reply, order, seen, active, enqueued, Abort}
use gowait.Valkey.Scripts.{expire, evict, promote, summary, serve, reconcile_script}
use gowait.Valkey.Sound.{expire-IsSound, evict-IsSound}
use gowait.Valkey.Effects.{IsSoundAt}
use gowait.Valkey.Rounds.{Holds, sound_of, expire_lem, evict_lem, evict_since}
use gowait.Valkey.Rounds.Waits.{waits_since, enters, waits_agree}
use gowait.Valkey.Rounds.Promotion.{Promoted, promote_lem}

-- A round that leaves `c'` of `c`: `gone` are the ids that it takes from the head of the line.
pub record IsRound (n : ℕ) (limit now : ℤ) (since : String → Option ℤ)
    (expired ghosts : List String) (waited : List ℤ) (c c' : Contents) : Type 0 where
  pub sound : IsSoundAt n c'
  pub ended : length expired ≤ length (c.sorted active)
  pub balanced :
      length (c'.sorted active) + length expired ≡ length (c.sorted active) + length waited
  pub gone : List String
  pub served : members (removes ghosts (c.sorted order)) ≡ gone ++ members (c'.sorted order)
  pub many : length gone ≡ length waited
  pub waits : waited ≡ waits_since now since gone
  pub began : c'.sorted active ≡ enters now gone (removes expired (c.sorted active))
  pub within : (waited ≡ []) ⊎ (pos (length (c'.sorted active)) ≤ℤ limit)
  pub full : (limit ≤ℤ pos (length (c'.sorted active))) ⊎ (c'.sorted order ≡ [])

module _ {DB F : Type 0} (v : Commands DB F) (laws : Laws v) where
  -- Who stays in line is not evicted.
  stays :
      (i : String) (y : ℤ) (is : List String) (l : SortedSet)
      → GoMap.lookup i (removes is l) ≡ some y
      → contains i is ≡ false
  stays i y is l e = elim (Bool-cases (contains i is)) [
    | inl b ↦ absurd (ground (arith, lookup-removes is i l, e, b))
    | inr b ↦ b
  ]

  serve_path :
      (limit queue_ttl now : ℤ) (expired ghosts : List String) (waited : List ℤ) (d d'' : DB)
      → v.zbelow seen (now -ℤ queue_ttl) d ≡ ghosts
      → (let d' = evict v ghosts d in
          promote v (v.zcard order d' + 1) limit now d' ≡ some (d'', waited))
      → serve v limit queue_ttl now expired d ≡ (d'', ok (summary waited expired ghosts))
  unfolding serve
  serve_path limit queue_ttl now expired ghosts waited d d'' b e = rw (serve, b, e, b) refl

  serve_lem :
      (n : ℕ) (limit queue_ttl now : ℤ) (expired : List String) (d : DB)
      → IsSoundAt n (v.contents d)
      → let ghosts = below (now -ℤ queue_ttl) ((v.contents d).sorted seen) in
        (d' : DB) × (d'' : DB) × (waited : List ℤ) × (serve v limit queue_ttl now expired d
          ≡ (d'', ok (summary waited expired ghosts)))
        × Holds
            (v.contents d')
            ((v.contents d).sorted active)
            (removes ghosts ((v.contents d).sorted order))
            (v.contents d).counter
        × ((i : String) → contains i ghosts ≡ false → v.hget enqueued i d' ≡ v.hget enqueued i d)
        × Promoted n limit now (λ i. v.hget enqueued i d') (v.contents d') (v.contents d'') waited
  unfolding serve
  serve_lem n limit queue_ttl now expired d s =
      let c = v.contents d in
      let ghosts = below (now -ℤ queue_ttl) (c.sorted seen) in
      let d' = evict v ghosts d in
      let h = evict_lem v laws ghosts d in
      let s' =
        sound_of n (v.contents d') (c.sorted active) (removes ghosts (c.sorted order)) c.counter h
          (evict-IsSound n (c.sorted active) (c.sorted order) c.counter s ghosts) in
      let (d'', waited, e, p) =
        promote_lem v laws (v.zcard order d' + 1) n limit now d'
          (omega (arith, laws.zcard_lem order d')) s' in
      (
        d',
        d'',
        waited,
        serve_path limit queue_ttl now expired ghosts waited d d''
            (laws.zbelow_lem seen (now -ℤ queue_ttl) d) e,
        h,
        evict_since v laws ghosts d,
        p,
      )

  reconcile_path :
      (fl : Floats F) (limit active_ttl queue_ttl now : ℤ) (expired : List String) (d d1 : DB)
      (r : DB × Result Abort Reply)
      → v.zbelow active (now -ℤ active_ttl) d ≡ expired
      → expire v fl expired d ≡ (d1, ok tt)
      → serve v limit queue_ttl now expired d1 ≡ r
      → reconcile_script v fl limit active_ttl queue_ttl now d ≡ r
  unfolding reconcile_script
  reconcile_path fl limit active_ttl queue_ttl now expired d d1 r b e f =
      rw (reconcile_script, b)
        (>>=-ok (expire v fl expired) (λ _. serve v limit queue_ttl now expired) d d1 tt e ∙ f)

  pub reconcile_script_lem :
      (fl : Floats F) (n : ℕ) (limit active_ttl queue_ttl now : ℤ) (d : DB)
      → IsSoundAt n (v.contents d)
      → let expired = below (now -ℤ active_ttl) ((v.contents d).sorted active) in
        let ghosts = below (now -ℤ queue_ttl) ((v.contents d).sorted seen) in
        (d' : DB) × (waited : List ℤ) × (reconcile_script v fl limit active_ttl queue_ttl now d
          ≡ (d', ok (summary waited expired ghosts)))
        × IsRound n limit now
            (λ i. v.hget enqueued i d)
            expired
            ghosts
            waited
            (v.contents d)
            (v.contents d')
  unfolding reconcile_script
  reconcile_script_lem fl n limit active_ttl queue_ttl now d s =
      let c = v.contents d in
      let act = c.sorted active in
      let expired = below (now -ℤ active_ttl) act in
      let listed = below-Listed (now -ℤ active_ttl) act s.active_distinct in
      let (d1, e, (a, o, k), z, t) = expire_lem v laws fl expired d listed in
      let s1 =
        sound_of n (v.contents d1) (removes expired act) (c.sorted order) c.counter (a, o, k)
          (expire-IsSound n act (c.sorted order) c.counter s expired) in
      let (d2, d', waited, f, (a', o', k'), t', p) =
        serve_lem n limit queue_ttl now expired d1 s1 in
      let left = length-removes expired act s.active_distinct listed in
      (
        d',
        waited,
        subst
            (λ x.
              reconcile_script v fl limit active_ttl queue_ttl now d
              ≡ (d', ok (summary waited expired (below (now -ℤ queue_ttl) x))))
            z
            (reconcile_path fl limit active_ttl queue_ttl now expired d d1
              (
                d',
                ok (
                    summary waited expired
                      (below (now -ℤ queue_ttl) ((v.contents d1).sorted seen))),
              )
              (laws.zbelow_lem active (now -ℤ active_ttl) d) e f),
        record {
          sound = p.sound;
          ended = omega (arith, left);
          balanced = omega (arith, left, p.grown, ap length a', ap length a);
          gone = p.gone;
          served =
              subst
                (λ x.
                  members (removes (below (now -ℤ queue_ttl) x) (c.sorted order))
                  ≡ p.gone ++ members ((v.contents d').sorted order))
                z
                (ap
                    (λ l.
                      members (removes (below (now -ℤ queue_ttl) ((v.contents d1).sorted seen)) l))
                    (sym o)
                  ∙ ap members (sym o')
                  ∙ p.served);
          many = p.many;
          waits =
              p.waits
              ∙ waits_agree now (λ i. v.hget enqueued i d2) (λ i. v.hget enqueued i d)
                  ((v.contents d2).sorted order) p.gone (members ((v.contents d').sorted order))
                  p.served
                  (λ i y at. t' i (stays i y _ _ (ap (GoMap.lookup i) (sym o') ∙ at)) ∙ t i);
          began = p.began ∙ ap (enters now p.gone) (a' ∙ a);
          within = p.within;
          full = p.full;
        },
      )
