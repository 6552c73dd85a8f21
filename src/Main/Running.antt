-- ===== src/Main/Running.antt =====
-- What a running process keeps.
use gowait.Prelude.{
  arith, ℕ, suc, ◌+◌, ◌≡◌, refl, sym, ap, ◌∙◌, ◌⊎◌, subst, inl, inr, String, Bool, Option, none,
  some, List, [], ◌∷◌, ℤ, pos, ◌≤ℤ◌, ◌<ℤ◌, length, Option-cases,
}
use gowait.Results.{Result}
use gowait.Clock.{Duration, Floats}
use gowait.Store.Promises.{Promises}
use gowait.Store.Dynamic
use gowait.Store.Dynamic.{memory, valkey}
use gowait.Memory.State
use gowait.Memory.Instance
use gowait.Memory.Kept
use gowait.Valkey.Server.{Commands, Laws, Client, Reliable}
use gowait.Valkey.Methods
use gowait.Valkey.Methods.{try_lock}
use gowait.Valkey.Promised
use gowait.Valkey.Capacity.{try_lock_kept}
use gowait.Queue.Controller.{Controller}
use gowait.Queue.Serving.{IsServing}
use gowait.Queue.Answers.{fewer}
use gowait.Queue.Tending.{swapped, set_capacity-IsServing}
use gowait.Queue.History.{refresh_capacity-IsServing, tick-IsServing}
use gowait.Prober
use gowait.Prober.{Prober}
use gowait.Prober.Steps.{IsSane, IsCounting, tick-IsMoved, tick_keeps}
use gowait.Prober.OnQueue.{queue_control}
use gowait.Ticket.{Bytes}
use gowait.Ticket.Signer
use gowait.Server.Tended.{serve-IsServing}
use gowait.Main.{
  AnyStore, Process, Event, begins, requests, ticks, probes, ops, probe_round, step, steps,
}

Store-cases :
    {S T : Type 0} (s : Dynamic.Store S T) → ((x : S) × (s ≡ memory x)) ⊎ ((d : T) × (s ≡ valkey d))
Store-cases (memory x) = inl (x, refl)
Store-cases (valkey d) = inr (d, refl)

module _ {F DB E : Type 0} (fl : Floats F) (walk : State.Store F → List String) (v : Commands DB F)
    (laws : Laws v) (cl : Client DB E) (rel : Reliable cl) where
  -- The promises of the store that the process has, of either type.
  abbrev pub promises : Promises (ops fl walk v cl)
  promises =
      Dynamic.kept (Instance.ops fl walk) (Methods.ops fl v cl) (Kept.kept fl walk)
        (Promised.kept v laws cl rel fl)

  abbrev IsServed : ℕ → Controller (AnyStore F DB) F → Type 0
  IsServed n c = IsServing fl (ops fl walk v cl) promises n c

  locked-IsServed :
      (n : ℕ) (interval : Duration) (c : Controller (AnyStore F DB) F) (d : DB)
      → c.store ≡ valkey d
      → IsServed n c
      → IsServed n (record c { store = valkey (try_lock v cl "prober" interval d).0 })
  unfolding Dynamic.kept Promised.kept
  locked-IsServed n interval c d e w =
      let valid : promises.IsValid n (valkey d) = subst (promises.IsValid n) e w.valid in
      let (a, f, (sound, same)) = try_lock_kept v laws cl rel n "prober" interval d valid in
      swapped fl (ops fl walk v cl) promises n c (valkey (try_lock v cl "prober" interval d).0) w
        sound (ap (λ u. u.active) same ∙ ap (λ s. (promises.view s).active) (sym e))

  -- One tick of the prober: the controller goes on serving, and the streak stays below three.
  probe_round-IsServed :
      (n : ℕ) (interval : Duration) (code : Option ℤ) (p : Prober (Controller (AnyStore F DB) F))
      → IsSane p.cfg
      → IsCounting (queue_control (ops fl walk v cl)) p
      → IsServed n p.ctrl
      → IsServed n (probe_round fl walk v cl interval code p).ctrl
        × IsCounting (queue_control (ops fl walk v cl)) (probe_round fl walk v cl interval code p)
  unfolding probe_round
  probe_round-IsServed n interval code p sane counting w =
      let k = queue_control (ops fl walk v cl) in
      let keeps : (m : ℤ) (c : Controller (AnyStore F DB) F)
          → IsServed n c
          → IsServed n (k.set_capacity m c).0 =
        λ m c. set_capacity-IsServing fl (ops fl walk v cl) promises n m c in
      elim (Store-cases p.ctrl.store) [
        | inl (s, e) ↦
            let unlocked : Option (Result (Methods.StoreError E) Bool) = none in
            rw (e, probe_round)
              (
                tick_keeps k (IsServed n) unlocked code p keeps w,
                (tick-IsMoved k unlocked code p sane counting).0,
              )
        | inr (d, e) ↦
            let (d', lock) = try_lock v cl "prober" interval d in
            let p' = record p { ctrl = record p.ctrl { store = valkey d' } } in
            rw (e, probe_round)
              (
                tick_keeps k (IsServed n) (some lock) code p' keeps
                    (locked-IsServed n interval p.ctrl d e w),
                (tick-IsMoved k (some lock) code p' sane counting).0,
              )
      ]

  module _ {R H : Type 0} (hmac : Bytes → Bytes → Bytes) (as_string : Bytes → String) where
    -- The store has room for `n` more tickets, the capacities are positive, the counters agree with
    -- the room, the prober's bounds are sane and its streak is below three.
    pub record IsRunning (n : ℕ) (p : Process F DB R H) : Type 0 where
      pub serving : IsServing fl (ops fl walk v cl) promises n p.ctrl
      pub counting : (pos 0 ≤ℤ p.successes) × (p.successes <ℤ pos 3)
      pub sane : (cfg : Prober.Config) → p.prober ≡ some cfg → IsSane cfg

    step-IsRunning :
        (n : ℕ) (p : Process F DB R H) (e : Event)
        → IsRunning (suc n) p
        → IsRunning n (step fl walk v cl hmac as_string p e)
    unfolding step
    step-IsRunning n p begins w = record {
      serving =
          fewer fl (ops fl walk v cl) promises n _
            (refresh_capacity-IsServing fl (ops fl walk v cl) promises (suc n) p.ctrl w.serving);
      counting = w.counting;
      sane = w.sane;
    }
    step-IsRunning n p (requests r m) w = record {
      serving =
          serve-IsServing fl (ops fl walk v cl) promises (Signer.mac hmac p.server.signer) as_string
            p.server.settings n r m p.ctrl w.serving;
      counting = w.counting;
      sane = w.sane;
    }
    step-IsRunning n p (ticks now) w = record {
      serving =
          fewer fl (ops fl walk v cl) promises n _
            (tick-IsServing fl (ops fl walk v cl) promises (suc n) now p.ctrl w.serving);
      counting = w.counting;
      sane = w.sane;
    }
    step-IsRunning n p (probes code) w = elim (Option-cases p.prober) [
      | inl e ↦
          rw (e, step)
            (record {
              serving = fewer fl (ops fl walk v cl) promises n p.ctrl w.serving;
              counting = w.counting;
              sane = w.sane;
            })
      | inr (cfg, e) ↦
          let (serving, counting) =
            probe_round-IsServed n p.probe_interval code
              (record { cfg = cfg; ctrl = p.ctrl; successes = p.successes }) (w.sane cfg e)
              w.counting (fewer fl (ops fl walk v cl) promises n p.ctrl w.serving) in
          rw (e, step) (record { serving = serving; counting = counting; sane = w.sane })
    ]

    pub steps-IsRunning :
        (k : ℕ) (es : List Event) (p : Process F DB R H)
        → IsRunning (length es + k) p
        → IsRunning k (steps fl walk v cl hmac as_string p es)
    unfolding steps
    steps-IsRunning k [] p w = subst (λ n. IsRunning n p) (omega arith) w
    steps-IsRunning k (e ∷ es) p w =
        steps-IsRunning k es (step fl walk v cl hmac as_string p e)
          (step-IsRunning (length es + k) p e (subst (λ n. IsRunning n p) (omega arith) w))

    -- Nothing changes the server's settings.
    step-server :
        (p : Process F DB R H) (e : Event)
        → (step fl walk v cl hmac as_string p e).server ≡ p.server
    unfolding step
    step-server p begins = refl
    step-server p (requests r m) = refl
    step-server p (ticks now) = refl
    step-server p (probes code) = elim (Option-cases p.prober) [
      | inl e ↦ rw (e, step) refl
      | inr (cfg, e) ↦ rw (e, step) refl
    ]

    pub steps-server :
        (es : List Event) (p : Process F DB R H)
        → (steps fl walk v cl hmac as_string p es).server ≡ p.server
    unfolding steps
    steps-server [] p = refl
    steps-server (e ∷ es) p =
        steps-server es (step fl walk v cl hmac as_string p e) ∙ step-server p e
