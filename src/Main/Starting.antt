-- ===== src/Main/Starting.antt =====
-- What a start gives.
use gowait.Prelude.{
  ℕ, ◌+◌, ◌<◌, ◌^◌, ◌≡◌, refl, sym, ap, ◌∙◌, ◌⊎◌, subst, inl, inr, String, Bool, Option, some, List,
  pos, ◌≤ℤ◌, length, arith, str_eq, str_eq-cases, Option-cases, Bool-cases, pos_part,
}
use gowait.Results.{ok, error, Result-cases}
use gowait.Clock.{Floats}
use gowait.Metrics
use gowait.Metrics.{Registry}
use gowait.Store.Dynamic
use gowait.Store.Dynamic.{memory, valkey}
use gowait.Memory.State
use gowait.Memory.Kept
use gowait.Memory.Invariant.Methods.{new-IsWellFormed}
use gowait.Valkey.Server.{Commands, Laws, Client, Reliable}
use gowait.Valkey.Promised
use gowait.Valkey.Effects.{IsSoundAt, view_at}
use gowait.Queue.Serving.{IsServing, IsBalanced}
use gowait.Prober
use gowait.Prober.Steps.{IsSane}
use gowait.Ticket.{Bytes}
use gowait.Ticket.Signer.{new_signer}
use gowait.Waitpage.{Templates}
use gowait.Proxy.{HttpUtil}
use gowait.Config.{Config}
use gowait.Config.Flags.{Environment}
use gowait.Config.Load.{load}
use gowait.Config.Loading.{load-IsSane}
use gowait.Server.New
use gowait.Server.New.{Server}
use gowait.Main.{
  AnyStore, Process, Event, ops, cookie_secret, queue_config, prober_config, open_store,
  new_controller, assemble, start, run, steps,
}
use gowait.Main.Running.{promises, IsRunning, steps-IsRunning}

module _ {F DB : Type 0} (fl : Floats F) (connect : String → String → Option DB) where
  -- The store that a process opens is new, or the one that it connects to.
  open_store_cases :
      (c : Config) (st : AnyStore F DB)
      → open_store fl connect c ≡ some st
      → (st ≡ memory (State.new fl.zero_value))
        ⊎ ((d : DB) × (connect c.valkey_url c.valkey_prefix ≡ some d) × (st ≡ valkey d))
  unfolding open_store
  open_store_cases c st h = elim (Bool-cases (str_eq c.store "valkey")) [
    | inr b ↦ inl (let x = rw (b, open_store) at h in cc)
    | inl b ↦ elim (Option-cases (connect c.valkey_url c.valkey_prefix)) [
      | inl e ↦ absurd (let x = rw (b, e, open_store) at h in cc)
      | inr (d, e) ↦ inr (d, e, (let x = rw (b, e, open_store) at h in cc))
    ]
  ]

module _ {F DB R H T : Type 0} (fl : Floats F) (connect : String → String → Option DB)
    (u : HttpUtil R H) (ts : Templates T Bytes) where
  assemble_ok :
      (c : Config) (secret : Bytes) (st : AnyStore F DB) (p : Process F DB R H)
      → assemble fl connect u ts c secret st ≡ ok p
      → (p.ctrl ≡ new_controller fl connect c st)
        × (p.prober ≡ prober_config c)
        × (p.successes ≡ pos 0)
  unfolding assemble
  assemble_ok c secret st p h = elim (Result-cases (New.new u ts c (new_signer secret))) [
    | inr (e, f) ↦ absurd (let x = rw (f, assemble) at h in cc)
    | inl (srv, f) ↦
        let x = rw (f, assemble) at h in
        (
          sym (ap (λ r. elim r [ ok q ↦ q.ctrl | error e ↦ p.ctrl ]) x),
          sym (ap (λ r. elim r [ ok q ↦ q.prober | error e ↦ p.prober ]) x),
          sym (ap (λ r. elim r [ ok q ↦ q.successes | error e ↦ p.successes ]) x),
        )
  ]

  -- The parts of a process that has started.
  start_ok :
      (rand : ℕ → Option Bytes) (c : Config) (p : Process F DB R H)
      → start fl connect u ts rand c ≡ ok p
      → (st : AnyStore F DB) × (open_store fl connect c ≡ some st)
        × (p.ctrl ≡ new_controller fl connect c st)
        × (p.prober ≡ prober_config c)
        × (p.successes ≡ pos 0)
  unfolding start
  start_ok rand c p h = elim (Option-cases (cookie_secret rand c)) [
    | inl e ↦ absurd (let x = rw (e, start) at h in cc)
    | inr (secret, e) ↦ elim (Option-cases (open_store fl connect c)) [
      | inl f ↦ absurd (let x = rw (e, f, start) at h in cc)
      | inr (st, f) ↦
          let (ctrl, prober, streak) = assemble_ok c secret st p (rw (e, f, start) at h) in
          (st, f, ctrl, prober, streak)
    ]
  ]

  run_ok :
      (is_absolute : String → Bool) (env : Environment) (rand : ℕ → Option Bytes)
      (args : List String) (p : Process F DB R H)
      → run fl connect u ts is_absolute env rand args ≡ ok p
      → (c : Config) × (load is_absolute env args ≡ ok c) × (start fl connect u ts rand c ≡ ok p)
  unfolding run
  run_ok is_absolute env rand args p h = elim (Result-cases (load is_absolute env args)) [
    | inr (x, e) ↦ absurd (let y = rw (e, run) at h in cc)
    | inl (c, e) ↦ (c, e, rw (e, run) at h)
  ]

-- No one's session counts before there are admissions.
new-IsBalanced : {F : Type 0} (fl : Floats F) (k : ℕ) → k ≡ 0 → IsBalanced (some (Metrics.new fl)) k
new-IsBalanced fl k e = rw e refl

module _ {F DB E : Type 0} (fl : Floats F) (walk : State.Store F → List String) (v : Commands DB F)
    (laws : Laws v) (cl : Client DB E) (rel : Reliable cl) where
  new_controller-IsServing :
      (connect : String → String → Option DB) (n : ℕ) (c : Config) (st : AnyStore F DB)
      → pos 1 ≤ℤ c.capacity
      → (promises fl walk v laws cl rel).IsValid n st
      → ((promises fl walk v laws cl rel).view st).active ≡ pos 0
      → IsServing fl
          (ops fl walk v cl)
          (promises fl walk v laws cl rel)
          n
          (new_controller fl connect c st)
  unfolding new_controller queue_config
  new_controller-IsServing connect n c st h valid empty = elim (Bool-cases c.metrics) [
    | inl on ↦
        rw (on, new_controller)
          (record {
            valid = valid;
            capacity = h;
            configured = h;
            balanced = new-IsBalanced fl _ (ap pos_part empty);
          })
    | inr off ↦
        rw (off, new_controller)
          (record { valid = valid; capacity = h; configured = h; balanced = tt })
  ]

  -- A database without sessions, with room for `n` tickets.
  abbrev pub IsFresh : ℕ → DB → Type 0
  IsFresh n d = IsSoundAt n (v.contents d) × ((view_at (v.contents d)).active ≡ pos 0)

  -- Whatever store is opened, it has no session yet and room for `n` tickets.
  opened-IsValid :
      (connect : String → String → Option DB) (n : ℕ) (c : Config) (st : AnyStore F DB)
      → n < 2 ^ 63
      → ((url prefix : String) (d : DB) → connect url prefix ≡ some d → IsFresh n d)
      → open_store fl connect c ≡ some st
      → (promises fl walk v laws cl rel).IsValid n st
        × (((promises fl walk v laws cl rel).view st).active ≡ pos 0)
  unfolding Dynamic.kept Kept.kept Promised.kept State.new
  opened-IsValid connect n c st room fresh h = elim (open_store_cases fl connect c st h) [
    | inl e ↦ rw e ((new-IsWellFormed fl.zero_value, omega arith), refl)
    | inr (d, joined, e) ↦ rw e (fresh c.valkey_url c.valkey_prefix d joined)
  ]

  prober_config-IsSane :
      (c : Config) (cfg : Prober.Config)
      → (c.probe_url ≡ "") ⊎ IsSane (record { min = c.probe_min; max = c.probe_max })
      → prober_config c ≡ some cfg
      → IsSane cfg
  unfolding prober_config
  prober_config-IsSane c cfg way h = elim (str_eq-cases c.probe_url "") [
    | inl (b, e) ↦ absurd (let x = rw (b, prober_config) at h in cc)
    | inr (b, n) ↦ elim way [
      | inl e ↦ absurd (n e)
      | inr sane ↦
          let x = rw (b, prober_config) at h in
          let made : record { min = c.probe_min; max = c.probe_max } ≡ cfg = cc in
          subst IsSane made sane
    ]
  ]

  module _ {R H T : Type 0} (connect : String → String → Option DB) (u : HttpUtil R H)
      (ts : Templates T Bytes) (hmac : Bytes → Bytes → Bytes) (as_string : Bytes → String) where
    pub started-IsRunning :
        (n : ℕ) (is_absolute : String → Bool) (env : Environment) (rand : ℕ → Option Bytes)
        (args : List String) (p : Process F DB R H)
        → n < 2 ^ 63
        → ((url prefix : String) (d : DB) → connect url prefix ≡ some d → IsFresh n d)
        → run fl connect u ts is_absolute env rand args ≡ ok p
        → IsRunning fl walk v laws cl rel hmac as_string n p
    started-IsRunning n is_absolute env rand args p room fresh h =
        let (c, loaded, begun) = run_ok fl connect u ts is_absolute env rand args p h in
        let (capacity, spoken, way) = load-IsSane is_absolute env args c loaded in
        let (st, opened, ctrl, prober, streak) = start_ok fl connect u ts rand c p begun in
        let (valid, empty) = opened-IsValid connect n c st room fresh opened in
        record {
          serving = rw ctrl (new_controller-IsServing connect n c st capacity valid empty);
          counting = rw streak (omega arith);
          sane = λ cfg e. prober_config-IsSane c cfg way (sym prober ∙ e);
        }

    -- Let `run` start a process over either store, where the client of Valkey reaches its server
    -- and every store there that is reached is sound, without sessions, and has room below 2^53
    -- for as many tickets as there are events, which are fewer than 2^63. After any sequence of
    -- the controller's start, requests to any path, ticks of the janitor and ticks of the prober:
    -- the store is well-
    -- formed or sound, the capacity and the configured one are positive, the admissions counted
    -- are the expirations counted and the active sessions of the store, modulo 2^64, the prober's
    -- bounds are sane, and its streak is below three.
    pub run-IsRunning :
        (is_absolute : String → Bool) (env : Environment) (rand : ℕ → Option Bytes)
        (args : List String) (p : Process F DB R H) (es : List Event)
        → length es < 2 ^ 63
        → ((url prefix : String) (d : DB) → connect url prefix ≡ some d → IsFresh (length es) d)
        → run fl connect u ts is_absolute env rand args ≡ ok p
        → IsRunning fl walk v laws cl rel hmac as_string 0 (steps fl walk v cl hmac as_string p es)
    run-IsRunning is_absolute env rand args p es room fresh h =
        steps-IsRunning fl walk v laws cl rel hmac as_string 0 es p (
          started-IsRunning (length es + 0) is_absolute env rand args p (omega arith)
            (λ url prefix d e. subst (λ n. IsFresh n d) (omega arith) (fresh url prefix d e)) h)
