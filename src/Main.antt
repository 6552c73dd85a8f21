-- ===== src/Main.antt =====
-- run of cmd/gowait/main.go: a configuration becomes a process, whose handler, janitor and prober share one
-- controller. What the HTTP server, the signals and the logs do is left out.
use gowait.Prelude.{
  ℕ, String, Bool, Option, none, some, List, [], ◌∷◌, ℤ, pos, str_eq, if◌then◌else◌,
}
use gowait.Results.{Result, ok, error, M}
use gowait.Clock.{Time, Duration, Floats}
use gowait.Metrics
use gowait.Metrics.{Registry}
use gowait.Store.Interface.{Ops}
use gowait.Store.Dynamic
use gowait.Store.Dynamic.{StoreError, memory, valkey, valkey_error}
use gowait.Memory.State
use gowait.Memory.Instance
use gowait.Valkey.Server.{Commands, Client}
use gowait.Valkey.Methods
use gowait.Valkey.Methods.{try_lock}
use gowait.Queue.Controller
use gowait.Queue.Controller.{Controller, Failure, tick, refresh_capacity, set_metrics}
use gowait.Prober
use gowait.Prober.{Prober}
use gowait.Prober.OnQueue.{queue_control}
use gowait.Ticket.{Bytes}
use gowait.Ticket.Signer
use gowait.Ticket.Signer.{Signer, new_signer, new_secret}
use gowait.Waitpage.{Templates, RenderError}
use gowait.Proxy.{HttpUtil}
use gowait.Config
use gowait.Config.{Config}
use gowait.Config.Flags.{Environment}
use gowait.Config.Load.{LoadError, load}
use gowait.Server.Http.{bytes, Request, Moment, Response}
use gowait.Server.New
use gowait.Server.New.{Server}
use gowait.Server.Routes.{serve}
pub mod Running
pub mod Starting
pub mod Ready
pub mod Forwarding
pub mod Exit
mod Tests

pub data StartError : Type 0 where
  not_loaded : LoadError → StartError
  no_secret not_connected : StartError
  no_page : RenderError → StartError

-- The secret of the configuration, or a new one.
unfoldable pub cookie_secret : (ℕ → Option Bytes) → Config → Option Bytes
unfolding new_secret
cookie_secret rand c =
    if str_eq c.cookie_secret "" then new_secret rand else some (bytes c.cookie_secret)

unfoldable pub queue_config : Config → Controller.Config
queue_config c =
    let of_remote = λ (d : Duration). if str_eq c.store "valkey" then d else pos 0 in
    record {
      capacity = c.capacity;
      active_ttl = c.inactivity_ttl;
      queue_ttl = c.queue_ttl;
      min_reconcile_gap = of_remote (pos 250000000);
      stats_cache_ttl = of_remote c.poll_interval;
    }

-- The prober, where there is a URL for it, by its bounds.
unfoldable pub prober_config : Config → Option Prober.Config
prober_config c =
    if str_eq c.probe_url "" then none else some (record { min = c.probe_min; max = c.probe_max })

-- The store of either type that the process has.
abbrev pub AnyStore : Type 0 → Type 0 → Type 0
AnyStore F DB = Dynamic.Store (State.Store F) DB

abbrev pub AnyError : Type 0 → Type 0
AnyError E = StoreError Instance.Fault (Methods.StoreError E)

-- What runs: the controller with its store, the server, and the prober with its streak and its interval.
pub record Process (F DB R H : Type 0) : Type 0 where
  pub ctrl : Controller (AnyStore F DB) F
  pub server : Server R H
  pub prober : Option Prober.Config
  pub successes : ℤ
  pub probe_interval : Duration

module _ {F DB : Type 0} (fl : Floats F) (connect : String → String → Option DB) where
  -- The switch over the kind of store. `connect` is valkeystore.New.
  unfoldable pub open_store : Config → Option (AnyStore F DB)
  open_store c =
      if str_eq c.store "valkey"
      then elim (connect c.valkey_url c.valkey_prefix) [ none ↦ none | some d ↦ some (valkey d) ]
      else some (memory (State.new fl.zero_value))

  unfoldable pub new_controller : Config → AnyStore F DB → Controller (AnyStore F DB) F
  unfolding queue_config
  new_controller c st =
      let ctrl = Controller.new st (queue_config c) in
      if c.metrics then set_metrics (some (Metrics.new fl)) ctrl else ctrl

  -- The parts of a process.
  abbrev pub process_of : {R H : Type 0} → Config → AnyStore F DB → Server R H → Process F DB R H
  process_of c st srv = record {
    ctrl = new_controller c st;
    server = srv;
    prober = prober_config c;
    successes = pos 0;
    probe_interval = c.probe_interval;
  }

  module _ {R H T : Type 0} (u : HttpUtil R H) (ts : Templates T Bytes) where
    -- From an open store on. What the goroutines do that run starts, from the first action of the
    -- controller's Run on, are the events below.
    unfoldable pub assemble : Config → Bytes → AnyStore F DB → Result StartError (Process F DB R H)
    unfolding new_controller prober_config New.new
    assemble c secret st = elim (New.new u ts c (new_signer secret)) [
      | error e ↦ error (no_page e)
      | ok srv ↦ ok (process_of c st srv)
    ]

    unfoldable pub start : (ℕ → Option Bytes) → Config → Result StartError (Process F DB R H)
    unfolding cookie_secret open_store assemble
    start rand c = elim (cookie_secret rand c) [
      | none ↦ error no_secret
      | some secret ↦ elim (open_store c) [
        | none ↦ error not_connected
        | some st ↦ assemble c secret st
      ]
    ]

    unfoldable pub run :
        (String → Bool)
        → Environment
        → (ℕ → Option Bytes)
        → List String
        → Result StartError (Process F DB R H)
    unfolding load start
    run is_absolute env rand args = elim (load is_absolute env args) [
      | error e ↦ error (not_loaded e)
      | ok c ↦ start rand c
    ]

-- The first action of the controller's Run, a request, a tick of the janitor, or a tick of the prober with the status that its probe would get.
pub data Event : Type 0 where
  begins : Event
  requests : Request → Moment → Event
  ticks : Time → Event
  probes : Option ℤ → Event

module _ {F DB E : Type 0} (fl : Floats F) (walk : State.Store F → List String) (v : Commands DB F)
    (cl : Client DB E) where
  -- The methods of either store.
  abbrev pub ops : Ops (AnyStore F DB) (AnyError E) F
  ops = Dynamic.ops (Instance.ops fl walk) (Methods.ops fl v cl)

  -- tick of the prober: only the store in Valkey is a Locker.
  unfoldable pub probe_round :
      Duration
      → Option ℤ
      → Prober (Controller (AnyStore F DB) F)
      → Prober (Controller (AnyStore F DB) F)
  unfolding try_lock Prober.tick
  probe_round interval code p = elim p.ctrl.store [
    | memory s ↦
        let unlocked : Option (Result (Methods.StoreError E) Bool) = none in
        Prober.tick (queue_control ops) unlocked code p
    | valkey d ↦
        let (d', lock) = try_lock v cl "prober" interval d in
        Prober.tick (queue_control ops) (some lock) code
          (record p { ctrl = record p.ctrl { store = valkey d' } })
  ]

  module _ {R H : Type 0} (hmac : Bytes → Bytes → Bytes) (as_string : Bytes → String) where
    -- The handler, on the state that it shares.
    abbrev pub respond :
        Process F DB R H → Request → Moment → Controller (AnyStore F DB) F × Response F
    respond p r m =
        serve fl ops (Signer.mac hmac p.server.signer) as_string p.server.settings r m p.ctrl

    unfoldable pub step : Process F DB R H → Event → Process F DB R H
    unfolding serve tick probe_round refresh_capacity
    step p begins = record p { ctrl = refresh_capacity ops p.ctrl }
    step p (requests r m) = record p { ctrl = (respond p r m).0 }
    step p (ticks now) = record p { ctrl = tick fl ops now p.ctrl }
    step p (probes code) = elim p.prober [
      | none ↦ p
      | some cfg ↦
          let after =
            probe_round p.probe_interval code
              (record { cfg = cfg; ctrl = p.ctrl; successes = p.successes }) in
          record p { ctrl = after.ctrl; successes = after.successes }
    ]

    unfoldable pub steps : Process F DB R H → List Event → Process F DB R H
    unfolding step
    steps p [] = p
    steps p (e ∷ es) = steps (step p e) es
