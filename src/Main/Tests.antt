-- ===== src/Main/Tests.antt =====
-- A process on a small database, from its arguments to its events.
use gowait.Prelude.{
  ◌⊎◌, ℕ, ◌≡◌, refl, subst, inl, inr, String, true, false, Option, none, some, List, [], ◌∷◌, ℤ,
  pos, length, arith, ◌<◌, ◌<◌,
}
use gowait.Results.{ok}
use gowait.Clock.Exact.{exact}
use gowait.GoMap
use gowait.Store.Dynamic.{memory, valkey}
use gowait.Memory.State
use gowait.Valkey.Tests.Database.{Db, commands, commands-laws, joined, joined-reaches}
use gowait.Valkey.Effects.{IsSoundAt, view_at}
use gowait.Ticket.{Bytes}
use gowait.Ticket.Signer.{new_signer}
use gowait.Waitpage.{
  Templates, PageData, supported_lang, template_source, render_with, page_data, render,
}
use gowait.Waitpage.Pages.{IsPage}
use gowait.Proxy.{HttpUtil}
use gowait.Config.{Config, validate}
use gowait.Config.Flags.{Environment, defaults}
use gowait.Config.Arguments.{parse_flags}
use gowait.Config.Load.{load, accept}
use gowait.Server.Http.{bytes, Method, Request, Moment}
use gowait.Server.New.{new, with_page, page_options}
use gowait.Memory.Tickets
use gowait.Memory.Admin
use gowait.Metrics.{add_reconcile}
use gowait.Queue.Controller.{observe_all}
use gowait.Memory.Reconcile
use gowait.Server.Routes.{serve}
use gowait.Server.Http.{forwarded}
use gowait.Main.{
  AnyStore, step, ops, respond, new_controller, queue_config, prober_config, Process, process_of,
  Event, begins, requests, ticks, probes, cookie_secret, open_store, assemble, start, run, steps,
}
use gowait.Main.Running.{IsRunning, promises}
use gowait.Main.Forwarding.{run_forwarded}
use gowait.Server.Guarded.{IsAdmin, IsActive}
use gowait.Ticket.Signer
use gowait.Main.Starting.{IsFresh, run-IsRunning}
use gowait.Main.Ready.{adopted, run_ready}

abbrev env : Environment
env = record {
  getenv = λ _. "";
  scan_int = λ _. none;
  parse_duration = λ _. none;
  parse_int = λ _. none;
}

abbrev args : List String
args =
    "-backend=http://backend" ∷ "-store=valkey" ∷ "-valkey-url=db:6379" ∷ "-probe-url"
    ∷ "http://backend/healthz" ∷ "-cookie-secret" ∷ "key" ∷ []

abbrev config : Config
config = record {
  listen = ":8080";
  backend_url = "http://backend";
  capacity = pos 100;
  inactivity_ttl = pos 60000000000;
  queue_ttl = pos 30000000000;
  poll_interval = pos 3000000000;
  cookie_secret = "key";
  admin_key = "";
  cookie_secure = false;
  preserve_host = false;
  store = "valkey";
  valkey_url = "db:6379";
  valkey_prefix = "gowait:";
  metrics = true;
  wait_title = "";
  wait_brand = "";
  wait_message = "";
  wait_lang = "en";
  wait_template = "";
  probe_url = "http://backend/healthz";
  probe_interval = pos 10000000000;
  probe_min = pos 1;
  probe_max = pos 100;
}

loaded : load (λ _. true) env args ≡ ok config
unfolding load parse_flags defaults accept validate GoMap.lookup supported_lang
loaded = refl

abbrev empty_db : Db
empty_db = record {
  contents = record { sorted = λ _. []; counter = pos 0 };
  hashes = λ k. [];
  texts = λ k. none;
}

empty_db-IsSound : (n : ℕ) → n < 1000 → IsSoundAt n empty_db.contents
unfolding GoMap.lookup
empty_db-IsSound n h = record {
  active_distinct = tt;
  order_distinct = tt;
  apart = λ i. inl refl;
  reached = tt;
  start = omega arith;
  room = omega (arith, h);
}

abbrev connect : String → String → Option Db
connect url prefix = some empty_db

abbrev http_util : HttpUtil String (Unit {0})
http_util = record {
  in_host = λ r. r;
  set_url = λ backend r. record r { out = record r.out { host = "" } };
  set_x_forwarded = λ r. r;
}

-- A page is its title.
abbrev templates : Templates String Bytes
templates = record {
  read_file = λ path. none;
  parse = λ src. some src;
  execute = λ t page. some (bytes page.title);
  embedded = "wait.html";
}

abbrev rand : ℕ → Option Bytes
rand n = some (0 ∷ [])

abbrev process : Process ℤ Db String (Unit {0})
process =
    process_of exact connect config (valkey empty_db)
      (with_page http_util config (new_signer (bytes "key")) (bytes "You are in the waiting room"))

started : run exact connect http_util templates (λ _. true) env rand args ≡ ok process
unfolding run start assemble new render page_data cookie_secret open_store load parse_flags defaults
    accept validate GoMap.lookup supported_lang
started = refl

abbrev walk : State.Store ℤ → List String
walk s = []

abbrev hashing : Bytes → Bytes → Bytes
hashing key text = length key ∷ length text ∷ []

abbrev spell : Bytes → String
spell id = "a"

-- 2026
abbrev noon : ℕ
noon = 63902865600000000000

abbrev visit : Request
visit = record {
  method = Method.get;
  path = bytes "/";
  escaped_path = bytes "/";
  accept = bytes "text/html";
  admin_header = [];
  admin_param = [];
  stripped_url = bytes "/";
  clean_url = bytes "/";
  ticket_cookie = none;
  admin_cookie = none;
  body_capacity = none;
}

abbrev moment : Moment
moment = record { now = noon; later = noon; won = true; new_id = some (bytes "a") }

-- A visitor, the janitor, and a probe that fails.
abbrev events : List Event
events = begins ∷ requests visit moment ∷ ticks noon ∷ probes (some (pos 503)) ∷ []

connected :
    (url prefix : String) (d : Db)
    → connect url prefix ≡ some d
    → IsSoundAt 4 d.contents × ((view_at d.contents).active ≡ pos 0)
connected url prefix d e =
    let same : empty_db ≡ d = cc in
    subst (λ x. IsSoundAt 4 x.contents × ((view_at x.contents).active ≡ pos 0)) same
      (empty_db-IsSound 4 (omega arith), refl)

run-IsRunning_example :
    IsRunning exact walk commands commands-laws joined joined-reaches hashing spell 0
      (steps exact walk commands joined hashing spell process events)
run-IsRunning_example =
    run-IsRunning exact walk commands commands-laws joined joined-reaches connect http_util
      templates hashing spell (λ _. true) env rand args process events (omega arith) connected
      started

run_ready_example :
    (p : Process ℤ Db String (Unit {0})) × (page : PageData) × (st : AnyStore ℤ Db) × (run exact
        connect http_util templates
        (λ _. true)
        env
        rand
        args
      ≡ ok p)
    × (open_store exact connect config ≡ some st)
    × (p.ctrl.capacity ≡ pos 100)
    × ((step exact walk commands joined hashing spell p begins).ctrl.capacity
        ≡ adopted ((ops exact walk commands joined).get_capacity st).1 (pos 100))
    × (p.server.settings.admin_key ≡ bytes "")
    × IsPage (page_options config) page
    × (render_with templates "wait.html" page ≡ ok p.server.settings.wait_html)
unfolding template_source render_with
run_ready_example =
    run_ready exact walk commands joined connect http_util templates hashing spell (λ _. true) env
      rand args config (0 ∷ []) "wait.html" loaded refl (inr (empty_db, refl)) refl
      (λ page. (bytes page.title, refl))

-- The same with the memory store: after the janitor and a probe a first visit goes through.
abbrev local_args : List String
local_args =
    "-backend=http://backend" ∷ "-probe-url=http://backend/healthz" ∷ "-cookie-secret=key" ∷ []

abbrev local_config : Config
local_config = record config { store = "memory"; valkey_url = "" }

abbrev local : Process ℤ Db String (Unit {0})
local = process_of exact connect local_config (memory (State.new (pos 0))) (
    with_page http_util local_config (new_signer (bytes "key"))
      (bytes "You are in the waiting room"))

local_started : run exact connect http_util templates (λ _. true) env rand local_args ≡ ok local
unfolding run start assemble new render page_data cookie_secret open_store load parse_flags defaults
    accept validate GoMap.lookup supported_lang
local_started = refl

abbrev before : List Event
before = begins ∷ ticks noon ∷ probes (some (pos 503)) ∷ []

goes_on :
    (respond exact walk commands joined hashing spell
      (steps exact walk commands joined hashing spell local before)
      visit
      moment).1.answer
    ≡ forwarded
unfolding steps serve State.new Tickets.lookup GoMap.lookup Reconcile.reconcile Tickets.try_admit
    new_controller queue_config prober_config Admin.get_capacity Admin.set_capacity observe_all
    add_reconcile
goes_on = refl

connected_early :
    (url prefix : String) (d : Db)
    → connect url prefix ≡ some d
    → IsFresh exact walk commands commands-laws joined joined-reaches 4 d
connected_early = connected

run_forwarded_example :
    let q = steps exact walk commands joined hashing spell local before in
    let mac = Signer.mac hashing local.server.signer in
    let o = ops exact walk commands joined in
    let kept = promises exact walk commands commands-laws joined joined-reaches in
    IsAdmin exact o kept mac spell local.server.settings visit moment
    ⊎ IsActive exact o kept mac spell local.server.settings visit moment
        (respond exact walk commands joined hashing spell q visit moment).0
run_forwarded_example =
    run_forwarded exact walk commands commands-laws joined joined-reaches connect http_util
      templates hashing spell (λ _. true) env rand local_args local before visit moment
      (omega arith) connected_early local_started goes_on
