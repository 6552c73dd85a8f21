-- ===== src/Main/Ready.antt =====
-- When a process starts, and with which page.
use gowait.Prelude.{
  ℕ, ◌≡◌, refl, ◌∙◌, ap, sym, Bool-cases, ◌⊎◌, subst, inl, inr, String, Bool, true, Option, some,
  List, str_eq, str_eq-cases, ℤ, pos, leb_ℤ, false, if◌then◌else◌,
}
use gowait.Results.{Result, ok, error, Result-cases}
use gowait.Store.Interface.{Ops}
use gowait.Queue.Controller.{Controller, refresh_capacity}
use gowait.Valkey.Server.{Commands, Client}
use gowait.Clock.{Floats}
use gowait.Memory.State
use gowait.Store.Dynamic.{memory, valkey}
use gowait.Ticket.{Bytes}
use gowait.Ticket.Signer.{Signer, new_signer, new_secret}
use gowait.Ticket.Encoding.{encode_hex}
use gowait.Waitpage.{supported_lang, Templates, PageData, template_source, render_with, render}
use gowait.Waitpage.Pages.{IsPage, render-IsPage}
use gowait.Proxy.{HttpUtil}
use gowait.Config.{Config}
use gowait.Config.Flags.{Environment}
use gowait.Config.Load.{load}
use gowait.Config.Loading.{load-IsSane}
use gowait.Server.Http.{bytes}
use gowait.Server.New
use gowait.Server.New.{Server, with_page, page_options}
use gowait.Main.{
  AnyStore, Process, process_of, cookie_secret, queue_config, open_store, new_controller, assemble,
  start, run, ops, begins, step,
}

-- A random secret where none is configured.
cookie_secret_ok :
    (rand : ℕ → Option Bytes) (c : Config) (b : Bytes)
    → rand 32 ≡ some b
    → (secret : Bytes) × (cookie_secret rand c ≡ some secret)
unfolding cookie_secret new_secret
cookie_secret_ok rand c b h = elim (str_eq-cases c.cookie_secret "") [
  | inl (e, _) ↦ (encode_hex b, rw (e, h, cookie_secret, new_secret) refl)
  | inr (e, _) ↦ (bytes c.cookie_secret, rw (e, cookie_secret) refl)
]

module _ {F DB R H T : Type 0} (fl : Floats F) (connect : String → String → Option DB)
    (u : HttpUtil R H) (ts : Templates T Bytes) where
  open_store_ok :
      (c : Config)
      → (c.store ≡ "memory") ⊎ ((d : DB) × (connect c.valkey_url c.valkey_prefix ≡ some d))
      → (st : AnyStore F DB) × (open_store fl connect c ≡ some st)
  unfolding open_store
  open_store_ok c h = elim (str_eq-cases c.store "valkey") [
    | inr (e, _) ↦ (memory (State.new fl.zero_value), rw (e, open_store) refl)
    | inl (e, other) ↦ elim h [
      | inr (d, joined) ↦ (valkey d, rw (e, joined, open_store) refl)
      | inl local ↦ absurd (
          let x : str_eq "memory" "valkey" ≡ true = subst (λ k. str_eq k "valkey" ≡ true) local e in
          cc)
    ]
  ]

  -- A page that can be rendered, in a language that is supported.
  rendered :
      (c : Config) (src : String)
      → supported_lang c.wait_lang ≡ true
      → template_source ts (page_options c) ≡ some src
      → ((page : PageData) → (html : Bytes) × (render_with ts src page ≡ ok html))
      → (page : PageData) × (html : Bytes) × IsPage (page_options c) page
        × (render_with ts src page ≡ ok html)
        × (render ts (page_options c) ≡ ok html)
  rendered c src h found renders =
      let (page, texts, e) = render-IsPage ts (page_options c) h in
      let (html, made) = renders page in (page, html, texts, made, e ∙ rw found made)

  server_ok :
      (c : Config) (signer : Signer) (html : Bytes)
      → render ts (page_options c) ≡ ok html
      → (srv : Server R H) × (New.new u ts c signer ≡ ok srv)
        × (srv.settings.wait_html ≡ html)
        × (srv.settings.admin_key ≡ bytes c.admin_key)
  unfolding New.new
  server_ok c signer html e = (with_page u c signer html, rw (e, New.new) refl, refl, refl)

  new_controller-capacity :
      (c : Config) (st : AnyStore F DB)
      → ((new_controller fl connect c st).capacity ≡ c.capacity)
        × ((new_controller fl connect c st).cfg.capacity ≡ c.capacity)
        × ((new_controller fl connect c st).store ≡ st)
  unfolding new_controller queue_config
  new_controller-capacity c st = elim (Bool-cases c.metrics) [
    | inl on ↦ rw (on, new_controller) (refl, refl, refl)
    | inr off ↦ rw (off, new_controller) (refl, refl, refl)
  ]

  assembled :
      (c : Config) (secret : Bytes) (st : AnyStore F DB) (html : Bytes)
      → render ts (page_options c) ≡ ok html
      → (p : Process F DB R H) × (assemble fl connect u ts c secret st ≡ ok p)
        × ((p.ctrl.capacity ≡ c.capacity)
            × (p.ctrl.cfg.capacity ≡ c.capacity)
            × (p.ctrl.store ≡ st))
        × (p.server.settings.wait_html ≡ html)
        × (p.server.settings.admin_key ≡ bytes c.admin_key)
  unfolding assemble
  assembled c secret st html e =
      let (srv, made, page, key) = server_ok c (new_signer secret) html e in
      (
        process_of fl connect c st srv,
        rw (made, assemble) refl,
        new_controller-capacity c st,
        page,
        key,
      )

-- The capacity that a store gives: what it holds, if that is 1 or more, or else the configured one.
abbrev pub adopted : {E : Type 0} → Result E (ℤ × Bool) → ℤ → ℤ
adopted (error e) configured = configured
adopted (ok (n, false)) configured = configured
adopted (ok (n, true)) configured = if leb_ℤ (pos 1) n then n else configured

refresh_capacity-adopted :
    {S E F : Type 0} (o : Ops S E F) (k : ℤ) (c : Controller S F)
    → c.capacity ≡ k
    → c.cfg.capacity ≡ k
    → (refresh_capacity o c).capacity ≡ adopted (o.get_capacity c.store).1 k
unfolding refresh_capacity
refresh_capacity-adopted o k c h g = elim (Result-cases (o.get_capacity c.store).1) [
  | inr (x, e) ↦ rw (e, refresh_capacity) h
  | inl ((n, set), e) ↦ elim (Bool-cases set) [
    | inr b ↦ rw (e, b, refresh_capacity) g
    | inl b ↦ elim (Bool-cases (leb_ℤ (pos 1) n)) [
      | inl l ↦ rw (e, b, l, refresh_capacity) refl
      | inr l ↦ rw (e, b, l, refresh_capacity) g
    ]
  ]
]

module _ {F DB E R H T : Type 0} (fl : Floats F) (walk : State.Store F → List String)
    (v : Commands DB F) (cl : Client DB E) (connect : String → String → Option DB)
    (u : HttpUtil R H) (ts : Templates T Bytes) (hmac : Bytes → Bytes → Bytes)
    (as_string : Bytes → String) where
  -- Where Load answers a configuration, the random source answers, the store in Valkey is reached
  -- if it is the one configured, the page's template is found, and every page is rendered from
  -- it: a process starts over the store that is opened, with the configured admin key, and its
  -- waiting page is rendered from texts in the configured language, with a title and a message
  -- that are not empty, and are the configured ones where these are given. The capacity is the
  -- configured one until the controller's Run begins, which at once adopts what GetCapacity reads
  -- from that store, where this is a number of 1 or more.
  pub run_ready :
      (is_absolute : String → Bool) (env : Environment) (rand : ℕ → Option Bytes)
      (args : List String) (c : Config) (b : Bytes) (src : String)
      → load is_absolute env args ≡ ok c
      → rand 32 ≡ some b
      → (c.store ≡ "memory") ⊎ ((d : DB) × (connect c.valkey_url c.valkey_prefix ≡ some d))
      → template_source ts (page_options c) ≡ some src
      → ((page : PageData) → (html : Bytes) × (render_with ts src page ≡ ok html))
      → (p : Process F DB R H) × (page : PageData) × (st : AnyStore F DB) × (run fl connect u ts
            is_absolute env rand args
          ≡ ok p)
        × (open_store fl connect c ≡ some st)
        × (p.ctrl.capacity ≡ c.capacity)
        × ((step fl walk v cl hmac as_string p begins).ctrl.capacity
            ≡ adopted ((ops fl walk v cl).get_capacity st).1 c.capacity)
        × (p.server.settings.admin_key ≡ bytes c.admin_key)
        × IsPage (page_options c) page
        × (render_with ts src page ≡ ok p.server.settings.wait_html)
  unfolding run start step
  run_ready is_absolute env rand args c b src loaded drawn joined found renders =
      let (capacity, spoken, way) = load-IsSane is_absolute env args c loaded in
      let (secret, s) = cookie_secret_ok rand c b drawn in
      let (st, o) = open_store_ok fl connect u ts c joined in
      let (page, html, texts, made, e) = rendered fl connect u ts c src spoken found renders in
      let (p, built, (room, configured, holds), shown, key) =
        assembled fl connect u ts c secret st html e in
      let refreshed =
        refresh_capacity-adopted (ops fl walk v cl) c.capacity p.ctrl room configured in
      (
        p,
        page,
        st,
        rw (loaded, run, s, o, start) built,
        o,
        room,
        refreshed ∙ ap (λ x. adopted ((ops fl walk v cl).get_capacity x).1 c.capacity) holds,
        key,
        texts,
        made ∙ ap ok (sym shown),
      )
