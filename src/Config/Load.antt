-- ===== src/Config/Load.antt =====
-- Load of internal/config/config.go.
use gowait.Prelude.{String, Bool, not, none, some, List, pos, eqb_ℤ, str_eq, if◌then◌else◌}
use gowait.Results.{Result, ok, error}
use gowait.Config.{Config, Invalid, validate}
use gowait.Config.Flags.{Environment, Flags, FlagError, defaults}
use gowait.Config.Arguments.{parse_flags}

-- The composite literal, with the URL that is set after it.
unfoldable pub fill : Flags → Config
fill f = record {
  listen = f.listen;
  backend_url = f.backend;
  capacity = f.capacity;
  inactivity_ttl = f.inactivity_ttl;
  queue_ttl = f.queue_ttl;
  poll_interval = f.poll_interval;
  cookie_secret = f.cookie_secret;
  admin_key = f.admin_key;
  cookie_secure = f.cookie_secure;
  preserve_host = f.preserve_host;
  store = f.store_kind;
  valkey_url = f.valkey_url;
  valkey_prefix = f.valkey_prefix;
  metrics = f.metrics_on;
  wait_title = f.wait_title;
  wait_brand = f.wait_brand;
  wait_message = f.wait_message;
  wait_lang = f.wait_lang;
  wait_template = f.wait_template;
  probe_url = f.probe_url;
  probe_interval = f.probe_interval;
  probe_min = f.probe_min;
  probe_max = f.probe_max;
}

-- if cfg.ProbeMax == 0 { cfg.ProbeMax = cfg.Capacity }
unfoldable pub default_probe_max : Config → Config
default_probe_max c = if eqb_ℤ c.probe_max (pos 0) then record c { probe_max = c.capacity } else c

pub data LoadError : Type 0 where
  unparsed : FlagError → LoadError
  missing_backend bad_backend : LoadError
  refused : Invalid → LoadError

-- Load, once the flags are parsed.
unfoldable pub accept : (String → Bool) → String → Config → Result LoadError Config
unfolding validate
accept is_absolute backend cfg =
    if str_eq backend ""
    then error missing_backend
    else if not (is_absolute backend)
    then error bad_backend
    else elim (validate is_absolute cfg) [ none ↦ ok cfg | some e ↦ error (refused e) ]

unfoldable pub load : (String → Bool) → Environment → List String → Result LoadError Config
unfolding parse_flags defaults fill default_probe_max accept
load is_absolute env args = elim (parse_flags env none args (defaults env)) [
  | error e ↦ error (unparsed e)
  | ok flags ↦ accept is_absolute flags.backend (default_probe_max (fill flags))
]
