-- ===== src/Config/Tests.antt =====
-- The default settings, with a prober, and where they come from.
use gowait.Prelude.{
  ◌≡◌, ◌≢◌, refl, String, true, false, ◌↔◌, inl, inr, Option, none, some, List, [], ◌∷◌, ℤ, pos,
  arith, str_eq, if◌then◌else◌,
}
use gowait.Results.{ok}
use gowait.GoMap.{lookup}
use gowait.Config.{Config, validate, validate_store, validate_page, validate_probe}
use gowait.Config.Flags.{Environment, Flags, defaults}
use gowait.Config.Arguments.{parse_flags}
use gowait.Config.Load.{fill, default_probe_max, accept, load}
use gowait.Config.Valid.{IsValid}
use gowait.Config.Loading.{validate-IsValid}
use gowait.Config.Settings.{number_setting, with_value, setting_precedence}
use gowait.Waitpage.{supported_lang}

abbrev read_number : String → Option ℤ
read_number s = if str_eq s "7" then some (pos 7) else if str_eq s "50" then some (pos 50) else none

abbrev variables : String → String
variables key =
    if str_eq key "GOWAIT_CAPACITY"
    then "50"
    else if str_eq key "GOWAIT_PROBE_URL"
    then "http://backend:8080/healthz"
    else if str_eq key "GOWAIT_PROBE_MIN"
    then "few"
    else ""

abbrev env : Environment
env = record {
  getenv = variables;
  scan_int = read_number;
  parse_duration = λ _. none;
  parse_int = read_number;
}

abbrev args : List String
args = "--backend" ∷ "http://backend:8080" ∷ "-preserve-host" ∷ []

abbrev loaded : Config
loaded = record {
  listen = ":8080";
  backend_url = "http://backend:8080";
  capacity = pos 7;
  inactivity_ttl = pos 60000000000;
  queue_ttl = pos 30000000000;
  poll_interval = pos 3000000000;
  cookie_secret = "";
  admin_key = "";
  cookie_secure = false;
  preserve_host = true;
  store = "memory";
  valkey_url = "";
  valkey_prefix = "gowait:";
  metrics = true;
  wait_title = "";
  wait_brand = "";
  wait_message = "";
  wait_lang = "en";
  wait_template = "";
  probe_url = "http://backend:8080/healthz";
  probe_interval = pos 10000000000;
  probe_min = pos 1;
  probe_max = pos 7;
}

-- The prober's ceiling is the capacity, and its floor the default, as the variable is no number.
load_loads : load (λ _. true) env ("-capacity=7" ∷ args) ≡ ok loaded
unfolding load parse_flags defaults accept validate lookup supported_lang
load_loads = refl

abbrev start : Flags
start = record (defaults env) { capacity = pos 7 }

abbrev flags : Flags
flags = record start { backend = "http://backend:8080"; preserve_host = true }

-- The flag before the environment, where the capacity is 50.
setting_precedence_example : some (pos 7) ≡ some flags.capacity
unfolding parse_flags lookup defaults
setting_precedence_example =
    setting_precedence env "capacity" (number_setting (λ f. f.capacity) "GOWAIT_CAPACITY" (pos 100))
      ("-capacity=7" ∷ []) args (some "7") flags refl (with_value "-capacity=7" "7" refl)
      (refl, (refl, (refl, tt))) refl

loaded-IsValid : IsValid (λ _. true) loaded
unfolding supported_lang
loaded-IsValid = record {
  capacity = omega arith;
  polls = omega arith;
  sessions = omega arith;
  waiters = omega arith;
  stored = inl refl;
  spoken = refl;
  probed = inr (refl, omega arith, (omega arith, omega arith));
}

validate-IsValid_example :
    ((validate (λ _. true) loaded ≡ none) ↔ IsValid (λ _. true) loaded)
    × ((load (λ _. true) env ("-capacity=7" ∷ args) ≡ ok loaded) ↔ (
        (fs : Flags) × (parse_flags env none ("-capacity=7" ∷ args) (defaults env) ≡ ok fs)
        × (fs.backend ≢ "")
        × (true ≡ true)
        × (loaded ≡ default_probe_max (fill fs))
        × IsValid (λ _. true) loaded))
validate-IsValid_example =
    validate-IsValid (λ _. true) env ("-capacity=7" ∷ args) loaded (omega arith)

-- A poll interval of 158 years passes with a line that forgets after a second, as twice the interval
-- wraps around.
twice_wraps :
    validate
      (λ _. true)
      (record loaded {
        poll_interval = pos 5000000000000000000;
        inactivity_ttl = pos 6000000000000000000;
        queue_ttl = pos 1000000000;
      })
    ≡ none
unfolding validate validate_store validate_page validate_probe supported_lang lookup
twice_wraps = refl
