-- ===== src/Config/Flags.antt =====
-- The flags of Load in internal/config/config.go, with the environment that gives their defaults, and the
-- loop of Parse in package flag over the arguments. Numbers and durations are read by parameters.
use gowait.Prelude.{
  ◌||◌, String, Bool, true, false, Option, none, some, List, [], ◌∷◌, ℤ, pos, str_eq, if◌then◌else◌,
}
use gowait.Clock.{Duration}

-- os.Getenv, where a variable that is not set is the empty text, and the readers of texts: Sscanf with
-- "%d", time.ParseDuration, and package flag's reader of an int; `none` for an error.
pub record Environment : Type 0 where
  pub getenv : String → String
  pub scan_int : String → Option ℤ
  pub parse_duration : String → Option Duration
  pub parse_int : String → Option ℤ

-- What the variables of Load point to.
pub record Flags : Type 0 where
  pub listen : String
  pub backend : String
  pub capacity : ℤ
  pub inactivity_ttl : Duration
  pub queue_ttl : Duration
  pub poll_interval : Duration
  pub cookie_secret : String
  pub admin_key : String
  pub cookie_secure : Bool
  pub preserve_host : Bool
  pub store_kind : String
  pub valkey_url : String
  pub valkey_prefix : String
  pub metrics_on : Bool
  pub wait_title : String
  pub wait_brand : String
  pub wait_message : String
  pub wait_lang : String
  pub wait_template : String
  pub probe_url : String
  pub probe_interval : Duration
  pub probe_min : ℤ
  pub probe_max : ℤ

module _ (env : Environment) where
  unfoldable pub env_or : String → String → String
  env_or key def = if str_eq (env.getenv key) "" then def else env.getenv key

  unfoldable pub env_or_int : String → ℤ → ℤ
  env_or_int key def =
      if str_eq (env.getenv key) ""
      then def
      else elim (env.scan_int (env.getenv key)) [ some n ↦ n | none ↦ def ]

  unfoldable pub env_or_duration : String → Duration → Duration
  env_or_duration key def =
      if str_eq (env.getenv key) ""
      then def
      else elim (env.parse_duration (env.getenv key)) [ some d ↦ d | none ↦ def ]

  unfoldable pub env_or_bool : String → Bool → Bool
  env_or_bool key def =
      let v = env.getenv key in
      if str_eq v "" then def else str_eq v "true" || str_eq v "1" || str_eq v "yes"

  -- The values before the arguments are parsed.
  unfoldable pub defaults : Flags
  unfolding env_or env_or_int env_or_duration env_or_bool
  defaults = record {
    listen = env_or "GOWAIT_LISTEN" ":8080";
    backend = env_or "GOWAIT_BACKEND_URL" "";
    capacity = env_or_int "GOWAIT_CAPACITY" (pos 100);
    inactivity_ttl = env_or_duration "GOWAIT_INACTIVITY_TTL" (pos 60000000000);
    queue_ttl = env_or_duration "GOWAIT_QUEUE_TTL" (pos 30000000000);
    poll_interval = env_or_duration "GOWAIT_POLL_INTERVAL" (pos 3000000000);
    cookie_secret = env_or "GOWAIT_COOKIE_SECRET" "";
    admin_key = env_or "GOWAIT_ADMIN_KEY" "";
    cookie_secure = env_or_bool "GOWAIT_COOKIE_SECURE" false;
    preserve_host = env_or_bool "GOWAIT_PRESERVE_HOST" false;
    store_kind = env_or "GOWAIT_STORE" "memory";
    valkey_url = env_or "GOWAIT_VALKEY_URL" "";
    valkey_prefix = env_or "GOWAIT_VALKEY_PREFIX" "gowait:";
    metrics_on = env_or_bool "GOWAIT_METRICS" true;
    wait_title = env_or "GOWAIT_WAIT_TITLE" "";
    wait_brand = env_or "GOWAIT_WAIT_BRAND" "";
    wait_message = env_or "GOWAIT_WAIT_MESSAGE" "";
    wait_lang = env_or "GOWAIT_WAIT_LANG" "en";
    wait_template = env_or "GOWAIT_WAIT_TEMPLATE" "";
    probe_url = env_or "GOWAIT_PROBE_URL" "";
    probe_interval = env_or_duration "GOWAIT_PROBE_INTERVAL" (pos 10000000000);
    probe_min = env_or_int "GOWAIT_PROBE_MIN" (pos 1);
    probe_max = env_or_int "GOWAIT_PROBE_MAX" (pos 0);
  }

-- What a flag does with its value, by the kind that declares it.
pub data Setter : Type 0 where
  string_flag : (String → Flags → Flags) → Setter
  int_flag : (ℤ → Flags → Flags) → Setter
  duration_flag : (Duration → Flags → Flags) → Setter
  bool_flag : (Bool → Flags → Flags) → Setter

abbrev pub flag_set : List (String × Setter)
flag_set =
    ("listen", string_flag (λ v f. record f { listen = v }))
    ∷ ("backend", string_flag (λ v f. record f { backend = v }))
    ∷ ("capacity", int_flag (λ v f. record f { capacity = v }))
    ∷ ("inactivity-ttl", duration_flag (λ v f. record f { inactivity_ttl = v }))
    ∷ ("queue-ttl", duration_flag (λ v f. record f { queue_ttl = v }))
    ∷ ("poll-interval", duration_flag (λ v f. record f { poll_interval = v }))
    ∷ ("cookie-secret", string_flag (λ v f. record f { cookie_secret = v }))
    ∷ ("admin-key", string_flag (λ v f. record f { admin_key = v }))
    ∷ ("cookie-secure", bool_flag (λ v f. record f { cookie_secure = v }))
    ∷ ("preserve-host", bool_flag (λ v f. record f { preserve_host = v }))
    ∷ ("store", string_flag (λ v f. record f { store_kind = v }))
    ∷ ("valkey-url", string_flag (λ v f. record f { valkey_url = v }))
    ∷ ("valkey-prefix", string_flag (λ v f. record f { valkey_prefix = v }))
    ∷ ("metrics", bool_flag (λ v f. record f { metrics_on = v }))
    ∷ ("wait-title", string_flag (λ v f. record f { wait_title = v }))
    ∷ ("wait-brand", string_flag (λ v f. record f { wait_brand = v }))
    ∷ ("wait-message", string_flag (λ v f. record f { wait_message = v }))
    ∷ ("wait-lang", string_flag (λ v f. record f { wait_lang = v }))
    ∷ ("wait-template", string_flag (λ v f. record f { wait_template = v }))
    ∷ ("probe-url", string_flag (λ v f. record f { probe_url = v }))
    ∷ ("probe-interval", duration_flag (λ v f. record f { probe_interval = v }))
    ∷ ("probe-min", int_flag (λ v f. record f { probe_min = v }))
    ∷ ("probe-max", int_flag (λ v f. record f { probe_max = v }))
    ∷ []

pub data FlagError : Type 0 where
  bad_syntax not_defined needs_argument bad_value help : FlagError
