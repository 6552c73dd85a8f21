-- ===== src/Config.antt =====
-- Config and Validate of internal/config/config.go. `is_absolute` is a parameter: whether `url.Parse`
-- succeeds with a scheme and a host.
use gowait.Prelude.{
  String, Bool, true, false, not, ◌||◌, Option, none, some, ℤ, pos, ◌*ℤ◌, ltb_ℤ, leb_ℤ, eqb_ℤ,
  str_eq, if◌then◌else◌,
}
use gowait.Int64.{wrap}
use gowait.Results.{Result, ok, error}
use gowait.Clock.{Duration}
use gowait.Waitpage.{supported_lang}
pub mod Flags
pub mod Arguments
pub mod Load
pub mod Valid
pub mod Loading
pub mod Precedence
pub mod Settings
mod Tests

pub record Config : Type 0 where
  pub listen : String
  -- the text of the URL
  pub backend_url : String
  pub capacity : ℤ
  pub inactivity_ttl : Duration
  pub queue_ttl : Duration
  pub poll_interval : Duration
  pub cookie_secret : String
  pub admin_key : String
  pub cookie_secure : Bool
  pub preserve_host : Bool
  pub store : String
  pub valkey_url : String
  pub valkey_prefix : String
  pub metrics : Bool
  pub wait_title : String
  pub wait_brand : String
  pub wait_message : String
  pub wait_lang : String
  pub wait_template : String
  pub probe_url : String
  pub probe_interval : Duration
  pub probe_min : ℤ
  pub probe_max : ℤ

-- The errors, in the order in which they are found.
pub data Invalid : Type 0 where
  bad_capacity bad_poll_interval bad_inactivity_ttl bad_queue_ttl : Invalid
  missing_valkey_url unknown_store unknown_lang : Invalid
  bad_probe_url bad_probe_interval bad_probe_min bad_probe_max : Invalid

-- The checks of the prober's settings, which an empty URL turns off.
unfoldable pub validate_probe : (String → Bool) → Config → Option Invalid
validate_probe is_absolute c =
    if str_eq c.probe_url ""
    then none
    else if not (is_absolute c.probe_url)
    then some bad_probe_url
    else if leb_ℤ c.probe_interval (pos 0)
    then some bad_probe_interval
    else if ltb_ℤ c.probe_min (pos 1)
    then some bad_probe_min
    else if ltb_ℤ c.probe_max c.probe_min
    then some bad_probe_max
    else none

-- The language, and what comes after it.
unfoldable pub validate_page : (String → Bool) → Config → Option Invalid
unfolding validate_probe
validate_page is_absolute c =
    if not (supported_lang c.wait_lang) then some unknown_lang else validate_probe is_absolute c

-- The store, and what comes after it.
unfoldable pub validate_store : (String → Bool) → Config → Option Invalid
unfolding validate_page
validate_store is_absolute c =
    if str_eq c.store "memory"
    then validate_page is_absolute c
    else if not (str_eq c.store "valkey")
    then some unknown_store
    else if str_eq c.valkey_url ""
    then some missing_valkey_url
    else validate_page is_absolute c

-- `none` is the nil error.
unfoldable pub validate : (String → Bool) → Config → Option Invalid
unfolding validate_store
validate is_absolute c =
    if ltb_ℤ c.capacity (pos 1)
    then some bad_capacity
    else if leb_ℤ c.poll_interval (pos 0)
    then some bad_poll_interval
    else if leb_ℤ c.inactivity_ttl c.poll_interval
    then some bad_inactivity_ttl
    else if ltb_ℤ c.queue_ttl (wrap (pos 2 *ℤ c.poll_interval))
    then some bad_queue_ttl
    else validate_store is_absolute c
