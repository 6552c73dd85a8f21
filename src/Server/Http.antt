-- ===== src/Server/Http.antt =====
-- What the handlers of internal/server read of a request, and what they answer. The parsing of
-- requests and the writing of responses are net/http's and encoding/json's.
use gowait.Prelude.{ℕ, String, Bool, ◌||◌, Option, List, [], ◌∷◌, ℤ}
use Prim.Native.Char.{code}
use gowait.Clock.{Time, Duration}
use gowait.Store.{Stats}
use gowait.Metrics.Text.{Sample}
use gowait.Ticket.{Bytes, has_prefix}

-- The bytes of an ASCII text.
abbrev pub bytes : String → Bytes
bytes String.[] = []
bytes (String.◌∷◌ c s) = code c ∷ bytes s

-- strings.Contains(s, sub)
unfoldable pub contains : Bytes → Bytes → Bool
unfolding has_prefix
contains [] sub = has_prefix [] sub
contains (c ∷ s) sub = has_prefix (c ∷ s) sub || contains s sub

pub data Method : Type 0 where
  get put post other : Method

-- A missing header or parameter is the empty text.
pub record Request : Type 0 where
  pub method : Method
  -- URL.Path, and URL.EscapedPath()
  pub path : Bytes
  pub escaped_path : Bytes
  pub accept : Bytes
  pub admin_header : Bytes
  pub admin_param : Bytes
  -- the URL without the admin parameter, as net/url writes it
  pub stripped_url : Bytes
  -- the URL with its path cleaned, as net/http writes it
  pub clean_url : Bytes
  pub ticket_cookie : Option Bytes
  pub admin_cookie : Option Bytes
  -- the number under "capacity" of the JSON body, 0 if it is not there; `none` for a body that is not JSON
  pub body_capacity : Option ℤ

-- What the environment contributes to a request: the clock as it is read first and again for an
-- estimate, the outcome of the race for a reconcile, and what ticket.NewID answers.
pub record Moment : Type 0 where
  pub now : Time
  pub later : Time
  pub won : Bool
  pub new_id : Option Bytes

pub data CookieName : Type 0 where
  ticket_cookie admin_cookie : CookieName

abbrev pub SetCookies : Type 0
SetCookies = List (CookieName × Bytes)

pub record StatusResponse : Type 0 where
  pub active : Bool
  pub position : ℤ
  pub queue_length : ℤ
  pub active_users : ℤ
  pub eta_seconds : ℤ
  pub poll_seconds : ℤ
  pub server_time : Time

pub data Body (F : Type 0) : Type 0 where
  message : String → Body F
  wait_page : Bytes → Body F
  status_json : StatusResponse → Body F
  stats_json : Stats F → ℤ → Body F
  capacity_json : ℤ → Body F
  flushed_json : ℤ → Body F
  metrics_text : List (Sample F) → Body F

-- Passed on to the backend, sent elsewhere by a handler or by net/http, or written with a code.
pub data Answer (F : Type 0) : Type 0 where
  forwarded : Answer F
  found moved : Bytes → Answer F
  written : ℕ → Body F → Answer F

pub record Response (F : Type 0) : Type 0 where
  pub cookies : SetCookies
  pub no_store : Bool
  pub retry_after : Option Bytes
  pub answer : Answer F

-- Server, apart from the controller and the signer: the fields of its configuration that are read.
pub record Settings : Type 0 where
  pub admin_key : Bytes
  pub poll_interval : Duration
  pub metrics : Bool
  pub wait_html : Bytes
