-- ===== src/Server/Tests.antt =====
-- The server on the memory store, with a stand-in for the HMAC.
use gowait.Prelude.{
  ℕ, zero, suc, ◌≡◌, refl, ap, ◌+◌, ◌%◌, ◌==◌, inr, true, false, String, none, some, List, [], ◌∷◌,
  ℤ, pos, arith, length, if◌then◌else◌,
}
use gowait.Results.{ok}
use gowait.Clock.Exact.{exact}
use gowait.Metrics
use gowait.Decimal.{itoa}
use gowait.Memory.State
use gowait.Memory.Tickets
use gowait.Memory.Reconcile
use gowait.GoMap
use gowait.Memory.State.{Store}
use gowait.Memory.Invariant.Methods.{new-IsWellFormed}
use gowait.Memory.Instance.{ops}
use gowait.Memory.Kept.{kept}
use gowait.Queue.Controller.{Controller, new, set_metrics, maybe_reconcile}
use gowait.Queue.Check.{Outcome, status_of}
use gowait.Queue.Serving.{IsServing}
use gowait.Ticket.{Bytes, sign}
use gowait.Server.Http.{
  bytes, Method, Request, Moment, StatusResponse, status_json, forwarded, written, ticket_cookie,
  Settings,
}
use gowait.Server.Cookies.{ticket_id, admin_session, is_admin, verified_id}
use gowait.Server.Gatekeeper.{gatekeeper, visit, handle_status}
use gowait.Server.Admin.{admin_authorized}
use gowait.Server.Routes.{is_clean, unescape, own, serve}
use gowait.Ticket.Signer
use gowait.Ticket.Signer.{Signer}
use gowait.Server.Sessions.{cookies_return}
use gowait.Server.Guarded.{IsServed, visit-IsServed}
use gowait.Server.Surface.{refusal, serve-refusal, IsTold, handle_status_lem}

abbrev stand_in : Bytes → Bytes
stand_in s = (65 + length s % 10) ∷ 66 ∷ []

abbrev spell : Bytes → String
spell [] = ""
spell (c ∷ cs) = if c == 97 then "a" else "b"

abbrev map_keys : List (String × ℕ) → List String
map_keys [] = []
map_keys ((k, p) ∷ m) = k ∷ map_keys m

abbrev walk : Store ℤ → List String
walk s = map_keys s.entries

-- 2026
abbrev noon : ℕ
noon = 63902865600000000000

abbrev settings : Settings
settings = record {
  admin_key = bytes "secret";
  poll_interval = pos 3000000000;
  metrics = true;
  wait_html = bytes "<html>";
}

-- A first visit, and a POST to flush without a key.
abbrev plain : Request
plain = record {
  method = Method.get;
  path = bytes "/";
  escaped_path = bytes "/";
  accept = bytes "text/html,*/*";
  admin_header = [];
  admin_param = [];
  stripped_url = bytes "/";
  clean_url = bytes "/";
  ticket_cookie = none;
  admin_cookie = none;
  body_capacity = none;
}

abbrev stranger : Request
stranger = record plain {
  method = Method.post;
  path = own "admin/flush";
  -- a letter is escaped
  escaped_path = own "adm%69n/flush";
}

abbrev moment : Moment
moment = record { now = noon; later = noon; won = true; new_id = some (bytes "a") }

abbrev empty : Controller (Store ℤ) ℤ
empty = set_metrics (some (Metrics.new exact)) (
    new (State.new (pos 0)) (record {
      capacity = pos 1;
      active_ttl = pos 60000000000;
      queue_ttl = pos 30000000000;
      min_reconcile_gap = pos 500000000;
      stats_cache_ttl = pos 3000000000;
    }))

empty-IsServing : IsServing exact (ops exact walk) (kept exact walk) 3 empty
unfolding kept State.new
empty-IsServing = record {
  valid = (new-IsWellFormed (pos 0), omega arith);
  capacity = omega arith;
  configured = omega arith;
  balanced = refl;
}

abbrev hashing : Bytes → Bytes → Bytes
hashing key text = length key ∷ length text % 256 ∷ []

abbrev signer : Signer
signer = Signer.new_signer (bytes "key")

abbrev mac : Bytes → Bytes
mac = Signer.mac hashing signer

abbrev zeros : ℕ → Bytes
zeros zero = []
zeros (suc n) = 0 ∷ zeros n

zeros-Fills : (n : ℕ) → length (zeros n) ≡ n
zeros-Fills zero = refl
zeros-Fills (suc n) = ap suc (zeros-Fills n)

abbrev minted : Bytes
minted = bytes "00000000000000000000000000000000"

cookies_return_example :
    (length minted ≡ 32)
    × (ticket_id mac plain (Signer.new_id (λ n. some (zeros n)))
        ≡ some (minted, (ticket_cookie, sign mac minted) ∷ []))
    × (ticket_id mac (record plain { ticket_cookie = some (sign mac minted) }) none
        ≡ some (minted, []))
    × (is_admin mac
          (noon + 3600000000000)
          (record plain { admin_cookie = some (admin_session mac noon).1 })
        ≡ true)
unfolding verified_id itoa Signer.new_id
cookies_return_example =
    cookies_return hashing signer (λ n. some (zeros n)) plain minted none noon
      (noon + 3600000000000) (λ n b e. cc (zeros-Fills n, e)) refl refl (omega arith)

ticketed :
    ticket_id stand_in plain moment.new_id
    ≡ some (bytes "a", (ticket_cookie, sign stand_in (bytes "a")) ∷ [])
unfolding ticket_id
ticketed = refl

visit-IsServed_example :
    IsServing exact
      (ops exact walk)
      (kept exact walk)
      2
      (visit exact (ops exact walk) stand_in spell settings plain moment empty).0
    × IsServed exact
        (ops exact walk)
        (kept exact walk)
        stand_in
        spell
        settings
        plain
        moment
        (bytes "a")
        ((ticket_cookie, sign stand_in (bytes "a")) ∷ [])
        empty
        (visit exact (ops exact walk) stand_in spell settings plain moment empty)
visit-IsServed_example =
    visit-IsServed exact (ops exact walk) (kept exact walk) stand_in spell settings 2 plain moment
      (bytes "a") ((ticket_cookie, sign stand_in (bytes "a")) ∷ []) empty empty-IsServing ticketed

-- The room is free: a first visit goes through.
goes_through :
    (gatekeeper exact (ops exact walk) stand_in spell settings plain moment empty).1.answer
    ≡ forwarded
unfolding gatekeeper State.new Tickets.lookup GoMap.lookup Reconcile.reconcile Tickets.try_admit
goes_through = refl

unknown : admin_authorized stand_in settings noon stranger ≡ false
unfolding admin_authorized
unknown = refl

serve-refusal_example :
    serve exact (ops exact walk) stand_in spell settings stranger moment empty
    ≡ (empty, refusal settings)
unfolding is_clean unescape
serve-refusal_example =
    serve-refusal exact (ops exact walk) stand_in spell settings stranger moment empty
      (bytes "flush") refl refl (inr unknown)

handle_status_lem_example :
    let r = handle_status exact (ops exact walk) stand_in spell settings plain moment empty in
    (st : StatusResponse) × (out : Outcome) × (r.1.answer ≡ written 200 (status_json st))
    × (r.1.cookies ≡ (ticket_cookie, sign stand_in (bytes "a")) ∷ [])
    × IsTold exact settings st out
    × ((status_of exact (ops exact walk) "a" noon noon true empty).1 ≡ ok out)
    × ((kept exact walk).view r.0.store
        ≡ (kept exact walk).view (maybe_reconcile exact (ops exact walk) noon true empty).0.store)
handle_status_lem_example =
    handle_status_lem exact (ops exact walk) (kept exact walk) stand_in spell settings 3 plain
      moment (bytes "a") ((ticket_cookie, sign stand_in (bytes "a")) ∷ []) empty empty-IsServing
      ticketed
