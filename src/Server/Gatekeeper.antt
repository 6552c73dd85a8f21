-- ===== src/Server/Gatekeeper.antt =====
-- internal/server/gatekeeper.go and status.go. The registry of the server is the one that the controller
-- feeds, as main sets both.
use gowait.Prelude.{
  ℕ, String, Bool, true, false, not, ◌&&◌, none, some, [], ◌∷◌, ℤ, ltb_ℤ, if◌then◌else◌,
}
use gowait.Results.{ok, error}
use gowait.Clock.{Time, Floats}
use gowait.Decimal.{itoa}
use gowait.Store.Interface.{Ops}
use gowait.Metrics.{RequestDecision, inc_request}
use gowait.Queue.Controller.{Controller}
use gowait.Queue.Check.{Decision, Outcome, is_wait, check, status_of}
use gowait.Ticket.{Bytes, equal}
use gowait.Server.Http.{
  bytes, contains, Request, Moment, SetCookies, StatusResponse, message, wait_page, status_json,
  Answer, forwarded, found, written, Response, Settings,
}
use gowait.Server.Cookies.{ticket_id, admin_session, is_admin}

abbrev pub answered : {F : Type 0} → SetCookies → Answer F → Response F
answered cookies a = record { cookies = cookies; no_store = false; retry_after = none; answer = a }

-- http.Error
abbrev pub refused : {F : Type 0} → SetCookies → ℕ → String → Response F
refused cookies code text = answered cookies (written code (message text))

-- adminKeyFrom: the key, and whether it is from the query
unfoldable pub admin_key_from : Request → Bytes × Bool
admin_key_from r = elim r.admin_header [ [] ↦ (r.admin_param, true) | c ∷ cs ↦ (c ∷ cs, false) ]

unfoldable pub accepts_html : Request → Bool
unfolding contains
accepts_html r = contains r.accept (bytes "text/html")

module _ {S F : Type 0} where
  -- s.metrics.IncRequest(d)
  abbrev pub count : RequestDecision → Controller S F → Controller S F
  count d c = record c { metrics = inc_request d c.metrics }

module _ {F : Type 0} (fl : Floats F) (s : Settings) where
  -- int(s.cfg.PollInterval.Seconds())
  abbrev pub poll_seconds : ℤ
  poll_seconds = fl.to_int64 (fl.seconds s.poll_interval)

  -- writeStatusJSON, but for the code
  unfoldable pub status_response : Time → Outcome → StatusResponse
  status_response server_time res =
      let eta = fl.ceil (fl.seconds res.eta) in
      record {
        active = not (is_wait res.decision);
        position = res.position;
        queue_length = res.queue_length;
        active_users = res.active_count;
        eta_seconds = if is_wait res.decision && ltb_ℤ eta poll_seconds then poll_seconds else eta;
        poll_seconds = poll_seconds;
        server_time = server_time;
      }

  -- The waiting room's answer: a page for humans, 503 for API clients.
  unfoldable pub waiting_room : Request → Time → SetCookies → Outcome → Response F
  unfolding accepts_html status_response
  waiting_room r server_time cookies res =
      if accepts_html r
      then record {
        cookies = cookies;
        no_store = true;
        retry_after = none;
        answer = written 200 (wait_page s.wait_html);
      }
      else record {
        cookies = cookies;
        no_store = true;
        retry_after = some (itoa poll_seconds);
        answer = written 503 (status_json (status_response server_time res));
      }

module _ {S F : Type 0} (mac : Bytes → Bytes) (s : Settings) where
  -- A request that presents an admin key.
  unfoldable pub enter_admin :
      Request → Moment → Bytes → Bool → Controller S F → Controller S F × Response F
  unfolding equal admin_session inc_request
  enter_admin r m key from_query c =
      if not (equal key s.admin_key)
      then (c, refused [] 403 "invalid admin key")
      else if from_query
      then (c, answered (admin_session mac m.now ∷ []) (found r.stripped_url))
      else (count RequestDecision.admin c, answered (admin_session mac m.now ∷ []) forwarded)

module _ {S E F : Type 0} (fl : Floats F) (o : Ops S E F) (mac : Bytes → Bytes)
    (as_string : Bytes → String) (s : Settings) where
  -- After the ticket is known.
  unfoldable pub decide :
      Request → Moment → Bytes → SetCookies → Controller S F → Controller S F × Response F
  unfolding waiting_room inc_request check
  decide r m id cookies c =
      let (c', res) = check fl o (as_string id) m.now m.later m.won c in
      elim res [
        | error e ↦ (c', refused cookies 500 "internal error")
        | ok out ↦ elim out.decision [
          | Decision.proxy ↦ (count RequestDecision.proxied c', answered cookies forwarded)
          | Decision.wait ↦
              (count RequestDecision.queued c', waiting_room fl s r m.later cookies out)
        ]
      ]

  unfoldable pub visit : Request → Moment → Controller S F → Controller S F × Response F
  unfolding ticket_id decide
  visit r m c = elim (ticket_id mac r m.new_id) [
    | none ↦ (c, refused [] 500 "internal error")
    | some (id, cookies) ↦ decide r m id cookies c
  ]

  unfoldable pub gatekeeper : Request → Moment → Controller S F → Controller S F × Response F
  unfolding admin_key_from is_admin visit enter_admin inc_request
  gatekeeper r m c = elim s.admin_key [
    | [] ↦ visit r m c
    | k ∷ ks ↦ elim (admin_key_from r).0 [
      | [] ↦
          if is_admin mac m.now r
          then (count RequestDecision.admin c, answered [] forwarded)
          else visit r m c
      | q ∷ qs ↦ enter_admin mac s r m (q ∷ qs) (admin_key_from r).1 c
    ]
  ]

  unfoldable pub handle_status : Request → Moment → Controller S F → Controller S F × Response F
  unfolding ticket_id status_of status_response
  handle_status r m c = elim (ticket_id mac r m.new_id) [
    | none ↦ (c, refused [] 500 "internal error")
    | some (id, cookies) ↦
        let (c', res) = status_of fl o (as_string id) m.now m.later m.won c in
        elim res [
          | error e ↦ (c', refused cookies 500 "internal error")
          | ok out ↦ (
            c',
            record {
              cookies = cookies;
              no_store = true;
              retry_after = none;
              answer = written 200 (status_json (status_response fl s m.later out));
            },
          )
        ]
  ]
