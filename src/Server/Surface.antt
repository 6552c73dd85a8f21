-- ===== src/Server/Surface.antt =====
-- Paths under /gowait/admin/ and the numbers of the status endpoint of internal/server.
use gowait.Prelude.{
  not, ℕ, ◌≡◌, refl, ◌⊎◌, inl, inr, Bool, true, false, ◌&&◌, String, some, [], ◌∷◌, ◌++◌, ℤ, ltb_ℤ,
  ◌≤ℤ◌, arith, if◌then◌else◌, Bool-cases,
}
use gowait.Results.{ok}
use gowait.Clock.{Time, Floats}
use gowait.Store.Interface.{Ops}
use gowait.Queue.Controller.{Controller, maybe_reconcile}
use gowait.Queue.Serving.{IsServing}
use gowait.Queue.Answers.{status_of-view}
use gowait.Store.Promises.{Promises}
use gowait.Server.Cookies.{ticket_id}
use gowait.Queue.Check.{Outcome, is_wait, status_of}
use gowait.Server.Guarded.{Bytes-cases}
use gowait.Ticket.{Bytes, equal}
use gowait.Server.Http.{
  StatusResponse, status_json, SetCookies, Request, Moment, Method, written, Response, Settings,
}
use gowait.Server.Gatekeeper.{refused, status_response, handle_status}
use gowait.Server.Admin.{
  admin_guard, admin_authorized, handle_admin_stats, handle_admin_capacity_get,
  handle_admin_capacity_put, handle_admin_flush,
}
use gowait.Server.Routes.{
  own, Route, admin_route, is_clean, unescape, route, handle_admin_fallback, run_route, serve,
  has_metrics,
}

abbrev is_guarded : Route → Bool
is_guarded Route.admin_stats = true
is_guarded Route.admin_capacity_get = true
is_guarded Route.admin_capacity_put = true
is_guarded Route.admin_flush = true
is_guarded Route.admin_fallback = true
is_guarded _ = false

admin_route-is_guarded :
    (method : Method) (path : Bytes) → is_guarded (admin_route method path) ≡ true
unfolding admin_route
admin_route-is_guarded Method.get path = elim (Bool-cases (equal path (own "admin/stats"))) [
  | inl b ↦ rw b refl
  | inr b ↦ elim (Bool-cases (equal path (own "admin/capacity"))) [
    | inl d ↦ rw (b, d) refl
    | inr d ↦ rw (b, d) refl
  ]
]
admin_route-is_guarded Method.put path = elim (Bool-cases (equal path (own "admin/capacity"))) [
  | inl b ↦ rw b refl
  | inr b ↦ rw b refl
]
admin_route-is_guarded Method.post path = elim (Bool-cases (equal path (own "admin/flush"))) [
  | inl b ↦ rw b refl
  | inr b ↦ rw b refl
]
admin_route-is_guarded Method.other path = refl

route-is_guarded :
    (hm : Bool) (r : Request) (rest : Bytes)
    → is_clean r.escaped_path ≡ true
    → unescape r.escaped_path ≡ own "admin/" ++ rest
    → is_guarded (route hm r) ≡ true
unfolding route
route-is_guarded true r rest clean e =
    rw (route, clean, e) (admin_route-is_guarded r.method (own "admin/" ++ rest))
route-is_guarded false r rest clean e =
    rw (route, clean, e) (admin_route-is_guarded r.method (own "admin/" ++ rest))

-- The refusal of adminGuard.
abbrev pub refusal : {F : Type 0} → Settings → Response F
refusal s = elim s.admin_key [
  | [] ↦ refused [] 404 "404 page not found"
  | k ∷ ks ↦ refused [] 403 "forbidden"
]

module _ {S E F : Type 0} (fl : Floats F) (o : Ops S E F) (mac : Bytes → Bytes)
    (as_string : Bytes → String) (s : Settings) where
  admin_guard_refuses :
      (next : Controller S F → Controller S F × Response F) (r : Request) (m : Moment)
      (c : Controller S F)
      → (s.admin_key ≡ []) ⊎ (admin_authorized mac s m.now r ≡ false)
      → admin_guard mac s next r m c ≡ (c, refusal s)
  unfolding admin_guard
  admin_guard_refuses next r m c (inl e) = rw (admin_guard, e) refl
  admin_guard_refuses next r m c (inr u) = elim (Bytes-cases s.admin_key) [
    | inl e ↦ rw (admin_guard, e) refl
    | inr (k, ks, e) ↦ rw (admin_guard, e, u) refl
  ]

  run_route_refuses :
      (rt : Route) (r : Request) (m : Moment) (c : Controller S F)
      → is_guarded rt ≡ true
      → (s.admin_key ≡ []) ⊎ (admin_authorized mac s m.now r ≡ false)
      → run_route fl o mac as_string s rt r m c ≡ (c, refusal s)
  unfolding run_route
  run_route_refuses Route.admin_stats r m c g u = admin_guard_refuses (handle_admin_stats o) r m c u
  run_route_refuses Route.admin_capacity_get r m c g u =
      admin_guard_refuses (handle_admin_capacity_get o) r m c u
  run_route_refuses Route.admin_capacity_put r m c g u =
      admin_guard_refuses (handle_admin_capacity_put o r) r m c u
  run_route_refuses Route.admin_flush r m c g u = admin_guard_refuses (handle_admin_flush o) r m c u
  run_route_refuses Route.admin_fallback r m c g u =
      admin_guard_refuses (handle_admin_fallback r) r m c u
  run_route_refuses Route.cleaned r m c g u = cc
  run_route_refuses Route.admin_root r m c g u = cc
  run_route_refuses Route.healthz r m c g u = cc
  run_route_refuses Route.status r m c g u = cc
  run_route_refuses Route.metrics_page r m c g u = cc
  run_route_refuses Route.gate r m c g u = cc

  -- A request for a path that net/http does not clean first, and whose segments, decoded, begin
  -- with those of /gowait/admin/, whatever its method, is answered with 404 where no admin key is
  -- configured and with 403 where it is not authorized, and leaves the controller as it is.
  pub serve-refusal :
      (r : Request) (m : Moment) (c : Controller S F) (rest : Bytes)
      → is_clean r.escaped_path ≡ true
      → unescape r.escaped_path ≡ own "admin/" ++ rest
      → (s.admin_key ≡ []) ⊎ (admin_authorized mac s m.now r ≡ false)
      → serve fl o mac as_string s r m c ≡ (c, refusal s)
  unfolding serve
  serve-refusal r m c rest clean e u =
      run_route_refuses (route (has_metrics s c) r) r m c
        (route-is_guarded (has_metrics s c) r rest clean e) u

-- The wait that is told: rounded up, but to who waits no less than the whole seconds of a poll interval.
abbrev pub IsAnnounced : (waits : Bool) (least estimate told : ℤ) → Type 0
IsAnnounced false least estimate told = told ≡ estimate
IsAnnounced true least estimate told =
    (least ≤ℤ told) × (estimate ≤ℤ told) × ((told ≡ least) ⊎ (told ≡ estimate))

-- What the status endpoint tells of an outcome.
pub record IsTold {F : Type 0} (fl : Floats F) (s : Settings) (st : StatusResponse) (out : Outcome)
    : Type 0 where
  pub active : st.active ≡ not (is_wait out.decision)
  pub position : st.position ≡ out.position
  pub queue_length : st.queue_length ≡ out.queue_length
  pub active_users : st.active_users ≡ out.active_count
  pub poll_seconds : st.poll_seconds ≡ fl.to_int64 (fl.seconds s.poll_interval)
  pub eta_seconds :
      IsAnnounced
        (is_wait out.decision)
        (fl.to_int64 (fl.seconds s.poll_interval))
        (fl.ceil (fl.seconds out.eta))
        st.eta_seconds

announced :
    (b : Bool) (least estimate : ℤ)
    → IsAnnounced b least estimate (if b && ltb_ℤ estimate least then least else estimate)
announced false least estimate = refl
announced true least estimate = elim (Bool-cases (ltb_ℤ estimate least)) [
  | inl b ↦ rw b (omega arith, ground (arith, b), inl refl)
  | inr b ↦ rw b (ground (arith, b), omega arith, inr refl)
]

status_response-IsTold :
    {F : Type 0} (fl : Floats F) (s : Settings) (now : Time) (out : Outcome)
    → IsTold fl s (status_response fl s now out) out
unfolding status_response
status_response-IsTold fl s now out = record {
  active = refl;
  position = refl;
  queue_length = refl;
  active_users = refl;
  poll_seconds = refl;
  eta_seconds =
      announced (is_wait out.decision) (fl.to_int64 (fl.seconds s.poll_interval))
        (fl.ceil (fl.seconds out.eta));
}

module _ {S E F : Type 0} (fl : Floats F) (o : Ops S E F) (p : Promises o) (mac : Bytes → Bytes)
    (as_string : Bytes → String) (s : Settings) where
  -- On a store that keeps its promises, with positive capacities and counters that agree with the
  -- room, and for a request with a ticket: the status endpoint answers 200, sets the cookie of a
  -- new ticket, and tells the outcome of StatusOf, which is its decision, position and counts, the
  -- whole seconds of the poll interval, and the estimate in seconds, rounded up and to who waits
  -- no less than those of the poll interval. After StatusOf's reconcile, which may admit, the
  -- line, the status of each ticket and the active count of the store stay as they are.
  pub handle_status_lem :
      (n : ℕ) (r : Request) (m : Moment) (id : Bytes) (cookies : SetCookies) (c : Controller S F)
      → IsServing fl o p n c
      → ticket_id mac r m.new_id ≡ some (id, cookies)
      → let (c', resp) = handle_status fl o mac as_string s r m c in
        (st : StatusResponse) × (out : Outcome) × (resp.answer ≡ written 200 (status_json st))
        × (resp.cookies ≡ cookies)
        × IsTold fl s st out
        × ((status_of fl o (as_string id) m.now m.later m.won c).1 ≡ ok out)
        × (p.view c'.store ≡ p.view (maybe_reconcile fl o m.now m.won c).0.store)
  unfolding handle_status
  handle_status_lem n r m id cookies c v e =
      let (out, f, (w, same)) = status_of-view fl o p n (as_string id) m.now m.later m.won c v in
      rw (handle_status, e, f)
        (
          status_response fl s m.later out,
          out,
          refl,
          refl,
          status_response-IsTold fl s m.later out,
          refl,
          same,
        )
