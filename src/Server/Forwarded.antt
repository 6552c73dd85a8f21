-- ===== src/Server/Forwarded.antt =====
-- Only the gatekeeper passes requests to the backend.
use gowait.Prelude.{ℕ, suc, ◌≡◌, ◌≢◌, ◌⊎◌, inl, inr, String, ◌||◌, Bool-cases, Option-cases}
use gowait.Results.{Result-cases}
use gowait.Clock.{Floats}
use gowait.Store.Interface.{Ops}
use gowait.Store.Promises.{Promises}
use gowait.Queue.Check.{status_of}
use gowait.Queue.Controller.{Controller, stats, flush, set_capacity}
use gowait.Queue.Serving.{IsServing}
use gowait.Ticket.{Bytes, equal}
use gowait.Server.Http.{
  Request, Moment, Answer, forwarded, written, Body, message, Response, Settings,
}
use gowait.Server.Cookies.{ticket_id}
use gowait.Server.Gatekeeper.{handle_status}
use gowait.Server.Admin.{
  admin_guard, admin_authorized, handle_admin_stats, handle_admin_capacity_get,
  handle_admin_capacity_put, handle_admin_flush, handle_metrics,
}
use gowait.Server.Routes.{own, Route, route, handle_admin_fallback, run_route, serve, has_metrics}
use gowait.Server.Guarded.{Bytes-cases, IsAdmin, IsActive, gatekeeper_forwarded}

-- An answer of this server's own.
abbrev IsOwn : {F : Type 0} → Answer F → Type 0
IsOwn a = a ≢ forwarded

written-IsOwn : {F : Type 0} (code : ℕ) (b : Body F) → IsOwn (written code b)
written-IsOwn code b h = cc

module _ {S E F : Type 0} (fl : Floats F) (o : Ops S E F) (mac : Bytes → Bytes)
    (as_string : Bytes → String) (s : Settings) where
  handle_status-IsOwn :
      (r : Request) (m : Moment) (c : Controller S F)
      → IsOwn (handle_status fl o mac as_string s r m c).1.answer
  unfolding handle_status
  handle_status-IsOwn r m c = elim (Option-cases (ticket_id mac r m.new_id)) [
    | inl e ↦ rw (e, handle_status) (written-IsOwn 500 _)
    | inr ((id, cookies), e) ↦
        elim (Result-cases (status_of fl o (as_string id) m.now m.later m.won c).1) [
          | inl (out, f) ↦ rw (e, f, handle_status) (written-IsOwn 200 _)
          | inr (x, f) ↦ rw (e, f, handle_status) (written-IsOwn 500 _)
        ]
  ]

  admin_guard-IsOwn :
      (next : Controller S F → Controller S F × Response F) (r : Request) (m : Moment)
      (c : Controller S F)
      → IsOwn (next c).1.answer
      → IsOwn (admin_guard mac s next r m c).1.answer
  unfolding admin_guard
  admin_guard-IsOwn next r m c h = elim (Bytes-cases s.admin_key) [
    | inl e ↦ rw (e, admin_guard) (written-IsOwn 404 (message "404 page not found"))
    | inr (k, ks, e) ↦ elim (Bool-cases (admin_authorized mac s m.now r)) [
      | inl b ↦ rw (e, b, admin_guard) h
      | inr b ↦ rw (e, b, admin_guard) (written-IsOwn 403 (message "forbidden"))
    ]
  ]

  stats-IsOwn : (c : Controller S F) → IsOwn (handle_admin_stats o c).1.answer
  unfolding handle_admin_stats
  stats-IsOwn c = elim (Result-cases (stats o c).1) [
    | inl (st, e) ↦ rw (e, handle_admin_stats) (written-IsOwn 200 _)
    | inr (x, e) ↦ rw (e, handle_admin_stats) (written-IsOwn 500 _)
  ]

  flush-IsOwn : (c : Controller S F) → IsOwn (handle_admin_flush o c).1.answer
  unfolding handle_admin_flush
  flush-IsOwn c = elim (Result-cases (flush o c).1) [
    | inl (n, e) ↦ rw (e, handle_admin_flush) (written-IsOwn 200 _)
    | inr (x, e) ↦ rw (e, handle_admin_flush) (written-IsOwn 500 _)
  ]

  metrics-IsOwn : (c : Controller S F) → IsOwn (handle_metrics fl o c).1.answer
  unfolding handle_metrics
  metrics-IsOwn c = elim (Result-cases (stats o c).1) [
    | inl (st, e) ↦ rw (e, handle_metrics) (written-IsOwn 200 _)
    | inr (x, e) ↦ rw (e, handle_metrics) (written-IsOwn 500 _)
  ]

  put-IsOwn : (r : Request) (c : Controller S F) → IsOwn (handle_admin_capacity_put o r c).1.answer
  unfolding handle_admin_capacity_put
  put-IsOwn r c = elim (Option-cases r.body_capacity) [
    | inl e ↦ rw (e, handle_admin_capacity_put) (written-IsOwn 400 _)
    | inr (k, e) ↦ elim (Result-cases (set_capacity o k c).1) [
      | inl (_, f) ↦ rw (e, f, handle_admin_capacity_put) (written-IsOwn 200 _)
      | inr (x, f) ↦ rw (e, f, handle_admin_capacity_put) (written-IsOwn 400 _)
    ]
  ]

  fallback-IsOwn : (r : Request) (c : Controller S F) → IsOwn (handle_admin_fallback r c).1.answer
  unfolding handle_admin_fallback
  fallback-IsOwn r c =
      elim (Bool-cases (
        equal r.path (own "admin/stats")
        || equal r.path (own "admin/capacity")
        || equal r.path (own "admin/flush"))) [
          | inl b ↦ rw (b, handle_admin_fallback) (written-IsOwn 405 _)
          | inr b ↦ rw (b, handle_admin_fallback) (written-IsOwn 404 _)
        ]

module _ {S E F : Type 0} (fl : Floats F) (o : Ops S E F) (p : Promises o) (mac : Bytes → Bytes)
    (as_string : Bytes → String) (s : Settings) where
  run_route_forwarded :
      (n : ℕ) (rt : Route) (r : Request) (m : Moment) (c : Controller S F)
      → IsServing fl o p (suc n) c
      → (run_route fl o mac as_string s rt r m c).1.answer ≡ forwarded
      → IsAdmin fl o p mac as_string s r m
        ⊎ IsActive fl o p mac as_string s r m (run_route fl o mac as_string s rt r m c).0
  unfolding run_route
  run_route_forwarded n Route.gate r m c v h =
      gatekeeper_forwarded fl o p mac as_string s n r m c v h
  run_route_forwarded n Route.cleaned r m c v h = cc
  run_route_forwarded n Route.healthz r m c v h = absurd (written-IsOwn 200 (message "ok") h)
  run_route_forwarded n Route.admin_root r m c v h = cc
  run_route_forwarded n Route.status r m c v h =
      absurd (handle_status-IsOwn fl o mac as_string s r m c h)
  run_route_forwarded n Route.metrics_page r m c v h =
      absurd (metrics-IsOwn fl o mac as_string s c h)
  run_route_forwarded n Route.admin_stats r m c v h = absurd (
      admin_guard-IsOwn fl o mac as_string s (handle_admin_stats o) r m c
        (stats-IsOwn fl o mac as_string s c) h)
  run_route_forwarded n Route.admin_capacity_get r m c v h = absurd (
      admin_guard-IsOwn fl o mac as_string s (handle_admin_capacity_get o) r m c
        (written-IsOwn 200 _) h)
  run_route_forwarded n Route.admin_capacity_put r m c v h = absurd (
      admin_guard-IsOwn fl o mac as_string s (handle_admin_capacity_put o r) r m c
        (put-IsOwn fl o mac as_string s r c) h)
  run_route_forwarded n Route.admin_flush r m c v h = absurd (
      admin_guard-IsOwn fl o mac as_string s (handle_admin_flush o) r m c
        (flush-IsOwn fl o mac as_string s c) h)
  run_route_forwarded n Route.admin_fallback r m c v h = absurd (
      admin_guard-IsOwn fl o mac as_string s (handle_admin_fallback r) r m c
        (fallback-IsOwn fl o mac as_string s r c) h)

  pub serve_forwarded :
      (n : ℕ) (r : Request) (m : Moment) (c : Controller S F)
      → IsServing fl o p (suc n) c
      → (serve fl o mac as_string s r m c).1.answer ≡ forwarded
      → IsAdmin fl o p mac as_string s r m
        ⊎ IsActive fl o p mac as_string s r m (serve fl o mac as_string s r m c).0
  unfolding serve
  serve_forwarded n r m c v h = run_route_forwarded n (route (has_metrics s c) r) r m c v h
