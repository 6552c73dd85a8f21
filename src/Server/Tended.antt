-- ===== src/Server/Tended.antt =====
-- Every request that the handler serves leaves the controller as it should be.
use gowait.Prelude.{ℕ, suc, inl, inr, String, Bool, ◌||◌, ◌∷◌, Bool-cases, Option-cases}
use gowait.Clock.{Floats}
use gowait.Store.Interface.{Ops}
use gowait.Store.Promises.{Promises}
use gowait.Metrics.{RequestDecision}
use gowait.Queue.Controller.{Controller}
use gowait.Queue.Serving.{IsServing}
use gowait.Queue.Answers.{fewer, status_of-view}
use gowait.Queue.Tending.{stats-IsServing, flush-IsServing, set_capacity-IsServing}
use gowait.Ticket.{Bytes, equal}
use gowait.Server.Http.{Request, Moment, Response, Settings}
use gowait.Server.Cookies.{ticket_id, is_admin}
use gowait.Server.Gatekeeper.{admin_key_from, enter_admin, gatekeeper, visit, handle_status}
use gowait.Server.Admin.{
  admin_guard, admin_authorized, handle_admin_stats, handle_admin_capacity_get,
  handle_admin_capacity_put, handle_admin_flush, handle_metrics,
}
use gowait.Server.Routes.{own, Route, route, handle_admin_fallback, run_route, serve, has_metrics}
use gowait.Server.Guarded.{
  Bytes-cases, count-IsServing, unticketed, visit-IsServed, gatekeeper_open, gatekeeper_keyless,
  gatekeeper_keyed,
}

module _ {S E F : Type 0} (fl : Floats F) (o : Ops S E F) (p : Promises o) (mac : Bytes → Bytes)
    (as_string : Bytes → String) (s : Settings) where
  visit-IsServing :
      (n : ℕ) (r : Request) (m : Moment) (c : Controller S F)
      → IsServing fl o p (suc n) c
      → IsServing fl o p n (visit fl o mac as_string s r m c).0
  visit-IsServing n r m c v = elim (Option-cases (ticket_id mac r m.new_id)) [
    | inl e ↦ rw (unticketed fl o p mac as_string s r m c e) (fewer fl o p n c v)
    | inr ((id, cookies), e) ↦ (visit-IsServed fl o p mac as_string s n r m id cookies c v e).0
  ]

  enter_admin-IsServing :
      (n : ℕ) (r : Request) (m : Moment) (key : Bytes) (from_query : Bool) (c : Controller S F)
      → IsServing fl o p n c
      → IsServing fl o p n (enter_admin mac s r m key from_query c).0
  unfolding enter_admin
  enter_admin-IsServing n r m key from_query c v = elim (Bool-cases (equal key s.admin_key)) [
    | inr b ↦ rw (b, enter_admin) v
    | inl b ↦ elim (Bool-cases from_query) [
      | inl q ↦ rw (b, q, enter_admin) v
      | inr q ↦ rw (b, q, enter_admin) (count-IsServing fl o p n RequestDecision.admin c v)
    ]
  ]

  gatekeeper-IsServing :
      (n : ℕ) (r : Request) (m : Moment) (c : Controller S F)
      → IsServing fl o p (suc n) c
      → IsServing fl o p n (gatekeeper fl o mac as_string s r m c).0
  gatekeeper-IsServing n r m c v = elim (Bytes-cases s.admin_key) [
    | inl e ↦ rw (gatekeeper_open fl o p mac as_string s r m c e) (visit-IsServing n r m c v)
    | inr (k, ks, e) ↦ elim (Bytes-cases (admin_key_from r).0) [
      | inr (q, qs, f) ↦
          rw (gatekeeper_keyed fl o p mac as_string s r m c k q ks qs e f)
            (enter_admin-IsServing n r m (q ∷ qs) (admin_key_from r).1 c (fewer fl o p n c v))
      | inl f ↦ elim (Bool-cases (is_admin mac m.now r)) [
        | inl b ↦
            rw (gatekeeper_keyless fl o p mac as_string s r m c k ks e f, b)
              (count-IsServing fl o p n RequestDecision.admin c (fewer fl o p n c v))
        | inr b ↦
            rw (gatekeeper_keyless fl o p mac as_string s r m c k ks e f, b)
              (visit-IsServing n r m c v)
      ]
    ]
  ]

  handle_status-IsServing :
      (n : ℕ) (r : Request) (m : Moment) (c : Controller S F)
      → IsServing fl o p n c
      → IsServing fl o p n (handle_status fl o mac as_string s r m c).0
  unfolding handle_status
  handle_status-IsServing n r m c v = elim (Option-cases (ticket_id mac r m.new_id)) [
    | inl e ↦ rw (e, handle_status) v
    | inr ((id, cookies), e) ↦
        let (out, f, (w, same)) = status_of-view fl o p n (as_string id) m.now m.later m.won c v in
        rw (e, f, handle_status) w
  ]

  -- The guard, and what it guards.
  admin_guard-IsServing :
      (n : ℕ) (next : Controller S F → Controller S F × Response F) (r : Request) (m : Moment)
      (c : Controller S F)
      → IsServing fl o p n c
      → IsServing fl o p n (next c).0
      → IsServing fl o p n (admin_guard mac s next r m c).0
  unfolding admin_guard
  admin_guard-IsServing n next r m c v w = elim (Bytes-cases s.admin_key) [
    | inl e ↦ rw (e, admin_guard) v
    | inr (k, ks, e) ↦ elim (Bool-cases (admin_authorized mac s m.now r)) [
      | inl b ↦ rw (e, b, admin_guard) w
      | inr b ↦ rw (e, b, admin_guard) v
    ]
  ]

  fallback-IsServing :
      (n : ℕ) (r : Request) (c : Controller S F)
      → IsServing fl o p n c
      → IsServing fl o p n (handle_admin_fallback r c).0
  unfolding handle_admin_fallback
  fallback-IsServing n r c v =
      elim (Bool-cases (
        equal r.path (own "admin/stats")
        || equal r.path (own "admin/capacity")
        || equal r.path (own "admin/flush"))) [
          | inl b ↦ rw (b, handle_admin_fallback) v
          | inr b ↦ rw (b, handle_admin_fallback) v
        ]

  put-IsServing :
      (n : ℕ) (r : Request) (c : Controller S F)
      → IsServing fl o p n c
      → IsServing fl o p n (handle_admin_capacity_put o r c).0
  unfolding handle_admin_capacity_put
  put-IsServing n r c v = elim (Option-cases r.body_capacity) [
    | inl e ↦ rw (e, handle_admin_capacity_put) v
    | inr (k, e) ↦ rw (e, handle_admin_capacity_put) (set_capacity-IsServing fl o p n k c v)
  ]

  run_route-IsServing :
      (n : ℕ) (rt : Route) (r : Request) (m : Moment) (c : Controller S F)
      → IsServing fl o p (suc n) c
      → IsServing fl o p n (run_route fl o mac as_string s rt r m c).0
  unfolding run_route handle_admin_stats handle_admin_capacity_get handle_admin_flush handle_metrics
      handle_admin_fallback
  run_route-IsServing n Route.cleaned r m c v = fewer fl o p n c v
  run_route-IsServing n Route.healthz r m c v = fewer fl o p n c v
  run_route-IsServing n Route.admin_root r m c v = fewer fl o p n c v
  run_route-IsServing n Route.status r m c v = handle_status-IsServing n r m c (fewer fl o p n c v)
  run_route-IsServing n Route.metrics_page r m c v = stats-IsServing fl o p n c (fewer fl o p n c v)
  run_route-IsServing n Route.gate r m c v = gatekeeper-IsServing n r m c v
  run_route-IsServing n Route.admin_stats r m c v =
      let w = fewer fl o p n c v in
      admin_guard-IsServing n (handle_admin_stats o) r m c w (stats-IsServing fl o p n c w)
  run_route-IsServing n Route.admin_capacity_get r m c v =
      let w = fewer fl o p n c v in admin_guard-IsServing n (handle_admin_capacity_get o) r m c w w
  run_route-IsServing n Route.admin_capacity_put r m c v =
      let w = fewer fl o p n c v in
      admin_guard-IsServing n (handle_admin_capacity_put o r) r m c w (put-IsServing n r c w)
  run_route-IsServing n Route.admin_flush r m c v =
      let w = fewer fl o p n c v in
      admin_guard-IsServing n (handle_admin_flush o) r m c w (flush-IsServing fl o p n c w)
  run_route-IsServing n Route.admin_fallback r m c v =
      let w = fewer fl o p n c v in
      admin_guard-IsServing n (handle_admin_fallback r) r m c w (fallback-IsServing n r c w)

  pub serve-IsServing :
      (n : ℕ) (r : Request) (m : Moment) (c : Controller S F)
      → IsServing fl o p (suc n) c
      → IsServing fl o p n (serve fl o mac as_string s r m c).0
  unfolding serve
  serve-IsServing n r m c v = run_route-IsServing n (route (has_metrics s c) r) r m c v
