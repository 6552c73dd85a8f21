-- ===== src/Server/Admin.antt =====
-- internal/server/admin.go, the admin API, and the metrics endpoint of server.go.
use gowait.Prelude.{Bool, none, some, [], ◌∷◌, if◌then◌else◌}
use gowait.Results.{ok, error}
use gowait.Clock.{Time, Floats}
use gowait.Metrics.Text.{write_to}
use gowait.Store.Interface.{Ops}
use gowait.Queue.Controller.{Controller, stats, flush, set_capacity}
use gowait.Ticket.{Bytes, equal}
use gowait.Server.Http.{
  Request, Moment, Body, stats_json, capacity_json, flushed_json, metrics_text, written, Response,
  Settings,
}
use gowait.Server.Cookies.{is_admin}
use gowait.Server.Gatekeeper.{answered, refused}

module _ {S E F : Type 0} (o : Ops S E F) where
  abbrev pub json : Body F → Response F
  json b = answered [] (written 200 b)

  unfoldable pub handle_admin_stats : Controller S F → Controller S F × Response F
  unfolding stats
  handle_admin_stats c =
      let (c', r) = stats o c in
      (
        c',
        elim r [
          | ok st ↦ json (stats_json st c'.capacity)
          | error e ↦ refused [] 500 "stats unavailable"
        ],
      )

  unfoldable pub handle_admin_capacity_get : Controller S F → Controller S F × Response F
  handle_admin_capacity_get c = (c, json (capacity_json c.capacity))

  unfoldable pub handle_admin_capacity_put : Request → Controller S F → Controller S F × Response F
  unfolding set_capacity
  handle_admin_capacity_put r c = elim r.body_capacity [
    | none ↦ (c, refused [] 400 "invalid JSON body, want {\"capacity\": N}")
    | some n ↦
        let (c', done) = set_capacity o n c in
        (
          c',
          elim done [
            | ok _ ↦ json (capacity_json c'.capacity)
            | error e ↦ refused [] 400 "SetCapacity"
          ],
        )
  ]

  unfoldable pub handle_admin_flush : Controller S F → Controller S F × Response F
  unfolding flush
  handle_admin_flush c =
      let (c', r) = flush o c in
      (c', elim r [ ok n ↦ json (flushed_json n) | error e ↦ refused [] 500 "flush failed" ])

module _ {S E F : Type 0} (fl : Floats F) (o : Ops S E F) where
  unfoldable pub handle_metrics : Controller S F → Controller S F × Response F
  unfolding stats write_to
  handle_metrics c =
      let (c', r) = stats o c in
      (
        c',
        elim r [
          | ok st ↦ answered [] (written 200 (metrics_text (write_to fl c'.metrics st c'.capacity)))
          | error e ↦ refused [] 500 "stats unavailable"
        ],
      )

module _ (mac : Bytes → Bytes) (s : Settings) where
  unfoldable pub admin_authorized : Time → Request → Bool
  unfolding equal is_admin
  admin_authorized now r = elim r.admin_header [
    | [] ↦ is_admin mac now r
    | k ∷ ks ↦ equal (k ∷ ks) s.admin_key
  ]

  -- adminGuard
  unfoldable pub admin_guard :
      {S F : Type 0}
      → (Controller S F → Controller S F × Response F)
      → Request
      → Moment
      → Controller S F
      → Controller S F × Response F
  unfolding admin_authorized
  admin_guard next r m c = elim s.admin_key [
    | [] ↦ (c, refused [] 404 "404 page not found")
    | k ∷ ks ↦ if admin_authorized m.now r then next c else (c, refused [] 403 "forbidden")
  ]
