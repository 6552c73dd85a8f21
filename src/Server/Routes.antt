-- ===== src/Server/Routes.antt =====
-- Handler of internal/server/server.go and registerAdmin of admin.go: which handler a path reaches, as
-- net/http documents its patterns: an exact path before a subtree, a method before none.
use gowait.Prelude.{
  ℕ, ◌+◌, ◌*◌, ◌-◌, ◌==◌, ltb, not, String, Bool, true, false, ◌&&◌, ◌||◌, none, some, [], ◌∷◌,
  ◌++◌, if◌then◌else◌,
}
use gowait.Clock.{Floats}
use gowait.Store.Interface.{Ops}
use gowait.Queue.Controller.{Controller}
use gowait.Ticket.{Bytes, equal, has_prefix}
use gowait.Server.Http.{bytes, Method, Request, Moment, message, written, moved, Response, Settings}
use gowait.Server.Gatekeeper.{answered, refused, gatekeeper, handle_status}
use gowait.Server.Admin.{
  handle_admin_stats, handle_admin_capacity_get, handle_admin_capacity_put, handle_admin_flush,
  handle_metrics, admin_guard,
}

-- ownPrefix and a path under it
abbrev pub own : String → Bytes
own path = bytes "/gowait/" ++ bytes path

pub data Route : Type 0 where
  cleaned : Route
  healthz status metrics_page gate : Route
  admin_stats admin_capacity_get admin_capacity_put admin_flush admin_fallback admin_root : Route

-- registerAdmin
unfoldable pub admin_route : Method → Bytes → Route
unfolding equal
admin_route Method.get path =
    if equal path (own "admin/stats")
    then Route.admin_stats
    else if equal path (own "admin/capacity")
    then Route.admin_capacity_get
    else Route.admin_fallback
admin_route Method.put path =
    if equal path (own "admin/capacity") then Route.admin_capacity_put else Route.admin_fallback
admin_route Method.post path =
    if equal path (own "admin/flush") then Route.admin_flush else Route.admin_fallback
admin_route Method.other path = Route.admin_fallback

-- The segment of a path that is being read, by its dots.
pub data Segment : Type 0 where
  blank one_dot two_dots other : Segment

unfoldable pub more : Segment → ℕ → Segment
more blank c = if c == 46 then one_dot else other
more one_dot c = if c == 46 then two_dots else other
more two_dots c = other
more other c = other

unfoldable pub is_proper : Segment → Bool
is_proper one_dot = false
is_proper two_dots = false
is_proper _ = true

unfoldable pub is_clean_from : Segment → Bytes → Bool
unfolding more is_proper
is_clean_from g [] = is_proper g
is_clean_from blank (c ∷ s) =
    let rest = is_clean_from (more blank c) s in if c == 47 then false else rest
is_clean_from g (c ∷ s) =
    let next = is_clean_from blank s in
    let rest = is_clean_from (more g c) s in if c == 47 then is_proper g && next else rest

-- Whether ServeMux takes a path as it is: from a slash on, without the segments "." and "..", and
-- without two slashes in a row.
unfoldable pub is_clean : Bytes → Bool
unfolding is_clean_from
is_clean [] = false
is_clean (c ∷ s) = if c == 47 then is_clean_from blank s else false

-- A hexadecimal digit.
unfoldable pub digit : ℕ → ℕ
digit c = if ltb c 58 then c - 48 else if ltb c 97 then c - 55 else c - 87

-- The path that is compared with the patterns: ServeMux decodes each segment, so that an escaped slash
-- is none.
unfoldable pub unescape : Bytes → Bytes
unfolding digit
unescape [] = []
unescape (c ∷ []) = c ∷ []
unescape (c ∷ h ∷ []) = c ∷ h ∷ []
unescape (c ∷ h ∷ l ∷ s) =
    let after = unescape s in
    let rest = unescape (h ∷ l ∷ s) in
    let b = 16 * digit h + digit l in
    if c == 37 then if b == 47 then c ∷ h ∷ l ∷ after else b ∷ after else c ∷ rest

-- The pattern that a request matches, or the redirect of net/http for a path that is not clean; HEAD counts as GET and is not told apart here.
unfoldable pub route : Bool → Request → Route
unfolding equal has_prefix admin_route is_clean unescape
route has_metrics r =
    let path = unescape r.escaped_path in
    if not (is_clean r.escaped_path)
    then Route.cleaned
    else if equal path (own "healthz")
    then Route.healthz
    else if equal path (own "status")
    then Route.status
    else if has_metrics && equal path (own "metrics")
    then Route.metrics_page
    else if has_prefix path (own "admin/")
    then admin_route r.method path
    else if equal path (own "admin")
    then Route.admin_root
    else Route.gate

module _ {S F : Type 0} where
  -- handleAdminFallback
  unfoldable pub handle_admin_fallback : Request → Controller S F → Controller S F × Response F
  unfolding equal
  handle_admin_fallback r c =
      if equal r.path (own "admin/stats")
        || equal r.path (own "admin/capacity")
        || equal r.path (own "admin/flush")
      then (c, refused [] 405 "method not allowed")
      else (c, refused [] 404 "404 page not found")

-- s.cfg.Metrics && s.metrics != nil
abbrev pub has_metrics : {S F : Type 0} → Settings → Controller S F → Bool
has_metrics s c = elim c.metrics [ none ↦ false | some _ ↦ s.metrics ]

module _ {S E F : Type 0} (fl : Floats F) (o : Ops S E F) (mac : Bytes → Bytes)
    (as_string : Bytes → String) (s : Settings) where
  unfoldable pub run_route : Route → Request → Moment → Controller S F → Controller S F × Response F
  unfolding gatekeeper handle_status handle_metrics admin_guard handle_admin_stats
      handle_admin_capacity_get handle_admin_capacity_put handle_admin_flush handle_admin_fallback
  -- net/http redirects to the clean path.
  run_route Route.cleaned r m c = (c, answered [] (moved r.clean_url))
  run_route Route.healthz r m c = (c, answered [] (written 200 (message "ok")))
  -- net/http adds the slash of a subtree.
  run_route Route.admin_root r m c = (c, answered [] (moved (own "admin/")))
  run_route Route.status r m c = handle_status fl o mac as_string s r m c
  run_route Route.metrics_page r m c = handle_metrics fl o c
  run_route Route.gate r m c = gatekeeper fl o mac as_string s r m c
  run_route Route.admin_stats r m c = admin_guard mac s (handle_admin_stats o) r m c
  run_route Route.admin_capacity_get r m c = admin_guard mac s (handle_admin_capacity_get o) r m c
  run_route Route.admin_capacity_put r m c = admin_guard mac s (handle_admin_capacity_put o r) r m c
  run_route Route.admin_flush r m c = admin_guard mac s (handle_admin_flush o) r m c
  run_route Route.admin_fallback r m c = admin_guard mac s (handle_admin_fallback r) r m c

  unfoldable pub serve : Request → Moment → Controller S F → Controller S F × Response F
  unfolding route run_route
  serve r m c = run_route (route (has_metrics s c) r) r m c
