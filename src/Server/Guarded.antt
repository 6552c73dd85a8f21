-- ===== src/Server/Guarded.antt =====
-- Whom the handlers of internal/server let through.
use gowait.Prelude.{
  ℕ, suc, ◌≡◌, ◌≢◌, refl, ap, sym, subst, ◌∙◌, ◌⊎◌, inl, inr, Bool, String, Option, none, some, [],
  ◌∷◌, ◌++◌, ℤ, ◌<ℤ◌, if◌then◌else◌, Bool-cases, Option-cases,
}
use gowait.Clock.{Time, Floats}
use gowait.Store.{Status}
use gowait.Store.Interface.{Ops}
use gowait.Store.Promises.{Promises, IsPlaced}
use gowait.Metrics.{RequestDecision, Registry, inc_request}
use gowait.Queue.Controller.{Controller}
use gowait.Queue.Check.{Decision, Outcome, check}
use gowait.Queue.Serving.{IsServing, IsBalanced}
use gowait.Queue.Answers.{check-IsDecided}
use gowait.Decimal.{atoi}
use gowait.Ticket.{Bytes, equal, sign}
use gowait.Ticket.Signatures.{equal-path}
use gowait.Server.Http.{
  Request, Moment, SetCookies, Body, message, wait_page, status_json, written, forwarded, Response,
  Settings,
}
use gowait.Server.Cookies.{ticket_id, is_admin, admin_prefix, unix}
use gowait.Server.Sessions.{is_admin_sound}
use gowait.Server.Gatekeeper.{
  answered, refused, admin_key_from, count, accepts_html, status_response, waiting_room, decide,
  visit, enter_admin, gatekeeper,
}

count-IsBalanced :
    {F : Type 0} (d : RequestDecision) (m : Option (Registry F)) (k : ℕ)
    → IsBalanced m k
    → IsBalanced (inc_request d m) k
unfolding inc_request
count-IsBalanced d none k b = b
count-IsBalanced RequestDecision.proxied (some r) k b = b
count-IsBalanced RequestDecision.queued (some r) k b = b
count-IsBalanced RequestDecision.admin (some r) k b = b

pub Bytes-cases : (b : Bytes) → (b ≡ []) ⊎ ((c : ℕ) × (cs : Bytes) × (b ≡ c ∷ cs))
Bytes-cases [] = inl refl
Bytes-cases (c ∷ cs) = inr (c, cs, refl)

written-forwarded : {F : Type 0} (code : ℕ) (b : Body F) → written code b ≢ forwarded
written-forwarded code b h = cc

waiting_room-forwarded :
    {F : Type 0} (fl : Floats F) (s : Settings) (r : Request) (now : Time) (cookies : SetCookies)
    (out : Outcome)
    → (waiting_room fl s r now cookies out).answer ≢ forwarded
unfolding waiting_room
waiting_room-forwarded fl s r now cookies out h = elim (Bool-cases (accepts_html r)) [
  | inl b ↦ written-forwarded 200 (wait_page s.wait_html) (sym (rw (waiting_room, b) refl) ∙ h)
  | inr b ↦
      written-forwarded 503 (status_json (status_response fl s now out))
        (sym (rw (waiting_room, b) refl) ∙ h)
]

module _ {S E F : Type 0} (fl : Floats F) (o : Ops S E F) (p : Promises o) where
  pub count-IsServing :
      (n : ℕ) (d : RequestDecision) (c : Controller S F)
      → IsServing fl o p n c
      → IsServing fl o p n (count d c)
  count-IsServing n d c v = record {
    valid = v.valid;
    capacity = v.capacity;
    configured = v.configured;
    balanced = count-IsBalanced d c.metrics _ v.balanced;
  }

  module _ (mac : Bytes → Bytes) (as_string : Bytes → String) (s : Settings) where
    -- A visitor who goes on has a session; one who waits is in line, and is told so. The request is
    -- counted once.
    abbrev pub IsServed :
        Request
        → Moment
        → Bytes
        → SetCookies
        → Controller S F
        → Controller S F × Response F
        → Type 0
    IsServed r m id cookies c (c', resp) =
        let checked = (check fl o (as_string id) m.now m.later m.won c).0 in
        (resp ≡ answered cookies forwarded)
          × (c' ≡ count RequestDecision.proxied checked)
          × ((p.view c'.store).status (as_string id) ≡ Status.active)
        ⊎ ((out : Outcome) × (resp ≡ waiting_room fl s r m.later cookies out)
            × (c' ≡ count RequestDecision.queued checked)
            × (out.decision ≡ Decision.wait)
            × IsPlaced (p.view c'.store) (as_string id) out.position)

    decide-IsServed :
        (n : ℕ) (r : Request) (m : Moment) (id : Bytes) (cookies : SetCookies) (c : Controller S F)
        → IsServing fl o p (suc n) c
        → IsServing fl o p n (decide fl o mac as_string s r m id cookies c).0
          × IsServed r m id cookies c (decide fl o mac as_string s r m id cookies c)
    unfolding decide
    decide-IsServed n r m id cookies c v =
        let (out, e, (w, d)) = check-IsDecided fl o p n (as_string id) m.now m.later m.won c v in
        elim d [
          | inl (proxied, active) ↦
              rw (decide, e, proxied)
                (count-IsServing n RequestDecision.proxied _ w, inl (refl, refl, active))
          | inr (waits, placed) ↦
              rw (decide, e, waits)
                (count-IsServing n RequestDecision.queued _ w, inr (out, refl, refl, waits, placed))
        ]

    -- On a store that keeps its promises, with positive capacities and counters that agree with
    -- the room, a visitor with a ticket is passed to the backend and counted once as proxied, and
    -- then the ticket is active in the store, or is counted once as queued and answered with the
    -- waiting room of an outcome that tells the ticket's place in line. What the theorem assumes
    -- of the controller holds again, with room for one ticket less in line.
    pub visit-IsServed :
        (n : ℕ) (r : Request) (m : Moment) (id : Bytes) (cookies : SetCookies) (c : Controller S F)
        → IsServing fl o p (suc n) c
        → ticket_id mac r m.new_id ≡ some (id, cookies)
        → IsServing fl o p n (visit fl o mac as_string s r m c).0
          × IsServed r m id cookies c (visit fl o mac as_string s r m c)
    unfolding visit
    visit-IsServed n r m id cookies c v e = rw (visit, e) (decide-IsServed n r m id cookies c v)

    -- The key of the request is the configured one, or its cookie is a signed session that has not run out.
    abbrev pub IsAdmin : Request → Moment → Type 0
    IsAdmin r m =
        (s.admin_key ≢ [])
        × (((admin_key_from r).0 ≡ s.admin_key)
            ⊎ ((text : Bytes) × (exp : ℤ) × (r.admin_cookie
                  ≡ some (sign mac (admin_prefix ++ text)))
                × (atoi text ≡ some exp)
                × (unix m.now <ℤ exp)))

    -- The request has a ticket, and it is active in the store.
    abbrev pub IsActive : Request → Moment → Controller S F → Type 0
    IsActive r m c' =
        (id : Bytes) × (cookies : SetCookies) × (ticket_id mac r m.new_id ≡ some (id, cookies))
        × ((p.view c'.store).status (as_string id) ≡ Status.active)

    pub unticketed :
        (r : Request) (m : Moment) (c : Controller S F)
        → ticket_id mac r m.new_id ≡ none
        → visit fl o mac as_string s r m c ≡ (c, refused [] 500 "internal error")
    unfolding visit
    unticketed r m c e = rw (visit, e) refl

    visit_forwarded :
        (n : ℕ) (r : Request) (m : Moment) (c : Controller S F)
        → IsServing fl o p (suc n) c
        → (visit fl o mac as_string s r m c).1.answer ≡ forwarded
        → IsActive r m (visit fl o mac as_string s r m c).0
    visit_forwarded n r m c v h = elim (Option-cases (ticket_id mac r m.new_id)) [
      | inl e ↦ absurd (
          written-forwarded 500 (message "internal error")
            (ap (λ x. x.1.answer) (sym (unticketed r m c e)) ∙ h))
      | inr ((id, cookies), e) ↦ elim (visit-IsServed n r m id cookies c v e).1 [
        | inl (sent, counted, active) ↦ (id, cookies, e, active)
        | inr (out, waits, counted, d, placed) ↦
            absurd (
              waiting_room-forwarded fl s r m.later cookies out
                (ap (λ x. x.answer) (sym waits) ∙ h))
      ]
    ]

    -- The gatekeeper's answer, by the key of the request.
    pub gatekeeper_open :
        (r : Request) (m : Moment) (c : Controller S F)
        → s.admin_key ≡ []
        → gatekeeper fl o mac as_string s r m c ≡ visit fl o mac as_string s r m c
    unfolding gatekeeper
    gatekeeper_open r m c e = rw (gatekeeper, e) refl

    pub gatekeeper_keyless :
        (r : Request) (m : Moment) (c : Controller S F) (k : ℕ) (ks : Bytes)
        → s.admin_key ≡ k ∷ ks
        → (admin_key_from r).0 ≡ []
        → gatekeeper fl o mac as_string s r m c ≡ (
            if is_admin mac m.now r
            then (count RequestDecision.admin c, answered [] forwarded)
            else visit fl o mac as_string s r m c)
    unfolding gatekeeper
    gatekeeper_keyless r m c k ks e f = rw (gatekeeper, e, f) refl

    pub gatekeeper_keyed :
        (r : Request) (m : Moment) (c : Controller S F) (k q : ℕ) (ks qs : Bytes)
        → s.admin_key ≡ k ∷ ks
        → (admin_key_from r).0 ≡ q ∷ qs
        → gatekeeper fl o mac as_string s r m c
          ≡ enter_admin mac s r m (q ∷ qs) (admin_key_from r).1 c
    unfolding gatekeeper
    gatekeeper_keyed r m c k q ks qs e f = rw (gatekeeper, e, f, enter_admin, e) refl

    enter_admin_forwarded :
        (r : Request) (m : Moment) (key : Bytes) (from_query : Bool) (c : Controller S F)
        → (enter_admin mac s r m key from_query c).1.answer ≡ forwarded
        → key ≡ s.admin_key
    unfolding enter_admin
    enter_admin_forwarded r m key from_query c h = elim (Bool-cases (equal key s.admin_key)) [
      | inl b ↦ equal-path key s.admin_key b
      | inr b ↦
          absurd (
            written-forwarded 403 (message "invalid admin key")
              (sym (rw (enter_admin, b) refl) ∙ h))
    ]

    -- On a store that keeps its promises, with positive capacities and counters that agree with
    -- the room: a request that the gatekeeper passes to the backend presents the configured admin
    -- key, or a cookie that is a signed admin session which has not run out (both only where a
    -- key is configured), or comes with a ticket, from its cookie or new, that is active in the
    -- store afterwards.
    pub gatekeeper_forwarded :
        (n : ℕ) (r : Request) (m : Moment) (c : Controller S F)
        → IsServing fl o p (suc n) c
        → (gatekeeper fl o mac as_string s r m c).1.answer ≡ forwarded
        → IsAdmin r m ⊎ IsActive r m (gatekeeper fl o mac as_string s r m c).0
    gatekeeper_forwarded n r m c v h =
        let g = gatekeeper fl o mac as_string s r m c in
        let guest : g ≡ visit fl o mac as_string s r m c → IsAdmin r m ⊎ IsActive r m g.0 = λ e.
          inr (
            subst (λ x. IsActive r m x.0) (sym e)
              (visit_forwarded n r m c v (ap (λ x. x.1.answer) (sym e) ∙ h))) in
        elim (Bytes-cases s.admin_key) [
          | inl e ↦ guest (gatekeeper_open r m c e)
          | inr (k, ks, e) ↦
              let keyed : s.admin_key ≢ [] =
                λ none_set. (let f : k ∷ ks ≡ [] = sym e ∙ none_set in cc) in
              elim (Bytes-cases (admin_key_from r).0) [
                | inl f ↦ elim (Bool-cases (is_admin mac m.now r)) [
                  | inl b ↦ inl (keyed, inr (is_admin_sound mac r m.now b))
                  | inr b ↦ guest (gatekeeper_keyless r m c k ks e f ∙ rw b refl)
                ]
                | inr (q, qs, f) ↦
                    let at = gatekeeper_keyed r m c k q ks qs e f in
                    inl (
                      keyed,
                      inl (
                          f
                          ∙ enter_admin_forwarded r m (q ∷ qs) (admin_key_from r).1 c
                              (ap (λ x. x.1.answer) (sym at) ∙ h)),
                    )
              ]
        ]
