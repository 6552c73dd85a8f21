-- ===== src/Server/Cookies.antt =====
-- The cookies of internal/server/server.go: a visitor's ticket and an admin's session.
use gowait.Prelude.{
  ℕ, ◌+◌, ◌/◌, Bool, false, not, Option, none, some, [], ◌∷◌, ◌++◌, ℤ, pos, ◌-ℤ◌, ltb_ℤ,
  if◌then◌else◌,
}
use gowait.Clock.{Time}
use gowait.Decimal.{itoa, atoi}
use gowait.Ticket.{Bytes, sign, verify, has_prefix, trim_prefix}
use gowait.Server.Http.{bytes, Request, CookieName, ticket_cookie, admin_cookie, SetCookies}

-- t.Unix()
abbrev pub unix : Time → ℤ
unix t = pos (t / 1000000000) -ℤ pos 62135596800

-- 12 * time.Hour
abbrev pub admin_session_duration : ℕ
admin_session_duration = 43200000000000

-- "admin:"
abbrev pub admin_prefix : Bytes
admin_prefix = bytes "admin:"

module _ (mac : Bytes → Bytes) where
  abbrev pub set_cookie : CookieName → Bytes → CookieName × Bytes
  set_cookie name payload = (name, sign mac payload)

  -- The id that a cookie proves, if it does.
  unfoldable pub verified_id : Option Bytes → Option Bytes
  unfolding verify
  verified_id none = none
  verified_id (some value) = elim (verify mac value) [
    | none ↦ none
    | some id ↦ elim id [ [] ↦ none | c ∷ cs ↦ some (c ∷ cs) ]
  ]

  -- `none` where no ticket can be minted
  unfoldable pub ticket_id : Request → Option Bytes → Option (Bytes × SetCookies)
  unfolding verified_id sign
  ticket_id r new_id = elim (verified_id r.ticket_cookie) [
    | some id ↦ some (id, [])
    | none ↦ elim new_id [ none ↦ none | some id ↦ some (id, set_cookie ticket_cookie id ∷ []) ]
  ]

  -- fmt.Sprintf("admin:%d", expiry), signed
  unfoldable pub admin_session : Time → CookieName × Bytes
  unfolding itoa sign
  admin_session now =
      set_cookie admin_cookie (admin_prefix ++ itoa (unix (now + admin_session_duration)))

  unfoldable pub is_live : Time → Bytes → Bool
  unfolding has_prefix trim_prefix atoi
  is_live now payload =
      if not (has_prefix payload admin_prefix)
      then false
      else elim (atoi (trim_prefix payload admin_prefix)) [
        | none ↦ false
        | some exp ↦ ltb_ℤ (unix now) exp
      ]

  unfoldable pub is_admin : Time → Request → Bool
  unfolding verify is_live
  is_admin now r = elim r.admin_cookie [
    | none ↦ false
    | some value ↦ elim (verify mac value) [ none ↦ false | some payload ↦ is_live now payload ]
  ]
