-- ===== src/Server/Sessions.antt =====
-- A ticket or an admin session comes back in the next request as it was set.
use gowait.Prelude.{
  ℕ, ◌+◌, ◌/◌, ◌<◌, ◌^◌, ◌≡◌, refl, ap, sym, ◌∙◌, inl, inr, true, false, Option, none, some, [],
  ◌∷◌, ◌++◌, drop, length, ℤ, ◌<ℤ◌, ltb_ℤ, arith, Bool-cases, Option-cases,
}
use gowait.Clock.{Time}
use gowait.Decimal.{itoa, atoi}
use gowait.Decimal.RoundTrip.{atoi-itoa}
use gowait.Ticket.{Bytes, sign, verify, has_prefix}
use gowait.Ticket.Signer
use gowait.Ticket.Signer.{Signer}
use gowait.Ticket.Texts.{Fills, length-new_id}
use gowait.Ticket.Signatures.{verify-sign, verify_sound, has_prefix-append, has_prefix-path}
use gowait.Server.Http.{Request, ticket_cookie}
use gowait.Server.Cookies.{
  unix, admin_session_duration, admin_prefix, verified_id, ticket_id, admin_session, is_live,
  is_admin,
}

drop_prefix : (p s : Bytes) → drop (length p) (p ++ s) ≡ s
drop_prefix [] s = refl
drop_prefix (c ∷ p) s = drop_prefix p s

module _ (mac : Bytes → Bytes) where
  ticket_id-ticket_id :
      (r : Request) (c : ℕ) (cs : Bytes) (again : Option Bytes)
      → verified_id mac r.ticket_cookie ≡ none
      → verify mac (sign mac (c ∷ cs)) ≡ some (c ∷ cs)
      → (ticket_id mac r (some (c ∷ cs)) ≡ some (c ∷ cs, (ticket_cookie, sign mac (c ∷ cs)) ∷ []))
        × (ticket_id mac (record r { ticket_cookie = some (sign mac (c ∷ cs)) }) again
            ≡ some (c ∷ cs, []))
  unfolding ticket_id verified_id
  ticket_id-ticket_id r c cs again h verified =
      (rw (ticket_id, h) refl, rw (ticket_id, verified_id, verified) refl)

  is_live_at :
      (later : Time) (payload text : Bytes) (exp : ℤ)
      → has_prefix payload admin_prefix ≡ true
      → drop (length admin_prefix) payload ≡ text
      → atoi text ≡ some exp
      → is_live mac later payload ≡ ltb_ℤ (unix later) exp
  unfolding is_live
  is_live_at later payload text exp h t e = rw (is_live, h, t, e) refl

  is_admin_at :
      (r : Request) (later : Time) (value payload : Bytes)
      → r.admin_cookie ≡ some value
      → verify mac value ≡ some payload
      → is_admin mac later r ≡ is_live mac later payload
  unfolding is_admin
  is_admin_at r later value payload h t = rw (is_admin, h, t) refl

  admin_session-is_admin :
      (r : Request) (now later : Time)
      → (now + admin_session_duration) / 1000000000 < 2 ^ 63
      → verify mac (sign mac (admin_prefix ++ itoa (unix (now + admin_session_duration))))
        ≡ some (admin_prefix ++ itoa (unix (now + admin_session_duration)))
      → is_admin mac later (record r { admin_cookie = some (admin_session mac now).1 })
        ≡ ltb_ℤ (unix later) (unix (now + admin_session_duration))
  unfolding admin_session
  admin_session-is_admin r now later fits verified =
      let expiry = unix (now + admin_session_duration) in
      let payload = admin_prefix ++ itoa expiry in
      is_admin_at (record r { admin_cookie = some (admin_session mac now).1 }) later
        (sign mac payload) payload refl verified
      ∙ is_live_at later payload (itoa expiry) expiry (has_prefix-append admin_prefix (itoa expiry))
          (drop_prefix admin_prefix (itoa expiry))
          (atoi-itoa expiry (ground arith) (ground (arith, fits)))

  is_live_sound :
      (now : Time) (payload : Bytes)
      → is_live mac now payload ≡ true
      → (text : Bytes) × (exp : ℤ) × (payload ≡ admin_prefix ++ text)
        × (atoi text ≡ some exp)
        × (unix now <ℤ exp)
  unfolding is_live
  is_live_sound now payload h = elim (Bool-cases (has_prefix payload admin_prefix)) [
    | inr b ↦ absurd (let f : false ≡ true = sym (rw (is_live, b) refl) ∙ h in cc)
    | inl b ↦ elim (Option-cases (atoi (drop (length admin_prefix) payload))) [
      | inl e ↦ absurd (let f : false ≡ true = sym (rw (is_live, b, e) refl) ∙ h in cc)
      | inr (exp, e) ↦
          let text = drop (length admin_prefix) payload in
          let path = has_prefix-path payload admin_prefix b in
          let live : ltb_ℤ (unix now) exp ≡ true =
            sym (is_live_at now payload text exp b refl e) ∙ h in
          (text, exp, path, e, ground (arith, live))
    ]
  ]

  pub is_admin_sound :
      (r : Request) (now : Time)
      → is_admin mac now r ≡ true
      → (text : Bytes) × (exp : ℤ) × (r.admin_cookie ≡ some (sign mac (admin_prefix ++ text)))
        × (atoi text ≡ some exp)
        × (unix now <ℤ exp)
  unfolding is_admin
  is_admin_sound r now h = elim (Option-cases r.admin_cookie) [
    | inl e ↦ absurd (let f : false ≡ true = sym (rw (is_admin, e) refl) ∙ h in cc)
    | inr (value, e) ↦ elim (Option-cases (verify mac value)) [
      | inl f ↦ absurd (let g : false ≡ true = sym (rw (is_admin, e, f) refl) ∙ h in cc)
      | inr (payload, f) ↦
          let (text, exp, path, read, live) =
            is_live_sound now payload (sym (is_admin_at r now value payload e f) ∙ h) in
          (
            text,
            exp,
            e ∙ ap some (verify_sound mac value payload f ∙ ap (sign mac) path),
            read,
            live,
          )
    ]
  ]

module _ (hmac : Bytes → Bytes → Bytes) (s : Signer) (rand : ℕ → Option Bytes) where
  -- Where rand.Read fills the bytes it is given and NewID answers an id, and the session's end
  -- fits in an int64, of any HMAC and secret: the id has 32 bytes, a request without a valid
  -- ticket is given it in a signed cookie, a request with that cookie has this id, whatever NewID
  -- would answer then, and a request with the cookie of an admin session is an admin's exactly
  -- until 12 hours after it was set, in whole seconds.
  pub cookies_return :
      (r : Request) (id : Bytes) (again : Option Bytes) (now later : Time)
      → Fills rand
      → Signer.new_id rand ≡ some id
      → verified_id (Signer.mac hmac s) r.ticket_cookie ≡ none
      → (now + admin_session_duration) / 1000000000 < 2 ^ 63
      → let mac = Signer.mac hmac s in
        (length id ≡ 32)
        × (ticket_id mac r (Signer.new_id rand) ≡ some (id, (ticket_cookie, sign mac id) ∷ []))
        × (ticket_id mac (record r { ticket_cookie = some (sign mac id) }) again ≡ some (id, []))
        × (is_admin mac later (record r { admin_cookie = some (admin_session mac now).1 })
            ≡ ltb_ℤ (unix later) (unix (now + admin_session_duration)))
  cookies_return r [] again now later fills minted fresh fits =
      absurd (omega (arith, length-new_id rand [] fills minted))
  cookies_return r (c ∷ cs) again now later fills minted fresh fits =
      let mac = Signer.mac hmac s in
      let (given, kept) =
        ticket_id-ticket_id mac r c cs again fresh (verify-sign hmac s (c ∷ cs)) in
      (
        length-new_id rand (c ∷ cs) fills minted,
        rw minted given,
        kept,
        admin_session-is_admin mac r now later fits
            (verify-sign hmac s (admin_prefix ++ itoa (unix (now + admin_session_duration)))),
      )
