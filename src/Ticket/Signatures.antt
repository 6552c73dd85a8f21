-- ===== src/Ticket/Signatures.antt =====
-- Signatures and their verification.
use gowait.Prelude.{
  ℕ, zero, suc, ◌≡◌, ◌↔◌, refl, sym, ap, subst, ◌∙◌, inl, inr, ◌==◌, ==_iff, true, not, Option,
  none, some, [], ◌∷◌, ◌++◌, length, take, drop, if◌then◌else◌, arith, Bool-cases, Option-cases,
}
use mathlib.Core.Path.{ap₂}
use gowait.Ticket.Signer
use gowait.Ticket.Signer.{Signer}
use gowait.Ticket.Texts.{HasNoColon, encode_base64-HasNoColon}
use gowait.Ticket.{
  Bytes, colon, version_prefix, last_index, has_prefix, equal, trim_prefix, sign, verify_at, verify,
}

last_index-none : (s : Bytes) → HasNoColon s → last_index s ≡ none
unfolding last_index
last_index-none [] h = refl
last_index-none (c ∷ s) h = rw (last_index-none s h.1, h.0) refl

last_index-append :
    (s sig : Bytes) → HasNoColon sig → last_index (s ++ colon ∷ sig) ≡ some (length s)
unfolding last_index
last_index-append [] sig h = rw (last_index-none sig h) refl
last_index-append (c ∷ s) sig h = rw (last_index-append s sig h) refl

take-append : (s t : Bytes) → take (length s) (s ++ t) ≡ s
take-append [] t = refl
take-append (c ∷ s) t = ap (λ r. c ∷ r) (take-append s t)

drop-append : (s t : Bytes) (c : ℕ) → drop (suc (length s)) (s ++ c ∷ t) ≡ t
drop-append [] t c = refl
drop-append (x ∷ s) t c = drop-append s t c

pub equal_refl : (s : Bytes) → equal s s ≡ true
unfolding equal
equal_refl [] = refl
equal_refl (x ∷ s) = ground (arith, ==_iff x x, equal_refl s)

pub equal-path : (s t : Bytes) → equal s t ≡ true → s ≡ t
unfolding equal
equal-path [] [] h = refl
equal-path [] (y ∷ t) h = cc
equal-path (x ∷ s) [] h = cc
equal-path (x ∷ s) (y ∷ t) h =
    let e : x ≡ y = ground (arith, h, ==_iff x y) in
    ap₂ (λ a b. a ∷ b) e (equal-path s t (ground (arith, h)))

pub has_prefix-append : (p s : Bytes) → has_prefix (p ++ s) p ≡ true
unfolding has_prefix
has_prefix-append [] s = refl
has_prefix-append (c ∷ p) s = ground (arith, ==_iff c c, has_prefix-append p s)

pub has_prefix-path : (s p : Bytes) → has_prefix s p ≡ true → s ≡ p ++ drop (length p) s
unfolding has_prefix
has_prefix-path s [] h = refl
has_prefix-path [] (c ∷ p) h = cc
has_prefix-path (x ∷ s) (c ∷ p) h =
    let e : x ≡ c = ground (arith, h, ==_iff x c) in
    ap₂ (λ a b. a ∷ b) e (has_prefix-path s p (ground (arith, h)))

last_index-path :
    (s : Bytes) (i : ℕ) → last_index s ≡ some i → s ≡ take i s ++ colon ∷ drop (suc i) s
unfolding last_index
last_index-path [] i h = cc
last_index-path (c ∷ s) i h = elim (Option-cases (last_index s)) [
  | inr (j, e) ↦
      let at : suc j ≡ i = ground (arith, e, h) in
      subst (λ m. c ∷ s ≡ take m (c ∷ s) ++ colon ∷ drop (suc m) (c ∷ s)) at
        (ap (λ r. c ∷ r) (last_index-path s j e))
  | inl e ↦ elim (Bool-cases (c == colon)) [
    | inl b ↦
        let at : zero ≡ i = ground (arith, e, b, h) in
        let same : c ≡ colon = ground (arith, b) in
        subst (λ m. c ∷ s ≡ take m (c ∷ s) ++ colon ∷ drop (suc m) (c ∷ s)) at
          (ap (λ x. x ∷ s) same)
    | inr b ↦ absurd (ground (arith, e, b, h))
  ]
]

module _ (mac : Bytes → Bytes) where
  -- What `Verify` makes of a prefix and a signature.
  judge : Bytes → Bytes → Option Bytes
  judge prefix sig =
      if not (has_prefix prefix version_prefix)
      then none
      else if not (equal sig (mac prefix))
      then none
      else some (trim_prefix prefix version_prefix)

  verify_at-append :
      (prefix sig : Bytes)
      → verify_at mac (prefix ++ colon ∷ sig) (length prefix) ≡ judge prefix sig
  unfolding verify_at judge
  verify_at-append prefix sig =
      ap₂ judge (take-append prefix (colon ∷ sig)) (drop-append prefix sig colon)

  verify_at-judge :
      (value : Bytes) (i : ℕ) → verify_at mac value i ≡ judge (take i value) (drop (suc i) value)
  unfolding verify_at judge
  verify_at-judge value i = refl

  judge_ok :
      (prefix sig : Bytes)
      → has_prefix prefix version_prefix ≡ true
      → equal sig (mac prefix) ≡ true
      → judge prefix sig ≡ some (drop 3 prefix)
  unfolding judge trim_prefix
  judge_ok prefix sig b y = rw (b, y) refl

  judge_sound :
      (prefix sig payload : Bytes)
      → judge prefix sig ≡ some payload
      → (prefix ≡ version_prefix ++ payload) × (sig ≡ mac prefix)
  unfolding judge trim_prefix
  judge_sound prefix sig payload h = elim (Bool-cases (has_prefix prefix version_prefix)) [
    | inr b ↦ absurd (ground (arith, b, h))
    | inl b ↦ elim (Bool-cases (equal sig (mac prefix))) [
      | inr n ↦ absurd (ground (arith, b, n, h))
      | inl y ↦
          let rest : drop 3 prefix ≡ payload = ground (arith, b, y, h) in
          (
            has_prefix-path prefix version_prefix b ∙ ap (λ r. version_prefix ++ r) rest,
            equal-path sig (mac prefix) y,
          )
    ]
  ]

  verify-sign_of_mac :
      (payload : Bytes)
      → HasNoColon (mac (version_prefix ++ payload))
      → verify mac (sign mac payload) ≡ some payload
  unfolding verify sign
  verify-sign_of_mac payload h =
      let prefix = version_prefix ++ payload in
      rw (last_index-append prefix (mac prefix) h, verify)
        (verify_at-append prefix (mac prefix)
          ∙ judge_ok prefix (mac prefix) (has_prefix-append version_prefix payload)
              (equal_refl (mac prefix)))

  pub verify_sound :
      (value payload : Bytes) → verify mac value ≡ some payload → value ≡ sign mac payload
  unfolding verify sign
  verify_sound value payload h = elim (Option-cases (last_index value)) [
    | inl e ↦ absurd (ground (arith, e, h))
    | inr (i, e) ↦
        let found : verify mac value ≡ verify_at mac value i = rw (e, verify) refl in
        let judged : judge (take i value) (drop (suc i) value) ≡ some payload =
          sym (verify_at-judge value i) ∙ sym found ∙ h in
        let (p, q) = judge_sound (take i value) (drop (suc i) value) payload judged in
        last_index-path value i e ∙ ap₂ (λ a b. a ++ colon ∷ b) p (q ∙ ap mac p)
  ]

module _ (hmac : Bytes → Bytes → Bytes) (s : Signer) where
  pub verify-sign :
      (payload : Bytes)
      → verify (Signer.mac hmac s) (sign (Signer.mac hmac s) payload) ≡ some payload
  unfolding Signer.mac
  verify-sign payload =
      verify-sign_of_mac (Signer.mac hmac s) payload
        (encode_base64-HasNoColon (hmac s.secret (version_prefix ++ payload)))

  -- Of any HMAC and secret: a value verifies to a payload, whatever the payload's bytes, exactly
  -- if it is what `Sign` makes of that payload.
  pub verify_iff :
      (value payload : Bytes)
      → (verify (Signer.mac hmac s) value ≡ some payload)
        ↔ (value ≡ sign (Signer.mac hmac s) payload)
  verify_iff value payload =
      (verify_sound (Signer.mac hmac s) value payload, λ e. rw e (verify-sign payload))
