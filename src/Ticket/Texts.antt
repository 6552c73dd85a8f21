-- ===== src/Ticket/Texts.antt =====
-- Encoded bytes: base64 has no colon, hex has two digits for a byte.
use gowait.Prelude.{
  ℕ, inl, inr, ◌*◌, ◌≡◌, refl, ◌==◌, false, Option, some, [], ◌∷◌, length, All, arith, Option-cases,
}
use gowait.Ticket.{Bytes, colon}
use gowait.Ticket.Encoding.{encode_hex, base64_digit, encode_base64}
use gowait.Ticket.Signer.{new_id}

abbrev pub HasNoColon : Bytes → Type 0
HasNoColon s = All (λ c. (c == colon) ≡ false) s

base64_digit-ne-colon : (n : ℕ) → (base64_digit n == colon) ≡ false
unfolding base64_digit
base64_digit-ne-colon n = ground arith

pub encode_base64-HasNoColon : (bs : Bytes) → HasNoColon (encode_base64 bs)
unfolding encode_base64
encode_base64-HasNoColon [] = tt
encode_base64-HasNoColon (a ∷ []) = search base64_digit-ne-colon
encode_base64-HasNoColon (a ∷ b ∷ []) = search base64_digit-ne-colon
encode_base64-HasNoColon (a ∷ b ∷ c ∷ rest) =
    search (base64_digit-ne-colon, encode_base64-HasNoColon rest)

pub length-encode_hex : (bs : Bytes) → length (encode_hex bs) ≡ 2 * length bs
unfolding encode_hex
length-encode_hex [] = refl
length-encode_hex (b ∷ bs) = omega (arith, length-encode_hex bs)

-- rand.Read fills the slice or fails.
abbrev pub Fills : (ℕ → Option Bytes) → Type 0
Fills rand = (n : ℕ) (b : Bytes) → rand n ≡ some b → length b ≡ n

pub length-new_id :
    (rand : ℕ → Option Bytes) (id : Bytes) → Fills rand → new_id rand ≡ some id → length id ≡ 32
unfolding new_id
length-new_id rand id fills e = elim (Option-cases (rand 16)) [
  | inl n ↦ absurd (ground (arith, e, n))
  | inr (b, r) ↦
      let same : encode_hex b ≡ id = ground (arith, e, r) in
      rw (← same) (omega (arith, length-encode_hex b, fills 16 b r))
]
