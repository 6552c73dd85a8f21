-- ===== src/Ticket/Signer.antt =====
-- Signer, NewSigner and mac of internal/ticket/ticket.go, with NewID and NewSecret. HMAC-SHA256, of a key and
-- a message, and the source of random bytes are parameters.
use gowait.Prelude.{ℕ, Option, none, some, List}
use gowait.Ticket.Encoding.{encode_hex, encode_base64}

pub record Signer : Type 0 where
  pub secret : List ℕ

-- NewSigner(secret)
abbrev pub new_signer : List ℕ → Signer
new_signer secret = record { secret = secret }

module _ (hmac : List ℕ → List ℕ → List ℕ) where
  unfoldable pub mac : Signer → List ℕ → List ℕ
  unfolding encode_base64
  mac s text = encode_base64 (hmac s.secret text)

-- rand.Read of so many bytes; `none` for an error
module _ (rand : ℕ → Option (List ℕ)) where
  unfoldable pub new_id : Option (List ℕ)
  unfolding encode_hex
  new_id = elim (rand 16) [ none ↦ none | some b ↦ some (encode_hex b) ]

  unfoldable pub new_secret : Option (List ℕ)
  unfolding encode_hex
  new_secret = elim (rand 32) [ none ↦ none | some b ↦ some (encode_hex b) ]
