-- ===== src/Ticket/Tests.antt =====
-- Signatures by a stand-in for the HMAC, and the encodings on samples of their RFCs.
use gowait.Prelude.{◌%◌, ◌≡◌, ◌↔◌, refl, some, [], ◌∷◌, length}
use gowait.Ticket.{
  Bytes, colon, sign, last_index, has_prefix, equal, trim_prefix, verify_at, verify,
}
use gowait.Ticket.Encoding.{encode_hex, encode_base64}
use gowait.Ticket.Signer
use gowait.Ticket.Signer.{Signer, new_signer}
use gowait.Ticket.Signatures.{verify_iff}

-- One byte of the key and two of the message's length.
abbrev stand_in : Bytes → Bytes → Bytes
stand_in key s = length key ∷ length s % 256 ∷ 255 ∷ []

abbrev signer : Signer
signer = new_signer (1 ∷ 2 ∷ [])

-- "a:b"
abbrev payload : Bytes
payload = 97 ∷ colon ∷ 98 ∷ []

-- "v1:a:b:Agb_"
abbrev value : Bytes
value = 118 ∷ 49 ∷ 58 ∷ 97 ∷ 58 ∷ 98 ∷ 58 ∷ 65 ∷ 103 ∷ 98 ∷ 95 ∷ []

value_verifies : verify (Signer.mac stand_in signer) value ≡ some payload
unfolding verify verify_at last_index has_prefix equal trim_prefix Signer.mac
value_verifies = refl

verify_iff_example :
    (verify (Signer.mac stand_in signer) value ≡ some payload)
    ↔ (value ≡ sign (Signer.mac stand_in signer) payload)
verify_iff_example = verify_iff stand_in signer value payload

-- "foobar" is "666f6f626172", and "Zm9v", "Zm9vYg", "Zm9vYmE" are "foo", "foob" and "fooba".
hex_sample : encode_hex (102 ∷ 111 ∷ 111 ∷ []) ≡ 54 ∷ 54 ∷ 54 ∷ 102 ∷ 54 ∷ 102 ∷ []
unfolding encode_hex
hex_sample = refl

base64_sample :
    encode_base64 (102 ∷ 111 ∷ 111 ∷ 98 ∷ 97 ∷ []) ≡ 90 ∷ 109 ∷ 57 ∷ 118 ∷ 89 ∷ 109 ∷ 69 ∷ []
unfolding encode_base64
base64_sample = refl
