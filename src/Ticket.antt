-- ===== src/Ticket.antt =====
-- Sign and Verify of internal/ticket/ticket.go, on strings as lists of bytes. `mac` is the method `mac`
-- of a signer, the base64url text of an HMAC under its secret; that its alphabet has no colon is the
-- only thing that the theorems ask of it.
use gowait.Prelude.{
  ℕ, zero, suc, ◌==◌, Bool, true, false, not, ◌&&◌, Option, none, some, List, [], ◌∷◌, ◌++◌, length,
  take, drop, if◌then◌else◌,
}
pub mod Encoding
pub mod Signer
pub mod Texts
pub mod Signatures
mod Tests

abbrev pub Bytes : Type 0
Bytes = List ℕ

abbrev pub colon : ℕ
colon = 58

-- version + ":"
abbrev pub version_prefix : Bytes
version_prefix = 118 ∷ 49 ∷ colon ∷ []

-- strings.LastIndex(value, ":"), `none` for a negative index
unfoldable pub last_index : Bytes → Option ℕ
last_index [] = none
last_index (c ∷ cs) = elim (last_index cs) [
  | some i ↦ some (suc i)
  | none ↦ if c == colon then some 0 else none
]

-- strings.HasPrefix(s, prefix)
unfoldable pub has_prefix : Bytes → Bytes → Bool
has_prefix s [] = true
has_prefix [] (p ∷ ps) = false
has_prefix (c ∷ cs) (p ∷ ps) = c == p && has_prefix cs ps

-- hmac.Equal(a, b)
unfoldable pub equal : Bytes → Bytes → Bool
equal [] [] = true
equal [] (y ∷ ys) = false
equal (x ∷ xs) [] = false
equal (x ∷ xs) (y ∷ ys) = x == y && equal xs ys

-- strings.TrimPrefix(s, prefix)
unfoldable pub trim_prefix : Bytes → Bytes → Bytes
unfolding has_prefix
trim_prefix s prefix = if has_prefix s prefix then drop (length prefix) s else s

module _ (mac : Bytes → Bytes) where
  unfoldable pub sign : Bytes → Bytes
  sign payload = let prefix = version_prefix ++ payload in prefix ++ colon ∷ mac prefix

  unfoldable pub verify_at : Bytes → ℕ → Option Bytes
  unfolding has_prefix equal trim_prefix
  verify_at value i =
      let prefix = take i value in
      let sig = drop (suc i) value in
      if not (has_prefix prefix version_prefix)
      then none
      else if not (equal sig (mac prefix))
      then none
      else some (trim_prefix prefix version_prefix)

  unfoldable pub verify : Bytes → Option Bytes
  unfolding last_index verify_at
  verify value = elim (last_index value) [ none ↦ none | some i ↦ verify_at value i ]
