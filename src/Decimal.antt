-- ===== src/Decimal.antt =====
-- strconv.Itoa and FormatInt in base 10, strconv.Atoi and ParseInt in base 10 to 64 bits, on texts as
-- lists of bytes.
use gowait.Prelude.{
  ℕ, zero, suc, ◌+◌, ◌-◌, ◌*◌, ◌/◌, ◌%◌, ◌^◌, ◌&&◌, ltb, leb, ◌==◌, Option, none, some, List, [],
  ◌∷◌, ◌++◌, ℤ, pos, negsuc, if◌then◌else◌,
}
use gowait.Int64.{opposite}
pub mod RoundTrip

-- The digits of a number, the first one first. A number has fewer digits than rounds of fuel.
unfoldable pub digits : ℕ → ℕ → List ℕ
digits zero n = []
digits (suc fuel) n =
    let more = digits fuel (n / 10) ++ (48 + n % 10) ∷ [] in
    if ltb n 10 then (48 + n) ∷ [] else more

unfoldable pub itoa : ℤ → List ℕ
unfolding digits
itoa (pos n) = digits (suc n) n
itoa (negsuc n) = 45 ∷ digits (suc (suc n)) (suc n)

-- One digit after those that have given `acc`.
unfoldable pub push_digit : ℕ → ℕ → Option ℕ
push_digit acc c = if leb 48 c && leb c 57 then some (10 * acc + (c - 48)) else none

unfoldable pub read_digits : ℕ → List ℕ → Option ℕ
unfolding push_digit
read_digits acc [] = some acc
read_digits acc (c ∷ cs) = elim (push_digit acc c) [ none ↦ none | some n ↦ read_digits n cs ]

-- A text with no digit is refused.
unfoldable pub read : List ℕ → Option ℕ
unfolding read_digits
read [] = none
read (c ∷ cs) = read_digits 0 (c ∷ cs)

-- A number out of range is refused.
unfoldable pub read_pos : List ℕ → Option ℤ
unfolding read
read_pos s = elim (read s) [ none ↦ none | some n ↦ if ltb n (2 ^ 63) then some (pos n) else none ]

unfoldable pub read_neg : List ℕ → Option ℤ
unfolding read
read_neg s = elim (read s) [
  | none ↦ none
  | some n ↦ if leb n (2 ^ 63) then some (opposite n) else none
]

-- `none` for an error
unfoldable pub atoi : List ℕ → Option ℤ
unfolding read_pos read_neg
atoi [] = none
atoi (c ∷ cs) = if c == 45 then read_neg cs else if c == 43 then read_pos cs else read_pos (c ∷ cs)
