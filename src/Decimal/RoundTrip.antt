-- ===== src/Decimal/RoundTrip.antt =====
-- What is printed is read.
use gowait.Prelude.{
  ℕ, zero, suc, ◌+◌, ◌*◌, ◌/◌, ◌%◌, ◌^◌, ◌≤◌, ◌<◌, ◌≡◌, refl, ap, ◌∙◌, ltb, ◌==◌, true, false, inl,
  inr, none, some, List, [], ◌∷◌, ◌++◌, ℤ, pos, negsuc, ◌≤ℤ◌, arith, Bool-cases, Option-cases, leb,
}
use gowait.Clock.{max_int64, min_int64}
use gowait.Decimal.{digits, itoa, push_digit, read_digits, read, read_pos, read_neg, atoi}

read_digits-append :
    (acc c : ℕ) (s : List ℕ)
    → read_digits acc (s ++ c ∷ [])
      ≡ elim (read_digits acc s) [ none ↦ none | some n ↦ push_digit n c ]
unfolding read_digits
read_digits-append acc c [] = elim (Option-cases (push_digit acc c)) [
  | inl e ↦ rw (e, read_digits) refl
  | inr (n, e) ↦ rw (e, read_digits) refl
]
read_digits-append acc c (d ∷ s) = elim (Option-cases (push_digit acc d)) [
  | inl e ↦ rw (e, read_digits) refl
  | inr (n, e) ↦ rw (e, read_digits) (read_digits-append n c s)
]

push_digit_lem : (acc d : ℕ) → d < 10 → push_digit acc (48 + d) ≡ some (10 * acc + d)
unfolding push_digit
push_digit_lem acc d h = ground arith

read_digits-digits : (fuel n : ℕ) → n < fuel → read_digits 0 (digits fuel n) ≡ some n
unfolding digits read_digits
read_digits-digits zero n h = absurd (omega arith)
read_digits-digits (suc fuel) n h = elim (Bool-cases (ltb n 10)) [
  | inl b ↦ rw (b, read_digits, push_digit_lem 0 n (ground (arith, b))) (ap some (omega arith))
  | inr b ↦
      let e : read_digits 0 (digits fuel (n / 10)) ≡ some (n / 10) =
        read_digits-digits fuel (n / 10) (ground (arith, b)) in
      let d : push_digit (n / 10) (48 + n % 10) ≡ some (10 * (n / 10) + n % 10) =
        push_digit_lem (n / 10) (n % 10) (omega arith) in
      rw b (
        read_digits-append 0 (48 + n % 10) (digits fuel (n / 10))
        ∙ rw e (d ∙ ap some (omega arith)))
]

-- The text of a number starts with a digit.
digits-starts :
    (fuel n : ℕ) → n < fuel → (c : ℕ) × (cs : List ℕ) × (digits fuel n ≡ c ∷ cs) × (48 ≤ c)
unfolding digits
digits-starts zero n h = absurd (omega arith)
digits-starts (suc fuel) n h = elim (Bool-cases (ltb n 10)) [
  | inl b ↦ rw b (48 + n, [], refl, omega arith)
  | inr b ↦
      let (c, cs, e, d) = digits-starts fuel (n / 10) (ground (arith, b)) in
      rw b (c, cs ++ (48 + n % 10) ∷ [], ap (λ s. s ++ (48 + n % 10) ∷ []) e, d)
]

read-digits : (n : ℕ) → read (digits (suc n) n) ≡ some n
unfolding read
read-digits n =
    let (c, cs, e, d) = digits-starts (suc n) n (omega arith) in
    rw e (rw e at (read_digits-digits (suc n) n (omega arith)))

atoi_unsigned :
    (c : ℕ) (cs : List ℕ) (n : ℕ)
    → 48 ≤ c
    → read (c ∷ cs) ≡ some n
    → n < 2 ^ 63
    → atoi (c ∷ cs) ≡ some (pos n)
unfolding atoi read_pos
atoi_unsigned c cs n d e h =
    let minus : (c == 45) ≡ false = ground arith in
    let plus : (c == 43) ≡ false = ground arith in
    let small : ltb n (2 ^ 63) ≡ true = ground arith in rw (minus, plus, e, read_pos, small) refl

-- Every int64 is read from its text.
pub atoi-itoa : (z : ℤ) → min_int64 ≤ℤ z → z ≤ℤ max_int64 → atoi (itoa z) ≡ some z
unfolding atoi itoa read_pos read_neg
atoi-itoa (pos n) a b =
    let (c, cs, e, d) = digits-starts (suc n) n (omega arith) in
    rw e (atoi_unsigned c cs n d (rw e at (read-digits n)) (ground arith))
atoi-itoa (negsuc n) a b =
    let small : leb (suc n) (2 ^ 63) ≡ true = ground arith in
    rw (read-digits (suc n), read_neg, small) refl
