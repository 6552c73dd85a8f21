-- ===== src/Int64.antt =====
-- Go's 64-bit integers: conversion, wrap-around and division.
use gowait.Prelude.{
  ℕ, zero, suc, ◌-◌, ◌%◌, ◌/◌, ◌^◌, ◌<◌, ◌≡◌, ℤ, pos, negsuc, arith, ltb, if◌then◌else◌,
}

-- int64(x) of a uint64
abbrev pub to_int : ℕ → ℤ
to_int n = if ltb n (2 ^ 63) then pos n else negsuc (2 ^ 64 - 1 - n)

-- uint64(x) of an int64
abbrev pub to_uint : ℤ → ℕ
to_uint (pos n) = n % 2 ^ 64
to_uint (negsuc n) = 2 ^ 64 - 1 - n % 2 ^ 64

-- The int64 that is congruent to an integer.
abbrev pub wrap : ℤ → ℤ
wrap z = to_int (to_uint z)

abbrev pub opposite : ℕ → ℤ
opposite zero = pos 0
opposite (suc n) = negsuc n

-- Division truncates toward zero; by zero the code would panic, which its caller writes out.
abbrev pub quot : ℤ → ℤ → ℤ
quot (pos a) (pos b) = pos (a / b)
quot (pos a) (negsuc b) = opposite (a / suc b)
quot (negsuc a) (pos b) = opposite (suc a / b)
quot (negsuc a) (negsuc b) = pos (suc a / suc b)

pub wrap_id : (n : ℕ) → n < 2 ^ 63 → wrap (pos n) ≡ pos n
wrap_id n h = ground arith
