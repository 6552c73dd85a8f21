-- ===== src/Prober/Progress.antt =====
-- How fast the capacity falls and recovers, with a controller that takes every capacity it is given.
use gowait.Prelude.{
  ℕ, zero, suc, ◌+◌, ◌*◌, ◌/◌, ◌^◌, ◌≤◌, ◌<◌, min, max, ◌≡◌, refl, sym, ap, subst, ◌∙◌, inl, inr,
  Bool, true, false, ℤ, pos, ◌+ℤ◌, ◌≤ℤ◌, eqb_ℤ, arith, Bool-cases,
}
use gowait.Int64.{wrap, quot}
use gowait.Prober.{Control, Prober, clamp, move_to, adjust}

-- Probes in a row with one answer.
unfoldable pub repeat : {C E : Type 0} → Control C E → Bool → ℕ → Prober C → Prober C
repeat k healthy zero p = p
repeat k healthy (suc n) p = repeat k healthy n (adjust k healthy p)

doubles : (a n : ℕ) → a * 2 ^ suc n ≡ 2 * (a * 2 ^ n)
doubles a n = grind arith

grows : (a n : ℕ) → a ≤ a * 2 ^ n
grows a zero = omega arith
grows a (suc n) = omega (arith, grows a n, doubles a n)

module _ {C E : Type 0} (k : Control C E)
    (accepts : (n : ℤ) (c : C) → pos 1 ≤ℤ n → k.capacity (k.set_capacity n c).0 ≡ n) where
  -- The prober at a capacity, with its bounds.
  pub record IsAt (lo hi a : ℕ) (p : Prober C) : Type 0 where
    pub floor : p.cfg.min ≡ pos lo
    pub ceiling : p.cfg.max ≡ pos hi
    pub capacity : k.capacity p.ctrl ≡ pos a
    pub streak : p.successes ≡ pos 0

  clamp_exact :
      (lo hi a next : ℕ) (p : Prober C)
      → IsAt lo hi a p
      → clamp p.cfg (pos next) ≡ pos (min hi (max lo next))
  unfolding clamp
  clamp_exact lo hi a next p at = rw (at.floor, at.ceiling) (ground arith)

  move_to-IsAt :
      (lo hi a next : ℕ) (p : Prober C)
      → 1 ≤ lo
      → lo ≤ hi
      → IsAt lo hi a p
      → IsAt lo hi (min hi (max lo next)) (move_to k (pos next) p)
  unfolding move_to
  move_to-IsAt lo hi a next p h1 h2 at =
      let goal = clamp_exact lo hi a next p at in
      elim (Bool-cases (eqb_ℤ (clamp p.cfg (pos next)) (k.capacity p.ctrl))) [
        | inl same ↦ rw same (record {
          floor = at.floor;
          ceiling = at.ceiling;
          capacity = ground (arith, same, goal);
          streak = at.streak;
        })
        | inr other ↦ rw other (record {
          floor = at.floor;
          ceiling = at.ceiling;
          capacity = accepts (clamp p.cfg (pos next)) p.ctrl (rw goal (omega arith)) ∙ goal;
          streak = at.streak;
        })
      ]

  unstreaked :
      (lo hi a : ℕ) (p : Prober C) → IsAt lo hi a p → IsAt lo hi a (record p { successes = pos 0 })
  unstreaked lo hi a p at = record {
    floor = at.floor;
    ceiling = at.ceiling;
    capacity = at.capacity;
    streak = refl;
  }

  fails-IsAt :
      (lo hi a : ℕ) (p : Prober C)
      → 1 ≤ lo
      → lo ≤ hi
      → IsAt lo hi a p
      → IsAt lo hi (min hi (max lo (a / 2))) (adjust k false p)
  unfolding adjust
  fails-IsAt lo hi a p h1 h2 at =
      subst
        (λ z.
          IsAt lo hi (min hi (max lo (a / 2)))
            (move_to k (quot z (pos 2)) (record p { successes = pos 0 })))
        (sym at.capacity)
        (move_to-IsAt lo hi a (a / 2) (record p { successes = pos 0 }) h1 h2
          (unstreaked lo hi a p at))

  -- With a controller that takes each capacity, positive bounds and a capacity within them of at
  -- most the floor times 2^n, `n` failing probes in a row bring it to the floor.
  pub repeat_fails :
      (n lo hi a : ℕ) (p : Prober C)
      → 1 ≤ lo
      → lo ≤ a
      → a ≤ hi
      → IsAt lo hi a p
      → a ≤ lo * 2 ^ n
      → k.capacity (repeat k false n p).ctrl ≡ pos lo
  unfolding repeat
  repeat_fails zero lo hi a p h1 h2 h3 at h = at.capacity ∙ ap pos (omega arith)
  repeat_fails (suc n) lo hi a p h1 h2 h3 at h =
      let next : min hi (max lo (a / 2)) ≡ max lo (a / 2) = omega arith in
      repeat_fails n lo hi (max lo (a / 2)) (adjust k false p) h1 (omega arith) (omega arith)
        (subst (λ b. IsAt lo hi b (adjust k false p)) next
          (fails-IsAt lo hi a p h1 (omega arith) at))
        (omega (arith, doubles lo n, grows lo n))

  one_more : (p : Prober C) → p.successes ≡ pos 0 → adjust k true p ≡ record p { successes = pos 1 }
  unfolding adjust
  one_more p e = rw e refl

  two_now :
      (p : Prober C)
      → adjust k true (record p { successes = pos 1 }) ≡ record p { successes = pos 2 }
  unfolding adjust
  two_now p = refl

  third :
      (p : Prober C)
      → adjust k true (record p { successes = pos 2 })
        ≡ move_to k (wrap (k.capacity p.ctrl +ℤ pos 1)) (record p { successes = pos 0 })
  unfolding adjust
  third p = refl

  rises-IsAt :
      (lo hi a : ℕ) (p : Prober C)
      → 1 ≤ lo
      → lo ≤ hi
      → a + 1 < 2 ^ 63
      → IsAt lo hi a p
      → IsAt lo hi (min hi (max lo (a + 1))) (repeat k true 3 p)
  unfolding repeat
  rises-IsAt lo hi a p h1 h2 h3 at =
      let sum : wrap (k.capacity p.ctrl +ℤ pos 1) ≡ pos (a + 1) = rw at.capacity (ground arith) in
      subst (IsAt lo hi (min hi (max lo (a + 1))))
        (sym (
          ap (λ q. adjust k true (adjust k true q)) (one_more p at.streak)
          ∙ ap (adjust k true) (two_now p)
          ∙ third p
          ∙ ap (λ z. move_to k z (record p { successes = pos 0 })) sum))
        (move_to-IsAt lo hi a (a + 1) (record p { successes = pos 0 }) h1 h2
          (unstreaked lo hi a p at))

  repeat_more :
      (m n : ℕ) (p : Prober C) → repeat k true (m + n) p ≡ repeat k true n (repeat k true m p)
  unfolding repeat
  repeat_more zero n p = let e : zero + n ≡ n = omega arith in rw e refl
  repeat_more (suc m) n p =
      let e : suc m + n ≡ suc (m + n) = omega arith in rw e (repeat_more m n (adjust k true p))

  recovers-IsAt :
      (n lo hi a : ℕ) (p : Prober C)
      → 1 ≤ lo
      → lo ≤ a
      → a ≤ hi
      → hi + 1 < 2 ^ 63
      → IsAt lo hi a p
      → IsAt lo hi (min hi (a + n)) (repeat k true (3 * n) p)
  unfolding repeat
  recovers-IsAt zero lo hi a p h1 h2 h3 h4 at = subst (λ b. IsAt lo hi b p) (omega arith) at
  recovers-IsAt (suc n) lo hi a p h1 h2 h3 h4 at =
      let b = min hi (a + 1) in
      let up : min hi (max lo (a + 1)) ≡ b = omega arith in
      let three : 3 + 3 * n ≡ 3 * suc n = omega arith in
      let high : min hi (b + n) ≡ min hi (a + suc n) = omega arith in
      subst (λ i. IsAt lo hi (min hi (a + suc n)) (repeat k true i p)) three
        (subst (IsAt lo hi (min hi (a + suc n))) (sym (repeat_more 3 (3 * n) p)) (
          subst (λ c. IsAt lo hi c (repeat k true (3 * n) (repeat k true 3 p))) high
            (recovers-IsAt n lo hi b (repeat k true 3 p) h1 (omega arith) (omega arith) h4 (
              subst (λ c. IsAt lo hi c (repeat k true 3 p)) up
                (rises-IsAt lo hi a p h1 (omega arith) (omega arith) at)))))

  -- With a controller that takes each capacity, no streak yet, and positive bounds of which the
  -- ceiling is below 2^63 - 1, 3 * n healthy probes in a row raise a capacity within the bounds
  -- by n, or to the ceiling.
  pub repeat_recovers :
      (n lo hi a : ℕ) (p : Prober C)
      → 1 ≤ lo
      → lo ≤ a
      → a ≤ hi
      → hi + 1 < 2 ^ 63
      → IsAt lo hi a p
      → k.capacity (repeat k true (3 * n) p).ctrl ≡ pos (min hi (a + n))
  repeat_recovers n lo hi a p h1 h2 h3 h4 at = (recovers-IsAt n lo hi a p h1 h2 h3 h4 at).capacity
