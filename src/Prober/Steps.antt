-- ===== src/Prober/Steps.antt =====
-- What a probe does to the capacity.
use gowait.Prelude.{
  ◌≡◌, refl, subst, ◌⊎◌, inl, inr, Bool, true, false, Option, none, some, List, [], ◌∷◌, ℤ, pos,
  ◌+ℤ◌, ◌≤ℤ◌, ◌<ℤ◌, ltb_ℤ, eqb_ℤ, arith, Bool-cases,
}
use gowait.Int64.{wrap, quot}
use gowait.Results.{Result, ok, error}
use gowait.Prober.{Control, Config, Prober, clamp, move_to, adjust, probe, tick}

-- The floor is positive and not above the ceiling, as `Config.Validate` requires.
abbrev pub IsSane : Config → Type 0
IsSane cfg = (pos 1 ≤ℤ cfg.min) × (cfg.min ≤ℤ cfg.max)

abbrev pub IsWithin : Config → ℤ → Type 0
IsWithin cfg n = (cfg.min ≤ℤ n) × (n ≤ℤ cfg.max)

clamp-IsWithin : (cfg : Config) (n : ℤ) → IsSane cfg → IsWithin cfg (clamp cfg n)
unfolding clamp
clamp-IsWithin cfg n (a, b) = ground arith

module _ {C E : Type 0} (k : Control C E) where
  -- The controller takes a new capacity or keeps its own.
  move_to_lem :
      (next : ℤ) (p : Prober C)
      → IsSane p.cfg
      → ((k.capacity (move_to k next p).ctrl ≡ clamp p.cfg next)
          ⊎ (k.capacity (move_to k next p).ctrl ≡ k.capacity p.ctrl))
        × ((move_to k next p).cfg ≡ p.cfg)
        × ((move_to k next p).successes ≡ p.successes)
  unfolding move_to
  move_to_lem next p sane = elim (Bool-cases (eqb_ℤ (clamp p.cfg next) (k.capacity p.ctrl))) [
    | inl same ↦ rw same (inr refl, refl, refl)
    | inr other ↦
        let (low, high) = clamp-IsWithin p.cfg next sane in
        rw other (k.sets (clamp p.cfg next) p.ctrl (omega arith), refl, refl)
  ]

  -- The streak of healthy probes is 0, 1 or 2.
  abbrev pub IsCounting : Prober C → Type 0
  IsCounting p = (pos 0 ≤ℤ p.successes) × (p.successes <ℤ pos 3)

  -- One probe: the streak stays below three, the bounds as they are, and the capacity is the old one
  -- or within the bounds.
  abbrev pub IsMoved : Prober C → Prober C → Type 0
  IsMoved p p' =
      IsCounting p'
      × (p'.cfg ≡ p.cfg)
      × ((k.capacity p'.ctrl ≡ k.capacity p.ctrl) ⊎ IsWithin p.cfg (k.capacity p'.ctrl))

  moved :
      (next : ℤ) (p : Prober C)
      → IsSane p.cfg
      → IsMoved p (move_to k next (record p { successes = pos 0 }))
  moved next p sane =
      let (way, cfg, streak) = move_to_lem next (record p { successes = pos 0 }) sane in
      (
        rw streak (omega arith),
        cfg,
        elim way [ inl e ↦ inr (rw e (clamp-IsWithin p.cfg next sane)) | inr e ↦ inl e ],
      )

  adjust-IsMoved :
      (healthy : Bool) (p : Prober C) → IsSane p.cfg → IsCounting p → IsMoved p (adjust k healthy p)
  unfolding adjust
  adjust-IsMoved false p sane counting = moved (quot (k.capacity p.ctrl) (pos 2)) p sane
  adjust-IsMoved true p sane counting = elim (Bool-cases (ltb_ℤ (p.successes +ℤ pos 1) (pos 3))) [
    | inl more ↦ rw more (ground (arith, counting, more), refl, inl refl)
    | inr third ↦ rw third (moved (wrap (k.capacity p.ctrl +ℤ pos 1)) p sane)
  ]

  pub tick-IsMoved :
      {X : Type 0} (lock : Option (Result X Bool)) (code : Option ℤ) (p : Prober C)
      → IsSane p.cfg
      → IsCounting p
      → IsMoved p (tick k lock code p)
  unfolding tick
  tick-IsMoved none code p sane counting = adjust-IsMoved (probe code) p sane counting
  tick-IsMoved (some (error e)) code p sane counting = (counting, refl, inl refl)
  tick-IsMoved (some (ok false)) code p sane counting = (counting, refl, inl refl)
  tick-IsMoved (some (ok true)) code p sane counting = adjust-IsMoved (probe code) p sane counting

  -- What `SetCapacity` keeps of the controller, a tick keeps.
  move_to_keeps :
      (P : C → Type 0) (next : ℤ) (p : Prober C)
      → ((n : ℤ) (c : C) → P c → P (k.set_capacity n c).0)
      → P p.ctrl
      → P (move_to k next p).ctrl
  unfolding move_to
  move_to_keeps P next p keeps h =
      elim (Bool-cases (eqb_ℤ (clamp p.cfg next) (k.capacity p.ctrl))) [
        | inl same ↦ rw same h
        | inr other ↦ rw other (keeps (clamp p.cfg next) p.ctrl h)
      ]

  adjust_keeps :
      (P : C → Type 0) (healthy : Bool) (p : Prober C)
      → ((n : ℤ) (c : C) → P c → P (k.set_capacity n c).0)
      → P p.ctrl
      → P (adjust k healthy p).ctrl
  unfolding adjust
  adjust_keeps P false p keeps h =
      move_to_keeps P (quot (k.capacity p.ctrl) (pos 2)) (record p { successes = pos 0 }) keeps h
  adjust_keeps P true p keeps h = elim (Bool-cases (ltb_ℤ (p.successes +ℤ pos 1) (pos 3))) [
    | inl more ↦ rw more h
    | inr third ↦ rw third (
        move_to_keeps P (wrap (k.capacity p.ctrl +ℤ pos 1)) (record p { successes = pos 0 }) keeps
          h)
  ]

  pub tick_keeps :
      {X : Type 0} (P : C → Type 0) (lock : Option (Result X Bool)) (code : Option ℤ) (p : Prober C)
      → ((n : ℤ) (c : C) → P c → P (k.set_capacity n c).0)
      → P p.ctrl
      → P (tick k lock code p).ctrl
  unfolding tick
  tick_keeps P none code p keeps h = adjust_keeps P (probe code) p keeps h
  tick_keeps P (some (error e)) code p keeps h = h
  tick_keeps P (some (ok false)) code p keeps h = h
  tick_keeps P (some (ok true)) code p keeps h = adjust_keeps P (probe code) p keeps h

  -- A sequence of ticks, each with what the lock and the backend answer.
  unfoldable pub run : {X : Type 0} → List (Option (Result X Bool) × Option ℤ) → Prober C → Prober C
  run [] p = p
  run ((lock, code) ∷ rest) p = run rest (tick k lock code p)

  -- After any ticks, whatever the lock, the backend and the controller answer, the streak is below
  -- three, and a capacity that was within sane bounds still is.
  pub run-IsWithin :
      {X : Type 0} (ticks : List (Option (Result X Bool) × Option ℤ)) (p : Prober C)
      → IsSane p.cfg
      → IsCounting p
      → IsWithin p.cfg (k.capacity p.ctrl)
      → IsCounting (run ticks p) × IsWithin p.cfg (k.capacity (run ticks p).ctrl)
  unfolding run
  run-IsWithin [] p sane counting within = (counting, within)
  run-IsWithin ((lock, code) ∷ rest) p sane counting within =
      let p' = tick k lock code p in
      let (counts, same, move) = tick-IsMoved lock code p sane counting in
      let inside : IsWithin p.cfg (k.capacity p'.ctrl) = elim move [
        | inl e ↦ rw e within
        | inr w ↦ w
      ] in
      subst (λ cfg. IsCounting (run rest p') × IsWithin cfg (k.capacity (run rest p').ctrl)) same
        (run-IsWithin rest p' (rw same sane) counts (rw same inside))
