-- ===== src/Prober.antt =====
-- internal/prober/prober.go: the capacity follows the health of the backend. What the HTTP client
-- answers to a probe and what the lock of the store answers are arguments; the queue's controller is
-- an interface.
use gowait.Prelude.{
  ℕ, Bool, true, false, ◌&&◌, Option, none, some, ℤ, pos, ◌+ℤ◌, ltb_ℤ, leb_ℤ, eqb_ℤ, if◌then◌else◌,
  ◌≡◌, ◌⊎◌, ◌≤ℤ◌,
}
use gowait.Int64.{wrap, quot}
use gowait.Results.{Result, ok, error, M}
pub mod Steps
pub mod Progress
pub mod OnQueue
mod Tests

-- `Controller` in the source, on a state `C`, with the laws that the prober relies on.
pub record Control (C E : Type 0) : Type 0 where
  pub capacity : C → ℤ
  pub set_capacity : ℤ → M C E (Unit {0})
  pub sets :
      (n : ℤ) (c : C)
      → pos 1 ≤ℤ n
      → (capacity (set_capacity n c).0 ≡ n) ⊎ (capacity (set_capacity n c).0 ≡ capacity c)

-- Without the URL and the interval, which only the HTTP client and the ticker read.
pub record Config : Type 0 where
  pub min : ℤ
  pub max : ℤ

pub record Prober (C : Type 0) : Type 0 where
  pub cfg : Config
  pub ctrl : C
  pub successes : ℤ

-- The status code of the answer, or `none` where there is no request or no answer.
unfoldable pub probe : Option ℤ → Bool
probe none = false
probe (some code) = leb_ℤ (pos 200) code && ltb_ℤ code (pos 400)

-- if next < min { next = min }; if next > max { next = max }
unfoldable pub clamp : Config → ℤ → ℤ
clamp cfg next =
    let raised = if ltb_ℤ next cfg.min then cfg.min else next in
    if ltb_ℤ cfg.max raised then cfg.max else raised

module _ {C E : Type 0} (k : Control C E) where
  -- The end of `adjust`; an error of `SetCapacity` is only logged.
  unfoldable pub move_to : ℤ → Prober C → Prober C
  unfolding clamp
  move_to next p =
      let goal = clamp p.cfg next in
      if eqb_ℤ goal (k.capacity p.ctrl)
      then p
      else record p { ctrl = (k.set_capacity goal p.ctrl).0 }

  unfoldable pub adjust : Bool → Prober C → Prober C
  unfolding move_to
  adjust false p = move_to (quot (k.capacity p.ctrl) (pos 2)) (record p { successes = pos 0 })
  adjust true p =
      let streak = p.successes +ℤ pos 1 in
      if ltb_ℤ streak (pos 3)
      then record p { successes = streak }
      else move_to (wrap (k.capacity p.ctrl +ℤ pos 1)) (record p { successes = pos 0 })

  -- `lock` is what `TryLock` answers, where the store has locks; a probe runs only with the lease.
  unfoldable pub tick : {X : Type 0} → Option (Result X Bool) → Option ℤ → Prober C → Prober C
  unfolding adjust probe
  tick none code p = adjust (probe code) p
  tick (some (error e)) code p = p
  tick (some (ok false)) code p = p
  tick (some (ok true)) code p = adjust (probe code) p
