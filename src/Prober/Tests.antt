-- ===== src/Prober/Tests.antt =====
-- The prober on the queue over the memory store, and on a controller that is just its capacity.
use gowait.Prelude.{
  ℕ, ◌≡◌, refl, inl, Bool, true, false, ◌*◌, Option, some, none, List, [], ◌∷◌, ℤ, pos, arith,
}
use gowait.Results.{Result, ok}
use gowait.Clock.Exact.{exact}
use gowait.Memory.State
use gowait.Memory.State.{Store}
use gowait.Memory.Instance.{Fault, ops}
use gowait.Queue.Controller.{Controller, Failure, new}
use gowait.Prober.OnQueue.{queue_control}
use gowait.Prober.{Control, Prober, probe, tick}
use gowait.Prober.Steps.{IsCounting, IsWithin, run, run-IsWithin}
use gowait.Prober.Progress.{repeat, IsAt, repeat_fails, repeat_recovers}

abbrev plain : Control ℤ Unit
plain = record { capacity = λ c. c; set_capacity = λ n c. (n, ok tt); sets = λ n c h. inl refl }

abbrev prober : ℤ → Prober ℤ
prober n = record { cfg = record { min = pos 4; max = pos 40 }; ctrl = n; successes = pos 0 }

-- A failure, a tick without the lease, no answer, and three healthy probes.
abbrev ticks : List (Option (Result Unit Bool) × Option ℤ)
ticks =
    (none, some (pos 503))
    ∷ (some (ok false), none)
    ∷ (some (ok true), none)
    ∷ (none, some (pos 200))
    ∷ (none, some (pos 302))
    ∷ (none, some (pos 200))
    ∷ []

abbrev queue : Controller (Store ℤ) ℤ
queue = new (State.new (pos 0)) (record {
  capacity = pos 33;
  active_ttl = pos 60000000000;
  queue_ttl = pos 30000000000;
  min_reconcile_gap = pos 0;
  stats_cache_ttl = pos 0;
})

abbrev control : Control (Controller (Store ℤ) ℤ) (Failure Fault)
control = queue_control (ops exact (λ _. []))

abbrev on_queue : Prober (Controller (Store ℤ) ℤ)
on_queue = record { cfg = record { min = pos 4; max = pos 40 }; ctrl = queue; successes = pos 0 }

run-IsWithin_example :
    IsCounting control (run control ticks on_queue)
    × IsWithin on_queue.cfg (run control ticks on_queue).ctrl.capacity
run-IsWithin_example =
    run-IsWithin control ticks on_queue (omega arith, omega arith) (omega arith, omega arith)
      (omega arith, omega arith)

-- 33, 16, 8, 9
run_runs : (run plain ticks (prober (pos 33))).ctrl ≡ pos 9
unfolding run tick probe
run_runs = refl

prober-IsAt : (n : ℕ) → IsAt plain (λ _ _ _. refl) 4 40 n (prober (pos n))
prober-IsAt n = record { floor = refl; ceiling = refl; capacity = refl; streak = refl }

repeat_fails_example : (repeat plain false 4 (prober (pos 33))).ctrl ≡ pos 4
repeat_fails_example =
    repeat_fails plain (λ _ _ _. refl) 4 4 40 33 (prober (pos 33)) (omega arith) (omega arith)
      (omega arith) (prober-IsAt 33) (omega arith)

repeat_recovers_example : (repeat plain true (3 * 5) (prober (pos 33))).ctrl ≡ pos 38
repeat_recovers_example =
    repeat_recovers plain (λ _ _ _. refl) 5 4 40 33 (prober (pos 33)) (omega arith) (omega arith)
      (omega arith) (omega arith) (prober-IsAt 33)
