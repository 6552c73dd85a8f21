-- ===== src/Queue/History.antt =====
-- Requests and the janitor's ticks, in any order.
use gowait.Prelude.{
  ℕ, suc, String, Bool, ◌&&◌, List, [], ◌∷◌, pos, leb_ℤ, length, arith, Bool-cases, inl, inr,
}
use gowait.Results.{Result-cases}
use gowait.Clock.{Time, Floats}
use gowait.Store.Interface.{Ops}
use gowait.Store.Promises.{Promises}
use gowait.Queue.Controller.{Controller, refresh_capacity, tick}
use gowait.Queue.Check.{check, status_of}
use gowait.Queue.Serving.{IsServing, reconcile-IsServing}
use gowait.Queue.Answers.{fewer, check-IsDecided, status_of-view}

-- A request through the gatekeeper, a poll of the status, or a tick. The times are what the clock
-- reads at the start and at the estimate, and the Boolean tells who wins the compare-and-swap.
pub data Event : Type 0 where
  requests polls : String → Time → Time → Bool → Event
  ticks : Time → Event

module _ {S E F : Type 0} (fl : Floats F) (o : Ops S E F) where
  unfoldable pub step : Controller S F → Event → Controller S F
  step c (requests id now later won) = (check fl o id now later won c).0
  step c (polls id now later won) = (status_of fl o id now later won c).0
  step c (ticks now) = tick fl o now c

  unfoldable pub run : Controller S F → List Event → Controller S F
  unfolding step
  run c [] = c
  run c (e ∷ es) = run (step c e) es

module _ {S E F : Type 0} (fl : Floats F) (o : Ops S E F) (p : Promises o) where
  pub refresh_capacity-IsServing :
      (n : ℕ) (c : Controller S F)
      → IsServing fl o p n c
      → IsServing fl o p n (refresh_capacity o c)
  unfolding refresh_capacity
  refresh_capacity-IsServing n c v =
      let (w, same) = p.adopts n c.store v.valid in
      elim (Result-cases (o.get_capacity c.store).1) [
        | inr (x, e) ↦
            rw (e, refresh_capacity)
              (record {
                valid = w;
                capacity = v.capacity;
                configured = v.configured;
                balanced = rw same v.balanced;
              })
        | inl ((m, set), e) ↦ elim (Bool-cases (set && leb_ℤ (pos 1) m)) [
          | inl on ↦
              rw (e, on, refresh_capacity)
                (record {
                  valid = w;
                  capacity = ground (arith, on);
                  configured = v.configured;
                  balanced = rw same v.balanced;
                })
          | inr off ↦
              rw (e, off, refresh_capacity)
                (record {
                  valid = w;
                  capacity = v.configured;
                  configured = v.configured;
                  balanced = rw same v.balanced;
                })
        ]
      ]

  pub tick-IsServing :
      (n : ℕ) (now : Time) (c : Controller S F)
      → IsServing fl o p n c
      → IsServing fl o p n (tick fl o now c)
  unfolding tick
  tick-IsServing n now c v =
      let (_, _, (w, same)) =
        reconcile-IsServing fl o p n now (refresh_capacity o c)
          (refresh_capacity-IsServing n c v) in
      w

  step-IsServing :
      (n : ℕ) (c : Controller S F) (e : Event)
      → IsServing fl o p (suc n) c
      → IsServing fl o p n (step fl o c e)
  unfolding step
  step-IsServing n c (requests id now later won) v =
      (check-IsDecided fl o p n id now later won c v).2.0
  step-IsServing n c (polls id now later won) v =
      fewer fl o p n _ (status_of-view fl o p (suc n) id now later won c v).2.0
  step-IsServing n c (ticks now) v = fewer fl o p n _ (tick-IsServing (suc n) now c v)

  -- On a store that keeps its promises and has room for as many tickets in line as there are events,
  -- and with positive capacities and counters that agree with the room, all of this still holds after
  -- the events, but for the room in line: the admissions counted are the expirations counted and those
  -- who are active, modulo 2^64.
  pub run-IsServing :
      (es : List Event) (c : Controller S F)
      → IsServing fl o p (length es) c
      → IsServing fl o p 0 (run fl o c es)
  unfolding run
  run-IsServing [] c v = v
  run-IsServing (e ∷ es) c v = run-IsServing es (step fl o c e) (step-IsServing (length es) c e v)
