-- ===== src/Memory/Instance.antt =====
-- The memory store as an implementation of the interface. `walk` is the order in which Go goes through
-- the map on a reconcile, any at all. A fault of the memory store is passed on as an error; none of its
-- calls has any other.
use gowait.Prelude.{ℕ, ◌+◌, ◌^◌, ◌<◌, String, Option, none, some, List}
use gowait.Results.{Result, ok, error}
use gowait.Clock.{Floats}
use gowait.Store.Interface.{Ops}
use gowait.Store.Promises.{View}
use gowait.Memory.State.{Store}
use gowait.Memory.Tickets.{try_admit, enqueue, lookup, touch}
use gowait.Memory.Admin.{stats, set_capacity, get_capacity, flush}
use gowait.Memory.Reconcile.{reconcile}
use gowait.Memory.Invariant.{IsWellFormed}
use gowait.Memory.View.{line, status_of}

pub data Fault : Type 0 where
  nil_dereference : Fault

abbrev pub or_fault : {A : Type 0} → Option A → Result Fault A
or_fault none = error nil_dereference
or_fault (some a) = ok a

module _ {F : Type 0} (fl : Floats F) (walk : Store F → List String) where
  abbrev pub ops : Ops (Store F) Fault F
  ops = record {
    try_admit = λ id capacity now s. (let r = try_admit s id capacity now in (r.0, ok r.1));
    enqueue = λ id now s. (let r = enqueue s id now in (r.0, or_fault r.1));
    lookup = λ id now s. (let r = lookup s id now in (r.0, or_fault r.1));
    touch = λ id now s. (let r = touch s id now in (r.0, ok r.1));
    reconcile = λ capacity active_ttl queue_ttl now s.
        (let r = reconcile fl s (walk s) capacity active_ttl queue_ttl now in (r.0, ok r.1));
    stats = λ s. (s, ok (stats s));
    set_capacity = λ n s. (set_capacity s n, ok tt);
    get_capacity = λ s. (s, ok (get_capacity s));
    flush = λ s. (let r = flush s in (r.0, ok r.1));
  }

module _ {F : Type 0} where
  abbrev pub view : Store F → View
  view s = record { status = status_of s; line = line s; active = s.active }

  abbrev pub IsValid : ℕ → Store F → Type 0
  IsValid n s = IsWellFormed s × (s.next_seq + n < 2 ^ 63)
