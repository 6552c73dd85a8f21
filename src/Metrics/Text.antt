-- ===== src/Metrics/Text.antt =====
-- WriteTo of internal/metrics/metrics.go: the samples of the exposition text, in order. The lines of HELP
-- and TYPE, which are constants, and the build information are left out.
use gowait.Prelude.{ℕ, String, Option, none, some, List, [], ◌∷◌, ◌++◌, ℤ}
use gowait.Clock.{Floats}
use gowait.Store.{Stats}
use gowait.Metrics.{Registry, cumulate, wait_buckets}

pub data Label (F : Type 0) : Type 0 where
  plain : Label F
  decision : String → Label F
  -- le="%g" and le="+Inf"
  at_most : F → Label F
  at_all : Label F

-- A gauge or a counter, the latter by its 64 bits.
pub data Value (F : Type 0) : Type 0 where
  whole : ℤ → Value F
  counted : ℕ → Value F
  real : F → Value F

pub record Sample (F : Type 0) : Type 0 where
  pub name : String
  pub label : Label F
  pub value : Value F

module _ {F : Type 0} where
  abbrev sample : String → Value F → Sample F
  sample name v = record { name = name; label = plain; value = v }

  abbrev requests : String → ℕ → Sample F
  requests d n = record { name = "gowait_requests_total"; label = decision d; value = counted n }

  -- The lines of the histogram, from its bounds and the cumulated counts.
  unfoldable pub bucket_lines : List F → List ℕ → List (Sample F)
  bucket_lines ubs [] = []
  bucket_lines [] (cum ∷ cums) =
      record { name = "gowait_wait_seconds_bucket"; label = at_all; value = counted cum } ∷ []
  bucket_lines (ub ∷ ubs) (cum ∷ cums) =
      record { name = "gowait_wait_seconds_bucket"; label = at_most ub; value = counted cum }
      ∷ bucket_lines ubs cums

  unfoldable pub write_to : Floats F → Option (Registry F) → Stats F → ℤ → List (Sample F)
  unfolding bucket_lines cumulate
  write_to fl none stats capacity = []
  write_to fl (some r) stats capacity =
      sample "gowait_queue_length" (whole stats.queue_length)
        ∷ sample "gowait_active_users" (whole stats.active_count)
        ∷ sample "gowait_capacity" (whole capacity)
        ∷ sample "gowait_avg_session_seconds" (real stats.avg_session_secs)
        ∷ sample "gowait_admissions_total" (counted r.admissions)
        ∷ sample "gowait_expirations_total" (counted r.expirations)
        ∷ sample "gowait_evictions_total" (counted r.evictions)
        ∷ requests "proxied" r.req_proxied
        ∷ requests "queued" r.req_queued
        ∷ requests "admin" r.req_admin
        ∷ bucket_lines (wait_buckets fl) (cumulate 0 r.wait_counts)
      ++ sample "gowait_wait_seconds_sum" (real r.wait_sum)
        ∷ sample "gowait_wait_seconds_count" (counted r.wait_total)
        ∷ []
