-- ===== src/Metrics/Tally.antt =====
-- The histogram and the counters.
use gowait.Prelude.{
  ℕ, zero, suc, ◌+◌, ◌%◌, ◌^◌, ◌≤◌, ◌<◌, ◌≡◌, refl, ap, ◌∙◌, inl, inr, Option, none, some, List, [],
  ◌∷◌, ◌++◌, ℤ, String, str_eq, if◌then◌else◌, arith, length, Bool-cases,
}
use gowait.Clock.{Floats}
use gowait.Store.{Stats}
use gowait.Metrics.Text.{Sample, Value, counted, plain, at_all, bucket_lines, write_to}
use gowait.Metrics.{Registry, new, wait_buckets, bucket, add_at, observe_admission, cumulate}

abbrev pub sum : List ℕ → ℕ
sum [] = 0
sum (c ∷ counts) = c + sum counts

-- The last line of the histogram, the bucket +Inf.
abbrev pub last_or : ℕ → List ℕ → ℕ
last_or d [] = d
last_or d (c ∷ counts) = last_or c counts

add_at-sum :
    (i : ℕ) (counts : List ℕ)
    → i < length counts
    → (sum (add_at i counts) % 2 ^ 64 ≡ (sum counts + 1) % 2 ^ 64)
      × (length (add_at i counts) ≡ length counts)
unfolding add_at
add_at-sum i [] h = absurd (omega arith)
add_at-sum zero (c ∷ counts) h = (omega arith, refl)
add_at-sum (suc i) (c ∷ counts) h =
    let (e, l) = add_at-sum i counts (omega arith) in (omega arith, ap suc l)

cumulate-last_or :
    (cum : ℕ) (counts : List ℕ)
    → cum < 2 ^ 64
    → last_or cum (cumulate cum counts) ≡ (cum + sum counts) % 2 ^ 64
unfolding cumulate
cumulate-last_or cum [] h = omega arith
cumulate-last_or cum (c ∷ counts) h =
    cumulate-last_or ((cum + c) % 2 ^ 64) counts (omega arith) ∙ omega arith

length-cumulate : (cum : ℕ) (counts : List ℕ) → length (cumulate cum counts) ≡ length counts
unfolding cumulate
length-cumulate cum [] = refl
length-cumulate cum (c ∷ counts) = ap suc (length-cumulate ((cum + c) % 2 ^ 64) counts)

abbrev count_of : {F : Type 0} → Value F → Option ℕ
count_of (counted n) = some n
count_of _ = none

-- The count in the first line of the bucket +Inf.
abbrev pub at_all_count : {F : Type 0} → List (Sample F) → Option ℕ
at_all_count [] = none
at_all_count (l ∷ ls) =
    let later = at_all_count ls in elim l.label [ at_all ↦ count_of l.value | _ ↦ later ]

-- The count in the first line with this name and no label.
abbrev pub plain_count : {F : Type 0} → String → List (Sample F) → Option ℕ
plain_count name [] = none
plain_count name (l ∷ ls) =
    let later = plain_count name ls in
    elim l.label [ plain ↦ if str_eq l.name name then count_of l.value else later | _ ↦ later ]

module _ {F : Type 0} where
  plain_count-bucket_lines :
      (name : String) (ubs : List F) (cums : List ℕ) (rest : List (Sample F))
      → plain_count name (bucket_lines ubs cums ++ rest) ≡ plain_count name rest
  unfolding bucket_lines
  plain_count-bucket_lines name ubs [] rest = refl
  plain_count-bucket_lines name [] (c ∷ cums) rest = refl
  plain_count-bucket_lines name (ub ∷ ubs) (c ∷ cums) rest =
      plain_count-bucket_lines name ubs cums rest

  at_all_count-bucket_lines :
      (ubs : List F) (cums : List ℕ) (rest : List (Sample F))
      → length cums ≡ suc (length ubs)
      → at_all_count (bucket_lines ubs cums ++ rest) ≡ some (last_or 0 cums)
  unfolding bucket_lines
  at_all_count-bucket_lines ubs [] rest h = absurd (omega (arith, h))
  at_all_count-bucket_lines [] (c ∷ []) rest h = refl
  at_all_count-bucket_lines [] (c ∷ d ∷ cums) rest h = absurd (omega (arith, h))
  at_all_count-bucket_lines (ub ∷ ubs) (c ∷ []) rest h = absurd (omega (arith, h))
  at_all_count-bucket_lines (ub ∷ ubs) (c ∷ d ∷ cums) rest h =
      at_all_count-bucket_lines ubs (d ∷ cums) rest (omega (arith, h))

module _ {F : Type 0} (fl : Floats F) where
  bucket-length : (x : F) (ubs : List F) → bucket fl x ubs ≤ length ubs
  unfolding bucket
  bucket-length x [] = omega arith
  bucket-length x (ub ∷ ubs) = elim (Bool-cases (fl.leq x ub)) [
    | inl b ↦ rw b (omega arith)
    | inr b ↦ rw b (omega (arith, bucket-length x ubs))
  ]

  -- The counters count the same admissions.
  pub record IsTallied (r : Registry F) : Type 0 where
    pub buckets : length r.wait_counts ≡ suc (length (wait_buckets fl))
    pub tallied : sum r.wait_counts % 2 ^ 64 ≡ r.wait_total
    pub admitted : r.admissions ≡ r.wait_total

  -- Admissions of these waits, one after the other.
  unfoldable pub observes : List F → Registry F → Registry F
  unfolding observe_admission
  observes [] r = r
  observes (x ∷ xs) r = elim (observe_admission fl x (some r)) [
    | none ↦ r
    | some r' ↦ observes xs r'
  ]

  observes-IsTallied : (xs : List F) (r : Registry F) → IsTallied r → IsTallied (observes xs r)
  unfolding observes observe_admission
  observes-IsTallied [] r t = t
  observes-IsTallied (x ∷ xs) r t =
      let (e, l) =
        add_at-sum (bucket fl x (wait_buckets fl)) r.wait_counts
          (omega (arith, t.buckets, bucket-length x (wait_buckets fl))) in
      observes-IsTallied xs _ (record {
        buckets = l ∙ t.buckets;
        tallied = omega (arith, t.tallied);
        admitted = ap (λ n. (n + 1) % 2 ^ 64) t.admitted;
      })

  observes-total :
      (xs : List F) (r : Registry F)
      → (observes xs r).wait_total % 2 ^ 64 ≡ (r.wait_total + length xs) % 2 ^ 64
  unfolding observes observe_admission
  observes-total [] r = omega arith
  observes-total (x ∷ xs) r = observes-total xs _ ∙ omega arith

  -- After the admissions of any waits a new registry's cumulative bucket +Inf, its count of waits
  -- and its count of admissions are the number of the waits, modulo 2^64, and WriteTo shows this
  -- number in the line of +Inf, in the count line of the histogram and in that of the admissions.
  pub observes-cumulate :
      (xs : List F) (stats : Stats F) (capacity : ℤ)
      → let r = observes xs (new fl) in
        (last_or 0 (cumulate 0 r.wait_counts) ≡ r.wait_total)
        × (r.admissions ≡ r.wait_total)
        × (r.wait_total % 2 ^ 64 ≡ length xs % 2 ^ 64)
        × (let lines = write_to fl (some r) stats capacity in
            (at_all_count lines ≡ some r.wait_total)
            × (plain_count "gowait_wait_seconds_count" lines ≡ some r.wait_total)
            × (plain_count "gowait_admissions_total" lines ≡ some r.wait_total))
  unfolding write_to
  observes-cumulate xs stats capacity =
      let r = observes xs (new fl) in
      let t =
        observes-IsTallied xs (new fl)
          (record { buckets = refl; tallied = refl; admitted = refl }) in
      let from_zero : (0 + sum r.wait_counts) % 2 ^ 64 ≡ sum r.wait_counts % 2 ^ 64 = omega arith in
      let last = cumulate-last_or 0 r.wait_counts (omega arith) ∙ from_zero ∙ t.tallied in
      (
        last,
        t.admitted,
        observes-total xs (new fl) ∙ omega arith,
        (
          at_all_count-bucket_lines (wait_buckets fl) (cumulate 0 r.wait_counts) _
                (length-cumulate 0 r.wait_counts ∙ t.buckets)
              ∙ ap some last,
          plain_count-bucket_lines "gowait_wait_seconds_count" (wait_buckets fl)
              (cumulate 0 r.wait_counts) _,
          ap some t.admitted,
        ),
      )
