-- ===== src/Memory/Holes/Below.antt =====
-- How many holes lie below a number: what the two searches find, and what `addHoleLocked` and
-- `pruneHolesLocked` do to that count.
use gowait.Prelude.{
  ℕ, zero, suc, ◌+◌, ◌≤◌, ◌<◌, ◌≡◌, refl, List, [], ◌∷◌, ◌++◌, arith, ltb, if◌then◌else◌, length,
  get_or, take, drop,
}
use gowait.SortSearch.{search_lem}
use gowait.Memory.Holes.{search_above, search_from, add_hole}

abbrev pub below : List ℕ → ℕ → ℕ
below [] x = 0
below (h ∷ hs) x = if ltb h x then suc (below hs x) else below hs x

-- Strictly ascending, and above a bound.
abbrev pub Ascending : ℕ → List ℕ → Type 0
Ascending b [] = Unit
Ascending b (h ∷ hs) = (b < h) × Ascending h hs

pub below_zero : (b x : ℕ) (hs : List ℕ) → Ascending b hs → x ≤ suc b → below hs x ≡ 0
below_zero b x [] s h = refl
below_zero b x (a ∷ hs) s h = ground (arith, below_zero a x hs s.1)

pub below-le_length : (hs : List ℕ) (x : ℕ) → below hs x ≤ length hs
below-le_length [] x = omega arith
below-le_length (h ∷ hs) x = ground (arith, below-le_length hs x)

pub below_mono : (hs : List ℕ) (x y : ℕ) → x ≤ y → below hs x ≤ below hs y
below_mono [] x y h = omega arith
below_mono (a ∷ hs) x y h = ground (arith, below_mono hs x y h)

get_or-below : (b x k d : ℕ) (hs : List ℕ) → Ascending b hs → k < below hs x → get_or hs k d < x
get_or-below b x k d [] s h = omega arith
get_or-below b x zero d (a ∷ hs) s h = ground (arith, below_zero a x hs s.1)
get_or-below b x (suc k) d (a ∷ hs) s h =
    ground (arith, get_or-below a x k d hs s.1, below_zero a x hs s.1)

get_or-above :
    (b x k d : ℕ) (hs : List ℕ)
    → Ascending b hs
    → below hs x ≤ k
    → k < length hs
    → x ≤ get_or hs k d
get_or-above b x k d [] s h l = omega arith
get_or-above b x zero d (a ∷ hs) s h l = ground arith
get_or-above b x (suc k) d (a ∷ hs) s h l = ground (arith, get_or-above a x k d hs s.1, later)
  where
    later : below (a ∷ hs) x ≤ suc k → below hs x ≤ k
    later h = ground (arith, below_zero a x hs s.1)

pub search_above-below :
    (x : ℕ) (hs : List ℕ) → Ascending 0 hs → search_above hs x ≡ below hs (suc x)
unfolding search_above
search_above-below x hs s =
    search_lem _ (below hs (suc x)) (length hs)
      (λ k l. ground (arith, get_or-below 0 (suc x) k 0 hs s l))
      (λ k l m. ground (arith, get_or-above 0 (suc x) k 0 hs s l m)) (below-le_length hs (suc x))

pub search_from-below : (x : ℕ) (hs : List ℕ) → Ascending 0 hs → search_from hs x ≡ below hs x
unfolding search_from
search_from-below x hs s =
    search_lem _ (below hs x) (length hs) (λ k l. ground (arith, get_or-below 0 x k 0 hs s l))
      (λ k l m. ground (arith, get_or-above 0 x k 0 hs s l m)) (below-le_length hs x)

below-append : (xs ys : List ℕ) (x : ℕ) → below (xs ++ ys) x ≡ below xs x + below ys x
below-append [] ys x = omega arith
below-append (a ∷ xs) ys x = ground (arith, below-append xs ys x)

below-insert_at :
    (i s x : ℕ) (hs : List ℕ)
    → below (take i hs ++ s ∷ drop i hs) x ≡ below hs x + (if ltb s x then 1 else 0)
below-insert_at zero s x hs = ground arith
below-insert_at (suc i) s x [] = ground arith
below-insert_at (suc i) s x (a ∷ hs) = ground (arith, below-insert_at i s x hs)

-- A new hole counts for every number above it.
pub below-add_hole :
    (s x : ℕ) (hs : List ℕ) → below (add_hole s hs) x ≡ below hs x + (if ltb s x then 1 else 0)
unfolding add_hole
below-add_hole s x hs =
    ground (arith, below-append hs (s ∷ []) x, below-insert_at (search_above hs s) s x hs)
