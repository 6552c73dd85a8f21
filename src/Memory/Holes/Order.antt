-- ===== src/Memory/Holes/Order.antt =====
-- `addHoleLocked` and `pruneHolesLocked` keep the holes sorted.
use gowait.Prelude.{
  ℕ, zero, suc, ◌+◌, ◌≤◌, ◌<◌, ◌≡◌, refl, List, [], ◌∷◌, ◌++◌, arith, length, get_or, take, drop,
  All,
}
use gowait.Memory.Holes.{search_above, add_hole, prune}
use gowait.Memory.Holes.Below.{below, Ascending, below_zero, search_above-below, below_mono}

Ascending-weaken : (b c : ℕ) (hs : List ℕ) → b ≤ c → Ascending c hs → Ascending b hs
Ascending-weaken b c [] h s = tt
Ascending-weaken b c (a ∷ hs) h s = (omega arith, s.1)

-- The last element, or the bound of an empty list.
abbrev last : ℕ → List ℕ → ℕ
last b [] = b
last b (a ∷ hs) = last a hs

last-get_or : (b a d : ℕ) (hs : List ℕ) → get_or (a ∷ hs) (length hs) d ≡ last b (a ∷ hs)
last-get_or b a d [] = refl
last-get_or b a d (c ∷ hs) = last-get_or a c d hs

Ascending-snoc :
    (b s : ℕ) (hs : List ℕ) → Ascending b hs → last b hs < s → Ascending b (hs ++ s ∷ [])
Ascending-snoc b s [] v h = (h, tt)
Ascending-snoc b s (a ∷ hs) v h = (v.0, Ascending-snoc a s hs v.1 h)

Ascending-insert :
    (b s : ℕ) (hs : List ℕ)
    → Ascending b hs
    → b < s
    → below hs (suc s) ≡ below hs s
    → Ascending b (take (below hs (suc s)) hs ++ s ∷ drop (below hs (suc s)) hs)
Ascending-insert b s [] v h clear = (h, tt)
Ascending-insert b s (a ∷ hs) v h clear =
    ground (arith, Ascending-insert a s hs v.1, below_zero a (suc s) hs v.1, below_zero a s hs v.1)

-- A hole that is not there yet is put in its place.
pub add_hole-Ascending :
    (s : ℕ) (hs : List ℕ)
    → Ascending 0 hs
    → 0 < s
    → below hs (suc s) ≡ below hs s
    → Ascending 0 (add_hole s hs)
unfolding add_hole
add_hole-Ascending s [] v h clear = ground arith
add_hole-Ascending s (a ∷ hs) v h clear = rw (search_above-below s (a ∷ hs) v) (
    ground (
      arith,
      Ascending-insert 0 s (a ∷ hs) v h clear,
      Ascending-snoc 0 s (a ∷ hs) v,
      last-get_or 0 a 0 hs,
    ))

Ascending-drop : (b n : ℕ) (hs : List ℕ) → Ascending b hs → Ascending b (drop n hs)
Ascending-drop b zero hs v = v
Ascending-drop b (suc n) [] v = tt
Ascending-drop b (suc n) (a ∷ hs) v =
    Ascending-weaken b a (drop n hs) (omega arith) (Ascending-drop a n hs v.1)

pub prune-Ascending : (q hs : List ℕ) → Ascending 0 hs → Ascending 0 (prune q hs)
unfolding prune
prune-Ascending [] hs v = tt
prune-Ascending (f ∷ q) hs v = Ascending-drop 0 (search_above hs f) hs v

below-drop :
    (b f x : ℕ) (hs : List ℕ)
    → Ascending b hs
    → f ≤ x
    → below (drop (below hs f) hs) x + below hs f ≡ below hs x
below-drop b f x [] v h = omega arith
below-drop b f x (a ∷ hs) v h = ground (arith, below-drop a f x hs v.1, below_zero a f hs v.1)

-- Pruning takes the same number off the count of every number past the head.
pub below-prune :
    (f x : ℕ) (q hs : List ℕ)
    → Ascending 0 hs
    → f < x
    → below (prune (f ∷ q) hs) x + below hs (suc f) ≡ below hs x
unfolding prune
below-prune f x q hs v h = rw (search_above-below f hs v) (below-drop 0 (suc f) x hs v h)

pub below-prune_head :
    (f x : ℕ) (q hs : List ℕ) → Ascending 0 hs → x ≤ suc f → below (prune (f ∷ q) hs) x ≡ 0
unfolding prune
below-prune_head f x q hs v h = rw (search_above-below f hs v) (
    omega (
      arith,
      below-drop 0 (suc f) (suc f) hs v (omega arith),
      below_mono (drop (below hs (suc f)) hs) x (suc f) h,
    ))

Below-append :
    (e : ℕ) (xs ys : List ℕ)
    → All (λ h. h < e) xs
    → All (λ h. h < e) ys
    → All (λ h. h < e) (xs ++ ys)
Below-append e [] ys v w = w
Below-append e (x ∷ xs) ys v w = (v.0, Below-append e xs ys v.1 w)

Below-take : (e n : ℕ) (xs : List ℕ) → All (λ h. h < e) xs → All (λ h. h < e) (take n xs)
Below-take e zero xs v = tt
Below-take e (suc n) [] v = tt
Below-take e (suc n) (x ∷ xs) v = (v.0, Below-take e n xs v.1)

Below-drop : (e n : ℕ) (xs : List ℕ) → All (λ h. h < e) xs → All (λ h. h < e) (drop n xs)
Below-drop e zero xs v = v
Below-drop e (suc n) [] v = tt
Below-drop e (suc n) (x ∷ xs) v = Below-drop e n xs v.1

-- The holes stay under a bound.
pub add_hole-All :
    (e s : ℕ) (hs : List ℕ) → All (λ h. h < e) hs → s < e → All (λ h. h < e) (add_hole s hs)
unfolding add_hole
add_hole-All e s hs v h = ground (
  arith,
  Below-append e hs (s ∷ []) v,
  Below-append e (take (search_above hs s) hs) (s ∷ drop (search_above hs s) hs)
      (Below-take e (search_above hs s) hs v),
  Below-drop e (search_above hs s) hs v,
)

pub prune-All : (e : ℕ) (q hs : List ℕ) → All (λ h. h < e) hs → All (λ h. h < e) (prune q hs)
unfolding prune
prune-All e [] hs v = tt
prune-All e (f ∷ q) hs v = Below-drop e (search_above hs f) hs v
