-- ===== src/Memory/Holes/Tiled.antt =====
-- The seqs from the head of the queue to the next free one are covered once: each stands in the
-- queue or is a hole. So a seq's rank is its distance to the head less the holes between.
use gowait.Prelude.{
  ℕ, zero, suc, ◌+◌, ◌-◌, ◌≤◌, ◌<◌, ◌≡◌, refl, List, [], ◌∷◌, ◌++◌, arith, length, get_elem?, some,
  All,
}
use gowait.Memory.Holes.{add_hole, prune, search_above, search_from}
use gowait.Memory.Holes.Below.{
  below, below_mono, Ascending, below-add_hole, search_above-below, search_from-below,
}
use gowait.Memory.Holes.Order.{below-prune, below-prune_head}

-- The first seq of a queue, or the next one to be given.
abbrev pub next : ℕ → List ℕ → ℕ
next e [] = e
next e (a ∷ q) = a

-- `q` is the queue's seqs and `e` the next free one. From each seq to the one behind it the count
-- of holes grows by just the seqs that are left out, and no queued seq is a hole.
abbrev pub Tiled : List ℕ → ℕ → List ℕ → Type 0
Tiled holes e [] = Unit
Tiled holes e (a ∷ q) =
    (0 < a)
    × (below holes (suc a) ≡ below holes a)
    × (a < next e q)
    × (next e q + below holes a ≡ suc a + below holes (next e q))
    × Tiled holes e q

pub below-All : (e x : ℕ) (hs : List ℕ) → All (λ h. h < e) hs → e ≤ x → below hs x ≡ length hs
below-All e x [] v h = refl
below-All e x (a ∷ hs) v h = ground (arith, below-All e x hs v.1)

-- `Enqueue`: the next seq goes to the end.
pub Tiled-snoc :
    (e : ℕ) (hs q : List ℕ)
    → All (λ h. h < e) hs
    → 0 < e
    → Tiled hs e q
    → Tiled hs (suc e) (q ++ e ∷ [])
Tiled-snoc e hs [] v h t =
    omega (arith, below-All e e hs v (omega arith), below-All e (suc e) hs v (omega arith))
Tiled-snoc e hs (a ∷ []) v h t =
    omega (arith, below-All e e hs v (omega arith), below-All e (suc e) hs v (omega arith))
Tiled-snoc e hs (a ∷ b ∷ q) v h t = (t.0, t.1, t.2, t.3, Tiled-snoc e hs (b ∷ q) v h t.4)

-- Holes that differ by a constant past the head tile alike.
Tiled-transfer :
    (j k f e : ℕ) (hs hs' q : List ℕ)
    → ((y : ℕ) → f < y → below hs' y + j ≡ below hs y + k)
    → f < next e q
    → Tiled hs e q
    → Tiled hs' e q
Tiled-transfer j k f e hs hs' [] same h t = tt
Tiled-transfer j k f e hs hs' (a ∷ q) same h t = (
  t.0,
  omega (arith, same a h, same (suc a) (omega arith)),
  t.2,
  omega (arith, same a h, same (next e q) (omega arith)),
  Tiled-transfer j k f e hs hs' q same (omega arith) t.4,
)

pub next-le : (e x : ℕ) (hs p q : List ℕ) → Tiled hs e (p ++ x ∷ q) → next x p ≤ x
next-le e x hs [] q t = omega arith
next-le e x hs (a ∷ []) q t = omega arith
next-le e x hs (a ∷ b ∷ p) q t = omega (arith, next-le e x hs (b ∷ p) q t.4)

-- An eviction anywhere in the queue leaves a hole in its place.
pub Tiled-evict :
    (e x : ℕ) (hs p q : List ℕ) → Tiled hs e (p ++ x ∷ q) → Tiled (add_hole x hs) e (p ++ q)
Tiled-evict e x hs [] q t =
    Tiled-transfer 0 1 x e hs (add_hole x hs) q (λ y h. ground (arith, below-add_hole x y hs)) t.2
      t.4
Tiled-evict e x hs (a ∷ []) q t = ground (
  arith,
  below-add_hole x a hs,
  below-add_hole x (suc a) hs,
  below-add_hole x (next e q) hs,
  Tiled-evict e x hs [] q t.4,
)
Tiled-evict e x hs (a ∷ b ∷ p) q t = ground (
  arith,
  next-le e x hs (b ∷ p) q t.4,
  below-add_hole x a hs,
  below-add_hole x (suc a) hs,
  below-add_hole x b hs,
  Tiled-evict e x hs (b ∷ p) q t.4,
)

-- Pruning behind the head.
pub Tiled-prune : (e : ℕ) (hs q : List ℕ) → Ascending 0 hs → Tiled hs e q → Tiled (prune q hs) e q
Tiled-prune e hs [] s t = tt
Tiled-prune e hs (f ∷ q) s t = (
  t.0,
  omega (arith, below-prune_head f f q hs s, below-prune_head f (suc f) q hs s),
  t.2,
  omega (arith, below-prune_head f f q hs s (omega arith), below-prune f (next e q) q hs s t.2),
  Tiled-transfer (below hs (suc f)) 0 f e hs (prune (f ∷ q) hs) q
      (λ y h. omega (arith, below-prune f y q hs s h)) t.2 t.4,
)

pub Tiled-lt : (e f : ℕ) (hs q : List ℕ) → Tiled hs e (f ∷ q) → f < e
Tiled-lt e f hs [] t = t.2
Tiled-lt e f hs (b ∷ q) t = omega (arith, Tiled-lt e b hs q t.4)

-- The seq at an index of the queue.
pub Tiled-rank :
    (e i f x : ℕ) (hs q : List ℕ)
    → Tiled hs e (f ∷ q)
    → get_elem? (f ∷ q) i ≡ some x
    → (x + below hs f ≡ f + i + below hs x) × (f ≤ x) × (x < e)
Tiled-rank e zero f x hs q t h = ground (arith, Tiled-lt e f hs q t)
Tiled-rank e (suc i) f x hs [] t h = cc
Tiled-rank e (suc i) f x hs (b ∷ q) t h = omega (arith, Tiled-rank e i b x hs q t.4 h)

-- Its holes are counted by the two searches.
pub Tiled-searches :
    (e i f x : ℕ) (hs q : List ℕ)
    → Ascending 0 hs
    → Tiled hs e (f ∷ q)
    → get_elem? (f ∷ q) i ≡ some x
    → (search_above hs f ≤ search_from hs x)
      × (x - f + 1 ≡ suc i + (search_from hs x - search_above hs f))
Tiled-searches e i f x hs q s t h = omega (
  arith,
  Tiled-rank e i f x hs q t h,
  search_above-below f hs s,
  search_from-below x hs s,
  below_mono hs f x (Tiled-rank e i f x hs q t h).1,
)
