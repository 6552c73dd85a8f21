-- ===== src/Memory/Invariant/Queue.antt =====
-- Addresses in the queue: none stands twice, and what holds of all of them.
use gowait.Prelude.{
  ℕ, suc, ◌≤◌, ◌<◌, ◌≡◌, ◌≢◌, refl, ap, true, false, List, [], ◌∷◌, ◌++◌, map, ==_iff, arith, All,
}
use gowait.Memory.Holes.Below.{below}
use gowait.Memory.Holes.Tiled.{Tiled, Tiled-lt, next}
use gowait.Memory.Invariant.{has}

pub All-imp {ℓ κ} :
    (P : ℕ → Type ℓ) (Q : ℕ → Type κ) (xs : List ℕ)
    → ((x : ℕ) → has x xs ≡ true → P x → Q x)
    → All P xs
    → All Q xs
All-imp P Q [] f a = tt
All-imp P Q (x ∷ xs) f a =
    (f x (ground (arith, ==_iff x x)) a.0, All-imp P Q xs (λ y m b. f y (ground (arith, m)) b) a.1)

pub All-middle {κ} :
    (P : ℕ → Type κ) (l r : List ℕ) (p : ℕ) → All P (l ++ p ∷ r) → P p × All P (l ++ r)
All-middle P [] r p a = (a.0, a.1)
All-middle P (x ∷ l) r p a = let (b, c) = All-middle P l r p a.1 in (b, (a.0, c))

pub has-middle : (q p : ℕ) (l r : List ℕ) → q ≢ p → has q (l ++ p ∷ r) ≡ has q (l ++ r)
has-middle q p [] r ne = ground arith
has-middle q p (x ∷ l) r ne = ground (arith, has-middle q p l r ne)

pub map-middle : (f : ℕ → ℕ) (l r : List ℕ) → map f (l ++ r) ≡ map f l ++ map f r
map-middle f [] r = refl
map-middle f (x ∷ l) r = ap (◌∷◌ (f x)) (map-middle f l r)

pub Tiled-middle :
    (hs l r : List ℕ) (e x : ℕ)
    → Tiled hs e (l ++ x ∷ r)
    → (0 < x) × (below hs (suc x) ≡ below hs x) × (x < e)
Tiled-middle hs [] r e x t = (t.0, t.1, Tiled-lt e x hs r t)
Tiled-middle hs (a ∷ l) r e x t = Tiled-middle hs l r e x t.4

module _ (f : ℕ → ℕ) (hs : List ℕ) (e : ℕ) where
  Tiled-above :
      (b p : ℕ) (q : List ℕ)
      → b < next e (map f q)
      → Tiled hs e (map f q)
      → f p ≤ b
      → has p q ≡ false
  Tiled-above b p [] l t h = refl
  Tiled-above b p (a ∷ q) l t h =
      ground (arith, ==_iff a p, ap f, Tiled-above (f a) p q t.2 t.4 (omega arith))

  Tiled-le :
      (p : ℕ) (l r : List ℕ) → Tiled hs e (map f (l ++ p ∷ r)) → next e (map f (l ++ p ∷ r)) ≤ f p
  Tiled-le p [] r t = omega arith
  Tiled-le p (a ∷ l) r t = omega (arith, Tiled-le p l r t.4, t.2)

  -- No address stands twice in the queue.
  pub Tiled-once : (p : ℕ) (l r : List ℕ) → Tiled hs e (map f (l ++ p ∷ r)) → has p (l ++ r) ≡ false
  Tiled-once p [] r t = Tiled-above (f p) p r t.2 t.4 (omega arith)
  Tiled-once p (a ∷ l) r t =
      ground (arith, ==_iff a p, ap f, Tiled-le p l r t.4, Tiled-once p l r t.4)
