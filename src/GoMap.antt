-- ===== src/GoMap.antt =====
-- Go's `map[string]V`, as an association list. An insertion replaces the value at its key, or adds
-- the pair at the end. The order of iteration is the caller's, since Go leaves it open.
use gowait.Prelude.{
  ℕ, suc, String, ◌≡◌, ◌≢◌, refl, Bool, true, false, Option, none, some, List, [], ◌∷◌, arith, inl,
  inr, if◌then◌else◌, str_eq, str_eq-cases,
}

module _ {ℓ} {V : Type ℓ} where
  unfoldable pub lookup : String → List (String × V) → Option V
  lookup k [] = none
  lookup k ((j, v) ∷ m) = if str_eq j k then some v else lookup k m

  unfoldable pub insert : String → V → List (String × V) → List (String × V)
  insert k v [] = (k, v) ∷ []
  insert k v ((j, w) ∷ m) = if str_eq j k then (k, v) ∷ m else (j, w) ∷ insert k v m

  -- delete(m, k)
  unfoldable pub remove : String → List (String × V) → List (String × V)
  remove k [] = []
  remove k ((j, w) ∷ m) = let rest = remove k m in if str_eq j k then rest else (j, w) ∷ rest

  abbrev pub keys : List (String × V) → List String
  keys [] = []
  keys ((k, v) ∷ m) = k ∷ keys m

  -- No key stands twice.
  abbrev pub Distinct : List (String × V) → Type ℓ
  Distinct [] = Unit
  Distinct ((k, v) ∷ m) = (lookup k m ≡ none) × Distinct m

  -- How many values pass a test.
  abbrev pub count : (V → Bool) → List (String × V) → ℕ
  count p [] = 0
  count p ((k, v) ∷ m) = if p v then suc (count p m) else count p m

  pub lookup-insert :
      (k j : String) (v : V) (m : List (String × V))
      → lookup j (insert k v m) ≡ (if str_eq k j then some v else lookup j m)
  unfolding lookup insert
  lookup-insert k j v [] = refl
  lookup-insert k j v ((i, w) ∷ m) =
      ground (arith, str_eq-cases k j, str_eq-cases i k, str_eq-cases i j, lookup-insert k j v m)

  pub lookup-remove :
      (k j : String) (m : List (String × V))
      → lookup j (remove k m) ≡ (if str_eq k j then none else lookup j m)
  unfolding lookup remove
  lookup-remove k j [] = ground arith
  lookup-remove k j ((i, w) ∷ m) =
      ground (arith, str_eq-cases k j, str_eq-cases i k, str_eq-cases i j, lookup-remove k j m)

  pub insert-Distinct :
      (k : String) (v : V) (m : List (String × V)) → Distinct m → Distinct (insert k v m)
  unfolding insert lookup
  insert-Distinct k v [] d = (refl, tt)
  insert-Distinct k v ((i, w) ∷ m) d =
      ground (
        arith,
        str_eq-cases i k,
        str_eq-cases k i,
        lookup-insert k i v m,
        insert-Distinct k v m d.1,
      )

  pub remove-Distinct : (k : String) (m : List (String × V)) → Distinct m → Distinct (remove k m)
  unfolding remove
  remove-Distinct k [] d = tt
  remove-Distinct k ((i, w) ∷ m) d =
      ground (arith, str_eq-cases k i, lookup-remove k i m, remove-Distinct k m d.1)

  -- A new key adds its value to the count.
  pub count-insert :
      (p : V → Bool) (k : String) (v : V) (m : List (String × V))
      → lookup k m ≡ none
      → count p (insert k v m) ≡ (if p v then suc (count p m) else count p m)
  unfolding insert lookup
  count-insert p k v [] h = refl
  count-insert p k v ((i, w) ∷ m) h = ground (arith, count-insert p k v m)

  pub remove_absent : (k : String) (m : List (String × V)) → lookup k m ≡ none → remove k m ≡ m
  unfolding remove lookup
  remove_absent k [] h = refl
  remove_absent k ((i, w) ∷ m) h = ground (arith, remove_absent k m)

  -- A deleted key takes its value off the count.
  pub count-remove :
      (p : V → Bool) (k : String) (v : V) (m : List (String × V))
      → Distinct m
      → lookup k m ≡ some v
      → count p m ≡ (if p v then suc (count p (remove k m)) else count p (remove k m))
  unfolding remove lookup
  count-remove p k v [] d h = cc
  count-remove p k v ((i, w) ∷ m) d h =
      ground (arith, str_eq-cases i k, remove_absent k m, count-remove p k v m d.1)

-- Pointers as values: the count when one cell that a single key refers to changes from failing the
-- test to passing it.
pub count_elsewhere :
    (f g : ℕ → Bool) (p : ℕ) (m : List (String × ℕ))
    → Distinct m
    → ((j : String) → lookup j m ≢ some p)
    → ((q : ℕ) → q ≢ p → g q ≡ f q)
    → count g m ≡ count f m
unfolding lookup
count_elsewhere f g p [] d away same = refl
count_elsewhere f g p ((i, q) ∷ m) d away same =
    ground (arith, str_eq-cases i i, away i, same q, count_elsewhere f g p m d.1 rest same)
  where
    rest : (j : String) → lookup j m ≢ some p
    rest j h = ground (arith, away j, str_eq-cases i j, d.0)

lookup-tail :
    (i j : String) (q p : ℕ) (m : List (String × ℕ))
    → lookup i m ≡ none
    → lookup j m ≡ some p
    → lookup j ((i, q) ∷ m) ≡ some p
unfolding lookup
lookup-tail i j q p m d h = ground (arith, str_eq-cases i j)

module _ (f g : ℕ → Bool) (p : ℕ) (off : f p ≡ false) (on : g p ≡ true)
    (same : (q : ℕ) → q ≢ p → g q ≡ f q) where
  pub count_flip :
      (k : String) (m : List (String × ℕ))
      → Distinct m
      → lookup k m ≡ some p
      → ((j : String) → lookup j m ≡ some p → j ≡ k)
      → count g m ≡ suc (count f m)
  unfolding lookup
  count_flip k [] d h only = cc
  count_flip k ((i, q) ∷ m) d h only = elim (str_eq-cases i k) [
    | inl (hit, e) ↦ ground (arith, hit, count_elsewhere f g p m d.1 (away e) same)
    | inr (miss, e) ↦
        ground
          (arith, miss, only i, str_eq-cases i i, same q, count_flip k m d.1 (ground arith) narrow)
  ]
    where
      narrow : (j : String) → lookup j m ≡ some p → j ≡ k
      narrow j at = only j (lookup-tail i j q p m d.0 at)

      away : i ≡ k → (j : String) → lookup j m ≢ some p
      away e j at = ground (arith, narrow j at, d.0)

abbrev two_keys : List (String × ℕ)
two_keys = ("a", 1) ∷ ("b", 2) ∷ []

remove_runs : lookup "b" (remove "a" (insert "c" 3 two_keys)) ≡ some 2
unfolding lookup remove insert
remove_runs = refl
