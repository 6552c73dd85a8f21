-- ===== src/Valkey/SortedSets/Removing.antt =====
-- Members that are taken out one after the other.
use gowait.Prelude.{
  ◌+◌, ◌≡◌, refl, inl, inr, String, Bool, true, false, none, some, List, [], ◌∷◌, ℤ, ltb_ℤ, length,
  arith, if◌then◌else◌, str_eq, str_eq-cases, str_eq_refl, Bool-cases,
}
use gowait.GoMap
use gowait.GoMap.{Distinct, lookup-remove, remove_absent, remove-Distinct}
use gowait.Valkey.SortedSets.{SortedSet, below}
use gowait.Valkey.SortedSets.Placing.{length-remove}

unfoldable pub removes : List String → SortedSet → SortedSet
removes [] l = l
removes (i ∷ is) l = removes is (GoMap.remove i l)

-- Each id is a member when its turn comes.
abbrev pub Listed : List String → SortedSet → Type 0
Listed [] l = Unit
Listed (i ∷ is) l = ((y : ℤ) × (GoMap.lookup i l ≡ some y)) × Listed is (GoMap.remove i l)

cons-Listed :
    (is : List String) (j : String) (y : ℤ) (l : SortedSet)
    → GoMap.lookup j l ≡ none
    → Listed is l
    → Listed is ((j, y) ∷ l)
unfolding GoMap.lookup GoMap.remove
cons-Listed [] j y l h s = tt
cons-Listed (i ∷ is) j y l h ((z, e), s) = elim (str_eq-cases j i) [
  | inl (b, same) ↦ absurd (ground (arith, rw same at h, e))
  | inr (b, n) ↦
      rw b
        ((z, e), cons-Listed is j y (GoMap.remove i l) (ground (arith, lookup-remove i j l, h)) s)
]

pub below-Listed : (x : ℤ) (l : SortedSet) → Distinct l → Listed (below x l) l
unfolding below GoMap.lookup GoMap.remove
below-Listed x [] d = tt
below-Listed x ((j, y) ∷ l) d = elim (Bool-cases (ltb_ℤ y x)) [
  | inl b ↦ rw (b, str_eq_refl j, remove_absent j l d.0) ((y, refl), below-Listed x l d.1)
  | inr b ↦ rw b (cons-Listed (below x l) j y l d.0 (below-Listed x l d.1))
]

-- As many are gone as were listed.
pub length-removes :
    (is : List String) (l : SortedSet)
    → Distinct l
    → Listed is l
    → length (removes is l) + length is ≡ length l
unfolding removes
length-removes [] l d s = omega arith
length-removes (i ∷ is) l d ((y, e), s) =
    omega (
      arith,
      length-removes is (GoMap.remove i l) (remove-Distinct i l d) s,
      length-remove i y l d e,
    )

pub removes-Distinct : (is : List String) (l : SortedSet) → Distinct l → Distinct (removes is l)
unfolding removes
removes-Distinct [] l d = d
removes-Distinct (i ∷ is) l d = removes-Distinct is (GoMap.remove i l) (remove-Distinct i l d)

unfoldable pub contains : String → List String → Bool
contains i [] = false
contains i (j ∷ js) = let later = contains i js in if str_eq j i then true else later

pub lookup-removes :
    (is : List String) (j : String) (l : SortedSet)
    → GoMap.lookup j (removes is l) ≡ (if contains j is then none else GoMap.lookup j l)
unfolding removes contains
lookup-removes [] j l = refl
lookup-removes (i ∷ is) j l =
    ground (arith, lookup-removes is j (GoMap.remove i l), lookup-remove i j l)
