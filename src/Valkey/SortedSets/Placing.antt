-- ===== src/Valkey/SortedSets/Placing.antt =====
-- A member that is added or moved.
use gowait.Prelude.{
  ℕ, zero, suc, ◌≡◌, refl, ap, subst, ◌∙◌, ◌⊎◌, inl, inr, String, true, none, some, [], ◌∷◌, ◌++◌,
  ℤ, ◌<ℤ◌, ltb_ℤ, length, All, get_elem?, arith, if◌then◌else◌, str_eq, str_eq-cases, str_eq_refl,
  Bool-cases, Option-cases,
}
use gowait.GoMap
use gowait.GoMap.{Distinct, lookup-remove, remove_absent, remove-Distinct}
use gowait.Valkey.SortedSets.{SortedSet, precedes, put_in, place, rank, members}

lookup-put_in :
    (x : ℤ) (i j : String) (l : SortedSet)
    → GoMap.lookup i l ≡ none
    → GoMap.lookup j (put_in x i l) ≡ (if str_eq i j then some x else GoMap.lookup j l)
unfolding GoMap.lookup put_in
lookup-put_in x i j [] h = refl
lookup-put_in x i j ((k, y) ∷ l) h =
    ground (arith, str_eq-cases k j, str_eq-cases i j, str_eq-cases k i, lookup-put_in x i j l)

lookup-remove_self : (i : String) (l : SortedSet) → GoMap.lookup i (GoMap.remove i l) ≡ none
lookup-remove_self i l = ground (arith, lookup-remove i i l, str_eq_refl i)

pub lookup-place :
    (x : ℤ) (i j : String) (l : SortedSet)
    → GoMap.lookup j (place x i l) ≡ (if str_eq i j then some x else GoMap.lookup j l)
unfolding place
lookup-place x i j l =
    ground
      (arith, lookup-put_in x i j (GoMap.remove i l) (lookup-remove_self i l), lookup-remove i j l)

put_in-Distinct :
    (x : ℤ) (i : String) (l : SortedSet)
    → GoMap.lookup i l ≡ none
    → Distinct l
    → Distinct (put_in x i l)
unfolding put_in GoMap.lookup
put_in-Distinct x i [] h d = (refl, tt)
put_in-Distinct x i ((k, y) ∷ l) h d =
    ground (arith, str_eq-cases k i, str_eq-cases i k, lookup-put_in x i k l, put_in-Distinct x i l)

pub place-Distinct : (x : ℤ) (i : String) (l : SortedSet) → Distinct l → Distinct (place x i l)
unfolding place
place-Distinct x i l d =
    put_in-Distinct x i (GoMap.remove i l) (lookup-remove_self i l) (remove-Distinct i l d)

length-put_in : (x : ℤ) (i : String) (l : SortedSet) → length (put_in x i l) ≡ suc (length l)
unfolding put_in
length-put_in x i [] = refl
length-put_in x i ((k, y) ∷ l) = ground (arith, length-put_in x i l)

-- A member that is there leaves one behind.
pub length-remove :
    (i : String) (y : ℤ) (l : SortedSet)
    → Distinct l
    → GoMap.lookup i l ≡ some y
    → length l ≡ suc (length (GoMap.remove i l))
unfolding GoMap.lookup GoMap.remove
length-remove i y [] d h = cc
length-remove i y ((k, z) ∷ l) d h =
    ground (arith, str_eq-cases k i, remove_absent k l, length-remove i y l d.1)

pub length-place_new :
    (x : ℤ) (i : String) (l : SortedSet)
    → GoMap.lookup i l ≡ none
    → length (place x i l) ≡ suc (length l)
unfolding place
length-place_new x i l h =
    length-put_in x i (GoMap.remove i l) ∙ ap (λ m. suc (length m)) (remove_absent i l h)

pub length-place_old :
    (x y : ℤ) (i : String) (l : SortedSet)
    → Distinct l
    → GoMap.lookup i l ≡ some y
    → length (place x i l) ≡ length l
unfolding place
length-place_old x y i l d h =
    ground (arith, length-put_in x i (GoMap.remove i l), length-remove i y l d h)

-- A new member with the highest score is last.
put_in_last :
    (x : ℤ) (i : String) (l : SortedSet) → All (λ m. m.1 <ℤ x) l → put_in x i l ≡ l ++ (i, x) ∷ []
unfolding put_in precedes
put_in_last x i [] h = refl
put_in_last x i ((k, y) ∷ l) h =
    let b : ltb_ℤ y x ≡ true = ground (arith, h.0) in
    rw b (ap (λ m. (k, y) ∷ m) (put_in_last x i l h.1))

pub place_last :
    (x : ℤ) (i : String) (l : SortedSet)
    → GoMap.lookup i l ≡ none
    → All (λ m. m.1 <ℤ x) l
    → place x i l ≡ l ++ (i, x) ∷ []
unfolding place
place_last x i l n h = rw (remove_absent i l n) (put_in_last x i l h)

pub rank-last :
    (x : ℤ) (i : String) (l : SortedSet)
    → GoMap.lookup i l ≡ none
    → rank i (l ++ (i, x) ∷ []) ≡ some (length l)
unfolding rank GoMap.lookup
rank-last x i [] h = ground (arith, str_eq_refl i)
rank-last x i ((k, y) ∷ l) h = ground (arith, str_eq-cases k i, rank-last x i l)

-- A rank is the place among the members.
pub rank-get_elem? :
    (i : String) (k : ℕ) (l : SortedSet) → rank i l ≡ some k → get_elem? (members l) k ≡ some i
unfolding rank
rank-get_elem? i k [] h = cc
rank-get_elem? i k ((j, y) ∷ l) h = elim (str_eq-cases j i) [
  | inl (b, e) ↦
      let zeroth : zero ≡ k = ground (arith, b, h) in
      subst (λ m. get_elem? (members ((j, y) ∷ l)) m ≡ some i) zeroth (ap some e)
  | inr (b, n) ↦ elim (Option-cases (rank i l)) [
    | inl r ↦ absurd (ground (arith, b, r, h))
    | inr (m, r) ↦
        let next : suc m ≡ k = ground (arith, b, r, h) in
        subst (λ m. get_elem? (members ((j, y) ∷ l)) m ≡ some i) next (rank-get_elem? i m l r)
  ]
]

pub rank-lookup :
    (i : String) (l : SortedSet)
    → ((rank i l ≡ none) × (GoMap.lookup i l ≡ none))
      ⊎ ((k : ℕ) × (y : ℤ) × (rank i l ≡ some k) × (GoMap.lookup i l ≡ some y))
unfolding rank GoMap.lookup
rank-lookup i [] = inl (refl, refl)
rank-lookup i ((j, y) ∷ l) = elim (Bool-cases (str_eq j i)) [
  | inl b ↦ rw b (inr (0, y, refl, refl))
  | inr b ↦ elim (rank-lookup i l) [
    | inl (r, e) ↦ rw (b, r, e) (inl (refl, refl))
    | inr (k, z, r, e) ↦ rw (b, r, e) (inr (suc k, z, refl, refl))
  ]
]

pub rank_absent : (i : String) (l : SortedSet) → GoMap.lookup i l ≡ none → rank i l ≡ none
rank_absent i l h = elim (rank-lookup i l) [
  | inl (r, e) ↦ r
  | inr (k, y, r, e) ↦ absurd (ground (arith, h, e))
]

pub length-members : (l : SortedSet) → length (members l) ≡ length l
length-members [] = refl
length-members ((j, y) ∷ l) = ap suc (length-members l)
