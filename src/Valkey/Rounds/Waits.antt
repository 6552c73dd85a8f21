-- ===== src/Valkey/Rounds/Waits.antt =====
-- What a promotion says of those it takes from the line: since when they waited, and that they enter.
use gowait.Prelude.{
  ◌≡◌, refl, subst, inl, inr, String, false, Option, none, some, List, [], ◌∷◌, ◌++◌, map, ℤ, ◌-ℤ◌,
  All, str_eq, str_eq-cases, str_eq_refl,
}
use gowait.GoMap
use gowait.Valkey.SortedSets.{SortedSet, place, members}
use gowait.Valkey.Scripts.{or_else}

-- The wait of each, by the time of its enqueueing; 0 where this is not kept.
abbrev pub waits_since : ℤ → (String → Option ℤ) → List String → List ℤ
waits_since now since = map (λ id. now -ℤ or_else now (since id))

-- The sessions after these have entered one after the other.
abbrev pub enters : ℤ → List String → SortedSet → SortedSet
enters now [] l = l
enters now (id ∷ ids) l = enters now ids (place now id l)

waits_cong :
    (now : ℤ) (f g : String → Option ℤ) (ids : List String)
    → All (λ id. f id ≡ g id) ids
    → waits_since now f ids ≡ waits_since now g ids
waits_cong now f g [] h = refl
waits_cong now f g (id ∷ ids) (h, hs) = rw (h, waits_cong now f g ids hs) refl

All-append : (P : String → Type 0) (xs ys : List String) → All P (xs ++ ys) → All P xs
All-append P [] ys h = tt
All-append P (x ∷ xs) ys (h, hs) = (h, All-append P xs ys hs)

All-members :
    (P : String → Type 0) (l : SortedSet)
    → ((id : String) (y : ℤ) → GoMap.lookup id l ≡ some y → P id)
    → All P (members l)
unfolding GoMap.lookup
All-members P [] h = tt
All-members P ((j, y) ∷ l) h = (
  h j y (rw (str_eq_refl j) refl),
  All-members P l (λ id z e. elim (str_eq-cases j id) [
    | inl (b, same) ↦ h id y (rw b refl)
    | inr (b, other) ↦ h id z (rw b e)
  ]),
)

-- Those at the head of a line waited as long by either reading, if the readings agree on the line.
pub waits_agree :
    (now : ℤ) (f g : String → Option ℤ) (l : SortedSet) (gone rest : List String)
    → members l ≡ gone ++ rest
    → ((id : String) (y : ℤ) → GoMap.lookup id l ≡ some y → f id ≡ g id)
    → waits_since now f gone ≡ waits_since now g gone
waits_agree now f g l gone rest e h = waits_cong now f g gone (
    All-append (λ id. f id ≡ g id) gone rest
      (subst (All (λ id. f id ≡ g id)) e (All-members (λ id. f id ≡ g id) l h)))

-- A member is not one that is missing.
pub other_member :
    (i j : String) (y : ℤ) (l : SortedSet)
    → GoMap.lookup i l ≡ none
    → GoMap.lookup j l ≡ some y
    → str_eq i j ≡ false
other_member i j y l h e = elim (str_eq-cases i j) [
  | inl (b, same) ↦ absurd (let x = rw same at h in cc)
  | inr (b, other) ↦ b
]
