-- ===== src/Valkey/SortedSets.antt =====
-- Sorted sets as the server documents them: members with scores, by score and then by member. They
-- are lists here, read by `lookup` and `remove` of `GoMap`.
pub mod Placing
pub mod Removing
use gowait.Prelude.{
  ℕ, zero, suc, ◌≡◌, String, Bool, true, false, ◌&&◌, ◌||◌, Option, none, some, List, [], ◌∷◌, ℤ,
  ltb_ℤ, eqb_ℤ, if◌then◌else◌, str_eq,
}
use Prim.Native.String
use Prim.Native.Nat.{Ordering}
use gowait.GoMap

abbrev pub SortedSet : Type 0
SortedSet = List (String × ℤ)

-- The byte order of two members.
abbrev pub before : String → String → Bool
before i j = elim (String.compare i j) [ Ordering.lt ↦ true | _ ↦ false ]

-- Whether member `j` with score `y` stands before `i` with score `x`.
unfoldable pub precedes : ℤ → String → ℤ → String → Bool
precedes y j x i = ltb_ℤ y x || (eqb_ℤ y x && before j i)

unfoldable pub put_in : ℤ → String → SortedSet → SortedSet
unfolding precedes
put_in x i [] = (i, x) ∷ []
put_in x i ((j, y) ∷ l) =
    let later = put_in x i l in if precedes y j x i then (j, y) ∷ later else (i, x) ∷ (j, y) ∷ l

-- A member and its score, new or moved.
unfoldable pub place : ℤ → String → SortedSet → SortedSet
unfolding put_in
place x i l = put_in x i (GoMap.remove i l)

abbrev pub one_more : Option ℕ → Option ℕ
one_more none = none
one_more (some k) = some (suc k)

-- The rank of a member, from 0.
unfoldable pub rank : String → SortedSet → Option ℕ
rank i [] = none
rank i ((j, y) ∷ l) = let later = one_more (rank i l) in if str_eq j i then some 0 else later

-- The members with a score below a bound.
unfoldable pub below : ℤ → SortedSet → List String
below x [] = []
below x ((j, y) ∷ l) = let rest = below x l in if ltb_ℤ y x then j ∷ rest else rest

-- What remains after the first member is popped, and that member.
abbrev pub first : SortedSet → Option String
first [] = none
first ((j, y) ∷ l) = some j

abbrev pub behind : SortedSet → SortedSet
behind [] = []
behind (m ∷ l) = l

abbrev pub members : SortedSet → List String
members = GoMap.keys
