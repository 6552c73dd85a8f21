-- ===== src/Memory/Holes.antt =====
-- The seqs that were evicted from the middle of the queue, sorted ascending (`holes` of memory.go),
-- and the searches through them.
pub mod Below
pub mod Order
pub mod Tiled
use gowait.Prelude.{
  ◌++◌, ℕ, zero, suc, ◌+◌, ◌-◌, ◌≡◌, Bool, List, [], ◌∷◌, ltb, leb, ◌||◌, ◌==◌, if◌then◌else◌,
  length, get_or,
}
use gowait.SortSearch.{search, insert_at, delete_front}

-- sort.Search(len(s.holes), func(i int) bool { return s.holes[i] > x })
unfoldable pub search_above : List ℕ → ℕ → ℕ
search_above holes x = search (length holes) (λ i. ltb x (get_or holes i 0))

-- sort.Search(len(s.holes), func(i int) bool { return s.holes[i] >= x })
unfoldable pub search_from : List ℕ → ℕ → ℕ
search_from holes x = search (length holes) (λ i. leb x (get_or holes i 0))

-- The holes after `addHoleLocked`.
unfoldable pub add_hole : ℕ → List ℕ → List ℕ
add_hole seq holes =
    let n = length holes in
    if n == 0 || ltb (get_or holes (n - 1) 0) seq
    then holes ++ seq ∷ []
    else insert_at (search_above holes seq) seq holes

-- The holes after `pruneHolesLocked`, with the seqs of the queue.
unfoldable pub prune : List ℕ → List ℕ → List ℕ
prune [] holes = []
prune (front ∷ rest) holes = delete_front (search_above holes front) holes
