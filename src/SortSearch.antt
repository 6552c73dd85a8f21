-- ===== src/SortSearch.antt =====
-- Go's `sort.Search` and the operations of `slices` that the memory store calls. `sort.Search` is
-- the standard library's binary search; its loop halves `j - i`, so `n` rounds of fuel are enough.
use gowait.Prelude.{
  ℕ, zero, suc, ◌+◌, ◌/◌, ◌≤◌, ◌<◌, ◌≡◌, refl, Bool, true, false, List, ◌∷◌, ◌++◌, arith,
  if◌then◌else◌, ltb, take, drop,
}

-- for i < j { h := (i + j) / 2; if !f(h) { i = h + 1 } else { j = h } }
search_loop : ℕ → (ℕ → Bool) → ℕ → ℕ → ℕ
search_loop zero f i j = i
search_loop (suc fuel) f i j =
    let h = (i + j) / 2 in
    let left = search_loop fuel f i h in
    let right = search_loop fuel f (h + 1) j in
    let round = if f h then left else right in if ltb i j then round else i

unfoldable pub search : ℕ → (ℕ → Bool) → ℕ
unfolding search_loop
search n f = search_loop n f 0 n

module _ (f : ℕ → Bool) (c : ℕ) where
  search_loop_lem :
      (fuel i j : ℕ)
      → ((k : ℕ) → k < c → f k ≡ false)
      → ((k : ℕ) → c ≤ k → k < j → f k ≡ true)
      → i ≤ c
      → c ≤ j
      → j ≤ i + fuel
      → search_loop fuel f i j ≡ c
  unfolding search_loop
  search_loop_lem zero i j low high ic cj enough = omega arith
  search_loop_lem (suc fuel) i j low high ic cj enough =
      let h = (i + j) / 2 in
      ground (
        arith,
        low h,
        high h,
        search_loop_lem fuel i h low (λ k a b. high k a (omega arith)),
        search_loop_lem fuel (h + 1) j low high,
      )

  -- The search finds the point where the test turns from false to true.
  pub search_lem :
      (n : ℕ)
      → ((k : ℕ) → k < c → f k ≡ false)
      → ((k : ℕ) → c ≤ k → k < n → f k ≡ true)
      → c ≤ n
      → search n f ≡ c
  unfolding search
  search_lem n low high cn = search_loop_lem n 0 n low high (omega arith) cn (omega arith)

module _ {ℓ} {A : Type ℓ} where
  -- slices.Insert(s, i, v)
  abbrev pub insert_at : ℕ → A → List A → List A
  insert_at i v s = take i s ++ v ∷ drop i s

  -- slices.Delete(s, 0, i)
  abbrev pub delete_front : ℕ → List A → List A
  delete_front i s = drop i s

search_runs : search 6 (λ i. ltb 3 i) ≡ 4
unfolding search
search_runs = refl
