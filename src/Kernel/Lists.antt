-- ===== src/Kernel/Lists.antt =====
-- The lists of tasks as sequences: what `insert` at the back, `remove` at the front, `move` to the
-- back and `sort` of src/list.cpp do to the sequence of nodes.
use quark_ts_cpp.Prelude.{
  ℕ, zero, suc, ◌-◌, Bool, true, false, ◌||◌, List, [], ◌∷◌, ◌++◌, ◌==◌, if◌then◌else◌, length,
}

abbrev pub member : List ℕ → ℕ → Bool
member [] x = false
member (y ∷ ys) x = (y == x) || member ys x

-- A node that the list owns, or the null pointer, is refused.
unfoldable pub insert_back : List ℕ → ℕ → List ℕ × Bool
insert_back xs x = if (x == 0) || member xs x then (xs, false) else (xs ++ x ∷ [], true)

abbrev pub without_front : List ℕ → List ℕ
without_front [] = []
without_front (x ∷ xs) = xs

-- The inner loop of `sort` from the node `cur` on: a node that stands before one that it should follow
-- changes places with it.
unfoldable pub sort_pass : (ℕ → ℕ → Bool) → ℕ → ℕ → List ℕ → List ℕ
sort_pass f zero cur xs = cur ∷ xs
sort_pass f (suc n) cur [] = cur ∷ []
sort_pass f (suc n) cur (x ∷ xs) =
    let kept = sort_pass f n x xs in
    let swapped = sort_pass f n cur xs in if f cur x then x ∷ swapped else cur ∷ kept

abbrev pass : (ℕ → ℕ → Bool) → ℕ → List ℕ → List ℕ
pass f n [] = []
pass f n (x ∷ xs) = sort_pass f n x xs

-- The outer loop: passes of `k` comparisons, of one less, and so on down to one.
unfoldable pub sort_passes : (ℕ → ℕ → Bool) → ℕ → List ℕ → List ℕ
unfolding sort_pass
sort_passes f zero xs = xs
sort_passes f (suc k) xs = sort_passes f k (pass f (suc k) xs)

unfoldable pub sort : (ℕ → ℕ → Bool) → List ℕ → List ℕ
unfolding sort_passes
sort f xs = sort_passes f (length xs - 1) xs
