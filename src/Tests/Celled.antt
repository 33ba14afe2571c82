-- ===== src/Tests/Celled.antt =====
-- The results on lists in memory at a concrete memory.
use l.Prelude.{ℕ, ◌+◌, ◌<◌, ◌==◌, [], ◌∷◌, if◌then◌else◌, ◌≡◌, refl, arith}
use l.Result.{ok}
use l.Cells.{Heap, map_cells, concat_cells}
use l.Cells.Lists.{Holds, Kept, map_cells-Holds, concat_cells-Holds}

-- The list `7 8` at 1, whose second cell is at 2; its end is the list `8`.
abbrev two_cells : Heap
two_cells = record {
  fst = λ a. if a == 1 then 7 else 8;
  rst = λ a. if a == 1 then 2 else 0;
  next = 3;
}

abbrev plus_one : ℕ → ℕ
plus_one d = d + 1

second : Holds two_cells 2 (8 ∷ [])
unfolding Holds
second = (omega arith, omega arith, refl, refl)

both : Holds two_cells 1 (7 ∷ 8 ∷ [])
unfolding Holds
both = (omega arith, omega arith, refl, second)

map_cells-Holds_example :
    (l' : ℕ) × (h' : Heap) × (map_cells plus_one 3 1 two_cells ≡ ok (l', h'))
    × Holds h' l' (8 ∷ 9 ∷ [])
    × Kept two_cells h'
    × (0 < h'.next)
map_cells-Holds_example =
    map_cells-Holds plus_one 3 1 (7 ∷ 8 ∷ []) two_cells (omega arith) both (omega arith)

concat_cells-Holds_example :
    (l' : ℕ) × (h' : Heap) × (concat_cells 4 1 2 two_cells ≡ ok (l', h'))
    × Holds h' l' (7 ∷ 8 ∷ 8 ∷ [])
    × Kept two_cells h'
    × (0 < h'.next)
concat_cells-Holds_example =
    concat_cells-Holds 4 1 2 (7 ∷ 8 ∷ []) (8 ∷ []) two_cells (omega arith) both second (omega arith)
