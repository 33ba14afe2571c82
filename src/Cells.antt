-- ===== src/Cells.antt =====
-- bootstrap/list.c: linked lists in memory. A list is the address of its first cell, and `nil` has
-- the address 0. The loops take fuel, a unit for each cell and one more.
pub mod Lists
use l.Prelude.{
  ℕ, zero, suc, ◌+◌, Bool, true, false, List, [], ◌∷◌, Option, none, some, ◌==◌, if◌then◌else◌,
}
use l.Result.{Result, ok, out_of_fuel, ◌>>=◌}

-- The fields of the cells at addresses, and the address that the region gives next.
pub record Heap : Type 0 where
  pub fst : ℕ → ℕ
  pub rst : ℕ → ℕ
  pub next : ℕ

unfoldable pub is_nil : ℕ → Bool
is_nil l = l == 0

-- `lst`: a new cell.
unfoldable pub lst : (datum l : ℕ) → Heap → ℕ × Heap
lst d l h = (
  h.next,
  record {
    fst = λ a. if a == h.next then d else h.fst a;
    rst = λ a. if a == h.next then l else h.rst a;
    next = suc h.next;
  },
)

-- `prepend`: the list with a new cell in front.
unfoldable pub prepend : (datum l : ℕ) → Heap → ℕ × Heap
unfolding lst
prepend d l h = lst d l h

-- `length`
unfoldable pub count_cells : (fuel l : ℕ) → Heap → Result ℕ
unfolding is_nil
count_cells zero l h = out_of_fuel
count_cells (suc fuel) l h =
    let rest = count_cells fuel (h.rst l) h in
    if is_nil l then ok 0 else (rest >>= (λ n. ok (suc n)))

-- The loop that prepends what `mapper` gives for each element to `ret`.
unfoldable pub prepend_each : (mapper : ℕ → ℕ) → (fuel l ret : ℕ) → Heap → Result (ℕ × Heap)
unfolding is_nil prepend
prepend_each mapper zero l ret h = out_of_fuel
prepend_each mapper (suc fuel) l ret h =
    let put = prepend (mapper (h.fst l)) ret h in
    let rest = prepend_each mapper fuel (h.rst l) put.0 put.1 in
    if is_nil l then ok (ret, h) else rest

unfoldable pub reverse_cells : (fuel l : ℕ) → Heap → Result (ℕ × Heap)
unfolding prepend_each
reverse_cells fuel l h = prepend_each (λ d. d) fuel l 0 h

-- `map`, with a mapper that changes no memory.
unfoldable pub map_cells : (mapper : ℕ → ℕ) → (fuel l : ℕ) → Heap → Result (ℕ × Heap)
unfolding prepend_each reverse_cells
map_cells mapper fuel l h = prepend_each mapper fuel l 0 h >>= λ r. reverse_cells fuel r.0 r.1

unfoldable pub concat_cells : (fuel a b : ℕ) → Heap → Result (ℕ × Heap)
unfolding prepend_each reverse_cells
concat_cells fuel a b h = prepend_each (λ d. d) fuel a 0 h >>= λ r.
    prepend_each (λ d. d) fuel b r.0 r.1 >>= λ s. reverse_cells fuel s.0 s.1
