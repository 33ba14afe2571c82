-- ===== src/Cells/Lists.antt =====
-- The loops of bootstrap/list.c over lists in memory, on the lists of their elements.
use l.Prelude.{
  ℕ, zero, suc, ◌+◌, ◌<◌, true, false, List, [], ◌∷◌, ◌++◌, length, append-nil, ◌==◌, ◌≡◌, refl, ap,
  ap₂, subst, ◌∙◌, arith, ==_iff,
}
use mathlib.Core.List.{map}
use l.Result.{Result, ok, ◌>>=◌}
use l.Cells.{
  Heap, is_nil, lst, prepend, count_cells, prepend_each, reverse_cells, map_cells, concat_cells,
}

-- The list at an address has these elements, in allocated cells.
unfoldable pub Holds : Heap → ℕ → List ℕ → Type 0
Holds h l [] = l ≡ 0
Holds h l (x ∷ xs) = (0 < l) × (l < h.next) × (h.fst l ≡ x) × Holds h (h.rst l) xs

-- Every list that was there is there, with its elements.
unfoldable pub Kept : Heap → Heap → Type 0
unfolding Holds
Kept h h' = (l : ℕ) (xs : List ℕ) → Holds h l xs → Holds h' l xs

not_next : (l n : ℕ) → l < n → (l == n) ≡ false
not_next l n h = ground arith

same_next : (n : ℕ) → (n == n) ≡ true
same_next n = (==_iff n n).1 refl

prepend-Kept : (d r : ℕ) (h : Heap) → Kept h (prepend d r h).1
unfolding Kept Holds prepend lst
prepend-Kept d r h l [] e = e
prepend-Kept d r h l (x ∷ xs) (positive, inside, first, rest) =
    let old = not_next l h.next inside in
    (positive, omega arith, rw old first, rw old (prepend-Kept d r h (h.rst l) xs rest))

prepend-Holds :
    (d r : ℕ) (ys : List ℕ) (h : Heap)
    → 0 < h.next
    → Holds h r ys
    → Holds (prepend d r h).1 (prepend d r h).0 (d ∷ ys)
unfolding Holds prepend lst Kept
prepend-Holds d r ys h positive held =
    let new = same_next h.next in
    (positive, omega arith, rw new refl, rw new (prepend-Kept d r h r ys held))

-- What `xs` gives is put in front of `ys`, one after another.
unfoldable pub put_in_front : (ℕ → ℕ) → List ℕ → List ℕ → List ℕ
put_in_front f [] ys = ys
put_in_front f (x ∷ xs) ys = put_in_front f xs (f x ∷ ys)

-- A run that returns a list with these elements and keeps the lists that were there.
Returns : Heap → Result (ℕ × Heap) → List ℕ → Type 0
Returns h r ys =
    (l : ℕ) × (h' : Heap) × (r ≡ ok (l, h')) × Holds h' l ys × Kept h h' × (0 < h'.next)

prepend_each-Returns :
    (f : ℕ → ℕ) (fuel l r : ℕ) (xs ys : List ℕ) (h : Heap)
    → 0 < h.next
    → Holds h l xs
    → Holds h r ys
    → length xs < fuel
    → Returns h (prepend_each f fuel l r h) (put_in_front f xs ys)
unfolding prepend_each Returns put_in_front Holds Kept is_nil
prepend_each-Returns f zero l r xs ys h positive held kept enough = absurd (omega arith)
prepend_each-Returns f (suc fuel) l r [] ys h positive held kept enough =
    (r, h, rw held refl, kept, λ _ _ same. same, positive)
prepend_each-Returns f (suc fuel) l r (x ∷ xs) ys h positive (here, inside, first, rest) kept
      enough =
    let put = prepend (f (h.fst l)) r h in
    let some_cell : (l == 0) ≡ false = ground arith in
    let (l', h', e, held, still, positive') =
      prepend_each-Returns f fuel (h.rst l) put.0 xs (f (h.fst l) ∷ ys) put.1
        (let p : 0 < suc h.next = omega arith in p)
        (prepend-Kept (f (h.fst l)) r h (h.rst l) xs rest)
        (prepend-Holds (f (h.fst l)) r ys h positive kept) (omega arith) in
    (
      l',
      h',
      rw some_cell e,
      subst (λ y. Holds h' l' (put_in_front f xs (f y ∷ ys))) first held,
      λ k zs there. still k zs (prepend-Kept (f (h.fst l)) r h k zs there),
      positive',
    )

Returns-bind :
    (h : Heap) (r : Result (ℕ × Heap)) (f : ℕ × Heap → Result (ℕ × Heap)) (ys zs : List ℕ)
    → Returns h r ys
    → ((l : ℕ) (h' : Heap) → Holds h' l ys → Kept h h' → 0 < h'.next → Returns h' (f (l, h')) zs)
    → Returns h (r >>= f) zs
unfolding Returns Kept
Returns-bind h r f ys zs (l, h', e, held, kept, positive) next =
    let (l'', h'', e', held', kept', positive') = next l h' held kept positive in
    (l'', h'', rw e e', held', λ k xs there. kept' k xs (kept k xs there), positive')

length-put_in_front :
    (f : ℕ → ℕ) (xs ys : List ℕ) → length (put_in_front f xs ys) ≡ length xs + length ys
unfolding put_in_front
length-put_in_front f [] ys = omega arith
length-put_in_front f (x ∷ xs) ys = omega (arith, length-put_in_front f xs (f x ∷ ys))

-- Putting elements in front twice keeps their order.
put_twice :
    (f : ℕ → ℕ) (xs ys zs : List ℕ)
    → put_in_front (λ d. d) (put_in_front f xs ys) zs ≡ put_in_front (λ d. d) ys (map f xs ++ zs)
unfolding put_in_front
put_twice f [] ys zs = refl
put_twice f (x ∷ xs) ys zs = put_twice f xs (f x ∷ ys) zs

map-same : (xs : List ℕ) → map (λ d. d) xs ≡ xs
map-same [] = refl
map-same (x ∷ xs) = ap (λ (ys : List ℕ). x ∷ ys) (map-same xs)

-- `map` returns a list of what the mapper gives for each element, in their order, and leaves every
-- list that was there as it is. A unit of fuel for each cell and one more is enough.
pub map_cells-Holds :
    (f : ℕ → ℕ) (fuel l : ℕ) (xs : List ℕ) (h : Heap)
    → 0 < h.next
    → Holds h l xs
    → length xs < fuel
    → (l' : ℕ) × (h' : Heap) × (map_cells f fuel l h ≡ ok (l', h'))
      × Holds h' l' (map f xs)
      × Kept h h'
      × (0 < h'.next)
unfolding map_cells reverse_cells Holds Returns put_in_front
map_cells-Holds f fuel l xs h positive held enough =
    subst (Returns h (map_cells f fuel l h)) (put_twice f xs [] [] ∙ append-nil (map f xs)) (
      Returns-bind h (prepend_each f fuel l 0 h) _ (put_in_front f xs []) _
        (prepend_each-Returns f fuel l 0 xs [] h positive held refl enough)
        (λ l' h' held' kept positive'.
          prepend_each-Returns (λ d. d) fuel l' 0 (put_in_front f xs []) [] h' positive' held' refl
            (omega (arith, length-put_in_front f xs []))))

-- `concat` returns a list of the elements of the one list and then those of the other, and leaves
-- every list that was there as it is. A unit of fuel for each cell and one more is enough.
pub concat_cells-Holds :
    (fuel a b : ℕ) (xs ys : List ℕ) (h : Heap)
    → 0 < h.next
    → Holds h a xs
    → Holds h b ys
    → length xs + length ys < fuel
    → (l' : ℕ) × (h' : Heap) × (concat_cells fuel a b h ≡ ok (l', h'))
      × Holds h' l' (xs ++ ys)
      × Kept h h'
      × (0 < h'.next)
unfolding concat_cells reverse_cells Holds Returns Kept put_in_front
concat_cells-Holds fuel a b xs ys h positive held held' enough =
    let all = put_in_front (λ d. d) ys (put_in_front (λ d. d) xs []) in
    let order : put_in_front (λ d. d) all [] ≡ xs ++ ys =
      put_twice (λ d. d) ys (put_in_front (λ d. d) xs []) []
      ∙ put_twice (λ d. d) xs [] (map (λ d. d) ys ++ [])
      ∙ ap₂ (λ (us vs : List ℕ). us ++ vs) (map-same xs)
          (append-nil (map (λ d. d) ys) ∙ map-same ys) in
    subst (Returns h (concat_cells fuel a b h)) order (
      Returns-bind h (prepend_each (λ d. d) fuel a 0 h) _ (put_in_front (λ d. d) xs []) _
        (prepend_each-Returns (λ d. d) fuel a 0 xs [] h positive held refl (omega arith))
        (λ l1 h1 held1 kept1 positive1.
          Returns-bind h1 (prepend_each (λ d. d) fuel b l1 h1) _ all _
            (prepend_each-Returns (λ d. d) fuel b l1 ys (put_in_front (λ d. d) xs []) h1 positive1
              (kept1 b ys held') held1 (omega arith))
            (λ l2 h2 held2 kept2 positive2.
              prepend_each-Returns (λ d. d) fuel l2 0 all [] h2 positive2 held2 refl
                (omega (
                  arith,
                  length-put_in_front (λ d. d) ys (put_in_front (λ d. d) xs []),
                  length-put_in_front (λ d. d) xs [],
                )))))

-- `length` counts the elements.
pub count_cells-length :
    (fuel l : ℕ) (xs : List ℕ) (h : Heap)
    → Holds h l xs
    → length xs < fuel
    → count_cells fuel l h ≡ ok (length xs)
unfolding count_cells Holds is_nil
count_cells-length zero l xs h held enough = absurd (omega arith)
count_cells-length (suc fuel) l [] h held enough = rw held refl
count_cells-length (suc fuel) l (x ∷ xs) h (here, inside, first, rest) enough =
    let some_cell : (l == 0) ≡ false = ground arith in
    rw (some_cell, count_cells-length fuel (h.rst l) xs h rest (omega arith)) refl
