-- ===== src/Frames/Slots.antt =====
-- The slots that `layout_frames` of bootstrap/x86_64_generator.c gives to the bindings of a frame.
use l.Prelude.{
  ℕ, ◌+◌, ◌*◌, ◌%◌, ◌≤◌, ◌<◌, ◌^◌, ◌≡◌, refl, Bool, true, false, List, [], ◌∷◌, ◌==◌, if◌then◌else◌,
  arith, ==_iff, subst, sym, inl, inr, Bool-cases, ◌&&◌, not, ◌∙◌,
}
use mathlib.Core.List.{reverse}
use l.Interface.{pad_size}
use l.Interface.Numbers.{pad_size_lem}
use l.Assembler.{Binding}
use l.Expression.{Expression, Expressions, function, none_left, also}
use l.Frames.{
  Place, below, place_above, place_below, Fields, assign, set_place, place_slots, place_parameters,
  layout_frames,
}

unfoldable pub is_one_of : Binding → List Binding → Bool
is_one_of b [] = false
is_one_of b (c ∷ cs) = if b == c then true else is_one_of b cs

unfoldable pub all_distinct : List Binding → Bool
unfolding is_one_of
all_distinct [] = true
all_distinct (b ∷ bs) = not (is_one_of b bs) && all_distinct bs

-- The bytes of the slots and what pads them.
unfoldable pub total_size : (Binding → ℕ) → List Binding → ℕ
total_size size_of [] = 0
total_size size_of (b ∷ bs) = pad_size (size_of b) 8 + total_size size_of bs

-- Each binding lies below the frame pointer, from `depth` bytes down, the next one below it, and
-- the last one at most `bottom` bytes down.
unfoldable pub Stacked : (Binding → ℕ) → (Binding → Place) → ℕ → List Binding → ℕ → Type 0
Stacked size_of offset_of depth [] bottom = depth ≤ bottom
Stacked size_of offset_of depth (b ∷ bs) bottom =
    (at : ℕ) × (offset_of b ≡ below at)
    × (depth + size_of b ≤ at)
    × (at % 8 ≡ 0)
    × Stacked size_of offset_of at bs bottom

place_slots-size_of :
    (depth : ℕ) (bs : List Binding) (fs : Fields) → (place_slots depth bs fs).size_of ≡ fs.size_of
unfolding place_slots set_place
place_slots-size_of depth [] fs = refl
place_slots-size_of depth (b ∷ bs) fs =
    let depth' = (depth + pad_size (fs.size_of b) 8) % 2 ^ 32 in
    place_slots-size_of depth' bs (set_place b (place_below depth') fs)

-- A binding that is not in the frame keeps its place.
place_slots-kept :
    (depth : ℕ) (bs : List Binding) (fs : Fields) (c : Binding)
    → is_one_of c bs ≡ false
    → (place_slots depth bs fs).offset_of c ≡ fs.offset_of c
unfolding place_slots set_place assign is_one_of
place_slots-kept depth [] fs c h = refl
place_slots-kept depth (b ∷ bs) fs c h = elim (Bool-cases (c == b)) [
  | inl same ↦ absurd (let e : true ≡ false = rw same at h in cc)
  | inr other ↦
      let later : is_one_of c bs ≡ false = rw other at h in
      let depth' = (depth + pad_size (fs.size_of b) 8) % 2 ^ 32 in
      place_slots-kept depth' bs (set_place b (place_below depth') fs) c later ∙ rw other refl
]

distinct_parts :
    (b : Binding) (bs : List Binding)
    → all_distinct (b ∷ bs) ≡ true
    → (is_one_of b bs ≡ false) × (all_distinct bs ≡ true)
unfolding all_distinct
distinct_parts b bs h = ground arith

assign_self {ℓ} : {A : Type ℓ} (f : Binding → A) (b : Binding) (a : A) → assign f b a b ≡ a
unfolding assign
assign_self f b a = rw ((==_iff b b).1 refl) refl

place_below-below : (n : ℕ) → n ≤ 2 ^ 31 → place_below n ≡ below n
unfolding place_below
place_below-below n h = ground arith

place_slots-Stacked :
    (depth : ℕ) (bs : List Binding) (fs : Fields)
    → all_distinct bs ≡ true
    → ((b : Binding) → fs.size_of b + 8 < 2 ^ 64)
    → depth + total_size fs.size_of bs ≤ 2 ^ 31
    → depth % 8 ≡ 0
    → Stacked fs.size_of
        (place_slots depth bs fs).offset_of
        depth
        bs
        (depth + total_size fs.size_of bs)
unfolding Stacked total_size all_distinct place_slots
place_slots-Stacked depth [] fs distinct small fits even = omega arith
place_slots-Stacked depth (b ∷ bs) fs distinct small fits even =
    let size = fs.size_of b in
    let (padded, covers, _) = pad_size_lem size 8 (omega arith) (small b) in
    let at = (depth + pad_size size 8) % 2 ^ 32 in
    let whole : at ≡ depth + pad_size size 8 = omega arith in
    let fs' = set_place b (place_below at) fs in
    let (fresh, later) = distinct_parts b bs distinct in
    (
      at,
      place_slots-kept at bs fs' b fresh
          ∙ assign_self fs.offset_of b (place_below at)
          ∙ place_below-below at (omega arith),
      omega arith,
      omega arith,
      subst (λ n. Stacked fs.size_of (place_slots at bs fs').offset_of at bs n)
          (let e : at + total_size fs.size_of bs
                ≡ depth + (pad_size size 8 + total_size fs.size_of bs) =
              omega arith in
            e)
          (place_slots-Stacked at bs fs' later small (omega arith) (omega arith)),
    )

module _ (aug_of : Expression → Binding) (temp_of : ℕ → Binding) (contains_flag : ℕ → ℕ)
    (escapes : ℕ → Bool) where
  place_parameters-size_of :
      (offset : ℕ) (ts : Expressions) (fs : Fields)
      → (place_parameters aug_of temp_of contains_flag escapes offset ts fs).size_of ≡ fs.size_of
  unfolding place_parameters set_place
  place_parameters-size_of offset none_left fs = refl
  place_parameters-size_of offset (also t ts) fs =
      place_parameters-size_of ((offset + 8) % 2 ^ 32) ts
        (set_place (aug_of t) (place_above offset) fs)

  -- The bindings that the body of a function adds to its frame, the last one first, are stacked
  -- below the frame pointer: each at a multiple of 8, with room for its size below the one before,
  -- and none further down than the sum of the padded sizes. The sizes are those that the body's
  -- layout gave, and the list of the function around it stays as it was. The bindings are distinct,
  -- their sizes below `2 ^ 64 - 8`, and the frame is no larger than `2 ^ 31`, so that the `int` that
  -- counts its bytes does not wrap.
  pub layout_frames-Stacked :
      (a : ℕ) (ref : Expression) (params : Expressions) (body : Expression) (fs : Fields)
      (outer : List Binding)
      → all_distinct (reverse (layout_frames aug_of temp_of contains_flag escapes body (fs, [])).1)
        ≡ true
      → ((b : Binding)
          → (layout_frames aug_of temp_of contains_flag escapes body (fs, [])).0.size_of b + 8
            < 2 ^ 64)
      → total_size
          (layout_frames aug_of temp_of contains_flag escapes body (fs, [])).0.size_of
          (reverse (layout_frames aug_of temp_of contains_flag escapes body (fs, [])).1)
        ≤ 2 ^ 31
      → let inner = layout_frames aug_of temp_of contains_flag escapes body (fs, []) in
        let done =
          layout_frames aug_of temp_of contains_flag escapes
            (function a ref params body)
            (fs, outer) in
        Stacked inner.0.size_of done.0.offset_of 0
          (reverse inner.1)
          (total_size inner.0.size_of (reverse inner.1))
        × (done.0.size_of ≡ inner.0.size_of)
        × (done.1 ≡ outer)
  unfolding layout_frames
  layout_frames-Stacked a ref params body fs outer distinct small fits =
      let inner = layout_frames aug_of temp_of contains_flag escapes body (fs, []) in
      let ready = place_parameters aug_of temp_of contains_flag escapes (2 * 8) params inner.0 in
      let same = place_parameters-size_of (2 * 8) params inner.0 in
      let frame = reverse inner.1 in
      (
        subst
            (λ sizes.
              Stacked sizes (place_slots 0 frame ready).offset_of 0 frame (total_size sizes frame))
            same
            (subst (λ n. Stacked ready.size_of (place_slots 0 frame ready).offset_of 0 frame n)
              (let e : 0 + total_size ready.size_of frame ≡ total_size ready.size_of frame =
                  omega arith in
                e)
              (place_slots-Stacked 0 frame ready distinct
                (subst (λ sizes. (b : Binding) → sizes b + 8 < 2 ^ 64) (sym same) small)
                (subst (λ sizes. 0 + total_size sizes frame ≤ 2 ^ 31) (sym same) (omega arith))
                refl)),
        place_slots-size_of 0 frame ready ∙ same,
        refl,
      )
