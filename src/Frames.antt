-- ===== src/Frames.antt =====
-- `layout_frames` of bootstrap/x86_64_generator.c: sizes and places of the bindings in stack frames.
pub mod Slots
use l.Prelude.{
  ℕ, zero, suc, ◌+◌, ◌*◌, Bool, true, false, List, [], ◌∷◌, ◌++◌, ◌==◌, ◌-◌, ◌^◌, ◌%◌, ltb, leb,
  if◌then◌else◌,
}
use mathlib.Core.List.{reverse}
use l.Interface.{pad_size}
use l.Assembler.{Binding}
use l.Expression.{
  Expression, Expressions, storage, function, with, invoke, if_else, literal, symbol, jump,
  continuation, constrain, assembly, meta, none_left, also,
}

-- An offset from the frame pointer.
pub data Place : Type 0 where
  above below : ℕ → Place

pub data StorageType : Type 0 where
  absolute_storage frame_relative_storage top_relative_storage nil_storage : StorageType

-- The value of an `int`, which is kept as its 32 bits; the other integers wrap into it.
unfoldable pub place_above : ℕ → Place
place_above n = if ltb n (2 ^ 31) then above n else below (2 ^ 32 - n)

-- The negative of an `int`.
unfoldable pub place_below : ℕ → Place
place_below n = if leb n (2 ^ 31) then below n else above (2 ^ 32 - n)

-- The fields `size`, `offset` and `type` of the bindings.
pub record Fields : Type 0 where
  pub size_of : Binding → ℕ
  pub offset_of : Binding → Place
  pub type_of : Binding → StorageType

unfoldable pub assign {ℓ} : {A : Type ℓ} → (Binding → A) → Binding → A → Binding → A
assign f b a c = if c == b then a else f c

unfoldable pub set_size : Binding → ℕ → Fields → Fields
unfolding assign
set_size b n fs = record {
  size_of = assign fs.size_of b n;
  offset_of = fs.offset_of;
  type_of = fs.type_of;
}

unfoldable pub set_place : Binding → Place → Fields → Fields
unfolding assign
set_place b p fs = record {
  size_of = fs.size_of;
  offset_of = assign fs.offset_of b p;
  type_of = fs.type_of;
}

unfoldable pub set_type : Binding → StorageType → Fields → Fields
unfolding assign
set_type b t fs = record {
  size_of = fs.size_of;
  offset_of = fs.offset_of;
  type_of = assign fs.type_of b t;
}

-- The fields, and the list `binding_augs` of the function that is being laid out.
abbrev pub Layout : Type 0
Layout = Fields × List Binding

unfoldable pub count_arguments : Expressions → ℕ
count_arguments none_left = 0
count_arguments (also e es) = suc (count_arguments es)

-- The loop over the bindings of a frame, `depth` bytes below the frame pointer. `binding_aug_offset`
-- is an `int`, and `depth` the 32 bits of its negative.
unfoldable pub place_slots : ℕ → List Binding → Fields → Fields
unfolding set_place place_below
place_slots depth [] fs = fs
place_slots depth (b ∷ bs) fs =
    let depth' = (depth + pad_size (fs.size_of b) 8) % 2 ^ 32 in
    place_slots depth' bs (set_place b (place_below depth') fs)

-- A binding's size, and the binding at the end of the list.
unfoldable pub add_slot : Binding → ℕ → Layout → Layout
unfolding set_size
add_slot b size l = (set_size b size l.0, l.1 ++ b ∷ [])

-- `aug_of` is the `binding_aug` of a symbol; the others are the fields `temp_storage_bndg`,
-- `contains_flag` and `escapes` of the node at an address.
module _ (aug_of : Expression → Binding) (temp_of : ℕ → Binding) (contains_flag : ℕ → ℕ)
    (escapes : ℕ → Bool) where
  unfoldable pub place_parameters : ℕ → Expressions → Fields → Fields
  unfolding set_place place_above
  place_parameters offset none_left fs = fs
  place_parameters offset (also t ts) fs =
      place_parameters ((offset + 8) % 2 ^ 32) ts (set_place (aug_of t) (place_above offset) fs)

  unfoldable pub parameter_slots : Expressions → Layout → Layout
  unfolding add_slot
  parameter_slots none_left l = l
  parameter_slots (also t ts) l = parameter_slots ts (add_slot (aug_of t) 8 l)

  -- `continuation` and `with`; `CONT_SIZE` is 56.
  unfoldable pub continuation_slots : ℕ → Expression → Expressions → Layout → Layout
  unfolding add_slot parameter_slots
  continuation_slots a ref params l =
      parameter_slots params (if escapes a then add_slot (aug_of ref) (7 * 8) l else l)

  -- What becomes of the temporary storage of a call.
  unfoldable pub call_slot : ℕ → Expressions → Layout → Layout
  unfolding set_size set_type set_place count_arguments
  call_slot a args l =
      let b = temp_of a in
      let fs = set_size b (8 * count_arguments args) l.0 in
      if contains_flag a == 3
      then (fs, l.1 ++ b ∷ [])
      else if contains_flag a == 1
      then (set_type b nil_storage fs, l.1)
      else if contains_flag a == 0
      then (set_place b (above 0) (set_type b top_relative_storage fs), l.1)
      else (fs, l.1)

  unfoldable mutual
    unfolding place_slots place_parameters continuation_slots call_slot add_slot count_arguments

    pub layout_frames : Expression → Layout → Layout
    layout_frames (function a ref params e) l =
        let inner = layout_frames e (l.0, []) in
        (place_slots 0 (reverse inner.1) (place_parameters (2 * 8) params inner.0), l.1)
    layout_frames (continuation a ref params e) l =
        continuation_slots a ref params (layout_frames e l)
    layout_frames (with a ref param e) l = continuation_slots a ref param (layout_frames e l)
    layout_frames (storage a ref args) l =
        add_slot (aug_of ref) (count_arguments args * 8) (layout_each args l)
    layout_frames (jump a ref args) l = call_slot a args (layout_each args (layout_frames ref l))
    layout_frames (invoke a ref args) l = call_slot a args (layout_each args (layout_frames ref l))
    layout_frames (if_else a c t e) l = layout_frames e (layout_frames t (layout_frames c l))
    layout_frames (constrain a e ref) l = layout_frames e l
    layout_frames (literal a v) l = l
    layout_frames (symbol a name) l = l
    layout_frames (assembly op args) l = l
    layout_frames (meta a ref frag) l = l

    pub layout_each : Expressions → Layout → Layout
    layout_each none_left l = l
    layout_each (also e es) l = layout_each es (layout_frames e l)
