-- ===== src/Generator.antt =====
-- bootstrap/x86_64_generator.c: the instructions for an expression and for a program.
-- The list `c` holds the instructions so far, the last one first; `make_binding_aug` gives the next
-- free address. A register is its number, and an offset is written as a word of 64 bits.
pub mod Control
pub mod Program
pub mod Plain
pub mod Fresh
pub mod Scopes
pub mod Labels
pub mod Kept
pub mod Jumps
pub mod Targets
pub mod Linked
pub mod Height
pub mod Balance
pub mod Settled
use l.Prelude.{
  ℕ, zero, suc, ◌+◌, ◌-◌, ◌*◌, ◌%◌, ◌^◌, Bool, true, false, List, [], ◌∷◌, ◌==◌, ltb, if◌then◌else◌,
  Option, none, some, ◌&&◌,
}
use mathlib.Core.List.{reverse}
use l.Assembler.{
  Binding, Static, reference, lnkr_add_off_to_ref, lnkr_sub_rip_to_ref, Instruction, label,
  leaq_mdb_to_reg, movq_reg_to_mdb, movq_mdb_to_reg, jmp_rel, je_rel, pushq_reg, popq_reg,
  movq_reg_to_reg, orq_reg_to_reg, subq_imm_to_reg, addq_imm_to_reg, movq_imm_to_reg, jmp_to_reg,
  call_reg, leave, ret, rsp, r12,
}
use l.Expression.{
  Expression, Expressions, storage, function, with, invoke, if_else, symbol, jump, continuation,
  constrain, assembly, meta, none_left, also,
}
use l.Frames.{
  Place, above, below, StorageType, absolute_storage, frame_relative_storage, top_relative_storage,
  nil_storage, Fields, count_arguments,
}

abbrev pub rax : ℕ
rax = 0

abbrev pub rcx : ℕ
rcx = 1

abbrev pub rdx : ℕ
rdx = 2

abbrev pub rbx : ℕ
rbx = 3

abbrev pub rbp : ℕ
rbp = 5

abbrev pub rsi : ℕ
rsi = 6

abbrev pub rdi : ℕ
rdi = 7

abbrev pub r8 : ℕ
r8 = 8

abbrev pub r9 : ℕ
r9 = 9

abbrev pub r10 : ℕ
r10 = 10

abbrev pub r11 : ℕ
r11 = 11

abbrev pub r13 : ℕ
r13 = 13

abbrev pub r14 : ℕ
r14 = 14

abbrev pub r15 : ℕ
r15 = 15

-- What the earlier passes leave in the nodes and in the bindings.
pub record Passes : Type 0 where
  pub fields : Fields
  pub aug_of : Expression → Binding
  pub temp_of : ℕ → Binding
  pub contains_flag : ℕ → ℕ
  pub escapes : ℕ → Bool
  pub cont_instr_of : ℕ → Binding
  pub short_circuit : ℕ → Option Expression
  pub target_of : Binding → Expression
  pub symbol_of : Binding → Expression
  pub frame_of : ℕ → List Binding

pub record Code : Type 0 where
  pub next : Binding
  pub c : List Instruction

unfoldable pub emit : Instruction → Code → Code
emit i s = record { next = s.next; c = i ∷ s.c }

-- `make_binding_aug` for a label; the binding is the old `next`.
unfoldable pub new_label : Code → Code
new_label s = record { next = suc s.next; c = s.c }

unfoldable pub address_of : Expression → ℕ
address_of (storage a _ _) = a
address_of (function a _ _ _) = a
address_of (with a _ _ _) = a
address_of (invoke a _ _) = a
address_of (if_else a _ _ _) = a
address_of (Expression.literal a _) = a
address_of (symbol a _) = a
address_of (jump a _ _) = a
address_of (continuation a _ _ _) = a
address_of (constrain a _ _) = a
address_of (assembly _ _) = 0
address_of (meta a _ _) = a

-- The field `parameters` that these three kinds of node have at one place.
unfoldable pub parameters_of : Expression → Expressions
parameters_of (function _ _ params _) = params
parameters_of (continuation _ _ params _) = params
parameters_of (with _ _ param _) = param
parameters_of _ = none_left

-- `exists(equals, …)`: nodes are compared by their addresses.
unfoldable pub exists_address : ℕ → Expressions → Bool
unfolding address_of
exists_address a none_left = false
exists_address a (also e es) = if address_of e == a then true else exists_address a es

unfoldable pub is_parameter : Expression → Expression → Bool
unfolding exists_address address_of
is_parameter (function _ _ params _) t = exists_address (address_of t) params
is_parameter (continuation _ _ params _) t = exists_address (address_of t) params
is_parameter _ t = false

unfoldable pub is_continuation : Expression → Bool
is_continuation (continuation _ _ _ _) = true
is_continuation _ = false

-- An offset as an `unsigned long`.
unfoldable pub word_of : Place → ℕ
word_of (above n) = n % 2 ^ 64
word_of (below n) = (2 ^ 64 - n % 2 ^ 64) % 2 ^ 64

-- A word that is cut to an `int` and widened again.
unfoldable pub int_of : ℕ → ℕ
int_of w = let low = w % 2 ^ 32 in if ltb low (2 ^ 31) then low else low + 2 ^ 64 - 2 ^ 32

-- `make_load`, by the type of the binding and its offset.
unfoldable pub load_by : StorageType → ℕ → Binding → (offset dest scratch : ℕ) → Code → Code
unfolding emit
load_by frame_relative_storage at b offset dest scratch s =
    emit (movq_mdb_to_reg (Static.literal ((at + offset) % 2 ^ 64)) rbp dest) s
load_by absolute_storage at b offset dest scratch s =
    emit (movq_mdb_to_reg (Static.literal 0) scratch dest)
      (emit (movq_imm_to_reg (lnkr_add_off_to_ref b offset) scratch) s)
load_by top_relative_storage at b offset dest scratch s =
    emit (movq_mdb_to_reg (Static.literal ((at + offset) % 2 ^ 64)) rsp dest) s
load_by nil_storage at b offset dest scratch s = s

-- `make_store`, likewise.
unfoldable pub store_by : StorageType → ℕ → (src : ℕ) → Binding → (offset scratch : ℕ) → Code → Code
unfolding emit
store_by frame_relative_storage at src b offset scratch s =
    emit (movq_reg_to_mdb src (Static.literal ((at + offset) % 2 ^ 64)) rbp) s
store_by absolute_storage at src b offset scratch s =
    emit (movq_reg_to_mdb src (Static.literal 0) scratch)
      (emit (movq_imm_to_reg (lnkr_add_off_to_ref b offset) scratch) s)
store_by top_relative_storage at src b offset scratch s =
    emit (movq_reg_to_mdb src (Static.literal ((at + offset) % 2 ^ 64)) rsp) s
store_by nil_storage at src b offset scratch s = s

-- `make_load_address`, likewise.
unfoldable pub address_by : StorageType → ℕ → Binding → (dest : ℕ) → Code → Code
unfolding emit
address_by frame_relative_storage at b dest s =
    emit (leaq_mdb_to_reg (Static.literal at) rbp dest) s
address_by absolute_storage at b dest s = emit (movq_imm_to_reg (reference b) dest) s
address_by top_relative_storage at b dest s = emit (leaq_mdb_to_reg (Static.literal at) rsp dest) s
address_by nil_storage at b dest s = s

module _ (p : Passes) where
  unfoldable pub make_load : Binding → (offset dest scratch : ℕ) → Code → Code
  unfolding load_by word_of
  make_load b offset dest scratch s =
      load_by (p.fields.type_of b) (word_of (p.fields.offset_of b)) b offset dest scratch s

  unfoldable pub make_store : (src : ℕ) → Binding → (offset scratch : ℕ) → Code → Code
  unfolding store_by word_of
  make_store src b offset scratch s =
      store_by (p.fields.type_of b) (word_of (p.fields.offset_of b)) src b offset scratch s

  unfoldable pub make_load_address : Binding → (dest : ℕ) → Code → Code
  unfolding address_by word_of
  make_load_address b dest s =
      address_by (p.fields.type_of b) (word_of (p.fields.offset_of b)) b dest s

  -- `make_store_continuation`.
  unfoldable pub make_store_continuation : ℕ → Expression → Code → Code
  unfolding make_store make_load_address
  make_store_continuation a ref s =
      let b = p.aug_of ref in
      let field = λ (src k : ℕ). make_store src b (k * 8) r11 in
      let saved = field r15 6 (field r14 2 (field r13 3 (field r12 5 (field rbx 4 s)))) in
      field rbp 0 (field r10 1 (make_load_address (p.cont_instr_of a) r10 saved))

  unfoldable pub cond_push_relative_storage : ℕ → Expressions → Code → Code
  unfolding emit count_arguments
  cond_push_relative_storage a args s = elim (p.fields.type_of (p.temp_of a)) [
    | top_relative_storage ↦ emit (subq_imm_to_reg (count_arguments args * 8) rsp) s
    | _ ↦ s
  ]

  unfoldable pub cond_pop_relative_storage : ℕ → Expressions → Code → Code
  unfolding emit count_arguments
  cond_pop_relative_storage a args s = elim (p.fields.type_of (p.temp_of a)) [
    | top_relative_storage ↦ emit (addq_imm_to_reg (count_arguments args * 8) rsp) s
    | _ ↦ s
  ]

  -- `generate_buffer_to_dest`, with `tmp_offset` into the temporary storage.
  unfoldable pub generate_buffer_to_dest :
      ℕ → Expressions → (dest offset tmp_offset : ℕ) → Code → Code
  unfolding emit make_load
  generate_buffer_to_dest a none_left dest offset tmp_offset s = s
  generate_buffer_to_dest a (also t ts) dest offset tmp_offset s =
      generate_buffer_to_dest a ts dest (offset + 8) (tmp_offset + 8) (
        emit (movq_reg_to_mdb rax (Static.literal offset) dest)
          (make_load (p.temp_of a) tmp_offset rax r10 s))

  -- The loop that pushes the buffer of `count` words, the last one first.
  unfoldable pub push_buffer : ℕ → (count : ℕ) → Code → Code
  unfolding emit make_load
  push_buffer a zero s = s
  push_buffer a (suc count) s =
      push_buffer a count (emit (pushq_reg r11) (make_load (p.temp_of a) (count * 8) r11 r10 s))

  -- The binding of the first symbol of a list.
  unfoldable pub first_aug : Expressions → Binding
  first_aug none_left = 0
  first_aug (also t ts) = p.aug_of t

  unfoldable pub get_current_offset : List Binding → ℕ
  unfolding word_of int_of
  get_current_offset [] = 0
  get_current_offset (b ∷ bs) = int_of (word_of (p.fields.offset_of b))

  -- `-get_current_offset(n)`: the bytes of the frame.
  unfoldable pub frame_depth : List Binding → ℕ
  unfolding get_current_offset
  frame_depth bs = (2 ^ 64 - get_current_offset bs) % 2 ^ 64
