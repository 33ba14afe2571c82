-- ===== src/Generator/Control.antt =====
-- The functions `sgenerate_…` of bootstrap/x86_64_generator.c. What an expression's parts generate
-- is handed to them as functions on the code.
use l.Prelude.{ℕ, ◌-◌, ◌*◌, ◌==◌, ltb, if◌then◌else◌, none, some}
use l.Assembler.{
  Static, lnkr_sub_rip_to_ref, label, movq_mdb_to_reg, jmp_rel, je_rel, pushq_reg, popq_reg,
  movq_reg_to_reg, orq_reg_to_reg, subq_imm_to_reg, addq_imm_to_reg, movq_imm_to_reg, jmp_to_reg,
  call_reg, leave, ret, rsp, r12,
}
use l.Expression.{Expression, Expressions}
use l.Frames.{count_arguments}
use l.Generator.{
  rax, rcx, rdx, rbx, rbp, rsi, rdi, r8, r9, r10, r11, r13, r14, r15, Passes, Code, emit, new_label,
  address_of, parameters_of, is_parameter, is_continuation, make_load, make_load_address,
  make_store_continuation, cond_push_relative_storage, cond_pop_relative_storage,
  generate_buffer_to_dest, push_buffer, first_aug, frame_depth,
}

-- A `popq` for the argument number `k` of `count`, where there is one.
unfoldable pub cond_pop : (k count reg : ℕ) → Code → Code
unfolding emit
cond_pop k count reg s = if ltb k count then emit (popq_reg reg) s else s

-- The first six arguments of a call.
unfoldable pub pop_arguments : ℕ → Code → Code
unfolding cond_pop
pop_arguments count s = cond_pop 5 count r9 (
    cond_pop 4 count r8
      (cond_pop 3 count rcx (cond_pop 2 count rdx (cond_pop 1 count rsi (cond_pop 0 count rdi s)))))

unfoldable pub sgenerate_literals : ℕ → Code → Code
unfolding emit
sgenerate_literals value s = emit (movq_imm_to_reg (Static.literal value) rax) s

-- The parts of an expression are passed on as what they generate.
unfoldable pub sgenerate_ifs : (condition consequent alternate : Code → Code) → Code → Code
unfolding emit new_label
sgenerate_ifs condition consequent alternate s =
    let tested = emit (orq_reg_to_reg rax rax) (condition s) in
    let alternate_binding = tested.next in
    let taken =
      consequent (emit (je_rel (lnkr_sub_rip_to_ref alternate_binding)) (new_label tested)) in
    let end_binding = taken.next in
    let skipped = emit (jmp_rel (lnkr_sub_rip_to_ref end_binding)) (new_label taken) in
    emit (label end_binding) (alternate (emit (label alternate_binding) skipped))

-- The loads of a saved continuation, and the jump to it.
unfoldable pub load_continuation : Code → Code
unfolding emit
load_continuation s =
    let field = λ (k dest : ℕ). emit (movq_mdb_to_reg (Static.literal (k * 8)) r11 dest) in
    emit (jmp_to_reg r10) (
      field 0 rbp
        (field 1 r10 (field 6 r15 (field 2 r14 (field 3 r13 (field 5 r12 (field 4 rbx s)))))))

-- The code at the entry of a function, whose frame has `depth` bytes below the frame pointer.
unfoldable pub enter_function : (depth : ℕ) → Code → Code
unfolding emit
enter_function depth s =
    let push = λ (reg : ℕ). emit (pushq_reg reg) in
    let saved =
      push r11
        (push rdi (push rsi (push rdx (push rcx (push r8 (push r9 (emit (popq_reg r11) s))))))) in
    emit (subq_imm_to_reg depth rsp) (emit (movq_reg_to_reg rsp rbp) (push rbp saved))

unfoldable pub leave_function : Code → Code
unfolding emit
leave_function s =
    emit ret (
      emit (pushq_reg r11)
        (emit (addq_imm_to_reg (6 * 8) rsp) (emit (popq_reg r11) (emit leave s))))

-- What follows the code of an invocation's reference: `count` arguments are on the stack.
unfoldable pub call_function : (count : ℕ) → Code → Code
unfolding emit pop_arguments
call_function count s =
    let popped = pop_arguments count (emit (movq_reg_to_reg rax r11) s) in
    let called = emit (call_reg r11) (emit (movq_imm_to_reg (Static.literal 0) rax) popped) in
    if ltb 6 count then emit (addq_imm_to_reg (8 * (count - 6)) rsp) called else called

module _ (p : Passes) where
  unfoldable pub sgenerate_symbols : Expression → Code → Code
  unfolding make_load make_load_address is_parameter
  sgenerate_symbols t s =
      let b = p.aug_of t in
      if is_parameter (p.target_of b) (p.symbol_of b)
      then make_load p b 0 rax r11 s
      else make_load_address p b rax s

  unfoldable pub sgenerate_storage_expressions : Expression → (contents : Code → Code) → Code → Code
  unfolding make_load_address
  sgenerate_storage_expressions ref contents s = make_load_address p (p.aug_of ref) rax (contents s)

  unfoldable pub sgenerate_continuations : ℕ → Expression → (body : Code → Code) → Code → Code
  unfolding emit new_label make_load_address make_store_continuation
  sgenerate_continuations a ref body s =
      let saved =
        if p.escapes a
        then make_store_continuation p a ref (make_load_address p (p.aug_of ref) rax s)
        else s in
      let after_binding = saved.next in
      let skipped = emit (jmp_rel (lnkr_sub_rip_to_ref after_binding)) (new_label saved) in
      emit (label after_binding) (body (emit (label (p.cont_instr_of a)) skipped))

  unfoldable pub sgenerate_withs : ℕ → Expression → Expressions → (body : Code → Code) → Code → Code
  unfolding emit new_label make_load make_store_continuation first_aug
  sgenerate_withs a ref param body s =
      let done = body (if p.escapes a then make_store_continuation p a ref s else s) in
      let end_binding = done.next in
      let skipped = emit (jmp_rel (lnkr_sub_rip_to_ref end_binding)) (new_label done) in
      let entered = emit (label (p.cont_instr_of a)) skipped in
      emit (label end_binding) (make_load p (first_aug p param) 0 rax r10 entered)

  -- The branch of `sgenerate_jumps` for a target whose code is in the same function.
  unfoldable pub short_jump :
      ℕ → Expression → Expressions → Expression → (ref_code args_code : Code → Code) → Code → Code
  unfolding emit make_load_address cond_push_relative_storage cond_pop_relative_storage
      generate_buffer_to_dest first_aug parameters_of address_of is_continuation count_arguments
  short_jump a ref args target ref_code args_code s =
      let ready = if is_continuation ref then ref_code s else s in
      let params = parameters_of target in
      let passed = cond_pop_relative_storage p a args (
        generate_buffer_to_dest p a args r11 0 0 (
          make_load_address p (first_aug p params) r11
            (args_code (cond_push_relative_storage p a args ready)))) in
      emit (jmp_rel (lnkr_sub_rip_to_ref (p.cont_instr_of (address_of target))))
        (if ltb 0 (count_arguments params) then passed else ready)

  unfoldable pub long_jump : ℕ → Expressions → (ref_code args_code : Code → Code) → Code → Code
  unfolding emit load_continuation cond_push_relative_storage cond_pop_relative_storage
      generate_buffer_to_dest
  long_jump a args ref_code args_code s =
      let found =
        emit (movq_reg_to_reg rax r11)
          (ref_code (args_code (cond_push_relative_storage p a args s))) in
      load_continuation
        (cond_pop_relative_storage p a args (generate_buffer_to_dest p a args r11 (7 * 8) 0 found))

  unfoldable pub sgenerate_jumps :
      ℕ → Expression → Expressions → (ref_code args_code : Code → Code) → Code → Code
  unfolding short_jump long_jump
  sgenerate_jumps a ref args ref_code args_code s = elim (p.short_circuit a) [
    | some target ↦ short_jump a ref args target ref_code args_code s
    | none ↦ long_jump a args ref_code args_code s
  ]

  unfoldable pub sgenerate_functions : ℕ → Expression → (body : Code → Code) → Code → Code
  unfolding emit new_label make_load_address enter_function leave_function frame_depth
  sgenerate_functions a ref body s =
      let loaded = make_load_address p (p.aug_of ref) rax s in
      let after_binding = loaded.next in
      let skipped = emit (jmp_rel (lnkr_sub_rip_to_ref after_binding)) (new_label loaded) in
      let entered =
        enter_function (frame_depth p (p.frame_of a)) (emit (label (p.aug_of ref)) skipped) in
      emit (label after_binding) (leave_function (body entered))

  unfoldable pub sgenerate_invokes :
      ℕ → Expressions → (ref_code args_code : Code → Code) → Code → Code
  unfolding cond_push_relative_storage count_arguments push_buffer call_function
  sgenerate_invokes a args ref_code args_code s =
      let stored = args_code (cond_push_relative_storage p a args s) in
      let count = count_arguments args in
      let pushed = if p.contains_flag a == 3 then push_buffer p a count stored else stored in
      call_function count (ref_code pushed)
