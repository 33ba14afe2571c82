-- ===== src/Generator/Kept.antt =====
-- Tests that every instruction of bootstrap/x86_64_generator.c passes: one on its registers alone, or
-- one on the places that it jumps to.
use l.Prelude.{
  ℕ, zero, suc, ◌-◌, ◌*◌, ◌≤◌, ◌<◌, ◌≡◌, refl, Bool, true, false, List, [], ◌∷◌, inl, inr, ltb,
  ◌&&◌, Bool-cases, arith, some,
}
use l.Assembler.{
  Binding, Static, lnkr_sub_rip_to_ref, Instruction, label, leaq_mdb_to_reg, movq_reg_to_mdb,
  movq_mdb_to_reg, jmp_rel, je_rel, pushq_reg, popq_reg, movq_reg_to_reg, orq_reg_to_reg,
  subq_imm_to_reg, addq_imm_to_reg, movq_imm_to_reg, jmp_to_reg, call_reg, leave, ret,
}
use l.Assembler.RoundTrip.{has_registers}
use l.Expression.{Expression, Expressions}
use l.Frames.{
  absolute_storage, frame_relative_storage, top_relative_storage, nil_storage, count_arguments,
}
use l.Generator.{
  rax, r10, r11, Passes, Code, emit, cond_push_relative_storage, cond_pop_relative_storage,
  push_buffer, address_of,
}
use l.Generator.Control.{cond_pop, pop_arguments, call_function, enter_function, leave_function}
use l.Generator.Plain.{is_plain, is_free, Plain, start, more, make_load-Plain}

unfoldable pub all_of : (Instruction → Bool) → List Instruction → Bool
all_of ok [] = true
all_of ok (i ∷ is) = ok i && all_of ok is

-- No jump to a label, and every register is one of the sixteen.
unfoldable pub is_calm : Instruction → Bool
unfolding has_registers
is_calm (jmp_rel _) = false
is_calm (je_rel _) = false
is_calm i = has_registers i

plain_is_calm : (i : Instruction) → is_plain i ≡ true → is_calm i ≡ true
unfolding is_plain is_calm is_free has_registers
plain_is_calm (label b) h = absurd cc
plain_is_calm (leaq_mdb_to_reg offset base dest) h = ground arith
plain_is_calm (movq_reg_to_mdb src offset base) h = h
plain_is_calm (movq_mdb_to_reg offset base dest) h = ground arith
plain_is_calm (movq_reg_to_reg src dest) h = ground arith
plain_is_calm (orq_reg_to_reg src dest) h = ground arith
plain_is_calm (movq_imm_to_reg value dest) h = ground arith
plain_is_calm (jmp_to_reg reg) h = h
plain_is_calm (call_reg reg) h = h
plain_is_calm i h = absurd cc

-- What a test `ok` has to let pass: calm instructions, jumps to the bindings from `lo` up to `hi`, and
-- jumps to the continuations that jumps of the program are cut short to.
pub record AllowsCode (p : Passes) (ok : Instruction → Bool) (lo hi : Binding) : Type 0 where
  pub calm : (i : Instruction) → is_calm i ≡ true → ok i ≡ true
  pub jumps : (b : Binding) → lo ≤ b → b < hi → ok (jmp_rel (lnkr_sub_rip_to_ref b)) ≡ true
  pub branches : (b : Binding) → lo ≤ b → b < hi → ok (je_rel (lnkr_sub_rip_to_ref b)) ≡ true
  pub cut_short :
      (a : ℕ) (target : Expression)
      → p.short_circuit a ≡ some target
      → ok (jmp_rel (lnkr_sub_rip_to_ref (p.cont_instr_of (address_of target)))) ≡ true

module _ (p : Passes) (ok : Instruction → Bool) (lo hi : Binding)
    (rules : AllowsCode p ok lo hi) where
  abbrev pub Keeps : Code → Code → Type 0
  Keeps s t = all_of ok s.c ≡ true → all_of ok t.c ≡ true

  -- A part of the code whose new labels lie between `lo` and `hi`.
  pub record Part (f : Code → Code) : Type 0 where
    pub grows : (s : Code) → s.next ≤ (f s).next
    pub keeps : (s : Code) → lo ≤ s.next → (f s).next ≤ hi → Keeps s (f s)

  pub ok_first :
      (i : Instruction) (is : List Instruction)
      → ok i ≡ true
      → all_of ok is ≡ true
      → all_of ok (i ∷ is) ≡ true
  unfolding all_of
  ok_first i is h kept = rw h kept

  pub calm_first :
      (i : Instruction) (is : List Instruction)
      → is_calm i ≡ true
      → all_of ok is ≡ true
      → all_of ok (i ∷ is) ≡ true
  calm_first i is h = ok_first i is (rules.calm i h)

  pub Plain-Keeps : {s t : Code} → Plain s t → Keeps s t
  unfolding emit
  Plain-Keeps start kept = kept
  Plain-Keeps (more {t} i h q) kept = calm_first i t.c (plain_is_calm i h) (Plain-Keeps q kept)

  cond_pop-Keeps :
      (k count reg : ℕ) (s : Code) → ltb reg 16 ≡ true → Keeps s (cond_pop k count reg s)
  unfolding cond_pop emit is_calm has_registers
  cond_pop-Keeps k count reg s h kept = elim (Bool-cases (ltb k count)) [
    | inl pops ↦ rw pops (calm_first (popq_reg reg) s.c h kept)
    | inr not_there ↦ rw not_there kept
  ]

  pop_arguments-Keeps : (count : ℕ) (s : Code) → Keeps s (pop_arguments count s)
  unfolding pop_arguments
  pop_arguments-Keeps count s kept = cond_pop-Keeps 5 count 9 _ refl (
      cond_pop-Keeps 4 count 8 _ refl (
        cond_pop-Keeps 3 count 1 _ refl (
          cond_pop-Keeps 2 count 2 _ refl
            (cond_pop-Keeps 1 count 6 _ refl (cond_pop-Keeps 0 count 7 s refl kept)))))

  pub call_function-Keeps : (count : ℕ) (s : Code) → Keeps s (call_function count s)
  unfolding call_function emit is_calm has_registers
  call_function-Keeps count s kept =
      let ready = emit (movq_reg_to_reg rax r11) s in
      let popped = pop_arguments count ready in
      let called = emit (call_reg r11) (emit (movq_imm_to_reg (Static.literal 0) rax) popped) in
      let done : all_of ok called.c ≡ true = calm_first (call_reg r11) _ refl (
        calm_first (movq_imm_to_reg (Static.literal 0) rax) popped.c refl
          (pop_arguments-Keeps count ready (calm_first (movq_reg_to_reg rax r11) s.c refl kept))) in
      elim (Bool-cases (ltb 6 count)) [
        | inl more_left ↦
            rw more_left (calm_first (addq_imm_to_reg (8 * (count - 6)) 4) called.c refl done)
        | inr all_popped ↦ rw all_popped done
      ]

  pub enter_function-Keeps : (depth : ℕ) (s : Code) → Keeps s (enter_function depth s)
  unfolding enter_function emit is_calm has_registers
  enter_function-Keeps depth s kept =
      let push =
        λ (reg : ℕ) (is : List Instruction) (lt : ltb reg 16 ≡ true) (k : all_of ok is ≡ true).
          calm_first (pushq_reg reg) is lt k in
      let args =
        push 2 _ refl (
          push 1 _ refl
            (push 8 _ refl (push 9 _ refl (calm_first (popq_reg r11) s.c refl kept)))) in
      let saved = push 5 _ refl (push 11 _ refl (push 7 _ refl (push 6 _ refl args))) in
      calm_first (subq_imm_to_reg depth 4) _ refl (calm_first (movq_reg_to_reg 4 5) _ refl saved)

  pub leave_function-Keeps : (s : Code) → Keeps s (leave_function s)
  unfolding leave_function emit is_calm has_registers
  leave_function-Keeps s kept = calm_first ret _ refl (
      calm_first (pushq_reg r11) _ refl (
        calm_first (addq_imm_to_reg (6 * 8) 4) _ refl
          (calm_first (popq_reg r11) (leave ∷ s.c) refl (calm_first leave s.c refl kept))))

  pub push_buffer-Keeps : (a count : ℕ) (s : Code) → Keeps s (push_buffer p a count s)
  unfolding push_buffer emit is_calm has_registers is_free
  push_buffer-Keeps a zero s kept = kept
  push_buffer-Keeps a (suc count) s kept = push_buffer-Keeps a count _ (
      calm_first (pushq_reg r11) _ refl
        (Plain-Keeps (make_load-Plain p (p.temp_of a) (count * 8) r11 r10 refl refl) kept))

  pub cond_push-Keeps :
      (a : ℕ) (args : Expressions) (s : Code) → Keeps s (cond_push_relative_storage p a args s)
  unfolding cond_push_relative_storage emit is_calm has_registers
  cond_push-Keeps a args s =
      elim (p.fields.type_of (p.temp_of a))
        as (λ type. Keeps s (elim type [
          | top_relative_storage ↦ emit (subq_imm_to_reg (count_arguments args * 8) 4) s
          | _ ↦ s
        ])) [
          | absolute_storage ↦ λ kept. kept
          | frame_relative_storage ↦ λ kept. kept
          | top_relative_storage ↦
              calm_first (subq_imm_to_reg (count_arguments args * 8) 4) s.c refl
          | nil_storage ↦ λ kept. kept
        ]

  pub cond_pop_storage-Keeps :
      (a : ℕ) (args : Expressions) (s : Code) → Keeps s (cond_pop_relative_storage p a args s)
  unfolding cond_pop_relative_storage emit is_calm has_registers
  cond_pop_storage-Keeps a args s =
      elim (p.fields.type_of (p.temp_of a))
        as (λ type. Keeps s (elim type [
          | top_relative_storage ↦ emit (addq_imm_to_reg (count_arguments args * 8) 4) s
          | _ ↦ s
        ])) [
          | absolute_storage ↦ λ kept. kept
          | frame_relative_storage ↦ λ kept. kept
          | top_relative_storage ↦
              calm_first (addq_imm_to_reg (count_arguments args * 8) 4) s.c refl
          | nil_storage ↦ λ kept. kept
        ]
