-- ===== src/Assembler/Stream.antt =====
-- `assemble` of bootstrap/x86_64_assembler.c, read back instruction by instruction.
use l.Prelude.{
  ℕ, zero, suc, ◌+◌, ◌%◌, ◌^◌, ◌<◌, ◌≤◌, ◌≡◌, refl, Bool, true, false, List, [], ◌∷◌, ◌++◌, Option,
  none, some, inl, inr, Bool-cases, ◌&&◌, ltb, if◌then◌else◌, arith, append_assoc, ap, ◌∙◌, sym,
  length, ltb→lt,
}
use mathlib.Core.Option.{map}
use l.Assembler.{
  Bytes, Binding, Static, literal, reference, lnkr_add_off_to_ref, lnkr_sub_rip_to_ref, Instruction,
  label, leaq_mdb_to_reg, movq_reg_to_mdb, movq_mdb_to_reg, jmp_rel, je_rel, pushq_reg, popq_reg,
  movq_reg_to_reg, orq_reg_to_reg, subq_imm_to_reg, addq_imm_to_reg, movq_imm_to_reg, jmp_to_reg,
  call_reg, leave, ret, mem_write, write_mr_instr, write_movq_imm, write_static_value, with_static,
  assemble_one, assemble_from, assemble,
}
use l.Assembler.Decode.{decode, decode_op, by_modrm, immediate_operation, indirect_jump, in_memory}
use l.Assembler.Operands.{TakesModrm, decode-memory, decode-register}
use l.Assembler.RoundTrip.{
  unlinked, unlinked_instruction, has_registers, is_label, push_round_trip, pop_round_trip,
  movq_imm_round_trip, jump_bytes, branch_bytes, immediate_bytes, subtraction, addition, leave_byte,
  ret_byte,
}

unfoldable pub disassemble : ℕ → Bytes → Option (List Instruction)
disassemble n [] = some []
disassemble zero (b ∷ bs) = none
disassemble (suc n) (b ∷ bs) = elim (decode (b ∷ bs)) [
  | none ↦ none
  | some r ↦ map (λ is. r.0 ∷ is) (disassemble n r.1)
]

-- The instructions of a program, without its labels.
unfoldable pub code : List Instruction → List Instruction
unfolding unlinked_instruction is_label
code [] = []
code (i ∷ is) = if is_label i then code is else unlinked_instruction i ∷ code is

unfoldable pub all_registers : List Instruction → Bool
unfolding has_registers
all_registers [] = true
all_registers (i ∷ is) = has_registers i && all_registers is

decode-nil : decode [] ≡ none
unfolding decode
decode-nil = refl

nothing_left : (n : ℕ) → disassemble n [] ≡ some []
unfolding disassemble
nothing_left zero = refl
nothing_left (suc n) = refl

disassemble_step :
    (n : ℕ) (bs rest : Bytes) (i : Instruction)
    → decode bs ≡ some (i, rest)
    → disassemble (suc n) bs ≡ map (λ is. i ∷ is) (disassemble n rest)
unfolding disassemble
disassemble_step n [] rest i h = absurd (let e = sym (decode-nil) ∙ h in cc)
disassemble_step n (b ∷ bs) rest i h = rw (h, disassemble) refl

both : (a b : ℕ) → (ltb a 16 && ltb b 16) ≡ true → (a < 16) × (b < 16)
both a b h = ground arith

module _ (index : Binding → ℕ) where
  static-bytes :
      (pos : ℕ) (v : Static) (k : ℕ)
      → (write_static_value index pos v k).bytes ≡ mem_write k (unlinked v)
  unfolding write_static_value unlinked
  static-bytes pos (literal v) k = refl
  static-bytes pos (reference b) k = refl
  static-bytes pos (lnkr_add_off_to_ref b offset) k = refl
  static-bytes pos (lnkr_sub_rip_to_ref b) k = refl

  with_static-bytes :
      (pos : ℕ) (bs : Bytes) (v : Static) (k : ℕ) (rest : Bytes)
      → (with_static index pos bs v k).bytes ++ rest ≡ bs ++ (mem_write k (unlinked v) ++ rest)
  unfolding with_static
  with_static-bytes pos bs v k rest =
      append_assoc bs (write_static_value index (pos + length bs) v k).bytes rest
      ∙ ap (λ b. bs ++ (b ++ rest)) (static-bytes (pos + length bs) v k)

  memory_round_trip :
      (op pos : ℕ) (offset : Static) (reg rm : ℕ) (rest : Bytes)
      → TakesModrm op
      → reg < 16
      → rm < 16
      → decode ((with_static index pos (write_mr_instr op reg rm true true) offset 4).bytes ++ rest)
        ≡ by_modrm op true reg (in_memory (unlinked offset % 2 ^ 32) rm) rest
  memory_round_trip op pos offset reg rm rest takes lt lt' =
      rw (with_static-bytes pos (write_mr_instr op reg rm true true) offset 4 rest)
        (decode-memory op reg rm (unlinked offset) rest takes lt lt')

  -- An instruction is read back from its bytes, whatever follows them.
  assemble_one-decode :
      (pos : ℕ) (i : Instruction) (rest : Bytes)
      → is_label i ≡ false
      → has_registers i ≡ true
      → decode ((assemble_one index pos i).bytes ++ rest) ≡ some (unlinked_instruction i, rest)
  unfolding assemble_one is_label has_registers unlinked_instruction by_modrm TakesModrm decode_op
      immediate_operation indirect_jump
  assemble_one-decode pos (label b) rest kept regs = absurd cc
  assemble_one-decode pos (leaq_mdb_to_reg offset base dest) rest kept regs =
      let (lt, lt') = both base dest regs in
      memory_round_trip 0x8D pos offset dest base rest (λ rex bs. refl) lt' lt
  assemble_one-decode pos (movq_reg_to_mdb src offset base) rest kept regs =
      let (lt, lt') = both src base regs in
      memory_round_trip 0x89 pos offset src base rest (λ rex bs. refl) lt lt'
  assemble_one-decode pos (movq_mdb_to_reg offset base dest) rest kept regs =
      let (lt, lt') = both base dest regs in
      memory_round_trip 0x8B pos offset dest base rest (λ rex bs. refl) lt' lt
  assemble_one-decode pos (jmp_rel target) rest kept regs =
      rw (with_static-bytes pos (mem_write 1 0xE9) target 4 rest)
        (jump_bytes (unlinked target) rest)
  assemble_one-decode pos (je_rel target) rest kept regs =
      rw (with_static-bytes pos (mem_write 1 0x0F ++ mem_write 1 0x84) target 4 rest)
        (branch_bytes (unlinked target) rest)
  assemble_one-decode pos (pushq_reg reg) rest kept regs =
      push_round_trip rest reg (ltb→lt reg 16 regs)
  assemble_one-decode pos (popq_reg reg) rest kept regs =
      pop_round_trip rest reg (ltb→lt reg 16 regs)
  assemble_one-decode pos (movq_reg_to_reg src dest) rest kept regs =
      let (lt, lt') = both src dest regs in
      decode-register 0x8B dest src true rest (λ rex bs. refl) lt' lt
  assemble_one-decode pos (orq_reg_to_reg src dest) rest kept regs =
      let (lt, lt') = both src dest regs in
      decode-register 0x0B dest src true rest (λ rex bs. refl) lt' lt
  assemble_one-decode pos (subq_imm_to_reg value dest) rest kept regs =
      immediate_bytes 5 dest value rest (omega arith) (ltb→lt dest 16 regs)
      ∙ subtraction dest value rest
  assemble_one-decode pos (addq_imm_to_reg value dest) rest kept regs =
      immediate_bytes 0 dest value rest (omega arith) (ltb→lt dest 16 regs)
      ∙ addition dest value rest
  assemble_one-decode pos (movq_imm_to_reg value dest) rest kept regs =
      rw (with_static-bytes pos (write_movq_imm dest) value 8 rest)
        (movq_imm_round_trip (unlinked value) rest dest (ltb→lt dest 16 regs))
  assemble_one-decode pos (jmp_to_reg reg) rest kept regs =
      decode-register 0xFF 4 reg false rest (λ rex bs. refl) (omega arith) (ltb→lt reg 16 regs)
  assemble_one-decode pos (call_reg reg) rest kept regs =
      decode-register 0xFF 2 reg false rest (λ rex bs. refl) (omega arith) (ltb→lt reg 16 regs)
  assemble_one-decode pos leave rest kept regs = leave_byte rest
  assemble_one-decode pos ret rest kept regs = ret_byte rest

  label-bytes :
      (pos : ℕ) (i : Instruction) → is_label i ≡ true → (assemble_one index pos i).bytes ≡ []
  unfolding assemble_one is_label
  label-bytes pos (label b) h = refl
  label-bytes pos i h = absurd cc

  pub assemble_from-disassemble :
      (is : List Instruction) (pos n : ℕ)
      → all_registers is ≡ true
      → length is ≤ n
      → disassemble n (assemble_from index pos is).bytes ≡ some (code is)
  unfolding assemble_from all_registers code disassemble
  assemble_from-disassemble [] pos n regs enough = nothing_left n
  assemble_from-disassemble (i ∷ is) pos zero regs enough = absurd (omega arith)
  assemble_from-disassemble (i ∷ is) pos (suc n) regs enough =
      let first = assemble_one index pos i in
      let next = pos + length first.bytes in
      let here : has_registers i ≡ true = ground arith in
      let later : all_registers is ≡ true = ground arith in
      elim (Bool-cases (is_label i)) [
        | inl is_lab ↦
            rw (is_lab, label-bytes pos i is_lab)
              (assemble_from-disassemble is _ (suc n) later (omega arith))
        | inr kept ↦
            rw
              (
                kept,
                disassemble_step n _ (assemble_from index next is).bytes (unlinked_instruction i)
                    (assemble_one-decode pos i (assemble_from index next is).bytes kept here),
                assemble_from-disassemble is next n later (omega arith),
              )
              refl
      ]

  -- Reading the whole output back gives the program's instructions in their order, each with its
  -- static values as they are before linking and cut to their width, and without the labels, where
  -- every register is one of the sixteen.
  pub assemble-disassemble :
      (is : List Instruction)
      → all_registers is ≡ true
      → disassemble (length is) (assemble index is).bytes ≡ some (code is)
  unfolding assemble
  assemble-disassemble is regs = assemble_from-disassemble is 0 (length is) regs (omega arith)
