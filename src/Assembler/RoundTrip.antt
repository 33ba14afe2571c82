-- ===== src/Assembler/RoundTrip.antt =====
-- Reading back the instructions that `assemble` of bootstrap/x86_64_assembler.c writes.
use l.Prelude.{
  ℕ, zero, suc, ◌%◌, ◌^◌, ◌<◌, ◌≡◌, refl, Bool, true, false, ◌++◌, some, ◌==◌, ==_iff, inl, inr,
  Bool-cases, ◌&&◌, ltb, arith, append_assoc, sym, subst,
}
use l.Assembler.{
  Bytes, Static, literal, Instruction, label, leaq_mdb_to_reg, movq_reg_to_mdb, movq_mdb_to_reg,
  jmp_rel, je_rel, pushq_reg, popq_reg, movq_reg_to_reg, orq_reg_to_reg, subq_imm_to_reg,
  addq_imm_to_reg, movq_imm_to_reg, jmp_to_reg, call_reg, leave, ret, mem_write, write_mr_instr,
  write_o_instr, write_movq_imm,
}
use l.Assembler.Decode.{
  decode, decode_op, by_modrm, jump_target, two_bytes, long_immediate, immediate_operation,
}
use l.Assembler.Operands.{read_number-mem_write, TakesModrm, decode-register}

-- What is written for a static value before the linker adds the address of its binding.
unfoldable pub unlinked : Static → ℕ
unlinked (literal v) = v
unlinked _ = 0

-- The processor's view of an instruction: static values are written out, cut to their width.
unfoldable pub unlinked_instruction : Instruction → Instruction
unfolding unlinked
unlinked_instruction (leaq_mdb_to_reg offset base dest) =
    leaq_mdb_to_reg (literal (unlinked offset % 2 ^ 32)) base dest
unlinked_instruction (movq_reg_to_mdb src offset base) =
    movq_reg_to_mdb src (literal (unlinked offset % 2 ^ 32)) base
unlinked_instruction (movq_mdb_to_reg offset base dest) =
    movq_mdb_to_reg (literal (unlinked offset % 2 ^ 32)) base dest
unlinked_instruction (jmp_rel target) = jmp_rel (literal (unlinked target % 2 ^ 32))
unlinked_instruction (je_rel target) = je_rel (literal (unlinked target % 2 ^ 32))
unlinked_instruction (subq_imm_to_reg value dest) = subq_imm_to_reg (value % 2 ^ 32) dest
unlinked_instruction (addq_imm_to_reg value dest) = addq_imm_to_reg (value % 2 ^ 32) dest
unlinked_instruction (movq_imm_to_reg value dest) =
    movq_imm_to_reg (literal (unlinked value % 2 ^ 64)) dest
unlinked_instruction i = i

-- Every register is one of the sixteen.
unfoldable pub has_registers : Instruction → Bool
has_registers (leaq_mdb_to_reg _ base dest) = ltb base 16 && ltb dest 16
has_registers (movq_reg_to_mdb src _ base) = ltb src 16 && ltb base 16
has_registers (movq_mdb_to_reg _ base dest) = ltb base 16 && ltb dest 16
has_registers (pushq_reg reg) = ltb reg 16
has_registers (popq_reg reg) = ltb reg 16
has_registers (movq_reg_to_reg src dest) = ltb src 16 && ltb dest 16
has_registers (orq_reg_to_reg src dest) = ltb src 16 && ltb dest 16
has_registers (subq_imm_to_reg _ dest) = ltb dest 16
has_registers (addq_imm_to_reg _ dest) = ltb dest 16
has_registers (movq_imm_to_reg _ dest) = ltb dest 16
has_registers (jmp_to_reg reg) = ltb reg 16
has_registers (call_reg reg) = ltb reg 16
has_registers _ = true

unfoldable pub is_label : Instruction → Bool
is_label (label _) = true
is_label _ = false

AllBelow {ℓ} : ℕ → (ℕ → Type ℓ) → Type ℓ
AllBelow (suc (suc n)) P = P (suc n) × AllBelow (suc n) P
AllBelow _ P = P 0

below {ℓ} : (n : ℕ) (P : ℕ → Type ℓ) → AllBelow (suc n) P → (reg : ℕ) → reg < suc n → P reg
unfolding AllBelow
below zero P all reg lt = let e : 0 ≡ reg = omega arith in subst P e all
below (suc n) P (p, all) reg lt = elim (Bool-cases (reg == suc n)) [
  | inl top ↦ subst P (sym ((==_iff reg (suc n)).0 top)) p
  | inr lower ↦ below n P all reg (ground arith)
]

-- A case for each register, the last one first.
of_register {ℓ} :
    (P : ℕ → Type ℓ)
    → P 15
    → P 14
    → P 13
    → P 12
    → P 11
    → P 10
    → P 9
    → P 8
    → P 7
    → P 6
    → P 5
    → P 4
    → P 3
    → P 2
    → P 1
    → P 0
    → (reg : ℕ) → reg < 16
    → P reg
unfolding AllBelow
of_register P p15 p14 p13 p12 p11 p10 p9 p8 p7 p6 p5 p4 p3 p2 p1 p0 = below 15 P (
  p15,
  (p14, (p13, (p12, (p11, (p10, (p9, (p8, (p7, (p6, (p5, (p4, (p3, (p2, (p1, p0)))))))))))))),
)

pub push_round_trip :
    (rest : Bytes) (reg : ℕ)
    → reg < 16
    → decode (write_o_instr 0x50 reg ++ rest) ≡ some (pushq_reg reg, rest)
unfolding decode write_o_instr
push_round_trip rest =
    of_register (λ reg. decode (write_o_instr 0x50 reg ++ rest) ≡ some (pushq_reg reg, rest)) refl
      refl refl refl refl refl refl refl refl refl refl refl refl refl refl refl

pub pop_round_trip :
    (rest : Bytes) (reg : ℕ)
    → reg < 16
    → decode (write_o_instr 0x58 reg ++ rest) ≡ some (popq_reg reg, rest)
unfolding decode write_o_instr
pop_round_trip rest =
    of_register (λ reg. decode (write_o_instr 0x58 reg ++ rest) ≡ some (popq_reg reg, rest)) refl
      refl refl refl refl refl refl refl refl refl refl refl refl refl refl refl

long_immediate-mem_write :
    (reg v : ℕ) (rest : Bytes)
    → long_immediate reg (mem_write 8 v ++ rest)
      ≡ some (movq_imm_to_reg (literal (v % 2 ^ 64)) reg, rest)
unfolding long_immediate
long_immediate-mem_write reg v rest = rw (read_number-mem_write 8 v rest) refl

pub movq_imm_round_trip :
    (v : ℕ) (rest : Bytes) (reg : ℕ)
    → reg < 16
    → decode (write_movq_imm reg ++ (mem_write 8 v ++ rest))
      ≡ some (movq_imm_to_reg (literal (v % 2 ^ 64)) reg, rest)
unfolding decode write_movq_imm
movq_imm_round_trip v rest =
    of_register
      (λ reg.
        decode (write_movq_imm reg ++ (mem_write 8 v ++ rest))
        ≡ some (movq_imm_to_reg (literal (v % 2 ^ 64)) reg, rest))
      (at 15) (at 14) (at 13) (at 12) (at 11) (at 10) (at 9) (at 8) (at 7) (at 6) (at 5) (at 4)
      (at 3) (at 2) (at 1) (at 0)
  where
    at :
        (reg : ℕ)
        → long_immediate reg (mem_write 8 v ++ rest)
          ≡ some (movq_imm_to_reg (literal (v % 2 ^ 64)) reg, rest)
    at reg = long_immediate-mem_write reg v rest

jump_target-mem_write :
    (jump : Static → Instruction) (v : ℕ) (rest : Bytes)
    → jump_target jump (mem_write 4 v ++ rest) ≡ some (jump (literal (v % 2 ^ 32)), rest)
unfolding jump_target
jump_target-mem_write jump v rest = rw (read_number-mem_write 4 v rest) refl

pub jump_bytes :
    (v : ℕ) (rest : Bytes)
    → decode (mem_write 1 0xE9 ++ (mem_write 4 v ++ rest))
      ≡ some (jmp_rel (literal (v % 2 ^ 32)), rest)
unfolding decode decode_op mem_write
jump_bytes v rest = jump_target-mem_write jmp_rel v rest

pub branch_bytes :
    (v : ℕ) (rest : Bytes)
    → decode ((mem_write 1 0x0F ++ mem_write 1 0x84) ++ (mem_write 4 v ++ rest))
      ≡ some (je_rel (literal (v % 2 ^ 32)), rest)
unfolding decode decode_op two_bytes mem_write
branch_bytes v rest = jump_target-mem_write je_rel v rest

-- The group of operations that opcode 0x81 and the `reg` field of ModRM pick from.
pub immediate_bytes :
    (digit dest v : ℕ) (rest : Bytes)
    → digit < 16
    → dest < 16
    → decode ((write_mr_instr 0x81 digit dest false true ++ mem_write 4 v) ++ rest)
      ≡ immediate_operation (digit % 8) dest (mem_write 4 v ++ rest)
unfolding by_modrm TakesModrm decode_op
immediate_bytes digit dest v rest lt lt' =
    rw (append_assoc (write_mr_instr 0x81 digit dest false true) (mem_write 4 v) rest)
      (decode-register 0x81 digit dest true (mem_write 4 v ++ rest) (λ rex bs. refl) lt lt')

pub subtraction :
    (dest v : ℕ) (rest : Bytes)
    → immediate_operation 5 dest (mem_write 4 v ++ rest)
      ≡ some (subq_imm_to_reg (v % 2 ^ 32) dest, rest)
unfolding immediate_operation
subtraction dest v rest = rw (read_number-mem_write 4 v rest) refl

pub addition :
    (dest v : ℕ) (rest : Bytes)
    → immediate_operation 0 dest (mem_write 4 v ++ rest)
      ≡ some (addq_imm_to_reg (v % 2 ^ 32) dest, rest)
unfolding immediate_operation
addition dest v rest = rw (read_number-mem_write 4 v rest) refl

pub leave_byte : (rest : Bytes) → decode (mem_write 1 0xC9 ++ rest) ≡ some (leave, rest)
unfolding decode decode_op mem_write
leave_byte rest = refl

pub ret_byte : (rest : Bytes) → decode (mem_write 1 0xC3 ++ rest) ≡ some (ret, rest)
unfolding decode decode_op mem_write
ret_byte rest = refl
