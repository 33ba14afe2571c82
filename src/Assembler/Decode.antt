-- ===== src/Assembler/Decode.antt =====
-- A decoder for the instructions that `assemble` writes, from the processor's manual.
use l.Prelude.{
  ℕ, zero, suc, ◌+◌, ◌*◌, ◌/◌, ◌%◌, Bool, true, false, [], ◌∷◌, Option, none, some, ◌==◌, ◌&&◌,
  if◌then◌else◌,
}
use l.Assembler.{
  Bytes, Static, Instruction, literal, leaq_mdb_to_reg, movq_reg_to_mdb, movq_mdb_to_reg, jmp_rel,
  je_rel, pushq_reg, popq_reg, movq_reg_to_reg, orq_reg_to_reg, subq_imm_to_reg, addq_imm_to_reg,
  movq_imm_to_reg, jmp_to_reg, call_reg, leave, ret,
}
use l.Assembler.Bits.{reg_field, rm_field}

infixl 5 ◌>>=◌
abbrev ◌>>=◌ {ℓ κ} : {A : Type ℓ} {B : Type κ} → Option A → (A → Option B) → Option B
none >>= f = none
some a >>= f = f a

-- A number of so many bytes, the low byte first, and what follows it.
unfoldable pub read_number : ℕ → Bytes → Option (ℕ × Bytes)
read_number zero bs = some (0, bs)
read_number (suc k) [] = none
read_number (suc k) (b ∷ bs) = do (v, rest) ← read_number k bs; some (b + 256 * v, rest)

pub data Operand : Type 0 where
  in_memory : (offset base : ℕ) → Operand
  in_register : ℕ → Operand

unfoldable pub memory_operand : ℕ → Bytes → Option (Operand × Bytes)
unfolding read_number
memory_operand base bs = do (offset, rest) ← read_number 4 bs; some (in_memory offset base, rest)

-- Behind ModRM comes a SIB byte where the base field is 4; it names the base, with no index.
unfoldable pub sib_operand : ℕ → Bytes → Option (Operand × Bytes)
unfolding memory_operand rm_field
sib_operand rex [] = none
sib_operand rex (sib ∷ bs) = if sib / 8 == 4 then memory_operand (rm_field rex sib) bs else none

unfoldable pub read_operand : ℕ → ℕ → Bytes → Option (Operand × Bytes)
unfolding memory_operand sib_operand rm_field
read_operand rex modrm bs =
    if modrm / 64 == 3
    then some (in_register (rm_field rex modrm), bs)
    else if modrm / 64 == 2
    then (if modrm % 8 == 4 then sib_operand rex bs else memory_operand (rm_field rex modrm) bs)
    else none

unfoldable pub immediate_operation : ℕ → ℕ → Bytes → Option (Instruction × Bytes)
unfolding read_number
immediate_operation digit rm bs = do
  (v, rest) ← read_number 4 bs
  (if digit == 5
      then some (subq_imm_to_reg v rm, rest)
      else if digit == 0
      then some (addq_imm_to_reg v rm, rest)
      else none)

unfoldable pub indirect_jump : ℕ → ℕ → Bytes → Option (Instruction × Bytes)
indirect_jump digit rm bs =
    if digit == 4
    then some (jmp_to_reg rm, bs)
    else if digit == 2
    then some (call_reg rm, bs)
    else none

-- The operations that carry a ModRM byte; all but the indirect jumps need 64-bit operands.
unfoldable pub by_modrm : ℕ → Bool → ℕ → Operand → Bytes → Option (Instruction × Bytes)
unfolding immediate_operation indirect_jump
by_modrm op true reg (in_memory offset base) bs =
    if op == 0x8D
    then some (leaq_mdb_to_reg (literal offset) base reg, bs)
    else if op == 0x89
    then some (movq_reg_to_mdb reg (literal offset) base, bs)
    else if op == 0x8B
    then some (movq_mdb_to_reg (literal offset) base reg, bs)
    else none
by_modrm op true reg (in_register rm) bs =
    if op == 0x8B
    then some (movq_reg_to_reg rm reg, bs)
    else if op == 0x0B
    then some (orq_reg_to_reg rm reg, bs)
    else if op == 0x81
    then immediate_operation (reg % 8) rm bs
    else none
by_modrm op false reg (in_register rm) bs =
    if op == 0xFF then indirect_jump (reg % 8) rm bs else none
by_modrm op false reg (in_memory offset base) bs = none

unfoldable pub decode_modrm : ℕ → ℕ → Bytes → Option (Instruction × Bytes)
unfolding read_operand by_modrm reg_field
decode_modrm rex op [] = none
decode_modrm rex op (modrm ∷ bs) = do
  (operand, rest) ← read_operand rex modrm bs
  by_modrm op (rex / 8 % 2 == 1) (reg_field rex modrm) operand rest

unfoldable pub jump_target : (Static → Instruction) → Bytes → Option (Instruction × Bytes)
unfolding read_number
jump_target jump bs = do (v, rest) ← read_number 4 bs; some (jump (literal v), rest)

unfoldable pub two_bytes : Bytes → Option (Instruction × Bytes)
unfolding jump_target
two_bytes [] = none
two_bytes (op ∷ bs) = if op == 0x84 then jump_target je_rel bs else none

unfoldable pub long_immediate : ℕ → Bytes → Option (Instruction × Bytes)
unfolding read_number
long_immediate reg bs = do
  (v, rest) ← read_number 8 bs
  some (movq_imm_to_reg (literal v) reg, rest)

-- The operation behind the prefix, which is 0x40 where there is none.
unfoldable pub decode_op : ℕ → Bytes → Option (Instruction × Bytes)
unfolding rm_field decode_modrm two_bytes jump_target long_immediate
decode_op rex [] = none
decode_op rex (op ∷ bs) =
    if op / 8 == 10
    then some (pushq_reg (rm_field rex op), bs)
    else if op / 8 == 11
    then some (popq_reg (rm_field rex op), bs)
    else if (op / 8 == 23) && (rex / 8 % 2 == 1)
    then long_immediate (rm_field rex op) bs
    else if op == 0xC9
    then some (leave, bs)
    else if op == 0xC3
    then some (ret, bs)
    else if op == 0xE9
    then jump_target jmp_rel bs
    else if op == 0x0F
    then two_bytes bs
    else decode_modrm rex op bs

unfoldable pub decode : Bytes → Option (Instruction × Bytes)
unfolding decode_op
decode [] = none
decode (b ∷ bs) = if b / 16 == 4 then decode_op b bs else decode_op 0x40 (b ∷ bs)
