-- ===== src/Assembler.antt =====
-- bootstrap/x86_64_assembler.c: the encoding of instructions, static values with their relocations,
-- and `assemble`; the opcodes of bootstrap/x86_64_generator.c; `ELF64_R_INFO` of bootstrap/elf.c.
-- The buffer `bin` up to `*pos` is the list of bytes written, and `*pos` is its length.
pub mod Bits
pub mod Bounds
pub mod Decode
pub mod Operands
pub mod RoundTrip
pub mod Stream
pub mod Labels
use Prim.Native.Nat.{bit_and, bit_or}
use l.Prelude.{
  ℕ, zero, suc, ◌+◌, ◌-◌, ◌*◌, ◌/◌, ◌%◌, ◌^◌, Bool, true, false, List, [], ◌∷◌, ◌++◌, ◌==◌, ◌&&◌,
  ◌||◌, not, if◌then◌else◌, length,
}

abbrev pub Bytes : Type 0
Bytes = List ℕ

-- A `struct binding_aug`, by its address.
abbrev pub Binding : Type 0
Binding = ℕ

abbrev pub rsp : ℕ
rsp = 4

abbrev pub r12 : ℕ
r12 = 12

-- An operand that is written out, perhaps by the linker.
pub data Static : Type 0 where
  literal : (value : ℕ) → Static
  reference : Binding → Static
  lnkr_add_off_to_ref : Binding → (offset : ℕ) → Static
  lnkr_sub_rip_to_ref : Binding → Static

-- An `assembly_expression`, with its arguments in their order; a register is its number.
pub data Instruction : Type 0 where
  label : Binding → Instruction
  leaq_mdb_to_reg : (offset : Static) (base dest : ℕ) → Instruction
  movq_reg_to_mdb : (src : ℕ) (offset : Static) (base : ℕ) → Instruction
  movq_mdb_to_reg : (offset : Static) (base dest : ℕ) → Instruction
  jmp_rel je_rel : (target : Static) → Instruction
  pushq_reg popq_reg : (reg : ℕ) → Instruction
  movq_reg_to_reg orq_reg_to_reg : (src dest : ℕ) → Instruction
  subq_imm_to_reg addq_imm_to_reg : (value : ℕ) (dest : ℕ) → Instruction
  movq_imm_to_reg : (value : Static) (dest : ℕ) → Instruction
  jmp_to_reg call_reg : (reg : ℕ) → Instruction
  leave ret : Instruction

-- An `Elf64_Rela`; the addend is the two's complement of a signed number.
pub record Rela : Type 0 where
  pub r_offset : ℕ
  pub r_info : ℕ
  pub r_addend : ℕ

unfoldable pub elf64_r_info : ℕ → ℕ → ℕ
elf64_r_info s t = (s * 2 ^ 32 + t % 2 ^ 32) % 2 ^ 64

abbrev pub r_x86_64_64 : ℕ
r_x86_64_64 = 1

abbrev pub r_x86_64_pc32 : ℕ
r_x86_64_pc32 = 2

-- `mem_write` of the first `cnt` bytes of a number in memory, the low byte first.
unfoldable pub mem_write : ℕ → ℕ → Bytes
mem_write zero v = []
mem_write (suc cnt) v = (v % 256) ∷ mem_write cnt (v / 256)

-- `REX`, with the bits for `rexw` and for the fourth bits of the registers.
unfoldable pub rex_prefix : Bool → ℕ → ℕ → ℕ
rex_prefix rexw reg rm =
    let rex = 4 * 2 ^ 4 in
    let rex = if rexw then bit_or rex (1 * 2 ^ 3) else rex in
    let rex = if bit_and reg 8 == 0 then rex else bit_or rex (1 * 2 ^ 2) in
    let rex = bit_or rex (0 * 2 ^ 1) in if bit_and rm 8 == 0 then rex else bit_or rex (1 * 2 ^ 0)

unfoldable pub modrm_byte : ℕ → ℕ → ℕ → ℕ
modrm_byte mod_field reg rm =
    bit_or (bit_or (mod_field * 2 ^ 6) (bit_and reg 7 * 2 ^ 3)) (bit_and rm 7 * 2 ^ 0)

unfoldable pub sib_byte : ℕ → ℕ
sib_byte rm = bit_or (bit_or (4 * 2 ^ 3) (bit_and rm 7 * 2 ^ 0)) (0 * 2 ^ 6)

unfoldable pub write_mr_instr : ℕ → ℕ → ℕ → (m rexw : Bool) → Bytes
unfolding mem_write rex_prefix modrm_byte sib_byte
write_mr_instr opcode reg rm m rexw =
    let mod_field = if m then 2 else 3 in
    let has_sib = m && (rm == rsp || rm == r12) in
    mem_write 1 (rex_prefix rexw reg rm)
    ++ mem_write 1 opcode
    ++ mem_write 1 (modrm_byte mod_field reg rm)
    ++ (if has_sib then mem_write 1 (sib_byte rm) else [])

-- `opcode + rd`, with a prefix only for a register from 8 up.
unfoldable pub write_o_instr : ℕ → ℕ → Bytes
unfolding mem_write
write_o_instr opcode reg =
    (if bit_and reg 8 == 0 then [] else mem_write 1 (bit_or (4 * 2 ^ 4) (1 * 2 ^ 0)))
    ++ mem_write 1 (opcode + bit_and reg 7)

-- The prefix and opcode of `MOVQ_IMM_TO_REG`.
unfoldable pub write_movq_imm : ℕ → Bytes
unfolding mem_write
write_movq_imm reg =
    let rex = bit_or (4 * 2 ^ 4) (1 * 2 ^ 3) in
    mem_write 1 (if bit_and reg 8 == 0 then rex else bit_or rex (1 * 2 ^ 0))
    ++ mem_write 1 (0xB8 + bit_and reg 7)

-- What an instruction adds to the output.
pub record Output : Type 0 where
  pub bytes : Bytes
  pub relas : List Rela
  pub labels : List (Binding × ℕ)

abbrev pub output : Bytes → List Rela → Output
output bs rs = record { bytes = bs; relas = rs; labels = [] }

-- `index` is the place of a binding's symbol in the symbol table.
module _ (index : Binding → ℕ) where
  -- The bytes and relocations of a static value that is written at `pos`.
  unfoldable pub write_static_value : ℕ → Static → ℕ → Output
  unfolding mem_write elf64_r_info
  write_static_value pos (literal v) bytes = output (mem_write bytes v) []
  write_static_value pos (reference b) bytes = output (mem_write bytes 0) (
      if bytes == 8
      then record { r_offset = pos; r_info = elf64_r_info (index b) r_x86_64_64; r_addend = 0 } ∷ []
      else [])
  write_static_value pos (lnkr_add_off_to_ref b offset) bytes = output (mem_write bytes 0) (
      if bytes == 8
      then record { r_offset = pos; r_info = elf64_r_info (index b) r_x86_64_64; r_addend = offset }
        ∷ []
      else [])
  write_static_value pos (lnkr_sub_rip_to_ref b) bytes = output (mem_write bytes 0) (
      if bytes == 4
      then record {
        r_offset = pos;
        r_info = elf64_r_info (index b) r_x86_64_pc32;
        r_addend = 2 ^ 64 - bytes;
      }
        ∷ []
      else [])

  -- Bytes, and a static value behind them.
  unfoldable pub with_static : ℕ → Bytes → Static → ℕ → Output
  unfolding write_static_value
  with_static pos bs v bytes =
      let out = write_static_value (pos + length bs) v bytes in output (bs ++ out.bytes) out.relas

  -- The body of the loop of `assemble`, at `pos`.
  unfoldable pub assemble_one : ℕ → Instruction → Output
  unfolding with_static write_mr_instr write_o_instr write_movq_imm mem_write
  assemble_one pos (label b) = record { bytes = []; relas = []; labels = (b, pos) ∷ [] }
  assemble_one pos (leaq_mdb_to_reg offset base dest) =
      with_static pos (write_mr_instr 0x8D dest base true true) offset 4
  assemble_one pos (movq_reg_to_mdb src offset base) =
      with_static pos (write_mr_instr 0x89 src base true true) offset 4
  assemble_one pos (jmp_rel target) = with_static pos (mem_write 1 0xE9) target 4
  assemble_one pos (movq_mdb_to_reg offset base dest) =
      with_static pos (write_mr_instr 0x8B dest base true true) offset 4
  assemble_one pos (pushq_reg reg) = output (write_o_instr 0x50 reg) []
  assemble_one pos (movq_reg_to_reg src dest) = output (write_mr_instr 0x8B dest src false true) []
  assemble_one pos (subq_imm_to_reg value dest) =
      output (write_mr_instr 0x81 5 dest false true ++ mem_write 4 value) []
  assemble_one pos (addq_imm_to_reg value dest) =
      output (write_mr_instr 0x81 0 dest false true ++ mem_write 4 value) []
  assemble_one pos (popq_reg reg) = output (write_o_instr 0x58 reg) []
  assemble_one pos leave = output (mem_write 1 0xC9) []
  assemble_one pos ret = output (mem_write 1 0xC3) []
  assemble_one pos (jmp_to_reg reg) = output (write_mr_instr 0xFF 4 reg false false) []
  assemble_one pos (je_rel target) = with_static pos (mem_write 1 0x0F ++ mem_write 1 0x84) target 4
  assemble_one pos (orq_reg_to_reg src dest) = output (write_mr_instr 0x0B dest src false true) []
  assemble_one pos (movq_imm_to_reg value dest) = with_static pos (write_movq_imm dest) value 8
  assemble_one pos (call_reg reg) = output (write_mr_instr 0xFF 2 reg false false) []

  -- The loop, from `pos` on.
  unfoldable pub assemble_from : ℕ → List Instruction → Output
  unfolding assemble_one
  assemble_from pos [] = output [] []
  assemble_from pos (i ∷ is) =
      let one = assemble_one pos i in
      let rest = assemble_from (pos + length one.bytes) is in
      record {
        bytes = one.bytes ++ rest.bytes;
        relas = one.relas ++ rest.relas;
        labels = one.labels ++ rest.labels;
      }

  unfoldable pub assemble : List Instruction → Output
  unfolding assemble_from
  assemble = assemble_from 0
