-- ===== src/Assembler/Bounds.antt =====
-- The sizes of what bootstrap/x86_64_assembler.c writes, against the sizes of its buffers.
use l.Prelude.{
  ℕ, zero, suc, ◌+◌, ◌*◌, ◌/◌, ◌^◌, ◌%◌, ◌≤◌, ◌≡◌, refl, Bool, true, false, List, [], ◌∷◌, ◌++◌,
  ◌==◌, ==_iff, ◌-◌, inl, inr, Bool-cases, ◌||◌, if◌then◌else◌, arith, length, length-append, ap,
}
use l.Assembler.{
  Bytes, Binding, Static, literal, reference, lnkr_add_off_to_ref, lnkr_sub_rip_to_ref, Instruction,
  label, leaq_mdb_to_reg, movq_reg_to_mdb, movq_mdb_to_reg, jmp_rel, je_rel, pushq_reg, popq_reg,
  movq_reg_to_reg, orq_reg_to_reg, subq_imm_to_reg, addq_imm_to_reg, movq_imm_to_reg, jmp_to_reg,
  call_reg, leave, ret, Output, output, Rela, elf64_r_info, rsp, r12, mem_write, write_mr_instr,
  write_o_instr, write_movq_imm, write_static_value, with_static, assemble_one, assemble_from,
  assemble,
}
use Prim.Native.Nat.{bit_and}

abbrev pub max_instr_len : ℕ
max_instr_len = 15

abbrev pub max_instr_fields : ℕ
max_instr_fields = 2

length-mem_write : (k v : ℕ) → length (mem_write k v) ≡ k
unfolding mem_write
length-mem_write zero v = refl
length-mem_write (suc k) v = ap suc (length-mem_write k (v / 256))

length-write_mr_instr :
    (opcode reg rm : ℕ) (m w : Bool) → length (write_mr_instr opcode reg rm m w) ≤ 4
unfolding write_mr_instr mem_write
length-write_mr_instr opcode reg rm true w = elim (Bool-cases (rm == rsp || rm == r12)) [
  | inl sib ↦ rw sib (omega arith)
  | inr plain ↦ rw plain (omega arith)
]
length-write_mr_instr opcode reg rm false w = omega arith

length-write_o_instr : (opcode reg : ℕ) → length (write_o_instr opcode reg) ≤ 2
unfolding write_o_instr mem_write
length-write_o_instr opcode reg = elim (Bool-cases (bit_and reg 8 == 0)) [
  | inl sib ↦ rw sib (omega arith)
  | inr plain ↦ rw plain (omega arith)
]

length-write_movq_imm : (reg : ℕ) → length (write_movq_imm reg) ≤ 2
unfolding write_movq_imm mem_write
length-write_movq_imm reg = omega arith

-- The bytes that the linker changes for a relocation.
unfoldable pub width : Rela → ℕ
width r = if r.r_info % 2 ^ 32 == 1 then 8 else 4

width-64 :
    (pos n a : ℕ) → width (record { r_offset = pos; r_info = elf64_r_info n 1; r_addend = a }) ≡ 8
unfolding width elf64_r_info
width-64 pos n a =
    let e : (n * 2 ^ 32 + 1) % 2 ^ 64 % 2 ^ 32 ≡ 1 = omega arith in
    ap (λ t. if t == 1 then 8 else 4) e

width-32 :
    (pos n a : ℕ) → width (record { r_offset = pos; r_info = elf64_r_info n 2; r_addend = a }) ≡ 4
unfolding width elf64_r_info
width-32 pos n a =
    let e : (n * 2 ^ 32 + 2) % 2 ^ 64 % 2 ^ 32 ≡ 2 = omega arith in
    ap (λ t. if t == 1 then 8 else 4) e

-- What the relocations change lies between two places.
unfoldable pub Within : ℕ → ℕ → List Rela → Type 0
unfolding width
Within from to [] = Unit
Within from to (r ∷ rs) = ((from ≤ r.r_offset) × (r.r_offset + width r ≤ to)) × Within from to rs

Within-mono :
    {from from' to to' : ℕ} (rs : List Rela)
    → from' ≤ from
    → to ≤ to'
    → Within from to rs
    → Within from' to' rs
unfolding Within
Within-mono [] le le' within = tt
Within-mono (r ∷ rs) le le' ((a, b), within) =
    ((omega arith, omega arith), Within-mono rs le le' within)

Within-append :
    (from to : ℕ) (xs ys : List Rela)
    → Within from to xs
    → Within from to ys
    → Within from to (xs ++ ys)
unfolding Within
Within-append from to [] ys xs-within ys-within = ys-within
Within-append from to (x ∷ xs) ys (x-within, xs-within) ys-within =
    (x-within, Within-append from to xs ys xs-within ys-within)

-- An instruction's output at `pos` keeps to the bounds.
record Fits (pos : ℕ) (out : Output) : Type 0 where
  short : length out.bytes ≤ max_instr_len
  few : length out.relas ≤ max_instr_fields
  inside : Within pos (pos + length out.bytes) out.relas

no_relas : (pos : ℕ) (bs : Bytes) → length bs ≤ max_instr_len → Fits pos (output bs [])
unfolding Within
no_relas pos bs short = record { short = short; few = omega arith; inside = tt }

module _ (index : Binding → ℕ) where
  -- A static value takes the bytes it is given, with at most one relocation, on those bytes.
  write_static_value-inside :
      (pos : ℕ) (v : Static) (k : ℕ)
      → let out = write_static_value index pos v k in
        (length out.bytes ≡ k) × (length out.relas ≤ 1) × Within pos (pos + k) out.relas
  unfolding write_static_value Within
  write_static_value-inside pos (literal v) k = (length-mem_write k v, omega arith, tt)
  write_static_value-inside pos (reference b) k = elim (Bool-cases (k == 8)) [
    | inl wide ↦ rw wide (
      length-mem_write k 0,
      omega arith,
      ((omega arith, omega (arith, width-64 pos (index b) 0, (==_iff k 8).0 wide)), tt),
    )
    | inr other ↦ rw other (length-mem_write k 0, omega arith, tt)
  ]
  write_static_value-inside pos (lnkr_add_off_to_ref b offset) k = elim (Bool-cases (k == 8)) [
    | inl wide ↦ rw wide (
      length-mem_write k 0,
      omega arith,
      ((omega arith, omega (arith, width-64 pos (index b) offset, (==_iff k 8).0 wide)), tt),
    )
    | inr other ↦ rw other (length-mem_write k 0, omega arith, tt)
  ]
  write_static_value-inside pos (lnkr_sub_rip_to_ref b) k = elim (Bool-cases (k == 4)) [
    | inl wide ↦ rw wide (
      length-mem_write k 0,
      omega arith,
      ((omega arith, omega (arith, width-32 pos (index b) (2 ^ 64 - k), (==_iff k 4).0 wide)), tt),
    )
    | inr other ↦ rw other (length-mem_write k 0, omega arith, tt)
  ]

  with_static-Fits :
      (pos : ℕ) (bs : Bytes) (v : Static) (k : ℕ)
      → length bs + k ≤ max_instr_len
      → Fits pos (with_static index pos bs v k)
  unfolding with_static
  with_static-Fits pos bs v k short =
      let (size, few, inside) = write_static_value-inside (pos + length bs) v k in
      let out = write_static_value index (pos + length bs) v k in
      let total : length (bs ++ out.bytes) ≡ length bs + k =
        omega (arith, length-append bs out.bytes) in
      record {
        short = omega arith;
        few = omega arith;
        inside = Within-mono out.relas (omega arith) (omega arith) inside;
      }

  length-modrm_imm :
      (digit reg v : ℕ) → length (write_mr_instr 0x81 digit reg false true ++ mem_write 4 v) ≤ 15
  length-modrm_imm digit reg v = omega (
    arith,
    length-append (write_mr_instr 0x81 digit reg false true) (mem_write 4 v),
    length-write_mr_instr 0x81 digit reg false true,
    length-mem_write 4 v,
  )

  memory-Fits :
      (pos op reg rm : ℕ) (offset : Static)
      → Fits pos (with_static index pos (write_mr_instr op reg rm true true) offset 4)
  memory-Fits pos op reg rm offset =
      with_static-Fits pos (write_mr_instr op reg rm true true) offset 4
        (omega (arith, length-write_mr_instr op reg rm true true))

  modrm-Fits :
      (pos op reg rm : ℕ) (w : Bool) → Fits pos (output (write_mr_instr op reg rm false w) [])
  modrm-Fits pos op reg rm w =
      no_relas pos (write_mr_instr op reg rm false w)
        (omega (arith, length-write_mr_instr op reg rm false w))

  short-Fits : (pos op reg : ℕ) → Fits pos (output (write_o_instr op reg) [])
  short-Fits pos op reg =
      no_relas pos (write_o_instr op reg) (omega (arith, length-write_o_instr op reg))

  assemble_one-Fits : (pos : ℕ) (i : Instruction) → Fits pos (assemble_one index pos i)
  unfolding assemble_one Within
  assemble_one-Fits pos (label b) = record { short = omega arith; few = omega arith; inside = tt }
  assemble_one-Fits pos (leaq_mdb_to_reg offset base dest) = memory-Fits pos 0x8D dest base offset
  assemble_one-Fits pos (movq_reg_to_mdb src offset base) = memory-Fits pos 0x89 src base offset
  assemble_one-Fits pos (movq_mdb_to_reg offset base dest) = memory-Fits pos 0x8B dest base offset
  assemble_one-Fits pos (jmp_rel target) =
      with_static-Fits pos (mem_write 1 0xE9) target 4 (omega (arith, length-mem_write 1 0xE9))
  assemble_one-Fits pos (je_rel target) =
      with_static-Fits pos (mem_write 1 0x0F ++ mem_write 1 0x84) target 4 (
        omega (
          arith,
          length-append (mem_write 1 0x0F) (mem_write 1 0x84),
          length-mem_write 1 0x0F,
          length-mem_write 1 0x84,
        ))
  assemble_one-Fits pos (pushq_reg reg) = short-Fits pos 0x50 reg
  assemble_one-Fits pos (popq_reg reg) = short-Fits pos 0x58 reg
  assemble_one-Fits pos (movq_reg_to_reg src dest) = modrm-Fits pos 0x8B dest src true
  assemble_one-Fits pos (orq_reg_to_reg src dest) = modrm-Fits pos 0x0B dest src true
  assemble_one-Fits pos (subq_imm_to_reg value dest) =
      no_relas pos _ (length-modrm_imm 5 dest value)
  assemble_one-Fits pos (addq_imm_to_reg value dest) =
      no_relas pos _ (length-modrm_imm 0 dest value)
  assemble_one-Fits pos (movq_imm_to_reg value dest) =
      with_static-Fits pos (write_movq_imm dest) value 8 (omega (arith, length-write_movq_imm dest))
  assemble_one-Fits pos (jmp_to_reg reg) = modrm-Fits pos 0xFF 4 reg false
  assemble_one-Fits pos (call_reg reg) = modrm-Fits pos 0xFF 2 reg false
  assemble_one-Fits pos leave =
      no_relas pos (mem_write 1 0xC9) (omega (arith, length-mem_write 1 0xC9))
  assemble_one-Fits pos ret =
      no_relas pos (mem_write 1 0xC3) (omega (arith, length-mem_write 1 0xC3))

  assemble_from-inside :
      (is : List Instruction) (pos : ℕ)
      → let out = assemble_from index pos is in
        (length out.bytes ≤ max_instr_len * length is)
        × (length out.relas ≤ max_instr_fields * length is)
        × Within pos (pos + length out.bytes) out.relas
  unfolding assemble_from Within
  assemble_from-inside [] pos = (omega arith, omega arith, tt)
  assemble_from-inside (i ∷ is) pos =
      let one = assemble_one index pos i in
      let fits = assemble_one-Fits pos i in
      let next = pos + length one.bytes in
      let rest = assemble_from index next is in
      let (short, few, inside) = assemble_from-inside is next in
      let short_one = fits.short in
      let few_one = fits.few in
      let size : length (one.bytes ++ rest.bytes) ≡ length one.bytes + length rest.bytes =
        length-append one.bytes rest.bytes in
      let to = pos + length (one.bytes ++ rest.bytes) in
      (
        omega arith,
        omega (arith, length-append one.relas rest.relas),
        Within-append pos to one.relas rest.relas
            (Within-mono one.relas (omega arith) (omega arith) fits.inside)
            (Within-mono rest.relas (omega arith) (omega arith) inside),
      )

  -- The text keeps to 15 bytes and the relocations to 2 for each instruction, which is the room of
  -- the buffers, and every relocation changes bytes of the text only.
  pub assemble-inside :
      (is : List Instruction)
      → let out = assemble index is in
        (length out.bytes ≤ max_instr_len * length is)
        × (length out.relas ≤ max_instr_fields * length is)
        × Within 0 (length out.bytes) out.relas
  unfolding assemble
  assemble-inside is =
      let (short, few, inside) = assemble_from-inside is 0 in
      let out = assemble_from index 0 is in
      (short, few, Within-mono out.relas (omega arith) (omega arith) inside)
