-- ===== src/Assembler/Operands.antt =====
-- The operands that bootstrap/x86_64_assembler.c writes, read back.
use l.Prelude.{
  ℕ, zero, suc, ◌+◌, ◌*◌, ◌/◌, ◌%◌, ◌^◌, ◌<◌, ◌≡◌, refl, Bool, true, false, [], ◌∷◌, ◌++◌, some,
  ◌==◌, ==_iff, inl, inr, Bool-cases, ◌||◌, if◌then◌else◌, arith, ap, ◌∙◌, sym,
}
use native.Mathlib.Nat.{div-div-eq-div-mul, div-add-mod, pow-suc, mul_assoc, mod-one}
use l.Assembler.{Bytes, mem_write, rex_prefix, modrm_byte, sib_byte, write_mr_instr, rsp, r12}
use l.Assembler.Bits.{
  rm_field, RexOf, ModrmOf, rex_prefix-RexOf, modrm_byte-2, modrm_byte-3, rm_field-of, reg_field-of,
  sib_byte-base,
}
use l.Assembler.Decode.{
  read_number, decode, decode_op, decode_modrm, by_modrm, in_memory, in_register, memory_operand,
  sib_operand, read_operand,
}

pub mod-mul : (v b : ℕ) → v % 256 + 256 * (v / 256 % b) ≡ v % (256 * b)
mod-mul v b =
    let q = v / (256 * b) in
    let same : b * (v / 256 / b) ≡ b * q = ap (λ n. b * n) (div-div-eq-div-mul v 256 b) in
    let product : 256 * b * q ≡ 256 * (b * q) = mul_assoc 256 b q in
    omega
      (arith, div-add-mod v 256, div-add-mod (v / 256) b, div-add-mod v (256 * b), same, product)

pub read_number-mem_write :
    (k v : ℕ) (rest : Bytes) → read_number k (mem_write k v ++ rest) ≡ some (v % 256 ^ k, rest)
unfolding read_number mem_write
read_number-mem_write zero v rest = ap (λ n. some (n, rest)) (sym (mod-one v))
read_number-mem_write (suc k) v rest = rw (read_number-mem_write k (v / 256) rest) (
    ap (λ n. some (n, rest))
      (mod-mul v (256 ^ k)
        ∙ ap (λ n. v % n)
            (let e : 256 * 256 ^ k ≡ 256 ^ suc k = omega (arith, pow-suc 256 k) in e)))

memory_operand-mem_write :
    (base v : ℕ) (rest : Bytes)
    → memory_operand base (mem_write 4 v ++ rest) ≡ some (in_memory (v % 2 ^ 32) base, rest)
unfolding memory_operand
memory_operand-mem_write base v rest = rw (read_number-mem_write 4 v rest) refl

sib_operand-sib_byte :
    (w : Bool) (reg rm v : ℕ) (rest : Bytes)
    → rm < 16
    → rm % 8 ≡ 4
    → (rex : ℕ) → RexOf w reg rm rex
    → sib_operand rex ((sib_byte rm % 256) ∷ (mem_write 4 v ++ rest))
      ≡ some (in_memory (v % 2 ^ 32) rm, rest)
unfolding sib_operand memory_operand rm_field RexOf
sib_operand-sib_byte w reg rm v rest lt low rex (_, _, _, b) =
    let (top, base) = sib_byte-base rm lt in
    let whole : rex % 2 * 8 + sib_byte rm % 256 % 8 ≡ rm = omega arith in
    rw (top, read_number-mem_write 4 v rest, whole) refl

-- The SIB byte is there for just the bases whose ModRM field says so.
has_sib-base : (rm : ℕ) → rm < 16 → ((rm == rsp || rm == r12) ≡ (rm % 8 == 4))
has_sib-base rm lt = ground arith

read_operand-memory :
    (w : Bool) (reg rm rex v : ℕ) (rest : Bytes)
    → reg < 16
    → rm < 16
    → RexOf w reg rm rex
    → read_operand rex (modrm_byte 2 reg rm % 256) (
        (if rm == rsp || rm == r12 then mem_write 1 (sib_byte rm) else [])
        ++ (mem_write 4 v ++ rest))
      ≡ some (in_memory (v % 2 ^ 32) rm, rest)
unfolding read_operand mem_write ModrmOf
read_operand-memory w reg rm rex v rest lt lt' prefix =
    let (top, hi, lo) = modrm_byte-2 reg rm lt lt' in
    let modrm = modrm_byte 2 reg rm % 256 in
    let base : rm_field rex modrm ≡ rm =
      rm_field-of w 2 reg rm rex modrm lt' prefix (top, hi, lo) in
    let field : (modrm % 8 == 4) ≡ (rm % 8 == 4) = ap (λ n. n == 4) lo in
    rw (top, field, has_sib-base rm lt')
      (elim (Bool-cases (rm % 8 == 4)) [
        | inl sib ↦
            rw sib (sib_operand-sib_byte w reg rm v rest lt' ((==_iff (rm % 8) 4).0 sib) rex prefix)
        | inr plain ↦ rw plain (
            memory_operand-mem_write (rm_field rex modrm) v rest
            ∙ ap (λ b. some (in_memory (v % 2 ^ 32) b, rest)) base)
      ])

-- An opcode that ModRM follows.
unfoldable pub TakesModrm : ℕ → Type 0
TakesModrm op = (rex : ℕ) (bs : Bytes) → decode_op rex ((op % 256) ∷ bs) ≡ decode_modrm rex op bs

width-wide : (w : Bool) (n : ℕ) → n ≡ (if w then 1 else 0) → (n == 1) ≡ w
width-wide true n h = ground arith
width-wide false n h = ground arith

pub decode-memory :
    (op reg rm v : ℕ) (rest : Bytes)
    → TakesModrm op
    → reg < 16
    → rm < 16
    → decode (write_mr_instr op reg rm true true ++ (mem_write 4 v ++ rest))
      ≡ by_modrm op true reg (in_memory (v % 2 ^ 32) rm) rest
unfolding decode decode_modrm write_mr_instr mem_write RexOf ModrmOf TakesModrm
decode-memory op reg rm v rest takes lt lt' =
    let rex = rex_prefix true reg rm % 256 in
    let modrm = modrm_byte 2 reg rm % 256 in
    let prefix : RexOf true reg rm rex = rex_prefix-RexOf true reg rm lt lt' in
    let fields : ModrmOf 2 reg rm modrm = modrm_byte-2 reg rm lt lt' in
    rw
      (
        prefix.0,
        takes rex _,
        read_operand-memory true reg rm rex v rest lt lt' prefix,
        reg_field-of true 2 reg rm rex modrm lt prefix fields,
        width-wide true (rex / 8 % 2) prefix.1,
      )
      refl

pub decode-register :
    (op reg rm : ℕ) (w : Bool) (rest : Bytes)
    → TakesModrm op
    → reg < 16
    → rm < 16
    → decode (write_mr_instr op reg rm false w ++ rest) ≡ by_modrm op w reg (in_register rm) rest
unfolding decode decode_modrm write_mr_instr mem_write RexOf ModrmOf TakesModrm read_operand
decode-register op reg rm w rest takes lt lt' =
    let rex = rex_prefix w reg rm % 256 in
    let modrm = modrm_byte 3 reg rm % 256 in
    let prefix : RexOf w reg rm rex = rex_prefix-RexOf w reg rm lt lt' in
    let fields : ModrmOf 3 reg rm modrm = modrm_byte-3 reg rm lt lt' in
    rw
      (
        prefix.0,
        takes rex _,
        fields.0,
        rm_field-of w 3 reg rm rex modrm lt' prefix fields,
        reg_field-of w 3 reg rm rex modrm lt prefix fields,
        width-wide w (rex / 8 % 2) prefix.1,
      )
      refl
