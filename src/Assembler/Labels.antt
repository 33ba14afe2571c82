-- ===== src/Assembler/Labels.antt =====
-- The places that `assemble` of bootstrap/x86_64_assembler.c records for labels.
use l.Prelude.{
  ℕ, ◌+◌, ◌≡◌, refl, true, List, [], ◌∷◌, ◌++◌, some, arith, append_assoc, sym, length,
  length-append, subst,
}
use mathlib.Core.List.{Mem, mem-append_right, mem-cons_self}
use l.Assembler.{Bytes, Binding, Instruction, label, assemble_one, assemble_from, assemble}
use l.Assembler.Stream.{disassemble, code, all_registers, assemble_from-disassemble}

module _ (index : Binding → ℕ) where
  -- The output of a stream is that of its front and, from there on, that of the rest.
  assemble_from-append :
      (xs ys : List Instruction) (pos : ℕ)
      → let front = assemble_from index pos xs in
        let back = assemble_from index (pos + length front.bytes) ys in
        let whole = assemble_from index pos (xs ++ ys) in
        (whole.bytes ≡ front.bytes ++ back.bytes) × (whole.labels ≡ front.labels ++ back.labels)
  unfolding assemble_from
  assemble_from-append [] ys pos = let e : pos + 0 ≡ pos = omega arith in rw e (refl, refl)
  assemble_from-append (x ∷ xs) ys pos =
      let one = assemble_one index pos x in
      let next = pos + length one.bytes in
      let front = assemble_from index next xs in
      let e : pos + length (one.bytes ++ front.bytes) ≡ next + length front.bytes =
        omega (arith, length-append one.bytes front.bytes) in
      let (bytes, labels) = assemble_from-append xs ys next in
      rw (e, bytes, labels) (sym (append_assoc one.bytes _ _), sym (append_assoc one.labels _ _))

  all_registers-append :
      (xs ys : List Instruction) → all_registers (xs ++ ys) ≡ true → all_registers ys ≡ true
  unfolding all_registers
  all_registers-append [] ys h = h
  all_registers-append (x ∷ xs) ys h = all_registers-append xs ys (ground arith)

  -- A label stands for the place where the instructions behind it begin: the place that is recorded
  -- for it is the length of some front of the output, and the output behind that front is read back
  -- as the instructions behind the label, where every register is one of the sixteen.
  pub assemble-label :
      (xs ys : List Instruction) (b : Binding)
      → all_registers (xs ++ label b ∷ ys) ≡ true
      → let out = assemble index (xs ++ label b ∷ ys) in
        (front back : Bytes) × (out.bytes ≡ front ++ back)
        × Mem (b, length front) out.labels
        × (disassemble (length ys) back ≡ some (code ys))
  unfolding assemble assemble_from assemble_one all_registers
  assemble-label xs ys b regs =
      let front = assemble_from index 0 xs in
      let (bytes, labels) = assemble_from-append xs (label b ∷ ys) 0 in
      let kept = all_registers-append xs (label b ∷ ys) regs in
      (
        front.bytes,
        (assemble_from index (0 + length front.bytes + 0) ys).bytes,
        bytes,
        subst (λ ls. Mem (b, length front.bytes) ls) (sym labels)
            (mem-append_right front.labels (
              let e : 0 + length front.bytes ≡ length front.bytes = omega arith in
              rw e mem-cons_self)),
        assemble_from-disassemble index ys _ (length ys) kept (omega arith),
      )
