-- ===== src/Generator/Plain.antt =====
-- Stretches of the code of bootstrap/x86_64_generator.c that neither jump nor move the stack pointer.
use l.Prelude.{
  ℕ, ◌+◌, ◌*◌, ◌≡◌, refl, Bool, true, false, inl, inr, ◌==◌, ltb, ◌&&◌, not, Bool-cases, arith,
}
use l.Assembler.{
  Binding, Instruction, label, leaq_mdb_to_reg, movq_reg_to_mdb, movq_mdb_to_reg, jmp_rel, je_rel,
  pushq_reg, popq_reg, movq_reg_to_reg, orq_reg_to_reg, subq_imm_to_reg, addq_imm_to_reg,
  movq_imm_to_reg, jmp_to_reg, call_reg, leave, ret, rsp,
}
use l.Expression.{Expression, Expressions, none_left, also}
use l.Frames.{
  StorageType, absolute_storage, frame_relative_storage, top_relative_storage, nil_storage,
}
use l.Generator.{
  rax, rbp, r10, r11, Passes, Code, emit, is_parameter, word_of, load_by, store_by, address_by,
  make_load, make_store, make_load_address, make_store_continuation, generate_buffer_to_dest,
}
use l.Generator.Control.{sgenerate_symbols, sgenerate_literals, load_continuation}

-- A register that an instruction may change: one of the sixteen, but not the stack pointer.
unfoldable pub is_free : ℕ → Bool
is_free reg = ltb reg 16 && not (reg == rsp)

-- No label, no jump to a label, no change of the stack pointer, and no change of the frame pointer
-- but by a load.
unfoldable pub is_plain : Instruction → Bool
unfolding is_free
is_plain (label _) = false
is_plain (leaq_mdb_to_reg _ base dest) = ltb base 16 && is_free dest
is_plain (movq_reg_to_mdb src _ base) = ltb src 16 && ltb base 16
is_plain (movq_mdb_to_reg _ base dest) = ltb base 16 && is_free dest
is_plain (jmp_rel _) = false
is_plain (je_rel _) = false
is_plain (pushq_reg _) = false
is_plain (popq_reg _) = false
is_plain (movq_reg_to_reg src dest) = ltb src 16 && (is_free dest && not (dest == rbp))
is_plain (orq_reg_to_reg src dest) = ltb src 16 && is_free dest
is_plain (subq_imm_to_reg _ dest) = false
is_plain (addq_imm_to_reg _ dest) = false
is_plain (movq_imm_to_reg _ dest) = is_free dest
is_plain (jmp_to_reg reg) = ltb reg 16
is_plain (call_reg reg) = ltb reg 16
is_plain leave = false
is_plain ret = false

-- The code `t` is `s` with plain instructions behind it.
pub data Plain (s : Code) : Code → Type 0 where
  start : Plain s s
  more : {t : Code} (i : Instruction) → is_plain i ≡ true → Plain s t → Plain s (emit i t)

pub Plain-trans : {s t u : Code} → Plain s t → Plain t u → Plain s u
Plain-trans p start = p
Plain-trans p (more i h q) = more i h (Plain-trans p q)

-- What a load, a store and an address come to, by the type of the binding.
load_by-Plain :
    (type : StorageType) (at : ℕ) (b : Binding) (offset dest scratch : ℕ) {s : Code}
    → is_free dest ≡ true
    → is_free scratch ≡ true
    → Plain s (load_by type at b offset dest scratch s)
unfolding load_by is_plain
load_by-Plain frame_relative_storage at b offset dest scratch free free' = more _ free start
load_by-Plain absolute_storage at b offset dest scratch free free' =
    more _ (ground arith) (more _ free' start)
load_by-Plain top_relative_storage at b offset dest scratch free free' = more _ free start
load_by-Plain nil_storage at b offset dest scratch free free' = start

store_by-Plain :
    (type : StorageType) (at src : ℕ) (b : Binding) (offset scratch : ℕ) {s : Code}
    → ltb src 16 ≡ true
    → is_free scratch ≡ true
    → Plain s (store_by type at src b offset scratch s)
unfolding store_by is_plain
store_by-Plain frame_relative_storage at src b offset scratch lt free = more _ (ground arith) start
store_by-Plain absolute_storage at src b offset scratch lt free =
    more _ (ground arith) (more _ free start)
store_by-Plain top_relative_storage at src b offset scratch lt free = more _ (ground arith) start
store_by-Plain nil_storage at src b offset scratch lt free = start

address_by-Plain :
    (type : StorageType) (at : ℕ) (b : Binding) (dest : ℕ) {s : Code}
    → is_free dest ≡ true
    → Plain s (address_by type at b dest s)
unfolding address_by is_plain
address_by-Plain frame_relative_storage at b dest free = more _ free start
address_by-Plain absolute_storage at b dest free = more _ free start
address_by-Plain top_relative_storage at b dest free = more _ free start
address_by-Plain nil_storage at b dest free = start

module _ (p : Passes) where
  pub make_load-Plain :
      (b : Binding) (offset dest scratch : ℕ) {s : Code}
      → is_free dest ≡ true
      → is_free scratch ≡ true
      → Plain s (make_load p b offset dest scratch s)
  unfolding make_load
  make_load-Plain b offset dest scratch =
      load_by-Plain (p.fields.type_of b) (word_of (p.fields.offset_of b)) b offset dest scratch

  pub make_store-Plain :
      (src : ℕ) (b : Binding) (offset scratch : ℕ) {s : Code}
      → ltb src 16 ≡ true
      → is_free scratch ≡ true
      → Plain s (make_store p src b offset scratch s)
  unfolding make_store
  make_store-Plain src b offset scratch =
      store_by-Plain (p.fields.type_of b) (word_of (p.fields.offset_of b)) src b offset scratch

  pub make_load_address-Plain :
      (b : Binding) (dest : ℕ) {s : Code}
      → is_free dest ≡ true
      → Plain s (make_load_address p b dest s)
  unfolding make_load_address
  make_load_address-Plain b dest =
      address_by-Plain (p.fields.type_of b) (word_of (p.fields.offset_of b)) b dest

  pub make_store_continuation-Plain :
      (a : ℕ) (ref : Expression) {s : Code} → Plain s (make_store_continuation p a ref s)
  unfolding make_store_continuation is_free
  make_store_continuation-Plain a ref {s} =
      let field = λ (src k : ℕ) (t : Code) (lt : ltb src 16 ≡ true).
        make_store-Plain src (p.aug_of ref) (k * 8) r11 {s = t} lt refl in
      Plain-trans
        (Plain-trans
          (Plain-trans
            (Plain-trans (Plain-trans (field 3 4 s refl) (field 12 5 _ refl)) (field 13 3 _ refl))
            (Plain-trans (field 14 2 _ refl) (field 15 6 _ refl)))
          (make_load_address-Plain (p.cont_instr_of a) r10 refl))
        (Plain-trans (field 10 1 _ refl) (field 5 0 _ refl))

  pub generate_buffer_to_dest-Plain :
      (a : ℕ) (args : Expressions) (dest offset tmp_offset : ℕ) {s : Code}
      → ltb dest 16 ≡ true
      → Plain s (generate_buffer_to_dest p a args dest offset tmp_offset s)
  unfolding generate_buffer_to_dest is_plain is_free
  generate_buffer_to_dest-Plain a none_left dest offset tmp_offset lt = start
  generate_buffer_to_dest-Plain a (also t ts) dest offset tmp_offset lt =
      Plain-trans
        (more _ (ground arith) (make_load-Plain (p.temp_of a) tmp_offset rax r10 refl refl))
        (generate_buffer_to_dest-Plain a ts dest (offset + 8) (tmp_offset + 8) lt)

  pub sgenerate_symbols-Plain : (t : Expression) {s : Code} → Plain s (sgenerate_symbols p t s)
  unfolding sgenerate_symbols is_free
  sgenerate_symbols-Plain t =
      let b = p.aug_of t in
      elim (Bool-cases (is_parameter (p.target_of b) (p.symbol_of b))) [
        | inl loads ↦ rw loads (make_load-Plain b 0 rax r11 refl refl)
        | inr other ↦ rw other (make_load_address-Plain b rax refl)
      ]

pub sgenerate_literals-Plain : (value : ℕ) {s : Code} → Plain s (sgenerate_literals value s)
unfolding sgenerate_literals is_plain is_free
sgenerate_literals-Plain value = more _ refl start

pub load_continuation-Plain : {s : Code} → Plain s (load_continuation s)
unfolding load_continuation is_plain is_free
load_continuation-Plain = more _ refl (
    more _ refl
      (more _ refl (more _ refl (more _ refl (more _ refl (more _ refl (more _ refl start)))))))
