-- ===== src/Loader/Errors.antt =====
-- The errors of `read_object` of bootstrap/x86_64_object.c.
use l.Prelude.{
  ℕ, zero, suc, ◌+◌, ◌*◌, ◌<◌, ◌≡◌, ◌↔◌, ◌⊎◌, inl, inr, refl, Bool, true, false, Option, none, some,
  length, drop, ltb, leb, arith, ◌==◌, ◌||◌, Bool-cases,
}
use l.Result.{
  Error, object, Result, ok, thrown, Ensures, returns, throws, faults, Ensures-bind, Ensures-if,
  Ensures-thrown,
}
use l.Assembler.{Bytes}
use l.Assembler.Decode.{read_number}
use l.Elf.Structures.{Shdr}
use l.Loader.{ByteMap, sht_symtab, sht_rela, sht_rel, sht_nobits}
use l.Loader.Read.{
  first_number, number_at, block_at, shdr_at, sym_at, rela_at, table_at, entry_count, section_of,
  segment_bytes, read_section, read_sections, is_elf, read_object,
}

-- A run that throws only errors of a kind.
module _ (E : Error → Type 0) where
  abbrev Throws : {A : Type 0} → Result A → Type 0
  Throws r = Ensures (λ _. Unit) E Unit r

  done : {A : Type 0} {a : A} → Throws (ok a)
  done = returns tt

  first_number-Throws : (r : Option (ℕ × Bytes)) → Throws (first_number r)
  unfolding first_number
  first_number-Throws none = (faults tt)
  first_number-Throws (some r) = done

  number_at-Throws : (bs : Bytes) (offset width : ℕ) → Throws (number_at bs offset width)
  unfolding number_at
  number_at-Throws bs offset width = first_number-Throws (read_number width (drop offset bs))

  block_at-Throws : (bs : Bytes) (offset size : ℕ) → Throws (block_at bs offset size)
  unfolding block_at
  block_at-Throws bs offset size =
      Ensures-if (leb (offset + size) (length bs)) (λ _. done) (λ _. (faults tt))

  shdr_at-Throws : (bs : Bytes) (at : ℕ) → Throws (shdr_at bs at)
  unfolding shdr_at
  shdr_at-Throws bs at =
      let field = λ (offset width : ℕ). number_at-Throws bs offset width in
      Ensures-bind (field at 4) λ _ _. Ensures-bind (field (at + 4) 4) λ _ _.
        Ensures-bind (field (at + 8) 8) λ _ _. Ensures-bind (field (at + 16) 8) λ _ _.
          Ensures-bind (field (at + 24) 8) λ _ _. Ensures-bind (field (at + 32) 8) λ _ _.
            Ensures-bind (field (at + 40) 4) λ _ _. Ensures-bind (field (at + 44) 4) λ _ _.
              Ensures-bind (field (at + 48) 8) λ _ _. Ensures-bind (field (at + 56) 8) λ _ _. done

  sym_at-Throws : (bs : Bytes) (at : ℕ) → Throws (sym_at bs at)
  unfolding sym_at
  sym_at-Throws bs at =
      let field = λ (offset width : ℕ). number_at-Throws bs offset width in
      Ensures-bind (field at 4) λ _ _. Ensures-bind (field (at + 4) 1) λ _ _.
        Ensures-bind (field (at + 6) 2)
          λ _ _. Ensures-bind (field (at + 8) 8) λ _ _. Ensures-bind (field (at + 16) 8) λ _ _. done

  rela_at-Throws : (own : Bool) (unset : ℕ) (bs : Bytes) (at : ℕ) → Throws (rela_at own unset bs at)
  unfolding rela_at
  rela_at-Throws own unset bs at =
      let field = λ (offset width : ℕ). number_at-Throws bs offset width in
      Ensures-bind (field at 8) λ _ _.
        Ensures-bind (field (at + 8) 8)
          λ _ _. Ensures-bind (Ensures-if own (λ _. field (at + 16) 8) (λ _. done)) λ _ _. done

  table_at-Throws :
      {A : Type 0} (entry : ℕ → Result A) (entsize count i : ℕ)
      → ((at : ℕ) → Throws (entry at))
      → Throws (table_at entry entsize count i)
  unfolding table_at
  table_at-Throws entry entsize zero i each = done
  table_at-Throws entry entsize (suc count) i each =
      Ensures-bind (each (entsize * i))
        λ _ _. Ensures-bind (table_at-Throws entry entsize count (suc i) each) λ _ _. done

  entry_count-Throws : (h : Shdr) → Throws (entry_count h)
  unfolding entry_count
  entry_count-Throws h = Ensures-if (h.sh_entsize == 0) (λ _. (faults tt)) (λ _. done)

  section_of-Throws :
      (unset : ℕ) (h : Shdr) (seg : ℕ) (bytes : Bytes) → Throws (section_of unset h seg bytes)
  unfolding section_of
  section_of-Throws unset h seg bytes =
      let count = entry_count-Throws h in
      let own = h.sh_type == sht_rela in
      Ensures-if (h.sh_type == sht_symtab)
        (λ _. Ensures-bind count λ n _.
          Ensures-bind (table_at-Throws (sym_at bytes) h.sh_entsize n 0 (sym_at-Throws bytes))
            λ _ _. done)
        (λ _.
          Ensures-if (h.sh_type == sht_rela || h.sh_type == sht_rel)
            (λ _. Ensures-bind count λ n _.
              Ensures-bind
                (table_at-Throws (rela_at own unset bytes) h.sh_entsize n 0
                  (rela_at-Throws own unset bytes))
                λ _ _. done)
            (λ _. done))

  read_section-Throws :
      (file : Bytes) (unset : ℕ) (h : Shdr) (seg : ℕ) (m : ByteMap)
      → Throws (read_section file unset h seg m)
  unfolding read_section segment_bytes
  read_section-Throws file unset h seg m =
      Ensures-bind
        (Ensures-if (h.sh_type == sht_nobits) (λ _. done)
          (λ _. block_at-Throws file h.sh_offset h.sh_size))
        λ bytes _. Ensures-bind (section_of-Throws unset h seg bytes) λ _ _. done

  read_sections-Throws :
      (file : Bytes) (unset : ℕ) (place : ℕ → ℕ) (shoff entsize count sec : ℕ) (m : ByteMap)
      → Throws (read_sections file unset place shoff entsize count sec m)
  unfolding read_sections
  read_sections-Throws file unset place shoff entsize zero sec m = done
  read_sections-Throws file unset place shoff entsize (suc count) sec m =
      Ensures-bind (shdr_at-Throws file (shoff + entsize * sec)) λ h _.
        Ensures-bind (read_section-Throws file unset h (place sec) m) λ first _.
          Ensures-bind (read_sections-Throws file unset place shoff entsize count (suc sec) first.1)
            λ _ _. done

  read_object-Throws :
      (file : Bytes) (unset : ℕ) (place : ℕ → ℕ) (m : ByteMap)
      → (ltb (length file) 64 ≡ true → E object)
      → (is_elf file ≡ false → E object)
      → Throws (read_object file unset place m)
  unfolding read_object
  read_object-Throws file unset place m short not_elf =
      let field = λ (offset width : ℕ). number_at-Throws file offset width in
      Ensures-if (ltb (length file) 64) (λ h. throws (short h))
        (λ _.
          Ensures-if (is_elf file)
            (λ _. Ensures-bind (field 40 8) λ shoff _. Ensures-bind (field 58 2) λ entsize _.
              Ensures-bind (field 60 2) λ count _. Ensures-bind (field 62 2) λ _ _.
                Ensures-bind (read_sections-Throws file unset place shoff entsize count 0 m)
                  λ _ _. done)
            (λ h. throws (not_elf h)))

is_short : (n : ℕ) → (ltb n 64 ≡ true) ↔ (n < 64)
is_short n = (λ h. ground arith, λ h. ground arith)

-- `read_object` throws just the error `object`, and just where the file is shorter than its header or
-- fails the checks of `e_ident`.
pub read_object-thrown :
    (file : Bytes) (unset : ℕ) (place : ℕ → ℕ) (m : ByteMap) (e : Error)
    → (read_object file unset place m ≡ thrown e)
      ↔ ((e ≡ object) × ((length file < 64) ⊎ (is_elf file ≡ false)))
unfolding read_object
read_object-thrown file unset place m e = (
  Ensures-thrown (
      read_object-Throws (λ e. (e ≡ object) × ((length file < 64) ⊎ (is_elf file ≡ false))) file
        unset place m (λ h. (refl, inl ((is_short (length file)).0 h))) (λ h. (refl, inr h))),
  λ (same, why). elim why [
    | inl short ↦ rw ((is_short (length file)).1 short, same) refl
    | inr not_elf ↦ elim (Bool-cases (ltb (length file) 64)) [
      | inl short ↦ rw (short, same) refl
      | inr long ↦ rw (long, not_elf, same) refl
    ]
  ],
)
