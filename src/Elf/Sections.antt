-- ===== src/Elf/Sections.antt =====
-- The sections of the file that `write_elf` of bootstrap/x86_64_assembler.c writes.
use l.Prelude.{
  ℕ, ◌+◌, ◌*◌, ◌^◌, ◌≤◌, ◌<◌, ◌≡◌, ◌∙◌, ap, sym, ◌-◌, List, ◌++◌, append_assoc, Option, Chars,
  length, length-append, take, drop, arith, subst,
}
use l.Interface.{pad_size}
use l.Interface.Numbers.{pad_size_lem}
use l.Assembler.{Bytes, Binding, Instruction}
use l.Assembler.Bounds.{max_instr_len, max_instr_fields, assemble-inside}
use l.Elf.{BindingAug, measure_strtab, measure_symtab, write_symbols}
use l.Elf.Sizes.{write_symbols-measure}
use l.Elf.Image.{
  text_of, symbols_of, shstrtab_shdr, text_shdr, strtab_shdr, symtab_shdr, bss_shdr, rela_shdr,
  section_headers, write_elf,
}
use l.Elf.Structures.{
  shdr_bytes, sym_bytes, rela_bytes, all_bytes, ehdr_bytes, strvlen, shstrtab, symbol_at, buffer,
  max_elf_size, sh_count, unset,
}
use l.Elf.Layout.{
  length-all_bytes, length-shdr_bytes, length-sym_bytes, length-rela_bytes, length-ehdr_bytes,
  length-shstrtab, strvlen-shstrtab, length-set_label_values, Sections, Sections-of, length-buffer,
  found,
}

module _ (aug : Binding → BindingAug) (symbol_name : Binding → Option Chars) where
  -- The file header, the section headers and the names of the sections.
  head_bytes : (garbage : ℕ → ℕ) (is : List Instruction) (us ss : List Binding) → Bytes
  head_bytes garbage is us ss =
      (ehdr_bytes ++ all_bytes shdr_bytes (section_headers aug symbol_name is us ss))
      ++ buffer garbage (pad_size (strvlen shstrtab) 8) (take (strvlen shstrtab) shstrtab)

  length-head_bytes :
      (garbage : ℕ → ℕ) (is : List Instruction) (us ss : List Binding)
      → length (head_bytes garbage is us ss) ≡ 64 + sh_count * 64 + pad_size (strvlen shstrtab) 8
  unfolding head_bytes section_headers
  length-head_bytes garbage is us ss =
      let headers = section_headers aug symbol_name is us ss in
      let names = take (strvlen shstrtab) shstrtab in
      let size = pad_size (strvlen shstrtab) 8 in
      let (_, above, _) = pad_size_lem 49 8 (omega arith) (omega arith) in
      let enough : 49 ≤ size = rw strvlen-shstrtab above in
      omega (
        arith,
        length-append (ehdr_bytes ++ all_bytes shdr_bytes headers) (buffer garbage size names),
        length-append ehdr_bytes (all_bytes shdr_bytes headers),
        length-ehdr_bytes,
        length-all_bytes shdr_bytes 64 length-shdr_bytes headers,
        length-buffer garbage size names (omega (arith, length-shstrtab, strvlen-shstrtab)),
      )

  length-symbols_of :
      (is : List Instruction) (us ss : List Binding)
      → length (symbols_of aug symbol_name is us ss)
        ≡ length (write_symbols aug symbol_name is us ss).syms
  unfolding symbols_of
  length-symbols_of is us ss =
      let t = write_symbols aug symbol_name is us ss in
      length-set_label_values (symbol_at t.contexts) (text_of aug symbol_name is us ss).labels
        t.syms

  pub text_of-inside :
      (is : List Instruction) (us ss : List Binding)
      → let text = text_of aug symbol_name is us ss in
        (length text.bytes ≤ max_instr_len * length is)
        × (length text.relas ≤ max_instr_fields * length is)
  unfolding text_of
  text_of-inside is us ss =
      let (short, few, _) =
        assemble-inside (symbol_at (write_symbols aug symbol_name is us ss).contexts) is in
      (short, few)

  sections :
      (garbage : ℕ → ℕ) (is : List Instruction) (us ss : List Binding)
      → max_instr_len * length is + 8 < 2 ^ 64
      → measure_strtab aug symbol_name is us ss + 8 < 2 ^ 64
      → Sections
          (write_elf aug symbol_name garbage is us ss)
          (64 + sh_count * 64 + pad_size (strvlen shstrtab) 8)
          (pad_size (max_instr_len * length is) 8)
          (pad_size (measure_strtab aug symbol_name is us ss) 8)
          (24 * measure_symtab is us ss)
          (text_of aug symbol_name is us ss).bytes
          (write_symbols aug symbol_name is us ss).strtab
          (all_bytes sym_bytes (symbols_of aug symbol_name is us ss))
          (all_bytes rela_bytes (text_of aug symbol_name is us ss).relas)
  unfolding write_elf head_bytes
  sections garbage is us ss small small' =
      let text = (text_of aug symbol_name is us ss).bytes in
      let names = (write_symbols aug symbol_name is us ss).strtab in
      let symbols = all_bytes sym_bytes (symbols_of aug symbol_name is us ss) in
      let relas = all_bytes rela_bytes (text_of aug symbol_name is us ss).relas in
      let a = 64 + sh_count * 64 + pad_size (strvlen shstrtab) 8 in
      let n = pad_size (max_instr_len * length is) 8 in
      let m = pad_size (measure_strtab aug symbol_name is us ss) 8 in
      let k = 24 * measure_symtab is us ss in
      let head = head_bytes garbage is us ss in
      let headers = all_bytes shdr_bytes (section_headers aug symbol_name is us ss) in
      let section_names =
        buffer garbage (pad_size (strvlen shstrtab) 8) (take (strvlen shstrtab) shstrtab) in
      let rest =
        buffer garbage n text ++ (buffer garbage m names ++ (buffer garbage k symbols ++ relas)) in
      let (short, _) = text_of-inside is us ss in
      let (strtab_fits, symtab_fits) = write_symbols-measure aug symbol_name is us ss in
      let (_, above, _) = pad_size_lem (max_instr_len * length is) 8 (omega arith) small in
      let (_, above', _) =
        pad_size_lem (measure_strtab aug symbol_name is us ss) 8 (omega arith) small' in
      let size : length symbols ≡ 24 * length (symbols_of aug symbol_name is us ss) =
        length-all_bytes sym_bytes 24 length-sym_bytes (symbols_of aug symbol_name is us ss) in
      let same : head ++ rest ≡ write_elf aug symbol_name garbage is us ss =
        append_assoc (ehdr_bytes ++ headers) section_names rest
        ∙ append_assoc ehdr_bytes headers (section_names ++ rest) in
      subst (λ file. Sections file a n m k text names symbols relas) same
        (Sections-of garbage head text names symbols relas a n m k
          (length-head_bytes garbage is us ss) (omega arith) (omega arith)
          (omega (arith, length-symbols_of is us ss)))

  -- Where the sections behind the names of sections stand.
  pub sections_found :
      (garbage : ℕ → ℕ) (is : List Instruction) (us ss : List Binding)
      → max_instr_len * length is + 8 < 2 ^ 64
      → measure_strtab aug symbol_name is us ss + 8 < 2 ^ 64
      → let file = write_elf aug symbol_name garbage is us ss in
        let text = text_of aug symbol_name is us ss in
        let tables = write_symbols aug symbol_name is us ss in
        let symbols = all_bytes sym_bytes (symbols_of aug symbol_name is us ss) in
        let text_header = text_shdr aug symbol_name is us ss in
        let strtab_header = strtab_shdr aug symbol_name is us ss in
        let symtab_header = symtab_shdr aug symbol_name is us ss in
        let rela_header = rela_shdr aug symbol_name is us ss in
        (take text_header.sh_size (drop text_header.sh_offset file) ≡ text.bytes)
        × (take (length tables.strtab) (drop strtab_header.sh_offset file) ≡ tables.strtab)
        × (length tables.strtab ≤ strtab_header.sh_size)
        × (take (length symbols) (drop symtab_header.sh_offset file) ≡ symbols)
        × (length symbols ≤ symtab_header.sh_size)
        × (drop rela_header.sh_offset file ≡ all_bytes rela_bytes text.relas)
        × (length file ≡ rela_header.sh_offset + rela_header.sh_size)
        × (length file ≤ max_elf_size aug symbol_name is us ss)
  unfolding text_shdr strtab_shdr symtab_shdr bss_shdr rela_shdr max_elf_size
  sections_found garbage is us ss small small' =
      let found = sections garbage is us ss small small' in
      let (strtab_fits, symtab_fits) = write_symbols-measure aug symbol_name is us ss in
      let (_, few) = text_of-inside is us ss in
      let text = text_of aug symbol_name is us ss in
      let in_rela = found.in_rela in
      let file = write_elf aug symbol_name garbage is us ss in
      let bss_end =
        64
        + sh_count * 64
        + pad_size (strvlen shstrtab) 8
        + pad_size (max_instr_len * length is) 8
        + pad_size (measure_strtab aug symbol_name is us ss) 8
        + 24 * measure_symtab is us ss in
      let whole = found.whole in
      let size =
        length-all_bytes sym_bytes 24 length-sym_bytes (symbols_of aug symbol_name is us ss) in
      let rela_size = length-all_bytes rela_bytes 24 length-rela_bytes text.relas in
      (
        found.in_text,
        found.in_strtab,
        strtab_fits,
        found.in_symtab,
        omega (arith, size, length-symbols_of is us ss),
        ap (λ p. drop p file) (let e : bss_end + 0 ≡ bss_end = omega arith in e) ∙ in_rela,
        omega arith,
        omega arith,
      )

  -- The names of the sections stand where their header says.
  names_found :
      (garbage : ℕ → ℕ) (is : List Instruction) (us ss : List Binding)
      → take (shstrtab_shdr aug symbol_name).sh_size (
          drop
            (shstrtab_shdr aug symbol_name).sh_offset
            (write_elf aug symbol_name garbage is us ss))
        ≡ take (strvlen shstrtab) shstrtab
  unfolding write_elf shstrtab_shdr buffer section_headers
  names_found garbage is us ss =
      let headers = section_headers aug symbol_name is us ss in
      let names = take (strvlen shstrtab) shstrtab in
      let front = ehdr_bytes ++ all_bytes shdr_bytes headers in
      let rest =
        buffer garbage (pad_size (max_instr_len * length is) 8)
          (text_of aug symbol_name is us ss).bytes
        ++ (buffer garbage (pad_size (measure_strtab aug symbol_name is us ss) 8)
              (write_symbols aug symbol_name is us ss).strtab
            ++ (buffer garbage (24 * measure_symtab is us ss)
                  (all_bytes sym_bytes (symbols_of aug symbol_name is us ss))
                ++ all_bytes rela_bytes (text_of aug symbol_name is us ss).relas)) in
      let padding = unset garbage (pad_size (strvlen shstrtab) 8 - length names) in
      let file = write_elf aug symbol_name garbage is us ss in
      let place : 64 + sh_count * 64 ≡ length front = omega (
        arith,
        length-append ehdr_bytes (all_bytes shdr_bytes headers),
        length-ehdr_bytes,
        length-all_bytes shdr_bytes 64 length-shdr_bytes headers,
      ) in
      let split : file ≡ front ++ (names ++ (padding ++ rest)) =
        sym (append_assoc ehdr_bytes (all_bytes shdr_bytes headers) ((names ++ padding) ++ rest))
        ∙ ap (λ (bs : Bytes). front ++ bs) (append_assoc names padding rest) in
      ap (λ (n : ℕ). take n (drop (64 + sh_count * 64) file)) (sym length-shstrtab)
      ∙ found (64 + sh_count * 64) file front names (padding ++ rest) place split

  -- Each of the sections with bytes in the file stands where its header says: the names of sections,
  -- the text, the names of symbols and the symbols (these two up to what was written, within the size
  -- in the header) and the relocations, which end the file. The file fits the buffer of
  -- `max_elf_size` bytes. The sizes that C keeps in an `int` fit one.
  pub write_elf-sections :
      (garbage : ℕ → ℕ) (is : List Instruction) (us ss : List Binding)
      → max_instr_len * length is + 8 < 2 ^ 31
      → measure_strtab aug symbol_name is us ss + 8 < 2 ^ 31
      → max_elf_size aug symbol_name is us ss < 2 ^ 31
      → let file = write_elf aug symbol_name garbage is us ss in
        let text = text_of aug symbol_name is us ss in
        let tables = write_symbols aug symbol_name is us ss in
        let symbols = all_bytes sym_bytes (symbols_of aug symbol_name is us ss) in
        let names_header = shstrtab_shdr aug symbol_name in
        let text_header = text_shdr aug symbol_name is us ss in
        let strtab_header = strtab_shdr aug symbol_name is us ss in
        let symtab_header = symtab_shdr aug symbol_name is us ss in
        let rela_header = rela_shdr aug symbol_name is us ss in
        (take names_header.sh_size (drop names_header.sh_offset file)
          ≡ take (strvlen shstrtab) shstrtab)
        × (take text_header.sh_size (drop text_header.sh_offset file) ≡ text.bytes)
        × (take (length tables.strtab) (drop strtab_header.sh_offset file) ≡ tables.strtab)
        × (length tables.strtab ≤ strtab_header.sh_size)
        × (take (length symbols) (drop symtab_header.sh_offset file) ≡ symbols)
        × (length symbols ≤ symtab_header.sh_size)
        × (drop rela_header.sh_offset file ≡ all_bytes rela_bytes text.relas)
        × (length file ≡ rela_header.sh_offset + rela_header.sh_size)
        × (length file ≤ max_elf_size aug symbol_name is us ss)
        × (length file < 2 ^ 31)
  write_elf-sections garbage is us ss small small' whole =
      let (a, b, c, d, e, f, g, h) = sections_found garbage is us ss (omega arith) (omega arith) in
      (names_found garbage is us ss, a, b, c, d, e, f, g, h, omega arith)
