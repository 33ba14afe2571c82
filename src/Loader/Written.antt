-- ===== src/Loader/Written.antt =====
-- `read_object` of bootstrap/x86_64_object.c on the files of `write_elf` of
-- bootstrap/x86_64_assembler.c.
use l.Prelude.{
  ℕ, ◌+◌, ◌*◌, ◌^◌, ◌≤◌, ◌<◌, ◌≡◌, refl, List, [], ◌∷◌, ◌++◌, length, length-append, take, arith,
  ap, ◌∙◌, Option, Chars,
}
use mathlib.Core.List.{map}
use l.Result.{ok}
use l.Interface.{pad_size}
use l.Interface.Numbers.{pad_size_lem}
use l.Assembler.{Bytes, Binding, Instruction}
use l.Assembler.Bounds.{max_instr_len}
use l.Elf.{BindingAug, Sym, measure_strtab, measure_symtab, write_symbols}
use l.Elf.Structures.{
  Shdr, shdr_bytes, sym_bytes, rela_bytes, all_bytes, ehdr_bytes, strvlen, shstrtab, buffer,
}
use l.Elf.Layout.{length-ehdr_bytes, strvlen-shstrtab}
use l.Elf.Image.{
  text_of, symbols_of, shstrtab_shdr, text_shdr, strtab_shdr, symtab_shdr, bss_shdr, rela_shdr,
  section_headers, write_elf,
}
use l.Elf.Sections.{sections_found, text_of-inside}
use l.Loader.{ByteMap, Section, store_bytes}
use l.Loader.Read.{number_at, is_elf, read_object}
use l.Loader.Numbers.{cut_shdr, cut_sym, cut_rela}
use l.Loader.Stored.{
  Inside, written_bytes, placed, ehdr_read, read_object_from, plain_read, bss_read, symtab_read,
  rela_read,
}
use l.Loader.Headers.{read_headers, read_sections-headers, read_headers_first, plain_section}

module _ (aug : Binding → BindingAug) (symbol_name : Binding → Option Chars) where
  sections-Inside :
      (garbage : ℕ → ℕ) (is : List Instruction) (us ss : List Binding)
      → max_instr_len * length is + 8 < 2 ^ 64
      → measure_strtab aug symbol_name is us ss + 8 < 2 ^ 64
      → let file = write_elf aug symbol_name garbage is us ss in
        Inside (shstrtab_shdr aug symbol_name) file
        × Inside (text_shdr aug symbol_name is us ss) file
        × Inside (strtab_shdr aug symbol_name is us ss) file
        × Inside (symtab_shdr aug symbol_name is us ss) file
        × Inside (rela_shdr aug symbol_name is us ss) file
  unfolding shstrtab_shdr text_shdr strtab_shdr symtab_shdr bss_shdr rela_shdr
  sections-Inside garbage is us ss small small' =
      let found = sections_found aug symbol_name garbage is us ss small small' in
      let whole = found.6 in
      let (short, _) = text_of-inside aug symbol_name is us ss in
      let (_, above, _) = pad_size_lem 49 8 (omega arith) (omega arith) in
      let above1 : strvlen shstrtab ≤ pad_size (strvlen shstrtab) 8 = rw strvlen-shstrtab above in
      let (_, above2, _) = pad_size_lem (max_instr_len * length is) 8 (omega arith) small in
      let (_, above3, _) =
        pad_size_lem (measure_strtab aug symbol_name is us ss) 8 (omega arith) small' in
      (omega arith, omega arith, omega arith, omega arith, omega arith)

  -- The header of the undefined section.
  abbrev null_shdr : Shdr
  null_shdr = record {
    sh_name = 0;
    sh_type = 0;
    sh_flags = 0;
    sh_addr = 0;
    sh_offset = 0;
    sh_size = 0;
    sh_link = 0;
    sh_info = 0;
    sh_addralign = 0;
    sh_entsize = 0;
  }

  -- The sections of the object, with the symbols behind those that were written.
  unfoldable pub read_back :
      (place : ℕ → ℕ) (is : List Instruction) (us ss : List Binding) (rest : List Sym)
      → List Section
  unfolding symbols_of text_of
  read_back place is us ss rest =
      plain_section (cut_shdr null_shdr) (place 0)
      ∷ plain_section (cut_shdr (shstrtab_shdr aug symbol_name)) (place 1)
      ∷ plain_section (cut_shdr (text_shdr aug symbol_name is us ss)) (place 2)
      ∷ plain_section (cut_shdr (strtab_shdr aug symbol_name is us ss)) (place 3)
      ∷ record {
        shdr = cut_shdr (symtab_shdr aug symbol_name is us ss);
        seg = place 4;
        syms = map cut_sym (symbols_of aug symbol_name is us ss) ++ rest;
        relas = [];
        addends = [];
      }
      ∷ plain_section (cut_shdr (bss_shdr aug symbol_name is us ss)) (place 5)
      ∷ record {
        shdr = cut_shdr (rela_shdr aug symbol_name is us ss);
        seg = place 6;
        syms = [];
        relas = map cut_rela (text_of aug symbol_name is us ss).relas;
        addends = [];
      }
      ∷ []

  headers_back :
      (garbage : ℕ → ℕ) (is : List Instruction) (us ss : List Binding) (unset : ℕ) (place : ℕ → ℕ)
      (m : ByteMap)
      → max_instr_len * length is + 8 < 2 ^ 64
      → measure_strtab aug symbol_name is us ss + 8 < 2 ^ 64
      → length (write_elf aug symbol_name garbage is us ss) < 2 ^ 64
      → let file = write_elf aug symbol_name garbage is us ss in
        let headers = section_headers aug symbol_name is us ss in
        (rest : List Sym) × (read_headers file unset place (map cut_shdr headers) 0 m
          ≡ ok (read_back place is us ss rest, placed file place headers 0 m))
  unfolding section_headers read_back placed read_headers shstrtab_shdr text_shdr strtab_shdr
      symtab_shdr bss_shdr rela_shdr
  headers_back garbage is us ss unset place m small small' fits =
      let file = write_elf aug symbol_name garbage is us ss in
      let found = sections_found aug symbol_name garbage is us ss small small' in
      let (in1, in2, in3, in4, in6) = sections-Inside garbage is us ss small small' in
      let h1 = shstrtab_shdr aug symbol_name in
      let h2 = text_shdr aug symbol_name is us ss in
      let h3 = strtab_shdr aug symbol_name is us ss in
      let h4 = symtab_shdr aug symbol_name is us ss in
      let h5 = bss_shdr aug symbol_name is us ss in
      let h6 = rela_shdr aug symbol_name is us ss in
      let m1 = store_bytes (place 0) (written_bytes file null_shdr) m in
      let m2 = store_bytes (place 1) (written_bytes file h1) m1 in
      let m3 = store_bytes (place 2) (written_bytes file h2) m2 in
      let m4 = store_bytes (place 3) (written_bytes file h3) m3 in
      let m5 = store_bytes (place 4) (written_bytes file h4) m4 in
      let m6 = store_bytes (place 5) (written_bytes file h5) m5 in
      let e0 = plain_read file unset (place 0) null_shdr m refl refl refl refl (omega arith) fits in
      let e1 = plain_read file unset (place 1) h1 m1 refl refl refl refl in1 fits in
      let e2 = plain_read file unset (place 2) h2 m2 refl refl refl refl in2 fits in
      let e3 = plain_read file unset (place 3) h3 m3 refl refl refl refl in3 fits in
      let (rest, e4) =
        symtab_read file unset (place 4) (measure_symtab is us ss) h4
          (symbols_of aug symbol_name is us ss) m4 refl refl refl found.3 found.4 in4 fits in
      let e5 = bss_read file unset (place 5) h5 m5 refl in
      let e6 =
        rela_read file unset (place 6) h6 (text_of aug symbol_name is us ss).relas m6 refl refl refl
          found.5 in6 fits in
      let t5 = cut_shdr h6 ∷ [] in
      let t4 = cut_shdr h5 ∷ t5 in
      let t3 = cut_shdr h4 ∷ t4 in
      let t2 = cut_shdr h3 ∷ t3 in
      let t1 = cut_shdr h2 ∷ t2 in
      let t0 = cut_shdr h1 ∷ t1 in
      let first = read_headers_first file unset place in
      (
        rest,
        first (cut_shdr null_shdr) t0 0 m m1 _ _ _ e0 (
            first (cut_shdr h1) t1 1 m1 m2 _ _ _ e1 (
              first (cut_shdr h2) t2 2 m2 m3 _ _ _ e2 (
                first (cut_shdr h3) t3 3 m3 m4 _ _ _ e3 (
                  first (cut_shdr h4) t4 4 m4 m5 _ _ _ e4 (
                    first (cut_shdr h5) t5 5 m5 m6 _ _ _ e5
                      (first (cut_shdr h6) [] 6 m6 _ _ _ [] e6 refl)))))),
      )

  -- The header, the headers of sections, and the sections.
  write_elf-split :
      (garbage : ℕ → ℕ) (is : List Instruction) (us ss : List Binding)
      → (tail : Bytes) × (write_elf aug symbol_name garbage is us ss
          ≡ ehdr_bytes ++ (all_bytes shdr_bytes (section_headers aug symbol_name is us ss) ++ tail))
  unfolding write_elf
  write_elf-split garbage is us ss = (
    buffer garbage (pad_size (strvlen shstrtab) 8) (take (strvlen shstrtab) shstrtab)
        ++ (buffer garbage (pad_size (max_instr_len * length is) 8)
              (text_of aug symbol_name is us ss).bytes
            ++ (buffer garbage (pad_size (measure_strtab aug symbol_name is us ss) 8)
                  (write_symbols aug symbol_name is us ss).strtab
                ++ (buffer garbage (24 * measure_symtab is us ss)
                      (all_bytes sym_bytes (symbols_of aug symbol_name is us ss))
                    ++ all_bytes rela_bytes (text_of aug symbol_name is us ss).relas))),
    refl,
  )

  -- The object file that `write_elf` writes is read back: `read_object` finds the seven sections
  -- under the headers that were written, the symbols (and after them what the table has room for)
  -- and the relocations, each number cut to its field, and copies the bytes of each section to its
  -- segment. The sizes before padding are below `2 ^ 64 - 8`, and the size of the file is below
  -- `2 ^ 64`.
  pub read_object-write_elf :
      (garbage : ℕ → ℕ) (is : List Instruction) (us ss : List Binding) (unset : ℕ) (place : ℕ → ℕ)
      (m : ByteMap)
      → max_instr_len * length is + 8 < 2 ^ 64
      → measure_strtab aug symbol_name is us ss + 8 < 2 ^ 64
      → length (write_elf aug symbol_name garbage is us ss) < 2 ^ 64
      → let file = write_elf aug symbol_name garbage is us ss in
        (rest : List Sym) × (read_object file unset place m
          ≡ ok (
            record { e_shstrndx = 1; sections = read_back place is us ss rest },
            placed file place (section_headers aug symbol_name is us ss) 0 m,
          ))
  unfolding section_headers
  read_object-write_elf garbage is us ss unset place m small small' fits =
      let file = write_elf aug symbol_name garbage is us ss in
      let headers = section_headers aug symbol_name is us ss in
      let (tail, split) = write_elf-split garbage is us ss in
      let later = all_bytes shdr_bytes headers ++ tail in
      let (elf, e1, e2, e3, e4) = ehdr_read later in
      let (rest, back) = headers_back garbage is us ss unset place m small small' fits in
      let long : 64 ≤ length file =
        omega (arith, ap length split, length-append ehdr_bytes later, length-ehdr_bytes) in
      let at = λ (i w : ℕ). ap (λ (bs : Bytes). number_at bs i w) split in
      (
        rest,
        read_object_from file unset 64 64 7 1 place m
            (placed file place (section_headers aug symbol_name is us ss) 0 m)
            (read_back place is us ss rest) long (ap is_elf split ∙ elf) (at 40 8 ∙ e1)
            (at 58 2 ∙ e2) (at 60 2 ∙ e3) (at 62 2 ∙ e4)
            (read_sections-headers file unset place headers ehdr_bytes tail 0 m split
                (omega (arith, length-ehdr_bytes))
              ∙ back),
      )
