-- ===== src/Elf/Image.antt =====
-- `write_elf` of bootstrap/x86_64_assembler.c: the file that it writes.
use l.Prelude.{ℕ, ◌+◌, ◌*◌, List, [], ◌∷◌, ◌++◌, length, take, Option, Chars}
use l.Interface.{pad_size}
use l.Assembler.{Bytes, Binding, Instruction, Output, assemble}
use l.Assembler.Bounds.{max_instr_len}
use l.Elf.{BindingAug, Sym, measure_strtab, measure_symtab, local_symbols, write_symbols}
use l.Elf.Structures.{
  Shdr, shdr_bytes, sym_bytes, rela_bytes, all_bytes, sh_count, ehdr_bytes, strvlen, shstrtab,
  symbol_at, set_label_values, buffer,
}

module _ (aug : Binding → BindingAug) (symbol_name : Binding → Option Chars) where
  -- What is assembled, with the symbols' places.
  unfoldable pub text_of :
      List Instruction → (undefined_bindings static_bindings : List Binding) → Output
  unfolding write_symbols assemble symbol_at
  text_of is us ss = assemble (symbol_at (write_symbols aug symbol_name is us ss).contexts) is

  unfoldable pub symbols_of :
      List Instruction → (undefined_bindings static_bindings : List Binding) → List Sym
  unfolding write_symbols text_of set_label_values symbol_at
  symbols_of is us ss =
      let t = write_symbols aug symbol_name is us ss in
      set_label_values (symbol_at t.contexts) (text_of is us ss).labels t.syms

  unfoldable pub shstrtab_shdr : Shdr
  unfolding strvlen
  shstrtab_shdr = record {
    sh_name = 1;
    sh_type = 3;
    sh_flags = 0;
    sh_addr = 0;
    sh_offset = 64 + sh_count * 64;
    sh_size = strvlen shstrtab;
    sh_link = 0;
    sh_info = 0;
    sh_addralign = 0;
    sh_entsize = 0;
  }

  unfoldable pub text_shdr :
      List Instruction → (undefined_bindings static_bindings : List Binding) → Shdr
  unfolding shstrtab_shdr text_of strvlen
  text_shdr is us ss = record {
    sh_name = shstrtab_shdr.sh_name + 9 + 1;
    sh_type = 1;
    sh_flags = 6;
    sh_addr = 0;
    sh_offset = shstrtab_shdr.sh_offset + pad_size (strvlen shstrtab) 8;
    sh_size = length (text_of is us ss).bytes;
    sh_link = 0;
    sh_info = 0;
    sh_addralign = 1;
    sh_entsize = 0;
  }

  unfoldable pub strtab_shdr :
      List Instruction → (undefined_bindings static_bindings : List Binding) → Shdr
  unfolding text_shdr measure_strtab
  strtab_shdr is us ss = record {
    sh_name = (text_shdr is us ss).sh_name + 5 + 1;
    sh_type = 3;
    sh_flags = 0;
    sh_addr = 0;
    sh_offset = (text_shdr is us ss).sh_offset + pad_size (max_instr_len * length is) 8;
    sh_size = measure_strtab aug symbol_name is us ss;
    sh_link = 0;
    sh_info = 0;
    sh_addralign = 0;
    sh_entsize = 0;
  }

  unfoldable pub symtab_shdr :
      List Instruction → (undefined_bindings static_bindings : List Binding) → Shdr
  unfolding strtab_shdr measure_strtab measure_symtab local_symbols
  symtab_shdr is us ss = record {
    sh_name = (strtab_shdr is us ss).sh_name + 7 + 1;
    sh_type = 2;
    sh_flags = 0;
    sh_addr = 0;
    sh_offset =
        (strtab_shdr is us ss).sh_offset + pad_size (measure_strtab aug symbol_name is us ss) 8;
    sh_size = 24 * measure_symtab is us ss;
    sh_link = 3;
    sh_info = length (local_symbols aug symbol_name is ss).syms;
    sh_addralign = 0;
    sh_entsize = 24;
  }

  unfoldable pub bss_shdr :
      List Instruction → (undefined_bindings static_bindings : List Binding) → Shdr
  unfolding symtab_shdr write_symbols
  bss_shdr is us ss = record {
    sh_name = (symtab_shdr is us ss).sh_name + 7 + 1;
    sh_type = 8;
    sh_flags = 3;
    sh_addr = 0;
    sh_offset = (symtab_shdr is us ss).sh_offset + (symtab_shdr is us ss).sh_size;
    sh_size = (write_symbols aug symbol_name is us ss).bss_ptr;
    sh_link = 0;
    sh_info = 0;
    sh_addralign = 8;
    sh_entsize = 0;
  }

  unfoldable pub rela_shdr :
      List Instruction → (undefined_bindings static_bindings : List Binding) → Shdr
  unfolding bss_shdr text_of
  rela_shdr is us ss = record {
    sh_name = (bss_shdr is us ss).sh_name + 4 + 1;
    sh_type = 4;
    sh_flags = 0;
    sh_addr = 0;
    sh_offset = (bss_shdr is us ss).sh_offset + 0;
    sh_size = length (text_of is us ss).relas * 24;
    sh_link = 4;
    sh_info = 2;
    sh_addralign = 0;
    sh_entsize = 24;
  }

  -- The mandatory undefined section, and the others.
  unfoldable pub section_headers :
      List Instruction → (undefined_bindings static_bindings : List Binding) → List Shdr
  unfolding shstrtab_shdr text_shdr strtab_shdr symtab_shdr bss_shdr rela_shdr
  section_headers is us ss =
      record {
        sh_name = 0;
        sh_type = 0;
        sh_flags = 0;
        sh_addr = 0;
        sh_offset = 0;
        sh_size = 0;
        sh_link = 0;
        sh_info = 0;
        sh_addralign = 0;
        sh_entsize = 0;
      }
      ∷ shstrtab_shdr
      ∷ text_shdr is us ss
      ∷ strtab_shdr is us ss
      ∷ symtab_shdr is us ss
      ∷ bss_shdr is us ss
      ∷ rela_shdr is us ss
      ∷ []

  unfoldable pub write_elf :
      (garbage : ℕ → ℕ)
      → List Instruction
      → (undefined_bindings static_bindings : List Binding) → Bytes
  unfolding section_headers ehdr_bytes all_bytes shdr_bytes buffer text_of write_symbols symbols_of
      sym_bytes rela_bytes measure_strtab measure_symtab strvlen
  write_elf garbage is us ss =
      ehdr_bytes
      ++ (all_bytes shdr_bytes (section_headers is us ss)
          ++ (buffer garbage (pad_size (strvlen shstrtab) 8) (take (strvlen shstrtab) shstrtab)
              ++ (buffer garbage (pad_size (max_instr_len * length is) 8) (text_of is us ss).bytes
                  ++ (buffer garbage (pad_size (measure_strtab aug symbol_name is us ss) 8)
                        (write_symbols aug symbol_name is us ss).strtab
                      ++ (buffer garbage (24 * measure_symtab is us ss)
                            (all_bytes sym_bytes (symbols_of is us ss))
                          ++ all_bytes rela_bytes (text_of is us ss).relas)))))
