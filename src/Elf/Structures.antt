-- ===== src/Elf/Structures.antt =====
-- The structures of bootstrap/elf.c in memory, and the sizes in `write_elf`.
use l.Prelude.{
  ℕ, zero, suc, ◌+◌, ◌-◌, ◌*◌, ◌%◌, ◌==◌, ◌&&◌, if◌then◌else◌, List, [], ◌∷◌, ◌++◌, codes, length,
  Option, Chars,
}
use l.Interface.{pad_size}
use l.Assembler.{Bytes, Binding, Instruction, Rela, mem_write}
use l.Assembler.Bounds.{max_instr_len, max_instr_fields}
use l.Elf.{BindingAug, Sym, measure_strtab, measure_symtab}

-- An `Elf64_Shdr`.
pub record Shdr : Type 0 where
  pub sh_name : ℕ
  pub sh_type : ℕ
  pub sh_flags : ℕ
  pub sh_addr : ℕ
  pub sh_offset : ℕ
  pub sh_size : ℕ
  pub sh_link : ℕ
  pub sh_info : ℕ
  pub sh_addralign : ℕ
  pub sh_entsize : ℕ

-- The structures in memory.
unfoldable pub shdr_bytes : Shdr → Bytes
unfolding mem_write
shdr_bytes h =
    mem_write 4 h.sh_name
    ++ mem_write 4 h.sh_type
    ++ mem_write 8 h.sh_flags
    ++ mem_write 8 h.sh_addr
    ++ mem_write 8 h.sh_offset
    ++ mem_write 8 h.sh_size
    ++ mem_write 4 h.sh_link
    ++ mem_write 4 h.sh_info
    ++ mem_write 8 h.sh_addralign
    ++ mem_write 8 h.sh_entsize

unfoldable pub sym_bytes : Sym → Bytes
unfolding mem_write
sym_bytes s =
    mem_write 4 s.st_name
    ++ mem_write 1 s.st_info
    ++ mem_write 1 0
    ++ mem_write 2 s.st_shndx
    ++ mem_write 8 s.st_value
    ++ mem_write 8 s.st_size

unfoldable pub rela_bytes : Rela → Bytes
unfolding mem_write
rela_bytes r = mem_write 8 r.r_offset ++ mem_write 8 r.r_info ++ mem_write 8 r.r_addend

unfoldable pub all_bytes {ℓ} : {A : Type ℓ} → (A → Bytes) → List A → Bytes
all_bytes f [] = []
all_bytes f (x ∷ xs) = f x ++ all_bytes f xs

abbrev pub sh_count : ℕ
sh_count = 7

-- The `Elf64_Ehdr`: an object for x86-64 whose section headers follow it.
unfoldable pub ehdr_bytes : Bytes
unfolding mem_write
ehdr_bytes =
    0x7F ∷ b'E' ∷ b'L' ∷ b'F' ∷ 2 ∷ 1 ∷ 1 ∷ 0 ∷ 0 ∷ 0 ∷ 0 ∷ 0 ∷ 0 ∷ 0 ∷ 0 ∷ 0 ∷ []
    ++ mem_write 2 1
    ++ mem_write 2 62
    ++ mem_write 4 1
    ++ mem_write 8 0
    ++ mem_write 8 0
    ++ mem_write 8 64
    ++ mem_write 4 0
    ++ mem_write 2 64
    ++ mem_write 2 0
    ++ mem_write 2 0
    ++ mem_write 2 64
    ++ mem_write 2 sh_count
    ++ mem_write 2 1

-- The loop of `strvlen`, up to the first two zeros in a row.
unfoldable pub strvlen : Bytes → ℕ
strvlen (x ∷ y ∷ rest) = let more = suc (strvlen (y ∷ rest)) in if x == 0 && y == 0 then 1 else more
strvlen _ = 0

-- `SHSTRTAB`, with the zero that C puts behind a string.
abbrev pub shstrtab : Bytes
shstrtab =
    0
    ∷ (codes ".shstrtab"
        ++ 0
          ∷ (codes ".text"
              ++ 0
                ∷ (codes ".strtab"
                    ++ 0
                      ∷ (codes ".symtab"
                          ++ 0 ∷ (codes ".bss" ++ 0 ∷ (codes ".rela.text" ++ 0 ∷ 0 ∷ []))))))

-- `context` of a binding. A binding that has no symbol reads memory that nothing assigned; here it
-- has the undefined symbol's place.
unfoldable pub symbol_at : List (Binding × ℕ) → Binding → ℕ
symbol_at [] b = 0
symbol_at (c ∷ cs) b = if c.0 == b then c.1 else symbol_at cs b

-- `sym->st_value = ...`
unfoldable pub set_st_value : ℕ → ℕ → List Sym → List Sym
set_st_value i value [] = []
set_st_value zero value (s ∷ ss) =
    record {
      st_name = s.st_name;
      st_info = s.st_info;
      st_shndx = s.st_shndx;
      st_value = value;
      st_size = s.st_size;
    }
    ∷ ss
set_st_value (suc i) value (s ∷ ss) = s ∷ set_st_value i value ss

-- The values of the labels that `assemble` met, in their order.
unfoldable pub set_label_values : (Binding → ℕ) → List (Binding × ℕ) → List Sym → List Sym
unfolding set_st_value
set_label_values index [] syms = syms
set_label_values index (l ∷ ls) syms = set_label_values index ls (set_st_value (index l.0) l.1 syms)

-- `garbage` is what memory holds that nothing assigned.
module _ (garbage : ℕ → ℕ) where
  unfoldable pub unset : ℕ → Bytes
  unset zero = []
  unset (suc k) = (garbage k % 256) ∷ unset k

  -- A buffer of a size, whose front was assigned.
  unfoldable pub buffer : ℕ → Bytes → Bytes
  unfolding unset
  buffer size bs = bs ++ unset (size - length bs)

unfoldable pub max_elf_size :
    (Binding → BindingAug)
    → (Binding → Option Chars)
    → List Instruction
    → (undefined_bindings static_bindings : List Binding) → ℕ
unfolding measure_strtab measure_symtab strvlen
max_elf_size aug symbol_name is us ss =
    64
    + 64 * sh_count
    + pad_size (strvlen shstrtab) 8
    + pad_size (max_instr_len * length is) 8
    + pad_size (measure_strtab aug symbol_name is us ss) 8
    + 24 * measure_symtab is us ss
    + 24 * max_instr_fields * length is
