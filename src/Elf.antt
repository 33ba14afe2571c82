-- ===== src/Elf.antt =====
-- `write_elf` of bootstrap/x86_64_assembler.c with the structures of bootstrap/elf.c: the symbols
-- and their names. The tables `syms` and `strtab` up to the pointers into them are lists.
pub mod Sizes
pub mod Structures
pub mod Image
pub mod Layout
pub mod Sections
use l.Prelude.{
  ℕ, zero, suc, ◌+◌, ◌*◌, Bool, true, false, List, [], ◌∷◌, ◌++◌, Option, none, some, Chars, ◌==◌,
  ◌&&◌, if◌then◌else◌, length,
}
use l.Interface.{pad_size}
use l.Assembler.{Bytes, Binding, Instruction, label}

pub data Scope : Type 0 where
  local_scope global_scope : Scope

pub data State : Type 0 where
  undefined_state defined_state : State

-- A `struct binding_aug`, with the fields that `write_elf` reads.
pub record BindingAug : Type 0 where
  pub name : Option Chars
  pub size : ℕ
  pub scope : Scope
  pub state : State

unfoldable pub is_local : Scope → Bool
is_local local_scope = true
is_local global_scope = false

unfoldable pub is_defined : State → Bool
is_defined defined_state = true
is_defined undefined_state = false

unfoldable pub global_defined : BindingAug → Bool
unfolding is_local is_defined
global_defined a = if is_local a.scope then false else is_defined a.state

unfoldable pub global_undefined : BindingAug → Bool
unfolding is_local is_defined
global_undefined a = if is_local a.scope then false else if is_defined a.state then false else true

-- An `Elf64_Sym`; `st_other` is always 0.
pub record Sym : Type 0 where
  pub st_name : ℕ
  pub st_info : ℕ
  pub st_shndx : ℕ
  pub st_value : ℕ
  pub st_size : ℕ

-- `ELF64_ST_INFO(STB_LOCAL, STT_NOTYPE)` and `ELF64_ST_INFO(STB_GLOBAL, STT_NOTYPE)`
abbrev pub local_info : ℕ
local_info = 0

abbrev pub global_info : ℕ
global_info = 16

abbrev pub shn_undef : ℕ
shn_undef = 0

-- `strtab` up to `strtabptr`, `syms` up to `sym_ptr`, `bss_ptr`, and what is assigned to the fields
-- of the bindings, the last one in front: `context`, the place of their symbol, and `offset`.
pub record Tables : Type 0 where
  pub strtab : Bytes
  pub syms : List Sym
  pub bss_ptr : ℕ
  pub contexts : List (Binding × ℕ)
  pub offsets : List (Binding × ℕ)

-- The name's place in `strtab`, and `strtab` with the name at its end.
unfoldable pub put_name : Bytes → Option Chars → ℕ × Bytes
put_name strtab none = (0, strtab)
put_name strtab (some name) = (length strtab, strtab ++ (name ++ 0 ∷ []))

unfoldable pub put_symbol :
    Binding → Option Chars → (value size info shndx bss : ℕ) → Tables → Tables
unfolding put_name
put_symbol b name value size info shndx bss t = record {
  strtab = (put_name t.strtab name).1;
  syms =
      t.syms
      ++ record {
        st_name = (put_name t.strtab name).0;
        st_info = info;
        st_shndx = shndx;
        st_value = value;
        st_size = size;
      }
        ∷ [];
  bss_ptr = t.bss_ptr + bss;
  contexts = (b, length t.syms) ∷ t.contexts;
  offsets = t.offsets;
}

-- `bndg->offset = ...`
abbrev pub set_offset : Binding → ℕ → Tables → Tables
set_offset b offset t = record {
  strtab = t.strtab;
  syms = t.syms;
  bss_ptr = t.bss_ptr;
  contexts = t.contexts;
  offsets = (b, offset) ∷ t.offsets;
}

unfoldable pub name_size : Option Chars → ℕ
name_size none = 0
name_size (some name) = length name + 1

unfoldable pub count_labels : List Instruction → ℕ
count_labels [] = 0
count_labels (label b ∷ is) = suc (count_labels is)
count_labels (i ∷ is) = count_labels is

-- The mandatory undefined symbol, and the empty name.
abbrev pub first_tables : Tables
first_tables = record {
  strtab = 0 ∷ [];
  syms = record { st_name = 0; st_info = 0; st_shndx = 0; st_value = 0; st_size = 0 } ∷ [];
  bss_ptr = 0;
  contexts = [];
  offsets = [];
}

unfoldable pub is_global : Scope → Bool
unfolding is_local
is_global s = if is_local s then false else true

unfoldable pub measure_symtab :
    List Instruction → (undefined_bindings static_bindings : List Binding) → ℕ
unfolding count_labels
measure_symtab is undefined_bindings static_bindings =
    1 + (length undefined_bindings + length static_bindings) + count_labels is

-- `aug` is the structure behind a binding's address, and `symbol_name` the name of the symbol that
-- a label stands for, by its binding.
module _ (aug : Binding → BindingAug) (symbol_name : Binding → Option Chars) where
  unfoldable pub measure_names : List Binding → ℕ
  unfolding name_size
  measure_names [] = 0
  measure_names (b ∷ bs) = name_size (aug b).name + measure_names bs

  unfoldable pub measure_labels : List Instruction → ℕ
  unfolding name_size
  measure_labels [] = 0
  measure_labels (label b ∷ is) = name_size (symbol_name b) + measure_labels is
  measure_labels (i ∷ is) = measure_labels is

  unfoldable pub measure_strtab :
      List Instruction → (undefined_bindings static_bindings : List Binding) → ℕ
  unfolding measure_names measure_labels
  measure_strtab is undefined_bindings static_bindings =
      1 + measure_names undefined_bindings + measure_names static_bindings + measure_labels is

  -- A loop over bindings that have room in `.bss`.
  unfoldable pub static_symbols : (BindingAug → Bool) → (info : ℕ) → List Binding → Tables → Tables
  unfolding put_symbol
  static_symbols keep info [] t = t
  static_symbols keep info (b ∷ bs) t =
      let a = aug b in
      let put =
        set_offset b t.bss_ptr
          (put_symbol b a.name t.bss_ptr a.size info 5 (pad_size a.size 8) t) in
      static_symbols keep info bs (if keep a then put else t)

  unfoldable pub undefined_symbols : List Binding → Tables → Tables
  unfolding put_symbol global_undefined
  undefined_symbols [] t = t
  undefined_symbols (b ∷ bs) t =
      let a = aug b in
      let put = put_symbol b a.name 0 0 global_info shn_undef 0 t in
      undefined_symbols bs (if global_undefined a then put else t)

  -- A loop over the labels whose scope passes the test.
  unfoldable pub label_symbols : (Scope → Bool) → (info : ℕ) → List Instruction → Tables → Tables
  unfolding put_symbol
  label_symbols keep info [] t = t
  label_symbols keep info (label b ∷ is) t =
      let put = put_symbol b (symbol_name b) 0 0 info 2 0 t in
      label_symbols keep info is (if keep (aug b).scope then put else t)
  label_symbols keep info (i ∷ is) t = label_symbols keep info is t

  -- The symbols with local scope, which come first.
  unfoldable pub local_symbols : List Instruction → (static_bindings : List Binding) → Tables
  unfolding static_symbols label_symbols is_local
  local_symbols is static_bindings =
      label_symbols is_local local_info is
        (static_symbols (λ a. is_local a.scope) local_info static_bindings first_tables)

  unfoldable pub write_symbols :
      List Instruction → (undefined_bindings static_bindings : List Binding) → Tables
  unfolding local_symbols static_symbols undefined_symbols label_symbols is_global global_defined
  write_symbols is undefined_bindings static_bindings = label_symbols is_global global_info is (
      undefined_symbols undefined_bindings (
        static_symbols global_defined global_info static_bindings
          (local_symbols is static_bindings)))
