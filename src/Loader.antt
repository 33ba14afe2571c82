-- ===== src/Loader.antt =====
-- bootstrap/x86_64_object.c: an object file in memory, its relocations and its bindings.
-- The memory is a function from addresses to bytes; what the structures of `Object` hold beside it
-- (headers, symbols, relocations, addends) is a list of sections.
pub mod Bindings
pub mod Read
pub mod Numbers
pub mod Tables
pub mod Stored
pub mod Written
pub mod Headers
pub mod Memory
pub mod Jobs
pub mod Places
pub mod Resolved
pub mod Again
pub mod Mutate
pub mod Revalue
pub mod Listed
pub mod Errors
use l.Prelude.{
  ℕ, zero, suc, ◌+◌, ◌-◌, ◌*◌, ◌/◌, ◌%◌, ◌^◌, Bool, true, false, List, [], ◌∷◌, ◌++◌, Option, none,
  some, Chars, ◌==◌, ◌&&◌, ◌||◌, if◌then◌else◌, get_elem?,
}
use l.Result.{Result, ok, thrown, undefined, ◌>>=◌, object}
use l.Assembler.{Bytes, Rela, mem_write}
use l.Elf.{Sym}
use l.Elf.Structures.{Shdr}

-- The bytes at addresses.
abbrev pub ByteMap : Type 0
ByteMap = ℕ → ℕ

unfoldable pub store_byte : ℕ → ℕ → ByteMap → ByteMap
store_byte a v m x = if x == a then v else m x

-- `memcpy` of bytes to an address.
unfoldable pub store_bytes : ℕ → Bytes → ByteMap → ByteMap
unfolding store_byte
store_bytes a [] m = m
store_bytes a (v ∷ vs) m = store_bytes (a + 1) vs (store_byte a v m)

-- A number of `n` bytes at an address, the low byte first.
unfoldable pub load_number : (n : ℕ) → ℕ → ByteMap → ℕ
load_number zero a m = 0
load_number (suc n) a m = m a + 256 * load_number n (a + 1) m

-- What `Object` holds for one index: the header of a section, the address of its segment, and its
-- symbols, or its relocations with their addends.
pub record Section : Type 0 where
  pub shdr : Shdr
  pub seg : ℕ
  pub syms : List Sym
  pub relas : List Rela
  pub addends : List ℕ

pub record Object : Type 0 where
  pub e_shstrndx : ℕ
  pub sections : List Section

abbrev pub sht_symtab : ℕ
sht_symtab = 2

abbrev pub sht_rela : ℕ
sht_rela = 4

abbrev pub sht_nobits : ℕ
sht_nobits = 8

abbrev pub sht_rel : ℕ
sht_rel = 9

abbrev pub shn_abs : ℕ
shn_abs = 0xFFF1

abbrev pub shn_common : ℕ
shn_common = 0xFFF2

-- `ELF64_R_SYM` and `ELF64_R_TYPE`
unfoldable pub elf64_r_sym : ℕ → ℕ
elf64_r_sym info = info / 2 ^ 32

unfoldable pub elf64_r_type : ℕ → ℕ
elf64_r_type info = info % 2 ^ 32

-- A value that C gives no meaning to where it is not there.
unfoldable pub defined {ℓ} : {A : Type ℓ} → Option A → Result A
defined none = undefined
defined (some a) = ok a

-- What the switch of `do_relocations` copies: how many bytes, and of what number.
unfoldable pub relocation : (type : ℕ) → Sym → (addend place : ℕ) → ℕ × ℕ
relocation type sym addend place =
    let value = (sym.st_value + addend) % 2 ^ 64 in
    let relative = (sym.st_value + addend + 2 ^ 64 - place % 2 ^ 64) % 2 ^ 64 in
    let size = (sym.st_size + addend) % 2 ^ 64 in
    if type == 0
    then (0, 0)
    else if type == 1
    then (8, value)
    else if type == 2
    then (4, relative)
    else if type == 6
    then (8, sym.st_value)
    else if type == 7
    then (8, sym.st_value)
    else if type == 10
    then (4, value)
    else if type == 11
    then (4, value)
    else if type == 12
    then (2, value)
    else if type == 13
    then (2, relative)
    else if type == 14
    then (1, value)
    else if type == 15
    then (1, relative)
    else if type == 32
    then (4, size)
    else if type == 33
    then (8, size)
    else (0, 0)

-- The body of the inner loop of `do_relocations`.
unfoldable pub relocate : Sym → (addend : ℕ) → Rela → ByteMap → ByteMap
unfolding relocation elf64_r_type store_bytes mem_write
relocate sym addend r m =
    let (width, value) = relocation (elf64_r_type r.r_info) sym addend r.r_offset in
    store_bytes r.r_offset (mem_write width value) m

-- The symbols that a relocation section is linked to, and one of them.
unfoldable pub linked_sym : List Section → (link : ℕ) → (index : ℕ) → Result Sym
unfolding defined
linked_sym sections link index = do
  linked ← defined (get_elem? sections link)
  defined (get_elem? linked.syms index)

-- The inner loop, over the relocations of a section and their addends.
unfoldable pub relocate_each :
    List Section → (link : ℕ) → List Rela → (addends : List ℕ) → ByteMap → Result ByteMap
unfolding linked_sym relocate elf64_r_sym
relocate_each sections link [] addends m = ok m
relocate_each sections link (r ∷ rs) [] m = undefined
relocate_each sections link (r ∷ rs) (a ∷ as') m =
    linked_sym sections link (elf64_r_sym r.r_info) >>= λ sym.
    relocate_each sections link rs as' (relocate sym a r m)

unfoldable pub has_relocations : Section → Bool
has_relocations sec = sec.shdr.sh_type == sht_rel || sec.shdr.sh_type == sht_rela

-- The outer loop, over the sections `secs` of all the `sections`.
unfoldable pub relocate_sections : List Section → (secs : List Section) → ByteMap → Result ByteMap
unfolding has_relocations relocate_each
relocate_sections sections [] m = ok m
relocate_sections sections (sec ∷ secs) m =
    (if has_relocations sec
      then relocate_each sections sec.shdr.sh_link sec.relas sec.addends m
      else ok m)
    >>= λ m'. relocate_sections sections secs m'

unfoldable pub do_relocations : Object → ByteMap → Result ByteMap
unfolding relocate_sections
do_relocations obj m = relocate_sections obj.sections obj.sections m

-- How many bytes of the memory `store_addends` reads for a relocation with no addend of its own.
unfoldable pub addend_width : (type : ℕ) → Option ℕ
addend_width type =
    if type == 14 || type == 15
    then some 1
    else if type == 12 || type == 13
    then some 2
    else if type == 2 || type == 10 || type == 11 || type == 32
    then some 4
    else if type == 1 || type == 33 || type == 6 || type == 7
    then some 8
    else none

unfoldable pub read_addends : List Rela → ByteMap → Result (List ℕ)
unfolding addend_width elf64_r_type load_number
read_addends [] m = ok []
read_addends (r ∷ rs) m = elim (addend_width (elf64_r_type r.r_info)) [
  | none ↦ thrown object
  | some width ↦ read_addends rs m >>= λ as'. ok (load_number width r.r_offset m ∷ as')
]

unfoldable pub own_addends : List Rela → List ℕ
own_addends [] = []
own_addends (r ∷ rs) = r.r_addend ∷ own_addends rs

unfoldable pub addends_of : Section → ByteMap → Result (List ℕ)
unfolding read_addends own_addends
addends_of sec m =
    if sec.shdr.sh_type == sht_rela
    then ok (own_addends sec.relas)
    else if sec.shdr.sh_type == sht_rel
    then read_addends sec.relas m
    else ok sec.addends

unfoldable pub store_section_addends : List Section → ByteMap → Result (List Section)
unfolding addends_of
store_section_addends [] m = ok []
store_section_addends (sec ∷ secs) m = addends_of sec m >>= λ as'.
    store_section_addends secs m >>= λ rest. ok (record sec { addends = as' } ∷ rest)

unfoldable pub store_addends : Object → ByteMap → Result Object
unfolding store_section_addends
store_addends obj m =
    store_section_addends obj.sections m >>= λ secs. ok (record obj { sections = secs })
