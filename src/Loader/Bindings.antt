-- ===== src/Loader/Bindings.antt =====
-- `offsets_to_addresses`, `mutate_bindings`, `bindings` and `segment` of bootstrap/x86_64_object.c.
use l.Prelude.{
  ℕ, ◌+◌, ◌/◌, ◌%◌, ◌^◌, Bool, true, false, not, List, [], ◌∷◌, Chars, ◌==◌, ◌&&◌, ◌||◌,
  if◌then◌else◌, get_elem?,
}
use l.Result.{Result, ok, undefined, ◌>>=◌}
use l.Assembler.{Rela}
use l.Elf.{Sym, shn_undef}
use l.Loader.{
  ByteMap, Section, Object, sht_symtab, shn_abs, shn_common, defined, has_relocations,
  do_relocations,
}

-- The address of the segment with an index.
unfoldable pub segment_at : List Section → ℕ → Result ℕ
unfolding defined
segment_at sections index = defined (get_elem? sections index) >>= λ sec. ok sec.seg

unfoldable pub moved_relas : (base : ℕ) → List Rela → List Rela
moved_relas base [] = []
moved_relas base (r ∷ rs) =
    record r { r_offset = (base + r.r_offset) % 2 ^ 64 } ∷ moved_relas base rs

unfoldable pub is_undefined : Sym → Bool
is_undefined sym = sym.st_shndx == shn_undef || sym.st_shndx == shn_common

-- The value of a symbol, from the section that it is in.
unfoldable pub symbol_value : List Section → Sym → Result ℕ
unfolding segment_at is_undefined
symbol_value sections sym =
    if sym.st_shndx == shn_abs
    then ok sym.st_value
    else if is_undefined sym
    then ok 0
    else segment_at sections sym.st_shndx >>= λ base. ok ((base + sym.st_value) % 2 ^ 64)

unfoldable pub moved_syms : List Section → List Sym → Result (List Sym)
unfolding symbol_value
moved_syms sections [] = ok []
moved_syms sections (sym ∷ syms) = symbol_value sections sym >>= λ value.
    moved_syms sections syms >>= λ rest. ok (record sym { st_value = value } ∷ rest)

unfoldable pub is_symtab : Section → Bool
is_symtab sec = sec.shdr.sh_type == sht_symtab

unfoldable pub moved_section : List Section → Section → Result Section
unfolding has_relocations segment_at moved_relas moved_syms is_symtab
moved_section sections sec =
    if has_relocations sec
    then segment_at sections sec.shdr.sh_info
      >>= (λ base. ok (record sec { relas = moved_relas base sec.relas }))
    else if is_symtab sec
    then moved_syms sections sec.syms >>= (λ syms. ok (record sec { syms = syms }))
    else ok sec

unfoldable pub moved_sections : List Section → (secs : List Section) → Result (List Section)
unfolding moved_section
moved_sections sections [] = ok []
moved_sections sections (sec ∷ secs) =
    moved_section sections sec >>= λ sec'. moved_sections sections secs >>= λ rest. ok (sec' ∷ rest)

unfoldable pub offsets_to_addresses : Object → Result Object
unfolding moved_sections
offsets_to_addresses obj =
    moved_sections obj.sections obj.sections >>= λ secs. ok (record obj { sections = secs })

-- `strcmp` of the string at an address with `cs` finds no difference.
unfoldable pub holds_string : ByteMap → ℕ → Chars → Bool
holds_string m a [] = m a == 0
holds_string m a (c ∷ cs) = m a == c && holds_string m (a + 1) cs

-- `name_of`, from the segment of the section's string table.
unfoldable pub name_of : (base : ℕ) → Sym → ℕ
name_of base sym = (base + sym.st_name) % 2 ^ 64

-- A `struct binding` of `updates`, with its name; in what `bindings` returns the name is an address.
pub record Update : Type 0 where
  pub name : Chars
  pub address : ℕ

unfoldable pub elf64_st_bind : ℕ → ℕ
elf64_st_bind info = info / 2 ^ 4

-- `STB_GLOBAL` or `STB_WEAK`
unfoldable pub is_shared : Sym → Bool
unfolding elf64_st_bind
is_shared sym = elf64_st_bind sym.st_info == 1 || elf64_st_bind sym.st_info == 2

unfoldable pub updates_sym : ByteMap → (base : ℕ) → Update → Sym → Bool
unfolding holds_string name_of is_undefined is_shared
updates_sym m base u sym =
    holds_string m (name_of base sym) u.name && (is_undefined sym && is_shared sym)

unfoldable pub update_syms : ByteMap → (base : ℕ) → Update → List Sym → List Sym
unfolding updates_sym
update_syms m base u [] = []
update_syms m base u (sym ∷ syms) =
    (if updates_sym m base u sym then record sym { st_value = u.address } else sym)
    ∷ update_syms m base u syms

-- The loop begins behind the first symbol.
unfoldable pub update_table : ByteMap → (base : ℕ) → Update → List Sym → List Sym
unfolding update_syms
update_table m base u [] = []
update_table m base u (sym ∷ syms) = sym ∷ update_syms m base u syms

unfoldable pub update_sections :
    ByteMap → Update → List Section → (secs : List Section) → Result (List Section)
unfolding is_symtab segment_at update_table
update_sections m u sections [] = ok []
update_sections m u sections (sec ∷ secs) =
    (if is_symtab sec
      then segment_at sections sec.shdr.sh_link
        >>= (λ base. ok (record sec { syms = update_table m base u sec.syms }))
      else ok sec)
    >>= λ sec'. update_sections m u sections secs >>= λ rest. ok (sec' ∷ rest)

unfoldable pub update_each : ByteMap → List Update → List Section → Result (List Section)
unfolding update_sections
update_each m [] sections = ok sections
update_each m (u ∷ us) sections = update_sections m u sections sections >>= update_each m us

-- The object with the symbols' new values, and the memory after the relocations.
unfoldable pub mutate_bindings : Object → List Update → ByteMap → Result (Object × ByteMap)
unfolding update_each do_relocations
mutate_bindings obj updates m = update_each m updates obj.sections >>= λ secs.
    let obj' = record obj { sections = secs } in do_relocations obj' m >>= λ m'. ok (obj', m')

-- The bindings of a symbol table, in front of those in `found`: addresses of names, and values.
unfoldable pub collect_syms : Bool → (base : ℕ) → List Sym → List (ℕ × ℕ) → List (ℕ × ℕ)
unfolding is_undefined is_shared name_of
collect_syms flag base [] found = found
collect_syms flag base (sym ∷ syms) found = collect_syms flag base syms (
    if (if is_undefined sym then flag else not flag) && is_shared sym
    then (name_of base sym, sym.st_value) ∷ found
    else found)

unfoldable pub collect_table : Bool → (base : ℕ) → List Sym → List (ℕ × ℕ) → List (ℕ × ℕ)
unfolding collect_syms
collect_table flag base [] found = found
collect_table flag base (sym ∷ syms) found = collect_syms flag base syms found

unfoldable pub collect_sections :
    Bool → List Section → (secs : List Section) → List (ℕ × ℕ) → Result (List (ℕ × ℕ))
unfolding is_symtab segment_at collect_table
collect_sections flag sections [] found = ok found
collect_sections flag sections (sec ∷ secs) found =
    (if is_symtab sec
      then segment_at sections sec.shdr.sh_link
        >>= (λ base. ok (collect_table flag base sec.syms found))
      else ok found)
    >>= collect_sections flag sections secs

unfoldable pub bindings : Bool → Object → Result (List (ℕ × ℕ))
unfolding collect_sections
bindings flag obj = collect_sections flag obj.sections obj.sections []

unfoldable pub mutable_bindings : Object → Result (List (ℕ × ℕ))
unfolding bindings
mutable_bindings obj = bindings true obj

unfoldable pub immutable_bindings : Object → Result (List (ℕ × ℕ))
unfolding bindings
immutable_bindings obj = bindings false obj

-- The first segment with a name; C leaves the value undefined where there is none.
unfoldable pub find_segment : ByteMap → (names : ℕ) → Chars → List Section → Result ℕ
unfolding holds_string
find_segment m names name [] = undefined
find_segment m names name (sec ∷ secs) =
    let rest = find_segment m names name secs in
    if holds_string m ((names + sec.shdr.sh_name) % 2 ^ 64) name then ok sec.seg else rest

unfoldable pub segment : Object → Chars → ByteMap → Result ℕ
unfolding segment_at find_segment
segment obj name m =
    if obj.e_shstrndx == shn_undef
    then undefined
    else segment_at obj.sections obj.e_shstrndx >>= λ names. find_segment m names name obj.sections
