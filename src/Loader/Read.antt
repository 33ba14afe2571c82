-- ===== src/Loader/Read.antt =====
-- `read_object` and `load` of bootstrap/x86_64_object.c. The file is the list of its bytes; `place`
-- is the address that `region_alloc` gives for the segment with an index, and `garbage` what stands
-- in memory that nothing was copied to.
use l.Prelude.{
  ℕ, zero, suc, ◌+◌, ◌*◌, ◌/◌, Bool, List, [], ◌∷◌, Option, none, some, ◌==◌, ◌&&◌, ◌||◌, leb, ltb,
  if◌then◌else◌, length, take, drop, get_or,
}
use l.Result.{Result, ok, thrown, undefined, ◌>>=◌, object}
use l.Assembler.{Bytes, Rela}
use l.Assembler.Decode.{read_number}
use l.Elf.{Sym}
use l.Elf.Structures.{Shdr}
use l.Loader.{
  ByteMap, Section, Object, store_bytes, sht_symtab, sht_rela, sht_rel, sht_nobits, do_relocations,
  store_addends,
}
use l.Loader.Bindings.{offsets_to_addresses}

-- The number of so many bytes at an offset of a block of memory.
unfoldable pub first_number : Option (ℕ × Bytes) → Result ℕ
first_number none = undefined
first_number (some r) = ok r.0

unfoldable pub number_at : Bytes → (offset width : ℕ) → Result ℕ
unfolding first_number read_number
number_at bs offset width = first_number (read_number width (drop offset bs))

unfoldable pub block_at : Bytes → (offset size : ℕ) → Result Bytes
block_at bs offset size =
    if leb (offset + size) (length bs) then ok (take size (drop offset bs)) else undefined

unfoldable pub shdr_at : Bytes → ℕ → Result Shdr
unfolding number_at
shdr_at bs at = do
  name ← number_at bs at 4
  type ← number_at bs (at + 4) 4
  flags ← number_at bs (at + 8) 8
  addr ← number_at bs (at + 16) 8
  offset ← number_at bs (at + 24) 8
  size ← number_at bs (at + 32) 8
  link ← number_at bs (at + 40) 4
  info ← number_at bs (at + 44) 4
  addralign ← number_at bs (at + 48) 8
  entsize ← number_at bs (at + 56) 8
  ok (record {
    sh_name = name;
    sh_type = type;
    sh_flags = flags;
    sh_addr = addr;
    sh_offset = offset;
    sh_size = size;
    sh_link = link;
    sh_info = info;
    sh_addralign = addralign;
    sh_entsize = entsize;
  })

unfoldable pub sym_at : Bytes → ℕ → Result Sym
unfolding number_at
sym_at bs at = do
  name ← number_at bs at 4
  info ← number_at bs (at + 4) 1
  shndx ← number_at bs (at + 6) 2
  value ← number_at bs (at + 8) 8
  size ← number_at bs (at + 16) 8
  ok (record { st_name = name; st_info = info; st_shndx = shndx; st_value = value; st_size = size })

-- An `Elf64_Rel` has no addend: what the field holds then is not copied.
unfoldable pub rela_at : (has_addend : Bool) → (unset : ℕ) → Bytes → ℕ → Result Rela
unfolding number_at
rela_at has_addend unset bs at = do
  offset ← number_at bs at 8
  info ← number_at bs (at + 8) 8
  addend ← if has_addend then number_at bs (at + 16) 8 else ok unset
  ok (record { r_offset = offset; r_info = info; r_addend = addend })

-- The loops over a table: `count` entries, `entsize` bytes apart, from index `i` on.
unfoldable pub table_at {ℓ} :
    {A : Type ℓ} → (ℕ → Result A) → (entsize count i : ℕ) → Result (List A)
table_at entry entsize zero i = ok []
table_at entry entsize (suc count) i =
    entry (entsize * i) >>= λ x. table_at entry entsize count (suc i) >>= λ rest. ok (x ∷ rest)

-- `sh_size / sh_entsize`
unfoldable pub entry_count : Shdr → Result ℕ
entry_count h = if h.sh_entsize == 0 then undefined else ok (h.sh_size / h.sh_entsize)

-- A `struct Object` before its addends are stored has none.
unfoldable pub section_of : (unset : ℕ) → Shdr → (seg : ℕ) → (bytes : Bytes) → Result Section
unfolding table_at entry_count sym_at rela_at
section_of unset h seg bytes =
    if h.sh_type == sht_symtab
    then entry_count h >>= (λ n.
      table_at (sym_at bytes) h.sh_entsize n 0
      >>= (λ syms. ok (record { shdr = h; seg = seg; syms = syms; relas = []; addends = [] })))
    else if h.sh_type == sht_rela || h.sh_type == sht_rel
    then entry_count h >>= (λ n.
      table_at (rela_at (h.sh_type == sht_rela) unset bytes) h.sh_entsize n 0
      >>= (λ relas. ok (record { shdr = h; seg = seg; syms = []; relas = relas; addends = [] })))
    else ok (record { shdr = h; seg = seg; syms = []; relas = []; addends = [] })

-- The bytes that are copied to a segment.
unfoldable pub segment_bytes : Bytes → Shdr → Result Bytes
unfolding block_at
segment_bytes file h =
    if h.sh_type == sht_nobits then ok [] else block_at file h.sh_offset h.sh_size

unfoldable pub read_section :
    Bytes → (unset : ℕ) → Shdr → (seg : ℕ) → ByteMap → Result (Section × ByteMap)
unfolding segment_bytes section_of store_bytes
read_section file unset h seg m = segment_bytes file h >>= λ bytes.
    section_of unset h seg bytes >>= λ sec. ok (sec, store_bytes seg bytes m)

-- The loop over `count` sections from `sec` on, whose headers stand at `shoff`.
unfoldable pub read_sections :
    Bytes
    → (unset : ℕ) (place : ℕ → ℕ) (shoff entsize count sec : ℕ) → ByteMap
    → Result (List Section × ByteMap)
unfolding shdr_at read_section
read_sections file unset place shoff entsize zero sec m = ok ([], m)
read_sections file unset place shoff entsize (suc count) sec m =
    shdr_at file (shoff + entsize * sec) >>= λ h.
    read_section file unset h (place sec) m >>= λ first.
    read_sections file unset place shoff entsize count (suc sec) first.1 >>= λ rest.
    ok (first.0 ∷ rest.0, rest.1)

-- The checks on `e_ident`.
unfoldable pub is_elf : Bytes → Bool
is_elf file =
    get_or file 0 0 == 0x7F
    && (get_or file 1 0 == b'E'
        && (get_or file 2 0 == b'L'
            && (get_or file 3 0 == b'F' && (get_or file 4 0 == 2 && get_or file 5 0 == 1))))

unfoldable pub read_object :
    Bytes → (unset : ℕ) (place : ℕ → ℕ) → ByteMap → Result (Object × ByteMap)
unfolding is_elf number_at read_sections
read_object file unset place m =
    if ltb (length file) 64
    then thrown object
    else if is_elf file
    then (number_at file 40 8 >>= λ shoff. number_at file 58 2 >>= λ entsize.
        number_at file 60 2 >>= λ count. number_at file 62 2 >>= λ shstrndx.
        read_sections file unset place shoff entsize count 0 m >>= λ read.
        ok (record { e_shstrndx = shstrndx; sections = read.0 }, read.1))
    else thrown object

unfoldable pub load : Bytes → (unset : ℕ) (place : ℕ → ℕ) → ByteMap → Result (Object × ByteMap)
unfolding read_object offsets_to_addresses store_addends do_relocations
load file unset place m = read_object file unset place m >>= λ read.
    offsets_to_addresses read.0 >>= λ moved.
    store_addends moved read.1 >>= λ stored. do_relocations stored read.1 >>= λ m'. ok (stored, m')
