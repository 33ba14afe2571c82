-- ===== src/Loader/Stored.antt =====
-- The sections that `read_object` of bootstrap/x86_64_object.c reads from a file that holds them.
use l.Prelude.{
  ℕ, suc, ◌+◌, ◌-◌, ◌*◌, ◌/◌, ◌%◌, ◌^◌, ◌≤◌, ◌<◌, ◌≡◌, refl, true, false, List, [], ◌∷◌, ◌++◌,
  length, length-take, length-drop, take, drop, arith, ap, ap₂, ◌∙◌, sym, ltb, if◌then◌else◌, ◌==◌,
  ◌||◌, append-nil,
}
use mathlib.Core.List.{map}
use l.Result.{ok}
use l.Assembler.{Bytes, Rela, mem_write}
use l.Elf.{Sym}
use l.Elf.Structures.{Shdr, sym_bytes, rela_bytes, all_bytes, ehdr_bytes}
use l.Elf.Layout.{length-all_bytes, length-sym_bytes, length-rela_bytes}
use l.Loader.{ByteMap, Section, store_bytes}
use l.Loader.Read.{
  number_at, first_number, is_elf, read_object, read_sections, read_section, segment_bytes,
  section_of, table_at, sym_at, rela_at, entry_count,
}
use l.Loader.Numbers.{cut_shdr, cut_sym, cut_rela, sym_at-append, rela_at-append, sym_at_ok}
use l.Loader.Tables.{table_at-all_bytes, table_at_ok}
use l.Loader.Headers.{plain_section, block_at_ok, take_split}

-- A table of symbols, with more behind it up to the size of the section.
symtab_section :
    (ss : List Sym) (tail : Bytes) (n : ℕ)
    → 24 * (length ss + n) ≤ length (all_bytes sym_bytes ss ++ tail)
    → (rest : List Sym) × (table_at (sym_at (all_bytes sym_bytes ss ++ tail)) 24 (length ss + n) 0
        ≡ ok (map cut_sym ss ++ rest))
symtab_section ss tail n fits =
    let file = all_bytes sym_bytes ss ++ tail in
    let (rest, e) =
      table_at_ok sym_bytes 24 sym_at cut_sym length-sym_bytes sym_at-append file n (0 + length ss)
        (λ j lt. sym_at_ok file (24 * j) (omega arith)) in
    (
      rest,
      table_at-all_bytes sym_bytes 24 sym_at cut_sym length-sym_bytes sym_at-append ss file [] tail
          0 n (length ss + n) rest refl refl refl e,
    )

rela_section :
    (unset : ℕ) (rs : List Rela)
    → table_at (rela_at true unset (all_bytes rela_bytes rs)) 24 (length rs) 0
      ≡ ok (map cut_rela rs)
unfolding table_at
rela_section unset rs =
    let file = all_bytes rela_bytes rs in
    table_at-all_bytes rela_bytes 24 (rela_at true unset) cut_rela length-rela_bytes
      (rela_at-append unset) rs file [] [] 0 0 (length rs) [] (sym (append-nil file)) refl
      (omega arith) refl
    ∙ ap ok (append-nil (map cut_rela rs))

section_symtab :
    (unset seg n : ℕ) (h : Shdr) (bytes : Bytes) (syms : List Sym)
    → h.sh_type ≡ 2
    → h.sh_entsize ≡ 24
    → h.sh_size / 24 ≡ n
    → table_at (sym_at bytes) 24 n 0 ≡ ok syms
    → section_of unset h seg bytes
      ≡ ok (record { shdr = h; seg = seg; syms = syms; relas = []; addends = [] })
unfolding section_of entry_count
section_symtab unset seg n h bytes syms type entsize count read =
    rw (type, entsize, count, read) refl

section_rela :
    (unset seg n : ℕ) (h : Shdr) (bytes : Bytes) (relas : List Rela)
    → h.sh_type ≡ 4
    → h.sh_entsize ≡ 24
    → h.sh_size / 24 ≡ n
    → table_at (rela_at true unset bytes) 24 n 0 ≡ ok relas
    → section_of unset h seg bytes
      ≡ ok (record { shdr = h; seg = seg; syms = []; relas = relas; addends = [] })
unfolding section_of entry_count
section_rela unset seg n h bytes relas type entsize count read =
    rw (type, entsize, count, read) refl

cut_small : (n : ℕ) → n < 2 ^ 64 → n % 2 ^ 64 ≡ n
cut_small n h = omega arith

-- The bytes of a section that lies in the file.
cut_segment :
    (file : Bytes) (h : Shdr)
    → (h.sh_type % 2 ^ 32 == 8) ≡ false
    → h.sh_offset + h.sh_size ≤ length file
    → length file < 2 ^ 64
    → segment_bytes file (cut_shdr h) ≡ ok (take h.sh_size (drop h.sh_offset file))
unfolding segment_bytes cut_shdr
cut_segment file h kind fits small =
    let offset = cut_small h.sh_offset (omega arith) in
    let size = cut_small h.sh_size (omega arith) in
    rw (kind, offset, size) (block_at_ok file h.sh_offset h.sh_size fits)

-- A section lies in the file.
abbrev pub Inside : Shdr → Bytes → Type 0
Inside h file = h.sh_offset + h.sh_size ≤ length file

take_whole : (bs : Bytes) → take (length bs) bs ≡ bs
take_whole [] = refl
take_whole (b ∷ bs) = ap (λ (cs : Bytes). b ∷ cs) (take_whole bs)

read_section_of :
    (file bytes : Bytes) (unset seg : ℕ) (h : Shdr) (s : Section) (m : ByteMap)
    → section_of unset h seg bytes ≡ ok s
    → segment_bytes file h ≡ ok bytes
    → read_section file unset h seg m ≡ ok (s, store_bytes seg bytes m)
unfolding read_section
read_section_of file bytes unset seg h s m same found = rw (found, same) refl

-- The file that begins with the header.
pub ehdr_read :
    (rest : Bytes)
    → (is_elf (ehdr_bytes ++ rest) ≡ true)
      × (number_at (ehdr_bytes ++ rest) 40 8 ≡ ok 64)
      × (number_at (ehdr_bytes ++ rest) 58 2 ≡ ok 64)
      × (number_at (ehdr_bytes ++ rest) 60 2 ≡ ok 7)
      × (number_at (ehdr_bytes ++ rest) 62 2 ≡ ok 1)
unfolding is_elf ehdr_bytes mem_write number_at first_number
ehdr_read rest = (refl, refl, refl, refl, refl)

not_short : (n : ℕ) → 64 ≤ n → ltb n 64 ≡ false
not_short n h = ground arith

pub read_object_from :
    (file : Bytes) (unset shoff entsize count shstrndx : ℕ) (place : ℕ → ℕ) (m m' : ByteMap)
    (secs : List Section)
    → 64 ≤ length file
    → is_elf file ≡ true
    → number_at file 40 8 ≡ ok shoff
    → number_at file 58 2 ≡ ok entsize
    → number_at file 60 2 ≡ ok count
    → number_at file 62 2 ≡ ok shstrndx
    → read_sections file unset place shoff entsize count 0 m ≡ ok (secs, m')
    → read_object file unset place m ≡ ok (record { e_shstrndx = shstrndx; sections = secs }, m')
unfolding read_object
read_object_from file unset shoff entsize count shstrndx place m m' secs long elf e1 e2 e3 e4 read =
    rw (not_short (length file) long, elf, e1, e2, e3, e4, read) refl

-- What `write_elf` puts in the file for a section.
unfoldable pub written_bytes : Bytes → Shdr → Bytes
written_bytes file h = if h.sh_type == 8 then [] else take h.sh_size (drop h.sh_offset file)

-- The memory with the bytes of sections, from the section with an index on, at their places.
unfoldable pub placed : Bytes → (place : ℕ → ℕ) → List Shdr → (sec : ℕ) → ByteMap → ByteMap
unfolding written_bytes
placed file place [] sec m = m
placed file place (h ∷ hs) sec m =
    placed file place hs (suc sec) (store_bytes (place sec) (written_bytes file h) m)

section_plain :
    (unset seg : ℕ) (h : Shdr) (bytes : Bytes)
    → (h.sh_type % 2 ^ 32 == 2) ≡ false
    → (h.sh_type % 2 ^ 32 == 4 || h.sh_type % 2 ^ 32 == 9) ≡ false
    → section_of unset (cut_shdr h) seg bytes ≡ ok (plain_section (cut_shdr h) seg)
unfolding section_of cut_shdr
section_plain unset seg h bytes no_syms no_relas = rw (no_syms, no_relas) refl

-- The sections that are no table, and those that have no bytes in the file.
pub plain_read :
    (file : Bytes) (unset seg : ℕ) (h : Shdr) (m : ByteMap)
    → (h.sh_type == 8) ≡ false
    → (h.sh_type % 2 ^ 32 == 8) ≡ false
    → (h.sh_type % 2 ^ 32 == 2) ≡ false
    → (h.sh_type % 2 ^ 32 == 4 || h.sh_type % 2 ^ 32 == 9) ≡ false
    → Inside h file
    → length file < 2 ^ 64
    → read_section file unset (cut_shdr h) seg m
      ≡ ok (plain_section (cut_shdr h) seg, store_bytes seg (written_bytes file h) m)
unfolding written_bytes
plain_read file unset seg h m kind cut_kind no_syms no_relas fits small =
    read_section_of file (written_bytes file h) unset seg (cut_shdr h) _ m
      (section_plain unset seg h (written_bytes file h) no_syms no_relas)
      (cut_segment file h cut_kind fits small ∙ rw kind refl)

pub symtab_read :
    (file : Bytes) (unset seg n : ℕ) (h : Shdr) (ss : List Sym) (m : ByteMap)
    → h.sh_type ≡ 2
    → h.sh_entsize ≡ 24
    → h.sh_size ≡ 24 * n
    → take (length (all_bytes sym_bytes ss)) (drop h.sh_offset file) ≡ all_bytes sym_bytes ss
    → length (all_bytes sym_bytes ss) ≤ h.sh_size
    → Inside h file
    → length file < 2 ^ 64
    → (rest : List Sym) × (read_section file unset (cut_shdr h) seg m
        ≡ ok (
          record {
            shdr = cut_shdr h;
            seg = seg;
            syms = map cut_sym ss ++ rest;
            relas = [];
            addends = [];
          },
          store_bytes seg (written_bytes file h) m,
        ))
unfolding written_bytes cut_shdr
symtab_read file unset seg n h ss m type entsize size front fits inside small =
    let table = all_bytes sym_bytes ss in
    let found = drop h.sh_offset file in
    let bytes = take h.sh_size found in
    let tail = take (h.sh_size - length table) (drop (length table) found) in
    let long = length-all_bytes sym_bytes 24 length-sym_bytes ss in
    let split : bytes ≡ table ++ tail =
      take_split (length table) h.sh_size found fits ∙ ap (λ (bs : Bytes). bs ++ tail) front in
    let whole : length bytes ≡ h.sh_size =
      omega (arith, length-take h.sh_size found, length-drop h.sh_offset file) in
    let same_length = ap length split in
    let (rest, e) = symtab_section ss tail (n - length ss) (omega arith) in
    let read : table_at (sym_at bytes) 24 n 0 ≡ ok (map cut_sym ss ++ rest) =
      ap₂ (λ (bs : Bytes) (i : ℕ). table_at (sym_at bs) 24 i 0) split
        (let same : n ≡ length ss + (n - length ss) = omega arith in same)
      ∙ e in
    (
      rest,
      read_section_of file bytes unset seg (cut_shdr h) _ m
            (section_symtab unset seg n (cut_shdr h) bytes _ (omega arith) (omega arith)
              (omega arith) read)
            (cut_segment file h (rw type refl) inside small)
          ∙ rw type refl,
    )

pub rela_read :
    (file : Bytes) (unset seg : ℕ) (h : Shdr) (rs : List Rela) (m : ByteMap)
    → h.sh_type ≡ 4
    → h.sh_entsize ≡ 24
    → h.sh_size ≡ length rs * 24
    → drop h.sh_offset file ≡ all_bytes rela_bytes rs
    → Inside h file
    → length file < 2 ^ 64
    → read_section file unset (cut_shdr h) seg m
      ≡ ok (
        record { shdr = cut_shdr h; seg = seg; syms = []; relas = map cut_rela rs; addends = [] },
        store_bytes seg (written_bytes file h) m,
      )
unfolding written_bytes cut_shdr
rela_read file unset seg h rs m type entsize size found inside small =
    let table = all_bytes rela_bytes rs in
    let bytes = take h.sh_size (drop h.sh_offset file) in
    let long = length-all_bytes rela_bytes 24 length-rela_bytes rs in
    let whole : bytes ≡ table =
      ap₂ (λ (n : ℕ) (bs : Bytes). take n bs) (let e : h.sh_size ≡ length table = omega arith in e)
        found
      ∙ take_whole table in
    let read : table_at (rela_at true unset bytes) 24 (length rs) 0 ≡ ok (map cut_rela rs) =
      ap (λ (bs : Bytes). table_at (rela_at true unset bs) 24 (length rs) 0) whole
      ∙ rela_section unset rs in
    read_section_of file bytes unset seg (cut_shdr h) _ m
      (section_rela unset seg (length rs) (cut_shdr h) bytes _ (omega arith) (omega arith)
        (omega arith) read)
      (cut_segment file h (rw type refl) inside small)
    ∙ rw type refl

pub bss_read :
    (file : Bytes) (unset seg : ℕ) (h : Shdr) (m : ByteMap)
    → h.sh_type ≡ 8
    → read_section file unset (cut_shdr h) seg m
      ≡ ok (plain_section (cut_shdr h) seg, store_bytes seg (written_bytes file h) m)
unfolding written_bytes segment_bytes cut_shdr
bss_read file unset seg h m type =
    read_section_of file [] unset seg (cut_shdr h) _ m
      (section_plain unset seg h [] (rw type refl) (rw type refl)) (rw type refl)
    ∙ rw type refl
