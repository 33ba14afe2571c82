-- ===== src/Tests/Loaded.antt =====
-- The results on loaded objects at a concrete object.
use l.Prelude.{
  ◌*◌, ℕ, ◌≡◌, ◌+◌, ◌++◌, ◌<◌, ◌↔◌, ◌⊎◌, ◌^◌, refl, take, length, false, List, [], ◌∷◌, ◌==◌,
  if◌then◌else◌,
}
use l.Result.{Result, ok, thrown, object, ◌>>=◌}
use l.Assembler.{Bytes, mem_write}
use l.Elf.{Sym}
use l.Elf.Structures.{Shdr, ehdr_bytes, shdr_bytes}
use l.Loader.Read.{is_elf, read_object, load}
use l.Loader.Errors.{read_object-thrown}
use l.Loader.{load_number, ByteMap, Object, do_relocations}
use l.Loader.Jobs.{Job, jobs, run_jobs}
use l.Loader.Places.{covers, all_apart, AllStored, do_relocations-AllStored}
use l.Loader.Bindings.{Update, mutate_bindings, mutable_bindings, immutable_bindings}
use l.Loader.Mutate.{SameRelas, mutate_bindings-relocates}
use l.Loader.Revalue.{revalue_all}
use l.Loader.Listed.{mutate_bindings-listed}

abbrev header : ℕ → ℕ → Shdr
header type link = record {
  sh_name = 0;
  sh_type = type;
  sh_flags = 0;
  sh_addr = 0;
  sh_offset = 0;
  sh_size = 0;
  sh_link = link;
  sh_info = 0;
  sh_addralign = 0;
  sh_entsize = 24;
}

-- A string table at 1000 with the name `f`, a symbol for it, and a relocation at 2000 that adds 5.
abbrev memory : ByteMap
memory a = if a == 1001 then 102 else 0

abbrev no_symbol : Sym
no_symbol = record { st_name = 0; st_info = 0; st_shndx = 0; st_value = 0; st_size = 0 }

abbrev symbol_f : Sym
symbol_f = record { st_name = 1; st_info = 16; st_shndx = 0; st_value = 0; st_size = 0 }

abbrev object_with : Sym → Object
object_with f = record {
  e_shstrndx = 0;
  sections =
      record { shdr = header 2 1; seg = 500; syms = no_symbol ∷ f ∷ []; relas = []; addends = [] }
      ∷ record { shdr = header 3 0; seg = 1000; syms = []; relas = []; addends = [] }
      ∷ record {
        shdr = header 4 0;
        seg = 3000;
        syms = [];
        relas = record { r_offset = 2000; r_info = 2 ^ 32 + 1; r_addend = 5 } ∷ [];
        addends = 5 ∷ [];
      }
      ∷ [];
}

abbrev loaded : Object
loaded = object_with symbol_f

abbrev updated : Object
updated = object_with (record symbol_f { st_value = 77 })

abbrev update_f : Update
update_f = record { name = 102 ∷ []; address = 77 }

abbrev first_jobs : List Job
first_jobs = record { place = 2000; width = 8; value = 5 } ∷ []

do_relocations-AllStored_example :
    AllStored (run_jobs first_jobs memory) first_jobs
    × ((x : ℕ) → covers first_jobs x ≡ false → run_jobs first_jobs memory x ≡ memory x)
unfolding jobs do_relocations all_apart run_jobs
do_relocations-AllStored_example =
    do_relocations-AllStored loaded memory (run_jobs first_jobs memory) first_jobs refl refl refl

abbrev second_jobs : List Job
second_jobs = record { place = 2000; width = 8; value = 82 } ∷ []

mutate_bindings-relocates_example :
    (do_relocations updated memory ≡ ok (run_jobs second_jobs (run_jobs first_jobs memory)))
    × SameRelas loaded.sections updated.sections
    × (updated.e_shstrndx ≡ loaded.e_shstrndx)
unfolding do_relocations mutate_bindings run_jobs
mutate_bindings-relocates_example =
    mutate_bindings-relocates loaded updated (update_f ∷ []) memory (run_jobs first_jobs memory)
      (run_jobs second_jobs (run_jobs first_jobs memory)) refl refl

mutate_bindings-listed_example :
    (mutable_bindings updated ≡ (
      mutable_bindings loaded >>= λ bs.
      ok (revalue_all (run_jobs first_jobs memory) (update_f ∷ []) bs)))
    × (immutable_bindings updated ≡ immutable_bindings loaded)
unfolding do_relocations mutate_bindings run_jobs
mutate_bindings-listed_example =
    mutate_bindings-listed loaded updated (update_f ∷ []) (run_jobs first_jobs memory)
      (run_jobs second_jobs (run_jobs first_jobs memory)) refl

-- A file with a symbol table, and relocations without addends for the symbol's 4 bytes behind a text.
abbrev relocated_file : Bytes
relocated_file =
    take 60 ehdr_bytes
    ++ mem_write 2 3
    ++ mem_write 2 0
    ++ shdr_bytes (record (header 1 0) { sh_offset = 256; sh_size = 8 })
    ++ shdr_bytes (record (header 2 0) { sh_offset = 264; sh_size = 24 })
    ++ shdr_bytes (record (header 9 1) { sh_offset = 288; sh_size = 24 })
    ++ mem_write 8 5
    ++ mem_write 4 0
    ++ mem_write 1 16
    ++ mem_write 1 0
    ++ mem_write 2 0xFFF1
    ++ mem_write 8 70
    ++ mem_write 8 0
    ++ mem_write 8 4
    ++ mem_write 8 10
    ++ mem_write 8 0

abbrev segment_of : ℕ → ℕ
segment_of sec = 4096 * (sec + 1)

result_of : Result (Object × ByteMap) → Object × ByteMap
result_of (ok r) = r
result_of _ = (loaded, memory)

abbrev file_in_memory : Object × ByteMap
file_in_memory = result_of (load relocated_file 0 segment_of memory)

-- The text holds 5, and behind it the symbol's value 70.
relocated_text :
    (load_number 4 4096 file_in_memory.1 ≡ 5) × (load_number 4 4100 file_in_memory.1 ≡ 70)
unfolding load ehdr_bytes mem_write shdr_bytes result_of load_number
relocated_text = (refl, refl)

read_object-thrown_example :
    (read_object (take 63 ehdr_bytes) 0 (λ sec. 4096) memory ≡ thrown object) ↔ (
      (object ≡ object)
      × ((length (take 63 ehdr_bytes) < 64) ⊎ (is_elf (take 63 ehdr_bytes) ≡ false)))
read_object-thrown_example = read_object-thrown (take 63 ehdr_bytes) 0 (λ sec. 4096) memory object
