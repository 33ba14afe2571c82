-- ===== src/Loader/Jobs.antt =====
-- `do_relocations` of bootstrap/x86_64_object.c as the numbers that it stores, one after another.
use l.Prelude.{ℕ, ◌≡◌, refl, List, [], ◌∷◌, ◌++◌, if◌then◌else◌, inl, inr, Bool-cases, sym, ap, ◌∙◌}
use mathlib.Core.Path.{fun_ext}
use l.Result.{Result, ok, thrown, undefined, out_of_fuel, ◌>>=◌}
use l.Assembler.{Rela, mem_write}
use l.Elf.{Sym}
use l.Loader.{
  ByteMap, Section, Object, store_bytes, relocation, relocate, elf64_r_type, elf64_r_sym,
  linked_sym, relocate_each, has_relocations, relocate_sections, do_relocations,
}

-- A number that is stored: where, in how many bytes, and which.
pub record Job : Type 0 where
  pub place : ℕ
  pub width : ℕ
  pub value : ℕ

unfoldable pub job_of : Sym → (addend : ℕ) → Rela → Job
unfolding relocation elf64_r_type
job_of s addend r =
    let (width, value) = relocation (elf64_r_type r.r_info) s addend r.r_offset in
    record { place = r.r_offset; width = width; value = value }

unfoldable pub jobs_of_relas :
    List Section → (link : ℕ) → List Rela → (addends : List ℕ) → Result (List Job)
unfolding linked_sym elf64_r_sym job_of
jobs_of_relas sections link [] addends = ok []
jobs_of_relas sections link (r ∷ rs) [] = undefined
jobs_of_relas sections link (r ∷ rs) (a ∷ as') =
    linked_sym sections link (elf64_r_sym r.r_info) >>= λ s.
    jobs_of_relas sections link rs as' >>= λ rest. ok (job_of s a r ∷ rest)

unfoldable pub jobs_of_sections : List Section → (secs : List Section) → Result (List Job)
unfolding has_relocations jobs_of_relas
jobs_of_sections sections [] = ok []
jobs_of_sections sections (sec ∷ secs) =
    (if has_relocations sec
      then jobs_of_relas sections sec.shdr.sh_link sec.relas sec.addends
      else ok [])
    >>= λ first. jobs_of_sections sections secs >>= λ rest. ok (first ++ rest)

unfoldable pub jobs : Object → Result (List Job)
unfolding jobs_of_sections
jobs obj = jobs_of_sections obj.sections obj.sections

unfoldable pub run_job : Job → ByteMap → ByteMap
unfolding store_bytes mem_write
run_job j = store_bytes j.place (mem_write j.width j.value)

unfoldable pub run_jobs : List Job → ByteMap → ByteMap
unfolding run_job
run_jobs [] m = m
run_jobs (j ∷ js) m = run_jobs js (run_job j m)

run_jobs-append :
    (xs ys : List Job) (m : ByteMap) → run_jobs (xs ++ ys) m ≡ run_jobs ys (run_jobs xs m)
unfolding run_jobs
run_jobs-append [] ys m = refl
run_jobs-append (x ∷ xs) ys m = run_jobs-append xs ys (run_job x m)

abbrev pub Stored : Result (List Job) → ByteMap → Result ByteMap
Stored r m = r >>= λ js. ok (run_jobs js m)

Stored_first :
    (s : Sym) (a : ℕ) (r : Rela) (found : Result (List Job)) (m : ByteMap)
    → Stored found (relocate s a r m) ≡ Stored (found >>= λ rest. ok (job_of s a r ∷ rest)) m
unfolding relocate run_job job_of run_jobs
Stored_first s a r (ok js) m = refl
Stored_first s a r (thrown e) m = refl
Stored_first s a r undefined m = refl
Stored_first s a r out_of_fuel m = refl

Stored-append :
    (first second : Result (List Job)) (m : ByteMap)
    → (Stored first m >>= Stored second) ≡ Stored (first >>= λ xs. second >>= λ ys. ok (xs ++ ys)) m
Stored-append (ok xs) (ok ys) m = ap ok (sym (run_jobs-append xs ys m))
Stored-append (ok xs) (thrown e) m = refl
Stored-append (ok xs) undefined m = refl
Stored-append (ok xs) out_of_fuel m = refl
Stored-append (thrown e) second m = refl
Stored-append undefined second m = refl
Stored-append out_of_fuel second m = refl

relocate_each-jobs :
    (sections : List Section) (link : ℕ) (rs : List Rela) (as' : List ℕ) (m : ByteMap)
    → relocate_each sections link rs as' m ≡ Stored (jobs_of_relas sections link rs as') m
unfolding relocate_each jobs_of_relas run_jobs
relocate_each-jobs sections link [] as' m = refl
relocate_each-jobs sections link (r ∷ rs) [] m = refl
relocate_each-jobs sections link (r ∷ rs) (a ∷ as') m =
    step (linked_sym sections link (elf64_r_sym r.r_info))
      (λ s. relocate_each-jobs sections link rs as' (relocate s a r m))
  where
    step :
        (found : Result Sym)
        → ((s : Sym)
            → relocate_each sections link rs as' (relocate s a r m)
              ≡ Stored (jobs_of_relas sections link rs as') (relocate s a r m))
        → (found >>= λ s. relocate_each sections link rs as' (relocate s a r m))
          ≡ Stored
              (found >>= λ s.
                jobs_of_relas sections link rs as' >>= λ rest. ok (job_of s a r ∷ rest))
              m
    step (ok s) h = h s ∙ Stored_first s a r (jobs_of_relas sections link rs as') m
    step (thrown e) h = refl
    step undefined h = refl
    step out_of_fuel h = refl

relocate_sections-jobs :
    (sections secs : List Section) (m : ByteMap)
    → relocate_sections sections secs m ≡ Stored (jobs_of_sections sections secs) m
unfolding relocate_sections jobs_of_sections run_jobs
relocate_sections-jobs sections [] m = refl
relocate_sections-jobs sections (sec ∷ secs) m =
    let rest : relocate_sections sections secs ≡ Stored (jobs_of_sections sections secs) =
      fun_ext (relocate_sections-jobs sections secs) in
    elim (Bool-cases (has_relocations sec)) [
      | inl has ↦
          rw (has, rest, relocate_each-jobs sections sec.shdr.sh_link sec.relas sec.addends m)
            (Stored-append (jobs_of_relas sections sec.shdr.sh_link sec.relas sec.addends)
              (jobs_of_sections sections secs) m)
      | inr not_there ↦
          rw (not_there, rest) (Stored-append (ok []) (jobs_of_sections sections secs) m)
    ]

-- `do_relocations` stores the numbers of all its relocations one after another, and each number
-- depends on the symbols, the addends and the relocations only, not on the memory.
pub do_relocations-jobs :
    (obj : Object) (m : ByteMap) → do_relocations obj m ≡ (jobs obj >>= λ js. ok (run_jobs js m))
unfolding do_relocations jobs
do_relocations-jobs obj m = relocate_sections-jobs obj.sections obj.sections m
