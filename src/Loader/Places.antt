-- ===== src/Loader/Places.antt =====
-- The memory after `do_relocations` of bootstrap/x86_64_object.c, once or again.
use l.Prelude.{
  ℕ, ◌+◌, ◌%◌, ◌^◌, ◌≡◌, refl, Bool, true, false, List, [], ◌∷◌, ◌==◌, ◌&&◌, ◌||◌, inl, inr,
  Bool-cases, arith, sym, ap, ap₂, ◌∙◌, subst, leb,
}
use mathlib.Core.Path.{fun_ext}
use l.Result.{Result, ok}
use l.Assembler.{mem_write}
use l.Loader.{ByteMap, Object, load_number, do_relocations}
use l.Loader.Memory.{
  lies_in, store_bytes_outside, store_bytes_inside, length-mem_write, load_number-store_bytes,
  load_number_same,
}
use l.Loader.Jobs.{Job, jobs, run_job, run_jobs, Stored, do_relocations-jobs}

run_job_outside :
    (j : Job) (x : ℕ) (m : ByteMap) → lies_in x j.place j.width ≡ false → run_job j m x ≡ m x
unfolding run_job
run_job_outside j x m h =
    store_bytes_outside j.place x (mem_write j.width j.value) m
      (rw (length-mem_write j.width j.value) h)

run_job_inside :
    (j : Job) (x : ℕ) (m m' : ByteMap)
    → lies_in x j.place j.width ≡ true
    → run_job j m x ≡ run_job j m' x
unfolding run_job
run_job_inside j x m m' h =
    store_bytes_inside j.place x (mem_write j.width j.value) m m'
      (rw (length-mem_write j.width j.value) h)

run_job_stored :
    (j : Job) (m : ByteMap) → load_number j.width j.place (run_job j m) ≡ j.value % 256 ^ j.width
unfolding run_job
run_job_stored j m = load_number-store_bytes j.width j.place j.value m

pub stored_value :
    {r : Result (List Job)} {js : List Job} {m' : ByteMap} (m : ByteMap)
    → r ≡ ok js
    → Stored r m ≡ ok m'
    → run_jobs js m ≡ m'
stored_value m found done = let e = ap (λ r. Stored r m) found in cc

-- The bytes that jobs store to.
unfoldable pub covers : List Job → ℕ → Bool
unfolding lies_in
covers [] x = false
covers (j ∷ js) x = lies_in x j.place j.width || covers js x

pub run_jobs_outside :
    (js : List Job) (x : ℕ) (m : ByteMap) → covers js x ≡ false → run_jobs js m x ≡ m x
unfolding run_jobs covers
run_jobs_outside [] x m h = refl
run_jobs_outside (j ∷ js) x m h =
    run_jobs_outside js x (run_job j m) (ground arith) ∙ run_job_outside j x m (ground arith)

pub run_jobs_inside :
    (js : List Job) (x : ℕ) (m m' : ByteMap)
    → covers js x ≡ true
    → run_jobs js m x ≡ run_jobs js m' x
unfolding run_jobs covers
run_jobs_inside [] x m m' h = absurd cc
run_jobs_inside (j ∷ js) x m m' h = elim (Bool-cases (covers js x)) [
  | inl later ↦ run_jobs_inside js x (run_job j m) (run_job j m') later
  | inr last ↦
      run_jobs_outside js x (run_job j m) last
      ∙ run_job_inside j x m m' (ground arith)
      ∙ sym (run_jobs_outside js x (run_job j m') last)
]

-- Jobs that store in the same places.
unfoldable pub same_places : List Job → List Job → Bool
same_places [] [] = true
same_places [] (k ∷ ks) = false
same_places (j ∷ js) [] = false
same_places (j ∷ js) (k ∷ ks) = j.place == k.place && (j.width == k.width && same_places js ks)

same_parts :
    (j k : Job) (b : Bool)
    → (j.place == k.place && (j.width == k.width && b)) ≡ true
    → (j.place ≡ k.place) × (j.width ≡ k.width) × (b ≡ true)
same_parts j k b h = (ground arith, ground arith, ground arith)

covers_same : (js ks : List Job) (x : ℕ) → same_places js ks ≡ true → covers js x ≡ covers ks x
unfolding same_places covers
covers_same [] [] x h = refl
covers_same [] (k ∷ ks) x h = absurd cc
covers_same (j ∷ js) [] x h = absurd cc
covers_same (j ∷ js) (k ∷ ks) x h =
    let (place, width, rest) = same_parts j k (same_places js ks) h in
    ap₂ (λ (b c : Bool). b || c) (ap₂ (λ (a n : ℕ). lies_in x a n) place width)
      (covers_same js ks x rest)

-- What was stored in these places before makes no difference.
pub run_jobs_again :
    (js ks : List Job) (m : ByteMap)
    → same_places js ks ≡ true
    → run_jobs ks (run_jobs js m) ≡ run_jobs ks m
run_jobs_again js ks m same = fun_ext at
  where
    at : (x : ℕ) → run_jobs ks (run_jobs js m) x ≡ run_jobs ks m x
    at x = elim (Bool-cases (covers ks x)) [
      | inl inside ↦ run_jobs_inside ks x (run_jobs js m) m inside
      | inr outside ↦
          run_jobs_outside ks x (run_jobs js m) outside
          ∙ run_jobs_outside js x m (covers_same js ks x same ∙ outside)
          ∙ sym (run_jobs_outside ks x m outside)
    ]

-- No byte belongs to two of the jobs.
unfoldable pub is_clear : Job → List Job → Bool
is_clear j [] = true
is_clear j (k ∷ ks) =
    (leb (j.place + j.width) k.place || leb (k.place + k.width) j.place) && is_clear j ks

unfoldable pub all_apart : List Job → Bool
unfolding is_clear
all_apart [] = true
all_apart (j ∷ js) = is_clear j js && all_apart js

clear_not_covered :
    (j : Job) (js : List Job) (x : ℕ)
    → is_clear j js ≡ true
    → lies_in x j.place j.width ≡ true
    → covers js x ≡ false
unfolding is_clear covers lies_in
clear_not_covered j [] x h inside = refl
clear_not_covered j (k ∷ ks) x h inside = ground (arith, clear_not_covered j ks x)

-- Each number can be read where it was stored, cut to its bytes.
unfoldable pub AllStored : ByteMap → List Job → Type 0
AllStored m [] = Unit {0}
AllStored m (j ∷ js) = (load_number j.width j.place m ≡ j.value % 256 ^ j.width) × AllStored m js

run_jobs-AllStored :
    (js : List Job) (m : ByteMap) → all_apart js ≡ true → AllStored (run_jobs js m) js
unfolding AllStored run_jobs all_apart
run_jobs-AllStored [] m apart = tt
run_jobs-AllStored (j ∷ js) m apart =
    let clear : is_clear j js ≡ true = ground arith in
    (
      load_number_same j.width j.place (run_jobs js (run_job j m)) (run_job j m) (λ x inside.
            run_jobs_outside js x (run_job j m) (clear_not_covered j js x clear inside))
          ∙ run_job_stored j m,
      run_jobs-AllStored js (run_job j m) (ground arith),
    )

-- After the relocations each relocated place holds the number that the switch gives for it, cut to
-- its bytes, and every byte outside these places is as it was. No byte belongs to two relocations.
pub do_relocations-AllStored :
    (obj : Object) (m m' : ByteMap) (js : List Job)
    → jobs obj ≡ ok js
    → all_apart js ≡ true
    → do_relocations obj m ≡ ok m'
    → AllStored m' js × ((x : ℕ) → covers js x ≡ false → m' x ≡ m x)
do_relocations-AllStored obj m m' js found apart done =
    let same : run_jobs js m ≡ m' = stored_value m found (sym (do_relocations-jobs obj m) ∙ done) in
    (
      subst (λ s. AllStored s js) same (run_jobs-AllStored js m apart),
      λ x outside. ap (λ (s : ByteMap). s x) (sym same) ∙ run_jobs_outside js x m outside,
    )

-- Relocations may be done again, after the values of symbols have changed: the memory is then the
-- one that they would have given at once. The two objects relocate the same places.
pub do_relocations_again :
    (obj obj' : Object) (m m' m'' : ByteMap) (js ks : List Job)
    → jobs obj ≡ ok js
    → jobs obj' ≡ ok ks
    → same_places js ks ≡ true
    → do_relocations obj m ≡ ok m'
    → do_relocations obj' m' ≡ ok m''
    → do_relocations obj' m ≡ ok m''
do_relocations_again obj obj' m m' m'' js ks found found' same done done' =
    let first : run_jobs js m ≡ m' =
      stored_value m found (sym (do_relocations-jobs obj m) ∙ done) in
    let second : run_jobs ks m' ≡ m'' =
      stored_value m' found' (sym (do_relocations-jobs obj' m') ∙ done') in
    do_relocations-jobs obj' m
    ∙ rw found' (ap ok (sym (run_jobs_again js ks m same) ∙ ap (run_jobs ks) first ∙ second))
