-- ===== src/Loader/Mutate.antt =====
-- `mutate_bindings` of bootstrap/x86_64_object.c: what it changes, and the memory behind it.
use l.Prelude.{
  ℕ, ◌≡◌, refl, true, false, List, [], ◌∷◌, ◌++◌, ◌==◌, ◌||◌, if◌then◌else◌, inl, inr, Bool-cases,
  arith, sym, ap, ◌∙◌, subst, ==_iff,
}
use l.Result.{Result, ok, thrown, undefined, out_of_fuel, ◌>>=◌}
use l.Assembler.{Rela}
use l.Elf.{Sym}
use l.Elf.Structures.{Shdr}
use l.Loader.{
  ByteMap, Section, Object, relocation, elf64_r_type, elf64_r_sym, linked_sym, has_relocations,
  do_relocations,
}
use l.Loader.Jobs.{Job, job_of, jobs_of_relas, jobs_of_sections, jobs, do_relocations-jobs}
use l.Loader.Places.{same_places, do_relocations_again}
use l.Loader.Bindings.{
  Update, segment_at, is_symtab, update_table, update_sections, update_each, mutate_bindings,
}

-- How many bytes a relocation changes is a matter of its type.
relocation-width :
    (type : ℕ) (s s' : Sym) (a a' place : ℕ)
    → (relocation type s a place).0 ≡ (relocation type s' a' place).0
unfolding relocation
relocation-width type s s' a a' place = ground arith

same_sum : (x y : ℕ) → x ≡ y → (x == y) ≡ true
same_sum x y h = (==_iff x y).1 h

job_places :
    (s s' : Sym) (a a' : ℕ) (r : Rela) (js ks : List Job)
    → same_places js ks ≡ true
    → same_places (job_of s a r ∷ js) (job_of s' a' r ∷ ks) ≡ true
unfolding same_places job_of
job_places s s' a a' r js ks h =
    rw
      (
        same_sum r.r_offset r.r_offset refl,
        same_sum (relocation (elf64_r_type r.r_info) s a r.r_offset).0
            (relocation (elf64_r_type r.r_info) s' a' r.r_offset).0
            (relocation-width (elf64_r_type r.r_info) s s' a a' r.r_offset),
      )
      h

same_places-append :
    (js ks js' ks' : List Job)
    → same_places js ks ≡ true
    → same_places js' ks' ≡ true
    → same_places (js ++ js') (ks ++ ks') ≡ true
unfolding same_places
same_places-append [] [] js' ks' h h' = h'
same_places-append [] (k ∷ ks) js' ks' h h' = absurd cc
same_places-append (j ∷ js) [] js' ks' h h' = absurd cc
same_places-append (j ∷ js) (k ∷ ks) js' ks' h h' = ground (arith, same_places-append js ks js' ks')

-- Inversion of a successful bind.
pub ok_parts {ℓ κ} :
    {A : Type ℓ} {B : Type κ} (r : Result A) (f : A → Result B) {b : B}
    → (r >>= f) ≡ ok b
    → (a : A) × (r ≡ ok a) × (f a ≡ ok b)
ok_parts (ok a) f h = (a, refl, h)
ok_parts (thrown e) f h = absurd cc
ok_parts undefined f h = absurd cc
ok_parts out_of_fuel f h = absurd cc

relas_places :
    (sections sections' : List Section) (link link' : ℕ) (rs : List Rela) (as' bs : List ℕ)
    (js ks : List Job)
    → jobs_of_relas sections link rs as' ≡ ok js
    → jobs_of_relas sections' link' rs bs ≡ ok ks
    → same_places js ks ≡ true
unfolding jobs_of_relas same_places
relas_places sections sections' link link' [] as' bs js ks h k =
    let nothing : same_places [] [] ≡ true = refl in cc
relas_places sections sections' link link' (r ∷ rs) [] bs js ks h k = absurd cc
relas_places sections sections' link link' (r ∷ rs) (a ∷ as') [] js ks h k = absurd cc
relas_places sections sections' link link' (r ∷ rs) (a ∷ as') (b ∷ bs) js ks h k =
    let (s, _, h') = ok_parts (linked_sym sections link (elf64_r_sym r.r_info)) _ h in
    let (s', _, k') = ok_parts (linked_sym sections' link' (elf64_r_sym r.r_info)) _ k in
    let (js', first, e) = ok_parts (jobs_of_relas sections link rs as') _ h' in
    let (ks', second, e') = ok_parts (jobs_of_relas sections' link' rs bs) _ k' in
    let rest = relas_places sections sections' link link' rs as' bs js' ks' first second in
    let more = job_places s s' a b r js' ks' rest in cc

-- Sections with the same headers, segments and relocations; their symbols may have other values.
unfoldable pub SameRelas : List Section → List Section → Type 0
SameRelas [] [] = Unit {0}
SameRelas [] (t ∷ ts) = ⊥
SameRelas (s ∷ ss) [] = ⊥
SameRelas (s ∷ ss) (t ∷ ts) =
    (s.shdr ≡ t.shdr)
    × (s.seg ≡ t.seg)
    × (s.relas ≡ t.relas)
    × (s.addends ≡ t.addends)
    × SameRelas ss ts

section_jobs : List Section → Section → Result (List Job)
section_jobs sections sec =
    if has_relocations sec
    then jobs_of_relas sections sec.shdr.sh_link sec.relas sec.addends
    else ok []

section_jobs_has :
    (sections : List Section) (sec : Section)
    → has_relocations sec ≡ true
    → section_jobs sections sec ≡ jobs_of_relas sections sec.shdr.sh_link sec.relas sec.addends
unfolding section_jobs
section_jobs_has sections sec has = rw has refl

section_jobs_not :
    (sections : List Section) (sec : Section)
    → has_relocations sec ≡ false
    → section_jobs sections sec ≡ ok []
unfolding section_jobs
section_jobs_not sections sec has_none = rw has_none refl

same_kind : (sec sec' : Section) → sec.shdr ≡ sec'.shdr → has_relocations sec ≡ has_relocations sec'
unfolding has_relocations
same_kind sec sec' headers = ap (λ (h : Shdr). h.sh_type == 9 || h.sh_type == 4) headers

section_places :
    (sections sections' : List Section) (sec sec' : Section) (js ks : List Job)
    → sec.shdr ≡ sec'.shdr
    → sec.relas ≡ sec'.relas
    → section_jobs sections sec ≡ ok js
    → section_jobs sections' sec' ≡ ok ks
    → same_places js ks ≡ true
section_places sections sections' sec sec' js ks headers relas h k =
    elim (Bool-cases (has_relocations sec)) [
      | inl has ↦
          let has' = sym (same_kind sec sec' headers) ∙ has in
          let first = sym (section_jobs_has sections sec has) ∙ h in
          let second =
            ap (λ (rs : List Rela). jobs_of_relas sections' sec'.shdr.sh_link rs sec'.addends) relas
            ∙ sym (section_jobs_has sections' sec' has')
            ∙ k in
          relas_places sections sections' sec.shdr.sh_link sec'.shdr.sh_link sec.relas sec.addends
            sec'.addends js ks first second
      | inr has_none ↦
          let first = sym (section_jobs_not sections sec has_none) ∙ h in
          let second =
            sym (section_jobs_not sections' sec' (sym (same_kind sec sec' headers) ∙ has_none))
            ∙ k in
          let nothing : same_places [] [] ≡ true = unfold same_places in refl in cc
    ]

sections_places :
    (sections sections' secs secs' : List Section) (js ks : List Job)
    → SameRelas secs secs'
    → jobs_of_sections sections secs ≡ ok js
    → jobs_of_sections sections' secs' ≡ ok ks
    → same_places js ks ≡ true
unfolding jobs_of_sections SameRelas section_jobs
sections_places sections sections' [] [] js ks same h k =
    let nothing : same_places [] [] ≡ true = unfold same_places in refl in cc
sections_places sections sections' [] (t ∷ ts) js ks same h k = absurd same
sections_places sections sections' (s ∷ ss) [] js ks same h k = absurd same
sections_places sections sections' (s ∷ ss) (t ∷ ts) js ks (headers, _, relas, _, rest) h k =
    let (xs, first, h') = ok_parts (section_jobs sections s) _ h in
    let (ys, first', k') = ok_parts (section_jobs sections' t) _ k in
    let (xs', second, e) = ok_parts (jobs_of_sections sections ss) _ h' in
    let (ys', second', e') = ok_parts (jobs_of_sections sections' ts) _ k' in
    let all =
      same_places-append xs ys xs' ys'
        (section_places sections sections' s t xs ys headers relas first first')
        (sections_places sections sections' ss ts xs' ys' rest second second') in
    cc

pub ok_value {ℓ} : {A : Type ℓ} {a b : A} → ok a ≡ ok b → a ≡ b
ok_value h = cc

unfoldable pub updated_section : ByteMap → Update → List Section → Section → Result Section
updated_section m u sections sec =
    if is_symtab sec
    then segment_at sections sec.shdr.sh_link
      >>= (λ base. ok (record sec { syms = update_table m base u sec.syms }))
    else ok sec

updated_section_same :
    (m : ByteMap) (u : Update) (sections : List Section) (sec sec' : Section)
    → updated_section m u sections sec ≡ ok sec'
    → (sec.shdr ≡ sec'.shdr)
      × (sec.seg ≡ sec'.seg)
      × (sec.relas ≡ sec'.relas)
      × (sec.addends ≡ sec'.addends)
unfolding updated_section
updated_section_same m u sections sec sec' h = elim (Bool-cases (is_symtab sec)) [
  | inl has ↦
      let (base, _, e) = ok_parts (segment_at sections sec.shdr.sh_link) _ (rw has at h) in
      let same = ok_value e in
      (
        ap (λ (s : Section). s.shdr) same,
        ap (λ (s : Section). s.seg) same,
        ap (λ (s : Section). s.relas) same,
        ap (λ (s : Section). s.addends) same,
      )
  | inr has_none ↦
      let same : sec ≡ sec' = ok_value (rw has_none at h) in
      (
        ap (λ (s : Section). s.shdr) same,
        ap (λ (s : Section). s.seg) same,
        ap (λ (s : Section). s.relas) same,
        ap (λ (s : Section). s.addends) same,
      )
]

-- An update changes nothing but values of symbols.
pub update_sections-SameRelas :
    (m : ByteMap) (u : Update) (sections secs secs' : List Section)
    → update_sections m u sections secs ≡ ok secs'
    → SameRelas secs secs'
unfolding update_sections SameRelas updated_section
update_sections-SameRelas m u sections [] secs' h = subst (SameRelas []) (ok_value h) tt
update_sections-SameRelas m u sections (sec ∷ secs) secs' h =
    let (sec', first, h') = ok_parts (updated_section m u sections sec) _ h in
    let (rest, second, e) = ok_parts (update_sections m u sections secs) _ h' in
    let (a, b, c, d) = updated_section_same m u sections sec sec' first in
    subst (SameRelas (sec ∷ secs)) (ok_value e)
      (a, b, c, d, update_sections-SameRelas m u sections secs rest second)

SameRelas-refl : (secs : List Section) → SameRelas secs secs
unfolding SameRelas
SameRelas-refl [] = tt
SameRelas-refl (s ∷ ss) = (refl, refl, refl, refl, SameRelas-refl ss)

SameRelas-trans : (ss ts us : List Section) → SameRelas ss ts → SameRelas ts us → SameRelas ss us
unfolding SameRelas
SameRelas-trans [] [] us h k = k
SameRelas-trans [] (t ∷ ts) us h k = absurd h
SameRelas-trans (s ∷ ss) [] us h k = absurd h
SameRelas-trans (s ∷ ss) (t ∷ ts) [] h k = absurd k
SameRelas-trans (s ∷ ss) (t ∷ ts) (u ∷ us) (a, b, c, d, rest) (a', b', c', d', rest') =
    (a ∙ a', b ∙ b', c ∙ c', d ∙ d', SameRelas-trans ss ts us rest rest')

pub update_each-SameRelas :
    (m : ByteMap) (us : List Update) (secs secs' : List Section)
    → update_each m us secs ≡ ok secs'
    → SameRelas secs secs'
unfolding update_each
update_each-SameRelas m [] secs secs' h = subst (SameRelas secs) (ok_value h) (SameRelas-refl secs)
update_each-SameRelas m (u ∷ us) secs secs' h =
    let (between, first, rest) = ok_parts (update_sections m u secs secs) (update_each m us) h in
    SameRelas-trans secs between secs' (update_sections-SameRelas m u secs secs between first)
      (update_each-SameRelas m us between secs' rest)

object_places :
    (obj obj' : Object) (js ks : List Job)
    → SameRelas obj.sections obj'.sections
    → jobs obj ≡ ok js
    → jobs obj' ≡ ok ks
    → same_places js ks ≡ true
unfolding jobs
object_places obj obj' js ks =
    sections_places obj.sections obj'.sections obj.sections obj'.sections js ks

-- After an object has been relocated, `mutate_bindings` leaves the memory that the relocations of the
-- object with the new values give in the memory from before, so that nothing remains of the old
-- values; and the object is the one before but for values of symbols.
pub mutate_bindings-relocates :
    (obj obj' : Object) (updates : List Update) (m m' m'' : ByteMap)
    → do_relocations obj m ≡ ok m'
    → mutate_bindings obj updates m' ≡ ok (obj', m'')
    → (do_relocations obj' m ≡ ok m'')
      × SameRelas obj.sections obj'.sections
      × (obj'.e_shstrndx ≡ obj.e_shstrndx)
unfolding mutate_bindings
mutate_bindings-relocates obj obj' updates m m' m'' done mutated =
    let (secs, updated, h) = ok_parts (update_each m' updates obj.sections) _ mutated in
    let changed : Object = record obj { sections = secs } in
    let (last, again, e) = ok_parts (do_relocations changed m') _ h in
    let (js, found, _) = ok_parts (jobs obj) _ (sym (do_relocations-jobs obj m) ∙ done) in
    let (ks, found', _) =
      ok_parts (jobs changed) _ (sym (do_relocations-jobs changed m') ∙ again) in
    let kept = update_each-SameRelas m' updates obj.sections secs updated in
    let places = object_places obj changed js ks kept found found' in
    subst
      (λ (q : Object × ByteMap).
        (do_relocations q.0 m ≡ ok q.1)
        × SameRelas obj.sections q.0.sections
        × (q.0.e_shstrndx ≡ obj.e_shstrndx))
      (ok_value e)
      (do_relocations_again obj changed m m' last js ks found found' places done again, kept, refl)
