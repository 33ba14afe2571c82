-- ===== src/Loader/Listed.antt =====
-- The bindings of an object of bootstrap/x86_64_object.c before and after `mutate_bindings`.
use l.Prelude.{
  ℕ, zero, suc, ◌≡◌, refl, Bool, true, false, List, [], ◌∷◌, if◌then◌else◌, inl, inr, Bool-cases,
  sym, ap, ◌∙◌, subst,
}
use l.Result.{Result, ok, thrown, undefined, out_of_fuel, ◌>>=◌}
use l.Elf.{Sym}
use l.Loader.{ByteMap, Section, Object, do_relocations}
use l.Loader.Bindings.{
  Update, segment_at, is_symtab, update_table, update_sections, update_each, mutate_bindings,
  collect_table, collect_sections, bindings, mutable_bindings, immutable_bindings,
}
use l.Loader.Mutate.{SameRelas, ok_parts, ok_value, updated_section, update_sections-SameRelas}
use l.Loader.Revalue.{revalue_each, revalue_all, table_mutable, table_immutable}

abbrev Bindings : Type 0
Bindings = List (ℕ × ℕ)

same_segments : (ss ts : List Section) (i : ℕ) → SameRelas ss ts → segment_at ss i ≡ segment_at ts i
unfolding segment_at SameRelas
same_segments [] [] i h = refl
same_segments [] (t ∷ ts) i h = absurd h
same_segments (s ∷ ss) [] i h = absurd h
same_segments (s ∷ ss) (t ∷ ts) zero h = ap ok h.1
same_segments (s ∷ ss) (t ∷ ts) (suc i) h = same_segments ss ts i h.4

with_ok : (r : Result Bindings) → (r >>= λ bs. ok bs) ≡ r
with_ok (ok bs) = refl
with_ok (thrown e) = refl
with_ok undefined = refl
with_ok out_of_fuel = refl

two_steps :
    (m : ByteMap) (u : Update) (us : List Update) (r : Result Bindings)
    → (r >>= (λ bs. ok (revalue_each m u bs)) >>= (λ bs. ok (revalue_all m us bs)))
      ≡ (r >>= λ bs. ok (revalue_all m (u ∷ us) bs))
unfolding revalue_all
two_steps m u us (ok bs) = refl
two_steps m u us (thrown e) = refl
two_steps m u us undefined = refl
two_steps m u us out_of_fuel = refl

-- What a section adds.
collected : Bool → List Section → Section → Bindings → Result Bindings
collected flag sections sec found =
    if is_symtab sec
    then segment_at sections sec.shdr.sh_link
      >>= (λ base. ok (collect_table flag base sec.syms found))
    else ok found

symtab_kept : (sec : Section) (ss : List Sym) → is_symtab (record sec { syms = ss }) ≡ is_symtab sec
unfolding is_symtab
symtab_kept sec ss = refl

collected_symtab :
    (flag : Bool) (sections : List Section) (sec : Section) (found : Bindings) (base : ℕ)
    → is_symtab sec ≡ true
    → segment_at sections sec.shdr.sh_link ≡ ok base
    → collected flag sections sec found ≡ ok (collect_table flag base sec.syms found)
unfolding collected
collected_symtab flag sections sec found base has at = rw (has, at) refl

collected_other :
    (flag : Bool) (sections : List Section) (sec : Section) (found : Bindings)
    → is_symtab sec ≡ false
    → collected flag sections sec found ≡ ok found
unfolding collected
collected_other flag sections sec found h = rw h refl

module _ (m : ByteMap) (u : Update) (flag : Bool) (change : Bindings → Bindings)
    (table : (base : ℕ) (ss : List Sym) (found : Bindings)
      → collect_table flag base (update_table m base u ss) (change found)
        ≡ change (collect_table flag base ss found)) where
  changed : Result Bindings → Result Bindings
  changed r = r >>= λ bs. ok (change bs)

  then_changed :
      (r : Result Bindings) (k k' : Bindings → Result Bindings)
      → ((bs : Bindings) → k' (change bs) ≡ changed (k bs))
      → (changed r >>= k') ≡ changed (r >>= k)
  unfolding changed
  then_changed (ok bs) k k' h = h bs
  then_changed (thrown e) k k' h = refl
  then_changed undefined k k' h = refl
  then_changed out_of_fuel k k' h = refl

  section_changed :
      (sections sections' : List Section) (sec sec' : Section) (found : Bindings)
      → SameRelas sections sections'
      → updated_section m u sections sec ≡ ok sec'
      → collected flag sections' sec' (change found) ≡ changed (collected flag sections sec found)
  unfolding changed updated_section
  section_changed sections sections' sec sec' found same h = elim (Bool-cases (is_symtab sec)) [
    | inl has ↦
        let (base, at, e) = ok_parts (segment_at sections sec.shdr.sh_link) _ (rw has at h) in
        let new : Section = record sec { syms = update_table m base u sec.syms } in
        let at' = sym (same_segments sections sections' sec.shdr.sh_link same) ∙ at in
        let has' = symtab_kept sec (update_table m base u sec.syms) ∙ has in
        subst
          (λ (s : Section).
            collected flag sections' s (change found) ≡ changed (collected flag sections sec found))
          (ok_value e)
          (collected_symtab flag sections' new (change found) base has' at'
            ∙ ap ok (table base sec.syms found)
            ∙ sym (ap changed (collected_symtab flag sections sec found base has at)))
    | inr has_none ↦
        subst
          (λ (s : Section).
            collected flag sections' s (change found) ≡ changed (collected flag sections sec found))
          (ok_value (rw has_none at h))
          (collected_other flag sections' sec (change found) has_none
            ∙ sym (ap changed (collected_other flag sections sec found has_none)))
  ]

  sections_changed :
      (sections sections' secs secs' : List Section) (found : Bindings)
      → SameRelas sections sections'
      → update_sections m u sections secs ≡ ok secs'
      → collect_sections flag sections' secs' (change found)
        ≡ changed (collect_sections flag sections secs found)
  unfolding collect_sections update_sections updated_section collected changed
  sections_changed sections sections' [] secs' found same h =
      subst
        (λ (ss : List Section).
          collect_sections flag sections' ss (change found) ≡ ok (change found))
        (ok_value h) refl
  sections_changed sections sections' (sec ∷ secs) secs' found same h =
      let (sec', first, h') = ok_parts (updated_section m u sections sec) _ h in
      let (rest, second, e) = ok_parts (update_sections m u sections secs) _ h' in
      subst
        (λ (ss : List Section).
          collect_sections flag sections' ss (change found)
          ≡ changed (collect_sections flag sections (sec ∷ secs) found))
        (ok_value e)
        (ap (λ (r : Result Bindings). r >>= collect_sections flag sections' rest)
            (section_changed sections sections' sec sec' found same first)
          ∙ then_changed (collected flag sections sec found) (collect_sections flag sections secs)
              (collect_sections flag sections' rest)
              (λ bs. sections_changed sections sections' secs rest bs same second))

-- One update, in the whole object.
mutable_changed :
    (m : ByteMap) (u : Update) (secs secs' : List Section)
    → update_sections m u secs secs ≡ ok secs'
    → collect_sections true secs' secs' []
      ≡ (collect_sections true secs secs [] >>= λ bs. ok (revalue_each m u bs))
unfolding changed revalue_each
mutable_changed m u secs secs' h =
    sections_changed m u true (revalue_each m u) (λ base. table_mutable m base u) secs secs' secs
      secs' [] (update_sections-SameRelas m u secs secs secs' h) h

immutable_changed :
    (m : ByteMap) (u : Update) (secs secs' : List Section)
    → update_sections m u secs secs ≡ ok secs'
    → collect_sections false secs' secs' [] ≡ collect_sections false secs secs []
unfolding changed
immutable_changed m u secs secs' h =
    sections_changed m u false (λ bs. bs) (λ base. table_immutable m base u) secs secs' secs secs'
      [] (update_sections-SameRelas m u secs secs secs' h) h
    ∙ with_ok (collect_sections false secs secs [])

each_mutable :
    (m : ByteMap) (us : List Update) (secs secs' : List Section)
    → update_each m us secs ≡ ok secs'
    → collect_sections true secs' secs' []
      ≡ (collect_sections true secs secs [] >>= λ bs. ok (revalue_all m us bs))
unfolding update_each revalue_all
each_mutable m [] secs secs' h =
    sym (with_ok (collect_sections true secs' secs' []))
    ∙ ap (λ (ss : List Section). collect_sections true ss ss [] >>= λ bs. ok bs) (sym (ok_value h))
each_mutable m (u ∷ us) secs secs' h =
    let (between, first, rest) = ok_parts (update_sections m u secs secs) (update_each m us) h in
    each_mutable m us between secs' rest
    ∙ ap (λ (r : Result Bindings). r >>= λ bs. ok (revalue_all m us bs))
        (mutable_changed m u secs between first)
    ∙ two_steps m u us (collect_sections true secs secs [])

each_immutable :
    (m : ByteMap) (us : List Update) (secs secs' : List Section)
    → update_each m us secs ≡ ok secs'
    → collect_sections false secs' secs' [] ≡ collect_sections false secs secs []
unfolding update_each
each_immutable m [] secs secs' h =
    ap (λ (ss : List Section). collect_sections false ss ss []) (sym (ok_value h))
each_immutable m (u ∷ us) secs secs' h =
    let (between, first, rest) = ok_parts (update_sections m u secs secs) (update_each m us) h in
    each_immutable m us between secs' rest ∙ immutable_changed m u secs between first

-- After `mutate_bindings` the mutable bindings are those of before, in their order and under their
-- names, and each has the address of the last update of its name, or the one that it had if there is
-- none; the immutable bindings are just those of before.
pub mutate_bindings-listed :
    (obj obj' : Object) (updates : List Update) (m m' : ByteMap)
    → mutate_bindings obj updates m ≡ ok (obj', m')
    → (mutable_bindings obj' ≡ (mutable_bindings obj >>= λ bs. ok (revalue_all m updates bs)))
      × (immutable_bindings obj' ≡ immutable_bindings obj)
unfolding mutate_bindings mutable_bindings immutable_bindings bindings
mutate_bindings-listed obj obj' updates m m' mutated =
    let (secs, updated, h) = ok_parts (update_each m updates obj.sections) _ mutated in
    let new : Object = record obj { sections = secs } in
    let (last, _, e) = ok_parts (do_relocations new m) _ h in
    let same : new ≡ obj' = ap (λ (q : Object × ByteMap). q.0) (ok_value e) in
    subst
      (λ (o : Object).
        (collect_sections true o.sections o.sections [] ≡ (
          collect_sections true obj.sections obj.sections [] >>= λ bs.
          ok (revalue_all m updates bs)))
        × (collect_sections false o.sections o.sections []
            ≡ collect_sections false obj.sections obj.sections []))
      same
      (
        each_mutable m updates obj.sections secs updated,
        each_immutable m updates obj.sections secs updated,
      )
