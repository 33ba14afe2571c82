-- ===== src/Loader/Revalue.antt =====
-- What `mutate_bindings` of bootstrap/x86_64_object.c makes of the lists that `mutable_bindings` and
-- `immutable_bindings` give.
use l.Prelude.{
  ℕ, ◌≡◌, refl, Bool, true, false, not, List, [], ◌∷◌, ◌&&◌, if◌then◌else◌, inl, inr, Bool-cases,
  arith, sym, ap, ◌∙◌,
}
use l.Elf.{Sym}
use l.Loader.{ByteMap}
use l.Loader.Bindings.{
  Update, is_undefined, is_shared, name_of, holds_string, updates_sym, update_syms, update_table,
  collect_syms, collect_table,
}

-- A binding after an update: the same name, and the update's address if it is of this name.
unfoldable pub revalue : ByteMap → Update → ℕ × ℕ → ℕ × ℕ
unfolding holds_string
revalue m u b = (b.0, if holds_string m b.0 u.name then u.address else b.1)

unfoldable pub revalue_each : ByteMap → Update → List (ℕ × ℕ) → List (ℕ × ℕ)
unfolding revalue
revalue_each m u [] = []
revalue_each m u (b ∷ bs) = revalue m u b ∷ revalue_each m u bs

-- All the updates, one after another.
unfoldable pub revalue_all : ByteMap → List Update → List (ℕ × ℕ) → List (ℕ × ℕ)
unfolding revalue_each
revalue_all m [] bs = bs
revalue_all m (u ∷ us) bs = revalue_all m us (revalue_each m u bs)

-- What an update makes of a symbol, and what is collected of one.
updated : ByteMap → ℕ → Update → Sym → Sym
updated m base u s = if updates_sym m base u s then record s { st_value = u.address } else s

collect : Bool → ℕ → Sym → List (ℕ × ℕ) → List (ℕ × ℕ)
collect flag base s found =
    if (if is_undefined s then flag else not flag) && is_shared s
    then (name_of base s, s.st_value) ∷ found
    else found

update_parts :
    (m : ByteMap) (base : ℕ) (u : Update) (s : Sym)
    → updates_sym m base u s ≡ true
    → (holds_string m (name_of base s) u.name ≡ true)
      × (is_undefined s ≡ true)
      × (is_shared s ≡ true)
unfolding updates_sym
update_parts m base u s h = (ground arith, ground arith, ground arith)

abbrev set_value : ℕ → Sym → Sym
set_value v s = record s { st_value = v }

set_undefined : (v : ℕ) (s : Sym) → is_undefined (set_value v s) ≡ is_undefined s
unfolding is_undefined
set_undefined v s = refl

set_shared : (v : ℕ) (s : Sym) → is_shared (set_value v s) ≡ is_shared s
unfolding is_shared
set_shared v s = refl

set_name : (v base : ℕ) (s : Sym) → name_of base (set_value v s) ≡ name_of base s
unfolding name_of
set_name v base s = refl

updated_hit :
    (m : ByteMap) (base : ℕ) (u : Update) (s : Sym)
    → updates_sym m base u s ≡ true
    → updated m base u s ≡ set_value u.address s
unfolding updated
updated_hit m base u s h = rw h refl

updated_kept :
    (m : ByteMap) (base : ℕ) (u : Update) (s : Sym)
    → updates_sym m base u s ≡ false
    → updated m base u s ≡ s
unfolding updated
updated_kept m base u s h = rw h refl

collect_none :
    (flag : Bool) (base : ℕ) (s : Sym) (found : List (ℕ × ℕ))
    → is_undefined s ≡ not flag
    → collect flag base s found ≡ found
unfolding collect
collect_none true base s found h = rw h refl
collect_none false base s found h = rw h refl

collect_private :
    (flag : Bool) (base : ℕ) (s : Sym) (found : List (ℕ × ℕ))
    → is_shared s ≡ false
    → collect flag base s found ≡ found
unfolding collect
collect_private flag base s found h = ground arith

collect_one :
    (base : ℕ) (s : Sym) (found : List (ℕ × ℕ))
    → is_undefined s ≡ true
    → is_shared s ≡ true
    → collect true base s found ≡ (name_of base s, s.st_value) ∷ found
unfolding collect
collect_one base s found h h' = rw (h, h') refl

revalue_hit :
    (m : ByteMap) (u : Update) (name v : ℕ)
    → holds_string m name u.name ≡ true
    → revalue m u (name, v) ≡ (name, u.address)
unfolding revalue
revalue_hit m u name v h = rw h refl

revalue_kept :
    (m : ByteMap) (u : Update) (name v : ℕ)
    → holds_string m name u.name ≡ false
    → revalue m u (name, v) ≡ (name, v)
unfolding revalue
revalue_kept m u name v h = rw h refl

not_named :
    (m : ByteMap) (base : ℕ) (u : Update) (s : Sym)
    → updates_sym m base u s ≡ false
    → is_undefined s ≡ true
    → is_shared s ≡ true
    → holds_string m (name_of base s) u.name ≡ false
unfolding updates_sym
not_named m base u s h loose shared = ground arith

collect_immutable :
    (m : ByteMap) (base : ℕ) (u : Update) (s : Sym) (found : List (ℕ × ℕ))
    → collect false base (updated m base u s) found ≡ collect false base s found
collect_immutable m base u s found = elim (Bool-cases (updates_sym m base u s)) [
  | inl hit ↦
      let (_, loose, _) = update_parts m base u s hit in
      rw (updated_hit m base u s hit) (
        collect_none false base (set_value u.address s) found (set_undefined u.address s ∙ loose)
        ∙ sym (collect_none false base s found loose))
  | inr kept ↦ rw (updated_kept m base u s kept) refl
]

collect_mutable :
    (m : ByteMap) (base : ℕ) (u : Update) (s : Sym) (found : List (ℕ × ℕ))
    → collect true base (updated m base u s) (revalue_each m u found)
      ≡ revalue_each m u (collect true base s found)
unfolding revalue_each
collect_mutable m base u s found = elim (Bool-cases (updates_sym m base u s)) [
  | inl hit ↦
      let (named, loose, shared) = update_parts m base u s hit in
      let new = set_value u.address s in
      rw (updated_hit m base u s hit, collect_one base s found loose shared)
        (collect_one base new (revalue_each m u found) (set_undefined u.address s ∙ loose)
            (set_shared u.address s ∙ shared)
          ∙ ap (λ (b : ℕ × ℕ). b ∷ revalue_each m u found)
              (ap (λ (n : ℕ). (n, u.address)) (set_name u.address base s)
                ∙ sym (revalue_hit m u (name_of base s) s.st_value named)))
  | inr kept ↦ rw (updated_kept m base u s kept) (elim (Bool-cases (is_undefined s)) [
    | inr bound ↦
        collect_none true base s (revalue_each m u found) bound
        ∙ ap (revalue_each m u) (sym (collect_none true base s found bound))
    | inl loose ↦ elim (Bool-cases (is_shared s)) [
      | inr private ↦
          collect_private true base s (revalue_each m u found) private
          ∙ ap (revalue_each m u) (sym (collect_private true base s found private))
      | inl shared ↦ rw (collect_one base s found loose shared) (
          collect_one base s (revalue_each m u found) loose shared
          ∙ ap (λ (b : ℕ × ℕ). b ∷ revalue_each m u found)
              (sym (
                revalue_kept m u (name_of base s) s.st_value
                  (not_named m base u s kept loose shared))))
    ]
  ])
]

-- A symbol table.
syms_mutable :
    (m : ByteMap) (base : ℕ) (u : Update) (ss : List Sym) (found : List (ℕ × ℕ))
    → collect_syms true base (update_syms m base u ss) (revalue_each m u found)
      ≡ revalue_each m u (collect_syms true base ss found)
unfolding collect_syms update_syms collect updated
syms_mutable m base u [] found = refl
syms_mutable m base u (s ∷ ss) found =
    ap (λ (bs : List (ℕ × ℕ)). collect_syms true base (update_syms m base u ss) bs)
      (collect_mutable m base u s found)
    ∙ syms_mutable m base u ss (collect true base s found)

syms_immutable :
    (m : ByteMap) (base : ℕ) (u : Update) (ss : List Sym) (found : List (ℕ × ℕ))
    → collect_syms false base (update_syms m base u ss) found ≡ collect_syms false base ss found
unfolding collect_syms update_syms collect updated
syms_immutable m base u [] found = refl
syms_immutable m base u (s ∷ ss) found =
    ap (λ (bs : List (ℕ × ℕ)). collect_syms false base (update_syms m base u ss) bs)
      (collect_immutable m base u s found)
    ∙ syms_immutable m base u ss (collect false base s found)

pub table_mutable :
    (m : ByteMap) (base : ℕ) (u : Update) (ss : List Sym) (found : List (ℕ × ℕ))
    → collect_table true base (update_table m base u ss) (revalue_each m u found)
      ≡ revalue_each m u (collect_table true base ss found)
unfolding collect_table update_table
table_mutable m base u [] found = refl
table_mutable m base u (s ∷ ss) found = syms_mutable m base u ss found

pub table_immutable :
    (m : ByteMap) (base : ℕ) (u : Update) (ss : List Sym) (found : List (ℕ × ℕ))
    → collect_table false base (update_table m base u ss) found ≡ collect_table false base ss found
unfolding collect_table update_table
table_immutable m base u [] found = refl
table_immutable m base u (s ∷ ss) found = syms_immutable m base u ss found
