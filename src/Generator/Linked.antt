-- ===== src/Generator/Linked.antt =====
-- `generate_program` of bootstrap/x86_64_generator.c: its labels and the targets of its jumps.
use l.Prelude.{
  ℕ, ◌+◌, ◌≤◌, ◌<◌, ◌≡◌, refl, Bool, true, false, List, [], ◌∷◌, ◌++◌, inl, inr, ◌==◌, leb,
  Bool-cases, arith, some, ap, ◌∙◌, ==_iff, leb→le,
}
use mathlib.Core.List.{reverse, reverse-append}
use l.Assembler.{Binding, Static, lnkr_sub_rip_to_ref, Instruction, jmp_rel, je_rel}
use l.Expression.{Expression, Expressions}
use l.Generator.{Passes, Code, address_of}
use l.Generator.Program.{generate_each, generate_program}
use l.Generator.Fresh.{count_label, in_range}
use l.Generator.Labels.{own_each, each-Adds}
use l.Generator.Kept.{all_of, is_calm}
use l.Generator.Targets.{each-Keeps}

count_label-append :
    (b : Binding) (xs ys : List Instruction)
    → count_label b (xs ++ ys) ≡ count_label b xs + count_label b ys
unfolding count_label
count_label-append b [] ys = omega arith
count_label-append b (x ∷ xs) ys = omega (arith, count_label-append b xs ys)

count_label_last :
    (b : Binding) (i : Instruction) (is js : List Instruction)
    → count_label b js ≡ count_label b is
    → count_label b (js ++ i ∷ []) ≡ count_label b (i ∷ is)
unfolding count_label
count_label_last b i is js h = omega (arith, h, count_label-append b js (i ∷ []))

count_label-reverse :
    (b : Binding) (is : List Instruction) → count_label b (reverse is) ≡ count_label b is
count_label-reverse b [] = refl
count_label-reverse b (i ∷ is) =
    ap (count_label b) (reverse-append (i ∷ []) is)
    ∙ count_label_last b i is (reverse is) (count_label-reverse b is)

all_of-append :
    (ok : Instruction → Bool) (xs ys : List Instruction)
    → all_of ok xs ≡ true
    → all_of ok ys ≡ true
    → all_of ok (xs ++ ys) ≡ true
unfolding all_of
all_of-append ok [] ys h h' = h'
all_of-append ok (x ∷ xs) ys h h' = ground (arith, all_of-append ok xs ys)

all_of_parts :
    (ok : Instruction → Bool) (i : Instruction) (is : List Instruction)
    → all_of ok (i ∷ is) ≡ true
    → (all_of ok (i ∷ []) ≡ true) × (all_of ok is ≡ true)
unfolding all_of
all_of_parts ok i is h = ground arith

all_of-reverse :
    (ok : Instruction → Bool) (is : List Instruction)
    → all_of ok is ≡ true
    → all_of ok (reverse is) ≡ true
all_of-reverse ok [] h = h
all_of-reverse ok (i ∷ is) h =
    let (first, rest) = all_of_parts ok i is h in
    rw (reverse-append (i ∷ []) is)
      (all_of-append ok (reverse is) (i ∷ []) (all_of-reverse ok is rest) first)

-- A jump to a label goes to a binding that passes the test; other instructions do not count.
unfoldable pub passes : (Binding → Bool) → Static → Bool
passes ok (lnkr_sub_rip_to_ref b) = ok b
passes ok _ = false

unfoldable pub goes_to : (Binding → Bool) → Instruction → Bool
unfolding passes
goes_to ok (jmp_rel target) = passes ok target
goes_to ok (je_rel target) = passes ok target
goes_to ok _ = true

calm_goes : (ok : Binding → Bool) (i : Instruction) → is_calm i ≡ true → goes_to ok i ≡ true
unfolding goes_to is_calm
calm_goes ok (jmp_rel target) h = absurd cc
calm_goes ok (je_rel target) h = absurd cc
calm_goes ok i h = refl

in_range_inside : (b lo hi : ℕ) → lo ≤ b → b < hi → in_range b lo hi ≡ 1
unfolding in_range
in_range_inside b lo hi h h' = ground arith

in_range_outside : (b lo hi : ℕ) → b < lo → in_range b lo hi ≡ 0
unfolding in_range
in_range_outside b lo hi h = ground arith

is_once : (n : ℕ) → n ≡ 1 → (n == 1) ≡ true
is_once n h = (==_iff n 1).1 h

module _ (p : Passes) (exprs : Expressions) (first : Binding) where
  abbrev done : Code
  done = generate_each p exprs (record { next = first; c = [] })

  count_in_program :
      (b : Binding)
      → count_label b (reverse done.c) ≡ in_range b first done.next + own_each p b exprs
  unfolding count_label
  count_in_program b =
      count_label-reverse b done.c
      ∙ omega (arith, (each-Adds p b exprs (record { next = first; c = [] })).counted)

  -- Among the bindings that no pass has used before, the code of a program holds each one that it
  -- makes as one label, and no other. Any other binding is a label as often as the program has a
  -- function of that name, or a continuation or `with` whose code goes on there, that is generated.
  pub generate_program-labels :
      (last : Binding) × (first ≤ last)
      × ((b : Binding)
          → count_label b (generate_program p exprs first)
            ≡ in_range b first last + own_each p b exprs)
  unfolding generate_program count_label
  generate_program-labels =
      let start : Code = record { next = first; c = [] } in
      (done.next, (each-Adds p 0 exprs start).ordered, count_in_program)

  -- Every jump to a label in the code of a program goes to a label that the code has exactly once.
  -- The program's own labels lie below the bindings that are free, and a jump that is cut short
  -- goes on in a continuation or `with` that the program generates once.
  pub generate_program-targets :
      ((b : Binding) → first ≤ b → own_each p b exprs ≡ 0)
      → ((a : ℕ) (target : Expression)
          → p.short_circuit a ≡ some target
          → own_each p (p.cont_instr_of (address_of target)) exprs ≡ 1)
      → let program = generate_program p exprs first in
        all_of (goes_to (λ b. count_label b program == 1)) program ≡ true
  unfolding generate_program goes_to passes all_of
  generate_program-targets below once =
      let start : Code = record { next = first; c = [] } in
      let ok = λ (b : Binding). count_label b (reverse done.c) == 1 in
      let made = λ (b : Binding) (low : first ≤ b) (high : b < done.next).
        is_once (count_label b (reverse done.c)) (
          omega
            (arith, count_in_program b, below b low, in_range_inside b first done.next low high)) in
      all_of-reverse (goes_to ok) done.c (
        each-Keeps p (goes_to ok) first done.next
          (record {
            calm = calm_goes ok;
            jumps = made;
            branches = made;
            cut_short =
                λ a target short. cut (p.cont_instr_of (address_of target)) (once a target short);
          })
          exprs start (omega arith) (omega arith) refl)
    where
      cut : (b : Binding) → own_each p b exprs ≡ 1 → (count_label b (reverse done.c) == 1) ≡ true
      cut b h = elim (Bool-cases (leb first b)) [
        | inl high ↦ absurd (omega (arith, below b (leb→le first b high), h))
        | inr low ↦
            let outside = in_range_outside b first done.next (ground arith) in
            is_once (count_label b (reverse done.c)) (omega (arith, count_in_program b, outside, h))
      ]
