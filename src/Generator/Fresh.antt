-- ===== src/Generator/Fresh.antt =====
-- The labels that the functions `sgenerate_…` of bootstrap/x86_64_generator.c make and write.
use l.Prelude.{
  ℕ, zero, suc, ◌+◌, ◌-◌, ◌*◌, ◌≤◌, ◌≡◌, refl, true, List, [], ◌∷◌, inl, inr, ◌==◌, ltb, leb, ◌&&◌,
  if◌then◌else◌, Bool-cases, arith, ◌∙◌,
}
use l.Assembler.{
  Binding, Static, Instruction, label, pushq_reg, popq_reg, movq_reg_to_reg, subq_imm_to_reg,
  addq_imm_to_reg, movq_imm_to_reg, call_reg,
}
use l.Expression.{Expressions}
use l.Frames.{
  absolute_storage, frame_relative_storage, top_relative_storage, nil_storage, count_arguments,
}
use l.Generator.{
  rax, r10, r11, Passes, Code, emit, new_label, cond_push_relative_storage,
  cond_pop_relative_storage, push_buffer,
}
use l.Generator.Control.{cond_pop, pop_arguments, call_function, enter_function, leave_function}
use l.Generator.Plain.{is_plain, is_free, Plain, start, more, make_load-Plain}

unfoldable pub labelled : Binding → Instruction → ℕ
labelled b (label l) = if l == b then 1 else 0
labelled b _ = 0

unfoldable pub count_label : Binding → List Instruction → ℕ
unfolding labelled
count_label b [] = 0
count_label b (i ∷ is) = labelled b i + count_label b is

-- Whether `b` is one of the bindings from `lo` up to `hi`.
unfoldable pub in_range : Binding → Binding → Binding → ℕ
in_range b lo hi = if leb lo b && ltb b hi then 1 else 0

pub in_range_split :
    (b lo mid hi : ℕ)
    → lo ≤ mid
    → mid ≤ hi
    → in_range b lo hi ≡ in_range b lo mid + in_range b mid hi
unfolding in_range
in_range_split b lo mid hi h h' = ground arith

pub in_range_one : (b n : ℕ) → in_range b n (suc n) ≡ (if n == b then 1 else 0)
unfolding in_range
in_range_one b n = ground arith

pub in_range_none : (b n : ℕ) → in_range b n n ≡ 0
unfolding in_range
in_range_none b n = ground arith

-- From `s` to `t` there are `n` more labels `b`, besides those that are made between.
pub record Labels (b n : ℕ) (s t : Code) : Type 0 where
  pub ordered : s.next ≤ t.next
  pub counted : count_label b t.c ≡ count_label b s.c + in_range b s.next t.next + n

abbrev pub Adds : ℕ → ℕ → (Code → Code) → Type 0
Adds b n f = (s : Code) → Labels b n s (f s)

-- No label is made, and none is written.
pub record Same (b : ℕ) (s t : Code) : Type 0 where
  pub next_eq : t.next ≡ s.next
  pub count_eq : count_label b t.c ≡ count_label b s.c

pub Same-refl : {b : ℕ} {s : Code} → Same b s s
Same-refl = record { next_eq = refl; count_eq = refl }

pub Same-trans : {b : ℕ} {s t u : Code} → Same b s t → Same b t u → Same b s u
Same-trans h k = record { next_eq = k.next_eq ∙ h.next_eq; count_eq = k.count_eq ∙ h.count_eq }

pub Same-Labels : {b : ℕ} {s t : Code} → Same b s t → Labels b 0 s t
Same-Labels {b} {s} {t} h = record {
  ordered = omega (arith, h.next_eq);
  counted = rw (h.next_eq) (omega (arith, h.count_eq, in_range_none b s.next));
}

pub Labels-trans :
    {b m n : ℕ} {s t u : Code} → Labels b m s t → Labels b n t u → Labels b (m + n) s u
Labels-trans {b} {m} {n} {s} {t} {u} h k = record {
  ordered = omega (arith, h.ordered, k.ordered);
  counted = omega (
    arith,
    h.counted,
    k.counted,
    h.ordered,
    k.ordered,
    in_range_split b s.next t.next u.next h.ordered k.ordered,
  );
}

plain_not_label : (b : ℕ) (i : Instruction) → is_plain i ≡ true → labelled b i ≡ 0
unfolding labelled is_plain
plain_not_label b (label l) h = absurd cc
plain_not_label b i h = refl

pub Plain-Same : (b : ℕ) {s t : Code} → Plain s t → Same b s t
unfolding count_label emit
Plain-Same b start = Same-refl
Plain-Same b (more i h q) =
    let before = Plain-Same b q in
    record {
      next_eq = before.next_eq;
      count_eq = rw (plain_not_label b i h) (omega (arith, before.count_eq));
    }

-- An instruction that is no label.
pub emit-Same : (b : ℕ) (i : Instruction) (s : Code) → labelled b i ≡ 0 → Same b s (emit i s)
unfolding count_label emit
emit-Same b i s h = record { next_eq = refl; count_eq = rw h (omega arith) }

-- A label that is not of this run.
pub emit-Labels : (b l : ℕ) (s : Code) → Labels b (if l == b then 1 else 0) s (emit (label l) s)
unfolding count_label emit labelled
emit-Labels b l s = record {
  ordered = omega arith;
  counted = omega (arith, in_range_none b s.next);
}

-- A label that is made first and written when `f` is done.
pub scope-Labels :
    (b n : ℕ) (s t : Code) → Labels b n (new_label s) t → Labels b n s (emit (label s.next) t)
unfolding count_label emit labelled new_label
scope-Labels b n s t h = record {
  ordered = omega (arith, h.ordered);
  counted = omega (
    arith,
    h.counted,
    in_range_one b s.next,
    in_range_split b s.next (suc s.next) t.next (omega arith) h.ordered,
  );
}

pub cond_pop-Same : (b k count reg : ℕ) (s : Code) → Same b s (cond_pop k count reg s)
unfolding cond_pop labelled
cond_pop-Same b k count reg s = elim (Bool-cases (ltb k count)) [
  | inl pops ↦ rw pops (emit-Same b (popq_reg reg) s refl)
  | inr not_there ↦ rw not_there Same-refl
]

pub pop_arguments-Same : (b count : ℕ) (s : Code) → Same b s (pop_arguments count s)
unfolding pop_arguments
pop_arguments-Same b count s =
    Same-trans
      (Same-trans (Same-trans (cond_pop-Same b 0 count 7 s) (cond_pop-Same b 1 count 6 _))
        (Same-trans (cond_pop-Same b 2 count 2 _) (cond_pop-Same b 3 count 1 _)))
      (Same-trans (cond_pop-Same b 4 count 8 _) (cond_pop-Same b 5 count 9 _))

pub call_function-Same : (b count : ℕ) (s : Code) → Same b s (call_function count s)
unfolding call_function labelled
call_function-Same b count s =
    let ready = emit (movq_reg_to_reg rax r11) s in
    let popped = pop_arguments count ready in
    let zeroed = emit (movq_imm_to_reg (Static.literal 0) rax) popped in
    let called = emit (call_reg r11) zeroed in
    let done : Same b s called =
      Same-trans
        (Same-trans (emit-Same b (movq_reg_to_reg rax r11) s refl)
          (pop_arguments-Same b count ready))
        (Same-trans (emit-Same b (movq_imm_to_reg (Static.literal 0) rax) popped refl)
          (emit-Same b (call_reg r11) zeroed refl)) in
    elim (Bool-cases (ltb 6 count)) [
      | inl more_left ↦
          rw more_left (Same-trans done (emit-Same b (addq_imm_to_reg (8 * (count - 6)) 4) _ refl))
      | inr all_popped ↦ rw all_popped done
    ]

pub enter_function-Same : (b depth : ℕ) (s : Code) → Same b s (enter_function depth s)
unfolding enter_function emit count_label labelled
enter_function-Same b depth s = record { next_eq = refl; count_eq = omega arith }

pub leave_function-Same : (b : ℕ) (s : Code) → Same b s (leave_function s)
unfolding leave_function emit count_label labelled
leave_function-Same b s = record { next_eq = refl; count_eq = omega arith }

module _ (p : Passes) where
  pub cond_push-Same :
      (b a : ℕ) (args : Expressions) (s : Code) → Same b s (cond_push_relative_storage p a args s)
  unfolding cond_push_relative_storage labelled
  cond_push-Same b a args s =
      elim (p.fields.type_of (p.temp_of a))
        as (λ type. Same b s (elim type [
          | top_relative_storage ↦ emit (subq_imm_to_reg (count_arguments args * 8) 4) s
          | _ ↦ s
        ])) [
          | absolute_storage ↦ Same-refl
          | frame_relative_storage ↦ Same-refl
          | top_relative_storage ↦ emit-Same b (subq_imm_to_reg (count_arguments args * 8) 4) s refl
          | nil_storage ↦ Same-refl
        ]

  pub cond_pop_storage-Same :
      (b a : ℕ) (args : Expressions) (s : Code) → Same b s (cond_pop_relative_storage p a args s)
  unfolding cond_pop_relative_storage labelled
  cond_pop_storage-Same b a args s =
      elim (p.fields.type_of (p.temp_of a))
        as (λ type. Same b s (elim type [
          | top_relative_storage ↦ emit (addq_imm_to_reg (count_arguments args * 8) 4) s
          | _ ↦ s
        ])) [
          | absolute_storage ↦ Same-refl
          | frame_relative_storage ↦ Same-refl
          | top_relative_storage ↦ emit-Same b (addq_imm_to_reg (count_arguments args * 8) 4) s refl
          | nil_storage ↦ Same-refl
        ]

  pub push_buffer-Same : (b a count : ℕ) (s : Code) → Same b s (push_buffer p a count s)
  unfolding push_buffer labelled is_free
  push_buffer-Same b a zero s = Same-refl
  push_buffer-Same b a (suc count) s =
      Same-trans
        (Same-trans (Plain-Same b (make_load-Plain p (p.temp_of a) (count * 8) r11 r10 refl refl))
          (emit-Same b (pushq_reg r11) _ refl))
        (push_buffer-Same b a count _)
