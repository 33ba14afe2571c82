-- ===== src/Generator/Scopes.antt =====
-- How many labels each function `sgenerate_…` of bootstrap/x86_64_generator.c adds to the code.
use l.Prelude.{
  ℕ, suc, ◌+◌, ◌*◌, ◌≡◌, refl, inl, inr, ◌==◌, ltb, if◌then◌else◌, Bool-cases, arith, some, none,
  Option, Option-cases,
}
use l.Assembler.{lnkr_sub_rip_to_ref, label, jmp_rel, je_rel, orq_reg_to_reg, movq_reg_to_reg}
use l.Expression.{Expression, Expressions}
use l.Frames.{count_arguments}
use l.Generator.{
  rax, r10, r11, Passes, Code, emit, new_label, make_load, make_load_address,
  make_store_continuation, cond_push_relative_storage, push_buffer, first_aug, frame_depth,
  address_of, parameters_of, is_continuation,
}
use l.Generator.Control.{
  sgenerate_ifs, sgenerate_continuations, sgenerate_withs, short_jump, long_jump, sgenerate_jumps,
  sgenerate_functions, sgenerate_invokes, enter_function, leave_function,
}
use l.Generator.Plain.{
  is_free, make_load-Plain, make_load_address-Plain, make_store_continuation-Plain,
  generate_buffer_to_dest-Plain, load_continuation-Plain,
}
use l.Generator.Fresh.{
  labelled, count_label, in_range_one, in_range_split, Labels, Adds, Same, Same-refl, Same-trans,
  Same-Labels, Labels-trans, Plain-Same, emit-Same, emit-Labels, scope-Labels, call_function-Same,
  enter_function-Same, leave_function-Same, cond_push-Same, cond_pop_storage-Same, push_buffer-Same,
}

-- The counts may be written in another way.
pub recount : {b m n : ℕ} {s t : Code} → m ≡ n → Labels b m s t → Labels b n s t
recount h l = record { ordered = l.ordered; counted = omega (arith, l.counted) }

-- Code without labels in front, and code without labels behind.
pub behind : {b n : ℕ} {s t u : Code} → Same b s t → Labels b n t u → Labels b n s u
behind {b} h l = recount (omega arith) (Labels-trans (Same-Labels h) l)

pub before : {b n : ℕ} {s t u : Code} → Labels b n s t → Same b t u → Labels b n s u
before {b} l h = recount (omega arith) (Labels-trans l (Same-Labels h))

pub sgenerate_ifs-Adds :
    (b l m n : ℕ) (condition consequent alternate : Code → Code)
    → Adds b l condition
    → Adds b m consequent
    → Adds b n alternate
    → Adds b (l + m + n) (sgenerate_ifs condition consequent alternate)
unfolding sgenerate_ifs emit new_label count_label labelled
sgenerate_ifs-Adds b l m n condition consequent alternate h h' h'' s =
    let tested = emit (orq_reg_to_reg rax rax) (condition s) in
    let branch = emit (je_rel (lnkr_sub_rip_to_ref tested.next)) (new_label tested) in
    let taken = consequent branch in
    let skipped = emit (jmp_rel (lnkr_sub_rip_to_ref taken.next)) (new_label taken) in
    let other = emit (label tested.next) skipped in
    let first = h s in
    let second = h' branch in
    let third = h'' other in
    record {
      ordered = omega (arith, first.ordered, second.ordered, third.ordered);
      counted = omega (
        arith,
        first.counted,
        second.counted,
        third.counted,
        first.ordered,
        second.ordered,
        third.ordered,
        in_range_one b tested.next,
        in_range_one b taken.next,
        in_range_split b s.next tested.next (alternate other).next first.ordered (omega arith),
        in_range_split b tested.next (suc tested.next) (alternate other).next (omega arith)
            (omega arith),
        in_range_split b (suc tested.next) taken.next (alternate other).next second.ordered
            (omega arith),
        in_range_split b taken.next (suc taken.next) (alternate other).next (omega arith)
            (omega arith),
      );
    }

-- A jump within a function has no code for a reference that is no continuation, nor for
-- arguments that nothing takes.
unfoldable pub jump_labels : Option Expression → Expression → ℕ → ℕ → ℕ
unfolding is_continuation parameters_of count_arguments
jump_labels none ref m n = n + m
jump_labels (some target) ref m n =
    (if is_continuation ref then m else 0)
    + (if ltb 0 (count_arguments (parameters_of target)) then n else 0)

module _ (p : Passes) where
  pub sgenerate_continuations-Adds :
      (b n a : ℕ) (ref : Expression) (body : Code → Code)
      → Adds b n body
      → Adds b
          ((if p.cont_instr_of a == b then 1 else 0) + n)
          (sgenerate_continuations p a ref body)
  unfolding sgenerate_continuations labelled is_free
  sgenerate_continuations-Adds b n a ref body h s =
      let save =
        λ (t : Code). make_store_continuation p a ref (make_load_address p (p.aug_of ref) rax t) in
      let saved : Code = if p.escapes a then save s else s in
      let saved-Same : Same b s saved = elim (Bool-cases (p.escapes a)) [
        | inl escapes ↦ rw escapes (
            Same-trans (Plain-Same b (make_load_address-Plain p (p.aug_of ref) rax refl))
              (Plain-Same b (make_store_continuation-Plain p a ref)))
        | inr stays ↦ rw stays Same-refl
      ] in
      let skipped = emit (jmp_rel (lnkr_sub_rip_to_ref saved.next)) (new_label saved) in
      let entered = emit (label (p.cont_instr_of a)) skipped in
      behind saved-Same (
        scope-Labels b _ saved (body entered) (
          behind (emit-Same b (jmp_rel (lnkr_sub_rip_to_ref saved.next)) (new_label saved) refl)
            (Labels-trans (emit-Labels b (p.cont_instr_of a) skipped) (h entered))))

  pub sgenerate_withs-Adds :
      (b n a : ℕ) (ref : Expression) (param : Expressions) (body : Code → Code)
      → Adds b n body
      → Adds b (n + (if p.cont_instr_of a == b then 1 else 0)) (sgenerate_withs p a ref param body)
  unfolding sgenerate_withs labelled is_free
  sgenerate_withs-Adds b n a ref param body h s =
      let saved : Code = if p.escapes a then make_store_continuation p a ref s else s in
      let saved-Same : Same b s saved = elim (Bool-cases (p.escapes a)) [
        | inl escapes ↦ rw escapes (Plain-Same b (make_store_continuation-Plain p a ref))
        | inr stays ↦ rw stays Same-refl
      ] in
      let done = body saved in
      let skipped = emit (jmp_rel (lnkr_sub_rip_to_ref done.next)) (new_label done) in
      let entered = emit (label (p.cont_instr_of a)) skipped in
      let loaded = make_load p (first_aug p param) 0 rax r10 entered in
      behind saved-Same (
        Labels-trans (h saved) (
          scope-Labels b _ done loaded (
            before
              (behind (emit-Same b (jmp_rel (lnkr_sub_rip_to_ref done.next)) (new_label done) refl)
                (emit-Labels b (p.cont_instr_of a) skipped))
              (Plain-Same b (make_load-Plain p (first_aug p param) 0 rax r10 refl refl)))))

  pub sgenerate_functions-Adds :
      (b n a : ℕ) (ref : Expression) (body : Code → Code)
      → Adds b n body
      → Adds b ((if p.aug_of ref == b then 1 else 0) + n) (sgenerate_functions p a ref body)
  unfolding sgenerate_functions labelled is_free
  sgenerate_functions-Adds b n a ref body h s =
      let loaded = make_load_address p (p.aug_of ref) rax s in
      let skipped = emit (jmp_rel (lnkr_sub_rip_to_ref loaded.next)) (new_label loaded) in
      let named = emit (label (p.aug_of ref)) skipped in
      let entered = enter_function (frame_depth p (p.frame_of a)) named in
      let left = leave_function (body entered) in
      behind (Plain-Same b (make_load_address-Plain p (p.aug_of ref) rax refl)) (
        scope-Labels b _ loaded left (
          behind (emit-Same b (jmp_rel (lnkr_sub_rip_to_ref loaded.next)) (new_label loaded) refl) (
            Labels-trans (emit-Labels b (p.aug_of ref) skipped) (
              behind (enter_function-Same b (frame_depth p (p.frame_of a)) named)
                (before (h entered) (leave_function-Same b (body entered)))))))

  pub sgenerate_invokes-Adds :
      (b m n a : ℕ) (args : Expressions) (ref_code args_code : Code → Code)
      → Adds b m ref_code
      → Adds b n args_code
      → Adds b (n + m) (sgenerate_invokes p a args ref_code args_code)
  unfolding sgenerate_invokes
  sgenerate_invokes-Adds b m n a args ref_code args_code h h' s =
      let count = count_arguments args in
      let ready = cond_push_relative_storage p a args s in
      let stored = args_code ready in
      let pushed : Code = if p.contains_flag a == 3 then push_buffer p a count stored else stored in
      let pushed-Same : Same b stored pushed = elim (Bool-cases (p.contains_flag a == 3)) [
        | inl has_with ↦ rw has_with (push_buffer-Same p b a count stored)
        | inr none_there ↦ rw none_there Same-refl
      ] in
      behind (cond_push-Same p b a args s) (
        before (Labels-trans (h' ready) (behind pushed-Same (h pushed)))
          (call_function-Same b count (ref_code pushed)))

  pub short_jump-Adds :
      (b m n a : ℕ) (ref : Expression) (args : Expressions) (target : Expression)
      (ref_code args_code : Code → Code)
      → Adds b m ref_code
      → Adds b n args_code
      → Adds b
          (jump_labels (some target) ref m n)
          (short_jump p a ref args target ref_code args_code)
  unfolding short_jump jump_labels labelled is_free
  short_jump-Adds b m n a ref args target ref_code args_code h h' s =
      let ready : Code = if is_continuation ref then ref_code s else s in
      let ready-Labels : Labels b (if is_continuation ref then m else 0) s ready =
        elim (Bool-cases (is_continuation ref)) [
          | inl generated ↦ rw generated (h s)
          | inr known ↦ rw known (Same-Labels Same-refl)
        ] in
      let pushed = cond_push_relative_storage p a args ready in
      let stored = args_code pushed in
      let goal = emit (jmp_rel (lnkr_sub_rip_to_ref (p.cont_instr_of (address_of target)))) in
      elim (Bool-cases (ltb 0 (count_arguments (parameters_of target)))) [
        | inl takes ↦ rw takes (
            Labels-trans ready-Labels (
              behind (cond_push-Same p b a args ready) (
                before (h' pushed) (
                  Same-trans
                    (Same-trans
                      (Plain-Same b
                        (make_load_address-Plain p (first_aug p (parameters_of target)) r11 refl))
                      (Plain-Same b (generate_buffer_to_dest-Plain p a args r11 0 0 refl)))
                    (Same-trans (cond_pop_storage-Same p b a args _) (
                      emit-Same b
                        (jmp_rel (lnkr_sub_rip_to_ref (p.cont_instr_of (address_of target)))) _
                        refl))))))
        | inr takes_none ↦ rw takes_none (
            Labels-trans ready-Labels (
              Same-Labels (
                emit-Same b (jmp_rel (lnkr_sub_rip_to_ref (p.cont_instr_of (address_of target))))
                  ready refl)))
      ]

  pub long_jump-Adds :
      (b m n a : ℕ) (args : Expressions) (ref_code args_code : Code → Code)
      → Adds b m ref_code
      → Adds b n args_code
      → Adds b (n + m) (long_jump p a args ref_code args_code)
  unfolding long_jump labelled is_free
  long_jump-Adds b m n a args ref_code args_code h h' s =
      let pushed = cond_push_relative_storage p a args s in
      let stored = args_code pushed in
      let found = ref_code stored in
      behind (cond_push-Same p b a args s) (
        before (Labels-trans (h' pushed) (h stored)) (
          Same-trans
            (Same-trans (emit-Same b (movq_reg_to_reg rax r11) found refl)
              (Plain-Same b (generate_buffer_to_dest-Plain p a args r11 (7 * 8) 0 refl)))
            (Same-trans (cond_pop_storage-Same p b a args _)
              (Plain-Same b load_continuation-Plain))))

  pub sgenerate_jumps-Adds :
      (b m n a : ℕ) (ref : Expression) (args : Expressions) (ref_code args_code : Code → Code)
      → Adds b m ref_code
      → Adds b n args_code
      → Adds b
          (jump_labels (p.short_circuit a) ref m n)
          (sgenerate_jumps p a ref args ref_code args_code)
  unfolding sgenerate_jumps jump_labels
  sgenerate_jumps-Adds b m n a ref args ref_code args_code h h' s =
      elim (Option-cases (p.short_circuit a)) [
        | inl long ↦
            rw (long, sgenerate_jumps) (long_jump-Adds b m n a args ref_code args_code h h' s)
        | inr (target, short) ↦
            rw (short, sgenerate_jumps)
              (short_jump-Adds b m n a ref args target ref_code args_code h h' s)
      ]
