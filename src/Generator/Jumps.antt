-- ===== src/Generator/Jumps.antt =====
-- The functions `sgenerate_…` of bootstrap/x86_64_generator.c under a test on all instructions.
use l.Prelude.{
  ℕ, ◌*◌, ◌≤◌, ◌<◌, ◌≡◌, refl, Bool, true, List, ◌∷◌, inl, inr, ◌==◌, ltb, if◌then◌else◌,
  Bool-cases, arith, some, none, Option, subst,
}
use l.Assembler.{
  Binding, lnkr_sub_rip_to_ref, Instruction, label, jmp_rel, je_rel, movq_reg_to_reg,
  orq_reg_to_reg,
}
use l.Assembler.RoundTrip.{has_registers}
use l.Expression.{Expression, Expressions}
use l.Frames.{count_arguments}
use l.Generator.{
  rax, r10, r11, Passes, Code, emit, new_label, make_load, make_load_address,
  make_store_continuation, generate_buffer_to_dest, cond_push_relative_storage,
  cond_pop_relative_storage, push_buffer, first_aug, frame_depth, address_of, parameters_of,
  is_continuation,
}
use l.Generator.Control.{
  call_function, enter_function, leave_function, sgenerate_ifs, sgenerate_continuations,
  sgenerate_withs, short_jump, long_jump, sgenerate_jumps, sgenerate_functions, sgenerate_invokes,
}
use l.Generator.Plain.{
  is_free, Plain, start, Plain-trans, make_load-Plain, make_load_address-Plain,
  make_store_continuation-Plain, generate_buffer_to_dest-Plain, load_continuation-Plain,
}
use l.Generator.Fresh.{
  Same, Same-refl, Plain-Same, call_function-Same, enter_function-Same, leave_function-Same,
  cond_push-Same, cond_pop_storage-Same, push_buffer-Same,
}
use l.Generator.Kept.{
  all_of, is_calm, AllowsCode, Keeps, Part, ok_first, calm_first, Plain-Keeps, call_function-Keeps,
  enter_function-Keeps, leave_function-Keeps, push_buffer-Keeps, cond_push-Keeps,
  cond_pop_storage-Keeps,
}

module _ (p : Passes) (ok : Instruction → Bool) (lo hi : Binding)
    (rules : AllowsCode p ok lo hi) where
  pub jump_first :
      (b : Binding) (is : List Instruction)
      → lo ≤ b
      → b < hi
      → all_of ok is ≡ true
      → all_of ok (jmp_rel (lnkr_sub_rip_to_ref b) ∷ is) ≡ true
  jump_first b is low high =
      ok_first p ok lo hi rules (jmp_rel (lnkr_sub_rip_to_ref b)) is (rules.jumps b low high)

  pub sgenerate_ifs-Keeps :
      (condition consequent alternate : Code → Code)
      → Part p ok lo hi rules condition
      → Part p ok lo hi rules consequent
      → Part p ok lo hi rules alternate
      → (s : Code) → lo ≤ s.next
      → (sgenerate_ifs condition consequent alternate s).next ≤ hi
      → Keeps p ok lo hi rules s (sgenerate_ifs condition consequent alternate s)
  unfolding sgenerate_ifs emit new_label is_calm has_registers
  sgenerate_ifs-Keeps condition consequent alternate h h' h'' s low high kept =
      let tested = emit (orq_reg_to_reg rax rax) (condition s) in
      let branch = emit (je_rel (lnkr_sub_rip_to_ref tested.next)) (new_label tested) in
      let taken = consequent branch in
      let skipped = emit (jmp_rel (lnkr_sub_rip_to_ref taken.next)) (new_label taken) in
      let other = emit (label tested.next) skipped in
      let up = h.grows s in
      let up' = h'.grows branch in
      let up'' = h''.grows other in
      calm_first p ok lo hi rules (label taken.next) (alternate other).c refl (
        h''.keeps other (omega arith) high (
          calm_first p ok lo hi rules (label tested.next) skipped.c refl (
            jump_first taken.next taken.c (omega arith) (omega arith) (
              h'.keeps branch (omega arith) (omega arith) (
                ok_first p ok lo hi rules (je_rel (lnkr_sub_rip_to_ref tested.next)) tested.c
                  (rules.branches tested.next (omega arith) (omega arith))
                  (calm_first p ok lo hi rules (orq_reg_to_reg rax rax) (condition s).c refl
                    (h.keeps s low (omega arith) kept)))))))

  pub sgenerate_continuations-Keeps :
      (a : ℕ) (ref : Expression) (body : Code → Code)
      → Part p ok lo hi rules body
      → (s : Code) → lo ≤ s.next
      → (sgenerate_continuations p a ref body s).next ≤ hi
      → Keeps p ok lo hi rules s (sgenerate_continuations p a ref body s)
  unfolding sgenerate_continuations emit new_label is_calm has_registers is_free
  sgenerate_continuations-Keeps a ref body h s low high kept =
      let save =
        λ (t : Code). make_store_continuation p a ref (make_load_address p (p.aug_of ref) rax t) in
      let saved : Code = if p.escapes a then save s else s in
      let save-Plain : Plain s (save s) =
        Plain-trans (make_load_address-Plain p (p.aug_of ref) rax refl)
          (make_store_continuation-Plain p a ref) in
      let saved-Plain : Plain s saved = elim (Bool-cases (p.escapes a)) [
        | inl escapes ↦ rw escapes save-Plain
        | inr stays ↦ rw stays start
      ] in
      let same = (Plain-Same 0 saved-Plain).next_eq in
      let skipped = emit (jmp_rel (lnkr_sub_rip_to_ref saved.next)) (new_label saved) in
      let entered = emit (label (p.cont_instr_of a)) skipped in
      let up = h.grows entered in
      calm_first p ok lo hi rules (label saved.next) (body entered).c refl (
        h.keeps entered (omega arith) high (
          calm_first p ok lo hi rules (label (p.cont_instr_of a)) skipped.c refl (
            jump_first saved.next saved.c (omega arith) (omega arith)
              (Plain-Keeps p ok lo hi rules saved-Plain kept))))

  pub sgenerate_withs-Keeps :
      (a : ℕ) (ref : Expression) (param : Expressions) (body : Code → Code)
      → Part p ok lo hi rules body
      → (s : Code) → lo ≤ s.next
      → (sgenerate_withs p a ref param body s).next ≤ hi
      → Keeps p ok lo hi rules s (sgenerate_withs p a ref param body s)
  unfolding sgenerate_withs emit new_label is_calm has_registers is_free
  sgenerate_withs-Keeps a ref param body h s low high kept =
      let saved : Code = if p.escapes a then make_store_continuation p a ref s else s in
      let saved-Plain : Plain s saved = elim (Bool-cases (p.escapes a)) [
        | inl escapes ↦ rw escapes (make_store_continuation-Plain p a ref)
        | inr stays ↦ rw stays start
      ] in
      let same = (Plain-Same 0 saved-Plain).next_eq in
      let done = body saved in
      let skipped = emit (jmp_rel (lnkr_sub_rip_to_ref done.next)) (new_label done) in
      let entered = emit (label (p.cont_instr_of a)) skipped in
      let load-Plain = make_load-Plain p (first_aug p param) 0 rax r10 {s = entered} refl refl in
      let same' = (Plain-Same 0 load-Plain).next_eq in
      let up = h.grows saved in
      calm_first p ok lo hi rules (label done.next)
        (make_load p (first_aug p param) 0 rax r10 entered).c refl
        (Plain-Keeps p ok lo hi rules load-Plain (
          calm_first p ok lo hi rules (label (p.cont_instr_of a)) skipped.c refl (
            jump_first done.next done.c (omega arith) (omega arith) (
              h.keeps saved (omega arith) (omega arith)
                (Plain-Keeps p ok lo hi rules saved-Plain kept)))))

  pub sgenerate_functions-Keeps :
      (a : ℕ) (ref : Expression) (body : Code → Code)
      → Part p ok lo hi rules body
      → (s : Code) → lo ≤ s.next
      → (sgenerate_functions p a ref body s).next ≤ hi
      → Keeps p ok lo hi rules s (sgenerate_functions p a ref body s)
  unfolding sgenerate_functions emit new_label is_calm has_registers is_free
  sgenerate_functions-Keeps a ref body h s low high kept =
      let loaded = make_load_address p (p.aug_of ref) rax s in
      let load-Plain = make_load_address-Plain p (p.aug_of ref) rax {s = s} refl in
      let same = (Plain-Same 0 load-Plain).next_eq in
      let skipped = emit (jmp_rel (lnkr_sub_rip_to_ref loaded.next)) (new_label loaded) in
      let named = emit (label (p.aug_of ref)) skipped in
      let depth = frame_depth p (p.frame_of a) in
      let entered = enter_function depth named in
      let same' = (enter_function-Same 0 depth named).next_eq in
      let left = leave_function (body entered) in
      let same'' = (leave_function-Same 0 (body entered)).next_eq in
      let up = h.grows entered in
      calm_first p ok lo hi rules (label loaded.next) left.c refl (
        leave_function-Keeps p ok lo hi rules (body entered) (
          h.keeps entered (omega arith) (omega arith) (
            enter_function-Keeps p ok lo hi rules depth named (
              calm_first p ok lo hi rules (label (p.aug_of ref)) skipped.c refl (
                jump_first loaded.next loaded.c (omega arith) (omega arith)
                  (Plain-Keeps p ok lo hi rules load-Plain kept))))))

  pub sgenerate_invokes-Keeps :
      (a : ℕ) (args : Expressions) (ref_code args_code : Code → Code)
      → Part p ok lo hi rules ref_code
      → Part p ok lo hi rules args_code
      → (s : Code) → lo ≤ s.next
      → (sgenerate_invokes p a args ref_code args_code s).next ≤ hi
      → Keeps p ok lo hi rules s (sgenerate_invokes p a args ref_code args_code s)
  unfolding sgenerate_invokes
  sgenerate_invokes-Keeps a args ref_code args_code h h' s low high kept =
      let count = count_arguments args in
      let ready = cond_push_relative_storage p a args s in
      let same = (cond_push-Same p 0 a args s).next_eq in
      let stored = args_code ready in
      let pushed : Code = if p.contains_flag a == 3 then push_buffer p a count stored else stored in
      let pushed-Same : Same 0 stored pushed = elim (Bool-cases (p.contains_flag a == 3)) [
        | inl has_with ↦ rw has_with (push_buffer-Same p 0 a count stored)
        | inr none_there ↦ rw none_there Same-refl
      ] in
      let pushed-Keeps : Keeps p ok lo hi rules stored pushed =
        elim (Bool-cases (p.contains_flag a == 3)) [
          | inl has_with ↦ rw has_with (push_buffer-Keeps p ok lo hi rules a count stored)
          | inr none_there ↦ rw none_there (λ k. k)
        ] in
      let same' = pushed-Same.next_eq in
      let called = call_function count (ref_code pushed) in
      let same'' = (call_function-Same 0 count (ref_code pushed)).next_eq in
      let up = h.grows pushed in
      let up' = h'.grows ready in
      call_function-Keeps p ok lo hi rules count (ref_code pushed) (
        h.keeps pushed (omega arith) (omega arith) (
          pushed-Keeps (
            h'.keeps ready (omega arith) (omega arith)
              (cond_push-Keeps p ok lo hi rules a args s kept))))

  short_jump-Keeps :
      (a : ℕ) (ref : Expression) (args : Expressions) (target : Expression)
      (ref_code args_code : Code → Code)
      → p.short_circuit a ≡ some target
      → Part p ok lo hi rules ref_code
      → Part p ok lo hi rules args_code
      → (s : Code) → lo ≤ s.next
      → (short_jump p a ref args target ref_code args_code s).next ≤ hi
      → Keeps p ok lo hi rules s (short_jump p a ref args target ref_code args_code s)
  unfolding short_jump emit is_free
  short_jump-Keeps a ref args target ref_code args_code short h h' s low high kept =
      let goal = p.cont_instr_of (address_of target) in
      let params = parameters_of target in
      let ready : Code = if is_continuation ref then ref_code s else s in
      let up : s.next ≤ ready.next = elim (Bool-cases (is_continuation ref)) [
        | inl generated ↦ rw generated (h.grows s)
        | inr known ↦ rw known (omega arith)
      ] in
      let ready_kept : ready.next ≤ hi → Keeps p ok lo hi rules s ready =
        elim (Bool-cases (is_continuation ref)) [
          | inl generated ↦ rw generated (h.keeps s low)
          | inr known ↦ rw known (λ _ k. k)
        ] in
      let pushed = cond_push_relative_storage p a args ready in
      let same = (cond_push-Same p 0 a args ready).next_eq in
      let stored = args_code pushed in
      let up' = h'.grows pushed in
      let copy-Plain =
        Plain-trans (make_load_address-Plain p (first_aug p params) r11 {s = stored} refl)
          (generate_buffer_to_dest-Plain p a args r11 0 0 refl) in
      let same' = (Plain-Same 0 copy-Plain).next_eq in
      let copied =
        generate_buffer_to_dest p a args r11 0 0
          (make_load_address p (first_aug p params) r11 stored) in
      let passed = cond_pop_relative_storage p a args copied in
      let same'' = (cond_pop_storage-Same p 0 a args copied).next_eq in
      elim (Bool-cases (ltb 0 (count_arguments params))) [
        | inl takes ↦
            let high' : passed.next ≤ hi =
              subst (λ (x : Bool). (if x then passed else ready).next ≤ hi) takes high in
            rw takes (
              ok_first p ok lo hi rules (jmp_rel (lnkr_sub_rip_to_ref goal)) passed.c
                (rules.cut_short a target short)
                (cond_pop_storage-Keeps p ok lo hi rules a args copied (
                  Plain-Keeps p ok lo hi rules copy-Plain (
                    h'.keeps pushed (omega arith) (omega arith) (
                      cond_push-Keeps p ok lo hi rules a args ready
                        (ready_kept (omega arith) kept))))))
        | inr takes_none ↦
            let high' : ready.next ≤ hi =
              subst (λ (x : Bool). (if x then passed else ready).next ≤ hi) takes_none high in
            rw takes_none (
              ok_first p ok lo hi rules (jmp_rel (lnkr_sub_rip_to_ref goal)) ready.c
                (rules.cut_short a target short) (ready_kept high' kept))
      ]

  long_jump-Keeps :
      (a : ℕ) (args : Expressions) (ref_code args_code : Code → Code)
      → Part p ok lo hi rules ref_code
      → Part p ok lo hi rules args_code
      → (s : Code) → lo ≤ s.next
      → (long_jump p a args ref_code args_code s).next ≤ hi
      → Keeps p ok lo hi rules s (long_jump p a args ref_code args_code s)
  unfolding long_jump emit is_calm has_registers is_free
  long_jump-Keeps a args ref_code args_code h h' s low high kept =
      let pushed = cond_push_relative_storage p a args s in
      let same = (cond_push-Same p 0 a args s).next_eq in
      let stored = args_code pushed in
      let up = h.grows stored in
      let up' = h'.grows pushed in
      let found = emit (movq_reg_to_reg rax r11) (ref_code stored) in
      let copied = generate_buffer_to_dest p a args r11 (7 * 8) 0 found in
      let copy-Plain = generate_buffer_to_dest-Plain p a args r11 (7 * 8) 0 {s = found} refl in
      let same' = (Plain-Same 0 copy-Plain).next_eq in
      let popped = cond_pop_relative_storage p a args copied in
      let same_popped = (cond_pop_storage-Same p 0 a args copied).next_eq in
      let same_loaded = (Plain-Same 0 (load_continuation-Plain {s = popped})).next_eq in
      Plain-Keeps p ok lo hi rules (load_continuation-Plain {s = popped}) (
        cond_pop_storage-Keeps p ok lo hi rules a args copied (
          Plain-Keeps p ok lo hi rules copy-Plain (
            calm_first p ok lo hi rules (movq_reg_to_reg rax r11) (ref_code stored).c refl (
              h.keeps stored (omega arith) (omega arith) (
                h'.keeps pushed (omega arith) (omega arith)
                  (cond_push-Keeps p ok lo hi rules a args s kept))))))

  pub sgenerate_jumps-Keeps :
      (a : ℕ) (ref : Expression) (args : Expressions) (ref_code args_code : Code → Code)
      → Part p ok lo hi rules ref_code
      → Part p ok lo hi rules args_code
      → (s : Code) → lo ≤ s.next
      → (sgenerate_jumps p a ref args ref_code args_code s).next ≤ hi
      → Keeps p ok lo hi rules s (sgenerate_jumps p a ref args ref_code args_code s)
  unfolding sgenerate_jumps
  sgenerate_jumps-Keeps a ref args ref_code args_code h h' s low =
      elim (p.short_circuit a)
          as (λ (o : Option Expression).
            p.short_circuit a ≡ o
            → (let t : Code = elim o [
              | some target ↦ short_jump p a ref args target ref_code args_code s
              | none ↦ long_jump p a args ref_code args_code s
            ] in
                t.next ≤ hi → Keeps p ok lo hi rules s t)) [
                  | some target ↦ λ short.
                      short_jump-Keeps a ref args target ref_code args_code short h h' s low
                  | none ↦ λ long. long_jump-Keeps a args ref_code args_code h h' s low
                ]
        refl
