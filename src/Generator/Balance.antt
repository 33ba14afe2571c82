-- ===== src/Generator/Balance.antt =====
-- The code of each expression of bootstrap/x86_64_generator.c leaves the stack pointer as it was.
use l.Prelude.{
  ℕ, ◌*◌, ◌<◌, ◌≡◌, refl, Bool, true, false, inl, inr, ◌==◌, ltb, ◌&&◌, not, ◌∙◌, ap, if◌then◌else◌,
  Bool-cases, arith, Option-cases, ◌^◌,
}
use l.Assembler.{movq_reg_to_reg, subq_imm_to_reg, addq_imm_to_reg}
use l.Expression.{Expression, Expressions}
use l.Frames.{
  absolute_storage, frame_relative_storage, top_relative_storage, nil_storage, count_arguments,
}
use l.Generator.{
  rax, r10, r11, Passes, Code, emit, new_label, make_load_address, generate_buffer_to_dest,
  cond_push_relative_storage, cond_pop_relative_storage, push_buffer, first_aug, frame_depth,
  parameters_of, is_continuation,
}
use l.Generator.Control.{
  sgenerate_ifs, sgenerate_continuations, sgenerate_withs, short_jump, long_jump, sgenerate_jumps,
  sgenerate_functions, sgenerate_invokes,
}
use l.Generator.Plain.{
  is_free, Plain-trans, make_load-Plain, make_load_address-Plain, make_store_continuation-Plain,
  generate_buffer_to_dest-Plain, load_continuation-Plain,
}
use l.Frames.{StorageType}
use l.Generator.Height.{
  Stack, raise, lower, moves, height, height-lt, Plain-height, raise-lower, call_function-height,
  function-height, push_buffer-height,
}

abbrev pub Stays : (Code → Code) → Type 0
Stays f = (s : Code) → height (f s).c ≡ height s.c

-- What `cond_push_relative_storage` and `cond_pop_relative_storage` come to.
reserve : StorageType → ℕ → Stack → Stack
reserve top_relative_storage n st = lower n st
reserve _ n st = st

release : StorageType → ℕ → Stack → Stack
release top_relative_storage n st = raise n st
release _ n st = st

release-reserve :
    (type : StorageType) (n : ℕ) (st : Stack)
    → st.sp < 2 ^ 64
    → release type n (reserve type n st) ≡ st
unfolding release reserve
release-reserve absolute_storage n st h = refl
release-reserve frame_relative_storage n st h = refl
release-reserve top_relative_storage n st h = raise-lower n st h
release-reserve nil_storage n st h = refl

-- The arguments of an invocation come to lie on the stack in one of two ways: they are stored there,
-- or they are pushed from a buffer in the frame, if `contains_flag` is `CONTAINS_WITH`.
unfoldable pub settled_call : ℕ → StorageType → Bool
settled_call flag top_relative_storage = not (flag == 3)
settled_call flag _ = flag == 3

reserve_pushed :
    (flag : ℕ) (type : StorageType) (n : ℕ) (st : Stack)
    → settled_call flag type ≡ true
    → (flag == 3) ≡ true
    → reserve type n st ≡ st
unfolding settled_call reserve
reserve_pushed flag top_relative_storage n st h e = ground arith
reserve_pushed flag type n st h e = refl

reserve_stored :
    (flag : ℕ) (type : StorageType) (n : ℕ) (st : Stack)
    → settled_call flag type ≡ true
    → (flag == 3) ≡ false
    → reserve type n st ≡ lower n st
unfolding settled_call reserve
reserve_stored flag top_relative_storage n st h e = refl
reserve_stored flag type n st h e = ground arith

pub both : (a b : Bool) → (a && b) ≡ true → (a ≡ true) × (b ≡ true)
both a b h = ground arith

emit_move : (s : Code) → height (emit (movq_reg_to_reg rax r11) s).c ≡ height s.c
unfolding emit height moves
emit_move s = refl

pub sgenerate_ifs-height :
    (condition consequent alternate : Code → Code)
    → Stays condition
    → Stays consequent
    → Stays alternate
    → Stays (sgenerate_ifs condition consequent alternate)
unfolding sgenerate_ifs emit new_label height moves
sgenerate_ifs-height condition consequent alternate h h' h'' s = h'' _ ∙ h' _ ∙ h s

module _ (p : Passes) where
  cond_push-height :
      (a : ℕ) (args : Expressions) (s : Code)
      → height (cond_push_relative_storage p a args s).c
        ≡ reserve (p.fields.type_of (p.temp_of a)) (count_arguments args * 8) (height s.c)
  unfolding cond_push_relative_storage reserve emit height moves
  cond_push-height a args s =
      elim (p.fields.type_of (p.temp_of a))
        as (λ type.
          height
            (elim type as (λ _. Code) [
              | top_relative_storage ↦ emit (subq_imm_to_reg (count_arguments args * 8) 4) s
              | _ ↦ s
            ]).c
          ≡ reserve type (count_arguments args * 8) (height s.c)) [
            | absolute_storage ↦ refl
            | frame_relative_storage ↦ refl
            | top_relative_storage ↦ refl
            | nil_storage ↦ refl
          ]

  cond_pop-height :
      (a : ℕ) (args : Expressions) (s : Code)
      → height (cond_pop_relative_storage p a args s).c
        ≡ release (p.fields.type_of (p.temp_of a)) (count_arguments args * 8) (height s.c)
  unfolding cond_pop_relative_storage release emit height moves
  cond_pop-height a args s =
      elim (p.fields.type_of (p.temp_of a))
        as (λ type.
          height
            (elim type as (λ _. Code) [
              | top_relative_storage ↦ emit (addq_imm_to_reg (count_arguments args * 8) 4) s
              | _ ↦ s
            ]).c
          ≡ release type (count_arguments args * 8) (height s.c)) [
            | absolute_storage ↦ refl
            | frame_relative_storage ↦ refl
            | top_relative_storage ↦ refl
            | nil_storage ↦ refl
          ]

  -- Storage that is taken and given back.
  around :
      (a : ℕ) (args : Expressions) (body : Code → Code) (s : Code)
      → height (body (cond_push_relative_storage p a args s)).c
        ≡ height (cond_push_relative_storage p a args s).c
      → height (cond_pop_relative_storage p a args (body (cond_push_relative_storage p a args s))).c
        ≡ height s.c
  around a args body s h =
      let type = p.fields.type_of (p.temp_of a) in
      let n = count_arguments args * 8 in
      cond_pop-height a args (body (cond_push_relative_storage p a args s))
      ∙ ap (release type n) (h ∙ cond_push-height a args s)
      ∙ release-reserve type n (height s.c) (height-lt s.c)

  pub sgenerate_continuations-height :
      (a : ℕ) (ref : Expression) (body : Code → Code)
      → Stays body
      → Stays (sgenerate_continuations p a ref body)
  unfolding sgenerate_continuations emit new_label height moves is_free
  sgenerate_continuations-height a ref body h s = h _ ∙ elim (Bool-cases (p.escapes a)) [
    | inl escapes ↦ rw escapes (
        Plain-height (
          Plain-trans (make_load_address-Plain p (p.aug_of ref) rax {s = s} refl)
            (make_store_continuation-Plain p a ref)))
    | inr stays ↦ rw stays refl
  ]

  pub sgenerate_withs-height :
      (a : ℕ) (ref : Expression) (param : Expressions) (body : Code → Code)
      → Stays body
      → Stays (sgenerate_withs p a ref param body)
  unfolding sgenerate_withs emit new_label height moves is_free
  sgenerate_withs-height a ref param body h s =
      Plain-height (make_load-Plain p (first_aug p param) 0 rax r10 refl refl)
      ∙ h _
      ∙ elim (Bool-cases (p.escapes a)) [
        | inl escapes ↦ rw escapes (Plain-height (make_store_continuation-Plain p a ref {s = s}))
        | inr stays ↦ rw stays refl
      ]

  pub sgenerate_functions-height :
      (a : ℕ) (ref : Expression) (body : Code → Code)
      → Stays body
      → Stays (sgenerate_functions p a ref body)
  unfolding sgenerate_functions emit new_label height moves is_free
  sgenerate_functions-height a ref body h s =
      function-height (frame_depth p (p.frame_of a)) body h _
      ∙ Plain-height (make_load_address-Plain p (p.aug_of ref) rax {s = s} refl)

  -- The arguments of a settled call lie on the stack when the reference is evaluated.
  pub sgenerate_invokes-height :
      (a : ℕ) (args : Expressions) (ref_code args_code : Code → Code)
      → settled_call (p.contains_flag a) (p.fields.type_of (p.temp_of a)) ≡ true
      → Stays ref_code
      → Stays args_code
      → Stays (sgenerate_invokes p a args ref_code args_code)
  unfolding sgenerate_invokes
  sgenerate_invokes-height a args ref_code args_code settled h h' s =
      let count = count_arguments args in
      let flag = p.contains_flag a in
      let type = p.fields.type_of (p.temp_of a) in
      let ready = cond_push_relative_storage p a args s in
      let stored = args_code ready in
      let pushed : Code = if flag == 3 then push_buffer p a count stored else stored in
      let stored_height : height stored.c ≡ reserve type (count * 8) (height s.c) =
        h' ready ∙ cond_push-height a args s in
      let pushed_height : height pushed.c ≡ lower (8 * count) (height s.c) =
        elim (Bool-cases (flag == 3)) [
          | inl has_with ↦ rw has_with (
              push_buffer-height p a count stored
              ∙ ap (lower (8 * count)) (
                  stored_height
                  ∙ reserve_pushed flag type (count * 8) (height s.c) settled has_with))
          | inr without ↦ rw without (
              stored_height
              ∙ reserve_stored flag type (count * 8) (height s.c) settled without
              ∙ ap (λ (n : ℕ). lower n (height s.c))
                  (let e : count * 8 ≡ 8 * count = omega arith in e))
        ] in
      call_function-height count (ref_code pushed)
      ∙ ap (raise (8 * count)) (h pushed ∙ pushed_height)
      ∙ raise-lower (8 * count) (height s.c) (height-lt s.c)

  short_jump-height :
      (a : ℕ) (ref : Expression) (args : Expressions) (target : Expression)
      (ref_code args_code : Code → Code)
      → Stays ref_code
      → Stays args_code
      → Stays (short_jump p a ref args target ref_code args_code)
  unfolding short_jump emit height moves is_free
  short_jump-height a ref args target ref_code args_code h h' s =
      let ready : Code = if is_continuation ref then ref_code s else s in
      let ready_height : height ready.c ≡ height s.c = elim (Bool-cases (is_continuation ref)) [
        | inl generated ↦ rw generated (h s)
        | inr known ↦ rw known refl
      ] in
      let params = parameters_of target in
      let copy = λ (t : Code).
        generate_buffer_to_dest p a args r11 0 0
          (make_load_address p (first_aug p params) r11 (args_code t)) in
      let copy_height : (t : Code) → height (copy t).c ≡ height t.c = λ t.
        Plain-height (
          Plain-trans (make_load_address-Plain p (first_aug p params) r11 {s = args_code t} refl)
            (generate_buffer_to_dest-Plain p a args r11 0 0 refl))
        ∙ h' t in
      elim (Bool-cases (ltb 0 (count_arguments params))) [
        | inl takes ↦ rw takes (
            around a args copy ready (copy_height (cond_push_relative_storage p a args ready))
            ∙ ready_height)
        | inr takes_none ↦ rw takes_none ready_height
      ]

  long_jump-height :
      (a : ℕ) (args : Expressions) (ref_code args_code : Code → Code)
      → Stays ref_code
      → Stays args_code
      → Stays (long_jump p a args ref_code args_code)
  unfolding long_jump is_free
  long_jump-height a args ref_code args_code h h' s =
      let copy = λ (t : Code).
        generate_buffer_to_dest p a args r11 (7 * 8) 0
          (emit (movq_reg_to_reg rax r11) (ref_code (args_code t))) in
      let copy_height : (t : Code) → height (copy t).c ≡ height t.c = λ t.
        Plain-height (
          generate_buffer_to_dest-Plain p a args r11 (7 * 8) 0
            {s = emit (movq_reg_to_reg rax r11) (ref_code (args_code t))} refl)
        ∙ emit_move (ref_code (args_code t))
        ∙ h (args_code t)
        ∙ h' t in
      Plain-height (
        load_continuation-Plain
          {s = cond_pop_relative_storage p a args (copy (cond_push_relative_storage p a args s))})
      ∙ around a args copy s (copy_height (cond_push_relative_storage p a args s))

  pub sgenerate_jumps-height :
      (a : ℕ) (ref : Expression) (args : Expressions) (ref_code args_code : Code → Code)
      → Stays ref_code
      → Stays args_code
      → Stays (sgenerate_jumps p a ref args ref_code args_code)
  unfolding sgenerate_jumps
  sgenerate_jumps-height a ref args ref_code args_code h h' s =
      elim (Option-cases (p.short_circuit a)) [
        | inl long ↦ rw (long, sgenerate_jumps) (long_jump-height a args ref_code args_code h h' s)
        | inr (target, short) ↦
            rw (short, sgenerate_jumps)
              (short_jump-height a ref args target ref_code args_code h h' s)
      ]
