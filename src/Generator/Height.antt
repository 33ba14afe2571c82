-- ===== src/Generator/Height.antt =====
-- The stack pointer along the text that bootstrap/x86_64_generator.c generates.
use l.Prelude.{
  ℕ, zero, suc, ◌+◌, ◌-◌, ◌*◌, ◌%◌, ◌^◌, ◌<◌, ◌≡◌, refl, true, false, List, [], ◌∷◌, inl, inr, ◌==◌,
  ltb, if◌then◌else◌, Bool-cases, arith, ◌∙◌, ap, sym,
}
use l.Assembler.{
  Instruction, pushq_reg, popq_reg, movq_reg_to_reg, subq_imm_to_reg, addq_imm_to_reg, leave, rsp,
}
use l.Generator.{rax, rbp, r10, r11, Passes, Code, emit, make_load, push_buffer}
use l.Generator.Control.{cond_pop, pop_arguments, call_function, enter_function, leave_function}
use l.Generator.Plain.{is_plain, is_free, Plain, start, more, make_load-Plain}

-- The stack pointer, as a word, and the frame pointers that were set from it, the last one first.
pub record Stack : Type 0 where
  pub sp : ℕ
  pub frames : List ℕ

unfoldable pub raise : ℕ → Stack → Stack
raise n st = record { sp = (st.sp + n) % 2 ^ 64; frames = st.frames }

unfoldable pub lower : ℕ → Stack → Stack
lower n st = record { sp = (st.sp + 2 ^ 64 - n % 2 ^ 64) % 2 ^ 64; frames = st.frames }

unfoldable pub enter_frame : Stack → Stack
enter_frame st = record { sp = st.sp; frames = st.sp ∷ st.frames }

unfoldable pub leave_frame : List ℕ → Stack → Stack
leave_frame [] st = st
leave_frame (f ∷ fs) st = record { sp = (f + 8) % 2 ^ 64; frames = fs }

-- What an instruction does to the stack pointer. A called function leaves it as it was.
unfoldable pub moves : Instruction → Stack → Stack
unfolding raise lower enter_frame leave_frame
moves (pushq_reg reg) st = lower 8 st
moves (popq_reg reg) st = raise 8 st
moves (subq_imm_to_reg value dest) st = if dest == rsp then lower value st else st
moves (addq_imm_to_reg value dest) st = if dest == rsp then raise value st else st
moves (movq_reg_to_reg src dest) st = if dest == rbp then enter_frame st else st
moves leave st = leave_frame st.frames st
moves _ st = st

-- Along a text, the last instruction first.
unfoldable pub height : List Instruction → Stack
unfolding moves
height [] = record { sp = 0; frames = [] }
height (i ∷ is) = moves i (height is)

leave_frame-lt : (fs : List ℕ) (st : Stack) → st.sp < 2 ^ 64 → (leave_frame fs st).sp < 2 ^ 64
unfolding leave_frame
leave_frame-lt [] st h = h
leave_frame-lt (f ∷ fs) st h = omega arith

moves-lt : (i : Instruction) (st : Stack) → st.sp < 2 ^ 64 → (moves i st).sp < 2 ^ 64
unfolding moves
moves-lt (pushq_reg reg) st h = omega arith
moves-lt (popq_reg reg) st h = omega arith
moves-lt (subq_imm_to_reg value dest) st h = elim (Bool-cases (dest == rsp)) [
  | inl same ↦ rw same (omega arith)
  | inr other ↦ rw other h
]
moves-lt (addq_imm_to_reg value dest) st h = elim (Bool-cases (dest == rsp)) [
  | inl same ↦ rw same (omega arith)
  | inr other ↦ rw other h
]
moves-lt (movq_reg_to_reg src dest) st h = elim (Bool-cases (dest == rbp)) [
  | inl same ↦ rw same h
  | inr other ↦ rw other h
]
moves-lt leave st h = leave_frame-lt st.frames st h
moves-lt i st h = h

pub height-lt : (is : List Instruction) → (height is).sp < 2 ^ 64
unfolding height
height-lt [] = omega arith
height-lt (i ∷ is) = moves-lt i (height is) (height-lt is)

plain_stays : (i : Instruction) (st : Stack) → is_plain i ≡ true → moves i st ≡ st
unfolding moves is_plain is_free
plain_stays (movq_reg_to_reg src dest) st h =
    let other : (dest == rbp) ≡ false = ground arith in rw other refl
plain_stays (pushq_reg reg) st h = absurd cc
plain_stays (popq_reg reg) st h = absurd cc
plain_stays (subq_imm_to_reg value dest) st h = absurd cc
plain_stays (addq_imm_to_reg value dest) st h = absurd cc
plain_stays leave st h = absurd cc
plain_stays i st h = refl

pub Plain-height : {s t : Code} → Plain s t → height t.c ≡ height s.c
unfolding height emit
Plain-height start = refl
Plain-height (more {t} i h q) = plain_stays i (height t.c) h ∙ Plain-height q

abbrev stack_at : List ℕ → ℕ → Stack
stack_at fs n = record { sp = n; frames = fs }

same_stack : (x y : ℕ) (fs : List ℕ) → x ≡ y → stack_at fs x ≡ stack_at fs y
same_stack x y fs h = ap (stack_at fs) h

pub raise-lower : (n : ℕ) (st : Stack) → st.sp < 2 ^ 64 → raise n (lower n st) ≡ st
unfolding raise lower
raise-lower n st h = same_stack _ st.sp st.frames (omega arith)

pub lower-lower : (m n : ℕ) (st : Stack) → lower m (lower n st) ≡ lower (m + n) st
unfolding lower
lower-lower m n st = same_stack _ _ st.frames (omega arith)

raise-raise : (m n : ℕ) (st : Stack) → raise m (raise n st) ≡ raise (n + m) st
unfolding raise
raise-raise m n st = same_stack _ _ st.frames (omega arith)

raise_none : (st : Stack) → st.sp < 2 ^ 64 → raise 0 st ≡ st
unfolding raise
raise_none st h = same_stack _ _ st.frames (omega arith)

lower_none : (st : Stack) → st.sp < 2 ^ 64 → lower 0 st ≡ st
unfolding lower
lower_none st h = same_stack _ _ st.frames (omega arith)

-- Where `k` arguments are off the stack, one more pop takes the next one, if there is one.
popped : ℕ → ℕ → ℕ
popped count k = if ltb k count then 8 * k else 8 * count

popped_none : (count : ℕ) → popped count 0 ≡ 0
unfolding popped
popped_none count = ground arith

popped_six : (count : ℕ) → popped count 6 + 8 * (count - 6) ≡ 8 * count
unfolding popped
popped_six count = ground arith

popped_all : (count : ℕ) → ltb 6 count ≡ false → popped count 6 ≡ 8 * count
unfolding popped
popped_all count h = ground arith

cond_pop-height :
    (k count reg : ℕ) (s t : Code)
    → height t.c ≡ raise (popped count k) (height s.c)
    → height (cond_pop k count reg t).c ≡ raise (popped count (suc k)) (height s.c)
unfolding cond_pop emit height popped
cond_pop-height k count reg s t h = elim (Bool-cases (ltb k count)) [
  | inl pops ↦
      rw (pops, h)
        (raise-raise 8 (popped count k) (height s.c)
          ∙ ap (λ (n : ℕ). raise n (height s.c))
              (let e : popped count k + 8 ≡ popped count (suc k) = ground arith in e))
  | inr not_there ↦ rw not_there (
      h
      ∙ ap (λ (n : ℕ). raise n (height s.c))
          (let e : popped count k ≡ popped count (suc k) = ground arith in e))
]

pop_arguments-height :
    (count : ℕ) (s : Code) → height (pop_arguments count s).c ≡ raise (popped count 6) (height s.c)
unfolding pop_arguments
pop_arguments-height count s =
    let nothing : height s.c ≡ raise (popped count 0) (height s.c) =
      sym (rw (popped_none count) (raise_none (height s.c) (height-lt s.c))) in
    cond_pop-height 5 count 9 s _ (
      cond_pop-height 4 count 8 s _ (
        cond_pop-height 3 count 1 s _ (
          cond_pop-height 2 count 2 s _
            (cond_pop-height 1 count 6 s _ (cond_pop-height 0 count 7 s s nothing)))))

-- A call takes its arguments off the stack.
pub call_function-height :
    (count : ℕ) (s : Code) → height (call_function count s).c ≡ raise (8 * count) (height s.c)
unfolding call_function emit height moves
call_function-height count s =
    let h = pop_arguments-height count (emit (movq_reg_to_reg rax r11) s) in
    elim (Bool-cases (ltb 6 count)) [
      | inl more_left ↦
          rw (more_left, h)
            (raise-raise (8 * (count - 6)) (popped count 6) (height s.c)
              ∙ ap (λ (n : ℕ). raise n (height s.c)) (popped_six count))
      | inr all_popped ↦
          rw all_popped (h ∙ ap (λ (n : ℕ). raise n (height s.c)) (popped_all count all_popped))
    ]

-- A frame that is entered and left.
pub function-height :
    (depth : ℕ) (body : Code → Code)
    → ((t : Code) → height (body t).c ≡ height t.c)
    → (s : Code) → height (leave_function (body (enter_function depth s))).c ≡ height s.c
unfolding leave_function enter_function emit height moves
function-height depth body stays s =
    rw (stays (enter_function depth s))
      (same_stack _ (height s.c).sp (height s.c).frames (omega (arith, height-lt s.c)))

module _ (p : Passes) where
  pub push_buffer-height :
      (a count : ℕ) (s : Code) → height (push_buffer p a count s).c ≡ lower (8 * count) (height s.c)
  unfolding push_buffer emit height moves is_free
  push_buffer-height a zero s = sym (lower_none (height s.c) (height-lt s.c))
  push_buffer-height a (suc count) s =
      let loaded = make_load p (p.temp_of a) (count * 8) r11 r10 s in
      let same =
        Plain-height (make_load-Plain p (p.temp_of a) (count * 8) r11 r10 {s = s} refl refl) in
      push_buffer-height a count (emit (pushq_reg r11) loaded)
      ∙ rw same (
          lower-lower (8 * count) 8 (height s.c)
          ∙ ap (λ (n : ℕ). lower n (height s.c))
              (let e : 8 * count + 8 ≡ 8 * suc count = omega arith in e))
