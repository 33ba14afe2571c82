-- ===== src/Tests/Generated.antt =====
-- The results on generated code at a concrete program.
use l.Prelude.{◌≡◌, ◌≤◌, ◌+◌, refl, true, [], ◌∷◌, some, none, if◌then◌else◌, ◌==◌, arith, length}
use l.Assembler.{Binding, ret}
use l.Expression.{
  Expression, Expressions, function, with, invoke, if_else, literal, symbol, jump, also, none_left,
}
use l.Frames.{above, absolute_storage, top_relative_storage}
use l.Generator.{Passes, address_of}
use l.Generator.Program.{generate_expressions, generate_program}
use l.Generator.Fresh.{count_label, in_range}
use l.Generator.Labels.{own_labels, own_each}
use l.Generator.Kept.{all_of}
use l.Generator.Linked.{goes_to, generate_program-labels, generate_program-targets}
use l.Generator.Height.{height}
use l.Generator.Balance.{settled_call}
use l.Generator.Settled.{is_settled, generate_expressions-height}

-- `[(function f () 7) 1]`
abbrev call_of_function : Expression
call_of_function =
    invoke 1 (function 2 (symbol 3 none) none_left (literal 13 7)) (also (literal 14 1) none_left)

-- `(with k (if 1 {k 3} 0))`
abbrev cut_short : Expression
cut_short =
    with 10 (symbol 11 none) (also (symbol 12 none) none_left) (
      if_else 4 (literal 5 1) (jump 6 (symbol 7 none) (also (literal 8 3) none_left)) (literal 9 0))

abbrev program : Expressions
program = also call_of_function (also cut_short none_left)

-- The storage for the arguments of calls lies on the stack; other bindings are absolute.
abbrev passes_before : Passes
passes_before = record {
  fields = record {
    size_of = λ b. 8;
    offset_of = λ b. above 0;
    type_of = λ b. if b == 20 then top_relative_storage else absolute_storage;
  };
  aug_of = address_of;
  temp_of = λ a. 20;
  contains_flag = λ a. 0;
  escapes = λ a. true;
  cont_instr_of = λ a. 15;
  short_circuit = λ a. if a == 6 then some cut_short else none;
  target_of = λ b. literal 0 0;
  symbol_of = λ b. literal 0 0;
  frame_of = λ a. [];
}

generate_program-labels_example :
    (last : Binding) × (100 ≤ last)
    × ((b : Binding)
        → count_label b (generate_program passes_before program 100)
          ≡ in_range b 100 last + own_each passes_before b program)
generate_program-labels_example = generate_program-labels passes_before program 100

below_free : (b : Binding) → 100 ≤ b → own_each passes_before b program ≡ 0
unfolding own_labels address_of
below_free b h = ground arith

generate_program-targets_example :
    all_of
      (goes_to (λ b. count_label b (generate_program passes_before program 100) == 1))
      (generate_program passes_before program 100)
    ≡ true
unfolding own_labels address_of
generate_program-targets_example =
    generate_program-targets passes_before program 100 below_free (λ a target h. refl)

generate_expressions-height_example :
    height
      (generate_expressions passes_before call_of_function (record { next = 100; c = ret ∷ [] })).c
    ≡ height (ret ∷ [])
unfolding is_settled settled_call
generate_expressions-height_example =
    generate_expressions-height passes_before call_of_function refl
      (record { next = 100; c = ret ∷ [] })

-- The program has 63 instructions, six of them the labels that it makes and brings along.
generate_program-length : length (generate_program passes_before program 100) ≡ 63
unfolding generate_program
generate_program-length = refl
