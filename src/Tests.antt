-- ===== src/Tests.antt =====
-- Each result at a concrete input.
mod Generated
mod Loaded
mod Celled
mod Escaped
mod Linked
use l.Prelude.{
  ℕ, ◌≡◌, ◌≤◌, ◌<◌, ◌+◌, ◌*◌, ◌^◌, ◌%◌, ◌/◌, refl, true, List, [], ◌∷◌, ◌++◌, Chars, codes, some,
  none, Option, if◌then◌else◌, ◌==◌, take, drop, inr, inr, arith, length,
}
use mathlib.Core.List.{Mem}
use l.Fragment.{Fragment, var, token, group, nil, cons, print_fragment}
use l.Result.{ok, unexpected_character, Ensures}
use l.Fuel.{Converges}
use l.Interface.{ulong_to_str, pad_size}
use l.Interface.Numbers.{decimal_from, all_digits, has_lead, ulong_to_str-decimal, pad_size_lem}
use l.Lexer.{read_whitespace, ends_token, read_fragment, enough_fuel}
use l.Lexer.RoundTrip.{read_fragment-print}
use l.Lexer.Printed.{is_printable, stops, separates}
use l.Lexer.Total.{IsSuffix-refl, AtPlace, IsWide, Consumes, read_fragment-Consumes}
use l.Lexer.Errors.{StandsAt, read_fragment-position}
use l.Unify.{Store, fresh, set_val, holds_itself, recursive_evaluate, occurs_in, unify}
use l.Unify.Terms.{occurs}
use l.Unify.Narrow.{Unifies, EqualAt}
use l.Unify.Evals.{bound, characters, recursive_evaluate-Converges}
use l.Unify.Occurs.{occurs_in-Converges}
use l.Unify.Agree.{UnifyOutcome, unify_correct, fresh-IsAcyclic}
use l.Expression.{Expression, build_expression, invoke, symbol, also, none_left}
use l.Expression.Literal.{binary, literal_value-binary}
use l.Expression.Keyword.{literal_value}
use l.Expression.Unbuild.{build_expression-unbuild}
use l.Expression.Source.{unbuild, as_source}
use l.Assembler.{
  Bytes, Binding, Instruction, label, pushq_reg, movq_mdb_to_reg, je_rel, movq_imm_to_reg,
  reference, lnkr_sub_rip_to_ref, assemble, ret,
}
use l.Assembler.Bounds.{Within, max_instr_len, max_instr_fields, assemble-inside}
use l.Assembler.Stream.{all_registers, disassemble, code, assemble-disassemble}
use l.Assembler.Labels.{assemble-label}
use l.Elf.{
  BindingAug, Sym, local_scope, global_scope, defined_state, undefined_state, measure_strtab,
  measure_symtab, write_symbols,
}
use l.Elf.Sizes.{write_symbols-measure}
use l.Elf.Image.{
  shstrtab_shdr, text_of, symbols_of, text_shdr, strtab_shdr, symtab_shdr, rela_shdr,
  section_headers, write_elf,
}
use l.Elf.Structures.{all_bytes, sym_bytes, rela_bytes, max_elf_size, strvlen, shstrtab}
use l.Loader.{ByteMap, Object}
use l.Loader.Read.{read_object}
use l.Loader.Stored.{placed}
use l.Loader.Written.{read_back, read_object-write_elf}
use l.Elf.Sections.{write_elf-sections}
use l.Region.{Region, area_size, next_capacity, create_region, region_alloc}
use l.Region.Disjoint.{Serves, FreshPages, AllApart}
use mathlib.Core.List.{reverse}
use l.Expression.{storage, function}
use l.Frames.{Fields, above, absolute_storage, assign, Layout, layout_frames}
use l.Frames.Slots.{Stacked, all_distinct, total_size, layout_frames-Stacked}
use l.Region.Alloc.{next_size, region_alloc-Serves, create_region-Serves}

abbrev letter_a : Fragment
letter_a = token b'a' []

-- `(!0 a)` and `(a !1)`
abbrev left_pair : Fragment
left_pair = group (cons (var 0) (cons letter_a nil))

abbrev right_pair : Fragment
right_pair = group (cons letter_a (cons (var 1) nil))

abbrev one_bound : Store
one_bound = set_val fresh 0 letter_a

abbrev two_tokens : Fragment
two_tokens = group (cons letter_a (cons letter_a nil))

abbrev open_list : Chars
open_list = codes "(a"

unify_correct_example : UnifyOutcome fresh left_pair right_pair
unify_correct_example = unify_correct fresh left_pair right_pair fresh-IsAcyclic

recursive_evaluate_example : Converges (λ f. recursive_evaluate f one_bound (var 0)) letter_a
unfolding set_val holds_itself
recursive_evaluate_example =
    recursive_evaluate-Converges one_bound (var 0) letter_a (bound {v = 0} refl characters)

occurs_in_example : Converges (λ f. occurs_in f one_bound 0 (var 0)) (occurs 0 letter_a)
unfolding set_val holds_itself
occurs_in_example = occurs_in-Converges one_bound 0 (var 0) letter_a (bound {v = 0} refl characters)

read_fragment-print_example :
    read_fragment 7
      (enough_fuel (print_fragment two_tokens ++ codes " )"))
      (print_fragment two_tokens ++ codes " )")
    ≡ ok (two_tokens, read_whitespace (codes " )"))
unfolding is_printable stops separates read_whitespace ends_token
read_fragment-print_example = read_fragment-print two_tokens 7 (codes " )") refl refl refl

read_fragment-Consumes_example :
    Ensures
      (λ (d, r). Consumes open_list open_list r)
      (AtPlace open_list 2)
      (IsWide open_list)
      (read_fragment 2 (enough_fuel open_list) open_list)
read_fragment-Consumes_example =
    read_fragment-Consumes open_list 2 open_list (IsSuffix-refl open_list)

read_fragment-position_example :
    (c p : ℕ) × (unexpected_character 0 2 ≡ unexpected_character c p) × StandsAt open_list p c
unfolding read_fragment
read_fragment-position_example =
    read_fragment-position open_list 2 open_list (unexpected_character 0 2) refl
      (IsSuffix-refl open_list) refl

abbrev built : Expression
built = invoke 2 (symbol 1 (some (codes "f"))) (also (symbol 0 (some (codes "x"))) none_left)

abbrev invocation : Fragment
invocation =
    group (cons (token b'i' (codes "nvoke")) (cons (token b'f' []) (cons (token b'x' []) nil)))

build_expression-unbuild_example : unbuild built ≡ as_source invocation
unfolding build_expression
build_expression-unbuild_example = build_expression-unbuild invocation 0 built 3 refl

literal_value-binary_example : (binary 3 5 ≡ codes "101") × (5 / 2 ^ 3 ≡ 0)
unfolding literal_value
literal_value-binary_example = literal_value-binary 3 0 (codes "101") 5 refl (omega arith) refl

ulong_to_str-decimal_example :
    (decimal_from 0 (ulong_to_str 2025) ≡ 2025)
    × (all_digits (ulong_to_str 2025) ≡ true)
    × (length (ulong_to_str 2025) ≤ 20)
    × (has_lead (ulong_to_str 2025) ≡ true)
ulong_to_str-decimal_example = ulong_to_str-decimal 2025 (omega arith) (omega arith)

pad_size_example : (pad_size 13 8 % 8 ≡ 0) × (13 ≤ pad_size 13 8) × (pad_size 13 8 < 13 + 8)
pad_size_example = pad_size_lem 13 8 (omega arith) (omega arith)

abbrev before_label : List Instruction
before_label =
    pushq_reg 13 ∷ movq_mdb_to_reg (reference 7) 12 9 ∷ je_rel (lnkr_sub_rip_to_ref 5) ∷ []

abbrev after_label : List Instruction
after_label = movq_imm_to_reg (reference 7) 10 ∷ ret ∷ []

abbrev program : List Instruction
program = before_label ++ label 5 ∷ after_label

assemble-inside_example :
    let out = assemble (λ b. b) program in
    (length out.bytes ≤ max_instr_len * length program)
    × (length out.relas ≤ max_instr_fields * length program)
    × Within 0 (length out.bytes) out.relas
assemble-inside_example = assemble-inside (λ b. b) program

assemble-disassemble_example :
    disassemble (length program) (assemble (λ b. b) program).bytes ≡ some (code program)
unfolding all_registers
assemble-disassemble_example = assemble-disassemble (λ b. b) program refl

assemble-label_example :
    let out = assemble (λ b. b) program in
    (front back : Bytes) × (out.bytes ≡ front ++ back)
    × Mem (5, length front) out.labels
    × (disassemble (length after_label) back ≡ some (code after_label))
unfolding all_registers
assemble-label_example = assemble-label (λ b. b) before_label after_label 5 refl

-- Binding 5 is a local label, 7 a local static binding, 9 an undefined global one.
abbrev aug : Binding → BindingAug
aug b =
    if b == 9
    then record {
      name = some (codes "puts");
      size = 0;
      scope = global_scope;
      state = undefined_state;
    }
    else record { name = none; size = 24; scope = local_scope; state = defined_state }

abbrev symbol_name : Binding → Option Chars
symbol_name b = some (codes "start")

abbrev undefined_bindings : List Binding
undefined_bindings = 9 ∷ []

abbrev static_bindings : List Binding
static_bindings = 7 ∷ []

write_symbols-measure_example :
    let t = write_symbols aug symbol_name program undefined_bindings static_bindings in
    (length t.strtab ≤ measure_strtab aug symbol_name program undefined_bindings static_bindings)
    × (length t.syms ≤ measure_symtab program undefined_bindings static_bindings)
write_symbols-measure_example =
    write_symbols-measure aug symbol_name program undefined_bindings static_bindings

write_elf-sections_example :
    let file = write_elf aug symbol_name (λ k. 0) program undefined_bindings static_bindings in
    let text = text_of aug symbol_name program undefined_bindings static_bindings in
    let tables = write_symbols aug symbol_name program undefined_bindings static_bindings in
    let symbols =
      all_bytes sym_bytes (symbols_of aug symbol_name program undefined_bindings static_bindings) in
    let names_header = shstrtab_shdr aug symbol_name in
    let text_header = text_shdr aug symbol_name program undefined_bindings static_bindings in
    let strtab_header = strtab_shdr aug symbol_name program undefined_bindings static_bindings in
    let symtab_header = symtab_shdr aug symbol_name program undefined_bindings static_bindings in
    let rela_header = rela_shdr aug symbol_name program undefined_bindings static_bindings in
    (take names_header.sh_size (drop names_header.sh_offset file)
      ≡ take (strvlen shstrtab) shstrtab)
    × (take text_header.sh_size (drop text_header.sh_offset file) ≡ text.bytes)
    × (take (length tables.strtab) (drop strtab_header.sh_offset file) ≡ tables.strtab)
    × (length tables.strtab ≤ strtab_header.sh_size)
    × (take (length symbols) (drop symtab_header.sh_offset file) ≡ symbols)
    × (length symbols ≤ symtab_header.sh_size)
    × (drop rela_header.sh_offset file ≡ all_bytes rela_bytes text.relas)
    × (length file ≡ rela_header.sh_offset + rela_header.sh_size)
    × (length file ≤ max_elf_size aug symbol_name program undefined_bindings static_bindings)
    × (length file < 2 ^ 31)
unfolding measure_strtab measure_symtab max_elf_size strvlen pad_size
write_elf-sections_example =
    write_elf-sections aug symbol_name (λ k. 0) program undefined_bindings static_bindings
      (omega arith) (omega arith) (omega arith)

abbrev empty_memory : ByteMap
empty_memory a = 0

abbrev segment_place : ℕ → ℕ
segment_place sec = 4096 * (sec + 1)

read_object-write_elf_example :
    let file = write_elf aug symbol_name (λ k. 0) program undefined_bindings static_bindings in
    (rest : List Sym) × (read_object file 0 segment_place empty_memory
      ≡ ok (
        record {
          e_shstrndx = 1;
          sections =
              read_back aug symbol_name segment_place program undefined_bindings static_bindings
                rest;
        },
        placed file segment_place
            (section_headers aug symbol_name program undefined_bindings static_bindings)
            0
            empty_memory,
      ))
unfolding measure_strtab measure_symtab max_elf_size strvlen pad_size
read_object-write_elf_example =
    let found =
      write_elf-sections aug symbol_name (λ k. 0) program undefined_bindings static_bindings
        (omega arith) (omega arith) (omega arith) in
    let bound = found.9 in
    read_object-write_elf aug symbol_name (λ k. 0) program undefined_bindings static_bindings 0
      segment_place empty_memory (omega arith) (omega arith) (omega (arith, bound))

abbrev first_map : ℕ → ℕ
first_map len = 2 ^ 20

abbrev second_map : ℕ → ℕ
second_map len = 2 ^ 30

abbrev new_region : Region
new_region = create_region first_map 0

new_region-Serves : Serves new_region []
unfolding area_size pad_size
new_region-Serves = create_region-Serves first_map 0 (omega arith) refl (omega arith)

second_map-FreshPages :
    FreshPages new_region
      (second_map (next_size new_region (pad_size 10000 8)))
      (next_size new_region (pad_size 10000 8))
unfolding area_size pad_size next_capacity create_region AllApart
second_map-FreshPages = record {
  page = refl;
  addressable = omega arith;
  unused = (inr (omega arith), tt);
}

region_alloc-Serves_example :
    let (mem, reg') = region_alloc second_map new_region 10000 in
    (10000 ≤ pad_size 10000 8)
    × (mem % 8 ≡ 0)
    × Serves reg' (record { start = mem; size = pad_size 10000 8 } ∷ [])
unfolding create_region area_size pad_size
region_alloc-Serves_example =
    region_alloc-Serves second_map new_region [] 10000 new_region-Serves (omega arith)
      second_map-FreshPages

abbrev no_fields : Fields
no_fields = record { size_of = λ b. 0; offset_of = λ b. above 0; type_of = λ b. absolute_storage }

abbrev aug_of : Expression → Binding
aug_of (symbol a name) = a
aug_of e = 99

abbrev temp_of : ℕ → Binding
temp_of a = 100 + a

-- `(storage s [f x])`
abbrev body : Expression
body =
    storage 5 (symbol 1 none)
      (also (invoke 6 (symbol 2 none) (also (symbol 3 none) none_left)) none_left)

abbrev body_layout : Layout
body_layout = layout_frames aug_of temp_of (λ a. 3) (λ a. true) body (no_fields, [])

body-sizes : (b : Binding) → body_layout.0.size_of b + 8 < 2 ^ 64
unfolding layout_frames assign
body-sizes b = ground arith

layout_frames-Stacked_example :
    let done =
      layout_frames aug_of temp_of
        (λ a. 3)
        (λ a. true)
        (function 7 (symbol 8 none) none_left body)
        (no_fields, []) in
    Stacked body_layout.0.size_of done.0.offset_of 0
      (reverse body_layout.1)
      (total_size body_layout.0.size_of (reverse body_layout.1))
    × (done.0.size_of ≡ body_layout.0.size_of)
    × (done.1 ≡ [])
unfolding layout_frames all_distinct total_size pad_size
layout_frames-Stacked_example =
    layout_frames-Stacked aug_of temp_of (λ a. 3) (λ a. true) 7 (symbol 8 none) none_left body
      no_fields [] refl body-sizes (omega arith)
