-- ===== src/Generator/Targets.antt =====
-- The jumps in the code of `generate_expressions` and `generate_program` of
-- bootstrap/x86_64_generator.c, and its registers.
use l.Prelude.{ℕ, ◌+◌, ◌≤◌, ◌≡◌, refl, Bool, true, arith}
use l.Assembler.{Binding, Instruction}
use l.Expression.{Expression, Expressions}
use l.Generator.{rax, r10, r11, Passes, Code}
use l.Generator.Plain.{is_free, make_load_address-Plain}
use l.Generator.Fresh.{Plain-Same}
use l.Expression.{
  storage, function, with, invoke, if_else, symbol, jump, continuation, constrain, assembly, meta,
  none_left, also,
}
use l.Generator.{make_store}
use l.Generator.Plain.{make_store-Plain, sgenerate_symbols-Plain, sgenerate_literals-Plain}
use l.Generator.Control.{sgenerate_storage_expressions}
use l.Generator.Program.{generate_expressions, generate_args, generate_each}
use l.Generator.Labels.{expression-Adds, args-Adds, each-Adds}
use l.Generator.Kept.{AllowsCode, Keeps, Part, Plain-Keeps}
use l.Generator.Jumps.{
  sgenerate_ifs-Keeps, sgenerate_continuations-Keeps, sgenerate_withs-Keeps,
  sgenerate_functions-Keeps, sgenerate_invokes-Keeps, sgenerate_jumps-Keeps,
}

module _ (p : Passes) (ok : Instruction → Bool) (lo hi : Binding)
    (rules : AllowsCode p ok lo hi) where
  expression-Part :
      (e : Expression)
      → ((s : Code)
          → lo ≤ s.next
          → (generate_expressions p e s).next ≤ hi
          → Keeps p ok lo hi rules s (generate_expressions p e s))
      → Part p ok lo hi rules (generate_expressions p e)
  expression-Part e keeps = record { grows = λ s. (expression-Adds p 0 e s).ordered; keeps = keeps }

  args-Part :
      (dest scratch offset : ℕ) (ts : Expressions)
      → is_free scratch ≡ true
      → ((s : Code)
          → lo ≤ s.next
          → (generate_args p dest scratch offset ts s).next ≤ hi
          → Keeps p ok lo hi rules s (generate_args p dest scratch offset ts s))
      → Part p ok lo hi rules (generate_args p dest scratch offset ts)
  args-Part dest scratch offset ts free keeps = record {
    grows = λ s. (args-Adds p 0 dest scratch offset ts free s).ordered;
    keeps = keeps;
  }

  mutual
    unfolding generate_expressions sgenerate_storage_expressions is_free

    expression-Keeps :
        (e : Expression) (s : Code)
        → lo ≤ s.next
        → (generate_expressions p e s).next ≤ hi
        → Keeps p ok lo hi rules s (generate_expressions p e s)
    expression-Keeps (continuation a ref params e) =
        sgenerate_continuations-Keeps p ok lo hi rules a ref (generate_expressions p e)
          (expression-Part e (expression-Keeps e))
    expression-Keeps (with a ref param e) =
        sgenerate_withs-Keeps p ok lo hi rules a ref param (generate_expressions p e)
          (expression-Part e (expression-Keeps e))
    expression-Keeps (jump a ref args) =
        sgenerate_jumps-Keeps p ok lo hi rules a ref args (generate_expressions p ref)
          (generate_args p (p.temp_of a) r10 0 args) (expression-Part ref (expression-Keeps ref))
          (args-Part (p.temp_of a) r10 0 args refl (args-Keeps (p.temp_of a) r10 0 args refl))
    expression-Keeps (symbol a name) =
        λ s low high. Plain-Keeps p ok lo hi rules (sgenerate_symbols-Plain p (symbol a name))
    expression-Keeps (storage a ref args) = λ s low high kept.
        let contents = generate_args p (p.aug_of ref) r11 0 args s in
        let load-Plain = make_load_address-Plain p (p.aug_of ref) rax {s = contents} refl in
        let same = (Plain-Same 0 load-Plain).next_eq in
        Plain-Keeps p ok lo hi rules load-Plain
          (args-Keeps (p.aug_of ref) r11 0 args refl s low (omega arith) kept)
    expression-Keeps (if_else a c t e) =
        sgenerate_ifs-Keeps p ok lo hi rules (generate_expressions p c) (generate_expressions p t)
          (generate_expressions p e) (expression-Part c (expression-Keeps c))
          (expression-Part t (expression-Keeps t)) (expression-Part e (expression-Keeps e))
    expression-Keeps (Expression.literal a value) =
        λ s low high. Plain-Keeps p ok lo hi rules (sgenerate_literals-Plain value {s = s})
    expression-Keeps (function a ref params e) =
        sgenerate_functions-Keeps p ok lo hi rules a ref (generate_expressions p e)
          (expression-Part e (expression-Keeps e))
    expression-Keeps (invoke a ref args) =
        sgenerate_invokes-Keeps p ok lo hi rules a args (generate_expressions p ref)
          (generate_args p (p.temp_of a) r10 0 args) (expression-Part ref (expression-Keeps ref))
          (args-Part (p.temp_of a) r10 0 args refl (args-Keeps (p.temp_of a) r10 0 args refl))
    expression-Keeps (constrain a e ref) = expression-Keeps e
    expression-Keeps (assembly op args) = λ s low high kept. kept
    expression-Keeps (meta a ref frag) = λ s low high kept. kept

    args-Keeps :
        (dest scratch offset : ℕ) (ts : Expressions)
        → is_free scratch ≡ true
        → (s : Code) → lo ≤ s.next
        → (generate_args p dest scratch offset ts s).next ≤ hi
        → Keeps p ok lo hi rules s (generate_args p dest scratch offset ts s)
    args-Keeps dest scratch offset none_left free s low high kept = kept
    args-Keeps dest scratch offset (also t ts) free s low high kept =
        let first = generate_expressions p t s in
        let store-Plain = make_store-Plain p rax dest offset scratch {s = first} refl free in
        let same = (Plain-Same 0 store-Plain).next_eq in
        let up = (expression-Adds p 0 t s).ordered in
        let rest = make_store p rax dest offset scratch first in
        let up' = (args-Adds p 0 dest scratch (offset + 8) ts free rest).ordered in
        args-Keeps dest scratch (offset + 8) ts free rest (omega arith) high
          (Plain-Keeps p ok lo hi rules store-Plain (expression-Keeps t s low (omega arith) kept))

  pub each-Keeps :
      (es : Expressions) (s : Code)
      → lo ≤ s.next
      → (generate_each p es s).next ≤ hi
      → Keeps p ok lo hi rules s (generate_each p es s)
  unfolding generate_each
  each-Keeps none_left s low high kept = kept
  each-Keeps (also e es) s low high kept =
      let first = generate_expressions p e s in
      let up = (expression-Adds p 0 e s).ordered in
      let up' = (each-Adds p 0 es first).ordered in
      each-Keeps es first (omega arith) high (expression-Keeps e s low (omega arith) kept)
