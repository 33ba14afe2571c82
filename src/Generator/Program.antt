-- ===== src/Generator/Program.antt =====
-- `generate_expressions` and `generate_program` of bootstrap/x86_64_generator.c.
use l.Prelude.{ℕ, ◌+◌, List, []}
use mathlib.Core.List.{reverse}
use l.Assembler.{Binding, Instruction}
use l.Expression.{
  Expression, Expressions, storage, function, with, invoke, if_else, symbol, jump, continuation,
  constrain, assembly, meta, none_left, also,
}
use l.Generator.{rax, r10, r11, Passes, Code, make_store}
use l.Generator.Control.{
  sgenerate_literals, sgenerate_ifs, sgenerate_symbols, sgenerate_storage_expressions,
  sgenerate_continuations, sgenerate_withs, sgenerate_jumps, sgenerate_functions, sgenerate_invokes,
}

module _ (p : Passes) where
  unfoldable mutual
    unfolding make_store sgenerate_literals sgenerate_symbols sgenerate_ifs
        sgenerate_storage_expressions sgenerate_continuations sgenerate_withs sgenerate_jumps
        sgenerate_functions sgenerate_invokes

    pub generate_expressions : Expression → Code → Code
    generate_expressions (continuation a ref params e) =
        sgenerate_continuations p a ref (generate_expressions e)
    generate_expressions (with a ref param e) =
        sgenerate_withs p a ref param (generate_expressions e)
    generate_expressions (jump a ref args) =
        sgenerate_jumps p a ref args (generate_expressions ref)
          (generate_args (p.temp_of a) r10 0 args)
    generate_expressions (symbol a name) = sgenerate_symbols p (symbol a name)
    generate_expressions (storage a ref args) =
        sgenerate_storage_expressions p ref (generate_args (p.aug_of ref) r11 0 args)
    generate_expressions (if_else a c t e) =
        sgenerate_ifs (generate_expressions c) (generate_expressions t) (generate_expressions e)
    generate_expressions (Expression.literal a value) = sgenerate_literals value
    generate_expressions (function a ref params e) =
        sgenerate_functions p a ref (generate_expressions e)
    generate_expressions (invoke a ref args) =
        sgenerate_invokes p a args (generate_expressions ref)
          (generate_args (p.temp_of a) r10 0 args)
    generate_expressions (constrain a e ref) = generate_expressions e
    generate_expressions (assembly op args) = λ s. s
    generate_expressions (meta a ref frag) = λ s. s

    -- The loops over arguments that store each value in `b`.
    pub generate_args : Binding → (scratch offset : ℕ) → Expressions → Code → Code
    generate_args b scratch offset none_left s = s
    generate_args b scratch offset (also t ts) s =
        generate_args b scratch (offset + 8) ts
          (make_store p rax b offset scratch (generate_expressions t s))

    pub generate_each : Expressions → Code → Code
    generate_each none_left s = s
    generate_each (also e es) s = generate_each es (generate_expressions e s)

  -- The bindings at `first` and beyond are free.
  unfoldable pub generate_program : Expressions → (first : Binding) → List Instruction
  unfolding generate_each
  generate_program exprs first = reverse (generate_each exprs (record { next = first; c = [] })).c
