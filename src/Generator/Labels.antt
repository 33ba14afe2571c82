-- ===== src/Generator/Labels.antt =====
-- The labels in the code of `generate_expressions` of bootstrap/x86_64_generator.c: those that the
-- expression brings along, and a new one for each place that is jumped to besides.
use l.Prelude.{ℕ, ◌+◌, ◌≡◌, refl, true, ◌==◌, if◌then◌else◌}
use l.Assembler.{Binding}
use l.Expression.{
  Expression, Expressions, storage, function, with, invoke, if_else, symbol, jump, continuation,
  constrain, assembly, meta, none_left, also,
}
use l.Generator.{rax, r10, r11, Passes}
use l.Generator.Control.{sgenerate_storage_expressions}
use l.Generator.Program.{generate_expressions, generate_args, generate_each}
use l.Generator.Plain.{
  is_free, make_load_address-Plain, make_store-Plain, sgenerate_symbols-Plain,
  sgenerate_literals-Plain,
}
use l.Generator.Fresh.{Adds, Same-refl, Same-Labels, Labels-trans, Plain-Same}
use l.Generator.Scopes.{
  before, sgenerate_ifs-Adds, jump_labels, sgenerate_continuations-Adds, sgenerate_withs-Adds,
  sgenerate_functions-Adds, sgenerate_invokes-Adds, sgenerate_jumps-Adds, jump_labels,
}

module _ (p : Passes) where
  -- The labels `b` that the expressions bring along: the names of functions and the places where
  -- continuations go on.
  unfoldable mutual
    unfolding jump_labels

    pub own_labels : Binding → Expression → ℕ
    own_labels b (continuation a ref params e) =
        (if p.cont_instr_of a == b then 1 else 0) + own_labels b e
    own_labels b (with a ref param e) = own_labels b e + (if p.cont_instr_of a == b then 1 else 0)
    own_labels b (function a ref params e) = (if p.aug_of ref == b then 1 else 0) + own_labels b e
    own_labels b (jump a ref args) =
        jump_labels (p.short_circuit a) ref (own_labels b ref) (own_each b args)
    own_labels b (invoke a ref args) = own_each b args + own_labels b ref
    own_labels b (storage a ref args) = own_each b args
    own_labels b (if_else a c t e) = own_labels b c + own_labels b t + own_labels b e
    own_labels b (constrain a e ref) = own_labels b e
    own_labels b _ = 0

    pub own_each : Binding → Expressions → ℕ
    own_each b none_left = 0
    own_each b (also e es) = own_labels b e + own_each b es

  mutual
    unfolding generate_expressions own_labels sgenerate_storage_expressions is_free

    pub expression-Adds :
        (b : ℕ) (e : Expression) → Adds b (own_labels b e) (generate_expressions p e)
    expression-Adds b (continuation a ref params e) =
        sgenerate_continuations-Adds p b _ a ref (generate_expressions p e) (expression-Adds b e)
    expression-Adds b (with a ref param e) =
        sgenerate_withs-Adds p b _ a ref param (generate_expressions p e) (expression-Adds b e)
    expression-Adds b (jump a ref args) =
        sgenerate_jumps-Adds p b _ _ a ref args (generate_expressions p ref)
          (generate_args p (p.temp_of a) r10 0 args) (expression-Adds b ref)
          (args-Adds b (p.temp_of a) r10 0 args refl)
    expression-Adds b (symbol a name) =
        λ s. Same-Labels (Plain-Same b (sgenerate_symbols-Plain p (symbol a name)))
    expression-Adds b (storage a ref args) = λ s.
        before (args-Adds b (p.aug_of ref) r11 0 args refl s)
          (Plain-Same b (make_load_address-Plain p (p.aug_of ref) rax refl))
    expression-Adds b (if_else a c t e) =
        sgenerate_ifs-Adds b _ _ _ (generate_expressions p c) (generate_expressions p t)
          (generate_expressions p e) (expression-Adds b c) (expression-Adds b t)
          (expression-Adds b e)
    expression-Adds b (Expression.literal a value) =
        λ s. Same-Labels (Plain-Same b (sgenerate_literals-Plain value))
    expression-Adds b (function a ref params e) =
        sgenerate_functions-Adds p b _ a ref (generate_expressions p e) (expression-Adds b e)
    expression-Adds b (invoke a ref args) =
        sgenerate_invokes-Adds p b _ _ a args (generate_expressions p ref)
          (generate_args p (p.temp_of a) r10 0 args) (expression-Adds b ref)
          (args-Adds b (p.temp_of a) r10 0 args refl)
    expression-Adds b (constrain a e ref) = expression-Adds b e
    expression-Adds b (assembly op args) = λ s. Same-Labels Same-refl
    expression-Adds b (meta a ref frag) = λ s. Same-Labels Same-refl

    pub args-Adds :
        (b dest scratch offset : ℕ) (ts : Expressions)
        → is_free scratch ≡ true
        → Adds b (own_each b ts) (generate_args p dest scratch offset ts)
    args-Adds b dest scratch offset none_left free s = Same-Labels Same-refl
    args-Adds b dest scratch offset (also t ts) free s =
        Labels-trans
          (before (expression-Adds b t s)
            (Plain-Same b (make_store-Plain p rax dest offset scratch refl free)))
          (args-Adds b dest scratch (offset + 8) ts free _)

  pub each-Adds : (b : ℕ) (es : Expressions) → Adds b (own_each b es) (generate_each p es)
  unfolding generate_each own_labels
  each-Adds b none_left s = Same-Labels Same-refl
  each-Adds b (also e es) s = Labels-trans (expression-Adds b e s) (each-Adds b es _)
