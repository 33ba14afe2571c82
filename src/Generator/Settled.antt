-- ===== src/Generator/Settled.antt =====
-- The stack pointer along the text of the code of `generate_expressions` of bootstrap/x86_64_generator.c.
use l.Prelude.{ℕ, ◌+◌, ◌≡◌, refl, Bool, true, ◌&&◌, ◌∙◌}
use l.Expression.{Expression, Expressions}
use l.Generator.{rax, r10, r11, Passes, Code}
use l.Generator.Plain.{is_free, make_load_address-Plain}
use l.Expression.{
  storage, function, with, invoke, if_else, symbol, jump, continuation, constrain, assembly, meta,
  none_left, also,
}
use l.Generator.Plain.{make_store-Plain, sgenerate_symbols-Plain, sgenerate_literals-Plain}
use l.Generator.Control.{sgenerate_storage_expressions}
use l.Generator.Program.{generate_expressions, generate_args}
use l.Generator.Height.{height, Plain-height}
use l.Generator.Balance.{
  Stays, settled_call, both, sgenerate_ifs-height, sgenerate_continuations-height,
  sgenerate_withs-height, sgenerate_functions-height, sgenerate_invokes-height,
  sgenerate_jumps-height,
}

module _ (p : Passes) where
  -- Every invocation in an expression is settled.
  unfoldable mutual
    pub is_settled : Expression → Bool
    is_settled (continuation a ref params e) = is_settled e
    is_settled (with a ref param e) = is_settled e
    is_settled (function a ref params e) = is_settled e
    is_settled (jump a ref args) = is_settled ref && all_settled args
    is_settled (invoke a ref args) =
        settled_call (p.contains_flag a) (p.fields.type_of (p.temp_of a))
        && (is_settled ref && all_settled args)
    is_settled (storage a ref args) = all_settled args
    is_settled (if_else a c t e) = is_settled c && (is_settled t && is_settled e)
    is_settled (constrain a e ref) = is_settled e
    is_settled _ = true

    pub all_settled : Expressions → Bool
    all_settled none_left = true
    all_settled (also e es) = is_settled e && all_settled es

  mutual
    unfolding generate_expressions sgenerate_storage_expressions is_free is_settled

    expression-height : (e : Expression) → is_settled e ≡ true → Stays (generate_expressions p e)
    expression-height (continuation a ref params e) h =
        sgenerate_continuations-height p a ref (generate_expressions p e) (expression-height e h)
    expression-height (with a ref param e) h =
        sgenerate_withs-height p a ref param (generate_expressions p e) (expression-height e h)
    expression-height (function a ref params e) h =
        sgenerate_functions-height p a ref (generate_expressions p e) (expression-height e h)
    expression-height (jump a ref args) h =
        let (left, right) = both (is_settled ref) (all_settled args) h in
        sgenerate_jumps-height p a ref args (generate_expressions p ref)
          (generate_args p (p.temp_of a) r10 0 args) (expression-height ref left)
          (args-height (p.temp_of a) r10 0 args refl right)
    expression-height (invoke a ref args) h =
        let (call, parts) =
          both (settled_call (p.contains_flag a) (p.fields.type_of (p.temp_of a)))
            (is_settled ref && all_settled args) h in
        let (left, right) = both (is_settled ref) (all_settled args) parts in
        sgenerate_invokes-height p a args (generate_expressions p ref)
          (generate_args p (p.temp_of a) r10 0 args) call (expression-height ref left)
          (args-height (p.temp_of a) r10 0 args refl right)
    expression-height (storage a ref args) h = λ s.
        Plain-height (
          make_load_address-Plain p (p.aug_of ref) rax
            {s = generate_args p (p.aug_of ref) r11 0 args s} refl)
        ∙ args-height (p.aug_of ref) r11 0 args refl h s
    expression-height (if_else a c t e) h =
        let (first, rest) = both (is_settled c) (is_settled t && is_settled e) h in
        let (second, third) = both (is_settled t) (is_settled e) rest in
        sgenerate_ifs-height (generate_expressions p c) (generate_expressions p t)
          (generate_expressions p e) (expression-height c first) (expression-height t second)
          (expression-height e third)
    expression-height (constrain a e ref) h = expression-height e h
    expression-height (symbol a name) h =
        λ s. Plain-height (sgenerate_symbols-Plain p (symbol a name) {s = s})
    expression-height (Expression.literal a value) h =
        λ s. Plain-height (sgenerate_literals-Plain value {s = s})
    expression-height (assembly op args) h = λ s. refl
    expression-height (meta a ref frag) h = λ s. refl

    args-height :
        (dest scratch offset : ℕ) (ts : Expressions)
        → is_free scratch ≡ true
        → all_settled ts ≡ true
        → Stays (generate_args p dest scratch offset ts)
    args-height dest scratch offset none_left free h s = refl
    args-height dest scratch offset (also t ts) free h s =
        let (first, rest) = both (is_settled t) (all_settled ts) h in
        args-height dest scratch (offset + 8) ts free rest _
        ∙ Plain-height
            (make_store-Plain p rax dest offset scratch {s = generate_expressions p t s} refl free)
        ∙ expression-height t first s

  -- Read in the order of its text, the code of an expression leaves the stack pointer and the open
  -- frames as they were, for whatever code stands in front: what is pushed, and what is reserved for
  -- arguments, is taken off again, and each frame that is entered is left. No jump is
  -- followed. Every invocation in the expression keeps its
  -- arguments on the stack, or has the flag `CONTAINS_WITH` and pushes them.
  pub generate_expressions-height :
      (e : Expression)
      → is_settled e ≡ true
      → (s : Code) → height (generate_expressions p e s).c ≡ height s.c
  generate_expressions-height e h s = expression-height e h s
