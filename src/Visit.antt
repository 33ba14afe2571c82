-- ===== src/Visit.antt =====
-- `visit_expressions` of bootstrap/analysis.c and the visitor `vfind_multiple_definitions`.
pub mod Unique
use l.Prelude.{ℕ, Bool, true, false, List, [], ◌∷◌, Option, none, some, Chars, if◌then◌else◌}
use l.Interface.{streq}
use l.Result.{Result, ok, thrown, undefined, ◌>>=◌, multiple_definition}
use l.Expression.{
  Expression, Expressions, storage, function, with, invoke, if_else, literal, symbol, jump,
  continuation, constrain, assembly, meta, none_left, also,
}

-- The visitor is applied to an expression when its parts have been replaced.
unfoldable mutual
  pub visit_expressions :
      (visitor : Expression → Result Expression) → Expression → Result Expression
  visit_expressions visitor (if_else a c t e) = visit_expressions visitor c >>= λ c'.
      visit_expressions visitor t >>= λ t'.
      visit_expressions visitor e >>= λ e'. visitor (if_else a c' t' e')
  visit_expressions visitor (function a ref params e) =
      visit_expressions visitor e >>= λ e'. visitor (function a ref params e')
  visit_expressions visitor (continuation a ref params e) =
      visit_expressions visitor e >>= λ e'. visitor (continuation a ref params e')
  visit_expressions visitor (with a ref param e) =
      visit_expressions visitor e >>= λ e'. visitor (with a ref param e')
  visit_expressions visitor (constrain a e ref) =
      visit_expressions visitor e >>= λ e'. visitor (constrain a e' ref)
  visit_expressions visitor (jump a ref args) = visit_expressions visitor ref >>= λ ref'.
      visit_each visitor args >>= λ args'. visitor (jump a ref' args')
  visit_expressions visitor (invoke a ref args) = visit_expressions visitor ref >>= λ ref'.
      visit_each visitor args >>= λ args'. visitor (invoke a ref' args')
  visit_expressions visitor (storage a ref args) =
      visit_each visitor args >>= λ args'. visitor (storage a ref args')
  visit_expressions visitor (literal a v) = visitor (literal a v)
  visit_expressions visitor (symbol a name) = visitor (symbol a name)
  visit_expressions visitor (assembly op args) = visitor (assembly op args)
  visit_expressions visitor (meta a ref frag) = visitor (meta a ref frag)

  pub visit_each : (visitor : Expression → Result Expression) → Expressions → Result Expressions
  visit_each visitor none_left = ok none_left
  visit_each visitor (also t ts) =
      visit_expressions visitor t >>= λ t'. visit_each visitor ts >>= λ ts'. ok (also t' ts')

unfoldable pub defined_string_equals : Option Chars → Option Chars → Bool
unfolding streq
defined_string_equals (some a) (some b) = streq a b
defined_string_equals _ _ = false

-- `symbol.name`, which only a symbol has.
unfoldable pub name_of_symbol : Expression → Option Chars
name_of_symbol (symbol a name) = name
name_of_symbol _ = none

-- `exists` with `reference_named`
unfoldable pub exists_named : Option Chars → Expressions → Bool
unfolding defined_string_equals name_of_symbol
exists_named name none_left = false
exists_named name (also e es) =
    let rest = exists_named name es in
    if defined_string_equals (name_of_symbol e) name then true else rest

-- `throw_multiple_definition`, which is called with a name that is there.
unfoldable pub throw_repeated : Option Chars → Result Expression
throw_repeated none = undefined
throw_repeated (some name) = thrown (multiple_definition name)

-- The loop over a reference and its parameters, with what follows once no name is repeated.
unfoldable pub find_repeated : Expressions → Result Expression → Result Expression
unfolding exists_named throw_repeated
find_repeated none_left after = after
find_repeated (also t ts) after =
    let rest = find_repeated ts after in
    if exists_named (name_of_symbol t) ts then throw_repeated (name_of_symbol t) else rest

unfoldable pub vfind_multiple_definitions : Expression → Result Expression
unfolding find_repeated
vfind_multiple_definitions (function a ref params e) =
    find_repeated (also ref params) (ok (function a ref params e))
vfind_multiple_definitions (continuation a ref params e) =
    find_repeated (also ref params) (ok (continuation a ref params e))
vfind_multiple_definitions (storage a ref args) = ok (storage a ref args)
vfind_multiple_definitions (with a ref param e) = ok (with a ref param e)
vfind_multiple_definitions (invoke a ref args) = ok (invoke a ref args)
vfind_multiple_definitions (if_else a c t e) = ok (if_else a c t e)
vfind_multiple_definitions (literal a v) = ok (literal a v)
vfind_multiple_definitions (symbol a name) = ok (symbol a name)
vfind_multiple_definitions (jump a ref args) = ok (jump a ref args)
vfind_multiple_definitions (constrain a e ref) = ok (constrain a e ref)
vfind_multiple_definitions (assembly op args) = ok (assembly op args)
vfind_multiple_definitions (meta a ref frag) = ok (meta a ref frag)
