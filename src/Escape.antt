-- ===== src/Escape.antt =====
-- `escape_analysis` of bootstrap/analysis.c: which continuations are used other than by a jump to
-- them, and where a jump goes that need not call. `target` gives, for a symbol's address, the address
-- of the `continuation` or `with` expression that its binding is the reference of, if it is one.
pub mod Uses
use l.Prelude.{ℕ, Bool, true, false, List, [], ◌∷◌, Option, none, some, if◌then◌else◌}
use l.Expression.{
  Expression, Expressions, storage, function, with, invoke, if_else, literal, symbol, jump,
  continuation, constrain, assembly, meta, none_left, also,
}

-- The nodes whose `escapes` was assigned, and the jumps whose `short_circuit` was, with what it is.
pub record Escapes : Type 0 where
  pub escaping : List ℕ
  pub short_circuits : List (ℕ × ℕ)

unfoldable pub set_escapes : Option ℕ → Escapes → Escapes
set_escapes none s = s
set_escapes (some t) s = record s { escaping = t ∷ s.escaping }

unfoldable pub set_short_circuit : ℕ → Option ℕ → Escapes → Escapes
set_short_circuit a none s = s
set_short_circuit a (some t) s = record s { short_circuits = (a, t) ∷ s.short_circuits }

module _ (target : ℕ → Option ℕ) where
  -- What a jump with this reference goes to.
  unfoldable pub jump_target : Expression → Option ℕ
  jump_target (symbol a name) = target a
  jump_target (continuation a ref params e) = some a
  jump_target _ = none

  unfoldable mutual
    unfolding set_escapes set_short_circuit jump_target

    pub escape_analysis : Expression → (escaping : Bool) → Escapes → Escapes
    escape_analysis (symbol a name) true s = set_escapes (target a) s
    escape_analysis (symbol a name) false s = s
    escape_analysis (if_else a c t e) escaping s =
        escape_analysis e true (escape_analysis t true (escape_analysis c true s))
    escape_analysis (function a ref params e) escaping s = escape_analysis e true s
    escape_analysis (with a ref param e) escaping s = escape_analysis e true s
    escape_analysis (continuation a ref params e) true s =
        escape_analysis e true (set_escapes (some a) s)
    escape_analysis (continuation a ref params e) false s = escape_analysis e true s
    escape_analysis (storage a ref args) escaping s = escape_each args s
    escape_analysis (jump a ref args) escaping s =
        escape_each args (escape_analysis ref false (set_short_circuit a (jump_target ref) s))
    escape_analysis (invoke a ref args) escaping s = escape_each args (escape_analysis ref true s)
    escape_analysis (constrain a e ref) escaping s = escape_analysis e true s
    escape_analysis (literal a v) escaping s = s
    escape_analysis (assembly op args) escaping s = s
    escape_analysis (meta a ref frag) escaping s = s

    pub escape_each : Expressions → Escapes → Escapes
    escape_each none_left s = s
    escape_each (also t ts) s = escape_each ts (escape_analysis t true s)
