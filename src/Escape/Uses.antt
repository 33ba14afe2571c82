-- ===== src/Escape/Uses.antt =====
-- What becomes of the uses of a continuation in `escape_analysis` of bootstrap/analysis.c.
use l.Prelude.{
  ℕ, ◌+◌, Bool, true, false, List, [], ◌∷◌, Option, none, some, if◌then◌else◌, ◌==◌, ◌≡◌, refl,
  arith,
}
use l.Expression.{
  Expression, Expressions, storage, function, with, invoke, if_else, literal, symbol, jump,
  continuation, constrain, assembly, meta, none_left, also,
}
use l.Escape.{Escapes, set_escapes, set_short_circuit, jump_target, escape_analysis, escape_each}

unfoldable pub is_target : ℕ → Option ℕ → ℕ
is_target x none = 0
is_target x (some t) = if t == x then 1 else 0

-- How often a node was marked, and how many jumps go to it.
unfoldable pub times_marked : ℕ → List ℕ → ℕ
unfolding is_target
times_marked x [] = 0
times_marked x (t ∷ ts) = is_target x (some t) + times_marked x ts

unfoldable pub jumps_to : ℕ → List (ℕ × ℕ) → ℕ
unfolding is_target
jumps_to x [] = 0
jumps_to x (j ∷ js) = is_target x (some j.1) + jumps_to x js

unfoldable pub accounted : ℕ → Escapes → ℕ
unfolding times_marked jumps_to
accounted x s = times_marked x s.escaping + jumps_to x s.short_circuits

set_escapes-accounted :
    (x : ℕ) (o : Option ℕ) (s : Escapes)
    → accounted x (set_escapes o s) ≡ is_target x o + accounted x s
unfolding accounted set_escapes is_target times_marked
set_escapes-accounted x none s = omega arith
set_escapes-accounted x (some t) s = omega arith

set_short_circuit-accounted :
    (x a : ℕ) (o : Option ℕ) (s : Escapes)
    → accounted x (set_short_circuit a o s) ≡ is_target x o + accounted x s
unfolding accounted set_short_circuit is_target jumps_to
set_short_circuit-accounted x a none s = omega arith
set_short_circuit-accounted x a (some t) s = omega arith

module _ (target : ℕ → Option ℕ) (x : ℕ) where
  -- How often the node is used: through a symbol that stands for it, or as an expression.
  unfoldable mutual
    unfolding is_target

    pub uses : Expression → ℕ
    uses (symbol a name) = is_target x (target a)
    uses (continuation a ref params e) = is_target x (some a) + uses e
    uses (if_else a c t e) = uses c + uses t + uses e
    uses (function a ref params e) = uses e
    uses (with a ref param e) = uses e
    uses (storage a ref args) = uses_each args
    uses (jump a ref args) = uses ref + uses_each args
    uses (invoke a ref args) = uses ref + uses_each args
    uses (constrain a e ref) = uses e
    uses (literal a v) = 0
    uses (assembly op args) = 0
    uses (meta a ref frag) = 0

    pub uses_each : Expressions → ℕ
    uses_each none_left = 0
    uses_each (also t ts) = uses t + uses_each ts

  -- The use that an expression is by itself, where it is not said to escape.
  unfoldable pub open_use : Expression → (escaping : Bool) → ℕ
  unfolding is_target jump_target
  open_use e true = 0
  open_use e false = is_target x (jump_target target e)

  no_open_use : (e : Expression) (b : Bool) → jump_target target e ≡ none → open_use e b ≡ 0
  unfolding open_use
  no_open_use e true h = refl
  no_open_use e false h = rw h refl

  mutual
    unfolding escape_analysis uses open_use jump_target

    all_uses :
        (e : Expression) (escaping : Bool) (s : Escapes)
        → accounted x (escape_analysis target e escaping s) + open_use e escaping
          ≡ accounted x s + uses e
    all_uses (symbol a name) true s = omega (arith, set_escapes-accounted x (target a) s)
    all_uses (symbol a name) false s = refl
    all_uses (if_else a c t e) b s = omega (
      arith,
      no_open_use (if_else a c t e) b refl,
      all_uses c true s,
      all_uses t true (escape_analysis target c true s),
      all_uses e true (escape_analysis target t true (escape_analysis target c true s)),
    )
    all_uses (function a ref params e) b s =
        omega (arith, no_open_use (function a ref params e) b refl, all_uses e true s)
    all_uses (with a ref param e) b s =
        omega (arith, no_open_use (with a ref param e) b refl, all_uses e true s)
    all_uses (continuation a ref params e) true s =
        omega (arith, all_uses e true (set_escapes (some a) s), set_escapes-accounted x (some a) s)
    all_uses (continuation a ref params e) false s = omega (arith, all_uses e true s)
    all_uses (storage a ref args) b s =
        omega (arith, no_open_use (storage a ref args) b refl, all_uses_each args s)
    all_uses (jump a ref args) b s = omega (
      arith,
      no_open_use (jump a ref args) b refl,
      set_short_circuit-accounted x a (jump_target target ref) s,
      all_uses ref false (set_short_circuit a (jump_target target ref) s),
      all_uses_each args
          (escape_analysis target ref false (set_short_circuit a (jump_target target ref) s)),
    )
    all_uses (invoke a ref args) b s = omega (
      arith,
      no_open_use (invoke a ref args) b refl,
      all_uses ref true s,
      all_uses_each args (escape_analysis target ref true s),
    )
    all_uses (constrain a e ref) b s =
        omega (arith, no_open_use (constrain a e ref) b refl, all_uses e true s)
    all_uses (literal a v) b s = omega (arith, no_open_use (literal a v) b refl)
    all_uses (assembly op args) b s = omega (arith, no_open_use (assembly op args) b refl)
    all_uses (meta a ref frag) b s = omega (arith, no_open_use (meta a ref frag) b refl)

    all_uses_each :
        (es : Expressions) (s : Escapes)
        → accounted x (escape_each target es s) ≡ accounted x s + uses_each es
    all_uses_each none_left s = omega arith
    all_uses_each (also t ts) s =
        omega (arith, all_uses t true s, all_uses_each ts (escape_analysis target t true s))

  -- Every use of a node in an expression, through a symbol that stands for it or as a continuation
  -- that is evaluated, is accounted for once: the analysis either marks the node as escaping or makes
  -- the node the short circuit of the jump that uses it. Left out is the use that an expression is by
  -- itself when it is not said to escape.
  pub escape_analysis-uses :
      (e : Expression) (escaping : Bool) (s : Escapes)
      → accounted x (escape_analysis target e escaping s) + open_use e escaping
        ≡ accounted x s + uses e
  escape_analysis-uses = all_uses
