-- ===== src/Tests/Escaped.antt =====
-- The results on escaping continuations at a concrete expression.
use l.Prelude.{ℕ, ◌+◌, true, [], ◌∷◌, Option, none, some, if◌then◌else◌, ◌==◌, ◌≡◌, refl}
use l.Expression.{Expression, function, with, jump, invoke, symbol, none_left, also}
use l.Escape.{Escapes, escape_analysis}
use l.Escape.Uses.{accounted, uses, open_use, escape_analysis-uses}

-- `(function f () (with k [f k {k k}]))`, where the symbols 8, 10 and 11 stand for the `with`.
abbrev body : Expression
body = with 3 (symbol 4 none) (also (symbol 5 none) none_left) (
    invoke 6 (symbol 7 none) (
      also (symbol 8 none)
        (also (jump 9 (symbol 10 none) (also (symbol 11 none) none_left)) none_left)))

abbrev definition : Expression
definition = function 1 (symbol 2 none) none_left body

abbrev target : ℕ → Option ℕ
target a = if a == 8 then some 3 else if a == 10 then some 3 else if a == 11 then some 3 else none

abbrev nothing_marked : Escapes
nothing_marked = record { escaping = []; short_circuits = [] }

abbrev marked : Escapes
marked = record { escaping = 3 ∷ 3 ∷ []; short_circuits = (9, 3) ∷ [] }

run_on_with : escape_analysis target definition true nothing_marked ≡ marked
unfolding escape_analysis
run_on_with = refl

escape_analysis-uses_example :
    accounted 3 (escape_analysis target definition true nothing_marked)
      + open_use target 3 definition true
    ≡ accounted 3 nothing_marked + uses target 3 definition
escape_analysis-uses_example = escape_analysis-uses target 3 definition true nothing_marked
