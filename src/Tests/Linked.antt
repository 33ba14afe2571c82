-- ===== src/Tests/Linked.antt =====
-- The results on names and linked symbols at a concrete expression.
use l.Prelude.{
  ℕ, ◌+◌, ◌++◌, Bool, true, false, List, [], ◌∷◌, Option, none, some, Chars, codes, length, ◌≡◌,
  ◌⊎◌, refl,
}
use mathlib.Core.List.{map}
use l.Elf.{local_scope, global_scope, defined_state, undefined_state}
use l.Frames.{absolute_storage, frame_relative_storage}
use l.Expression.{Expression, function, invoke, symbol, none_left, also}
use l.Result.{ok, thrown, multiple_definition}
use l.Visit.{visit_expressions, vfind_multiple_definitions}
use l.Visit.Unique.{defines_twice, visit_expressions-multiple}
use l.Link.{Bound, Linkage, link_symbols}
use l.Link.Names.{named_link, open_symbols, link_symbols-names}
use l.Link.Undefined.{made_from, distinct_names, link_symbols-undefined}

-- `(function f (x) [g x g])`
abbrev body : Expression
body =
    invoke 4 (symbol 5 (some (codes "g")))
      (also (symbol 6 (some (codes "x"))) (also (symbol 7 (some (codes "g"))) none_left))

abbrev definition : Expression
definition =
    function 1 (symbol 2 (some (codes "f"))) (also (symbol 3 (some (codes "x"))) none_left) body

abbrev own : Expression → Bound
own (symbol a name) = record {
  address = 100 + a;
  name = name;
  type = frame_relative_storage;
  scope = local_scope;
  state = defined_state;
}
own e = record {
  address = 0;
  name = none;
  type = frame_relative_storage;
  scope = local_scope;
  state = defined_state;
}

abbrev unbound : ℕ → Bool
unbound a = false

abbrev nothing_linked : Linkage
nothing_linked = record { undefined_bindings = []; links = []; next = 200 }

abbrev linked : Linkage
linked = record {
  undefined_bindings =
      record {
        address = 200;
        name = some (codes "g");
        type = absolute_storage;
        scope = global_scope;
        state = undefined_state;
      }
      ∷ [];
  links =
      (
        7,
        record {
          address = 200;
          name = some (codes "g");
          type = absolute_storage;
          scope = global_scope;
          state = undefined_state;
        },
      )
      ∷ (6, own (symbol 3 (some (codes "x"))))
      ∷ (
        5,
        record {
          address = 200;
          name = some (codes "g");
          type = absolute_storage;
          scope = global_scope;
          state = undefined_state;
        },
      )
      ∷ [];
  next = 201;
}

run_on_f : link_symbols unbound own definition true [] [] nothing_linked ≡ linked
unfolding link_symbols
run_on_f = refl

link_symbols-names_example :
    map named_link (link_symbols unbound own definition true [] [] nothing_linked).links
    ≡ open_symbols unbound definition []
link_symbols-names_example = link_symbols-names unbound own definition true [] [] nothing_linked

link_symbols-undefined_example :
    let s' = link_symbols unbound own definition true [] [] nothing_linked in
    (names : List (Option Chars)) × (s'.undefined_bindings ≡ made_from 200 names ++ [])
    × (s'.next ≡ 200 + length names)
    × (distinct_names [] ≡ true → distinct_names s'.undefined_bindings ≡ true)
link_symbols-undefined_example =
    link_symbols-undefined unbound own definition true [] [] nothing_linked

visit_expressions-multiple_example :
    let twice =
      function 1
        (symbol 2 (some (codes "f")))
        (also (symbol 3 (some (codes "f"))) none_left)
        body in
    ((visit_expressions vfind_multiple_definitions twice ≡ ok twice)
      × ((n : Chars) → defines_twice n twice ≡ false))
    ⊎ ((n : Chars) × (visit_expressions vfind_multiple_definitions twice
          ≡ thrown (multiple_definition n))
        × (defines_twice n twice ≡ true))
visit_expressions-multiple_example =
    visit_expressions-multiple
      (function 1 (symbol 2 (some (codes "f"))) (also (symbol 3 (some (codes "f"))) none_left) body)
