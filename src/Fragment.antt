-- ===== src/Fragment.antt =====
-- bootstrap/lexer.c: fragments, the s-expressions that the lexer builds and macros rewrite.
use l.Prelude.{ℕ, ◌%◌, Bool, true, false, [], ◌∷◌, ◌++◌, Chars, ◌==◌, ◌&&◌, if◌then◌else◌}
use l.Interface.{ulong_to_str}

-- A `list` of characters, which is never empty (`token`), a variable, that is a cons cell whose
-- `rst` is itself (`var`, by the cell's address), or a `list` of fragments (`group`, `nil` too).
mutual
  pub data Fragment : Type 0 where
    var : ℕ → Fragment
    token : ℕ → Chars → Fragment
    group : Fragments → Fragment

  pub data Fragments : Type 0 where
    nil : Fragments
    cons : Fragment → Fragments → Fragments

unfoldable pub is_var : Fragment → Bool
is_var (var v) = true
is_var _ = false

unfoldable pub is_token : Fragment → Bool
is_token (token c cs) = true
is_token _ = false

-- `to_string`, as the `char *` that it is used as: a string ends at the first 0.
unfoldable pub to_string : Chars → Chars
to_string [] = []
to_string (c ∷ cs) = let rest = to_string cs in if c == 0 then [] else c ∷ rest

-- The loop over both strings; `token_equals` has compared the lengths before.
unfoldable pub chars_equal : Chars → Chars → Bool
chars_equal [] [] = true
chars_equal (x ∷ xs) (y ∷ ys) = (x == y) && chars_equal xs ys
chars_equal _ _ = false

-- What `print_fragment` writes to the standard output; a variable shows its address.
unfoldable mutual
  pub print_fragment : Fragment → Chars
  print_fragment (var v) = b'!' ∷ ulong_to_str (v % 8192)
  print_fragment (token c cs) = c ∷ cs
  print_fragment (group xs) = b'(' ∷ (print_elements xs ++ b')' ∷ [])

  pub print_elements : Fragments → Chars
  print_elements nil = []
  print_elements (cons x xs) = print_fragment x ++ b' ' ∷ print_elements xs
