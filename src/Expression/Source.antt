-- ===== src/Expression/Source.antt =====
-- L2 source for an expression.
use l.Prelude.{[], ◌∷◌, Chars, codes, none, some}
use l.Fragment.{Fragment, Fragments, var, token, group, nil, cons, to_string}
use l.Expression.{
  Expression, Expressions, storage, function, with, invoke, if_else, literal, symbol, jump,
  continuation, constrain, assembly, meta, none_left, also,
}
use l.Expression.Keyword.{
  Form, with_form, if_form, function_form, continuation_form, literal_form, invoke_form, jump_form,
  storage_form, constrain_form, meta_form,
}
use l.Expression.Literal.{binary}

-- The fragment of a text of at least one character.
unfoldable pub token_of : Chars → Fragment
token_of [] = group nil
token_of (c ∷ cs) = token c cs

unfoldable pub elements_after_first : Fragment → Fragments
elements_after_first (group (cons x xs)) = xs
elements_after_first _ = nil

-- A fragment with each token as the string that `to_string` gives for it.
unfoldable mutual
  unfolding token_of to_string

  pub as_source : Fragment → Fragment
  as_source (var v) = var v
  as_source (token c cs) = token_of (to_string (c ∷ cs))
  as_source (group xs) = group (as_source_all xs)

  pub as_source_all : Fragments → Fragments
  as_source_all nil = nil
  as_source_all (cons x xs) = cons (as_source x) (as_source_all xs)

unfoldable pub keyword_of : Form → Chars
keyword_of with_form = codes "with"
keyword_of if_form = codes "if"
keyword_of function_form = codes "function"
keyword_of continuation_form = codes "continuation"
keyword_of literal_form = codes "literal"
keyword_of invoke_form = codes "invoke"
keyword_of jump_form = codes "jump"
keyword_of storage_form = codes "storage"
keyword_of constrain_form = codes "constrain"
keyword_of meta_form = []

abbrev pub form : Form → Fragments → Fragment
form k xs = group (cons (token_of (keyword_of k)) xs)

-- L2 source for an expression; a literal as its 64 binary digits.
unfoldable mutual
  unfolding token_of keyword_of elements_after_first binary as_source

  pub unbuild : Expression → Fragment
  unbuild (storage a ref args) = form storage_form (cons (unbuild ref) (unbuild_all args))
  unbuild (function a ref params expr) =
      form function_form
        (cons (unbuild ref) (cons (group (unbuild_all params)) (cons (unbuild expr) nil)))
  unbuild (with a ref param expr) = form with_form (cons (unbuild ref) (cons (unbuild expr) nil))
  unbuild (invoke a ref args) = form invoke_form (cons (unbuild ref) (unbuild_all args))
  unbuild (if_else a c t e) =
      form if_form (cons (unbuild c) (cons (unbuild t) (cons (unbuild e) nil)))
  unbuild (literal a v) = form literal_form (cons (token_of (binary 64 v)) nil)
  unbuild (symbol a none) = group nil
  unbuild (symbol a (some name)) = token_of name
  unbuild (jump a ref args) = form jump_form (cons (unbuild ref) (unbuild_all args))
  unbuild (continuation a ref params expr) =
      form continuation_form
        (cons (unbuild ref) (cons (group (unbuild_all params)) (cons (unbuild expr) nil)))
  unbuild (constrain a expr ref) =
      form constrain_form (cons (unbuild expr) (cons (unbuild ref) nil))
  unbuild (assembly op args) = group nil
  unbuild (meta a ref frag) = group (cons (unbuild ref) (as_source_all (elements_after_first frag)))

  pub unbuild_all : Expressions → Fragments
  unbuild_all none_left = nil
  unbuild_all (also e es) = cons (unbuild e) (unbuild_all es)
