-- ===== src/Expression.antt =====
-- bootstrap/expressions.c: syntax trees, their constructors `make_…`, and `build_expression`.
-- A node carries the address at which `region_alloc` put it; the signature of the node at `n` is the
-- variable `var n`. The fields that later passes assign (`binding_aug`, `escapes`, `contains_flag`,
-- `short_circuit`, `dependencies`, `lowlink`) belong to those passes and are kept by address there.
pub mod Keyword
pub mod Literal
pub mod Source
pub mod Parts
pub mod Unbuild
use l.Prelude.{
  ℕ, zero, suc, ◌+◌, ◌*◌, ◌%◌, ◌^◌, Bool, true, false, [], ◌∷◌, Chars, ◌==◌, if◌then◌else◌, codes,
  length, Option, none, some, ◌&&◌, ◌||◌,
}
use l.Fragment.{Fragment, Fragments, var, token, group, nil, cons, is_token, to_string}
use l.Result.{Result, ok, thrown, undefined, ◌>>=◌, Error, special_form}
use l.Interface.{streq}
use Keyword.{
  Form, with_form, if_form, function_form, continuation_form, literal_form, invoke_form, jump_form,
  storage_form, constrain_form, meta_form, literal_value, form_of,
}

-- One constructor for each `expression_type`; the first number is the address, but the opcode at
-- `assembly`, whose nodes are only read by value.
mutual
  pub data Expression : Type 0 where
    storage : ℕ → (reference : Expression) (arguments : Expressions) → Expression
    function :
        ℕ
        → (reference : Expression) (parameters : Expressions) (expression : Expression) → Expression
    with :
        ℕ
        → (reference : Expression) (parameter : Expressions) (expression : Expression) → Expression
    invoke : ℕ → (reference : Expression) (arguments : Expressions) → Expression
    if_else : ℕ → (condition consequent alternate : Expression) → Expression
    literal : ℕ → (value : ℕ) → Expression
    symbol : ℕ → (name : Option Chars) → Expression
    jump : ℕ → (reference : Expression) (arguments : Expressions) → Expression
    continuation :
        ℕ
        → (reference : Expression) (parameters : Expressions) (expression : Expression) → Expression
    constrain : ℕ → (expression reference : Expression) → Expression
    assembly : (opcode : ℕ) (arguments : Expressions) → Expression
    meta : ℕ → (reference : Expression) (fragment : Fragment) → Expression

  pub data Expressions : Type 0 where
    none_left : Expressions
    also : Expression → Expressions → Expressions

-- The allocator: the next free address. A constructor takes the first one for its node.
abbrev pub Made : Type 0
Made = Expression × ℕ

unfoldable pub make_literal : ℕ → ℕ → Made
make_literal value n = (literal n value, suc n)

unfoldable pub make_symbol : Option Chars → ℕ → Made
make_symbol name n = (symbol n name, suc n)

unfoldable pub make_function : Expression → Expressions → Expression → ℕ → Made
make_function ref params expr n = (function n ref params expr, suc n)

unfoldable pub make_continuation : Expression → Expressions → Expression → ℕ → Made
make_continuation ref params expr n = (continuation n ref params expr, suc n)

-- The parameter of a `with` is a symbol without a name.
unfoldable pub make_with : Expression → Expression → ℕ → Made
make_with ref expr n = (with n ref (also (symbol (suc n) none) none_left) expr, suc (suc n))

unfoldable pub make_jump : Expression → Expressions → ℕ → Made
make_jump ref args n = (jump n ref args, suc n)

unfoldable pub make_invoke : Expression → Expressions → ℕ → Made
make_invoke ref args n = (invoke n ref args, suc n)

unfoldable pub make_storage : Expression → Expressions → ℕ → Made
make_storage ref args n = (storage n ref args, suc n)

unfoldable pub make_meta : Expression → Fragment → ℕ → Made
make_meta ref frag n = (meta n ref frag, suc n)

unfoldable pub make_constrain : Expression → Expression → ℕ → Made
make_constrain expr ref n = (constrain n expr ref, suc n)

unfoldable pub make_if : Expression → Expression → Expression → ℕ → Made
make_if c t e n = (if_else n c t e, suc n)

-- `special_form` without, and with, the offending part.
abbrev bad_form {ℓ} : {A : Type ℓ} → Fragment → Result A
bad_form d = thrown (special_form d none)

abbrev bad_part {ℓ} : {A : Type ℓ} → Fragment → Fragment → Result A
bad_part d part = thrown (special_form d (some part))

-- The first element's `to_string`, where it is compared with the keywords. A variable has no end.
-- The characters of a list of lists are low bytes of the addresses of its elements, which are
-- multiples of 8, and no keyword starts with such a byte: no keyword matches.
unfoldable pub keyword_form : Fragment → Result Form
unfolding form_of to_string
keyword_form (var v) = undefined
keyword_form (token c cs) = ok (form_of (to_string (c ∷ cs)))
keyword_form (group xs) = ok meta_form

unfoldable pub make_function_or_continuation :
    Form → Expression → Expressions → Expression → ℕ → Made
unfolding make_function make_continuation
make_function_or_continuation function_form = make_function
make_function_or_continuation _ = make_continuation

unfoldable pub make_call : Form → Expression → Expressions → ℕ → Made
unfolding make_invoke make_jump make_storage
make_call invoke_form = make_invoke
make_call jump_form = make_jump
make_call _ = make_storage

unfoldable pub made_literal : Fragment → Fragment → ℕ → Option ℕ → Result Made
unfolding make_literal
made_literal d digits n none = bad_part d digits
made_literal d digits n (some v) = ok (make_literal v n)

unfoldable pub build_literal : Fragment → Fragment → ℕ → Result Made
unfolding literal_value made_literal to_string
build_literal d (token c cs) n =
    let str = to_string (c ∷ cs) in
    if length str == 64
    then made_literal d (token c cs) n (literal_value 0 str)
    else bad_part d (token c cs)
build_literal d digits n = bad_part d digits

-- A list whose first element is no keyword is the call of a macro.
unfoldable pub by_form : (ℕ → Result Made) → (Form → ℕ → Result Made) → Form → ℕ → Result Made
by_form as_meta as_form meta_form = as_meta
by_form as_meta as_form form = as_form form

unfoldable pub build_meta : Fragment → (ℕ → Result Made) → ℕ → Result Made
unfolding make_meta
build_meta d build_name n = do (ref, n) ← build_name n; ok (make_meta ref d n)

-- `function` and `continuation`: `params`, `ref` and `body` are the calls for the parts.
unfoldable pub build_function :
    Fragment
    → Form
    → (name params : Fragment) → (ℕ → Result (Expressions × ℕ))
    → (ℕ → Result Made)
    → (ℕ → Result Made)
    → ℕ
    → Result Made
unfolding make_function_or_continuation is_token
build_function d form name params build_params build_name build_body n =
    let build = (do
      (parameters, n) ← build_params n
      (ref, n) ← build_name n
      (expr, n) ← build_body n
      ok (make_function_or_continuation form ref parameters expr n)) in
    if is_token name then if is_token params then bad_part d params else build else bad_part d name

-- `invoke`, `jump` and `storage`: the arguments are built before the reference.
unfoldable pub build_call :
    Fragment
    → Form
    → (name : Fragment) → (ℕ → Result (Expressions × ℕ))
    → (ℕ → Result Made)
    → ℕ
    → Result Made
unfolding make_call is_token
build_call d form name build_args build_name n =
    let build = (do
      (arguments, n) ← build_args n
      (ref, n) ← build_name n
      ok (make_call form ref arguments n)) in
    elim form [ storage_form ↦ if is_token name then build else bad_part d name | _ ↦ build ]

-- The counter of addresses is threaded through in the order of the calls. Where C leaves the order
-- of the arguments of a call open (`if`, `constrain`), it is from left to right.
unfoldable mutual
  unfolding keyword_form make_symbol build_function make_with build_call build_meta by_form
      make_constrain make_if build_literal is_token to_string

  pub build_expression : Fragment → ℕ → Result Made
  build_expression (var v) n = undefined
  build_expression (token c cs) n = ok (make_symbol (some (to_string (c ∷ cs))) n)
  build_expression (group nil) n = bad_form (group nil)
  build_expression (group (cons h t)) n = do
    form ← keyword_form h
    by_form (build_meta (group (cons h t)) (build_expression h))
        (λ form. build_form (group (cons h t)) form t) form n

  -- `d` is the whole form and `t` its elements after the keyword.
  pub build_form : Fragment → Form → Fragments → ℕ → Result Made
  build_form d with_form (cons r (cons e nil)) n =
      let build = (do
        (ref, n) ← build_expression r n
        (expr, n) ← build_expression e n
        ok (make_with ref expr n)) in
      if is_token r then build else bad_part d r
  build_form d if_form (cons c (cons t (cons e nil))) n = do
    (condition, n) ← build_expression c n
    (consequent, n) ← build_expression t n
    (alternate, n) ← build_expression e n
    ok (make_if condition consequent alternate n)
  build_form d literal_form (cons digits nil) n = build_literal d digits n
  build_form d constrain_form (cons e (cons r nil)) n = do
    (expr, n) ← build_expression e n
    (ref, n) ← build_expression r n
    ok (make_constrain expr ref n)
  build_form d function_form (cons r (cons ps (cons e nil))) n =
      build_function d function_form r ps (build_parameter_list d ps) (build_expression r)
        (build_expression e) n
  build_form d continuation_form (cons r (cons ps (cons e nil))) n =
      build_function d continuation_form r ps (build_parameter_list d ps) (build_expression r)
        (build_expression e) n
  build_form d invoke_form (cons r args) n =
      build_call d invoke_form r (build_arguments args) (build_expression r) n
  build_form d jump_form (cons r args) n =
      build_call d jump_form r (build_arguments args) (build_expression r) n
  build_form d storage_form (cons r args) n =
      build_call d storage_form r (build_arguments args) (build_expression r) n
  build_form d form t n = bad_form d

  -- An unbound variable in place of the list is its own first element, and no token.
  pub build_parameter_list : Fragment → Fragment → ℕ → Result (Expressions × ℕ)
  build_parameter_list d (var v) n = bad_part d (var v)
  build_parameter_list d (token c cs) n = bad_part d (token c cs)
  build_parameter_list d (group vs) n = build_parameters d vs n

  pub build_parameters : Fragment → Fragments → ℕ → Result (Expressions × ℕ)
  build_parameters d nil n = ok (none_left, n)
  build_parameters d (cons v vs) n =
      let build = (do
        (param, n) ← build_expression v n
        (params, n) ← build_parameters d vs n
        ok (also param params, n)) in
      if is_token v then build else bad_part d v

  pub build_arguments : Fragments → ℕ → Result (Expressions × ℕ)
  build_arguments nil n = ok (none_left, n)
  build_arguments (cons v vs) n = do
    (arg, n) ← build_expression v n
    (args, n) ← build_arguments vs n
    ok (also arg args, n)
