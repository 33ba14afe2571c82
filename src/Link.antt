-- ===== src/Link.antt =====
-- `link_symbols` of bootstrap/analysis.c: which binding each symbol stands for. A symbol that no
-- binding in scope is named after gets a new undefined binding. `bound` says which symbols had a
-- binding before the pass, and `own` gives the binding of a reference or a parameter, which make_ functions bound.
pub mod Names
pub mod Undefined
use l.Prelude.{ℕ, suc, Bool, true, false, List, [], ◌∷◌, Option, none, some, Chars, if◌then◌else◌}
use l.Interface.{streq}
use l.Elf.{Scope, global_scope, State, undefined_state}
use l.Frames.{StorageType, absolute_storage}
use l.Expression.{
  Expression, Expressions, storage, function, with, invoke, if_else, literal, symbol, jump,
  continuation, constrain, assembly, meta, none_left, also,
}

-- A `struct binding_aug`, with the fields that the pass reads and assigns.
pub record Bound : Type 0 where
  pub address : ℕ
  pub name : Option Chars
  pub type : StorageType
  pub scope : Scope
  pub state : State

-- `undefined_bindings`, the bindings of symbols that were assigned, and the next free address.
pub record Linkage : Type 0 where
  pub undefined_bindings : List Bound
  pub links : List (ℕ × Bound)
  pub next : ℕ

unfoldable pub same_name : Option Chars → Option Chars → Bool
unfolding streq
same_name (some a) (some b) = streq a b
same_name _ _ = false

-- The first binding with the name of a symbol.
unfoldable pub assign_binding : Option Chars → List Bound → Option Bound
unfolding same_name
assign_binding name [] = none
assign_binding name (b ∷ bs) =
    let rest = assign_binding name bs in if same_name b.name name then some b else rest

unfoldable pub or_else : Option Bound → Option Bound → Option Bound
or_else (some b) other = some b
or_else none other = other

-- The binding of a storage expression without arguments that is made for a name.
unfoldable pub undefined_binding : Option Chars → ℕ → Bound
undefined_binding name a = record {
  address = a;
  name = name;
  type = absolute_storage;
  scope = global_scope;
  state = undefined_state;
}

-- The assignment to `binding_aug` of a symbol, once the lists have been searched.
unfoldable pub link_to : (symbol : ℕ) → (name : Option Chars) → Option Bound → Linkage → Linkage
unfolding undefined_binding
link_to a name (some b) s = record s { links = (a, b) ∷ s.links }
link_to a name none s = record {
  undefined_bindings = undefined_binding name s.next ∷ s.undefined_bindings;
  links = (a, undefined_binding name s.next) ∷ s.links;
  next = suc s.next;
}

module _ (bound : ℕ → Bool) (own : Expression → Bound) where
  unfoldable pub link_symbol :
      (symbol : ℕ) (name : Option Chars) (static_bindings dynamic_bindings : List Bound)
      → Linkage
      → Linkage
  unfolding assign_binding or_else link_to
  link_symbol a name static dynamic s =
      if bound a
      then s
      else link_to a name
          (or_else (assign_binding name dynamic)
            (or_else (assign_binding name static) (assign_binding name s.undefined_bindings)))
          s

  -- The loop that puts parameters in front of the bindings.
  unfoldable pub with_parameters : Expressions → List Bound → List Bound
  with_parameters none_left bs = bs
  with_parameters (also u us) bs = with_parameters us (own u ∷ bs)

  unfoldable pub with_own : Expression → List Bound → List Bound
  with_own ref bs = own ref ∷ bs

  unfoldable mutual
    unfolding link_symbol with_parameters with_own

    pub link_symbols :
        Expression
        → (static_storage : Bool) → (static_bindings dynamic_bindings : List Bound) → Linkage
        → Linkage
    link_symbols (function a ref params e) static_storage static dynamic s =
        link_symbols e false (with_own ref static) (with_parameters params []) s
    link_symbols (with a ref param e) true static dynamic s =
        link_symbols e true (with_parameters param (with_own ref static)) dynamic s
    link_symbols (with a ref param e) false static dynamic s =
        link_symbols e false static (with_parameters param (with_own ref dynamic)) s
    link_symbols (continuation a ref params e) true static dynamic s =
        link_symbols e true (with_parameters params (with_own ref static)) dynamic s
    link_symbols (continuation a ref params e) false static dynamic s =
        link_symbols e false static (with_parameters params (with_own ref dynamic)) s
    link_symbols (storage a ref args) true static dynamic s =
        link_each args true (with_own ref static) dynamic s
    link_symbols (storage a ref args) false static dynamic s =
        link_each args false static (with_own ref dynamic) s
    link_symbols (symbol a name) static_storage static dynamic s =
        link_symbol a name static dynamic s
    link_symbols (if_else a c t e) static_storage static dynamic s =
        link_symbols e static_storage static dynamic (
          link_symbols t static_storage static dynamic
            (link_symbols c static_storage static dynamic s))
    link_symbols (invoke a ref args) static_storage static dynamic s =
        link_each args static_storage static dynamic
          (link_symbols ref static_storage static dynamic s)
    link_symbols (jump a ref args) static_storage static dynamic s =
        link_each args static_storage static dynamic
          (link_symbols ref static_storage static dynamic s)
    link_symbols (constrain a e ref) static_storage static dynamic s =
        link_symbols e static_storage static dynamic s
    link_symbols (literal a v) static_storage static dynamic s = s
    link_symbols (assembly op args) static_storage static dynamic s = s
    link_symbols (meta a ref frag) static_storage static dynamic s = s

    pub link_each :
        Expressions
        → (static_storage : Bool) → (static_bindings dynamic_bindings : List Bound) → Linkage
        → Linkage
    link_each none_left static_storage static dynamic s = s
    link_each (also u us) static_storage static dynamic s =
        link_each us static_storage static dynamic (link_symbols u static_storage static dynamic s)
