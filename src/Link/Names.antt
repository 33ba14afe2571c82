-- ===== src/Link/Names.antt =====
-- What `link_symbols` of bootstrap/analysis.c links: each symbol, and to a binding of its name.
use l.Prelude.{
  ℕ, Bool, true, false, List, [], ◌∷◌, Option, none, some, Chars, if◌then◌else◌, ◌≡◌, refl, ap, ◌∙◌,
  Bool-cases, inl, inr,
}
use mathlib.Core.List.{map}
use l.Interface.Numbers.{streq_iff}
use l.Expression.{
  Expression, Expressions, storage, function, with, invoke, if_else, literal, symbol, jump,
  continuation, constrain, assembly, meta, none_left, also,
}
use l.Link.{
  Bound, Linkage, same_name, assign_binding, or_else, undefined_binding, link_to, link_symbol,
  link_symbols, link_each,
}

-- A symbol's address, with the name of the binding that it was given.
unfoldable pub named_link : ℕ × Bound → ℕ × Option Chars
named_link l = (l.0, l.1.name)

module _ (bound : ℕ → Bool) where
  unfoldable pub add_symbol : ℕ → Option Chars → List (ℕ × Option Chars) → List (ℕ × Option Chars)
  add_symbol a name before = if bound a then before else (a, name) ∷ before

  -- The symbols without a binding that are evaluated, with their names, the last one first.
  unfoldable mutual
    unfolding add_symbol

    pub open_symbols : Expression → List (ℕ × Option Chars) → List (ℕ × Option Chars)
    open_symbols (symbol a name) before = add_symbol a name before
    open_symbols (function a ref params e) before = open_symbols e before
    open_symbols (with a ref param e) before = open_symbols e before
    open_symbols (continuation a ref params e) before = open_symbols e before
    open_symbols (constrain a e ref) before = open_symbols e before
    open_symbols (if_else a c t e) before = open_symbols e (open_symbols t (open_symbols c before))
    open_symbols (invoke a ref args) before = open_symbols_each args (open_symbols ref before)
    open_symbols (jump a ref args) before = open_symbols_each args (open_symbols ref before)
    open_symbols (storage a ref args) before = open_symbols_each args before
    open_symbols (literal a v) before = before
    open_symbols (assembly op args) before = before
    open_symbols (meta a ref frag) before = before

    pub open_symbols_each : Expressions → List (ℕ × Option Chars) → List (ℕ × Option Chars)
    open_symbols_each none_left before = before
    open_symbols_each (also u us) before = open_symbols_each us (open_symbols u before)

-- `o` is no binding but one of the name.
Named : Option Chars → Option Bound → Type 0
Named name none = name ≡ name
Named name (some b) = b.name ≡ name

same_name_equal : (a b : Option Chars) → same_name a b ≡ true → a ≡ b
unfolding same_name
same_name_equal none b h = cc
same_name_equal (some a) none h = cc
same_name_equal (some a) (some b) h = ap some ((streq_iff a b).0 h)

assign_binding-Named : (name : Option Chars) (bs : List Bound) → Named name (assign_binding name bs)
unfolding assign_binding Named
assign_binding-Named name [] = refl
assign_binding-Named name (b ∷ bs) = elim (Bool-cases (same_name b.name name)) [
  | inl h ↦ rw h (same_name_equal b.name name h)
  | inr h ↦ rw h (assign_binding-Named name bs)
]

or_else-Named :
    (name : Option Chars) (o o' : Option Bound)
    → Named name o
    → Named name o'
    → Named name (or_else o o')
unfolding or_else
or_else-Named name none o' h h' = h'
or_else-Named name (some b) o' h h' = h

link_to-names :
    (a : ℕ) (name : Option Chars) (o : Option Bound) (s : Linkage)
    → Named name o
    → map named_link (link_to a name o s).links ≡ (a, name) ∷ map named_link s.links
unfolding link_to named_link Named undefined_binding
link_to-names a name none s h = refl
link_to-names a name (some b) s h = rw h refl

module _ (bound : ℕ → Bool) (own : Expression → Bound) where
  link_symbol-names :
      (a : ℕ) (name : Option Chars) (static dynamic : List Bound) (s : Linkage)
      → map named_link (link_symbol bound own a name static dynamic s).links
        ≡ add_symbol bound a name (map named_link s.links)
  unfolding link_symbol add_symbol
  link_symbol-names a name static dynamic s = elim (Bool-cases (bound a)) [
    | inl h ↦ rw h refl
    | inr h ↦ rw h (
        link_to-names a name _ s (
          or_else-Named name (assign_binding name dynamic) _ (assign_binding-Named name dynamic) (
            or_else-Named name (assign_binding name static) _ (assign_binding-Named name static)
              (assign_binding-Named name s.undefined_bindings))))
  ]

  mutual
    unfolding link_symbols open_symbols link_each

    names :
        (e : Expression) (static_storage : Bool) (static dynamic : List Bound) (s : Linkage)
        → map named_link (link_symbols bound own e static_storage static dynamic s).links
          ≡ open_symbols bound e (map named_link s.links)
    names (function a ref params e) b static dynamic s = names e false _ _ s
    names (with a ref param e) true static dynamic s = names e true _ _ s
    names (with a ref param e) false static dynamic s = names e false _ _ s
    names (continuation a ref params e) true static dynamic s = names e true _ _ s
    names (continuation a ref params e) false static dynamic s = names e false _ _ s
    names (storage a ref args) true static dynamic s = names_each args true _ _ s
    names (storage a ref args) false static dynamic s = names_each args false _ _ s
    names (symbol a name) b static dynamic s = link_symbol-names a name static dynamic s
    names (if_else a c t e) b static dynamic s =
        let s1 = link_symbols bound own c b static dynamic s in
        names e b static dynamic (link_symbols bound own t b static dynamic s1)
        ∙ ap (open_symbols bound e)
            (names t b static dynamic s1 ∙ ap (open_symbols bound t) (names c b static dynamic s))
    names (invoke a ref args) b static dynamic s =
        names_each args b static dynamic (link_symbols bound own ref b static dynamic s)
        ∙ ap (open_symbols_each bound args) (names ref b static dynamic s)
    names (jump a ref args) b static dynamic s =
        names_each args b static dynamic (link_symbols bound own ref b static dynamic s)
        ∙ ap (open_symbols_each bound args) (names ref b static dynamic s)
    names (constrain a e ref) b static dynamic s = names e b static dynamic s
    names (literal a v) b static dynamic s = refl
    names (assembly op args) b static dynamic s = refl
    names (meta a ref frag) b static dynamic s = refl

    names_each :
        (us : Expressions) (static_storage : Bool) (static dynamic : List Bound) (s : Linkage)
        → map named_link (link_each bound own us static_storage static dynamic s).links
          ≡ open_symbols_each bound us (map named_link s.links)
    names_each none_left b static dynamic s = refl
    names_each (also u us) b static dynamic s =
        names_each us b static dynamic (link_symbols bound own u b static dynamic s)
        ∙ ap (open_symbols_each bound us) (names u b static dynamic s)

  -- Every symbol of an expression that had no binding is given one, once, and one of its own name;
  -- no other symbol is touched.
  pub link_symbols-names :
      (e : Expression) (static_storage : Bool) (static dynamic : List Bound) (s : Linkage)
      → map named_link (link_symbols bound own e static_storage static dynamic s).links
        ≡ open_symbols bound e (map named_link s.links)
  link_symbols-names = names
