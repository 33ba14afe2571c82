-- ===== src/Link/Undefined.antt =====
-- The bindings that `link_symbols` of bootstrap/analysis.c adds to `undefined_bindings`.
use l.Prelude.{
  ℕ, ◌+◌, Bool, true, false, ◌&&◌, List, [], ◌∷◌, ◌++◌, Option, none, some, Chars, length,
  length-append, append_assoc, ◌≡◌, refl, ap, sym, ◌∙◌, Bool-cases, inl, inr, arith,
}
use l.Expression.{
  Expression, Expressions, storage, function, with, invoke, if_else, literal, symbol, jump,
  continuation, constrain, assembly, meta, none_left, also,
}
use l.Link.{
  Bound, Linkage, assign_binding, or_else, undefined_binding, link_to, link_symbol, link_symbols,
  link_each,
}

module _ (bound : ℕ → Bool) (own : Expression → Bound) (R : Linkage → Linkage → Type 0)
    (same : (s : Linkage) → R s s) (joined : (s s' s'' : Linkage) → R s s' → R s' s'' → R s s'')
    (one : (a : ℕ) (name : Option Chars) (static dynamic : List Bound) (s : Linkage)
      → R s (link_symbol bound own a name static dynamic s)) where
  mutual
    unfolding link_symbols link_each

    each_step :
        (e : Expression) (static_storage : Bool) (static dynamic : List Bound) (s : Linkage)
        → R s (link_symbols bound own e static_storage static dynamic s)
    each_step (function a ref params e) b static dynamic s = each_step e false _ _ s
    each_step (with a ref param e) true static dynamic s = each_step e true _ _ s
    each_step (with a ref param e) false static dynamic s = each_step e false _ _ s
    each_step (continuation a ref params e) true static dynamic s = each_step e true _ _ s
    each_step (continuation a ref params e) false static dynamic s = each_step e false _ _ s
    each_step (storage a ref args) true static dynamic s = each_steps args true _ _ s
    each_step (storage a ref args) false static dynamic s = each_steps args false _ _ s
    each_step (symbol a name) b static dynamic s = one a name static dynamic s
    each_step (if_else a c t e) b static dynamic s =
        let s1 = link_symbols bound own c b static dynamic s in
        let s2 = link_symbols bound own t b static dynamic s1 in
        joined s s1 _ (each_step c b static dynamic s)
          (joined s1 s2 _ (each_step t b static dynamic s1) (each_step e b static dynamic s2))
    each_step (invoke a ref args) b static dynamic s =
        let s1 = link_symbols bound own ref b static dynamic s in
        joined s s1 _ (each_step ref b static dynamic s) (each_steps args b static dynamic s1)
    each_step (jump a ref args) b static dynamic s =
        let s1 = link_symbols bound own ref b static dynamic s in
        joined s s1 _ (each_step ref b static dynamic s) (each_steps args b static dynamic s1)
    each_step (constrain a e ref) b static dynamic s = each_step e b static dynamic s
    each_step (literal a v) b static dynamic s = same s
    each_step (assembly op args) b static dynamic s = same s
    each_step (meta a ref frag) b static dynamic s = same s

    each_steps :
        (us : Expressions) (static_storage : Bool) (static dynamic : List Bound) (s : Linkage)
        → R s (link_each bound own us static_storage static dynamic s)
    each_steps none_left b static dynamic s = same s
    each_steps (also u us) b static dynamic s =
        let s1 = link_symbols bound own u b static dynamic s in
        joined s s1 _ (each_step u b static dynamic s) (each_steps us b static dynamic s1)

unfoldable pub is_missing : Option Bound → Bool
is_missing none = true
is_missing (some b) = false

-- No binding has the name of one behind it.
unfoldable pub distinct_names : List Bound → Bool
unfolding is_missing
distinct_names [] = true
distinct_names (b ∷ bs) = is_missing (assign_binding b.name bs) && distinct_names bs

-- Bindings made for names, at the addresses from `n` on, the last one first.
unfoldable pub made_from : (n : ℕ) → List (Option Chars) → List Bound
made_from n [] = []
made_from n (name ∷ names) = undefined_binding name (n + length names) ∷ made_from n names

-- What was added to `undefined_bindings`: one binding for each of some names.
Grown : Linkage → Linkage → Type 0
Grown s s' =
    (names : List (Option Chars)) × (s'.undefined_bindings
      ≡ made_from s.next names ++ s.undefined_bindings)
    × (s'.next ≡ s.next + length names)
    × (distinct_names s.undefined_bindings ≡ true → distinct_names s'.undefined_bindings ≡ true)

made_from-append :
    (n : ℕ) (later names : List (Option Chars))
    → made_from n (later ++ names) ≡ made_from (n + length names) later ++ made_from n names
unfolding made_from
made_from-append n [] names = refl
made_from-append n (name ∷ later) names =
    let place : n + length (later ++ names) ≡ n + length names + length later =
      omega (arith, length-append later names) in
    rw (place, made_from-append n later names) refl

Grown-same : (s : Linkage) → Grown s s
unfolding Grown made_from
Grown-same s = ([], refl, omega arith, λ h. h)

Grown-then : (s s' s'' : Linkage) → Grown s s' → Grown s' s'' → Grown s s''
unfolding Grown
Grown-then s s' s'' (names, added, moved, distinct) (later, added', moved', distinct') = (
  later ++ names,
  added'
      ∙ ap (λ (bs : List Bound). made_from s'.next later ++ bs) added
      ∙ sym (append_assoc (made_from s'.next later) (made_from s.next names) s.undefined_bindings)
      ∙ ap (λ (n : ℕ). (made_from n later ++ made_from s.next names) ++ s.undefined_bindings) moved
      ∙ ap (λ (bs : List Bound). bs ++ s.undefined_bindings)
          (sym (made_from-append s.next later names)),
  omega (arith, length-append later names),
  λ h. distinct' (distinct h),
)

missing_last : (o o' o'' : Option Bound) → or_else o (or_else o' o'') ≡ none → is_missing o'' ≡ true
unfolding or_else is_missing
missing_last none none none h = refl
missing_last none none (some b) h = cc
missing_last none (some b) o'' h = cc
missing_last (some b) o' o'' h = cc

-- Either the symbol's binding was found, or it is in none of the lists.
link_to-Grown :
    (a : ℕ) (name : Option Chars) (o : Option Bound) (s : Linkage)
    → (o ≡ none → is_missing (assign_binding name s.undefined_bindings) ≡ true)
    → Grown s (link_to a name o s)
unfolding link_to Grown made_from undefined_binding distinct_names
link_to-Grown a name (some b) s missing = ([], refl, omega arith, λ h. h)
link_to-Grown a name none s missing = (
  name ∷ [],
  ap (λ (n : ℕ). undefined_binding name n ∷ s.undefined_bindings)
      (let e : s.next ≡ s.next + 0 = omega arith in e),
  omega arith,
  λ h. rw (missing refl, h) refl,
)

module _ (bound : ℕ → Bool) (own : Expression → Bound) where
  link_symbol-Grown :
      (a : ℕ) (name : Option Chars) (static dynamic : List Bound) (s : Linkage)
      → Grown s (link_symbol bound own a name static dynamic s)
  unfolding link_symbol
  link_symbol-Grown a name static dynamic s = elim (Bool-cases (bound a)) [
    | inl h ↦ rw h (Grown-same s)
    | inr h ↦ rw h (
        link_to-Grown a name _ s (
          missing_last (assign_binding name dynamic) (assign_binding name static)
            (assign_binding name s.undefined_bindings)))
  ]

  -- The pass adds to `undefined_bindings` one new binding for each of some names, at the next free
  -- addresses and with the state `undefined_state`, and keeps what was there. If no two bindings of
  -- the list had one name before, none have after it.
  pub link_symbols-undefined :
      (e : Expression) (static_storage : Bool) (static dynamic : List Bound) (s : Linkage)
      → let s' = link_symbols bound own e static_storage static dynamic s in
        (names : List (Option Chars)) × (s'.undefined_bindings
          ≡ made_from s.next names ++ s.undefined_bindings)
        × (s'.next ≡ s.next + length names)
        × (distinct_names s.undefined_bindings ≡ true → distinct_names s'.undefined_bindings ≡ true)
  unfolding Grown
  link_symbols-undefined = each_step bound own Grown Grown-same Grown-then link_symbol-Grown
