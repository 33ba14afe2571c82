-- ===== src/Visit/Unique.antt =====
-- `vfind_multiple_definitions` of bootstrap/analysis.c on whole expressions.
use l.Prelude.{
  ℕ, ◌+◌, Bool, true, false, ◌||◌, Option, none, some, Chars, leb, if◌then◌else◌, ◌≡◌, ◌⊎◌, refl,
  ap, sym, ◌∙◌, Bool-cases, inl, inr, arith,
}
use mathlib.Core.Bool.{true≢false}
use l.Interface.Numbers.{streq_iff}
use l.Result.{Result, ok, thrown, ◌>>=◌, multiple_definition}
use l.Expression.{
  Expression, Expressions, storage, function, with, invoke, if_else, literal, symbol, jump,
  continuation, constrain, assembly, meta, none_left, also,
}
use l.Visit.{
  visit_expressions, visit_each, defined_string_equals, name_of_symbol, exists_named, find_repeated,
  throw_repeated, vfind_multiple_definitions,
}

-- How many symbols have a name.
unfoldable pub times_named : Chars → Expressions → ℕ
unfolding defined_string_equals name_of_symbol
times_named n none_left = 0
times_named n (also e es) =
    (if defined_string_equals (name_of_symbol e) (some n) then 1 else 0) + times_named n es

-- Some function or continuation gives a name to two of its reference and its parameters.
unfoldable mutual
  unfolding times_named

  pub defines_twice : Chars → Expression → Bool
  defines_twice n (function a ref params e) =
      defines_twice n e || leb 2 (times_named n (also ref params))
  defines_twice n (continuation a ref params e) =
      defines_twice n e || leb 2 (times_named n (also ref params))
  defines_twice n (with a ref param e) = defines_twice n e
  defines_twice n (constrain a e ref) = defines_twice n e
  defines_twice n (if_else a c t e) = defines_twice n c || (defines_twice n t || defines_twice n e)
  defines_twice n (jump a ref args) = defines_twice n ref || defines_twice_each n args
  defines_twice n (invoke a ref args) = defines_twice n ref || defines_twice_each n args
  defines_twice n (storage a ref args) = defines_twice_each n args
  defines_twice n (literal a v) = false
  defines_twice n (symbol a name) = false
  defines_twice n (assembly op args) = false
  defines_twice n (meta a ref frag) = false

  pub defines_twice_each : Chars → Expressions → Bool
  defines_twice_each n none_left = false
  defines_twice_each n (also t ts) = defines_twice n t || defines_twice_each n ts

-- The run returns `a` where no name is bad, and otherwise throws for a bad name.
abbrev Outcome {ℓ} : {A : Type ℓ} → Result A → A → (Chars → Bool) → Type ℓ
Outcome r a bad =
    ((r ≡ ok a) × ((n : Chars) → bad n ≡ false))
    ⊎ ((n : Chars) × (r ≡ thrown (multiple_definition n)) × (bad n ≡ true))

or_false : (b c : Bool) → b ≡ false → c ≡ false → (b || c) ≡ false
or_false b c h h' = rw (h, h') refl

Outcome-bind :
    {A B : Type 0} (r : Result A) (f : A → Result B) (a : A) (b : B) (bad bad' : Chars → Bool)
    → Outcome r a bad
    → Outcome (f a) b bad'
    → Outcome (r >>= f) b (λ n. bad n || bad' n)
Outcome-bind r f a b bad bad' (inl (e, h)) (inl (e', h')) =
    inl (rw e e', λ n. or_false (bad n) (bad' n) (h n) (h' n))
Outcome-bind r f a b bad bad' (inl (e, h)) (inr (n, e', t)) = inr (n, rw e e', rw (h n, t) refl)
Outcome-bind r f a b bad bad' (inr (n, e, t)) second = inr (n, rw e refl, rw t refl)

Outcome-ok : {A : Type 0} (a : A) → Outcome (ok a) a (λ n. false)
Outcome-ok a = inl (refl, λ n. refl)

Outcome-same :
    {A : Type 0} {r : Result A} {a : A} (bad bad' : Chars → Bool)
    → ((n : Chars) → bad' n ≡ bad n)
    → Outcome r a bad
    → Outcome r a bad'
Outcome-same bad bad' same (inl (e, h)) = inl (e, λ n. same n ∙ h n)
Outcome-same bad bad' same (inr (n, e, t)) = inr (n, e, same n ∙ t)

exists_named-none : (es : Expressions) → exists_named none es ≡ false
unfolding exists_named defined_string_equals
exists_named-none none_left = refl
exists_named-none (also e es) =
    elim (name_of_symbol e)
      as (λ name.
        (if defined_string_equals name none then true else exists_named none es) ≡ false) [
          | none ↦ exists_named-none es
          | some a ↦ exists_named-none es
        ]

exists_named-times :
    (n : Chars) (es : Expressions) → exists_named (some n) es ≡ leb 1 (times_named n es)
unfolding exists_named times_named
exists_named-times n none_left = refl
exists_named-times n (also e es) =
    let rest = exists_named-times n es in
    elim (Bool-cases (defined_string_equals (name_of_symbol e) (some n))) [
      | inl h ↦ rw h (ground arith)
      | inr h ↦ rw h (ground arith)
    ]

-- A name that is not repeated behind its first symbol.
not_repeated :
    (n : Chars) (name : Option Chars) (es : Expressions)
    → exists_named name es ≡ false
    → defined_string_equals name (some n) ≡ true
    → times_named n es ≡ 0
unfolding defined_string_equals
not_repeated n none es h same = cc
not_repeated n (some m) es h same =
    let e = (streq_iff m n).0 same in
    let counted : leb 1 (times_named n es) ≡ false =
      sym (exists_named-times n es) ∙ ap (λ k. exists_named (some k) es) (sym e) ∙ h in
    ground arith

throw_repeated-Outcome :
    (name : Option Chars) (es : Expressions) (x : Expression) (bad : Chars → Bool)
    → exists_named name es ≡ true
    → ((n : Chars) → name ≡ some n → bad n ≡ true)
    → Outcome (throw_repeated name) x bad
unfolding throw_repeated
throw_repeated-Outcome none es x bad h found = absurd (true≢false (sym h ∙ exists_named-none es))
throw_repeated-Outcome (some n) es x bad h found = inr (n, refl, found n refl)

twice_first :
    (n : Chars) (t : Expression) (ts : Expressions)
    → exists_named (name_of_symbol t) ts ≡ true
    → name_of_symbol t ≡ some n
    → leb 2 (times_named n (also t ts)) ≡ true
unfolding times_named defined_string_equals
twice_first n t ts h e =
    let behind : leb 1 (times_named n ts) ≡ true =
      sym (exists_named-times n ts) ∙ ap (λ k. exists_named k ts) (sym e) ∙ h in
    let here : defined_string_equals (name_of_symbol t) (some n) ≡ true =
      ap (λ k. defined_string_equals k (some n)) e ∙ (streq_iff n n).1 refl in
    rw here (ground arith)

twice_later :
    (n : Chars) (t : Expression) (ts : Expressions)
    → exists_named (name_of_symbol t) ts ≡ false
    → leb 2 (times_named n (also t ts)) ≡ leb 2 (times_named n ts)
unfolding times_named
twice_later n t ts h = elim (Bool-cases (defined_string_equals (name_of_symbol t) (some n))) [
  | inl same ↦
      let none_behind = not_repeated n (name_of_symbol t) ts h same in rw (same, none_behind) refl
  | inr other ↦
      rw other (ap (leb 2) (let e : 0 + times_named n ts ≡ times_named n ts = omega arith in e))
]

find_repeated-Outcome :
    (es : Expressions) (x : Expression)
    → Outcome (find_repeated es (ok x)) x (λ n. leb 2 (times_named n es))
unfolding find_repeated times_named
find_repeated-Outcome none_left x = Outcome-ok x
find_repeated-Outcome (also t ts) x = elim (Bool-cases (exists_named (name_of_symbol t) ts)) [
  | inl h ↦
      rw h (throw_repeated-Outcome (name_of_symbol t) ts x _ h (λ n e. twice_first n t ts h e))
  | inr h ↦ rw h (
      Outcome-same (λ n. leb 2 (times_named n ts)) _ (λ n. twice_later n t ts h)
        (find_repeated-Outcome ts x))
]

or_nothing : (b : Bool) → b ≡ (b || false)
or_nothing true = refl
or_nothing false = refl

-- Parts, and then an expression that gives no names.
Outcome-parts :
    {A B : Type 0} (r : Result A) (f : A → Result B) (a : A) (b : B) (bad : Chars → Bool)
    → f a ≡ ok b
    → Outcome r a bad
    → Outcome (r >>= f) b bad
Outcome-parts r f a b bad e parts =
    Outcome-same (λ n. bad n || false) bad (λ n. or_nothing (bad n))
      (Outcome-bind r f a b bad (λ n. false) parts (inl (e, λ n. refl)))

mutual
  unfolding visit_expressions visit_each vfind_multiple_definitions defines_twice

  visited :
      (e : Expression)
      → Outcome (visit_expressions vfind_multiple_definitions e) e (λ n. defines_twice n e)
  visited (function a ref params e) =
      Outcome-bind (visit_expressions vfind_multiple_definitions e) _ e _ _ _ (visited e)
        (find_repeated-Outcome (also ref params) (function a ref params e))
  visited (continuation a ref params e) =
      Outcome-bind (visit_expressions vfind_multiple_definitions e) _ e _ _ _ (visited e)
        (find_repeated-Outcome (also ref params) (continuation a ref params e))
  visited (with a ref param e) =
      Outcome-parts (visit_expressions vfind_multiple_definitions e) _ e _ _ refl (visited e)
  visited (constrain a e ref) =
      Outcome-parts (visit_expressions vfind_multiple_definitions e) _ e _ _ refl (visited e)
  visited (if_else a c t e) =
      Outcome-bind (visit_expressions vfind_multiple_definitions c) _ c _ _ _ (visited c) (
        Outcome-bind (visit_expressions vfind_multiple_definitions t) _ t _ _ _ (visited t)
          (Outcome-parts (visit_expressions vfind_multiple_definitions e) _ e _ _ refl (visited e)))
  visited (jump a ref args) =
      Outcome-bind (visit_expressions vfind_multiple_definitions ref) _ ref _ _ _ (visited ref) (
        Outcome-parts (visit_each vfind_multiple_definitions args) _ args _ _ refl
          (visited_each args))
  visited (invoke a ref args) =
      Outcome-bind (visit_expressions vfind_multiple_definitions ref) _ ref _ _ _ (visited ref) (
        Outcome-parts (visit_each vfind_multiple_definitions args) _ args _ _ refl
          (visited_each args))
  visited (storage a ref args) =
      Outcome-parts (visit_each vfind_multiple_definitions args) _ args _ _ refl (visited_each args)
  visited (literal a v) = Outcome-ok (literal a v)
  visited (symbol a name) = Outcome-ok (symbol a name)
  visited (assembly op args) = Outcome-ok (assembly op args)
  visited (meta a ref frag) = Outcome-ok (meta a ref frag)

  visited_each :
      (es : Expressions)
      → Outcome (visit_each vfind_multiple_definitions es) es (λ n. defines_twice_each n es)
  visited_each none_left = Outcome-ok none_left
  visited_each (also t ts) =
      Outcome-bind (visit_expressions vfind_multiple_definitions t) _ t _ _ _ (visited t)
        (Outcome-parts (visit_each vfind_multiple_definitions ts) _ ts _ _ refl (visited_each ts))

-- The search for multiple definitions either leaves the expression as it is, and then no function or
-- continuation gives one name to two of its reference and its parameters, or it throws the error
-- for a name that is given twice.
pub visit_expressions-multiple :
    (e : Expression)
    → ((visit_expressions vfind_multiple_definitions e ≡ ok e)
        × ((n : Chars) → defines_twice n e ≡ false))
      ⊎ ((n : Chars) × (visit_expressions vfind_multiple_definitions e
            ≡ thrown (multiple_definition n))
          × (defines_twice n e ≡ true))
visit_expressions-multiple = visited
