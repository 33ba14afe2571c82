-- ===== src/Unify/Narrow.antt =====
-- What a run of unification does to the models of a store, case by case.
use l.Prelude.{
  ℕ, suc, ◌≡◌, refl, sym, ◌∙◌, ap, ◌↔◌, Bool, true, false, ◌==◌, arith, inl, inr, if◌then◌else◌,
  Bool-cases, [], ◌∷◌, length, Chars, ==_iff,
}
use mathlib.Core.Bool.{and-eq-true_iff}
use l.Fragment.{Fragment, Fragments, var, token, group, nil, cons, chars_equal}
use l.Result.{Result, ok, Yields, value, Yields-bind, Yields-mono}
use l.Unify.{Store, holds_itself, set_val, token_equals, count, occurs_in, unify_var}
use l.Unify.Terms.{Substitution, apply, apply_all}
use l.Unify.Models.{Models, holds_itself→eq, IsValueOf, Clashes}

-- What a run of unification from `s`, for the equation `Equal`, ends with: if it succeeds, the new
-- store has the models of the old one that satisfy the equation, and if it fails there are none.
pub record Unifies (s : Store) (Equal : Substitution → Type 0) (r : Bool × Store) : Type 0 where
  pub extends : (σ : Substitution) → Models σ r.1 → Models σ s
  pub sound : r.0 ≡ true → (σ : Substitution) → Models σ r.1 → Equal σ
  pub most_general : (σ : Substitution) → Models σ s → Equal σ → (r.0 ≡ true) × Models σ r.1

abbrev pub EqualAt : Fragment → Fragment → Substitution → Type 0
EqualAt x y σ = apply σ x ≡ apply σ y

abbrev pub EqualAtAll : Fragments → Fragments → Substitution → Type 0
EqualAtAll xs ys σ = apply_all σ xs ≡ apply_all σ ys

pub Models-set_val :
    (σ : Substitution) (s : Store) (x : ℕ) (t : Fragment)
    → Models σ s
    → σ x ≡ apply σ t
    → Models σ (set_val s x t)
unfolding set_val
Models-set_val σ s x t m e v = elim (Bool-cases (v == x)) [
  | inl same ↦ rw same (ap σ ((==_iff v x).0 same) ∙ e)
  | inr other ↦ rw other (m v)
]

pub Models-set_val_old :
    (σ : Substitution) (s : Store) (x : ℕ) (t : Fragment)
    → holds_itself x (s x) ≡ true
    → Models σ (set_val s x t)
    → Models σ s × (σ x ≡ apply σ t)
unfolding set_val apply
Models-set_val_old σ s x t h m = (
  λ v. elim (Bool-cases (v == x)) [
    | inl same ↦ rw ((==_iff v x).0 same, holds_itself→eq x (s x) h)
    | inr other ↦ rw other at (m v)
  ],
  rw ((==_iff x x).1 refl) at (m x),
)

pub unify_var-found :
    (s : Store) (x : ℕ) (t : Fragment) (found : Bool)
    → holds_itself x (s x) ≡ true
    → Clashes s x t found
    → Unifies s (EqualAt (var x) t) (if found then (false, s) else (true, set_val s x t))
unfolding apply
unify_var-found s x t true h k = record {
  extends = λ σ m. m;
  sound = λ e. cc;
  most_general = λ σ m e. absurd (k refl σ m e);
}
unify_var-found s x t false h k = record {
  extends = λ σ m. (Models-set_val_old σ s x t h m).0;
  sound = λ _ σ m. (Models-set_val_old σ s x t h m).1;
  most_general = λ σ m e. (refl, Models-set_val σ s x t m e);
}

pub unify_var-Unifies :
    (f : ℕ) (s : Store) (x : ℕ) (t : Fragment)
    → holds_itself x (s x) ≡ true
    → Yields (Clashes s x t) (occurs_in f s x t)
    → Yields (Unifies s (EqualAt (var x) t)) (unify_var f s x t)
unfolding unify_var
unify_var-Unifies f s x t h clash =
    Yields-bind clash λ found k. value (unify_var-found s x t found h k)

-- The same, for the arguments the other way round.
pub Unifies-sym :
    (s : Store) (x y : Fragment) (r : Bool × Store)
    → Unifies s (EqualAt x y) r
    → Unifies s (EqualAt y x) r
Unifies-sym s x y r u = record {
  extends = u.extends;
  sound = λ t σ m. sym (u.sound t σ m);
  most_general = λ σ m e. u.most_general σ m (sym e);
}

pub Unifies-equal :
    (s : Store) (Equal : Substitution → Type 0)
    → ((σ : Substitution) → Models σ s → Equal σ)
    → Unifies s Equal (true, s)
Unifies-equal s Equal h = record {
  extends = λ σ m. m;
  sound = λ _. h;
  most_general = λ σ m e. (refl, m);
}

pub Unifies-unequal :
    (s : Store) (Equal : Substitution → Type 0)
    → ((σ : Substitution) → Models σ s → Equal σ → ⊥)
    → Unifies s Equal (false, s)
Unifies-unequal s Equal h = record {
  extends = λ σ m. m;
  sound = λ t. cc;
  most_general = λ σ m e. absurd (h σ m e);
}

pub chars_equal_iff : (a b : Chars) → (chars_equal a b ≡ true) ↔ (a ≡ b)
unfolding chars_equal
chars_equal_iff [] [] = (λ _. refl, λ _. refl)
chars_equal_iff [] (y ∷ ys) = (λ h. cc, λ e. cc)
chars_equal_iff (x ∷ xs) [] = (λ h. cc, λ e. cc)
chars_equal_iff (x ∷ xs) (y ∷ ys) = ground (arith, chars_equal_iff xs ys, ==_iff x y)

pub token_equals_iff : (a b : Chars) → (token_equals a b ≡ true) ↔ (a ≡ b)
unfolding token_equals
token_equals_iff a b = (
  λ h. (chars_equal_iff a b).0 ((and-eq-true_iff _ _).0 h).1,
  λ e.
      (and-eq-true_iff _ _).1
        ((==_iff (length a) (length b)).1 (ap length e), (chars_equal_iff a b).1 e),
)

pub length-apply_all : (σ : Substitution) (xs : Fragments) → count (apply_all σ xs) ≡ count xs
unfolding count apply_all
length-apply_all σ nil = refl
length-apply_all σ (cons x xs) = ap suc (length-apply_all σ xs)

pub unify_tokens-Unifies :
    (s : Store) (c : ℕ) (cs : Chars) (d : ℕ) (ds : Chars)
    → Unifies s (EqualAt (token c cs) (token d ds)) (token_equals (c ∷ cs) (d ∷ ds), s)
unfolding apply
unify_tokens-Unifies s c cs d ds = elim (Bool-cases (token_equals (c ∷ cs) (d ∷ ds))) [
  | inl same ↦ rw same (Unifies-equal s _ λ σ m. cc ((token_equals_iff (c ∷ cs) (d ∷ ds)).0 same))
  | inr other ↦
      rw other
        (Unifies-unequal s _ λ σ m e. cc (other, (token_equals_iff (c ∷ cs) (d ∷ ds)).1 (cc e)))
]

pub count-ne_of_apply_all-ne :
    (σ : Substitution) (xs ys : Fragments)
    → (count xs == count ys) ≡ false
    → apply_all σ xs ≡ apply_all σ ys
    → ⊥
count-ne_of_apply_all-ne σ xs ys h e =
    let lengths : count xs ≡ count ys =
      sym (length-apply_all σ xs) ∙ ap count e ∙ length-apply_all σ ys in
    cc (h, (==_iff (count xs) (count ys)).1 lengths)

pub Unifies-cons :
    (s s' : Store) (x y : Fragment) (xs ys : Fragments) (r : Bool × Store)
    → Unifies s (EqualAt x y) (true, s')
    → Unifies s' (EqualAtAll xs ys) r
    → Unifies s (EqualAtAll (cons x xs) (cons y ys)) r
unfolding apply_all
Unifies-cons s s' x y xs ys r u v = record {
  extends = λ σ m. u.extends σ (v.extends σ m);
  sound = λ t σ m. cc (u.sound refl σ (v.extends σ m), v.sound t σ m);
  most_general = λ σ m e. v.most_general σ (u.most_general σ m (cc e)).1 (cc e);
}

pub Unifies-cons_fails :
    (s s' : Store) (x y : Fragment) (xs ys : Fragments)
    → Unifies s (EqualAt x y) (false, s')
    → Unifies s (EqualAtAll (cons x xs) (cons y ys)) (false, s')
unfolding apply_all
Unifies-cons_fails s s' x y xs ys u = record {
  extends = u.extends;
  sound = λ t. cc;
  most_general = λ σ m e. absurd (cc (u.most_general σ m (cc e)).0);
}

pub unify_all-step :
    (s : Store) (x y : Fragment) (xs ys : Fragments) (a : Bool × Store)
    (rest : Result (Bool × Store))
    → Unifies s (EqualAt x y) a
    → Yields (Unifies a.1 (EqualAtAll xs ys)) rest
    → Yields
        (Unifies s (EqualAtAll (cons x xs) (cons y ys)))
        (if a.0 then rest else ok (false, a.1))
unify_all-step s x y xs ys (true, s') rest u v =
    Yields-mono v λ r w. value (Unifies-cons s s' x y xs ys r u w)
unify_all-step s x y xs ys (false, s') rest u v = value (Unifies-cons_fails s s' x y xs ys u)

pub Unifies-values :
    (s : Store) (x y xl yl : Fragment) (r : Bool × Store)
    → IsValueOf s x xl
    → IsValueOf s y yl
    → Unifies s (EqualAt xl yl) r
    → Unifies s (EqualAt x y) r
Unifies-values s x y xl yl r (hx, _) (hy, _) u = record {
  extends = u.extends;
  sound = λ t σ m. hx σ (u.extends σ m) ∙ u.sound t σ m ∙ sym (hy σ (u.extends σ m));
  most_general = λ σ m e. u.most_general σ m (sym (hx σ m) ∙ e ∙ hy σ m);
}

pub Unifies-groups :
    (s : Store) (xs ys : Fragments) (r : Bool × Store)
    → Unifies s (EqualAtAll xs ys) r
    → Unifies s (EqualAt (group xs) (group ys)) r
unfolding apply
Unifies-groups s xs ys r u = record {
  extends = u.extends;
  sound = λ t σ m. ap group (u.sound t σ m);
  most_general = λ σ m e. u.most_general σ m (cc e);
}
