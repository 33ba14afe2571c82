-- ===== src/Unify/Models.antt =====
-- What unification means: the store is a set of equations between fragments, its solutions are the
-- substitutions that satisfy them, and `unify` narrows them to those that make its arguments equal.
use l.Prelude.{ℕ, zero, suc, ◌≤◌, ◌≡◌, ◌≢◌, refl, ◌∙◌, ap, Bool, true, arith, Chars, ==_iff}
use l.Fragment.{Fragment, Fragments, var, token, group, nil, cons}
use l.Result.{Yields, value, no_value_out_of_fuel, Yields-if, Yields-bind, Yields-mono}
use l.Unify.{Store, holds_itself, evaluate, occurs_in, occurs_in_parts, occurs_in_any}
use l.Unify.Terms.{Substitution, apply, apply_all, size, size_all}

-- `σ` satisfies the equation between each variable and the content of its cell.
abbrev pub Models : Substitution → Store → Type 0
Models σ s = (v : ℕ) → σ v ≡ apply σ (s v)

pub holds_itself→eq : (v : ℕ) (d : Fragment) → holds_itself v d ≡ true → d ≡ var v
unfolding holds_itself
holds_itself→eq v (var w) h = ground (arith, ==_iff v w)
holds_itself→eq v (token c cs) h = cc
holds_itself→eq v (group xs) h = cc

-- The result of `evaluate` is equal to its argument in every model, and is no bound variable.
abbrev pub IsValueOf : Store → Fragment → Fragment → Type 0
IsValueOf s d e =
    ((σ : Substitution) → Models σ s → apply σ d ≡ apply σ e)
    × ((v : ℕ) → e ≡ var v → holds_itself v (s v) ≡ true)

pub evaluate-IsValueOf :
    (f : ℕ) (s : Store) (d : Fragment) → Yields (IsValueOf s d) (evaluate f s d)
unfolding evaluate apply
evaluate-IsValueOf zero s d = no_value_out_of_fuel
evaluate-IsValueOf (suc f) s (var v) =
    Yields-if (holds_itself v (s v)) (λ h. value (λ σ m. refl, λ w e. cc))
      λ h.
        Yields-mono (evaluate-IsValueOf f s (s v))
          λ e (same, unbound). value (λ σ m. m v ∙ same σ m, unbound)
evaluate-IsValueOf (suc f) s (token c cs) = value (λ σ m. refl, λ v e. cc)
evaluate-IsValueOf (suc f) s (group xs) = value (λ σ m. refl, λ v e. cc)

-- If `occurs_in` finds `x` in `d`, no model makes `x` larger than `d`.
abbrev FoundIn : Store → ℕ → Fragment → Bool → Type 0
FoundIn s x d found = found ≡ true → (σ : Substitution) → Models σ s → size (σ x) ≤ size (apply σ d)

abbrev FoundInAny : Store → ℕ → Fragments → Bool → Type 0
FoundInAny s x ds found =
    found ≡ true → (σ : Substitution) → Models σ s → size (σ x) ≤ size_all (apply_all σ ds)

mutual
  unfolding occurs_in apply size

  occurs_in-FoundIn :
      (f : ℕ) (s : Store) (x : ℕ) (d : Fragment) → Yields (FoundIn s x d) (occurs_in f s x d)
  occurs_in-FoundIn zero s x d = no_value_out_of_fuel
  occurs_in-FoundIn (suc f) s x d = Yields-bind (evaluate-IsValueOf f s d) λ e (same, unbound).
      Yields-mono (occurs_in_parts-FoundIn f s x e)
        λ found h. value (λ t σ m. rw (same σ m) (h t σ m))

  occurs_in_parts-FoundIn :
      (f : ℕ) (s : Store) (x : ℕ) (e : Fragment) → Yields (FoundIn s x e) (occurs_in_parts f s x e)
  occurs_in_parts-FoundIn zero s x e = no_value_out_of_fuel
  occurs_in_parts-FoundIn (suc f) s x (var w) =
      value (λ t σ m. ground (arith, ==_iff x w, ap (λ v. size (σ v)) ((==_iff x w).0 t)))
  occurs_in_parts-FoundIn (suc f) s x (token c cs) = value (λ t. cc)
  occurs_in_parts-FoundIn (suc f) s x (group xs) =
      Yields-mono (occurs_in_any-FoundInAny f s x xs)
        λ found h. value (λ t σ m. omega (arith, h t σ m))

  occurs_in_any-FoundInAny :
      (f : ℕ) (s : Store) (x : ℕ) (xs : Fragments)
      → Yields (FoundInAny s x xs) (occurs_in_any f s x xs)
  occurs_in_any-FoundInAny zero s x xs = no_value_out_of_fuel
  occurs_in_any-FoundInAny (suc f) s x nil = value (λ t. cc)
  occurs_in_any-FoundInAny (suc f) s x (cons y ys) =
      Yields-bind (occurs_in-FoundIn f s x y) λ found h.
        Yields-if found (λ t. value (λ _ σ m. omega (arith, h t σ m)))
          λ _.
            Yields-mono (occurs_in_any-FoundInAny f s x ys)
              λ later k. value (λ t σ m. omega (arith, k t σ m))

-- An occurrence that no model can have.
abbrev pub Clashes : Store → ℕ → Fragment → Bool → Type 0
Clashes s x t found = found ≡ true → (σ : Substitution) → Models σ s → σ x ≡ apply σ t → ⊥

pub occurs_in-Clashes_var :
    (f : ℕ) (s : Store) (x w : ℕ)
    → x ≢ w
    → holds_itself w (s w) ≡ true
    → Yields (Clashes s x (var w)) (occurs_in f s x (var w))
unfolding occurs_in
occurs_in-Clashes_var zero s x w ne h = no_value_out_of_fuel
occurs_in-Clashes_var (suc zero) s x w ne h = no_value_out_of_fuel
occurs_in-Clashes_var (suc (suc f)) s x w ne h = rw h (value λ t σ m e. ne ((==_iff x w).0 t))

pub occurs_in-Clashes_token :
    (f : ℕ) (s : Store) (x c : ℕ) (cs : Chars)
    → Yields (Clashes s x (token c cs)) (occurs_in f s x (token c cs))
unfolding occurs_in
occurs_in-Clashes_token zero s x c cs = no_value_out_of_fuel
occurs_in-Clashes_token (suc zero) s x c cs = no_value_out_of_fuel
occurs_in-Clashes_token (suc (suc f)) s x c cs = value λ t. cc

pub occurs_in-Clashes_group :
    (f : ℕ) (s : Store) (x : ℕ) (xs : Fragments)
    → Yields (Clashes s x (group xs)) (occurs_in f s x (group xs))
unfolding occurs_in size apply
occurs_in-Clashes_group zero s x xs = no_value_out_of_fuel
occurs_in-Clashes_group (suc zero) s x xs = no_value_out_of_fuel
occurs_in-Clashes_group (suc (suc f)) s x xs =
    Yields-mono (occurs_in_any-FoundInAny f s x xs)
      λ found h. value λ t σ m e. absurd (omega (arith, h t σ m, ap size e))
