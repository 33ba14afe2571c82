-- ===== src/Unify/Progress.antt =====
-- A measure for unification: the number of unbound variables among those that occur.
use l.Prelude.{
  ℕ, ◌+◌, ◌≤◌, ◌<◌, ◌≡◌, refl, Bool, true, false, ◌==◌, ◌||◌, ◌&&◌, arith, if◌then◌else◌, List, [],
  ◌∷◌, inl, inr, Bool-cases, ==_iff,
}
use mathlib.Core.Bool.{and-eq-true_iff}
use l.Fragment.{Fragment, Fragments, var, token, group, nil, cons}
use l.Unify.{Store, holds_itself, set_val}
use l.Unify.Extend.{replace, replace_all}

unfoldable pub contains : List ℕ → ℕ → Bool
contains [] x = false
contains (v ∷ vs) x = (v == x) || contains vs x

-- Every variable of the fragment is one of `vs`.
unfoldable mutual
  unfolding contains

  pub within : List ℕ → Fragment → Bool
  within vs (var v) = contains vs v
  within vs (token c cs) = true
  within vs (group us) = within_all vs us

  pub within_all : List ℕ → Fragments → Bool
  within_all vs nil = true
  within_all vs (cons u us) = within vs u && within_all vs us

unfoldable pub unbound_count : List ℕ → Store → ℕ
unbound_count [] s = 0
unbound_count (v ∷ vs) s = (if holds_itself v (s v) then 1 else 0) + unbound_count vs s

module _ (vs : List ℕ) (x : ℕ) (w : Fragment) (inside : within vs w ≡ true) where
  mutual
    unfolding within replace

    pub within-replace : (u : Fragment) → within vs u ≡ true → within vs (replace x w u) ≡ true
    within-replace (var v) h = elim (Bool-cases (v == x)) [
      | inl same ↦ rw same inside
      | inr other ↦ rw other h
    ]
    within-replace (token c cs) h = refl
    within-replace (group us) h = within_all-replace us h

    within_all-replace :
        (us : Fragments) → within_all vs us ≡ true → within_all vs (replace_all x w us) ≡ true
    within_all-replace nil h = refl
    within_all-replace (cons u us) h =
        let (a, b) = (and-eq-true_iff (within vs u) (within_all vs us)).0 h in
        (and-eq-true_iff _ _).1 (within-replace u a, within_all-replace us b)

module _ (s : Store) (x : ℕ) (t : Fragment) (un : holds_itself x (s x) ≡ true)
    (other : holds_itself x t ≡ false) where
  at_variable :
      (v : ℕ)
      → (if holds_itself v (set_val s x t v) then 1 else 0) + (if v == x then 1 else 0)
        ≡ (if holds_itself v (s v) then 1 else 0)
  unfolding set_val
  at_variable v = elim (Bool-cases (v == x)) [
    | inl same ↦ rw (same, (==_iff v x).0 same, un, other) (omega arith)
    | inr ne ↦ rw ne (omega arith)
  ]

  unbound_count-le : (vs : List ℕ) → unbound_count vs (set_val s x t) ≤ unbound_count vs s
  unfolding unbound_count
  unbound_count-le [] = omega arith
  unbound_count-le (v ∷ vs) = omega (arith, at_variable v, unbound_count-le vs)

  pub unbound_count-lt :
      (vs : List ℕ) → contains vs x ≡ true → unbound_count vs (set_val s x t) < unbound_count vs s
  unfolding unbound_count contains
  unbound_count-lt [] h = cc
  unbound_count-lt (v ∷ vs) h = elim (Bool-cases (v == x)) [
    | inl same ↦
        let here = at_variable v in
        let here' = rw same at here in omega (arith, here', unbound_count-le vs)
    | inr ne ↦
        let h' : contains vs x ≡ true = rw ne at h in
        omega (arith, at_variable v, unbound_count-lt vs h')
  ]
