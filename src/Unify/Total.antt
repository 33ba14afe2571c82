-- ===== src/Unify/Total.antt =====
-- Unification ends from every store without cycles, whatever it is given.
use l.Prelude.{ℕ, suc, ◌+◌, ◌≡◌, refl, Bool, true, arith, List, [], ◌∷◌, ==_iff, ◌++◌}
use mathlib.Core.Bool.{and-eq-true_iff}
use l.Fragment.{Fragment, Fragments, var, token, group, nil, cons}
use l.Fuel.{Converges}
use l.Unify.{Store, unify}
use l.Unify.Terms.{size}
use l.Unify.Evals.{Evals}
use l.Unify.Progress.{contains, within, within_all, unbound_count}
use l.Unify.Bounded.{unify-UnifyEnds}

-- The variables of a fragment.
mutual
  variables : Fragment → List ℕ
  variables (var v) = v ∷ []
  variables (token c cs) = []
  variables (group us) = variables_all us

  variables_all : Fragments → List ℕ
  variables_all nil = []
  variables_all (cons u us) = variables u ++ variables_all us

contains-append_left :
    (vs ws : List ℕ) (x : ℕ) → contains vs x ≡ true → contains (vs ++ ws) x ≡ true
unfolding contains
contains-append_left [] ws x h = cc
contains-append_left (v ∷ vs) ws x h = ground (arith, contains-append_left vs ws x)

contains-append_right :
    (vs ws : List ℕ) (x : ℕ) → contains ws x ≡ true → contains (vs ++ ws) x ≡ true
unfolding contains
contains-append_right [] ws x h = h
contains-append_right (v ∷ vs) ws x h = ground (arith, contains-append_right vs ws x h)

module _ (vs ws : List ℕ) (more : (x : ℕ) → contains vs x ≡ true → contains ws x ≡ true) where
  mutual
    unfolding within

    within_more : (u : Fragment) → within vs u ≡ true → within ws u ≡ true
    within_more (var v) h = more v h
    within_more (token c cs) h = refl
    within_more (group us) h = within_all_more us h

    within_all_more : (us : Fragments) → within_all vs us ≡ true → within_all ws us ≡ true
    within_all_more nil h = refl
    within_all_more (cons u us) h =
        let (a, b) = (and-eq-true_iff (within vs u) (within_all vs us)).0 h in
        (and-eq-true_iff _ _).1 (within_more u a, within_all_more us b)

mutual
  unfolding variables within

  within-variables : (u : Fragment) → within (variables u) u ≡ true
  within-variables (var v) = ground (arith, ==_iff v v)
  within-variables (token c cs) = refl
  within-variables (group us) = within_all-variables us

  within_all-variables : (us : Fragments) → within_all (variables_all us) us ≡ true
  within_all-variables nil = refl
  within_all-variables (cons u us) = (and-eq-true_iff _ _).1 (
    within_more (variables u) (variables u ++ variables_all us)
        (contains-append_left (variables u) (variables_all us)) u (within-variables u),
    within_all_more (variables_all us) (variables u ++ variables_all us)
        (contains-append_right (variables u) (variables_all us)) us (within_all-variables us),
  )

-- Every fragment has a complete value: no chain of bindings runs in a circle.
abbrev pub IsAcyclic : Store → Type 0
IsAcyclic s = (d : Fragment) → (u : Fragment) × Evals s d u

-- A run of `unify` that ends, in a store without cycles.
pub record UnifyReturns (s : Store) (x y : Fragment) : Type 0 where
  pub equal : Bool
  pub store : Store
  pub converges : Converges (λ f. unify f s x y) (equal, store)
  pub acyclic : IsAcyclic store

-- From a store without cycles unification of any two fragments ends, and leaves such a store.
pub unify_returns : (s : Store) (x y : Fragment) → IsAcyclic s → UnifyReturns s x y
unify_returns s x y ac =
    let (u, ex) = ac x in
    let (w, ey) = ac y in
    let vs = variables u ++ variables w in
    let run =
      unify-UnifyEnds vs (suc (unbound_count vs s)) (suc (size u + size w)) s x y u w (omega arith)
        (omega arith) ex ey
        (within_more (variables u) vs (contains-append_left (variables u) (variables w)) u
          (within-variables u))
        (within_more (variables w) vs (contains-append_right (variables u) (variables w)) w
          (within-variables w)) in
    record {
      equal = run.equal;
      store = run.store;
      converges = run.converges;
      acyclic = λ d. let (v, e) = ac d in let (v', e', _) = run.progress.keeps d v e in (v', e');
    }
