-- ===== src/Unify/Agree.antt =====
-- After a successful unification both fragments evaluate to one value, and after a failed one no
-- substitution makes them equal.
use l.Prelude.{ℕ, ◌≡◌, refl, ◌∙◌, ap, ap₂, sym, true, arith, ==_iff, subst}
use l.Fragment.{Fragment, Fragments, var, token, group, nil, cons}
use l.Fuel.{Converges}
use l.Unify.{Store, fresh, holds_itself, recursive_evaluate}
use l.Unify.Terms.{Substitution, apply, apply_all}
use l.Unify.Models.{Models, holds_itself→eq}
use l.Unify.Narrow.{Unifies, EqualAt}
use l.Unify.Correct.{unify_most_general}
use l.Unify.Evals.{
  Evals, EvalsAll, unbound, bound, characters, elements, none_left, element,
  recursive_evaluate-Converges,
}
use l.Unify.Total.{IsAcyclic, UnifyReturns, unify_returns}

mutual
  Evals-unique : {s : Store} {d u w : Fragment} → Evals s d u → Evals s d w → u ≡ w
  Evals-unique (unbound h) (unbound h') = refl
  Evals-unique (unbound h) (bound h' e') = cc
  Evals-unique (bound h e) (unbound h') = cc
  Evals-unique (bound h e) (bound h' e') = Evals-unique e e'
  Evals-unique characters characters = refl
  Evals-unique (elements es) (elements es') = ap group (EvalsAll-unique es es')

  EvalsAll-unique :
      {s : Store} {xs us ws : Fragments} → EvalsAll s xs us → EvalsAll s xs ws → us ≡ ws
  EvalsAll-unique none_left none_left = refl
  EvalsAll-unique (element e es) (element e' es') =
      ap₂ cons (Evals-unique e e') (EvalsAll-unique es es')

module _ (s : Store) (ac : IsAcyclic s) where
  -- The substitution that gives each variable its complete value.
  values : Substitution
  values v = (ac (var v)).0

  mutual
    unfolding apply values

    apply-values : {d u : Fragment} → Evals s d u → apply values d ≡ u
    apply-values (unbound {v} h) = Evals-unique (ac (var v)).1 (unbound {v = v} h)
    apply-values (bound {v} h e) = Evals-unique (ac (var v)).1 (bound {v = v} h e)
    apply-values characters = refl
    apply-values (elements es) = ap group (apply_all-values es)

    apply_all-values : {xs us : Fragments} → EvalsAll s xs us → apply_all values xs ≡ us
    apply_all-values none_left = refl
    apply_all-values (element e es) = ap₂ cons (apply-values e) (apply_all-values es)

  value-Models : (v : ℕ) (u : Fragment) → Evals s (var v) u → u ≡ apply values (s v)
  unfolding apply
  value-Models v u (unbound h) =
      sym (apply-values (unbound {v = v} h)) ∙ ap (apply values) (sym (holds_itself→eq v (s v) h))
  value-Models v u (bound h e) = sym (apply-values e)

  values-Models : Models values s
  unfolding values
  values-Models v = value-Models v (ac (var v)).0 (ac (var v)).1

-- A store in which every variable is unbound, as `var` makes them.
mutual
  unfolding holds_itself

  fresh-Evals : (d : Fragment) → Evals fresh d d
  fresh-Evals (var v) = unbound {v = v} ((==_iff v v).1 refl)
  fresh-Evals (token c cs) = characters
  fresh-Evals (group xs) = elements (fresh-EvalsAll xs)

  fresh-EvalsAll : (xs : Fragments) → EvalsAll fresh xs xs
  fresh-EvalsAll nil = none_left
  fresh-EvalsAll (cons x xs) = element (fresh-Evals x) (fresh-EvalsAll xs)

pub fresh-IsAcyclic : IsAcyclic fresh
fresh-IsAcyclic d = (d, fresh-Evals d)

-- The outcome of unification: it ends in a store without cycles, whose models are the most general
-- ones, and on success `recursive_evaluate` ends on both fragments with one value.
pub record UnifyOutcome (s : Store) (x y : Fragment) : Type 0 where
  pub run : UnifyReturns s x y
  pub narrows : Unifies s (EqualAt x y) (run.equal, run.store)
  pub agrees :
      run.equal ≡ true
      → (u : Fragment) × Converges (λ f. recursive_evaluate f run.store x) u
        × Converges (λ f. recursive_evaluate f run.store y) u

-- From a store without cycles, unification of any two fragments ends, in a store without cycles.
-- If it succeeds, the models of the new store are the models of the old one at which the fragments
-- are equal, and `recursive_evaluate` ends on both with the same value; if it fails, the old store
-- has no model at which they are equal.
pub unify_correct : (s : Store) (x y : Fragment) → IsAcyclic s → UnifyOutcome s x y
unify_correct s x y ac =
    let run = unify_returns s x y ac in
    let narrows =
      unify_most_general run.converges.bound s run.store x y run.equal
        (run.converges.reaches run.converges.bound (omega arith)) in
    record {
      run = run;
      narrows = narrows;
      agrees = λ h.
          let (u, ex) = run.acyclic x in
          let (w, ey) = run.acyclic y in
          let both =
            narrows.sound h (values run.store run.acyclic) (values-Models run.store run.acyclic) in
          let same : w ≡ u =
            sym (apply-values run.store run.acyclic ey)
            ∙ sym both
            ∙ apply-values run.store run.acyclic ex in
          (
            u,
            recursive_evaluate-Converges run.store x u ex,
            recursive_evaluate-Converges run.store y u (subst (Evals run.store y) same ey),
          );
    }
