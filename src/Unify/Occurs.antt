-- ===== src/Unify/Occurs.antt =====
-- `occurs_in` ends on every fragment that has a complete value, and looks for the variable there.
use l.Prelude.{
  ℕ, zero, suc, ◌+◌, ◌≤◌, ◌≡◌, refl, Bool, true, false, ◌==◌, ◌||◌, arith, if◌then◌else◌,
}
use l.Fragment.{Fragment, Fragments, var, token, group, nil, cons}
use l.Result.{ok}
use l.Fuel.{Converges, Converges-suc, Converges-ok}
use l.Unify.{Store, occurs_in, occurs_in_parts, occurs_in_any}
use l.Unify.Terms.{occurs, occurs_any}
use l.Unify.Evals.{
  Evals, EvalsAll, unbound, bound, characters, elements, none_left, element, Reaches,
  Converges-head, Reaches-unbound, Reaches-bound, Reaches-token, Reaches-group,
}

occurs_in-head :
    (s : Store) (x : ℕ) (d : Fragment) {b : Bool}
    → Reaches s d (λ e. Converges (λ f. occurs_in_parts f s x e) b)
    → Converges (λ f. occurs_in f s x d) b
unfolding occurs_in
occurs_in-head s x d =
    Converges-head s d (λ f. occurs_in f s x d) (λ e f. occurs_in_parts f s x e) (λ f. refl)

occurs_in_any-cons :
    (s : Store) (x : ℕ) (y : Fragment) (ys : Fragments) (b c : Bool)
    → Converges (λ f. occurs_in f s x y) b
    → Converges (λ f. occurs_in_any f s x ys) c
    → Converges (λ f. occurs_in_any f s x (cons y ys)) (b || c)
unfolding occurs_in_any
occurs_in_any-cons s x y ys b c p q = record { bound = suc (p.bound + q.bound); reaches = go }
  where
    branch :
        (b : Bool) (f : ℕ)
        → q.bound ≤ f
        → (if b then ok true else occurs_in_any f s x ys) ≡ ok (b || c)
    branch true f h = refl
    branch false f h = q.reaches f h

    go : (f : ℕ) → suc (p.bound + q.bound) ≤ f → occurs_in_any f s x (cons y ys) ≡ ok (b || c)
    go zero h = absurd (omega arith)
    go (suc f) h = rw (p.reaches f (omega arith)) (branch b f (omega arith))

module _ (x : ℕ) where
  mutual
    unfolding occurs_in_parts occurs

    occurs_in_parts-Converges :
        {s : Store} {d u : Fragment}
        → Evals s d u
        → Reaches s d (λ e. Converges (λ f. occurs_in_parts f s x e) (occurs x u))
    occurs_in_parts-Converges {s} (unbound {v} h) =
        Reaches-unbound s _ v h
          (Converges-ok (λ f. occurs_in_parts f s x (var v)) (x == v) (λ f. refl))
    occurs_in_parts-Converges {s} (bound {v} h e) =
        Reaches-bound s _ v h (occurs_in_parts-Converges e)
    occurs_in_parts-Converges {s} (characters {c} {cs}) =
        Reaches-token s _ c cs
          (Converges-ok (λ f. occurs_in_parts f s x (token c cs)) false (λ f. refl))
    occurs_in_parts-Converges {s} (elements {xs} {us} es) = Reaches-group s _ xs (
        Converges-suc (λ f. occurs_in_parts f s x (group xs)) (λ f. occurs_in_any f s x xs)
          (λ f. refl) (occurs_in_any-Converges es))

    occurs_in_any-Converges :
        {s : Store} {xs us : Fragments}
        → EvalsAll s xs us
        → Converges (λ f. occurs_in_any f s x xs) (occurs_any x us)
    occurs_in_any-Converges {s} none_left =
        Converges-ok (λ f. occurs_in_any f s x nil) false (λ f. refl)
    occurs_in_any-Converges {s} (element {x = y} {u} {xs} {us} e es) =
        occurs_in_any-cons s x y xs (occurs x u) (occurs_any x us)
          (occurs_in-head s x y (occurs_in_parts-Converges e)) (occurs_in_any-Converges es)

-- `occurs_in` finds the variable exactly where it occurs in the complete value.
pub occurs_in-Converges :
    (s : Store) (x : ℕ) (d u : Fragment)
    → Evals s d u
    → Converges (λ f. occurs_in f s x d) (occurs x u)
occurs_in-Converges s x d u e = occurs_in-head s x d (occurs_in_parts-Converges x e)
