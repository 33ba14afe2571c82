-- ===== src/Unify/Evals.antt =====
-- Complete evaluation as a relation: `Evals s d u` says that `u` is `d` with each bound variable
-- replaced by its value, all the way down. It holds of no fragment that leads into a cycle.
use l.Prelude.{ℕ, zero, suc, ◌+◌, ◌≤◌, ◌≡◌, refl, true, false, arith, Chars}
use l.Fragment.{Fragment, Fragments, var, token, group, nil, cons}
use l.Result.{Result, ok, ◌>>=◌}
use l.Fuel.{Converges, Converges-suc, Converges-ok, Converges-bind}
use l.Unify.{Store, holds_itself, evaluate, recursive_evaluate, evaluate_parts, evaluate_all}

mutual
  pub data Evals (s : Store) : Fragment → Fragment → Type 0 where
    unbound : {v : ℕ} → holds_itself v (s v) ≡ true → Evals s (var v) (var v)
    bound :
        {v : ℕ} {u : Fragment} → holds_itself v (s v) ≡ false → Evals s (s v) u → Evals s (var v) u
    characters : {c : ℕ} {cs : Chars} → Evals s (token c cs) (token c cs)
    elements : {xs us : Fragments} → EvalsAll s xs us → Evals s (group xs) (group us)

  pub data EvalsAll (s : Store) : Fragments → Fragments → Type 0 where
    none_left : EvalsAll s nil nil
    element :
        {x u : Fragment} {xs us : Fragments}
        → Evals s x u
        → EvalsAll s xs us
        → EvalsAll s (cons x xs) (cons u us)

-- What `evaluate` returns, with the complete value.
pub data Head (s : Store) : Fragment → Fragment → Type 0 where
  variable : {v : ℕ} → holds_itself v (s v) ≡ true → Head s (var v) (var v)
  characters : {c : ℕ} {cs : Chars} → Head s (token c cs) (token c cs)
  elements : {xs us : Fragments} → EvalsAll s xs us → Head s (group xs) (group us)

-- `evaluate` ends at a head with the property `Q`.
pub record Reaches (s : Store) (d : Fragment) (Q : Fragment → Type 0) : Type 0 where
  pub head : Fragment
  pub converges : Converges (λ f. evaluate f s d) head
  pub holds : Q head

module _ (s : Store) (Q : Fragment → Type 0) where
  pub Reaches-unbound : (v : ℕ) → holds_itself v (s v) ≡ true → Q (var v) → Reaches s (var v) Q
  unfolding evaluate
  Reaches-unbound v h q = record {
    head = var v;
    converges = Converges-ok (λ f. evaluate f s (var v)) (var v) (λ f. rw h);
    holds = q;
  }

  pub Reaches-bound :
      (v : ℕ) → holds_itself v (s v) ≡ false → Reaches s (s v) Q → Reaches s (var v) Q
  unfolding evaluate
  Reaches-bound v h r = record {
    head = r.head;
    converges =
        Converges-suc (λ f. evaluate f s (var v)) (λ f. evaluate f s (s v)) (λ f. rw h) r.converges;
    holds = r.holds;
  }

  pub Reaches-token : (c : ℕ) (cs : Chars) → Q (token c cs) → Reaches s (token c cs) Q
  unfolding evaluate
  Reaches-token c cs q = record {
    head = token c cs;
    converges = Converges-ok (λ f. evaluate f s (token c cs)) (token c cs) (λ f. refl);
    holds = q;
  }

  pub Reaches-group : (xs : Fragments) → Q (group xs) → Reaches s (group xs) Q
  unfolding evaluate
  Reaches-group xs q = record {
    head = group xs;
    converges = Converges-ok (λ f. evaluate f s (group xs)) (group xs) (λ f. refl);
    holds = q;
  }

pub evaluate-Head : {s : Store} {d u : Fragment} → Evals s d u → Reaches s d (λ e. Head s e u)
evaluate-Head {s} (unbound {v} h) = Reaches-unbound s _ v h (variable h)
evaluate-Head {s} (bound {v} h e) = Reaches-bound s _ v h (evaluate-Head e)
evaluate-Head {s} (characters {c} {cs}) = Reaches-token s _ c cs characters
evaluate-Head {s} (elements {xs} es) = Reaches-group s _ xs (elements es)

-- A run that evaluates `d` and hands the head to `next`.
pub Converges-head :
    {A : Type 0} (s : Store) (d : Fragment) (run : ℕ → Result A) (next : Fragment → ℕ → Result A)
    {a : A}
    → ((f : ℕ) → run (suc f) ≡ (evaluate f s d >>= λ e. next e f))
    → Reaches s d (λ e. Converges (next e) a)
    → Converges run a
Converges-head s d run next step r =
    Converges-suc run (λ f. evaluate f s d >>= λ e. next e f) step
      (Converges-bind (λ f. evaluate f s d) next r.converges r.holds)

recursive_evaluate-head :
    (s : Store) (d : Fragment) {u : Fragment}
    → Reaches s d (λ e. Converges (λ f. evaluate_parts f s e) u)
    → Converges (λ f. recursive_evaluate f s d) u
unfolding recursive_evaluate
recursive_evaluate-head s d =
    Converges-head s d (λ f. recursive_evaluate f s d) (λ e f. evaluate_parts f s e) (λ f. refl)

evaluate_parts-group :
    (s : Store) (xs us : Fragments)
    → Converges (λ f. evaluate_all f s xs) us
    → Converges (λ f. evaluate_parts f s (group xs)) (group us)
unfolding evaluate_parts
evaluate_parts-group s xs us c =
    Converges-suc (λ f. evaluate_parts f s (group xs))
      (λ f. evaluate_all f s xs >>= λ ys. ok (group ys)) (λ f. refl)
      (Converges-bind (λ f. evaluate_all f s xs) (λ ys f. ok (group ys)) c
        (record { bound = 0; reaches = λ f h. refl }))

evaluate_all-cons :
    (s : Store) (x u : Fragment) (xs us : Fragments)
    → Converges (λ f. recursive_evaluate f s x) u
    → Converges (λ f. evaluate_all f s xs) us
    → Converges (λ f. evaluate_all f s (cons x xs)) (cons u us)
unfolding evaluate_all
evaluate_all-cons s x u xs us c d = record { bound = suc (c.bound + d.bound); reaches = go }
  where
    go : (f : ℕ) → suc (c.bound + d.bound) ≤ f → evaluate_all f s (cons x xs) ≡ ok (cons u us)
    go zero h = absurd (omega arith)
    go (suc f) h = rw (c.reaches f (omega arith), d.reaches f (omega arith))

mutual
  unfolding evaluate_parts

  evaluate_parts-Converges :
      {s : Store} {d u : Fragment}
      → Evals s d u
      → Reaches s d (λ e. Converges (λ f. evaluate_parts f s e) u)
  evaluate_parts-Converges {s} (unbound {v} h) =
      Reaches-unbound s _ v h (Converges-ok (λ f. evaluate_parts f s (var v)) (var v) (λ f. refl))
  evaluate_parts-Converges {s} (bound {v} h e) = Reaches-bound s _ v h (evaluate_parts-Converges e)
  evaluate_parts-Converges {s} (characters {c} {cs}) =
      Reaches-token s _ c cs
        (Converges-ok (λ f. evaluate_parts f s (token c cs)) (token c cs) (λ f. refl))
  evaluate_parts-Converges {s} (elements {xs} {us} es) =
      Reaches-group s _ xs (evaluate_parts-group s xs us (evaluate_all-Converges es))

  evaluate_all-Converges :
      {s : Store} {xs us : Fragments} → EvalsAll s xs us → Converges (λ f. evaluate_all f s xs) us
  evaluate_all-Converges {s} none_left = Converges-ok (λ f. evaluate_all f s nil) nil (λ f. refl)
  evaluate_all-Converges {s} (element {x} {u} {xs} {us} e es) =
      evaluate_all-cons s x u xs us (recursive_evaluate-head s x (evaluate_parts-Converges e))
        (evaluate_all-Converges es)

-- `recursive_evaluate` computes the complete value of a fragment, where it has one.
pub recursive_evaluate-Converges :
    (s : Store) (d u : Fragment) → Evals s d u → Converges (λ f. recursive_evaluate f s d) u
recursive_evaluate-Converges s d u e = recursive_evaluate-head s d (evaluate_parts-Converges e)
