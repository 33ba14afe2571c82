-- ===== src/Unify/Step.antt =====
-- The runs of `unify` that end, put together from the runs of its parts.
use l.Prelude.{
  ℕ, suc, ◌<◌, ◌≡◌, refl, ◌∙◌, Bool, true, false, arith, if◌then◌else◌, List, inl, inr, ◌⊎◌,
  Bool-cases,
}
use l.Fragment.{Fragment, Fragments, cons}
use l.Result.{Result, ok, ◌>>=◌}
use l.Fuel.{Converges, Converges-suc, Converges-ok, Converges-bind}
use l.Unify.{Store, holds_itself, set_val, occurs_in, unify_var, unify, unify_all}
use l.Unify.Terms.{occurs}
use l.Unify.Evals.{Evals}
use l.Unify.Occurs.{occurs_in-Converges}
use l.Unify.Extend.{replace, Evals-set_val}
use l.Unify.Progress.{contains, within, unbound_count, within-replace, unbound_count-lt}

-- Every fragment that has a complete value keeps one, and either nothing changed or fewer of the
-- variables `vs` are unbound.
pub record Progress (vs : List ℕ) (s s' : Store) : Type 0 where
  pub keeps :
      (d u : Fragment)
      → Evals s d u
      → (u' : Fragment) × Evals s' d u' × (within vs u ≡ true → within vs u' ≡ true)
  pub falls : (s' ≡ s) ⊎ (unbound_count vs s' < unbound_count vs s)

pub Progress-refl : (vs : List ℕ) (s : Store) → Progress vs s s
Progress-refl vs s = record { keeps = λ d u e. (u, e, λ h. h); falls = inl refl }

Progress-trans :
    {vs : List ℕ} {s s' s'' : Store} → Progress vs s s' → Progress vs s' s'' → Progress vs s s''
Progress-trans {vs} {s} {s'} {s''} p q = record {
  keeps = λ d u e.
      let (u', e', h) = p.keeps d u e in
      let (u'', e'', h') = q.keeps d u' e' in (u'', e'', λ i. h' (h i));
  falls = both p.falls q.falls;
}
  where
    both :
        (s' ≡ s) ⊎ (unbound_count vs s' < unbound_count vs s)
        → (s'' ≡ s') ⊎ (unbound_count vs s'' < unbound_count vs s')
        → (s'' ≡ s) ⊎ (unbound_count vs s'' < unbound_count vs s)
    both (inl a) (inl b) = inl (b ∙ a)
    both (inl a) (inr b) = inr (rw a at b)
    both (inr a) (inl b) = inr (rw b a)
    both (inr a) (inr b) = inr (omega arith)

-- With enough fuel the run returns, and its store is one that `s` may become.
pub record Ends (vs : List ℕ) (s : Store) (run : ℕ → Result (Bool × Store)) : Type 0 where
  pub equal : Bool
  pub store : Store
  pub converges : Converges run (equal, store)
  pub progress : Progress vs s store

module _ (vs : List ℕ) (s : Store) where
  pub Ends-ok :
      (run : ℕ → Result (Bool × Store)) (b : Bool)
      → ((f : ℕ) → run (suc f) ≡ ok (b, s))
      → Ends vs s run
  Ends-ok run b step = record {
    equal = b;
    store = s;
    converges = Converges-ok run (b, s) step;
    progress = Progress-refl vs s;
  }

  pub Ends-suc :
      (run next : ℕ → Result (Bool × Store))
      → ((f : ℕ) → run (suc f) ≡ next f)
      → Ends vs s next
      → Ends vs s run
  Ends-suc run next step e = record {
    equal = e.equal;
    store = e.store;
    converges = Converges-suc run next step e.converges;
    progress = e.progress;
  }

  module _ (x : ℕ) (t w : Fragment) where
    unify_var-Converges :
        (b : Bool)
        → Converges (λ f. occurs_in f s x t) b
        → Converges (λ f. unify_var f s x t) (if b then (false, s) else (true, set_val s x t))
    unfolding unify_var
    unify_var-Converges b c =
        Converges-bind (λ f. occurs_in f s x t)
          (λ found f. ok (if found then (false, s) else (true, set_val s x t))) c
          (record { bound = 0; reaches = λ f h. refl })

    pub unify_var-Ends :
        holds_itself x (s x) ≡ true
        → holds_itself x t ≡ false
        → contains vs x ≡ true
        → Evals s t w
        → within vs w ≡ true
        → Ends vs s (λ f. unify_var f s x t)
    unify_var-Ends un other here value inside = elim (Bool-cases (occurs x w)) [
      | inl found ↦ record {
        equal = false;
        store = s;
        converges =
            rw found at (unify_var-Converges (occurs x w) (occurs_in-Converges s x t w value));
        progress = Progress-refl vs s;
      }
      | inr out ↦ record {
        equal = true;
        store = set_val s x t;
        converges =
            rw out at (unify_var-Converges (occurs x w) (occurs_in-Converges s x t w value));
        progress = record {
          keeps = λ d u e. (
            replace x w u,
            Evals-set_val s x t un w value out other e,
            within-replace vs x w inside u,
          );
          falls = inr (unbound_count-lt s x t un other vs here);
        };
      }
    ]

module _ (vs : List ℕ) (s s' : Store) (x y : Fragment) (xs ys : Fragments) where
  unify_all-stops :
      Converges (λ f. unify f s x y) (false, s')
      → Converges (λ f. unify_all f s (cons x xs) (cons y ys)) (false, s')
  unfolding unify_all
  unify_all-stops c =
      Converges-suc (λ f. unify_all f s (cons x xs) (cons y ys))
        (λ f. unify f s x y >>= λ (equal, s₁).
          let rest = unify_all f s₁ xs ys in if equal then rest else ok (false, s₁))
        (λ f. refl)
        (Converges-bind (λ f. unify f s x y)
          (λ (equal, s₁) f. if equal then unify_all f s₁ xs ys else ok (false, s₁)) c
          (record { bound = 0; reaches = λ f h. refl }))

  unify_all-goes_on :
      {r : Bool × Store}
      → Converges (λ f. unify f s x y) (true, s')
      → Converges (λ f. unify_all f s' xs ys) r
      → Converges (λ f. unify_all f s (cons x xs) (cons y ys)) r
  unfolding unify_all
  unify_all-goes_on c d =
      Converges-suc (λ f. unify_all f s (cons x xs) (cons y ys))
        (λ f. unify f s x y >>= λ (equal, s₁).
          let rest = unify_all f s₁ xs ys in if equal then rest else ok (false, s₁))
        (λ f. refl)
        (Converges-bind (λ f. unify f s x y)
          (λ (equal, s₁) f. if equal then unify_all f s₁ xs ys else ok (false, s₁)) c d)

  unify_all-branch :
      (equal : Bool)
      → Converges (λ f. unify f s x y) (equal, s')
      → Progress vs s s'
      → Ends vs s' (λ f. unify_all f s' xs ys)
      → Ends vs s (λ f. unify_all f s (cons x xs) (cons y ys))
  unify_all-branch true c p rest = record {
    equal = rest.equal;
    store = rest.store;
    converges = unify_all-goes_on c rest.converges;
    progress = Progress-trans p rest.progress;
  }
  unify_all-branch false c p rest = record {
    equal = false;
    store = s';
    converges = unify_all-stops c;
    progress = p;
  }

-- The loop over two lists: the first elements, and then, if they were unified, the others.
pub unify_all-cons-Ends :
    (vs : List ℕ) (s : Store) (x y : Fragment) (xs ys : Fragments)
    (first : Ends vs s (λ f. unify f s x y))
    → Ends vs first.store (λ f. unify_all f first.store xs ys)
    → Ends vs s (λ f. unify_all f s (cons x xs) (cons y ys))
unify_all-cons-Ends vs s x y xs ys first rest =
    unify_all-branch vs s first.store x y xs ys first.equal first.converges first.progress rest
