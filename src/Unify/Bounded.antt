-- ===== src/Unify/Bounded.antt =====
-- Unification of fragments that have complete values needs a bounded amount of fuel.
use l.Prelude.{
  ℕ, zero, suc, ◌+◌, ◌<◌, ◌≡◌, refl, sym, true, false, ◌==◌, arith, List, ◌∷◌, inl, inr, ◌⊎◌,
  Bool-cases,
}
use mathlib.Core.Path.{subst}
use mathlib.Core.Bool.{and-eq-true_iff}
use l.Fragment.{Fragment, Fragments, var, token, group, nil, cons}
use l.Result.{◌>>=◌}
use l.Fuel.{Converges-suc, Converges-bind}
use l.Unify.{
  Store, holds_itself, evaluate, token_equals, count, unify_var, unify, unify_parts, unify_all,
}
use l.Unify.Terms.{size, size_all}
use l.Unify.Evals.{
  Evals, EvalsAll, unbound, characters, elements, none_left, element, Head, variable, Reaches,
  evaluate-Head,
}
use l.Unify.Progress.{contains, within, within_all, unbound_count}
use l.Unify.Step.{Progress, Ends, Ends-ok, Ends-suc, unify_var-Ends, unify_all-cons-Ends}

-- Values of less than `m` nodes together are unified from a store where less than `k` of the
-- variables `vs` are unbound.
abbrev UnifyEnds : List ℕ → ℕ → ℕ → Type 0
UnifyEnds vs k m =
    (s : Store) (x y u w : Fragment)
    → unbound_count vs s < k
    → size u + size w < m
    → Evals s x u
    → Evals s y w
    → within vs u ≡ true
    → within vs w ≡ true
    → Ends vs s (λ f. unify f s x y)

module _ {vs : List ℕ} {s s' : Store} (p : Progress vs s s') where
  keeps_all :
      {xs us : Fragments}
      → EvalsAll s xs us
      → within_all vs us ≡ true
      → (us' : Fragments) × EvalsAll s' xs us' × (within_all vs us' ≡ true)
  unfolding within_all
  keeps_all none_left h = (nil, none_left, refl)
  keeps_all (element {x} {u} {us} e es) h =
      let (a, b) = (and-eq-true_iff (within vs u) (within_all vs us)).0 h in
      let (u', e', keep) = p.keeps x u e in
      let (us', es', inside) = keeps_all es b in
      (cons u' us', element e' es', (and-eq-true_iff _ _).1 (keep a, inside))

module _ (vs : List ℕ) (s : Store) where
  unify_all-nil_left : (ys : Fragments) → Ends vs s (λ f. unify_all f s nil ys)
  unfolding unify_all
  unify_all-nil_left ys = Ends-ok vs s (λ f. unify_all f s nil ys) true (λ f. refl)

  unify_all-nil_right : (xs : Fragments) → Ends vs s (λ f. unify_all f s xs nil)
  unfolding unify_all
  unify_all-nil_right nil = Ends-ok vs s (λ f. unify_all f s nil nil) true (λ f. refl)
  unify_all-nil_right (cons x xs) =
      Ends-ok vs s (λ f. unify_all f s (cons x xs) nil) true (λ f. refl)

count-after :
    {vs : List ℕ} {s s' : Store} (k : ℕ)
    → Progress vs s s'
    → unbound_count vs s < k
    → unbound_count vs s' < k
count-after {vs} {s} {s'} k p h = go p.falls
  where
    go : (s' ≡ s) ⊎ (unbound_count vs s' < unbound_count vs s) → unbound_count vs s' < k
    go (inl e) = rw e h
    go (inr l) = omega arith

-- With fewer unbound variables, lists of any size.
unify_all-low :
    (vs : List ℕ) (k : ℕ)
    → ((m : ℕ) → UnifyEnds vs k m)
    → (s : Store) (xs ys us ws : Fragments) → EvalsAll s xs us
    → EvalsAll s ys ws
    → within_all vs us ≡ true
    → within_all vs ws ≡ true
    → unbound_count vs s < k
    → Ends vs s (λ f. unify_all f s xs ys)
unfolding within_all
unify_all-low vs k all s nil ys us ws ex ey hx hy h = unify_all-nil_left vs s ys
unify_all-low vs k all s (cons x xs) nil us ws ex ey hx hy h = unify_all-nil_right vs s (cons x xs)
unify_all-low vs k all s (cons x xs) (cons y ys) us ws (element {u} {us = us'} e es)
      (element {u = w} {us = ws'} e' es') hx hy h =
    let (a, b) = (and-eq-true_iff (within vs u) (within_all vs us')).0 hx in
    let (c, d) = (and-eq-true_iff (within vs w) (within_all vs ws')).0 hy in
    let first = all (suc (size u + size w)) s x y u w h (omega arith) e e' a c in
    let (us'', ex', hx') = keeps_all first.progress es b in
    let (ws'', ey', hy') = keeps_all first.progress es' d in
    unify_all-cons-Ends vs s x y xs ys first (
      unify_all-low vs k all first.store xs ys us'' ws'' ex' ey' hx' hy'
        (count-after k first.progress h))

-- Where the first elements left the store alone, the sizes bound what is left; where they did not,
-- fewer variables are unbound.
module _ (vs : List ℕ) (k m : ℕ) (fewer : (n : ℕ) → UnifyEnds vs k n)
    (smaller : UnifyEnds vs (suc k) m) where
  after_first :
      {s s' : Store} (xs ys us ws : Fragments)
      → Progress vs s s'
      → EvalsAll s xs us
      → EvalsAll s ys ws
      → within_all vs us ≡ true
      → within_all vs ws ≡ true
      → unbound_count vs s < suc k
      → ((s₁ : Store) → s₁ ≡ s → Ends vs s₁ (λ f. unify_all f s₁ xs ys))
      → Ends vs s' (λ f. unify_all f s' xs ys)
  after_first {s} {s'} xs ys us ws p ex ey hx hy h unchanged = go p.falls
    where
      go :
          (s' ≡ s) ⊎ (unbound_count vs s' < unbound_count vs s)
          → Ends vs s' (λ f. unify_all f s' xs ys)
      go (inl e) = unchanged s' e
      go (inr l) =
          let (us', ex', hx') = keeps_all p ex hx in
          let (ws', ey', hy') = keeps_all p ey hy in
          unify_all-low vs k fewer s' xs ys us' ws' ex' ey' hx' hy' (omega arith)

  unify_all-high :
      (s : Store) (xs ys us ws : Fragments)
      → EvalsAll s xs us
      → EvalsAll s ys ws
      → within_all vs us ≡ true
      → within_all vs ws ≡ true
      → unbound_count vs s < suc k
      → size_all us + size_all ws < m
      → (s₁ : Store) → s₁ ≡ s
      → Ends vs s₁ (λ f. unify_all f s₁ xs ys)
  unfolding within_all size
  unify_all-high s nil ys us ws ex ey hx hy h n s₁ same = unify_all-nil_left vs s₁ ys
  unify_all-high s (cons x xs) nil us ws ex ey hx hy h n s₁ same =
      unify_all-nil_right vs s₁ (cons x xs)
  unify_all-high s (cons x xs) (cons y ys) us ws (element {u} {us = us'} e es)
        (element {u = w} {us = ws'} e' es') hx hy h n s₁ same =
      let (a, b) = (and-eq-true_iff (within vs u) (within_all vs us')).0 hx in
      let (c, d) = (and-eq-true_iff (within vs w) (within_all vs ws')).0 hy in
      let first = smaller s x y u w h (omega arith) e e' a c in
      let rest =
        after_first xs ys us' ws' first.progress es es' b d h
          (unify_all-high s xs ys us' ws' es es' b d h (omega arith)) in
      subst (λ s₂. Ends vs s₂ (λ f. unify_all f s₂ (cons x xs) (cons y ys))) (sym same)
        (unify_all-cons-Ends vs s x y xs ys first rest)

  module _ (s : Store) (h : unbound_count vs s < suc k) where
    unify_vars-Ends :
        (v w : ℕ)
        → holds_itself v (s v) ≡ true
        → holds_itself w (s w) ≡ true
        → contains vs v ≡ true
        → contains vs w ≡ true
        → Ends vs s (λ f. unify_parts f s (var v) (var w))
    unfolding unify_parts holds_itself within
    unify_vars-Ends v w hv hw iv iw = elim (Bool-cases (v == w)) [
      | inl same ↦ Ends-ok vs s (λ f. unify_parts f s (var v) (var w)) true (λ f. rw same)
      | inr other ↦
          Ends-suc vs s (λ f. unify_parts f s (var v) (var w)) (λ f. unify_var f s v (var w))
            (λ f. rw other)
            (unify_var-Ends vs s v (var w) (var w) hv other iv (unbound {v = w} hw) iw)
    ]

    unify_parts-Ends :
        {xl yl u w : Fragment}
        → Head s xl u
        → Head s yl w
        → within vs u ≡ true
        → within vs w ≡ true
        → size u + size w < suc m
        → Ends vs s (λ f. unify_parts f s xl yl)
    unfolding unify_parts holds_itself within size
    unify_parts-Ends (variable {v} hv) (variable {v = w} hw) iu iw n =
        unify_vars-Ends v w hv hw iu iw
    unify_parts-Ends (variable {v} hv) (characters {c} {cs}) iu iw n =
        Ends-suc vs s (λ f. unify_parts f s (var v) (token c cs))
          (λ f. unify_var f s v (token c cs)) (λ f. refl)
          (unify_var-Ends vs s v (token c cs) (token c cs) hv refl iu characters refl)
    unify_parts-Ends (variable {v} hv) (elements {xs} {us} es) iu iw n =
        Ends-suc vs s (λ f. unify_parts f s (var v) (group xs)) (λ f. unify_var f s v (group xs))
          (λ f. refl) (unify_var-Ends vs s v (group xs) (group us) hv refl iu (elements es) iw)
    unify_parts-Ends (characters {c} {cs}) (variable {v} hv) iu iw n =
        Ends-suc vs s (λ f. unify_parts f s (token c cs) (var v))
          (λ f. unify_var f s v (token c cs)) (λ f. refl)
          (unify_var-Ends vs s v (token c cs) (token c cs) hv refl iw characters refl)
    unify_parts-Ends (elements {xs} {us} es) (variable {v} hv) iu iw n =
        Ends-suc vs s (λ f. unify_parts f s (group xs) (var v)) (λ f. unify_var f s v (group xs))
          (λ f. refl) (unify_var-Ends vs s v (group xs) (group us) hv refl iw (elements es) iu)
    unify_parts-Ends (characters {c} {cs}) (characters {c = d} {cs = ds}) iu iw n =
        Ends-ok vs s (λ f. unify_parts f s (token c cs) (token d ds))
          (token_equals (c ∷ cs) (d ∷ ds)) (λ f. refl)
    unify_parts-Ends (characters {c} {cs}) (elements {xs} es) iu iw n =
        Ends-ok vs s (λ f. unify_parts f s (token c cs) (group xs)) false (λ f. refl)
    unify_parts-Ends (elements {xs} es) (characters {c} {cs}) iu iw n =
        Ends-ok vs s (λ f. unify_parts f s (group xs) (token c cs)) false (λ f. refl)
    unify_parts-Ends (elements {xs} {us} es) (elements {xs = ys} {us = ws} es') iu iw n =
        elim (Bool-cases (count xs == count ys)) [
          | inl same ↦
              Ends-suc vs s (λ f. unify_parts f s (group xs) (group ys)) (λ f. unify_all f s xs ys)
                (λ f. rw same) (unify_all-high s xs ys us ws es es' iu iw h (omega arith) s refl)
          | inr other ↦
              Ends-ok vs s (λ f. unify_parts f s (group xs) (group ys)) false (λ f. rw other)
        ]

unify-head-Ends :
    (vs : List ℕ) (s : Store) (x y : Fragment) (Q R : Fragment → Type 0) (rx : Reaches s x Q)
    (ry : Reaches s y R)
    → Ends vs s (λ f. unify_parts f s rx.head ry.head)
    → Ends vs s (λ f. unify f s x y)
unfolding unify
unify-head-Ends vs s x y Q R rx ry parts = record {
  equal = parts.equal;
  store = parts.store;
  converges =
      Converges-suc (λ f. unify f s x y)
        (λ f. evaluate f s x >>= λ xl. evaluate f s y >>= λ yl. unify_parts f s xl yl) (λ f. refl)
        (Converges-bind (λ f. evaluate f s x)
          (λ xl f. evaluate f s y >>= λ yl. unify_parts f s xl yl) rx.converges
          (Converges-bind (λ f. evaluate f s y) (λ yl f. unify_parts f s rx.head yl) ry.converges
            parts.converges));
  progress = parts.progress;
}

pub unify-UnifyEnds : (vs : List ℕ) (k m : ℕ) → UnifyEnds vs k m
unify-UnifyEnds vs zero m s x y u w h n ex ey ix iy = absurd (omega arith)
unify-UnifyEnds vs (suc k) zero s x y u w h n ex ey ix iy = absurd (omega arith)
unify-UnifyEnds vs (suc k) (suc m) s x y u w h n ex ey ix iy =
    let rx = evaluate-Head ex in
    let ry = evaluate-Head ey in
    unify-head-Ends vs s x y _ _ rx ry (
      unify_parts-Ends vs k m (unify-UnifyEnds vs k) (unify-UnifyEnds vs (suc k) m) s h rx.holds
        ry.holds ix iy n)
