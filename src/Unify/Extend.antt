-- ===== src/Unify/Extend.antt =====
-- Binding an unbound variable to a fragment in whose value it does not occur: complete values are
-- those of before with the variable replaced, so the store stays free of cycles.
use l.Prelude.{
  ℕ, ◌≡◌, refl, ap, Bool, true, false, ◌==◌, ◌||◌, arith, if◌then◌else◌, inl, inr, Bool-cases,
  ==_iff,
}
use l.Fragment.{Fragment, Fragments, var, token, group, nil, cons}
use l.Unify.{Store, holds_itself, set_val}
use l.Unify.Terms.{occurs, occurs_any}
use l.Unify.Evals.{Evals, EvalsAll, unbound, bound, characters, elements, none_left, element}

-- `u` with `t` for the variable `x`.
unfoldable mutual
  pub replace : ℕ → Fragment → Fragment → Fragment
  replace x t (var v) = if v == x then t else var v
  replace x t (token c cs) = token c cs
  replace x t (group us) = group (replace_all x t us)

  pub replace_all : ℕ → Fragment → Fragments → Fragments
  replace_all x t nil = nil
  replace_all x t (cons u us) = cons (replace x t u) (replace_all x t us)

set_val-ne : (s : Store) (x v : ℕ) (t : Fragment) → (v == x) ≡ false → set_val s x t v ≡ s v
unfolding set_val
set_val-ne s x v t h = rw h

set_val_self : (s : Store) (x : ℕ) (t : Fragment) → set_val s x t x ≡ t
unfolding set_val
set_val_self s x t = rw ((==_iff x x).1 refl)

eqb_sym : (x v : ℕ) → (x == v) ≡ false → (v == x) ≡ false
eqb_sym x v h = ground arith

or-false : (b c : Bool) → (b || c) ≡ false → (b ≡ false) × (c ≡ false)
or-false b c h = ground arith

bound-ne :
    (s : Store) (x v : ℕ)
    → holds_itself x (s x) ≡ true
    → holds_itself v (s v) ≡ false
    → (v == x) ≡ false
bound-ne s x v un h = elim (Bool-cases (v == x)) [
  | inl same ↦ cc (ap (λ w. holds_itself w (s w)) ((==_iff v x).0 same))
  | inr other ↦ other
]

module _ (s : Store) (x : ℕ) (t : Fragment) (un : holds_itself x (s x) ≡ true) where
  -- A value in which `x` does not occur is the same afterwards.
  mutual
    unfolding occurs

    Evals-unchanged :
        {d u : Fragment} → Evals s d u → occurs x u ≡ false → Evals (set_val s x t) d u
    Evals-unchanged (unbound {v} h) o = unbound {v = v} (rw (set_val-ne s x v t (eqb_sym x v o)) h)
    Evals-unchanged (bound {v} h e) o =
        let same = set_val-ne s x v t (bound-ne s x v un h) in
        bound {v = v} (rw same h) (rw same (Evals-unchanged e o))
    Evals-unchanged characters o = characters
    Evals-unchanged (elements es) o = elements (EvalsAll-unchanged es o)

    EvalsAll-unchanged :
        {xs us : Fragments}
        → EvalsAll s xs us
        → occurs_any x us ≡ false
        → EvalsAll (set_val s x t) xs us
    EvalsAll-unchanged none_left o = none_left
    EvalsAll-unchanged (element {u} {us} e es) o =
        let (here, later) = or-false (occurs x u) (occurs_any x us) o in
        element (Evals-unchanged e here) (EvalsAll-unchanged es later)

  module _ (w : Fragment) (value : Evals s t w) (out : occurs x w ≡ false)
      (itself : holds_itself x t ≡ false) where
    x-Evals : Evals (set_val s x t) (var x) w
    x-Evals =
        bound {v = x} (rw (set_val_self s x t) itself)
          (rw (set_val_self s x t) (Evals-unchanged value out))

    variable-Evals :
        (v : ℕ)
        → holds_itself v (s v) ≡ true
        → Evals (set_val s x t) (var v) (if v == x then w else var v)
    variable-Evals v h = elim (Bool-cases (v == x)) [
      | inl same ↦ rw (same, (==_iff v x).0 same) x-Evals
      | inr other ↦ rw other (unbound {v = v} (rw (set_val-ne s x v t other) h))
    ]

    mutual
      unfolding replace

      pub Evals-set_val : {d u : Fragment} → Evals s d u → Evals (set_val s x t) d (replace x w u)
      Evals-set_val (unbound {v} h) = variable-Evals v h
      Evals-set_val (bound {v} h e) =
          let same = set_val-ne s x v t (bound-ne s x v un h) in
          bound {v = v} (rw same h) (rw same (Evals-set_val e))
      Evals-set_val characters = characters
      Evals-set_val (elements es) = elements (EvalsAll-set_val es)

      pub EvalsAll-set_val :
          {xs us : Fragments} → EvalsAll s xs us → EvalsAll (set_val s x t) xs (replace_all x w us)
      EvalsAll-set_val none_left = none_left
      EvalsAll-set_val (element e es) = element (Evals-set_val e) (EvalsAll-set_val es)
