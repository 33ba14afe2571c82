-- ===== src/Unify/Correct.antt =====
-- `unify` decides whether two fragments can be made equal, and its bindings are most general.
use l.Prelude.{ℕ, zero, suc, ◌≡◌, refl, ap, Bool, true, ◌==◌, arith, if◌then◌else◌, ==_iff}
use l.Fragment.{Fragment, Fragments, var, token, group, nil, cons}
use l.Result.{
  ok, Yields, value, no_value_out_of_fuel, Yields-if, Yields-bind, Yields-ok, Yields-mono,
}
use l.Unify.{Store, holds_itself, count, occurs_in, unify_var, unify, unify_parts, unify_all}
use l.Unify.Terms.{apply}
use l.Unify.Models.{
  evaluate-IsValueOf, Clashes, occurs_in-Clashes_var, occurs_in-Clashes_token,
  occurs_in-Clashes_group,
}
use l.Unify.Narrow.{
  EqualAt, EqualAtAll, Unifies, Unifies-equal, Unifies-groups, Unifies-sym, Unifies-unequal,
  Unifies-values, count-ne_of_apply_all-ne, unify_all-step, unify_tokens-Unifies, unify_var-Unifies,
}

abbrev Unbound : Store → Fragment → Type 0
Unbound s e = (v : ℕ) → e ≡ var v → holds_itself v (s v) ≡ true

unify_vars-Unifies :
    (f : ℕ) (s : Store) (v w : ℕ)
    → Unbound s (var v)
    → Unbound s (var w)
    → Yields
        (Unifies s (EqualAt (var v) (var w)))
        (if v == w then ok (true, s) else unify_var f s v (var w))
unify_vars-Unifies f s v w hv hw =
    Yields-if (v == w)
      (λ same. value (
        Unifies-equal s (EqualAt (var v) (var w))
          λ σ m. ap (λ u. apply σ (var u)) ((==_iff v w).0 same)))
      (λ other.
        unify_var-Unifies f s v (var w) (hv v refl)
          (occurs_in-Clashes_var f s v w (λ e. cc (other, (==_iff v w).1 e)) (hw w refl)))

unify_var_right :
    (f : ℕ) (s : Store) (w : ℕ) (t : Fragment)
    → Unbound s (var w)
    → Yields (Clashes s w t) (occurs_in f s w t)
    → Yields (Unifies s (EqualAt t (var w))) (unify_var f s w t)
unify_var_right f s w t hw clash =
    Yields-mono (unify_var-Unifies f s w t (hw w refl) clash)
      λ r u. value (Unifies-sym s (var w) t r u)

mutual
  unfolding unify apply

  unify-Unifies :
      (f : ℕ) (s : Store) (x y : Fragment) → Yields (Unifies s (EqualAt x y)) (unify f s x y)
  unify-Unifies zero s x y = no_value_out_of_fuel
  unify-Unifies (suc f) s x y = Yields-bind (evaluate-IsValueOf f s x) λ xl hx.
      Yields-bind (evaluate-IsValueOf f s y) λ yl hy.
        Yields-mono (unify_parts-Unifies f s xl yl hx.1 hy.1)
          λ r u. value (Unifies-values s x y xl yl r hx hy u)

  unify_parts-Unifies :
      (f : ℕ) (s : Store) (xl yl : Fragment)
      → Unbound s xl
      → Unbound s yl
      → Yields (Unifies s (EqualAt xl yl)) (unify_parts f s xl yl)
  unify_parts-Unifies zero s xl yl hx hy = no_value_out_of_fuel
  unify_parts-Unifies (suc f) s (var v) (var w) hx hy = unify_vars-Unifies f s v w hx hy
  unify_parts-Unifies (suc f) s (var v) (token d ds) hx hy =
      unify_var-Unifies f s v (token d ds) (hx v refl) (occurs_in-Clashes_token f s v d ds)
  unify_parts-Unifies (suc f) s (var v) (group ys) hx hy =
      unify_var-Unifies f s v (group ys) (hx v refl) (occurs_in-Clashes_group f s v ys)
  unify_parts-Unifies (suc f) s (token c cs) (var w) hx hy =
      unify_var_right f s w (token c cs) hy (occurs_in-Clashes_token f s w c cs)
  unify_parts-Unifies (suc f) s (group xs) (var w) hx hy =
      unify_var_right f s w (group xs) hy (occurs_in-Clashes_group f s w xs)
  unify_parts-Unifies (suc f) s (token c cs) (token d ds) hx hy =
      value (unify_tokens-Unifies s c cs d ds)
  unify_parts-Unifies (suc f) s (token c cs) (group ys) hx hy =
      value (Unifies-unequal s (EqualAt (token c cs) (group ys)) λ σ m e. cc)
  unify_parts-Unifies (suc f) s (group xs) (token d ds) hx hy =
      value (Unifies-unequal s (EqualAt (group xs) (token d ds)) λ σ m e. cc)
  unify_parts-Unifies (suc f) s (group xs) (group ys) hx hy =
      Yields-if (count xs == count ys)
        (λ same.
          Yields-mono (unify_all-Unifies f s xs ys ((==_iff (count xs) (count ys)).0 same))
            λ r u. value (Unifies-groups s xs ys r u))
        (λ other. value (
          Unifies-unequal s (EqualAt (group xs) (group ys))
            λ σ m e. count-ne_of_apply_all-ne σ xs ys other (cc e)))

  unify_all-Unifies :
      (f : ℕ) (s : Store) (xs ys : Fragments)
      → count xs ≡ count ys
      → Yields (Unifies s (EqualAtAll xs ys)) (unify_all f s xs ys)
  unify_all-Unifies zero s xs ys h = no_value_out_of_fuel
  unify_all-Unifies (suc f) s nil nil h = value (Unifies-equal s (EqualAtAll nil nil) λ σ m. refl)
  unify_all-Unifies (suc f) s nil (cons y ys) h = absurd (omega arith)
  unify_all-Unifies (suc f) s (cons x xs) nil h = absurd (omega arith)
  unify_all-Unifies (suc f) s (cons x xs) (cons y ys) h = Yields-bind (unify-Unifies f s x y) λ a u.
      unify_all-step s x y xs ys a (unify_all f a.1 xs ys) u
        (unify_all-Unifies f a.1 xs ys (omega arith))

-- Unification from `s`, where it ends, is right and most general: on success the new store's
-- models are those models of `s` that make `x` and `y` equal; on failure `s` has no such model.
-- In either case the new store keeps the equations of the old one.
pub unify_most_general :
    (f : ℕ) (s s' : Store) (x y : Fragment) (equal : Bool)
    → unify f s x y ≡ ok (equal, s')
    → Unifies s (EqualAt x y) (equal, s')
unify_most_general f s s' x y equal h = Yields-ok (unify-Unifies f s x y) h
