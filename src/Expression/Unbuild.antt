-- ===== src/Expression/Unbuild.antt =====
-- `build_expression` of bootstrap/expressions.c loses nothing: the fragment can be written again
-- from the expression.
use l.Prelude.{ℕ, ◌≡◌, refl, ◌≢◌, ap, ap₂}
use l.Fragment.{Fragment, Fragments, var, token, group, nil, cons, is_token}
use l.Result.{
  ok, Yields, value, no_value_thrown, no_value_undefined, Yields-if, Yields-bind, Yields-mono,
  Yields-ok,
}
use l.Expression.{
  Expression, build_meta, build_expression, build_form, build_parameter_list, build_parameters,
  build_arguments,
}
use l.Expression.Keyword.{
  Form, with_form, if_form, function_form, continuation_form, literal_form, invoke_form, jump_form,
  storage_form, constrain_form, meta_form,
}
use l.Expression.Parts.{
  Unbuilds, UnbuildsAll, UnbuildsForm, keyword_form-Recognised, build_literal-Unbuilds,
  by_form-Unbuilds, build_function-Unbuilds, build_continuation-Unbuilds, build_invoke-Unbuilds,
  build_jump-Unbuilds, build_storage-Unbuilds,
}
use l.Expression.Source.{unbuild, unbuild_all, as_source, as_source_all}

mutual
  unfolding build_expression unbuild as_source

  build_expression-Unbuilds : (d : Fragment) (n : ℕ) → Yields (Unbuilds d) (build_expression d n)
  build_expression-Unbuilds (var v) n = no_value_undefined
  build_expression-Unbuilds (token c cs) n = value refl
  build_expression-Unbuilds (group nil) n = no_value_thrown
  build_expression-Unbuilds (group (cons h t)) n = Yields-bind (keyword_form-Recognised h) λ k r.
      by_form-Unbuilds h t (build_meta (group (cons h t)) (build_expression h))
        (λ form. build_form (group (cons h t)) form t) k n r
        (Yields-bind (build_expression-Unbuilds h n)
          λ (e, m) p. value (ap (λ x. group (cons x (as_source_all t))) p))
        (λ k ne. build_form-Unbuilds (group (cons h t)) k t n ne)

  build_form-Unbuilds :
      (d : Fragment) (k : Form) (t : Fragments) (n : ℕ)
      → k ≢ meta_form
      → Yields (UnbuildsForm k t) (build_form d k t n)
  build_form-Unbuilds d with_form (cons r (cons e nil)) n ne =
      Yields-if (is_token r)
        (λ _. Yields-bind (build_expression-Unbuilds r n) λ (x, n₁) p.
          Yields-bind (build_expression-Unbuilds e n₁) λ (y, n₂) q. value (simp (p, q)))
        λ _. no_value_thrown
  build_form-Unbuilds d if_form (cons c (cons t (cons e nil))) n ne =
      Yields-bind (build_expression-Unbuilds c n) λ (x, n₁) p.
        Yields-bind (build_expression-Unbuilds t n₁) λ (y, n₂) q.
          Yields-bind (build_expression-Unbuilds e n₂) λ (z, n₃) o. value (simp (p, q, o))
  build_form-Unbuilds d literal_form (cons digits nil) n ne = build_literal-Unbuilds d digits n
  build_form-Unbuilds d constrain_form (cons e (cons r nil)) n ne =
      Yields-bind (build_expression-Unbuilds e n)
        λ (x, n₁) p. Yields-bind (build_expression-Unbuilds r n₁) λ (y, n₂) q. value (simp (p, q))
  build_form-Unbuilds d function_form (cons r (cons ps (cons e nil))) n ne =
      build_function-Unbuilds d r ps e (build_parameter_list d ps) (build_expression r)
        (build_expression e) (build_parameter_list-Unbuilds d ps) (build_expression-Unbuilds r)
        (build_expression-Unbuilds e) n
  build_form-Unbuilds d continuation_form (cons r (cons ps (cons e nil))) n ne =
      build_continuation-Unbuilds d r ps e (build_parameter_list d ps) (build_expression r)
        (build_expression e) (build_parameter_list-Unbuilds d ps) (build_expression-Unbuilds r)
        (build_expression-Unbuilds e) n
  build_form-Unbuilds d invoke_form (cons r args) n ne =
      build_invoke-Unbuilds d r args (build_arguments args) (build_expression r)
        (build_arguments-Unbuilds args) (build_expression-Unbuilds r) n
  build_form-Unbuilds d jump_form (cons r args) n ne =
      build_jump-Unbuilds d r args (build_arguments args) (build_expression r)
        (build_arguments-Unbuilds args) (build_expression-Unbuilds r) n
  build_form-Unbuilds d storage_form (cons r args) n ne =
      build_storage-Unbuilds d r args (build_arguments args) (build_expression r)
        (build_arguments-Unbuilds args) (build_expression-Unbuilds r) n
  build_form-Unbuilds d k t n ne = no_value_thrown

  build_parameter_list-Unbuilds :
      (d ps : Fragment) (n : ℕ)
      → Yields (λ made. group (unbuild_all made.0) ≡ as_source ps) (build_parameter_list d ps n)
  build_parameter_list-Unbuilds d (var v) n = no_value_thrown
  build_parameter_list-Unbuilds d (token c cs) n = no_value_thrown
  build_parameter_list-Unbuilds d (group vs) n =
      Yields-mono (build_parameters-Unbuilds d vs n) λ made p. value (ap group p)

  build_parameters-Unbuilds :
      (d : Fragment) (vs : Fragments) (n : ℕ) → Yields (UnbuildsAll vs) (build_parameters d vs n)
  build_parameters-Unbuilds d nil n = value refl
  build_parameters-Unbuilds d (cons v vs) n =
      Yields-if (is_token v)
        (λ _. Yields-bind (build_expression-Unbuilds v n) λ (e, m) p.
          Yields-bind (build_parameters-Unbuilds d vs m) λ (es, k) q. value (ap₂ cons p q))
        λ _. no_value_thrown

  build_arguments-Unbuilds :
      (xs : Fragments) (n : ℕ) → Yields (UnbuildsAll xs) (build_arguments xs n)
  build_arguments-Unbuilds nil n = value refl
  build_arguments-Unbuilds (cons x xs) n =
      Yields-bind (build_expression-Unbuilds x n)
        λ (e, m) p. Yields-bind (build_arguments-Unbuilds xs m) λ (es, k) q. value (ap₂ cons p q)

-- Every expression that is built says what its fragment said: written out again as L2 source, a
-- literal as its 64 binary digits, it is the fragment, where a token is the string that `to_string`
-- gives for it, which ends before the first character 0.
pub build_expression-unbuild :
    (d : Fragment) (n : ℕ) (e : Expression) (n' : ℕ)
    → build_expression d n ≡ ok (e, n')
    → unbuild e ≡ as_source d
build_expression-unbuild d n e n' h = Yields-ok (build_expression-Unbuilds d n) h
