-- ===== src/Expression/Parts.antt =====
-- The parts of `build_expression` of bootstrap/expressions.c: what they build says what its fragment said.
use l.Prelude.{
  ℕ, ◌≡◌, refl, true, false, ◌∷◌, Chars, ◌==◌, if◌then◌else◌, length, codes, Option, none, some,
  arith, inl, inr, ◌⊎◌, ◌≢◌, ==_iff, ap, Bool, subst, sym,
}
use l.Fragment.{Fragment, Fragments, var, token, group, nil, cons, is_token, to_string}
use l.Result.{Result, Yields, value, no_value_thrown, no_value_undefined, Yields-if, Yields-bind}
use l.Interface.{streq}
use l.Interface.Numbers.{streq_iff}
use l.Expression.{
  Expressions, Made, keyword_form, made_literal, by_form, build_literal, build_function, build_call,
}
use l.Expression.Keyword.{
  Form, with_form, if_form, function_form, continuation_form, literal_form, invoke_form, jump_form,
  storage_form, constrain_form, meta_form, literal_value, form_of,
}
use l.Expression.Literal.{literal_value-binary}
use l.Expression.Source.{token_of, keyword_of, form, unbuild, unbuild_all, as_source, as_source_all}

abbrev pub Unbuilds : Fragment → Made → Type 0
Unbuilds d made = unbuild made.0 ≡ as_source d

abbrev pub UnbuildsAll : Fragments → Expressions × ℕ → Type 0
UnbuildsAll xs made = unbuild_all made.0 ≡ as_source_all xs

-- A form of a keyword and elements.
abbrev pub UnbuildsForm : Form → Fragments → Made → Type 0
UnbuildsForm k xs made = unbuild made.0 ≡ form k (as_source_all xs)

if_both {ℓ} :
    (P : Form → Type ℓ) (b : Bool) {x y : Form} → (b ≡ true → P x) → P y → P (if b then x else y)
if_both P true hx hy = hx refl
if_both P false hx hy = hy

-- A form is recognised by its own keyword.
abbrev Recognised : Chars → Form → Type 0
Recognised s k = (k ≡ meta_form) ⊎ (s ≡ keyword_of k)

form_of-Recognised : (s : Chars) → Recognised s (form_of s)
unfolding form_of keyword_of
form_of-Recognised s =
    let by = λ (k : Form) (h : streq s (keyword_of k) ≡ true). (streq_iff s (keyword_of k)).0 h in
    if_both (Recognised s) (streq s (codes "with")) (λ h. inr (by with_form h))
      (if_both (Recognised s) (streq s (codes "if")) (λ h. inr (by if_form h))
        (if_both (Recognised s) (streq s (codes "function")) (λ h. inr (by function_form h))
          (if_both (Recognised s) (streq s (codes "continuation"))
            (λ h. inr (by continuation_form h))
            (if_both (Recognised s) (streq s (codes "literal")) (λ h. inr (by literal_form h))
              (if_both (Recognised s) (streq s (codes "invoke")) (λ h. inr (by invoke_form h))
                (if_both (Recognised s) (streq s (codes "jump")) (λ h. inr (by jump_form h))
                  (if_both (Recognised s) (streq s (codes "storage")) (λ h. inr (by storage_form h))
                    (if_both (Recognised s) (streq s (codes "constrain"))
                      (λ h. inr (by constrain_form h)) (inl refl)))))))))

pub keyword_form-Recognised :
    (h : Fragment)
    → Yields (λ k. (k ≡ meta_form) ⊎ (as_source h ≡ token_of (keyword_of k))) (keyword_form h)
unfolding keyword_form token_of as_source
keyword_form-Recognised (var v) = no_value_undefined
keyword_form-Recognised (token c cs) = value (recognised (form_of-Recognised (to_string (c ∷ cs))))
  where
    recognised :
        Recognised (to_string (c ∷ cs)) (form_of (to_string (c ∷ cs)))
        → (form_of (to_string (c ∷ cs)) ≡ meta_form)
          ⊎ (as_source (token c cs) ≡ token_of (keyword_of (form_of (to_string (c ∷ cs)))))
    recognised (inl e) = inl e
    recognised (inr e) = inr (ap token_of e)
keyword_form-Recognised (group xs) = value (inl refl)

made_literal-Unbuilds :
    (d : Fragment) (c : ℕ) (cs : Chars) (n : ℕ) (o : Option ℕ)
    → length (to_string (c ∷ cs)) ≡ 64
    → literal_value 0 (to_string (c ∷ cs)) ≡ o
    → Yields (UnbuildsForm literal_form (cons (token c cs) nil)) (made_literal d (token c cs) n o)
unfolding made_literal unbuild as_source
made_literal-Unbuilds d c cs n none len e = no_value_thrown
made_literal-Unbuilds d c cs n (some v) len e =
    let (digits, _) = literal_value-binary 64 0 (to_string (c ∷ cs)) v len (omega arith) e in
    value (ap (λ s. form literal_form (cons (token_of s) nil)) digits)

pub build_literal-Unbuilds :
    (d digits : Fragment) (n : ℕ)
    → Yields (UnbuildsForm literal_form (cons digits nil)) (build_literal d digits n)
unfolding build_literal
build_literal-Unbuilds d (var v) n = no_value_thrown
build_literal-Unbuilds d (group xs) n = no_value_thrown
build_literal-Unbuilds d (token c cs) n =
    Yields-if (length (to_string (c ∷ cs)) == 64)
      (λ whole.
        made_literal-Unbuilds d c cs n (literal_value 0 (to_string (c ∷ cs)))
          ((==_iff _ 64).0 whole) refl)
      λ _. no_value_thrown

pub by_form-Unbuilds :
    (h : Fragment) (t : Fragments) (as_meta : ℕ → Result Made) (as_form : Form → ℕ → Result Made)
    (k : Form) (n : ℕ)
    → (k ≡ meta_form) ⊎ (as_source h ≡ token_of (keyword_of k))
    → Yields (Unbuilds (group (cons h t))) (as_meta n)
    → ((k : Form) → k ≢ meta_form → Yields (UnbuildsForm k t) (as_form k n))
    → Yields (Unbuilds (group (cons h t))) (by_form as_meta as_form k n)
unfolding by_form as_source
by_form-Unbuilds h t as_meta as_form meta_form n r m f = m
by_form-Unbuilds h t as_meta as_form k n (inl e) m f = cc
by_form-Unbuilds h t as_meta as_form k n (inr e) m f =
    subst
      (λ (x : Fragment).
        Yields (λ (made : Made). unbuild made.0 ≡ group (cons x (as_source_all t))) (as_form k n))
      (sym e) (f k (cc))

module _ (d r ps e : Fragment) (build_params : ℕ → Result (Expressions × ℕ))
    (build_name build_body : ℕ → Result Made)
    (params : (n : ℕ) → Yields (λ made. group (unbuild_all made.0) ≡ as_source ps) (build_params n))
    (name : (n : ℕ) → Yields (Unbuilds r) (build_name n))
    (body : (n : ℕ) → Yields (Unbuilds e) (build_body n)) where
  pub build_function-Unbuilds :
      (n : ℕ)
      → Yields
          (UnbuildsForm function_form (cons r (cons ps (cons e nil))))
          (build_function d function_form r ps build_params build_name build_body n)
  unfolding build_function unbuild as_source
  build_function-Unbuilds n =
      Yields-if (is_token r)
        (λ _.
          Yields-if (is_token ps) (λ _. no_value_thrown)
            λ _. Yields-bind (params n) λ (xs, n₁) p.
              Yields-bind (name n₁)
                λ (x, n₂) q. Yields-bind (body n₂) λ (b, n₃) o. value (simp (p, q, o)))
        λ _. no_value_thrown

  pub build_continuation-Unbuilds :
      (n : ℕ)
      → Yields
          (UnbuildsForm continuation_form (cons r (cons ps (cons e nil))))
          (build_function d continuation_form r ps build_params build_name build_body n)
  unfolding build_function unbuild as_source
  build_continuation-Unbuilds n =
      Yields-if (is_token r)
        (λ _.
          Yields-if (is_token ps) (λ _. no_value_thrown)
            λ _. Yields-bind (params n) λ (xs, n₁) p.
              Yields-bind (name n₁)
                λ (x, n₂) q. Yields-bind (body n₂) λ (b, n₃) o. value (simp (p, q, o)))
        λ _. no_value_thrown

module _ (d r : Fragment) (args : Fragments) (build_args : ℕ → Result (Expressions × ℕ))
    (build_name : ℕ → Result Made) (arguments : (n : ℕ) → Yields (UnbuildsAll args) (build_args n))
    (name : (n : ℕ) → Yields (Unbuilds r) (build_name n)) where
  pub build_invoke-Unbuilds :
      (n : ℕ)
      → Yields
          (UnbuildsForm invoke_form (cons r args))
          (build_call d invoke_form r build_args build_name n)
  unfolding build_call unbuild as_source
  build_invoke-Unbuilds n =
      Yields-bind (arguments n) λ (xs, n₁) p. Yields-bind (name n₁) λ (x, n₂) q. value (simp (p, q))

  pub build_jump-Unbuilds :
      (n : ℕ)
      → Yields
          (UnbuildsForm jump_form (cons r args))
          (build_call d jump_form r build_args build_name n)
  unfolding build_call unbuild as_source
  build_jump-Unbuilds n =
      Yields-bind (arguments n) λ (xs, n₁) p. Yields-bind (name n₁) λ (x, n₂) q. value (simp (p, q))

  pub build_storage-Unbuilds :
      (n : ℕ)
      → Yields
          (UnbuildsForm storage_form (cons r args))
          (build_call d storage_form r build_args build_name n)
  unfolding build_call unbuild as_source
  build_storage-Unbuilds n =
      Yields-if (is_token r)
        (λ _.
          Yields-bind (arguments n)
            λ (xs, n₁) p. Yields-bind (name n₁) λ (x, n₂) q. value (simp (p, q)))
        λ _. no_value_thrown
