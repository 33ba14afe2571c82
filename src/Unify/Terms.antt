-- ===== src/Unify/Terms.antt =====
-- Notions by which unification is specified: substitutions, sizes and occurrences.
use l.Prelude.{ℕ, suc, ◌+◌, Bool, false, ◌||◌, ◌==◌}
use l.Fragment.{Fragment, Fragments, var, token, group, nil, cons}

abbrev pub Substitution : Type 0
Substitution = ℕ → Fragment

unfoldable mutual
  pub apply : Substitution → Fragment → Fragment
  apply σ (var v) = σ v
  apply σ (token c cs) = token c cs
  apply σ (group xs) = group (apply_all σ xs)

  pub apply_all : Substitution → Fragments → Fragments
  apply_all σ nil = nil
  apply_all σ (cons x xs) = cons (apply σ x) (apply_all σ xs)

unfoldable mutual
  pub size : Fragment → ℕ
  size (var v) = 1
  size (token c cs) = 1
  size (group xs) = suc (size_all xs)

  pub size_all : Fragments → ℕ
  size_all nil = 0
  size_all (cons x xs) = size x + size_all xs

unfoldable mutual
  pub occurs : ℕ → Fragment → Bool
  occurs x (var w) = x == w
  occurs x (token c cs) = false
  occurs x (group xs) = occurs_any x xs

  pub occurs_any : ℕ → Fragments → Bool
  occurs_any x nil = false
  occurs_any x (cons y ys) = occurs x y || occurs_any x ys
