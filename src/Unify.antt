-- ===== src/Unify.antt =====
-- bootstrap/lexer.c (`evaluate`, `recursive_evaluate`, `token_equals`) and bootstrap/analysis.c
-- (`occurs_in`, `unify_var`, `unify`): unification of signatures. The cell of a variable holds its
-- value; a cell that holds itself is unbound. Every function takes fuel, a unit for each call and
-- for each round of a loop; `Total` shows that unification needs a bounded amount.
pub mod Terms
pub mod Models
pub mod Narrow
pub mod Correct
pub mod Evals
pub mod Occurs
pub mod Extend
pub mod Progress
pub mod Step
pub mod Bounded
pub mod Total
pub mod Agree
use l.Prelude.{
  ℕ, zero, suc, ◌+◌, Bool, true, false, [], ◌∷◌, Chars, ◌==◌, ◌&&◌, if◌then◌else◌, length,
}
use l.Fragment.{Fragment, Fragments, var, token, group, nil, cons, chars_equal}
use l.Result.{Result, ok, out_of_fuel, ◌>>=◌}

-- The `fst` field of the variable at each address.
abbrev pub Store : Type 0
Store = ℕ → Fragment

-- A variable is made by `var`, which lets its cell point to itself.
abbrev pub fresh : Store
fresh v = var v

-- `get_val(v) == v`
unfoldable pub holds_itself : ℕ → Fragment → Bool
holds_itself v (var w) = v == w
holds_itself v _ = false

unfoldable pub set_val : Store → ℕ → Fragment → Store
set_val s x t v = if v == x then t else s v

unfoldable pub evaluate : ℕ → Store → Fragment → Result Fragment
unfolding holds_itself
evaluate zero s d = out_of_fuel
evaluate (suc f) s (var v) =
    let rest = evaluate f s (s v) in if holds_itself v (s v) then ok (var v) else rest
evaluate (suc f) s d = ok d

unfoldable pub token_equals : Chars → Chars → Bool
unfolding chars_equal
token_equals a b = (length a == length b) && chars_equal a b

unfoldable pub count : Fragments → ℕ
count nil = 0
count (cons x xs) = suc (count xs)

unfoldable mutual
  unfolding evaluate

  pub recursive_evaluate : ℕ → Store → Fragment → Result Fragment
  recursive_evaluate zero s d = out_of_fuel
  recursive_evaluate (suc f) s d = do e ← evaluate f s d; evaluate_parts f s e

  -- What follows the call of `evaluate`.
  pub evaluate_parts : ℕ → Store → Fragment → Result Fragment
  evaluate_parts zero s e = out_of_fuel
  evaluate_parts (suc f) s (group xs) = do ys ← evaluate_all f s xs; ok (group ys)
  evaluate_parts (suc f) s e = ok e

  pub evaluate_all : ℕ → Store → Fragments → Result Fragments
  evaluate_all zero s xs = out_of_fuel
  evaluate_all (suc f) s nil = ok nil
  evaluate_all (suc f) s (cons x xs) = do
    y ← recursive_evaluate f s x
    ys ← evaluate_all f s xs
    ok (cons y ys)

unfoldable mutual
  unfolding evaluate

  pub occurs_in : ℕ → Store → ℕ → Fragment → Result Bool
  occurs_in zero s x d = out_of_fuel
  occurs_in (suc f) s x d = do e ← evaluate f s d; occurs_in_parts f s x e

  pub occurs_in_parts : ℕ → Store → ℕ → Fragment → Result Bool
  occurs_in_parts zero s x e = out_of_fuel
  occurs_in_parts (suc f) s x (var w) = ok (x == w)
  occurs_in_parts (suc f) s x (token c cs) = ok false
  occurs_in_parts (suc f) s x (group xs) = occurs_in_any f s x xs

  pub occurs_in_any : ℕ → Store → ℕ → Fragments → Result Bool
  occurs_in_any zero s x xs = out_of_fuel
  occurs_in_any (suc f) s x nil = ok false
  occurs_in_any (suc f) s x (cons y ys) = do
    let rest = occurs_in_any f s x ys
    found ← occurs_in f s x y
    if found then ok true else rest

unfoldable pub unify_var : ℕ → Store → ℕ → Fragment → Result (Bool × Store)
unfolding occurs_in set_val
unify_var f s x t = do
  found ← occurs_in f s x t
  ok (if found then (false, s) else (true, set_val s x t))

-- Bindings that a failed unification made stay in the store.
unfoldable mutual
  unfolding evaluate unify_var token_equals count

  pub unify : ℕ → Store → Fragment → Fragment → Result (Bool × Store)
  unify zero s x y = out_of_fuel
  unify (suc f) s x y = do xl ← evaluate f s x; yl ← evaluate f s y; unify_parts f s xl yl

  -- The chain of tests of `unify` on the evaluated fragments.
  pub unify_parts : ℕ → Store → Fragment → Fragment → Result (Bool × Store)
  unify_parts zero s xl yl = out_of_fuel
  unify_parts (suc f) s (var v) (var w) = if v == w then ok (true, s) else unify_var f s v (var w)
  unify_parts (suc f) s (var v) (token d ds) = unify_var f s v (token d ds)
  unify_parts (suc f) s (var v) (group ys) = unify_var f s v (group ys)
  unify_parts (suc f) s (token c cs) (var w) = unify_var f s w (token c cs)
  unify_parts (suc f) s (group xs) (var w) = unify_var f s w (group xs)
  unify_parts (suc f) s (token c cs) (token d ds) = ok (token_equals (c ∷ cs) (d ∷ ds), s)
  unify_parts (suc f) s (token c cs) (group ys) = ok (false, s)
  unify_parts (suc f) s (group xs) (token d ds) = ok (false, s)
  unify_parts (suc f) s (group xs) (group ys) =
      let rest = unify_all f s xs ys in if count xs == count ys then rest else ok (false, s)

  pub unify_all : ℕ → Store → Fragments → Fragments → Result (Bool × Store)
  unify_all zero s xs ys = out_of_fuel
  unify_all (suc f) s (cons x xs) (cons y ys) = do
    (equal, s') ← unify f s x y
    let rest = unify_all f s' xs ys
    if equal then rest else ok (false, s')
  unify_all (suc f) s _ _ = ok (true, s)
