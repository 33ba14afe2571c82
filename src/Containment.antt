-- ===== src/Containment.antt =====
-- `containment_analysis` of bootstrap/analysis.c: whether evaluating an expression may leave through
-- a jump or capture the stack. The assignments to `contains_flag` are a list, by the node's address.
pub mod Flags
use Prim.Native.Nat.{bit_or}
use l.Prelude.{ℕ, ◌+◌, List, [], ◌∷◌, ◌++◌, ◌==◌, if◌then◌else◌}
use l.Expression.{
  Expression, Expressions, storage, function, with, invoke, if_else, literal, symbol, jump,
  continuation, constrain, assembly, meta, none_left, also,
}

abbrev pub contains_none : ℕ
contains_none = 0

abbrev pub contains_jump : ℕ
contains_jump = 1

abbrev pub contains_with : ℕ
contains_with = 3

-- The flag that is returned, and the flags that are assigned.
abbrev pub Contained : Type 0
Contained = ℕ × List (ℕ × ℕ)

unfoldable mutual
  pub containment_analysis : Expression → Contained
  containment_analysis (constrain a e ref) =
      let inner = containment_analysis e in (bit_or contains_none inner.0, inner.1)
  containment_analysis (if_else a c t e) =
      let condition = containment_analysis c in
      let consequent = containment_analysis t in
      let alternate = containment_analysis e in
      let flag = bit_or contains_none condition.0 in
      (
        if consequent.0 + alternate.0 == 1
            then contains_with
            else bit_or (bit_or flag consequent.0) alternate.0,
        condition.1 ++ (consequent.1 ++ alternate.1),
      )
  containment_analysis (function a ref params e) = (contains_none, (containment_analysis e).1)
  containment_analysis (continuation a ref params e) = (contains_none, (containment_analysis e).1)
  containment_analysis (with a ref param e) = (contains_with, (containment_analysis e).1)
  containment_analysis (storage a ref args) = contained_in contains_none args
  containment_analysis (jump a ref args) =
      let reference = containment_analysis ref in
      let all = contained_in (bit_or contains_none reference.0) args in
      (contains_jump, reference.1 ++ (all.1 ++ (a, all.0) ∷ []))
  containment_analysis (invoke a ref args) =
      let reference = containment_analysis ref in
      let all = contained_in (bit_or contains_none reference.0) args in
      (all.0, reference.1 ++ (all.1 ++ (a, all.0) ∷ []))
  containment_analysis (literal a v) = (contains_none, [])
  containment_analysis (symbol a name) = (contains_none, [])
  containment_analysis (assembly op args) = (contains_none, [])
  containment_analysis (meta a ref frag) = (contains_none, [])

  -- The loop over arguments, from the flag so far.
  pub contained_in : ℕ → Expressions → Contained
  contained_in flag none_left = (flag, [])
  contained_in flag (also t ts) =
      let first = containment_analysis t in
      let rest = contained_in (bit_or flag first.0) ts in (rest.0, first.1 ++ rest.1)
