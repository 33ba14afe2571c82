-- ===== src/Containment/Flags.antt =====
-- What the flags of `containment_analysis` of bootstrap/analysis.c say of the expressions whose
-- results a call waits for.
use Prim.Native.Nat.{bit_or}
use l.Prelude.{
  ℕ, ◌+◌, ◌≡◌, refl, Bool, true, false, ◌&&◌, ◌||◌, List, [], ◌∷◌, ◌++◌, ◌==◌, if◌then◌else◌, ◌⊎◌,
  inl, inr, subst,
}
use l.Expression.{
  Expression, Expressions, storage, function, with, invoke, if_else, literal, symbol, jump,
  continuation, constrain, assembly, meta, none_left, also,
}
use l.Containment.{containment_analysis, contained_in}

-- No jump and no `with` is met where an expression is evaluated. The bodies of functions and of
-- continuations are evaluated later.
unfoldable mutual
  pub is_straight : Expression → Bool
  is_straight (with a ref param e) = false
  is_straight (jump a ref args) = false
  is_straight (invoke a ref args) = is_straight ref && all_straight args
  is_straight (storage a ref args) = all_straight args
  is_straight (if_else a c t e) = is_straight c && (is_straight t && is_straight e)
  is_straight (constrain a e ref) = is_straight e
  is_straight _ = true

  pub all_straight : Expressions → Bool
  all_straight none_left = true
  all_straight (also t ts) = is_straight t && all_straight ts

-- Some choice of branches gives the expression a value: a jump has none, a call has one where all its
-- parts have, and a `with` can be jumped to.
unfoldable mutual
  pub may_return : Expression → Bool
  may_return (jump a ref args) = false
  may_return (invoke a ref args) = may_return ref && all_return args
  may_return (storage a ref args) = all_return args
  may_return (if_else a c t e) = may_return c && (may_return t || may_return e)
  may_return (constrain a e ref) = may_return e
  may_return _ = true

  pub all_return : Expressions → Bool
  all_return none_left = true
  all_return (also t ts) = may_return t && all_return ts

-- The calls and jumps in the order of the analysis, and for each whether its reference and arguments
-- are straight and whether they may return.
unfoldable mutual
  unfolding is_straight may_return

  pub calls : Expression → List (ℕ × Bool × Bool)
  calls (jump a ref args) =
      calls ref
      ++ (calls_each args
          ++ (a, is_straight ref && all_straight args, may_return ref && all_return args) ∷ [])
  calls (invoke a ref args) =
      calls ref
      ++ (calls_each args
          ++ (a, is_straight ref && all_straight args, may_return ref && all_return args) ∷ [])
  calls (storage a ref args) = calls_each args
  calls (if_else a c t e) = calls c ++ (calls t ++ calls e)
  calls (constrain a e ref) = calls e
  calls (function a ref params e) = calls e
  calls (continuation a ref params e) = calls e
  calls (with a ref param e) = calls e
  calls _ = []

  pub calls_each : Expressions → List (ℕ × Bool × Bool)
  calls_each none_left = []
  calls_each (also t ts) = calls t ++ calls_each ts

-- `CONTAINS_NONE` just where the evaluation is straight; `CONTAINS_JUMP` only where it never returns;
-- otherwise `CONTAINS_WITH`.
unfoldable pub Says : ℕ → (straight returns : Bool) → Type 0
Says flag straight returns =
    ((flag ≡ 0) × (straight ≡ true) × (returns ≡ true))
    ⊎ (((flag ≡ 1) × (straight ≡ false) × (returns ≡ false)) ⊎ ((flag ≡ 3) × (straight ≡ false)))

unfoldable pub AllSay : List (ℕ × ℕ) → List (ℕ × Bool × Bool) → Type 0
unfolding Says
AllSay [] [] = Unit
AllSay [] (c ∷ cs) = ⊥
AllSay (f ∷ fs) [] = ⊥
AllSay (f ∷ fs) (c ∷ cs) = (f.0 ≡ c.0) × Says f.1 c.1 c.2 × AllSay fs cs

Says-both :
    (f g : ℕ) (s r s' r' : Bool) → Says f s r → Says g s' r' → Says (bit_or f g) (s && s') (r && r')
unfolding Says
Says-both f g s r s' r' (inl (p, h, k)) (inl (q, h', k')) =
    rw (p, q, h, k, h', k') (inl (refl, refl, refl))
Says-both f g s r s' r' (inl (p, h, k)) (inr (inl (q, h', k'))) =
    rw (p, q, h, k, h', k') (inr (inl (refl, refl, refl)))
Says-both f g s r s' r' (inl (p, h, k)) (inr (inr (q, h'))) =
    rw (p, q, h, h') (inr (inr (refl, refl)))
Says-both f g s r s' r' (inr (inl (p, h, k))) (inl (q, h', k')) =
    rw (p, q, h, k) (inr (inl (refl, refl, refl)))
Says-both f g s r s' r' (inr (inl (p, h, k))) (inr (inl (q, h', k'))) =
    rw (p, q, h, k) (inr (inl (refl, refl, refl)))
Says-both f g s r s' r' (inr (inl (p, h, k))) (inr (inr (q, h'))) =
    rw (p, q, h) (inr (inr (refl, refl)))
Says-both f g s r s' r' (inr (inr (p, h))) (inl (q, h', k')) = rw (p, q, h) (inr (inr (refl, refl)))
Says-both f g s r s' r' (inr (inr (p, h))) (inr (inl (q, h', k'))) =
    rw (p, q, h) (inr (inr (refl, refl)))
Says-both f g s r s' r' (inr (inr (p, h))) (inr (inr (q, h'))) =
    rw (p, q, h) (inr (inr (refl, refl)))

-- The branches of an `if`: exactly one of them jumps, or they say what one expression would.
Says-branches :
    (f g : ℕ) (s r s' r' : Bool)
    → Says f s r
    → Says g s' r'
    → (((f + g == 1) ≡ true) × ((s && s') ≡ false))
      ⊎ (((f + g == 1) ≡ false) × Says (bit_or f g) (s && s') (r || r'))
unfolding Says
Says-branches f g s r s' r' (inl (p, h, k)) (inl (q, h', k')) =
    rw (p, q, h, k, h') (inr (refl, inl (refl, refl, refl)))
Says-branches f g s r s' r' (inl (p, h, k)) (inr (inl (q, h', k'))) =
    rw (p, q, h, h') (inl (refl, refl))
Says-branches f g s r s' r' (inl (p, h, k)) (inr (inr (q, h'))) =
    rw (p, q, h, h') (inr (refl, inr (inr (refl, refl))))
Says-branches f g s r s' r' (inr (inl (p, h, k))) (inl (q, h', k')) =
    rw (p, q, h) (inl (refl, refl))
Says-branches f g s r s' r' (inr (inl (p, h, k))) (inr (inl (q, h', k'))) =
    rw (p, q, h, k, k') (inr (refl, inr (inl (refl, refl, refl))))
Says-branches f g s r s' r' (inr (inl (p, h, k))) (inr (inr (q, h'))) =
    rw (p, q, h) (inr (refl, inr (inr (refl, refl))))
Says-branches f g s r s' r' (inr (inr (p, h))) (inl (q, h', k')) =
    rw (p, q, h) (inr (refl, inr (inr (refl, refl))))
Says-branches f g s r s' r' (inr (inr (p, h))) (inr (inl (q, h', k'))) =
    rw (p, q, h) (inr (refl, inr (inr (refl, refl))))
Says-branches f g s r s' r' (inr (inr (p, h))) (inr (inr (q, h'))) =
    rw (p, q, h) (inr (refl, inr (inr (refl, refl))))

from_none : (f : ℕ) (s r : Bool) → Says f s r → Says (bit_or 0 f) s r
unfolding Says
from_none f s r h = Says-both 0 f true true s r (inl (refl, refl, refl)) h

Value : ℕ → Type 0
Value f = (f ≡ 0) ⊎ ((f ≡ 1) ⊎ (f ≡ 3))

one_of_three : (f : ℕ) (s r : Bool) → Says f s r → Value f
unfolding Says Value
one_of_three f s r (inl (p, h, k)) = inl p
one_of_three f s r (inr (inl (p, h, k))) = inr (inl p)
one_of_three f s r (inr (inr (p, h))) = inr (inr p)

join_last :
    (f g : ℕ)
    → bit_or f (bit_or g 0) ≡ bit_or (bit_or f g) 0
    → bit_or f (bit_or g 1) ≡ bit_or (bit_or f g) 1
    → bit_or f (bit_or g 3) ≡ bit_or (bit_or f g) 3
    → (k : ℕ) → Value k
    → bit_or f (bit_or g k) ≡ bit_or (bit_or f g) k
unfolding Value
join_last f g none one three k (inl p) = rw p none
join_last f g none one three k (inr (inl p)) = rw p one
join_last f g none one three k (inr (inr p)) = rw p three

-- The flags are joined in the order of the parts; for these three values the order is no matter.
bit_or_regrouped :
    (f g k : ℕ) → Value f → Value g → Value k → bit_or f (bit_or g k) ≡ bit_or (bit_or f g) k
unfolding Value
bit_or_regrouped f g k (inl p) (inl q) v = rw (p, q) (join_last 0 0 refl refl refl k v)
bit_or_regrouped f g k (inl p) (inr (inl q)) v = rw (p, q) (join_last 0 1 refl refl refl k v)
bit_or_regrouped f g k (inl p) (inr (inr q)) v = rw (p, q) (join_last 0 3 refl refl refl k v)
bit_or_regrouped f g k (inr (inl p)) (inl q) v = rw (p, q) (join_last 1 0 refl refl refl k v)
bit_or_regrouped f g k (inr (inl p)) (inr (inl q)) v = rw (p, q) (join_last 1 1 refl refl refl k v)
bit_or_regrouped f g k (inr (inl p)) (inr (inr q)) v = rw (p, q) (join_last 1 3 refl refl refl k v)
bit_or_regrouped f g k (inr (inr p)) (inl q) v = rw (p, q) (join_last 3 0 refl refl refl k v)
bit_or_regrouped f g k (inr (inr p)) (inr (inl q)) v = rw (p, q) (join_last 3 1 refl refl refl k v)
bit_or_regrouped f g k (inr (inr p)) (inr (inr q)) v = rw (p, q) (join_last 3 3 refl refl refl k v)

one_jumps : (s b r : Bool) → b ≡ false → Says 3 (s && b) r
unfolding Says
one_jumps true b r h = rw h (inr (inr (refl, refl)))
one_jumps false b r h = inr (inr (refl, refl))

Says-if :
    (f g k : ℕ) (s r s' r' s'' r'' : Bool)
    → Says f s r
    → Says g s' r'
    → Says k s'' r''
    → Says
        (if g + k == 1 then 3 else bit_or (bit_or (bit_or 0 f) g) k)
        (s && (s' && s''))
        (r && (r' || r''))
Says-if f g k s r s' r' s'' r'' c t e =
    let first = from_none f s r c in
    elim (Says-branches g k s' r' s'' r'' t e) [
      | inl (uneven, bent) ↦ rw uneven (one_jumps s (s' && s'') (r && (r' || r'')) bent)
      | inr (even, both) ↦ rw even (
          subst (λ n. Says n (s && (s' && s'')) (r && (r' || r'')))
            (bit_or_regrouped (bit_or 0 f) g k (one_of_three _ s r first) (one_of_three g s' r' t)
              (one_of_three k s'' r'' e))
            (Says-both (bit_or 0 f) (bit_or g k) s r (s' && s'') (r' || r'') first both))
    ]

AllSay-append :
    (fs gs : List (ℕ × ℕ)) (cs ds : List (ℕ × Bool × Bool))
    → AllSay fs cs
    → AllSay gs ds
    → AllSay (fs ++ gs) (cs ++ ds)
unfolding AllSay
AllSay-append [] gs [] ds h h' = h'
AllSay-append [] gs (c ∷ cs) ds h h' = absurd h
AllSay-append (f ∷ fs) gs [] ds h h' = absurd h
AllSay-append (f ∷ fs) gs (c ∷ cs) ds (here, says, rest) h' =
    (here, says, AllSay-append fs gs cs ds rest h')

-- A call behind its parts.
AllSay-call :
    (a flag : ℕ) (s r : Bool) (fs gs : List (ℕ × ℕ)) (cs ds : List (ℕ × Bool × Bool))
    → AllSay fs cs
    → AllSay gs ds
    → Says flag s r
    → AllSay (fs ++ (gs ++ (a, flag) ∷ [])) (cs ++ (ds ++ (a, s, r) ∷ []))
unfolding AllSay
AllSay-call a flag s r fs gs cs ds h h' own =
    AllSay-append fs _ cs _ h (AllSay-append gs _ ds _ h' (refl, own, tt))

straight-Says : Says 0 true true
unfolding Says
straight-Says = inl (refl, refl, refl)

jump-Says : Says 1 false false
unfolding Says
jump-Says = inr (inl (refl, refl, refl))

with-Says : Says 3 false true
unfolding Says
with-Says = inr (inr (refl, refl))

none-AllSay : AllSay [] []
unfolding AllSay
none-AllSay = tt

and_true : (b : Bool) → b ≡ (b && true)
and_true true = refl
and_true false = refl

and_regrouped : (a b c : Bool) → ((a && b) && c) ≡ (a && (b && c))
and_regrouped true b c = refl
and_regrouped false b c = refl

mutual
  unfolding containment_analysis is_straight may_return calls

  meaning :
      (e : Expression)
      → Says (containment_analysis e).0 (is_straight e) (may_return e)
        × AllSay (containment_analysis e).1 (calls e)
  meaning (constrain a e ref) =
      let (flag, flags) = meaning e in
      (from_none (containment_analysis e).0 (is_straight e) (may_return e) flag, flags)
  meaning (if_else a c t e) =
      let (fc, rc) = meaning c in
      let (ft, rt) = meaning t in
      let (fe, re) = meaning e in
      (
        Says-if (containment_analysis c).0 (containment_analysis t).0 (containment_analysis e).0 _ _
            _ _ _ _ fc ft fe,
        AllSay-append (containment_analysis c).1 _ (calls c) _ rc
            (AllSay-append (containment_analysis t).1 _ (calls t) _ rt re),
      )
  meaning (function a ref params e) = (straight-Says, (meaning e).1)
  meaning (continuation a ref params e) = (straight-Says, (meaning e).1)
  meaning (with a ref param e) = (with-Says, (meaning e).1)
  meaning (storage a ref args) = meaning_each 0 args true true straight-Says
  meaning (jump a ref args) =
      let (flag, flags) = meaning ref in
      let flag' = from_none (containment_analysis ref).0 (is_straight ref) (may_return ref) flag in
      let (all, each) = meaning_each _ args (is_straight ref) (may_return ref) flag' in
      (jump-Says, AllSay-call a _ _ _ _ _ (calls ref) (calls_each args) flags each all)
  meaning (invoke a ref args) =
      let (flag, flags) = meaning ref in
      let flag' = from_none (containment_analysis ref).0 (is_straight ref) (may_return ref) flag in
      let (all, each) = meaning_each _ args (is_straight ref) (may_return ref) flag' in
      (all, AllSay-call a _ _ _ _ _ (calls ref) (calls_each args) flags each all)
  meaning (literal a v) = (straight-Says, none-AllSay)
  meaning (symbol a name) = (straight-Says, none-AllSay)
  meaning (assembly op args) = (straight-Says, none-AllSay)
  meaning (meta a ref frag) = (straight-Says, none-AllSay)

  meaning_each :
      (flag : ℕ) (ts : Expressions) (s r : Bool)
      → Says flag s r
      → Says (contained_in flag ts).0 (s && all_straight ts) (r && all_return ts)
        × AllSay (contained_in flag ts).1 (calls_each ts)
  meaning_each flag none_left s r h = (
    subst (λ b. Says flag b (r && true)) (and_true s) (subst (Says flag s) (and_true r) h),
    none-AllSay,
  )
  meaning_each flag (also t ts) s r h =
      let (first, flags) = meaning t in
      let both =
        Says-both flag (containment_analysis t).0 s r (is_straight t) (may_return t) h first in
      let (rest, each) = meaning_each _ ts (s && is_straight t) (r && may_return t) both in
      (
        subst (λ b. Says (contained_in flag (also t ts)).0 b (r && (may_return t && all_return ts)))
            (and_regrouped s (is_straight t) (all_straight ts))
            (subst
              (λ b.
                Says (contained_in flag (also t ts)).0 ((s && is_straight t) && all_straight ts) b)
              (and_regrouped r (may_return t) (all_return ts)) rest),
        AllSay-append (containment_analysis t).1 _ (calls t) _ flags each,
      )
