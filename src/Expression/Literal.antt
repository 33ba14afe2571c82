-- ===== src/Expression/Literal.antt =====
-- The binary digits of a literal in bootstrap/expressions.c.
use l.Prelude.{
  ℕ, zero, suc, ◌+◌, ◌*◌, ◌/◌, ◌%◌, ◌^◌, ◌≤◌, ◌<◌, ◌≡◌, refl, [], ◌∷◌, Chars, ◌==◌, length, some,
  arith, inl, inr, Bool-cases, ==_iff, ap₂,
}
use native.Mathlib.Nat.{pow-suc, div-div-eq-div-mul, mod-eq_of_lt}
use l.Expression.Keyword.{literal_value}

-- The last `k` binary digits of `v`, the first one in front.
unfoldable pub binary : ℕ → ℕ → Chars
binary zero v = []
binary (suc k) v = (b'0' + v / 2 ^ k % 2) ∷ binary k v

-- One round of the loop.
literal_value-step :
    (a c : ℕ) (cs : Chars) (v : ℕ)
    → a * 2 + 1 < 2 ^ 64
    → literal_value a (c ∷ cs) ≡ some v
    → (b : ℕ) × (b < 2) × (c ≡ b'0' + b) × (literal_value (a * 2 + b) cs ≡ some v)
unfolding literal_value
literal_value-step a c cs v fits h =
    let whole : a * 2 % 2 ^ 64 ≡ a * 2 = mod-eq_of_lt (let l : a * 2 < 2 ^ 64 = omega arith in l) in
    elim (Bool-cases (c == b'1')) [
      | inl one ↦ (1, omega arith, (==_iff c b'1').0 one, rw (one, whole) at h)
      | inr other ↦ elim (Bool-cases (c == b'0')) [
        | inl zero_digit ↦ (
          0,
          omega arith,
          (==_iff c b'0').0 zero_digit,
          (let e : a * 2 + 0 ≡ a * 2 = omega arith in rw e (rw (other, zero_digit, whole) at h)),
        )
        | inr neither ↦ cc (rw (other, neither) at h)
      ]
    ]

two_pow-pos : (k : ℕ) → 1 ≤ 2 ^ k
two_pow-pos zero = omega arith
two_pow-pos (suc k) = omega (arith, pow-suc 2 k, two_pow-pos k)

shift_fits : (a q m : ℕ) → 1 ≤ q → (a + 1) * (q * 2) ≤ m → a * 2 + 1 < m
shift_fits a zero m pos h = absurd (omega arith)
shift_fits a (suc q) m pos h = omega arith

rest_fits : (a b q m : ℕ) → b < 2 → (a + 1) * (q * 2) ≤ m → (a * 2 + b + 1) * q ≤ m
rest_fits a zero q m small h = omega arith
rest_fits a (suc zero) q m small h = omega arith
rest_fits a (suc (suc b)) q m small h = absurd (omega arith)

-- The digits read from the value `a` on are the last digits of the result, and `a` is what stands
-- in front of them.
pub literal_value-binary :
    (k a : ℕ) (str : Chars) (v : ℕ)
    → length str ≡ k
    → (a + 1) * 2 ^ k ≤ 2 ^ 64
    → literal_value a str ≡ some v
    → (binary k v ≡ str) × (v / 2 ^ k ≡ a)
unfolding binary literal_value
literal_value-binary zero a [] v n fits h = let same : a ≡ v = cc in (refl, omega (arith, same))
literal_value-binary zero a (c ∷ cs) v n fits h = absurd (omega arith)
literal_value-binary (suc k) a [] v n fits h = absurd (omega arith)
literal_value-binary (suc k) a (c ∷ cs) v n fits h =
    let p = pow-suc 2 k in
    let fits' : (a + 1) * (2 ^ k * 2) ≤ 2 ^ 64 = rw p at fits in
    let (b, small, digit, rest) =
      literal_value-step a c cs v (shift_fits a (2 ^ k) (2 ^ 64) (two_pow-pos k) fits') h in
    let (same, front) =
      literal_value-binary k (a * 2 + b) cs v (omega arith)
        (rest_fits a b (2 ^ k) (2 ^ 64) small fits') rest in
    (
      ap₂ ◌∷◌ (omega (arith, front, digit, small)) same,
      rw (p, ← div-div-eq-div-mul v (2 ^ k) 2) (omega (arith, front, small)),
    )
