-- ===== src/Fuel.antt =====
-- Runs on fuel that end: with fuel above some bound they return one value.
use l.Prelude.{ℕ, zero, suc, ◌≤◌, ◌+◌, ◌≡◌, ◌∙◌, arith}
use l.Result.{Result, ok, ◌>>=◌}

pub record Converges {ℓ} {A : Type ℓ} (run : ℕ → Result A) (a : A) : Type ℓ where
  pub bound : ℕ
  pub reaches : (f : ℕ) → bound ≤ f → run f ≡ ok a

module _ {ℓ} {A : Type ℓ} where
  -- A function that spends a unit of fuel, and then does what `next` does.
  pub Converges-suc :
      (run next : ℕ → Result A) {a : A}
      → ((f : ℕ) → run (suc f) ≡ next f)
      → Converges next a
      → Converges run a
  Converges-suc run next {a} step c = record { bound = suc c.bound; reaches = go }
    where
      go : (f : ℕ) → suc c.bound ≤ f → run f ≡ ok a
      go zero h = absurd (omega arith)
      go (suc f) h = step f ∙ c.reaches f (omega arith)

  pub Converges-ok : (run : ℕ → Result A) (a : A) → ((f : ℕ) → run (suc f) ≡ ok a) → Converges run a
  Converges-ok run a step = record { bound = 1; reaches = go }
    where
      go : (f : ℕ) → 1 ≤ f → run f ≡ ok a
      go zero h = absurd (omega arith)
      go (suc f) h = step f

  pub Converges-bind {κ} :
      {B : Type κ} (run : ℕ → Result A) (next : A → ℕ → Result B) {a : A} {b : B}
      → Converges run a
      → Converges (next a) b
      → Converges (λ f. run f >>= λ x. next x f) b
  Converges-bind run next c d = record {
    bound = c.bound + d.bound;
    reaches = λ f h. rw (c.reaches f (omega arith)) (d.reaches f (omega arith));
  }
