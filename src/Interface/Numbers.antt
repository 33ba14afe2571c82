-- ===== src/Interface/Numbers.antt =====
-- `ulong_to_str` and `pad_size` of bootstrap/x86_64_linux_interface.c.
use l.Prelude.{
  ℕ, zero, suc, ◌+◌, ◌-◌, ◌*◌, ◌/◌, ◌%◌, ◌^◌, ◌≤◌, ◌<◌, ◌≡◌, ◌↔◌, refl, Bool, true, false, not, [],
  ◌∷◌, Chars, ◌==◌, ◌&&◌, leb, length, arith, inl, inr, Bool-cases, ==_iff, ap, ◌∙◌, sym,
}
use native.Mathlib.Nat.{pow-suc, mod-lt, mod-eq_of_lt, mod-add-mod, mod_self}
use l.Interface.{streq, ulong_digits, ulong_to_str, pad_size}

-- The number that decimal digits stand for, behind the digits of `n`.
unfoldable pub decimal_from : ℕ → Chars → ℕ
decimal_from n [] = n
decimal_from n (c ∷ cs) = decimal_from (n * 10 + (c - b'0')) cs

unfoldable pub all_digits : Chars → Bool
all_digits [] = true
all_digits (c ∷ cs) = leb b'0' c && leb c b'9' && all_digits cs

ulong_digits-decimal :
    (slots i : ℕ) (str : Chars)
    → i < 10 ^ slots
    → decimal_from 0 (ulong_digits slots i str) ≡ decimal_from i str
unfolding ulong_digits decimal_from
ulong_digits-decimal zero i str h = let zero_left : i ≡ 0 = omega arith in rw zero_left
ulong_digits-decimal (suc slots) i str h = elim (Bool-cases (i == 0)) [
  | inl done ↦ rw (done, (==_iff i 0).0 done)
  | inr more ↦
      let fits : i / 10 < 10 ^ slots = omega (arith, pow-suc 10 slots) in
      let digit : i / 10 * 10 + (b'0' + i % 10 - b'0') ≡ i = omega arith in
      rw more (
        ulong_digits-decimal slots (i / 10) ((b'0' + i % 10) ∷ str) fits
        ∙ ap (λ n. decimal_from n str) digit)
]

ulong_digits-all_digits :
    (slots i : ℕ) (str : Chars)
    → all_digits str ≡ true
    → (all_digits (ulong_digits slots i str) ≡ true)
      × (length (ulong_digits slots i str) ≤ slots + length str)
unfolding ulong_digits all_digits
ulong_digits-all_digits zero i str h = (h, omega arith)
ulong_digits-all_digits (suc slots) i str h =
    ground (arith, ulong_digits-all_digits slots (i / 10) ((b'0' + i % 10) ∷ str))

-- The text is there, and its first digit is not 0.
unfoldable pub has_lead : Chars → Bool
has_lead [] = false
has_lead (c ∷ cs) = not (c == b'0')

last_digit :
    (slots i c : ℕ) (str : Chars)
    → i ≡ 0
    → (c == b'0') ≡ false
    → has_lead (ulong_digits slots i (c ∷ str)) ≡ true
unfolding ulong_digits has_lead
last_digit zero i c str done h = rw h refl
last_digit (suc slots) i c str done h = rw (done, h) refl

ulong_digits-lead :
    (slots i : ℕ) (str : Chars)
    → 0 < i
    → i < 10 ^ slots
    → has_lead (ulong_digits slots i str) ≡ true
unfolding ulong_digits has_lead
ulong_digits-lead zero i str positive h = absurd (omega arith)
ulong_digits-lead (suc slots) i str positive h =
    let more : (i == 0) ≡ false = ground arith in
    let fits : i / 10 < 10 ^ slots = omega (arith, pow-suc 10 slots) in
    elim (Bool-cases (i / 10 == 0)) [
      | inl last ↦
          let digit : i / 10 ≡ 0 = (==_iff (i / 10) 0).0 last in
          rw more (last_digit slots (i / 10) (b'0' + i % 10) str digit (ground arith))
      | inr others ↦
          rw more (ulong_digits-lead slots (i / 10) ((b'0' + i % 10) ∷ str) (ground arith) fits)
    ]

-- An `unsigned long` but 0 is written in at most the twenty digits that the buffer holds. The digits
-- stand for it, and the first one is not 0.
pub ulong_to_str-decimal :
    (i : ℕ)
    → 0 < i
    → i < 2 ^ 64
    → (decimal_from 0 (ulong_to_str i) ≡ i)
      × (all_digits (ulong_to_str i) ≡ true)
      × (length (ulong_to_str i) ≤ 20)
      × (has_lead (ulong_to_str i) ≡ true)
unfolding ulong_to_str decimal_from all_digits
ulong_to_str-decimal i positive h =
    let (digits, short) = ulong_digits-all_digits 20 i [] refl in
    (
      ulong_digits-decimal 20 i [] (omega arith),
      digits,
      short,
      ulong_digits-lead 20 i [] positive (omega arith),
    )

-- The padded size is the least multiple of `nearest` that is not below the size, where the sum fits
-- an `unsigned long`.
pub pad_size_lem :
    (x nearest : ℕ)
    → 0 < nearest
    → x + nearest < 2 ^ 64
    → (pad_size x nearest % nearest ≡ 0)
      × (x ≤ pad_size x nearest)
      × (pad_size x nearest < x + nearest)
unfolding pad_size
pad_size_lem x nearest pos fits = elim (Bool-cases (x % nearest == 0)) [
  | inl even ↦
      let none_over = (==_iff (x % nearest) 0).0 even in
      rw (even, small (x + 0) (omega arith)) (rw (plus_zero x) none_over, omega arith, omega arith)
  | inr odd ↦
      let over = mod-lt x pos in
      let ne : 0 < x % nearest = ground arith in
      rw (odd, small (x + (nearest - x % nearest)) (omega arith))
        (rounded x nearest over, omega arith, omega arith)
]
  where
    small : (n : ℕ) → n < 2 ^ 64 → n % 2 ^ 64 ≡ n
    small n h = mod-eq_of_lt h

    plus_zero : (n : ℕ) → n + 0 ≡ n
    plus_zero n = omega arith

    rounded : (n m : ℕ) → n % m < m → (n + (m - n % m)) % m ≡ 0
    rounded n m h =
        sym (mod-add-mod n m (m - n % m))
        ∙ ap (λ k. k % m) (let e : n % m + (m - n % m) ≡ m = omega arith in e)
        ∙ mod_self m

pub streq_iff : (a b : Chars) → (streq a b ≡ true) ↔ (a ≡ b)
unfolding streq
streq_iff [] [] = (λ _. refl, λ _. refl)
streq_iff [] (y ∷ ys) = (λ h. cc, λ e. cc)
streq_iff (x ∷ xs) [] = (λ h. cc, λ e. cc)
streq_iff (x ∷ xs) (y ∷ ys) = ground (arith, streq_iff xs ys, ==_iff x y)
