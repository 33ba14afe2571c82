-- ===== src/Interface.antt =====
-- bootstrap/x86_64_linux_interface.c: strings, decimal numbers and sizes. A `char *` that is read up
-- to its zero is the list of the characters before it.
pub mod Numbers
use l.Prelude.{
  ℕ, zero, suc, ◌+◌, ◌-◌, ◌*◌, ◌/◌, ◌%◌, ◌^◌, Bool, true, false, [], ◌∷◌, Chars, ◌==◌, ◌&&◌,
  if◌then◌else◌,
}

-- `!strcmp(s1, s2)`, the only way that the compiler uses `strcmp`.
unfoldable pub streq : Chars → Chars → Bool
streq [] [] = true
streq (x ∷ xs) (y ∷ ys) = (x == y) && streq xs ys
streq _ _ = false

-- The loop of `ulong_to_str`: `slots` bytes of the buffer are left in front of `str`.
unfoldable pub ulong_digits : ℕ → ℕ → Chars → Chars
ulong_digits zero i str = str
ulong_digits (suc slots) i str =
    let rest = ulong_digits slots (i / 10) ((b'0' + i % 10) ∷ str) in if i == 0 then str else rest

unfoldable pub ulong_to_str : ℕ → Chars
unfolding ulong_digits
ulong_to_str i = ulong_digits 20 i []

-- `unsigned long` arithmetic wraps at `2 ^ 64`.
unfoldable pub pad_size : ℕ → ℕ → ℕ
pad_size x nearest = let rem = x % nearest in (x + (if rem == 0 then 0 else nearest - rem)) % 2 ^ 64
