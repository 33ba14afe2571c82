-- ===== src/Lexer/Printed.antt =====
-- The text that `print_fragment` of bootstrap/lexer.c writes, and what the reader sees of it.
use l.Prelude.{
  ℕ, ◌+◌, ◌≤◌, ◌≡◌, refl, Bool, true, false, [], ◌∷◌, ◌++◌, Chars, not, ltb, arith, ◌==◌, ◌&&◌,
  ◌||◌, Bool-cases, inl, inr,
}
use mathlib.Core.Bool.{and-eq-true_iff}
use l.Fragment.{Fragment, Fragments, var, token, group, nil, cons, print_fragment, print_elements}
use l.Result.{ok}
use l.Lexer.{
  isspace, is_punctuation, ends_token, char_entry, read_whitespace, read_token_chars, opens_list,
  starts_with,
}

-- The characters that a token may hold.
unfoldable pub is_token_char : ℕ → Bool
unfolding is_punctuation
is_token_char c = ltb 0x20 c && ltb c 127 && not (is_punctuation c)

unfoldable pub all_token_chars : Chars → Bool
unfolding is_token_char
all_token_chars [] = true
all_token_chars (c ∷ cs) = is_token_char c && all_token_chars cs

-- A fragment that has no variable and whose tokens could have been read.
unfoldable mutual
  unfolding all_token_chars

  pub is_printable : Fragment → Bool
  is_printable (var v) = false
  is_printable (token c cs) = all_token_chars (c ∷ cs)
  is_printable (group xs) = are_printable xs

  pub are_printable : Fragments → Bool
  are_printable nil = true
  are_printable (cons x xs) = is_printable x && are_printable xs

-- What follows a token: nothing, or a character that ends it.
unfoldable pub stops : Chars → Bool
stops [] = true
stops (c ∷ rest) = ends_token c

-- What follows a fragment does not make it a sublist.
unfoldable pub separates : Chars → Bool
unfolding starts_with
separates rest = starts_with b';' rest || starts_with b':' rest

pub not-ends_token : (c : ℕ) → is_token_char c ≡ true → ends_token c ≡ false
unfolding is_token_char ends_token
not-ends_token c h = ground arith

pub char_entry-token : (c : ℕ) → is_token_char c ≡ true → char_entry c ≡ ok c
unfolding is_token_char char_entry
char_entry-token c h = ground arith

pub not-opens_list : (c : ℕ) → is_token_char c ≡ true → opens_list c ≡ false
unfolding is_token_char opens_list
not-opens_list c h = ground arith

not-isspace : (c : ℕ) → is_token_char c ≡ true → isspace c ≡ false
unfolding is_token_char isspace
not-isspace c h = ground arith

-- A token character, or the bracket that opens a printed list.
begins : ℕ → Bool
begins c = is_token_char c || c == b'('

begins-facts :
    (c : ℕ)
    → begins c ≡ true
    → (isspace c ≡ false) × ((c == b')') ≡ false) × ((c == b';') ≡ false) × ((c == b':') ≡ false)
unfolding begins is_token_char isspace
begins-facts c h = ground arith

starts_with-print :
    (x : Fragment) (rest : Chars)
    → is_printable x ≡ true
    → (c : ℕ) × (tail : Chars) × (print_fragment x ++ rest ≡ c ∷ tail) × (begins c ≡ true)
unfolding is_printable print_fragment begins
starts_with-print (var v) rest h = cc
starts_with-print (token c cs) rest h =
    (c, cs ++ rest, refl, ground (arith, and-eq-true_iff (is_token_char c) (all_token_chars cs)))
starts_with-print (group xs) rest h = (b'(', (print_elements xs ++ b')' ∷ []) ++ rest, refl, refl)

-- Characters that the reader does not skip or take for punctuation.
pub record IsClear (r : Chars) : Type 0 where
  pub unspaced : read_whitespace r ≡ r
  pub unclosed : starts_with b')' r ≡ false
  pub unseparated : separates r ≡ false

IsClear-begins : (c : ℕ) (tail : Chars) → begins c ≡ true → IsClear (c ∷ tail)
unfolding read_whitespace starts_with separates
IsClear-begins c tail h =
    let (s, p, q, t) = begins-facts c h in
    record { unspaced = rw s; unclosed = p; unseparated = rw (q, t) }

pub IsClear-print :
    (x : Fragment) (rest : Chars) → is_printable x ≡ true → IsClear (print_fragment x ++ rest)
IsClear-print x rest h =
    let (c, tail, e, b) = starts_with-print x rest h in rw e (IsClear-begins c tail b)

pub read_token_chars-print :
    (cs rest : Chars)
    → all_token_chars cs ≡ true
    → stops rest ≡ true
    → read_token_chars (cs ++ rest) ≡ ok (cs, rest)
unfolding all_token_chars stops read_token_chars
read_token_chars-print [] [] h s = refl
read_token_chars-print [] (c ∷ rest) h s = rw s
read_token_chars-print (c ∷ cs) rest h s =
    let (hc, hcs) = (and-eq-true_iff _ _).0 h in
    rw (not-ends_token c hc, char_entry-token c hc, read_token_chars-print cs rest hcs s)

-- The fuel that a printed fragment takes.
unfoldable mutual
  pub need : Fragment → ℕ
  need (var v) = 1
  need (token c cs) = 1
  need (group xs) = 2 + need_elements xs

  pub need_elements : Fragments → ℕ
  need_elements nil = 1
  need_elements (cons x xs) = 4 + need x + need_elements xs

need-pos : (x : Fragment) → 1 ≤ need x
unfolding need
need-pos (var v) = omega arith
need-pos _ = omega arith

pub read_whitespace_idem :
    (rest : Chars) → read_whitespace (read_whitespace rest) ≡ read_whitespace rest
unfolding read_whitespace
read_whitespace_idem [] = refl
read_whitespace_idem (c ∷ rest) = elim (Bool-cases (isspace c)) [
  | inl space ↦ rw space (read_whitespace_idem rest)
  | inr other ↦ rw (other, read_whitespace, other)
]

pub separates-false :
    (rest : Chars)
    → separates rest ≡ false
    → (starts_with b';' rest ≡ false) × (starts_with b':' rest ≡ false)
unfolding separates
separates-false rest h = ground arith
