-- ===== src/Lexer/RoundTrip.antt =====
-- What `print_fragment` of bootstrap/lexer.c writes, `read_fragment` reads back.
use l.Prelude.{
  ℕ, zero, suc, ◌+◌, ◌*◌, ◌≤◌, ◌≡◌, refl, true, false, [], ◌∷◌, ◌++◌, Chars, length, length-append,
  arith, append_assoc, ◌∙◌,
}
use mathlib.Core.Bool.{and-eq-true_iff}
use l.Fragment.{Fragment, Fragments, var, token, group, nil, cons, print_fragment, print_elements}
use l.Result.{ok}
use l.Lexer.{
  isspace, ends_token, read_whitespace, read_token, opens_list, delimiter, bracket_elements,
  read_list, read_elements, read_fragment1, read_fragment2, read_fragment, enough_fuel,
}
use l.Lexer.Printed.{
  is_token_char, all_token_chars, is_printable, are_printable, stops, separates, not-ends_token,
  char_entry-token, not-opens_list, IsClear, IsClear-print, read_token_chars-print, need,
  need_elements, read_whitespace_idem, separates-false,
}

module _ (sz f : ℕ) (x : Fragment) (input rest : Chars) where
  read_fragment2-alone :
      read_fragment1 sz (suc f) input ≡ ok (x, rest)
      → separates (read_whitespace rest) ≡ false
      → read_fragment2 sz (suc (suc f)) input ≡ ok (x, read_whitespace rest)
  unfolding read_fragment2
  read_fragment2-alone h s = rw (h, (separates-false _ s).0)

  read_fragment-alone :
      read_fragment1 sz (suc f) input ≡ ok (x, rest)
      → separates (read_whitespace rest) ≡ false
      → read_fragment sz (suc (suc (suc f))) input ≡ ok (x, read_whitespace rest)
  unfolding read_fragment
  read_fragment-alone h s =
      rw (h, (separates-false _ s).0, read_whitespace_idem rest, (separates-false _ s).1)

read_fragment1-token :
    (c : ℕ) (cs : Chars) (sz f : ℕ) (rest : Chars)
    → all_token_chars (c ∷ cs) ≡ true
    → stops rest ≡ true
    → read_fragment1 sz (suc f) (c ∷ (cs ++ rest)) ≡ ok (token c cs, rest)
unfolding read_fragment1 read_token all_token_chars
read_fragment1-token c cs sz f rest h s =
    let (hc, hcs) = (and-eq-true_iff (is_token_char c) (all_token_chars cs)).0 h in
    rw (
      not-opens_list c hc,
      not-ends_token c hc,
      char_entry-token c hc,
      read_token_chars-print cs rest hcs s,
    )

read_fragment1-group :
    (sz f : ℕ) (xs : Fragments) (input rest : Chars)
    → read_elements sz f b')' input ≡ ok (xs, rest)
    → read_fragment1 sz (suc (suc f)) (b'(' ∷ input) ≡ ok (group xs, rest)
unfolding read_fragment1 read_list opens_list delimiter bracket_elements
read_fragment1-group sz f xs input rest h = rw h

read_elements-cons :
    (sz f : ℕ) (x : Fragment) (xs : Fragments) (input middle rest : Chars)
    → IsClear input
    → read_fragment sz f input ≡ ok (x, middle)
    → read_elements sz f b')' middle ≡ ok (xs, rest)
    → read_elements sz (suc f) b')' input ≡ ok (cons x xs, rest)
unfolding read_elements
read_elements-cons sz f x xs input middle rest clear h k = rw (clear.unspaced, clear.unclosed, h, k)

-- What follows an element is not skipped and is no separator.
after_element :
    (xs : Fragments) (rest : Chars)
    → are_printable xs ≡ true
    → let tail = print_elements xs ++ b')' ∷ rest in
      (read_whitespace tail ≡ tail) × (separates tail ≡ false)
unfolding print_elements read_whitespace are_printable separates isspace
after_element nil rest h = (refl, refl)
after_element (cons x xs) rest h =
    let clear =
      IsClear-print x (b' ' ∷ print_elements xs ++ b')' ∷ rest)
        ((and-eq-true_iff (is_printable x) (are_printable xs)).0 h).0 in
    (rw append_assoc clear.unspaced, rw append_assoc clear.unseparated)

read_whitespace-blank : (rest : Chars) → read_whitespace (b' ' ∷ rest) ≡ read_whitespace rest
unfolding read_whitespace isspace
read_whitespace-blank rest = refl

stops-blank : (rest : Chars) → stops (b' ' ∷ rest) ≡ true
unfolding stops ends_token
stops-blank rest = refl

read_elements-nil :
    (sz f : ℕ) (rest : Chars) → read_elements sz (suc f) b')' (b')' ∷ rest) ≡ ok (nil, rest)
unfolding read_elements read_whitespace isspace
read_elements-nil sz f rest = refl

mutual
  unfolding is_printable print_fragment need

  read_fragment1-print :
      (x : Fragment) (sz f : ℕ) (rest : Chars)
      → is_printable x ≡ true
      → stops rest ≡ true
      → need x ≤ f
      → read_fragment1 sz f (print_fragment x ++ rest) ≡ ok (x, rest)
  read_fragment1-print (var v) sz f rest h s n = cc
  read_fragment1-print (token c cs) sz zero rest h s n = absurd (omega arith)
  read_fragment1-print (token c cs) sz (suc f) rest h s n = read_fragment1-token c cs sz f rest h s
  read_fragment1-print (group xs) sz zero rest h s n = absurd (omega arith)
  read_fragment1-print (group xs) sz (suc zero) rest h s n = absurd (omega arith)
  read_fragment1-print (group xs) sz (suc (suc f)) rest h s n =
      rw append_assoc
        (read_fragment1-group sz f xs _ rest (read_elements-print xs sz f rest h (omega arith)))

  read_elements-print :
      (xs : Fragments) (sz f : ℕ) (rest : Chars)
      → are_printable xs ≡ true
      → need_elements xs ≤ f
      → read_elements sz f b')' (print_elements xs ++ b')' ∷ rest) ≡ ok (xs, rest)
  read_elements-print nil sz zero rest h n = absurd (omega arith)
  read_elements-print nil sz (suc f) rest h n = read_elements-nil sz f rest
  read_elements-print (cons x xs) sz (suc (suc (suc (suc f)))) rest h n =
      let (hx, hxs) = (and-eq-true_iff (is_printable x) (are_printable xs)).0 h in
      let tail = print_elements xs ++ b')' ∷ rest in
      let (unspaced, unseparated) = after_element xs rest hxs in
      let whole =
        read_fragment1-print x sz (suc f) (b' ' ∷ tail) hx (stops-blank tail) (omega arith) in
      let skipped = read_whitespace-blank tail ∙ unspaced in
      rw append_assoc (
        read_elements-cons sz (suc (suc (suc f))) x xs (print_fragment x ++ b' ' ∷ tail)
          (read_whitespace (b' ' ∷ tail)) rest (IsClear-print x (b' ' ∷ tail) hx)
          (read_fragment-alone sz f x (print_fragment x ++ b' ' ∷ tail) (b' ' ∷ tail) whole
            (rw skipped unseparated))
          (rw skipped (read_elements-print xs sz (suc (suc (suc f))) rest hxs (omega arith))))
  read_elements-print (cons x xs) sz f rest h n = absurd (omega arith)

mutual
  unfolding need print_fragment

  need-le : (x : Fragment) → need x + 3 ≤ 6 * length (print_fragment x)
  need-le (var v) = omega arith
  need-le (token c cs) = omega arith
  need-le (group xs) =
      omega (arith, need_elements-le xs, length-append (print_elements xs) (b')' ∷ []))

  need_elements-le : (xs : Fragments) → need_elements xs ≤ 6 * length (print_elements xs) + 1
  need_elements-le nil = omega arith
  need_elements-le (cons x xs) = omega (
    arith,
    need-le x,
    need_elements-le xs,
    length-append (print_fragment x) (b' ' ∷ print_elements xs),
  )

-- A printed fragment, without variables and with tokens of characters that a token may hold, is
-- read back, with any text behind it that does not continue it: text that starts with a character
-- which ends a token, or is empty, and, behind its white space, does not start with `:` or `;`. The
-- white space is consumed, and the rest left.
pub read_fragment-print :
    (x : Fragment) (sz : ℕ) (rest : Chars)
    → is_printable x ≡ true
    → stops rest ≡ true
    → separates (read_whitespace rest) ≡ false
    → read_fragment sz (enough_fuel (print_fragment x ++ rest)) (print_fragment x ++ rest)
      ≡ ok (x, read_whitespace rest)
read_fragment-print x sz rest h s c =
    let input = print_fragment x ++ rest in
    let fuel : enough_fuel input ≡ suc (suc (suc (suc (6 * length input + 2)))) = omega arith in
    rw fuel (
      read_fragment-alone sz (suc (6 * length input + 2)) x input rest
        (read_fragment1-print x sz (suc (suc (6 * length input + 2))) rest h s
          (omega (arith, need-le x, length-append (print_fragment x) rest)))
        c)
