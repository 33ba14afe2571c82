-- ===== src/Lexer.antt =====
-- bootstrap/lexer.c: the character table and the recursive-descent reader of fragments; `isspace`
-- of bootstrap/x86_64_linux_interface.c. The cursor `*pos` is modelled by the characters from
-- `l2src[*pos]` up to the end of the buffer, so `*pos` is `l2src_sz - length rest`.
pub mod Total
pub mod Errors
pub mod Printed
pub mod RoundTrip
use l.Prelude.{
  ℕ, zero, suc, ◌+◌, ◌-◌, ◌*◌, Bool, true, false, [], ◌∷◌, ◌||◌, ◌&&◌, Chars, ◌==◌, ltb, leb,
  if◌then◌else◌, codes, length,
}
use l.Fragment.{Fragment, Fragments, token, group, nil, cons}
use l.Result.{Result, ok, thrown, undefined, out_of_fuel, ◌>>=◌, Error, unexpected_character}

unfoldable pub isspace : ℕ → Bool
isspace c = c == 0x20 || c == 0x0c || c == 0x0a || c == 0x0d || c == 0x09 || c == 0x0b

-- The brackets and separators of the tests in `read_token`.
unfoldable pub is_punctuation : ℕ → Bool
is_punctuation c =
    c == b'('
    || c == b')'
    || c == b'{'
    || c == b'}'
    || c == b'['
    || c == b']'
    || c == b':'
    || c == b';'

-- The condition that keeps a character out of a token.
unfoldable pub ends_token : ℕ → Bool
unfolding isspace is_punctuation
ends_token c = isspace c || is_punctuation c

-- The table `chars`: an entry for each ASCII code, all zero for a code that no token may hold. A
-- code from 128 up is a negative `char`, and reads before the table.
unfoldable pub char_entry : ℕ → Result ℕ
unfolding is_punctuation
char_entry d =
    if ltb d 128
    then ok (if leb d 0x20 || is_punctuation d || d == 127 then 0 else d)
    else undefined

-- `throw_unexpected_character(c, *pos, handler)`
abbrev pub unexpected {ℓ} : {A : Type ℓ} → (sz c : ℕ) (rest : Chars) → Result A
unexpected sz c rest = thrown (unexpected_character c (sz - length rest))

unfoldable pub read_whitespace : Chars → Chars
unfolding isspace
read_whitespace [] = []
read_whitespace (c ∷ rest) = if isspace c then read_whitespace rest else c ∷ rest

-- What `build_token` makes of a string literal.
abbrev pub jump_token : Fragment
jump_token = token b'j' (codes "ump")

abbrev pub invoke_token : Fragment
invoke_token = token b'i' (codes "nvoke")

-- The rounds of the loop of `read_token` after the first.
unfoldable pub read_token_chars : Chars → Result (Chars × Chars)
unfolding ends_token char_entry
read_token_chars [] = ok ([], [])
read_token_chars (c ∷ rest) =
    if ends_token c
    then ok ([], c ∷ rest)
    else (do a ← char_entry c; (l, r) ← read_token_chars rest; ok (a ∷ l, r))

unfoldable pub read_token : ℕ → Chars → Result (Fragment × Chars)
unfolding ends_token char_entry read_token_chars
read_token sz [] = unexpected sz 0 []
read_token sz (c ∷ rest) =
    if ends_token c
    then unexpected sz c (c ∷ rest)
    else (do a ← char_entry c; (l, r) ← read_token_chars rest; ok (token a l, r))

unfoldable pub opens_list : ℕ → Bool
opens_list c = c == b'(' || c == b'{' || c == b'['

unfoldable pub delimiter : ℕ → ℕ
delimiter c = if c == b'{' then b'}' else if c == b'[' then b']' else b')'

-- The element that a bracket puts in front.
unfoldable pub bracket_elements : ℕ → Fragments → Fragments
bracket_elements c xs =
    if c == b'{' then cons jump_token xs else if c == b'[' then cons invoke_token xs else xs

-- A list of one element is that element.
unfoldable pub collapse : Fragment → Fragments → Fragment
collapse x nil = x
collapse x (cons y ys) = group (cons x (cons y ys))

unfoldable pub starts_with : ℕ → Chars → Bool
starts_with d [] = false
starts_with d (c ∷ rest) = c == d

unfoldable pub drop_first : Chars → Chars
drop_first [] = []
drop_first (c ∷ rest) = rest

-- Each call takes a unit of fuel; `Total` shows how much is enough.
unfoldable mutual
  unfolding read_whitespace read_token opens_list delimiter bracket_elements collapse starts_with
      drop_first

  pub read_list : ℕ → ℕ → Chars → Result (Fragment × Chars)
  read_list sz zero rest = out_of_fuel
  read_list sz (suc f) [] = unexpected sz 0 []
  read_list sz (suc f) (c ∷ rest) =
      if opens_list c
      then (do
        (xs, r) ← read_elements sz f (delimiter c) rest
        ok (group (bracket_elements c xs), r))
      else unexpected sz c (c ∷ rest)

  -- The `for(;;)` loop of `read_list`.
  pub read_elements : ℕ → ℕ → ℕ → Chars → Result (Fragments × Chars)
  read_elements sz zero d rest = out_of_fuel
  read_elements sz (suc f) d rest =
      let more = (do
        (x, r) ← read_fragment sz f (read_whitespace rest)
        (xs, r') ← read_elements sz f d r
        ok (cons x xs, r')) in
      if starts_with d (read_whitespace rest)
      then ok (nil, drop_first (read_whitespace rest))
      else more

  pub read_fragment1 : ℕ → ℕ → Chars → Result (Fragment × Chars)
  read_fragment1 sz zero rest = out_of_fuel
  read_fragment1 sz (suc f) [] = unexpected sz 0 []
  read_fragment1 sz (suc f) (c ∷ rest) =
      let in_list = read_list sz f (c ∷ rest) in
      if opens_list c then in_list else read_token sz (c ∷ rest)

  pub read_fragment2 : ℕ → ℕ → Chars → Result (Fragment × Chars)
  read_fragment2 sz zero rest = out_of_fuel
  read_fragment2 sz (suc f) rest = do
    (x, r) ← read_fragment1 sz f rest
    (xs, r') ← read_subsublist sz f r
    ok (collapse x xs, r')

  -- The loop of `read_fragment2`, on `;`.
  pub read_subsublist : ℕ → ℕ → Chars → Result (Fragments × Chars)
  read_subsublist sz zero rest = out_of_fuel
  read_subsublist sz (suc f) rest =
      let more = (do
        (x, r) ← read_fragment1 sz f (read_whitespace (drop_first (read_whitespace rest)))
        (xs, r') ← read_subsublist sz f r
        ok (cons x xs, r')) in
      if starts_with b';' (read_whitespace rest) then more else ok (nil, read_whitespace rest)

  pub read_fragment : ℕ → ℕ → Chars → Result (Fragment × Chars)
  read_fragment sz zero rest = out_of_fuel
  read_fragment sz (suc f) rest = do
    (x, r) ← read_fragment2 sz f rest
    (xs, r') ← read_sublist sz f r
    ok (collapse x xs, r')

  -- The loop of `read_fragment`, on `:`.
  pub read_sublist : ℕ → ℕ → Chars → Result (Fragments × Chars)
  read_sublist sz zero rest = out_of_fuel
  read_sublist sz (suc f) rest =
      let more = (do
        (x, r) ← read_fragment2 sz f (read_whitespace (drop_first (read_whitespace rest)))
        (xs, r') ← read_sublist sz f r
        ok (cons x xs, r')) in
      if starts_with b':' (read_whitespace rest) then more else ok (nil, read_whitespace rest)

-- Fuel that is enough for any input, by `Total`.
abbrev pub enough_fuel : Chars → ℕ
enough_fuel rest = 6 * length rest + 6
