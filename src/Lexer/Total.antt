-- ===== src/Lexer/Total.antt =====
-- The reader of bootstrap/lexer.c on every input: its fuel suffices, it consumes characters, and
-- its cursor stays inside the buffer.
use l.Prelude.{
  ℕ, zero, suc, ◌+◌, ◌-◌, ◌*◌, ◌≤◌, ◌<◌, ◌≡◌, refl, true, [], ◌∷◌, ◌++◌, Chars, length, arith,
  append_assoc, inl, inr, Bool-cases, ◌∙◌, ltb,
}
use l.Result.{
  thrown, Error, unexpected_character, Ensures, returns, throws, faults, Ensures-if, Ensures-bind,
}
use l.Lexer.{
  isspace, ends_token, char_entry, read_whitespace, read_token_chars, read_token, opens_list,
  delimiter, starts_with, drop_first, read_list, read_elements, read_fragment1, read_fragment2,
  read_subsublist, read_fragment, read_sublist, enough_fuel,
}

-- `rest` is what the cursor has left of the buffer `src`.
pub record IsSuffix (src rest : Chars) : Type 0 where
  pub consumed : Chars
  pub splits : src ≡ consumed ++ rest

abbrev pub first_or_zero : Chars → ℕ
first_or_zero [] = 0
first_or_zero (c ∷ rest) = c

-- The error names a place of the buffer and the character there, 0 at the end.
pub record AtPlace (src : Chars) (sz : ℕ) (e : Error) : Type 0 where
  pub rest : Chars
  pub inside : IsSuffix src rest
  pub names : e ≡ unexpected_character (first_or_zero rest) (sz - length rest)

-- A character of 128 or more stands in the buffer.
pub record IsWide (src : Chars) : Type 0 where
  pub character : ℕ
  pub behind : Chars
  pub inside : IsSuffix src (character ∷ behind)
  pub wide : 128 ≤ character

pub IsSuffix-refl : (src : Chars) → IsSuffix src src
IsSuffix-refl src = record { consumed = []; splits = refl }

pub IsSuffix-tail : {src rest : Chars} (c : ℕ) → IsSuffix src (c ∷ rest) → IsSuffix src rest
IsSuffix-tail {rest} c s = record {
  consumed = s.consumed ++ c ∷ [];
  splits = s.splits ∙ simp (append_assoc);
}

IsSuffix-whitespace :
    {src : Chars} (rest : Chars) → IsSuffix src rest → IsSuffix src (read_whitespace rest)
unfolding read_whitespace
IsSuffix-whitespace [] s = s
IsSuffix-whitespace (c ∷ rest) s = elim (Bool-cases (isspace c)) [
  | inl space ↦ rw space (IsSuffix-whitespace rest (IsSuffix-tail c s))
  | inr other ↦ rw other s
]

length-whitespace : (rest : Chars) → length (read_whitespace rest) ≤ length rest
unfolding read_whitespace
length-whitespace [] = omega arith
length-whitespace (c ∷ rest) = ground (arith, length-whitespace rest)

IsSuffix-drop_first :
    {src : Chars} (rest : Chars) → IsSuffix src rest → IsSuffix src (drop_first rest)
unfolding drop_first
IsSuffix-drop_first [] s = s
IsSuffix-drop_first (c ∷ rest) s = IsSuffix-tail c s

length-drop_first :
    (d : ℕ) (rest : Chars) → starts_with d rest ≡ true → length (drop_first rest) < length rest
unfolding drop_first starts_with
length-drop_first d [] h = cc
length-drop_first d (c ∷ rest) h = omega arith

-- A call that starts at `rest` and leaves `r`: the cursor moved on, or at least not back.
abbrev pub Consumes : Chars → Chars → Chars → Type 0
Consumes src rest r = IsSuffix src r × (length r < length rest)

abbrev Advances : Chars → Chars → Chars → Type 0
Advances src rest r = IsSuffix src r × (length r ≤ length rest)

module _ (src : Chars) (sz : ℕ) where
  unexpected-Ensures {ℓ} :
      {A : Type ℓ} {P : A → Type 0} (rest : Chars)
      → IsSuffix src rest
      → Ensures P
          (AtPlace src sz)
          (IsWide src)
          (thrown (unexpected_character (first_or_zero rest) (sz - length rest)))
  unexpected-Ensures rest s = throws (record { rest = rest; inside = s; names = refl })

  char_entry-Ensures :
      (c : ℕ) (rest : Chars)
      → IsSuffix src (c ∷ rest)
      → Ensures (λ _. Unit {0}) (AtPlace src sz) (IsWide src) (char_entry c)
  unfolding char_entry
  char_entry-Ensures c rest s =
      Ensures-if (ltb c 128) (λ _. returns tt)
        (λ past. faults (record { character = c; behind = rest; inside = s; wide = ground arith }))

  read_token_chars-Ensures :
      (rest : Chars)
      → IsSuffix src rest
      → Ensures
          (λ (l, r). Advances src rest r)
          (AtPlace src sz)
          (IsWide src)
          (read_token_chars rest)
  unfolding read_token_chars
  read_token_chars-Ensures [] s = returns (s, omega arith)
  read_token_chars-Ensures (c ∷ rest) s =
      Ensures-if (ends_token c) (λ _. returns (s, omega arith))
        λ _. Ensures-bind (char_entry-Ensures c rest s) λ a _.
          Ensures-bind (read_token_chars-Ensures rest (IsSuffix-tail c s))
            λ (l, r) (s', le). returns (s', omega arith)

  read_token-Ensures :
      (rest : Chars)
      → IsSuffix src rest
      → Ensures (λ (d, r). Consumes src rest r) (AtPlace src sz) (IsWide src) (read_token sz rest)
  unfolding read_token
  read_token-Ensures [] s = unexpected-Ensures [] s
  read_token-Ensures (c ∷ rest) s =
      Ensures-if (ends_token c) (λ _. unexpected-Ensures (c ∷ rest) s)
        λ _. Ensures-bind (char_entry-Ensures c rest s) λ a _.
          Ensures-bind (read_token_chars-Ensures rest (IsSuffix-tail c s))
            λ (l, r) (s', le). returns (s', omega arith)

mutual
  unfolding read_fragment

  read_list-Ensures :
      (src : Chars) (sz f : ℕ) (rest : Chars)
      → IsSuffix src rest
      → 6 * length rest < f
      → Ensures (λ (d, r). Consumes src rest r) (AtPlace src sz) (IsWide src) (read_list sz f rest)
  read_list-Ensures src sz zero rest s h = absurd (omega arith)
  read_list-Ensures src sz (suc f) [] s h = unexpected-Ensures src sz [] s
  read_list-Ensures src sz (suc f) (c ∷ rest) s h =
      Ensures-if (opens_list c)
        (λ _.
          Ensures-bind
            (read_elements-Ensures src sz f (delimiter c) rest (IsSuffix-tail c s) (omega arith))
            λ (xs, r) (s', lt). returns (s', omega arith))
        (λ _. unexpected-Ensures src sz (c ∷ rest) s)

  read_elements-Ensures :
      (src : Chars) (sz f d : ℕ) (rest : Chars)
      → IsSuffix src rest
      → 6 * length rest + 4 < f
      → Ensures
          (λ (xs, r). Consumes src rest r)
          (AtPlace src sz)
          (IsWide src)
          (read_elements sz f d rest)
  read_elements-Ensures src sz zero d rest s h = absurd (omega arith)
  read_elements-Ensures src sz (suc f) d rest s h =
      let spaced = IsSuffix-whitespace rest s in
      Ensures-if (starts_with d (read_whitespace rest))
        (λ found. returns (
          IsSuffix-drop_first _ spaced,
          omega (arith, length-whitespace rest, length-drop_first d (read_whitespace rest) found),
        ))
        (λ _.
          Ensures-bind
            (read_fragment-Ensures src sz f (read_whitespace rest) spaced
              (omega (arith, length-whitespace rest)))
            λ (x, r) (s', lt).
              Ensures-bind
                (read_elements-Ensures src sz f d r s' (omega (arith, length-whitespace rest)))
                λ (xs, r') (s'', lt'). returns (s'', omega (arith, length-whitespace rest)))

  read_fragment1-Ensures :
      (src : Chars) (sz f : ℕ) (rest : Chars)
      → IsSuffix src rest
      → 6 * length rest + 1 < f
      → Ensures
          (λ (d, r). Consumes src rest r)
          (AtPlace src sz)
          (IsWide src)
          (read_fragment1 sz f rest)
  read_fragment1-Ensures src sz zero rest s h = absurd (omega arith)
  read_fragment1-Ensures src sz (suc f) [] s h = unexpected-Ensures src sz [] s
  read_fragment1-Ensures src sz (suc f) (c ∷ rest) s h =
      Ensures-if (opens_list c) (λ _. read_list-Ensures src sz f (c ∷ rest) s (omega arith))
        (λ _. read_token-Ensures src sz (c ∷ rest) s)

  read_fragment2-Ensures :
      (src : Chars) (sz f : ℕ) (rest : Chars)
      → IsSuffix src rest
      → 6 * length rest + 2 < f
      → Ensures
          (λ (d, r). Consumes src rest r)
          (AtPlace src sz)
          (IsWide src)
          (read_fragment2 sz f rest)
  read_fragment2-Ensures src sz zero rest s h = absurd (omega arith)
  read_fragment2-Ensures src sz (suc f) rest s h =
      Ensures-bind (read_fragment1-Ensures src sz f rest s (omega arith)) λ (x, r) (s', lt).
        Ensures-bind (read_subsublist-Ensures src sz f r s' (omega arith))
          λ (xs, r') (s'', le). returns (s'', omega arith)

  read_subsublist-Ensures :
      (src : Chars) (sz f : ℕ) (rest : Chars)
      → IsSuffix src rest
      → 6 * length rest < f
      → Ensures
          (λ (xs, r). Advances src rest r)
          (AtPlace src sz)
          (IsWide src)
          (read_subsublist sz f rest)
  read_subsublist-Ensures src sz zero rest s h = absurd (omega arith)
  read_subsublist-Ensures src sz (suc f) rest s h =
      let spaced = IsSuffix-whitespace rest s in
      Ensures-if (starts_with b';' (read_whitespace rest))
        (λ found.
          let after = read_whitespace (drop_first (read_whitespace rest)) in
          let shorter : length after < length rest = omega (
            arith,
            length-whitespace rest,
            length-drop_first b';' (read_whitespace rest) found,
            length-whitespace (drop_first (read_whitespace rest)),
          ) in
          Ensures-bind
            (read_fragment1-Ensures src sz f after
              (IsSuffix-whitespace _ (IsSuffix-drop_first _ spaced)) (omega arith))
            λ (x, r) (s', lt).
              Ensures-bind (read_subsublist-Ensures src sz f r s' (omega arith))
                λ (xs, r') (s'', le). returns (s'', omega arith))
        (λ _. returns (spaced, length-whitespace rest))

  read_fragment-Ensures :
      (src : Chars) (sz f : ℕ) (rest : Chars)
      → IsSuffix src rest
      → 6 * length rest + 3 < f
      → Ensures
          (λ (d, r). Consumes src rest r)
          (AtPlace src sz)
          (IsWide src)
          (read_fragment sz f rest)
  read_fragment-Ensures src sz zero rest s h = absurd (omega arith)
  read_fragment-Ensures src sz (suc f) rest s h =
      Ensures-bind (read_fragment2-Ensures src sz f rest s (omega arith)) λ (x, r) (s', lt).
        Ensures-bind (read_sublist-Ensures src sz f r s' (omega arith))
          λ (xs, r') (s'', le). returns (s'', omega arith)

  read_sublist-Ensures :
      (src : Chars) (sz f : ℕ) (rest : Chars)
      → IsSuffix src rest
      → 6 * length rest < f
      → Ensures
          (λ (xs, r). Advances src rest r)
          (AtPlace src sz)
          (IsWide src)
          (read_sublist sz f rest)
  read_sublist-Ensures src sz zero rest s h = absurd (omega arith)
  read_sublist-Ensures src sz (suc f) rest s h =
      let spaced = IsSuffix-whitespace rest s in
      Ensures-if (starts_with b':' (read_whitespace rest))
        (λ found.
          let after = read_whitespace (drop_first (read_whitespace rest)) in
          let shorter : length after < length rest = omega (
            arith,
            length-whitespace rest,
            length-drop_first b':' (read_whitespace rest) found,
            length-whitespace (drop_first (read_whitespace rest)),
          ) in
          Ensures-bind
            (read_fragment2-Ensures src sz f after
              (IsSuffix-whitespace _ (IsSuffix-drop_first _ spaced)) (omega arith))
            λ (x, r) (s', lt).
              Ensures-bind (read_sublist-Ensures src sz f r s' (omega arith))
                λ (xs, r') (s'', le). returns (s'', omega arith))
        (λ _. returns (spaced, length-whitespace rest))

-- At any place of the buffer, with `enough_fuel`, `read_fragment` either reads a fragment and
-- leaves a shorter rest of the buffer, or throws the error for a place of the buffer, or is undefined,
-- and then a character of 128 or more stands in the buffer.
pub read_fragment-Consumes :
    (src : Chars) (sz : ℕ) (rest : Chars)
    → IsSuffix src rest
    → Ensures
        (λ (d, r). Consumes src rest r)
        (AtPlace src sz)
        (IsWide src)
        (read_fragment sz (enough_fuel rest) rest)
read_fragment-Consumes src sz rest s =
    read_fragment-Ensures src sz (enough_fuel rest) rest s (omega arith)
