-- ===== src/Lexer/Errors.antt =====
-- The errors that the reader of bootstrap/lexer.c throws.
use l.Prelude.{
  ℕ, ◌-◌, ◌≡◌, refl, [], ◌∷◌, ◌++◌, Chars, length, get_elem?, length-append, arith, some, ◌⊎◌, inl,
  inr,
}
use l.Result.{thrown, Error, unexpected_character, Ensures-thrown}
use l.Lexer.{read_fragment, enough_fuel}
use l.Lexer.Total.{IsSuffix, first_or_zero, read_fragment-Consumes}

-- The character `c` stands at `p` of the buffer, or `p` is its end and `c` is 0.
abbrev pub StandsAt : Chars → ℕ → ℕ → Type 0
StandsAt src p c = (get_elem? src p ≡ some c) ⊎ ((p ≡ length src) × (c ≡ 0))

get_elem?-length : (pre rest : Chars) (c : ℕ) → get_elem? (pre ++ c ∷ rest) (length pre) ≡ some c
get_elem?-length [] rest c = refl
get_elem?-length (x ∷ pre) rest c = get_elem?-length pre rest c

StandsAt-split :
    (pre rest : Chars)
    → StandsAt (pre ++ rest) (length (pre ++ rest) - length rest) (first_or_zero rest)
StandsAt-split pre [] = inr (omega arith, refl)
StandsAt-split pre (c ∷ rest) =
    let place : length (pre ++ c ∷ rest) - length (c ∷ rest) ≡ length pre =
      omega (arith, length-append pre (c ∷ rest)) in
    inl (rw place (get_elem?-length pre rest c))

StandsAt-suffix :
    {src rest : Chars}
    → IsSuffix src rest
    → StandsAt src (length src - length rest) (first_or_zero rest)
StandsAt-suffix {rest} s = rw s.splits (StandsAt-split s.consumed rest)

-- What `read_fragment` throws on a buffer of its stated size names a position of the buffer and the
-- character that stands there, or its end and 0.
pub read_fragment-position :
    (src : Chars) (sz : ℕ) (rest : Chars) (e : Error)
    → sz ≡ length src
    → IsSuffix src rest
    → read_fragment sz (enough_fuel rest) rest ≡ thrown e
    → (c p : ℕ) × (e ≡ unexpected_character c p) × StandsAt src p c
read_fragment-position src sz rest e size s h =
    let place = Ensures-thrown (read_fragment-Consumes src sz rest s) h in
    (
      first_or_zero place.rest,
      sz - length place.rest,
      place.names,
      rw size (StandsAt-suffix place.inside),
    )
