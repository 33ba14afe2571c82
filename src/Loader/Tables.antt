-- ===== src/Loader/Tables.antt =====
-- The tables of symbols and relocations, read back by `read_object` of bootstrap/x86_64_object.c.
use l.Prelude.{
  ℕ, zero, suc, ◌+◌, ◌*◌, ◌<◌, ◌≡◌, refl, List, [], ◌∷◌, ◌++◌, length, length-append, arith, ap,
  ap₂, ◌∙◌, sym, append_assoc,
}
use mathlib.Core.List.{map}
use l.Result.{Result, ok}
use l.Assembler.{Bytes}
use l.Elf.Structures.{all_bytes}
use l.Loader.Read.{table_at}

module _ {ℓ} {A : Type ℓ} (f : A → Bytes) (k : ℕ) (entry : Bytes → ℕ → Result A) (cut : A → A)
    (size : (a : A) → length (f a) ≡ k)
    (entry-append : (xs : Bytes) (a : A) (rest : Bytes)
      → entry (xs ++ (f a ++ rest)) (length xs) ≡ ok (cut a)) where
  -- The first entries of a table are those that were written.
  pub table_at-all_bytes :
      (as' : List A) (file xs tail : Bytes) (i n count : ℕ) (rest : List A)
      → file ≡ xs ++ (all_bytes f as' ++ tail)
      → length xs ≡ k * i
      → count ≡ length as' + n
      → table_at (entry file) k n (i + length as') ≡ ok rest
      → table_at (entry file) k count i ≡ ok (map cut as' ++ rest)
  unfolding table_at all_bytes
  table_at-all_bytes [] file xs tail i n count rest e at c h =
      ap₂ (λ (c i : ℕ). table_at (entry file) k c i) (let same : count ≡ n = omega arith in same)
        (let same : i ≡ i + 0 = omega arith in same)
      ∙ h
  table_at-all_bytes (a ∷ as') file xs tail i n zero rest e at c h = absurd (omega arith)
  table_at-all_bytes (a ∷ as') file xs tail i n (suc count) rest e at c h =
      let later = all_bytes f as' ++ tail in
      let split : file ≡ xs ++ (f a ++ later) =
        e ∙ ap (λ (bs : Bytes). xs ++ bs) (append_assoc (f a) (all_bytes f as') tail) in
      let head : entry file (k * i) ≡ ok (cut a) =
        ap₂ (λ (bs : Bytes) (n : ℕ). entry bs n) split (sym at) ∙ entry-append xs a later in
      let tail_read : table_at (entry file) k count (suc i) ≡ ok (map cut as' ++ rest) =
        table_at-all_bytes as' file (xs ++ f a) tail (suc i) n count rest
          (split ∙ sym (append_assoc xs (f a) later))
          (length-append xs (f a) ∙ (let s = size a in grind arith)) (omega arith)
          (ap (λ (j : ℕ). table_at (entry file) k n j)
              (let same : suc i + length as' ≡ i + suc (length as') = omega arith in same)
            ∙ h) in
      rw (head, tail_read) refl

  -- A table can be read where each of its entries can.
  pub table_at_ok :
      (file : Bytes) (n i : ℕ)
      → ((j : ℕ) → j < i + n → (a : A) × (entry file (k * j) ≡ ok a))
      → (rest : List A) × (table_at (entry file) k n i ≡ ok rest)
  unfolding table_at
  table_at_ok file zero i h = ([], refl)
  table_at_ok file (suc n) i h =
      let (a, e) = h i (omega arith) in
      let (rest, e') = table_at_ok file n (suc i) (λ j lt. h j (omega arith)) in
      (a ∷ rest, rw (e, e') refl)
