-- ===== src/Elf/Layout.antt =====
-- Where `write_elf` of bootstrap/x86_64_assembler.c puts the sections, and that the file fits the
-- buffer of `max_elf_size` bytes.
use l.Prelude.{
  ℕ, zero, suc, ◌+◌, ◌-◌, ◌*◌, ◌≤◌, ◌≡◌, refl, ◌∙◌, sym, ap, List, [], ◌∷◌, ◌++◌, append_assoc,
  length, length-append, take, drop, arith,
}
use native.Mathlib.Nat.{mul-zero, mul-suc}
use l.Assembler.{Bytes, Binding, mem_write, Rela}
use l.Elf.{Sym}
use l.Elf.Structures.{
  Shdr, shdr_bytes, sym_bytes, rela_bytes, all_bytes, ehdr_bytes, strvlen, shstrtab, set_st_value,
  set_label_values, unset, buffer,
}

drop-length : (xs ys : Bytes) → drop (length xs) (xs ++ ys) ≡ ys
drop-length [] ys = refl
drop-length (x ∷ xs) ys = drop-length xs ys

take-length : (xs ys : Bytes) → take (length xs) (xs ++ ys) ≡ xs
take-length [] ys = refl
take-length (x ∷ xs) ys = ap (λ zs. x ∷ zs) (take-length xs ys)

-- What stands in a file behind a front of known length.
pub found :
    (offset : ℕ) (file front x rest : Bytes)
    → offset ≡ length front
    → file ≡ front ++ (x ++ rest)
    → take (length x) (drop offset file) ≡ x
found offset file front x rest place split =
    rw (place, split, drop-length front (x ++ rest), take-length x rest) refl

regroup : (front x y : Bytes) → front ++ (x ++ y) ≡ (front ++ x) ++ y
regroup front x y = sym (append_assoc front x y)

module _ (garbage : ℕ → ℕ) where
  length-unset : (k : ℕ) → length (unset garbage k) ≡ k
  unfolding unset
  length-unset zero = refl
  length-unset (suc k) = ap suc (length-unset k)

  pub length-buffer :
      (size : ℕ) (bs : Bytes) → length bs ≤ size → length (buffer garbage size bs) ≡ size
  unfolding buffer
  length-buffer size bs fits =
      omega (
        arith,
        length-append bs (unset garbage (size - length bs)),
        length-unset (size - length bs),
      )

pub length-all_bytes {ℓ} :
    {A : Type ℓ} (f : A → Bytes) (k : ℕ)
    → ((x : A) → length (f x) ≡ k)
    → (xs : List A) → length (all_bytes f xs) ≡ k * length xs
unfolding all_bytes
length-all_bytes f k each [] = sym (mul-zero k)
length-all_bytes f k each (x ∷ xs) = omega (
  arith,
  length-append (f x) (all_bytes f xs),
  each x,
  mul-suc k (length xs),
  length-all_bytes f k each xs,
)

pub length-shdr_bytes : (h : Shdr) → length (shdr_bytes h) ≡ 64
unfolding shdr_bytes mem_write
length-shdr_bytes h = refl

pub length-sym_bytes : (s : Sym) → length (sym_bytes s) ≡ 24
unfolding sym_bytes mem_write
length-sym_bytes s = refl

pub length-rela_bytes : (r : Rela) → length (rela_bytes r) ≡ 24
unfolding rela_bytes mem_write
length-rela_bytes r = refl

pub length-ehdr_bytes : length ehdr_bytes ≡ 64
unfolding ehdr_bytes mem_write
length-ehdr_bytes = refl

pub length-shstrtab : length (take (strvlen shstrtab) shstrtab) ≡ strvlen shstrtab
unfolding strvlen
length-shstrtab = refl

pub strvlen-shstrtab : strvlen shstrtab ≡ 49
unfolding strvlen
strvlen-shstrtab = refl

length-set_st_value : (i v : ℕ) (syms : List Sym) → length (set_st_value i v syms) ≡ length syms
unfolding set_st_value
length-set_st_value i v [] = refl
length-set_st_value zero v (s ∷ ss) = refl
length-set_st_value (suc i) v (s ∷ ss) = ap suc (length-set_st_value i v ss)

pub length-set_label_values :
    (index : Binding → ℕ) (ls : List (Binding × ℕ)) (syms : List Sym)
    → length (set_label_values index ls syms) ≡ length syms
unfolding set_label_values
length-set_label_values index [] syms = refl
length-set_label_values index (l ∷ ls) syms =
    length-set_label_values index ls (set_st_value (index l.0) l.1 syms)
    ∙ length-set_st_value (index l.0) l.1 syms

-- Each section of a file made of a head, three buffers and an end, by the length in front of it.
pub record Sections (file : Bytes) (a n m k : ℕ) (text names symbols relas : Bytes) : Type 0 where
  pub in_text : take (length text) (drop a file) ≡ text
  pub in_strtab : take (length names) (drop (a + n) file) ≡ names
  pub in_symtab : take (length symbols) (drop (a + n + m) file) ≡ symbols
  pub in_rela : drop (a + n + m + k) file ≡ relas
  pub whole : length file ≡ a + n + m + k + length relas

module _ (garbage : ℕ → ℕ) where
  pub Sections-of :
      (head text names symbols relas : Bytes) (a n m k : ℕ)
      → length head ≡ a
      → length text ≤ n
      → length names ≤ m
      → length symbols ≤ k
      → Sections
          (head
            ++ (buffer garbage n text
                ++ (buffer garbage m names ++ (buffer garbage k symbols ++ relas))))
          a
          n
          m
          k
          text
          names
          symbols
          relas
  unfolding buffer
  Sections-of head text names symbols relas a n m k long fit₁ fit₂ fit₃ =
      let bt = buffer garbage n text in
      let bn = buffer garbage m names in
      let bs = buffer garbage k symbols in
      let lt = length-buffer garbage n text fit₁ in
      let ln = length-buffer garbage m names fit₂ in
      let ls = length-buffer garbage k symbols fit₃ in
      let two = regroup head bt (bn ++ (bs ++ relas)) in
      let three = two ∙ regroup (head ++ bt) bn (bs ++ relas) in
      let four = three ∙ regroup ((head ++ bt) ++ bn) bs relas in
      let file = head ++ (bt ++ (bn ++ (bs ++ relas))) in
      let size₂ : length (head ++ bt) ≡ a + n = omega (arith, length-append head bt) in
      let size₃ : length ((head ++ bt) ++ bn) ≡ a + n + m =
        omega (arith, length-append (head ++ bt) bn) in
      let size₄ : length (((head ++ bt) ++ bn) ++ bs) ≡ a + n + m + k =
        omega (arith, length-append ((head ++ bt) ++ bn) bs) in
      let split =
        λ (size : ℕ) (x rest : Bytes). append_assoc x (unset garbage (size - length x)) rest in
      record {
        in_text = found a file head text _ (sym long) (ap (λ r. head ++ r) (split n text _));
        in_strtab =
            found (a + n) file (head ++ bt) names _ (sym size₂)
              (two ∙ ap (λ r. (head ++ bt) ++ r) (split m names _));
        in_symtab =
            found (a + n + m) file ((head ++ bt) ++ bn) symbols _ (sym size₃)
              (three ∙ ap (λ r. ((head ++ bt) ++ bn) ++ r) (split k symbols _));
        in_rela =
            ap (λ p. drop p file) (sym size₄)
            ∙ ap (λ f. drop (length (((head ++ bt) ++ bn) ++ bs)) f) four
            ∙ drop-length (((head ++ bt) ++ bn) ++ bs) relas;
        whole =
            ap length four
            ∙ length-append (((head ++ bt) ++ bn) ++ bs) relas
            ∙ ap (λ n. n + length relas) size₄;
      }
