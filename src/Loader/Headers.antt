-- ===== src/Loader/Headers.antt =====
-- The sections that `read_object` of bootstrap/x86_64_object.c reads under given headers.
use l.Prelude.{
  ℕ, zero, suc, ◌+◌, ◌-◌, ◌*◌, ◌≤◌, ◌≡◌, refl, List, [], ◌∷◌, ◌++◌, length, length-append, take,
  drop, arith, ap, ap₂, ◌∙◌, sym, append_assoc,
}
use mathlib.Core.List.{map}
use mathlib.Core.Path.{fun_ext}
use l.Result.{Result, ok, ◌>>=◌}
use l.Assembler.{Bytes}
use l.Elf.Structures.{Shdr, shdr_bytes, all_bytes}
use l.Elf.Layout.{length-shdr_bytes}
use l.Loader.{ByteMap, Section, store_bytes}
use l.Loader.Read.{shdr_at, read_section, read_sections, segment_bytes, section_of, block_at}
use l.Loader.Numbers.{cut_shdr, shdr_at-append}

module _ (file : Bytes) (unset : ℕ) (place : ℕ → ℕ) where
  -- The loop over sections whose headers are known.
  unfoldable pub read_headers : List Shdr → (sec : ℕ) → ByteMap → Result (List Section × ByteMap)
  unfolding read_section
  read_headers [] sec m = ok ([], m)
  read_headers (h ∷ hs) sec m = read_section file unset h (place sec) m >>= λ first.
      read_headers hs (suc sec) first.1 >>= λ rest. ok (first.0 ∷ rest.0, rest.1)

  pub read_sections-headers :
      (hs : List Shdr) (xs tail : Bytes) (sec : ℕ) (m : ByteMap)
      → file ≡ xs ++ (all_bytes shdr_bytes hs ++ tail)
      → length xs ≡ 64 + 64 * sec
      → read_sections file unset place 64 64 (length hs) sec m
        ≡ read_headers (map cut_shdr hs) sec m
  unfolding read_sections read_headers all_bytes
  read_sections-headers [] xs tail sec m e at = refl
  read_sections-headers (h ∷ hs) xs tail sec m e at =
      let later = all_bytes shdr_bytes hs ++ tail in
      let split : file ≡ xs ++ (shdr_bytes h ++ later) =
        e
        ∙ ap (λ (bs : Bytes). xs ++ bs)
            (append_assoc (shdr_bytes h) (all_bytes shdr_bytes hs) tail) in
      let head : shdr_at file (64 + 64 * sec) ≡ ok (cut_shdr h) =
        ap₂ (λ (bs : Bytes) (n : ℕ). shdr_at bs n) split (sym at) ∙ shdr_at-append xs h later in
      let rest : read_sections file unset place 64 64 (length hs) (suc sec)
          ≡ read_headers (map cut_shdr hs) (suc sec) =
        fun_ext (λ m'.
          read_sections-headers hs (xs ++ shdr_bytes h) tail (suc sec) m'
            (split ∙ sym (append_assoc xs (shdr_bytes h) later))
            (length-append xs (shdr_bytes h) ∙ omega (arith, length-shdr_bytes h))) in
      rw (head, rest) refl

  -- One section and the others.
  pub read_headers_first :
      (h : Shdr) (hs : List Shdr) (sec : ℕ) (m m' m'' : ByteMap) (s : Section) (ss : List Section)
      → read_section file unset h (place sec) m ≡ ok (s, m')
      → read_headers hs (suc sec) m' ≡ ok (ss, m'')
      → read_headers (h ∷ hs) sec m ≡ ok (s ∷ ss, m'')
  unfolding read_headers
  read_headers_first h hs sec m m' m'' s ss first rest = rw (first, rest) refl

abbrev pub plain_section : Shdr → ℕ → Section
plain_section h seg = record { shdr = h; seg = seg; syms = []; relas = []; addends = [] }

pub block_at_ok :
    (bs : Bytes) (offset size : ℕ)
    → offset + size ≤ length bs
    → block_at bs offset size ≡ ok (take size (drop offset bs))
unfolding block_at
block_at_ok bs offset size h = ground arith

-- A section that is no table.
pub read_section_plain :
    (file bytes : Bytes) (unset seg : ℕ) (h : Shdr) (m : ByteMap)
    → section_of unset h seg bytes ≡ ok (plain_section h seg)
    → segment_bytes file h ≡ ok bytes
    → read_section file unset h seg m ≡ ok (plain_section h seg, store_bytes seg bytes m)
unfolding read_section
read_section_plain file bytes unset seg h m same found = rw (found, same) refl

take_nothing {ℓ} : {A : Type ℓ} (n : ℕ) → ◌≡◌ {A = List A} [] (take n [])
take_nothing zero = refl
take_nothing (suc n) = refl

pub take_split {ℓ} :
    {A : Type ℓ} (k n : ℕ) (xs : List A) → k ≤ n → take n xs ≡ take k xs ++ take (n - k) (drop k xs)
take_split zero n xs h = ap (λ (i : ℕ). take i xs) (let e : n ≡ n - 0 = omega arith in e)
take_split (suc k) zero xs h = absurd (omega arith)
take_split (suc k) (suc n) [] h = take_nothing (suc n - suc k)
take_split (suc k) (suc n) (x ∷ xs) h =
    ap (λ (ys : List _). x ∷ ys)
      (take_split k n xs (omega arith)
        ∙ ap (λ (i : ℕ). take k xs ++ take i (drop k xs))
            (let e : n - k ≡ suc n - suc k = omega arith in e))
