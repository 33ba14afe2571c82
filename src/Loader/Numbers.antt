-- ===== src/Loader/Numbers.antt =====
-- The structures of bootstrap/elf.c, read back from memory by bootstrap/x86_64_object.c.
use l.Prelude.{
  ℕ, zero, suc, ◌+◌, ◌*◌, ◌%◌, ◌^◌, ◌≤◌, ◌≡◌, refl, true, List, [], ◌∷◌, ◌++◌, some, length,
  length-drop, drop, arith, ap, ◌∙◌,
}
use l.Result.{Result, ok, ◌>>=◌}
use l.Assembler.{Bytes, Rela, mem_write}
use l.Assembler.Decode.{read_number}
use l.Assembler.Operands.{read_number-mem_write}
use l.Elf.{Sym}
use l.Elf.Structures.{Shdr, shdr_bytes, sym_bytes, rela_bytes}
use l.Loader.Read.{number_at, first_number, shdr_at, sym_at, rela_at}

pub drop-append {ℓ} :
    {A : Type ℓ} (xs ys : List A) (k : ℕ) → drop (length xs + k) (xs ++ ys) ≡ drop k ys
drop-append [] ys k = ap (λ (n : ℕ). drop n ys) (let e : 0 + k ≡ k = omega arith in e)
drop-append (x ∷ xs) ys k =
    ap (λ (n : ℕ). drop n (x ∷ (xs ++ ys)))
      (let e : suc (length xs) + k ≡ suc (length xs + k) = omega arith in e)
    ∙ drop-append xs ys k

-- What stands in front of a block does not matter to what is read from it.
pub number_at-append :
    (xs ys : Bytes) (k width : ℕ)
    → number_at (xs ++ ys) (length xs + k) width ≡ number_at ys k width
unfolding number_at
number_at-append xs ys k width =
    ap (λ (bs : Bytes). first_number (read_number width bs)) (drop-append xs ys k)

pub number_at-mem_write :
    (width v : ℕ) (rest : Bytes)
    → number_at (mem_write width v ++ rest) 0 width ≡ ok (v % 256 ^ width)
unfolding number_at first_number
number_at-mem_write width v rest = ap first_number (read_number-mem_write width v rest)

-- The fields of structures, cut to their widths.
unfoldable pub cut_shdr : Shdr → Shdr
cut_shdr h = record {
  sh_name = h.sh_name % 2 ^ 32;
  sh_type = h.sh_type % 2 ^ 32;
  sh_flags = h.sh_flags % 2 ^ 64;
  sh_addr = h.sh_addr % 2 ^ 64;
  sh_offset = h.sh_offset % 2 ^ 64;
  sh_size = h.sh_size % 2 ^ 64;
  sh_link = h.sh_link % 2 ^ 32;
  sh_info = h.sh_info % 2 ^ 32;
  sh_addralign = h.sh_addralign % 2 ^ 64;
  sh_entsize = h.sh_entsize % 2 ^ 64;
}

unfoldable pub cut_sym : Sym → Sym
cut_sym s = record {
  st_name = s.st_name % 2 ^ 32;
  st_info = s.st_info % 2 ^ 8;
  st_shndx = s.st_shndx % 2 ^ 16;
  st_value = s.st_value % 2 ^ 64;
  st_size = s.st_size % 2 ^ 64;
}

unfoldable pub cut_rela : Rela → Rela
cut_rela r = record {
  r_offset = r.r_offset % 2 ^ 64;
  r_info = r.r_info % 2 ^ 64;
  r_addend = r.r_addend % 2 ^ 64;
}

rela_from :
    (r0 r1 r2 : Result ℕ) {x0 x1 x2 : ℕ}
    → r0 ≡ ok x0
    → r1 ≡ ok x1
    → r2 ≡ ok x2
    → ◌≡◌ {A = Result Rela}
        (do
          offset ← r0
          info ← r1
          addend ← r2
          ok (record { r_offset = offset; r_info = info; r_addend = addend }))
        (ok (record { r_offset = x0; r_info = x1; r_addend = x2 }))
rela_from r0 r1 r2 h0 h1 h2 = rw (h0, h1, h2) refl

sym_from :
    (r0 r1 r2 r3 r4 : Result ℕ) {x0 x1 x2 x3 x4 : ℕ}
    → r0 ≡ ok x0
    → r1 ≡ ok x1
    → r2 ≡ ok x2
    → r3 ≡ ok x3
    → r4 ≡ ok x4
    → ◌≡◌ {A = Result Sym}
        (do
          name ← r0
          info ← r1
          shndx ← r2
          value ← r3
          size ← r4
          ok (record {
            st_name = name;
            st_info = info;
            st_shndx = shndx;
            st_value = value;
            st_size = size;
          }))
        (ok (record { st_name = x0; st_info = x1; st_shndx = x2; st_value = x3; st_size = x4 }))
sym_from r0 r1 r2 r3 r4 h0 h1 h2 h3 h4 = rw (h0, h1, h2, h3, h4) refl

shdr_from :
    (r0 r1 r2 r3 r4 r5 r6 r7 r8 r9 : Result ℕ) {x0 x1 x2 x3 x4 x5 x6 x7 x8 x9 : ℕ}
    → r0 ≡ ok x0
    → r1 ≡ ok x1
    → r2 ≡ ok x2
    → r3 ≡ ok x3
    → r4 ≡ ok x4
    → r5 ≡ ok x5
    → r6 ≡ ok x6
    → r7 ≡ ok x7
    → r8 ≡ ok x8
    → r9 ≡ ok x9
    → ◌≡◌ {A = Result Shdr}
        (do
          name ← r0
          type ← r1
          flags ← r2
          addr ← r3
          offset ← r4
          size ← r5
          link ← r6
          info ← r7
          addralign ← r8
          entsize ← r9
          ok (record {
            sh_name = name;
            sh_type = type;
            sh_flags = flags;
            sh_addr = addr;
            sh_offset = offset;
            sh_size = size;
            sh_link = link;
            sh_info = info;
            sh_addralign = addralign;
            sh_entsize = entsize;
          }))
        (ok (record {
          sh_name = x0;
          sh_type = x1;
          sh_flags = x2;
          sh_addr = x3;
          sh_offset = x4;
          sh_size = x5;
          sh_link = x6;
          sh_info = x7;
          sh_addralign = x8;
          sh_entsize = x9;
        }))
shdr_from r0 r1 r2 r3 r4 r5 r6 r7 r8 r9 h0 h1 h2 h3 h4 h5 h6 h7 h8 h9 =
    rw (h0, h1, h2, h3, h4, h5, h6, h7, h8, h9) refl

number_at-start :
    (xs ys : Bytes) (width : ℕ) → number_at (xs ++ ys) (length xs) width ≡ number_at ys 0 width
number_at-start xs ys width =
    ap (λ (n : ℕ). number_at (xs ++ ys) n width)
      (let e : length xs ≡ length xs + 0 = omega arith in e)
    ∙ number_at-append xs ys 0 width

pub rela_at-append :
    (unset : ℕ) (xs : Bytes) (r : Rela) (rest : Bytes)
    → rela_at true unset (xs ++ (rela_bytes r ++ rest)) (length xs) ≡ ok (cut_rela r)
unfolding rela_at rela_bytes mem_write cut_rela number_at
rela_at-append unset xs r rest =
    let t2 = mem_write 8 r.r_addend ++ rest in
    let t1 = mem_write 8 r.r_info ++ t2 in
    let bs = mem_write 8 r.r_offset ++ t1 in
    let file = xs ++ bs in
    rela_from (number_at file (length xs) 8) (number_at file (length xs + 8) 8)
      (number_at file (length xs + 16) 8)
      (number_at-start xs bs 8 ∙ number_at-mem_write 8 r.r_offset t1)
      (number_at-append xs bs 8 8 ∙ number_at-mem_write 8 r.r_info t2)
      (number_at-append xs bs 16 8 ∙ number_at-mem_write 8 r.r_addend rest)

pub sym_at-append :
    (xs : Bytes) (s : Sym) (rest : Bytes)
    → sym_at (xs ++ (sym_bytes s ++ rest)) (length xs) ≡ ok (cut_sym s)
unfolding sym_at sym_bytes mem_write cut_sym number_at
sym_at-append xs s rest =
    let t5 = mem_write 8 s.st_size ++ rest in
    let t4 = mem_write 8 s.st_value ++ t5 in
    let t3 = mem_write 2 s.st_shndx ++ t4 in
    let t2 = mem_write 1 0 ++ t3 in
    let t1 = mem_write 1 s.st_info ++ t2 in
    let bs = mem_write 4 s.st_name ++ t1 in
    let file = xs ++ bs in
    sym_from (number_at file (length xs) 4) (number_at file (length xs + 4) 1)
      (number_at file (length xs + 6) 2) (number_at file (length xs + 8) 8)
      (number_at file (length xs + 16) 8)
      (number_at-start xs bs 4 ∙ number_at-mem_write 4 s.st_name t1)
      (number_at-append xs bs 4 1 ∙ number_at-mem_write 1 s.st_info t2)
      (number_at-append xs bs 6 2 ∙ number_at-mem_write 2 s.st_shndx t4)
      (number_at-append xs bs 8 8 ∙ number_at-mem_write 8 s.st_value t5)
      (number_at-append xs bs 16 8 ∙ number_at-mem_write 8 s.st_size rest)

pub shdr_at-append :
    (xs : Bytes) (h : Shdr) (rest : Bytes)
    → shdr_at (xs ++ (shdr_bytes h ++ rest)) (length xs) ≡ ok (cut_shdr h)
unfolding shdr_at shdr_bytes mem_write cut_shdr number_at
shdr_at-append xs h rest =
    let t9 = mem_write 8 h.sh_entsize ++ rest in
    let t8 = mem_write 8 h.sh_addralign ++ t9 in
    let t7 = mem_write 4 h.sh_info ++ t8 in
    let t6 = mem_write 4 h.sh_link ++ t7 in
    let t5 = mem_write 8 h.sh_size ++ t6 in
    let t4 = mem_write 8 h.sh_offset ++ t5 in
    let t3 = mem_write 8 h.sh_addr ++ t4 in
    let t2 = mem_write 8 h.sh_flags ++ t3 in
    let t1 = mem_write 4 h.sh_type ++ t2 in
    let bs = mem_write 4 h.sh_name ++ t1 in
    let file = xs ++ bs in
    shdr_from (number_at file (length xs) 4) (number_at file (length xs + 4) 4)
      (number_at file (length xs + 8) 8) (number_at file (length xs + 16) 8)
      (number_at file (length xs + 24) 8) (number_at file (length xs + 32) 8)
      (number_at file (length xs + 40) 4) (number_at file (length xs + 44) 4)
      (number_at file (length xs + 48) 8) (number_at file (length xs + 56) 8)
      (number_at-start xs bs 4 ∙ number_at-mem_write 4 h.sh_name t1)
      (number_at-append xs bs 4 4 ∙ number_at-mem_write 4 h.sh_type t2)
      (number_at-append xs bs 8 8 ∙ number_at-mem_write 8 h.sh_flags t3)
      (number_at-append xs bs 16 8 ∙ number_at-mem_write 8 h.sh_addr t4)
      (number_at-append xs bs 24 8 ∙ number_at-mem_write 8 h.sh_offset t5)
      (number_at-append xs bs 32 8 ∙ number_at-mem_write 8 h.sh_size t6)
      (number_at-append xs bs 40 4 ∙ number_at-mem_write 4 h.sh_link t7)
      (number_at-append xs bs 44 4 ∙ number_at-mem_write 4 h.sh_info t8)
      (number_at-append xs bs 48 8 ∙ number_at-mem_write 8 h.sh_addralign t9)
      (number_at-append xs bs 56 8 ∙ number_at-mem_write 8 h.sh_entsize rest)

-- A number that is inside the block can be read.
pub read_number_ok :
    (width : ℕ) (bs : Bytes)
    → width ≤ length bs
    → (v : ℕ) × (rest : Bytes) × (read_number width bs ≡ some (v, rest))
unfolding read_number
read_number_ok zero bs h = (0, bs, refl)
read_number_ok (suc width) [] h = absurd (omega arith)
read_number_ok (suc width) (b ∷ bs) h =
    let (v, rest, e) = read_number_ok width bs (omega arith) in (b + 256 * v, rest, rw e refl)

pub number_at_ok :
    (bs : Bytes) (offset width : ℕ)
    → offset + width ≤ length bs
    → (v : ℕ) × (number_at bs offset width ≡ ok v)
unfolding number_at first_number
number_at_ok bs offset width h =
    let (v, rest, e) =
      read_number_ok width (drop offset bs) (omega (arith, length-drop offset bs)) in
    (v, rw e refl)

pub sym_at_ok : (bs : Bytes) (at : ℕ) → at + 24 ≤ length bs → (s : Sym) × (sym_at bs at ≡ ok s)
unfolding sym_at
sym_at_ok bs at h =
    let (name, e0) = number_at_ok bs at 4 (omega arith) in
    let (info, e1) = number_at_ok bs (at + 4) 1 (omega arith) in
    let (shndx, e2) = number_at_ok bs (at + 6) 2 (omega arith) in
    let (value, e3) = number_at_ok bs (at + 8) 8 (omega arith) in
    let (size, e4) = number_at_ok bs (at + 16) 8 (omega arith) in
    (
      record { st_name = name; st_info = info; st_shndx = shndx; st_value = value; st_size = size },
      sym_from (number_at bs at 4) (number_at bs (at + 4) 1) (number_at bs (at + 6) 2)
          (number_at bs (at + 8) 8) (number_at bs (at + 16) 8) e0 e1 e2 e3 e4,
    )
