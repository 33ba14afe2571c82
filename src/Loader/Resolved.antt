-- ===== src/Loader/Resolved.antt =====
-- When `do_relocations` of bootstrap/x86_64_object.c is defined.
use l.Prelude.{
  ℕ, zero, suc, ◌≡◌, Bool, true, false, ◌&&◌, List, [], ◌∷◌, if◌then◌else◌, length, ltb, leb, ◌⊎◌,
}
use l.Result.{Result, ok, undefined}
use l.Assembler.{Rela}
use l.Loader.{Section, elf64_r_sym, has_relocations}

-- How many symbols the section with an index has, where there is such a section.
unfoldable pub symbol_count : List Section → ℕ → ℕ
symbol_count [] link = 0
symbol_count (sec ∷ secs) zero = length sec.syms
symbol_count (sec ∷ secs) (suc link) = symbol_count secs link

unfoldable pub in_table : (count : ℕ) → List Rela → Bool
unfolding elf64_r_sym
in_table count [] = true
in_table count (r ∷ rs) = ltb (elf64_r_sym r.r_info) count && in_table count rs

-- Every relocation of the sections names a symbol of the table that its section is linked to, and
-- has an addend.
unfoldable pub all_resolved : List Section → (secs : List Section) → Bool
unfolding has_relocations symbol_count in_table
all_resolved sections [] = true
all_resolved sections (sec ∷ secs) =
    (if has_relocations sec
      then leb (length sec.relas) (length sec.addends)
        && in_table (symbol_count sections sec.shdr.sh_link) sec.relas
      else true)
    && all_resolved sections secs

-- The run returns just where `b` is true, and is undefined otherwise.
abbrev pub Ends {ℓ} : {A : Type ℓ} → Result A → Bool → Type ℓ
Ends r b = ((b ≡ true) × (a : _) × (r ≡ ok a)) ⊎ ((b ≡ false) × (r ≡ undefined))
