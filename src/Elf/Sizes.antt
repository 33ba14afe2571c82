-- ===== src/Elf/Sizes.antt =====
-- The symbols that `write_elf` of bootstrap/x86_64_assembler.c writes fit the arrays `syms` and
-- `strtab`, whose sizes `measure_symtab` and `measure_strtab` give.
use l.Prelude.{
  ℕ, ◌+◌, ◌≤◌, ◌≡◌, Bool, List, [], ◌∷◌, ◌++◌, Option, none, some, Chars, if◌then◌else◌, length,
  length-append, arith, inl, inr, Bool-cases,
}
use l.Interface.{pad_size}
use l.Assembler.{Bytes, Binding, Instruction, label}
use l.Elf.{
  Scope, BindingAug, Tables, is_local, global_defined, global_undefined, put_name, put_symbol,
  set_offset, name_size, measure_names, measure_labels, measure_strtab, count_labels,
  measure_symtab, static_symbols, undefined_symbols, label_symbols, is_global, local_symbols,
  write_symbols, local_info, global_info, first_tables,
}

length-put_name :
    (strtab : Bytes) (name : Option Chars)
    → length (put_name strtab name).1 ≡ length strtab + name_size name
unfolding put_name name_size
length-put_name strtab none = omega arith
length-put_name strtab (some name) =
    omega (arith, length-append strtab (name ++ 0 ∷ []), length-append name (0 ∷ []))

-- How far a loop moved the two pointers on.
record Grows (names count : ℕ) (t t' : Tables) : Type 0 where
  text : length t'.strtab ≡ length t.strtab + names
  entries : length t'.syms ≡ length t.syms + count

put_symbol-Grows :
    (b : Binding) (name : Option Chars) (value size info shndx bss : ℕ) (t : Tables)
    → Grows (name_size name) 1 t (put_symbol b name value size info shndx bss t)
unfolding put_symbol
put_symbol-Grows b name value size info shndx bss t = record {
  text = length-put_name t.strtab name;
  entries = length-append t.syms _;
}

set_offset-Grows :
    {m n : ℕ} (b : Binding) (offset : ℕ) (t t' : Tables)
    → Grows m n t t'
    → Grows m n t (set_offset b offset t')
set_offset-Grows b offset t t' g = record { text = g.text; entries = g.entries }

Grows-refl : (t : Tables) → Grows 0 0 t t
Grows-refl t = record { text = omega arith; entries = omega arith }

Grows-then :
    {m n m' n' : ℕ} (t t' t'' : Tables)
    → Grows m n t t'
    → Grows m' n' t' t''
    → Grows (m + m') (n + n') t t''
Grows-then t t' t'' g h =
    let e₁ = g.text in
    let e₂ = h.text in
    let e₃ = g.entries in let e₄ = h.entries in record { text = omega arith; entries = omega arith }

module _ (aug : Binding → BindingAug) (symbol_name : Binding → Option Chars) where
  kept_names : (BindingAug → Bool) → List Binding → ℕ
  kept_names keep [] = 0
  kept_names keep (b ∷ bs) =
      (if keep (aug b) then name_size (aug b).name else 0) + kept_names keep bs

  kept_count : (BindingAug → Bool) → List Binding → ℕ
  kept_count keep [] = 0
  kept_count keep (b ∷ bs) = (if keep (aug b) then 1 else 0) + kept_count keep bs

  static_symbols-Grows :
      (keep : BindingAug → Bool) (info : ℕ) (bs : List Binding) (t : Tables)
      → Grows
          (kept_names keep bs)
          (kept_count keep bs)
          t
          (static_symbols aug symbol_name keep info bs t)
  unfolding static_symbols kept_names kept_count
  static_symbols-Grows keep info [] t = Grows-refl t
  static_symbols-Grows keep info (b ∷ bs) t =
      let a = aug b in
      let put = put_symbol b a.name t.bss_ptr a.size info 5 (pad_size a.size 8) t in
      let offset = set_offset b t.bss_ptr put in
      elim (Bool-cases (keep (aug b))) [
        | inl kept ↦ rw kept (
            Grows-then t offset _
              (set_offset-Grows b t.bss_ptr t put
                (put_symbol-Grows b a.name t.bss_ptr a.size info 5 (pad_size a.size 8) t))
              (static_symbols-Grows keep info bs offset))
        | inr left_out ↦
            rw left_out (Grows-then t t _ (Grows-refl t) (static_symbols-Grows keep info bs t))
      ]

  undefined_symbols-Grows :
      (bs : List Binding) (t : Tables)
      → Grows
          (kept_names global_undefined bs)
          (kept_count global_undefined bs)
          t
          (undefined_symbols aug symbol_name bs t)
  unfolding undefined_symbols kept_names kept_count
  undefined_symbols-Grows [] t = Grows-refl t
  undefined_symbols-Grows (b ∷ bs) t =
      let a = aug b in
      let put = put_symbol b a.name 0 0 global_info 0 0 t in
      elim (Bool-cases (global_undefined (aug b))) [
        | inl kept ↦ rw kept (
            Grows-then t put _ (put_symbol-Grows b a.name 0 0 global_info 0 0 t)
              (undefined_symbols-Grows bs put))
        | inr left_out ↦
            rw left_out (Grows-then t t _ (Grows-refl t) (undefined_symbols-Grows bs t))
      ]

  kept_label_names : (Scope → Bool) → List Instruction → ℕ
  kept_label_names keep [] = 0
  kept_label_names keep (label b ∷ is) =
      (if keep (aug b).scope then name_size (symbol_name b) else 0) + kept_label_names keep is
  kept_label_names keep (i ∷ is) = kept_label_names keep is

  kept_labels : (Scope → Bool) → List Instruction → ℕ
  kept_labels keep [] = 0
  kept_labels keep (label b ∷ is) = (if keep (aug b).scope then 1 else 0) + kept_labels keep is
  kept_labels keep (i ∷ is) = kept_labels keep is

  label_symbols-Grows :
      (keep : Scope → Bool) (info : ℕ) (is : List Instruction) (t : Tables)
      → Grows
          (kept_label_names keep is)
          (kept_labels keep is)
          t
          (label_symbols aug symbol_name keep info is t)
  unfolding label_symbols kept_label_names kept_labels
  label_symbols-Grows keep info [] t = Grows-refl t
  label_symbols-Grows keep info (label b ∷ is) t =
      let put = put_symbol b (symbol_name b) 0 0 info 2 0 t in
      elim (Bool-cases (keep (aug b).scope)) [
        | inl kept ↦ rw kept (
            Grows-then t put _ (put_symbol-Grows b (symbol_name b) 0 0 info 2 0 t)
              (label_symbols-Grows keep info is put))
        | inr left_out ↦
            rw left_out (Grows-then t t _ (Grows-refl t) (label_symbols-Grows keep info is t))
      ]
  label_symbols-Grows keep info (i ∷ is) t = label_symbols-Grows keep info is t

  -- A binding is kept by one of the two loops over static bindings, or by none.
  kept_names-once :
      (bs : List Binding)
      → kept_names (λ a. is_local a.scope) bs + kept_names global_defined bs
        ≤ measure_names aug symbol_name bs
  unfolding kept_names measure_names global_defined
  kept_names-once [] = omega arith
  kept_names-once (b ∷ bs) = ground (arith, kept_names-once bs)

  kept_count-once :
      (bs : List Binding)
      → kept_count (λ a. is_local a.scope) bs + kept_count global_defined bs ≤ length bs
  unfolding kept_count global_defined
  kept_count-once [] = omega arith
  kept_count-once (b ∷ bs) = ground (arith, kept_count-once bs)

  kept_names-at_most :
      (bs : List Binding) → kept_names global_undefined bs ≤ measure_names aug symbol_name bs
  unfolding kept_names measure_names
  kept_names-at_most [] = omega arith
  kept_names-at_most (b ∷ bs) = ground (arith, kept_names-at_most bs)

  kept_count-at_most : (bs : List Binding) → kept_count global_undefined bs ≤ length bs
  unfolding kept_count
  kept_count-at_most [] = omega arith
  kept_count-at_most (b ∷ bs) = ground (arith, kept_count-at_most bs)

  kept_label_names-once :
      (is : List Instruction)
      → kept_label_names is_local is + kept_label_names is_global is
        ≡ measure_labels aug symbol_name is
  unfolding kept_label_names measure_labels is_global
  kept_label_names-once [] = omega arith
  kept_label_names-once (label b ∷ is) = ground (arith, kept_label_names-once is)
  kept_label_names-once (i ∷ is) = kept_label_names-once is

  kept_labels-once :
      (is : List Instruction) → kept_labels is_local is + kept_labels is_global is ≡ count_labels is
  unfolding kept_labels count_labels is_global
  kept_labels-once [] = omega arith
  kept_labels-once (label b ∷ is) = ground (arith, kept_labels-once is)
  kept_labels-once (i ∷ is) = kept_labels-once is

  -- The symbols and names that are written keep to the measured sizes, for any bindings and any
  -- instructions.
  pub write_symbols-measure :
      (is : List Instruction) (undefined_bindings static_bindings : List Binding)
      → let t = write_symbols aug symbol_name is undefined_bindings static_bindings in
        (length t.strtab ≤ measure_strtab aug symbol_name is undefined_bindings static_bindings)
        × (length t.syms ≤ measure_symtab is undefined_bindings static_bindings)
  unfolding write_symbols local_symbols measure_strtab measure_symtab
  write_symbols-measure is us ss =
      let t₁ = static_symbols aug symbol_name (λ a. is_local a.scope) local_info ss first_tables in
      let t₂ = label_symbols aug symbol_name is_local local_info is t₁ in
      let t₃ = static_symbols aug symbol_name global_defined global_info ss t₂ in
      let t₄ = undefined_symbols aug symbol_name us t₃ in
      let t₅ = label_symbols aug symbol_name is_global global_info is t₄ in
      let g₁ = static_symbols-Grows (λ a. is_local a.scope) local_info ss first_tables in
      let g₂ = label_symbols-Grows is_local local_info is t₁ in
      let g₃ = static_symbols-Grows global_defined global_info ss t₂ in
      let g₄ = undefined_symbols-Grows us t₃ in
      let g₅ = label_symbols-Grows is_global global_info is t₄ in
      let all =
        Grows-then _ t₄ t₅
          (Grows-then _ t₃ t₄ (Grows-then _ t₂ t₃ (Grows-then _ t₁ t₂ g₁ g₂) g₃) g₄) g₅ in
      (
        omega
            (arith, all.text, kept_names-once ss, kept_names-at_most us, kept_label_names-once is),
        omega (arith, all.entries, kept_count-once ss, kept_count-at_most us, kept_labels-once is),
      )
