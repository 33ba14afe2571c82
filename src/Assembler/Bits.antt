-- ===== src/Assembler/Bits.antt =====
-- The prefix, ModRM and SIB bytes of bootstrap/x86_64_assembler.c, read back field by field.
use l.Prelude.{
  ℕ, zero, suc, ◌+◌, ◌*◌, ◌/◌, ◌%◌, ◌<◌, ◌≡◌, refl, Bool, true, false, inl, inr, Bool-cases, ◌==◌,
  ==_iff, ◌&&◌, if◌then◌else◌, arith, ltb, ltb→lt,
}
use native.Mathlib.Nat.{mod-eq_of_lt}
use l.Assembler.{rex_prefix, modrm_byte, sib_byte}

-- What the manual of the processor makes of the bytes: the register of the `reg` field, the one of
-- the `r/m` or base field, and the other bits.
unfoldable pub reg_field : ℕ → ℕ → ℕ
reg_field rex modrm = rex / 4 % 2 * 8 + modrm / 8 % 8

unfoldable pub rm_field : ℕ → ℕ → ℕ
rm_field rex modrm = rex % 2 * 8 + modrm % 8

and_both : (a b : Bool) → (a && b) ≡ true → (a ≡ true) × (b ≡ true)
and_both true b h = (refl, h)
and_both false b h = absurd cc

-- `test` says yes to each of the first `bound` numbers.
table_ok : (test : ℕ → Bool) → ℕ → Bool
table_ok test zero = true
table_ok test (suc k) = test k && table_ok test k

table_entry :
    (test : ℕ → Bool) (bound reg : ℕ) → table_ok test bound ≡ true → reg < bound → test reg ≡ true
unfolding table_ok
table_entry test zero reg h lt = absurd (omega arith)
table_entry test (suc k) reg h lt =
    let (last, earlier) = and_both (test k) (table_ok test k) h in
    elim (Bool-cases (reg == k)) [
      | inl top ↦ rw ((==_iff reg k).0 top) last
      | inr other ↦ table_entry test k reg earlier (ground arith)
    ]

all_pairs_sound :
    (p : ℕ → ℕ → Bool) (x y : ℕ)
    → table_ok (λ a. table_ok (p a) 16) 16 ≡ true
    → x < 16
    → y < 16
    → p x y ≡ true
all_pairs_sound p x y h lt lt' =
    table_entry (p x) 16 y (table_entry (λ a. table_ok (p a) 16) 16 x h lt) lt'

is_rex : Bool → ℕ → ℕ → ℕ → Bool
is_rex w reg rm rex =
    (rex / 16 == 4)
    && ((rex / 8 % 2 == (if w then 1 else 0))
        && ((rex / 4 % 2 == reg / 8)
            && ((rex / 2 % 2 == 0) && ((rex % 2 == rm / 8) && ltb rex 256))))

rex_table :
    (w : Bool)
    → table_ok (λ reg. table_ok (λ rm. is_rex w reg rm (rex_prefix w reg rm)) 16) 16 ≡ true
unfolding table_ok is_rex rex_prefix
rex_table true = refl
rex_table false = refl

is_modrm : ℕ → ℕ → ℕ → ℕ → Bool
is_modrm m reg rm modrm =
    (modrm / 64 == m) && (modrm / 8 % 8 == reg % 8) && (modrm % 8 == rm % 8) && ltb modrm 256

modrm_table_2 :
    table_ok (λ reg. table_ok (λ rm. is_modrm 2 reg rm (modrm_byte 2 reg rm)) 16) 16 ≡ true
unfolding table_ok is_modrm modrm_byte
modrm_table_2 = refl

modrm_table_3 :
    table_ok (λ reg. table_ok (λ rm. is_modrm 3 reg rm (modrm_byte 3 reg rm)) 16) 16 ≡ true
unfolding table_ok is_modrm modrm_byte
modrm_table_3 = refl

-- What a prefix says of its registers and of the size of the operands.
unfoldable pub RexOf : Bool → ℕ → ℕ → ℕ → Type 0
RexOf w reg rm rex =
    (rex / 16 ≡ 4)
    × (rex / 8 % 2 ≡ (if w then 1 else 0))
    × (rex / 4 % 2 ≡ reg / 8)
    × (rex % 2 ≡ rm / 8)

is_rex-RexOf : (w : Bool) (reg rm rex : ℕ) → is_rex w reg rm rex ≡ true → RexOf w reg rm (rex % 256)
unfolding is_rex RexOf
is_rex-RexOf w reg rm rex h =
    let (top, h₁) = and_both (rex / 16 == 4) _ h in
    let (wide, h₂) = and_both (rex / 8 % 2 == (if w then 1 else 0)) _ h₁ in
    let (hi, h₃) = and_both (rex / 4 % 2 == reg / 8) _ h₂ in
    let (_, h₄) = and_both (rex / 2 % 2 == 0) _ h₃ in
    let (lo, h₅) = and_both (rex % 2 == rm / 8) _ h₄ in
    rw (mod-eq_of_lt (ltb→lt rex 256 h₅))
      ((==_iff _ _).0 top, (==_iff _ _).0 wide, (==_iff _ _).0 hi, (==_iff _ _).0 lo)

pub rex_prefix-RexOf :
    (w : Bool) (reg rm : ℕ) → reg < 16 → rm < 16 → RexOf w reg rm (rex_prefix w reg rm % 256)
rex_prefix-RexOf w reg rm lt lt' =
    is_rex-RexOf w reg rm (rex_prefix w reg rm) (
      all_pairs_sound (λ reg rm. is_rex w reg rm (rex_prefix w reg rm)) reg rm (rex_table w) lt lt')

unfoldable pub ModrmOf : ℕ → ℕ → ℕ → ℕ → Type 0
ModrmOf m reg rm modrm = (modrm / 64 ≡ m) × (modrm / 8 % 8 ≡ reg % 8) × (modrm % 8 ≡ rm % 8)

is_modrm-ModrmOf :
    (m reg rm modrm : ℕ) → is_modrm m reg rm modrm ≡ true → ModrmOf m reg rm (modrm % 256)
unfolding is_modrm ModrmOf
is_modrm-ModrmOf m reg rm modrm h = ground arith

pub modrm_byte-2 : (reg rm : ℕ) → reg < 16 → rm < 16 → ModrmOf 2 reg rm (modrm_byte 2 reg rm % 256)
modrm_byte-2 reg rm lt lt' = is_modrm-ModrmOf 2 reg rm (modrm_byte 2 reg rm) (
    all_pairs_sound (λ reg rm. is_modrm 2 reg rm (modrm_byte 2 reg rm)) reg rm modrm_table_2 lt lt')

pub modrm_byte-3 : (reg rm : ℕ) → reg < 16 → rm < 16 → ModrmOf 3 reg rm (modrm_byte 3 reg rm % 256)
modrm_byte-3 reg rm lt lt' = is_modrm-ModrmOf 3 reg rm (modrm_byte 3 reg rm) (
    all_pairs_sound (λ reg rm. is_modrm 3 reg rm (modrm_byte 3 reg rm)) reg rm modrm_table_3 lt lt')

pub rm_field-of :
    (w : Bool) (m reg rm rex modrm : ℕ)
    → rm < 16
    → RexOf w reg rm rex
    → ModrmOf m reg rm modrm
    → rm_field rex modrm ≡ rm
unfolding RexOf ModrmOf rm_field
rm_field-of w m reg rm rex modrm lt (_, _, _, b) (_, _, lo) = omega arith

pub reg_field-of :
    (w : Bool) (m reg rm rex modrm : ℕ)
    → reg < 16
    → RexOf w reg rm rex
    → ModrmOf m reg rm modrm
    → reg_field rex modrm ≡ reg
unfolding RexOf ModrmOf reg_field
reg_field-of w m reg rm rex modrm lt (_, _, r, _) (_, hi, _) = omega arith

sib_table :
    table_ok (λ rm. (sib_byte rm % 256 / 8 == 4) && (sib_byte rm % 256 % 8 == rm % 8)) 16 ≡ true
unfolding table_ok sib_byte
sib_table = refl

pub sib_byte-base :
    (rm : ℕ) → rm < 16 → (sib_byte rm % 256 / 8 ≡ 4) × (sib_byte rm % 256 % 8 ≡ rm % 8)
sib_byte-base rm lt =
    let (top, low) = and_both (sib_byte rm % 256 / 8 == 4) _ (
      table_entry (λ r. (sib_byte r % 256 / 8 == 4) && (sib_byte r % 256 % 8 == r % 8)) 16 rm
        sib_table lt) in
    ((==_iff _ _).0 top, (==_iff _ _).0 low)
