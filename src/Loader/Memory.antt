-- ===== src/Loader/Memory.antt =====
-- What the relocations of bootstrap/x86_64_object.c write: the bytes of the memory after them.
use l.Prelude.{
  ℕ, zero, suc, ◌+◌, ◌*◌, ◌/◌, ◌%◌, ◌^◌, ◌≡◌, refl, Bool, true, false, [], ◌∷◌, ◌==◌, ◌&&◌, leb,
  ltb, length, inl, inr, Bool-cases, arith, sym, ap, ap₂, ◌∙◌, ==_iff,
}
use native.Mathlib.Nat.{mod-one, pow-suc}
use l.Assembler.Operands.{mod-mul}
use l.Assembler.{Bytes, mem_write}
use l.Loader.{ByteMap, store_byte, store_bytes, load_number}

-- Whether an address lies in the `n` bytes from `a` on.
unfoldable pub lies_in : (x a n : ℕ) → Bool
lies_in x a n = leb a x && ltb x (a + n)

outside_byte : (a v x : ℕ) (m : ByteMap) → (x == a) ≡ false → store_byte a v m x ≡ m x
unfolding store_byte
outside_byte a v x m h = rw h refl

-- Bytes outside stay, and those inside do not depend on what was there.
pub store_bytes_outside :
    (a x : ℕ) (vs : Bytes) (m : ByteMap)
    → lies_in x a (length vs) ≡ false
    → store_bytes a vs m x ≡ m x
unfolding store_bytes lies_in
store_bytes_outside a x [] m h = refl
store_bytes_outside a x (v ∷ vs) m h =
    store_bytes_outside (a + 1) x vs (store_byte a v m) (ground arith)
    ∙ outside_byte a v x m (ground arith)

same_byte :
    (a v x : ℕ) (m m' : ByteMap) → (x == a) ≡ true → store_byte a v m x ≡ store_byte a v m' x
unfolding store_byte
same_byte a v x m m' h = rw h refl

pub store_bytes_inside :
    (a x : ℕ) (vs : Bytes) (m m' : ByteMap)
    → lies_in x a (length vs) ≡ true
    → store_bytes a vs m x ≡ store_bytes a vs m' x
unfolding store_bytes lies_in
store_bytes_inside a x [] m m' h = absurd (ground arith)
store_bytes_inside a x (v ∷ vs) m m' h = elim (Bool-cases (x == a)) [
  | inl here ↦
      store_bytes_outside (a + 1) x vs (store_byte a v m) (ground arith)
      ∙ same_byte a v x m m' here
      ∙ sym (store_bytes_outside (a + 1) x vs (store_byte a v m') (ground arith))
  | inr other ↦
      store_bytes_inside (a + 1) x vs (store_byte a v m) (store_byte a v m') (ground arith)
]

pub length-mem_write : (n v : ℕ) → length (mem_write n v) ≡ n
unfolding mem_write
length-mem_write zero v = refl
length-mem_write (suc n) v = ap suc (length-mem_write n (v / 256))

before_next : (a n : ℕ) → lies_in a (a + 1) n ≡ false
unfolding lies_in
before_next a n = ground arith

stored_byte : (a v : ℕ) (m : ByteMap) → store_byte a v m a ≡ v
unfolding store_byte
stored_byte a v m = rw ((==_iff a a).1 refl) refl

-- A number that is stored is loaded again, as far as it fits.
pub load_number-store_bytes :
    (n a v : ℕ) (m : ByteMap) → load_number n a (store_bytes a (mem_write n v) m) ≡ v % 256 ^ n
unfolding load_number store_bytes mem_write
load_number-store_bytes zero a v m = sym (mod-one v)
load_number-store_bytes (suc n) a v m =
    let first = store_byte a (v % 256) m in
    let at : store_bytes (a + 1) (mem_write n (v / 256)) first a ≡ v % 256 =
      store_bytes_outside (a + 1) a (mem_write n (v / 256)) first
        (before_next a (length (mem_write n (v / 256))))
      ∙ stored_byte a (v % 256) m in
    rw (at, load_number-store_bytes n (a + 1) (v / 256) first)
      (mod-mul v (256 ^ n)
        ∙ ap (λ (b : ℕ). v % b)
            (let e : 256 * 256 ^ n ≡ 256 ^ suc n = omega (arith, pow-suc 256 n) in e))

-- Numbers do not change where their bytes do not.
pub load_number_same :
    (n a : ℕ) (m m' : ByteMap)
    → ((x : ℕ) → lies_in x a n ≡ true → m x ≡ m' x)
    → load_number n a m ≡ load_number n a m'
unfolding load_number lies_in
load_number_same zero a m m' h = refl
load_number_same (suc n) a m m' h =
    ap₂ (λ (x y : ℕ). x + 256 * y) (h a (ground arith))
      (load_number_same n (a + 1) m m' (λ x inside. h x (ground arith)))
