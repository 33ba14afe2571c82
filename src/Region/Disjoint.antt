-- ===== src/Region/Disjoint.antt =====
-- What `region_alloc` of bootstrap/x86_64_linux_interface.c gives out never overlaps.
use l.Prelude.{ℕ, ◌+◌, ◌%◌, ◌^◌, ◌≤◌, ◌<◌, ◌≡◌, List, ◌∷◌, [], ◌⊎◌, inl, inr, arith}
use l.Region.{Area, Region}

-- Bytes from `start` on.
pub record Block : Type 0 where
  pub start : ℕ
  pub size : ℕ

unfoldable pub Apart : Area → Area → Type 0
Apart a b = (a.limit ≤ b.base) ⊎ (b.limit ≤ a.base)

unfoldable pub AllApart : Area → List Area → Type 0
unfolding Apart
AllApart a [] = Unit
AllApart a (b ∷ bs) = Apart a b × AllApart a bs

-- Behind the head of an area, and before its free memory.
unfoldable pub InArea : Area → Block → Type 0
InArea a x = (a.base + 40 ≤ x.start) × (x.start + x.size ≤ a.free)

unfoldable pub InOne : List Area → Block → Type 0
unfolding InArea
InOne [] x = ⊥
InOne (a ∷ areas) x = InArea a x ⊎ InOne areas x

unfoldable pub AllIn : List Area → List Block → Type 0
unfolding InOne
AllIn areas [] = Unit
AllIn areas (x ∷ xs) = InOne areas x × AllIn areas xs

unfoldable pub Separate : Block → List Block → Type 0
Separate x [] = Unit
Separate x (y ∷ ys) = ((x.start + x.size ≤ y.start) ⊎ (y.start + y.size ≤ x.start)) × Separate x ys

unfoldable pub AllSeparate : List Block → Type 0
unfolding Separate
AllSeparate [] = Unit
AllSeparate (x ∷ xs) = Separate x xs × AllSeparate xs

-- Free memory lies in its area.
unfoldable pub IsSound : Area → Type 0
IsSound a = (a.base + 40 ≤ a.free) × (a.free ≤ a.limit)

unfoldable pub AllSound : List Area → Type 0
unfolding IsSound
AllSound [] = Unit
AllSound (a ∷ areas) = IsSound a × AllSound areas

-- A region with the blocks that it gave out: they lie in its areas and do not overlap.
pub record Serves (reg : Region) (blocks : List Block) : Type 0 where
  pub sound : AllSound (reg.current ∷ reg.older)
  pub apart : AllApart reg.current reg.older
  pub aligned : reg.current.free % 8 ≡ 0
  pub fits : reg.current.limit < 2 ^ 64
  pub inside : AllIn (reg.current ∷ reg.older) blocks
  pub separate : AllSeparate blocks

-- What `mmap` promises for an area: whole pages, within the addresses, that no other area uses.
pub record FreshPages (reg : Region) (base len : ℕ) : Type 0 where
  pub page : base % 4096 ≡ 0
  pub addressable : base + len < 2 ^ 64
  pub unused :
      AllApart
        (record { base = base; free = base + 40; limit = base + len })
        (reg.current ∷ reg.older)

-- A block at the end of the first area meets none in the areas.
meets_none_one :
    (a : Area) (areas : List Area) (x y : Block)
    → a.free ≤ x.start
    → x.start + x.size ≤ a.limit
    → a.base ≤ x.start
    → AllApart a areas
    → AllSound areas
    → InOne (a ∷ areas) y
    → (x.start + x.size ≤ y.start) ⊎ (y.start + y.size ≤ x.start)
unfolding InOne InArea AllApart Apart AllSound IsSound
meets_none_one a areas x y h₁ h₂ h₃ apart sound (inl (_, below)) = inr (omega arith)
meets_none_one a areas x y h₁ h₂ h₃ apart sound (inr other) = elsewhere areas apart sound other
  where
    elsewhere :
        (bs : List Area)
        → AllApart a bs
        → AllSound bs
        → InOne bs y
        → (x.start + x.size ≤ y.start) ⊎ (y.start + y.size ≤ x.start)
    elsewhere [] _ _ nowhere = elim nowhere [ ]
    elsewhere (b ∷ bs) (inl before, _) _ (inl (from, _)) = inl (omega arith)
    elsewhere (b ∷ bs) (inr behind, _) ((_, free), _) (inl (_, to)) = inr (omega arith)
    elsewhere (b ∷ bs) (_, apart) (_, sound) (inr in_bs) = elsewhere bs apart sound in_bs

pub meets_none :
    (a : Area) (areas : List Area) (x : Block) (ys : List Block)
    → a.free ≤ x.start
    → x.start + x.size ≤ a.limit
    → a.base ≤ x.start
    → AllApart a areas
    → AllSound areas
    → AllIn (a ∷ areas) ys
    → Separate x ys
unfolding AllIn Separate
meets_none a areas x [] h₁ h₂ h₃ apart sound inside = tt
meets_none a areas x (y ∷ ys) h₁ h₂ h₃ apart sound (here, inside) = (
  meets_none_one a areas x y h₁ h₂ h₃ apart sound here,
  meets_none a areas x ys h₁ h₂ h₃ apart sound inside,
)

-- Blocks stay in their areas when free memory shrinks, or an area is added.
pub AllIn-taken :
    (a b : Area) (areas : List Area) (ys : List Block)
    → a.base ≡ b.base
    → a.free ≤ b.free
    → AllIn (a ∷ areas) ys
    → AllIn (b ∷ areas) ys
unfolding AllIn InOne InArea
AllIn-taken a b areas [] same less inside = tt
AllIn-taken a b areas (y ∷ ys) same less (inl (from, to), inside) =
    (inl (omega arith, omega arith), AllIn-taken a b areas ys same less inside)
AllIn-taken a b areas (y ∷ ys) same less (inr other, inside) =
    (inr other, AllIn-taken a b areas ys same less inside)

pub AllIn-added :
    (a : Area) (areas : List Area) (ys : List Block) → AllIn areas ys → AllIn (a ∷ areas) ys
unfolding AllIn InOne
AllIn-added a areas [] inside = tt
AllIn-added a areas (y ∷ ys) (here, inside) = (inr here, AllIn-added a areas ys inside)
