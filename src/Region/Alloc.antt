-- ===== src/Region/Alloc.antt =====
-- `region_alloc` of bootstrap/x86_64_linux_interface.c keeps the blocks that it gave out apart.
use l.Prelude.{
  ℕ, ◌+◌, ◌*◌, ◌%◌, ◌^◌, ◌≤◌, ◌<◌, ◌≡◌, refl, List, ◌∷◌, [], ltb, inl, inr, Bool-cases, arith,
}
use l.Interface.{pad_size}
use l.Interface.Numbers.{pad_size_lem}
use l.Region.{
  Area, Region, area_size, create_area, is_full, next_capacity, with_room, create_region,
  region_alloc,
}
use l.Region.Disjoint.{
  Block, Apart, AllApart, AllIn, InOne, InArea, AllSeparate, IsSound, AllSound, Serves, FreshPages,
  meets_none, AllIn-taken, AllIn-added,
}

-- The region after `n` bytes of the current area are taken.
abbrev taken : Region → ℕ → Region
taken reg n = record {
  current = record {
    base = reg.current.base;
    free = reg.current.free + n;
    limit = reg.current.limit;
  };
  older = reg.older;
}

AllApart-taken :
    (a b : Area) (areas : List Area)
    → a.base ≡ b.base
    → a.limit ≡ b.limit
    → AllApart a areas
    → AllApart b areas
unfolding AllApart Apart
AllApart-taken a b [] e e' apart = tt
AllApart-taken a b (c ∷ areas) e e' (inl before, apart) =
    (inl (omega arith), AllApart-taken a b areas e e' apart)
AllApart-taken a b (c ∷ areas) e e' (inr behind, apart) =
    (inr (omega arith), AllApart-taken a b areas e e' apart)

taken-Serves :
    (reg : Region) (blocks : List Block) (n : ℕ)
    → Serves reg blocks
    → n % 8 ≡ 0
    → reg.current.free + n ≤ reg.current.limit
    → Serves (taken reg n) (record { start = reg.current.free; size = n } ∷ blocks)
unfolding AllSound IsSound AllIn InOne InArea AllSeparate
taken-Serves reg blocks n s even room =
    let a = reg.current in
    let b = (taken reg n).current in
    let ((from, to), sound) = s.sound in
    let aligned = s.aligned in
    let new : Block = record { start = a.free; size = n } in
    record {
      sound = ((omega arith, room), sound);
      apart = AllApart-taken a b reg.older refl refl s.apart;
      aligned = omega arith;
      fits = s.fits;
      inside =
          (inl (from, omega arith), AllIn-taken a b reg.older blocks refl (omega arith) s.inside);
      separate = (
        meets_none a reg.older new blocks (omega arith) room (omega arith) s.apart sound s.inside,
        s.separate,
      );
    }

area_size-room : (min : ℕ) → min + 5000 < 2 ^ 64 → min + 40 ≤ area_size min
unfolding area_size
area_size-room min small =
    let (_, above, _) = pad_size_lem ((min + 5 * 8) % 2 ^ 64) 4096 (omega arith) (omega arith) in
    omega (arith, above)

next_capacity-room :
    (a : Area) (n : ℕ)
    → n + 2 * a.limit + 8192 < 2 ^ 64
    → (n ≤ next_capacity a n) × (next_capacity a n + 5000 < 2 ^ 64)
unfolding next_capacity
next_capacity-room a n small = (omega arith, omega arith)

-- The area that `region_alloc` would ask for, for `n` bytes.
abbrev pub next_size : Region → ℕ → ℕ
next_size reg n = area_size (next_capacity reg.current n)

module _ (mmap : ℕ → ℕ) where
  with_room-Serves :
      (reg : Region) (blocks : List Block) (n : ℕ)
      → Serves reg blocks
      → n + 2 * reg.current.limit + 8192 < 2 ^ 64
      → FreshPages reg (mmap (next_size reg n)) (next_size reg n)
      → Serves (with_room mmap reg n) blocks
        × ((with_room mmap reg n).current.free + n ≤ (with_room mmap reg n).current.limit)
  unfolding with_room is_full create_area AllSound IsSound
  with_room-Serves reg blocks n s small fresh =
      let a = reg.current in
      let ((from, to), sound) = s.sound in
      let fits = s.fits in
      let page = fresh.page in
      let (more, small_next) = next_capacity-room a n small in
      let room : next_capacity a n + 40 ≤ next_size reg n =
        area_size-room (next_capacity a n) small_next in
      elim (Bool-cases (ltb a.limit ((a.free + n) % 2 ^ 64))) [
        | inr free ↦ rw free (s, ground arith)
        | inl full ↦ rw full (
          record {
            sound = ((omega arith, omega arith), s.sound);
            apart = fresh.unused;
            aligned = omega arith;
            fits = fresh.addressable;
            inside = AllIn-added _ (reg.current ∷ reg.older) blocks s.inside;
            separate = s.separate;
          },
          omega arith,
        )
      ]

  -- For a region that serves the blocks it gave out, where the length asked for, twice the end of
  -- the current area and 8200 add up to less than `2 ^ 64`, and `mmap` gives unused pages: the new
  -- block of `region_alloc` is at least as long as asked, stands on a multiple of 8 and overlaps
  -- none of the earlier ones, and the region serves it with them.
  pub region_alloc-Serves :
      (reg : Region) (blocks : List Block) (len : ℕ)
      → Serves reg blocks
      → len + 2 * reg.current.limit + 8200 < 2 ^ 64
      → FreshPages reg (mmap (next_size reg (pad_size len 8))) (next_size reg (pad_size len 8))
      → let (mem, reg') = region_alloc mmap reg len in
        (len ≤ pad_size len 8)
        × (mem % 8 ≡ 0)
        × Serves reg' (record { start = mem; size = pad_size len 8 } ∷ blocks)
  unfolding region_alloc
  region_alloc-Serves reg blocks len s small fresh =
      let n = pad_size len 8 in
      let (even, above, below) = pad_size_lem len 8 (omega arith) (omega arith) in
      let (serves, room) = with_room-Serves reg blocks n s (omega arith) fresh in
      (above, serves.aligned, taken-Serves (with_room mmap reg n) blocks n serves even room)

  -- A new region, of whole pages within the addresses, has given nothing out.
  pub create_region-Serves :
      (min_capacity : ℕ)
      → min_capacity + 5000 < 2 ^ 64
      → mmap (area_size min_capacity) % 4096 ≡ 0
      → mmap (area_size min_capacity) + area_size min_capacity < 2 ^ 64
      → Serves (create_region mmap min_capacity) []
  unfolding create_region AllSound IsSound AllApart AllIn AllSeparate
  create_region-Serves min_capacity small page fits =
      let room = area_size-room min_capacity small in
      record {
        sound = ((omega arith, omega arith), tt);
        apart = tt;
        aligned = omega arith;
        fits = fits;
        inside = tt;
        separate = tt;
      }
