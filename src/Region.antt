-- ===== src/Region.antt =====
-- The regions of bootstrap/x86_64_linux_interface.c: `create_region` and `region_alloc`.
pub mod Disjoint
pub mod Alloc
use l.Prelude.{ℕ, ◌+◌, ◌-◌, ◌*◌, ◌%◌, ◌^◌, Bool, List, ◌∷◌, [], ltb, if◌then◌else◌}
use l.Interface.{pad_size}

-- The head of an area from `mmap`: where it begins, where free memory begins, and where it ends.
pub record Area : Type 0 where
  pub base : ℕ
  pub free : ℕ
  pub limit : ℕ

-- The area that `((void **) reg)[1]` points to, and those before it, the newest in front.
pub record Region : Type 0 where
  pub current : Area
  pub older : List Area

-- The length that `create_region` asks `mmap` for; five words of it are the head.
unfoldable pub area_size : ℕ → ℕ
area_size min_capacity = pad_size ((min_capacity + 5 * 8) % 2 ^ 64) 4096

-- Whether `len` more bytes go beyond the current area.
unfoldable pub is_full : Area → ℕ → Bool
is_full a len = ltb a.limit ((a.free + len) % 2 ^ 64)

-- Twice the current area, and the bytes asked for.
unfoldable pub next_capacity : Area → ℕ → ℕ
next_capacity a len = (len + 2 * (a.limit - a.base)) % 2 ^ 64

-- `mmap` gives the address of an area of the length asked for.
module _ (mmap : ℕ → ℕ) where
  unfoldable pub create_area : ℕ → Area
  unfolding area_size
  create_area min_capacity =
      let len = area_size min_capacity in
      let base = mmap len in record { base = base; free = base + 5 * 8; limit = base + len }

  unfoldable pub create_region : ℕ → Region
  unfolding create_area
  create_region min_capacity = record { current = create_area min_capacity; older = [] }

  unfoldable pub with_room : Region → ℕ → Region
  unfolding is_full create_area next_capacity
  with_room reg len =
      if is_full reg.current len
      then record {
        current = create_area (next_capacity reg.current len);
        older = reg.current ∷ reg.older;
      }
      else reg

  -- The memory given out, and the region with it taken.
  unfoldable pub region_alloc : Region → ℕ → ℕ × Region
  unfolding with_room
  region_alloc reg len =
      let padded = pad_size len 8 in
      let reg' = with_room reg padded in
      let a = reg'.current in
      (
        a.free,
        record {
          current = record { base = a.base; free = a.free + padded; limit = a.limit };
          older = reg'.older;
        },
      )
