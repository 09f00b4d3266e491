-- ===== src/Mm/Slab/Occupied.antt =====
-- A sector in use, and what an address in a slab of mm/slab.c says of it.
use march_os.Base.{
  ℕ, ◌+◌, ◌-◌, ◌*◌, ◌/◌, ◌^◌, ◌<◌, ◌≡◌, ◌≢◌, refl, true, some, List, [], ◌∷◌, ◌++◌, ◌==◌,
  every_below, every_below_sound, ==_iff, arith,
}
use native.Mathlib.Nat.{one-le-pow, mul-div_cancel}
use march_os.Base.Bits.{digit}
use march_os.Mm.Pm.{bytes}
use march_os.Mm.Slab.{Slab, Kmem, Place, slab_bytes, pages_of, block_of, find_place}
use march_os.Mm.Slab.Sectors.{free_at, used_at}

-- `addr` is the sector `i` of the slab at the place `p`, and is in use.
pub record InUse (s : Kmem) (addr : ℕ) (p : Place) (i : ℕ) : Type 0 where
  pub ne_null : addr ≢ 0
  pub place : find_place 14 0 addr s.slabs ≡ some p
  pub sector : addr ≡ p.entry.address + i * slab_bytes p.idx
  pub in_range : i < bytes (block_of p.idx) / slab_bytes p.idx
  pub marked : digit p.entry.bitmap i ≡ 1
  pub word : p.entry.bitmap < 2 ^ 64

same_pages : every_below 14 (λ i. pages_of i == bytes (block_of i) / slab_bytes i) ≡ true
unfolding every_below
same_pages = refl

pub pages_lem : (idx : ℕ) → idx < 14 → pages_of idx ≡ bytes (block_of idx) / slab_bytes idx
pages_lem idx h =
    let t =
      every_below_sound 14 (λ i. pages_of i == bytes (block_of i) / slab_bytes i) idx same_pages
        h in
    (==_iff _ _).0 t

pub slab_bytes_pos : (idx : ℕ) → 0 < slab_bytes idx
slab_bytes_pos idx = omega (arith, one-le-pow idx 2)

pub sector_index : (base i z : ℕ) → 0 < z → (base + i * z - base) / z ≡ i
sector_index base i z pos =
    let back : base + i * z - base ≡ i * z = omega arith in rw back (mul-div_cancel i pos)

pub used_at-append :
    (size pages : ℕ) (xs ys : List Slab) (a : ℕ)
    → used_at size pages (xs ++ ys) a ≡ used_at size pages xs a + used_at size pages ys a
used_at-append size pages [] ys a = omega arith
used_at-append size pages (x ∷ xs) ys a = omega (arith, used_at-append size pages xs ys a)

pub free_at-append :
    (size pages : ℕ) (xs ys : List Slab) (a : ℕ)
    → free_at size pages (xs ++ ys) a ≡ free_at size pages xs a + free_at size pages ys a
free_at-append size pages [] ys a = omega arith
free_at-append size pages (x ∷ xs) ys a = omega (arith, free_at-append size pages xs ys a)
