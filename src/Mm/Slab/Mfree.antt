-- ===== src/Mm/Slab/Mfree.antt =====
-- kmfree of mm/slab.c: it gives back one sector, and what it does with a slab that has become empty.
use march_os.Base.{
  ℕ, suc, ◌+◌, ◌-◌, ◌*◌, ◌/◌, ◌%◌, ◌<◌, ◌≡◌, ◌≢◌, refl, ◌∙◌, true, false, Bool, ◌&&◌, ◌||◌, not,
  List, [], ◌∷◌, ◌++◌, leb, ◌==◌, if◌then◌else◌, ok, ◌>>=◌, panic, ◌⊎◌, inl, inr, Bool-cases,
  Returns, arith,
}
use march_os.Base.Bits.{digit, clear_bit, digit-clear_bit}
use march_os.Mm.Pm.{pm_4k, bytes, pmfree}
use march_os.Mm.Slab.{
  Slab, Kmem, Place, slab_bytes, pages_of, block_of, is_nil, store_bitmap, unlinked, kmfree_fuel,
  kmfree, entries,
}
use march_os.Mm.Slab.Lookup.{IsPlace, find_place-IsPlace, entries-unlink}
use march_os.Mm.Slab.Malloc.{pages_of-le}
use march_os.Mm.Slab.Sectors.{here, free_at, used_at, sectors, sectors_one}
use march_os.Mm.Slab.Ends.{kmfree_fuel_enough}
use march_os.Mm.Slab.Occupied.{
  InUse, pages_lem, slab_bytes_pos, sector_index, used_at-append, free_at-append,
}

-- The slab has become empty, or holds its own struct alone, and is not the first of its chain:
-- kmfree takes it off the chain.
abbrev pub emptied : Place → ℕ → Bool
emptied p bit =
    (bit == 0 && not (is_nil p.before))
    || (bit == 1 && slab_bytes p.idx == 64 && not (is_nil p.before))

-- The sector at `addr` was in use and is free; no other sector has changed sides, and the other
-- chains and the page allocator are as they were.
pub record Released (s : Kmem) (addr idx : ℕ) (s' : Kmem) : Type 0 where
  pub was_used :
      (a : ℕ)
      → used_at (slab_bytes idx) (pages_of idx) (s.slabs idx) a
        ≡ used_at (slab_bytes idx) (pages_of idx) (s'.slabs idx) a + here addr a
  pub now_free :
      (a : ℕ)
      → free_at (slab_bytes idx) (pages_of idx) (s'.slabs idx) a
        ≡ free_at (slab_bytes idx) (pages_of idx) (s.slabs idx) a + here addr a
  pub others : (j : ℕ) → idx ≢ j → s'.slabs j ≡ s.slabs j
  pub same_pm : s'.pm ≡ s.pm

module _ (kernel_end memtotal : ℕ) {s : Kmem} {addr : ℕ} {p : Place} {i : ℕ}
    (u : InUse s addr p i) where
  found : (p.idx < 14) × IsPlace s.slabs addr p
  found = find_place-IsPlace addr s.slabs p u.place

  index : (addr - p.entry.address) / slab_bytes p.idx ≡ i
  index = rw u.sector (sector_index p.entry.address i (slab_bytes p.idx) (slab_bytes_pos p.idx))

  guarded :
      addr % slab_bytes p.idx ≡ 0
      → (not (addr % slab_bytes p.idx == 0) || leb (bytes (block_of p.idx) / slab_bytes p.idx) i)
        ≡ false
  guarded whole = ground (arith, u.in_range)

  sector_bound : i < 64
  sector_bound = omega (arith, pages_lem p.idx found.0, pages_of-le p.idx found.0, u.in_range)

  one_used :
      (a : ℕ)
      → sectors (pages_of p.idx) 0 p.entry.address (slab_bytes p.idx) (digit p.entry.bitmap) a
        ≡ sectors
            (pages_of p.idx)
            0
            p.entry.address
            (slab_bytes p.idx)
            (digit (clear_bit p.entry.bitmap i))
            a
          + here (p.entry.address + i * slab_bytes p.idx) a
  one_used a =
      sectors_one (pages_of p.idx) 0 p.entry.address (slab_bytes p.idx) i
        (digit (clear_bit p.entry.bitmap i)) (digit p.entry.bitmap) a (omega arith)
        (omega (arith, pages_lem p.idx found.0, u.in_range))
        (ground (arith, digit-clear_bit p.entry.bitmap i i u.word sector_bound, u.marked))
        (λ j ne. ground (arith, digit-clear_bit p.entry.bitmap i j u.word sector_bound))

  one_free :
      (a : ℕ)
      → sectors
          (pages_of p.idx)
          0
          p.entry.address
          (slab_bytes p.idx)
          (λ j. 1 - digit (clear_bit p.entry.bitmap i) j)
          a
        ≡ sectors
            (pages_of p.idx)
            0
            p.entry.address
            (slab_bytes p.idx)
            (λ j. 1 - digit p.entry.bitmap j)
            a
          + here (p.entry.address + i * slab_bytes p.idx) a
  one_free a =
      sectors_one (pages_of p.idx) 0 p.entry.address (slab_bytes p.idx) i
        (λ j. 1 - digit p.entry.bitmap j) (λ j. 1 - digit (clear_bit p.entry.bitmap i) j) a
        (omega arith) (omega (arith, pages_lem p.idx found.0, u.in_range))
        (ground (arith, digit-clear_bit p.entry.bitmap i i u.word sector_bound, u.marked))
        (λ j ne. ground (arith, digit-clear_bit p.entry.bitmap i j u.word sector_bound))

  abbrev after : Kmem
  after = store_bitmap kernel_end memtotal p (clear_bit p.entry.bitmap i) s

  used_after :
      (a : ℕ)
      → used_at (slab_bytes p.idx) (pages_of p.idx) (s.slabs p.idx) a
        ≡ used_at (slab_bytes p.idx) (pages_of p.idx) (after.slabs p.idx) a + here addr a
  used_after a =
      let self : (p.idx == p.idx) ≡ true = ground arith in
      let n = pages_of p.idx in
      let z = slab_bytes p.idx in
      let e' = record (p.entry) { bitmap = clear_bit p.entry.bitmap i } in
      rw self (
        rw found.1.chain (
          rw u.sector (
            omega (
              arith,
              used_at-append z n p.before (p.entry ∷ p.after) a,
              used_at-append z n p.before (e' ∷ p.after) a,
              one_used a,
            ))))

  -- kmfree past its guards.
  kmfree_body :
      (k : ℕ)
      → addr % slab_bytes p.idx ≡ 0
      → kmfree_fuel kernel_end memtotal (suc k) addr s ≡ (
          let again =
            kmfree_fuel kernel_end memtotal k p.entry.self (unlinked kernel_end memtotal p s) in
          if clear_bit p.entry.bitmap i == 0 && not (is_nil p.before)
          then again
          else if clear_bit p.entry.bitmap i == 1 && slab_bytes p.idx == 64 && not (is_nil p.before)
          then (pmfree kernel_end memtotal p.entry.self pm_4k s.pm >>= λ pm'.
              ok (record (unlinked kernel_end memtotal p s) { pm = pm' }))
          else ok (store_bitmap kernel_end memtotal p (clear_bit p.entry.bitmap i) s))
  unfolding kmfree_fuel
  kmfree_body k whole =
      let some_addr : (addr == 0) ≡ false = ground (arith, u.ne_null) in
      rw (some_addr, u.place, index, guarded whole) refl

  free_after :
      (a : ℕ)
      → free_at (slab_bytes p.idx) (pages_of p.idx) (after.slabs p.idx) a
        ≡ free_at (slab_bytes p.idx) (pages_of p.idx) (s.slabs p.idx) a + here addr a
  free_after a =
      let self : (p.idx == p.idx) ≡ true = ground arith in
      let n = pages_of p.idx in
      let z = slab_bytes p.idx in
      let e' = record (p.entry) { bitmap = clear_bit p.entry.bitmap i } in
      rw self (
        rw found.1.chain (
          rw u.sector (
            omega (
              arith,
              free_at-append z n p.before (p.entry ∷ p.after) a,
              free_at-append z n p.before (e' ∷ p.after) a,
              one_free a,
            ))))

  released :
      addr % slab_bytes p.idx ≡ 0
      → emptied p (clear_bit p.entry.bitmap i) ≡ false
      → Returns (Released s addr p.idx) (kmfree kernel_end memtotal addr s)
  unfolding kmfree
  released whole stays = (
    after,
    kmfree_body (entries 14 0 s.slabs) whole ∙ ground arith,
    record {
      was_used = used_after;
      now_free = free_after;
      others = λ j ne. ground arith;
      same_pm = refl;
    },
  )

  misaligned : addr % slab_bytes p.idx ≢ 0 → kmfree kernel_end memtotal addr s ≡ panic
  unfolding kmfree kmfree_fuel
  misaligned off =
      let some_addr : (addr == 0) ≡ false = ground (arith, u.ne_null) in
      let rest : (addr % slab_bytes p.idx == 0) ≡ false = ground arith in
      rw (some_addr, u.place, rest) refl

  -- kmfree of a sector in use, unless it empties its slab, gives back exactly that sector if the
  -- address of the sector is a multiple of its size, and panics if it is not.
  pub kmfree-Released :
      emptied p (clear_bit p.entry.bitmap i) ≡ false
      → ((addr % slab_bytes p.idx ≡ 0)
          × Returns (Released s addr p.idx) (kmfree kernel_end memtotal addr s))
        ⊎ ((addr % slab_bytes p.idx ≢ 0) × (kmfree kernel_end memtotal addr s ≡ panic))
  kmfree-Released stays = elim (Bool-cases (addr % slab_bytes p.idx == 0)) [
    | inl e ↦
        let whole : addr % slab_bytes p.idx ≡ 0 = ground (arith, e) in
        inl (whole, released whole stays)
    | inr e ↦ let off : addr % slab_bytes p.idx ≢ 0 = ground (arith, e) in inr (off, misaligned off)
  ]

  pub struct_released :
      {c : List Slab} {k : ℕ}
      → addr % slab_bytes p.idx ≡ 0
      → emptied p (clear_bit p.entry.bitmap i) ≡ false
      → p.idx ≢ k
      → s.slabs k ≡ c
      → Returns (λ s'. (s'.pm ≡ s.pm) × (s'.slabs k ≡ c)) (kmfree kernel_end memtotal addr s)
  struct_released {k} whole stays apart chain =
      let (s', e, r) = released whole stays in (s', e, (r.same_pm, r.others k apart ∙ chain))

  -- kmfree of the last sector of a slab that is not the first of its chain is kmfree of that slab's
  -- struct, with the slab off the chain.
  pub kmfree_last :
      addr % slab_bytes p.idx ≡ 0
      → clear_bit p.entry.bitmap i ≡ 0
      → p.before ≢ []
      → kmfree kernel_end memtotal addr s
        ≡ kmfree kernel_end memtotal p.entry.self (unlinked kernel_end memtotal p s)
  unfolding kmfree
  kmfree_last whole zero_bits behind_it =
      let fewer = entries-unlink addr s.slabs p found in
      kmfree_body (entries 14 0 s.slabs) whole
      ∙ ground (
        arith,
        kmfree_fuel_enough kernel_end memtotal (entries 14 0 s.slabs)
            (suc (entries 14 0 (unlinked kernel_end memtotal p s).slabs)) p.entry.self
            (unlinked kernel_end memtotal p s),
      )

module _ (kernel_end memtotal : ℕ) {s : Kmem} {addr : ℕ} {p : Place} {i : ℕ}
    (u : InUse s addr p i) where
  -- The block of a slab that has become empty leaks: kmfree of the last sector of a slab behind
  -- the first of its chain, whose struct is a sector of another chain that stays, both at
  -- multiples of their sizes, takes the slab off its chain and returns with the page allocator untouched. No pmfree of the block is made.
  pub kmfree_leaks :
      {q : Place} {j : ℕ}
      → addr % slab_bytes p.idx ≡ 0
      → p.entry.self % slab_bytes q.idx ≡ 0
      → clear_bit p.entry.bitmap i ≡ 0
      → p.before ≢ []
      → InUse (unlinked kernel_end memtotal p s) p.entry.self q j
      → emptied q (clear_bit q.entry.bitmap j) ≡ false
      → q.idx ≢ p.idx
      → Returns
          (λ s'. (s'.pm ≡ s.pm) × (s'.slabs p.idx ≡ p.before ++ p.after))
          (kmfree kernel_end memtotal addr s)
  kmfree_leaks whole struct_whole zero_bits behind_it v stays apart =
      rw (kmfree_last kernel_end memtotal u whole zero_bits behind_it)
        (struct_released kernel_end memtotal v struct_whole stays apart (ground arith))
