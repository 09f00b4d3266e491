-- ===== src/Mm/Slab/Ends.antt =====
-- kmfree of mm/slab.c ends.
use march_os.Base.{
  ℕ, zero, suc, ◌-◌, ◌/◌, ◌%◌, ◌&&◌, ◌||◌, not, leb, ◌>>=◌, ◌<◌, ◌≡◌, refl, Bool, true, false,
  if◌then◌else◌, Outcome, ok, panic, ◌==◌, Bool-cases, Option-cases, inl, inr, Ends, then-Ends,
  arith,
}
use march_os.Mm.Pm.{PmSize, pm_4k, Pm, pmfree, bad_address, bytes}
use march_os.Base.Bits.{clear_bit}
use march_os.Mm.Slab.{
  Kmem, slab_bytes, block_of, is_nil, store_bitmap, find_place, unlinked, kmfree_fuel, kmfree,
  entries,
}
use march_os.Mm.Slab.Lookup.{find_place-IsPlace, entries-unlink}

if-Ends {ℓ} :
    {A : Type ℓ} (b : Bool) (x y : Outcome A) → Ends x → Ends y → Ends (if b then x else y)
if-Ends true x y hx hy = hx
if-Ends false x y hx hy = hy

module _ (kernel_end memtotal : ℕ) where
  -- With more rounds than slabs the result is the same, whatever their number.
  pub kmfree_fuel_enough :
      (k k' addr : ℕ) (s : Kmem)
      → entries 14 0 s.slabs < k
      → entries 14 0 s.slabs < k'
      → kmfree_fuel kernel_end memtotal k addr s ≡ kmfree_fuel kernel_end memtotal k' addr s
  unfolding kmfree_fuel
  kmfree_fuel_enough zero k' addr s h h' = absurd (omega arith)
  kmfree_fuel_enough (suc k) zero addr s h h' = absurd (omega arith)
  kmfree_fuel_enough (suc k) (suc k') addr s h h' =
      elim (Option-cases (find_place 14 0 addr s.slabs)) [
        | inl e ↦ rw e
        | inr (p, e) ↦
            let fewer = entries-unlink addr s.slabs p (find_place-IsPlace addr s.slabs p e) in
            rw
              (
                e,
                kmfree_fuel_enough k k' p.entry.self (unlinked kernel_end memtotal p s)
                    (omega arith) (omega arith),
              )
              refl
      ]

  pmfree-Ends : (addr : ℕ) (size : PmSize) (s : Pm) → Ends (pmfree kernel_end memtotal addr size s)
  unfolding pmfree
  pmfree-Ends addr size s = elim (Bool-cases (bad_address kernel_end memtotal addr)) [
    | inl e ↦ rw e tt
    | inr e ↦ rw e tt
  ]

  kmfree_fuel-Ends :
      (k addr : ℕ) (s : Kmem)
      → entries 14 0 s.slabs < k
      → Ends (kmfree_fuel kernel_end memtotal k addr s)
  unfolding kmfree_fuel
  kmfree_fuel-Ends zero addr s h = absurd (omega arith)
  kmfree_fuel-Ends (suc k) addr s h = elim (Bool-cases (addr == 0)) [
    | inl null ↦ rw null tt
    | inr given ↦ elim (Option-cases (find_place 14 0 addr s.slabs)) [
      | inl e ↦ rw (given, e) tt
      | inr (p, e) ↦
          let fewer = entries-unlink addr s.slabs p (find_place-IsPlace addr s.slabs p e) in
          let size = slab_bytes p.idx in
          let i = (addr - p.entry.address) / size in
          let bit = clear_bit p.entry.bitmap i in
          let again =
            kmfree_fuel kernel_end memtotal k p.entry.self (unlinked kernel_end memtotal p s) in
          let given_back = pmfree kernel_end memtotal p.entry.self pm_4k s.pm >>= λ pm'.
          ok (record (unlinked kernel_end memtotal p s) { pm = pm' }) in
          let stored : Outcome Kmem = ok (store_bitmap kernel_end memtotal p bit s) in
          let last =
            if bit == 1 && size == 64 && not (is_nil p.before) then given_back else stored in
          let rest = if bit == 0 && not (is_nil p.before) then again else last in
          rw (given, e)
            (if-Ends (not (addr % size == 0) || leb (bytes (block_of p.idx) / size) i) panic rest tt
              (if-Ends (bit == 0 && not (is_nil p.before)) again last
                (kmfree_fuel-Ends k p.entry.self (unlinked kernel_end memtotal p s) (omega arith))
                (if-Ends (bit == 1 && size == 64 && not (is_nil p.before)) given_back stored
                  (then-Ends (pmfree kernel_end memtotal p.entry.self pm_4k s.pm)
                    (λ pm'. ok (record (unlinked kernel_end memtotal p s) { pm = pm' }))
                    (pmfree-Ends p.entry.self pm_4k s.pm) λ pm'. tt)
                  tt)))
    ]
  ]

  -- kmfree ends for every address, in a result or in a panic: each call that it makes of itself has
  -- a slab less on the chains.
  pub kmfree-Ends : (addr : ℕ) (s : Kmem) → Ends (kmfree kernel_end memtotal addr s)
  unfolding kmfree
  kmfree-Ends addr s = kmfree_fuel-Ends _ addr s (omega arith)
