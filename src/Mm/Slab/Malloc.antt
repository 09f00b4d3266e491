-- ===== src/Mm/Slab/Malloc.antt =====
-- kmalloc of mm/slab.c: its size classes, sectors that are taken, and slabs that are added.
use march_os.Base.{
  ℕ, ◌+◌, ◌-◌, ◌^◌, ◌≤◌, ◌<◌, ◌≡◌, ◌≢◌, ◌⊎◌, ◌↔◌, refl, true, false, Option, none, some, [], ◌∷◌,
  ◌++◌, leb, ltb, ◌==◌, within, Bool-cases, inl, inr, ok, panic, Returns, every_below,
  every_below_sound, arith,
}
use march_os.Mm.Mem.{memset_lem}
use mathlib.Core.Path.{subst}
use march_os.Mm.Pm.Free.{Free, Rep}
use march_os.Mm.Pm.Taken.{Allocated}
use march_os.Mm.Pm.Laws.{Available, pmalloc-AllocSpec}
use march_os.Mm.Pm.{pm_4k}
use march_os.Mm.Slab.{
  Kmem, Found, slab_bytes, pages_of, size_to_slab_idx, search_chain, find_free_slab, update_chain,
  cleared, kmalloc_64, kmalloc_large, kmalloc,
}
use march_os.Mm.Slab.Sectors.{here, free_at, used_at, Searched, found, full, search_chain-Searched}

-- A class that is found is one of the 14, it fits the size, and no smaller class does.
pub size_to_slab_idx_least :
    (size i : ℕ)
    → size_to_slab_idx size ≡ ok i
    → (i < 14) × (size ≤ slab_bytes i) × ((i ≡ 0) ⊎ (slab_bytes (i - 1) < size))
unfolding size_to_slab_idx
size_to_slab_idx_least size i h = ground arith

-- kmalloc has a class exactly for the sizes up to 512 KiB.
pub size_to_slab_idx_panic : (size : ℕ) → (size_to_slab_idx size ≡ panic) ↔ (524288 < size)
unfolding size_to_slab_idx
size_to_slab_idx_panic size = ground arith

few_pages : every_below 14 (λ i. leb (pages_of i) 64) ≡ true
unfolding every_below
few_pages = refl

pub pages_of-le : (idx : ℕ) → idx < 14 → pages_of idx ≤ 64
pages_of-le idx h =
    let t = every_below_sound 14 (λ i. leb (pages_of i) 64) idx few_pages h in ground arith

-- A sector of the class at `addr` was free and is in use; no other sector has changed sides, the
-- other chains are as they were, and so is all memory outside the sector, whose bytes are 0.
pub record SectorTaken (idx : ℕ) (s : Kmem) (addr : ℕ) (s' : Kmem) : Type 0 where
  pub was_free :
      (a : ℕ)
      → free_at (slab_bytes idx) (pages_of idx) (s.slabs idx) a
        ≡ free_at (slab_bytes idx) (pages_of idx) (s'.slabs idx) a + here addr a
  pub now_used :
      (a : ℕ)
      → used_at (slab_bytes idx) (pages_of idx) (s'.slabs idx) a
        ≡ used_at (slab_bytes idx) (pages_of idx) (s.slabs idx) a + here addr a
  pub others : (j : ℕ) → idx ≢ j → s'.slabs j ≡ s.slabs j
  pub zeroed : (p : ℕ) → within addr (slab_bytes idx) p ≡ true → s'.pm.mem p ≡ 0
  pub frame : (p : ℕ) → within addr (slab_bytes idx) p ≡ false → s'.pm.mem p ≡ s.pm.mem p
  pub pages : s'.pm.pmmap ≡ s.pm.pmmap

-- The class has a free sector somewhere.
abbrev pub HasFree : ℕ → Kmem → Type 0
HasFree idx s = (a : ℕ) × (1 ≤ free_at (slab_bytes idx) (pages_of idx) (s.slabs idx) a)

abbrev took : ℕ → Kmem → Found → Kmem
took idx s f = cleared f.at (slab_bytes idx) (record s { slabs = update_chain s.slabs idx f.chain })

taken :
    (idx : ℕ) (s : Kmem) (f : Found)
    → ((a : ℕ)
        → free_at (slab_bytes idx) (pages_of idx) (s.slabs idx) a
          ≡ free_at (slab_bytes idx) (pages_of idx) f.chain a + here f.at a)
    → ((a : ℕ)
        → used_at (slab_bytes idx) (pages_of idx) f.chain a
          ≡ used_at (slab_bytes idx) (pages_of idx) (s.slabs idx) a + here f.at a)
    → SectorTaken idx s f.at (took idx s f)
taken idx s f was now =
    let self : (idx == idx) ≡ true = ground arith in
    record {
      was_free = rw self was;
      now_used = rw self now;
      others = λ j ne. ground arith;
      zeroed = λ p i. rw memset_lem (rw i);
      frame = λ p i. rw memset_lem (rw i);
      pages = refl;
    }

-- The search, when some sector is free.
search_some :
    (idx : ℕ) (s : Kmem) (r : Option Found)
    → HasFree idx s
    → Searched (slab_bytes idx) (pages_of idx) (s.slabs idx) r
    → (f : Found) × (r ≡ some f) × SectorTaken idx s f.at (took idx s f)
search_some idx s _ h (found f was now) = (f, refl, taken idx s f was now)
search_some idx s none (a, some_free) (full none_free) = absurd (omega (arith, none_free a))

search-taken :
    (idx : ℕ) (s : Kmem)
    → idx < 14
    → HasFree idx s
    → (f : Found) × (search_chain (slab_bytes idx) (pages_of idx) (s.slabs idx) ≡ some f)
      × SectorTaken idx s f.at (took idx s f)
search-taken idx s small h =
    search_some idx s _ h
      (search_chain-Searched (slab_bytes idx) (pages_of idx) (pages_of-le idx small) (s.slabs idx))

small_taken :
    (kernel_end memtotal : ℕ) (s : Kmem)
    → HasFree 0 s
    → Returns (λ (addr, s'). SectorTaken 0 s addr s') (kmalloc_64 kernel_end memtotal s)
unfolding kmalloc_64 find_free_slab
small_taken kernel_end memtotal s some_free =
    let (f, e, t) = search-taken 0 s (omega arith) some_free in rw e ((f.at, took 0 s f), refl, t)

first_class : (size idx : ℕ) → size_to_slab_idx size ≡ ok idx → leb size 64 ≡ true → 0 ≡ idx
unfolding size_to_slab_idx
first_class size idx class first = ground arith

-- kmalloc of a size whose class has a free sector returns, and takes one such sector.
pub kmalloc-SectorTaken :
    (kernel_end memtotal size idx : ℕ) (s : Kmem)
    → size_to_slab_idx size ≡ ok idx
    → HasFree idx s
    → Returns (λ (addr, s'). SectorTaken idx s addr s') (kmalloc kernel_end memtotal size s)
unfolding kmalloc kmalloc_large find_free_slab
kmalloc-SectorTaken kernel_end memtotal size idx s class some_free =
    elim (Bool-cases (leb size 64)) [
      | inl first ↦ rw first (
          subst
            (λ i.
              HasFree i s
              → Returns (λ (addr, s'). SectorTaken i s addr s') (kmalloc_64 kernel_end memtotal s))
            (first_class size idx class first) (small_taken kernel_end memtotal s) some_free)
      | inr later ↦
          rw (later, class)
            (let small = (size_to_slab_idx_least size idx class).0 in
              let (f, e, t) = search-taken idx s small some_free in
              let in_range : ltb 14 idx ≡ false = ground arith in
              rw (in_range, e) ((f.at, took idx s f), refl, t))
    ]

no_search :
    (idx : ℕ) (s : Kmem) (r : Option Found)
    → ((a : ℕ) → free_at (slab_bytes idx) (pages_of idx) (s.slabs idx) a ≡ 0)
    → Searched (slab_bytes idx) (pages_of idx) (s.slabs idx) r
    → r ≡ none
no_search idx s _ h (full none_free) = refl
no_search idx s (some g) h (found f was now) = absurd (ground (arith, was f.at, h f.at))

-- A slab was added to the first chain: its block was free before, is taken and is all 0; its
-- first two sectors are in use, the first for the struct and the second, at `addr`, for the caller.
pub record SlabAdded (kernel_end memtotal : ℕ) (s : Kmem) (f : Free) (addr : ℕ) (s' : Kmem)
    : Type 0 where
  pub new : ℕ
  pub block : Allocated kernel_end memtotal pm_4k s.pm f new s'.pm
  pub second : addr ≡ new + 64
  pub chain : s'.slabs 0 ≡ s.slabs 0 ++ record { self = new; address = new; bitmap = 3 } ∷ []
  pub others : (j : ℕ) → 0 ≢ j → s'.slabs j ≡ s.slabs j

-- kmalloc of at most 64 bytes with no free sector of that class adds a slab, if the page allocator
-- has a block for it, and panics otherwise.
pub kmalloc-SlabAdded :
    (kernel_end memtotal size : ℕ) (s : Kmem) (f : Free)
    → 0 < kernel_end
    → memtotal < 2 ^ 64
    → Rep kernel_end memtotal s.pm f
    → size ≤ 64
    → ((a : ℕ) → free_at (slab_bytes 0) (pages_of 0) (s.slabs 0) a ≡ 0)
    → (Available pm_4k f
        × Returns
            (λ (addr, s'). SlabAdded kernel_end memtotal s f addr s')
            (kmalloc kernel_end memtotal size s))
      ⊎ (¬ (Available pm_4k f) × (kmalloc kernel_end memtotal size s ≡ panic))
unfolding kmalloc kmalloc_64 find_free_slab
kmalloc-SlabAdded kernel_end memtotal size s f pos word r first none_free =
    let small : leb size 64 ≡ true = ground arith in
    let e =
      no_search 0 s _ none_free
        (search_chain-Searched (slab_bytes 0) (pages_of 0) (omega arith) (s.slabs 0)) in
    rw (small, e)
      (elim (pmalloc-AllocSpec kernel_end memtotal pos word r pm_4k) [
        | inl (block, ((new, pm'), e', a)) ↦ inl (
          block,
          rw e' (
            _,
            refl,
            record {
              new = new;
              block = a;
              second = refl;
              chain = refl;
              others = λ j ne. ground arith;
            },
          ),
        )
        | inr (no_block, stop) ↦ inr (no_block, rw stop)
      ])
