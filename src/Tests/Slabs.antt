-- ===== src/Tests/Slabs.antt =====
-- The slab allocator on concrete states.
use march_os.Base.{
  ◌≢◌, ◌⊎◌, Ends, panic, ◌%◌, ℕ, ◌≡◌, ◌⊎◌, refl, List, [], ◌∷◌, ◌==◌, if◌then◌else◌, panic, Returns,
  arith,
}
use march_os.Base.Bits.{digit}
use march_os.Mm.Pm.{pm_4k}
use march_os.Mm.Pm.Laws.{Available}
use march_os.Mm.Slab.{
  Slab, Kmem, Place, slab_bytes, find_place, find_entry, size_to_slab_idx, kmalloc, kmfree,
  unlinked,
}
use march_os.Mm.Slab.Malloc.{SectorTaken, SlabAdded, kmalloc-SectorTaken, kmalloc-SlabAdded}
use march_os.Mm.Slab.Mfree.{Released, kmfree-Released, kmfree_leaks}
use march_os.Mm.Slab.Ends.{kmfree-Ends}
use march_os.Mm.Slab.Occupied.{InUse}
use march_os.Tests.Pages.{kernel_end, memtotal, one_block, one_free, one_block-Rep}

-- A chain of one slab in each of the first two classes; the second class has one more slab, whose
-- struct is the first sector of the first class.
abbrev slabs : ℕ → List Slab
slabs i =
    if i == 0
    then record { self = 0; address = 0x100_0000; bitmap = 3 } ∷ []
    else if i == 1
    then record { self = 0; address = 0x101_0000; bitmap = 0xffff_ffff }
      ∷ record { self = 0x100_0000; address = 0x102_0000; bitmap = 1 }
      ∷ []
    else []

abbrev state : Kmem
state = record { pm = one_block; slabs = slabs }

kmalloc-SectorTaken_example :
    Returns (λ (addr, s'). SectorTaken 1 state addr s') (kmalloc kernel_end memtotal 100 state)
unfolding size_to_slab_idx digit
kmalloc-SectorTaken_example =
    kmalloc-SectorTaken kernel_end memtotal 100 1 state refl (0x102_0080, omega arith)

kmfree-Ends_example : Ends (kmfree kernel_end memtotal 0x100_0040 state)
kmfree-Ends_example = kmfree-Ends kernel_end memtotal 0x100_0040 state

abbrev first_place : Place
first_place = record {
  idx = 0;
  before = [];
  entry = record { self = 0; address = 0x100_0000; bitmap = 3 };
  after = [];
}

first-InUse : InUse state 0x100_0040 first_place 1
unfolding find_place find_entry digit
first-InUse = record {
  ne_null = omega arith;
  place = refl;
  sector = refl;
  in_range = omega arith;
  marked = refl;
  word = omega arith;
}

kmfree-Released_example :
    ((0x100_0040 % slab_bytes 0 ≡ 0)
      × Returns (Released state 0x100_0040 0) (kmfree kernel_end memtotal 0x100_0040 state))
    ⊎ ((0x100_0040 % slab_bytes 0 ≢ 0) × (kmfree kernel_end memtotal 0x100_0040 state ≡ panic))
kmfree-Released_example = kmfree-Released kernel_end memtotal first-InUse refl

abbrev last_place : Place
last_place = record {
  idx = 1;
  before = record { self = 0; address = 0x101_0000; bitmap = 0xffff_ffff } ∷ [];
  entry = record { self = 0x100_0000; address = 0x102_0000; bitmap = 1 };
  after = [];
}

last-InUse : InUse state 0x102_0000 last_place 0
unfolding find_place find_entry digit
last-InUse = record {
  ne_null = omega arith;
  place = refl;
  sector = refl;
  in_range = omega arith;
  marked = refl;
  word = omega arith;
}

struct-InUse : InUse (unlinked kernel_end memtotal last_place state) 0x100_0000 first_place 0
unfolding find_place find_entry digit
struct-InUse = record {
  ne_null = omega arith;
  place = refl;
  sector = refl;
  in_range = omega arith;
  marked = refl;
  word = omega arith;
}

kmfree_leaks_example :
    Returns
      (λ s'.
        (s'.pm ≡ state.pm)
        × (s'.slabs 1 ≡ record { self = 0; address = 0x101_0000; bitmap = 0xffff_ffff } ∷ []))
      (kmfree kernel_end memtotal 0x102_0000 state)
kmfree_leaks_example =
    kmfree_leaks kernel_end memtotal last-InUse refl refl refl (λ e. cc) struct-InUse refl
      (λ e. absurd (omega arith))

-- No slab of the first class has a free sector.
abbrev full_state : Kmem
full_state = record { pm = one_block; slabs = λ i. [] }

kmalloc-SlabAdded_example :
    (Available pm_4k one_free
      × Returns
          (λ (addr, s'). SlabAdded kernel_end memtotal full_state one_free addr s')
          (kmalloc kernel_end memtotal 24 full_state))
    ⊎ (¬ (Available pm_4k one_free) × (kmalloc kernel_end memtotal 24 full_state ≡ panic))
kmalloc-SlabAdded_example =
    kmalloc-SlabAdded kernel_end memtotal 24 full_state one_free (omega arith) (omega arith)
      one_block-Rep (omega arith) (λ a. refl)
