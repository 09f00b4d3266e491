-- ===== src/Tests/Pages.antt =====
-- The page allocator on concrete states.
use march_os.Base.{ℕ, refl, [], ◌∷◌, ◌==◌, if◌then◌else◌, Returns, arith}
use march_os.Mm.Mem.{Mem, load64, store64}
use march_os.Mm.Pm.{PmSize, pm_4k, pm_512k, pm_64m, Pm, pmfree, pmalloc, pm_size_to_idx}
use march_os.Mm.Pm.Free.{Free, FreeList, Rep}
use march_os.Mm.Pm.Laws.{AllocSpec, pmalloc-AllocSpec, IsFreed, pmfree-IsFreed}

abbrev pub kernel_end : ℕ
kernel_end = 0x20_0000

abbrev pub memtotal : ℕ
memtotal = 0x2000_0000

-- One free block, of 64 MiB at 64 MiB.
abbrev pub one_block : Pm
one_block = record { mem = λ a. 0; pmmap = λ i. if i == 2 then 0x400_0000 else 0 }

abbrev pub one_free : Free
one_free pm_64m = 0x400_0000 ∷ []
one_free pm_512k = []
one_free pm_4k = []

one_block-lists :
    (z : PmSize) → FreeList one_block.mem (one_block.pmmap (pm_size_to_idx z)) (one_free z)
unfolding load64
one_block-lists pm_64m = omega arith
one_block-lists pm_512k = refl
one_block-lists pm_4k = refl

pub one_block-Rep : Rep kernel_end memtotal one_block one_free
one_block-Rep = record {
  lists = one_block-lists;
  once = λ p. ground arith;
  lower = λ p i. ground arith;
  upper = λ p i. ground arith;
}

pmalloc-AllocSpec_example :
    AllocSpec kernel_end memtotal pm_4k one_block one_free
      (pmalloc kernel_end memtotal pm_4k one_block)
pmalloc-AllocSpec_example =
    pmalloc-AllocSpec kernel_end memtotal (omega arith) (omega arith) one_block-Rep pm_4k

pmfree-IsFreed_example :
    Returns
      (IsFreed kernel_end memtotal 0x1000_0000 pm_4k one_block one_free)
      (pmfree kernel_end memtotal 0x1000_0000 pm_4k one_block)
pmfree-IsFreed_example =
    pmfree-IsFreed kernel_end memtotal (omega arith) (omega arith) 0x1000_0000 pm_4k one_block-Rep
      (λ p i. ground arith) (omega arith) (omega arith)

-- Page tables of the firmware: two writable pages of 2 MiB, then a read-only one at 4 MiB.
abbrev tables : Mem
tables =
    store64
      (store64 (store64 (store64 (store64 (λ a. 0) 0x1000 0x2003) 0x2000 0x3003) 0x3000 0x83) 0x3008
        0x20_0083)
      0x3010 0x40_0081

abbrev at_boot : Pm
at_boot = record { mem = tables; pmmap = λ i. 0 }
