-- ===== src/Mm/Pm.antt =====
-- The page allocator: mm/pm.c, and the loops of pm_init in arch/x86/pm.c.
pub mod Free
pub mod Freed
pub mod Taken
pub mod Carve
pub mod Alloc
pub mod Laws
pub mod Init
use march_os.Base.{
  ℕ, zero, suc, ◌+◌, ◌-◌, ◌%◌, ◌^◌, Bool, ◌||◌, ltb, leb, ◌==◌, if◌then◌else◌, Outcome, ok, panic,
  ◌>>=◌,
}
use march_os.Mm.Mem.{Mem, update, load64, store64, memset}

-- enum PMMAP: the three sizes of a block.
pub data PmSize : Type 0 where
  pm_4k pm_512k pm_64m : PmSize

-- The values of the enum.
abbrev pub bytes : PmSize → ℕ
bytes pm_4k = 4096
bytes pm_512k = 524288
bytes pm_64m = 67108864

-- Memory, and the heads of the three free lists.
pub record Pm : Type 0 where
  pub mem : Mem
  pub pmmap : ℕ → ℕ

abbrev pub pm_size_to_idx : PmSize → ℕ
pm_size_to_idx pm_4k = 0
pm_size_to_idx pm_512k = 1
pm_size_to_idx pm_64m = 2

-- The last four lines of pmalloc: the head of the list is taken off and cleared.
unfoldable pub take : PmSize → Pm → ℕ × Pm
take size s =
    let idx = pm_size_to_idx size in
    let addr = s.pmmap idx in
    (
      addr,
      record {
        mem = memset s.mem addr 0 (bytes size);
        pmmap = update s.pmmap idx (load64 s.mem addr);
      },
    )

-- `kernel_end` is a symbol of the linker script, `memtotal` comes from the boot loader.
module _ (kernel_end memtotal : ℕ) where
  abbrev pub bad_address : ℕ → Bool
  bad_address addr = addr == 0 || ltb addr kernel_end || leb memtotal addr

  unfoldable pub pmfree : ℕ → PmSize → Pm → Outcome Pm
  pmfree addr size s =
      let idx = pm_size_to_idx size in
      if bad_address addr
      then panic
      else ok (record { mem = store64 s.mem addr (s.pmmap idx); pmmap = update s.pmmap idx addr })

  -- for (i = 0; i < n; i++) { pmfree(addr, size); addr -= size; }
  unfoldable pub carve : ℕ → ℕ → PmSize → Pm → Outcome Pm
  carve zero addr size s = ok s
  carve (suc n) addr size s =
      pmfree addr size s >>= carve n ((addr + 2 ^ 64 - bytes size) % 2 ^ 64) size

  -- The branch of an empty list: a block of the next size, cut into 128 from its end.
  unfoldable pub refill : (Pm → Outcome (ℕ × Pm)) → PmSize → PmSize → Pm → Outcome Pm
  refill parent parent_size size s = parent s >>= λ (base, s').
      carve 128 ((base + bytes parent_size - bytes size) % 2 ^ 64) size s'

  unfoldable pub pmalloc_64m : Pm → Outcome (ℕ × Pm)
  pmalloc_64m s = if s.pmmap 2 == 0 then panic else ok (take pm_64m s)

  unfoldable pub pmalloc_512k : Pm → Outcome (ℕ × Pm)
  pmalloc_512k s = (if s.pmmap 1 == 0 then refill pmalloc_64m pm_64m pm_512k s else ok s) >>= λ s'.
      ok (take pm_512k s')

  unfoldable pub pmalloc_4k : Pm → Outcome (ℕ × Pm)
  pmalloc_4k s = (if s.pmmap 0 == 0 then refill pmalloc_512k pm_512k pm_4k s else ok s) >>= λ s'.
      ok (take pm_4k s')

  -- The recursion of pmalloc is at most three deep: one definition for each size.
  unfoldable pub pmalloc : PmSize → Pm → Outcome (ℕ × Pm)
  pmalloc pm_4k = pmalloc_4k
  pmalloc pm_512k = pmalloc_512k
  pmalloc pm_64m = pmalloc_64m
