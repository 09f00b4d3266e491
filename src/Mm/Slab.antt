-- ===== src/Mm/Slab.antt =====
-- The slab allocator, mm/slab.c: kmalloc and kmfree over chains of slabs.
pub mod Sectors
pub mod Malloc
pub mod Lookup
pub mod Ends
pub mod Occupied
pub mod Mfree
use march_os.Base.{
  ℕ, zero, suc, ◌+◌, ◌-◌, ◌*◌, ◌/◌, ◌%◌, ◌^◌, Bool, true, false, ◌&&◌, ◌||◌, not, Option, none,
  some, List, [], ◌∷◌, ◌++◌, ltb, leb, ◌==◌, if◌then◌else◌, Outcome, ok, panic, endless, ◌>>=◌,
  length,
}
use march_os.Base.Bits.{is_clear, set_bit, clear_bit}
use march_os.Mm.Mem.{Mem, update, memset}
use march_os.Mm.Pm.{PmSize, pm_4k, pm_512k, bytes, Pm, pmalloc, pmfree}

-- struct SLAB; `self` is where the struct lies. The `next` pointers are the order of a chain.
pub record Slab : Type 0 where
  pub self : ℕ
  pub address : ℕ
  pub bitmap : ℕ

-- The page allocator, and `slabs[i]` with all that hangs on it.
pub record Kmem : Type 0 where
  pub pm : Pm
  pub slabs : ℕ → List Slab

abbrev pub slab_4k : ℕ
slab_4k = 6

abbrev pub slab_num : ℕ
slab_num = 14

-- SLAB_MIN_SIZE << idx
abbrev pub slab_bytes : ℕ → ℕ
slab_bytes idx = 64 * 2 ^ idx

-- The block that holds the sectors of a slab.
abbrev pub block_of : ℕ → PmSize
block_of idx = if ltb slab_4k idx then pm_512k else pm_4k

unfoldable pub size_to_slab_idx : ℕ → Outcome ℕ
size_to_slab_idx size =
    if leb size 64
    then ok 0
    else if leb size 128
    then ok 1
    else if leb size 256
    then ok 2
    else if leb size 512
    then ok 3
    else if leb size 1024
    then ok 4
    else if leb size 2048
    then ok 5
    else if leb size 4096
    then ok 6
    else if leb size 8192
    then ok 7
    else if leb size 16384
    then ok 8
    else if leb size 32768
    then ok 9
    else if leb size 65536
    then ok 10
    else if leb size 131072
    then ok 11
    else if leb size 262144
    then ok 12
    else if leb size 524288
    then ok 13
    else panic

-- for (i = 0; i < pages; i++): the first clear bit, from bit `i` on with `n` to go
unfoldable pub first_clear : ℕ → ℕ → ℕ → Option ℕ
first_clear zero i bitmap = none
first_clear (suc n) i bitmap =
    let rest = first_clear n (i + 1) bitmap in if is_clear bitmap i then some i else rest

-- A sector that was found, and the chain with its bit set.
pub record Found : Type 0 where
  pub at : ℕ
  pub chain : List Slab

abbrev pub behind : Slab → Option Found → Option Found
behind e none = none
behind e (some f) = some (record { at = f.at; chain = e ∷ f.chain })

-- while (entry != NULL), over the rest of a chain
unfoldable pub search_chain : ℕ → ℕ → List Slab → Option Found
search_chain size pages [] = none
search_chain size pages (e ∷ es) =
    let rest = behind e (search_chain size pages es) in
    if e.bitmap == 2 ^ 64 - 1 then rest else elim (first_clear pages 0 e.bitmap) [
      | none ↦ rest
      | some i ↦ some (record {
        at = e.address + i * size;
        chain = record e { bitmap = set_bit e.bitmap i } ∷ es;
      })
    ]

-- size > KiB(4) ? (PM_512K / size) : (PM_4K / size)
abbrev pub pages_of : ℕ → ℕ
pages_of idx =
    if ltb 4096 (slab_bytes idx)
    then bytes pm_512k / slab_bytes idx
    else bytes pm_4k / slab_bytes idx

abbrev pub update_chain : (ℕ → List Slab) → ℕ → List Slab → ℕ → List Slab
update_chain slabs idx c j = if idx == j then c else slabs j

-- NULL is `none`.
unfoldable pub find_free_slab : ℕ → Kmem → Outcome (Option ℕ × Kmem)
find_free_slab idx s =
    if ltb slab_num idx
    then panic
    else elim (search_chain (slab_bytes idx) (pages_of idx) (s.slabs idx)) [
      | none ↦ ok (none, s)
      | some f ↦ ok (some f.at, record s { slabs = update_chain s.slabs idx f.chain })
    ]

-- memset(addr, 0, n)
abbrev pub cleared : ℕ → ℕ → Kmem → Kmem
cleared addr n s = record s { pm = record s.pm { mem = memset s.pm.mem addr 0 n } }

-- last->next = new
abbrev pub appended : ℕ → Slab → Kmem → Kmem
appended idx new s = record s { slabs = update_chain s.slabs idx (s.slabs idx ++ new ∷ []) }

module _ (kernel_end memtotal : ℕ) where
  -- slab_init: the first slab of each chain.
  unfoldable pub slab_init : ℕ → ℕ → Kmem → Outcome Kmem
  slab_init zero i s = ok s
  slab_init (suc n) i s = pmalloc kernel_end memtotal (block_of i) s.pm >>= λ (address, pm').
      slab_init n (i + 1) (record {
        pm = pm';
        slabs = update_chain s.slabs i (record { self = 0; address = address; bitmap = 0 } ∷ []);
      })

  -- The branch `size <= 64`. A new slab keeps its own struct in its first sector.
  unfoldable pub kmalloc_64 : Kmem → Outcome (ℕ × Kmem)
  kmalloc_64 s = find_free_slab 0 s >>= λ (found, s'). elim found [
    | some addr ↦ ok (addr, cleared addr 64 s')
    | none ↦ pmalloc kernel_end memtotal pm_4k s'.pm >>= λ (new, pm'). ok (
      new + 64,
      appended 0 (record { self = new; address = new; bitmap = 3 }) (record s' { pm = pm' }),
    )
  ]

  -- The rest of kmalloc. The struct of a new slab is allocated by kmalloc itself; its 24 bytes
  -- are of the first class.
  unfoldable pub kmalloc_large : ℕ → Kmem → Outcome (ℕ × Kmem)
  kmalloc_large size s = size_to_slab_idx size >>= λ idx. find_free_slab idx s >>= λ (found, s').
      elim found [
        | some addr ↦ ok (addr, cleared addr (slab_bytes idx) s')
        | none ↦ kmalloc_64 s' >>= λ (new, s1).
            pmalloc kernel_end memtotal (block_of idx) s1.pm >>= λ (address, pm'). ok (
              address,
              appended idx (record { self = new; address = address; bitmap = 1 })
                  (record s1 { pm = pm' }),
            )
      ]

  unfoldable pub kmalloc : ℕ → Kmem → Outcome (ℕ × Kmem)
  kmalloc size s = if leb size 64 then kmalloc_64 s else kmalloc_large size s

-- What the search of kmfree finds: the chain, the slabs before the entry (none: prev == NULL),
-- the entry and the slabs after it.
pub record Place : Type 0 where
  pub idx : ℕ
  pub before : List Slab
  pub entry : Slab
  pub after : List Slab

abbrev pub holds : ℕ → ℕ → Slab → Bool
holds page addr e = ltb addr (e.address + page) && leb e.address addr

unfoldable pub find_entry : ℕ → ℕ → List Slab → List Slab → Option Place
find_entry idx addr before [] = none
find_entry idx addr before (e ∷ es) =
    let rest = find_entry idx addr (before ++ e ∷ []) es in
    if holds (bytes (block_of idx)) addr e
    then some (record { idx = idx; before = before; entry = e; after = es })
    else rest

-- for (i = 0; i < SLAB_NUM; i++), with `n` chains to go
unfoldable pub find_place : ℕ → ℕ → ℕ → (ℕ → List Slab) → Option Place
find_place zero i addr slabs = none
find_place (suc n) i addr slabs =
    let rest = find_place n (i + 1) addr slabs in
    elim (find_entry i addr [] (slabs i)) [ none ↦ rest | some p ↦ some p ]

abbrev pub is_nil : List Slab → Bool
is_nil [] = true
is_nil (_ ∷ _) = false

-- How many slabs hang on the `n` chains from `i` on.
abbrev pub entries : ℕ → ℕ → (ℕ → List Slab) → ℕ
entries zero i slabs = 0
entries (suc n) i slabs = length (slabs i) + entries n (i + 1) slabs

module _ (kernel_end memtotal : ℕ) where
  -- The last part of kmfree, after the bit is cleared. `bit` is the new bitmap.
  abbrev pub store_bitmap : Place → ℕ → Kmem → Kmem
  store_bitmap p bit s = record s {
    slabs = update_chain s.slabs p.idx (p.before ++ record (p.entry) { bitmap = bit } ∷ p.after);
  }

  -- prev->next = entry->next
  abbrev pub unlinked : Place → Kmem → Kmem
  unlinked p s = record s { slabs = update_chain s.slabs p.idx (p.before ++ p.after) }

  unfoldable pub kmfree_fuel : ℕ → ℕ → Kmem → Outcome Kmem
  kmfree_fuel zero addr s = endless
  kmfree_fuel (suc k) addr s =
      if addr == 0 then panic else elim (find_place slab_num 0 addr s.slabs) [
        | none ↦ panic
        | some p ↦
            let size = slab_bytes p.idx in
            let i = (addr - p.entry.address) / size in
            let bit = clear_bit p.entry.bitmap i in
            if not (addr % size == 0) || leb (bytes (block_of p.idx) / size) i
            then panic
            else let again = kmfree_fuel k p.entry.self (unlinked p s) in
              if bit == 0 && not (is_nil p.before)
              then again
              else if bit == 1 && size == 64 && not (is_nil p.before)
              then (pmfree kernel_end memtotal p.entry.self pm_4k s.pm >>= λ pm'.
                  ok (record (unlinked p s) { pm = pm' }))
              else ok (store_bitmap p bit s)
      ]

  -- Each call of kmfree by itself is made after a slab has left its chain.
  unfoldable pub kmfree : ℕ → Kmem → Outcome Kmem
  kmfree addr s = kmfree_fuel (suc (entries slab_num 0 s.slabs)) addr s
