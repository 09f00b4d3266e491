-- ===== src/Mm/Vm.antt =====
-- The page tables: arch/x86/vm.c, with the indices and flags of include/x86/mm.h.
pub mod Lookup
pub mod Tables
pub mod Grow
pub mod Values
pub mod Fill
pub mod Walk
pub mod Direct
pub mod Rights
pub mod Processor
pub mod Init
use march_os.Base.{
  ℕ, zero, suc, ◌+◌, ◌-◌, ◌*◌, ◌/◌, ◌%◌, ◌^◌, Bool, true, false, not, Option, none, some, ltb, ◌==◌,
  if◌then◌else◌, Outcome, ok, panic, endless, ◌>>=◌, bit_and, bit_or,
}
use march_os.Mm.Mem.{load64, store64}
use march_os.Mm.Pm.{pm_4k, Pm, pmalloc, pmfree}

abbrev pub user_addr_start : ℕ
user_addr_start = 0x100_0000_0000

abbrev pub pg_p : ℕ
pg_p = 1

abbrev pub pg_rw : ℕ
pg_rw = 2

abbrev pub pg_us : ℕ
pg_us = 4

abbrev pub pg_ps : ℕ
pg_ps = 128

-- PML4_IDX, PDPT_IDX, PD_IDX and PT_IDX
abbrev pub pml4_idx : ℕ → ℕ
pml4_idx va = bit_and (va / 2 ^ 39) 0x1FF

abbrev pub pdpt_idx : ℕ → ℕ
pdpt_idx va = bit_and (va / 2 ^ 30) 0x1FF

abbrev pub pd_idx : ℕ → ℕ
pd_idx va = bit_and (va / 2 ^ 21) 0x1FF

abbrev pub pt_idx : ℕ → ℕ
pt_idx va = bit_and (va / 2 ^ 12) 0x1FF

-- ROUNDDOWN(a, 2 ^ n) on 64 bits, also written `a & ~BIT64_MASK(n)`
abbrev pub rounddown : ℕ → ℕ → ℕ
rounddown a n = bit_and a (2 ^ 64 - 2 ^ n)

abbrev pub is_absent : ℕ → Bool
is_absent e = bit_and e pg_p == 0

-- if ((*slot & PG_P) == 0) { if (!create) { return NULL; } *slot = value; }
abbrev pub ensure :
    Bool
    → (Pm → Outcome (ℕ × Pm))
    → ℕ
    → (Pm → Outcome (Option ℕ × Pm))
    → Pm
    → Outcome (Option ℕ × Pm)
ensure create value slot rest s =
    if is_absent (load64 s.mem slot)
    then if create
      then (value s >>= λ (e, s'). rest (record s' { mem = store64 s'.mem slot e }))
      else ok (none, s)
    else rest s

abbrev pub flags_of : ℕ → ℕ
flags_of va =
    let flag = bit_or pg_p pg_rw in if ltb va user_addr_start then flag else bit_or flag pg_us

-- *pte |= flag
unfoldable pub setflag : ℕ → ℕ → Pm → Pm
setflag pte flag s = record s { mem = store64 s.mem pte (bit_or (load64 s.mem pte) flag) }

-- `upml4` is the field of the process.
unfoldable pub switch_uvm : ℕ → ℕ → Pm → Pm
switch_uvm pgdir upml4 s = record s {
  mem = store64 s.mem (rounddown pgdir 12 + 8 * pml4_idx user_addr_start) upml4;
}

module _ (kernel_end memtotal : ℕ) where
  -- (uintptr)pmalloc(PM_4K) | flag
  abbrev pub fresh : ℕ → Pm → Outcome (ℕ × Pm)
  fresh flag s = pmalloc kernel_end memtotal pm_4k s >>= λ (a, s'). ok (bit_or a flag, s')

  abbrev pub pt_value : ℕ → Pm → Outcome (ℕ × Pm)
  pt_value va s =
      if ltb va user_addr_start
      then ok (bit_or (rounddown va 12) (flags_of va), s)
      else fresh (flags_of va) s

  abbrev pub pd_value : ℕ → Bool → Pm → Outcome (ℕ × Pm)
  pd_value va large s =
      if large
      then if ltb va user_addr_start
        then ok (bit_or (bit_or (rounddown va 21) (flags_of va)) pg_ps, s)
        else (fresh (flags_of va) s >>= λ (e, s'). ok (bit_or e pg_ps, s'))
      else fresh (flags_of va) s

  unfoldable pub walk_pt : ℕ → Bool → ℕ → Pm → Outcome (Option ℕ × Pm)
  walk_pt va create pt s =
      let slot = pt + 8 * pt_idx va in ensure create (pt_value va) slot (λ s'. ok (some slot, s')) s

  unfoldable pub walk_pd : ℕ → Bool → Bool → ℕ → Pm → Outcome (Option ℕ × Pm)
  walk_pd va create large pd s =
      let slot = pd + 8 * pd_idx va in
      ensure create (pd_value va large) slot
        (λ s'.
          let e = load64 s'.mem slot in
          if bit_and e pg_ps == 0
          then walk_pt va create (rounddown e 12) s'
          else ok (some slot, s'))
        s

  unfoldable pub walk_pdpt : ℕ → Bool → Bool → ℕ → Pm → Outcome (Option ℕ × Pm)
  walk_pdpt va create large pdpt s =
      let slot = pdpt + 8 * pdpt_idx va in
      ensure create (fresh (flags_of va)) slot
        (λ s'. walk_pd va create large (rounddown (load64 s'.mem slot) 12) s') s

  -- NULL is `none`; `pgdir` is the static variable of that name.
  unfoldable pub walk_pgdir : ℕ → ℕ → Bool → Bool → Pm → Outcome (Option ℕ × Pm)
  walk_pgdir pgdir va create large s =
      let slot = rounddown pgdir 12 + 8 * pml4_idx va in
      ensure create (fresh (flags_of va)) slot
        (λ s'. walk_pdpt va create large (rounddown (load64 s'.mem slot) 12) s') s

  -- The loop of vm_init. There are 2048 rounds.
  unfoldable pub map_from : ℕ → ℕ → ℕ → Pm → Outcome Pm
  map_from pgdir zero va s = endless
  map_from pgdir (suc k) va s =
      let rest = map_from pgdir k ((va + 2 ^ 21) % 2 ^ 64) in
      if ltb va (4 * 2 ^ 30)
      then (walk_pgdir pgdir va true true s >>= λ (r, s'). elim r [
        | none ↦ panic
        | some pte ↦ rest s'
      ])
      else ok s

  -- The address that goes into CR3, and the state.
  unfoldable pub vm_init : Pm → Outcome (ℕ × Pm)
  vm_init s = pmalloc kernel_end memtotal pm_4k s >>= λ (pgdir, s').
      map_from pgdir 2049 0 s' >>= λ s''. ok (pgdir, s'')

  -- The three loops of free_uvm, from index `i` on for `n` rounds.
  unfoldable pub free_pt : ℕ → ℕ → ℕ → Pm → Outcome Pm
  free_pt pt zero k s = ok s
  free_pt pt (suc n) k s =
      let rest = free_pt pt n (k + 1) in
      let e = load64 s.mem (pt + 8 * k) in
      (if is_absent e then ok s else pmfree kernel_end memtotal (rounddown e 12) pm_4k s) >>= rest

  unfoldable pub free_pd : ℕ → ℕ → ℕ → Pm → Outcome Pm
  free_pd pd zero j s = ok s
  free_pd pd (suc n) j s =
      let rest = free_pd pd n (j + 1) in
      let e = load64 s.mem (pd + 8 * j) in
      (if is_absent e
        then ok s
        else free_pt (rounddown e 12) 512 0 s >>= pmfree kernel_end memtotal (rounddown e 12) pm_4k)
      >>= rest

  unfoldable pub free_pdpt : ℕ → ℕ → ℕ → Pm → Outcome Pm
  free_pdpt pdpt zero i s = ok s
  free_pdpt pdpt (suc n) i s =
      let rest = free_pdpt pdpt n (i + 1) in
      let e = load64 s.mem (pdpt + 8 * i) in
      (if is_absent e
        then ok s
        else free_pd (rounddown e 12) 512 0 s >>= pmfree kernel_end memtotal (rounddown e 12) pm_4k)
      >>= rest

  -- The new value of `upml4`, and the state.
  unfoldable pub free_uvm : ℕ → Pm → Outcome (ℕ × Pm)
  free_uvm upml4 s =
      if is_absent upml4
      then panic
      else free_pdpt (rounddown upml4 12) 512 0 s
        >>= pmfree kernel_end memtotal (rounddown upml4 12) pm_4k
        >>= λ s'. ok (0, s')
