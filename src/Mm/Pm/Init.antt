-- ===== src/Mm/Pm/Init.antt =====
-- pm_init of arch/x86/pm.c: the walk through the page tables of the firmware, and the three loops
-- that give the memory below the first read-only page to the allocator.
use march_os.Base.{
  ℕ, zero, suc, ◌+◌, ◌-◌, ◌*◌, ◌%◌, ◌^◌, ◌≤◌, ◌<◌, ◌≡◌, ◌⊎◌, Option, none, some, leb, ◌==◌,
  if◌then◌else◌, Outcome, ok, endless, ◌>>=◌, bit_and,
}
use march_os.Mm.Mem.{Mem, load64}
use march_os.Mm.Pm.{PmSize, pm_4k, pm_512k, pm_64m, bytes, Pm, pmfree}
use march_os.Mm.Pm.Free.{Free, inside, cover, Rep}
use march_os.Mm.Vm.{pg_p, pg_rw, pg_ps}

-- The first result of the entries from `i` on, `n` of them.
first : ℕ → ℕ → (ℕ → Option ℕ) → Option ℕ
first zero i visit = none
first (suc n) i visit =
    let rest = first n (i + 1) visit in elim (visit i) [ none ↦ rest | some a ↦ some a ]

-- BIT64_MASK(max_paddr) & ~BIT64_MASK(k)
abbrev address_mask : ℕ → ℕ → ℕ
address_mask max_paddr k = bit_and (2 ^ max_paddr - 1) (2 ^ 64 - 2 ^ k)

module _ (m : Mem) (max_paddr : ℕ) where
  abbrev entry : ℕ → ℕ → ℕ
  entry table i = load64 m (table + 8 * i)

  abbrev table : ℕ → ℕ
  table e = bit_and e (address_mask max_paddr 12)

  visit_pt : ℕ → ℕ → Option ℕ
  visit_pt pt l =
      let e = entry pt l in
      if bit_and e pg_p == 0
      then none
      else if bit_and e pg_rw == 0
      then some (bit_and e (address_mask max_paddr 12))
      else none

  visit_pd : ℕ → ℕ → Option ℕ
  visit_pd pd k =
      let e = entry pd k in
      if bit_and e pg_p == 0
      then none
      else if bit_and e pg_rw == 0
      then some (bit_and e (address_mask max_paddr 21))
      else if bit_and e pg_ps == 0
      then first 512 0 (visit_pt (table e))
      else none

  visit_pdpt : ℕ → ℕ → Option ℕ
  visit_pdpt pdpt j =
      let e = entry pdpt j in if bit_and e pg_p == 0 then none else first 512 0 (visit_pd (table e))

  visit_pml4 : ℕ → ℕ → Option ℕ
  visit_pml4 pml4 i =
      let e = entry pml4 i in
      if bit_and e pg_p == 0 then none else first 512 0 (visit_pdpt (table e))

  -- `allocatable_max` at the label `out`
  unfoldable pub allocatable : ℕ → ℕ
  unfolding first visit_pml4 visit_pdpt visit_pd visit_pt
  allocatable cr3 = elim (first 512 0 (visit_pml4 (table cr3))) [ none ↦ 0 | some a ↦ a ]

module _ (kernel_end memtotal : ℕ) where
  -- One of the three while loops. There are at most
  -- `top` rounds.
  free_down : ℕ → PmSize → ℕ → Pm → Outcome (ℕ × Pm)
  free_down zero size top s = endless
  free_down (suc k) size top s =
      let next =
        pmfree kernel_end memtotal (top - bytes size) size s
        >>= free_down k size (top - bytes size) in
      if leb ((kernel_end + bytes size) % 2 ^ 64) top then next else ok (top, s)

  abbrev free_all : PmSize → ℕ × Pm → Outcome (ℕ × Pm)
  free_all size (top, s) = free_down (suc top) size top s

  -- From the label `out` on.
  unfoldable pub free_below : ℕ → Pm → Outcome (ℕ × Pm)
  unfolding free_down
  free_below top s = free_all pm_64m (top, s) >>= free_all pm_512k >>= free_all pm_4k

  unfoldable pub pm_init : ℕ → ℕ → Pm → Outcome Pm
  unfolding free_below allocatable
  pm_init max_paddr cr3 s = free_below (allocatable s.mem max_paddr cr3) s >>= λ (_, s'). ok s'

-- The free bytes are those from `low` up to `end`, and `low` has come close to the kernel.
pub record Filled (kernel_end memtotal end slack : ℕ) (low : ℕ) (s : Pm) : Type 0 where
  pub blocks : Free
  pub rep : Rep kernel_end memtotal s blocks
  pub covers : (p : ℕ) → cover blocks p ≡ inside low (end - low) p
  pub below : low ≤ end
  pub close : low < kernel_end + slack
  pub above : (kernel_end ≤ low) ⊎ (low ≡ end)
