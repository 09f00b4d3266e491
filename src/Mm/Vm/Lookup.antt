-- ===== src/Mm/Vm/Lookup.antt =====
-- Where page tables of four levels, of entries such as the kernel makes, lead an address, and
-- walk_pgdir of arch/x86/vm.c without `create` against that. Mm/Vm/Processor has the walk of the
-- processor.
use march_os.Base.{
  within, ℕ, zero, suc, ◌+◌, ◌-◌, ◌*◌, ◌/◌, ◌%◌, ◌^◌, ◌<◌, ◌≡◌, refl, ap, ◌∙◌, Bool, false, not,
  ◌&&◌, ◌||◌, Option, none, some, ◌==◌, if◌then◌else◌, Bool-cases, inl, inr, ok, bit_and, arith,
}
use march_os.Base.Bits.Masks.{bit_and-low_mask, bit_and-high_mask}
use march_os.Mm.Mem.{Mem, load64, store64}
use march_os.Mm.Pm.{Pm}
use march_os.Mm.Vm.{pg_ps, rounddown, is_absent, walk_pt, walk_pd, walk_pdpt, walk_pgdir}

-- The bytes of virtual memory that an entry `n` levels above the lowest one stands for.
abbrev pub span : ℕ → ℕ
span n = 4096 * 512 ^ n

-- An entry of the lowest level maps a page, one of the next level does so under the flag PS.
abbrev pub is_leaf : ℕ → ℕ → Bool
is_leaf n e = n == 0 || (n == 1 && not (bit_and e pg_ps == 0))

abbrev pub table_of : ℕ → ℕ
table_of e = e - e % 4096

-- Of a table with `n` levels: the level and the address of the entry that maps `va`.
unfoldable pub find : Mem → ℕ → ℕ → ℕ → Option (ℕ × ℕ)
find m zero table va = none
find m (suc n) table va =
    let slot = table + 8 * (va / span n % 512) in
    let e = load64 m slot in
    let below = find m n (table_of e) va in
    if e % 2 == 0 then none else if is_leaf n e then some (n, slot) else below

abbrev pub address_by : Mem → ℕ → Option (ℕ × ℕ) → Option ℕ
address_by m va none = none
address_by m va (some (n, pte)) = some (load64 m pte - load64 m pte % span n + va % span n)

-- The physical address that the entry found gives `va`. Rights are left out.
abbrev pub translate : Mem → ℕ → ℕ → Option ℕ
translate m pgdir va = address_by m va (find m 4 pgdir va)

abbrev pub pte_of : Option (ℕ × ℕ) → Option ℕ
pte_of none = none
pte_of (some (n, pte)) = some pte

pub idx_lem : (a : ℕ) → bit_and a 0x1FF ≡ a % 512
idx_lem a = bit_and-low_mask 9 a (a / 512) (a % 512) (omega arith) (omega arith)

pub rounddown_lem : (a : ℕ) → a < 2 ^ 64 → rounddown a 12 ≡ table_of a
rounddown_lem a h =
    bit_and-high_mask 12 52 a (a / 4096) (a % 4096) (2 ^ 64 - 2 ^ 12) (omega arith) (omega arith)
      (omega arith) refl
    ∙ omega arith

pub is_absent_lem : (e : ℕ) → is_absent e ≡ (e % 2 == 0)
is_absent_lem e =
    ap (λ (t : ℕ). t == 0) (bit_and-low_mask 1 e (e / 2) (e % 2) (omega arith) (omega arith))

-- A store writes bytes.
pub store64-lt : (m : Mem) (a v p : ℕ) → ((q : ℕ) → m q < 2 ^ 8) → store64 m a v p < 2 ^ 8
unfolding store64
store64-lt m a v p byte = elim (Bool-cases (within a 8 p)) [
  | inl i ↦ rw i (omega arith)
  | inr i ↦ rw i (byte p)
]

pub load64-lt : (m : Mem) (a : ℕ) → ((p : ℕ) → m p < 2 ^ 8) → load64 m a < 2 ^ 64
unfolding load64
load64-lt m a byte = omega (
  arith,
  byte a,
  byte (a + 1),
  byte (a + 2),
  byte (a + 3),
  byte (a + 4),
  byte (a + 5),
  byte (a + 6),
  byte (a + 7),
)

module _ (kernel_end memtotal : ℕ) (va : ℕ) (s : Pm) (byte : (p : ℕ) → s.mem p < 2 ^ 8) where
  abbrev entry : ℕ → ℕ → ℕ
  entry n table = load64 s.mem (table + 8 * (va / span n % 512))

  next_table : (n table : ℕ) → rounddown (entry n table) 12 ≡ table_of (entry n table)
  next_table n table = rounddown_lem (entry n table) (load64-lt s.mem _ byte)

  pt_lookup :
      (pt : ℕ) → walk_pt kernel_end memtotal va false pt s ≡ ok (pte_of (find s.mem 1 pt va), s)
  unfolding walk_pt find
  pt_lookup pt =
      rw (idx_lem, is_absent_lem)
        (elim (Bool-cases (entry 0 pt % 2 == 0)) [ inl e ↦ rw e refl | inr e ↦ rw e refl ])

  pd_lookup :
      (pd : ℕ) (large : Bool)
      → walk_pd kernel_end memtotal va false large pd s ≡ ok (pte_of (find s.mem 2 pd va), s)
  unfolding walk_pd find
  pd_lookup pd large =
      rw (idx_lem, is_absent_lem)
        (elim (Bool-cases (entry 1 pd % 2 == 0)) [
          | inl e ↦ rw e refl
          | inr e ↦ elim (Bool-cases (bit_and (entry 1 pd) pg_ps == 0)) [
            | inl small ↦ rw (e, small, next_table 1 pd) (pt_lookup (table_of (entry 1 pd)))
            | inr big ↦ rw (e, big) refl
          ]
        ])

  pdpt_lookup :
      (pdpt : ℕ) (large : Bool)
      → walk_pdpt kernel_end memtotal va false large pdpt s ≡ ok (pte_of (find s.mem 3 pdpt va), s)
  unfolding walk_pdpt find
  pdpt_lookup pdpt large =
      rw (idx_lem, is_absent_lem)
        (elim (Bool-cases (entry 2 pdpt % 2 == 0)) [
          | inl e ↦ rw e refl
          | inr e ↦ rw (e, next_table 2 pdpt) (pd_lookup (table_of (entry 2 pdpt)) large)
        ])

  -- Without `create`, walk_pgdir returns the address of the entry that `find` finds for `va`, or
  -- NULL where there is none, and changes nothing, for every memory of bytes.
  pub walk_pgdir-find :
      (pgdir : ℕ) (large : Bool)
      → pgdir < 2 ^ 64
      → walk_pgdir kernel_end memtotal pgdir va false large s
        ≡ ok (pte_of (find s.mem 4 (table_of pgdir) va), s)
  unfolding walk_pgdir find
  walk_pgdir-find pgdir large h =
      rw (idx_lem, is_absent_lem, rounddown_lem pgdir h)
        (elim (Bool-cases (entry 3 (table_of pgdir) % 2 == 0)) [
          | inl e ↦ rw e refl
          | inr e ↦
              rw (e, next_table 3 (table_of pgdir))
                (pdpt_lookup (table_of (entry 3 (table_of pgdir))) large)
        ])
