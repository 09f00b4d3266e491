-- ===== src/Mm/Vm/Processor.antt =====
-- The walk that the processor makes through tables of four levels, against walk_pgdir of
-- arch/x86/vm.c without `create`.
use march_os.Base.{
  ℕ, zero, suc, ◌+◌, ◌*◌, ◌/◌, ◌%◌, ◌^◌, ◌≤◌, ◌<◌, ◌≡◌, refl, ◌∙◌, Bool, true, false, not, Option,
  none, some, ◌==◌, if◌then◌else◌, Bool-cases, inl, inr, ok, bit_and, arith,
}
use march_os.Mm.Mem.{Mem, load64}
use march_os.Mm.Pm.{Pm}
use march_os.Mm.Vm.{pg_ps, walk_pgdir}
use march_os.Mm.Vm.Lookup.{span, table_of, is_leaf, find, pte_of, walk_pgdir-find}

-- The flag PS, and the physical address of the table that an entry points to: bits 12 to 51.
abbrev pub has_ps : ℕ → Bool
has_ps e = not (bit_and e pg_ps == 0)

abbrev pub pointed : ℕ → ℕ
pointed e = table_of (e % 2 ^ 52)

-- Of a table with `n` levels: the level and the address of the entry that maps `va`. Entries of the
-- lowest level map pages; under PS those of the next two map 2 MiB and 1 GiB, and those of the
-- highest are not allowed, which is a fault as for an entry that is not present. Rights are left out.
unfoldable pub processor_walk : Mem → ℕ → ℕ → ℕ → Option (ℕ × ℕ)
processor_walk m zero table va = none
processor_walk m (suc n) table va =
    let slot = table + 8 * (va / span n % 512) in
    let e = load64 m slot in
    let below = processor_walk m n (pointed e) va in
    if e % 2 == 0
    then none
    else if n == 0
    then some (n, slot)
    else if has_ps e
    then if n == 3 then none else some (n, slot)
    else below

-- The entries on the way to `va` that lead to further tables are those that the kernel makes: the
-- bits from 52 on are clear, and PS is set in no entry above those for 2 MiB.
abbrev pub IsPlain : Mem → ℕ → ℕ → ℕ → Type 0
IsPlain m zero table va = Unit {0}
IsPlain m (suc n) table va =
    let e = load64 m (table + 8 * (va / span n % 512)) in
    e % 2 ≡ 1
    → is_leaf n e ≡ false
    → (e < 2 ^ 52) × (2 ≤ n → has_ps e ≡ false) × IsPlain m n (table_of e) va

leaf_choice :
    (n : ℕ) (e slot : ℕ) (below : Option (ℕ × ℕ))
    → is_leaf n e ≡ true
    → (if n == 0
        then some (n, slot)
        else if has_ps e
        then if n == 3 then none else some (n, slot)
        else below)
      ≡ some (n, slot)
leaf_choice n e slot below leaf = elim (Bool-cases (n == 0)) [
  | inl z ↦ rw z refl
  | inr s ↦
      let one : n ≡ 1 = ground (arith, leaf) in
      let ps : has_ps e ≡ true = ground (arith, leaf) in rw (ps, one) refl
]

inner_choice :
    (n : ℕ) (e slot : ℕ) (below : Option (ℕ × ℕ))
    → is_leaf n e ≡ false
    → (2 ≤ n → has_ps e ≡ false)
    → (if n == 0
        then some (n, slot)
        else if has_ps e
        then if n == 3 then none else some (n, slot)
        else below)
      ≡ below
inner_choice n e slot below inner high = elim (Bool-cases (has_ps e)) [
  | inr no_ps ↦ let above : (n == 0) ≡ false = ground (arith, inner) in rw (above, no_ps) refl
  | inl ps ↦ let two : 2 ≤ n = ground (arith, inner, ps) in let wrong = high two in absurd (cc)
]

processor_walk-find :
    (m : Mem) (n table va : ℕ)
    → IsPlain m n table va
    → processor_walk m n table va ≡ find m n table va
unfolding processor_walk find
processor_walk-find m zero table va plain = refl
processor_walk-find m (suc n) table va plain =
    let slot = table + 8 * (va / span n % 512) in
    let e = load64 m slot in
    elim (Bool-cases (e % 2 == 0)) [
      | inl absent ↦ rw absent refl
      | inr there ↦ elim (Bool-cases (is_leaf n e)) [
        | inl leaf ↦ rw (there, leaf) (leaf_choice n e slot _ leaf)
        | inr inner ↦
            let (low, high, below) = plain (ground (arith, there)) inner in
            let same : e % 2 ^ 52 ≡ e = omega (arith, low) in
            rw (there, inner)
              (inner_choice n e slot _ inner high
                ∙ rw same (processor_walk-find m n (table_of e) va below))
      ]
    ]

module _ (kernel_end memtotal : ℕ) (va : ℕ) (s : Pm) (byte : (p : ℕ) → s.mem p < 2 ^ 8) where
  -- Without `create`, walk_pgdir returns the address of the entry that the processor's walk finds
  -- for `va`, or NULL where that finds none, and changes nothing, in a memory of bytes where the
  -- entries that lead to further tables on the way have no bit from 52 on set, and no PS above those
  -- for 2 MiB.
  pub walk_pgdir-processor_walk :
      (pgdir : ℕ) (large : Bool)
      → pgdir < 2 ^ 64
      → IsPlain s.mem 4 (table_of pgdir) va
      → walk_pgdir kernel_end memtotal pgdir va false large s
        ≡ ok (pte_of (processor_walk s.mem 4 (table_of pgdir) va), s)
  walk_pgdir-processor_walk pgdir large h plain =
      rw (processor_walk-find s.mem 4 (table_of pgdir) va plain)
        (walk_pgdir-find kernel_end memtotal va s byte pgdir large h)
