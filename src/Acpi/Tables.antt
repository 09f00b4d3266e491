-- ===== src/Acpi/Tables.antt =====
-- acpi_init of acpi.c: the tables that the XSDT lists, and the entries of the MADT among them.
use march_os.Base.{
  ℕ, zero, suc, ◌+◌, ◌-◌, ◌*◌, ◌%◌, ◌^◌, ◌≤◌, ◌<◌, ◌≡◌, refl, ap, ◌∙◌, true, false, List, [], ◌∷◌,
  panic, Returns, bind-Returns, Ends, then-Ends, Bool-cases, inl, inr, length, arith,
}
use march_os.Mm.Mem.{Mem, word, load64}
use march_os.Acpi.Madt.{Apic, Acpi, is_positive, set_lapic_addr}
use march_os.Acpi.{
  dump_madt, dump_xsdp, dump_xsdt, read_madt, is_madt, each_table, xsdt_n, acpi_init,
}
use march_os.Acpi.Entries.{MadtEntry, AreStored, total, effects}
use march_os.Acpi.Walk.{
  Walked, madt_walk-Walked, madt_walk-end, madt_walk-unknown, madt_walk-Ends, is_known,
}

-- A MADT: its length, the address in its header, and its entries.
abbrev pub IsMadt : Mem → ℕ → ℕ → List MadtEntry → Type 0
IsMadt m madt address es =
    (word m (madt + 4) ≡ 44 + total es)
    × (total es < 2 ^ 31)
    × (word m (madt + 36) ≡ address)
    × AreStored m (madt + 44) es

-- The walk over the first entries of a table with this many bytes of entries.
walked :
    (m : Mem) (madt n : ℕ) (es : List MadtEntry) (st : Acpi)
    → word m (madt + 4) ≡ 44 + n
    → total es ≤ n
    → n < 2 ^ 31
    → AreStored m (madt + 44) es
    → Walked
        (suc n)
        m
        n
        (madt + 44)
        (set_lapic_addr (word m (madt + 36)) (dump_madt m madt st))
        es
        (read_madt m madt st)
unfolding read_madt dump_madt
walked m madt n es st len fits small stored =
    let remain : (word m (madt + 4) + 2 ^ 32 - 44) % 2 ^ 32 ≡ n = omega arith in
    rw remain (madt_walk-Walked (suc n) m n (madt + 44) _ es stored fits small (omega arith))

-- The MADT is read to its end: the branch returns, and the address in the header and then the
-- entries, one after the other, have gone into `apic`.
pub read_madt-effects :
    (m : Mem) (madt address : ℕ) (es : List MadtEntry) (st : Acpi)
    → IsMadt m madt address es
    → Returns
        (λ st'. st'.apic ≡ effects es (record (st.apic) { lapic_addr = address }))
        (read_madt m madt st)
unfolding dump_madt
read_madt-effects m madt address es st (len, small, header, stored) =
    let w = walked m madt (total es) es st len (omega arith) small stored in
    let at_end : is_positive (total es - total es) ≡ false = ground arith in
    (
      w.after,
      w.goes_on ∙ madt_walk-end w.fuel m _ _ w.after (omega (arith, w.enough)) at_end,
      w.apic ∙ ap (λ (v : ℕ). effects es (record (st.apic) { lapic_addr = v })) header,
    )

-- A MADT with an entry of a type that the switch has no case for, behind any number of entries that
-- it has one for.
abbrev pub HasUnknown : Mem → ℕ → List MadtEntry → ℕ → Type 0
HasUnknown m madt es n =
    (word m (madt + 4) ≡ 44 + n)
    × (total es < n)
    × (n < 2 ^ 31)
    × AreStored m (madt + 44) es
    × (is_known (m (madt + 44 + total es)) ≡ false)

read_madt_unknown :
    (m : Mem) (madt n : ℕ) (es : List MadtEntry) (st : Acpi)
    → HasUnknown m madt es n
    → read_madt m madt st ≡ panic
read_madt_unknown m madt n es st (len, more, small, stored, unknown) =
    let w = walked m madt n es st len (omega arith) small stored in
    w.goes_on
    ∙ madt_walk-unknown w.fuel m _ _ w.after (omega (arith, w.enough)) (ground arith) unknown

-- A table of the XSDT: a MADT, or one that the kernel passes over.
pub data ListedTable : Type 0 where
  other : ListedTable
  madt : (address : ℕ) (es : List MadtEntry) → ListedTable

abbrev pub IsTable : Mem → ℕ → ListedTable → Type 0
IsTable m a other = is_madt m a ≡ false
IsTable m a (madt address es) = (is_madt m a ≡ true) × IsMadt m a address es

abbrev pub AreTables : Mem → ℕ → List ListedTable → Type 0
AreTables m p [] = Unit {0}
AreTables m p (t ∷ ts) = IsTable m (load64 m p) t × AreTables m (p + 8) ts

abbrev pub table_effects : List ListedTable → Apic → Apic
table_effects [] apic = apic
table_effects (other ∷ ts) apic = table_effects ts apic
table_effects (madt address es ∷ ts) apic =
    table_effects ts (effects es (record apic { lapic_addr = address }))

each_table-effects :
    (m : Mem) (p : ℕ) (ts : List ListedTable) (st : Acpi)
    → AreTables m p ts
    → Returns (λ st'. st'.apic ≡ table_effects ts st.apic) (each_table (length ts) m p st)
unfolding each_table
each_table-effects m p [] st all = (st, refl, refl)
each_table-effects m p (other ∷ ts) st (skip, all) =
    rw skip (each_table-effects m (p + 8) ts st all)
each_table-effects m p (madt address es ∷ ts) st (here, all) = rw here.0 (
    bind-Returns (read_madt-effects m (load64 m p) address es st here.1) λ st1 e1.
      let (st2, e2, apic2) = each_table-effects m (p + 8) ts st1 all in
      (st2, e2, apic2 ∙ ap (table_effects ts) e1))

-- `c` tables, of which the one behind the first, at the pointer at `q`, has the unknown entry.
each_table-panic :
    (m : Mem) (p q c n : ℕ) (ts : List ListedTable) (es : List MadtEntry) (st : Acpi)
    → length ts < c
    → q ≡ p + 8 * length ts
    → AreTables m p ts
    → is_madt m (load64 m q) ≡ true
    → HasUnknown m (load64 m q) es n
    → each_table c m p st ≡ panic
unfolding each_table
each_table-panic m p q zero n ts es st more at all apic unknown = absurd (omega arith)
each_table-panic m p q (suc c) n [] es st more at all apic unknown =
    let here : p ≡ q = omega arith in
    rw (here, apic, read_madt_unknown m (load64 m q) n es st unknown) refl
each_table-panic m p q (suc c) n (other ∷ ts) es st more at (skip, all) apic unknown =
    rw skip (each_table-panic m (p + 8) q c n ts es st (omega arith) (omega arith) all apic unknown)
each_table-panic m p q (suc c) n (madt address fs ∷ ts) es st more at (here, all) apic unknown =
    let (st1, e, _) = read_madt-effects m (load64 m p) address fs st here.1 in
    rw (here.0, e)
      (each_table-panic m (p + 8) q c n ts es st1 (omega arith) (omega arith) all apic unknown)

-- acpi_init returns, for an XSDT that lists fewer than 256 tables of which each MADT holds entries
-- that the switch has a case for, each as long as its struct in acpi.h: `apic` is then what the
-- tables say, in their order.
pub acpi_init-effects :
    (m : Mem) (xsdp : ℕ) (ts : List ListedTable) (st : Acpi)
    → word m (load64 m (xsdp + 24) + 4) ≡ 36 + 8 * length ts
    → length ts < 2 ^ 8
    → AreTables m (load64 m (xsdp + 24) + 36) ts
    → Returns (λ st'. st'.apic ≡ table_effects ts st.apic) (acpi_init m xsdp st)
unfolding acpi_init dump_xsdp dump_xsdt
acpi_init-effects m xsdp ts st len few all =
    let n : xsdt_n m (load64 m (xsdp + 24)) ≡ length ts = omega arith in
    rw n (each_table-effects m (load64 m (xsdp + 24) + 36) ts _ all)

-- acpi_init panics when one of the tables that it looks at is a MADT with an entry of a type that the
-- switch has no case for, behind tables and entries that it reads.
pub acpi_init_unknown :
    (m : Mem) (xsdp k n : ℕ) (ts : List ListedTable) (es : List MadtEntry) (st : Acpi)
    → word m (load64 m (xsdp + 24) + 4) ≡ 36 + 8 * (length ts + suc k)
    → length ts + suc k < 2 ^ 8
    → AreTables m (load64 m (xsdp + 24) + 36) ts
    → is_madt m (load64 m (load64 m (xsdp + 24) + 36 + 8 * length ts)) ≡ true
    → HasUnknown m (load64 m (load64 m (xsdp + 24) + 36 + 8 * length ts)) es n
    → acpi_init m xsdp st ≡ panic
unfolding acpi_init dump_xsdp dump_xsdt
acpi_init_unknown m xsdp k n ts es st len few all apic unknown =
    let count : xsdt_n m (load64 m (xsdp + 24)) ≡ length ts + suc k = omega arith in
    rw count (
      each_table-panic m (load64 m (xsdp + 24) + 36) (load64 m (xsdp + 24) + 36 + 8 * length ts)
        (length ts + suc k) n ts es _ (omega arith) refl all apic unknown)

read_madt-Ends : (m : Mem) (a : ℕ) (st : Acpi) → Ends (read_madt m a st)
unfolding read_madt
read_madt-Ends m a st =
    madt_walk-Ends (suc ((word m (a + 4) + 2 ^ 32 - 44) % 2 ^ 32)) m _ _ _ (omega arith)
      (omega arith)

each_table-Ends : (n : ℕ) (m : Mem) (p : ℕ) (st : Acpi) → Ends (each_table n m p st)
unfolding each_table
each_table-Ends zero m p st = tt
each_table-Ends (suc n) m p st = elim (Bool-cases (is_madt m (load64 m p))) [
  | inl is ↦ rw is (
      then-Ends (read_madt m (load64 m p) st) (each_table n m (p + 8))
        (read_madt-Ends m (load64 m p) st) (each_table-Ends n m (p + 8)))
  | inr skip ↦ rw skip (each_table-Ends n m (p + 8) st)
]

-- acpi_init ends in every memory, in a result or in a panic: its loop over a MADT is never without
-- end.
pub acpi_init-Ends : (m : Mem) (xsdp : ℕ) (st : Acpi) → Ends (acpi_init m xsdp st)
unfolding acpi_init
acpi_init-Ends m xsdp st = each_table-Ends _ m _ _
