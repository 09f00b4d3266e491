-- ===== src/Acpi/Madt.antt =====
-- The switch and the loop of acpi_init over the entries of the MADT: acpi.c.
use march_os.Base.{
  ℕ, zero, suc, ◌+◌, ◌-◌, ◌%◌, ◌^◌, Bool, ◌&&◌, not, Option, none, some, List, [], ◌∷◌, ◌++◌, ltb,
  ◌==◌, if◌then◌else◌, Outcome, ok, panic, endless,
}
use march_os.Base.Text.{codes}
use march_os.Mm.Mem.{Mem}
use march_os.Acpi.Structs.{
  acpi_madt_head, acpi_madt_lapic, acpi_madt_ioapic, acpi_madt_interrupt_override, acpi_madt_nmi,
  acpi_madt_lapic_nmi, acpi_madt_lapic_address_override, acpi_madt_local_x2apic,
}
use march_os.Console.{Call, printed_calls}

-- APIC of include/apic.h, the global `apic`
pub record Apic : Type 0 where
  pub lapic_id : ℕ
  pub lapic_addr : ℕ
  pub ioapic_id : ℕ
  pub ioapic_addr : ℕ

-- The global, and the bytes sent so far.
pub record Acpi : Type 0 where
  pub apic : Apic
  pub sent : List ℕ

abbrev pub debugf : List ℕ → List Call → Acpi → Acpi
debugf text calls st = record st { sent = st.sent ++ printed_calls text calls }

abbrev pub set_lapic_id : ℕ → Acpi → Acpi
set_lapic_id v st = record st { apic = record (st.apic) { lapic_id = v } }

abbrev pub set_lapic_addr : ℕ → Acpi → Acpi
set_lapic_addr v st = record st { apic = record (st.apic) { lapic_addr = v } }

abbrev pub set_ioapic : ℕ → ℕ → Acpi → Acpi
set_ioapic id addr st = record st { apic = record (st.apic) { ioapic_id = id; ioapic_addr = addr } }

-- The cases of the switch on entry_type: the size of the struct, and what the case does.
abbrev pub Case : Type 0
Case = ℕ × Acpi

abbrev pub lapic : Mem → ℕ → Acpi → Case
lapic m a st =
    let e = acpi_madt_lapic m a in
    (
      8,
      set_lapic_id e.apic_id (
          debugf []
            ((codes "  LAPIC:\n", [])
              ∷ (codes "    ACPI Processor ID: %d\n", e.acpi_processor_id ∷ [])
              ∷ (codes "    Local APIC ID: %d\n", e.apic_id ∷ [])
              ∷ (codes "    Flags: %x\n", e.flags ∷ [])
              ∷ [])
            st),
    )

abbrev pub ioapic : Mem → ℕ → Acpi → Case
ioapic m a st =
    let e = acpi_madt_ioapic m a in
    (
      12,
      set_ioapic e.ioapic_id e.ioapic_address (
          debugf []
            ((codes "  IOAPIC:\n", [])
              ∷ (codes "    IOAPIC ID: %d\n", e.ioapic_id ∷ [])
              ∷ (codes "    IOAPIC Address: %x\n", e.ioapic_address ∷ [])
              ∷ (
                codes "    Global System Interrupt Base: %d\n",
                e.global_system_interrupt_base ∷ [],
              )
              ∷ [])
            st),
    )

abbrev pub interrupt_override : Mem → ℕ → Acpi → Case
interrupt_override m a st =
    let e = acpi_madt_interrupt_override m a in
    (
      10,
      debugf []
          ((codes "  Interrupt Override:\n", [])
            ∷ (codes "    Bus: %d\n", e.bus_source ∷ [])
            ∷ (codes "    Source: %d\n", e.irq_source ∷ [])
            ∷ (codes "    Global System Interrupt: %d\n", e.global_system_interrupt ∷ [])
            ∷ (codes "    Flags: %x\n", e.flags ∷ [])
            ∷ [])
          st,
    )

abbrev pub nmi : Mem → ℕ → Acpi → Case
nmi m a st =
    let e = acpi_madt_nmi m a in
    (
      10,
      debugf []
          ((codes "  NMI:\n", [])
            ∷ (codes "    NMI Source: %d\n", e.nmi_source ∷ [])
            ∷ (codes "    Global System Interrupt: %d\n", e.global_system_interrupt ∷ [])
            ∷ (codes "    Flags: %x\n", e.flags ∷ [])
            ∷ [])
          st,
    )

abbrev pub lapic_nmi : Mem → ℕ → Acpi → Case
lapic_nmi m a st =
    let e = acpi_madt_lapic_nmi m a in
    (
      6,
      debugf []
          ((codes "  LAPIC NMI:\n", [])
            ∷ (codes "    ACPI Processor ID: %d\n", e.acpi_processor_id ∷ [])
            ∷ (codes "    Flags: %x\n", e.flags ∷ [])
            ∷ (codes "    LINT: %d\n", e.lint ∷ [])
            ∷ [])
          st,
    )

abbrev pub lapic_address_override : Mem → ℕ → Acpi → Case
lapic_address_override m a st =
    let e = acpi_madt_lapic_address_override m a in
    (
      12,
      set_lapic_addr e.local_apic_address (
          debugf []
            ((codes "  LAPIC Address Override:\n", [])
              ∷ (codes "    Local APIC Address: %llx\n", e.local_apic_address ∷ [])
              ∷ [])
            st),
    )

abbrev pub local_x2apic : Mem → ℕ → Acpi → Case
local_x2apic m a st =
    let e = acpi_madt_local_x2apic m a in
    (
      16,
      debugf []
          ((codes "  Local x2APIC:\n", [])
            ∷ (codes "    x2APIC ID: %d\n", e.local_x2apic_id ∷ [])
            ∷ (codes "    ACPI ID: %d\n", e.acpi_id ∷ [])
            ∷ (codes "    Flags: %x\n", e.flags ∷ [])
            ∷ [])
          st,
    )

-- The switch; `none` is its default case.
unfoldable pub madt_case : Mem → ℕ → Acpi → Option Case
madt_case m a st =
    let entry_type = (acpi_madt_head m a).entry_type in
    if entry_type == 0
    then some (lapic m a st)
    else if entry_type == 1
    then some (ioapic m a st)
    else if entry_type == 2
    then some (interrupt_override m a st)
    else if entry_type == 3
    then some (nmi m a st)
    else if entry_type == 4
    then some (lapic_nmi m a st)
    else if entry_type == 5
    then some (lapic_address_override m a st)
    else if entry_type == 9
    then some (local_x2apic m a st)
    else none

-- remain > 0, for an int in two's complement
abbrev pub is_positive : ℕ → Bool
is_positive remain = not (remain == 0) && ltb remain (2 ^ 31)

-- while (remain > 0)
unfoldable pub madt_walk : ℕ → Mem → ℕ → ℕ → Acpi → Outcome Acpi
madt_walk zero m remain a st = endless
madt_walk (suc k) m remain a st =
    let rest =
      λ (len : ℕ) (st' : Acpi). madt_walk k m ((remain + 2 ^ 32 - len) % 2 ^ 32) (a + len) st' in
    if is_positive remain
    then elim (madt_case m a st) [ none ↦ panic | some (len, st') ↦ rest len st' ]
    else ok st
