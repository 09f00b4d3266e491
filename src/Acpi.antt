-- ===== src/Acpi.antt =====
-- The tables of the firmware: acpi.c, with the structs of include/acpi.h as offsets into memory. The
-- output is that of a build with __DEBUG__.
pub mod Structs
pub mod Madt
pub mod Entries
pub mod Walk
pub mod Tables
use march_os.Base.{
  ℕ, zero, suc, ◌+◌, ◌-◌, ◌*◌, ◌/◌, ◌%◌, ◌^◌, Bool, ◌&&◌, not, Option, none, some, List, [], ◌∷◌,
  ◌++◌, map, ltb, ◌==◌, if◌then◌else◌, Outcome, ok, panic, ◌>>=◌,
}
use march_os.Base.Text.{codes}
use march_os.Mm.Mem.{Mem, half, word, load64}
use march_os.Acpi.Structs.{
  array, acpi_xsdp, acpi_xsdt_header, acpi_madt, acpi_madt_head, acpi_madt_lapic, acpi_madt_ioapic,
  acpi_madt_interrupt_override, acpi_madt_nmi, acpi_madt_lapic_nmi,
  acpi_madt_lapic_address_override, acpi_madt_local_x2apic,
}
use march_os.Console.{kprintf}
use march_os.Console.{text, stack_array}
use march_os.Acpi.Madt.{Apic, Acpi, debugf, set_lapic_addr, madt_walk}

unfoldable pub dump_xsdp : Mem → ℕ → Acpi → Acpi
dump_xsdp m xsdp st =
    let e = acpi_xsdp m xsdp in
    debugf []
      ((codes "  Revision: %d\n", e.revision ∷ [])
        ∷ (codes "  RsdtAddress: %x\n", e.rsdt_address ∷ [])
        ∷ (codes "  XsdtAddress: %x\n", e.xsdt_address ∷ [])
        ∷ [])
      (debugf (text e.oem_id) ((codes "  OEMID: %s\n", stack_array ∷ []) ∷ []) (
        debugf (text e.signature)
          ((codes "[acpi] XSDP:\n", []) ∷ (codes "  Signature: %s\n", stack_array ∷ []) ∷ []) st))

-- The signature is read as eight bytes.
unfoldable pub dump_xsdt : Mem → ℕ → Acpi → Acpi
dump_xsdt m xsdt st =
    let e = acpi_xsdt_header m xsdt in
    debugf []
      ((codes "  Revision: %d\n", e.revision ∷ [])
        ∷ (codes "  OEMRevision: %d\n", e.oem_revision ∷ [])
        ∷ [])
      (debugf (text e.oem_id) ((codes "  OEMID: %s\n", stack_array ∷ []) ∷ []) (
        debugf (text (array m xsdt 8))
          ((codes "[acpi] XSDT:\n", []) ∷ (codes "  Signature: %s\n", stack_array ∷ []) ∷ []) st))

unfoldable pub dump_madt : Mem → ℕ → Acpi → Acpi
dump_madt m madt st =
    let e = acpi_madt m madt in
    debugf []
      ((codes "[acpi] MADT:\n", [])
        ∷ (codes "  Revision: %d\n", e.revision ∷ [])
        ∷ (codes "  LocalAPICAddress: %x\n", e.local_apic_address ∷ [])
        ∷ (codes "  Flags: %x\n", e.flags ∷ [])
        ∷ [])
      st

-- !strcmp(sig, "APIC"), where sig is four bytes and a NUL
abbrev pub is_madt : Mem → ℕ → Bool
is_madt m entry =
    m entry == b'A' && m (entry + 1) == b'P' && m (entry + 2) == b'I' && m (entry + 3) == b'C'

-- The branch for the MADT. The fuel is enough: each round takes at least 6 from `remain`.
unfoldable pub read_madt : Mem → ℕ → Acpi → Outcome Acpi
read_madt m madt st =
    let e = acpi_madt m madt in
    let remain = (e.length + 2 ^ 32 - 44) % 2 ^ 32 in
    madt_walk (suc remain) m remain (madt + 44)
      (set_lapic_addr e.local_apic_address (dump_madt m madt st))

-- for (i = 0; i < xsdt_n; i++), with `n` to go from the pointer at `p` on
unfoldable pub each_table : ℕ → Mem → ℕ → Acpi → Outcome Acpi
each_table zero m p st = ok st
each_table (suc n) m p st =
    let entry = load64 m p in
    (if is_madt m entry then read_madt m entry st else ok st) >>= each_table n m (p + 8)

-- `uint8 xsdt_n`; the length is widened to 64 bits.
abbrev pub xsdt_n : Mem → ℕ → ℕ
xsdt_n m xsdt = ((acpi_xsdt_header m xsdt).length + 2 ^ 64 - 36) % 2 ^ 64 / 8 % 2 ^ 8

unfoldable pub acpi_init : Mem → ℕ → Acpi → Outcome Acpi
acpi_init m xsdp st =
    let xsdt = (acpi_xsdp m xsdp).xsdt_address in
    let st' =
      debugf [] ((codes "[acpi] XSDT Entries: %d\n", xsdt_n m xsdt ∷ []) ∷ [])
        (dump_xsdt m xsdt (dump_xsdp m xsdp st)) in
    each_table (xsdt_n m xsdt) m (xsdt + 36) st'
