-- ===== src/Acpi/Structs.antt =====
-- The structs of include/acpi.h, which are packed: their fields, and what they are in memory.
use march_os.Base.{ℕ, zero, suc, ◌+◌, List, [], ◌∷◌}
use march_os.Mm.Mem.{Mem, half, word, load64}

-- An array of `n` bytes.
abbrev pub array : Mem → ℕ → ℕ → List ℕ
array m a zero = []
array m a (suc n) = m a ∷ array m (a + 1) n

pub record AcpiXsdp : Type 0 where
  pub signature : List ℕ
  pub checksum : ℕ
  pub oem_id : List ℕ
  pub revision : ℕ
  pub rsdt_address : ℕ
  pub length : ℕ
  pub xsdt_address : ℕ
  pub extended_checksum : ℕ

abbrev pub acpi_xsdp : Mem → ℕ → AcpiXsdp
acpi_xsdp m a = record {
  signature = array m a 8;
  checksum = m (a + 8);
  oem_id = array m (a + 9) 6;
  revision = m (a + 15);
  rsdt_address = word m (a + 16);
  length = word m (a + 20);
  xsdt_address = load64 m (a + 24);
  extended_checksum = m (a + 32);
}

pub record AcpiXsdtHeader : Type 0 where
  pub signature : List ℕ
  pub length : ℕ
  pub revision : ℕ
  pub checksum : ℕ
  pub oem_id : List ℕ
  pub oem_table_id : List ℕ
  pub oem_revision : ℕ
  pub creator_id : ℕ
  pub creator_revision : ℕ

abbrev pub acpi_xsdt_header : Mem → ℕ → AcpiXsdtHeader
acpi_xsdt_header m a = record {
  signature = array m a 4;
  length = word m (a + 4);
  revision = m (a + 8);
  checksum = m (a + 9);
  oem_id = array m (a + 10) 6;
  oem_table_id = array m (a + 16) 8;
  oem_revision = word m (a + 24);
  creator_id = word m (a + 28);
  creator_revision = word m (a + 32);
}

pub record AcpiMadt : Type 0 where
  pub signature : List ℕ
  pub length : ℕ
  pub revision : ℕ
  pub checksum : ℕ
  pub oem_id : List ℕ
  pub oem_table_id : List ℕ
  pub oem_revision : ℕ
  pub creator_id : ℕ
  pub creator_revision : ℕ
  pub local_apic_address : ℕ
  pub flags : ℕ

abbrev pub acpi_madt : Mem → ℕ → AcpiMadt
acpi_madt m a = record {
  signature = array m a 4;
  length = word m (a + 4);
  revision = m (a + 8);
  checksum = m (a + 9);
  oem_id = array m (a + 10) 6;
  oem_table_id = array m (a + 16) 8;
  oem_revision = word m (a + 24);
  creator_id = word m (a + 28);
  creator_revision = word m (a + 32);
  local_apic_address = word m (a + 36);
  flags = word m (a + 40);
}

pub record AcpiMadtHead : Type 0 where
  pub entry_type : ℕ
  pub length : ℕ

abbrev pub acpi_madt_head : Mem → ℕ → AcpiMadtHead
acpi_madt_head m a = record { entry_type = m a; length = m (a + 1) }

pub record AcpiMadtLapic : Type 0 where
  pub head : AcpiMadtHead
  pub acpi_processor_id : ℕ
  pub apic_id : ℕ
  pub flags : ℕ

abbrev pub acpi_madt_lapic : Mem → ℕ → AcpiMadtLapic
acpi_madt_lapic m a = record {
  head = acpi_madt_head m a;
  acpi_processor_id = m (a + 2);
  apic_id = m (a + 3);
  flags = word m (a + 4);
}

pub record AcpiMadtIoapic : Type 0 where
  pub head : AcpiMadtHead
  pub ioapic_id : ℕ
  pub reserved : ℕ
  pub ioapic_address : ℕ
  pub global_system_interrupt_base : ℕ

abbrev pub acpi_madt_ioapic : Mem → ℕ → AcpiMadtIoapic
acpi_madt_ioapic m a = record {
  head = acpi_madt_head m a;
  ioapic_id = m (a + 2);
  reserved = m (a + 3);
  ioapic_address = word m (a + 4);
  global_system_interrupt_base = word m (a + 8);
}

pub record AcpiMadtInterruptOverride : Type 0 where
  pub head : AcpiMadtHead
  pub bus_source : ℕ
  pub irq_source : ℕ
  pub global_system_interrupt : ℕ
  pub flags : ℕ

abbrev pub acpi_madt_interrupt_override : Mem → ℕ → AcpiMadtInterruptOverride
acpi_madt_interrupt_override m a = record {
  head = acpi_madt_head m a;
  bus_source = m (a + 2);
  irq_source = m (a + 3);
  global_system_interrupt = word m (a + 4);
  flags = half m (a + 8);
}

pub record AcpiMadtNmi : Type 0 where
  pub head : AcpiMadtHead
  pub nmi_source : ℕ
  pub reserved : ℕ
  pub flags : ℕ
  pub global_system_interrupt : ℕ

abbrev pub acpi_madt_nmi : Mem → ℕ → AcpiMadtNmi
acpi_madt_nmi m a = record {
  head = acpi_madt_head m a;
  nmi_source = m (a + 2);
  reserved = m (a + 3);
  flags = half m (a + 4);
  global_system_interrupt = word m (a + 6);
}

pub record AcpiMadtLapicNmi : Type 0 where
  pub head : AcpiMadtHead
  pub acpi_processor_id : ℕ
  pub flags : ℕ
  pub lint : ℕ

abbrev pub acpi_madt_lapic_nmi : Mem → ℕ → AcpiMadtLapicNmi
acpi_madt_lapic_nmi m a = record {
  head = acpi_madt_head m a;
  acpi_processor_id = m (a + 2);
  flags = half m (a + 3);
  lint = m (a + 5);
}

pub record AcpiMadtLapicAddressOverride : Type 0 where
  pub head : AcpiMadtHead
  pub reserved : ℕ
  pub local_apic_address : ℕ

abbrev pub acpi_madt_lapic_address_override : Mem → ℕ → AcpiMadtLapicAddressOverride
acpi_madt_lapic_address_override m a = record {
  head = acpi_madt_head m a;
  reserved = half m (a + 2);
  local_apic_address = load64 m (a + 4);
}

pub record AcpiMadtLocalX2Apic : Type 0 where
  pub head : AcpiMadtHead
  pub reserved : ℕ
  pub local_x2apic_id : ℕ
  pub flags : ℕ
  pub acpi_id : ℕ

abbrev pub acpi_madt_local_x2apic : Mem → ℕ → AcpiMadtLocalX2Apic
acpi_madt_local_x2apic m a = record {
  head = acpi_madt_head m a;
  reserved = half m (a + 2);
  local_x2apic_id = word m (a + 4);
  flags = word m (a + 8);
  acpi_id = word m (a + 12);
}
