-- ===== src/Acpi/Entries.antt =====
-- The entries of a MADT, described, and the switch of acpi_init in acpi.c on each.
use march_os.Base.{ℕ, ◌+◌, ◌≤◌, ◌≡◌, refl, ap, some, List, [], ◌∷◌, arith}
use march_os.Mm.Mem.{Mem, half, word, load64}
use march_os.Acpi.Madt.{
  Apic, Acpi, lapic, ioapic, interrupt_override, nmi, lapic_nmi, lapic_address_override,
  local_x2apic, madt_case,
}

-- The entries of a MADT that the switch has a case for, by their fields. An interrupt source that is
-- not maskable has the 10 bytes of its struct in acpi.h here; the standard gives it 8.
pub data MadtEntry : Type 0 where
  processor_apic : (processor id flags : ℕ) → MadtEntry
  io_apic : (id address first : ℕ) → MadtEntry
  source_override : (bus source interrupt flags : ℕ) → MadtEntry
  nmi_source : (source interrupt flags : ℕ) → MadtEntry
  processor_nmi : (processor flags lint : ℕ) → MadtEntry
  address_override : (address : ℕ) → MadtEntry
  x2apic : (id flags processor : ℕ) → MadtEntry

abbrev pub size : MadtEntry → ℕ
size (processor_apic processor id flags) = 8
size (io_apic id address first) = 12
size (source_override bus source interrupt flags) = 10
size (nmi_source source interrupt flags) = 10
size (processor_nmi processor flags lint) = 6
size (address_override address) = 12
size (x2apic id flags processor) = 16

-- The type of an entry and its fields, where acpi.h has them.
abbrev pub IsStored : Mem → ℕ → MadtEntry → Type 0
IsStored m a (processor_apic processor id flags) =
    (m a ≡ 0) × (m (a + 2) ≡ processor) × (m (a + 3) ≡ id) × (word m (a + 4) ≡ flags)
IsStored m a (io_apic id address first) =
    (m a ≡ 1) × (m (a + 2) ≡ id) × (word m (a + 4) ≡ address) × (word m (a + 8) ≡ first)
IsStored m a (source_override bus source interrupt flags) =
    (m a ≡ 2)
    × (m (a + 2) ≡ bus)
    × (m (a + 3) ≡ source)
    × (word m (a + 4) ≡ interrupt)
    × (half m (a + 8) ≡ flags)
IsStored m a (nmi_source source interrupt flags) =
    (m a ≡ 3) × (m (a + 2) ≡ source) × (half m (a + 4) ≡ flags) × (word m (a + 6) ≡ interrupt)
IsStored m a (processor_nmi processor flags lint) =
    (m a ≡ 4) × (m (a + 2) ≡ processor) × (half m (a + 3) ≡ flags) × (m (a + 5) ≡ lint)
IsStored m a (address_override address) = (m a ≡ 5) × (load64 m (a + 4) ≡ address)
IsStored m a (x2apic id flags processor) =
    (m a ≡ 9) × (word m (a + 4) ≡ id) × (word m (a + 8) ≡ flags) × (word m (a + 12) ≡ processor)

abbrev pub AreStored : Mem → ℕ → List MadtEntry → Type 0
AreStored m a [] = Unit {0}
AreStored m a (e ∷ es) = IsStored m a e × AreStored m (a + size e) es

abbrev pub total : List MadtEntry → ℕ
total [] = 0
total (e ∷ es) = size e + total es

-- What an entry says of the interrupt controllers.
abbrev pub effect : MadtEntry → Apic → Apic
effect (processor_apic processor id flags) apic = record apic { lapic_id = id }
effect (io_apic id address first) apic = record apic { ioapic_id = id; ioapic_addr = address }
effect (source_override bus source interrupt flags) apic = apic
effect (nmi_source source interrupt flags) apic = apic
effect (processor_nmi processor flags lint) apic = apic
effect (address_override address) apic = record apic { lapic_addr = address }
effect (x2apic id flags processor) apic = apic

abbrev pub effects : List MadtEntry → Apic → Apic
effects [] apic = apic
effects (e ∷ es) apic = effects es (effect e apic)

-- The case of the switch that an entry leads to.
pub record Handled (m : Mem) (a : ℕ) (e : MadtEntry) (st : Acpi) : Type 0 where
  pub after : Acpi
  pub taken : madt_case m a st ≡ some (size e, after)
  pub apic : after.apic ≡ effect e st.apic

pub handled : (m : Mem) (a : ℕ) (e : MadtEntry) (st : Acpi) → IsStored m a e → Handled m a e st
unfolding madt_case
handled m a (processor_apic processor id flags) st s = record {
  after = (lapic m a st).1;
  taken = rw s.0 refl;
  apic = ap (λ (v : ℕ). record (st.apic) { lapic_id = v }) s.2;
}
handled m a (io_apic id address first) st s = record {
  after = (ioapic m a st).1;
  taken = rw s.0 refl;
  apic = rw (s.1, s.2) refl;
}
handled m a (source_override bus source interrupt flags) st s = record {
  after = (interrupt_override m a st).1;
  taken = rw s.0 refl;
  apic = refl;
}
handled m a (nmi_source source interrupt flags) st s = record {
  after = (nmi m a st).1;
  taken = rw s.0 refl;
  apic = refl;
}
handled m a (processor_nmi processor flags lint) st s = record {
  after = (lapic_nmi m a st).1;
  taken = rw s.0 refl;
  apic = refl;
}
handled m a (address_override address) st s = record {
  after = (lapic_address_override m a st).1;
  taken = rw s.0 refl;
  apic = ap (λ (v : ℕ). record (st.apic) { lapic_addr = v }) s.1;
}
handled m a (x2apic id flags processor) st s = record {
  after = (local_x2apic m a st).1;
  taken = rw s.0 refl;
  apic = refl;
}

pub size-bounds : (e : MadtEntry) → (6 ≤ size e) × (size e ≤ 16)
size-bounds (processor_apic processor id flags) = (omega arith, omega arith)
size-bounds (io_apic id address first) = (omega arith, omega arith)
size-bounds (source_override bus source interrupt flags) = (omega arith, omega arith)
size-bounds (nmi_source source interrupt flags) = (omega arith, omega arith)
size-bounds (processor_nmi processor flags lint) = (omega arith, omega arith)
size-bounds (address_override address) = (omega arith, omega arith)
size-bounds (x2apic id flags processor) = (omega arith, omega arith)
