-- ===== src/Tests/Firmware.antt =====
-- The tables that the kernel is started with: an image with one MADT.
use march_os.Base.{ℕ, ◌≡◌, refl, List, [], ◌∷◌, ◌++◌, get_or, panic, Returns, Ends, arith}
use march_os.Base.Text.{codes}
use march_os.Mm.Mem.{Mem, load64, update}
use march_os.Acpi.Madt.{Acpi}
use march_os.Acpi.{acpi_init}
use march_os.Acpi.Entries.{MadtEntry, processor_apic, io_apic}
use march_os.Acpi.Tables.{madt, table_effects, acpi_init_unknown, acpi_init-effects, acpi_init-Ends}

abbrev four : List ℕ
four = 0 ∷ 0 ∷ 0 ∷ 0 ∷ []

abbrev sixteen : List ℕ
sixteen = four ++ four ++ four ++ four

-- The XSDP is at 0, the XSDT at 40, the MADT at 84.
abbrev image : List ℕ
image =
    sixteen
    ++ four
    ++ four
    ++ (40 ∷ 0 ∷ 0 ∷ 0 ∷ four)
    ++ four
    ++ four
    ++ codes "XSDT"
    ++ (44 ∷ 0 ∷ 0 ∷ 0 ∷ sixteen)
    ++ four
    ++ four
    ++ four
    ++ (84 ∷ 0 ∷ 0 ∷ 0 ∷ four)
    ++ codes "APIC"
    ++ (64 ∷ 0 ∷ 0 ∷ 0 ∷ sixteen)
    ++ four
    ++ four
    ++ four
    ++ (0 ∷ 0 ∷ 0xE0 ∷ 0xFE ∷ four)
    ++ (0 ∷ 8 ∷ 0 ∷ 3 ∷ 1 ∷ 0 ∷ 0 ∷ 0 ∷ [])
    ++ (1 ∷ 12 ∷ 7 ∷ 0 ∷ 0 ∷ 0 ∷ 0xC0 ∷ 0xFE ∷ four)

abbrev firmware : Mem
firmware a = get_or image a 0

abbrev entries : List MadtEntry
entries = processor_apic 0 3 1 ∷ io_apic 7 0xFEC0_0000 0 ∷ []

abbrev at_start : Acpi
at_start = record {
  apic = record { lapic_id = 0; lapic_addr = 0; ioapic_id = 0; ioapic_addr = 0 };
  sent = [];
}

acpi_init-effects_example :
    Returns
      (λ st'. st'.apic ≡ table_effects (madt 0xFEE0_0000 entries ∷ []) at_start.apic)
      (acpi_init firmware 0 at_start)
unfolding load64
acpi_init-effects_example =
    acpi_init-effects firmware 0 (madt 0xFEE0_0000 entries ∷ []) at_start refl (omega arith) (
      (refl, (refl, omega arith, refl, ((refl, refl, refl, refl), ((refl, refl, refl, refl), tt)))),
      tt,
    )

found :
    table_effects (madt 0xFEE0_0000 entries ∷ []) at_start.apic
    ≡ record { lapic_id = 3; lapic_addr = 0xFEE0_0000; ioapic_id = 7; ioapic_addr = 0xFEC0_0000 }
found = refl

-- The second entry has a type that the switch has no case for.
acpi_init_unknown_example : acpi_init (update firmware 136 15) 0 at_start ≡ panic
unfolding load64
acpi_init_unknown_example =
    acpi_init_unknown (update firmware 136 15) 0 0 20 [] (processor_apic 0 3 1 ∷ []) at_start refl
      (omega arith) tt refl (refl, omega arith, omega arith, ((refl, refl, refl, refl), tt), refl)

acpi_init-Ends_example : Ends (acpi_init firmware 0 at_start)
acpi_init-Ends_example = acpi_init-Ends firmware 0 at_start
