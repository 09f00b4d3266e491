-- ===== src/Pci.antt =====
-- The PCI bus: pci.c. The device behind the configuration ports is an argument: the 32 bits that it
-- gives for each address written to the address port.
pub mod Switch
pub mod Classes
pub mod Config
pub mod Scan
pub mod Registers
use march_os.Base.{
  ℕ, zero, suc, ◌+◌, ◌*◌, ◌/◌, ◌%◌, ◌^◌, Bool, not, ◌==◌, if◌then◌else◌, List, [], ◌∷◌, ◌++◌,
  bit_and, bit_or,
}

-- PCI_CONFIG_ENABLE | (bus << 16) | (slot << 11) | (func << 8) | (offset & 0xFC)
unfoldable pub config_address : ℕ → ℕ → ℕ → ℕ → ℕ
config_address bus slot func offset =
    bit_or
      (bit_or (bit_or (bit_or (2 ^ 31) (bus * 2 ^ 16 % 2 ^ 32)) (slot * 2 ^ 11 % 2 ^ 32))
        (func * 2 ^ 8 % 2 ^ 32))
      (bit_and offset 0xFC)

-- struct pci_device_header
pub record Header : Type 0 where
  pub bus : ℕ
  pub slot : ℕ
  pub func : ℕ
  pub vendor_id : ℕ
  pub device_id : ℕ
  pub command : ℕ
  pub status : ℕ
  pub rev_id : ℕ
  pub prog_if : ℕ
  pub subclass_id : ℕ
  pub class_id : ℕ
  pub cache_line_size : ℕ
  pub latency_timer : ℕ
  pub header_type : ℕ
  pub bist : ℕ

-- struct pci_device
pub record Device : Type 0 where
  pub header : Header
  pub bars : List ℕ
  pub cardbus_cis_pointer : ℕ
  pub subsystem_vendor_id : ℕ
  pub subsystem_id : ℕ
  pub expansion_rom_base : ℕ
  pub cap_pointer : ℕ
  pub interrupt_line : ℕ
  pub interrupt_pin : ℕ
  pub min_grant : ℕ
  pub max_latency : ℕ

module _ (space : ℕ → ℕ) where
  unfoldable pub pci_config_read : ℕ → ℕ → ℕ → ℕ → ℕ
  pci_config_read bus slot func offset = space (config_address bus slot func offset)

  unfoldable pub pci_config_read16 : ℕ → ℕ → ℕ → ℕ → ℕ
  pci_config_read16 bus slot func offset =
      pci_config_read bus slot func offset / 2 ^ (bit_and offset 2 * 8) % 2 ^ 16

  unfoldable pub pci_config_read8 : ℕ → ℕ → ℕ → ℕ → ℕ
  pci_config_read8 bus slot func offset =
      pci_config_read bus slot func offset / 2 ^ (bit_and offset 3 * 8) % 2 ^ 8

  unfoldable pub pci_read_header : ℕ → ℕ → ℕ → Header
  pci_read_header b s f = record {
    bus = b % 2 ^ 8;
    slot = s % 2 ^ 8;
    func = f % 2 ^ 8;
    vendor_id = pci_config_read16 b s f 0;
    device_id = pci_config_read16 b s f 2;
    command = pci_config_read16 b s f 4;
    status = pci_config_read16 b s f 6;
    rev_id = pci_config_read8 b s f 8;
    prog_if = pci_config_read8 b s f 9;
    subclass_id = pci_config_read8 b s f 10;
    class_id = pci_config_read8 b s f 11;
    cache_line_size = pci_config_read8 b s f 12;
    latency_timer = pci_config_read8 b s f 13;
    header_type = pci_config_read8 b s f 14;
    bist = pci_config_read8 b s f 15;
  }

  unfoldable pub pci_read_table : Header → Device
  pci_read_table h =
      let word = pci_config_read h.bus h.slot h.func in
      let half = pci_config_read16 h.bus h.slot h.func in
      let byte = pci_config_read8 h.bus h.slot h.func in
      record {
        header = h;
        bars = word 0x10 ∷ word 0x14 ∷ word 0x18 ∷ word 0x1C ∷ word 0x20 ∷ word 0x24 ∷ [];
        cardbus_cis_pointer = word 0x28;
        subsystem_vendor_id = half 0x2C;
        subsystem_id = half 0x2E;
        expansion_rom_base = word 0x30;
        cap_pointer = byte 0x34;
        interrupt_line = byte 0x3C;
        interrupt_pin = byte 0x3D;
        min_grant = byte 0x3E;
        max_latency = byte 0x3F;
      }

  abbrev pub absent : ℕ → ℕ → ℕ → Bool
  absent b s f = pci_config_read16 b s f 0 == 0xFFFF

  abbrev pub probe : ℕ → ℕ → ℕ → Device
  probe b s f = pci_read_table (pci_read_header b s f)

  -- The inner loop of pci_scan: `n` functions from `f` on.
  unfoldable pub scan_functions : ℕ → ℕ → ℕ → ℕ → List Device
  scan_functions zero b s f = []
  scan_functions (suc n) b s f =
      let rest = scan_functions n b s (f + 1) in if absent b s f then rest else probe b s f ∷ rest

  -- What the body of its loops adds to the list for a slot.
  unfoldable pub scan_slot : ℕ → ℕ → List Device
  scan_slot b s =
      if absent b s 0
      then []
      else let d = probe b s 0 in
        d ∷ (if not (bit_and (d.header.header_type) 0x80 == 0) then scan_functions 7 b s 1 else [])

  unfoldable pub scan_slots : ℕ → ℕ → ℕ → List Device
  scan_slots zero b s = []
  scan_slots (suc n) b s = scan_slot b s ++ scan_slots n b (s + 1)

  unfoldable pub scan_buses : ℕ → ℕ → List Device
  scan_buses zero b = []
  scan_buses (suc n) b = scan_slots 32 b 0 ++ scan_buses n (b + 1)

  -- The devices in the order in which list_push puts them on `pci_devices`. What is printed for each
  -- is pci_parse_class, in Classes.
  unfoldable pub pci_scan : List Device
  pci_scan = scan_buses 256 0
