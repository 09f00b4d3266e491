-- ===== src/Tests/Bus.antt =====
-- The PCI bus with concrete devices.
use march_os.Base.{
  ℕ, ◌+◌, ◌*◌, ◌-◌, ◌%◌, ◌^◌, ◌≡◌, refl, true, [], ◌∷◌, ltb, if◌then◌else◌, map, arith,
}
use march_os.Base.Text.{codes}
use march_os.Console.{kprintf, conversion, printn, printn_depth}
use march_os.Console.Line.{is_line}
use march_os.Pci.{
  config_address, pci_config_read, pci_config_read8, pci_config_read16, pci_read_header,
  pci_read_table, scan_slot, pci_scan,
}
use march_os.Pci.Config.{Presents, Bytes}
use march_os.Pci.Scan.{buses}
use march_os.Pci.Registers.{answering, pci_scan-answering}
use march_os.Pci.Switch.{switch}
use march_os.Pci.Classes.Devices.{storage}
use march_os.Pci.Classes.{class_line, pci_parse_class, pci_parse_class-IsLine}

-- Each byte of every configuration space is its own offset.
abbrev counting : ℕ → ℕ → ℕ → ℕ → ℕ
counting bus slot func o = o % 256

abbrev counting_port : ℕ → ℕ
counting_port a =
    a % 256
    + 2 ^ 8 * ((a % 256 + 1) % 256)
    + 2 ^ 16 * ((a % 256 + 2) % 256)
    + 2 ^ 24 * ((a % 256 + 3) % 256)

counting-Presents : Presents counting_port counting
counting-Presents bus slot func w hb hs hf hw = omega arith

counting-Bytes : Bytes counting
counting-Bytes bus slot func o = omega arith

pci_scan-answering_example : pci_scan counting_port ≡ answering counting (buses 256 0)
pci_scan-answering_example =
    pci_scan-answering counting_port counting counting-Presents counting-Bytes

-- Slot 0 of bus 0 has one function, and nothing else answers.
abbrev one_device : ℕ → ℕ
one_device a = if ltb (a - 2 ^ 31) 256 then 0x0102_0304 else 0xFFFF_FFFF

found : map (λ d. d.header.vendor_id) (scan_slot one_device 0 0) ≡ 0x0304 ∷ []
unfolding scan_slot pci_read_table pci_read_header pci_config_read16 pci_config_read8
    pci_config_read config_address
found = refl

pci_parse_class-IsLine_example : is_line (pci_parse_class 0 31 2 1 6 1) ≡ true
pci_parse_class-IsLine_example = pci_parse_class-IsLine 0 31 2 1 6 1

sata :
    pci_parse_class 0 31 2 1 6 1
    ≡ codes "[PCI 0:1F.2] Mass Storage Controller: SATA Controller (AHCI 1.0)\n"
unfolding pci_parse_class class_line storage switch kprintf conversion printn printn_depth
sata = refl
