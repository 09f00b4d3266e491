-- ===== src/Pci/Classes.antt =====
-- pci_parse_class of pci.c: the line it prints for a device.
pub mod Devices
pub mod Bridges
pub mod Buses
use march_os.Base.{ℕ, List, [], ◌∷◌, ◌++◌, ◌≡◌, ◌∙◌, refl, true}
use march_os.Base.Text.{codes}
use march_os.Console.{printn, kprintf, conversion}
use march_os.Console.Line.{is_line, is_line-number}
use march_os.Pci.Switch.{switch, switch-IsLine, unknown_class, unknown_class-IsLine}
use march_os.Pci.Classes.Devices.{
  unclassified, storage, network, display, multimedia, memory, unclassified-IsLine, storage-IsLine,
  network-IsLine, display-IsLine, multimedia-IsLine, memory-IsLine,
}
use march_os.Pci.Classes.Bridges.{
  bridge, simple_comm, base_system_peripheral, input_device, bridge-IsLine, simple_comm-IsLine,
  base_system_peripheral-IsLine, input_device-IsLine,
}
use march_os.Pci.Classes.Buses.{
  docking_station, processor, serial_bus, wireless, satellite_comm, encryption, signal,
  docking_station-IsLine, processor-IsLine, serial_bus-IsLine, wireless-IsLine,
  satellite_comm-IsLine, encryption-IsLine, signal-IsLine,
}

-- The outer switch.
unfoldable pub class_line : ℕ → ℕ → ℕ → List ℕ
class_line class subclass prog =
    switch class
      ((0x00, unclassified subclass)
        ∷ (0x01, storage subclass prog)
        ∷ (0x02, network subclass)
        ∷ (0x03, display subclass prog)
        ∷ (0x04, multimedia subclass)
        ∷ (0x05, memory subclass)
        ∷ (0x06, bridge subclass prog)
        ∷ (0x07, simple_comm subclass prog)
        ∷ (0x08, base_system_peripheral subclass prog)
        ∷ (0x09, input_device subclass prog)
        ∷ (0x0A, docking_station subclass)
        ∷ (0x0B, processor subclass)
        ∷ (0x0C, serial_bus subclass prog)
        ∷ (0x0D, wireless subclass)
        ∷ (0x0E, codes "Intelligent I/O Controller\n")
        ∷ (0x0F, satellite_comm subclass)
        ∷ (0x10, encryption subclass)
        ∷ (0x11, signal subclass)
        ∷ (0x12, codes "Processing Accelerator\n")
        ∷ (0x13, codes "Non-Essential Instrumentation\n")
        ∷ (0x40, codes "Co-Processor\n")
        ∷ (0xFF, codes "Unassigned Class\n")
        ∷ [])
      (unknown_class class)

unfoldable pub pci_parse_class : ℕ → ℕ → ℕ → ℕ → ℕ → ℕ → List ℕ
unfolding class_line
pci_parse_class bus slot func class subclass prog =
    kprintf (λ a. []) (codes "[PCI %X:%X.%X] ") (bus ∷ slot ∷ func ∷ [])
    ++ class_line class subclass prog

class_line-IsLine : (class subclass prog : ℕ) → is_line (class_line class subclass prog) ≡ true
unfolding class_line
class_line-IsLine class subclass prog =
    switch-IsLine _ _ class
      (
        unclassified-IsLine subclass,
        (
          storage-IsLine subclass prog,
          (
            network-IsLine subclass,
            (
              display-IsLine subclass prog,
              (
                multimedia-IsLine subclass,
                (
                  memory-IsLine subclass,
                  (
                    bridge-IsLine subclass prog,
                    (
                      simple_comm-IsLine subclass prog,
                      (
                        base_system_peripheral-IsLine subclass prog,
                        (
                          input_device-IsLine subclass prog,
                          (
                            docking_station-IsLine subclass,
                            (
                              processor-IsLine subclass,
                              (
                                serial_bus-IsLine subclass prog,
                                (
                                  wireless-IsLine subclass,
                                  (
                                    refl,
                                    (
                                      satellite_comm-IsLine subclass,
                                      (
                                        encryption-IsLine subclass,
                                        (
                                          signal-IsLine subclass,
                                          (refl, (refl, (refl, (refl, tt)))),
                                        ),
                                      ),
                                    ),
                                  ),
                                ),
                              ),
                            ),
                          ),
                        ),
                      ),
                    ),
                  ),
                ),
              ),
            ),
          ),
        ),
      )
      (unknown_class-IsLine class)

-- pci_parse_class prints exactly one line for every device: some text without a line break, then
-- one, whatever the class, the subclass and the interface are.
pub pci_parse_class-IsLine :
    (bus slot func class subclass prog : ℕ)
    → is_line (pci_parse_class bus slot func class subclass prog) ≡ true
unfolding pci_parse_class kprintf conversion
pci_parse_class-IsLine bus slot func class subclass prog =
    is_line-number bus (b':' ∷ (printn slot 16 ++ (b'.' ∷ (printn func 16 ++ codes "] ")))) _
    ∙ is_line-number slot (b'.' ∷ (printn func 16 ++ codes "] ")) _
    ∙ is_line-number func (codes "] ") _
    ∙ class_line-IsLine class subclass prog
