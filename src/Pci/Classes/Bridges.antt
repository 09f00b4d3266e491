-- ===== src/Pci/Classes/Bridges.antt =====
-- pci_parse_class of pci.c: what it prints for bridges, communication, system peripherals and input devices.
use march_os.Base.{ℕ, List, [], ◌∷◌, ◌++◌, ◌≡◌, refl, true}
use march_os.Base.Text.{codes}
use march_os.Console.Line.{is_line}
use march_os.Pci.Switch.{switch, switch-IsLine, unknown_subclass, unknown_subclass-IsLine}

unfoldable pub bridge : ℕ → ℕ → List ℕ
bridge subclass prog =
    codes "Bridge: "
    ++ switch subclass
        ((0x00, codes "Host Bridge\n")
          ∷ (0x01, codes "ISA Bridge\n")
          ∷ (0x02, codes "EISA Bridge\n")
          ∷ (0x03, codes "MCA Bridge\n")
          ∷ (
            0x04,
            codes "PCI-to-PCI Bridge "
                ++ switch prog
                    ((0, codes "(Normal Decode)\n") ∷ (1, codes "(Subtractive Decode)\n") ∷ [])
                    (codes "(Unknown Decode)\n"),
          )
          ∷ (0x05, codes "PCMCIA Bridge\n")
          ∷ (0x06, codes "NuBus Bridge\n")
          ∷ (0x07, codes "CardBus Bridge\n")
          ∷ (
            0x08,
            codes "RACEway Bridge "
                ++ switch prog
                    ((0, codes "(Transparent Mode)\n") ∷ (1, codes "(Endpoint Mode)\n") ∷ [])
                    (codes "(Unknown Mode)\n"),
          )
          ∷ (
            0x09,
            codes "PCI-to-PCI Bridge"
                ++ switch prog
                    ((0x40, codes "(Semi-Transparent, Primary Bus towards Host)\n")
                      ∷ (0x80, codes "(Semi-Transparent, Secondary Bus towards Host)\n")
                      ∷ [])
                    (codes "(Unknown Mode)\n"),
          )
          ∷ (0x0A, codes "InfiniBand-to-PCI Host Bridge\n")
          ∷ (0x80, codes "Other Bridge Device\n")
          ∷ [])
        (unknown_subclass subclass)

unfoldable pub simple_comm : ℕ → ℕ → List ℕ
simple_comm subclass prog =
    codes "Simple Communication Controller: "
    ++ switch subclass
        ((
          0x0,
          codes "Serial Controller "
              ++ switch prog
                  ((0, codes "(8250-Compatible, Generic XT)\n")
                    ∷ (1, codes "(16450-Compatible)\n")
                    ∷ (2, codes "(16550-Compatible)\n")
                    ∷ (3, codes "(16650-Compatible)\n")
                    ∷ (4, codes "(16750-Compatible)\n")
                    ∷ (5, codes "(16850-Compatible)\n")
                    ∷ (6, codes "(16950-Compatible)\n")
                    ∷ [])
                  (codes "(Unknown)\n"),
        )
          ∷ (
            0x1,
            codes "Parallel Controller "
                ++ switch prog
                    ((0, codes "(Standard Parallel Port)\n")
                      ∷ (1, codes "(Bi-Directional Parallel Port)\n")
                      ∷ (2, codes "(ECP 1.X Compliant Parallel Port)\n")
                      ∷ (3, codes "(IEEE 1284 Controller)\n")
                      ∷ (0xFE, codes "(IEEE 1284 Target Device)\n")
                      ∷ [])
                    (codes "(Unknown)\n"),
          )
          ∷ (0x2, codes "Multiport Serial Controller\n")
          ∷ (
            0x3,
            codes "Modem "
                ++ switch prog
                    ((0, codes "(Generic Modem)\n")
                      ∷ (1, codes "(Hayes 16450-Compatible Interface)\n")
                      ∷ (2, codes "(Hayes 16550-Compatible Interface)\n")
                      ∷ (3, codes "(Hayes 16650-Compatible Interface)\n")
                      ∷ (4, codes "(Hayes 16750-Compatible Interface)\n")
                      ∷ [])
                    (codes "(Unknown)\n"),
          )
          ∷ (0x4, codes "IEEE 488.1/488.2 (GPIB) Controller\n")
          ∷ (0x5, codes "Smart Card\n")
          ∷ (0x80, codes "Other Communication Device\n")
          ∷ [])
        (unknown_subclass subclass)

unfoldable pub base_system_peripheral : ℕ → ℕ → List ℕ
base_system_peripheral subclass prog =
    codes "Base System Peripheral: "
    ++ switch subclass
        ((
          0x0,
          codes "Programmable Interrupt Controller "
              ++ switch prog
                  ((0, codes "(Generic 8259-Compatible)\n")
                    ∷ (0x1, codes "(ISA-Compatible)\n")
                    ∷ (0x2, codes "(EISA-Compatible)\n")
                    ∷ (0x10, codes "(I/O APIC Interrupt Controller)\n")
                    ∷ (0x20, codes "(I/O(x) APIC Interrupt Controller)\n")
                    ∷ [])
                  (codes "(Unknown)\n"),
        )
          ∷ (
            0x1,
            codes "DMA Controller "
                ++ switch prog
                    ((0, codes "(Generic 8237-Compatible)\n")
                      ∷ (1, codes "(ISA-Compatible)\n")
                      ∷ (2, codes "(EISA-Compatible)\n")
                      ∷ [])
                    (codes "(Unknown)\n"),
          )
          ∷ (
            0x2,
            codes "Timer "
                ++ switch prog
                    ((0, codes "(Generic 8254-Compatible)\n")
                      ∷ (1, codes "(ISA-Compatible)\n")
                      ∷ (2, codes "(EISA-Compatible)\n")
                      ∷ (3, codes "(HPET)\n")
                      ∷ [])
                    (codes "(Unknown)\n"),
          )
          ∷ (
            0x3,
            codes "RTC Controller "
                ++ switch prog ((0, codes "(Generic RTC)\n") ∷ (1, codes "(ISA-Compatible)\n") ∷ [])
                    (codes "(Unknown)\n"),
          )
          ∷ (0x4, codes "PCI Hot-Plug Controller\n")
          ∷ (0x5, codes "SD Host Controller\n")
          ∷ (0x6, codes "IOMMU\n")
          ∷ (0x80, codes "Other System Peripheral\n")
          ∷ [])
        (unknown_subclass subclass)

unfoldable pub input_device : ℕ → ℕ → List ℕ
input_device subclass prog =
    codes "Input Device: "
    ++ switch subclass
        ((0x0, codes "Keyboard Controller\n")
          ∷ (0x1, codes "Digitizer Pen\n")
          ∷ (0x2, codes "Mouse Controller\n")
          ∷ (0x3, codes "Scanner Controller\n")
          ∷ (
            0x4,
            codes "Gameport Controller "
                ++ switch prog ((0x0, codes "(Generic)\n") ∷ (0x10, codes "(Extended)\n") ∷ [])
                    (codes "(Unknown)\n"),
          )
          ∷ (0x80, codes "Other Input Controller\n")
          ∷ [])
        (unknown_subclass subclass)

pub bridge-IsLine : (subclass prog : ℕ) → is_line (bridge subclass prog) ≡ true
unfolding bridge
bridge-IsLine subclass prog =
    switch-IsLine _ _ subclass
      (
        refl,
        (
          refl,
          (
            refl,
            (
              refl,
              (
                switch-IsLine _ _ prog (refl, (refl, tt)) (refl),
                (
                  refl,
                  (
                    refl,
                    (
                      refl,
                      (
                        switch-IsLine _ _ prog (refl, (refl, tt)) (refl),
                        (switch-IsLine _ _ prog (refl, (refl, tt)) (refl), (refl, (refl, tt))),
                      ),
                    ),
                  ),
                ),
              ),
            ),
          ),
        ),
      )
      (unknown_subclass-IsLine subclass)

pub simple_comm-IsLine : (subclass prog : ℕ) → is_line (simple_comm subclass prog) ≡ true
unfolding simple_comm
simple_comm-IsLine subclass prog =
    switch-IsLine _ _ subclass
      (
        switch-IsLine _ _ prog (refl, (refl, (refl, (refl, (refl, (refl, (refl, tt))))))) (refl),
        (
          switch-IsLine _ _ prog (refl, (refl, (refl, (refl, (refl, tt))))) (refl),
          (
            refl,
            (
              switch-IsLine _ _ prog (refl, (refl, (refl, (refl, (refl, tt))))) (refl),
              (refl, (refl, (refl, tt))),
            ),
          ),
        ),
      )
      (unknown_subclass-IsLine subclass)

pub base_system_peripheral-IsLine :
    (subclass prog : ℕ) → is_line (base_system_peripheral subclass prog) ≡ true
unfolding base_system_peripheral
base_system_peripheral-IsLine subclass prog =
    switch-IsLine _ _ subclass
      (
        switch-IsLine _ _ prog (refl, (refl, (refl, (refl, (refl, tt))))) (refl),
        (
          switch-IsLine _ _ prog (refl, (refl, (refl, tt))) (refl),
          (
            switch-IsLine _ _ prog (refl, (refl, (refl, (refl, tt)))) (refl),
            (switch-IsLine _ _ prog (refl, (refl, tt)) (refl), (refl, (refl, (refl, (refl, tt))))),
          ),
        ),
      )
      (unknown_subclass-IsLine subclass)

pub input_device-IsLine : (subclass prog : ℕ) → is_line (input_device subclass prog) ≡ true
unfolding input_device
input_device-IsLine subclass prog =
    switch-IsLine _ _ subclass
      (refl, (refl, (refl, (refl, (switch-IsLine _ _ prog (refl, (refl, tt)) (refl), (refl, tt))))))
      (unknown_subclass-IsLine subclass)
