-- ===== src/Pci/Classes/Buses.antt =====
-- pci_parse_class of pci.c: what it prints for the other classes, from docking stations on.
use march_os.Base.{ℕ, List, [], ◌∷◌, ◌++◌, ◌≡◌, refl, true}
use march_os.Base.Text.{codes}
use march_os.Console.Line.{is_line}
use march_os.Pci.Switch.{switch, switch-IsLine, unknown_subclass, unknown_subclass-IsLine}

unfoldable pub docking_station : ℕ → List ℕ
docking_station subclass =
    codes "Docking Station: "
    ++ switch subclass ((0x0, codes "Generic\n") ∷ (0x80, codes "Other\n") ∷ [])
        (unknown_subclass subclass)

unfoldable pub processor : ℕ → List ℕ
processor subclass =
    codes "Processor: "
    ++ switch subclass
        ((0x0, codes "386\n")
          ∷ (0x1, codes "486\n")
          ∷ (0x2, codes "Pentium\n")
          ∷ (0x3, codes "Pentium Pro\n")
          ∷ (0x10, codes "Alpha\n")
          ∷ (0x20, codes "PowerPC\n")
          ∷ (0x30, codes "MIPS\n")
          ∷ (0x40, codes "Co-Processor\n")
          ∷ (0x80, codes "Other\n")
          ∷ [])
        (unknown_subclass subclass)

unfoldable pub serial_bus : ℕ → ℕ → List ℕ
serial_bus subclass prog =
    codes "Serial Bus Controller: "
    ++ switch subclass
        ((
          0x0,
          codes "FireWire (IEEE 1394) Controller "
              ++ switch prog ((0x0, codes "(Generic)\n") ∷ (0x10, codes "(OHCI)\n") ∷ [])
                  (codes "(Unknown)\n"),
        )
          ∷ (0x1, codes "ACCESS Bus Controller\n")
          ∷ (0x2, codes "SSA\n")
          ∷ (
            0x3,
            codes "USB Controller "
                ++ switch prog
                    ((0x0, codes "(UHCI)\n")
                      ∷ (0x10, codes "(OHCI)\n")
                      ∷ (0x20, codes "(EHCI, USB2)\n")
                      ∷ (0x30, codes "(XHCI, USB3)\n")
                      ∷ (0x80, codes "(Unspecified)\n")
                      ∷ (0xFE, codes "(USB Device, Not a host controller)\n")
                      ∷ [])
                    (codes "(Unknown)\n"),
          )
          ∷ (0x4, codes "Fibre Channel\n")
          ∷ (0x5, codes "SMBus Controller\n")
          ∷ (0x6, codes "InfiniBand Controller\n")
          ∷ (
            0x7,
            codes "IPMI Interface "
                ++ switch prog
                    ((0, codes "(SMIC)\n")
                      ∷ (1, codes "(Keyboard Controller Style)\n")
                      ∷ (2, codes "(Block Transfer)\n")
                      ∷ [])
                    (codes "(Unknown)\n"),
          )
          ∷ (0x8, codes "SERCOS Interface (IEC 61491)\n")
          ∷ (0x9, codes "CANbus Controller\n")
          ∷ (0x80, codes "Other Bus Controller\n")
          ∷ [])
        (unknown_subclass subclass)

unfoldable pub wireless : ℕ → List ℕ
wireless subclass =
    codes "Wireless Controller: "
    ++ switch subclass
        ((0x0, codes "iRDA Compatible Controller\n")
          ∷ (0x1, codes "Consumer IR Controller\n")
          ∷ (0x10, codes "RF Controller\n")
          ∷ (0x11, codes "Bluetooth Controller\n")
          ∷ (0x12, codes "Broadband Controller\n")
          ∷ (0x20, codes "Ethernet Controller (802.11a)\n")
          ∷ (0x21, codes "Ethernet Controller (802.11b)\n")
          ∷ (0x80, codes "Other Wireless Controller\n")
          ∷ [])
        (unknown_subclass subclass)

unfoldable pub satellite_comm : ℕ → List ℕ
satellite_comm subclass =
    codes "Satellite Communication Controller: "
    ++ switch subclass
        ((0x1, codes "TV Controller\n")
          ∷ (0x2, codes "Audio Controller\n")
          ∷ (0x3, codes "Voice Controller\n")
          ∷ (0x4, codes "Data Controller\n")
          ∷ [])
        (unknown_subclass subclass)

unfoldable pub encryption : ℕ → List ℕ
encryption subclass =
    codes "Encryption Controller: "
    ++ switch subclass
        ((0x0, codes "Network and Computing Encrpytion/Decryption\n")
          ∷ (0x10, codes "Entertainment Encryption/Decryption\n")
          ∷ (0x80, codes "Other Encryption/Decryption\n")
          ∷ [])
        (unknown_subclass subclass)

unfoldable pub signal : ℕ → List ℕ
signal subclass =
    codes "Signal Processing Controller: "
    ++ switch subclass
        ((0x0, codes "DPIO Modules\n")
          ∷ (0x1, codes "Performance Counters\n")
          ∷ (0x10, codes "Communication Synchronizer\n")
          ∷ (0x20, codes "Signal Processing Management\n")
          ∷ (0x80, codes "Other Signal Processing Controller\n")
          ∷ [])
        (unknown_subclass subclass)

pub docking_station-IsLine : (subclass : ℕ) → is_line (docking_station subclass) ≡ true
unfolding docking_station
docking_station-IsLine subclass =
    switch-IsLine _ _ subclass (refl, (refl, tt)) (unknown_subclass-IsLine subclass)

pub processor-IsLine : (subclass : ℕ) → is_line (processor subclass) ≡ true
unfolding processor
processor-IsLine subclass =
    switch-IsLine _ _ subclass
      (refl, (refl, (refl, (refl, (refl, (refl, (refl, (refl, (refl, tt)))))))))
      (unknown_subclass-IsLine subclass)

pub serial_bus-IsLine : (subclass prog : ℕ) → is_line (serial_bus subclass prog) ≡ true
unfolding serial_bus
serial_bus-IsLine subclass prog =
    switch-IsLine _ _ subclass
      (
        switch-IsLine _ _ prog (refl, (refl, tt)) (refl),
        (
          refl,
          (
            refl,
            (
              switch-IsLine _ _ prog (refl, (refl, (refl, (refl, (refl, (refl, tt)))))) (refl),
              (
                refl,
                (
                  refl,
                  (
                    refl,
                    (
                      switch-IsLine _ _ prog (refl, (refl, (refl, tt))) (refl),
                      (refl, (refl, (refl, tt))),
                    ),
                  ),
                ),
              ),
            ),
          ),
        ),
      )
      (unknown_subclass-IsLine subclass)

pub wireless-IsLine : (subclass : ℕ) → is_line (wireless subclass) ≡ true
unfolding wireless
wireless-IsLine subclass =
    switch-IsLine _ _ subclass (refl, (refl, (refl, (refl, (refl, (refl, (refl, (refl, tt))))))))
      (unknown_subclass-IsLine subclass)

pub satellite_comm-IsLine : (subclass : ℕ) → is_line (satellite_comm subclass) ≡ true
unfolding satellite_comm
satellite_comm-IsLine subclass =
    switch-IsLine _ _ subclass (refl, (refl, (refl, (refl, tt)))) (unknown_subclass-IsLine subclass)

pub encryption-IsLine : (subclass : ℕ) → is_line (encryption subclass) ≡ true
unfolding encryption
encryption-IsLine subclass =
    switch-IsLine _ _ subclass (refl, (refl, (refl, tt))) (unknown_subclass-IsLine subclass)

pub signal-IsLine : (subclass : ℕ) → is_line (signal subclass) ≡ true
unfolding signal
signal-IsLine subclass =
    switch-IsLine _ _ subclass (refl, (refl, (refl, (refl, (refl, tt)))))
      (unknown_subclass-IsLine subclass)
