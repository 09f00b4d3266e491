-- ===== src/Pci/Classes/Devices.antt =====
-- pci_parse_class of pci.c: what it prints for the classes of devices that a machine has of its own, from unclassified to memory.
use march_os.Base.{ℕ, List, [], ◌∷◌, ◌++◌, ◌≡◌, refl, true}
use march_os.Base.Text.{codes}
use march_os.Console.Line.{is_line}
use march_os.Pci.Switch.{switch, switch-IsLine, unknown_subclass, unknown_subclass-IsLine}

unfoldable pub unclassified : ℕ → List ℕ
unclassified subclass =
    codes "Unclassified: "
    ++ switch subclass
        ((0x0, codes "Non-VGA-Compatible Device\n") ∷ (0x1, codes "VGA-Compatible Device\n") ∷ [])
        (unknown_subclass subclass)

unfoldable pub storage : ℕ → ℕ → List ℕ
storage subclass prog =
    codes "Mass Storage Controller: "
    ++ switch subclass
        ((0x0, codes "SCSI Bus Controller\n")
          ∷ (0x1, codes "IDE Controller\n")
          ∷ (0x2, codes "Floppy Disk Controller\n")
          ∷ (0x3, codes "IPI Bus Controller\n")
          ∷ (0x4, codes "RAID Controller\n")
          ∷ (
            0x5,
            codes "ATA Controller "
                ++ switch prog
                    ((0x20, codes "(Single DMA)\n") ∷ (0x30, codes "(Chained DMA)\n") ∷ [])
                    (codes "(Unknown)\n"),
          )
          ∷ (
            0x6,
            codes "SATA Controller "
                ++ switch prog
                    ((0, codes "(Vendor Specific Interface)\n")
                      ∷ (1, codes "(AHCI 1.0)\n")
                      ∷ (2, codes "(Serial Storage Wire Interface)\n")
                      ∷ [])
                    (codes "(Unknown)\n"),
          )
          ∷ (
            0x7,
            codes "Serial Attached SCSI Controller "
                ++ switch prog ((0, codes "(SAS)\n") ∷ (1, codes "(Serial Storage Bus)\n") ∷ [])
                    (codes "(Unknown)\n"),
          )
          ∷ (
            0x8,
            codes "Non-Volatile Memory Controller "
                ++ switch prog ((0, codes "(NVMHCI)\n") ∷ (1, codes "(NVM Express)\n") ∷ [])
                    (codes "(Unknown)\n"),
          )
          ∷ (0x80, codes "Other Mass Storage Controller\n")
          ∷ [])
        (unknown_subclass subclass)

unfoldable pub network : ℕ → List ℕ
network subclass =
    codes "Network Controller: "
    ++ switch subclass
        ((0x0, codes "Ethernet Controller\n")
          ∷ (0x1, codes "Token Ring Controller\n")
          ∷ (0x2, codes "FDDI Controller\n")
          ∷ (0x3, codes "ATM Controller\n")
          ∷ (0x4, codes "ISDN Controller\n")
          ∷ (0x5, codes "WorldFip Controller\n")
          ∷ (0x6, codes "PICMG 2.14 Multi Computing\n")
          ∷ (0x7, codes "InfiniBand Controller\n")
          ∷ (0x8, codes "Fabric Controller\n")
          ∷ (0x80, codes "Other Network Controller\n")
          ∷ [])
        (unknown_subclass subclass)

unfoldable pub display : ℕ → ℕ → List ℕ
display subclass prog =
    codes "Display Controller: "
    ++ switch subclass
        ((
          0x0,
          codes "VGA-Compatible Controller "
              ++ switch prog ((0, codes "(VGA)\n") ∷ (1, codes "(8514)\n") ∷ [])
                  (codes "(Unknown)\n"),
        )
          ∷ (0x1, codes "XGA Controller\n")
          ∷ (0x2, codes "3D Controller\n")
          ∷ (0x80, codes "Other Display Controller\n")
          ∷ [])
        (unknown_subclass subclass)

unfoldable pub multimedia : ℕ → List ℕ
multimedia subclass =
    codes "Multimedia Controller: "
    ++ switch subclass
        ((0x0, codes "Multimedia Video Controller\n")
          ∷ (0x1, codes "Multimedia Audio Controller\n")
          ∷ (0x2, codes "Computer Telephony Device\n")
          ∷ (0x3, codes "Audio Device\n")
          ∷ (0x80, codes "Other Multimedia Controller\n")
          ∷ [])
        (unknown_subclass subclass)

unfoldable pub memory : ℕ → List ℕ
memory subclass =
    codes "Memory Controller: "
    ++ switch subclass
        ((0x0, codes "RAM Controller\n")
          ∷ (0x1, codes "Flash Controller\n")
          ∷ (0x80, codes "Other Memory Controller\n")
          ∷ [])
        (unknown_subclass subclass)

pub unclassified-IsLine : (subclass : ℕ) → is_line (unclassified subclass) ≡ true
unfolding unclassified
unclassified-IsLine subclass =
    switch-IsLine _ _ subclass (refl, (refl, tt)) (unknown_subclass-IsLine subclass)

pub storage-IsLine : (subclass prog : ℕ) → is_line (storage subclass prog) ≡ true
unfolding storage
storage-IsLine subclass prog =
    switch-IsLine _ _ subclass
      (
        refl,
        (
          refl,
          (
            refl,
            (
              refl,
              (
                refl,
                (
                  switch-IsLine _ _ prog (refl, (refl, tt)) (refl),
                  (
                    switch-IsLine _ _ prog (refl, (refl, (refl, tt))) (refl),
                    (
                      switch-IsLine _ _ prog (refl, (refl, tt)) (refl),
                      (switch-IsLine _ _ prog (refl, (refl, tt)) (refl), (refl, tt)),
                    ),
                  ),
                ),
              ),
            ),
          ),
        ),
      )
      (unknown_subclass-IsLine subclass)

pub network-IsLine : (subclass : ℕ) → is_line (network subclass) ≡ true
unfolding network
network-IsLine subclass =
    switch-IsLine _ _ subclass
      (refl, (refl, (refl, (refl, (refl, (refl, (refl, (refl, (refl, (refl, tt))))))))))
      (unknown_subclass-IsLine subclass)

pub display-IsLine : (subclass prog : ℕ) → is_line (display subclass prog) ≡ true
unfolding display
display-IsLine subclass prog =
    switch-IsLine _ _ subclass
      (switch-IsLine _ _ prog (refl, (refl, tt)) (refl), (refl, (refl, (refl, tt))))
      (unknown_subclass-IsLine subclass)

pub multimedia-IsLine : (subclass : ℕ) → is_line (multimedia subclass) ≡ true
unfolding multimedia
multimedia-IsLine subclass =
    switch-IsLine _ _ subclass (refl, (refl, (refl, (refl, (refl, tt)))))
      (unknown_subclass-IsLine subclass)

pub memory-IsLine : (subclass : ℕ) → is_line (memory subclass) ≡ true
unfolding memory
memory-IsLine subclass =
    switch-IsLine _ _ subclass (refl, (refl, (refl, tt))) (unknown_subclass-IsLine subclass)
