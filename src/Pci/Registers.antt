-- ===== src/Pci/Registers.antt =====
-- What pci_scan of pci.c lists, by the bytes of the configuration space of each function.
use march_os.Base.{
  ℕ, zero, suc, ◌+◌, ◌*◌, ◌/◌, ◌%◌, ◌^◌, ◌≤◌, ◌<◌, ◌≡◌, refl, ◌∙◌, Bool, ◌&&◌, ◌||◌, not, ◌==◌,
  if◌then◌else◌, List, [], ◌∷◌, ◌++◌, bit_and, arith,
}
use march_os.Mm.Mem.{half, word}
use march_os.Pci.{
  Device, probe, pci_config_read, pci_config_read16, pci_config_read8, pci_read_header,
  pci_read_table, pci_scan,
}
use march_os.Pci.Config.{
  Presents, Bytes, config_address-sum, pci_config_read8-byte, pci_config_read16-bytes,
}
use march_os.Pci.Scan.{Place, functions, slots, buses, present, devices, pci_scan-devices}

-- The device at a place, by the bytes at the offsets that the PCI standard gives the registers.
abbrev pub registers : (ℕ → ℕ → ℕ → ℕ → ℕ) → ℕ → ℕ → ℕ → Device
registers cfg b s f =
    let c = cfg b s f in
    record {
      header = record {
        bus = b;
        slot = s;
        func = f;
        vendor_id = half c 0;
        device_id = half c 2;
        command = half c 4;
        status = half c 6;
        rev_id = c 8;
        prog_if = c 9;
        subclass_id = c 10;
        class_id = c 11;
        cache_line_size = c 12;
        latency_timer = c 13;
        header_type = c 14;
        bist = c 15;
      };
      bars = word c 16 ∷ word c 20 ∷ word c 24 ∷ word c 28 ∷ word c 32 ∷ word c 36 ∷ [];
      cardbus_cis_pointer = word c 40;
      subsystem_vendor_id = half c 44;
      subsystem_id = half c 46;
      expansion_rom_base = word c 48;
      cap_pointer = c 52;
      interrupt_line = c 60;
      interrupt_pin = c 61;
      min_grant = c 62;
      max_latency = c 63;
    }

-- The function answers, and it is the first of its slot or one of a device with many.
abbrev pub answers : (ℕ → ℕ → ℕ → ℕ → ℕ) → Place → Bool
answers cfg p =
    not (half (cfg p.bus p.slot p.func) 0 == 0xFFFF)
    && (p.func == 0
        || (not (half (cfg p.bus p.slot 0) 0 == 0xFFFF)
            && not (bit_and (cfg p.bus p.slot 0 14) 0x80 == 0)))

abbrev pub answering : (ℕ → ℕ → ℕ → ℕ → ℕ) → List Place → List Device
answering cfg [] = []
answering cfg (p ∷ ps) =
    if answers cfg p then registers cfg p.bus p.slot p.func ∷ answering cfg ps else answering cfg ps

abbrev InRange : Place → Type 0
InRange p = (p.bus < 256) × (p.slot < 32) × (p.func < 8)

abbrev AllInRange : List Place → Type 0
AllInRange [] = Unit {0}
AllInRange (p ∷ ps) = InRange p × AllInRange ps

append-AllInRange : (ps qs : List Place) → AllInRange ps → AllInRange qs → AllInRange (ps ++ qs)
append-AllInRange [] qs h hq = hq
append-AllInRange (p ∷ ps) qs (h, hs) hq = (h, append-AllInRange ps qs hs hq)

functions-AllInRange : (n b s f : ℕ) → b < 256 → s < 32 → f + n ≤ 8 → AllInRange (functions n b s f)
functions-AllInRange zero b s f hb hs hf = tt
functions-AllInRange (suc n) b s f hb hs hf =
    ((hb, hs, omega arith), functions-AllInRange n b s (f + 1) hb hs (omega arith))

slots-AllInRange : (n b s : ℕ) → b < 256 → s + n ≤ 32 → AllInRange (slots n b s)
slots-AllInRange zero b s hb hs = tt
slots-AllInRange (suc n) b s hb hs =
    append-AllInRange (functions 8 b s 0) (slots n b (s + 1))
      (functions-AllInRange 8 b s 0 hb (omega arith) (omega arith))
      (slots-AllInRange n b (s + 1) hb (omega arith))

buses-AllInRange : (n b : ℕ) → b + n ≤ 256 → AllInRange (buses n b)
buses-AllInRange zero b hb = tt
buses-AllInRange (suc n) b hb =
    append-AllInRange (slots 32 b 0) (buses n (b + 1))
      (slots-AllInRange 32 b 0 (omega arith) (omega arith))
      (buses-AllInRange n (b + 1) (omega arith))

module _ (space : ℕ → ℕ) (cfg : ℕ → ℕ → ℕ → ℕ → ℕ) (presents : Presents space cfg)
    (byte : Bytes cfg) where
  module _ {b s f : ℕ} (hb : b < 256) (hs : s < 32) (hf : f < 8) where
    read_word : (w : ℕ) → w < 64 → pci_config_read space b s f (w * 4) ≡ word (cfg b s f) (w * 4)
    unfolding pci_config_read
    read_word w hw =
        let whole : w * 4 / 4 * 4 ≡ w * 4 = omega arith in
        rw (config_address-sum b s f (w * 4) hb hs hf (omega arith), whole)
          (presents b s f w hb hs hf hw)

    read_half : (k : ℕ) → k < 128 → pci_config_read16 space b s f (k * 2) ≡ half (cfg b s f) (k * 2)
    read_half k hk =
        pci_config_read16-bytes space cfg presents byte hb hs hf (k * 2) (omega arith) (omega arith)

    read_byte : (o : ℕ) → o < 256 → pci_config_read8 space b s f o ≡ cfg b s f o
    read_byte = pci_config_read8-byte space cfg presents byte hb hs hf

    probe-registers : probe space b s f ≡ registers cfg b s f
    unfolding pci_read_table pci_read_header
    probe-registers =
        let bus : b % 2 ^ 8 ≡ b = omega arith in
        let slot : s % 2 ^ 8 ≡ s = omega arith in
        let func : f % 2 ^ 8 ≡ f = omega arith in
        rw (bus, slot, func)
          (rw
            (
              read_half 0 (omega arith),
              read_half 1 (omega arith),
              read_half 2 (omega arith),
              read_half 3 (omega arith),
              read_half 22 (omega arith),
              read_half 23 (omega arith),
            )
            (rw
              (
                read_byte 8 (omega arith),
                read_byte 9 (omega arith),
                read_byte 10 (omega arith),
                read_byte 11 (omega arith),
                read_byte 12 (omega arith),
                read_byte 13 (omega arith),
                read_byte 14 (omega arith),
                read_byte 15 (omega arith),
                read_byte 52 (omega arith),
                read_byte 60 (omega arith),
                read_byte 61 (omega arith),
                read_byte 62 (omega arith),
                read_byte 63 (omega arith),
              )
              (rw
                (
                  read_word 4 (omega arith),
                  read_word 5 (omega arith),
                  read_word 6 (omega arith),
                  read_word 7 (omega arith),
                  read_word 8 (omega arith),
                  read_word 9 (omega arith),
                  read_word 10 (omega arith),
                  read_word 12 (omega arith),
                )
                refl)))

  answers_lem : (p : Place) → InRange p → present space p ≡ answers cfg p
  answers_lem p (hb, hs, hf) =
      rw
        (
          probe-registers {f = 0} hb hs (omega arith),
          read_half hb hs hf 0 (omega arith),
          read_half {f = 0} hb hs (omega arith) 0 (omega arith),
        )
        refl

  answering_lem : (ps : List Place) → AllInRange ps → devices space ps ≡ answering cfg ps
  answering_lem [] h = refl
  answering_lem (p ∷ ps) ((hb, hs, hf), rest) =
      let here = answers_lem p (hb, hs, hf) in
      rw (here, probe-registers hb hs hf, answering_lem ps rest) refl

  -- pci_scan finds, of all 8 functions of all 32 slots of all 256 buses in their order, those whose
  -- vendor is not 0xFFFF and that are function 0 or belong to a slot whose function 0 answers so and
  -- says in its header type that there are more; each is listed once, with the registers that are in
  -- its own configuration space, when the ports give the bytes of the space that they are asked for.
  pub pci_scan-answering : pci_scan space ≡ answering cfg (buses 256 0)
  pci_scan-answering =
      pci_scan-devices space ∙ answering_lem (buses 256 0) (buses-AllInRange 256 0 (omega arith))
