-- ===== src/Pci/Scan.antt =====
-- pci_scan of pci.c against the list of all functions on the bus.
use march_os.Base.{
  ℕ, zero, suc, ◌+◌, ◌<◌, ◌≡◌, refl, ap, ◌∙◌, sym, Bool, true, false, ◌&&◌, ◌||◌, not, ◌==◌,
  if◌then◌else◌, Bool-cases, inl, inr, List, [], ◌∷◌, ◌++◌, bit_and, arith,
}
use march_os.Pci.{
  Device, absent, probe, scan_functions, scan_slot, scan_slots, scan_buses, pci_scan,
}

-- The place of a function on the bus.
pub record Place : Type 0 where
  pub bus : ℕ
  pub slot : ℕ
  pub func : ℕ

abbrev pub functions : ℕ → ℕ → ℕ → ℕ → List Place
functions zero b s f = []
functions (suc n) b s f = record { bus = b; slot = s; func = f } ∷ functions n b s (f + 1)

abbrev pub slots : ℕ → ℕ → ℕ → List Place
slots zero b s = []
slots (suc n) b s = functions 8 b s 0 ++ slots n b (s + 1)

abbrev pub buses : ℕ → ℕ → List Place
buses zero b = []
buses (suc n) b = slots 32 b 0 ++ buses n (b + 1)

module _ (space : ℕ → ℕ) where
  -- The function answers, and it is the first of its slot or one of a device with many.
  abbrev pub present : Place → Bool
  present p =
      not (absent space p.bus p.slot p.func)
      && (p.func == 0
          || (not (absent space p.bus p.slot 0)
              && not (bit_and ((probe space p.bus p.slot 0).header.header_type) 0x80 == 0)))

  -- The devices of the places that are present, in their order.
  abbrev pub devices : List Place → List Device
  devices [] = []
  devices (p ∷ ps) = if present p then probe space p.bus p.slot p.func ∷ devices ps else devices ps

  devices-append : (ps qs : List Place) → devices (ps ++ qs) ≡ devices ps ++ devices qs
  devices-append [] qs = refl
  devices-append (p ∷ ps) qs = elim (Bool-cases (present p)) [
    | inl e ↦ rw e (ap (λ r. probe space p.bus p.slot p.func ∷ r) (devices-append ps qs))
    | inr e ↦ rw e (devices-append ps qs)
  ]

  -- Function 0 answers and says that there are more.
  abbrev multiple : ℕ → ℕ → Bool
  multiple b s =
      not (absent space b s 0) && not (bit_and ((probe space b s 0).header.header_type) 0x80 == 0)

  more :
      (n b s f : ℕ)
      → multiple b s ≡ true
      → scan_functions space n b s f ≡ devices (functions n b s f)
  unfolding scan_functions
  more zero b s f m = refl
  more (suc n) b s f m =
      let there : present (record { bus = b; slot = s; func = f }) ≡ not (absent space b s f) =
        ground arith in
      rw (there, more n b s (f + 1) m)
        (elim (Bool-cases (absent space b s f)) [ inl e ↦ rw e | inr e ↦ rw e ])

  alone : (n b s f : ℕ) → multiple b s ≡ false → 0 < f → devices (functions n b s f) ≡ []
  alone zero b s f m pos = refl
  alone (suc n) b s f m pos =
      let gone : present (record { bus = b; slot = s; func = f }) ≡ false = ground arith in
      rw (gone, alone n b s (f + 1) m (omega arith))

  devices-present :
      (p : Place) (ps : List Place)
      → present p ≡ true
      → devices (p ∷ ps) ≡ probe space p.bus p.slot p.func ∷ devices ps
  devices-present p ps e = rw e

  devices-gone : (p : Place) (ps : List Place) → present p ≡ false → devices (p ∷ ps) ≡ devices ps
  devices-gone p ps e = rw e

  scan_slot-gone : (b s : ℕ) → absent space b s 0 ≡ true → scan_slot space b s ≡ []
  unfolding scan_slot
  scan_slot-gone b s e = rw e

  scan_slot-alone :
      (b s : ℕ)
      → absent space b s 0 ≡ false
      → (bit_and ((probe space b s 0).header.header_type) 0x80 == 0) ≡ true
      → scan_slot space b s ≡ probe space b s 0 ∷ []
  unfolding scan_slot
  scan_slot-alone b s e z = rw (e, z)

  scan_slot-multiple :
      (b s : ℕ)
      → absent space b s 0 ≡ false
      → (bit_and ((probe space b s 0).header.header_type) 0x80 == 0) ≡ false
      → scan_slot space b s ≡ probe space b s 0 ∷ scan_functions space 7 b s 1
  unfolding scan_slot
  scan_slot-multiple b s e z = rw (e, z)

  scan_slot-devices : (b s : ℕ) → scan_slot space b s ≡ devices (functions 8 b s 0)
  scan_slot-devices b s =
      let p : Place = record { bus = b; slot = s; func = 0 } in
      let rest = functions 7 b s 1 in
      elim (Bool-cases (absent space b s 0)) [
        | inl e ↦
            let gone : present p ≡ false = ground arith in
            let m : multiple b s ≡ false = ground arith in
            scan_slot-gone b s e ∙ sym (devices-gone p rest gone ∙ alone 7 b s 1 m (omega arith))
        | inr e ↦
            let there : present p ≡ true = ground arith in
            elim (Bool-cases (bit_and ((probe space b s 0).header.header_type) 0x80 == 0)) [
              | inl z ↦
                  let m : multiple b s ≡ false = ground arith in
                  scan_slot-alone b s e z
                  ∙ ap (λ r. probe space b s 0 ∷ r) (sym (alone 7 b s 1 m (omega arith)))
                  ∙ sym (devices-present p rest there)
              | inr z ↦
                  let m : multiple b s ≡ true = ground arith in
                  scan_slot-multiple b s e z
                  ∙ ap (λ r. probe space b s 0 ∷ r) (more 7 b s 1 m)
                  ∙ sym (devices-present p rest there)
            ]
      ]

  scan_slots-devices : (n b s : ℕ) → scan_slots space n b s ≡ devices (slots n b s)
  unfolding scan_slots
  scan_slots-devices zero b s = refl
  scan_slots-devices (suc n) b s =
      rw (scan_slot-devices b s, scan_slots-devices n b (s + 1))
        (sym (devices-append (functions 8 b s 0) (slots n b (s + 1))))

  scan_buses-devices : (n b : ℕ) → scan_buses space n b ≡ devices (buses n b)
  unfolding scan_buses
  scan_buses-devices zero b = refl
  scan_buses-devices (suc n) b =
      rw (scan_slots-devices 32 b 0, scan_buses-devices n (b + 1))
        (sym (devices-append (slots 32 b 0) (buses n (b + 1))))

  -- pci_scan finds, of all 8 functions of all 32 slots of all 256 buses in their order, those that
  -- answer and are function 0 or belong to a slot whose function 0 answers and says in its header
  -- type that there are more; each is listed once, with the registers of its own function.
  pub pci_scan-devices : pci_scan space ≡ devices (buses 256 0)
  unfolding pci_scan
  pci_scan-devices = scan_buses-devices 256 0
