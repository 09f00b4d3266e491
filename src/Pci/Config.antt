-- ===== src/Pci/Config.antt =====
-- The addresses that pci.c writes to the configuration port, and the registers it reads with them.
use march_os.Base.{
  ℕ, zero, suc, ◌+◌, ◌*◌, ◌/◌, ◌%◌, ◌^◌, ◌<◌, ◌≡◌, refl, ap, ◌∙◌, true, ◌⊎◌, inl, inr, ◌==◌,
  every_below, every_below_sound, ==_iff, bit_and, arith,
}
use march_os.Base.Bits.{bit_or-disjoint}
use march_os.Pci.{config_address, pci_config_read, pci_config_read8, pci_config_read16}

bytes_masked : every_below 256 (λ o. bit_and o 0xFC == o / 4 * 4) ≡ true
unfolding every_below
bytes_masked = refl

bytes_low : every_below 256 (λ o. bit_and o 3 == o % 4) ≡ true
unfolding every_below
bytes_low = refl

bytes_half : every_below 256 (λ o. bit_and o 2 == o % 4 / 2 * 2) ≡ true
unfolding every_below
bytes_half = refl

pub config_address-sum :
    (bus slot func offset : ℕ)
    → bus < 256
    → slot < 32
    → func < 8
    → offset < 256
    → config_address bus slot func offset
      ≡ 2 ^ 31 + bus * 2 ^ 16 + slot * 2 ^ 11 + func * 2 ^ 8 + offset / 4 * 4
unfolding config_address
config_address-sum bus slot func offset hb hs hf ho =
    let masked : bit_and offset 0xFC ≡ offset / 4 * 4 =
      (==_iff (bit_and offset 0xFC) (offset / 4 * 4)).0
        (every_below_sound 256 (λ o. bit_and o 0xFC == o / 4 * 4) offset bytes_masked ho) in
    let b : bus * 2 ^ 16 % 2 ^ 32 ≡ bus * 2 ^ 16 = omega arith in
    let s : slot * 2 ^ 11 % 2 ^ 32 ≡ slot * 2 ^ 11 = omega arith in
    let f : func * 2 ^ 8 % 2 ^ 32 ≡ func * 2 ^ 8 = omega arith in
    rw (masked, b, s, f)
      (rw (bit_or-disjoint 31 1 (2 ^ 31) (bus * 2 ^ 16) (omega arith) (omega arith)) (
        rw
          (bit_or-disjoint 16 (2 ^ 15 + bus) (2 ^ 31 + bus * 2 ^ 16) (slot * 2 ^ 11) (omega arith)
            (omega arith))
          (rw
            (bit_or-disjoint 11 (2 ^ 20 + bus * 2 ^ 5 + slot)
              (2 ^ 31 + bus * 2 ^ 16 + slot * 2 ^ 11) (func * 2 ^ 8) (omega arith) (omega arith))
            (bit_or-disjoint 8 (2 ^ 23 + bus * 2 ^ 8 + slot * 2 ^ 3 + func)
              (2 ^ 31 + bus * 2 ^ 16 + slot * 2 ^ 11 + func * 2 ^ 8) (offset / 4 * 4) (omega arith)
              (omega arith)))))

-- Bytes of the configuration space of each function, and what the ports give of them: for an
-- address with the enable bit, the four bytes of the doubleword, the first the lowest.
abbrev pub Presents : (ℕ → ℕ) → (ℕ → ℕ → ℕ → ℕ → ℕ) → Type 0
Presents space cfg =
    (bus slot func w : ℕ)
    → bus < 256
    → slot < 32
    → func < 8
    → w < 64
    → (space (2 ^ 31 + bus * 2 ^ 16 + slot * 2 ^ 11 + func * 2 ^ 8 + w * 4)
        ≡ cfg bus slot func (w * 4)
          + 2 ^ 8 * cfg bus slot func (w * 4 + 1)
          + 2 ^ 16 * cfg bus slot func (w * 4 + 2)
          + 2 ^ 24 * cfg bus slot func (w * 4 + 3))

abbrev pub Bytes : (ℕ → ℕ → ℕ → ℕ → ℕ) → Type 0
Bytes cfg = (bus slot func o : ℕ) → cfg bus slot func o < 256

four : (k : ℕ) → k < 4 → (k ≡ 0) ⊎ ((k ≡ 1) ⊎ ((k ≡ 2) ⊎ (k ≡ 3)))
four k h = omega arith

byte_at :
    (c : ℕ → ℕ) (w k : ℕ)
    → ((i : ℕ) → c i < 256)
    → k < 4
    → (c (w * 4) + 2 ^ 8 * c (w * 4 + 1) + 2 ^ 16 * c (w * 4 + 2) + 2 ^ 24 * c (w * 4 + 3))
        / 2 ^ (k * 8)
        % 2 ^ 8
      ≡ c (w * 4 + k)
byte_at c w k small h =
    let c0 = small (w * 4) in
    let c1 = small (w * 4 + 1) in
    let c2 = small (w * 4 + 2) in
    let c3 = small (w * 4 + 3) in
    elim (four k h) [
      | inl e ↦ let start : w * 4 + 0 ≡ w * 4 = omega arith in rw (e, start) (omega (arith, c0))
      | inr (inl e) ↦ rw e (omega (arith, c0, c1))
      | inr (inr (inl e)) ↦ rw e (omega (arith, c0, c1, c2))
      | inr (inr (inr e)) ↦ rw e (omega (arith, c0, c1, c2, c3))
    ]

half_at :
    (c : ℕ → ℕ) (w k : ℕ)
    → ((i : ℕ) → c i < 256)
    → k < 2
    → (c (w * 4) + 2 ^ 8 * c (w * 4 + 1) + 2 ^ 16 * c (w * 4 + 2) + 2 ^ 24 * c (w * 4 + 3))
        / 2 ^ (k * 2 * 8)
        % 2 ^ 16
      ≡ c (w * 4 + k * 2) + 2 ^ 8 * c (w * 4 + k * 2 + 1)
half_at c w zero small h =
    let c0 = small (w * 4) in
    let c1 = small (w * 4 + 1) in
    let start : w * 4 + 0 ≡ w * 4 = omega arith in rw start (omega (arith, c0, c1))
half_at c w (suc zero) small h =
    let c0 = small (w * 4) in
    let c1 = small (w * 4 + 1) in
    let c2 = small (w * 4 + 2) in
    let c3 = small (w * 4 + 3) in
    let last : w * 4 + 2 + 1 ≡ w * 4 + 3 = omega arith in rw last (omega (arith, c0, c1, c2, c3))
half_at c w (suc (suc k)) small h = absurd (omega arith)

module _ (space : ℕ → ℕ) (cfg : ℕ → ℕ → ℕ → ℕ → ℕ) (presents : Presents space cfg)
    (byte : Bytes cfg) {bus slot func : ℕ} (hb : bus < 256) (hs : slot < 32) (hf : func < 8) where
  -- pci_config_read8 reads the byte at its offset in the configuration space of the function that its
  -- other arguments name.
  pub pci_config_read8-byte :
      (o : ℕ) → o < 256 → pci_config_read8 space bus slot func o ≡ cfg bus slot func o
  unfolding pci_config_read8 pci_config_read
  pci_config_read8-byte o ho =
      let address = config_address-sum bus slot func o hb hs hf ho in
      let word = presents bus slot func (o / 4) hb hs hf (omega arith) in
      let low : bit_and o 3 ≡ o % 4 =
        (==_iff (bit_and o 3) (o % 4)).0
          (every_below_sound 256 (λ o. bit_and o 3 == o % 4) o bytes_low ho) in
      let here : o / 4 * 4 + o % 4 ≡ o = omega arith in
      rw (address, word, low)
        (byte_at (cfg bus slot func) (o / 4) (o % 4) (byte bus slot func) (omega arith)
          ∙ ap (cfg bus slot func) here)

  -- pci_config_read16 reads the two bytes from an even offset on, the first as the low one.
  pub pci_config_read16-bytes :
      (o : ℕ)
      → o < 256
      → o % 2 ≡ 0
      → pci_config_read16 space bus slot func o
        ≡ cfg bus slot func o + 2 ^ 8 * cfg bus slot func (o + 1)
  unfolding pci_config_read16 pci_config_read
  pci_config_read16-bytes o ho even =
      let address = config_address-sum bus slot func o hb hs hf ho in
      let word = presents bus slot func (o / 4) hb hs hf (omega arith) in
      let low : bit_and o 2 ≡ o % 4 / 2 * 2 =
        (==_iff (bit_and o 2) (o % 4 / 2 * 2)).0
          (every_below_sound 256 (λ o. bit_and o 2 == o % 4 / 2 * 2) o bytes_half ho) in
      let here : o / 4 * 4 + o % 4 / 2 * 2 ≡ o = omega arith in
      rw (address, word, low)
        (half_at (cfg bus slot func) (o / 4) (o % 4 / 2) (byte bus slot func) (omega arith)
          ∙ ap (λ i. cfg bus slot func i + 2 ^ 8 * cfg bus slot func (i + 1)) here)
