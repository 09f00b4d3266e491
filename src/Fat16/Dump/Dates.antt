-- ===== src/Fat16/Dump/Dates.antt =====
-- The dates and times that fat16_dump_dir of fs/fat16/dump.c prints.
use march_os.Base.{ℕ, ◌+◌, ◌-◌, ◌*◌, ◌/◌, ◌%◌, ◌≤◌, ◌<◌, ◌≡◌, refl, [], ◌∷◌, arith}
use march_os.Base.Bits.Masks.{bit_and-low_mask, bit_and-field}
use march_os.Mm.Mem.{Mem, half}
use march_os.Fat16.Dump.{year, month, day, hour, minute, second, created}

-- How FAT16 stores a date and a time of day; the last second is kept in hundredths.
abbrev pub date_of : ℕ → ℕ → ℕ → ℕ
date_of y mo d = (y - 1980) * 512 + mo * 32 + d

abbrev pub time_of : ℕ → ℕ → ℕ → ℕ
time_of h mi s = h * 2048 + mi * 32 + s / 2

module _ (y mo d : ℕ) (from : 1980 ≤ y) (to : y < 2108) (months : mo < 16) (days : d < 32) where
  date_fields :
      (date : ℕ) → date ≡ date_of y mo d → (year date ≡ y) × (month date ≡ mo) × (day date ≡ d)
  date_fields date e =
      let top =
        bit_and-field 9 7 0 (y - 1980) (mo * 32 + d) date 0xFE00 (omega arith) (omega arith)
          (omega arith) (omega arith) (omega arith) refl in
      let middle =
        bit_and-field 5 4 (y - 1980) mo d date 0x1E0 (omega arith) (omega arith) (omega arith)
          (omega arith) (omega arith) refl in
      let low = bit_and-low_mask 5 date ((y - 1980) * 16 + mo) d (omega arith) (omega arith) in
      (omega (arith, top), omega (arith, middle), omega (arith, low))

module _ (h mi s : ℕ) (hours : h < 32) (minutes : mi < 64) (seconds : s < 64) where
  time_fields :
      (time ms : ℕ)
      → ms < 256
      → time ≡ time_of h mi s
      → (hour time ≡ h) × (minute time ≡ mi) × (second time ms ≡ s / 2 * 2 + ms / 100)
  time_fields time ms byte e =
      let top =
        bit_and-field 11 5 0 h (mi * 32 + s / 2) time 0xF800 (omega arith) (omega arith)
          (omega arith) (omega arith) (omega arith) refl in
      let middle =
        bit_and-field 5 6 h mi (s / 2) time 0x7E0 (omega arith) (omega arith) (omega arith)
          (omega arith) (omega arith) refl in
      let low = bit_and-low_mask 5 time (h * 64 + mi) (s / 2) (omega arith) (omega arith) in
      (omega (arith, top), omega (arith, middle), omega (arith, low))

odd_second : (s ms : ℕ) → ms ≡ s % 2 * 100 → s / 2 * 2 + ms / 100 ≡ s
odd_second s ms e = rw e (omega arith)

-- An entry that was written at a moment between 1980 and 2107 is dumped with that moment, when the
-- entry stores it as FAT16 does: the seconds halved in the time, and the odd second as 100
-- hundredths.
pub created-date_of :
    (m : Mem) (a y mo d h mi s : ℕ)
    → 1980 ≤ y
    → y < 2108
    → mo < 16
    → d < 32
    → h < 32
    → mi < 64
    → s < 64
    → half m (a + 16) ≡ date_of y mo d
    → half m (a + 14) ≡ time_of h mi s
    → m (a + 13) ≡ s % 2 * 100
    → created m a ≡ y ∷ mo ∷ d ∷ h ∷ mi ∷ s ∷ []
created-date_of m a y mo d h mi s from to months days hours minutes seconds date time hundredths =
    let ds = date_fields y mo d from to months days (half m (a + 16)) date in
    let ts =
      time_fields h mi s hours minutes seconds (half m (a + 14)) (m (a + 13))
        (omega (arith, hundredths)) time in
    let odd = odd_second s (m (a + 13)) hundredths in cc
