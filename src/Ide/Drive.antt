-- ===== src/Ide/Drive.antt =====
-- What arch/x86/ide.c relies on of a drive: the interface of the ATA standard that its ports offer,
-- by the numbers of the ports and the bits of the status.
use march_os.Base.{ℕ, suc, ◌+◌, ◌*◌, ◌/◌, ◌%◌, ◌^◌, ◌<◌, ◌≡◌, ◌==◌, if◌then◌else◌}
use march_os.Mm.Mem.{Mem, word}
use march_os.Ide.{Ports}

-- A count of 0 asks for 256 sectors.
abbrev pub sectors_of : ℕ → ℕ
sectors_of count = if count == 0 then 256 else count

-- Bits of the status register: busy, ready for a command, data to give.
abbrev pub bsy : ℕ → ℕ
bsy status = status / 2 ^ 7 % 2

abbrev pub drdy : ℕ → ℕ
drdy status = status / 2 ^ 6 % 2

abbrev pub drq : ℕ → ℕ
drq status = status / 2 ^ 3 % 2

-- A drive that holds `disk`. Before it answers, it is busy for some reads of its status, fewer than
-- 10000: `delay`. It is idle, or has `n` sectors to give from the byte `a` on, or is within a
-- sector, with `w` words of it to give. While it is busy with a command it does not ask for data.
pub record Drive {S : Type 0} (p : Ports S) (disk : Mem) : Type 1 where
  pub small : (a : ℕ) → disk a < 2 ^ 8
  pub delay : S → ℕ
  pub Idle : S → Type 0
  pub Serving : ℕ → ℕ → S → Type 0
  pub Giving : ℕ → ℕ → ℕ → S → Type 0
  pub delay_bound : (s : S) → delay s < 10000
  pub byte : (port : ℕ) (s : S) → (p.inb port s).0 < 2 ^ 8
  pub idle_busy :
      (s : S) (k : ℕ)
      → Idle s
      → delay s ≡ suc k
      → let r = p.inb 0x1F7 s in (bsy r.0 ≡ 1) × (delay r.1 ≡ k) × Idle r.1
  pub idle_ready :
      (s : S)
      → Idle s
      → delay s ≡ 0
      → let r = p.inb 0x1F7 s in (bsy r.0 ≡ 0) × (drdy r.0 ≡ 1) × Idle r.1
  pub accepts :
      (s : S) (top count low mid high : ℕ)
      → Idle s
      → top < 2 ^ 4
      → count < 2 ^ 8
      → low < 2 ^ 8
      → mid < 2 ^ 8
      → high < 2 ^ 8
      → let s1 = p.outb 0x1F6 (0xE0 + top) s in
        let s2 = p.outb 0x1F2 count s1 in
        let s3 = p.outb 0x1F3 low s2 in
        let s4 = p.outb 0x1F4 mid s3 in
        let s5 = p.outb 0x1F5 high s4 in
        Serving
          ((low + 2 ^ 8 * mid + 2 ^ 16 * high + 2 ^ 24 * top) * 512)
          (sectors_of count)
          (p.outb 0x1F7 0x20 s5)
  pub data_busy :
      (s : S) (a n k : ℕ)
      → Serving a (suc n) s
      → delay s ≡ suc k
      → let r = p.inb 0x1F7 s in (drq r.0 ≡ 0) × (delay r.1 ≡ k) × Serving a (suc n) r.1
  pub data_ready :
      (s : S) (a n : ℕ)
      → Serving a (suc n) s
      → delay s ≡ 0
      → let r = p.inb 0x1F7 s in (drq r.0 ≡ 1) × Giving a 128 n r.1
  pub gives :
      (s : S) (a w n : ℕ)
      → Giving a (suc w) n s
      → let r = p.inl 0x1F0 s in (r.0 ≡ word disk a) × Giving (a + 4) w n r.1
  pub sector_done : (s : S) (a n : ℕ) → Giving a 0 n s → Serving a n s
  pub done : (s : S) (a : ℕ) → Serving a 0 s → Idle s
