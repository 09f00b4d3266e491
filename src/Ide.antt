-- ===== src/Ide.antt =====
-- The ATA disk: arch/x86/ide.c over the ports of a drive, whose state is `S`.
pub mod Drive
pub mod Reading
use march_os.Base.{
  ℕ, zero, suc, ◌+◌, ◌/◌, ◌%◌, ◌^◌, Bool, true, false, not, ◌==◌, Outcome, ok, panic, ◌>>=◌,
  bit_and, bit_or,
}
use march_os.Mm.Mem.{Mem, update}

-- The instructions of include/x86/asm.h that reach a port.
pub record Ports (S : Type 0) : Type 0 where
  pub inb : ℕ → S → ℕ × S
  pub outb : ℕ → ℕ → S → S
  pub inl : ℕ → S → ℕ × S

abbrev pub ide_command : ℕ
ide_command = 0x1F7

abbrev pub ata_sr_bsy : ℕ
ata_sr_bsy = 0x80

abbrev pub ata_sr_drdy : ℕ
ata_sr_drdy = 0x40

abbrev pub ata_sr_drq : ℕ
ata_sr_drq = 0x08

abbrev pub ata_cmd_read_pio : ℕ
ata_cmd_read_pio = 0x20

-- *(uint32 *)a = v
abbrev pub store32 : Mem → ℕ → ℕ → Mem
store32 m a v =
    let m1 = update m a (v % 2 ^ 8) in
    let m2 = update m1 (a + 1) (v / 2 ^ 8 % 2 ^ 8) in
    let m3 = update m2 (a + 2) (v / 2 ^ 16 % 2 ^ 8) in update m3 (a + 3) (v / 2 ^ 24 % 2 ^ 8)

-- The tests of the two loops.
abbrev pub drive_ready : ℕ → Bool
drive_ready status = bit_and status (bit_or ata_sr_bsy ata_sr_drdy) == ata_sr_drdy

abbrev pub has_data : ℕ → Bool
has_data status = not (bit_and status ata_sr_drq == 0)

module _ {S : Type 0} (p : Ports S) where
  -- while (retries--) { if (test(inb(IDE_COMMAND))) { return; } } panic(...);
  unfoldable pub wait : (ℕ → Bool) → ℕ → S → Outcome S
  wait test zero s = panic
  wait test (suc retries) s =
      let r = p.inb ide_command s in
      elim (test r.0) [ true ↦ ok r.1 | false ↦ wait test retries r.1 ]

  abbrev pub ide_wait_ready : S → Outcome S
  ide_wait_ready = wait drive_ready 10000

  abbrev pub ide_wait_data : S → Outcome S
  ide_wait_data = wait has_data 10000

  -- for (j = 0; j < 512; j += 4), with `n` rounds to go
  unfoldable pub read_words : ℕ → ℕ → Mem → S → Mem × S
  read_words zero buf m s = (m, s)
  read_words (suc n) buf m s =
      let r = p.inl 0x1F0 s in read_words n (buf + 4) (store32 m buf r.0) r.1

  -- for (i = 0; i < count; i++), with `n` rounds to go
  unfoldable pub read_sectors : ℕ → ℕ → Mem → S → Outcome (Mem × S)
  read_sectors zero buf m s = ok (m, s)
  read_sectors (suc n) buf m s = ide_wait_data s >>= λ s1.
      let r = read_words 128 buf m s1 in read_sectors n (buf + 512) r.0 r.1

  -- The six writes of a command, from the registers that they fill.
  abbrev pub send : ℕ → ℕ → ℕ → ℕ → ℕ → S → S
  send drive count low mid high s =
      let s1 = p.outb 0x1F6 drive s in
      let s2 = p.outb 0x1F2 count s1 in
      let s3 = p.outb 0x1F3 low s2 in
      let s4 = p.outb 0x1F4 mid s3 in
      let s5 = p.outb 0x1F5 high s4 in p.outb ide_command ata_cmd_read_pio s5

  -- outb takes the low byte of `count`.
  unfoldable pub ide_read_seq : ℕ → ℕ → ℕ → Mem → S → Outcome (Mem × S)
  ide_read_seq sector buf count m s = ide_wait_ready s >>= λ s1. read_sectors count buf m (
      send (bit_or 0xE0 (bit_and (sector / 2 ^ 24) 0xF)) (count % 2 ^ 8) (bit_and sector 0xFF)
        (bit_and (sector / 2 ^ 8) 0xFF) (bit_and (sector / 2 ^ 16) 0xFF) s1)

  abbrev pub ide_read : ℕ → ℕ → Mem → S → Outcome (Mem × S)
  ide_read sector buf = ide_read_seq sector buf 1
