-- ===== src/Fat16/Dump.antt =====
-- The dumps of the structs on the disk: fs/fat16/dump.c, as the bytes that they send. `strings` is
-- the text at an address.
pub mod Dates
use march_os.Base.{
  ℕ, zero, suc, ◌+◌, ◌-◌, ◌*◌, ◌/◌, ◌%◌, ◌^◌, not, List, [], ◌∷◌, ◌++◌, ◌==◌, if◌then◌else◌,
  bit_and,
}
use march_os.Base.Text.{codes}
use march_os.Mm.Mem.{Mem, half, word}
use march_os.Console.{kprintf, Call, printed_calls, text, stack_array}

abbrev calls_of : (ℕ → List ℕ) → List Call → List ℕ
calls_of strings [] = []
calls_of strings ((fmt, args) ∷ calls) = kprintf strings fmt args ++ calls_of strings calls

-- The partition at `p`.
abbrev pub dump_partition : (ℕ → List ℕ) → Mem → ℕ → ℕ → List ℕ
dump_partition strings m p i = calls_of strings (
    (codes "  Partition %d:\n", i ∷ [])
    ∷ (codes "    Bootable: %x\n", m p ∷ [])
    ∷ (codes "    CHS Begin: %x %x %x\n", m (p + 1) ∷ m (p + 2) ∷ m (p + 3) ∷ [])
    ∷ (codes "    Type: %x\n", m (p + 4) ∷ [])
    ∷ (codes "    CHS End: %x %x %x\n", m (p + 5) ∷ m (p + 6) ∷ m (p + 7) ∷ [])
    ∷ (codes "    BPB Begin: %x\n", word m (p + 8) ∷ [])
    ∷ (codes "    Sectors: %x\n", word m (p + 12) ∷ [])
    ∷ [])

-- for (i = 0; i < 4; i++), with `n` to go
unfoldable pub dump_partitions : (ℕ → List ℕ) → Mem → ℕ → ℕ → ℕ → List ℕ
dump_partitions strings m table zero i = []
dump_partitions strings m table (suc n) i =
    let p = table + 16 * i in
    (if m (p + 4) == 0 then [] else dump_partition strings m p i)
    ++ dump_partitions strings m table n (i + 1)

unfoldable pub fat16_dump_mbr : (ℕ → List ℕ) → Mem → ℕ → List ℕ
fat16_dump_mbr strings m a =
    kprintf strings (codes "FAT16 MBR:\n") [] ++ dump_partitions strings m (a + 446) 4 0

unfoldable pub fat16_dump_bpb : (ℕ → List ℕ) → Mem → ℕ → List ℕ
fat16_dump_bpb strings m a = calls_of strings (
    (codes "FAT16 BPB:\n", [])
    ∷ (codes "  JMP: %x %x %x\n", m a ∷ m (a + 1) ∷ m (a + 2) ∷ [])
    ∷ (codes "  OEM: %s\n", (a + 3) ∷ [])
    ∷ (codes "  Bytes per sector: %x\n", half m (a + 11) ∷ [])
    ∷ (codes "  Sectors per cluster: %x\n", m (a + 13) ∷ [])
    ∷ (codes "  Reserved sectors: %x\n", half m (a + 14) ∷ [])
    ∷ (codes "  FATS: %x\n", m (a + 16) ∷ [])
    ∷ (codes "  Root entries: %x\n", half m (a + 17) ∷ [])
    ∷ (codes "  Sectors: %x\n", half m (a + 19) ∷ [])
    ∷ (codes "  Media: %x\n", m (a + 21) ∷ [])
    ∷ (codes "  Sectors per FAT: %x\n", half m (a + 22) ∷ [])
    ∷ (codes "  Sectors per track: %x\n", half m (a + 24) ∷ [])
    ∷ (codes "  Heads: %x\n", half m (a + 26) ∷ [])
    ∷ (codes "  Hidden sectors: %x\n", word m (a + 28) ∷ [])
    ∷ (codes "  Large sectors: %x\n", word m (a + 32) ∷ [])
    ∷ (codes "  Drive number: %x\n", m (a + 36) ∷ [])
    ∷ (codes "  Signature: %x\n", m (a + 38) ∷ [])
    ∷ (codes "  Volume ID: %x\n", word m (a + 39) ∷ [])
    ∷ (codes "  Volume label: %s\n", (a + 43) ∷ [])
    ∷ (codes "  Filesystem type: %s\n", (a + 54) ∷ [])
    ∷ [])

-- The fields of a date and of a time.
abbrev pub year : ℕ → ℕ
year date = (bit_and date 0xFE00 / 2 ^ 9 + 1980) % 2 ^ 16

abbrev pub month : ℕ → ℕ
month date = bit_and date 0x01E0 / 2 ^ 5 % 2 ^ 8

abbrev pub day : ℕ → ℕ
day date = bit_and date 0x001F % 2 ^ 8

abbrev pub hour : ℕ → ℕ
hour time = bit_and time 0xF800 / 2 ^ 11 % 2 ^ 8

abbrev pub minute : ℕ → ℕ
minute time = bit_and time 0x07E0 / 2 ^ 5 % 2 ^ 8

abbrev pub second : ℕ → ℕ → ℕ
second time ms = (bit_and time 0x001F * 2 + ms / 100) % 2 ^ 8

-- `n` bytes from `a` on, and the low bytes of `n` numbers of 16 bits.
abbrev pub bytes_at : Mem → ℕ → ℕ → List ℕ
bytes_at m a zero = []
bytes_at m a (suc n) = m a ∷ bytes_at m (a + 1) n

abbrev pub chars_at : Mem → ℕ → ℕ → List ℕ
chars_at m a zero = []
chars_at m a (suc n) = half m a % 2 ^ 8 ∷ chars_at m (a + 2) n

-- An entry that holds a part of a long name.
unfoldable pub dump_lfn : Mem → ℕ → List ℕ
dump_lfn m a =
    printed_calls (text (chars_at m (a + 1) 5 ++ chars_at m (a + 14) 6 ++ chars_at m (a + 28) 2)) (
      (codes "  LFN: %x\n", m a ∷ [])
      ∷ (codes "    filename: %s\n", stack_array ∷ [])
      ∷ (codes "    attr: %x\n", m (a + 11) ∷ [])
      ∷ (codes "    checksum: %x\n", m (a + 13) ∷ [])
      ∷ [])

-- if (attr & bit) { kprintf(word); }
abbrev pub attribute : ℕ → ℕ → List ℕ → List ℕ
attribute attr bit name = if bit_and attr bit == 0 then [] else kprintf (λ p. []) name []

abbrev pub created : Mem → ℕ → List ℕ
created m a =
    year (half m (a + 16))
    ∷ month (half m (a + 16))
    ∷ day (half m (a + 16))
    ∷ hour (half m (a + 14))
    ∷ minute (half m (a + 14))
    ∷ second (half m (a + 14)) (m (a + 13))
    ∷ []

abbrev pub modified : Mem → ℕ → List ℕ
modified m a =
    year (half m (a + 24))
    ∷ month (half m (a + 24))
    ∷ day (half m (a + 24))
    ∷ hour (half m (a + 22))
    ∷ minute (half m (a + 22))
    ∷ second (half m (a + 22)) 0
    ∷ []

abbrev pub accessed : Mem → ℕ → List ℕ
accessed m a = year (half m (a + 18)) ∷ month (half m (a + 18)) ∷ day (half m (a + 18)) ∷ []

-- The rest of the loop's body.
unfoldable pub dump_entry : Mem → ℕ → List ℕ
dump_entry m a =
    let attr = m (a + 11) in
    printed_calls (text (bytes_at m a 11))
      ((codes "  %s\n", stack_array ∷ []) ∷ (codes "    FileType: ", []) ∷ [])
    ++ attribute attr 0x01 (codes "Read-only ")
    ++ attribute attr 0x02 (codes "Hidden ")
    ++ attribute attr 0x04 (codes "System ")
    ++ attribute attr 0x08 (codes "VolumeID ")
    ++ attribute attr 0x10 (codes "Directory ")
    ++ attribute attr 0x20 (codes "Archive ")
    ++ printed_calls [] (
        (codes "(%x) \n", attr ∷ [])
        ∷ (codes "    Cluster: %x\n", half m (a + 26) ∷ [])
        ∷ (codes "    Size: %d\n", word m (a + 28) ∷ [])
        ∷ (codes "    Create DateTime: %d-%d-%d %d:%d:%d\n", created m a)
        ∷ (codes "    Last Modify DateTime: %d-%d-%d %d:%d:%d\n", modified m a)
        ∷ (codes "    Last Access Date: %d-%d-%d\n", accessed m a)
        ∷ [])

unfoldable pub fat16_dump_dir : Mem → ℕ → ℕ → List ℕ
fat16_dump_dir m a zero = []
fat16_dump_dir m a (suc entries) =
    let rest = fat16_dump_dir m (a + 32) entries in
    if m a == 0
    then []
    else if m (a + 11) == 0x0F
    then dump_lfn m a ++ rest
    else dump_entry m a ++ rest
