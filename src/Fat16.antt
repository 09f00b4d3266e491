-- ===== src/Fat16.antt =====
-- The FAT16 file system: fs/fat16. The disk is an argument: its bytes, a sector after the other. A
-- transfer of arch/x86/ide.c copies them to memory.
pub mod Layout
pub mod Transfer
pub mod Mount
pub mod Read
pub mod Name
pub mod Dump
use march_os.Base.{
  Bool, true, false, ℕ, zero, suc, ◌+◌, ◌-◌, ◌*◌, ◌/◌, ◌%◌, ◌^◌, ◌&&◌, ◌||◌, not, ltb, leb, ◌==◌,
  if◌then◌else◌, Option, none, some, Outcome, ok, panic,
}
use march_os.Mm.Mem.{half, word, Mem, update}
use march_os.CString.{memcpy}

-- struct FAT16
pub record Volume : Type 0 where
  pub bpb_entry : ℕ
  pub fat_entry : ℕ
  pub rootdir_entry : ℕ
  pub data_entry : ℕ
  pub sector_size : ℕ
  pub cluster_size : ℕ
  pub fat_size : ℕ
  pub partition0_size : ℕ
  pub sector_per_cluster : ℕ
  pub sector_per_fat : ℕ
  pub sector_per_partition0 : ℕ
  pub root_entries : ℕ

-- The fields of the first partition in struct FAT16_MBR, and bootsig.
pub record Mbr : Type 0 where
  pub boot : ℕ
  pub type : ℕ
  pub bpb_begin : ℕ
  pub sectors : ℕ
  pub bootsig : ℕ

-- The fields of struct FAT16_BPB that fat16_init uses.
pub record Bpb : Type 0 where
  pub bytes_per_sector : ℕ
  pub sectors_per_cluster : ℕ
  pub reserved_sectors : ℕ
  pub fats : ℕ
  pub root_entries : ℕ
  pub sectors : ℕ
  pub sectors_per_fat : ℕ
  pub signature : ℕ

-- The structs at the place of memory that holds a sector.
abbrev pub mbr_at : Mem → ℕ → Mbr
mbr_at b a = record {
  boot = b (a + 446);
  type = b (a + 450);
  bpb_begin = word b (a + 454);
  sectors = word b (a + 458);
  bootsig = half b (a + 510);
}

abbrev pub bpb_at : Mem → ℕ → Bpb
bpb_at b a = record {
  bytes_per_sector = half b (a + 11);
  sectors_per_cluster = b (a + 13);
  reserved_sectors = half b (a + 14);
  fats = b (a + 16);
  root_entries = half b (a + 17);
  sectors = half b (a + 19);
  sectors_per_fat = half b (a + 22);
  signature = b (a + 38);
}

-- The tests of fat16_init, and the fields it sets: 16 bits each, partition0_size 32.
abbrev pub invalid_mbr : Mbr → Bool
invalid_mbr m =
    not (m.bootsig == 0xAA55) || not (m.boot == 0x80) || (not (m.type == 4) && not (m.type == 6))

abbrev pub invalid_bpb : Bpb → Bool
invalid_bpb b =
    not (b.bytes_per_sector == 512)
    || not (b.fats == 2)
    || (not (b.signature == 0x28) && not (b.signature == 0x29))

abbrev pub volume : Mbr → Bpb → Volume
volume m b =
    let bpb_entry = m.bpb_begin % 2 ^ 16 in
    let fat_entry = (bpb_entry + b.reserved_sectors) % 2 ^ 16 in
    let rootdir_entry = (fat_entry + b.sectors_per_fat * b.fats) % 2 ^ 16 in
    record {
      bpb_entry = bpb_entry;
      fat_entry = fat_entry;
      rootdir_entry = rootdir_entry;
      data_entry = (rootdir_entry + 32 * b.root_entries / b.bytes_per_sector) % 2 ^ 16;
      sector_size = b.bytes_per_sector;
      cluster_size = b.bytes_per_sector * b.sectors_per_cluster % 2 ^ 16;
      fat_size = b.bytes_per_sector * b.sectors_per_fat % 2 ^ 16;
      partition0_size = m.sectors * b.bytes_per_sector % 2 ^ 32;
      sector_per_cluster = b.sectors_per_cluster;
      sector_per_fat = b.sectors_per_fat;
      sector_per_partition0 = b.sectors;
      root_entries = b.root_entries;
    }

module _ (disk : Mem) where
  -- `n` bytes of the disk from `a` on.
  unfoldable pub transfer : ℕ → ℕ → ℕ → Mem → Mem
  transfer zero a buf m = m
  transfer (suc n) a buf m = transfer n (a + 1) (buf + 1) (update m buf (disk a))

  -- For at most 256 sectors, the waits for the drive left out. The drive is given 28 bits of the
  -- sector.
  unfoldable pub ide_read_seq : ℕ → ℕ → ℕ → Mem → Mem
  ide_read_seq sector buf count m = transfer (count * 512) (sector % 2 ^ 28 * 512) buf m

  -- `mbr` and `bpb` are what the two calls of kmalloc give.
  unfoldable pub fat16_init : ℕ → ℕ → Mem → Outcome (Volume × Mem)
  fat16_init mbr bpb m =
      let m1 = ide_read_seq 0 mbr 1 m in
      let first = mbr_at m1 mbr in
      if invalid_mbr first
      then panic
      else let m2 = ide_read_seq (first.bpb_begin % 2 ^ 16) bpb 1 m1 in
        let block = bpb_at m2 bpb in
        if invalid_bpb block then panic else ok (volume (mbr_at m2 mbr) block, m2)

  module _ (fat16 : Volume) where
    unfoldable pub fat16_read_rootdir : ℕ → Mem → Mem
    fat16_read_rootdir = λ buf m.
        ide_read_seq fat16.rootdir_entry buf (32 * fat16.root_entries / fat16.sector_size) m

    -- The sector is a 32-bit number; clusters 0 and 1 wrap around.
    abbrev pub cluster_sector : ℕ → ℕ
    cluster_sector cluster =
        (fat16.data_entry + (cluster + 2 ^ 32 - 2) * fat16.sector_per_cluster) % 2 ^ 32

    unfoldable pub fat16_read_cluster : ℕ → ℕ → Mem → Mem
    fat16_read_cluster cluster buf m =
        ide_read_seq (cluster_sector cluster) buf fat16.sector_per_cluster m

    -- `fat` is what kmalloc gives.
    unfoldable pub fat16_next_cluster : ℕ → ℕ → Mem → ℕ × Mem
    fat16_next_cluster fat cluster m =
        let fat_entries = fat16.sector_size / 2 in
        let m1 = ide_read_seq (fat16.fat_entry + cluster / fat_entries) fat 1 m in
        (half m1 (fat + cluster % fat_entries * 2), m1)
