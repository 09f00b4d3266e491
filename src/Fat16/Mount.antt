-- ===== src/Fat16/Mount.antt =====
-- fat16_init of fs/fat16/init.c on a disk that is described by its bytes.
use march_os.Base.{
  ℕ, ◌+◌, ◌*◌, ◌/◌, ◌%◌, ◌^◌, ◌≤◌, ◌<◌, ◌≡◌, refl, ap, ◌∙◌, false, ◌⊎◌, inl, inr, Returns, arith,
}
use march_os.Mm.Mem.{half, word, Mem}
use march_os.Fat16.{Volume, Bpb, bpb_at, invalid_mbr, invalid_bpb, fat16_init}
use march_os.Fat16.Layout.{LaidOut, Mountable, disk_mbr, disk_bpb, fat16_init-LaidOut}

-- A disk with a boot record whose first partition is active, of one of the types 4 and 6, and begins
-- with a FAT16 parameter block at the sector `start`: sectors of 512 bytes, two allocation tables,
-- and one of the two extended signatures.
pub record FatDisk (disk : Mem) (start : ℕ) : Type 0 where
  pub signature : (disk 510 ≡ 0x55) × (disk 511 ≡ 0xAA)
  pub active : disk 446 ≡ 0x80
  pub kind : (disk 450 ≡ 4) ⊎ (disk 450 ≡ 6)
  pub begins : word disk 454 ≡ start
  pub sector_bytes : (disk (start * 512 + 11) ≡ 0) × (disk (start * 512 + 11 + 1) ≡ 2)
  pub tables : disk (start * 512 + 16) ≡ 2
  pub extension : (disk (start * 512 + 38) ≡ 0x28) ⊎ (disk (start * 512 + 38) ≡ 0x29)

-- The limits within which the fields of the kernel hold the numbers: the root directory fills whole
-- sectors, the data begin before sector 2 ^ 16, and a cluster has fewer than 128 sectors.
pub record WithinLimits (disk : Mem) (start : ℕ) : Type 0 where
  pub whole : 32 * half disk (start * 512 + 17) % 512 ≡ 0
  pub data_low :
      start
        + half disk (start * 512 + 14)
        + 2 * half disk (start * 512 + 22)
        + 32 * half disk (start * 512 + 17) / 512
      < 2 ^ 16
  pub clusters : disk (start * 512 + 13) < 128

-- Where the standard puts the parts of the volume, in sectors: the first table behind the reserved
-- sectors, the root directory behind the two tables, the clusters behind its entries of 32 bytes.
pub record HasParts (disk : Mem) (start : ℕ) (v : Volume) : Type 0 where
  pub fat_start : v.fat_entry ≡ start + half disk (start * 512 + 14)
  pub rootdir_start : v.rootdir_entry ≡ v.fat_entry + 2 * half disk (start * 512 + 22)
  pub data_start : v.data_entry * 512 ≡ v.rootdir_entry * 512 + 32 * half disk (start * 512 + 17)
  pub cluster_bytes : v.cluster_size ≡ 512 * disk (start * 512 + 13)
  pub entries : v.root_entries ≡ half disk (start * 512 + 17)
  pub sectors : (v.sector_size ≡ 512) × (v.sector_per_cluster ≡ disk (start * 512 + 13))

module _ (disk : Mem) (start : ℕ) (d : FatDisk disk start) (w : WithinLimits disk start) where
  block : disk_bpb disk ≡ bpb_at disk (start * 512)
  block =
      let low : word disk 454 % 2 ^ 16 ≡ start = omega (arith, d.begins, w.data_low) in
      ap (λ (s : ℕ). bpb_at disk (s * 512)) low

  mbr_valid : invalid_mbr (disk_mbr disk) ≡ false
  mbr_valid =
      let sig : half disk 510 ≡ 0xAA55 = rw (d.signature.0, d.signature.1) refl in
      elim d.kind [ inl e ↦ rw (sig, d.active, e) refl | inr e ↦ rw (sig, d.active, e) refl ]

  bpb_valid : invalid_bpb (bpb_at disk (start * 512)) ≡ false
  bpb_valid = elim d.extension [
    | inl e ↦ rw (d.sector_bytes.0, d.sector_bytes.1, d.tables, e) refl
    | inr e ↦ rw (d.sector_bytes.0, d.sector_bytes.1, d.tables, e) refl
  ]

  mountable : (b : Bpb) → b ≡ bpb_at disk (start * 512) → Mountable (disk_mbr disk) b
  mountable b e = record {
    mbr = mbr_valid;
    bpb = rw e bpb_valid;
    whole = rw e w.whole;
    small = rw (e, d.begins) w.data_low;
    clusters = rw e w.clusters;
  }

  parts :
      (b : Bpb) (v : Volume)
      → b ≡ bpb_at disk (start * 512)
      → LaidOut (disk_mbr disk) b v
      → HasParts disk start v
  parts b v e laid =
      let moved = rw e at laid in
      record {
        fat_start = moved.fat_start ∙ rw d.begins refl;
        rootdir_start = moved.rootdir_start;
        data_start = moved.data_start;
        cluster_bytes = moved.cluster_bytes;
        entries = moved.entries;
        sectors = moved.sectors;
      }

  -- fat16_init, with its two buffers apart, mounts a disk that has an active FAT16 partition first
  -- in its boot record, with sectors of 512 bytes and two tables, whose root directory fills whole
  -- sectors, whose data begin before sector 2 ^ 16 and whose clusters have fewer than 128 sectors:
  -- it returns, and the parts of the volume are where the bytes of the parameter block put them.
  pub fat16_init-HasParts :
      (mbr bpb : ℕ) (m : Mem)
      → (mbr + 512 ≤ bpb) ⊎ (bpb + 512 ≤ mbr)
      → Returns (λ r. HasParts disk start r.0) (fat16_init disk mbr bpb m)
  fat16_init-HasParts mbr bpb m off =
      let (r, e, laid) = fat16_init-LaidOut disk mbr bpb m off (mountable (disk_bpb disk) block) in
      (r, e, parts (disk_bpb disk) r.0 block laid)
