-- ===== src/Fat16/Layout.antt =====
-- fat16_init of fs/fat16/init.c on a disk whose first partition is laid out as FAT16 asks.
use march_os.Base.{
  ℕ, ◌+◌, ◌-◌, ◌*◌, ◌/◌, ◌%◌, ◌^◌, ◌≤◌, ◌<◌, ◌≡◌, refl, ap, ◌∙◌, Bool, true, false, ◌||◌, ◌⊎◌,
  if◌then◌else◌, within, Outcome, ok, panic, Returns, arith,
}
use march_os.Mm.Mem.{half, word, Mem}
use march_os.Fat16.{
  Volume, Mbr, Bpb, mbr_at, bpb_at, invalid_mbr, invalid_bpb, volume, ide_read_seq, fat16_init,
}
use march_os.Fat16.Transfer.{transfer_lem}

-- Where the parts of a volume lie, in sectors, for the values that the disk gives.
pub record LaidOut (m : Mbr) (b : Bpb) (v : Volume) : Type 0 where
  pub fat_start : v.fat_entry ≡ m.bpb_begin + b.reserved_sectors
  pub rootdir_start : v.rootdir_entry ≡ v.fat_entry + 2 * b.sectors_per_fat
  pub data_start : v.data_entry * 512 ≡ v.rootdir_entry * 512 + 32 * b.root_entries
  pub cluster_bytes : v.cluster_size ≡ 512 * b.sectors_per_cluster
  pub entries : v.root_entries ≡ b.root_entries
  pub sectors : (v.sector_size ≡ 512) × (v.sector_per_cluster ≡ b.sectors_per_cluster)

-- The disk is one that the kernel can mount: the tests of fat16_init hold, the root directory fills
-- whole sectors, and no sector number or cluster size is too large for its field.
pub record Mountable (m : Mbr) (b : Bpb) : Type 0 where
  pub mbr : invalid_mbr m ≡ false
  pub bpb : invalid_bpb b ≡ false
  pub whole : 32 * b.root_entries % 512 ≡ 0
  pub small :
      m.bpb_begin + b.reserved_sectors + 2 * b.sectors_per_fat + 32 * b.root_entries / 512 < 2 ^ 16
  pub clusters : b.sectors_per_cluster < 128

volume-LaidOut : (m : Mbr) (b : Bpb) → Mountable m b → LaidOut m b (volume m b)
volume-LaidOut m b q =
    let size : b.bytes_per_sector ≡ 512 = ground (arith, q.bpb) in
    let two : b.fats ≡ 2 = ground (arith, q.bpb) in
    let tables : b.sectors_per_fat * b.fats ≡ 2 * b.sectors_per_fat = rw two (omega arith) in
    record {
      fat_start = omega (arith, q.small);
      rootdir_start = rw tables (omega (arith, q.small));
      data_start = rw (tables, size) (omega (arith, q.small, q.whole));
      cluster_bytes = rw size (omega (arith, q.clusters));
      entries = refl;
      sectors = (size, refl);
    }

-- The structs of two places are the same where the 512 bytes there are.
module _ (b c : Mem) (a d : ℕ) (same : (k : ℕ) → k < 512 → b (a + k) ≡ c (d + k)) where
  byte-same : (k i : ℕ) → k + i < 512 → b (a + k + i) ≡ c (d + k + i)
  byte-same k i h =
      let here : a + (k + i) ≡ a + k + i = omega arith in
      let there : d + (k + i) ≡ d + k + i = omega arith in rw (here, there) at (same (k + i) h)

  half-same : (k : ℕ) → k + 1 < 512 → half b (a + k) ≡ half c (d + k)
  half-same k h = rw (same k (omega arith), byte-same k 1 h) refl

  word-same : (k : ℕ) → k + 3 < 512 → word b (a + k) ≡ word c (d + k)
  word-same k h =
      rw
        (
          same k (omega arith),
          byte-same k 1 (omega arith),
          byte-same k 2 (omega arith),
          byte-same k 3 h,
        )
        refl

  mbr_at-same : mbr_at b a ≡ mbr_at c d
  mbr_at-same =
      rw
        (
          same 446 (omega arith),
          same 450 (omega arith),
          word-same 454 (omega arith),
          word-same 458 (omega arith),
          half-same 510 (omega arith),
        )
        refl

  bpb_at-same : bpb_at b a ≡ bpb_at c d
  bpb_at-same =
      rw
        (
          half-same 11 (omega arith),
          same 13 (omega arith),
          half-same 14 (omega arith),
          same 16 (omega arith),
          half-same 17 (omega arith),
          half-same 19 (omega arith),
          half-same 22 (omega arith),
          same 38 (omega arith),
        )
        refl

module _ (disk : Mem) where
  loaded :
      (sector buf : ℕ) (m : Mem)
      → sector < 2 ^ 16
      → (k : ℕ) → k < 512
      → ide_read_seq disk sector buf 1 m (buf + k) ≡ disk (sector * 512 + k)
  unfolding ide_read_seq
  loaded sector buf m low k h =
      let start : sector % 2 ^ 28 * 512 ≡ sector * 512 = omega arith in
      let inside : within buf (1 * 512) (buf + k) ≡ true = ground arith in
      let place : buf + k - buf ≡ k = omega arith in
      rw start
        (transfer_lem disk (1 * 512) (sector * 512) buf m (buf + k) ∙ rw (inside, place) refl)

  apart :
      (sector buf a : ℕ) (m : Mem)
      → (a + 512 ≤ buf) ⊎ (buf + 512 ≤ a)
      → (k : ℕ) → k < 512
      → ide_read_seq disk sector buf 1 m (a + k) ≡ m (a + k)
  unfolding ide_read_seq
  apart sector buf a m off k h =
      let outside : within buf (1 * 512) (a + k) ≡ false = ground arith in
      transfer_lem disk (1 * 512) (sector % 2 ^ 28 * 512) buf m (a + k) ∙ rw outside refl

  abbrev pub disk_mbr : Mbr
  disk_mbr = mbr_at disk (0 * 512)

  abbrev pub disk_bpb : Bpb
  disk_bpb = bpb_at disk (disk_mbr.bpb_begin % 2 ^ 16 * 512)

  abbrev third : Mbr → Bpb → Mem → Outcome (Volume × Mem)
  third f b m2 =
      if invalid_mbr disk_mbr then panic else if invalid_bpb b then panic else ok (volume f b, m2)

  -- The steps of fat16_init behind the first transfer.
  abbrev second_read : Mbr → ℕ → Mem → Mbr → Outcome (Volume × Mem)
  second_read first bpb m1 later =
      let m2 = ide_read_seq disk (first.bpb_begin % 2 ^ 16) bpb 1 m1 in
      if invalid_mbr first
      then panic
      else if invalid_bpb (bpb_at m2 bpb)
      then panic
      else ok (volume later (bpb_at m2 bpb), m2)

  steps :
      (mbr bpb : ℕ) (m : Mem)
      → fat16_init disk mbr bpb m ≡ (
          let m1 = ide_read_seq disk 0 mbr 1 m in
          let first = mbr_at m1 mbr in
          second_read first bpb m1
            (mbr_at (ide_read_seq disk (first.bpb_begin % 2 ^ 16) bpb 1 m1) mbr))
  unfolding fat16_init
  steps mbr bpb m = refl

  joined :
      {A : Type 0} (a b : Bool) (x : Outcome A)
      → (if a then panic else if b then panic else x) ≡ (if a || b then panic else x)
  joined true b x = refl
  joined false b x = refl

  -- fat16_init with its two buffers apart panics if the boot record or the parameter block on the
  -- disk fails its tests, and else sets the fields from the values in them.
  pub fat16_init_lem :
      (mbr bpb : ℕ) (m : Mem)
      → (mbr + 512 ≤ bpb) ⊎ (bpb + 512 ≤ mbr)
      → (m' : Mem) × (fat16_init disk mbr bpb m ≡ (
          if invalid_mbr disk_mbr || invalid_bpb disk_bpb
          then panic
          else ok (volume disk_mbr disk_bpb, m')))
  fat16_init_lem mbr bpb m off =
      let m1 = ide_read_seq disk 0 mbr 1 m in
      let sector = disk_mbr.bpb_begin % 2 ^ 16 in
      let m2 = ide_read_seq disk sector bpb 1 m1 in
      let first : mbr_at m1 mbr ≡ disk_mbr =
        mbr_at-same m1 disk mbr (0 * 512) (loaded 0 mbr m (omega arith)) in
      let again : mbr_at m2 mbr ≡ disk_mbr =
        mbr_at-same m2 m1 mbr mbr (apart sector bpb mbr m1 off) ∙ first in
      let block : bpb_at m2 bpb ≡ disk_bpb =
        bpb_at-same m2 disk bpb (sector * 512) (loaded sector bpb m1 (omega arith)) in
      (
        m2,
        steps mbr bpb m
            ∙ ap
                (λ (f : Mbr).
                  second_read f bpb m1
                    (mbr_at (ide_read_seq disk (f.bpb_begin % 2 ^ 16) bpb 1 m1) mbr))
                first
            ∙ ap (λ (f : Mbr). second_read disk_mbr bpb m1 f) again
            ∙ ap (λ (b : Bpb). third disk_mbr b m2) block
            ∙ joined (invalid_mbr disk_mbr) (invalid_bpb disk_bpb)
                (ok (volume disk_mbr disk_bpb, m2)),
      )

  -- fat16_init mounts a disk that it can mount, with the parts of the volume where the disk says.
  pub fat16_init-LaidOut :
      (mbr bpb : ℕ) (m : Mem)
      → (mbr + 512 ≤ bpb) ⊎ (bpb + 512 ≤ mbr)
      → Mountable disk_mbr disk_bpb
      → Returns (λ r. LaidOut disk_mbr disk_bpb r.0) (fat16_init disk mbr bpb m)
  fat16_init-LaidOut mbr bpb m off q =
      let (m', e) = fat16_init_lem mbr bpb m off in
      (
        (volume disk_mbr disk_bpb, m'),
        e ∙ rw (q.mbr, q.bpb) refl,
        volume-LaidOut disk_mbr disk_bpb q,
      )
