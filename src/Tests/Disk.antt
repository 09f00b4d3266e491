-- ===== src/Tests/Disk.antt =====
-- A small FAT16 disk.
use march_os.Base.{
  ℕ, some, false, ◌+◌, ◌-◌, ◌≡◌, inl, inr, refl, if◌then◌else◌, within, ok, Returns, List, [], ◌∷◌,
  arith,
}
use march_os.Mm.Mem.{Mem, update}
use march_os.Fat16.{Volume, volume, fat16_init, fat16_next_cluster}
use march_os.Fat16.Transfer.{fat16_next_cluster_lem}
use march_os.Inode.{Inode}
use march_os.Fat16.Read.{fat16_readi}
use march_os.Fat16.Read.Chunk.{Readable, start}
use march_os.Fat16.Read.Contents.{fat16_readi_lem}
use march_os.Fat16.Read.Gap.{fat16_readi_gap}
use march_os.Fat16.Layout.{disk_mbr, disk_bpb}
use march_os.Fat16.Mount.{FatDisk, WithinLimits, HasParts, fat16_init-HasParts}

abbrev pub bytes_of : List (ℕ × ℕ) → Mem
bytes_of [] = λ a. 0
bytes_of (b ∷ bs) = update (bytes_of bs) b.0 b.1

-- One partition from sector 1: 1 reserved sector, 2 tables of 32 sectors, 512 entries in the root
-- directory, 4 sectors in a cluster. Cluster 2 is followed by cluster 5.
abbrev disk : Mem
disk = bytes_of (
    (446, 0x80)
    ∷ (450, 6)
    ∷ (454, 1)
    ∷ (510, 0x55)
    ∷ (511, 0xAA)
    ∷ (524, 2)
    ∷ (525, 4)
    ∷ (526, 1)
    ∷ (528, 2)
    ∷ (530, 2)
    ∷ (534, 32)
    ∷ (550, 0x29)
    ∷ (1028, 5)
    ∷ [])

abbrev mounted : Volume
mounted = volume (disk_mbr disk) (disk_bpb disk)

disk-FatDisk : FatDisk disk 1
disk-FatDisk = record {
  signature = (refl, refl);
  active = refl;
  kind = inr refl;
  begins = refl;
  sector_bytes = (refl, refl);
  tables = refl;
  extension = inr refl;
}

disk-WithinLimits : WithinLimits disk 1
disk-WithinLimits = record { whole = refl; data_low = omega arith; clusters = omega arith }

fat16_init-HasParts_example :
    Returns (λ r. HasParts disk 1 r.0) (fat16_init disk 0x8000 0x9000 (λ a. 0))
fat16_init-HasParts_example =
    fat16_init-HasParts disk 1 disk-FatDisk disk-WithinLimits 0x8000 0x9000 (λ a. 0)
      (inl (omega arith))

data_start : mounted.data_entry ≡ 98
data_start = refl

next : (fat16_next_cluster disk mounted 0x8000 2 (λ a. 0)).0 ≡ 5
next = fat16_next_cluster_lem disk mounted 0x8000 2 (λ a. 0) refl (omega arith) (omega arith)

-- A file of 5000 bytes from cluster 2 on, read from byte 2048 on.
abbrev file : Inode
file = record { id = 2; size = 5000; refcnt = 1 }

file-Readable : Readable mounted file 0x8000 0xA000 2048 2500
file-Readable = record {
  number = (omega arith, omega arith);
  inside = omega arith;
  clusters = (refl, omega arith, omega arith);
  word = omega arith;
  sectors = omega arith;
  apart = inl (omega arith);
}

fat16_readi_lem_example :
    (m' : Mem) × (fat16_readi disk mounted file 0x8000 0xA000 2048 2500 (λ a. 0) ≡ ok (some m'))
    × ((q : ℕ)
        → within 0xA000 mounted.cluster_size q ≡ false
        → m' q ≡ (
            if within 0x8000 2500 q
            then disk (start disk mounted file + 2048 + (q - 0x8000))
            else 0))
fat16_readi_lem_example =
    fat16_readi_lem disk mounted file 0x8000 0xA000 2048 2500 file-Readable (λ a. 0) (inl refl)

-- The same file read from byte 100 on, over the end of its first cluster.
file-Readable_inside : Readable mounted file 0x8000 0xA000 100 3000
file-Readable_inside = record {
  number = (omega arith, omega arith);
  inside = omega arith;
  clusters = (refl, omega arith, omega arith);
  word = omega arith;
  sectors = omega arith;
  apart = inl (omega arith);
}

fat16_readi_gap_example :
    (m' : Mem) × (fat16_readi disk mounted file 0x8000 0xA000 100 3000 (λ a. 7) ≡ ok (some m'))
    × (m' (0x8000 + 1948) ≡ 7)
fat16_readi_gap_example =
    fat16_readi_gap disk mounted file 0x8000 0xA000 100 3000 file-Readable_inside (λ a. 7)
      (0x8000 + 1948) (omega arith) (omega arith) (omega arith) refl
