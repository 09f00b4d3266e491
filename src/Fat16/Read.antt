-- ===== src/Fat16/Read.antt =====
-- fat16_readi: fs/fat16/read.c.
pub mod Chunk
pub mod Contents
pub mod Gap
use march_os.Base.{
  ℕ, zero, suc, ◌+◌, ◌-◌, ◌*◌, ◌/◌, ◌%◌, ◌^◌, ◌&&◌, ltb, ◌==◌, if◌then◌else◌, Option, none, some,
  Outcome, ok, panic,
}
use march_os.Mm.Mem.{Mem}
use march_os.CString.{memcpy}
use march_os.Inode.{Inode}
use march_os.Fat16.{Volume, fat16_read_cluster}

module _ (fat16 : Volume) (offset size : ℕ) where
  abbrev pub cluster_offset : ℕ
  cluster_offset = offset / fat16.cluster_size % 2 ^ 16

  abbrev pub cluster_offset_remain : ℕ
  cluster_offset_remain = offset % fat16.cluster_size % 2 ^ 16

  abbrev pub cluster_offset_end : ℕ
  cluster_offset_end = (offset + size) % 2 ^ 64 / fat16.cluster_size % 2 ^ 16

  abbrev pub cluster_offset_end_remain : ℕ
  cluster_offset_end_remain = (offset + size) % 2 ^ 64 % fat16.cluster_size % 2 ^ 16

module _ (disk : Mem) (fat16 : Volume) (ino : Inode) (dst buf offset size : ℕ) where
  -- The copies of a round, for the cluster in the buffer.
  unfoldable pub copy_cluster : ℕ → Mem → Mem
  copy_cluster i m =
      if i == cluster_offset fat16 offset size && i == cluster_offset_end fat16 offset size
      then memcpy m dst (buf + cluster_offset_remain fat16 offset size) size
      else (if i == cluster_offset fat16 offset size
          then memcpy m dst (buf + cluster_offset_remain fat16 offset size)
              (fat16.cluster_size - cluster_offset_remain fat16 offset size)
          else (if i == cluster_offset_end fat16 offset size
              then memcpy m (dst + (i - cluster_offset fat16 offset size) * fat16.cluster_size) buf
                  (cluster_offset_end_remain fat16 offset size)
              else memcpy m (dst + (i - cluster_offset fat16 offset size) * fat16.cluster_size) buf
                  fat16.cluster_size))

  -- The loop: `n` rounds from `i` on.
  unfoldable pub read_clusters : ℕ → ℕ → Mem → Mem
  read_clusters zero i m = m
  read_clusters (suc n) i m =
      read_clusters n (i + 1)
        (copy_cluster i (fat16_read_cluster disk fat16 ((ino.id % 2 ^ 16 + i) % 2 ^ 16) buf m))

  -- `none` is -1, and panic the division by a cluster size of 0. `buf` is what kmalloc gives;
  -- giving it back at the end changes no byte here.
  unfoldable pub fat16_readi : Mem → Outcome (Option Mem)
  fat16_readi m =
      if ltb 0xFFFF ino.id
      then ok none
      else if ltb ino.size ((offset + size) % 2 ^ 64)
      then ok none
      else if fat16.cluster_size == 0
      then panic
      else ok (
          some (
            read_clusters
              (cluster_offset_end fat16 offset size + 1 - cluster_offset fat16 offset size)
              (cluster_offset fat16 offset size) m))
