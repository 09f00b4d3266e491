-- ===== src/Fat16/Transfer.antt =====
-- What transfers from the disk leave in memory: read.c and fs/fat16/common.c of fs/fat16.
use march_os.Base.{
  ℕ, zero, suc, ◌+◌, ◌-◌, ◌*◌, ◌/◌, ◌%◌, ◌^◌, ◌≤◌, ◌<◌, ◌≡◌, refl, ◌∙◌, true, false, Bool-cases,
  inl, inr, ◌==◌, if◌then◌else◌, within, arith,
}
use march_os.Mm.Mem.{half, Mem, update}
use march_os.Fat16.{
  Volume, transfer, ide_read_seq, fat16_read_cluster, fat16_next_cluster, cluster_sector,
}

pub transfer_lem :
    (disk : Mem) (n a buf : ℕ) (m : Mem) (q : ℕ)
    → transfer disk n a buf m q ≡ (if within buf n q then disk (a + (q - buf)) else m q)
unfolding transfer
transfer_lem disk zero a buf m q = ground arith
transfer_lem disk (suc n) a buf m q =
    let ih = transfer_lem disk n (a + 1) (buf + 1) (update m buf (disk a)) q in
    elim (Bool-cases (within (buf + 1) n q)) [
      | inl i ↦
          let step : a + 1 + (q - (buf + 1)) ≡ a + (q - buf) = ground arith in
          let inside : within buf (suc n) q ≡ true = ground arith in rw (ih, i, inside, step)
      | inr o ↦ elim (Bool-cases (buf == q)) [
        | inl e ↦
            let inside : within buf (suc n) q ≡ true = ground arith in
            let none_yet : a + (q - buf) ≡ a = ground arith in rw (ih, o, inside, e, none_yet)
        | inr ne ↦
            let outside : within buf (suc n) q ≡ false = ground arith in rw (ih, o, outside, ne)
      ]
    ]

sector_lem :
    (d cluster n : ℕ)
    → 2 ≤ cluster
    → d + (cluster - 2) * n < 2 ^ 28
    → (d + (cluster + 2 ^ 32 - 2) * n) % 2 ^ 32 % 2 ^ 28 ≡ d + (cluster - 2) * n
sector_lem d cluster n two small =
    let c = cluster - 2 in
    let far : cluster + 2 ^ 32 - 2 ≡ c + 2 ^ 32 = omega arith in rw far (omega (arith, small))

module _ (disk : Mem) (fat16 : Volume) where
  -- fat16_read_cluster of a cluster from 2 on whose sectors have 28-bit numbers puts the bytes of
  -- those sectors into the buffer, and writes nowhere else.
  pub fat16_read_cluster_lem :
      (cluster buf : ℕ) (m : Mem) (q : ℕ)
      → 2 ≤ cluster
      → fat16.data_entry + (cluster - 2) * fat16.sector_per_cluster < 2 ^ 28
      → fat16_read_cluster disk fat16 cluster buf m q ≡ (
          if within buf (fat16.sector_per_cluster * 512) q
          then disk
              ((fat16.data_entry + (cluster - 2) * fat16.sector_per_cluster) * 512 + (q - buf))
          else m q)
  unfolding fat16_read_cluster ide_read_seq
  fat16_read_cluster_lem cluster buf m q two small =
      rw (sector_lem fat16.data_entry cluster fat16.sector_per_cluster two small) (
        transfer_lem disk (fat16.sector_per_cluster * 512)
          ((fat16.data_entry + (cluster - 2) * fat16.sector_per_cluster) * 512) buf m q)

  -- fat16_read_cluster writes nowhere but in the buffer.
  pub fat16_read_cluster_outside :
      (cluster buf : ℕ) (m : Mem) (q : ℕ)
      → within buf (fat16.sector_per_cluster * 512) q ≡ false
      → fat16_read_cluster disk fat16 cluster buf m q ≡ m q
  unfolding fat16_read_cluster ide_read_seq
  fat16_read_cluster_outside cluster buf m q outside =
      transfer_lem disk (fat16.sector_per_cluster * 512)
        (cluster_sector disk fat16 cluster % 2 ^ 28 * 512) buf m q
      ∙ rw outside refl

  -- fat16_next_cluster of a 16-bit cluster, with sectors of 512 bytes, gives the cluster's entry in
  -- the file allocation table on the disk: the two bytes at twice its number.
  pub fat16_next_cluster_lem :
      (fat cluster : ℕ) (m : Mem)
      → fat16.sector_size ≡ 512
      → fat16.fat_entry < 2 ^ 16
      → cluster < 2 ^ 16
      → (fat16_next_cluster disk fat16 fat cluster m).0
        ≡ half disk (fat16.fat_entry * 512 + cluster * 2)
  unfolding fat16_next_cluster ide_read_seq
  fat16_next_cluster_lem fat cluster m size low word =
      let start : ((fat16.fat_entry + cluster / 256) % 2 ^ 28) * 512
          ≡ (fat16.fat_entry + cluster / 256) * 512 =
        omega arith in
      let r = cluster % 256 * 2 in
      let byte : (i : ℕ)
          → i < 2
          → transfer disk (1 * 512) ((fat16.fat_entry + cluster / 256) * 512) fat m (fat + r + i)
            ≡ disk (fat16.fat_entry * 512 + cluster * 2 + i) =
        λ i h.
          let inside : within fat (1 * 512) (fat + r + i) ≡ true = ground arith in
          let place : (fat16.fat_entry + cluster / 256) * 512 + (fat + r + i - fat)
              ≡ fat16.fat_entry * 512 + cluster * 2 + i =
            omega arith in
          transfer_lem disk (1 * 512) ((fat16.fat_entry + cluster / 256) * 512) fat m (fat + r + i)
          ∙ rw (inside, place) refl in
      let none1 : fat + r + 0 ≡ fat + r = omega arith in
      let none2 : fat16.fat_entry * 512 + cluster * 2 + 0 ≡ fat16.fat_entry * 512 + cluster * 2 =
        omega arith in
      let low_byte = rw (none1, none2) at (byte 0 (omega arith)) in
      rw (size, start, low_byte, byte 1 (omega arith)) refl
