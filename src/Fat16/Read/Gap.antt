-- ===== src/Fat16/Read/Gap.antt =====
-- What fat16_readi leaves out when a read over several clusters begins inside one.
use march_os.Base.{
  ℕ, zero, suc, ◌+◌, ◌-◌, ◌*◌, ◌/◌, ◌%◌, ◌^◌, ◌≤◌, ◌<◌, ◌≡◌, refl, ap, ◌∙◌, true, false, Bool-cases,
  inl, inr, ◌==◌, within, some, ok, arith,
}
use march_os.Mm.Mem.{Mem}
use march_os.CString.Laws.{memcpy_outside}
use march_os.Inode.{Inode}
use march_os.Fat16.{Volume}
use march_os.Fat16.Transfer.{fat16_read_cluster_outside}
use march_os.Fat16.Read.{copy_cluster, read_clusters, fat16_readi}
use march_os.Fat16.Read.Chunk.{Readable}
use march_os.Fat16.Read.Contents.{read, counted, fat16_readi-ok}

module _ (disk : Mem) (fat16 : Volume) (ino : Inode) (dst buf offset size : ℕ)
    (r : Readable fat16 ino dst buf offset size) where
  abbrev width : ℕ
  width = fat16.cluster_size

  abbrev loaded : ℕ → Mem → Mem
  loaded = read disk fat16 ino dst buf offset size r

  loaded_outside : (i : ℕ) (m : Mem) (q : ℕ) → within buf width q ≡ false → loaded i m q ≡ m q
  loaded_outside i m q o =
      fat16_read_cluster_outside disk fat16 ((ino.id % 2 ^ 16 + i) % 2 ^ 16) buf m q
        (rw r.clusters.0 at o)

  -- A round behind the first writes no byte before its cluster's place.
  before :
      (i : ℕ) (m : Mem) (q : ℕ)
      → offset / width < i
      → q < dst + (i - offset / width) * width
      → copy_cluster disk fat16 ino dst buf offset size i m q ≡ m q
  before i m q later h =
      let d = dst + (i - offset / width) * width in
      let other : (i == offset / width) ≡ false = ground arith in
      let steps = rw other at (counted disk fat16 ino dst buf offset size r i m) in
      elim (Bool-cases (i == (offset + size) / width)) [
        | inl e ↦
            let steps' = rw e at steps in
            ap (λ (f : Mem). f q) steps'
            ∙ memcpy_outside m d buf ((offset + size) % width) q (ground arith)
        | inr e ↦
            let steps' = rw e at steps in
            ap (λ (f : Mem). f q) steps' ∙ memcpy_outside m d buf width q (ground arith)
      ]

  rounds_before :
      (n i : ℕ) (m : Mem) (q : ℕ)
      → offset / width < i
      → q < dst + (i - offset / width) * width
      → within buf width q ≡ false
      → read_clusters disk fat16 ino dst buf offset size n i m q ≡ m q
  unfolding read_clusters
  rounds_before zero i m q later h o = refl
  rounds_before (suc n) i m q later h o =
      let more : (i + 1 - offset / width) * width ≡ (i - offset / width) * width + width =
        let e : i + 1 - offset / width ≡ i - offset / width + 1 = omega arith in
        rw e (omega arith) in
      rounds_before n (i + 1) (copy_cluster disk fat16 ino dst buf offset size i (loaded i m)) q
        (omega arith) (omega (arith, more)) o
      ∙ before i (loaded i m) q later h
      ∙ loaded_outside i m q o

  first_round :
      (m : Mem) (q : ℕ)
      → offset / width < (offset + size) / width
      → dst + (width - offset % width) ≤ q
      → copy_cluster disk fat16 ino dst buf offset size (offset / width) m q ≡ m q
  first_round m q many h =
      let here : (offset / width == offset / width) ≡ true = ground arith in
      let not_last : (offset / width == (offset + size) / width) ≡ false = ground arith in
      let steps =
        rw (here, not_last) at (counted disk fat16 ino dst buf offset size r (offset / width) m) in
      ap (λ (f : Mem). f q) steps
      ∙ memcpy_outside m dst (buf + offset % width) (width - offset % width) q (ground arith)

  steps :
      (n i : ℕ) (m : Mem) (q : ℕ)
      → read_clusters disk fat16 ino dst buf offset size (suc n) i m q
        ≡ read_clusters disk fat16 ino dst buf offset size n
            (i + 1)
            (copy_cluster disk fat16 ino dst buf offset size i (loaded i m))
            q
  unfolding read_clusters
  steps n i m q = refl

  -- When fat16_readi reads over the end of a cluster from an offset inside it, the bytes of the
  -- destination behind the part of the first cluster, as many as the offset lies inside, keep what
  -- they were.
  pub fat16_readi_gap :
      (m : Mem) (q : ℕ)
      → offset / width < (offset + size) / width
      → dst + (width - offset % width) ≤ q
      → q < dst + width
      → within buf width q ≡ false
      → (m' : Mem) × (fat16_readi disk fat16 ino dst buf offset size m ≡ ok (some m'))
        × (m' q ≡ m q)
  fat16_readi_gap m q many low high o =
      let n = (offset + size) / width - offset / width in
      let i = offset / width in
      let one : (i + 1 - i) * width ≡ width =
        let e : i + 1 - i ≡ 1 = omega arith in rw e (omega arith) in
      let count : (offset + size) / width + 1 - i ≡ suc n = omega (arith, many) in
      (
        read_clusters disk fat16 ino dst buf offset size ((offset + size) / width + 1 - i) i m,
        fat16_readi-ok disk fat16 ino dst buf offset size r m,
        rw count (steps n i m q)
            ∙ rounds_before n (i + 1)
                (copy_cluster disk fat16 ino dst buf offset size i (loaded i m)) q (omega arith)
                (omega (arith, one)) o
            ∙ first_round (loaded i m) q many low
            ∙ loaded_outside i m q o,
      )
