-- ===== src/Fat16/Read/Chunk.antt =====
-- One cluster of a file, as the loop of fat16_readi copies it.
use native.Mathlib.Nat.{mul-le-mul_right}
use march_os.Base.{
  ℕ, ◌+◌, ◌-◌, ◌*◌, ◌/◌, ◌%◌, ◌^◌, ◌≤◌, ◌<◌, ◌≡◌, ◌⊎◌, refl, ap, ◌∙◌, true, false, ◌&&◌, Bool-cases,
  inl, inr, ◌==◌, if◌then◌else◌, within, arith,
}
use march_os.Mm.Mem.{Mem}
use march_os.CString.{memcpy}
use march_os.CString.Laws.{memcpy_lem}
use march_os.Inode.{Inode}
use march_os.Fat16.{Volume, fat16_read_cluster}
use march_os.Fat16.Transfer.{fat16_read_cluster_lem}

-- A read within a file whose clusters follow each other on the disk. It ends before cluster `last`
-- of the file does, and the buffer and the destination are apart.
pub record Readable (fat16 : Volume) (ino : Inode) (dst buf offset size : ℕ) : Type 0 where
  pub number : (2 ≤ ino.id) × (ino.id + (offset + size) / fat16.cluster_size < 2 ^ 16)
  pub inside : offset + size ≤ ino.size
  pub clusters :
      (fat16.cluster_size ≡ fat16.sector_per_cluster * 512)
      × (0 < fat16.cluster_size)
      × (fat16.cluster_size < 2 ^ 16)
  pub word : offset + size < 2 ^ 64
  pub sectors : fat16.data_entry + (2 ^ 16 * fat16.sector_per_cluster) < 2 ^ 28
  pub apart : (dst + size ≤ buf) ⊎ (buf + fat16.cluster_size ≤ dst)

place :
    (d id i n cs skip t : ℕ)
    → 2 ≤ id
    → cs ≡ n * 512
    → (d + (id + i - 2) * n) * 512 + (skip + t) ≡ (d + (id - 2) * n) * 512 + i * cs + skip + t
place d id i n cs skip t two bytes =
    let e = id - 2 in
    let later : id + i - 2 ≡ e + i = omega arith in rw (later, bytes) (omega arith)

module _ (disk : Mem) (fat16 : Volume) (ino : Inode) where
  -- Where the file begins on the disk.
  abbrev pub start : ℕ
  start = (fat16.data_entry + (ino.id - 2) * fat16.sector_per_cluster) * 512

  module _ (buf : ℕ) (two : 2 ≤ ino.id)
      (bytes : fat16.cluster_size ≡ fat16.sector_per_cluster * 512)
      (sectors : fat16.data_entry + (2 ^ 16 * fat16.sector_per_cluster) < 2 ^ 28) where
    -- Cluster `i` of the file, copied in part.
    pub chunk :
        (i skip d len : ℕ) (m : Mem) (q : ℕ)
        → ino.id + i < 2 ^ 16
        → skip + len ≤ fat16.cluster_size
        → (d + len ≤ buf) ⊎ (buf + fat16.cluster_size ≤ d)
        → within buf fat16.cluster_size q ≡ false
        → memcpy
            (fat16_read_cluster disk fat16 ((ino.id % 2 ^ 16 + i) % 2 ^ 16) buf m)
            d
            (buf + skip)
            len
            q
          ≡ (if within d len q then disk (start + i * fat16.cluster_size + skip + (q - d)) else m q)
    chunk i skip d len m q number room off out =
        let cluster : (ino.id % 2 ^ 16 + i) % 2 ^ 16 ≡ ino.id + i = omega arith in
        let low =
          mul-le-mul_right {m = ino.id + i - 2} {n = 2 ^ 16} fat16.sector_per_cluster
            (omega arith) in
        let src = buf + skip + (q - d) in
        let copied =
          memcpy_lem (fat16_read_cluster disk fat16 (ino.id + i) buf m) d (buf + skip) len q
            (omega (arith, off)) in
        let read = λ (p : ℕ).
          fat16_read_cluster_lem disk fat16 (ino.id + i) buf m p (omega arith)
            (omega (arith, low, sectors)) in
        rw cluster (
          copied ∙ elim (Bool-cases (within d len q)) [
            | inl e ↦
                let inside : within buf (fat16.sector_per_cluster * 512) src ≡ true =
                  ground (arith, bytes) in
                let at : src - buf ≡ skip + (q - d) = omega arith in
                rw e (
                  read src
                  ∙ rw (inside, at)
                      (ap disk (
                        place fat16.data_entry ino.id i fat16.sector_per_cluster fat16.cluster_size
                          skip (q - d) two bytes)))
            | inr e ↦
                let outside : within buf (fat16.sector_per_cluster * 512) q ≡ false =
                  rw bytes at out in
                rw e (read q ∙ rw outside refl)
          ])

pub joined :
    (d a b q x y : ℕ)
    → (if within (d + a) b q then x else (if within d a q then x else y))
      ≡ (if within d (b + a) q then x else y)
joined d a b q x y = ground arith

-- The copies of a round when the read begins where a cluster does.
pub copies :
    (m : Mem) (dst buf co ce rem er size cs i : ℕ)
    → rem ≡ 0
    → (co ≡ ce → size ≡ er)
    → (if i == co && i == ce
        then memcpy m dst (buf + rem) size
        else (if i == co
            then memcpy m dst (buf + rem) (cs - rem)
            else (if i == ce
                then memcpy m (dst + (i - co) * cs) buf er
                else memcpy m (dst + (i - co) * cs) buf cs)))
      ≡ memcpy m (dst + (i - co) * cs) (buf + 0) (if i == ce then er else cs)
copies m dst buf co ce rem er size cs i none_left one =
    let same : buf + 0 ≡ buf = omega arith in
    elim (Bool-cases (i == co)) [
      | inl a ↦
          let here : i ≡ co = ground arith in
          let at : dst + (i - co) * cs ≡ dst =
            let z : i - co ≡ 0 = omega arith in rw z (omega arith) in
          elim (Bool-cases (i == ce)) [
            | inl b ↦
                let last : size ≡ er = one (ground arith) in rw (a, b, none_left, at, last) refl
            | inr b ↦ let full : cs - 0 ≡ cs = omega arith in rw (a, b, none_left, at, full) refl
          ]
      | inr a ↦ elim (Bool-cases (i == ce)) [
        | inl b ↦ rw (a, b, same) refl
        | inr b ↦ rw (a, b, same) refl
      ]
    ]
