-- ===== src/Fat16/Read/Contents.antt =====
-- What fat16_readi puts at its destination.
use native.Mathlib.Nat.{mul-le-mul_right, mod-add-div', mod-lt, le-div_iff_mul-le}
use march_os.Base.{
  ℕ, zero, suc, ◌+◌, ◌-◌, ◌*◌, ◌/◌, ◌%◌, ◌^◌, ◌≤◌, ◌<◌, ◌≡◌, ◌⊎◌, refl, sym, ap, ◌∙◌, true, false,
  ◌&&◌, Bool-cases, inl, inr, ltb, ◌==◌, if◌then◌else◌, within, some, ok, arith,
}
use march_os.Mm.Mem.{Mem}
use march_os.CString.{memcpy}
use march_os.Inode.{Inode}
use march_os.Fat16.{Volume, fat16_read_cluster}
use march_os.Fat16.Read.{
  copy_cluster, read_clusters, fat16_readi, cluster_offset, cluster_offset_remain,
  cluster_offset_end, cluster_offset_end_remain,
}
use march_os.Fat16.Read.Chunk.{Readable, start, chunk, joined, copies}

module _ (disk : Mem) (fat16 : Volume) (ino : Inode) (dst buf offset size : ℕ)
    (r : Readable fat16 ino dst buf offset size) where
  abbrev pub cs : ℕ
  cs = fat16.cluster_size

  pub bounds :
      (offset / cs ≤ (offset + size) / cs)
      × ((offset + size) / cs < 2 ^ 16)
      × (offset % cs < cs)
      × ((offset + size) % cs < cs)
  bounds = (
    (le-div_iff_mul-le {k = cs} {x = offset / cs} {y = offset + size} r.clusters.1).1
        (omega (arith, mod-add-div' offset cs)),
    omega (arith, r.number.1),
    mod-lt offset {m = cs} r.clusters.1,
    mod-lt (offset + size) {m = cs} r.clusters.1,
  )

  co : cluster_offset fat16 offset size ≡ offset / cs
  co = omega (arith, bounds.0, bounds.1)

  rem : cluster_offset_remain fat16 offset size ≡ offset % cs
  rem = omega (arith, bounds.2, r.clusters.2)

  whole : (offset + size) % 2 ^ 64 ≡ offset + size
  whole = omega (arith, r.word)

  ce : cluster_offset_end fat16 offset size ≡ (offset + size) / cs
  ce = rw whole (omega (arith, bounds.1))

  er : cluster_offset_end_remain fat16 offset size ≡ (offset + size) % cs
  er = rw whole (omega (arith, bounds.3, r.clusters.2))

  abbrev pub Outside : ℕ → Type 0
  Outside q = within buf cs q ≡ false

  abbrev pub read : ℕ → Mem → Mem
  read i m = fat16_read_cluster disk fat16 ((ino.id % 2 ^ 16 + i) % 2 ^ 16) buf m

  pub counted :
      (i : ℕ) (m : Mem)
      → copy_cluster disk fat16 ino dst buf offset size i m ≡ (
          if i == offset / cs && i == (offset + size) / cs
          then memcpy m dst (buf + offset % cs) size
          else (if i == offset / cs
              then memcpy m dst (buf + offset % cs) (cs - offset % cs)
              else (if i == (offset + size) / cs
                  then memcpy m (dst + (i - offset / cs) * cs) buf ((offset + size) % cs)
                  else memcpy m (dst + (i - offset / cs) * cs) buf cs)))
  unfolding copy_cluster
  counted i m = rw (copy_cluster, co, rem, ce, er)

  module _ (aligned : offset % cs ≡ 0) where
    begins : offset ≡ offset / cs * cs
    begins = omega (arith, mod-add-div' offset cs, aligned)

    ends : offset + size ≡ (offset + size) / cs * cs + (offset + size) % cs
    ends = omega (arith, mod-add-div' (offset + size) cs)

    one_cluster : offset / cs ≡ (offset + size) / cs → size ≡ (offset + size) % cs
    one_cluster e =
        let same : offset / cs * cs ≡ (offset + size) / cs * cs = ap (λ (t : ℕ). t * cs) e in
        omega (arith, begins, ends, same)

    -- A round that has `n` clusters to go after it.
    round :
        (n i len : ℕ) (m : Mem) (q : ℕ)
        → offset / cs ≤ i
        → i + n ≡ (offset + size) / cs
        → len ≡ (if n == 0 then (offset + size) % cs else cs)
        → Outside q
        → copy_cluster disk fat16 ino dst buf offset size i (read i m) q ≡ (
            if within (dst + (i - offset / cs) * cs) len q
            then disk (start disk fat16 ino + offset + (q - dst))
            else m q)
    unfolding copy_cluster
    round n i len m q low last is o =
        let k = i - offset / cs in
        let total : i * cs ≡ offset / cs * cs + k * cs =
          let e : i ≡ offset / cs + k = omega arith in ap (λ (t : ℕ). t * cs) e ∙ omega arith in
        let rest : (offset + size) / cs * cs ≡ i * cs + n * cs =
          ap (λ (t : ℕ). t * cs) (sym last) ∙ omega arith in
        let d = dst + k * cs in
        let is_last : (i == (offset + size) / cs) ≡ (n == 0) = ground arith in
        let fits : k * cs + len ≤ size = elim (Bool-cases (n == 0)) [
          | inl z ↦
              let none_left : n * cs ≡ 0 = let e : n ≡ 0 = ground arith in rw e (omega arith) in
              let this : len ≡ (offset + size) % cs = is ∙ rw z refl in
              omega (arith, begins, ends, total, rest, none_left, this)
          | inr z ↦
              let more : cs ≤ n * cs =
                omega (arith, mul-le-mul_right {m = 1} {n = n} cs (ground arith)) in
              let this : len ≡ cs = is ∙ rw z refl in
              omega (arith, begins, ends, total, rest, more, this)
        ] in
        let within_cluster : 0 + len ≤ cs = elim (Bool-cases (n == 0)) [
          | inl z ↦
              let this : len ≡ (offset + size) % cs = is ∙ rw z refl in omega (arith, bounds.3)
          | inr z ↦ let this : len ≡ cs = is ∙ rw z refl in omega arith
        ] in
        let off : (d + len ≤ buf) ⊎ (buf + cs ≤ d) = omega (arith, r.apart, fits) in
        let copied =
          copies (read i m) dst buf (offset / cs) ((offset + size) / cs) (offset % cs)
            ((offset + size) % cs) size cs i aligned one_cluster in
        let moved =
          chunk disk fat16 ino buf r.number.0 r.clusters.0 r.sectors i 0 d len m q
            (omega (arith, r.number.1)) within_cluster off o in
        let length_now : (if i == (offset + size) / cs then (offset + size) % cs else cs) ≡ len =
          rw is_last (sym is) in
        let sized = rw length_now at copied in
        ap (λ (f : Mem). f q) (counted i (read i m) ∙ sized)
        ∙ moved
        ∙ elim (Bool-cases (within d len q)) [
          | inl e ↦
              let at : start disk fat16 ino + i * cs + 0 + (q - d)
                  ≡ start disk fat16 ino + offset + (q - dst) =
                let above : d ≤ q = ground arith in omega (arith, total, begins) in
              rw (e, at)
          | inr e ↦ rw e
        ]

    rounds :
        (n i : ℕ) (m : Mem) (q : ℕ)
        → offset / cs ≤ i
        → i + n ≡ (offset + size) / cs
        → Outside q
        → read_clusters disk fat16 ino dst buf offset size (suc n) i m q ≡ (
            if within (dst + (i - offset / cs) * cs) (n * cs + (offset + size) % cs) q
            then disk (start disk fat16 ino + offset + (q - dst))
            else m q)
    unfolding read_clusters
    rounds zero i m q low last o =
        let none_left : 0 * cs + (offset + size) % cs ≡ (offset + size) % cs = omega arith in
        rw none_left (round 0 i ((offset + size) % cs) m q low last refl o)
    rounds (suc n) i m q low last o =
        let more : (suc n == 0) ≡ false = ground arith in
        let first = round (suc n) i cs m q low last (rw more refl) o in
        let later =
          rounds n (i + 1) (copy_cluster disk fat16 ino dst buf offset size i (read i m)) q
            (omega arith) (omega arith) o in
        let k = i - offset / cs in
        let next : dst + (i + 1 - offset / cs) * cs ≡ dst + k * cs + cs =
          let e : i + 1 - offset / cs ≡ k + 1 = omega arith in rw e (omega arith) in
        let total : suc n * cs + (offset + size) % cs ≡ n * cs + (offset + size) % cs + cs =
          omega arith in
        let after = rw (next, first) at later in
        after
        ∙ rw total (
            joined (dst + k * cs) cs (n * cs + (offset + size) % cs) q
              (disk (start disk fat16 ino + offset + (q - dst))) (m q))

    aligned_lem :
        (m : Mem) (q : ℕ)
        → Outside q
        → read_clusters disk fat16 ino dst buf offset size
            ((offset + size) / cs + 1 - offset / cs)
            (offset / cs)
            m
            q
          ≡ (if within dst size q then disk (start disk fat16 ino + offset + (q - dst)) else m q)
    aligned_lem m q o =
        let n = (offset + size) / cs - offset / cs in
        let count : (offset + size) / cs + 1 - offset / cs ≡ suc n = omega (arith, bounds.0) in
        let from : dst + (offset / cs - offset / cs) * cs ≡ dst =
          let z : offset / cs - offset / cs ≡ 0 = omega arith in rw z (omega arith) in
        let parts : (offset + size) / cs * cs ≡ n * cs + offset / cs * cs =
          let e : (offset + size) / cs ≡ n + offset / cs = omega (arith, bounds.0) in
          ap (λ (t : ℕ). t * cs) e ∙ omega arith in
        let all : n * cs + (offset + size) % cs ≡ size = omega (arith, parts, begins, ends) in
        rw count
          (rw (from, all) at (rounds n (offset / cs) m q (omega arith) (omega (arith, bounds.0)) o))

  -- A read within one cluster.
  single :
      (m : Mem) (q : ℕ)
      → offset / cs ≡ (offset + size) / cs
      → Outside q
      → read_clusters disk fat16 ino dst buf offset size
          ((offset + size) / cs + 1 - offset / cs)
          (offset / cs)
          m
          q
        ≡ (if within dst size q then disk (start disk fat16 ino + offset + (q - dst)) else m q)
  unfolding read_clusters
  single m q one o =
      let i = offset / cs in
      let count : (offset + size) / cs + 1 - i ≡ 1 = omega (arith, one) in
      let first : (i == i) ≡ true = ground arith in
      let last : (i == (offset + size) / cs) ≡ true = ground arith in
      let same : i * cs ≡ (offset + size) / cs * cs = ap (λ (t : ℕ). t * cs) one in
      let fit : offset % cs + size ≤ cs =
        omega (arith, same, mod-add-div' offset cs, mod-add-div' (offset + size) cs, bounds.3) in
      let at : start disk fat16 ino + i * cs + offset % cs + (q - dst)
          ≡ start disk fat16 ino + offset + (q - dst) =
        omega (arith, mod-add-div' offset cs) in
      let copied = rw (first, last) at (counted i (read i m)) in
      let moved =
        chunk disk fat16 ino buf r.number.0 r.clusters.0 r.sectors i (offset % cs) dst size m q
          (omega (arith, r.number.1, bounds.0)) fit r.apart o in
      rw (count, read_clusters) (ap (λ (f : Mem). f q) copied ∙ rw at at moved)

  pub fat16_readi-ok :
      (m : Mem)
      → fat16_readi disk fat16 ino dst buf offset size m
        ≡ ok (
            some (
              read_clusters disk fat16 ino dst buf offset size
                ((offset + size) / cs + 1 - offset / cs)
                (offset / cs)
                m))
  unfolding fat16_readi
  fat16_readi-ok m =
      let number : ltb 0xFFFF ino.id ≡ false = ground (arith, r.number.1) in
      let inside : ltb ino.size (offset + size) ≡ false = ground (arith, r.inside) in
      let some_size : (cs == 0) ≡ false = ground (arith, r.clusters.1) in
      rw (fat16_readi, ce, co, number, whole, inside, some_size) refl

  -- fat16_readi of a part of a file whose clusters follow each other on the disk returns if the part
  -- begins where a cluster does or lies within one, and the destination then holds the bytes of the
  -- file from the offset on; outside it and the buffer nothing has changed.
  pub fat16_readi_lem :
      (m : Mem)
      → (offset % cs ≡ 0) ⊎ (offset / cs ≡ (offset + size) / cs)
      → (m' : Mem) × (fat16_readi disk fat16 ino dst buf offset size m ≡ ok (some m'))
        × ((q : ℕ)
            → within buf cs q ≡ false
            → m' q ≡ (
                if within dst size q
                then disk (start disk fat16 ino + offset + (q - dst))
                else m q))
  fat16_readi_lem m easy = (
    read_clusters disk fat16 ino dst buf offset size ((offset + size) / cs + 1 - offset / cs)
        (offset / cs) m,
    fat16_readi-ok m,
    λ q o. elim easy [ inl aligned ↦ aligned_lem aligned m q o | inr one ↦ single m q one o ],
  )
