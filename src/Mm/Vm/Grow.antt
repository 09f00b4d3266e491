-- ===== src/Mm/Vm/Grow.antt =====
-- The two writes that walk_pgdir of arch/x86/vm.c makes keep the invariant of the page tables: a
-- page is allocated, and an absent entry is filled.
use march_os.Base.{
  ℕ, suc, ◌+◌, ◌*◌, ◌%◌, ◌≤◌, ◌<◌, ◌≡◌, ◌⊎◌, refl, sym, false, ◌==◌, within, Bool-cases, inl, inr,
  arith,
}
use march_os.Mm.Mem.{update, load64, load64_ext, store64, store64_outside, load64-store64_self}
use march_os.Mm.Pm.{pm_4k, bytes, Pm}
use march_os.Mm.Pm.Free.{Free, cover, hits-le-cover, bytes_bound, FreeList_frame}
use march_os.Mm.Pm.Taken.{Allocated}
use march_os.Mm.Vm.Lookup.{table_of}
use march_os.Mm.Vm.Tables.{Space, IsEntry, HasTable, Tables, Extends}

-- The page at `a` becomes a table with `n` levels (none for 0) for stretch `v`.
abbrev pub with_table : Space → ℕ → ℕ → ℕ → Space
with_table t a n v = record {
  lowest = t.lowest;
  level = update t.level a n;
  part = update t.part a v;
}

IsEntry-with_table :
    (t : Space) (a n v m page e : ℕ)
    → t.level a ≡ 0
    → IsEntry t m page e
    → IsEntry (with_table t a n v) m page e
IsEntry-with_table t a n v m page e new entry = record {
  word = entry.word;
  next = λ present more.
      let old = entry.next present more in
      let other : (a == table_of e) ≡ false = elim (Bool-cases (a == table_of e)) [
        | inl same ↦ let zero_level : m ≡ 0 = ground (arith, old.0, new) in absurd (cc)
        | inr differ ↦ differ
      ] in
      rw other old;
  direct = entry.direct;
  writable = entry.writable;
  user = entry.user;
}

module _ {kernel_end memtotal : ℕ} {t : Space} {s : Pm} {f : Free}
    (tables : Tables kernel_end memtotal t s f) where
  module _ (a : ℕ) (s1 : Pm) (al : Allocated kernel_end memtotal pm_4k s f a s1) where
    pub not_table : (b : ℕ) → 1 ≤ t.level b → (a == b) ≡ false
    not_table b h = elim (Bool-cases (a == b)) [
      | inl same ↦
          let free : cover f a ≡ 0 = tables.used b a (h, ground arith) in
          absurd (ground (arith, al.covers a))
      | inr differ ↦ differ
    ]

    level_none : t.level a ≡ 0
    level_none = elim (Bool-cases (t.level a == 0)) [
      | inl e ↦ ground arith
      | inr e ↦ absurd (ground (arith, not_table a))
    ]

    same_word :
        (b i : ℕ) → 1 ≤ t.level b → i < 512 → load64 s1.mem (b + 8 * i) ≡ load64 s.mem (b + 8 * i)
    same_word b i h small =
        load64_ext s.mem s1.mem (b + 8 * i)
          λ q inside. al.frame q (tables.used b q (h, ground arith))

    zero_word : (i : ℕ) → i < 512 → load64 s1.mem (a + 8 * i) ≡ 0
    unfolding load64
    zero_word i small =
        load64_ext (λ p. 0) s1.mem (a + 8 * i) λ q inside. al.zeroed q (ground arith)

    module _ (n v : ℕ) (high : (n ≡ 0) ⊎ (t.lowest ≤ n)) where
      entries1 :
          (b m i : ℕ)
          → update t.level a n b ≡ suc m
          → i < 512
          → IsEntry
              (with_table t a n v)
              m
              (update t.part a v b * 512 + i)
              (load64 s1.mem (b + 8 * i))
      entries1 b m i l small = elim (Bool-cases (a == b)) [
        | inl same ↦
            let here : load64 s1.mem (b + 8 * i) ≡ 0 =
              let e : a ≡ b = ground arith in rw (sym e) (zero_word i small) in
            rw here record {
              word = omega arith;
              next = λ present more. absurd (omega arith);
              direct = λ present leaf low. absurd (omega arith);
              writable = λ present. absurd (omega arith);
              user = λ present high. absurd (omega arith);
            }
        | inr differ ↦
            let l' : t.level b ≡ suc m = rw differ at l in
            rw (differ, same_word b i (omega arith) small)
              (IsEntry-with_table t a n v m _ _ level_none (tables.entries b m i l' small))
      ]

      used1 : (b p : ℕ) → HasTable (with_table t a n v) b p → cover al.left p ≡ 0
      used1 b p (l, i) = elim (Bool-cases (a == b)) [
        | inl same ↦ ground (arith, al.covers p, tables_once p)
        | inr differ ↦ omega (arith, al.covers p, tables.used b p (rw differ at l, i))
      ]
        where
          tables_once : (p : ℕ) → cover f p ≤ 1
          tables_once p = tables.rep.once p

      pub alloc-Tables : Tables kernel_end memtotal (with_table t a n v) s1 al.left
      alloc-Tables = record {
        rep = al.rep;
        aligned = (al.aligned tables.aligned).1;
        lowest = tables.lowest;
        levels = λ b l. elim (Bool-cases (a == b)) [
          | inl same ↦ rw same (elim high [ inl zero_n ↦ absurd (ground arith) | inr le ↦ le ])
          | inr differ ↦ rw differ (tables.levels b (rw differ at l))
        ];
        placed = λ b l. elim (Bool-cases (a == b)) [
          | inl same ↦ ground (arith, (al.aligned tables.aligned).0)
          | inr differ ↦ tables.placed b (rw differ at l)
        ];
        used = used1;
        entries = entries1;
      }

      pub alloc-Extends : Extends t s f (with_table t a n v) s1 al.left
      alloc-Extends = record {
        kept_lowest = refl;
        kept_level = λ b l. rw (not_table b l);
        kept_part = λ b l. rw (not_table b l);
        kept_entry = λ b i l small present. same_word b i l small;
        used = λ p free. omega (arith, al.covers p);
        made = λ b p (l, i) free. elim (Bool-cases (a == b)) [
          | inl same ↦ absurd (ground (arith, al.covers p))
          | inr differ ↦ rw differ at l
        ];
        frame = λ p free outside. al.frame p free;
      }

  module _ (b n i e : ℕ) (l : t.level b ≡ suc n) (small : i < 512)
      (absent : load64 s.mem (b + 8 * i) % 2 ≡ 0) (entry : IsEntry t n (t.part b * 512 + i) e) where
    abbrev pub filled : Pm
    filled = record s { mem = store64 s.mem (b + 8 * i) e }

    outside : (q : ℕ) → within b 4096 q ≡ false → filled.mem q ≡ s.mem q
    outside q away = store64_outside s.mem (b + 8 * i) e q (ground arith)

    kept :
        (b' j : ℕ)
        → 1 ≤ t.level b'
        → j < 512
        → (b + 8 * i == b' + 8 * j) ≡ false
        → load64 filled.mem (b' + 8 * j) ≡ load64 s.mem (b' + 8 * j)
    kept b' j h small' differ =
        let here = tables.placed b (omega arith) in
        let there = tables.placed b' h in
        load64_ext s.mem filled.mem (b' + 8 * j)
          λ q inside. store64_outside s.mem (b + 8 * i) e q (ground arith)

    used_outside : (p : ℕ) → 1 ≤ cover f p → within b 4096 p ≡ false
    used_outside p free = elim (Bool-cases (within b 4096 p)) [
      | inl i ↦ absurd (omega (arith, tables.used b p (omega arith, i)))
      | inr i ↦ i
    ]

    fill-entries :
        (b' m j : ℕ)
        → t.level b' ≡ suc m
        → j < 512
        → IsEntry t m (t.part b' * 512 + j) (load64 filled.mem (b' + 8 * j))
    fill-entries b' m j l' small' = elim (Bool-cases (b + 8 * i == b' + 8 * j)) [
      | inl same ↦
          let here = tables.placed b (omega arith) in
          let there = tables.placed b' (omega arith) in
          let slots : b + 8 * i ≡ b' + 8 * j = ground arith in
          let e1 : b ≡ b' = omega arith in
          let e2 : i ≡ j = omega arith in
          let l'' : t.level b' ≡ suc n = rw e1 at l in
          let e3 : n ≡ m = omega arith in
          rw (sym e1, sym e2, sym e3, load64-store64_self s.mem (b + 8 * i) e entry.word) entry
      | inr differ ↦ rw (kept b' j (omega arith) small' differ) (tables.entries b' m j l' small')
    ]

    pub fill-Tables : Tables kernel_end memtotal t filled f
    fill-Tables = record {
      rep = record {
        lists = λ z.
            FreeList_frame (bytes z) (f z) s.mem _ _ (omega (arith, bytes_bound z))
              (tables.rep.lists z)
              (λ q hit. outside q (used_outside q (omega (arith, hits-le-cover f z q))));
        once = tables.rep.once;
        lower = tables.rep.lower;
        upper = tables.rep.upper;
      };
      aligned = tables.aligned;
      lowest = tables.lowest;
      levels = tables.levels;
      placed = tables.placed;
      used = tables.used;
      entries = fill-entries;
    }

    pub fill-Extends : Extends t s f t filled f
    fill-Extends = record {
      kept_lowest = refl;
      kept_level = λ b' h. refl;
      kept_part = λ b' h. refl;
      kept_entry = λ b' j h small' present. elim (Bool-cases (b + 8 * i == b' + 8 * j)) [
        | inl same ↦
            let slots : b + 8 * i ≡ b' + 8 * j = ground arith in
            absurd (omega (arith, rw slots at absent))
        | inr differ ↦ kept b' j h small' differ
      ];
      used = λ p free. free;
      made = λ b' p h free. h.0;
      frame = λ p free away. outside p (away b (omega arith));
    }
