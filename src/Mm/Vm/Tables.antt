-- ===== src/Mm/Vm/Tables.antt =====
-- The invariant of the page tables of arch/x86/vm.c: which blocks are tables, how many levels each
-- has and which part of virtual memory it stands for; and how a later state extends an earlier one.
use march_os.Base.{
  ℕ, zero, suc, ◌+◌, ◌-◌, ◌*◌, ◌/◌, ◌%◌, ◌^◌, ◌≤◌, ◌<◌, ◌≡◌, refl, ◌∙◌, true, false, some, ◌==◌,
  within, Bool-cases, inl, inr, arith,
}
use march_os.Mm.Mem.{load64}
use march_os.Mm.Pm.{PmSize, Pm}
use march_os.Mm.Pm.Free.{Free, PageAligned, cover, Rep}
use march_os.Mm.Vm.{user_addr_start}
use march_os.Mm.Vm.Lookup.{span, is_leaf, table_of, find}

-- The levels of the table at an address (0 where there is none), and the number of the stretch of
-- virtual memory that it stands for. No table has fewer than `lowest` levels.
pub record Space : Type 0 where
  pub lowest : ℕ
  pub level : ℕ → ℕ
  pub part : ℕ → ℕ

-- What an entry `n` levels above the lowest may be, if it stands for stretch `page`: absent, a
-- table of `n` levels, or a leaf, which for kernel addresses maps the stretch to itself; it allows
-- writes, and for addresses of processes the accesses of these.
pub record IsEntry (t : Space) (n page e : ℕ) : Type 0 where
  pub word : e < 2 ^ 64
  pub next :
      e % 2 ≡ 1 → is_leaf n e ≡ false → (t.level (table_of e) ≡ n) × (t.part (table_of e) ≡ page)
  pub direct :
      e % 2 ≡ 1
      → is_leaf n e ≡ true
      → page * span n < user_addr_start
      → e - e % span n ≡ page * span n
  pub writable : e % 2 ≡ 1 → e / 2 % 2 ≡ 1
  pub user : e % 2 ≡ 1 → user_addr_start ≤ page * span n → e / 4 % 2 ≡ 1

abbrev pub HasTable : Space → ℕ → ℕ → Type 0
HasTable t b p = (1 ≤ t.level b) × (within b 4096 p ≡ true)

pub record Tables (kernel_end memtotal : ℕ) (t : Space) (s : Pm) (f : Free) : Type 0 where
  pub rep : Rep kernel_end memtotal s f
  pub aligned : (z : PmSize) → PageAligned (f z)
  pub lowest : t.lowest ≤ 2
  pub levels : (b : ℕ) → 1 ≤ t.level b → t.lowest ≤ t.level b
  pub placed : (b : ℕ) → 1 ≤ t.level b → b % 4096 ≡ 0
  pub used : (b p : ℕ) → HasTable t b p → cover f p ≡ 0
  pub entries :
      (b n i : ℕ)
      → t.level b ≡ suc n
      → i < 512
      → IsEntry t n (t.part b * 512 + i) (load64 s.mem (b + 8 * i))

-- Every table and every present entry is still there, new tables were made from free pages, and
-- only free pages and tables were written to.
pub record Extends (t : Space) (s : Pm) (f : Free) (t' : Space) (s' : Pm) (f' : Free) : Type 0 where
  pub kept_lowest : t'.lowest ≡ t.lowest
  pub kept_level : (b : ℕ) → 1 ≤ t.level b → t'.level b ≡ t.level b
  pub kept_part : (b : ℕ) → 1 ≤ t.level b → t'.part b ≡ t.part b
  pub kept_entry :
      (b i : ℕ)
      → 1 ≤ t.level b
      → i < 512
      → load64 s.mem (b + 8 * i) % 2 ≡ 1
      → load64 s'.mem (b + 8 * i) ≡ load64 s.mem (b + 8 * i)
  pub used : (p : ℕ) → cover f p ≡ 0 → cover f' p ≡ 0
  pub made : (b p : ℕ) → HasTable t' b p → cover f p ≡ 0 → 1 ≤ t.level b
  pub frame :
      (p : ℕ)
      → cover f p ≡ 0
      → ((b : ℕ) → 1 ≤ t.level b → within b 4096 p ≡ false)
      → s'.mem p ≡ s.mem p

pub Extends-refl : (t : Space) (s : Pm) (f : Free) → Extends t s f t s f
Extends-refl t s f = record {
  kept_lowest = refl;
  kept_level = λ b h. refl;
  kept_part = λ b h. refl;
  kept_entry = λ b i h small present. refl;
  used = λ p h. h;
  made = λ b p h free. h.0;
  frame = λ p free outside. refl;
}

module _ {t t1 t2 : Space} {s s1 s2 : Pm} {f f1 f2 : Free} (x : Extends t s f t1 s1 f1)
    (y : Extends t1 s1 f1 t2 s2 f2) where
  still : (b : ℕ) → 1 ≤ t.level b → 1 ≤ t1.level b
  still b h = omega (arith, x.kept_level b h)

  outside1 :
      (p : ℕ)
      → cover f p ≡ 0
      → ((b : ℕ) → 1 ≤ t.level b → within b 4096 p ≡ false)
      → (b : ℕ) → 1 ≤ t1.level b
      → within b 4096 p ≡ false
  outside1 p free outside b h = elim (Bool-cases (within b 4096 p)) [
    | inl i ↦ outside b (x.made b p (h, i) free)
    | inr i ↦ i
  ]

  pub Extends-trans : Extends t s f t2 s2 f2
  Extends-trans = record {
    kept_lowest = y.kept_lowest ∙ x.kept_lowest;
    kept_level = λ b h. y.kept_level b (still b h) ∙ x.kept_level b h;
    kept_part = λ b h. y.kept_part b (still b h) ∙ x.kept_part b h;
    kept_entry = λ b i h small present.
        let first = x.kept_entry b i h small present in
        y.kept_entry b i (still b h) small (rw first present) ∙ first;
    used = λ p h. y.used p (x.used p h);
    made = λ b p h free. x.made b p (y.made b p h (x.used p free), h.1) free;
    frame = λ p free outside.
        y.frame p (x.used p free) (outside1 p free outside) ∙ x.frame p free outside;
  }

module _ {kernel_end memtotal : ℕ} {t t' : Space} {s s' : Pm} {f f' : Free}
    (tables : Tables kernel_end memtotal t s f) (x : Extends t s f t' s' f') where
  -- What was mapped stays mapped, by the same entry with the same contents.
  pub find-kept :
      (n b va : ℕ) (r : ℕ × ℕ)
      → t.level b ≡ n
      → find s.mem n b va ≡ some r
      → (find s'.mem n b va ≡ some r) × (load64 s'.mem r.1 ≡ load64 s.mem r.1)
  unfolding find
  find-kept zero b va r l found = let nothing = found in (cc, cc)
  find-kept (suc n) b va r l found =
      let i = va / span n % 512 in
      let e = load64 s.mem (b + 8 * i) in
      elim (Bool-cases (e % 2 == 0)) [
        | inl absent ↦ let nothing = rw absent at found in (cc, cc)
        | inr present ↦
            let same : load64 s'.mem (b + 8 * i) ≡ e =
              x.kept_entry b i (omega arith) (omega arith) (ground arith) in
            elim (Bool-cases (is_leaf n e)) [
              | inl leaf ↦
                  let here : some (n, b + 8 * i) ≡ some r = rw (present, leaf) at found in
                  let slot : b + 8 * i ≡ r.1 = cc in
                  rw (same, present, leaf) (here, rw slot at same)
              | inr more ↦
                  rw (same, present, more)
                    (find-kept n (table_of e) va r
                      ((tables.entries b n i l (omega arith)).next (ground arith) more).0
                      (rw (present, more) at found))
            ]
      ]
