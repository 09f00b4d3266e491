-- ===== src/Mm/Vm/Values.antt =====
-- The values that walk_pgdir of arch/x86/vm.c puts into an absent entry: a new page, or the address
-- itself for the kernel's part of memory.
use march_os.Base.{
  ℕ, ◌+◌, ◌-◌, ◌*◌, ◌/◌, ◌%◌, ◌^◌, ◌≤◌, ◌<◌, ◌≡◌, ◌⊎◌, refl, ◌∙◌, sym, Bool, true, false, ltb, ◌==◌,
  Bool-cases, inl, inr, Outcome, Returns, bit_and, bit_or, arith,
}
use march_os.Base.Bits.{bit_or-disjoint}
use march_os.Base.Bits.Masks.{bit_and-high_mask, bit_and-low, bit_or-low}
use march_os.Mm.Pm.{pm_4k, Pm, pmalloc}
use march_os.Mm.Pm.Free.{Free, cover, pages}
use march_os.Mm.Pm.Taken.{Allocated}
use march_os.Mm.Pm.Laws.{pmalloc-AllocSpec, pages-Available}
use march_os.Mm.Vm.{user_addr_start, rounddown, flags_of, fresh, pt_value, pd_value}
use march_os.Mm.Vm.Lookup.{span, is_leaf, table_of}
use march_os.Mm.Vm.Tables.{Space, IsEntry, Tables, Extends, Extends-refl}
use march_os.Mm.Vm.Grow.{with_table, alloc-Tables, alloc-Extends}

-- A value for an entry `n` levels above the lowest that stands for stretch `page`, found from a
-- state with these tables, and the state after it.
pub record Valued (kernel_end memtotal : ℕ) (t : Space) (s : Pm) (f : Free) (n page e : ℕ) (s1 : Pm)
    : Type 0 where
  pub space : Space
  pub blocks : Free
  pub tables : Tables kernel_end memtotal space s1 blocks
  pub extends : Extends t s f space s1 blocks
  pub entry : IsEntry space n page e
  pub present : e % 2 ≡ 1
  pub cost : pages f ≤ pages blocks + 1
  pub untouched : (p : ℕ) → cover f p ≡ 0 → s1.mem p ≡ s.mem p

abbrev pub HasValue : ℕ → ℕ → Space → Pm → Free → ℕ → ℕ → Outcome (ℕ × Pm) → Type 0
HasValue kernel_end memtotal t s f n page =
    Returns (λ (e, s1). Valued kernel_end memtotal t s f n page e s1)

flags_of-cases :
    (va : ℕ)
    → ((ltb va user_addr_start ≡ true) × (va < user_addr_start) × (flags_of va ≡ 3))
      ⊎ ((ltb va user_addr_start ≡ false) × (user_addr_start ≤ va) × (flags_of va ≡ 7))
flags_of-cases va = elim (Bool-cases (ltb va user_addr_start)) [
  | inl low ↦ inl (low, ground arith, rw low refl)
  | inr high ↦ inr (high, ground arith, rw high refl)
]

module _ (kernel_end memtotal : ℕ) (pos : 0 < kernel_end) (word : memtotal < 2 ^ 64) {t : Space}
    {s : Pm} {f : Free} (tables : Tables kernel_end memtotal t s f) where
  module _ (a : ℕ) (s1 : Pm) (al : Allocated kernel_end memtotal pm_4k s f a s1) where
    page_start : a % 4096 ≡ 0
    page_start = (al.aligned tables.aligned).0

    pub below : a + 4096 ≤ memtotal
    below = ground (arith, al.covers (a + 4095), tables.rep.upper (a + 4095))

    -- A new page under flags is a table of `n` levels, or a leaf for user addresses.
    page-Valued :
        (n levels page flag : ℕ)
        → flag < 4096
        → flag % 2 ≡ 1
        → flag / 2 % 2 ≡ 1
        → (user_addr_start ≤ page * span n → flag / 4 % 2 ≡ 1)
        → (levels ≡ 0) ⊎ (t.lowest ≤ levels)
        → ((is_leaf n flag ≡ false) × (levels ≡ n))
          ⊎ ((is_leaf n flag ≡ true) × (user_addr_start ≤ page * span n))
        → Valued kernel_end memtotal t s f n page (a + flag) s1
    page-Valued n levels page flag small odd writes users high kind = record {
      space = with_table t a levels page;
      blocks = al.left;
      tables = alloc-Tables tables a s1 al levels page high;
      extends = alloc-Extends tables a s1 al levels page high;
      entry = record {
        word = omega (arith, below, page_start);
        next = λ present more. elim kind [
          | inl (no_leaf, e) ↦
              let here : table_of (a + flag) ≡ a = omega (arith, page_start) in
              let same : (a == a) ≡ true = ground arith in rw (here, same) (e, refl)
          | inr (leaf, user) ↦ absurd (let e = sym leaf ∙ rw flags at more in cc)
        ];
        direct = λ present leaf low. elim kind [
          | inl (no_leaf, e) ↦ absurd (let e = sym no_leaf ∙ rw flags at leaf in cc)
          | inr (is_one, user) ↦ absurd (omega arith)
        ];
        writable = λ present. omega (arith, writes, page_start);
        user = λ present up. omega (arith, users up, page_start);
      };
      present = omega (arith, page_start);
      cost = omega (arith, al.fewer);
      untouched = al.frame;
    }
      where
        flags : bit_and (a + flag) 128 ≡ bit_and flag 128
        flags = bit_and-low 12 (a / 4096) a flag 128 (omega (arith, page_start)) small (omega arith)

    flagged : (flag : ℕ) → flag < 4096 → bit_or a flag ≡ a + flag
    flagged flag small = bit_or-disjoint 12 (a / 4096) a flag (omega (arith, page_start)) small

  pub alloc :
      1 ≤ pages f
      → Returns
          (λ (a, s1). Allocated kernel_end memtotal pm_4k s f a s1)
          (pmalloc kernel_end memtotal pm_4k s)
  alloc some_page = elim (pmalloc-AllocSpec kernel_end memtotal pos word tables.rep pm_4k) [
    | inl done ↦ done.1
    | inr stuck ↦ absurd (stuck.0 (pages-Available f some_page))
  ]

  -- A new table, or a page for a user address.
  pub fresh-Valued :
      (n levels page va : ℕ)
      → page * span n ≤ va
      → 1 ≤ pages f
      → (levels ≡ 0) ⊎ (t.lowest ≤ levels)
      → ((1 ≤ n) × (levels ≡ n)) ⊎ ((n ≡ 0) × (user_addr_start ≤ page * span n))
      → HasValue kernel_end memtotal t s f n page (fresh kernel_end memtotal (flags_of va) s)
  fresh-Valued n levels page va inside some_page high kind =
      let ((a, s1), e, al) = alloc some_page in
      let value : (flag : ℕ)
          → flag < 4096
          → flag % 2 ≡ 1
          → flag / 2 % 2 ≡ 1
          → (user_addr_start ≤ page * span n → flag / 4 % 2 ≡ 1)
          → bit_and flag 128 ≡ 0
          → Valued kernel_end memtotal t s f n page (bit_or a flag) s1 =
        λ flag small odd writes users plain. rw (flagged a s1 al flag small) (
          page-Valued a s1 al n levels page flag small odd writes users high
            (kind_of flag plain)) in
      elim (flags_of-cases va) [
        | inl (low, below_user, flag) ↦
            rw (flag, e)
              (
                (bit_or a 3, s1),
                refl,
                value 3 (omega arith) refl refl (λ up. absurd (omega arith)) refl,
              )
        | inr (high, above, flag) ↦
            rw (flag, e) ((bit_or a 7, s1), refl, value 7 (omega arith) refl refl (λ up. refl) refl)
      ]
    where
      kind_of :
          (flag : ℕ)
          → bit_and flag 128 ≡ 0
          → ((is_leaf n flag ≡ false) × (levels ≡ n))
            ⊎ ((is_leaf n flag ≡ true) × (user_addr_start ≤ page * span n))
      kind_of flag plain = elim kind [
        | inl (up, e) ↦ inl (ground arith, e)
        | inr (bottom, user) ↦ inr (ground arith, user)
      ]

  -- The entry that maps a kernel address to itself.
  self-Valued :
      (n page e : ℕ)
      → e < 2 ^ 64
      → e % 2 ≡ 1
      → is_leaf n e ≡ true
      → e - e % span n ≡ page * span n
      → e / 2 % 2 ≡ 1
      → page * span n < user_addr_start
      → Valued kernel_end memtotal t s f n page e s
  self-Valued n page e fits odd leaf start writes kernel = record {
    space = t;
    blocks = f;
    tables = tables;
    extends = Extends-refl t s f;
    entry = record {
      word = fits;
      next = λ present more. let wrong = sym leaf ∙ more in absurd cc;
      direct = λ present leaf' low. start;
      writable = λ present. writes;
      user = λ present up. absurd (omega arith);
    };
    present = odd;
    cost = omega arith;
    untouched = λ p free. refl;
  }

  pub pt_value-Valued :
      (va : ℕ)
      → 1 ≤ pages f
      → HasValue kernel_end memtotal t s f 0 (va / 4096) (pt_value kernel_end memtotal va s)
  pt_value-Valued va some_page = elim (flags_of-cases va) [
    | inl (low, below_user, flag) ↦
        let down : rounddown va 12 ≡ va / 4096 * 2 ^ 12 =
          bit_and-high_mask 12 52 va (va / 4096) (va % 4096) (2 ^ 64 - 2 ^ 12) (omega arith)
            (omega arith) (omega arith) refl in
        let value = bit_or-disjoint 12 (va / 4096) (va / 4096 * 2 ^ 12) 3 refl (omega arith) in
        rw (low, down, value)
          (
            (va / 4096 * 4096 + 3, s),
            refl,
            self-Valued 0 (va / 4096) _ (omega arith) (omega arith) refl (omega arith) (omega arith)
                (omega arith),
          )
    | inr (high, above, flag) ↦ rw high (
        rw high at (
          fresh-Valued 0 0 (va / 4096) va (omega arith) some_page (inl refl)
            (inr (refl, omega arith))))
  ]

  pub pd_value-Valued :
      (va : ℕ) (large : Bool)
      → 1 ≤ pages f
      → (large ≡ true) ⊎ (t.lowest ≤ 1)
      → HasValue kernel_end memtotal t s f 1
          (va / 2097152)
          (pd_value kernel_end memtotal va large s)
  pd_value-Valued va false some_page small =
      fresh-Valued 1 1 (va / 2097152) va (omega arith) some_page
        (elim small [ inl wrong ↦ absurd (cc) | inr le ↦ inr le ]) (inl (omega arith, refl))
  pd_value-Valued va true some_page small = elim (flags_of-cases va) [
    | inl (low, below_user, flag) ↦
        let page = va / 2097152 in
        let down : rounddown va 21 ≡ page * 2 ^ 21 =
          bit_and-high_mask 21 43 va page (va % 2097152) (2 ^ 64 - 2 ^ 21) (omega arith)
            (omega arith) (omega arith) refl in
        let value = bit_or-disjoint 21 page (page * 2 ^ 21) 3 refl (omega arith) in
        let value' : bit_or (page * 2 ^ 21 + 3) 128 ≡ page * 2 ^ 21 + 131 =
          bit_or-low 21 page (page * 2 ^ 21) 3 128 refl (omega arith) (omega arith) in
        let ps : bit_and (page * 2 ^ 21 + 131) 128 ≡ 128 =
          bit_and-low 21 page (page * 2 ^ 21) 131 128 refl (omega arith) (omega arith) in
        rw (low, down, value, value')
          (
            (page * 2 ^ 21 + 131, s),
            refl,
            self-Valued 1 page _ (omega arith) (omega arith) (rw ps refl) (omega arith)
                (omega arith) (omega arith),
          )
    | inr (high, above, flag) ↦
        let ((a, s1), e, al) = alloc some_page in
        let value : bit_or (a + 7) 128 ≡ a + 135 =
          bit_or-low 12 (a / 4096) a 7 128 (omega (arith, page_start a s1 al)) (omega arith)
            (omega arith) in
        rw (high, e, flagged a s1 al 7 (omega arith), value)
          (
            (a + 135, s1),
            refl,
            page-Valued a s1 al 1 0 (va / 2097152) 135 (omega arith) (omega arith) refl (λ up. refl)
                (inl refl) (inr (refl, omega arith)),
          )
  ]
