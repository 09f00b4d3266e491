-- ===== src/Mm/Pm/Laws.antt =====
-- pmalloc and pmfree of mm/pm.c against the abstract view.
use march_os.Base.{
  ap, ◌/◌, ◌%◌, arith, ℕ, ◌+◌, ◌*◌, ◌^◌, ◌>>=◌, false, ◌≤◌, ◌<◌, ◌≡◌, ◌≢◌, ◌⊎◌, inl, inr, refl,
  true, List, [], ◌∷◌, within, Outcome, ok, panic, Returns,
}
use march_os.Mm.Pm.{
  PmSize, pm_4k, pm_512k, pm_64m, bytes, Pm, take, refill, pmalloc_64m, pmalloc_512k, pmalloc_4k,
  pmalloc, pmfree,
}
use march_os.Mm.Pm.Free.{
  PageAligned, pages, pages-put, put-PageAligned, page_count, Free, inside, cover, put, Rep,
}
use march_os.Mm.Pm.Taken.{Allocated}
use march_os.Mm.Pm.Freed.{freed, freed-Rep, freed-cover, freed-frame, pmfree-freed}
use march_os.Mm.Pm.Alloc.{
  List-cases, head-nil, head-cons, refill_lem, Allocated-Refilled, stocked-Returns,
}

-- Some free block is large enough: of the size itself, or one to be cut.
abbrev pub Available : PmSize → Free → Type 0
Available pm_64m f = f pm_64m ≢ []
Available pm_512k f = (f pm_512k ≢ []) ⊎ (f pm_64m ≢ [])
Available pm_4k f = (f pm_4k ≢ []) ⊎ ((f pm_512k ≢ []) ⊎ (f pm_64m ≢ []))

-- A block is handed out, or there is none and the kernel panics.
abbrev pub AllocSpec : ℕ → ℕ → PmSize → Pm → Free → Outcome (ℕ × Pm) → Type 0
AllocSpec kernel_end memtotal size s f r =
    (Available size f × Returns (λ (a, s'). Allocated kernel_end memtotal size s f a s') r)
    ⊎ (¬ (Available size f) × (r ≡ panic))

cons-ne-nil : (xs : List ℕ) {x : ℕ} {ys : List ℕ} → xs ≡ x ∷ ys → xs ≢ []
cons-ne-nil xs e n = cc

-- What pmfree does with a block in bounds that is in use: it is free afterwards, the other free
-- bytes stay free, and only bytes of the block have changed.
pub record IsFreed (kernel_end memtotal : ℕ) (addr : ℕ) (size : PmSize) (s : Pm) (f : Free)
    (s' : Pm) : Type 0 where
  pub blocks : Free
  pub rep : Rep kernel_end memtotal s' blocks
  pub covers : (p : ℕ) → cover blocks p ≡ cover f p + inside addr (bytes size) p
  pub frame : (p : ℕ) → within addr (bytes size) p ≡ false → s'.mem p ≡ s.mem p
  pub more : pages blocks ≡ pages f + bytes size / 4096
  pub aligned :
      addr % 4096 ≡ 0 → ((z : PmSize) → PageAligned (f z)) → (z : PmSize) → PageAligned (blocks z)

-- As long as a page is free, there is a block for a page.
pub pages-Available : (f : Free) → 1 ≤ pages f → Available pm_4k f
pages-Available f some_page = elim (List-cases (f pm_4k)) [
  | inr (x, xs, e) ↦ inl (cons-ne-nil (f pm_4k) e)
  | inl none_4k ↦ elim (List-cases (f pm_512k)) [
    | inr (x, xs, e) ↦ inr (inl (cons-ne-nil (f pm_512k) e))
    | inl none_512k ↦ elim (List-cases (f pm_64m)) [
      | inr (x, xs, e) ↦ inr (inr (cons-ne-nil (f pm_64m) e))
      | inl none_64m ↦ absurd (
          omega (
            arith,
            ap (page_count 4096) none_4k,
            ap (page_count 524288) none_512k,
            ap (page_count 67108864) none_64m,
          ))
    ]
  ]
]

module _ (kernel_end memtotal : ℕ) (pos : 0 < kernel_end) (word : memtotal < 2 ^ 64) where
  module _ {s : Pm} {f : Free} (r : Rep kernel_end memtotal s f) where
    -- A list that is empty is filled from a larger block, if there is one.
    cut :
        (parent size : PmSize) (alloc : Pm → Outcome (ℕ × Pm))
        → 128 * bytes size ≡ bytes parent
        → AllocSpec kernel_end memtotal parent s f (alloc s)
        → let call = refill kernel_end memtotal alloc parent size s >>= λ s'. ok (take size s') in
          (Available parent f
            × Returns (λ (a, s'). Allocated kernel_end memtotal size s f a s') call)
          ⊎ (¬ (Available parent f) × (call ≡ panic))
    cut parent size alloc split (inl (some_block, ((base, s1), e, a))) = inl (
      some_block,
      Allocated-Refilled kernel_end memtotal pos word
          (refill_lem kernel_end memtotal pos word r parent size base s1 a alloc split e),
    )
    cut parent size alloc split (inr (no_block, e)) = inr (no_block, unfold refill in rw e)

    alloc_64m : AllocSpec kernel_end memtotal pm_64m s f (pmalloc_64m kernel_end memtotal s)
    unfolding pmalloc_64m
    alloc_64m = elim (List-cases (f pm_64m)) [
      | inl e ↦ inr (λ h. h e, rw (head-nil s.mem (s.pmmap 2) (f pm_64m) e (r.lists pm_64m)))
      | inr (x, xs, e) ↦ inl (
        cons-ne-nil (f pm_64m) e,
        rw (head-cons s.mem (s.pmmap 2) x xs (rw e at (r.lists pm_64m)))
            (stocked-Returns kernel_end memtotal pos word r pm_64m x xs e),
      )
    ]

    alloc_512k : AllocSpec kernel_end memtotal pm_512k s f (pmalloc_512k kernel_end memtotal s)
    unfolding pmalloc_512k
    alloc_512k = elim (List-cases (f pm_512k)) [
      | inl e ↦
          rw (head-nil s.mem (s.pmmap 1) (f pm_512k) e (r.lists pm_512k))
            (elim (cut pm_64m pm_512k (pmalloc_64m kernel_end memtotal) refl alloc_64m) [
              | inl (block, done) ↦ inl (inr block, done)
              | inr (no_block, stop) ↦ inr (λ h. elim h [ inl n ↦ n e | inr a ↦ no_block a ], stop)
            ])
      | inr (x, xs, e) ↦ inl (
        inl (cons-ne-nil (f pm_512k) e),
        rw (head-cons s.mem (s.pmmap 1) x xs (rw e at (r.lists pm_512k)))
            (stocked-Returns kernel_end memtotal pos word r pm_512k x xs e),
      )
    ]

    alloc_4k : AllocSpec kernel_end memtotal pm_4k s f (pmalloc_4k kernel_end memtotal s)
    unfolding pmalloc_4k
    alloc_4k = elim (List-cases (f pm_4k)) [
      | inl e ↦
          rw (head-nil s.mem (s.pmmap 0) (f pm_4k) e (r.lists pm_4k))
            (elim (cut pm_512k pm_4k (pmalloc_512k kernel_end memtotal) refl alloc_512k) [
              | inl (block, done) ↦ inl (inr block, done)
              | inr (no_block, stop) ↦ inr (λ h. elim h [ inl n ↦ n e | inr a ↦ no_block a ], stop)
            ])
      | inr (x, xs, e) ↦ inl (
        inl (cons-ne-nil (f pm_4k) e),
        rw (head-cons s.mem (s.pmmap 0) x xs (rw e at (r.lists pm_4k)))
            (stocked-Returns kernel_end memtotal pos word r pm_4k x xs e),
      )
    ]

    -- From a state that holds its free blocks, pmalloc of a size returns exactly when a block of
    -- that size or a larger one is free, and panics otherwise. The block that it returns was free
    -- and is free no longer, every other free byte stays free, the lists are well formed again,
    -- all bytes of the block are 0, and no byte outside the free blocks has changed. The number of
    -- free pages drops by those of the block, and if every free block started on a page, then the
    -- block returned does and the ones left do.
    pub pmalloc-AllocSpec :
        (size : PmSize)
        → AllocSpec kernel_end memtotal size s f (pmalloc kernel_end memtotal size s)
    unfolding pmalloc
    pmalloc-AllocSpec pm_4k = alloc_4k
    pmalloc-AllocSpec pm_512k = alloc_512k
    pmalloc-AllocSpec pm_64m = alloc_64m

  -- pmfree of a block that lies in bounds and overlaps no free block returns, frees exactly the
  -- bytes of that block, keeps the lists well formed, and writes to no byte outside the block. The
  -- number of free pages grows by those of the block, and free blocks still start on pages if they
  -- did and the block does.
  pub pmfree-IsFreed :
      {s : Pm} {f : Free} (addr : ℕ) (size : PmSize)
      → Rep kernel_end memtotal s f
      → ((p : ℕ) → within addr (bytes size) p ≡ true → cover f p ≡ 0)
      → kernel_end ≤ addr
      → addr + bytes size ≤ memtotal
      → Returns (IsFreed kernel_end memtotal addr size s f) (pmfree kernel_end memtotal addr size s)
  pmfree-IsFreed {s} {f} addr size r unused low high = (
    freed addr size s,
    pmfree-freed kernel_end memtotal pos word r addr size unused low high,
    record {
      blocks = put f size (addr ∷ f size);
      rep = freed-Rep kernel_end memtotal pos word r addr size unused low high;
      covers = freed-cover kernel_end memtotal pos word r addr size unused low high;
      frame = freed-frame kernel_end memtotal pos word r addr size unused low high;
      more = omega (arith, pages-put f size (addr ∷ f size));
      aligned = λ start all. put-PageAligned f size (addr ∷ f size) all (start, all size);
    },
  )
