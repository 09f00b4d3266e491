-- ===== src/Mm/Pm/Taken.antt =====
-- Taking the head of a free list, the last lines of pmalloc, against the abstract view.
use march_os.Base.{
  ◌/◌, ◌%◌, ℕ, ◌+◌, ◌≤◌, ◌≡◌, refl, true, false, List, ◌∷◌, ◌==◌, Bool-cases, inl, inr, within,
  arith,
}
use march_os.Mm.Mem.{Mem, update, load64, memset, memset_lem}
use march_os.Mm.Pm.{PmSize, pm_4k, pm_512k, pm_64m, bytes, Pm, pm_size_to_idx, take}
use march_os.Mm.Pm.Free.{
  PageAligned, pages, page_count, pages-put, put-PageAligned, Free, inside, hits, cover, put,
  FreeList, Rep, cover-put, hits-le-cover, bytes_bound, FreeList_frame,
}

-- What pmalloc promises: the block `addr` was free and is not free any more, all its bytes are 0,
-- no byte outside the free blocks has changed, and blocks that started on pages still do.
pub record Allocated (kernel_end memtotal : ℕ) (size : PmSize) (s : Pm) (f : Free) (addr : ℕ)
    (s' : Pm) : Type 0 where
  pub left : Free
  pub rep : Rep kernel_end memtotal s' left
  pub covers : (p : ℕ) → cover f p ≡ cover left p + inside addr (bytes size) p
  pub zeroed : (p : ℕ) → within addr (bytes size) p ≡ true → s'.mem p ≡ 0
  pub frame : (p : ℕ) → cover f p ≡ 0 → s'.mem p ≡ s.mem p
  pub fewer : pages f ≡ pages left + bytes size / 4096
  pub aligned :
      ((z : PmSize) → PageAligned (f z)) → (addr % 4096 ≡ 0) × ((z : PmSize) → PageAligned (left z))

pub put_self : (f : Free) (size : PmSize) (xs : List ℕ) → put f size xs size ≡ xs
put_self f pm_4k xs = refl
put_self f pm_512k xs = refl
put_self f pm_64m xs = refl

module _ (kernel_end memtotal : ℕ) where
  module _ {s : Pm} {f : Free} (r : Rep kernel_end memtotal s f) (size : PmSize) (x : ℕ)
      (xs : List ℕ) (top : f size ≡ x ∷ xs) where
    covers : (p : ℕ) → cover f p ≡ cover (put f size xs) p + inside x (bytes size) p
    covers p =
        let split : hits (bytes size) p (f size)
            ≡ inside x (bytes size) p + hits (bytes size) p xs =
          rw top in
        omega (arith, cover-put f size xs p, split)

    chain : FreeList s.mem (s.pmmap (pm_size_to_idx size)) (x ∷ xs)
    chain = rw top at (r.lists size)

    pub take-head : (take size s).0 ≡ x
    unfolding take
    take-head = chain.0

    abbrev mem' : Mem
    mem' = memset s.mem (s.pmmap (pm_size_to_idx size)) 0 (bytes size)

    outside : (q : ℕ) → within x (bytes size) q ≡ false → mem' q ≡ s.mem q
    outside q i = rw (memset_lem, chain.0, i)

    spared : (q : ℕ) → 1 ≤ cover (put f size xs) q → mem' q ≡ s.mem q
    spared q i = outside q (ground (arith, covers q, r.once q))

    kept :
        (z : PmSize) (ys : List ℕ) (head : ℕ)
        → put f size xs z ≡ ys
        → FreeList s.mem head ys
        → FreeList mem' head ys
    kept z ys head e l =
        FreeList_frame (bytes z) ys s.mem mem' head (omega (arith, bytes_bound z)) l (λ q i.
          spared q (
            let i' : 1 ≤ hits (bytes z) q (put f size xs z) = rw e i in
            omega (arith, hits-le-cover (put f size xs) z q)))

    taken-lists :
        (z : PmSize)
        → FreeList mem'
            (update s.pmmap
              (pm_size_to_idx size)
              (load64 s.mem (s.pmmap (pm_size_to_idx size)))
              (pm_size_to_idx z))
            (put f size xs z)
    taken-lists z = elim (Bool-cases (pm_size_to_idx size == pm_size_to_idx z)) [
      | inl e ↦ rw e (kept size xs _ (put_self f size xs) (rw chain.0 chain.2))
      | inr e ↦ rw e (kept z (f z) _ (rw e) (r.lists z))
    ]

    -- Taking the head of a list that holds a block allocates that block.
    pub take-Allocated : Allocated kernel_end memtotal size s f (take size s).0 (take size s).1
    unfolding take
    take-Allocated = record {
      left = put f size xs;
      rep = record {
        lists = taken-lists;
        once = λ p. omega (arith, covers p, r.once p);
        lower = λ p i. omega (arith, covers p, r.lower p);
        upper = λ p i. omega (arith, covers p, r.upper p);
      };
      covers = rw chain.0 covers;
      zeroed = λ p i. rw memset_lem (rw i);
      frame = λ p i. outside p (ground (arith, covers p));
      fewer =
          let split : page_count (bytes size) (f size)
              ≡ bytes size / 4096 + page_count (bytes size) xs =
            rw top in
          omega (arith, pages-put f size xs, split);
      aligned = λ all.
          let here : PageAligned (x ∷ xs) = rw top at (all size) in
          (rw chain.0 here.0, put-PageAligned f size xs all here.1);
    }
