-- ===== src/Mm/Pm/Freed.antt =====
-- pmfree against the abstract view.
use march_os.Base.{
  ℕ, ◌+◌, ◌^◌, ◌≤◌, ◌<◌, ◌≡◌, refl, true, false, ◌∷◌, ◌==◌, Bool-cases, inl, inr, within, ok, arith,
}
use march_os.Mm.Mem.{update, store64, store64_outside, load64-store64_self}
use march_os.Mm.Pm.{PmSize, bytes, Pm, pm_size_to_idx, bad_address, pmfree}
use march_os.Mm.Pm.Free.{
  Free, inside, cover, put, FreeList, Rep, cover-put, hits-le-cover, bytes_bound, FreeList_frame,
  head_bound,
}

-- The new state of a pmfree that does not panic.
abbrev pub freed : ℕ → PmSize → Pm → Pm
freed addr size s = record {
  mem = store64 s.mem addr (s.pmmap (pm_size_to_idx size));
  pmmap = update s.pmmap (pm_size_to_idx size) addr;
}

module _ (kernel_end memtotal : ℕ) (pos : 0 < kernel_end) (word : memtotal < 2 ^ 64) where
  module _ {s : Pm} {f : Free} (r : Rep kernel_end memtotal s f) where
    heads : (z : PmSize) → s.pmmap (pm_size_to_idx z) < 2 ^ 64
    heads z =
        head_bound (bytes z) s.mem (s.pmmap (pm_size_to_idx z)) (2 ^ 64) (f z)
          (omega (arith, bytes_bound z)) (omega arith) (r.lists z)
          (λ q i. omega (arith, r.upper q (omega (arith, hits-le-cover f z q))))

    module _ (addr : ℕ) (size : PmSize)
        (unused : (p : ℕ) → within addr (bytes size) p ≡ true → cover f p ≡ 0)
        (low : kernel_end ≤ addr) (high : addr + bytes size ≤ memtotal) where
      outside : (q : ℕ) → 1 ≤ cover f q → (freed addr size s).mem q ≡ s.mem q
      outside q i = store64_outside s.mem addr _ q (ground (arith, unused q, bytes_bound size))

      kept : (z : PmSize) → FreeList (freed addr size s).mem (s.pmmap (pm_size_to_idx z)) (f z)
      kept z =
          FreeList_frame (bytes z) (f z) s.mem _ _ (omega (arith, bytes_bound z)) (r.lists z)
            (λ q i. outside q (omega (arith, hits-le-cover f z q)))

      freed-lists :
          (z : PmSize)
          → FreeList
              (freed addr size s).mem
              ((freed addr size s).pmmap (pm_size_to_idx z))
              (put f size (addr ∷ f size) z)
      freed-lists z = elim (Bool-cases (pm_size_to_idx size == pm_size_to_idx z)) [
        | inl e ↦
            rw e (refl, omega arith, rw (load64-store64_self s.mem addr _ (heads size)) (kept size))
        | inr e ↦ rw e (kept z)
      ]

      covers :
          (p : ℕ) → cover (put f size (addr ∷ f size)) p ≡ cover f p + inside addr (bytes size) p
      covers p = omega (arith, cover-put f size (addr ∷ f size) p)

      pub freed-Rep : Rep kernel_end memtotal (freed addr size s) (put f size (addr ∷ f size))
      freed-Rep = record {
        lists = freed-lists;
        once = λ p. ground (arith, covers p, unused p, r.once p);
        lower = λ p i. ground (arith, covers p, r.lower p);
        upper = λ p i. ground (arith, covers p, r.upper p);
      }

      pub freed-cover :
          (p : ℕ) → cover (put f size (addr ∷ f size)) p ≡ cover f p + inside addr (bytes size) p
      freed-cover = covers

      pub freed-frame :
          (p : ℕ) → within addr (bytes size) p ≡ false → (freed addr size s).mem p ≡ s.mem p
      freed-frame p i = store64_outside s.mem addr _ p (ground (arith, bytes_bound size))

      -- The guards of pmfree let the block through.
      pub pmfree-freed : pmfree kernel_end memtotal addr size s ≡ ok (freed addr size s)
      unfolding pmfree
      pmfree-freed =
          let good : bad_address kernel_end memtotal addr ≡ false =
            ground (arith, bytes_bound size) in
          rw good
