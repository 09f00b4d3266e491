-- ===== src/Mm/Pm/Alloc.antt =====
-- The refill of an empty list, and a block taken from a list that holds one.
use march_os.Base.{
  ap, ◌/◌, ℕ, suc, ◌+◌, ◌-◌, ◌*◌, ◌%◌, ◌^◌, ◌≤◌, ◌<◌, ◌≡◌, ◌⊎◌, inl, inr, refl, ◌∙◌, true, false,
  List, [], ◌∷◌, ◌==◌, within, Outcome, ok, ◌>>=◌, Returns, arith,
}
use march_os.Mm.Mem.{Mem}
use march_os.Mm.Pm.{PmSize, bytes, Pm, take, refill}
use march_os.Mm.Pm.Free.{
  bytes_pages, PageAligned, pages, pages-put, page_count-stack, stack-PageAligned, put-PageAligned,
  Free, inside, hits, cover, put, Rep, FreeList, cover-put, bytes_bound, stack, hits-stack,
  stack-suc,
}
use march_os.Mm.Pm.Taken.{put_self, Allocated, take-Allocated}
use march_os.Mm.Pm.Carve.{Carved, carve-Carved}

pub List-cases : (xs : List ℕ) → (xs ≡ []) ⊎ ((x : ℕ) × (ys : List ℕ) × (xs ≡ x ∷ ys))
List-cases [] = inl refl
List-cases (x ∷ xs) = inr (x, xs, refl)

pub head-nil :
    (m : Mem) (head : ℕ) (xs : List ℕ) → xs ≡ [] → FreeList m head xs → (head == 0) ≡ true
head-nil m head [] e l = ground arith
head-nil m head (x ∷ xs) e l = cc

pub head-cons :
    (m : Mem) (head x : ℕ) (xs : List ℕ) → FreeList m head (x ∷ xs) → (head == 0) ≡ false
head-cons m head x xs l = ground arith

-- The same free bytes, with a block of this size at hand.
pub record Refilled (kernel_end memtotal : ℕ) (size : PmSize) (s : Pm) (f : Free) (r : Outcome Pm)
    : Type 0 where
  pub after : Pm
  pub blocks : Free
  pub returns : r ≡ ok after
  pub rep : Rep kernel_end memtotal after blocks
  pub first : ℕ
  pub rest : List ℕ
  pub stocked : blocks size ≡ first ∷ rest
  pub covers : (p : ℕ) → cover blocks p ≡ cover f p
  pub frame : (p : ℕ) → cover f p ≡ 0 → after.mem p ≡ s.mem p
  pub as_many : pages blocks ≡ pages f
  pub aligned : ((z : PmSize) → PageAligned (f z)) → (z : PmSize) → PageAligned (blocks z)

module _ (kernel_end memtotal : ℕ) (pos : 0 < kernel_end) (word : memtotal < 2 ^ 64) where
  module _ {s : Pm} {f : Free} (r : Rep kernel_end memtotal s f) (parent size : PmSize) (base : ℕ)
      (s1 : Pm) (a : Allocated kernel_end memtotal parent s f base s1) where
    fits : base + bytes parent ≤ memtotal
    fits =
        let top = base + bytes parent - 1 in
        ground (arith, a.covers top, r.upper top, bytes_bound parent)

    low : kernel_end ≤ base
    low = ground (arith, a.covers base, r.lower base, bytes_bound parent)

    stacked :
        (n : ℕ) (p : ℕ)
        → suc n * bytes size ≡ bytes parent
        → hits (bytes size) p (stack (bytes size) base (suc n) (a.left size))
          ≡ hits (bytes size) p (a.left size) + inside base (bytes parent) p
    stacked n p split = rw split at (hits-stack (bytes size) base (suc n) (a.left size) p)

    recovered :
        (n : ℕ) (p : ℕ)
        → suc n * bytes size ≡ bytes parent
        → cover (put a.left size (stack (bytes size) base (suc n) (a.left size))) p ≡ cover f p
    recovered n p split = omega (
      arith,
      cover-put a.left size (stack (bytes size) base (suc n) (a.left size)) p,
      stacked n p split,
      a.covers p,
    )

    recounted :
        (n : ℕ)
        → suc n * bytes size ≡ bytes parent
        → pages (put a.left size (stack (bytes size) base (suc n) (a.left size))) ≡ pages f
    recounted n split = omega (
      arith,
      pages-put a.left size (stack (bytes size) base (suc n) (a.left size)),
      page_count-stack (bytes size) base (suc n) (a.left size),
      a.fewer,
      split,
      ap (λ (t : ℕ). n * t) (bytes_pages size),
      bytes_pages size,
    )

    Refilled-carve :
        (n : ℕ) {c : Outcome Pm}
        → suc n * bytes size ≡ bytes parent
        → Carved kernel_end memtotal size base (suc n) s1 a.left c
        → Refilled kernel_end memtotal size s f c
    Refilled-carve n split c = record {
      after = c.after;
      blocks = put a.left size (stack (bytes size) base (suc n) (a.left size));
      returns = c.returns;
      rep = c.rep;
      first = base;
      rest = stack (bytes size) (base + bytes size) n (a.left size);
      stocked = put_self a.left size _ ∙ stack-suc (bytes size) base n (a.left size);
      covers = λ p. recovered n p split;
      frame = λ p i. c.frame p (rw split (ground (arith, a.covers p))) ∙ a.frame p i;
      as_many = recounted n split;
      aligned = λ all.
          put-PageAligned a.left size (stack (bytes size) base (suc n) (a.left size))
            (a.aligned all).1
            (stack-PageAligned (bytes size / 4096) (bytes size) base (suc n) (a.left size)
              (bytes_pages size) (a.aligned all).0 ((a.aligned all).1 size));
    }

    unused : (p : ℕ) → within base (bytes parent) p ≡ true → cover a.left p ≡ 0
    unused p i = ground (arith, a.covers p, r.once p)

    pub refill_lem :
        (alloc : Pm → Outcome (ℕ × Pm))
        → 128 * bytes size ≡ bytes parent
        → alloc s ≡ ok (base, s1)
        → Refilled kernel_end memtotal size s f (refill kernel_end memtotal alloc parent size s)
    unfolding refill
    refill_lem alloc split e = rw e (
        Refilled-carve 127 split (
          carve-Carved kernel_end memtotal pos word size 128 base
            ((base + bytes parent - bytes size) % 2 ^ 64) s1 a.left a.rep
            (omega (arith, fits, split, bytes_bound size)) (omega arith) low
            (omega (arith, fits, split)) (λ p i. unused p (rw split at i))))

  -- A block taken after a refill is allocated from the blocks before it.
  pub Allocated-Refilled :
      {s : Pm} {f : Free} {size : PmSize} {c : Outcome Pm}
      → Refilled kernel_end memtotal size s f c
      → Returns
          (λ (a, s'). Allocated kernel_end memtotal size s f a s')
          (c >>= λ s'. ok (take size s'))
  Allocated-Refilled {size} q =
      let t = take-Allocated kernel_end memtotal q.rep size q.first q.rest q.stocked in
      rw q.returns (
        take size q.after,
        refl,
        record {
          left = t.left;
          rep = t.rep;
          covers = λ p. omega (arith, q.covers p, t.covers p);
          zeroed = t.zeroed;
          frame = λ p i. t.frame p (q.covers p ∙ i) ∙ q.frame p i;
          fewer = omega (arith, q.as_many, t.fewer);
          aligned = λ all. t.aligned (q.aligned all);
        },
      )

  -- With a block at hand nothing is cut.
  pub stocked-Returns :
      {s : Pm} {f : Free} (r : Rep kernel_end memtotal s f) (size : PmSize) (x : ℕ) (xs : List ℕ)
      → f size ≡ x ∷ xs
      → Returns (λ (a, s'). Allocated kernel_end memtotal size s f a s') (ok (take size s))
  stocked-Returns {s} r size x xs e =
      (take size s, refl, take-Allocated kernel_end memtotal r size x xs e)
