-- ===== src/Mm/Pm/Free.antt =====
-- The abstract view of the page allocator: a list of free blocks of each size, the bytes that
-- they cover, and what it is for memory to hold those lists.
use march_os.Base.{
  refl, Bool-cases, inl, inr, ◌/◌, ◌%◌, ℕ, zero, suc, ◌+◌, ◌*◌, ◌≤◌, ◌<◌, ◌≡◌, ◌≢◌, ap, ◌∙◌, List,
  [], ◌∷◌, ◌==◌, if◌then◌else◌, within, arith,
}
use march_os.Mm.Mem.{Mem, load64, load64_ext}
use march_os.Mm.Pm.{PmSize, pm_4k, pm_512k, pm_64m, bytes, Pm, pm_size_to_idx}

abbrev pub Free : Type 0
Free = PmSize → List ℕ

-- 1 for an address in the `n` bytes from `a` on, and 0 for another.
abbrev pub inside : ℕ → ℕ → ℕ → ℕ
inside a n p = if within a n p then 1 else 0

-- In how many of these blocks an address lies.
abbrev pub hits : ℕ → ℕ → List ℕ → ℕ
hits n p [] = 0
hits n p (x ∷ xs) = inside x n p + hits n p xs

-- In how many free blocks an address lies.
abbrev pub cover : Free → ℕ → ℕ
cover f p = hits 4096 p (f pm_4k) + hits 524288 p (f pm_512k) + hits 67108864 p (f pm_64m)

abbrev pub put : Free → PmSize → List ℕ → Free
put f size xs z = if pm_size_to_idx size == pm_size_to_idx z then xs else f z

-- Each block's first word is the address of the next one.
abbrev pub FreeList : Mem → ℕ → List ℕ → Type 0
FreeList m head [] = head ≡ 0
FreeList m head (x ∷ xs) = (head ≡ x) × (x ≢ 0) × FreeList m (load64 m x) xs

-- Every block of a list starts on a page.
abbrev pub PageAligned : List ℕ → Type 0
PageAligned [] = Unit
PageAligned (x ∷ xs) = (x % 4096 ≡ 0) × PageAligned xs

-- The number of pages that the blocks of a list of this size hold.
abbrev pub page_count : ℕ → List ℕ → ℕ
page_count n [] = 0
page_count n (x ∷ xs) = n / 4096 + page_count n xs

-- The number of free pages.
abbrev pub pages : Free → ℕ
pages f = page_count 4096 (f pm_4k) + page_count 524288 (f pm_512k) + page_count 67108864 (f pm_64m)

-- The state holds these blocks: chained in memory, no two overlapping, all within bounds.
pub record Rep (kernel_end memtotal : ℕ) (s : Pm) (f : Free) : Type 0 where
  pub lists : (z : PmSize) → FreeList s.mem (s.pmmap (pm_size_to_idx z)) (f z)
  pub once : (p : ℕ) → cover f p ≤ 1
  pub lower : (p : ℕ) → 1 ≤ cover f p → kernel_end ≤ p
  pub upper : (p : ℕ) → 1 ≤ cover f p → p < memtotal

pub cover-put :
    (f : Free) (size : PmSize) (xs : List ℕ) (p : ℕ)
    → cover (put f size xs) p + hits (bytes size) p (f size) ≡ cover f p + hits (bytes size) p xs
cover-put f pm_4k xs p = omega arith
cover-put f pm_512k xs p = omega arith
cover-put f pm_64m xs p = omega arith

pub pages-put :
    (f : Free) (size : PmSize) (xs : List ℕ)
    → pages (put f size xs) + page_count (bytes size) (f size)
      ≡ pages f + page_count (bytes size) xs
pages-put f pm_4k xs = omega arith
pages-put f pm_512k xs = omega arith
pages-put f pm_64m xs = omega arith

pub put-PageAligned :
    (f : Free) (size : PmSize) (xs : List ℕ)
    → ((z : PmSize) → PageAligned (f z))
    → PageAligned xs
    → (z : PmSize) → PageAligned (put f size xs z)
put-PageAligned f size xs all new z = elim (Bool-cases (pm_size_to_idx size == pm_size_to_idx z)) [
  | inl e ↦ rw e new
  | inr e ↦ rw e (all z)
]

pub hits-le-cover : (f : Free) (z : PmSize) (p : ℕ) → hits (bytes z) p (f z) ≤ cover f p
hits-le-cover f pm_4k p = omega arith
hits-le-cover f pm_512k p = omega arith
hits-le-cover f pm_64m p = omega arith

pub bytes_pages : (z : PmSize) → bytes z ≡ bytes z / 4096 * 4096
bytes_pages pm_4k = refl
bytes_pages pm_512k = refl
bytes_pages pm_64m = refl

pub bytes_bound : (z : PmSize) → 4096 ≤ bytes z
bytes_bound pm_4k = omega arith
bytes_bound pm_512k = omega arith
bytes_bound pm_64m = omega arith

pub bytes-le : (z : PmSize) → bytes z ≤ 67108864
bytes-le pm_4k = omega arith
bytes-le pm_512k = omega arith
bytes-le pm_64m = omega arith

-- A list survives every change of memory outside its blocks.
pub FreeList_frame :
    (n : ℕ) (xs : List ℕ) (m m' : Mem) (head : ℕ)
    → 8 ≤ n
    → FreeList m head xs
    → ((q : ℕ) → 1 ≤ hits n q xs → m' q ≡ m q)
    → FreeList m' head xs
FreeList_frame n [] m m' head big l same = l
FreeList_frame n (x ∷ xs) m m' head big l same =
    let word : load64 m' x ≡ load64 m x = load64_ext m m' x (λ q i. same q (ground arith)) in
    (
      l.0,
      l.1,
      rw word (FreeList_frame n xs m m' (load64 m x) big l.2 (λ q i. same q (omega arith))),
    )

-- The head of a list is NULL or a byte of one of its blocks.
pub head_bound :
    (n : ℕ) (m : Mem) (head : ℕ) (bound : ℕ) (xs : List ℕ)
    → 8 ≤ n
    → 0 < bound
    → FreeList m head xs
    → ((q : ℕ) → 1 ≤ hits n q xs → q < bound)
    → head < bound
head_bound n m head bound [] big pos l below = omega arith
head_bound n m head bound (x ∷ xs) big pos l below = ground (arith, below x)

-- `n` adjacent blocks from `lo` on, in front of `xs`.
abbrev pub stack : ℕ → ℕ → ℕ → List ℕ → List ℕ
stack size lo zero xs = xs
stack size lo (suc n) xs = stack size lo n ((lo + n * size) ∷ xs)

pub hits-stack :
    (size lo n : ℕ) (xs : List ℕ) (p : ℕ)
    → hits size p (stack size lo n xs) ≡ hits size p xs + inside lo (n * size) p
hits-stack size lo zero xs p = ground arith
hits-stack size lo (suc n) xs p = ground (arith, hits-stack size lo n ((lo + n * size) ∷ xs) p)

pub page_count-stack :
    (size lo n : ℕ) (xs : List ℕ)
    → page_count size (stack size lo n xs) ≡ page_count size xs + n * (size / 4096)
page_count-stack size lo zero xs = omega arith
page_count-stack size lo (suc n) xs =
    omega (arith, page_count-stack size lo n ((lo + n * size) ∷ xs))

pub stack-PageAligned :
    (k size lo n : ℕ) (xs : List ℕ)
    → size ≡ k * 4096
    → lo % 4096 ≡ 0
    → PageAligned xs
    → PageAligned (stack size lo n xs)
stack-PageAligned k size lo zero xs e start all = all
stack-PageAligned k size lo (suc n) xs e start all =
    stack-PageAligned k size lo n ((lo + n * size) ∷ xs) e start
      (omega (arith, ap (λ (t : ℕ). n * t) e), all)

pub stack-suc :
    (size lo n : ℕ) (xs : List ℕ) → stack size lo (suc n) xs ≡ lo ∷ stack size (lo + size) n xs
stack-suc size lo zero xs = ap (λ (a : ℕ). a ∷ xs) (omega arith)
stack-suc size lo (suc n) xs =
    stack-suc size lo n ((lo + suc n * size) ∷ xs)
    ∙ ap (λ (a : ℕ). lo ∷ stack size (lo + size) n (a ∷ xs)) (omega arith)
