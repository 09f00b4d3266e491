-- ===== src/Mm/Pm/Carve.antt =====
-- The loop that frees adjacent blocks from the last one down, as pmalloc cuts a larger block.
use mathlib.Core.Path.{fun_ext}
use march_os.Base.{
  ℕ, zero, suc, ◌+◌, ◌-◌, ◌*◌, ◌%◌, ◌^◌, ◌≤◌, ◌<◌, ◌≡◌, refl, ◌∙◌, true, false, List, ◌∷◌, within,
  Outcome, ok, arith,
}
use march_os.Mm.Pm.{PmSize, pm_4k, pm_512k, pm_64m, bytes, Pm, carve}
use march_os.Mm.Pm.Free.{Free, cover, put, Rep, bytes_bound, stack}
use march_os.Mm.Pm.Freed.{freed, freed-Rep, freed-cover, pmfree-freed, freed-frame}
use march_os.Mm.Pm.Taken.{put_self}

put-put : (f : Free) (size : PmSize) (xs ys : List ℕ) → put (put f size xs) size ys ≡ put f size ys
put-put f size xs ys = fun_ext λ z. ground arith

put_same : (f : Free) (size z : PmSize) → put f size (f size) z ≡ f z
put_same f pm_4k pm_4k = refl
put_same f pm_512k pm_512k = refl
put_same f pm_64m pm_64m = refl
put_same f _ _ = refl

-- The loop has freed the `n` blocks from `lo` on, and written only to their bytes.
pub record Carved (kernel_end memtotal : ℕ) (size : PmSize) (lo n : ℕ) (s : Pm) (f : Free)
    (r : Outcome Pm) : Type 0 where
  pub after : Pm
  pub returns : r ≡ ok after
  pub rep : Rep kernel_end memtotal after (put f size (stack (bytes size) lo n (f size)))
  pub frame : (p : ℕ) → within lo (n * bytes size) p ≡ false → after.mem p ≡ s.mem p

module _ (kernel_end memtotal : ℕ) (pos : 0 < kernel_end) (word : memtotal < 2 ^ 64)
    (size : PmSize) where
  step-Rep :
      (n lo addr : ℕ) (f : Free) (t : Pm)
      → addr ≡ lo + n * bytes size
      → (let f' : Free = put f size (addr ∷ f size) in
          Rep kernel_end memtotal t (put f' size (stack (bytes size) lo n (f' size))))
      → Rep kernel_end memtotal t (put f size (stack (bytes size) lo (suc n) (f size)))
  step-Rep n lo addr f t top r = rw (put-put, put_self, top) at r

  pub carve-Carved :
      (n lo addr : ℕ) (s : Pm) (f : Free)
      → Rep kernel_end memtotal s f
      → (addr + bytes size) % 2 ^ 64 ≡ lo + n * bytes size
      → addr < 2 ^ 64
      → kernel_end ≤ lo
      → lo + n * bytes size ≤ memtotal
      → ((p : ℕ) → within lo (n * bytes size) p ≡ true → cover f p ≡ 0)
      → Carved kernel_end memtotal size lo n s f (carve kernel_end memtotal n addr size s)
  unfolding carve
  carve-Carved zero lo addr s f r end small low high unused = record {
    after = s;
    returns = refl;
    rep = rw (fun_ext (put_same f size)) r;
    frame = λ p i. refl;
  }
  carve-Carved (suc n) lo addr s f r end small low high unused =
      let big : 4096 ≤ bytes size = bytes_bound size in
      let top : addr ≡ lo + n * bytes size = omega arith in
      let free : (p : ℕ) → within addr (bytes size) p ≡ true → cover f p ≡ 0 =
        λ p i. unused p (ground arith) in
      let fits : addr + bytes size ≤ memtotal = omega arith in
      let above : kernel_end ≤ addr = omega arith in
      let covers = freed-cover kernel_end memtotal pos word r addr size free above fits in
      let rest =
        carve-Carved n lo ((addr + 2 ^ 64 - bytes size) % 2 ^ 64) (freed addr size s)
          (put f size (addr ∷ f size))
          (freed-Rep kernel_end memtotal pos word r addr size free above fits) (omega arith)
          (omega arith) low (omega arith) (λ p i. ground (arith, covers p, unused p)) in
      record {
        after = rest.after;
        returns =
            rw (pmfree-freed kernel_end memtotal pos word r addr size free above fits) rest.returns;
        rep = step-Rep n lo addr f rest.after top rest.rep;
        frame = λ p i.
            rest.frame p (ground arith)
            ∙ freed-frame kernel_end memtotal pos word r addr size free above fits p (ground arith);
      }
