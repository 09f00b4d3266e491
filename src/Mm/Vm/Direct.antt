-- ===== src/Mm/Vm/Direct.antt =====
-- The kernel's part of memory in the page tables of arch/x86/vm.c: its addresses are mapped to
-- themselves.
use native.Mathlib.Nat.{pow-suc, div-div-eq-div-mul, mod-add-div'}
use march_os.Base.{
  Option-cases, ℕ, zero, suc, ◌+◌, ◌-◌, ◌*◌, ◌/◌, ◌%◌, ◌^◌, ◌<◌, ◌≡◌, refl, ◌∙◌, sym, ap, none,
  some, ◌==◌, Bool-cases, inl, inr, arith,
}
use march_os.Mm.Mem.{Mem, load64}
use march_os.Mm.Pm.{Pm}
use march_os.Mm.Pm.Free.{Free}
use march_os.Mm.Vm.{user_addr_start}
use march_os.Mm.Vm.Lookup.{span, is_leaf, table_of, find, translate}
use march_os.Mm.Vm.Tables.{Space, IsEntry, Tables, Extends, find-kept}

pub translate-found :
    (m : Mem) (pgdir va k pte : ℕ)
    → find m 4 pgdir va ≡ some (k, pte)
    → translate m pgdir va ≡ some (load64 m pte - load64 m pte % span k + va % span k)
translate-found m pgdir va k pte found = rw found refl

translate-none : (m : Mem) (pgdir va : ℕ) → find m 4 pgdir va ≡ none → translate m pgdir va ≡ none
translate-none m pgdir va nothing = rw nothing refl

some_pair : (x y : ℕ × ℕ) → some x ≡ some y → (x.0 ≡ y.0) × (x.1 ≡ y.1)
some_pair x y e = (cc, cc)

-- The entry found for a kernel address leads to that address.
module _ {kernel_end memtotal : ℕ} {t : Space} {s : Pm} {f : Free}
    (tables : Tables kernel_end memtotal t s f) (va : ℕ) (low : va < user_addr_start) where
  pub find_self :
      (n b k pte : ℕ)
      → t.level b ≡ n
      → t.part b ≡ va / span n
      → find s.mem n b va ≡ some (k, pte)
      → load64 s.mem pte - load64 s.mem pte % span k + va % span k ≡ va
  unfolding find
  find_self zero b k pte l here found = let nothing = found in cc
  find_self (suc n) b k pte l here found =
      let i = va / span n % 512 in
      let e = load64 s.mem (b + 8 * i) in
      let wider : va / span (suc n) ≡ va / span n / 512 =
        ap (λ (w : ℕ). va / w) (omega (arith, pow-suc 512 n))
        ∙ sym (div-div-eq-div-mul va (span n) 512) in
      let page : t.part b * 512 + i ≡ va / span n = omega (arith, here, wider) in
      let entry : IsEntry t n (va / span n) e = rw page at (tables.entries b n i l (omega arith)) in
      elim (Bool-cases (e % 2 == 0)) [
        | inl absent ↦ let nothing = rw absent at found in cc
        | inr present ↦ elim (Bool-cases (is_leaf n e)) [
          | inl leaf ↦
              let (level, slot) = some_pair (n, b + 8 * i) (k, pte) (rw (present, leaf) at found) in
              let whole = mod-add-div' va (span n) in
              let self = entry.direct (ground arith) leaf (omega (arith, whole)) in
              rw (sym level, sym slot) (omega (arith, self, whole))
          | inr more ↦
              let below = entry.next (ground arith) more in
              find_self n (table_of e) k pte below.0 below.1 (rw (present, more) at found)
        ]
      ]

  -- A kernel address that is mapped at all is mapped to itself.
  pub translate_self :
      (pgdir pa : ℕ)
      → t.level pgdir ≡ 4
      → t.part pgdir ≡ 0
      → translate s.mem pgdir va ≡ some pa
      → pa ≡ va
  translate_self pgdir pa l root mapped = elim (Option-cases (find s.mem 4 pgdir va)) [
    | inl nothing ↦ let wrong = translate-none s.mem pgdir va nothing in cc
    | inr ((k, pte), found) ↦
        let self = find_self 4 pgdir k pte l (omega arith) found in
        let result = translate-found s.mem pgdir va k pte found in cc
  ]

-- What is mapped stays mapped to the same address.
pub translate-kept :
    {kernel_end memtotal : ℕ} {t t' : Space} {s s' : Pm} {f f' : Free} (pgdir va pa : ℕ)
    → Tables kernel_end memtotal t s f
    → Extends t s f t' s' f'
    → t.level pgdir ≡ 4
    → translate s.mem pgdir va ≡ some pa
    → translate s'.mem pgdir va ≡ some pa
translate-kept {s} {s'} pgdir va pa tables x l mapped =
    elim (Option-cases (find s.mem 4 pgdir va)) [
      | inl nothing ↦ let wrong = translate-none s.mem pgdir va nothing in cc
      | inr ((k, pte), found) ↦
          let (found', same) = find-kept tables x 4 pgdir va (k, pte) l found in
          translate-found s'.mem pgdir va k pte found'
          ∙ rw same (sym (translate-found s.mem pgdir va k pte found) ∙ mapped)
    ]

-- Where no table has one level only, all addresses of 2 MiB share an entry.
module _ {kernel_end memtotal : ℕ} {t : Space} {s : Pm} {f : Free}
    (tables : Tables kernel_end memtotal t s f) (large_only : t.lowest ≡ 2) (x va : ℕ)
    (near : x / 2097152 ≡ va / 2097152) where
  same_index : (m : ℕ) → x / span (suc m) ≡ va / span (suc m)
  same_index m =
      let wide : span (suc m) ≡ 2097152 * 512 ^ m = omega (arith, pow-suc 512 m) in
      rw
        (
          wide,
          ← div-div-eq-div-mul x 2097152 (512 ^ m),
          ← div-div-eq-div-mul va 2097152 (512 ^ m),
          near,
        )
        refl

  pub find-near : (n b : ℕ) → t.level b ≡ n → find s.mem n b x ≡ find s.mem n b va
  unfolding find
  find-near zero b l = refl
  find-near (suc zero) b l = absurd (omega (arith, tables.levels b (omega arith)))
  find-near (suc (suc m)) b l =
      let i = va / span (suc m) % 512 in
      let e = load64 s.mem (b + 8 * i) in
      rw (same_index m) (elim (Bool-cases (e % 2 == 0)) [
        | inl absent ↦ rw absent refl
        | inr present ↦ elim (Bool-cases (is_leaf (suc m) e)) [
          | inl leaf ↦ rw (present, leaf) refl
          | inr more ↦
              rw (present, more)
                (find-near (suc m) (table_of e)
                  ((tables.entries b (suc m) i l (omega arith)).next (ground arith) more).0)
        ]
      ])
