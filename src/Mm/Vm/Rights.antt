-- ===== src/Mm/Vm/Rights.antt =====
-- The rights that the entries of arch/x86/vm.c give.
use native.Mathlib.Nat.{pow-suc, div-div-eq-div-mul}
use march_os.Base.{
  ℕ, zero, suc, ◌+◌, ◌*◌, ◌/◌, ◌%◌, ◌≤◌, ◌<◌, ◌≡◌, refl, ◌∙◌, sym, ap, Bool, true, false, not, ◌&&◌,
  ◌||◌, some, ◌==◌, if◌then◌else◌, Bool-cases, inl, inr, arith,
}
use march_os.Mm.Mem.{Mem, load64}
use march_os.Mm.Pm.{Pm}
use march_os.Mm.Pm.Free.{Free}
use march_os.Mm.Vm.{user_addr_start}
use march_os.Mm.Vm.Lookup.{span, is_leaf, table_of, find}
use march_os.Mm.Vm.Tables.{Space, IsEntry, Tables}

-- The processor allows reading and writing at `va`, for code of a process if `user` holds and else
-- for the kernel: every entry on the way is present and has RW, and US for a process.
unfoldable pub allows : Mem → Bool → ℕ → ℕ → ℕ → Bool
allows m user zero table va = false
allows m user (suc n) table va =
    let e = load64 m (table + 8 * (va / span n % 512)) in
    let below = allows m user n (table_of e) va in
    not (e % 2 == 0)
    && not (e / 2 % 2 == 0)
    && (not user || not (e / 4 % 2 == 0))
    && (if is_leaf n e then true else below)

stretch_start : (n va : ℕ) → n < 4 → user_addr_start ≤ va → user_addr_start ≤ va / span n * span n
stretch_start zero va h high = omega arith
stretch_start (suc zero) va h high = omega arith
stretch_start (suc (suc zero)) va h high = omega arith
stretch_start (suc (suc (suc zero))) va h high = omega arith
stretch_start (suc (suc (suc (suc n)))) va h high = absurd (omega arith)

module _ {kernel_end memtotal : ℕ} {t : Space} {s : Pm} {f : Free}
    (tables : Tables kernel_end memtotal t s f) (va : ℕ) (user : Bool)
    (of_user : user ≡ true → user_addr_start ≤ va) where
  -- Where the tables lead an address, they allow the kernel's accesses to it, and those of a process
  -- if it is an address of processes.
  pub find-allows :
      (n b : ℕ) (r : ℕ × ℕ)
      → n < 5
      → t.level b ≡ n
      → t.part b ≡ va / span n
      → find s.mem n b va ≡ some r
      → allows s.mem user n b va ≡ true
  unfolding find allows
  find-allows zero b r levels l here found = let nothing = found in cc
  find-allows (suc n) b r levels l here found =
      let i = va / span n % 512 in
      let e = load64 s.mem (b + 8 * i) in
      let wider : va / span (suc n) ≡ va / span n / 512 =
        ap (λ (w : ℕ). va / w) (omega (arith, pow-suc 512 n))
        ∙ sym (div-div-eq-div-mul va (span n) 512) in
      let page : t.part b * 512 + i ≡ va / span n = omega (arith, here, wider) in
      let entry : IsEntry t n (va / span n) e = rw page at (tables.entries b n i l (omega arith)) in
      elim (Bool-cases (e % 2 == 0)) [
        | inl absent ↦ let nothing = rw absent at found in cc
        | inr present ↦
            let there : e % 2 ≡ 1 = ground (arith, present) in
            let writes : (e / 2 % 2 == 0) ≡ false = ground (arith, entry.writable there) in
            let users : (not user || not (e / 4 % 2 == 0)) ≡ true = elim (Bool-cases user) [
              | inl u ↦
                  let bit = entry.user there (stretch_start n va (omega arith) (of_user u)) in
                  ground (arith, bit)
              | inr k ↦ rw k refl
            ] in
            elim (Bool-cases (is_leaf n e)) [
              | inl leaf ↦ rw (present, writes, users, leaf) refl
              | inr more ↦
                  let below = entry.next there more in
                  rw (present, writes, users, more)
                    (find-allows n (table_of e) r (omega arith) below.0 below.1
                      (rw (present, more) at found))
            ]
      ]
