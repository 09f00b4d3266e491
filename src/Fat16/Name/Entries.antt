-- ===== src/Fat16/Name/Entries.antt =====
-- The entry of a directory that fat16_find_cluster takes.
use march_os.Base.{
  ℕ, zero, suc, ◌+◌, ◌*◌, ◌<◌, ◌≡◌, ◌⊎◌, refl, true, false, Bool-cases, inl, inr, List, arith,
}
use march_os.Mm.Mem.{Mem}
use march_os.Fat16.Name.{matches, packed, find_entry}

-- No one of the `n` entries from `a` on has the name.
abbrev pub NoMatch : Mem → List ℕ → ℕ → ℕ → Type 0
NoMatch m filename a n = (i : ℕ) → i < n → matches m filename (a + i * 32) ≡ false

NoMatch-suc :
    (m : Mem) (filename : List ℕ) (a n : ℕ)
    → matches m filename a ≡ false
    → NoMatch m filename (a + 32) n
    → NoMatch m filename a (suc n)
NoMatch-suc m filename a n first later zero h =
    let here : a + 0 * 32 ≡ a = omega arith in rw here first
NoMatch-suc m filename a n first later (suc i) h =
    let there : a + suc i * 32 ≡ a + 32 + i * 32 = omega arith in rw there (later i (omega arith))

-- The loop of fat16_find_cluster gives the cluster and the size of the first entry that has the
-- name, or 0 if there is none.
pub find_entry_lem :
    (m : Mem) (filename : List ℕ) (a n : ℕ)
    → ((find_entry m filename a n ≡ 0) × NoMatch m filename a n)
      ⊎ ((i : ℕ) × (i < n)
          × (matches m filename (a + i * 32) ≡ true)
          × NoMatch m filename a i
          × (find_entry m filename a n ≡ packed m (a + i * 32)))
unfolding find_entry
find_entry_lem m filename a zero = inl (refl, λ i h. absurd (omega arith))
find_entry_lem m filename a (suc n) = elim (Bool-cases (matches m filename a)) [
  | inl e ↦
      let here : a + 0 * 32 ≡ a = omega arith in
      inr (0, omega arith, rw here e, (λ i h. absurd (omega arith)), rw (here, e) refl)
  | inr e ↦ elim (find_entry_lem m filename (a + 32) n) [
    | inl (none_left, skip) ↦ inl (rw e none_left, NoMatch-suc m filename a n e skip)
    | inr (i, h, hit, skip, found) ↦
        let there : a + suc i * 32 ≡ a + 32 + i * 32 = omega arith in
        inr
          (suc i, omega arith, rw there hit, NoMatch-suc m filename a i e skip, rw (e, there) found)
  ]
]
