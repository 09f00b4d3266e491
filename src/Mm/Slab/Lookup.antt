-- ===== src/Mm/Slab/Lookup.antt =====
-- The search of kmfree in mm/slab.c for the slab that holds an address, and the depth of the calls
-- that kmfree makes of itself.
use march_os.Base.{
  ℕ, zero, suc, ◌+◌, ◌≤◌, ◌<◌, ◌≡◌, refl, sym, ap, ◌∙◌, true, false, some, List, [], ◌∷◌, ◌++◌,
  ◌==◌, Bool-cases, Option-cases, inl, inr, length, length-append, arith,
}
use mathlib.Core.List.{append_assoc}
use mathlib.Core.Option.{some-injective}
use mathlib.Core.Path.{subst}
use march_os.Mm.Pm.{bytes}
use march_os.Mm.Slab.{Slab, Place, holds, block_of, find_entry, find_place, update_chain, entries}

-- The entry stands in its chain where the parts say, and its block holds the address.
pub record IsPlace (slabs : ℕ → List Slab) (addr : ℕ) (p : Place) : Type 0 where
  pub chain : slabs p.idx ≡ p.before ++ p.entry ∷ p.after
  pub held : holds (bytes (block_of p.idx)) addr p.entry ≡ true

find_entry_sound :
    (idx addr : ℕ) (before es : List Slab) (p : Place)
    → find_entry idx addr before es ≡ some p
    → (p.idx ≡ idx)
      × (before ++ es ≡ p.before ++ p.entry ∷ p.after)
      × (holds (bytes (block_of idx)) addr p.entry ≡ true)
unfolding find_entry
find_entry_sound idx addr before [] p e = cc
find_entry_sound idx addr before (x ∷ es) p e =
    elim (Bool-cases (holds (bytes (block_of idx)) addr x)) [
      | inl t ↦
          subst
            (λ (q : Place).
              (q.idx ≡ idx)
              × (before ++ x ∷ es ≡ q.before ++ q.entry ∷ q.after)
              × (holds (bytes (block_of idx)) addr q.entry ≡ true))
            (some-injective _ p (rw t at e)) (refl, refl, t)
      | inr t ↦
          let (same, chain, held) = find_entry_sound idx addr (before ++ x ∷ []) es p (rw t at e) in
          (same, sym (append_assoc before (x ∷ []) es) ∙ chain, held)
    ]

find_place_range :
    (n i addr : ℕ) (slabs : ℕ → List Slab) (p : Place)
    → find_place n i addr slabs ≡ some p
    → (i ≤ p.idx) × (p.idx < i + n) × IsPlace slabs addr p
unfolding find_place
find_place_range zero i addr slabs p e = cc
find_place_range (suc n) i addr slabs p e = elim (Option-cases (find_entry i addr [] (slabs i))) [
  | inl t ↦
      let (low, high, at) = find_place_range n (i + 1) addr slabs p (rw (t, find_place) at e) in
      (omega arith, omega arith, at)
  | inr (q, t) ↦
      let same : q ≡ p = some-injective q p (rw (t, find_place) at e) in
      let (idx, chain, held) = find_entry_sound i addr [] (slabs i) q t in
      subst (λ (r : Place). (i ≤ r.idx) × (r.idx < i + suc n) × IsPlace slabs addr r) same
        (omega arith, omega arith, record { chain = ap slabs idx ∙ chain; held = rw idx held })
]

-- What kmfree finds is a slab of one of the 14 chains whose block holds the address.
pub find_place-IsPlace :
    (addr : ℕ) (slabs : ℕ → List Slab) (p : Place)
    → find_place 14 0 addr slabs ≡ some p
    → (p.idx < 14) × IsPlace slabs addr p
find_place-IsPlace addr slabs p e =
    let (_, high, at) = find_place_range 14 0 addr slabs p e in (omega arith, at)

-- A chain that is replaced changes the number of slabs by its own.
entries_update :
    (n i : ℕ) (slabs : ℕ → List Slab) (idx : ℕ) (c : List Slab)
    → i ≤ idx
    → idx < i + n
    → entries n i (update_chain slabs idx c) + length (slabs idx) ≡ entries n i slabs + length c
entries_update zero i slabs idx c low high = absurd (omega arith)
entries_update (suc n) i slabs idx c low high = elim (Bool-cases (idx == i)) [
  | inl e ↦
      let at : idx ≡ i = ground arith in
      rw e (
        omega (
          arith,
          ap (λ j. length (slabs j)) at,
          entries_before n (i + 1) slabs idx c (omega arith),
        ))
  | inr e ↦ rw e (ground (arith, entries_update n (i + 1) slabs idx c))
]
  where
    entries_before :
        (n i : ℕ) (slabs : ℕ → List Slab) (idx : ℕ) (c : List Slab)
        → idx < i
        → entries n i (update_chain slabs idx c) ≡ entries n i slabs
    entries_before zero i slabs idx c h = refl
    entries_before (suc n) i slabs idx c h =
        let e : (idx == i) ≡ false = ground arith in
        rw e (omega (arith, entries_before n (i + 1) slabs idx c (omega arith)))

pub entries-unlink :
    (addr : ℕ) (slabs : ℕ → List Slab) (p : Place)
    → (p.idx < 14) × IsPlace slabs addr p
    → suc (entries 14 0 (update_chain slabs p.idx (p.before ++ p.after))) ≡ entries 14 0 slabs
entries-unlink addr slabs p (high, at) = omega (
  arith,
  entries_update 14 0 slabs p.idx (p.before ++ p.after) (omega arith) high,
  ap length at.chain,
  length-append p.before p.after,
  length-append p.before (p.entry ∷ p.after),
)
