-- ===== src/Mm/Slab/Sectors.antt =====
-- The sectors of a chain, counted by address: how many of them are free at an address, and how
-- many are in use. The search of find_free_slab against these counts.
use march_os.Base.{
  ℕ, zero, suc, ◌+◌, ◌-◌, ◌*◌, ◌^◌, ◌≤◌, ◌<◌, ◌≡◌, ◌≢◌, refl, ap, Option, none, some, List, [], ◌∷◌,
  ◌==◌, if◌then◌else◌, Bool-cases, Option-cases, inl, inr, arith,
}
use march_os.Base.Bits.{
  is_clear, set_bit, digit, digit-set_bit, is_clear-true, is_clear-false, digit_complement,
  digit-zero,
}
use march_os.Mm.Slab.{Slab, Found, behind, first_clear, search_chain}

-- 1 at the address itself.
abbrev pub here : ℕ → ℕ → ℕ
here a b = if a == b then 1 else 0

-- The sum of `d` over the sectors `i` to `i + n - 1` that lie at the address `a`.
abbrev pub sectors : ℕ → ℕ → ℕ → ℕ → (ℕ → ℕ) → ℕ → ℕ
sectors zero i base size d a = 0
sectors (suc n) i base size d a =
    (if base + i * size == a then d i else 0) + sectors n (i + 1) base size d a

abbrev pub free_at : ℕ → ℕ → List Slab → ℕ → ℕ
free_at size pages [] a = 0
free_at size pages (e ∷ es) a =
    sectors pages 0 e.address size (λ i. 1 - digit e.bitmap i) a + free_at size pages es a

abbrev pub used_at : ℕ → ℕ → List Slab → ℕ → ℕ
used_at size pages [] a = 0
used_at size pages (e ∷ es) a =
    sectors pages 0 e.address size (λ i. digit e.bitmap i) a + used_at size pages es a

sectors_same :
    (n i base size : ℕ) (d d' : ℕ → ℕ) (a : ℕ)
    → ((j : ℕ) → i ≤ j → j < i + n → d' j ≡ d j)
    → sectors n i base size d' a ≡ sectors n i base size d a
sectors_same zero i base size d d' a same = refl
sectors_same (suc n) i base size d d' a same = ground (
  arith,
  same i (omega arith) (omega arith),
  sectors_same n (i + 1) base size d d' a (λ j p q. same j (omega arith) (omega arith)),
)

-- One sector more.
pub sectors_one :
    (n i base size k : ℕ) (d d' : ℕ → ℕ) (a : ℕ)
    → i ≤ k
    → k < i + n
    → d' k ≡ d k + 1
    → ((j : ℕ) → k ≢ j → d' j ≡ d j)
    → sectors n i base size d' a ≡ sectors n i base size d a + here (base + k * size) a
sectors_one zero i base size k d d' a low high more same = absurd (omega arith)
sectors_one (suc n) i base size k d d' a low high more same = elim (Bool-cases (i == k)) [
  | inl e ↦
      let at : i ≡ k = ground arith in
      ground (
        arith,
        ap d at,
        ap d' at,
        ap (λ (t : ℕ). base + t * size) at,
        sectors_same n (i + 1) base size d d' a (λ j p q. same j (ground arith)),
      )
  | inr e ↦ ground (arith, same i, sectors_one n (i + 1) base size k d d' a, same)
]

-- The first clear bit is a bit in range that is clear; without one all bits in range are set.
first_clear-some :
    (n i b k : ℕ) → first_clear n i b ≡ some k → (i ≤ k) × (k < i + n) × (digit b k ≡ 0)
unfolding first_clear
first_clear-some zero i b k e = cc
first_clear-some (suc n) i b k e = ground (arith, is_clear-true b i, first_clear-some n (i + 1) b k)

first_clear-none : (n i b j : ℕ) → first_clear n i b ≡ none → i ≤ j → j < i + n → digit b j ≡ 1
unfolding first_clear
first_clear-none zero i b j e p q = absurd (omega arith)
first_clear-none (suc n) i b j e p q = elim (Bool-cases (is_clear b i)) [
  | inl t ↦ absurd (cc (rw t at e))
  | inr t ↦ elim (Bool-cases (i == j)) [
    | inl s ↦ let at : i ≡ j = ground arith in ground (arith, is_clear-false b i t, ap (digit b) at)
    | inr s ↦ first_clear-none n (i + 1) b j (rw t at e) (ground arith) (omega arith)
  ]
]

full_digit : (j : ℕ) → j < 64 → digit (2 ^ 64 - 1) j ≡ 1
full_digit j h = omega (arith, digit_complement 64 0 j (omega arith) h, digit-zero j)

no_sectors :
    (n i base size : ℕ) (d : ℕ → ℕ) (a : ℕ)
    → ((j : ℕ) → i ≤ j → j < i + n → d j ≡ 0)
    → sectors n i base size d a ≡ 0
no_sectors zero i base size d a h = refl
no_sectors (suc n) i base size d a h = ground (
  arith,
  h i (omega arith) (omega arith),
  no_sectors n (i + 1) base size d a (λ j p q. h j (omega arith) (omega arith)),
)

module _ (size pages : ℕ) where
  -- What a search comes to: a free sector becomes a used one, or no sector of the chain is free.
  pub data Searched (es : List Slab) : Option Found → Type 0 where
    found :
        (f : Found)
        → ((a : ℕ) → free_at size pages es a ≡ free_at size pages f.chain a + here f.at a)
        → ((a : ℕ) → used_at size pages f.chain a ≡ used_at size pages es a + here f.at a)
        → Searched es (some f)
    full : ((a : ℕ) → free_at size pages es a ≡ 0) → Searched es none

  skip :
      (e : Slab) (es : List Slab) (r : Option Found)
      → ((j : ℕ) → j < pages → digit e.bitmap j ≡ 1)
      → Searched es r
      → Searched (e ∷ es) (behind e r)
  skip e es (some _) set (found f was now) =
      found (record { at = f.at; chain = e ∷ f.chain }) (λ a. omega (arith, was a))
        (λ a. omega (arith, now a))
  skip e es none set (full none_free) = full λ a. omega (
    arith,
    none_free a,
    no_sectors pages 0 e.address size (λ i. 1 - digit e.bitmap i) a
        (λ j p q. omega (arith, set j (omega arith))),
  )

  take_bit :
      (e : Slab) (es : List Slab) (k : ℕ)
      → (0 ≤ k) × (k < 0 + pages) × (digit e.bitmap k ≡ 0)
      → Searched (e ∷ es) (
          some (record {
            at = e.address + k * size;
            chain = record e { bitmap = set_bit e.bitmap k } ∷ es;
          }))
  take_bit e es k (low, high, clear) =
      found _
        (λ a. omega (
          arith,
          sectors_one pages 0 e.address size k (λ i. 1 - digit (set_bit e.bitmap k) i)
              (λ i. 1 - digit e.bitmap i) a low high (ground (arith, digit-set_bit e.bitmap k k))
              (λ j ne. ground (arith, digit-set_bit e.bitmap k j)),
        ))
        (λ a. omega (
          arith,
          sectors_one pages 0 e.address size k (digit e.bitmap) (digit (set_bit e.bitmap k)) a low
              high (ground (arith, digit-set_bit e.bitmap k k))
              (λ j ne. ground (arith, digit-set_bit e.bitmap k j)),
        ))

  pub search_chain-Searched :
      pages ≤ 64 → (es : List Slab) → Searched es (search_chain size pages es)
  unfolding search_chain
  search_chain-Searched fits [] = full (λ a. refl)
  search_chain-Searched fits (e ∷ es) = elim (Bool-cases (e.bitmap == 2 ^ 64 - 1)) [
    | inl t ↦ rw t (
        let ones : e.bitmap ≡ 2 ^ 64 - 1 = ground arith in
        skip e es _ (λ j q. rw ones (full_digit j (omega arith))) (search_chain-Searched fits es))
    | inr t ↦ rw t (elim (Option-cases (first_clear pages 0 e.bitmap)) [
      | inl n ↦ rw n (
          skip e es _ (λ j q. first_clear-none pages 0 e.bitmap j n (omega arith) (omega arith))
            (search_chain-Searched fits es))
      | inr (k, q) ↦ rw q (take_bit e es k (first_clear-some pages 0 e.bitmap k q))
    ])
  ]
