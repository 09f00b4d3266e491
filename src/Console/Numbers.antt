-- ===== src/Console/Numbers.antt =====
-- printn of serial.c prints the number: its digits, read back in the base, are the number.
use native.Mathlib.Nat.{pow-suc, mod-lt, mod-add-div'}
use march_os.Base.{
  ℕ, zero, suc, ◌+◌, ◌-◌, ◌*◌, ◌/◌, ◌%◌, ◌^◌, ◌≤◌, ◌<◌, ◌≡◌, ◌≢◌, refl, ap, ltb, ◌==◌,
  if◌then◌else◌, Bool-cases, inl, inr, List, [], ◌∷◌, ◌++◌, arith,
}
use march_os.Console.{digit_char, printn_depth, printn}

-- The value of a digit, and of a row of digits after `acc`.
abbrev pub digit_value : ℕ → ℕ
digit_value c = if ltb c 58 then c - 48 else c - 55

abbrev pub value : ℕ → ℕ → List ℕ → ℕ
value base acc [] = acc
value base acc (c ∷ cs) = value base (acc * base + digit_value c) cs

value-append :
    (base acc : ℕ) (xs : List ℕ) (c : ℕ)
    → value base acc (xs ++ c ∷ []) ≡ value base acc xs * base + digit_value c
value-append base acc [] c = refl
value-append base acc (x ∷ xs) c = value-append base (acc * base + digit_value x) xs c

digit_value-digit_char : (d : ℕ) → d < 16 → digit_value (digit_char d) ≡ d
digit_value-digit_char d h = ground arith

half_bound : (n base b : ℕ) → 2 ≤ base → n < 2 * b → n / base < b
half_bound n base b two h = grind arith

only :
    (n base : ℕ)
    → digit_value (digit_char (n % base)) ≡ n % base
    → n / base ≡ 0
    → 0 * base + digit_value (digit_char (n % base)) ≡ n
only n base last e = omega (arith, last, mod-add-div' n base, ap (λ (t : ℕ). t * base) e)

deeper : (k q : ℕ) → q < 2 ^ k → q ≢ 0 → 0 < k
deeper zero q h ne = absurd (omega arith)
deeper (suc k) q h ne = omega arith

value-printn_depth :
    (k n base : ℕ)
    → 2 ≤ base
    → base ≤ 16
    → n < 2 ^ k
    → 0 < k
    → value base 0 (printn_depth k n base) ≡ n
unfolding printn_depth
value-printn_depth zero n base two sixteen h pos = absurd (omega arith)
value-printn_depth (suc k) n base two sixteen h pos =
    let last : digit_value (digit_char (n % base)) ≡ n % base =
      digit_value-digit_char (n % base) (omega (arith, mod-lt n {m = base} (omega arith))) in
    let parts = mod-add-div' n base in
    let next = half_bound n base (2 ^ k) two (omega (arith, pow-suc 2 k)) in
    elim (Bool-cases (n / base == 0)) [
      | inl e ↦ rw e (only n base last (ground arith))
      | inr e ↦
          let deep : 0 < k = deeper k (n / base) next (ground arith) in
          rw e (
            rw (value-append base 0 (printn_depth k (n / base) base)) (
              omega (
                arith,
                last,
                parts,
                ap (λ (t : ℕ). t * base)
                    (value-printn_depth k (n / base) base two sixteen next deep),
              )))
    ]

-- printn in a base from 2 to 16 prints a 64-bit number as a row of digits that has that number for
-- its value.
pub value-printn :
    (n base : ℕ) → 2 ≤ base → base ≤ 16 → n < 2 ^ 64 → value base 0 (printn n base) ≡ n
unfolding printn
value-printn n base two sixteen h = value-printn_depth 64 n base two sixteen h (omega arith)

only_digit : (n base : ℕ) → n / base ≡ 0 → n % base ≡ n
only_digit n base e = omega (arith, mod-add-div' n base, ap (λ (t : ℕ). t * base) e)

no_leading_zero :
    (k n base : ℕ)
    → 2 ≤ base
    → base ≤ 16
    → n < 2 ^ k
    → 0 < n
    → (c : ℕ) × (cs : List ℕ) × (printn_depth k n base ≡ c ∷ cs) × (c ≢ 48)
unfolding printn_depth
no_leading_zero zero n base two sixteen h pos = absurd (omega arith)
no_leading_zero (suc k) n base two sixteen h pos = elim (Bool-cases (n / base == 0)) [
  | inl e ↦ rw e (digit_char (n % base), [], refl, ground (arith, only_digit n base (ground arith)))
  | inr e ↦
      let next = half_bound n base (2 ^ k) two (omega (arith, pow-suc 2 k)) in
      let (c, cs, eq, ne) = no_leading_zero k (n / base) base two sixteen next (ground arith) in
      rw (e, eq) (c, cs ++ digit_char (n % base) ∷ [], refl, ne)
]

-- printn of a number other than 0 does not begin with the digit 0.
pub printn_first :
    (n base : ℕ)
    → 2 ≤ base
    → base ≤ 16
    → n < 2 ^ 64
    → 0 < n
    → (c : ℕ) × (cs : List ℕ) × (printn n base ≡ c ∷ cs) × (c ≢ 48)
unfolding printn
printn_first n base = no_leading_zero 64 n base
