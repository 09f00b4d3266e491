-- ===== src/Base/Bits.antt =====
-- The binary digits of a number, and `&`, `|` and `~` digit by digit.
mod Step
pub mod Masks
use Step.{split-bit_or, split-bit_and}
use Prim.Native.Nat.{
  ℕ, zero, suc, ◌+◌, ◌-◌, ◌*◌, ◌/◌, ◌%◌, ◌^◌, ◌≤◌, ◌<◌, min, max, bit_and, bit_or, compare,
  Ordering,
}
use mathlib.Core.Path.{◌≡◌, refl, ap, ◌∙◌}
use mathlib.Core.Logic.{◌≢◌}
use mathlib.Core.Bool.{Bool, true, false}
use native.Mathlib.Omega.{arith}
use native.Mathlib.Nat.{pow-suc, one-le-pow}
use march_os.Base.Tests.{◌==◌, if◌then◌else◌}

-- The digit of weight 2 ^ j.
unfoldable pub digit : ℕ → ℕ → ℕ
digit a zero = a % 2
digit a (suc j) = digit (a / 2) j

pub digit-le : (a j : ℕ) → digit a j ≤ 1
unfolding digit
digit-le a zero = omega arith
digit-le a (suc j) = digit-le (a / 2) j

pub digit-bit_or : (a b j : ℕ) → digit (bit_or a b) j ≡ max (digit a j) (digit b j)
unfolding digit
digit-bit_or a b zero = omega (arith, split-bit_or b a)
digit-bit_or a b (suc j) =
    let half : bit_or a b / 2 ≡ bit_or (a / 2) (b / 2) = omega (arith, split-bit_or b a) in
    rw half (digit-bit_or (a / 2) (b / 2) j)

pub digit-bit_and : (a b j : ℕ) → digit (bit_and a b) j ≡ min (digit a j) (digit b j)
unfolding digit
digit-bit_and a b zero = omega (arith, split-bit_and b a)
digit-bit_and a b (suc j) =
    let half : bit_and a b / 2 ≡ bit_and (a / 2) (b / 2) = omega (arith, split-bit_and b a) in
    rw half (digit-bit_and (a / 2) (b / 2) j)

pub digit-zero : (j : ℕ) → digit 0 j ≡ 0
unfolding digit
digit-zero zero = refl
digit-zero (suc j) = digit-zero j

digit-pow : (i j : ℕ) → digit (2 ^ i) j ≡ (if i == j then 1 else 0)
unfolding digit
digit-pow zero zero = refl
digit-pow zero (suc j) = digit-zero j ∙ ground arith
digit-pow (suc i) zero = ground (arith, pow-suc 2 i)
digit-pow (suc i) (suc j) =
    let half : 2 ^ suc i / 2 ≡ 2 ^ i = omega (arith, pow-suc 2 i) in
    rw half (digit-pow i j ∙ ground arith)

-- Numbers with the same digits are equal.
digit_ext_fuel : (n a b : ℕ) → a ≤ n → b ≤ n → ((j : ℕ) → digit a j ≡ digit b j) → a ≡ b
unfolding digit
digit_ext_fuel zero a b p q h = omega arith
digit_ext_fuel (suc n) a b p q h =
    omega
      (arith, h 0, digit_ext_fuel n (a / 2) (b / 2) (omega arith) (omega arith) (λ j. h (suc j)))

pub digit_ext : (a b : ℕ) → ((j : ℕ) → digit a j ≡ digit b j) → a ≡ b
digit_ext a b = digit_ext_fuel (a + b) a b (omega arith) (omega arith)

-- The digits of a number below 2 ^ n stop at n.
pub digit_high : (n a j : ℕ) → a < 2 ^ n → n ≤ j → digit a j ≡ 0
unfolding digit
digit_high zero a j h q = let nothing : a ≡ 0 = omega arith in rw nothing (digit-zero j)
digit_high (suc n) a zero h q = absurd (omega arith)
digit_high (suc n) a (suc j) h q = digit_high n (a / 2) j (omega (arith, pow-suc 2 n)) (omega arith)

pub digit_complement : (n a j : ℕ) → a < 2 ^ n → j < n → digit (2 ^ n - 1 - a) j ≡ 1 - digit a j
unfolding digit
digit_complement zero a j h q = absurd (omega arith)
digit_complement (suc n) a zero h q = omega (arith, pow-suc 2 n)
digit_complement (suc n) a (suc j) h q =
    let half : (2 ^ suc n - 1 - a) / 2 ≡ 2 ^ n - 1 - a / 2 = omega (arith, pow-suc 2 n) in
    rw half (digit_complement n (a / 2) j (omega (arith, pow-suc 2 n)) (omega arith))

-- The operations of a bitmap: is the bit clear, set it, clear it (`& ~(1ULL << i)`).
abbrev pub is_clear : ℕ → ℕ → Bool
is_clear bitmap i = bit_and bitmap (2 ^ i) == 0

abbrev pub set_bit : ℕ → ℕ → ℕ
set_bit bitmap i = bit_or bitmap (2 ^ i)

abbrev pub clear_bit : ℕ → ℕ → ℕ
clear_bit bitmap i = bit_and bitmap (2 ^ 64 - 1 - 2 ^ i)

pub digit-set_bit : (b i j : ℕ) → digit (set_bit b i) j ≡ (if i == j then 1 else digit b j)
digit-set_bit b i j = ground (arith, digit-bit_or b (2 ^ i) j, digit-pow i j, digit-le b j)

pub is_clear-true : (b i : ℕ) → is_clear b i ≡ true → digit b i ≡ 0
is_clear-true b i h =
    let nothing : bit_and b (2 ^ i) ≡ 0 = ground arith in
    let zero_digit : digit (bit_and b (2 ^ i)) i ≡ 0 = rw nothing (digit-zero i) in
    ground (arith, zero_digit, digit-bit_and b (2 ^ i) i, digit-pow i i)

bit_and-pow_zero : (b i : ℕ) → digit b i ≡ 0 → bit_and b (2 ^ i) ≡ 0
bit_and-pow_zero b i e =
    digit_ext (bit_and b (2 ^ i)) 0
      (λ j. ground (arith, digit-bit_and b (2 ^ i) j, digit-pow i j, digit-zero j))

pub is_clear-false : (b i : ℕ) → is_clear b i ≡ false → digit b i ≡ 1
is_clear-false b i h = ground (arith, digit-le b i, bit_and-pow_zero b i)

pub is_clear_iff : (b i : ℕ) → digit b i ≡ 0 → is_clear b i ≡ true
is_clear_iff b i e = ground (arith, bit_and-pow_zero b i e)

pow-lt : (n i : ℕ) → i < n → 2 ^ i < 2 ^ n
pow-lt zero i h = absurd (omega arith)
pow-lt (suc n) zero h = omega (arith, pow-suc 2 n, one-le-pow n 2)
pow-lt (suc n) (suc i) h = omega (arith, pow-suc 2 n, pow-suc 2 i, pow-lt n i (omega arith))

pub digit-clear_bit :
    (b i j : ℕ) → b < 2 ^ 64 → i < 64 → digit (clear_bit b i) j ≡ (if i == j then 0 else digit b j)
digit-clear_bit b i j word h = ground (
  arith,
  digit-bit_and b (2 ^ 64 - 1 - 2 ^ i) j,
  digit_complement 64 (2 ^ i) j (pow-lt 64 i h),
  digit-pow i j,
  digit_high 64 b j word,
  digit-le b j,
)

-- Clearing a bit that was clear and has been set gives the bitmap back.
pub clear_bit-set_bit :
    (b i : ℕ)
    → b < 2 ^ 64
    → i < 64
    → set_bit b i < 2 ^ 64
    → digit b i ≡ 0
    → clear_bit (set_bit b i) i ≡ b
clear_bit-set_bit b i word h word' e =
    digit_ext (clear_bit (set_bit b i) i) b
      λ j. ground (arith, digit-clear_bit (set_bit b i) i j word' h, digit-set_bit b i j)

-- A bitmap of 64 bits stays one.
lt_of_digits : (n a : ℕ) → ((j : ℕ) → n ≤ j → digit a j ≡ 0) → a < 2 ^ n
unfolding digit
lt_of_digits zero a h =
    let nothing : a ≡ 0 = digit_ext a 0 (λ j. h j (omega arith) ∙ ground (arith, digit-zero j)) in
    omega arith
lt_of_digits (suc n) a h =
    omega (arith, pow-suc 2 n, lt_of_digits n (a / 2) (λ j le. h (suc j) (omega arith)))

pub set_bit-lt : (b i : ℕ) → b < 2 ^ 64 → i < 64 → set_bit b i < 2 ^ 64
set_bit-lt b i word h =
    lt_of_digits 64 (set_bit b i)
      (λ j le. ground (arith, digit-set_bit b i j, digit_high 64 b j word le))

pub clear_bit-lt : (b i : ℕ) → b < 2 ^ 64 → clear_bit b i < 2 ^ 64
clear_bit-lt b i word =
    lt_of_digits 64 (clear_bit b i)
      (λ j le. ground (arith, digit-bit_and b (2 ^ 64 - 1 - 2 ^ i) j, digit_high 64 b j word le))

pub bit_or-zero : (a : ℕ) → bit_or a 0 ≡ a
bit_or-zero a = digit_ext (bit_or a 0) a λ j. digit-bit_or a 0 j ∙ omega (arith, digit-zero j)

-- `|` of numbers that share no digit is their sum.
pub bit_or-disjoint : (n a x b : ℕ) → x ≡ a * 2 ^ n → b < 2 ^ n → bit_or x b ≡ x + b
bit_or-disjoint zero a x b e h =
    let nothing : b ≡ 0 = omega arith in rw nothing (bit_or-zero x ∙ omega arith)
bit_or-disjoint (suc n) a x b e h =
    let twice : x ≡ 2 * (a * 2 ^ n) = omega (arith, ap (λ (t : ℕ). a * t) (pow-suc 2 n)) in
    let ih = bit_or-disjoint n a (x / 2) (b / 2) (omega arith) (omega (arith, pow-suc 2 n)) in
    omega (arith, split-bit_or b x, ih)
