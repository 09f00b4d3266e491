-- ===== src/Base/Bits/Masks.antt =====
-- Masks and flags in the low bits: `& (2 ^ n - 1)`, `& ~(2 ^ n - 1)`, and `|` and `&` of a number
-- whose high part is a multiple of 2 ^ n.
use Prim.Native.Nat.{ℕ, zero, suc, ◌+◌, ◌-◌, ◌*◌, ◌/◌, ◌^◌, ◌<◌, bit_and, bit_or}
use mathlib.Core.Path.{◌≡◌, refl, ap, ◌∙◌}
use native.Mathlib.Omega.{arith}
use native.Mathlib.Nat.{pow-suc, one-le-pow}
use march_os.Base.Bits.{digit_ext, digit-bit_and, digit-zero, bit_or-zero}
use march_os.Base.Bits.Step.{split-bit_or, split-bit_and}

bit_and-zero : (a : ℕ) → bit_and a 0 ≡ 0
bit_and-zero a = digit_ext (bit_and a 0) 0 λ j. digit-bit_and a 0 j ∙ omega (arith, digit-zero j)

-- `&` with a mask of the low `n` bits leaves the remainder.
pub bit_and-low_mask : (n a q r : ℕ) → a ≡ q * 2 ^ n + r → r < 2 ^ n → bit_and a (2 ^ n - 1) ≡ r
bit_and-low_mask zero a q r e h = bit_and-zero a ∙ omega arith
bit_and-low_mask (suc n) a q r e h =
    let high = q * 2 ^ n in
    let twice : q * 2 ^ suc n ≡ 2 * high = omega (arith, ap (λ (t : ℕ). q * t) (pow-suc 2 n)) in
    let half : (2 ^ suc n - 1) / 2 ≡ 2 ^ n - 1 = omega (arith, pow-suc 2 n, one-le-pow n 2) in
    let ih = bit_and-low_mask n (a / 2) q (r / 2) (omega arith) (omega (arith, pow-suc 2 n)) in
    omega (arith, pow-suc 2 n, one-le-pow n 2, rw half at (split-bit_and (2 ^ suc n - 1) a), ih)

-- `&` with a mask of the bits from `n` on clears the remainder.
pub bit_and-high_mask :
    (n w a q r m : ℕ)
    → a ≡ q * 2 ^ n + r
    → r < 2 ^ n
    → q < 2 ^ w
    → m ≡ (2 ^ w - 1) * 2 ^ n
    → bit_and a m ≡ q * 2 ^ n
bit_and-high_mask zero w a q r m e h fits mask =
    let all : m ≡ 2 ^ w - 1 = omega arith in
    rw all (bit_and-low_mask w a 0 q (omega arith) fits ∙ omega arith)
bit_and-high_mask (suc n) w a q r m e h fits mask =
    let high = q * 2 ^ n in
    let ones = (2 ^ w - 1) * 2 ^ n in
    let twice : q * 2 ^ suc n ≡ 2 * high = omega (arith, ap (λ (t : ℕ). q * t) (pow-suc 2 n)) in
    let twice' : m ≡ 2 * ones = omega (arith, ap (λ (t : ℕ). (2 ^ w - 1) * t) (pow-suc 2 n)) in
    let ih =
      bit_and-high_mask n w (a / 2) q (r / 2) (m / 2) (omega arith) (omega (arith, pow-suc 2 n))
        fits (omega arith) in
    omega (arith, split-bit_and m a, ih)

-- `|` and `&` with a number below 2 ^ n concern the low part alone.
pub bit_or-low :
    (n a x f g : ℕ) → x ≡ a * 2 ^ n → f < 2 ^ n → g < 2 ^ n → bit_or (x + f) g ≡ x + bit_or f g
bit_or-low zero a x f g e hf hg =
    let f0 : f ≡ 0 = omega arith in
    let g0 : g ≡ 0 = omega arith in rw (f0, g0) (bit_or-zero (x + 0))
bit_or-low (suc n) a x f g e hf hg =
    let high = a * 2 ^ n in
    let twice : x ≡ 2 * high = omega (arith, ap (λ (t : ℕ). a * t) (pow-suc 2 n)) in
    let half : (x + f) / 2 ≡ high + f / 2 = omega arith in
    let ih =
      bit_or-low n a high (f / 2) (g / 2) refl (omega (arith, pow-suc 2 n))
        (omega (arith, pow-suc 2 n)) in
    omega (arith, rw half at (split-bit_or g (x + f)), split-bit_or g f, ih)

pub bit_and-low :
    (n a x f g : ℕ) → x ≡ a * 2 ^ n → f < 2 ^ n → g < 2 ^ n → bit_and (x + f) g ≡ bit_and f g
bit_and-low zero a x f g e hf hg =
    let f0 : f ≡ 0 = omega arith in
    let g0 : g ≡ 0 = omega arith in rw (f0, g0) (bit_and-zero (x + 0))
bit_and-low (suc n) a x f g e hf hg =
    let high = a * 2 ^ n in
    let twice : x ≡ 2 * high = omega (arith, ap (λ (t : ℕ). a * t) (pow-suc 2 n)) in
    let half : (x + f) / 2 ≡ high + f / 2 = omega arith in
    let ih =
      bit_and-low n a high (f / 2) (g / 2) refl (omega (arith, pow-suc 2 n))
        (omega (arith, pow-suc 2 n)) in
    omega (arith, rw half at (split-bit_and g (x + f)), split-bit_and g f, ih)

-- A field of `w` bits, `n` bits up, with `rest` above it.
pub bit_and-field :
    (n w rest v low a m : ℕ)
    → a ≡ rest * 2 ^ (n + w) + (v * 2 ^ n + low)
    → low < 2 ^ n
    → v < 2 ^ w
    → v * 2 ^ n + low < 2 ^ (n + w)
    → m < 2 ^ (n + w)
    → m ≡ (2 ^ w - 1) * 2 ^ n
    → bit_and a m ≡ v * 2 ^ n
bit_and-field n w rest v low a m e small fits below mask_fits mask = rw e (
    bit_and-low (n + w) rest (rest * 2 ^ (n + w)) (v * 2 ^ n + low) m refl below mask_fits
    ∙ bit_and-high_mask n w (v * 2 ^ n + low) v low m refl small fits mask)
