-- ===== src/Base/Bits/Step.antt =====
-- `|` and `&` halve: an equation for the lowest digit of each.
use Prim.Native.Nat.{
  ℕ, zero, suc, ◌+◌, ◌-◌, ◌*◌, ◌/◌, ◌%◌, ◌≤◌, min, max, digits, bit_and, bit_or, bit_and-bitwise,
  bit_or-bitwise,
}
use mathlib.Core.Path.{◌≡◌, refl, ◌∙◌}
use native.Mathlib.Omega.{arith}

module _ (z : ℕ → ℕ) (f : ℕ → ℕ → ℕ) where
  -- One more round changes nothing once there are as many rounds as the number is large.
  one_more : (n a b : ℕ) → a ≤ n → digits z f (suc n) a b ≡ digits z f n a b
  one_more zero zero b small = refl
  one_more zero (suc a) b small = absurd (omega arith)
  one_more (suc n) zero b small = refl
  one_more (suc n) (suc a) b small =
      let ih = one_more n (suc a / 2) (b / 2) (omega arith) in omega (arith, ih)

  many_more : (k n a b : ℕ) → a ≤ n → digits z f (k + n) a b ≡ digits z f n a b
  many_more zero n a b small = rw (Prim.Native.Nat.add.zero n)
  many_more (suc k) n a b small =
      rw (Prim.Native.Nat.add.suc k n)
        (one_more (k + n) a b (omega arith) ∙ many_more k n a b small)

  -- The round that deals with the lowest digit of a number other than 0.
  round :
      (x y : ℕ)
      → digits z f (suc x) (suc x) y
        ≡ f (suc x % 2) (y % 2) + 2 * digits z f (suc x / 2) (suc x / 2) (y / 2)
  round x y =
      let left_over = x - suc x / 2 in
      let rounds : left_over + suc x / 2 ≡ x = omega arith in
      let fewer = many_more left_over (suc x / 2) (suc x / 2) (y / 2) (omega arith) in
      omega (arith, rw rounds at fewer)

pub split-bit_and : (y x : ℕ) → bit_and x y ≡ min (x % 2) (y % 2) + 2 * bit_and (x / 2) (y / 2)
split-bit_and y zero = rw (bit_and-bitwise 0 y, bit_and-bitwise (0 / 2) (y / 2)) (omega arith)
split-bit_and y (suc x) =
    rw (bit_and-bitwise (suc x) y, bit_and-bitwise (suc x / 2) (y / 2)) (round (λ rest. 0) min x y)

pub split-bit_or : (y x : ℕ) → bit_or x y ≡ max (x % 2) (y % 2) + 2 * bit_or (x / 2) (y / 2)
split-bit_or y zero = rw (bit_or-bitwise 0 y, bit_or-bitwise (0 / 2) (y / 2)) (omega arith)
split-bit_or y (suc x) =
    rw (bit_or-bitwise (suc x) y, bit_or-bitwise (suc x / 2) (y / 2)) (round (λ rest. rest) max x y)
