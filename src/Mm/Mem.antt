-- ===== src/Mm/Mem.antt =====
-- Physical memory as bytes, the 8-byte words of the free lists, and memset of string.c.
use march_os.Base.{
  ℕ, zero, suc, ◌+◌, ◌-◌, ◌*◌, ◌/◌, ◌%◌, ◌^◌, ◌<◌, ◌≡◌, true, false, arith, ◌==◌, if◌then◌else◌,
  within,
}

abbrev pub Mem : Type 0
Mem = ℕ → ℕ

abbrev pub update : Mem → ℕ → ℕ → Mem
update m a v q = if a == q then v else m q

-- The 16 and the 32 bits at an address, little-endian.
abbrev pub half : Mem → ℕ → ℕ
half b a = b a + 2 ^ 8 * b (a + 1)

abbrev pub word : Mem → ℕ → ℕ
word b a = b a + 2 ^ 8 * b (a + 1) + 2 ^ 16 * b (a + 2) + 2 ^ 24 * b (a + 3)

-- `*(uintptr *)a`, little-endian
unfoldable pub load64 : Mem → ℕ → ℕ
load64 m a =
    m a
    + m (a + 1) * 2 ^ 8
    + m (a + 2) * 2 ^ 16
    + m (a + 3) * 2 ^ 24
    + m (a + 4) * 2 ^ 32
    + m (a + 5) * 2 ^ 40
    + m (a + 6) * 2 ^ 48
    + m (a + 7) * 2 ^ 56

-- `*(uintptr *)a = v`
unfoldable pub store64 : Mem → ℕ → ℕ → Mem
store64 m a v q = if within a 8 q then v / 2 ^ (8 * (q - a)) % 2 ^ 8 else m q

-- the loop of memset, a byte at a time
unfoldable pub memset : Mem → ℕ → ℕ → ℕ → Mem
memset m a c zero = m
memset m a c (suc n) = memset (update m a c) (a + 1) c n

byte_shift : (m : Mem) (a v k : ℕ) → k < 8 → store64 m a v (a + k) ≡ v / 2 ^ (8 * k) % 2 ^ 8
unfolding store64
byte_shift m a v k h =
    let inside : within a 8 (a + k) ≡ true = ground arith in
    let back : a + k - a ≡ k = omega arith in rw (inside, back)

byte_shift-zero : (m : Mem) (a v : ℕ) → store64 m a v a ≡ v % 2 ^ 8
unfolding store64
byte_shift-zero m a v =
    let inside : within a 8 a ≡ true = ground arith in
    let back : a - a ≡ 0 = omega arith in rw (inside, back) (omega arith)

-- A word that is stored is read back.
pub load64-store64_self : (m : Mem) (a v : ℕ) → v < 2 ^ 64 → load64 (store64 m a v) a ≡ v
unfolding load64
load64-store64_self m a v h = omega (
  arith,
  byte_shift-zero m a v,
  byte_shift m a v 1 (omega arith),
  byte_shift m a v 2 (omega arith),
  byte_shift m a v 3 (omega arith),
  byte_shift m a v 4 (omega arith),
  byte_shift m a v 5 (omega arith),
  byte_shift m a v 6 (omega arith),
  byte_shift m a v 7 (omega arith),
)

pub store64_outside : (m : Mem) (a v q : ℕ) → within a 8 q ≡ false → store64 m a v q ≡ m q
unfolding store64
store64_outside m a v q h = rw h

-- A word depends on its eight bytes alone.
pub load64_ext :
    (m m' : Mem) (a : ℕ) → ((q : ℕ) → within a 8 q ≡ true → m' q ≡ m q) → load64 m' a ≡ load64 m a
unfolding load64
load64_ext m m' a same = omega (
  arith,
  same a (ground arith),
  same (a + 1) (ground arith),
  same (a + 2) (ground arith),
  same (a + 3) (ground arith),
  same (a + 4) (ground arith),
  same (a + 5) (ground arith),
  same (a + 6) (ground arith),
  same (a + 7) (ground arith),
)

-- memset sets the bytes of its range and no other.
pub memset_lem : (m : Mem) (a c n q : ℕ) → memset m a c n q ≡ (if within a n q then c else m q)
unfolding memset
memset_lem m a c zero q = ground arith
memset_lem m a c (suc n) q = ground (arith, memset_lem (update m a c) (a + 1) c n q)
