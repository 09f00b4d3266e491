-- ===== src/CString/Laws.antt =====
-- What the functions of string.c compute.
use march_os.Base.{
  ℕ, zero, suc, ◌+◌, ◌-◌, ◌≤◌, ◌<◌, ◌≡◌, ◌≢◌, ◌↔◌, ◌⊎◌, refl, ap, ◌∙◌, true, false, some, List, [],
  ◌∷◌, ◌==◌, if◌then◌else◌, Bool-cases, inl, inr, length, within, arith,
}
use march_os.Mm.Mem.{Mem, update}
use march_os.CString.{memcpy, memcmp, strcmp}

-- memcpy copies the source's old bytes and changes nothing else, if the source does not begin
-- inside the destination's tail: the ranges are apart, or the destination lies lower.
pub memcpy_lem :
    (m : Mem) (dest src n q : ℕ)
    → (dest ≤ src) ⊎ (src + n ≤ dest)
    → memcpy m dest src n q ≡ (if within dest n q then m (src + (q - dest)) else m q)
unfolding memcpy
memcpy_lem m dest src zero q apart = ground arith
memcpy_lem m dest src (suc n) q apart =
    let later : (dest + 1 ≤ src + 1) ⊎ (src + 1 + n ≤ dest + 1) = omega arith in
    let ih = memcpy_lem (update m dest (m src)) (dest + 1) (src + 1) n q later in
    elim (Bool-cases (within (dest + 1) n q)) [
      | inl i ↦
          let step : src + 1 + (q - (dest + 1)) ≡ src + (q - dest) = ground arith in
          let other : (dest == src + (q - dest)) ≡ false = ground arith in
          let inside : within dest (suc n) q ≡ true = ground arith in
          rw (ih, i, inside, step, other)
      | inr o ↦ elim (Bool-cases (dest == q)) [
        | inl e ↦
            let inside : within dest (suc n) q ≡ true = ground arith in
            let none_yet : src + (q - dest) ≡ src = ground arith in rw (ih, o, inside, e, none_yet)
        | inr ne ↦
            let outside : within dest (suc n) q ≡ false = ground arith in rw (ih, o, outside, ne)
      ]
    ]

-- memcpy writes nowhere but in its destination.
pub memcpy_outside :
    (m : Mem) (dest src n q : ℕ) → within dest n q ≡ false → memcpy m dest src n q ≡ m q
unfolding memcpy
memcpy_outside m dest src zero q out = refl
memcpy_outside m dest src (suc n) q out =
    let later : within (dest + 1) n q ≡ false = ground arith in
    let other : (dest == q) ≡ false = ground arith in
    memcpy_outside (update m dest (m src)) (dest + 1) (src + 1) n q later ∙ rw other refl

memcmp_sound : (m : Mem) (p q n : ℕ) → memcmp m p q n ≡ 0 → (i : ℕ) → i < n → m (p + i) ≡ m (q + i)
unfolding memcmp
memcmp_sound m p q zero e i h = absurd (omega arith)
memcmp_sound m p q (suc n) e zero h =
    let start : (p + 0 ≡ p) × (q + 0 ≡ q) = omega arith in rw (start.0, start.1) (ground arith)
memcmp_sound m p q (suc n) e (suc i) h =
    let next : (p + suc i ≡ p + 1 + i) × (q + suc i ≡ q + 1 + i) = omega arith in
    rw (next.0, next.1) (memcmp_sound m (p + 1) (q + 1) n (ground arith) i (omega arith))

memcmp_complete :
    (m : Mem) (p q n : ℕ) → ((i : ℕ) → i < n → m (p + i) ≡ m (q + i)) → memcmp m p q n ≡ 0
unfolding memcmp
memcmp_complete m p q zero h = refl
memcmp_complete m p q (suc n) h =
    let start : (p + 0 ≡ p) × (q + 0 ≡ q) = omega arith in
    let first : m p ≡ m q = rw (start.0, start.1) at (h 0 (omega arith)) in
    let rest = memcmp_complete m (p + 1) (q + 1) n λ i k.
      let next : (p + suc i ≡ p + 1 + i) × (q + suc i ≡ q + 1 + i) = omega arith in
      rw (next.0, next.1) at (h (suc i) (omega arith)) in
    ground (arith, first, rest)

-- memcmp is 0 exactly when the two ranges hold the same bytes.
pub memcmp-zero :
    (m : Mem) (p q n : ℕ) → (memcmp m p q n ≡ 0) ↔ ((i : ℕ) → i < n → m (p + i) ≡ m (q + i))
memcmp-zero m p q n = (memcmp_sound m p q n, memcmp_complete m p q n)

-- The bytes of a C string: none of them is NUL, and NUL follows.
abbrev pub IsString : Mem → ℕ → List ℕ → Type 0
IsString m p [] = m p ≡ 0
IsString m p (x ∷ xs) = (m p ≡ x) × (x ≢ 0) × IsString m (p + 1) xs

-- What strcmp computes of two texts.
abbrev pub equal : List ℕ → List ℕ → ℕ
equal [] [] = 0
equal [] (y ∷ ys) = 1
equal (x ∷ xs) [] = 1
equal (x ∷ xs) (y ∷ ys) = if x == y then equal xs ys else 1

strcmp-equal :
    (k : ℕ) (m : Mem) (p q : ℕ) (xs ys : List ℕ)
    → IsString m p xs
    → IsString m q ys
    → length xs < k
    → strcmp k m p q ≡ some (equal xs ys)
unfolding strcmp
strcmp-equal zero m p q xs ys s t fuel = absurd (omega arith)
strcmp-equal (suc k) m p q [] [] s t fuel = ground arith
strcmp-equal (suc k) m p q [] (y ∷ ys) s t fuel = ground arith
strcmp-equal (suc k) m p q (x ∷ xs) [] s t fuel = ground arith
strcmp-equal (suc k) m p q (x ∷ xs) (y ∷ ys) s t fuel =
    ground (arith, strcmp-equal k m (p + 1) (q + 1) xs ys s.2 t.2)

pub equal_sound : (xs ys : List ℕ) → equal xs ys ≡ 0 → xs ≡ ys
equal_sound [] [] e = refl
equal_sound [] (y ∷ ys) e = absurd (omega arith)
equal_sound (x ∷ xs) [] e = absurd (omega arith)
equal_sound (x ∷ xs) (y ∷ ys) e = ground (arith, equal_sound xs ys)

equal_refl : (xs : List ℕ) → equal xs xs ≡ 0
equal_refl [] = refl
equal_refl (x ∷ xs) = ground (arith, equal_refl xs)

equal-cases : (xs ys : List ℕ) → (equal xs ys ≡ 0) ⊎ (equal xs ys ≡ 1)
equal-cases [] [] = inl refl
equal-cases [] (y ∷ ys) = inr refl
equal-cases (x ∷ xs) [] = inr refl
equal-cases (x ∷ xs) (y ∷ ys) = ground (arith, equal-cases xs ys)

equal_ne : (xs ys : List ℕ) → equal xs ys ≡ 1 → xs ≢ ys
equal_ne xs ys o same =
    let both : equal ys ys ≡ 1 = rw same at o in absurd (omega (arith, both, equal_refl ys))

-- strcmp of two C strings ends, within as many rounds as the first has bytes and one more, and
-- is 0 if they are equal and 1 if they are not.
pub strcmp_lem :
    (k : ℕ) (m : Mem) (p q : ℕ) (xs ys : List ℕ)
    → IsString m p xs
    → IsString m q ys
    → length xs < k
    → ((xs ≡ ys) × (strcmp k m p q ≡ some 0)) ⊎ ((xs ≢ ys) × (strcmp k m p q ≡ some 1))
strcmp_lem k m p q xs ys s t fuel =
    let e = strcmp-equal k m p q xs ys s t fuel in
    elim (equal-cases xs ys) [
      | inl z ↦ inl (equal_sound xs ys z, e ∙ ap some z)
      | inr o ↦ inr (λ same. equal_ne xs ys o same, e ∙ ap some o)
    ]
