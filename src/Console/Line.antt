-- ===== src/Console/Line.antt =====
-- Lines of output.
use march_os.Base.{
  ℕ, zero, suc, ◌/◌, ◌%◌, ◌≡◌, refl, ap, ◌∙◌, Bool, true, false, ◌==◌, if◌then◌else◌, Bool-cases,
  inl, inr, List, [], ◌∷◌, ◌++◌, arith,
}
use mathlib.Core.List.{append_assoc}
use march_os.Console.{digit_char, printn_depth, printn}

abbrev pub is_empty : List ℕ → Bool
is_empty [] = true
is_empty (c ∷ cs) = false

-- The only line break is the last character.
abbrev pub is_line : List ℕ → Bool
is_line [] = false
is_line (c ∷ cs) = if c == 10 then is_empty cs else is_line cs

is_line-digit_char : (d : ℕ) (rest : List ℕ) → is_line (digit_char d ∷ rest) ≡ is_line rest
is_line-digit_char d rest = ground arith

is_line-printn_depth :
    (k n base : ℕ) (rest : List ℕ) → is_line (printn_depth k n base ++ rest) ≡ is_line rest
unfolding printn_depth
is_line-printn_depth zero n base rest = refl
is_line-printn_depth (suc k) n base rest = elim (Bool-cases (n / base == 0)) [
  | inl e ↦ rw e (is_line-digit_char (n % base) rest)
  | inr e ↦ rw e (
      rw (append_assoc (printn_depth k (n / base) base) (digit_char (n % base) ∷ []) rest) (
        is_line-printn_depth k (n / base) base (digit_char (n % base) ∷ rest)
        ∙ is_line-digit_char (n % base) rest))
]

pub is_line-printn : (n base : ℕ) (rest : List ℕ) → is_line (printn n base ++ rest) ≡ is_line rest
unfolding printn
is_line-printn n base rest = is_line-printn_depth 64 n base rest

pub is_line-number :
    (n : ℕ) (xs ys : List ℕ) → is_line ((printn n 16 ++ xs) ++ ys) ≡ is_line (xs ++ ys)
is_line-number n xs ys =
    ap is_line (append_assoc (printn n 16) xs ys) ∙ is_line-printn n 16 (xs ++ ys)
