-- ===== src/Tests/Strings.antt =====
-- The functions of string.c on concrete bytes.
use march_os.Base.{ℕ, ◌≡◌, ◌≢◌, refl, ◌⊎◌, some, List, [], ◌∷◌, arith}
use march_os.Mm.Mem.{Mem, update}
use march_os.CString.{memcpy, memcmp, strcmp}
use march_os.CString.Laws.{strcmp_lem}

-- "AB" at 100 and "AC" at 200.
abbrev words : Mem
words = update (update (update (update (λ a. 0) 100 b'A') 101 b'B') 200 b'A') 201 b'C'

copied : memcpy words 300 100 3 301 ≡ b'B'
unfolding memcpy
copied = refl

compared : memcmp words 100 200 2 ≡ 1
unfolding memcmp
compared = refl

abbrev ab : List ℕ
ab = b'A' ∷ b'B' ∷ []

abbrev ac : List ℕ
ac = b'A' ∷ b'C' ∷ []

strcmp_lem_example :
    ((ab ≡ ac) × (strcmp 3 words 100 200 ≡ some 0))
    ⊎ ((ab ≢ ac) × (strcmp 3 words 100 200 ≡ some 1))
strcmp_lem_example =
    strcmp_lem 3 words 100 200 ab ac (refl, omega arith, (refl, omega arith, refl))
      (refl, omega arith, (refl, omega arith, refl)) (omega arith)
