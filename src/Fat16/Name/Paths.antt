-- ===== src/Fat16/Name/Paths.antt =====
-- fat16_namei of a path follows its names from the root.
use march_os.Base.{
  ℕ, ◌+◌, ◌≤◌, ◌/◌, ◌%◌, ◌^◌, ◌≡◌, ◌≢◌, refl, ap, ◌∙◌, true, ltb, ◌==◌, if◌then◌else◌, ==-ne,
  Option, none, some, List, [], ◌∷◌, ◌++◌, length, length-append, arith,
}
use mathlib.Core.List.{append_assoc, append-nil}
use march_os.Fat16.Name.{Find, walk_path, fat16_namei}

-- A name of a path: not empty, no longer than 11 characters, and without a slash.
abbrev pub NoSlash : List ℕ → Type 0
NoSlash [] = Unit {0}
NoSlash (c ∷ cs) = (c ≢ b'/') × NoSlash cs

-- The text of the names after the first, each behind a slash.
abbrev pub path_of : List (List ℕ) → List ℕ
path_of [] = []
path_of (n ∷ ns) = b'/' ∷ (n ++ path_of ns)

abbrev pub Names : List (List ℕ) → Type 0
Names [] = Unit {0}
Names (n ∷ ns) = (1 ≤ length n) × (length n ≤ 11) × NoSlash n × Names ns

-- The cluster and the size of the last name, each looked up in the directory of the one before it.
abbrev pub resolve : Find → ℕ → List ℕ → List (List ℕ) → Option (ℕ × ℕ)
resolve find dir n [] =
    let found = find n dir in
    if found % 2 ^ 16 == 0 then none else some (found % 2 ^ 16, found / 2 ^ 32 % 2 ^ 32)
resolve find dir n (k ∷ ks) =
    let found = find n dir in
    let rest = resolve find (found % 2 ^ 16) k ks in if found % 2 ^ 16 == 0 then none else rest

-- A character of a name.
walk_char :
    (find : Find) (acc : List ℕ) (dir c : ℕ) (path : List ℕ)
    → c ≢ b'/'
    → length acc + 1 ≤ 11
    → walk_path find acc dir (c ∷ path) ≡ walk_path find (acc ++ c ∷ []) dir path
unfolding walk_path
walk_char find acc dir c [] ne room =
    let short : ltb (length acc) 11 ≡ true = ground arith in rw (==-ne c b'/' ne, short) refl
walk_char find acc dir c (d ∷ path) ne room =
    let short : ltb (length acc) 11 ≡ true = ground arith in rw (==-ne c b'/' ne, short) refl

walk_name :
    (find : Find) (acc n : List ℕ) (dir : ℕ) (path : List ℕ)
    → NoSlash n
    → length acc + length n ≤ 11
    → walk_path find acc dir (n ++ path) ≡ walk_path find (acc ++ n) dir path
walk_name find acc [] dir path plain room = rw (append-nil acc) refl
walk_name find acc (c ∷ n) dir path plain room =
    let grown = length-append acc (c ∷ []) in
    walk_char find acc dir c (n ++ path) plain.0 (omega arith)
    ∙ walk_name find (acc ++ c ∷ []) n dir path plain.1 (omega (arith, grown))
    ∙ ap (λ a. walk_path find a dir path) (append_assoc acc (c ∷ []) n)

walk-resolve :
    (find : Find) (n : List ℕ) (ns : List (List ℕ)) (dir : ℕ)
    → Names (n ∷ ns)
    → walk_path find [] dir (n ++ path_of ns) ≡ resolve find dir n ns
unfolding walk_path
walk-resolve find n [] dir (some_char, short, plain, all) =
    walk_name find [] n dir [] plain (omega arith)
walk-resolve find n ([] ∷ ks) dir (some_char, short, plain, all) = absurd (omega (arith, all.0))
walk-resolve find n ((c ∷ k) ∷ ks) dir (some_char, short, plain, all) =
    walk_name find [] n dir (b'/' ∷ c ∷ (k ++ path_of ks)) plain (omega arith)
    ∙ ap (λ r. if find n dir % 2 ^ 16 == 0 then none else r)
        (walk-resolve find (c ∷ k) ks (find n dir % 2 ^ 16) all)

-- fat16_namei of a slash and names between slashes, none of them empty or longer than 11 characters,
-- looks the first name up in the root directory and each other one in the cluster found before, and
-- gives the cluster and the size of the last, or NULL when a name is not found.
pub fat16_namei-resolve :
    (find : Find) (n : List ℕ) (ns : List (List ℕ))
    → Names (n ∷ ns)
    → fat16_namei find (path_of (n ∷ ns)) ≡ resolve find 0 n ns
unfolding fat16_namei
fat16_namei-resolve find [] ns names = absurd (omega (arith, names.0))
fat16_namei-resolve find (c ∷ n) ns names = walk-resolve find (c ∷ n) ns 0 names
