-- ===== src/Tests/Names.antt =====
-- Names of files, in a directory of two entries.
use march_os.Base.{ℕ, ◌+◌, ◌*◌, ◌≡◌, refl, some, List, [], ◌∷◌, arith}
use march_os.Base.Text.{codes}
use march_os.Mm.Mem.{Mem, update}
use march_os.Fat16.Name.{Find, entry_filename, find_entry, walk_path, fat16_namei}
use march_os.Fat16.Name.Paths.{path_of, resolve, fat16_namei-resolve}

abbrev written : Mem → ℕ → List ℕ → Mem
written m a [] = m
written m a (c ∷ cs) = written (update m a c) (a + 1) cs

-- BIN, a directory in cluster 3, and a file of 90 bytes in cluster 7.
abbrev directory : Mem
directory =
    update
      (update
        (update
          (written (written (λ a. 0) 0x1000 (codes "BIN        ")) 0x1020 (codes "INIT    TXT"))
          0x101A 3)
        0x103A 7)
      0x103C 90

-- A look-up by the stem finds the file, and one with the extension does not.
found : find_entry directory (codes "INIT") 0x1000 2 ≡ 7 + 90 * 4294967296
unfolding find_entry entry_filename
found = refl

extension : find_entry directory (codes "INITTXT") 0x1000 2 ≡ 0
unfolding find_entry entry_filename
extension = refl

abbrev find : Find
find filename dir = find_entry directory filename 0x1000 2

fat16_namei-resolve_example :
    fat16_namei find (path_of (codes "BIN" ∷ codes "INIT" ∷ []))
    ≡ resolve find 0 (codes "BIN") (codes "INIT" ∷ [])
fat16_namei-resolve_example = fat16_namei-resolve find (codes "BIN") (codes "INIT" ∷ []) (
  omega arith,
  omega arith,
  (omega arith, (omega arith, (omega arith, tt))),
  (omega arith, omega arith, (omega arith, (omega arith, (omega arith, (omega arith, tt)))), tt),
)

looked_up : fat16_namei find (codes "/BIN/INIT") ≡ some (7, 90)
unfolding fat16_namei walk_path find_entry entry_filename
looked_up = refl
