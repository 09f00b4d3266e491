-- ===== src/Fat16/Name.antt =====
-- Names: fat16_find_cluster of fs/fat16/common.c and fat16_namei of fs/fat16/name.c. Texts are lists
-- of bytes without their NUL. For texts, strcmp is `equal`: CString/Laws.
pub mod Entries
pub mod Paths
use march_os.Base.{
  Bool, true, false, ℕ, zero, suc, ◌+◌, ◌*◌, ◌/◌, ◌%◌, ◌^◌, ltb, ◌==◌, if◌then◌else◌, Option, none,
  some, List, [], ◌∷◌, ◌++◌, bit_or, length,
}
use march_os.Mm.Mem.{half, word, Mem}
use march_os.CString.Laws.{equal}
use march_os.Fat16.{Volume, fat16_read_rootdir, fat16_read_cluster}

-- The 11 bytes of a name, from byte `j` on with `n` to go: a space is taken for NUL, and the text
-- ends at the first.
unfoldable pub entry_filename : Mem → ℕ → ℕ → List ℕ
entry_filename m a zero = []
entry_filename m a (suc n) =
    let rest = entry_filename m (a + 1) n in
    if m a == 0 then [] else if m a == b' ' then [] else m a ∷ rest

-- The tests on the entry at `a`: it is not empty, it is no part of a long name, and it has the name.
abbrev pub matches : Mem → List ℕ → ℕ → Bool
matches m filename a =
    if m a == 0
    then false
    else if m (a + 11) == 0x0F
    then false
    else equal filename (entry_filename m a 11) == 0

-- dir[i].cluster | ((uint64)dir[i].size << 32)
abbrev pub packed : Mem → ℕ → ℕ
packed m a = bit_or (half m (a + 26)) (word m (a + 28) * 2 ^ 32)

-- The loop over the entries, from the one at `a` on with `n` to go.
unfoldable pub find_entry : Mem → List ℕ → ℕ → ℕ → ℕ
find_entry m filename a zero = 0
find_entry m filename a (suc n) =
    let rest = find_entry m filename (a + 32) n in if matches m filename a then packed m a else rest

module _ (disk : Mem) (fat16 : Volume) where
  -- `dir` is what kmalloc gives for the entries.
  unfoldable pub fat16_find_cluster : ℕ → List ℕ → ℕ → Mem → ℕ × Mem
  fat16_find_cluster dir filename dir_cluster m =
      if dir_cluster == 0
      then (let m1 = fat16_read_rootdir disk fat16 dir m in
          (find_entry m1 filename dir fat16.root_entries, m1))
      else (let m1 = fat16_read_cluster disk fat16 dir_cluster dir m in
          (find_entry m1 filename dir (fat16.cluster_size / 32), m1))

-- A look-up is the name of a file in the directory at a cluster; the cluster and the size are those
-- of a found file, and cluster 0 says that there is none.
abbrev pub Find : Type 0
Find = List ℕ → ℕ → ℕ

-- if (j < 11) { filename[j] = path[i]; j++; }
abbrev pub add_char : List ℕ → ℕ → List ℕ
add_char filename c = if ltb (length filename) 11 then filename ++ c ∷ [] else filename

-- The loops of fat16_namei from a character of the path on, with the name read so far. The result
-- is the cluster and the size that go into the inode, `none` NULL.
unfoldable pub walk_path : Find → List ℕ → ℕ → List ℕ → Option (ℕ × ℕ)
walk_path find filename dir_cluster [] =
    let found = find filename dir_cluster in
    if found % 2 ^ 16 == 0 then none else some (found % 2 ^ 16, found / 2 ^ 32 % 2 ^ 32)
walk_path find filename dir_cluster (c ∷ []) =
    let last = walk_path find (add_char filename c) dir_cluster [] in
    if c == b'/' then none else last
walk_path find filename dir_cluster (c ∷ d ∷ path) =
    let found = find filename dir_cluster in
    let next = walk_path find [] (found % 2 ^ 16) (d ∷ path) in
    let more = walk_path find (add_char filename c) dir_cluster (d ∷ path) in
    if c == b'/' then (if found % 2 ^ 16 == 0 then none else next) else more

unfoldable pub fat16_namei : Find → List ℕ → Option (ℕ × ℕ)
fat16_namei find [] = none
fat16_namei find (c ∷ []) = none
fat16_namei find (c ∷ d ∷ path) =
    let found = walk_path find [] 0 (d ∷ path) in if c == b'/' then found else none
