-- ===== src/Inode.antt =====
-- The inodes in use: fs/inode.c.
pub mod Laws
use march_os.Base.{
  Bool, true, false, ℕ, zero, suc, ◌+◌, ◌-◌, ◌%◌, ◌^◌, ltb, ◌==◌, if◌then◌else◌, Option, none, some,
}
use march_os.LinkedList.{Store, list_push, list_remove}

-- struct inode
pub record Inode : Type 0 where
  pub id : ℕ
  pub size : ℕ
  pub refcnt : ℕ

-- The entries of lists, and the inodes, by address. The node of the list's own entry is NULL, and
-- the search reads an inode there as well.
pub record Inodes : Type 0 where
  pub entries : Store
  pub inodes : ℕ → Inode

abbrev pub put : (ℕ → Inode) → ℕ → Inode → ℕ → Inode
put m a v b = if a == b then v else m b

-- The first loop of ialloc. The outer `none` is fuel that ran out.
unfoldable pub find_inode : ℕ → Inodes → ℕ → ℕ → Option (Option ℕ)
find_inode zero s p id = none
find_inode (suc k) s p id =
    let rest = find_inode k s ((s.entries p).next) id in
    if p == 0
    then some none
    else if (s.inodes ((s.entries p).node)).id == id
    then some (some ((s.entries p).node))
    else rest

-- `ip` and `entry` are what the two calls of kmalloc give.
unfoldable pub ialloc : ℕ → ℕ → ℕ → ℕ → ℕ → Inodes → Option (ℕ × Inodes)
ialloc k inode_list ip entry id s = elim (find_inode k s inode_list id) [
  | none ↦ none
  | some none ↦ elim (list_push k s.entries inode_list ip entry) [
    | none ↦ none
    | some entries' ↦ some (
      ip,
      record {
        entries = entries';
        inodes = put s.inodes ip (record { id = id; size = 0; refcnt = 1 });
      },
    )
  ]
  | some (some old) ↦
      let i = s.inodes old in
      some (
        old,
        record s { inodes = put s.inodes old (record i { refcnt = (i.refcnt + 1) % 2 ^ 16 }) },
      )
]

-- The state, and whether the inode was given back.
unfoldable pub ifree : ℕ → ℕ → ℕ → Inodes → Option (Bool × Inodes)
ifree k inode_list ip s =
    let i = s.inodes ip in
    if ltb 2 i.refcnt
    then some (false, record s { inodes = put s.inodes ip (record i { refcnt = i.refcnt - 1 }) })
    else elim (list_remove k s.entries inode_list ip) [
      | none ↦ none
      | some (entries', removed) ↦ some (true, record s { entries = entries' })
    ]
