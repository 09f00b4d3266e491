-- ===== src/Tests/Inodes.antt =====
-- Lists and inodes on a list of two entries.
use march_os.Base.{
  ℕ, ◌<◌, ◌≤◌, ◌-◌, ◌≡◌, ◌≢◌, ◌⊎◌, refl, true, false, some, List, [], ◌∷◌, ◌++◌, ◌==◌,
  if◌then◌else◌, arith,
}
use march_os.LinkedList.{Store, list_push, list_remove}
use march_os.LinkedList.Chain.{Item, Apart, Chain}
use march_os.LinkedList.Push.{list_push-Chain}
use march_os.LinkedList.Remove.{without, carrier, list_remove-Chain}
use march_os.Inode.{Inodes, put, ialloc, ifree}
use march_os.Inode.Laws.{ialloc-fresh, ifree_lem, ifree-shared}

-- The list's own entry at 1000, and an entry at 2000 with the inode at 500.
abbrev head : Item
head = record { at = 1000; node = 0 }

abbrev behind : List Item
behind = record { at = 2000; node = 500 } ∷ []

abbrev entries : Store
entries a =
    if a == 1000
    then record { node = 0; prev = 0; next = 2000 }
    else if a == 2000
    then record { node = 500; prev = 1000; next = 0 }
    else record { node = 0; prev = 0; next = 0 }

abbrev one_inode : Inodes
one_inode = record {
  entries = entries;
  inodes = λ a.
      if a == 500
      then record { id = 7; size = 90; refcnt = 1 }
      else record { id = 0; size = 0; refcnt = 0 };
}

entries-Chain : Chain entries 0 1000 (head ∷ behind)
entries-Chain =
    (refl, omega arith, refl, refl, (omega arith, tt), (refl, omega arith, refl, refl, tt, refl))

list_push-Chain_example :
    (s' : Store) × (list_push 2 entries 1000 600 3000 ≡ some s')
    × Chain s' 0 1000 (head ∷ behind ++ record { at = 3000; node = 600 } ∷ [])
    × ((b : ℕ) → Apart b (head ∷ behind) → b ≢ 3000 → s' b ≡ entries b)
list_push-Chain_example =
    list_push-Chain entries 1000 600 3000 2 head behind entries-Chain (omega arith)
      (omega arith, (omega arith, tt)) (omega arith)

list_remove-Chain_example :
    (s' : Store) × (list_remove 3 entries 1000 500 ≡ some (s', carrier 500 behind))
    × Chain s' 0 1000 (head ∷ without 500 behind)
    × ((b : ℕ) → Apart b (head ∷ behind) → s' b ≡ entries b)
list_remove-Chain_example =
    list_remove-Chain entries 500 1000 3 head behind entries-Chain (omega arith) (omega arith)

ialloc-fresh_example :
    (s' : Inodes) × (ialloc 3 1000 600 3000 8 one_inode ≡ some (600, s'))
    × Chain s'.entries 0 1000 (head ∷ behind ++ record { at = 3000; node = 600 } ∷ [])
    × (s'.inodes ≡ put one_inode.inodes 600 (record { id = 8; size = 0; refcnt = 1 }))
ialloc-fresh_example =
    ialloc-fresh one_inode 1000 600 3000 8 3 head behind entries-Chain refl (omega arith)
      (omega arith, (omega arith, tt)) (omega arith)

ifree_lem_example :
    ((2 < (one_inode.inodes 500).refcnt)
      × (ifree 3 1000 500 one_inode
          ≡ some (
            false,
            record one_inode {
              inodes =
                  put one_inode.inodes 500
                    (record (one_inode.inodes 500) { refcnt = (one_inode.inodes 500).refcnt - 1 });
            },
          )))
    ⊎ (((one_inode.inodes 500).refcnt ≤ 2)
        × (s' : Inodes) × (ifree 3 1000 500 one_inode ≡ some (true, s'))
        × Chain s'.entries 0 1000 (head ∷ without 500 behind)
        × (s'.inodes ≡ one_inode.inodes))
ifree_lem_example =
    ifree_lem one_inode 1000 500 3 head behind entries-Chain (omega arith) (omega arith)

ifree-shared_example :
    (s1 : Inodes) × (s2 : Inodes) × (ialloc 3 1000 600 3000 7 one_inode ≡ some (500, s1))
    × ((s1.inodes 500).refcnt ≡ 2)
    × (ifree 3 1000 500 s1 ≡ some (true, s2))
    × Chain s2.entries 0 1000 (head ∷ without 500 behind)
ifree-shared_example =
    ifree-shared one_inode 1000 600 3000 7 500 3 head behind entries-Chain (omega arith) refl refl
      (omega arith)
