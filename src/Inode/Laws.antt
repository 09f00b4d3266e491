-- ===== src/Inode/Laws.antt =====
-- ialloc and ifree of fs/inode.c: an inode by its number, and how long it is kept.
use march_os.Base.{
  ℕ, zero, suc, ◌+◌, ◌-◌, ◌%◌, ◌^◌, ◌≤◌, ◌<◌, ◌≡◌, ◌≢◌, refl, ap, ◌∙◌, ltb, ◌==◌, if◌then◌else◌,
  true, false, Bool-cases, inl, inr, ◌⊎◌, Option, none, some, List, [], ◌∷◌, ◌++◌, length, arith,
}
use march_os.LinkedList.{Store, list_push, list_remove}
use march_os.LinkedList.Chain.{Item, Apart, Chain}
use march_os.LinkedList.Push.{list_push-Chain}
use march_os.LinkedList.Remove.{without, list_remove-Chain}
use march_os.Inode.{Inode, Inodes, put, find_inode, ialloc, ifree}

-- The inode with the number among the items.
abbrev pub wanted : (ℕ → Inode) → ℕ → List Item → Option ℕ
wanted m id [] = none
wanted m id (x ∷ xs) = if (m x.node).id == id then some x.node else wanted m id xs

find_inode-wanted :
    (k : ℕ) (s : Inodes) (prev p id : ℕ) (xs : List Item)
    → Chain s.entries prev p xs
    → length xs < k
    → find_inode k s p id ≡ some (wanted s.inodes id xs)
unfolding find_inode
find_inode-wanted zero s prev p id xs c fuel = absurd (omega arith)
find_inode-wanted (suc k) s prev p id [] c fuel = rw c refl
find_inode-wanted (suc k) s prev p id (x ∷ xs) (here, live, at, back, alone, c) fuel =
    let on : (x.at == 0) ≡ false = ground arith in
    rw (here, on, at)
      (elim (Bool-cases ((s.inodes x.node).id == id)) [
        | inl e ↦ rw e
        | inr e ↦ rw e (find_inode-wanted k s x.at ((s.entries x.at).next) id xs c (omega arith))
      ])

abbrev pub again : Inodes → ℕ → Inodes
again s old =
    let i = s.inodes old in
    record s { inodes = put s.inodes old (record i { refcnt = (i.refcnt + 1) % 2 ^ 16 }) }

-- ialloc of a number that an inode on the list has returns the first such inode and counts one more
-- reference to it, modulo 2^16. Nothing else changes.
pub ialloc-known :
    (s : Inodes) (inode_list ip entry id old k : ℕ) (xs : List Item)
    → Chain s.entries 0 inode_list xs
    → wanted s.inodes id xs ≡ some old
    → length xs < k
    → ialloc k inode_list ip entry id s ≡ some (old, again s old)
unfolding ialloc
ialloc-known s inode_list ip entry id old k xs c w fuel =
    rw (ialloc, find_inode-wanted k s 0 inode_list id xs c fuel, w)

ialloc-pushed :
    (s : Inodes) (inode_list ip entry id k : ℕ) (entries' : Store)
    → find_inode k s inode_list id ≡ some none
    → list_push k s.entries inode_list ip entry ≡ some entries'
    → ialloc k inode_list ip entry id s
      ≡ some (
        ip,
        record {
          entries = entries';
          inodes = put s.inodes ip (record { id = id; size = 0; refcnt = 1 });
        },
      )
unfolding ialloc
ialloc-pushed s inode_list ip entry id k entries' e p = rw (ialloc, e, p)

-- ialloc of a number that no inode on the list has returns a new inode with that number, size 0 and
-- one reference, which it appends to the list; the other inodes do not change.
pub ialloc-fresh :
    (s : Inodes) (inode_list ip entry id k : ℕ) (x : Item) (xs : List Item)
    → Chain s.entries 0 inode_list (x ∷ xs)
    → wanted s.inodes id (x ∷ xs) ≡ none
    → entry ≢ 0
    → Apart entry (x ∷ xs)
    → length (x ∷ xs) < k
    → (s' : Inodes) × (ialloc k inode_list ip entry id s ≡ some (ip, s'))
      × Chain s'.entries 0 inode_list (x ∷ xs ++ record { at = entry; node = ip } ∷ [])
      × (s'.inodes ≡ put s.inodes ip (record { id = id; size = 0; refcnt = 1 }))
ialloc-fresh s inode_list ip entry id k x xs c w live apart fuel =
    let (entries', run, c', frame) =
      list_push-Chain s.entries inode_list ip entry k x xs c live apart (omega arith) in
    let miss = find_inode-wanted k s 0 inode_list id (x ∷ xs) c fuel ∙ ap some w in
    (
      record {
        entries = entries';
        inodes = put s.inodes ip (record { id = id; size = 0; refcnt = 1 });
      },
      ialloc-pushed s inode_list ip entry id k entries' miss run,
      c',
      refl,
    )

ifree-kept :
    (s : Inodes) (inode_list ip k : ℕ)
    → 2 < (s.inodes ip).refcnt
    → ifree k inode_list ip s
      ≡ some (
        false,
        record s {
          inodes = put s.inodes ip (record (s.inodes ip) { refcnt = (s.inodes ip).refcnt - 1 });
        },
      )
unfolding ifree
ifree-kept s inode_list ip k h =
    let more : ltb 2 ((s.inodes ip).refcnt) ≡ true = ground arith in rw more

ifree-removed :
    (s : Inodes) (inode_list ip k : ℕ) (entries' : Store) (o : Option ℕ)
    → (s.inodes ip).refcnt ≤ 2
    → list_remove k s.entries inode_list ip ≡ some (entries', o)
    → ifree k inode_list ip s ≡ some (true, record s { entries = entries' })
unfolding ifree
ifree-removed s inode_list ip k entries' o h e =
    let few : ltb 2 ((s.inodes ip).refcnt) ≡ false = ground arith in rw (ifree, few, e)

-- ifree of an inode with more than two references takes one away and keeps it. With two references
-- or fewer it takes the inode off the list; the other inodes do not change.
pub ifree_lem :
    (s : Inodes) (inode_list ip k : ℕ) (x : Item) (xs : List Item)
    → Chain s.entries 0 inode_list (x ∷ xs)
    → x.node ≢ ip
    → length (x ∷ xs) < k
    → ((2 < (s.inodes ip).refcnt)
        × (ifree k inode_list ip s
            ≡ some (
              false,
              record s {
                inodes =
                    put s.inodes ip (record (s.inodes ip) { refcnt = (s.inodes ip).refcnt - 1 });
              },
            )))
      ⊎ (((s.inodes ip).refcnt ≤ 2)
          × (s' : Inodes) × (ifree k inode_list ip s ≡ some (true, s'))
          × Chain s'.entries 0 inode_list (x ∷ without ip xs)
          × (s'.inodes ≡ s.inodes))
ifree_lem s inode_list ip k x xs c ne fuel = elim (Bool-cases (ltb 2 ((s.inodes ip).refcnt))) [
  | inl e ↦ inl (ground arith, ifree-kept s inode_list ip k (ground arith))
  | inr e ↦
      let few : (s.inodes ip).refcnt ≤ 2 = ground arith in
      let (entries', run, c', frame) = list_remove-Chain s.entries ip inode_list k x xs c ne fuel in
      inr (
        few,
        record s { entries = entries' },
        ifree-removed s inode_list ip k entries' _ few run,
        c',
        refl,
      )
]

-- When an inode with one reference is asked for a second time, the first ifree takes it off the list
-- and gives it back, although one of the two users still has it.
pub ifree-shared :
    (s : Inodes) (inode_list ip entry id old k : ℕ) (x : Item) (xs : List Item)
    → Chain s.entries 0 inode_list (x ∷ xs)
    → x.node ≢ old
    → wanted s.inodes id (x ∷ xs) ≡ some old
    → (s.inodes old).refcnt ≡ 1
    → length (x ∷ xs) < k
    → (s1 : Inodes) × (s2 : Inodes) × (ialloc k inode_list ip entry id s ≡ some (old, s1))
      × ((s1.inodes old).refcnt ≡ 2)
      × (ifree k inode_list old s1 ≡ some (true, s2))
      × Chain s2.entries 0 inode_list (x ∷ without old xs)
ifree-shared s inode_list ip entry id old k x xs c ne w one fuel =
    let s1 = again s old in
    let both : (s1.inodes old).refcnt ≡ 2 =
      let same : (old == old) ≡ true = ground arith in rw (same, one) refl in
    let (entries', run, c', frame) = list_remove-Chain s.entries old inode_list k x xs c ne fuel in
    (
      s1,
      record s1 { entries = entries' },
      ialloc-known s inode_list ip entry id old k (x ∷ xs) c w fuel,
      both,
      ifree-removed s1 inode_list old k entries' _ (omega (arith, both)) run,
      c',
    )
