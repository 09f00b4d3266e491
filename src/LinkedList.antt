-- ===== src/LinkedList.antt =====
-- The doubly linked lists of list.c, over the memory of their entries. A list begins with an entry
-- that is not allocated, whose address is the list.
pub mod Chain
pub mod Push
pub mod Remove
use march_os.Base.{ℕ, zero, suc, ◌==◌, if◌then◌else◌, Option, none, some}

-- struct list
pub record Entry : Type 0 where
  pub node : ℕ
  pub prev : ℕ
  pub next : ℕ

abbrev pub Store : Type 0
Store = ℕ → Entry

abbrev pub write : Store → ℕ → Entry → Store
write s a e b = if a == b then e else s b

-- for (; last->next != NULL; last = last->next); `none` when fuel runs out.
unfoldable pub last_entry : ℕ → Store → ℕ → Option ℕ
last_entry zero s last = none
last_entry (suc k) s last =
    let rest = last_entry k s ((s last).next) in if (s last).next == 0 then some last else rest

-- `new` is what kmalloc gives for the new entry.
unfoldable pub list_push : ℕ → Store → ℕ → ℕ → ℕ → Option Store
list_push k s list node new = elim (last_entry k s list) [
  | none ↦ none
  | some last ↦
      let s1 = write s new (record { node = node; prev = last; next = 0 }) in
      some (write s1 last (record (s1 last) { next = new }))
]

abbrev pub unlink : Store → ℕ → Store
unlink s entry =
    let e = s entry in
    let s1 = if e.prev == 0 then s else write s e.prev (record (s e.prev) { next = e.next }) in
    if e.next == 0 then s1 else write s1 e.next (record (s1 e.next) { prev = e.prev })

-- The store, and the address given to kmfree if the node was on the list.
unfoldable pub list_remove : ℕ → Store → ℕ → ℕ → Option (Store × Option ℕ)
list_remove zero s entry node = none
list_remove (suc k) s entry node =
    let rest = list_remove k s ((s entry).next) node in
    if entry == 0
    then some (s, none)
    else if (s entry).node == node
    then some (unlink s entry, some entry)
    else rest
