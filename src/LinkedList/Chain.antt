-- ===== src/LinkedList/Chain.antt =====
-- Chains of entries in the store of list.c.
use march_os.Base.{ℕ, ◌≡◌, ◌≢◌, true, false, List, [], ◌∷◌, ◌==◌, arith, ◌++◌}
use march_os.LinkedList.{Entry, Store, write}

-- An entry of a list by its address and the node it carries.
pub record Item : Type 0 where
  pub at : ℕ
  pub node : ℕ

abbrev pub Apart : ℕ → List Item → Type 0
Apart a [] = Unit {0}
Apart a (x ∷ xs) = (a ≢ x.at) × Apart a xs

-- The entries from `p` on are the items, linked both ways, all at different addresses.
abbrev pub Chain : Store → ℕ → ℕ → List Item → Type 0
Chain s prev p [] = p ≡ 0
Chain s prev p (x ∷ xs) =
    (p ≡ x.at)
    × (x.at ≢ 0)
    × ((s x.at).node ≡ x.node)
    × ((s x.at).prev ≡ prev)
    × Apart x.at xs
    × Chain s x.at ((s x.at).next) xs

-- A write to an entry elsewhere leaves a chain as it is.
pub Chain-write :
    (s : Store) (a : ℕ) (e : Entry) (prev p : ℕ) (xs : List Item)
    → Apart a xs
    → Chain s prev p xs
    → Chain (write s a e) prev p xs
Chain-write s a e prev p [] apart c = c
Chain-write s a e prev p (x ∷ xs) apart (here, pos, node, back, alone, c) =
    let same : (a == x.at) ≡ false = ground arith in
    rw same (here, pos, node, back, alone, Chain-write s a e x.at ((s x.at).next) xs apart.1 c)

pub write-here : (s : Store) (a : ℕ) (e : Entry) → write s a e a ≡ e
write-here s a e = let same : (a == a) ≡ true = ground arith in rw same

pub write-elsewhere : (s : Store) (a b : ℕ) (e : Entry) → a ≢ b → write s a e b ≡ s b
write-elsewhere s a b e ne = let other : (a == b) ≡ false = ground arith in rw other

pub Apart-append :
    (a : ℕ) (xs : List Item) (y : Item) → Apart a xs → a ≢ y.at → Apart a (xs ++ y ∷ [])
Apart-append a [] y apart ne = (ne, tt)
Apart-append a (x ∷ xs) y apart ne = (apart.0, Apart-append a xs y apart.1 ne)
