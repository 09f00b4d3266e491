-- ===== src/LinkedList/Remove.antt =====
-- list_remove of list.c takes an entry off.
use march_os.Base.{
  ℕ, zero, suc, ◌<◌, ◌≡◌, ◌≢◌, refl, sym, ap, ◌∙◌, ◌==◌, if◌then◌else◌, Bool-cases, inl, inr, true,
  false, Option, none, some, List, [], ◌∷◌, length, arith,
}
use march_os.LinkedList.{Entry, Store, write, unlink, list_remove}
use march_os.LinkedList.Chain.{Item, Apart, Chain, Chain-write, write-here, write-elsewhere}

-- Without the first item that carries the node.
abbrev pub without : ℕ → List Item → List Item
without node [] = []
without node (x ∷ xs) = if x.node == node then xs else x ∷ without node xs

abbrev pub carrier : ℕ → List Item → Option ℕ
carrier node [] = none
carrier node (x ∷ xs) = if x.node == node then some x.at else carrier node xs

Apart-without : (a node : ℕ) (xs : List Item) → Apart a xs → Apart a (without node xs)
Apart-without a node [] apart = apart
Apart-without a node (x ∷ xs) apart = elim (Bool-cases (x.node == node)) [
  | inl e ↦ rw e apart.1
  | inr e ↦ rw e (apart.0, Apart-without a node xs apart.1)
]

module _ (s : Store) (node : ℕ) where
  -- What list_remove has done when it has taken the first carrier of the node, if there is one, off
  -- the items behind the entry `q`.
  record Removed (q : ℕ) (xs : List Item) (s' : Store) : Type 0 where
    back : (s' q).prev ≡ (s q).prev
    same : (s' q).node ≡ (s q).node
    rest : Chain s' q ((s' q).next) (without node xs)
    frame : (b : ℕ) → b ≢ q → Apart b xs → s' b ≡ s b

  unlink-last :
      (a q : ℕ)
      → (s a).prev ≡ q
      → q ≢ 0
      → (s a).next ≡ 0
      → unlink s a ≡ write s q (record (s q) { next = 0 })
  unlink-last a q e pos z = let live : (q == 0) ≡ false = ground arith in rw (e, live, z)

  unlink-inner :
      (a q r : ℕ)
      → (s a).prev ≡ q
      → q ≢ 0
      → (s a).next ≡ r
      → r ≢ 0
      → q ≢ r
      → unlink s a ≡ write (write s q (record (s q) { next = r })) r (record (s r) { prev = q })
  unlink-inner a q r e pos z live ne =
      let q1 : (q == 0) ≡ false = ground arith in
      let r1 : (r == 0) ≡ false = ground arith in
      let qr : (q == r) ≡ false = ground arith in rw (e, q1, z, r1, qr)

  Removed-last :
      (q : ℕ) (x : Item)
      → x.node ≡ node
      → Removed q (x ∷ []) (write s q (record (s q) { next = 0 }))
  Removed-last q x hit =
      let here = write-here s q (record (s q) { next = 0 }) in
      let taken : (x.node == node) ≡ true = ground arith in
      record {
        back = ap (λ e. e.prev) here;
        same = ap (λ e. e.node) here;
        rest = rw taken (ap (λ e. e.next) here);
        frame = λ b ne apart. write-elsewhere s q b (record (s q) { next = 0 }) (λ e. ne (sym e));
      }

  Removed-inner :
      (q : ℕ) (x y : Item) (ys : List Item)
      → x.node ≡ node
      → Apart q (x ∷ y ∷ ys)
      → Chain s x.at ((s x.at).next) (y ∷ ys)
      → Removed q
          (x ∷ y ∷ ys)
          (write (write s q (record (s q) { next = y.at })) y.at (record (s y.at) { prev = q }))
  Removed-inner q x y ys hit apart (there, live, at, back, alone, c) =
      let s1 = write s q (record (s q) { next = y.at }) in
      let e2 : Entry = record (s y.at) { prev = q } in
      let here =
        write-elsewhere s1 y.at q e2 (λ e. apart.1.0 (sym e))
        ∙ write-here s q (record (s q) { next = y.at }) in
      let next = write-here s1 y.at e2 in
      let taken : (x.node == node) ≡ true = ground arith in
      record {
        back = ap (λ e. e.prev) here;
        same = ap (λ e. e.node) here;
        rest = rw taken (
          ap (λ e. e.next) here,
          live,
          ap (λ e. e.node) next ∙ at,
          ap (λ e. e.prev) next,
          alone,
          rw next (
              Chain-write s1 y.at e2 y.at ((s y.at).next) ys alone (
                Chain-write s q (record (s q) { next = y.at }) y.at ((s y.at).next) ys apart.1.1
                  c)),
        );
        frame = λ b ne off.
            write-elsewhere s1 y.at b e2 (λ e. off.1.0 (sym e))
            ∙ write-elsewhere s q b (record (s q) { next = y.at }) (λ e. ne (sym e));
      }

  Removed-miss :
      (q : ℕ) (x : Item) (xs : List Item) (s' : Store)
      → (s q).next ≡ x.at
      → x.at ≢ 0
      → (s x.at).node ≡ x.node
      → (s x.at).prev ≡ q
      → x.node ≢ node
      → Apart q (x ∷ xs)
      → Apart x.at xs
      → Removed x.at xs s'
      → Removed q (x ∷ xs) s'
  Removed-miss q x xs s' here live at back miss apart alone r =
      let same = r.frame q apart.0 apart.1 in
      let skipped : (x.node == node) ≡ false = ground arith in
      record {
        back = ap (λ e. e.prev) same;
        same = ap (λ e. e.node) same;
        rest = rw skipped (
          ap (λ e. e.next) same ∙ here,
          live,
          r.same ∙ at,
          r.back ∙ back,
          Apart-without x.at node xs alone,
          r.rest,
        );
        frame = λ b ne off. r.frame b off.0 off.1;
      }

  list_remove-end : (k p : ℕ) → p ≡ 0 → list_remove (suc k) s p node ≡ some (s, none)
  unfolding list_remove
  list_remove-end k p e = rw e refl

  list_remove-hit :
      (k p : ℕ)
      → p ≢ 0
      → (s p).node ≡ node
      → list_remove (suc k) s p node ≡ some (unlink s p, some p)
  unfolding list_remove
  list_remove-hit k p live e =
      let not_end : (p == 0) ≡ false = ground arith in
      let hit : ((s p).node == node) ≡ true = ground arith in rw (not_end, hit) refl

  list_remove-miss :
      (k p : ℕ)
      → p ≢ 0
      → (s p).node ≢ node
      → list_remove (suc k) s p node ≡ list_remove k s ((s p).next) node
  unfolding list_remove
  list_remove-miss k p live ne =
      let not_end : (p == 0) ≡ false = ground arith in
      let miss : ((s p).node == node) ≡ false = ground arith in rw (not_end, miss) refl

  carrier-hit : (x : Item) (xs : List Item) → x.node ≡ node → carrier node (x ∷ xs) ≡ some x.at
  carrier-hit x xs e = let hit : (x.node == node) ≡ true = ground arith in rw hit refl

  carrier-miss :
      (x : Item) (xs : List Item) → x.node ≢ node → carrier node (x ∷ xs) ≡ carrier node xs
  carrier-miss x xs e = let miss : (x.node == node) ≡ false = ground arith in rw miss refl

  hit-Removed :
      (q : ℕ) (x : Item) (xs : List Item)
      → q ≢ 0
      → x.node ≡ node
      → Apart q (x ∷ xs)
      → (s x.at).prev ≡ q
      → Chain s x.at ((s x.at).next) xs
      → Removed q (x ∷ xs) (unlink s x.at)
  hit-Removed q x [] pos e apart back c = rw (unlink-last x.at q back pos c) (Removed-last q x e)
  hit-Removed q x (y ∷ ys) pos e apart back c =
      rw (unlink-inner x.at q y.at back pos c.0 c.1 apart.1.0) (Removed-inner q x y ys e apart c)

  list_remove-Removed :
      (k q : ℕ) (xs : List Item)
      → q ≢ 0
      → Apart q xs
      → Chain s q ((s q).next) xs
      → length xs < k
      → (s' : Store) × (list_remove k s ((s q).next) node ≡ some (s', carrier node xs))
        × Removed q xs s'
  list_remove-Removed zero q xs pos apart c fuel = absurd (omega arith)
  list_remove-Removed (suc k) q [] pos apart c fuel = (
    s,
    list_remove-end k ((s q).next) c,
    record { back = refl; same = refl; rest = c; frame = λ b q a. refl },
  )
  list_remove-Removed (suc k) q (x ∷ xs) pos apart (here, live, at, back, alone, c) fuel =
      elim (Bool-cases (x.node == node)) [
        | inl e ↦
            let hit : x.node ≡ node = ground arith in
            (
              unlink s x.at,
              rw here (list_remove-hit k x.at live (at ∙ hit))
                  ∙ ap (λ o. some (unlink s x.at, o)) (sym (carrier-hit x xs hit)),
              hit-Removed q x xs pos hit apart back c,
            )
        | inr e ↦
            let miss : x.node ≢ node = ground arith in
            let (s', run, r) = list_remove-Removed k x.at xs live alone c (omega arith) in
            (
              s',
              rw here (list_remove-miss k x.at live (λ i. miss (sym at ∙ i)))
                  ∙ run
                  ∙ ap (λ o. some (s', o)) (sym (carrier-miss x xs miss)),
              Removed-miss q x xs s' here live at back miss apart alone r,
            )
      ]

-- list_remove of a node that the list's own entry does not carry returns, if it may take one step
-- more than there are entries. The first entry that carries the node is off the list and given to
-- kmfree, or nothing is if there is none; the rest of the list keeps its order, and no entry that
-- was not on it has changed.
pub list_remove-Chain :
    (s : Store) (node list k : ℕ) (x : Item) (xs : List Item)
    → Chain s 0 list (x ∷ xs)
    → x.node ≢ node
    → length (x ∷ xs) < k
    → (s' : Store) × (list_remove k s list node ≡ some (s', carrier node xs))
      × Chain s' 0 list (x ∷ without node xs)
      × ((b : ℕ) → Apart b (x ∷ xs) → s' b ≡ s b)
list_remove-Chain s node list zero x xs c ne fuel = absurd (omega arith)
list_remove-Chain s node list (suc k) x xs (here, live, at, back, alone, c) ne fuel =
    let (s', run, r) = list_remove-Removed s node k x.at xs live alone c (omega arith) in
    (
      s',
      rw here (list_remove-miss s node k x.at live (λ i. ne (sym at ∙ i))) ∙ run,
      (here, live, r.same ∙ at, r.back ∙ back, Apart-without x.at node xs alone, r.rest),
      λ b off. r.frame b off.0 off.1,
    )
