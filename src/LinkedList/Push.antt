-- ===== src/LinkedList/Push.antt =====
-- list_push of list.c appends an entry.
use march_os.Base.{
  ℕ, zero, suc, ◌≤◌, ◌≡◌, ◌≢◌, refl, sym, ap, ◌∙◌, ◌==◌, true, false, some, List, [], ◌∷◌, ◌++◌,
  length, arith,
}
use march_os.LinkedList.{Entry, Store, write, last_entry, list_push}
use march_os.LinkedList.Chain.{Item, Apart, Chain, write-here, write-elsewhere, Apart-append}

module _ (s : Store) (node new : ℕ) where
  abbrev pushed : ℕ → Store
  pushed l =
      let s1 = write s new (record { node = node; prev = l; next = 0 }) in
      write s1 l (record (s1 l) { next = new })

  pushed-elsewhere : (l b : ℕ) → l ≢ b → new ≢ b → pushed l b ≡ s b
  pushed-elsewhere l b nl nn =
      let s1 = write s new (record { node = node; prev = l; next = 0 }) in
      write-elsewhere s1 l b (record (s1 l) { next = new }) nl
      ∙ write-elsewhere s new b (record { node = node; prev = l; next = 0 }) nn

  pushed-last : (l : ℕ) → new ≢ l → pushed l l ≡ record (s l) { next = new }
  pushed-last l ne =
      let s1 = write s new (record { node = node; prev = l; next = 0 }) in
      write-here s1 l (record (s1 l) { next = new })
      ∙ ap (λ (e : Entry). record e { next = new })
          (write-elsewhere s new l (record { node = node; prev = l; next = 0 }) ne)

  pushed-new : (l : ℕ) → l ≢ new → pushed l new ≡ record { node = node; prev = l; next = 0 }
  pushed-new l ne =
      let s1 = write s new (record { node = node; prev = l; next = 0 }) in
      write-elsewhere s1 l new (record (s1 l) { next = new }) ne
      ∙ write-here s new (record { node = node; prev = l; next = 0 })

  abbrev item : Item
  item = record { at = new; node = node }

  -- The last entry is one of the chain, and with it rewritten the chain ends in the new one.
  record Ends (k prev p : ℕ) (xs : List Item) (l : ℕ) : Type 0 where
    found : last_entry k s p ≡ some l
    own : (b : ℕ) → Apart b xs → b ≢ l
    chain : Chain (pushed l) prev p (xs ++ item ∷ [])

  last_entry-Ends :
      (k prev p : ℕ) (x : Item) (xs : List Item)
      → Chain s prev p (x ∷ xs)
      → new ≢ 0
      → Apart new (x ∷ xs)
      → length (x ∷ xs) ≤ k
      → (l : ℕ) × Ends k prev p (x ∷ xs) l
  unfolding last_entry
  last_entry-Ends zero prev p x xs c fresh apart fuel = absurd (omega arith)
  last_entry-Ends (suc k) prev p x [] (here, pos, at, back, alone, c) fresh apart fuel =
      let stop : ((s p).next == 0) ≡ true = rw here (ground arith) in
      let last = pushed-last x.at apart.0 in
      let made = pushed-new x.at (λ e. apart.0 (sym e)) in
      (
        x.at,
        record {
          found = rw (stop, here) refl;
          own = λ b q. q.0;
          chain = (
            here,
            pos,
            ap (λ e. e.node) last ∙ at,
            ap (λ e. e.prev) last ∙ back,
            ((λ e. apart.0 (sym e)), tt),
            (
              ap (λ e. e.next) last,
              fresh,
              ap (λ e. e.node) made,
              ap (λ e. e.prev) made,
              tt,
              ap (λ e. e.next) made,
            ),
          );
        },
      )
  last_entry-Ends (suc k) prev p x (y ∷ ys) (here, pos, at, back, alone, c) fresh apart fuel =
      let (l, ends) = last_entry-Ends k x.at ((s x.at).next) y ys c fresh apart.1 (omega arith) in
      let on : ((s p).next == 0) ≡ false = rw here (ground arith) in
      (
        l,
        record {
          found = rw on (rw here ends.found);
          own = λ b q. ends.own b q.1;
          chain =
              let same = pushed-elsewhere l x.at (λ e. ends.own x.at alone (sym e)) apart.0 in
              (
                here,
                pos,
                ap (λ e. e.node) same ∙ at,
                ap (λ e. e.prev) same ∙ back,
                Apart-append x.at (y ∷ ys) item alone (λ e. apart.0 (sym e)),
                rw same ends.chain,
              );
        },
      )

list_push-some :
    (s : Store) (list node new k l : ℕ)
    → last_entry k s list ≡ some l
    → list_push k s list node new ≡ some (pushed s node new l)
unfolding list_push
list_push-some s list node new k l e = rw (list_push, e)

-- list_push on a list whose new entry lies apart from it returns, if it may take as many steps as
-- there are entries: the list then has a new last entry with the node, and no entry that was not on
-- it has changed.
pub list_push-Chain :
    (s : Store) (list node new k : ℕ) (x : Item) (xs : List Item)
    → Chain s 0 list (x ∷ xs)
    → new ≢ 0
    → Apart new (x ∷ xs)
    → length (x ∷ xs) ≤ k
    → (s' : Store) × (list_push k s list node new ≡ some s')
      × Chain s' 0 list (x ∷ xs ++ record { at = new; node = node } ∷ [])
      × ((b : ℕ) → Apart b (x ∷ xs) → b ≢ new → s' b ≡ s b)
list_push-Chain s list node new k x xs c fresh apart fuel =
    let (l, ends) = last_entry-Ends s node new k 0 list x xs c fresh apart fuel in
    (
      pushed s node new l,
      list_push-some s list node new k l ends.found,
      ends.chain,
      λ b q ne. pushed-elsewhere s node new l b (λ e. ends.own b q (sym e)) (λ e. ne (sym e)),
    )
