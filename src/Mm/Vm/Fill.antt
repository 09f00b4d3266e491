-- ===== src/Mm/Vm/Fill.antt =====
-- The test for an absent entry in walk_pgdir of arch/x86/vm.c, and what a walk with `create` comes
-- to from there.
use march_os.Base.{
  ℕ, suc, ◌+◌, ◌*◌, ◌/◌, ◌%◌, ◌≤◌, ◌≡◌, refl, ◌∙◌, true, false, Option, some, ◌==◌, Bool-cases, inl,
  inr, Outcome, ok, arith,
}
use march_os.Mm.Mem.{load64, load64_ext, store64, load64-store64_self}
use march_os.Mm.Pm.{Pm}
use march_os.Mm.Pm.Free.{Free, pages}
use march_os.Mm.Vm.{ensure}
use march_os.Mm.Vm.Lookup.{span, is_leaf, table_of, find, is_absent_lem}
use march_os.Mm.Vm.Tables.{Space, IsEntry, Tables, Extends, Extends-refl, Extends-trans}
use march_os.Mm.Vm.Grow.{filled, fill-Tables, fill-Extends}
use march_os.Mm.Vm.Values.{HasValue}

-- What a walk with `create` from a table with `n` levels at `b` comes to: it returns an entry, the
-- one that the processor now finds for `va`; the state extends the one before, and at most `d`
-- pages were used.
pub record Walked (kernel_end memtotal : ℕ) (t : Space) (s : Pm) (f : Free) (n b va d : ℕ)
    (r : Outcome (Option ℕ × Pm)) : Type 0 where
  pub space : Space
  pub after : Pm
  pub blocks : Free
  pub level : ℕ
  pub pte : ℕ
  pub returns : r ≡ ok (some pte, after)
  pub tables : Tables kernel_end memtotal space after blocks
  pub extends : Extends t s f space after blocks
  pub cost : pages f ≤ pages blocks + d
  pub found : find after.mem n b va ≡ some (level, pte)

module _ (kernel_end memtotal : ℕ) where
  pub Walked-later :
      {t t1 : Space} {s s1 : Pm} {f f1 : Free} {n b va d d' : ℕ} {r : Outcome (Option ℕ × Pm)}
      → Extends t s f t1 s1 f1
      → pages f + d ≤ pages f1 + d'
      → Walked kernel_end memtotal t1 s1 f1 n b va d r
      → Walked kernel_end memtotal t s f n b va d' r
  Walked-later x cost w = record {
    space = w.space;
    after = w.after;
    blocks = w.blocks;
    level = w.level;
    pte = w.pte;
    returns = w.returns;
    tables = w.tables;
    extends = Extends-trans x w.extends;
    cost = omega (arith, cost, w.cost);
    found = w.found;
  }

  module _ {t : Space} {s : Pm} {f : Free} (tables : Tables kernel_end memtotal t s f) (va n b : ℕ)
      (l : t.level b ≡ suc n) where
    abbrev pub word_at : ℕ
    word_at = load64 s.mem (b + 8 * (va / span n % 512))

    pub Walked-here :
        word_at % 2 ≡ 1
        → is_leaf n word_at ≡ true
        → Walked kernel_end memtotal t s f
            (suc n)
            b
            va
            0
            (ok (some (b + 8 * (va / span n % 512)), s))
    unfolding find
    Walked-here present leaf = record {
      space = t;
      after = s;
      blocks = f;
      level = n;
      pte = b + 8 * (va / span n % 512);
      returns = refl;
      tables = tables;
      extends = Extends-refl t s f;
      cost = omega arith;
      found = let e : (word_at % 2 == 0) ≡ false = ground arith in rw (e, leaf) refl;
    }

    pub Walked-below :
        {d : ℕ} {r : Outcome (Option ℕ × Pm)}
        → word_at % 2 ≡ 1
        → is_leaf n word_at ≡ false
        → Walked kernel_end memtotal t s f n (table_of word_at) va d r
        → Walked kernel_end memtotal t s f (suc n) b va d r
    unfolding find
    Walked-below present more w = record {
      space = w.space;
      after = w.after;
      blocks = w.blocks;
      level = w.level;
      pte = w.pte;
      returns = w.returns;
      tables = w.tables;
      extends = w.extends;
      cost = w.cost;
      found =
          let same : load64 w.after.mem (b + 8 * (va / span n % 512)) ≡ word_at =
            w.extends.kept_entry b (va / span n % 512) (omega arith) (omega arith) present in
          let e : (word_at % 2 == 0) ≡ false = ground arith in rw (same, e, more) w.found;
    }

    -- The test for an absent entry, with the value that fills it, in front of the rest of a walk.
    pub ensure-Walked :
        (d : ℕ) (value : Pm → Outcome (ℕ × Pm)) (rest : Pm → Outcome (Option ℕ × Pm))
        → suc d ≤ pages f
        → HasValue kernel_end memtotal t s f n (t.part b * 512 + va / span n % 512) (value s)
        → ((t1 : Space) (s1 : Pm) (f1 : Free)
            → Tables kernel_end memtotal t1 s1 f1
            → t1.level b ≡ suc n
            → t1.part b ≡ t.part b
            → t1.lowest ≡ t.lowest
            → load64 s1.mem (b + 8 * (va / span n % 512)) % 2 ≡ 1
            → d ≤ pages f1
            → Walked kernel_end memtotal t1 s1 f1 (suc n) b va d (rest s1))
        → Walked kernel_end memtotal t s f
            (suc n)
            b
            va
            (suc d)
            (ensure true value (b + 8 * (va / span n % 512)) rest s)
    ensure-Walked d value rest enough ((e, s1), done, v) next =
        elim (Bool-cases (word_at % 2 == 0)) [
          | inr present ↦
              rw (is_absent_lem, present)
                (Walked-later (Extends-refl t s f) (omega arith)
                  (next t s f tables l refl refl (ground arith) (omega arith)))
          | inl absent ↦
              let i = va / span n % 512 in
              let in_table : 1 ≤ t.level b = omega arith in
              let l1 : v.space.level b ≡ suc n = v.extends.kept_level b in_table ∙ l in
              let part1 : v.space.part b ≡ t.part b = v.extends.kept_part b in_table in
              let absent1 : load64 s1.mem (b + 8 * i) % 2 ≡ 0 =
                let same : load64 s1.mem (b + 8 * i) ≡ word_at =
                  load64_ext s.mem s1.mem (b + 8 * i)
                    λ q inside. v.untouched q (tables.used b q (in_table, ground arith)) in
                ground arith in
              let entry : IsEntry v.space n (v.space.part b * 512 + i) e = rw part1 v.entry in
              let step = fill-Extends v.tables b n i e l1 (omega arith) absent1 entry in
              let written : load64 (store64 s1.mem (b + 8 * i) e) (b + 8 * i) ≡ e =
                load64-store64_self s1.mem (b + 8 * i) e entry.word in
              rw (is_absent_lem, absent, done)
                (Walked-later (Extends-trans v.extends step) (omega (arith, v.cost)) (
                  next v.space (filled v.tables b n i e l1 (omega arith) absent1 entry) v.blocks
                    (fill-Tables v.tables b n i e l1 (omega arith) absent1 entry) l1 part1
                    v.extends.kept_lowest (rw written v.present) (omega (arith, v.cost))))
        ]
