-- ===== src/Tests/Paging.antt =====
-- The page tables on a concrete state.
use march_os.Base.{
  sym, ◌∙◌, ℕ, ◌+◌, ◌^◌, ◌%◌, ◌<◌, ◌≡◌, refl, true, false, some, ◌==◌, if◌then◌else◌, ok, arith,
}
use march_os.Mm.Mem.{load64, store64}
use march_os.Mm.Pm.{PmSize, pm_4k, pm_512k, pm_64m, Pm}
use march_os.Mm.Pm.Free.{PageAligned}
use march_os.Mm.Vm.{walk_pgdir}
use march_os.Mm.Vm.Lookup.{is_leaf, table_of, find, pte_of, translate, store64-lt}
use march_os.Mm.Vm.Processor.{IsPlain, processor_walk, walk_pgdir-processor_walk}
use march_os.Mm.Vm.Tables.{Space, IsEntry, Tables}
use march_os.Mm.Vm.Grow.{fill-Tables}
use march_os.Mm.Vm.Init.{Direct}
use march_os.Tests.Pages.{kernel_end, memtotal, one_block, one_free, one_block-Rep}

one_free-PageAligned : (z : PmSize) → PageAligned (one_free z)
one_free-PageAligned pm_64m = (refl, tt)
one_free-PageAligned pm_512k = tt
one_free-PageAligned pm_4k = tt

-- Three tables below the free block.
abbrev pub three : Space
three = record {
  lowest = 1;
  level = λ b.
      if b == 0x100_0000
      then 4
      else if b == 0x100_1000
      then 3
      else if b == 0x100_2000
      then 2
      else 0;
  part = λ b. 0;
}

three-Tables : Tables kernel_end memtotal three one_block one_free
unfolding load64
three-Tables = record {
  rep = one_block-Rep;
  aligned = one_free-PageAligned;
  lowest = omega arith;
  levels = λ b l. omega arith;
  placed = λ b l. ground arith;
  used = λ b p (l, i). ground arith;
  entries = λ b n i l small. record {
    word = omega arith;
    next = λ present more. absurd (omega arith);
    direct = λ present leaf low. absurd (omega arith);
    writable = λ present. absurd (omega arith);
    user = λ present high. absurd (omega arith);
  };
}

-- They are linked, and the last one maps the first 2 MiB.
abbrev pub linked : Pm
linked = record one_block {
  mem =
      store64 (store64 (store64 (λ a. 0) 0x100_0000 0x100_1003) 0x100_1000 0x100_2003) 0x100_2000
        0x83;
}

pointer :
    (n table : ℕ)
    → is_leaf n (table + 3) ≡ false
    → table % 4096 ≡ 0
    → table + 4096 < 2 ^ 64
    → three.level table ≡ n
    → IsEntry three n 0 (table + 3)
pointer n table more start fits l = record {
  word = omega arith;
  next = λ present not_leaf.
      let same : table_of (table + 3) ≡ table = omega arith in rw same (l, refl);
  direct = λ present leaf low. absurd (let e = sym more ∙ leaf in cc);
  writable = λ present. omega arith;
  user = λ present high. absurd (omega arith);
}

pub linked-Tables : Tables kernel_end memtotal three linked one_free
unfolding load64 store64
linked-Tables =
    let first =
      fill-Tables three-Tables 0x100_0000 3 0 0x100_1003 refl (omega arith) refl
        (pointer 3 0x100_1000 refl refl (omega arith) refl) in
    let second =
      fill-Tables first 0x100_1000 2 0 0x100_2003 refl (omega arith) refl
        (pointer 2 0x100_2000 refl refl (omega arith) refl) in
    fill-Tables second 0x100_2000 1 0 0x83 refl (omega arith) refl record {
      word = omega arith;
      next = λ present not_leaf. absurd (cc);
      direct = λ present leaf low. refl;
      writable = λ present. refl;
      user = λ present high. absurd (omega arith);
    }

linked_maps : translate linked.mem 0x100_0000 0x1234 ≡ some 0x1234
unfolding find load64 store64
linked_maps = refl

linked-IsPlain : IsPlain linked.mem 4 0x100_0000 0x1234
unfolding load64 store64
linked-IsPlain =
    λ e4 l4. (omega arith, λ h4. refl, λ e3 l3. (omega arith, λ h3. refl, λ e2 leaf. absurd (cc)))

walk_pgdir-processor_walk_example :
    walk_pgdir kernel_end memtotal 0x100_0000 0x1234 false true linked
    ≡ ok (pte_of (processor_walk linked.mem 4 (table_of 0x100_0000) 0x1234), linked)
walk_pgdir-processor_walk_example =
    walk_pgdir-processor_walk kernel_end memtotal 0x1234 linked
      (λ p. store64-lt _ 0x100_2000 0x83 p λ q.
        store64-lt _ 0x100_1000 0x100_2003 q
          λ r. store64-lt (λ a. 0) 0x100_0000 0x100_1003 r λ a. omega arith)
      0x100_0000 true (omega arith) linked-IsPlain
