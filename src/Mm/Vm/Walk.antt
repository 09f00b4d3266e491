-- ===== src/Mm/Vm/Walk.antt =====
-- walk_pgdir of arch/x86/vm.c with `create`.
use march_os.Base.{◌⊎◌, ℕ, suc, ◌+◌, ◌*◌, ◌/◌, ◌%◌, ◌≤◌, ◌≡◌, Bool, true, Option, Outcome}
use march_os.Mm.Pm.{Pm}
use march_os.Mm.Pm.Free.{Free, pages}
use march_os.Mm.Vm.Lookup.{span}
use march_os.Mm.Vm.Tables.{Space, Tables}
use march_os.Mm.Vm.Fill.{Walked}

-- A walk from the table at `b`, which has `n + 1` levels and stands for the stretch that holds `va`.
abbrev pub WalkSpec : ℕ → ℕ → ℕ → Bool → ℕ → ℕ → (ℕ → Pm → Outcome (Option ℕ × Pm)) → Type 0
WalkSpec kernel_end memtotal va large n d walk =
    (t : Space) (s : Pm) (f : Free) (b : ℕ)
    → Tables kernel_end memtotal t s f
    → t.level b ≡ suc n
    → t.part b * 512 + va / span n % 512 ≡ va / span n
    → (large ≡ true) ⊎ (t.lowest ≤ 1)
    → d ≤ pages f
    → Walked kernel_end memtotal t s f (suc n) b va d (walk b s)
