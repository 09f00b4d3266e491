-- ===== src/Mm/Vm/Init.antt =====
-- vm_init of arch/x86/vm.c: memory below 4 GiB is mapped to itself.
use march_os.Base.{ℕ, ◌≤◌, ◌<◌, ◌≡◌, some}
use march_os.Mm.Pm.{Pm}
use march_os.Mm.Pm.Free.{Free, pages}
use march_os.Mm.Vm.Lookup.{translate}
use march_os.Mm.Vm.Tables.{Space, Tables}

-- The addresses below `top` are mapped to themselves, by entries for 2 MiB.
pub record Direct (kernel_end memtotal pgdir top free : ℕ) (s : Pm) : Type 0 where
  pub space : Space
  pub blocks : Free
  pub tables : Tables kernel_end memtotal space s blocks
  pub large_only : space.lowest ≡ 2
  pub root : space.level pgdir ≡ 4
  pub root_part : space.part pgdir ≡ 0
  pub budget : free ≤ pages blocks
  pub mapped : (x : ℕ) → x < top → translate s.mem pgdir x ≡ some x

no_tables : Space
no_tables = record { lowest = 2; level = λ b. 0; part = λ b. 0 }
