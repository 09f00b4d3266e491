-- ===== src/Trap/Faults.antt =====
-- The page fault of arch/x86/trap.c, over the page tables of arch/x86/vm.c.
use march_os.Base.{ℕ, ◌+◌, ◌≤◌, ◌<◌, ◌≡◌, true, Bool, some}
use march_os.Mm.Pm.Free.{Free, pages}
use march_os.Mm.Vm.{user_addr_start}
use march_os.Mm.Vm.Lookup.{translate}
use march_os.Mm.Vm.Rights.{allows}
use march_os.Mm.Vm.Tables.{Space, Tables}
use march_os.Trap.{Kernel}

-- The access to `cr2` can be made again: the tables lead it to a place, itself if it is the kernel's,
-- and allow reading and writing there to the kernel, and to a process at the addresses of processes.
-- What could be reached before still can, at the same place, the tables satisfy their
-- invariant, and the rest of the kernel's state is as before.
pub record CanRetry (kernel_end memtotal pgdir cr2 : ℕ) (f : Free) (s s' : Kernel) : Type 0 where
  pub place : ℕ
  pub reached : translate s'.pm.mem pgdir cr2 ≡ some place
  pub direct : cr2 < user_addr_start → place ≡ cr2
  pub allowed :
      (user : Bool)
      → (user ≡ true → user_addr_start ≤ cr2)
      → allows s'.pm.mem user 4 pgdir cr2 ≡ true
  pub kept :
      (x pa : ℕ) → translate s.pm.mem pgdir x ≡ some pa → translate s'.pm.mem pgdir x ≡ some pa
  pub space : Space
  pub blocks : Free
  pub tables : Tables kernel_end memtotal space s'.pm blocks
  pub root : space.level pgdir ≡ 4
  pub root_part : space.part pgdir ≡ 0
  pub lowest : space.lowest ≤ 1
  pub budget : pages f ≤ pages blocks + 4
  pub rest : s' ≡ record s { pm = s'.pm }
