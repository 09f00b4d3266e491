-- ===== src/Proc.antt =====
-- Processes: arch/x86/proc.c, with the structs of include/proc.h.
pub mod States
use march_os.Base.{
  ℕ, zero, suc, ◌+◌, ◌-◌, ◌%◌, ◌^◌, Bool, true, false, not, ◌||◌, Option, none, some, List, [], ◌∷◌,
  ◌++◌, ◌==◌, if◌then◌else◌, Outcome, ok, panic, endless, ◌>>=◌, bit_or,
}
use march_os.Base.Text.{codes}
use march_os.Mm.Mem.{update}
use march_os.Mm.Pm.{pm_4k, Pm, pmalloc, pmfree}
use march_os.Mm.Vm.{user_addr_start, pg_p, pg_rw, pg_us, switch_uvm, free_uvm}
use march_os.Mm.Vm.Lookup.{translate}
use march_os.Mm.Slab.{Kmem, kmalloc, kmfree}
use march_os.LinkedList.{Store, list_push, list_remove}
use march_os.Trap.{page_fault}

-- enum procstat
pub data Stat : Type 0 where
  unused set ready run sleep zomb stop : Stat

abbrev pub stat_number : Stat → ℕ
stat_number unused = 0
stat_number set = 1
stat_number ready = 2
stat_number run = 3
stat_number sleep = 4
stat_number zomb = 5
stat_number stop = 6

-- struct context
pub record Context : Type 0 where
  pub r15 : ℕ
  pub r14 : ℕ
  pub r13 : ℕ
  pub r12 : ℕ
  pub rbp : ℕ
  pub rbx : ℕ
  pub rip : ℕ

-- struct proc; pointers are addresses.
pub record Proc : Type 0 where
  pub stat : Stat
  pub pid : ℕ
  pub kstack : ℕ
  pub context : ℕ
  pub wchan : ℕ
  pub upml4 : ℕ
  pub ofile : ℕ → ℕ

-- The slab allocator with memory, the entries of lists, the processes and the contexts by address,
-- the variables of the file, the stack for system calls, and the context that the processor runs.
pub record ProcState : Type 0 where
  pub kmem : Kmem
  pub entries : Store
  pub procs : ℕ → Proc
  pub contexts : ℕ → Context
  pub curproc : ℕ
  pub nextpid : ℕ
  pub sysenter_esp : ℕ
  pub running : ℕ

abbrev pub kstack_size : ℕ
kstack_size = 1024

abbrev pub rflags_if : ℕ
rflags_if = 2 ^ 9

abbrev pub set_proc : ℕ → Proc → ProcState → ProcState
set_proc p v s = record s { procs = λ q. if p == q then v else s.procs q }

abbrev pub set_stat : ℕ → Stat → ProcState → ProcState
set_stat p stat s = set_proc p (record (s.procs p) { stat = stat }) s

abbrev pub set_context : ℕ → Context → ProcState → ProcState
set_context c v s = record s { contexts = λ q. if c == q then v else s.contexts q }

abbrev pub set_pm : Pm → ProcState → ProcState
set_pm pm s = record s { kmem = record (s.kmem) { pm = pm } }

abbrev pub or_endless {ℓ} : {A : Type ℓ} → Option A → Outcome A
or_endless none = endless
or_endless (some a) = ok a

abbrev pub initcode : List ℕ
initcode =
    (0x48 ∷ 0xBF ∷ 0x26 ∷ 0x00 ∷ 0x00 ∷ 0x00 ∷ 0x00 ∷ 0x01 ∷ 0x00 ∷ 0x00 ∷ [])
    ++ (0x48 ∷ 0x31 ∷ 0xF6 ∷ [])
    ++ (0x48 ∷ 0xC7 ∷ 0xC0 ∷ 0xE8 ∷ 0x03 ∷ 0x00 ∷ 0x00 ∷ [])
    ++ (0x0F ∷ 0x05 ∷ [])
    ++ (0x48 ∷ 0xC7 ∷ 0xC7 ∷ 0x01 ∷ 0x00 ∷ 0x00 ∷ 0x00 ∷ [])
    ++ (0x48 ∷ 0xC7 ∷ 0xC0 ∷ 0x3C ∷ 0x00 ∷ 0x00 ∷ 0x00 ∷ [])
    ++ (0x0F ∷ 0x05 ∷ [])
    ++ codes "/BIN/SHELL"
    ++ (0x00 ∷ [])

-- `pgdir` and `proc_list` are the static variables of vm.c and proc.c, `sysret` and `stdio` the
-- addresses of _sysret and of the file that devfs_stdio gives; `fuel` is for the walks over lists.
module _ (kernel_end memtotal pgdir proc_list sysret stdio fuel : ℕ) where
  unfoldable pub palloc : ProcState → Outcome (ℕ × ProcState)
  palloc s = kmalloc kernel_end memtotal 304 s.kmem >>= λ (p, km1).
      kmalloc kernel_end memtotal kstack_size km1 >>= λ (kstack, km2).
      pmalloc kernel_end memtotal pm_4k km2.pm >>= λ (table, pm3).
      kmalloc kernel_end memtotal 24 (record km2 { pm = pm3 }) >>= λ (entry, km4).
      or_endless (list_push fuel s.entries proc_list p entry) >>= λ entries.
      let sp = kstack + kstack_size - 56 in
      ok (
        p,
        set_context sp (record (s.contexts sp) { rip = sysret; r13 = rflags_if })
            (set_proc p
              (record (s.procs p) {
                stat = set;
                pid = s.nextpid;
                kstack = kstack;
                context = sp;
                wchan = 0;
                upml4 = bit_or (bit_or (bit_or table pg_p) pg_rw) pg_us;
                ofile = update (update ((s.procs p).ofile) 0 stdio) 1 stdio;
              })
              (record s { kmem = km4; entries = entries; nextpid = (s.nextpid + 1) % 2 ^ 64 })),
      )

  -- The calls of pfree, in their order; list_remove gives the entry of the list to kmfree.
  unfoldable pub pfree : ℕ → ProcState → Outcome ProcState
  pfree p s = or_endless (list_remove fuel s.entries proc_list p) >>= λ (entries, freed).
      elim freed [ none ↦ ok s.kmem | some entry ↦ kmfree kernel_end memtotal entry s.kmem ]
      >>= kmfree kernel_end memtotal ((s.procs p).kstack)
      >>= λ km. free_uvm kernel_end memtotal ((s.procs p).upml4) km.pm >>= λ (upml4, pm).
          pmfree kernel_end memtotal upml4 pm_4k pm >>= λ pm'.
          kmfree kernel_end memtotal p (record km { pm = pm' }) >>= λ km'. ok (
            set_proc p (record (s.procs p) { upml4 = upml4 })
              (record s { kmem = km'; entries = entries }))

  -- switch_uvm(new); set_sysenter_stack(...); context_switch(&..., new->context). The last saves
  -- the registers in the old context and goes on with the new one.
  abbrev pub go_on_with : ℕ → ProcState → ProcState
  go_on_with new s = record (set_pm (switch_uvm pgdir ((s.procs new).upml4) s.kmem.pm) s) {
    sysenter_esp = (s.procs new).kstack + kstack_size;
    running = (s.procs new).context;
  }

  -- NULL is 0.
  unfoldable pub switch_proc : ℕ → ℕ → ProcState → Outcome ProcState
  switch_proc new old s =
      if new == 0 || old == 0
      then panic
      else if not (stat_number ((s.procs old).stat) == stat_number run)
          || not (stat_number ((s.procs new).stat) == stat_number ready)
      then panic
      else ok (go_on_with new (record (set_stat new run (set_stat old ready s)) { curproc = new }))

  -- A byte is written to an address of the running process; where there is no page, the processor
  -- calls trap and tries again.
  unfoldable pub store_user : ℕ → ℕ → Pm → Outcome Pm
  store_user va v pm = elim (translate pm.mem pgdir va) [
    | some pa ↦ ok (record pm { mem = update pm.mem pa v })
    | none ↦ page_fault kernel_end memtotal pgdir va pm >>= λ pm'.
        elim (translate pm'.mem pgdir va) [
          | some pa ↦ ok (record pm' { mem = update pm'.mem pa v })
          | none ↦ panic
        ]
  ]

  -- memcpy to the memory of a process
  unfoldable pub copy_to_user : ℕ → List ℕ → Pm → Outcome Pm
  copy_to_user va [] pm = ok pm
  copy_to_user va (c ∷ cs) pm = store_user va c pm >>= copy_to_user ((va + 1) % 2 ^ 64) cs

  -- The context that is left is a dummy.
  unfoldable pub uinit : ProcState → Outcome ProcState
  uinit s = palloc s >>= λ (init, s1).
      let s2 = set_stat init run s1 in
      let proc = s2.procs init in
      copy_to_user user_addr_start initcode (switch_uvm pgdir proc.upml4 s2.kmem.pm) >>= λ pm.
      ok
        (record (set_context proc.context
          (record (s2.contexts proc.context) {
            r15 = user_addr_start;
            r14 = user_addr_start + 4096;
          })
          (set_pm pm s2)) {
            sysenter_esp = proc.kstack + kstack_size;
            curproc = init;
            running = proc.context;
          })
