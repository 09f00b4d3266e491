-- ===== src/Tests/Processes.antt =====
-- Processes on a concrete state: slabs with free sectors, one free page, an empty list of processes.
use march_os.Base.{
  ℕ, ◌≡◌, ◌≢◌, refl, List, [], ◌∷◌, ◌==◌, if◌then◌else◌, Outcome, ok, panic, endless,
}
use march_os.Mm.Mem.{load64}
use march_os.Mm.Pm.{pmalloc, pmalloc_4k}
use march_os.Mm.Slab.{
  Slab, kmalloc, kmalloc_large, kmalloc_64, size_to_slab_idx, find_free_slab, search_chain,
  first_clear,
}
use march_os.LinkedList.{list_push, last_entry}
use march_os.Proc.{unused, ProcState, palloc, pfree, switch_proc}
use march_os.Proc.States.{NoReady, allocated, here, after, pfree-never, Reach-stuck}
use march_os.Tests.Pages.{kernel_end, memtotal}

abbrev slab_at : ℕ → List Slab
slab_at a = record { self = 0x30_0000; address = a; bitmap = 0 } ∷ []

abbrev pub start : ProcState
start = record {
  kmem = record {
    pm = record { mem = λ a. 0; pmmap = λ i. if i == 0 then 0x40_0000 else 0 };
    slabs = λ i.
        if i == 0
        then slab_at 0x50_0000
        else if i == 3
        then slab_at 0x50_1000
        else if i == 4
        then slab_at 0x50_2000
        else [];
  };
  entries = λ a. record { node = 0; prev = 0; next = 0 };
  procs = λ p. record {
    stat = unused;
    pid = 0;
    kstack = 0;
    context = 0;
    wchan = 0;
    upml4 = 0;
    ofile = λ i. 0;
  };
  contexts = λ c. record { r15 = 0; r14 = 0; r13 = 0; r12 = 0; rbp = 0; rbx = 0; rip = 0 };
  curproc = 0;
  nextpid = 0;
  sysenter_esp = 0;
  running = 0;
}

abbrev call : Outcome (ℕ × ProcState)
call = palloc kernel_end memtotal 0x100_0000 0x60_0000 0x20_1000 0x60_1000 5 start

abbrev result : Outcome (ℕ × ProcState) → ProcState
result (ok (p, s)) = s
result panic = start
result endless = start

allocates : call ≡ ok (0x50_1000, result call)
unfolding palloc kmalloc pmalloc list_push load64 kmalloc_large size_to_slab_idx find_free_slab
    search_chain first_clear pmalloc_4k kmalloc_64 last_entry
allocates = refl

start-NoReady : NoReady start
start-NoReady p e = let numbers = e in cc

Reach-stuck_example :
    switch_proc kernel_end memtotal 0x100_0000 0x60_0000 0x20_1000 0x60_1000 5 0x50_1000 0x50_1000
      (result call)
    ≡ panic
Reach-stuck_example =
    Reach-stuck kernel_end memtotal 0x100_0000 0x60_0000 0x20_1000 0x60_1000 5 0x50_1000 0x50_1000
      start-NoReady (after here (allocated 0x50_1000 allocates))

pfree-never_example :
    pfree kernel_end memtotal 0x100_0000 0x60_0000 0x20_1000 0x60_1000 5 0x50_1000 start ≢ ok start
pfree-never_example =
    pfree-never kernel_end memtotal 0x100_0000 0x60_0000 0x20_1000 0x60_1000 5 0x50_1000 start start
