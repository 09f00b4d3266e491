-- ===== src/Tests/Programs.antt =====
-- A file whose one segment lies in the memory of the kernel, and a file that is loaded.
use march_os.Base.{
  ℕ, zero, suc, ◌≡◌, refl, ◌&&◌, ◌==◌, if◌then◌else◌, Option, none, some, List, [], ◌∷◌, ◌++◌,
  Outcome, ok, panic, endless,
}
use march_os.Mm.Mem.{load64}
use march_os.Mm.Mem.{store64}
use march_os.Mm.Pm.{pmalloc, pmalloc_4k}
use march_os.Mm.Vm.{switch_uvm}
use march_os.Mm.Slab.{
  kmalloc, kmalloc_large, kmalloc_64, size_to_slab_idx, find_free_slab, search_chain, first_clear,
}
use march_os.LinkedList.{list_push, last_entry}
use march_os.Proc.{palloc, copy_to_user}
use march_os.Inode.{Inodes, ifree}
use march_os.Syscall.{
  System, sys_spawn, spawn_found, spawn_file, load_file, load_segments, header_action,
}
use march_os.Tests.Pages.{kernel_end, memtotal}
use march_os.Tests.Processes.{start}

abbrev zeros : ℕ → List ℕ
zeros zero = []
zeros (suc n) = 0 ∷ zeros n

-- One program header, at 64, of 56 bytes.
abbrev header : List ℕ
header = zeros 32 ++ (64 ∷ zeros 21) ++ (56 ∷ 0 ∷ 1 ∷ 0 ∷ zeros 6)

-- A segment to load at 0x1000.
abbrev program_header : List ℕ
program_header = (1 ∷ zeros 15) ++ (0 ∷ 0x10 ∷ zeros 38)

abbrev bad_file : ℕ → ℕ → Option (List ℕ)
bad_file offset size =
    if offset == 0 && size == 64
    then some header
    else if offset == 64 && size == 56
    then some program_header
    else if size == 0
    then some []
    else none

abbrev running : System
running = record {
  processes = start;
  files = record {
    entries = λ a. record { node = 0; prev = 0; next = 0 };
    inodes = λ a. record { id = 2; size = 120; refcnt = 3 };
  };
}

abbrev namei : ℕ → Inodes → Option ℕ × Inodes
namei path files = (some 0x7000, files)

-- A file of two program headers, the first of no segment, the second of an empty one.
abbrev good_file : ℕ → ℕ → Option (List ℕ)
good_file offset size =
    if size == 0
    then some []
    else if offset == 0
    then some (zeros 32 ++ (64 ∷ zeros 21) ++ (56 ∷ 0 ∷ 2 ∷ 0 ∷ zeros 6))
    else if offset == 64
    then some (zeros 56)
    else if offset == 120
    then some ((1 ∷ zeros 20) ++ (1 ∷ zeros 34))
    else none

abbrev code : Outcome (ℕ × System) → Option ℕ
code (ok (c, s)) = some c
code panic = none
code endless = none

spawns :
    code (
      sys_spawn kernel_end memtotal 0x100_0000 0x60_0000 0x20_1000 0x60_1000 5 0x70_0000 namei
        (λ inode. good_file)
        0x8000
        running)
    ≡ some 0
unfolding sys_spawn spawn_found spawn_file load_file load_segments header_action ifree palloc
    kmalloc pmalloc list_push load64 kmalloc_large size_to_slab_idx find_free_slab search_chain
    first_clear pmalloc_4k kmalloc_64 last_entry copy_to_user switch_uvm store64
spawns = refl
