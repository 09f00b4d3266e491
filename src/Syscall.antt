-- ===== src/Syscall.antt =====
-- System calls: syscall/call.c and syscall/spawn.c, with the structs of include/elf.h, as in a
-- build without __DEBUG__.
pub mod Loaded
use march_os.Base.{
  ℕ, zero, suc, ◌+◌, ◌-◌, ◌%◌, ◌^◌, Bool, true, false, not, ltb, Option, none, some, List, [], ◌∷◌,
  ◌==◌, if◌then◌else◌, Outcome, ok, panic, ◌>>=◌, get_or,
}
use march_os.Base.Text.{codes}
use march_os.Console.{kprintf}
use march_os.Mm.Mem.{Mem, half, word, load64}
use march_os.Mm.Pm.{Pm}
use march_os.Mm.Vm.{user_addr_start, switch_uvm}
use march_os.Mm.Slab.{kmfree}
use march_os.Inode.{Inode, Inodes, ifree}
use march_os.Proc.{ProcState, set_pm, or_endless, palloc, pfree, copy_to_user}

-- The processes with memory, and the inodes.
pub record System : Type 0 where
  pub processes : ProcState
  pub files : Inodes

-- Elf64_Ehdr, the fields that the kernel uses.
pub record Elf64Ehdr : Type 0 where
  pub e_entry : ℕ
  pub e_phoff : ℕ
  pub e_phentsize : ℕ
  pub e_phnum : ℕ

-- Elf64_Phdr
pub record Elf64Phdr : Type 0 where
  pub p_type : ℕ
  pub p_flags : ℕ
  pub p_offset : ℕ
  pub p_vaddr : ℕ
  pub p_paddr : ℕ
  pub p_filesz : ℕ
  pub p_memsz : ℕ
  pub p_align : ℕ

-- The struct on the stack that the bytes are read into.
abbrev pub on_stack : List ℕ → Mem
on_stack bytes a = get_or bytes a 0

abbrev pub elf64_ehdr : List ℕ → Elf64Ehdr
elf64_ehdr bytes = record {
  e_entry = load64 (on_stack bytes) 24;
  e_phoff = load64 (on_stack bytes) 32;
  e_phentsize = half (on_stack bytes) 54;
  e_phnum = half (on_stack bytes) 56;
}

abbrev pub elf64_phdr : List ℕ → Elf64Phdr
elf64_phdr bytes = record {
  p_type = word (on_stack bytes) 0;
  p_flags = word (on_stack bytes) 4;
  p_offset = load64 (on_stack bytes) 8;
  p_vaddr = load64 (on_stack bytes) 16;
  p_paddr = load64 (on_stack bytes) 24;
  p_filesz = load64 (on_stack bytes) 32;
  p_memsz = load64 (on_stack bytes) 40;
  p_align = load64 (on_stack bytes) 48;
}

abbrev pub elf_prog_load : ℕ
elf_prog_load = 1

abbrev pub minus_one : ℕ
minus_one = 2 ^ 32 - 1

-- An int as a uint64: the sign is extended.
abbrev pub extended : ℕ → ℕ
extended off = if ltb off (2 ^ 31) then off else off + (2 ^ 64 - 2 ^ 32)

-- What a program header comes to before its segment is read: continue, goto bad, or go on.
pub data Action : Type 0 where
  skip bad load : Action

unfoldable pub header_action : Elf64Phdr → Action
header_action phdr =
    if not (phdr.p_type == elf_prog_load)
    then skip
    else if ltb phdr.p_memsz phdr.p_filesz
    then bad
    else if ltb phdr.p_vaddr user_addr_start
    then bad
    else load

-- `read` is vfs_read of the file: the bytes that it puts at the destination for an offset and a
-- size, or `none` for -1. The rest are the arguments of Proc.
module _ (kernel_end memtotal pgdir proc_list sysret stdio fuel : ℕ)
    (read : ℕ → ℕ → Option (List ℕ)) where
  -- The loop over the program headers, with `n` to go; `false` is goto bad.
  unfoldable pub load_segments : ℕ → ℕ → ℕ → Pm → Outcome (Bool × Pm)
  load_segments e_phentsize zero off pm = ok (true, pm)
  load_segments e_phentsize (suc n) off pm = elim (read (extended off) 56) [
    | none ↦ ok (false, pm)
    | some bytes ↦
        let phdr = elf64_phdr bytes in
        let next = (off + e_phentsize) % 2 ^ 32 in
        elim (header_action phdr) [
          | skip ↦ load_segments e_phentsize n next pm
          | bad ↦ ok (false, pm)
          | load ↦ elim (read phdr.p_offset phdr.p_filesz) [
            | none ↦ ok (false, pm)
            | some contents ↦
                copy_to_user kernel_end memtotal pgdir proc_list sysret stdio fuel phdr.p_vaddr
                  contents pm
                >>= λ pm'. load_segments e_phentsize n next pm'
          ]
        ]
  ]

  -- From the comment "Load the file into memory" to the jump behind the loop.
  unfoldable pub load_file : Pm → Outcome (Bool × Pm)
  load_file pm = elim (read 0 64) [
    | none ↦ ok (false, pm)
    | some bytes ↦
        let ehdr = elf64_ehdr bytes in
        load_segments ehdr.e_phentsize ehdr.e_phnum (ehdr.e_phoff % 2 ^ 32) pm
  ]

-- ifree(inode)
abbrev pub release : ℕ → ℕ → ℕ → ℕ → ℕ → System → Outcome System
release kernel_end memtotal fuel inode_list ip s =
    or_endless (ifree fuel inode_list ip s.files) >>= λ (given_back, files).
    let p = s.processes in
    (if given_back then kmfree kernel_end memtotal ip p.kmem else ok p.kmem) >>= λ km.
    ok (record { processes = record p { kmem = km }; files = files })

-- switch_uvm(p)
abbrev pub run_in : ℕ → ℕ → ProcState → ProcState
run_in pgdir p s = set_pm (switch_uvm pgdir ((s.procs p).upml4) s.kmem.pm) s

abbrev pub sys_exit : ℕ
sys_exit = 60

abbrev pub sys_spawn_number : ℕ
sys_spawn_number = 1000

-- The file system is an argument: `vfs_namei` gives the inode for a path, `vfs_read` the bytes of a
-- file, and `inode_list` is the static variable of fs/inode.c.
module _ (kernel_end memtotal pgdir proc_list sysret stdio fuel inode_list : ℕ)
    (vfs_namei : ℕ → Inodes → Option ℕ × Inodes) (vfs_read : Inode → ℕ → ℕ → Option (List ℕ)) where
  -- From the loading of the file on, for the process at `new`. The results are ints of 32 bits.
  unfoldable pub spawn_file : ℕ → Inodes → ℕ → ProcState → Outcome (ℕ × System)
  spawn_file ip files new p =
      load_file kernel_end memtotal pgdir proc_list sysret stdio fuel (vfs_read (files.inodes ip))
        p.kmem.pm
      >>= λ (good, pm).
          (if good
            then ok (set_pm pm p)
            else pfree kernel_end memtotal pgdir proc_list sysret stdio fuel new (set_pm pm p))
          >>= λ p'.
              release kernel_end memtotal fuel inode_list ip
                (record { processes = run_in pgdir p'.curproc p'; files = files })
              >>= λ s. ok (0, s)

  -- From the test of the inode on, for what vfs_namei gives.
  unfoldable pub spawn_found : Option ℕ × Inodes → ProcState → Outcome (ℕ × System)
  spawn_found (none, files) p = ok (minus_one, record { processes = p; files = files })
  spawn_found (some ip, files) p =
      palloc kernel_end memtotal pgdir proc_list sysret stdio fuel p >>= λ (new, p').
      if new == 0
      then (release kernel_end memtotal fuel inode_list ip
            (record { processes = p'; files = files })
          >>= λ s. ok (minus_one, s))
      else spawn_file ip files new (run_in pgdir new p')

  -- NULL is 0.
  unfoldable pub sys_spawn : ℕ → System → Outcome (ℕ × System)
  sys_spawn path s =
      if path == 0 then ok (minus_one, s) else spawn_found (vfs_namei path s.files) s.processes

  -- What is printed, and the state, when `while (1);` is reached.
  unfoldable pub syscall : ℕ → ℕ → System → Outcome (List ℕ × System)
  syscall arg1 syscall_num s =
      if syscall_num == sys_spawn_number
      then (sys_spawn arg1 s >>= λ (code, s'). ok ([], s'))
      else if syscall_num == sys_exit
      then ok (kprintf (λ p. []) (codes "SYS_exit\n") [], s)
      else ok (kprintf (λ p. []) (codes "unknown syscall %d\n") (syscall_num ∷ []), s)
