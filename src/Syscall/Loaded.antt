-- ===== src/Syscall/Loaded.antt =====
-- What a file is that sys_spawn of syscall/spawn.c loads.
use march_os.Base.{ℕ, ◌+◌, ◌*◌, ◌%◌, ◌^◌, ◌≤◌, ◌<◌, ◌≡◌, ◌≢◌, ◌⊎◌, Bool, true, Option, some, List}
use march_os.Mm.Pm.{Pm}
use march_os.Mm.Vm.{user_addr_start}
use march_os.Inode.{Inode, Inodes}
use march_os.Syscall.{System, elf64_ehdr, elf64_phdr, elf_prog_load, minus_one, extended}

module _ (read : ℕ → ℕ → Option (List ℕ)) where
  -- A program header at an offset that can be read, and is either of no segment to load or of one
  -- whose bytes can be read, that has room for them and lies in the memory of processes.
  abbrev pub Fits : ℕ → Type 0
  Fits off =
      (bytes : List ℕ) × (read (extended off) 56 ≡ some bytes)
      × let phdr = elf64_phdr bytes in
        (phdr.p_type ≢ elf_prog_load)
        ⊎ ((phdr.p_filesz ≤ phdr.p_memsz)
            × (user_addr_start ≤ phdr.p_vaddr)
            × ((contents : List ℕ) × read phdr.p_offset phdr.p_filesz ≡ some contents))

  abbrev pub Loadable : Type 0
  Loadable =
      (bytes : List ℕ) × (read 0 64 ≡ some bytes)
      × let ehdr = elf64_ehdr bytes in
        (i : ℕ) → i < ehdr.e_phnum → Fits ((ehdr.e_phoff + i * ehdr.e_phentsize) % 2 ^ 32)

  -- What the loop has seen when it ends, and not by goto bad.
  abbrev AllFit : ℕ → ℕ → ℕ → Bool × Pm → Type 0
  AllFit size n off r = r.0 ≡ true → (i : ℕ) → i < n → Fits ((off + i * size) % 2 ^ 32)

module _ (kernel_end memtotal pgdir proc_list sysret stdio fuel inode_list : ℕ)
    (vfs_namei : ℕ → Inodes → Option ℕ × Inodes) (vfs_read : Inode → ℕ → ℕ → Option (List ℕ)) where
  -- What is true of the code that sys_spawn returns for a file.
  abbrev Answered : Inode → ℕ × System → Type 0
  Answered inode r = ((r.0 ≡ 0) × Loadable (vfs_read inode)) ⊎ (r.0 ≡ minus_one)
