-- ===== src/Lib.antt =====
-- March OS, a small x86-64 kernel: memory, strings, output, keyboard, PCI, lists, inodes, FAT16,
-- interrupt gates, page tables, interrupts, the tables of ACPI, processes, the ATA disk, system
-- calls.
--
-- Parts and files. Paths are from the repository's root.
--   Base          shared tests, lists, binary digits, and Outcome: a call returns, panics, or
--                 does not end
--   Mm/Mem        physical memory as bytes; memset of string.c
--   Mm/Pm         mm/pm.c and pm_init of arch/x86/pm.c: blocks of 4 KiB, 512 KiB and 64 MiB on
--                 free lists that are linked through the free blocks themselves
--   Mm/Vm         arch/x86/vm.c: walk_pgdir, vm_init, switch_uvm and free_uvm; in Mm/Vm/Tables the
--                 invariant of the tables, in Mm/Vm/Lookup where they lead,
--                 in Mm/Vm/Processor the processor's walk, in Mm/Vm/Rights the rights
--   Mm/Slab       mm/slab.c: kmalloc and kmfree over chains of slabs
--   CString       string.c: memcpy, memcmp and strcmp over memory
--   Console       serial.c: printn and _kprintf as the bytes that they send
--   Keyboard      drivers/kbd.c: kbdgetc over its flags
--   Fat16/Dump    fs/fat16/dump.c: the dumps of the disk's structs
--   Pci           pci.c: configuration reads, pci_scan (Pci/Registers is what it
--                 reads), and the line that pci_parse_class prints
--   LinkedList    list.c: list_push and list_remove over the memory of the entries
--   Inode         fs/inode.c: ialloc and ifree over LinkedList
--   Fat16         fs/fat16: fat16_init, fat16_read_cluster and fat16_next_cluster; in Fat16/Read
--                 fat16_readi; in Fat16/Name fat16_find_cluster and fat16_namei; and
--                 what ide_read_seq leaves in memory
--   Ide           arch/x86/ide.c over the ports of a drive; Ide/Drive is what it relies on
--   Idt           arch/x86/idt.c and include/x86/desc.h: gates and the task state's descriptor
--   Acpi          acpi.c and include/acpi.h: acpi_init over the tables of the firmware
--   Trap          arch/x86/trap.c: page faults, the timer, the keyboard
--   Proc          arch/x86/proc.c: processes and their states
--   Syscall       syscall/call.c and syscall/spawn.c: syscall and sys_spawn
--   Tests         runs on concrete states, and the theorems at inputs that meet their hypotheses
--
-- How the parts interact. Page tables lie in the memory of the page allocator and take their
-- pages from it; trap calls walk_pgdir for a page fault, and kbdgetc. Processes take their
-- structs from the slabs and their tables from the page allocator, and hang on a list of list.c.
-- sys_spawn takes a process and loads a file into its pages, where a first access is a page
-- fault. Slabs take their blocks from the page allocator, whose state is part of theirs.
-- pci_parse_class prints through _kprintf; inodes hang on a list of list.c; fat16_readi reads
-- clusters from the disk into a buffer and copies them with memcpy. LinkedList, Inode and Fat16
-- take the addresses that kmalloc gives as arguments, with the hypothesis that they lie apart
-- from what is in use.
--
-- State. Each operation takes the state that it reads and returns the one that it leaves. Devices
-- are arguments: the bytes of the disk, what the PCI ports give for an address, the code that the
-- keyboard gives. Numbers are natural numbers, with the wrap-around of the C types written out.
--
-- Fuel. A loop that runs out of its rounds is endless, which is no panic. vm_init runs its loop
-- 2048 times, and one round more finds the end. pm_init runs each loop at most as often as the
-- address is large. kmfree calls itself at most once for each struct on a chain. The loop over
-- the MADT takes at least 6 bytes a round. printn is as deep as a 64-bit number has binary
-- digits. strcmp, list_push, list_remove and ialloc take their fuel as an argument; their
-- theorems say how much is enough.
--
-- Not modelled: the registers of the interrupt controllers, the boot loader, assembly, and
-- debug output but that of ACPI and of the dumps.
pub mod Base
pub mod Mm
pub mod CString
pub mod Console
pub mod Keyboard
pub mod Pci
pub mod LinkedList
pub mod Inode
pub mod Fat16
pub mod Ide
pub mod Idt
pub mod Acpi
pub mod Trap
pub mod Proc
pub mod Syscall
mod Tests
