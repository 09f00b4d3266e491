-- ===== src/Tests/Traps.antt =====
-- Interrupts on a concrete state.
use march_os.Base.{ℕ, refl, [], Returns, arith}
use march_os.Trap.{Trapframe, Kernel}
use march_os.Trap.Ticks.{Ticked, interrupts, interrupts-Ticked}
use march_os.Tests.Pages.{kernel_end, memtotal}
use march_os.Tests.Paging.{linked}

abbrev frame : ℕ → Trapframe
frame n = record {
  r15 = 0;
  r14 = 0;
  r13 = 0;
  r12 = 0;
  r11 = 0;
  r10 = 0;
  r9 = 0;
  r8 = 0;
  rbp = 0;
  rdi = 0;
  rsi = 0;
  rdx = 0;
  rcx = 0;
  rbx = 0;
  rax = 0;
  trapno = n;
  err = 0;
  rip = 0;
  cs = 8;
  rflags = 0;
  rsp = 0;
  ss = 0;
}

abbrev running : Kernel
running = record { pm = linked; ticks = 0; kbd_flags = 0; sent = []; eois = 0 }

interrupts-Ticked_example :
    Returns (Ticked 250 running) (interrupts kernel_end memtotal 0x100_0000 250 (frame 32) running)
interrupts-Ticked_example =
    interrupts-Ticked kernel_end memtotal 0x100_0000 250 (frame 32) running refl refl (omega arith)
