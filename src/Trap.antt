-- ===== src/Trap.antt =====
-- Interrupts: arch/x86/trap.c.
pub mod Faults
pub mod Ticks
use march_os.Base.{
  ℕ, ◌+◌, ◌*◌, ◌%◌, ◌^◌, Bool, true, false, Option, none, some, List, [], ◌∷◌, ◌++◌, ◌==◌,
  if◌then◌else◌, Outcome, ok, panic, ◌>>=◌,
}
use march_os.Base.Text.{codes}
use march_os.Console.{kprintf}
use march_os.Keyboard.{kbdgetc}
use march_os.Mm.Pm.{Pm}
use march_os.Mm.Vm.{walk_pgdir}

-- struct trapframe
pub record Trapframe : Type 0 where
  pub r15 : ℕ
  pub r14 : ℕ
  pub r13 : ℕ
  pub r12 : ℕ
  pub r11 : ℕ
  pub r10 : ℕ
  pub r9 : ℕ
  pub r8 : ℕ
  pub rbp : ℕ
  pub rdi : ℕ
  pub rsi : ℕ
  pub rdx : ℕ
  pub rcx : ℕ
  pub rbx : ℕ
  pub rax : ℕ
  pub trapno : ℕ
  pub err : ℕ
  pub rip : ℕ
  pub cs : ℕ
  pub rflags : ℕ
  pub rsp : ℕ
  pub ss : ℕ

abbrev pub x86_ex_pf : ℕ
x86_ex_pf = 14

abbrev pub t_irq0 : ℕ
t_irq0 = 32

abbrev pub irq_timer : ℕ
irq_timer = 0

abbrev pub irq_kbd : ℕ
irq_kbd = 1

-- Memory, the tick counter, the flags of the keyboard, the bytes sent so far, and how often the
-- local APIC was told that an interrupt is over.
pub record Kernel : Type 0 where
  pub pm : Pm
  pub ticks : ℕ
  pub kbd_flags : ℕ
  pub sent : List ℕ
  pub eois : ℕ

abbrev pub print : List ℕ → List ℕ → Kernel → Kernel
print fmt args s = record s { sent = s.sent ++ kprintf (λ p. []) fmt args }

abbrev pub apic_eoi : Kernel → Kernel
apic_eoi s = record s { eois = s.eois + 1 }

-- What dump_tf sends.
unfoldable pub dump_tf : Trapframe → List ℕ
dump_tf tf =
    kprintf (λ p. []) (codes "trapframe:\n") []
    ++ kprintf (λ p. []) (codes "    trapno = %x\n") (tf.trapno ∷ [])
    ++ kprintf (λ p. []) (codes "    r15 = %x\n") (tf.r15 ∷ [])
    ++ kprintf (λ p. []) (codes "    r14 = %x\n") (tf.r14 ∷ [])
    ++ kprintf (λ p. []) (codes "    r13 = %x\n") (tf.r13 ∷ [])
    ++ kprintf (λ p. []) (codes "    r12 = %x\n") (tf.r12 ∷ [])
    ++ kprintf (λ p. []) (codes "    r11 = %x\n") (tf.r11 ∷ [])
    ++ kprintf (λ p. []) (codes "    r10 = %x\n") (tf.r10 ∷ [])
    ++ kprintf (λ p. []) (codes "     r9 = %x\n") (tf.r9 ∷ [])
    ++ kprintf (λ p. []) (codes "     r8 = %x\n") (tf.r8 ∷ [])
    ++ kprintf (λ p. []) (codes "    rbp = %x\n") (tf.rbp ∷ [])
    ++ kprintf (λ p. []) (codes "    rdi = %x\n") (tf.rdi ∷ [])
    ++ kprintf (λ p. []) (codes "    rsi = %x\n") (tf.rsi ∷ [])
    ++ kprintf (λ p. []) (codes "    rdx = %x\n") (tf.rdx ∷ [])
    ++ kprintf (λ p. []) (codes "    rcx = %x\n") (tf.rcx ∷ [])
    ++ kprintf (λ p. []) (codes "    rbx = %x\n") (tf.rbx ∷ [])
    ++ kprintf (λ p. []) (codes "    rax = %x\n") (tf.rax ∷ [])
    ++ kprintf (λ p. []) (codes "    err = %x\n") (tf.err ∷ [])
    ++ kprintf (λ p. []) (codes "    rip = %x\n") (tf.rip ∷ [])
    ++ kprintf (λ p. []) (codes "    rsp = %x\n") (tf.rsp ∷ [])
    ++ kprintf (λ p. []) (codes "    cs  = %x\n") (tf.cs ∷ [])
    ++ kprintf (λ p. []) (codes "    ss  = %x\n") (tf.ss ∷ [])
    ++ kprintf (λ p. []) (codes "    rflags = %x\n") (tf.rflags ∷ [])

-- case T_IRQ0 + IRQ_TIMER
abbrev pub timer : Kernel → Kernel
timer s =
    let s' = apic_eoi (record s { ticks = (s.ticks + 1) % 2 ^ 64 }) in
    if s'.ticks % 100 == 0 then print (codes "ticks = %d\n") (s'.ticks ∷ []) s' else s'

-- case T_IRQ0 + IRQ_KBD. `code` is what the keyboard gives.
abbrev pub keyboard : ℕ → Kernel → Kernel
keyboard code s =
    let (c, flags) = kbdgetc s.kbd_flags code in
    let s' = record s { kbd_flags = flags } in
    apic_eoi (if c == 0 then s' else print (codes "kbd: %c\n") (c ∷ []) s')

module _ (kernel_end memtotal pgdir : ℕ) where
  -- case X86_EX_PF. `cr2` is the address that could not be reached. The message is one of debugf.
  unfoldable pub page_fault : ℕ → Pm → Outcome Pm
  page_fault cr2 pm = walk_pgdir kernel_end memtotal pgdir cr2 true false pm >>= λ (r, pm').
      elim r [ none ↦ panic | some pte ↦ ok pm' ]

  -- In the default case dump_tf prints, and the kernel stops.
  unfoldable pub trap : Trapframe → ℕ → ℕ → Kernel → Outcome Kernel
  trap tf cr2 code s =
      if tf.trapno == x86_ex_pf
      then (page_fault cr2 s.pm >>= λ pm'. ok (record s { pm = pm' }))
      else if tf.trapno == t_irq0 + irq_timer
      then ok (timer s)
      else if tf.trapno == t_irq0 + irq_kbd
      then ok (keyboard code s)
      else panic
