-- ===== src/Trap/Ticks.antt =====
-- The timer interrupt of arch/x86/trap.c, again and again.
use mathlib.Core.List.{append_assoc, append-nil}
use march_os.Base.{
  ℕ, zero, suc, ◌+◌, ◌*◌, ◌/◌, ◌%◌, ◌^◌, ◌<◌, ◌≡◌, refl, ap, sym, ◌∙◌, List, [], ◌∷◌, ◌++◌, ◌==◌,
  Bool-cases, inl, inr, Outcome, ok, ◌>>=◌, Returns, bind-Returns, arith,
}
use march_os.Base.Text.{codes}
use march_os.Console.{kprintf}
use march_os.Trap.{Trapframe, Kernel, t_irq0, irq_timer, timer, trap}

-- One line for each second that has gone by.
abbrev pub seconds : ℕ → List ℕ
seconds zero = []
seconds (suc k) = seconds k ++ kprintf (λ p. []) (codes "ticks = %d\n") (100 * suc k ∷ [])

-- The state after `n` timer interrupts since the start.
pub record Ticked (n : ℕ) (s s' : Kernel) : Type 0 where
  pub ticks : s'.ticks ≡ n
  pub sent : s'.sent ≡ s.sent ++ seconds (n / 100)
  pub eois : s'.eois ≡ s.eois + n
  pub pm : s'.pm ≡ s.pm
  pub kbd_flags : s'.kbd_flags ≡ s.kbd_flags

Ticked-timer :
    (n : ℕ) (s s' : Kernel) → suc n < 2 ^ 64 → Ticked n s s' → Ticked (suc n) s (timer s')
Ticked-timer n s s' small q =
    let next : (s'.ticks + 1) % 2 ^ 64 ≡ suc n = omega (arith, q.ticks) in
    elim (Bool-cases (suc n % 100 == 0)) [
      | inl full ↦
          let second : suc n / 100 ≡ suc (n / 100) = ground arith in
          let count : 100 * suc (n / 100) ≡ suc n = ground arith in
          rw (next, full)
            (record {
              ticks = refl;
              sent =
                  rw (second, count)
                    (ap (λ (l : List ℕ). l ++ kprintf (λ p. []) (codes "ticks = %d\n") (suc n ∷ []))
                        q.sent
                      ∙ append_assoc s.sent (seconds (n / 100)) _);
              eois = omega (arith, q.eois);
              pm = q.pm;
              kbd_flags = q.kbd_flags;
            })
      | inr part ↦
          let same : suc n / 100 ≡ n / 100 = ground arith in
          rw (next, part)
            (record {
              ticks = refl;
              sent = rw same q.sent;
              eois = omega (arith, q.eois);
              pm = q.pm;
              kbd_flags = q.kbd_flags;
            })
    ]

module _ (kernel_end memtotal pgdir : ℕ) where
  -- `n` interrupts in a row, each with this trap frame.
  unfoldable pub interrupts : ℕ → Trapframe → Kernel → Outcome Kernel
  interrupts zero tf s = ok s
  interrupts (suc n) tf s = interrupts n tf s >>= trap kernel_end memtotal pgdir tf 0 0

  trap-timer :
      (tf : Trapframe) (s : Kernel)
      → tf.trapno ≡ t_irq0 + irq_timer
      → trap kernel_end memtotal pgdir tf 0 0 s ≡ ok (timer s)
  unfolding trap
  trap-timer tf s e = rw e refl

  -- Timer interrupts keep count: after `n` of them, from 0 on, the counter is `n`, the local APIC
  -- has been told `n` times, and a line has been printed for every 100 of them and for no other.
  pub interrupts-Ticked :
      (n : ℕ) (tf : Trapframe) (s : Kernel)
      → tf.trapno ≡ t_irq0 + irq_timer
      → s.ticks ≡ 0
      → n < 2 ^ 64
      → Returns (Ticked n s) (interrupts n tf s)
  unfolding interrupts
  interrupts-Ticked zero tf s e start small = (
    s,
    refl,
    record {
      ticks = start;
      sent = sym (append-nil s.sent);
      eois = omega arith;
      pm = refl;
      kbd_flags = refl;
    },
  )
  interrupts-Ticked (suc n) tf s e start small =
      bind-Returns (interrupts-Ticked n tf s e start (omega arith))
        λ s' q. (timer s', trap-timer tf s' e, Ticked-timer n s s' small q)
