-- ===== src/Tests/Gates.antt =====
-- Descriptors with concrete handlers.
use march_os.Base.{ℕ, ◌+◌, ◌*◌, ◌≡◌, [], arith}
use march_os.Idt.{
  Gate, Segment, State, gdt_kcode, sts_ig64, set_idt_entry, restore_idt_entry, idt_init,
}
use march_os.Idt.Decode.{low_word, high_word, Delivers, idt_init-Delivers, restore-set}

abbrev no_gate : Gate
no_gate = record {
  off_15_0 = 0;
  sel = 0;
  ist = 0;
  reserved_2 = 0;
  type = 0;
  s = 0;
  dpl = 0;
  p = 0;
  off_31_16 = 0;
  off_63_32 = 0;
  reserved_1 = 0;
}

abbrev no_segment : Segment
no_segment = record {
  lim_15_0 = 0;
  base_15_0 = 0;
  base_23_16 = 0;
  type = 0;
  s = 0;
  dpl = 0;
  p = 0;
  lim_19_16 = 0;
  flags = 0;
  base_31_24 = 0;
  base_63_32 = 0;
  reserved = 0;
}

abbrev start : State
start = record { idt = λ i. no_gate; idtr = []; rsp0_lo = 0; iomb = 0; tss = no_segment }

abbrev vectors : ℕ → ℕ
vectors i = 0x10_0000 + i * 16

abbrev started : State
started = idt_init vectors 0x20_0000 0x20_2000 104 0x30_0000 start

idt_init-Delivers_example :
    Delivers
      (low_word (started.idt 33))
      (high_word (started.idt 33))
      (vectors 33)
      gdt_kcode
      sts_ig64
      0
idt_init-Delivers_example =
    idt_init-Delivers vectors 0x20_0000 0x20_2000 104 0x30_0000 33 start (omega arith) (omega arith)

restore-set_example :
    restore_idt_entry vectors 33 (set_idt_entry 33 0x1234 started.idt) 33 ≡ started.idt 33
restore-set_example =
    restore-set vectors 0x20_0000 0x20_2000 104 0x30_0000 33 0x1234 33 start (omega arith)
