-- ===== src/Idt.antt =====
-- Gates of the interrupt descriptor table and the descriptor of the task state: arch/x86/idt.c and
-- include/x86/desc.h. The addresses of the handlers in vectors.S and of the task state are arguments.
pub mod Decode
use march_os.Base.{ℕ, zero, suc, ◌+◌, ◌-◌, ◌*◌, ◌/◌, ◌%◌, ◌^◌, ◌==◌, if◌then◌else◌, List, [], ◌∷◌}

-- struct gatedesc
pub record Gate : Type 0 where
  pub off_15_0 : ℕ
  pub sel : ℕ
  pub ist : ℕ
  pub reserved_2 : ℕ
  pub type : ℕ
  pub s : ℕ
  pub dpl : ℕ
  pub p : ℕ
  pub off_31_16 : ℕ
  pub off_63_32 : ℕ
  pub reserved_1 : ℕ

-- GDT_KCODE, STS_IG64 and STS_TG64
abbrev pub gdt_kcode : ℕ
gdt_kcode = 8

abbrev pub sts_ig64 : ℕ
sts_ig64 = 0xE

abbrev pub sts_tg64 : ℕ
sts_tg64 = 0xF

unfoldable pub idt_entry : ℕ → ℕ → ℕ → ℕ → Gate
idt_entry cs offset is_trap dpl = record {
  off_15_0 = offset % 2 ^ 16;
  sel = cs;
  ist = 0;
  reserved_2 = 0;
  type = if is_trap == 0 then sts_ig64 else sts_tg64;
  s = 0;
  dpl = dpl % 2 ^ 2;
  p = 1;
  off_31_16 = offset / 2 ^ 16 % 2 ^ 16;
  off_63_32 = offset / 2 ^ 32 % 2 ^ 32;
  reserved_1 = 0;
}

abbrev pub Table : Type 0
Table = ℕ → Gate

abbrev pub put : Table → ℕ → Gate → Table
put idt i g j = if i == j then g else idt j

unfoldable pub set_idt_entry : ℕ → ℕ → Table → Table
set_idt_entry idx offset idt = put idt idx (idt_entry gdt_kcode offset 0 0)

-- struct seg64desc
pub record Segment : Type 0 where
  pub lim_15_0 : ℕ
  pub base_15_0 : ℕ
  pub base_23_16 : ℕ
  pub type : ℕ
  pub s : ℕ
  pub dpl : ℕ
  pub p : ℕ
  pub lim_19_16 : ℕ
  pub flags : ℕ
  pub base_31_24 : ℕ
  pub base_63_32 : ℕ
  pub reserved : ℕ

-- The assignments to `tss` in idt_init, for the task state at `ts` with `size` bytes. They leave the
-- last field as it is.
unfoldable pub tss_descriptor : ℕ → ℕ → Segment → Segment
tss_descriptor ts size old = record {
  lim_15_0 = (size + 2 ^ 64 - 1) % 2 ^ 16;
  base_15_0 = ts % 2 ^ 16;
  base_23_16 = ts / 2 ^ 16 % 2 ^ 8;
  type = 9;
  s = 0;
  dpl = 0;
  p = 1;
  lim_19_16 = (size + 2 ^ 64 - 1) % 2 ^ 64 / 2 ^ 16 % 2 ^ 8 % 2 ^ 4;
  flags = 0;
  base_31_24 = ts / 2 ^ 24 % 2 ^ 8;
  base_63_32 = ts / 2 ^ 32 % 2 ^ 32;
  reserved = old.reserved;
}

-- The five 16-bit words of `idtr`; the table has 256 gates of 16 bytes.
abbrev pub idt_register : ℕ → List ℕ
idt_register idt_at =
    (256 * 16 - 1)
    ∷ idt_at % 2 ^ 16
    ∷ idt_at / 2 ^ 16 % 2 ^ 16
    ∷ idt_at / 2 ^ 32 % 2 ^ 16
    ∷ idt_at / 2 ^ 48 % 2 ^ 16
    ∷ []

-- What idt_init sets: the table, its register, the fields of the task state, and its descriptor.
pub record State : Type 0 where
  pub idt : Table
  pub idtr : List ℕ
  pub rsp0_lo : ℕ
  pub iomb : ℕ
  pub tss : Segment

module _ (vectors : ℕ → ℕ) where
  unfoldable pub restore_idt_entry : ℕ → Table → Table
  restore_idt_entry idx idt = put idt idx (idt_entry gdt_kcode (vectors idx) 0 0)

  -- The first loop of idt_init: `n` entries from `i` on.
  unfoldable pub fill_idt : ℕ → ℕ → Table → Table
  fill_idt zero i idt = idt
  fill_idt (suc n) i idt = fill_idt n (i + 1) (put idt i (idt_entry gdt_kcode (vectors i) 0 0))

  -- `idt_at` and `ts` are where `idt` and `ts` lie, `stack` is what pmalloc gives, and `size` is
  -- sizeof(ts).
  unfoldable pub idt_init : ℕ → ℕ → ℕ → ℕ → State → State
  idt_init idt_at ts size stack st = record {
    idt = fill_idt 256 0 st.idt;
    idtr = idt_register idt_at;
    rsp0_lo = (stack + 4096) % 2 ^ 32;
    iomb = 0xFFFF;
    tss = tss_descriptor ts size st.tss;
  }
