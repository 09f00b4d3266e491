-- ===== src/Idt/Decode.antt =====
-- What the processor reads from the descriptors that arch/x86/idt.c writes.
use march_os.Base.{
  ℕ, zero, suc, ◌+◌, ◌*◌, ◌/◌, ◌%◌, ◌^◌, ◌≤◌, ◌<◌, ◌≡◌, refl, sym, ap, ◌∙◌, true, false, leb, ltb,
  ◌&&◌, ◌==◌, if◌then◌else◌, Bool-cases, inl, inr, arith,
}
use march_os.Idt.{
  Gate, gdt_kcode, sts_ig64, sts_tg64, idt_entry, Table, put, set_idt_entry, Segment,
  tss_descriptor, restore_idt_entry, fill_idt, idt_init, State,
}

-- The two doublewords of a gate, by the order and the widths of the fields.
abbrev pub low_word : Gate → ℕ
low_word g =
    g.off_15_0
    + g.sel * 2 ^ 16
    + g.ist * 2 ^ 32
    + g.reserved_2 * 2 ^ 35
    + g.type * 2 ^ 40
    + g.s * 2 ^ 44
    + g.dpl * 2 ^ 45
    + g.p * 2 ^ 47
    + g.off_31_16 * 2 ^ 48

abbrev pub high_word : Gate → ℕ
high_word g = g.off_63_32 + g.reserved_1 * 2 ^ 32

-- How the processor takes a gate apart.
pub record Delivers (low high offset selector type dpl : ℕ) : Type 0 where
  pub target : low % 2 ^ 16 + low / 2 ^ 48 * 2 ^ 16 + high % 2 ^ 32 * 2 ^ 32 ≡ offset
  pub segment : low / 2 ^ 16 % 2 ^ 16 ≡ selector
  pub stack : low / 2 ^ 32 % 2 ^ 3 ≡ 0
  pub kind : low / 2 ^ 40 % 2 ^ 5 ≡ type
  pub level : low / 2 ^ 45 % 2 ^ 2 ≡ dpl
  pub present : low / 2 ^ 47 % 2 ≡ 1

-- The gate that idt_entry writes for a 64-bit handler, a 16-bit selector and a level up to 3 makes the
-- processor go to that handler in that segment, with that level, as a trap or as an interrupt.
pub idt_entry-Delivers :
    (cs offset is_trap dpl : ℕ)
    → cs < 2 ^ 16
    → offset < 2 ^ 64
    → dpl < 4
    → Delivers
        (low_word (idt_entry cs offset is_trap dpl))
        (high_word (idt_entry cs offset is_trap dpl))
        offset
        cs
        (if is_trap == 0 then sts_ig64 else sts_tg64)
        dpl
unfolding idt_entry
idt_entry-Delivers cs offset is_trap dpl hc ho hd =
    let low = low_word (idt_entry cs offset is_trap dpl) in
    let high = high_word (idt_entry cs offset is_trap dpl) in
    let small : (if is_trap == 0 then sts_ig64 else sts_tg64) < 16 = ground arith in
    record {
      target =
          let a : low % 2 ^ 16 ≡ offset % 2 ^ 16 = omega (arith, small) in
          let b : low / 2 ^ 48 ≡ offset / 2 ^ 16 % 2 ^ 16 = omega (arith, small) in
          let c : high % 2 ^ 32 ≡ offset / 2 ^ 32 = omega arith in omega (arith, a, b, c);
      segment = omega (arith, small);
      stack = omega (arith, small);
      kind = omega (arith, small);
      level = omega (arith, small);
      present = omega (arith, small);
    }

module _ (vectors : ℕ → ℕ) where
  filled :
      (n i j : ℕ) (idt : Table)
      → fill_idt vectors n i idt j
        ≡ (if leb i j && ltb j (i + n) then idt_entry gdt_kcode (vectors j) 0 0 else idt j)
  unfolding fill_idt
  filled zero i j idt =
      let none_yet : (leb i j && ltb j (i + 0)) ≡ false = ground arith in rw none_yet refl
  filled (suc n) i j idt =
      let later = filled n (i + 1) j (put idt i (idt_entry gdt_kcode (vectors i) 0 0)) in
      elim (Bool-cases (i == j)) [
        | inl e ↦
            let same : i ≡ j = ground arith in
            let here : (leb i j && ltb j (i + suc n)) ≡ true = ground arith in
            let gone : (leb (i + 1) j && ltb j (i + 1 + n)) ≡ false = ground arith in
            rw (later, gone, here, e, same) refl
        | inr e ↦
            let both : (leb i j && ltb j (i + suc n)) ≡ (leb (i + 1) j && ltb j (i + 1 + n)) =
              ground arith in
            rw (later, both, e) refl
      ]

  initial :
      (idt_at ts size stack i : ℕ) (st : State)
      → i < 256
      → (idt_init vectors idt_at ts size stack st).idt i ≡ idt_entry gdt_kcode (vectors i) 0 0
  unfolding idt_init
  initial idt_at ts size stack i st h =
      let here : (leb 0 i && ltb i (0 + 256)) ≡ true = ground arith in
      filled 256 0 i st.idt ∙ rw here refl

  -- After idt_init, each of the 256 vectors delivers to its handler, as an interrupt of level 0 in the
  -- kernel's code segment.
  pub idt_init-Delivers :
      (idt_at ts size stack i : ℕ) (st : State)
      → i < 256
      → vectors i < 2 ^ 64
      → Delivers
          (low_word ((idt_init vectors idt_at ts size stack st).idt i))
          (high_word ((idt_init vectors idt_at ts size stack st).idt i))
          (vectors i)
          gdt_kcode
          sts_ig64
          0
  idt_init-Delivers idt_at ts size stack i st h word =
      rw (initial idt_at ts size stack i st h)
        (idt_entry-Delivers gdt_kcode (vectors i) 0 0 (omega arith) word (omega arith))

  -- After idt_init, restore_idt_entry undoes set_idt_entry: every gate is what it was.
  pub restore-set :
      (idt_at ts size stack idx offset j : ℕ) (st : State)
      → idx < 256
      → restore_idt_entry vectors idx
          (set_idt_entry idx offset (idt_init vectors idt_at ts size stack st).idt)
          j
        ≡ (idt_init vectors idt_at ts size stack st).idt j
  unfolding restore_idt_entry set_idt_entry
  restore-set idt_at ts size stack idx offset j st h = elim (Bool-cases (idx == j)) [
    | inl e ↦
        let same : idx ≡ j = ground arith in
        rw e (
          ap (λ k. idt_entry gdt_kcode (vectors k) 0 0) same
          ∙ sym (initial idt_at ts size stack j st (omega arith)))
    | inr e ↦ rw e refl
  ]

-- The base and the limit of a segment descriptor, by its fields.
abbrev pub base : Segment → ℕ
base g = g.base_15_0 + g.base_23_16 * 2 ^ 16 + g.base_31_24 * 2 ^ 24 + g.base_63_32 * 2 ^ 32

abbrev pub limit : Segment → ℕ
limit g = g.lim_15_0 + g.lim_19_16 * 2 ^ 16

-- The descriptor that idt_init writes for the task state has its address for base and the offset of
-- its last byte for limit, if it has up to 2^20 bytes.
pub tss_descriptor-base :
    (ts size : ℕ) (old : Segment)
    → ts < 2 ^ 64
    → 1 ≤ size
    → size ≤ 2 ^ 20
    → (base (tss_descriptor ts size old) ≡ ts) × (limit (tss_descriptor ts size old) + 1 ≡ size)
unfolding tss_descriptor
tss_descriptor-base ts size old hb some_byte hs = (omega arith, omega arith)
