-- ===== src/Acpi/Walk.antt =====
-- The loop of acpi_init in acpi.c over the entries of the MADT.
use march_os.Base.{
  ltb, ◌||◌, ℕ, zero, suc, ◌+◌, ◌-◌, ◌%◌, ◌^◌, ◌≤◌, ◌<◌, ◌≡◌, refl, ap, ◌∙◌, true, false, Bool,
  Option, none, some, List, [], ◌∷◌, ◌==◌, if◌then◌else◌, Bool-cases, Option-cases, inl, inr,
  Outcome, ok, panic, Ends, arith,
}
use march_os.Mm.Mem.{Mem}
use march_os.Acpi.Madt.{Acpi, Case, madt_case, madt_walk, is_positive}
use march_os.Acpi.Entries.{MadtEntry, size, AreStored, total, effects, handled, size-bounds}

-- The loop has gone over the first entries.
pub record Walked (k : ℕ) (m : Mem) (remain a : ℕ) (st : Acpi) (es : List MadtEntry)
    (r : Outcome Acpi) : Type 0 where
  pub fuel : ℕ
  pub after : Acpi
  pub goes_on : r ≡ madt_walk fuel m (remain - total es) (a + total es) after
  pub enough : remain - total es < fuel
  pub apic : after.apic ≡ effects es st.apic

pub madt_walk-round :
    (k : ℕ) (m : Mem) (remain a len : ℕ) (st st' : Acpi)
    → is_positive remain ≡ true
    → madt_case m a st ≡ some (len, st')
    → madt_walk (suc k) m remain a st
      ≡ madt_walk k m ((remain + 2 ^ 32 - len) % 2 ^ 32) (a + len) st'
unfolding madt_walk
madt_walk-round k m remain a len st st' more e = rw (more, e) refl

madt_walk-panic :
    (k : ℕ) (m : Mem) (remain a : ℕ) (st : Acpi)
    → is_positive remain ≡ true
    → madt_case m a st ≡ none
    → madt_walk (suc k) m remain a st ≡ panic
unfolding madt_walk
madt_walk-panic k m remain a st more e = rw (more, e) refl

pub madt_walk-end :
    (k : ℕ) (m : Mem) (remain a : ℕ) (st : Acpi)
    → 1 ≤ k
    → is_positive remain ≡ false
    → madt_walk k m remain a st ≡ ok st
unfolding madt_walk
madt_walk-end zero m remain a st some_fuel stop = absurd (omega arith)
madt_walk-end (suc k) m remain a st some_fuel stop = rw stop refl

-- The types that the switch has a case for.
abbrev pub is_known : ℕ → Bool
is_known b = ltb b 6 || b == 9

madt_case-none : (m : Mem) (a : ℕ) (st : Acpi) → is_known (m a) ≡ false → madt_case m a st ≡ none
unfolding madt_case
madt_case-none m a st unknown =
    let differ : ((m a == 0) ≡ false)
        × ((m a == 1) ≡ false)
        × ((m a == 2) ≡ false)
        × ((m a == 3) ≡ false)
        × ((m a == 4) ≡ false)
        × ((m a == 5) ≡ false)
        × ((m a == 9) ≡ false) =
      (
        ground arith,
        ground arith,
        ground arith,
        ground arith,
        ground arith,
        ground arith,
        ground arith,
      ) in
    rw (differ.0, differ.1, differ.2, differ.3, differ.4, differ.5, differ.6) refl

pub madt_walk-unknown :
    (k : ℕ) (m : Mem) (remain a : ℕ) (st : Acpi)
    → 1 ≤ k
    → is_positive remain ≡ true
    → is_known (m a) ≡ false
    → madt_walk k m remain a st ≡ panic
unfolding madt_walk
madt_walk-unknown zero m remain a st some_fuel more unknown = absurd (omega arith)
madt_walk-unknown (suc k) m remain a st some_fuel more unknown =
    rw (more, madt_case-none m a st unknown) refl

pub madt_walk-Walked :
    (k : ℕ) (m : Mem) (remain a : ℕ) (st : Acpi) (es : List MadtEntry)
    → AreStored m a es
    → total es ≤ remain
    → remain < 2 ^ 31
    → remain < k
    → Walked k m remain a st es (madt_walk k m remain a st)
madt_walk-Walked k m remain a st [] stored fits small enough = record {
  fuel = k;
  after = st;
  goes_on =
      let same : (remain - 0 ≡ remain) × (a + 0 ≡ a) = (omega arith, omega arith) in
      rw (same.0, same.1) refl;
  enough = omega arith;
  apic = refl;
}
madt_walk-Walked zero m remain a st (e ∷ es) stored fits small enough = absurd (omega arith)
madt_walk-Walked (suc k) m remain a st (e ∷ es) stored fits small enough =
    let h = handled m a e st stored.0 in
    let (least, most) = size-bounds e in
    let more : is_positive remain ≡ true = ground arith in
    let left : (remain + 2 ^ 32 - size e) % 2 ^ 32 ≡ remain - size e = omega arith in
    let w =
      madt_walk-Walked k m (remain - size e) (a + size e) h.after es stored.1 (omega arith)
        (omega arith) (omega arith) in
    let same : (remain - size e - total es ≡ remain - (size e + total es))
        × (a + size e + total es ≡ a + (size e + total es)) =
      (omega arith, omega arith) in
    record {
      fuel = w.fuel;
      after = w.after;
      goes_on =
          madt_walk-round k m remain a (size e) st h.after more h.taken
          ∙ ap (λ (r : ℕ). madt_walk k m r (a + size e) h.after) left
          ∙ rw same.0 at (rw same.1 at w.goes_on);
      enough = omega (arith, w.enough);
      apic = w.apic ∙ ap (effects es) h.apic;
    }

-- A case that is taken has a struct of 6 to 16 bytes.
abbrev HasSize : Option Case → Type 0
HasSize none = Unit {0}
HasSize (some c) = (6 ≤ c.0) × (c.0 ≤ 16)

if-HasSize :
    (b : Bool) (c : Case) (o : Option Case)
    → (6 ≤ c.0) × (c.0 ≤ 16)
    → HasSize o
    → HasSize (if b then some c else o)
if-HasSize true c o long rest = long
if-HasSize false c o long rest = rest

madt_case-HasSize : (m : Mem) (a : ℕ) (st : Acpi) → HasSize (madt_case m a st)
unfolding madt_case
madt_case-HasSize m a st =
    if-HasSize (m a == 0) _ _ (omega arith, omega arith)
      (if-HasSize (m a == 1) _ _ (omega arith, omega arith)
        (if-HasSize (m a == 2) _ _ (omega arith, omega arith)
          (if-HasSize (m a == 3) _ _ (omega arith, omega arith)
            (if-HasSize (m a == 4) _ _ (omega arith, omega arith)
              (if-HasSize (m a == 5) _ _ (omega arith, omega arith)
                (if-HasSize (m a == 9) _ _ (omega arith, omega arith) tt))))))

-- The loop over the MADT ends in every memory, when more rounds are granted than there are bytes
-- left: each one takes at least 6 bytes.
pub madt_walk-Ends :
    (k : ℕ) (m : Mem) (remain a : ℕ) (st : Acpi)
    → remain < k
    → remain < 2 ^ 32
    → Ends (madt_walk k m remain a st)
madt_walk-Ends zero m remain a st enough int = absurd (omega arith)
madt_walk-Ends (suc k) m remain a st enough int = elim (Bool-cases (is_positive remain)) [
  | inr stop ↦ rw (madt_walk-end (suc k) m remain a st (omega arith) stop) tt
  | inl more ↦ elim (Option-cases (madt_case m a st)) [
    | inl nothing ↦ rw (madt_walk-panic k m remain a st more nothing) tt
    | inr ((len, st'), e) ↦
        let long : (6 ≤ len) × (len ≤ 16) = rw e at (madt_case-HasSize m a st) in
        let left = (remain + 2 ^ 32 - len) % 2 ^ 32 in
        rw (madt_walk-round k m remain a len st st' more e) (elim (Bool-cases (is_positive left)) [
          | inl on ↦ madt_walk-Ends k m left (a + len) st' (ground arith) (ground arith)
          | inr off ↦ rw (madt_walk-end k m left (a + len) st' (ground arith) off) tt
        ])
  ]
]
