-- ===== src/Pci/Switch.antt =====
-- The switches of pci_parse_class in pci.c, and the defaults that they share.
use march_os.Base.{ℕ, ◌≡◌, true, ◌==◌, if◌then◌else◌, Bool-cases, inl, inr, List, [], ◌∷◌}
use march_os.Base.Text.{codes}
use march_os.Console.{kprintf, conversion}
use march_os.Console.Line.{is_line, is_line-printn}

-- The output of the case with the value, else of the default. A chain of tests of one variable
-- against constants is a switch too.
unfoldable pub switch : ℕ → List (ℕ × List ℕ) → List ℕ → List ℕ
switch v [] default = default
switch v (c ∷ cs) default = if v == c.0 then c.1 else switch v cs default

unfoldable pub unknown_subclass : ℕ → List ℕ
unknown_subclass subclass = kprintf (λ a. []) (codes "Unknown Subclass: %x\n") (subclass ∷ [])

unfoldable pub unknown_class : ℕ → List ℕ
unknown_class class = kprintf (λ a. []) (codes "Unknown Class: %x\n") (class ∷ [])

abbrev pub AllLines : List (ℕ × List ℕ) → Type 0
AllLines [] = Unit {0}
AllLines (c ∷ cs) = (is_line c.1 ≡ true) × AllLines cs

pub switch-IsLine :
    (cs : List (ℕ × List ℕ)) (default : List ℕ) (v : ℕ)
    → AllLines cs
    → is_line default ≡ true
    → is_line (switch v cs default) ≡ true
unfolding switch
switch-IsLine [] default v all last = last
switch-IsLine (c ∷ cs) default v all last = elim (Bool-cases (v == c.0)) [
  | inl e ↦ rw e all.0
  | inr e ↦ rw e (switch-IsLine cs default v all.1 last)
]

pub unknown_subclass-IsLine : (n : ℕ) → is_line (unknown_subclass n) ≡ true
unfolding unknown_subclass kprintf conversion
unknown_subclass-IsLine n = is_line-printn n 16 (10 ∷ [])

pub unknown_class-IsLine : (n : ℕ) → is_line (unknown_class n) ≡ true
unfolding unknown_class kprintf conversion
unknown_class-IsLine n = is_line-printn n 16 (10 ∷ [])
