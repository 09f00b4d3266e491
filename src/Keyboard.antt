-- ===== src/Keyboard.antt =====
-- The keyboard: drivers/kbd.c. Its state is the byte `flags`; the code that the controller gives is
-- an argument.
pub mod Typing
use march_os.Base.{
  ℕ, ◌||◌, not, ltb, ◌==◌, if◌then◌else◌, List, [], ◌∷◌, ◌++◌, bit_and, bit_or, get_or,
}
use march_os.Base.Text.{codes}

abbrev pub normalmap : List ℕ
normalmap =
    0 ∷ 0x1B ∷ codes "1234567890-="
    ++ 8 ∷ 9 ∷ codes "qwertyuiop[]"
    ++ 10 ∷ 0 ∷ codes "asdfghjkl;'`"
    ++ 0 ∷ codes "\\zxcvbnm,./"
    ++ 0 ∷ b'*' ∷ 0 ∷ b' ' ∷ 0 ∷ 0 ∷ 0 ∷ 0 ∷ 0 ∷ 0 ∷ []

abbrev pub shiftmap : List ℕ
shiftmap =
    0 ∷ 0x1B ∷ codes "!@#$%^&*()_+"
    ++ 8 ∷ 9 ∷ codes "QWERTYUIOP{}"
    ++ 10 ∷ 0 ∷ codes "ASDFGHJKL:\"~"
    ++ 0 ∷ codes "|ZXCVBNM<>?"
    ++ 0 ∷ b'*' ∷ 0 ∷ b' ' ∷ 0 ∷ 0 ∷ 0 ∷ 0 ∷ 0 ∷ 0 ∷ []

-- The character, 0 for none, and the flags after the call.
unfoldable pub kbdgetc : ℕ → ℕ → ℕ × ℕ
kbdgetc flags n =
    if n == 0x2A || n == 0x36
    then (0, bit_or flags 1)
    else if n == 0xAA || n == 0xB6
    then (0, bit_and flags 0xFE)
    else if ltb n 0x40
    then ((if not (bit_and flags 1 == 0) then get_or shiftmap n 0 else get_or normalmap n 0), flags)
    else (0, flags)
