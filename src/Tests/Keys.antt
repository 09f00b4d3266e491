-- ===== src/Tests/Keys.antt =====
-- The keyboard on concrete codes.
use march_os.Base.{◌≡◌, refl, List, [], ◌∷◌, false, arith}
use march_os.Base.Text.{codes}
use march_os.Keyboard.{kbdgetc}
use march_os.Keyboard.Typing.{
  received, chars, flag, shift_down, Key, plain, shifted, strokes, meant, received-chars,
  received-strokes,
}

received-chars_example :
    received (flag false) (0x36 ∷ 0x1E ∷ [])
    ≡ (chars false (0x36 ∷ 0x1E ∷ []), flag (shift_down false (0x36 ∷ 0x1E ∷ [])))
received-chars_example = received-chars false (0x36 ∷ 0x1E ∷ [])

-- H, i
abbrev greeting : List Key
greeting = shifted 0x23 ∷ plain 0x17 ∷ []

received-strokes_example : (received 0 (strokes greeting)).0 ≡ meant greeting
received-strokes_example =
    received-strokes greeting (omega arith, omega arith, (omega arith, omega arith, tt))

greeting_text : (received 0 (strokes greeting)).0 ≡ codes "Hi"
unfolding received kbdgetc
greeting_text = refl
