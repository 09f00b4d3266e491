-- ===== src/Keyboard/Typing.antt =====
-- What a text comes to when it is typed on the keyboard of drivers/kbd.c.
use march_os.Base.{
  ℕ, ◌+◌, ◌<◌, ◌≤◌, ◌≡◌, ◌≢◌, refl, ap, ◌∙◌, ◌||◌, not, Bool, true, false, ltb, ◌==◌, if◌then◌else◌,
  List, [], ◌∷◌, get_or, every_below, every_below_sound, arith,
}
use march_os.Keyboard.{normalmap, shiftmap, kbdgetc}

-- The characters that calls of kbdgetc return for the codes, without the zeros, and the flags.
unfoldable pub received : ℕ → List ℕ → List ℕ × ℕ
received flags [] = ([], flags)
received flags (n ∷ ns) =
    let now = kbdgetc flags n in
    let later = received now.1 ns in (if now.0 == 0 then later.0 else now.0 ∷ later.0, later.1)

-- Whether a shift key is down after the codes, by the codes of the two keys alone.
abbrev pub shift_down : Bool → List ℕ → Bool
shift_down s [] = s
shift_down s (n ∷ ns) =
    shift_down
      (if n == 0x2A || n == 0x36 then true else (if n == 0xAA || n == 0xB6 then false else s)) ns

abbrev pub flag : Bool → ℕ
flag true = 1
flag false = 0

-- The character of a code while shift is up or down.
abbrev pub key_char : Bool → ℕ → ℕ
key_char true n = get_or shiftmap n 0
key_char false n = get_or normalmap n 0

abbrev is_shift : ℕ → Bool
is_shift n = n == 0x2A || n == 0x36 || n == 0xAA || n == 0xB6

abbrev pub chars : Bool → List ℕ → List ℕ
chars s [] = []
chars s (n ∷ ns) =
    let c = if is_shift n then 0 else (if ltb n 0x40 then key_char s n else 0) in
    let rest = chars (shift_down s (n ∷ [])) ns in if c == 0 then rest else c ∷ rest

kbdgetc-flag :
    (s : Bool) (n : ℕ)
    → kbdgetc (flag s) n ≡ (
      (if is_shift n then 0 else (if ltb n 0x40 then key_char s n else 0)),
      flag (shift_down s (n ∷ [])),
    )
unfolding kbdgetc
kbdgetc-flag true n = ground arith
kbdgetc-flag false n = ground arith

-- From flags with no other bit set, kbdgetc called for any codes gives the characters of the
-- unshifted or the shifted keys according to the shift key that went down or up last, and the flag
-- stands for that key at the end.
pub received-chars :
    (s : Bool) (ns : List ℕ) → received (flag s) ns ≡ (chars s ns, flag (shift_down s ns))
unfolding received
received-chars s [] = refl
received-chars s (n ∷ ns) = rw (kbdgetc-flag s n, received-chars (shift_down s (n ∷ [])) ns)

-- A key by its code, pressed alone or with shift held down.
pub data Key : Type 0 where
  plain : ℕ → Key
  shifted : ℕ → Key

-- The codes of a press and a release of the key, within those of the shift key where it is held.
abbrev pub strokes : List Key → List ℕ
strokes [] = []
strokes (plain n ∷ ks) = n ∷ (n + 0x80) ∷ strokes ks
strokes (shifted n ∷ ks) = 0x2A ∷ n ∷ (n + 0x80) ∷ 0xAA ∷ strokes ks

abbrev pub meant : List Key → List ℕ
meant [] = []
meant (plain n ∷ ks) = key_char false n ∷ meant ks
meant (shifted n ∷ ks) = key_char true n ∷ meant ks

-- Each key is in the maps and has a character.
abbrev pub AllTypable : List Key → Type 0
AllTypable [] = Unit {0}
AllTypable (plain n ∷ ks) = (n < 64) × (key_char false n ≢ 0) × AllTypable ks
AllTypable (shifted n ∷ ks) = (n < 64) × (key_char true n ≢ 0) × AllTypable ks

-- The keys of a map that have a character are no shift keys, pressed or released.
abbrev apart : List ℕ → ℕ → Bool
apart keys n = get_or keys n 0 == 0 || not (is_shift n || is_shift (n + 0x80))

apart-normalmap : every_below 64 (λ n. apart normalmap n) ≡ true
unfolding every_below
apart-normalmap = refl

apart-shiftmap : every_below 64 (λ n. apart shiftmap n) ≡ true
unfolding every_below
apart-shiftmap = refl

key_codes :
    (s : Bool) (n : ℕ)
    → n < 64
    → key_char s n ≢ 0
    → (is_shift n ≡ false) × (is_shift (n + 0x80) ≡ false)
key_codes true n h ne =
    let all = every_below_sound 64 (λ n. apart shiftmap n) n apart-shiftmap h in ground arith
key_codes false n h ne =
    let all = every_below_sound 64 (λ n. apart normalmap n) n apart-normalmap h in ground arith

chars-press :
    (s : Bool) (n : ℕ) (ns : List ℕ)
    → is_shift n ≡ false
    → n < 64
    → key_char s n ≢ 0
    → chars s (n ∷ ns) ≡ key_char s n ∷ chars s ns
chars-press s n ns i h ne = ground arith

chars-release :
    (s : Bool) (n : ℕ) (ns : List ℕ) → is_shift n ≡ false → 64 ≤ n → chars s (n ∷ ns) ≡ chars s ns
chars-release s n ns i h = ground arith

chars-stroke :
    (s : Bool) (n : ℕ) (ns : List ℕ)
    → n < 64
    → key_char s n ≢ 0
    → chars s (n ∷ (n + 0x80) ∷ ns) ≡ key_char s n ∷ chars s ns
chars-stroke s n ns h ne =
    let codes = key_codes s n h ne in
    chars-press s n ((n + 0x80) ∷ ns) codes.0 h ne
    ∙ ap (λ r. key_char s n ∷ r) (chars-release s (n + 0x80) ns codes.1 (omega arith))

chars-strokes : (ks : List Key) → AllTypable ks → chars false (strokes ks) ≡ meant ks
chars-strokes [] all = refl
chars-strokes (plain n ∷ ks) (h, ne, all) =
    chars-stroke false n (strokes ks) h ne ∙ ap (λ r. key_char false n ∷ r) (chars-strokes ks all)
chars-strokes (shifted n ∷ ks) (h, ne, all) =
    chars-stroke true n (0xAA ∷ strokes ks) h ne
    ∙ ap (λ r. key_char true n ∷ r) (chars-strokes ks all)

-- Typing keys that have a character, each with shift held down or not, makes kbdgetc return the
-- characters of those keys in their order and nothing else.
pub received-strokes : (ks : List Key) → AllTypable ks → (received 0 (strokes ks)).0 ≡ meant ks
received-strokes ks all = ap (λ r. r.0) (received-chars false (strokes ks)) ∙ chars-strokes ks all
