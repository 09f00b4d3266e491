-- ===== src/Console.antt =====
-- Output on the serial line: serial.c. The bytes that a call sends are the result of its model.
pub mod Line
pub mod Numbers
pub mod Format
use march_os.Base.{ℕ, zero, suc, ◌+◌, ◌/◌, ◌%◌, ltb, ◌==◌, if◌then◌else◌, List, [], ◌∷◌, ◌++◌}
use march_os.Base.Text.{codes}

-- digits[d]
abbrev pub digit_char : ℕ → ℕ
digit_char d = if ltb d 10 then 48 + d else 55 + d

-- The recursion of printn, to a depth.
unfoldable pub printn_depth : ℕ → ℕ → ℕ → List ℕ
printn_depth zero n base = []
printn_depth (suc k) n base =
    let front = printn_depth k (n / base) base in
    (if n / base == 0 then [] else front) ++ digit_char (n % base) ∷ []

-- A 64-bit number has at most 64 digits in any base.
unfoldable pub printn : ℕ → ℕ → List ℕ
unfolding printn_depth
printn n base = printn_depth 64 n base

-- What the switch of _kprintf sends for the argument `a`; `strings` is the text at an address.
-- `rest` is what the rest of the format sends.
unfoldable pub conversion : (ℕ → List ℕ) → ℕ → ℕ → List ℕ → List ℕ
unfolding printn
conversion strings c a rest =
    if c == b'd'
    then printn a 10 ++ rest
    else if c == b'x'
    then (codes "0x" ++ printn a 16) ++ rest
    else if c == b'p'
    then (codes "0x" ++ printn a 16) ++ rest
    else if c == b'o'
    then (codes "0o" ++ printn a 8) ++ rest
    else if c == b'c'
    then a % 256 ∷ rest
    else if c == b's'
    then (if a == 0 then codes "(null)" else strings a) ++ rest
    else if c == b'X'
    then printn a 16 ++ rest
    else codes "Unknown format " ++ c ∷ []

abbrev pub too_few : List ℕ
too_few = codes "Error: Not enough arguments provided for format string.\n"

-- _kprintf, over the bytes of the format up to its NUL and the arguments that are left. A format
-- that ends in `%` has NUL for its conversion.
unfoldable pub kprintf : (ℕ → List ℕ) → List ℕ → List ℕ → List ℕ
unfolding conversion
kprintf strings [] args = []
kprintf strings (c ∷ []) [] = if c == b'%' then too_few else c ∷ []
kprintf strings (c ∷ []) (a ∷ args) = if c == b'%' then conversion strings 0 a [] else c ∷ []
kprintf strings (c ∷ d ∷ fmt) [] =
    let rest = kprintf strings (d ∷ fmt) [] in if c == b'%' then too_few else c ∷ rest
kprintf strings (c ∷ d ∷ fmt) (a ∷ args) =
    let rest = kprintf strings (d ∷ fmt) (a ∷ args) in
    let next = kprintf strings fmt args in
    if c == b'%' then conversion strings d a next else c ∷ rest

-- A format and its arguments.
abbrev pub Call : Type 0
Call = List ℕ × List ℕ

-- The calls of debugf in a row; `text` is the one string among their arguments.
abbrev pub printed_calls : List ℕ → List Call → List ℕ
printed_calls text [] = []
printed_calls text ((fmt, args) ∷ calls) = kprintf (λ p. text) fmt args ++ printed_calls text calls

-- The bytes of an array that is printed as a string.
abbrev pub text : List ℕ → List ℕ
text [] = []
text (c ∷ cs) = let rest = text cs in if c == 0 then [] else c ∷ rest

-- An array on the stack has an address other than NULL.
abbrev pub stack_array : ℕ
stack_array = 1
