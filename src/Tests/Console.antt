-- ===== src/Tests/Console.antt =====
-- Output of serial.c on concrete numbers and formats.
use march_os.Base.{◌≡◌, refl, List, [], ◌∷◌, arith}
use march_os.Base.Text.{codes}
use march_os.Console.{printn_depth, printn, conversion, kprintf}
use march_os.Console.Numbers.{value, value-printn}
use march_os.Console.Format.{Piece, literal, argument, decimal, encode, render, kprintf-render}

value-printn_example : value 16 0 (printn 48879 16) ≡ 48879
value-printn_example = value-printn 48879 16 (omega arith) (omega arith) (omega arith)

printed : printn 48879 16 ≡ codes "BEEF"
unfolding printn printn_depth
printed = refl

abbrev pieces : List Piece
pieces = literal b'n' ∷ literal b'=' ∷ argument decimal ∷ []

kprintf-render_example :
    kprintf (λ a. []) (encode pieces) (25 ∷ []) ≡ render (λ a. []) pieces (25 ∷ [])
kprintf-render_example = kprintf-render (λ a. []) pieces (25 ∷ []) (omega arith, (omega arith, tt))

sent : kprintf (λ a. []) (codes "n=%d\n") (25 ∷ []) ≡ codes "n=25\n"
unfolding kprintf conversion printn printn_depth
sent = refl
