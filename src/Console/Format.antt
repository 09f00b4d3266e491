-- ===== src/Console/Format.antt =====
-- _kprintf of serial.c against a description of formats as pieces.
use march_os.Base.{ℕ, ◌%◌, ◌≡◌, ◌≢◌, refl, ap, ◌∙◌, ◌==◌, if◌then◌else◌, ==-ne, List, [], ◌∷◌, ◌++◌}
use march_os.Base.Text.{codes}
use march_os.Console.{printn, conversion, kprintf}

-- A conversion of _kprintf, the letter that stands for it, and what it shows of its argument.
pub data Conversion : Type 0 where
  decimal hex pointer octal char text upper_hex : Conversion

abbrev pub letter : Conversion → ℕ
letter decimal = b'd'
letter hex = b'x'
letter pointer = b'p'
letter octal = b'o'
letter char = b'c'
letter text = b's'
letter upper_hex = b'X'

abbrev pub shown : (ℕ → List ℕ) → Conversion → ℕ → List ℕ
shown strings decimal a = printn a 10
shown strings hex a = codes "0x" ++ printn a 16
shown strings pointer a = codes "0x" ++ printn a 16
shown strings octal a = codes "0o" ++ printn a 8
shown strings char a = a % 256 ∷ []
shown strings text a = if a == 0 then codes "(null)" else strings a
shown strings upper_hex a = printn a 16

pub data Piece : Type 0 where
  literal : ℕ → Piece
  argument : Conversion → Piece

abbrev pub encode : List Piece → List ℕ
encode [] = []
encode (literal c ∷ ps) = c ∷ encode ps
encode (argument v ∷ ps) = b'%' ∷ letter v ∷ encode ps

-- The literals are no percent signs, and each conversion has its argument.
abbrev pub Fits : List Piece → List ℕ → Type 0
Fits [] args = Unit {0}
Fits (literal c ∷ ps) args = (c ≢ b'%') × Fits ps args
Fits (argument v ∷ ps) [] = ⊥
Fits (argument v ∷ ps) (a ∷ args) = Fits ps args

abbrev pub render : (ℕ → List ℕ) → List Piece → List ℕ → List ℕ
render strings [] args = []
render strings (literal c ∷ ps) args = c ∷ render strings ps args
render strings (argument v ∷ ps) [] = []
render strings (argument v ∷ ps) (a ∷ args) = shown strings v a ++ render strings ps args

conversion-shown :
    (strings : ℕ → List ℕ) (v : Conversion) (a : ℕ) (rest : List ℕ)
    → conversion strings (letter v) a rest ≡ shown strings v a ++ rest
unfolding conversion
conversion-shown strings decimal a rest = refl
conversion-shown strings hex a rest = refl
conversion-shown strings pointer a rest = refl
conversion-shown strings octal a rest = refl
conversion-shown strings char a rest = refl
conversion-shown strings text a rest = refl
conversion-shown strings upper_hex a rest = refl

kprintf-literal :
    (strings : ℕ → List ℕ) (c : ℕ) (fmt args : List ℕ)
    → c ≢ b'%'
    → kprintf strings (c ∷ fmt) args ≡ c ∷ kprintf strings fmt args
unfolding kprintf
kprintf-literal strings c [] [] ne = rw (==-ne c b'%' ne)
kprintf-literal strings c [] (a ∷ args) ne = rw (==-ne c b'%' ne)
kprintf-literal strings c (d ∷ fmt) [] ne = rw (==-ne c b'%' ne)
kprintf-literal strings c (d ∷ fmt) (a ∷ args) ne = rw (==-ne c b'%' ne)

kprintf-argument :
    (strings : ℕ → List ℕ) (d a : ℕ) (fmt args : List ℕ)
    → kprintf strings (b'%' ∷ d ∷ fmt) (a ∷ args)
      ≡ conversion strings d a (kprintf strings fmt args)
unfolding kprintf
kprintf-argument strings d a fmt args = refl

-- _kprintf of a format made of pieces, with an argument for each conversion, sends each literal
-- as it stands and each argument as its conversion shows it. Arguments left over are ignored.
pub kprintf-render :
    (strings : ℕ → List ℕ) (ps : List Piece) (args : List ℕ)
    → Fits ps args
    → kprintf strings (encode ps) args ≡ render strings ps args
kprintf-render strings [] args fits = unfold kprintf in refl
kprintf-render strings (literal c ∷ ps) args fits =
    kprintf-literal strings c (encode ps) args fits.0
    ∙ ap (λ r. c ∷ r) (kprintf-render strings ps args fits.1)
kprintf-render strings (argument v ∷ ps) [] fits = absurd fits
kprintf-render strings (argument v ∷ ps) (a ∷ args) fits =
    kprintf-argument strings (letter v) a (encode ps) args
    ∙ conversion-shown strings v a (kprintf strings (encode ps) args)
    ∙ ap (λ r. shown strings v a ++ r) (kprintf-render strings ps args fits)
