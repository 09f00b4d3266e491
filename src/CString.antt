-- ===== src/CString.antt =====
-- string.c: memcpy, memcmp and strcmp over the bytes of memory. (memset is in Mm/Mem.)
pub mod Laws
use march_os.Base.{ℕ, zero, suc, ◌+◌, ◌||◌, Option, none, some, ◌==◌, if◌then◌else◌}
use march_os.Mm.Mem.{Mem, update}

unfoldable pub memcpy : Mem → ℕ → ℕ → ℕ → Mem
memcpy m dest src zero = m
memcpy m dest src (suc n) = memcpy (update m dest (m src)) (dest + 1) (src + 1) n

unfoldable pub memcmp : Mem → ℕ → ℕ → ℕ → ℕ
memcmp m p q zero = 0
memcmp m p q (suc n) = let rest = memcmp m (p + 1) (q + 1) n in if m p == m q then rest else 1

-- The loop reads on until a byte is NUL or the bytes differ: fuel, and `none` when it runs out.
unfoldable pub strcmp : ℕ → Mem → ℕ → ℕ → Option ℕ
strcmp zero m dest src = none
strcmp (suc k) m dest src =
    let rest = strcmp k m (dest + 1) (src + 1) in
    if m dest == 0 || m src == 0
    then (if m dest == m src then some 0 else some 1)
    else if m dest == m src
    then rest
    else some 1
