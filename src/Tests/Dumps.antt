-- ===== src/Tests/Dumps.antt =====
-- The dump of an entry of a directory that was written on 17 May 2024 at 22:41:59.
use march_os.Base.{◌≡◌, refl, [], ◌∷◌, arith}
use march_os.Mm.Mem.{Mem}
use march_os.Fat16.Dump.{created}
use march_os.Fat16.Dump.Dates.{created-date_of}
use march_os.Tests.Disk.{bytes_of}

abbrev entry : Mem
entry = bytes_of ((13, 100) ∷ (14, 61) ∷ (15, 181) ∷ (16, 177) ∷ (17, 88) ∷ [])

created-date_of_example : created entry 0 ≡ 2024 ∷ 5 ∷ 17 ∷ 22 ∷ 41 ∷ 59 ∷ []
created-date_of_example =
    created-date_of entry 0 2024 5 17 22 41 59 (omega arith) (omega arith) (omega arith)
      (omega arith) (omega arith) (omega arith) (omega arith) refl refl refl
