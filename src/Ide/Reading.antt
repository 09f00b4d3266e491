-- ===== src/Ide/Reading.antt =====
-- ide_read_seq of arch/x86/ide.c on a drive gives what Fat16 takes it to give.
use march_os.Base.{ℕ}
use march_os.Mm.Mem.{Mem}
use march_os.Ide.{Ports, ide_command}
use march_os.Ide.Drive.{Drive}
use march_os.Fat16

module _ {S : Type 0} (p : Ports S) where
  abbrev status : S → ℕ
  status s = (p.inb ide_command s).0

  abbrev polled : S → S
  polled s = (p.inb ide_command s).1
