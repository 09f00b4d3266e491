-- ===== src/Tests/Drives.antt =====
-- A drive that is busy once after each command, and a read from it.
use march_os.Base.{
  ℕ, suc, ◌+◌, ◌*◌, ◌%◌, ◌^◌, ◌<◌, ◌≡◌, refl, ◌∙◌, Bool, true, false, ◌==◌, if◌then◌else◌, arith,
}
use march_os.Mm.Mem.{Mem, word}
use march_os.Ide.{Ports}
use march_os.Ide.Drive.{Drive, bsy, drdy, drq}
use march_os.Fat16

-- `at` is the byte that is given next.
record Controller : Type 0 where
  low : ℕ
  mid : ℕ
  high : ℕ
  top : ℕ
  at : ℕ
  busy : Bool

abbrev written : ℕ → ℕ → Controller → Controller
written port v s =
    if port == 0x1F3
    then record s { low = v }
    else if port == 0x1F4
    then record s { mid = v }
    else if port == 0x1F5
    then record s { high = v }
    else if port == 0x1F6
    then record s { top = v % 16 }
    else if port == 0x1F7
    then record s {
      at = (s.low + 2 ^ 8 * s.mid + 2 ^ 16 * s.high + 2 ^ 24 * s.top) * 512;
      busy = true;
    }
    else s

abbrev contents : Mem
contents a = a % 251

-- The status, by whether the drive is busy.
abbrev answer : Bool → Controller → ℕ × Controller
answer true s = (0x80, record s { busy = false })
answer false s = (0x48, s)

abbrev ports : Ports Controller
ports = record {
  inb = λ port s. answer s.busy s;
  outb = written;
  inl = λ port s. (word contents s.at, record s { at = s.at + 4 });
}

abbrev reads_left : Bool → ℕ
reads_left busy = if busy then 1 else 0

few_reads : (busy : Bool) → reads_left busy < 10000
few_reads true = omega arith
few_reads false = omega arith

busy_answer :
    (busy : Bool) (s : Controller) (k : ℕ)
    → reads_left busy ≡ suc k
    → (bsy (answer busy s).0 ≡ 1)
      × (drq (answer busy s).0 ≡ 0)
      × (reads_left (answer busy s).1.busy ≡ k)
      × ((answer busy s).1.at ≡ s.at)
busy_answer true s k e = (refl, refl, omega arith, refl)
busy_answer false s k e = absurd (omega arith)

free_answer :
    (busy : Bool) (s : Controller)
    → reads_left busy ≡ 0
    → (bsy (answer busy s).0 ≡ 0)
      × (drdy (answer busy s).0 ≡ 1)
      × (drq (answer busy s).0 ≡ 1)
      × ((answer busy s).1.at ≡ s.at)
free_answer true s e = absurd (omega arith)
free_answer false s e = (refl, refl, refl, refl)

byte_answer : (busy : Bool) (s : Controller) → (answer busy s).0 < 2 ^ 8
byte_answer true s = omega arith
byte_answer false s = omega arith

drive : Drive ports contents
drive = record {
  small = λ a. omega arith;
  delay = λ s. reads_left s.busy;
  Idle = λ s. Unit;
  Serving = λ a n s. s.at ≡ a;
  Giving = λ a w n s. s.at ≡ a;
  delay_bound = λ s. few_reads s.busy;
  byte = λ port s. byte_answer s.busy s;
  idle_busy = λ s k i e. let r = busy_answer s.busy s k e in (r.0, r.2, tt);
  idle_ready = λ s i e. let r = free_answer s.busy s e in (r.0, r.1, tt);
  accepts = λ s top count low mid high i h0 h1 h2 h3 h4. omega arith;
  data_busy = λ s a n k e d. let r = busy_answer s.busy s k d in (r.1, r.2, r.3 ∙ e);
  data_ready = λ s a n e d. let r = free_answer s.busy s d in (r.2, r.3 ∙ e);
  gives = λ s a w n e. rw e (refl, refl);
  sector_done = λ s a n e. e;
  done = λ s a e. tt;
}

abbrev switched_on : Controller
switched_on = record { low = 0; mid = 0; high = 0; top = 0; at = 0; busy = true }
