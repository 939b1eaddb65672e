-- ===== src/Showing.antt =====
-- What the terminal interface relies on when it shows a process: each has a name and a process id up
-- to PID_MAX (class Line of src/cui.cpp).
pub mod Pids
pub mod Packets
pub mod Refresh
pub mod Lines
use nethogs.Base.{ℕ, ◌≡◌, Bool, true, Option, some, List, All, leb}
use nethogs.Inode2Prog.{InodeProc, PidEntry, PrgNode, ProcFs, is_number, str2int}
use nethogs.Process.{Process}
use nethogs.World.{World}
use nethogs.Cui.Line.{Fits, Line}

-- The directories of the processes in /proc, which Linux numbers up to 4194303.
abbrev pub PidsFit : ProcFs → Type 0
PidsFit proc =
    (entries : List PidEntry)
    → proc.entries ≡ some entries
    → All (λ e. is_number e.d_name ≡ true → Fits (str2int e.d_name)) entries

-- Every node of the table has such a number.
abbrev pub Numbered : InodeProc → Type 0
Numbered t = (inode : ℕ) (node : PrgNode) → t inode ≡ some node → Fits node.pid

abbrev pub Showable : Process → Type 0
Showable p = (name : List ℕ) × (p.name ≡ some name) × Fits p.pid

abbrev pub IsShowable : World → Type 0
IsShowable w = All Showable w.processes × Numbered w.inodeproc

-- A line with a name and a process id up to PID_MAX.
abbrev pub LineShowable : Line → Type 0
LineShowable line = (name : List ℕ) × (line.name ≡ some name) × Fits line.pid
