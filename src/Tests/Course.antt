-- ===== src/Tests/Course.antt =====
-- Trials: a refresh of the terminal, and its columns.
use nethogs.Base.{fault, exited, pos, ℕ, ◌≡◌, refl, List, [], ◌∷◌, ok}
use nethogs.ConnInode.{refreshconninode}
use nethogs.Cui.{get_devlen}
use nethogs.Cui.Modes.{Known, get_devlen_fixed}
use nethogs.Timeouts.{do_refresh}
use nethogs.Safety.Modes.{Refreshes, do_refresh-Known}
use nethogs.Tests.{home}
use nethogs.Tests.Monitor.{busy, busy-IsSafe, host}

pub table_read :
    refreshconninode host.net host.buf host.raw_words (home ∷ []) host.files busy.conninode
    ≡ ok busy.conninode
unfolding refreshconninode
table_read = refl

-- The mode KBPS, in which the process that has been silent goes.
do_refresh-Known_example :
    (Known (pos 0) → Refreshes (do_refresh host (pos 0) busy))
    × (¬ Known (pos 0) → do_refresh host (pos 0) busy ≡ fault exited)
do_refresh-Known_example =
    do_refresh-Known host (pos 0) busy busy.conninode busy-IsSafe (refl, (refl, (refl, tt)))
      table_read

-- A name of eight letters.
abbrev long_name : List ℕ
long_name = b'w' ∷ b'l' ∷ b'p' ∷ b'0' ∷ b's' ∷ b'2' ∷ b'0' ∷ b'f' ∷ []

get_devlen_fixed_example : get_devlen (long_name ∷ []) 24 ≡ 5
get_devlen_fixed_example = get_devlen_fixed (long_name ∷ []) 24
