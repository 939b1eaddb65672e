-- ===== src/Tests/Sockets.antt =====
-- Trials: rows of /proc/net/tcp as the kernel prints them.
use nethogs.Base.{ℕ, ◌<◌, ◌≡◌, arith, some, List, [], ◌∷◌, map, ok}
use nethogs.ConnInode.{ConnTable, Words, refreshconninode}
use nethogs.ConnInode.Kernel.{Ends, ipv4, ipv6, Socket, Fits, kernel_line}
use nethogs.ConnInode.Kernel.Table.{last_inode, refreshconninode-last_inode}
use nethogs.Tests.{home, net}
use nethogs.Tests.Tables.{raw_words}

-- A socket from port 1000 to port 80.
abbrev socket : Ends → ℕ → Socket
socket ends inode = record {
  pad_slot = 3;
  pad_uid = 4;
  pad_timeout = 7;
  slot = 0;
  ends = ends;
  local_port = 1000;
  rem_port = 80;
  state = 1;
  tx_queue = 0;
  rx_queue = 0;
  timer = 0;
  when = 0;
  retransmits = 0;
  uid = 1000;
  timeout = 0;
  inode = inode;
  more = b'1' ∷ 10 ∷ [];
}

-- The IPv4 address `a` in disguise.
abbrev mapped : ℕ → Words
mapped a = record { word0 = 0; word1 = 0; word2 = 0xFFFF0000; word3 = a }

abbrev table : ConnTable
table key = 7

abbrev sockets : List Socket
sockets = socket (ipv4 1 2) 42 ∷ socket (ipv4 1 3) 0 ∷ []

abbrev sockets6 : List Socket
sockets6 = socket (ipv6 (mapped 1) (mapped 4)) 43 ∷ []

socket4-Fits : (b inode : ℕ) → b < 10 → inode < 100 → Fits (socket (ipv4 1 b) inode)
socket4-Fits b inode h k = record {
  slot = omega arith;
  local = (omega arith, tt);
  local_port = omega arith;
  remote = (omega arith, tt);
  rem_port = omega arith;
  uid = omega arith;
  timeout = omega arith;
  inode = omega arith;
}

socket6-Fits : Fits (socket (ipv6 (mapped 1) (mapped 4)) 43)
socket6-Fits = record {
  slot = omega arith;
  local = (omega arith, (omega arith, (omega arith, (omega arith, tt))));
  local_port = omega arith;
  remote = (omega arith, (omega arith, (omega arith, (omega arith, tt))));
  rem_port = omega arith;
  uid = omega arith;
  timeout = omega arith;
  inode = omega arith;
}

refreshconninode-last_inode_example :
    (t' : ConnTable) × (refreshconninode net [] raw_words
        (home ∷ [])
        (record {
          tcp = some ([] ∷ map kernel_line sockets);
          tcp6 = some ([] ∷ map kernel_line sockets6);
        })
        table
      ≡ ok t')
    × ((key : List ℕ)
        → t' key
          ≡ last_inode net []
              (home ∷ [])
              key
              sockets6
              (last_inode net [] (home ∷ []) key sockets (table key)))
refreshconninode-last_inode_example =
    refreshconninode-last_inode net [] raw_words (home ∷ []) [] [] sockets sockets6 table
      (
        socket4-Fits 2 42 (omega arith) (omega arith),
        (socket4-Fits 3 0 (omega arith) (omega arith), tt),
      )
      (socket6-Fits, tt)
