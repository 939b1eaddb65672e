-- ===== src/ConnInode/Scanning.antt =====
-- One line of /proc/net/tcp: the sscanf of addtoconninode (src/conninode.cpp).
use nethogs.Base.{ℕ, List}
use nethogs.Sscanf.{Scan, ◌>>=◌, ◌>>◌, pure, space, lit, hex, hex_set, dec}

-- The five values that the format stores.
pub record Row : Type 0 where
  pub local_addr : List ℕ
  pub local_port : ℕ
  pub rem_addr : List ℕ
  pub rem_port : ℕ
  pub inode : ℕ

-- " %64[0-9A-Fa-f]:%X", an address and its port.
unfoldable pub scan_end : Scan (List ℕ × ℕ)
scan_end = do space; addr ← hex_set; lit b':'; port ← hex; pure (addr, port)

-- " %*X %*X:%*X %*X:%*X %*X": the state, the queues, the timer and the retransmissions.
unfoldable pub scan_queues : Scan (Unit {0})
scan_queues = do
  space
  hex
  space
  hex
  lit b':'
  hex
  space
  hex
  lit b':'
  hex
  space
  hex
  pure tt

-- " %*d %*d %ld": the inode behind the owner and a timeout.
unfoldable pub scan_inode : Scan ℕ
scan_inode = do space; dec; space; dec; space; dec

-- "%*d: %64[0-9A-Fa-f]:%X %64[0-9A-Fa-f]:%X %*X %*X:%*X %*X:%*X %*X %*d %*d %ld %*512s\n": five
-- matches are made exactly if the scan reaches the end of %ld, whatever follows.
unfoldable pub scan_row : Scan Row
scan_row = do
  dec
  lit b':'
  (local_addr, local_port) ← scan_end
  (rem_addr, rem_port) ← scan_end
  scan_queues
  inode ← scan_inode
  pure (record {
    local_addr = local_addr;
    local_port = local_port;
    rem_addr = rem_addr;
    rem_port = rem_port;
    inode = inode;
  })
