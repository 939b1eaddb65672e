-- ===== src/ConnInode/Kernel.antt =====
-- The rows of /proc/net/tcp as the kernel prints them, read by addtoconninode (src/conninode.cpp).
pub mod Reading
pub mod Table
use nethogs.Base.{
  ℕ, suc, ◌+◌, ◌*◌, ◌≤◌, ◌<◌, ◌^◌, ◌≡◌, refl, false, some, none, Option, List, [], ◌∷◌, ◌++◌, All,
  All-append, length, length-append, arith, map, ok, ◌∙◌, ap,
}
use nethogs.LocalAddr.{AddressText, LocalAddr}
use nethogs.Packet.{decimal}
use nethogs.Sscanf.{Scan, ◌>>=◌, ◌>>◌, space, lit, hex_set, hex, dec, hex_value, is_digit}
use nethogs.Sscanf.Hex.{
  hex_digits, spaces, AllHex, HexText, hex_value-hex_digits, AllHex-hex_digits, length-hex_digits,
  hex_set-HexText, hex-HexText, space-HexText, HexText-hex_digits, lit-same,
}
use nethogs.Sscanf.Decimal.{dec-decimal, space-decimal}
use nethogs.ConnInode.{
  scan_end, scan_queues, scan_inode, ConnTable, Words, Row, ProcNet, add_row, addtoconninode,
  add_lines, addprocinfo, refreshconninode, scan_row,
}

-- The local and the remote address of a socket: of IPv4 the word that /proc/net/tcp has, of IPv6 the
-- four of /proc/net/tcp6.
pub data Ends : Type 0 where
  ipv4 : ℕ → ℕ → Ends
  ipv6 : Words → Words → Ends

abbrev pub words_of : Words → List ℕ
words_of w = w.word0 ∷ w.word1 ∷ w.word2 ∷ w.word3 ∷ []

abbrev pub local_words : Ends → List ℕ
local_words (ipv4 a b) = a ∷ []
local_words (ipv6 u v) = words_of u

abbrev pub rem_words : Ends → List ℕ
rem_words (ipv4 a b) = b ∷ []
rem_words (ipv6 u v) = words_of v

-- A row as the kernel knows it; what is printed behind the inode is `more`. The first three fields
-- are the spaces that fill up columns.
pub record Socket : Type 0 where
  pub pad_slot : ℕ
  pub pad_uid : ℕ
  pub pad_timeout : ℕ
  pub slot : ℕ
  pub ends : Ends
  pub local_port : ℕ
  pub rem_port : ℕ
  pub state : ℕ
  pub tx_queue : ℕ
  pub rx_queue : ℕ
  pub timer : ℕ
  pub when : ℕ
  pub retransmits : ℕ
  pub uid : ℕ
  pub timeout : ℕ
  pub inode : ℕ
  pub more : List ℕ

-- %08X of each word.
unfoldable pub words_text : List ℕ → List ℕ
unfolding hex_digits
words_text [] = []
words_text (w ∷ ws) = hex_digits 8 w [] ++ words_text ws

abbrev pub hex_text : ℕ → ℕ → List ℕ
hex_text width n = hex_digits width n []

-- "%08X:%04X ", and what follows.
abbrev pub end_text : List ℕ → ℕ → List ℕ → List ℕ
end_text address port rest = words_text address ++ (b':' ∷ (hex_text 4 port ++ (b' ' ∷ rest)))

-- "%02X:%08X %08X ", and what follows.
abbrev pub timers_text : Socket → List ℕ → List ℕ
timers_text s rest =
    hex_text 2 s.timer
    ++ (b':' ∷ (hex_text 8 s.when ++ (b' ' ∷ (hex_text 8 s.retransmits ++ (b' ' ∷ rest)))))

-- "%02X %08X:%08X %02X:%08X %08X ", and what follows.
abbrev pub queues_text : Socket → List ℕ → List ℕ
queues_text s rest =
    hex_text 2 s.state
    ++ (b' '
        ∷ (hex_text 8 s.tx_queue
            ++ (b':' ∷ (hex_text 8 s.rx_queue ++ (b' ' ∷ timers_text s rest)))))

-- "%5u %8d %lu " and the rest.
abbrev pub owner_text : Socket → List ℕ
owner_text s = spaces s.pad_uid (
    decimal s.uid
    ++ (b' '
        ∷ spaces s.pad_timeout
            (decimal s.timeout ++ (b' ' ∷ (decimal s.inode ++ (b' ' ∷ s.more))))))

-- "%4d: %08X:%04X %08X:%04X %02X %08X:%08X %02X:%08X %08X %5u %8d %lu ", and the rest.
unfoldable pub kernel_line : Socket → List ℕ
kernel_line s = spaces s.pad_slot (
    decimal s.slot
    ++ (b':'
        ∷ b' '
        ∷ end_text (local_words s.ends) s.local_port
            (end_text (rem_words s.ends) s.rem_port (queues_text s (owner_text s)))))

-- The row that it stands for.
abbrev pub row_of : Socket → Row
row_of s = record {
  local_addr = words_text (local_words s.ends);
  local_port = s.local_port;
  rem_addr = words_text (rem_words s.ends);
  rem_port = s.rem_port;
  inode = s.inode;
}

abbrev pub WordsFit : List ℕ → Type 0
WordsFit = All (λ w. w < 2 ^ 32)

-- The numbers fit their types.
pub record Fits (s : Socket) : Type 0 where
  pub slot : s.slot < 2 ^ 31
  pub local : WordsFit (local_words s.ends)
  pub local_port : s.local_port < 2 ^ 16
  pub remote : WordsFit (rem_words s.ends)
  pub rem_port : s.rem_port < 2 ^ 16
  pub uid : s.uid < 2 ^ 32
  pub timeout : s.timeout < 2 ^ 31
  pub inode : s.inode < 2 ^ 64

pub AllHex-words_text : (ws : List ℕ) → AllHex (words_text ws)
unfolding words_text
AllHex-words_text [] = tt
AllHex-words_text (w ∷ ws) =
    All-append _ (hex_digits 8 w []) (words_text ws) (AllHex-hex_digits 8 w [] tt)
      (AllHex-words_text ws)

pub length-words_text : (ws : List ℕ) → length (words_text ws) ≡ 8 * length ws
unfolding words_text
length-words_text [] = omega arith
length-words_text (w ∷ ws) = omega (
  arith,
  length-append (hex_digits 8 w []) (words_text ws),
  length-hex_digits 8 w [],
  length-words_text ws,
)

HexText-words_text : (ws : List ℕ) → 1 ≤ length ws → length ws ≤ 8 → HexText 64 (words_text ws)
HexText-words_text ws h k = record {
  all_hex = AllHex-words_text ws;
  some_hex = omega (arith, length-words_text ws);
  fits = omega (arith, length-words_text ws);
}

pub HexText-local : (e : Ends) → HexText 64 (words_text (local_words e))
HexText-local (ipv4 a b) = HexText-words_text (a ∷ []) (omega arith) (omega arith)
HexText-local (ipv6 u v) = HexText-words_text (words_of u) (omega arith) (omega arith)

pub HexText-remote : (e : Ends) → HexText 64 (words_text (rem_words e))
HexText-remote (ipv4 a b) = HexText-words_text (b ∷ []) (omega arith) (omega arith)
HexText-remote (ipv6 u v) = HexText-words_text (words_of v) (omega arith) (omega arith)
