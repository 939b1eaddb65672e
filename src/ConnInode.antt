-- ===== src/ConnInode.antt =====
-- The table from connections to socket inodes, read from /proc/net/tcp and /proc/net/tcp6
-- (src/conninode.cpp). A file is an argument: the lines that fgets gives, if it opens.
mod Scanning
pub mod Keys
pub mod Errors
pub mod Kernel
pub use Scanning.{Row}
unfoldable pub use Scanning.{scan_row, scan_end, scan_queues, scan_inode}
use nethogs.Base.{
  ℕ, zero, suc, ◌+◌, ◌*◌, ◌/◌, ◌%◌, ◌^◌, Bool, true, false, ◌&&◌, Option, none, some, List, [], ◌∷◌,
  ◌==◌, ltb, bytes_eq, length, take, drop, if◌then◌else◌, Result, ok, fault, exited, ◌>>=◌, ◌>>◌,
  guard, or_fault,
}
use nethogs.LocalAddr.{AddressText, LocalAddr, Family, af_inet, af_inet6, inet_ntop, or_raw}
use nethogs.Packet.{hashkey}
use nethogs.Sscanf.{hex_value}

-- std::map<std::string, unsigned long>: operator[] gives 0 for a missing key.
abbrev pub ConnTable : Type 0
ConnTable = List ℕ → ℕ

abbrev pub set_conn : ConnTable → List ℕ → ℕ → ConnTable
set_conn t key inode k = if bytes_eq key k then inode else t k

-- An in6_addr by its four words, s6_addr32.
pub record Words : Type 0 where
  pub word0 : ℕ
  pub word1 : ℕ
  pub word2 : ℕ
  pub word3 : ℕ

-- One %08X on a text of hexadecimal digits: nothing is stored where no digit is left.
abbrev pub word_of : List ℕ → ℕ → ℕ
word_of [] raw = raw
word_of (c ∷ s) raw = hex_value 0 (c ∷ s)

-- sscanf (text, "%08X%08X%08X%08X", …) over words that hold `raw` before.
unfoldable pub scan_words : Words → List ℕ → Words
unfolding hex_value
scan_words raw text = record {
  word0 = word_of (take 8 text) raw.word0;
  word1 = word_of (take 8 (drop 8 text)) raw.word1;
  word2 = word_of (take 8 (drop 16 text)) raw.word2;
  word3 = word_of (take 8 (drop 24 text)) raw.word3;
}

-- The bytes of a word on a little-endian machine.
abbrev pub word_bytes : ℕ → List ℕ → List ℕ
word_bytes w rest = (w % 256) ∷ (w / 2 ^ 8 % 256) ∷ (w / 2 ^ 16 % 256) ∷ (w / 2 ^ 24 % 256) ∷ rest

abbrev pub words_bytes : Words → List ℕ
words_bytes w = word_bytes w.word0 (word_bytes w.word1 (word_bytes w.word2 (word_bytes w.word3 [])))

-- A decoded address: an s_addr, or the 16 bytes of an IPv6 address.
pub data Addr : Type 0 where
  addr4 : ℕ → Addr
  addr6 : List ℕ → Addr

abbrev is_mapped : Words → Bool
is_mapped w = w.word0 == 0 && (w.word1 == 0 && w.word2 == 0xFFFF0000)

-- An IPv6-style row: both addresses follow the form of the local one.
abbrev pub decode6 : Words → Words → Addr × Addr
decode6 in6_local in6_remote =
    if is_mapped in6_local
    then (addr4 in6_local.word3, addr4 in6_remote.word3)
    else (addr6 (words_bytes in6_local), addr6 (words_bytes in6_remote))

unfoldable pub decode : Words → Row → Addr × Addr
unfolding scan_words
decode raw row =
    if ltb 8 (length row.local_addr)
    then decode6 (scan_words raw row.local_addr) (scan_words raw row.rem_addr)
    else (addr4 (hex_value 0 row.local_addr), addr4 (hex_value 0 row.rem_addr))

-- inet_ntop into a buffer of 50 bytes that it is told has 49.
unfoldable pub addr_text : AddressText → List ℕ → Addr → List ℕ
unfolding inet_ntop
addr_text net buf (addr4 a) = or_raw (inet_ntop (net.text a) 49) buf
addr_text net buf (addr6 a) = or_raw (inet_ntop (net.text6 a) 49) buf

-- The loop over the local addresses, with its workaround for machines with several interfaces.
unfoldable pub add_local_keys : ℕ → ℕ → List ℕ → ℕ → List LocalAddr → ConnTable → ConnTable
unfolding hashkey
add_local_keys local_port rem_port remote_string inode [] t = t
add_local_keys local_port rem_port remote_string inode (l ∷ next) t =
    add_local_keys local_port rem_port remote_string inode next
      (set_conn t (hashkey l.string local_port remote_string rem_port) inode)

unfoldable pub add_row : AddressText → List ℕ → Words → List LocalAddr → ConnTable → Row → ConnTable
unfolding add_local_keys decode addr_text hashkey
add_row net buf raw local_addrs t row =
    if row.inode == 0
    then t
    else (let (local, remote) = decode raw row in
        let local_string = addr_text net buf local in
        let remote_string = addr_text net buf remote in
        add_local_keys row.local_port row.rem_port remote_string row.inode local_addrs
          (set_conn t (hashkey local_string row.local_port remote_string row.rem_port) row.inode))

-- addtoconninode: a line that does not have the five values ends the program.
unfoldable pub addtoconninode :
    AddressText → List ℕ → Words → List LocalAddr → ConnTable → List ℕ → Result ConnTable
unfolding scan_row add_row
addtoconninode net buf raw local_addrs t buffer = do
  (row, _) ← or_fault exited (scan_row buffer)
  ok (add_row net buf raw local_addrs t row)

-- The loop of addprocinfo over the lines behind the first.
unfoldable pub add_lines :
    AddressText → List ℕ → Words → List LocalAddr → ConnTable → List (List ℕ) → Result ConnTable
unfolding addtoconninode
add_lines net buf raw local_addrs t [] = ok t
add_lines net buf raw local_addrs t (buffer ∷ procinfo) = do
  t' ← addtoconninode net buf raw local_addrs t buffer
  add_lines net buf raw local_addrs t' procinfo

-- addprocinfo: false if the file does not open.
unfoldable pub addprocinfo :
    AddressText
    → List ℕ
    → Words
    → List LocalAddr
    → ConnTable
    → Option (List (List ℕ))
    → Result (Bool × ConnTable)
unfolding add_lines
addprocinfo net buf raw local_addrs t none = ok (false, t)
addprocinfo net buf raw local_addrs t (some lines) = do
  t' ← add_lines net buf raw local_addrs t (drop 1 lines)
  ok (true, t')

-- The two files of /proc/net.
pub record ProcNet : Type 0 where
  pub tcp : Option (List (List ℕ))
  pub tcp6 : Option (List (List ℕ))

-- refreshconninode: without /proc/net/tcp the program ends; /proc/net/tcp6 may be missing.
unfoldable pub refreshconninode :
    AddressText → List ℕ → Words → List LocalAddr → ProcNet → ConnTable → Result ConnTable
unfolding addprocinfo
refreshconninode net buf raw local_addrs files t = do
  (opened, t') ← addprocinfo net buf raw local_addrs t files.tcp
  guard opened exited
  (_, t'') ← addprocinfo net buf raw local_addrs t' files.tcp6
  ok t''
