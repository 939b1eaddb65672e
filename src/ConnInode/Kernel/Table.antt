-- ===== src/ConnInode/Kernel/Table.antt =====
-- The connection table that comes of /proc/net/tcp and /proc/net/tcp6 as the kernel prints them
-- (refreshconninode, src/conninode.cpp).
use nethogs.Base.{
  ℕ, ◌^◌, ◌<◌, ◌≡◌, refl, ap, ◌∙◌, some, List, [], ◌∷◌, All, map, arith, ok, ◌==◌, if◌then◌else◌,
}
use mathlib.Core.Path.{ap₂}
use nethogs.LocalAddr.{AddressText, LocalAddr}
use nethogs.Packet.{hashkey}
use nethogs.Sscanf.{hex_value}
use nethogs.Sscanf.Hex.{hex_digits, hex_value-hex_digits}
use nethogs.ConnInode.{
  ConnTable, Words, Row, Addr, addr4, decode, decode6, addr_text, add_row, addtoconninode,
  add_lines, addprocinfo, refreshconninode,
}
use nethogs.ConnInode.Keys.{elem, row_keys, local_ends, add_row-lookup}
use nethogs.ConnInode.Kernel.{
  Ends, ipv4, ipv6, Socket, local_words, rem_words, words_text, hex_text, kernel_line, row_of, Fits,
  WordsFit, words_of,
}
use nethogs.ConnInode.Kernel.Reading.{scan_row-kernel_line}

-- The addresses of a socket, in the family in which they are put down: IPv6 unless the local one is
-- an IPv4 address in disguise.
abbrev pub addresses : Ends → Addr × Addr
addresses (ipv4 a b) = (addr4 a, addr4 b)
addresses (ipv6 u v) = decode6 u v

word-read : (w : ℕ) → w < 2 ^ 32 → hex_value 0 (hex_text 8 w) ≡ w
unfolding hex_value
word-read w h = hex_value-hex_digits 8 w [] (omega arith) h

-- The words as sscanf reads them.
abbrev reread : Words → Words
reread w = record {
  word0 = hex_value 0 (hex_text 8 w.word0);
  word1 = hex_value 0 (hex_text 8 w.word1);
  word2 = hex_value 0 (hex_text 8 w.word2);
  word3 = hex_value 0 (hex_text 8 w.word3);
}

reread-same : (w : Words) → WordsFit (words_of w) → reread w ≡ w
reread-same w f =
    rw
      (
        word-read w.word0 f.0,
        word-read w.word1 f.1.0,
        word-read w.word2 f.1.1.0,
        word-read w.word3 f.1.1.1.0,
      )
      refl

-- A row of these texts.
abbrev row : Ends → ℕ → ℕ → ℕ → Row
row e local_port rem_port inode = record {
  local_addr = words_text (local_words e);
  local_port = local_port;
  rem_addr = words_text (rem_words e);
  rem_port = rem_port;
  inode = inode;
}

decode4 :
    (raw : Words) (a b lp rp inode : ℕ)
    → decode raw (row (ipv4 a b) lp rp inode)
      ≡ (addr4 (hex_value 0 (hex_text 8 a)), addr4 (hex_value 0 (hex_text 8 b)))
unfolding decode words_text hex_digits
decode4 raw a b lp rp inode = refl

decode_words :
    (raw u v : Words) (lp rp inode : ℕ)
    → decode raw (row (ipv6 u v) lp rp inode) ≡ decode6 (reread u) (reread v)
unfolding decode words_text hex_digits
decode_words raw u v lp rp inode = refl

-- Addresses are decoded as they were printed, whatever the words held before.
decode-addresses :
    (raw : Words) (e : Ends) (lp rp inode : ℕ)
    → WordsFit (local_words e)
    → WordsFit (rem_words e)
    → decode raw (row e lp rp inode) ≡ addresses e
decode-addresses raw (ipv4 a b) lp rp inode f g =
    decode4 raw a b lp rp inode ∙ rw (word-read a f.0, word-read b g.0) refl
decode-addresses raw (ipv6 u v) lp rp inode f g =
    decode_words raw u v lp rp inode ∙ ap₂ decode6 (reread-same u f) (reread-same v g)

module _ (net : AddressText) (buf : List ℕ) (local_addrs : List LocalAddr) where
  -- The keys of a socket with these addresses: its remote end behind its own address and behind
  -- every one of the machine.
  abbrev pub keys_at : Socket → Addr × Addr → List (List ℕ)
  keys_at s (local, remote) =
      map (λ text. hashkey text s.local_port (addr_text net buf remote) s.rem_port)
        (addr_text net buf local ∷ map (λ l. l.string) local_addrs)

  pub socket_keys : Socket → List (List ℕ)
  socket_keys s = keys_at s (addresses s.ends)

  -- The inode that a key has behind these sockets: that of the last one with an inode that has the
  -- key, or the one from before.
  pub last_inode : List ℕ → List Socket → ℕ → ℕ
  last_inode key [] before = before
  last_inode key (s ∷ sockets) before =
      last_inode key sockets
        (if s.inode == 0 then before else if elem key (socket_keys s) then s.inode else before)

module _ (net : AddressText) (buf : List ℕ) (raw : Words) (local_addrs : List LocalAddr) where
  keys-same :
      (s : Socket)
      → Fits s
      → row_keys net buf raw local_addrs (row_of s) ≡ socket_keys net buf local_addrs s
  unfolding row_keys local_ends socket_keys
  keys-same s f =
      ap (keys_at net buf local_addrs s)
        (decode-addresses raw s.ends s.local_port s.rem_port s.inode f.local f.remote)

  lines-last_inode :
      (sockets : List Socket) (t : ConnTable)
      → All Fits sockets
      → (t' : ConnTable) × (add_lines net buf raw local_addrs t (map kernel_line sockets) ≡ ok t')
        × ((key : List ℕ) → t' key ≡ last_inode net buf local_addrs key sockets (t key))
  unfolding add_lines addtoconninode last_inode
  lines-last_inode [] t f = (t, refl, λ key. refl)
  lines-last_inode (s ∷ sockets) t f =
      let t1 = add_row net buf raw local_addrs t (row_of s) in
      let (t', e, last) = lines-last_inode sockets t1 f.1 in
      (
        t',
        rw (scan_row-kernel_line s f.0, add_lines) e,
        λ key.
            last key
            ∙ ap (last_inode net buf local_addrs key sockets) (
                add_row-lookup net buf raw local_addrs t (row_of s) key
                ∙ rw (keys-same s f.0) refl),
      )

  -- Where /proc/net/tcp and /proc/net/tcp6 are as the kernel prints them, each with a first line of
  -- any text: the reading never ends the program, and behind it every key has the inode
  -- of the last socket that has one and the key, first of IPv4 and then of IPv6, or what it had.
  pub refreshconninode-last_inode :
      (head head6 : List ℕ) (sockets sockets6 : List Socket) (t : ConnTable)
      → All Fits sockets
      → All Fits sockets6
      → (t' : ConnTable) × (refreshconninode net buf raw local_addrs
            (record {
              tcp = some (head ∷ map kernel_line sockets);
              tcp6 = some (head6 ∷ map kernel_line sockets6);
            })
            t
          ≡ ok t')
        × ((key : List ℕ)
            → t' key
              ≡ last_inode net buf local_addrs key sockets6
                  (last_inode net buf local_addrs key sockets (t key)))
  unfolding refreshconninode addprocinfo
  refreshconninode-last_inode head head6 sockets sockets6 t f g =
      let (t', e, last) = lines-last_inode sockets t f in
      let (t'', e', last') = lines-last_inode sockets6 t' g in
      (
        t'',
        rw (e, e') refl,
        λ key. last' key ∙ ap (last_inode net buf local_addrs key sockets6) (last key),
      )
