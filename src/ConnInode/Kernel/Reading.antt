-- ===== src/ConnInode/Kernel/Reading.antt =====
-- The line of a socket is read back by sscanf (addtoconninode, src/conninode.cpp).
use nethogs.Base.{ℕ, suc, ◌≤◌, ◌<◌, ◌^◌, ◌≡◌, refl, false, some, List, [], ◌∷◌, ◌++◌, arith}
use nethogs.Packet.{decimal}
use nethogs.Sscanf.{◌>>=◌, ◌>>◌, space, hex, dec, hex_value, is_digit}
use nethogs.Sscanf.Hex.{
  Closes, spaces, HexText, hex_value-hex_digits, hex_set-HexText, hex-HexText, space-HexText,
  HexText-hex_digits, lit-same,
}
use nethogs.Sscanf.Decimal.{dec-decimal, space-decimal}
use nethogs.ConnInode.Kernel.{
  Socket, Fits, words_text, hex_text, end_text, timers_text, queues_text, owner_text, kernel_line,
  row_of, HexText-local, HexText-remote, local_words, rem_words,
}
use nethogs.ConnInode.{scan_end, scan_queues, scan_inode, scan_row}

port-read : (n : ℕ) → n < 2 ^ 16 → hex_value 0 (hex_text 4 n) ≡ n
unfolding hex_value
port-read n h = hex_value-hex_digits 4 n [] (omega arith) (omega arith)

scan_end-end_text :
    (address : List ℕ) (port : ℕ) (rest : List ℕ)
    → HexText 64 (words_text address)
    → port < 2 ^ 16
    → scan_end (b' ' ∷ end_text address port rest) ≡ some ((words_text address, port), b' ' ∷ rest)
unfolding scan_end
scan_end-end_text address port rest h k =
    let tail = hex_text 4 port ++ (b' ' ∷ rest) in
    rw
      (
        space-HexText (words_text address) (b':' ∷ tail) h,
        hex_set-HexText (words_text address) b':' tail h refl,
        lit-same b':' tail,
        hex-HexText (hex_text 4 port) b' ' rest
            (HexText-hex_digits 4 port (omega arith) (omega arith)) (refl, refl, refl),
        port-read port k,
        scan_end,
        ◌>>=◌,
        ◌>>◌,
      )
      refl

-- A skipped number in base 16.
skipped :
    (w n d : ℕ) (rest : List ℕ)
    → 1 ≤ w
    → w ≤ 64
    → Closes d
    → hex (hex_text w n ++ (d ∷ rest)) ≡ some (hex_value 0 (hex_text w n), d ∷ rest)
skipped w n d rest h k e = hex-HexText (hex_text w n) d rest (HexText-hex_digits w n h k) e

scan_queues-queues_text :
    (s : Socket) (rest : List ℕ) → scan_queues (b' ' ∷ queues_text s rest) ≡ some (tt, b' ' ∷ rest)
unfolding scan_queues
scan_queues-queues_text s rest =
    let t4 = hex_text 8 s.retransmits ++ (b' ' ∷ rest) in
    let t3 = hex_text 8 s.when ++ (b' ' ∷ t4) in
    let t2 = timers_text s rest in
    let t1 = hex_text 8 s.rx_queue ++ (b' ' ∷ t2) in
    let t0 = hex_text 8 s.tx_queue ++ (b':' ∷ t1) in
    let ends : Closes b' ' = (refl, refl, refl) in
    let colon : Closes b':' = (refl, refl, refl) in
    rw
      (
        space-HexText (hex_text 2 s.state) (b' ' ∷ t0)
            (HexText-hex_digits 2 s.state (omega arith) (omega arith)),
        skipped 2 s.state b' ' t0 (omega arith) (omega arith) ends,
        space-HexText (hex_text 8 s.tx_queue) (b':' ∷ t1)
            (HexText-hex_digits 8 s.tx_queue (omega arith) (omega arith)),
        skipped 8 s.tx_queue b':' t1 (omega arith) (omega arith) colon,
        lit-same b':' t1,
        skipped 8 s.rx_queue b' ' t2 (omega arith) (omega arith) ends,
        space-HexText (hex_text 2 s.timer) (b':' ∷ t3)
            (HexText-hex_digits 2 s.timer (omega arith) (omega arith)),
        skipped 2 s.timer b':' t3 (omega arith) (omega arith) colon,
        lit-same b':' t3,
        skipped 8 s.when b' ' t4 (omega arith) (omega arith) ends,
        space-HexText (hex_text 8 s.retransmits) (b' ' ∷ rest)
            (HexText-hex_digits 8 s.retransmits (omega arith) (omega arith)),
        skipped 8 s.retransmits b' ' rest (omega arith) (omega arith) ends,
        scan_queues,
        ◌>>=◌,
        ◌>>◌,
      )
      refl

blank_behind :
    (k n : ℕ) (rest : List ℕ)
    → space (b' ' ∷ spaces k (decimal n ++ rest)) ≡ some (tt, decimal n ++ rest)
unfolding spaces
blank_behind k n rest = space-decimal (suc k) n rest

number :
    (n d : ℕ) (rest : List ℕ)
    → n < 2 ^ 64
    → is_digit d ≡ false
    → dec (decimal n ++ (d ∷ rest)) ≡ some (n, d ∷ rest)
unfolding spaces
number n d rest h e = dec-decimal 0 n d rest h e

scan_inode-owner_text :
    (s : Socket) → Fits s → scan_inode (b' ' ∷ owner_text s) ≡ some (s.inode, b' ' ∷ s.more)
unfolding scan_inode spaces
scan_inode-owner_text s f =
    let t1 = decimal s.inode ++ (b' ' ∷ s.more) in
    let t0 = spaces s.pad_timeout (decimal s.timeout ++ (b' ' ∷ t1)) in
    rw
      (
        blank_behind s.pad_uid s.uid (b' ' ∷ t0),
        number s.uid b' ' t0 (omega (arith, f.uid)) refl,
        blank_behind s.pad_timeout s.timeout (b' ' ∷ t1),
        number s.timeout b' ' t1 (omega (arith, f.timeout)) refl,
        blank_behind 0 s.inode (b' ' ∷ s.more),
        number s.inode b' ' s.more f.inode refl,
        scan_inode,
        ◌>>=◌,
        ◌>>◌,
      )
      refl

-- The line that the kernel prints for a socket is read back as its row.
pub scan_row-kernel_line :
    (s : Socket) → Fits s → scan_row (kernel_line s) ≡ some (row_of s, b' ' ∷ s.more)
unfolding scan_row kernel_line
scan_row-kernel_line s f =
    let owner = owner_text s in
    let queues = queues_text s owner in
    let remote = end_text (rem_words s.ends) s.rem_port queues in
    let local = end_text (local_words s.ends) s.local_port remote in
    rw
      (
        dec-decimal s.pad_slot s.slot b':' (b' ' ∷ local) (omega (arith, f.slot)) refl,
        lit-same b':' (b' ' ∷ local),
        scan_end-end_text (local_words s.ends) s.local_port remote (HexText-local s.ends)
            f.local_port,
        scan_end-end_text (rem_words s.ends) s.rem_port queues (HexText-remote s.ends) f.rem_port,
        scan_queues-queues_text s owner,
        scan_inode-owner_text s f,
        scan_row,
        kernel_line,
        ◌>>=◌,
        ◌>>◌,
      )
      refl
