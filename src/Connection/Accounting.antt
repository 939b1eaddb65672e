-- ===== src/Connection/Accounting.antt =====
-- The reference packet and the two totals of a connection (src/connection.cpp).
use nethogs.Base.{
  ℕ, ◌+◌, ◌%◌, ◌^◌, ◌≡◌, refl, Bool, true, false, List, [], ◌∷◌, arith, ok, to_int, if◌then◌else◌,
  Result, ◌>>=◌,
}
use nethogs.LocalAddr.{LocalAddr}
use nethogs.Packet.{Packet, RawPacket, outgoing_by, dir_outgoing, new_inverted, copy}
use nethogs.Packet.Reverse.{IsInternet, SameEnds}
use nethogs.Connection.{Connection, connection, add, add_by}

module _ (raw : RawPacket) (l : LocalAddr) (ls : List LocalAddr) where
  -- The answer of Outgoing.
  abbrev pub is_out : Packet → Bool
  is_out p = (outgoing_by p.dir (l ∷ ls) p).0

  pub bytes_out : List Packet → ℕ
  bytes_out [] = 0
  bytes_out (p ∷ ps) = (if is_out p then p.len else 0) + bytes_out ps

  pub bytes_in : List Packet → ℕ
  bytes_in [] = 0
  bytes_in (p ∷ ps) = (if is_out p then 0 else p.len) + bytes_in ps

  pub last_second : ℕ → List Packet → ℕ
  last_second s [] = s
  last_second s (p ∷ ps) = last_second p.time.tv_sec ps

  pub add_all : Connection → List Packet → Result Connection
  add_all c [] = ok c
  add_all c (p ∷ ps) = do (c', _) ← add (l ∷ ls) c p; add_all c' ps

  -- A connection made from its first packet, to which the others are added.
  pub feed : Packet → List Packet → Result Connection
  feed p ps = do (c, _) ← connection (l ∷ ls) raw p; add_all c ps

  -- The parts of a connection that its packets leave behind.
  pub record Accounts (c : Connection) (out inc last : ℕ) (ref : Packet) : Type 0 where
    pub sent : c.sum_sent ≡ out % 2 ^ 64
    pub received : c.sum_recv ≡ inc % 2 ^ 64
    pub last_packet : c.lastpacket ≡ to_int last
    pub reference : c.refpacket ≡ ref

  outgoing_by-keeps :
      (p : Packet)
      → let p' = (outgoing_by p.dir (l ∷ ls) p).1 in (p'.len ≡ p.len) × (p'.time ≡ p.time)
  unfolding outgoing_by
  outgoing_by-keeps p = ground arith

  add_by-Accounts :
      (c : Connection) (p p' ref : Packet) (out inc last : ℕ) (b : Bool)
      → p'.len ≡ p.len
      → p'.time ≡ p.time
      → Accounts c out inc last ref
      → Accounts
          (add_by c b p')
          (out + (if b then p.len else 0))
          (inc + (if b then 0 else p.len))
          p.time.tv_sec
          ref
  unfolding add_by
  add_by-Accounts c p p' ref out inc last true e f a = ground arith
  add_by-Accounts c p p' ref out inc last false e f a = ground arith

  add_all-Accounts :
      (ps : List Packet) (c : Connection) (ref : Packet) (out inc last : ℕ)
      → Accounts c out inc last ref
      → (d : Connection) × (add_all c ps ≡ ok d)
        × Accounts d (out + bytes_out ps) (inc + bytes_in ps) (last_second last ps) ref
  unfolding add_all bytes_out bytes_in last_second add
  add_all-Accounts [] c ref out inc last a = (c, refl, ground arith)
  add_all-Accounts (p ∷ ps) c ref out inc last a =
      let (len, time) = outgoing_by-keeps p in
      let p' = (outgoing_by p.dir (l ∷ ls) p).1 in
      let (d, e, a') =
        add_all-Accounts ps _ ref _ _ _
          (add_by-Accounts c p p' ref out inc last (is_out p) len time a) in
      (d, e, ground arith)

  -- The reference packet of a connection that starts with this packet.
  abbrev pub ref_of : Packet → Packet
  ref_of p =
      let p' = (outgoing_by p.dir (l ∷ ls) p).1 in if is_out p then copy p' else new_inverted raw p'

  -- Where the machine has an address, a connection that is fed its packets one by one never fails, and
  -- it ends with the bytes that
  -- went out and those that came in (modulo 2^64), the second of the last packet as an `int`, and
  -- the reference packet of its first packet.
  pub feed-Accounts :
      (p : Packet) (ps : List Packet)
      → (c : Connection) × (feed p ps ≡ ok c)
        × Accounts c (bytes_out (p ∷ ps)) (bytes_in (p ∷ ps)) (last_second 0 (p ∷ ps)) (ref_of p)
  unfolding feed bytes_out bytes_in last_second connection
  feed-Accounts p ps =
      let (len, time) = outgoing_by-keeps p in
      let (d, e, a) =
        add_all-Accounts ps _ (ref_of p) (if is_out p then p.len else 0)
          (if is_out p then 0 else p.len) p.time.tv_sec (ground arith) in
      (d, e, a)

  -- The reference packet is outgoing, and has the ends of the packet if that goes out, and the
  -- reversed ends if it comes in.
  pub ref_of_outgoing :
      (p : Packet)
      → IsInternet p
      → ((ref_of p).dir ≡ dir_outgoing)
        × (is_out p ≡ true → SameEnds (ref_of p) p)
        × (is_out p ≡ false → SameEnds (ref_of p) (new_inverted raw p))
  unfolding outgoing_by copy new_inverted
  ref_of_outgoing p h = ground arith
