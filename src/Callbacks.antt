-- ===== src/Callbacks.antt =====
-- The callbacks that turn captured packets into traffic: process_ip, process_ip6, process_tcp and
-- process_udp (src/nethogs.cpp). A pointer into a packet is the memory behind it, byte by byte.
use nethogs.Base.{
  ℕ, zero, suc, ◌+◌, ◌*◌, ◌^◌, Bool, true, false, Option, none, some, List, [], ◌∷◌, Result, ok,
  null_pointer, dangling, ◌>>=◌, or_fault,
}
use nethogs.LocalAddr.{Family, af_unspec, af_inet, af_inet6, In6Addr}
use nethogs.Packet.{Packet, Timeval, packet, packet6, dir_unknown}
use nethogs.Store.{new_connection, add_packet}
use nethogs.World.{
  World, Host, ipproto_tcp, ipproto_udp, find_connection, find_address, get_process,
  link_connection,
}

abbrev pub Bytes : Type 0
Bytes = ℕ → ℕ

-- The pointer `n` bytes on.
abbrev pub advance : ℕ → Bytes → Bytes
advance n m i = m (n + i)

-- ntohs of the two bytes at an offset.
abbrev pub ntohs_at : Bytes → ℕ → ℕ
ntohs_at m i = m i * 256 + m (i + 1)

-- An in_addr as a little-endian machine reads it.
abbrev pub addr_at : Bytes → ℕ → ℕ
addr_at m i = m i + m (i + 1) * 2 ^ 8 + m (i + 2) * 2 ^ 16 + m (i + 3) * 2 ^ 24

abbrev pub bytes_at : ℕ → Bytes → ℕ → List ℕ
bytes_at zero m i = []
bytes_at (suc n) m i = m i ∷ bytes_at n m (i + 1)

-- struct pcap_pkthdr, without caplen.
pub record DpHeader : Type 0 where
  pub ts : Timeval
  pub len : ℕ

-- struct dpargs
pub record DpArgs : Type 0 where
  pub device : List ℕ
  pub sa_family : Family
  pub ip_src : ℕ
  pub ip_dst : ℕ
  pub ip6_src : In6Addr
  pub ip6_dst : In6Addr

-- process_ip: the addresses of struct ip stand at 12 and 16. It answers false: not done.
unfoldable pub process_ip : DpArgs → DpHeader → Bytes → Bool × DpArgs
process_ip args header m_packet = (
  false,
  record args { sa_family = af_inet; ip_src = addr_at m_packet 12; ip_dst = addr_at m_packet 16 },
)

-- process_ip6: the addresses of struct ip6_hdr stand at 8 and 24.
unfoldable pub process_ip6 : DpArgs → DpHeader → Bytes → Bool × DpArgs
process_ip6 args header m_packet = (
  false,
  record args {
    sa_family = af_inet6;
    ip6_src = bytes_at 16 m_packet 8;
    ip6_dst = bytes_at 16 m_packet 24;
  },
)

-- The switch that makes the Packet; the ports are the first four bytes of a TCP or UDP header.
unfoldable pub make_packet : Host → DpArgs → DpHeader → Bytes → Option Packet
unfolding packet packet6
make_packet h args header m_packet = elim args.sa_family [
  | af_inet ↦ some (
      packet h.raw_packet args.ip_src (ntohs_at m_packet 0) args.ip_dst (ntohs_at m_packet 2)
        header.len header.ts dir_unknown)
  | af_inet6 ↦ some (
      packet6 h.raw_packet args.ip6_src (ntohs_at m_packet 0) args.ip6_dst (ntohs_at m_packet 2)
        header.len header.ts dir_unknown)
  | af_unspec ↦ none
]

-- connection->add(packet)
unfoldable pub add_known : World → ℕ → Packet → Result World
unfolding add_packet
add_known w i p = do
  (_, store') ← add_packet w.local_addrs w.store i p
  ok (record w { store = store' })

-- new Connection(packet), then getProcess.
unfoldable pub add_tcp : Host → World → List ℕ → Packet → Result World
unfolding new_connection get_process
add_tcp h w device p = do
  (i, _, store') ← new_connection w.local_addrs h.raw_packet w.store p
  (_, w') ← get_process h (record w { store = store' }) i device
  ok w'

-- new Connection(packet), then a node in front of unknownudp->connections.
unfoldable pub add_udp : Host → World → Packet → Result World
unfolding new_connection link_connection
add_udp h w p = do
  (i, _, store') ← new_connection w.local_addrs h.raw_packet w.store p
  a ← or_fault null_pointer w.unknownudp
  _ ← or_fault dangling (find_address a w.processes)
  ok (record w { store = store'; processes = link_connection a i w.processes })

abbrev pub found_or : World → Packet → Result World → Option ℕ → Result World
found_or w p new none = new
found_or w p new (some i) = add_known w i p

unfoldable pub receive_tcp : Host → World → List ℕ → Packet → Result World
unfolding find_connection add_known add_tcp
receive_tcp h w device p = do
  (found, p') ← find_connection h w p ipproto_tcp
  found_or w p' (add_tcp h w device p') found

unfoldable pub receive_udp : Host → World → Packet → Result World
unfolding find_connection add_known add_udp
receive_udp h w p = do
  (found, p') ← find_connection h w p ipproto_udp
  found_or w p' (add_udp h w p') found

-- process_tcp: always done. A packet of no known family is reported and dropped.
unfoldable pub process_tcp : Host → DpArgs → DpHeader → Bytes → World → Result (Bool × World)
unfolding make_packet receive_tcp
process_tcp h args header m_packet w =
    let w0 = record w { curtime = header.ts } in
    elim (make_packet h args header m_packet) [
      | none ↦ ok (true, w0)
      | some p ↦ do w' ← receive_tcp h w0 args.device p; ok (true, w')
    ]

unfoldable pub process_udp : Host → DpArgs → DpHeader → Bytes → World → Result (Bool × World)
unfolding make_packet receive_udp
process_udp h args header m_packet w =
    let w0 = record w { curtime = header.ts } in
    elim (make_packet h args header m_packet) [
      | none ↦ ok (true, w0)
      | some p ↦ do w' ← receive_udp h w0 p; ok (true, w')
    ]
