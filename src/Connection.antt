-- ===== src/Connection.antt =====
-- class Connection (src/connection.h, src/connection.cpp), the object by itself. The list of all
-- connections, which its constructor and destructor change, is in Store.
pub mod Accounting
use nethogs.Base.{
  ℕ, ◌≡◌, Bool, true, false, List, [], ◌∷◌, Result, ok, fault, ◌>>=◌, ℤ, to_int, add64,
}
use nethogs.LocalAddr.{LocalAddr}
use nethogs.Packet.{Packet, RawPacket, Timeval, copy, new_inverted, outgoing}
use nethogs.PackList

pub record Connection : Type 0 where
  pub refpacket : Packet
  pub sum_sent : ℕ
  pub sum_recv : ℕ
  pub sent_packets : List Packet
  pub recv_packets : List Packet
  pub lastpacket : ℤ

-- Connection(Packet *), once the direction of the packet is known.
unfoldable pub connection_by : RawPacket → Bool → Packet → Connection
unfolding copy PackList.add new_inverted
connection_by raw true packet = record {
  refpacket = copy packet;
  sum_sent = add64 0 packet.len;
  sum_recv = 0;
  sent_packets = PackList.add [] packet;
  recv_packets = [];
  lastpacket = to_int packet.time.tv_sec;
}
connection_by raw false packet = record {
  refpacket = new_inverted raw packet;
  sum_sent = 0;
  sum_recv = add64 0 packet.len;
  sent_packets = [];
  recv_packets = PackList.add [] packet;
  lastpacket = to_int packet.time.tv_sec;
}

-- The object that the constructor makes, and the packet with its direction.
unfoldable pub connection : List LocalAddr → RawPacket → Packet → Result (Connection × Packet)
unfolding connection_by outgoing
connection local_addrs raw packet = do
  (out, packet') ← outgoing local_addrs packet
  ok (connection_by raw out packet', packet')

-- Connection::add, once the direction of the packet is known.
unfoldable pub add_by : Connection → Bool → Packet → Connection
unfolding PackList.add
add_by c true packet = record c {
  sum_sent = add64 c.sum_sent packet.len;
  sent_packets = PackList.add c.sent_packets packet;
  lastpacket = to_int packet.time.tv_sec;
}
add_by c false packet = record c {
  sum_recv = add64 c.sum_recv packet.len;
  recv_packets = PackList.add c.recv_packets packet;
  lastpacket = to_int packet.time.tv_sec;
}

unfoldable pub add : List LocalAddr → Connection → Packet → Result (Connection × Packet)
unfolding add_by outgoing
add local_addrs c packet = do
  (out, packet') ← outgoing local_addrs packet
  ok (add_by c out packet', packet')

-- Connection::sumanddel: what was received and what was sent, in the order of its parameters.
unfoldable pub sumanddel : Connection → Timeval → (ℕ × ℕ) × Connection
unfolding PackList.sumanddel
sumanddel c t =
    let (sent, sent_packets') = PackList.sumanddel t c.sent_packets in
    let (recv, recv_packets') = PackList.sumanddel t c.recv_packets in
    ((recv, sent), record c { sent_packets = sent_packets'; recv_packets = recv_packets' })
